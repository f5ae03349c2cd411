-- ===== src/Revision/Jvm/Collisions/Owners.antt =====
-- What a passed collision check says of the options.
use boot_optim_distribution.Base.{
  int_eq, lookup, insert, lookup-insert, bind_ok, Bytes, bytes_eq, eq_iff, nat_eq, bool_eq,
  Option-cases, ok, ◌≡◌, ◌⊎◌, inl, inr, none, some, List, [], ◌∷◌, arith,
}
use boot_optim_distribution.Revision.Types.{JvmOption, OptionPlatform}
use boot_optim_distribution.Revision.Jvm.Collisions.{
  option_flag_key, Owners, slot, claim, claim_all, check_flag_collisions,
}

-- The option with this identifier sets the flag of this slot, on one of these platforms.
abbrev pub SetsOn : Bytes → Bytes → List (Bytes × OptionPlatform) → Type 0
SetsOn s key [] = ⊥
SetsOn s key ((platform, _) ∷ rest) = (slot platform key ≡ s) ⊎ SetsOn s key rest

-- An option with identifier `id` sets the flag on the platform that the slot names.
abbrev pub Sets : Bytes → Bytes → List JvmOption → Type 0
Sets s id [] = ⊥
Sets s id (o ∷ os) = ((o.id ≡ id) × SetsOn s (option_flag_key o) o.platforms) ⊎ Sets s id os

-- The slot has its owner still.
keeps :
    (s k : Bytes) (owners : Owners) (t id : Bytes)
    → lookup s owners ≡ some k
    → (lookup t owners ≡ none) ⊎ (lookup t owners ≡ some id)
    → lookup s (insert t id owners) ≡ some k
keeps s k owners t id h free = ground (arith, lookup-insert t s id owners, eq_iff t s)

module _ (id key : Bytes) where
  -- One round of `claim` that went on: the slot was free or its own.
  claim_step :
      (platform : Bytes) (p : OptionPlatform) (rest : List (Bytes × OptionPlatform))
      (owners owners' : Owners)
      → claim id key ((platform, p) ∷ rest) owners ≡ ok owners'
      → ((lookup (slot platform key) owners ≡ none) ⊎ (lookup (slot platform key) owners ≡ some id))
        × (claim id key rest (insert (slot platform key) id owners) ≡ ok owners')
  unfolding claim
  claim_step platform p rest owners owners' h =
      elim (Option-cases (lookup (slot platform key) owners)) [
        | inl e ↦ (inl e, ground arith)
        | inr (owner, e) ↦ (inr (ground (arith, eq_iff owner id)), ground (arith, eq_iff owner id))
      ]

  claim_keeps :
      (ps : List (Bytes × OptionPlatform)) (owners owners' : Owners) (s k : Bytes)
      → claim id key ps owners ≡ ok owners'
      → lookup s owners ≡ some k
      → lookup s owners' ≡ some k
  claim_keeps [] owners owners' s k h here =
      let same : owners ≡ owners' = unfold claim in cc in rw (← same) here
  claim_keeps ((platform, p) ∷ rest) owners owners' s k h here =
      let (free, more) = claim_step platform p rest owners owners' h in
      claim_keeps rest (insert (slot platform key) id owners) owners' s k more
        (keeps s k owners (slot platform key) id here free)

  claim_owns :
      (ps : List (Bytes × OptionPlatform)) (owners owners' : Owners) (s : Bytes)
      → claim id key ps owners ≡ ok owners'
      → SetsOn s key ps
      → lookup s owners' ≡ some id
  claim_owns [] owners owners' s h m = absurd m
  claim_owns ((platform, p) ∷ rest) owners owners' s h (inl e) =
      let (free, more) = claim_step platform p rest owners owners' h in
      claim_keeps rest (insert (slot platform key) id owners) owners' s id more
        (rw (lookup-insert (slot platform key) s id owners, (eq_iff (slot platform key) s).1 e))
  claim_owns ((platform, p) ∷ rest) owners owners' s h (inr m) =
      let (free, more) = claim_step platform p rest owners owners' h in
      claim_owns rest (insert (slot platform key) id owners) owners' s more m

claim_all_step :
    (o : JvmOption) (os : List JvmOption) (owners owners' : Owners)
    → claim_all (o ∷ os) owners ≡ ok owners'
    → (mid : Owners) × (claim o.id (option_flag_key o) o.platforms owners ≡ ok mid)
      × (claim_all os mid ≡ ok owners')
unfolding claim_all
claim_all_step o os owners owners' h =
    bind_ok (claim o.id (option_flag_key o) o.platforms owners) (claim_all os) h

claim_all_keeps :
    (os : List JvmOption) (owners owners' : Owners) (s k : Bytes)
    → claim_all os owners ≡ ok owners'
    → lookup s owners ≡ some k
    → lookup s owners' ≡ some k
claim_all_keeps [] owners owners' s k h here =
    let same : owners ≡ owners' = unfold claim_all in cc in rw (← same) here
claim_all_keeps (o ∷ os) owners owners' s k h here =
    let (mid, first, more) = claim_all_step o os owners owners' h in
    claim_all_keeps os mid owners' s k more
      (claim_keeps o.id (option_flag_key o) o.platforms owners mid s k first here)

claim_all_owns :
    (os : List JvmOption) (owners owners' : Owners) (s id : Bytes)
    → claim_all os owners ≡ ok owners'
    → Sets s id os
    → lookup s owners' ≡ some id
claim_all_owns [] owners owners' s id h m = absurd m
claim_all_owns (o ∷ os) owners owners' s id h (inl (same, m)) =
    let (mid, first, more) = claim_all_step o os owners owners' h in
    claim_all_keeps os mid owners' s id more
      (rw same at (claim_owns o.id (option_flag_key o) o.platforms owners mid s first m))
claim_all_owns (o ∷ os) owners owners' s id h (inr m) =
    let (mid, first, more) = claim_all_step o os owners owners' h in
    claim_all_owns os mid owners' s id more m

-- If the check passes, two options that set one flag on one platform have the same identifier.
pub no_collision :
    (options : List JvmOption) (s a b : Bytes)
    → check_flag_collisions options ≡ ok tt
    → Sets s a options
    → Sets s b options
    → a ≡ b
unfolding check_flag_collisions
no_collision options s a b h ma mb =
    let (owners, run, _) = bind_ok (claim_all options []) _ h in
    let oa = claim_all_owns options [] owners s a run ma in
    let ob = claim_all_owns options [] owners s b run mb in cc
