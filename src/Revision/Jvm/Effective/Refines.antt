-- ===== src/Revision/Jvm/Effective/Refines.antt =====
-- The loop with its position map computes what a walk over the list alone computes.
use Prim.Native.String.{String}
use boot_optim_distribution.Base.{
  int_eq, length, contains, IsDistinct, lookup, delete, lookup-delete, lookup-insert, ◌>>=◌, ◌>>◌,
  bind_ok, Result, Bytes, bytes_eq, if◌then◌else◌, ◌==◌, eq_iff, nat_eq, bool_eq, Bool-cases,
  Option-cases, ok, err, ℕ, zero, suc, ◌≡◌, refl, sym, ap, ◌∙◌, inl, inr, true, false, none, some,
  List, [], ◌∷◌, ◌++◌, arith,
}
use boot_optim_distribution.Revision.Types.{JvmOption, VerifiedRevision}
use boot_optim_distribution.Revision.Jvm.Collisions.{check_flag_collisions}
use boot_optim_distribution.Revision.Jvm.Effective.{
  Index, Resolved, remove_at, set_at, shift, shift_index, remove_option, put_option, remove_options,
  put_options, apply_manifest, resolve_chain, effective_options,
}
use boot_optim_distribution.Revision.Jvm.Effective.Index.{
  ids, omap, position, position-absent, absent-position, lookup-shift_index, position-remove_at,
  position-set_at, position-append,
}
use boot_optim_distribution.Revision.Jvm.Effective.Reference.{
  without, replace_or_append, withdraw, publish, inherit,
}

-- The state of the loop stands for a list.
record Stands (r : Resolved) (xs : List JvmOption) : Type 0 where
  out : r.out ≡ xs
  distinct : IsDistinct (ids xs)
  index : (id : Bytes) → lookup id r.index ≡ position id xs

remove_at-without :
    (id : Bytes) (at : ℕ) (xs : List JvmOption)
    → position id xs ≡ some at
    → remove_at at xs ≡ without id xs
unfolding position remove_at without
remove_at-without id at [] h = cc
remove_at-without id zero (x ∷ xs) h = ground arith
remove_at-without id (suc at) (x ∷ xs) h = ground (arith, remove_at-without id at xs)

set_at-replace :
    (o : JvmOption) (at : ℕ) (xs : List JvmOption)
    → position o.id xs ≡ some at
    → set_at at o xs ≡ replace_or_append o xs
unfolding position set_at replace_or_append
set_at-replace o at [] h = cc
set_at-replace o zero (x ∷ xs) h = ground arith
set_at-replace o (suc at) (x ∷ xs) h = ground (arith, set_at-replace o at xs)

append-replace :
    (o : JvmOption) (xs : List JvmOption)
    → position o.id xs ≡ none
    → xs ++ (o ∷ []) ≡ replace_or_append o xs
unfolding position replace_or_append
append-replace o [] h = refl
append-replace o (x ∷ xs) h = ground (arith, append-replace o xs)

contains-without :
    (j id : Bytes) (xs : List JvmOption)
    → contains j (ids xs) ≡ false
    → contains j (ids (without id xs)) ≡ false
unfolding contains without
contains-without j id [] h = refl
contains-without j id (x ∷ xs) h = ground (arith, contains-without j id xs)

IsDistinct-without :
    (id : Bytes) (xs : List JvmOption) → IsDistinct (ids xs) → IsDistinct (ids (without id xs))
unfolding without
IsDistinct-without id [] h = tt
IsDistinct-without id (x ∷ xs) h = elim (Bool-cases (x.id == id)) [
  | inl e ↦ rw e h.1
  | inr e ↦ rw e (contains-without x.id id xs h.0, IsDistinct-without id xs h.1)
]

contains-replace :
    (j : Bytes) (o : JvmOption) (xs : List JvmOption)
    → (o.id == j) ≡ false
    → contains j (ids xs) ≡ false
    → contains j (ids (replace_or_append o xs)) ≡ false
unfolding contains replace_or_append
contains-replace j o [] n h = ground arith
contains-replace j o (x ∷ xs) n h = ground (arith, contains-replace j o xs)

IsDistinct-replace :
    (o : JvmOption) (xs : List JvmOption)
    → IsDistinct (ids xs)
    → IsDistinct (ids (replace_or_append o xs))
unfolding replace_or_append
IsDistinct-replace o [] h = (unfold contains in refl, tt)
IsDistinct-replace o (x ∷ xs) h = elim (Bool-cases (x.id == o.id)) [
  | inl e ↦ rw e (rw ((eq_iff x.id o.id).0 e) at h)
  | inr e ↦ rw e (
    contains-replace x.id o xs (ground (arith, eq_iff x.id o.id, eq_iff o.id x.id)) h.0,
    IsDistinct-replace o xs h.1,
  )
]

-- `lookup` of a removed key after the positions moved down.
lookup_removed :
    (id j : Bytes) (at : ℕ) (m : Index)
    → lookup j (shift_index at (delete id m))
      ≡ (if id == j then none else omap (shift at) (lookup j m))
lookup_removed id j at m =
    ground (arith, lookup-shift_index at j (delete id m), lookup-delete id j m)

Stands-remove :
    (r : Resolved) (xs : List JvmOption) (id : Bytes) (at : ℕ)
    → Stands r xs
    → lookup id r.index ≡ some at
    → Stands
        (record { out = remove_at at r.out; index = shift_index at (delete id r.index) })
        (without id xs)
Stands-remove r xs id at s h =
    let there : position id xs ≡ some at = sym (s.index id) ∙ h in
    record {
      out = rw s.out (remove_at-without id at xs there);
      distinct = IsDistinct-without id xs s.distinct;
      index = λ j. ground (
        arith,
        lookup_removed id j at r.index,
        s.index j,
        position-remove_at id j at xs s.distinct there,
        remove_at-without id at xs there,
      );
    }

Stands-put :
    (r : Resolved) (xs : List JvmOption) (o : JvmOption)
    → Stands r xs
    → Stands (put_option r o) (replace_or_append o xs)
unfolding put_option
Stands-put r xs o s = elim (Option-cases (position o.id xs)) [
  | inr (at, there) ↦
      let found : lookup o.id r.index ≡ some at = s.index o.id ∙ there in
      rw (found, put_option)
        (record {
          out = rw s.out (set_at-replace o at xs there);
          distinct = IsDistinct-replace o xs s.distinct;
          index = λ j.
              ground
                (arith, s.index j, position-set_at o j at xs there, set_at-replace o at xs there);
        })
  | inl absent ↦
      let missing : lookup o.id r.index ≡ none = s.index o.id ∙ absent in
      rw (missing, put_option)
        (record {
          out = rw s.out (append-replace o xs absent);
          distinct = IsDistinct-replace o xs s.distinct;
          index = λ j. ground (
            arith,
            lookup-insert o.id j (length r.out) r.index,
            s.index j,
            s.out,
            position-append o j xs,
            append-replace o xs absent,
            eq_iff o.id j,
          );
        })
]

-- The two runs give the same error, or a state and the list that it stands for.
abbrev Agrees : Result String Resolved → Result String (List JvmOption) → Type 0
Agrees (ok r) (ok xs) = Stands r xs
Agrees (ok r) (err e) = ⊥
Agrees (err e) (ok xs) = ⊥
Agrees (err e) (err f) = e ≡ f

Agrees-bind :
    (m : Result String Resolved) (n : Result String (List JvmOption))
    (f : Resolved → Result String Resolved) (g : List JvmOption → Result String (List JvmOption))
    → Agrees m n
    → ((r : Resolved) (xs : List JvmOption) → Stands r xs → Agrees (f r) (g xs))
    → Agrees (m >>= f) (n >>= g)
Agrees-bind (ok r) (ok xs) f g s k = k r xs s
Agrees-bind (ok r) (err e) f g s k = absurd s
Agrees-bind (err e) (ok xs) f g s k = absurd s
Agrees-bind (err e) (err e') f g s k = s

remove_option_found :
    (r : Resolved) (id : Bytes) (at : ℕ)
    → lookup id r.index ≡ some at
    → remove_option r id
      ≡ ok (record { out = remove_at at r.out; index = shift_index at (delete id r.index) })
unfolding remove_option
remove_option_found r id at h = rw (h, remove_option)

remove_option_missing :
    (r : Resolved) (id : Bytes)
    → lookup id r.index ≡ none
    → remove_option r id
      ≡ err "remove_jvm_options names an option that the parent profile does not define"
unfolding remove_option
remove_option_missing r id h = rw (h, remove_option)

position-present :
    (id : Bytes) (at : ℕ) (xs : List JvmOption)
    → position id xs ≡ some at
    → contains id (ids xs) ≡ true
position-present id at xs h = elim (Bool-cases (contains id (ids xs))) [
  | inl e ↦ e
  | inr e ↦ cc (position-absent id xs e)
]

Agrees-remove :
    (r : Resolved) (xs : List JvmOption) (id : Bytes) (gone : List Bytes)
    → Stands r xs
    → ((r' : Resolved) (ys : List JvmOption)
        → Stands r' ys
        → Agrees (remove_options r' gone) (withdraw ys gone))
    → Agrees (remove_options r (id ∷ gone)) (withdraw xs (id ∷ gone))
unfolding remove_options withdraw
Agrees-remove r xs id gone s later = elim (Option-cases (lookup id r.index)) [
  | inr (at, found) ↦
      let here = position-present id at xs (sym (s.index id) ∙ found) in
      rw (remove_option_found r id at found, remove_options)
        (rw here (later _ (without id xs) (Stands-remove r xs id at s found)))
  | inl missing ↦
      let gone_already = absent-position id xs (sym (s.index id) ∙ missing) in
      rw (remove_option_missing r id missing, remove_options) (rw gone_already refl)
]

Agrees-withdraw :
    (gone : List Bytes) (r : Resolved) (xs : List JvmOption)
    → Stands r xs
    → Agrees (remove_options r gone) (withdraw xs gone)
Agrees-withdraw [] r xs s = unfold remove_options withdraw in s
Agrees-withdraw (id ∷ gone) r xs s = Agrees-remove r xs id gone s (Agrees-withdraw gone)

Stands-publish :
    (os : List JvmOption) (r : Resolved) (xs : List JvmOption)
    → Stands r xs
    → Stands (put_options r os) (publish xs os)
unfolding put_options publish
Stands-publish [] r xs s = s
Stands-publish (o ∷ os) r xs s =
    Stands-publish os (put_option r o) (replace_or_append o xs) (Stands-put r xs o s)

Agrees-inherit : (chain : List VerifiedRevision) → Agrees (resolve_chain chain) (inherit chain)
unfolding resolve_chain inherit apply_manifest
Agrees-inherit [] = record {
  out = refl;
  distinct = tt;
  index = λ id. (unfold lookup position in refl);
}
Agrees-inherit (v ∷ older) =
    Agrees-bind (resolve_chain older) (inherit older) _ _ (Agrees-inherit older) λ r xs s.
      Agrees-bind (remove_options r v.manifest.remove_jvm_options)
        (withdraw xs v.manifest.remove_jvm_options) _ _
        (Agrees-withdraw v.manifest.remove_jvm_options r xs s)
        λ r' ys t. Stands-publish v.manifest.jvm_options r' ys t

Agrees-effective :
    (m : Result String Resolved) (n : Result String (List JvmOption))
    → Agrees m n
    → (do r ← m; check_flag_collisions r.out; ok r.out)
      ≡ (do out ← n; check_flag_collisions out; ok out)
Agrees-effective (ok r) (ok xs) s = rw s.out
Agrees-effective (ok r) (err e) s = absurd s
Agrees-effective (err e) (ok xs) s = absurd s
Agrees-effective (err e) (err f) s = ap err s

-- `EffectiveJVMOptions`, with its map of positions, gives for every chain the options, or the
-- error, of the walk that keeps the list alone and looks each identifier up in it.
pub effective_options-inherit :
    (chain : List VerifiedRevision)
    → effective_options chain ≡ (do out ← inherit chain; check_flag_collisions out; ok out)
unfolding effective_options
effective_options-inherit chain =
    Agrees-effective (resolve_chain chain) (inherit chain) (Agrees-inherit chain)

IsDistinct-of :
    (m : Result String Resolved) (n : Result String (List JvmOption)) (xs : List JvmOption)
    → Agrees m n
    → n ≡ ok xs
    → IsDistinct (ids xs)
IsDistinct-of (ok r) (ok ys) xs s e = let same : ys ≡ xs = cc in rw same at s.distinct
IsDistinct-of (ok r) (err f) xs s e = absurd s
IsDistinct-of (err f) (ok ys) xs s e = absurd s
IsDistinct-of (err f) (err g) xs s e = cc

-- No identifier stands twice among the options that `EffectiveJVMOptions` returns, and no two of
-- them collide.
pub effective_options-IsDistinct :
    (chain : List VerifiedRevision) (out : List JvmOption)
    → effective_options chain ≡ ok out
    → IsDistinct (ids out) × (check_flag_collisions out ≡ ok tt)
effective_options-IsDistinct chain out h =
    let (xs, e, run) = bind_ok (inherit chain) _ (sym (effective_options-inherit chain) ∙ h) in
    let (u, checked, fin) = bind_ok (check_flag_collisions xs) _ run in
    let same : xs ≡ out = cc in
    (
      IsDistinct-of (resolve_chain chain) (inherit chain) out (Agrees-inherit chain)
          (e ∙ ap ok same),
      rw (← same) checked,
    )
