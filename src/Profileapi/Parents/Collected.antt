-- ===== src/Profileapi/Parents/Collected.antt =====
-- internal/profileapi/api.go: what `validateParentChain` collects, and that its loop ends.
use boot_optim_distribution.Base.{
  ltb_ℤ, int_eq, length, all, All, lookup, insert, All-delete, delete_absent, bind_ok, guard_ok,
  Result-cases, bytes_eq, nat_eq, bool_eq, Bool-cases, Option-cases, is_some, pos, ok, err, ℕ, zero,
  suc, ◌+◌, ◌≤◌, ◌≡◌, refl, ap, ◌∙◌, ◌≢◌, ◌⊎◌, inl, inr, Option, none, some, List, [], arith,
}
use boot_optim_distribution.Revision.Types.{VerifiedRevision, ParentRef}
use boot_optim_distribution.Revision.Chain.{
  RevisionKey, key_eq, pin_key, inheritance_cycle, inheritance_too_deep, max_inheritance_bases,
  validate_inheritance_chain,
}
use boot_optim_distribution.Revision.Chain.Walk.{IsChain, validate_inheritance_chain_iff}
use boot_optim_distribution.Storage.Database.{Database}
use boot_optim_distribution.Profileapi.Errors.{Api, chain, lookup_failed, out_of_fuel}
use boot_optim_distribution.Profileapi.Lookup.{verified_revision, as_error, as_error_ok}
use boot_optim_distribution.Profileapi.Parents.{
  ParentMap, collect_parents, validate_parents, validate_parent_chain,
}

length-insert :
    (k : RevisionKey) (v : VerifiedRevision) (m : ParentMap)
    → lookup k m ≡ none
    → length (insert k v m) ≡ length m + 1
unfolding insert
length-insert k v m h = rw (delete_absent k m h) (omega arith)

-- The revision is what the store holds under its key.
abbrev pub Sound : Api → Database → RevisionKey × VerifiedRevision → Type 0
Sound api db (key, v) = verified_revision api db key.revision ≡ ok v

module _ (api : Api) (db : Database) where
  -- With fuel for the parents that are still allowed, and one round more, the loop does not run dry.
  collect_parents-fuel :
      (fuel : ℕ) (parents : ParentMap) (pin : Option ParentRef)
      → length parents ≤ 8
      → 10 ≤ length parents + fuel
      → collect_parents api db fuel parents pin ≢ err out_of_fuel
  unfolding collect_parents as_error
  collect_parents-fuel zero parents pin few enough h = omega (arith, few, enough)
  collect_parents-fuel (suc fuel) parents none few enough h = cc
  collect_parents-fuel (suc fuel) parents (some pin) few enough h =
      elim (Option-cases (lookup (pin_key pin) parents)) [
        | inr (p, e) ↦
            (let stop : err (chain inheritance_cycle) ≡ err out_of_fuel = rw e at h in cc)
        | inl e ↦ elim (Result-cases (verified_revision api db pin.revision_id)) [
          | inr (bad, f) ↦
              (let stop : err (lookup_failed bad) ≡ err out_of_fuel = rw (e, f) at h in cc)
          | inl (parent, f) ↦
              let more = insert (pin_key pin) parent parents in
              let longer = length-insert (pin_key pin) parent parents e in
              elim (Bool-cases (ltb_ℤ max_inheritance_bases (pos (length more)))) [
                | inl g ↦
                    (let stop : err (chain inheritance_too_deep) ≡ err out_of_fuel =
                        rw (e, f, g) at h in
                      cc)
                | inr g ↦
                    collect_parents-fuel fuel more parent.manifest.base (ground arith) (omega arith)
                      (rw (e, f, g) at h)
              ]
        ]
      ]

  -- What is collected was read from the store and verified.
  collect_parents-All :
      (fuel : ℕ) (parents : ParentMap) (pin : Option ParentRef) (all : ParentMap)
      → All (Sound api db) parents
      → collect_parents api db fuel parents pin ≡ ok all
      → All (Sound api db) all
  unfolding collect_parents as_error
  collect_parents-All zero parents pin all h e = cc
  collect_parents-All (suc fuel) parents none all h e =
      (let same : parents ≡ all = cc in rw (← same) h)
  collect_parents-All (suc fuel) parents (some pin) all h e =
      let (fresh, e₁) = guard_ok (is_some (lookup (pin_key pin) parents)) _ _ e in
      let (parent, f, e₂) =
        bind_ok (as_error lookup_failed (verified_revision api db pin.revision_id)) _ e₁ in
      let more = insert (pin_key pin) parent parents in
      let (few, e₃) = guard_ok (ltb_ℤ max_inheritance_bases (pos (length more))) _ _ e₂ in
      let kept : All (Sound api db) more =
        unfold insert in
        (
          as_error_ok lookup_failed (verified_revision api db pin.revision_id) f,
          All-delete (Sound api db) (pin_key pin) parents h,
        ) in
      collect_parents-All fuel more parent.manifest.base all kept e₃

validate_parents-fuel :
    (api : Api) (db : Database) (target : VerifiedRevision) (base : Option ParentRef)
    → validate_parents api db target base ≢ err out_of_fuel
unfolding validate_parents as_error
validate_parents-fuel api db target none h = cc
validate_parents-fuel api db target (some pin) h =
    elim (Result-cases (collect_parents api db 10 [] (some pin))) [
      | inr (bad, f) ↦
          let stop : err bad ≡ err out_of_fuel = rw f at h in
          let same : bad ≡ out_of_fuel = cc in
          collect_parents-fuel api db 10 [] (some pin) (omega arith) (omega arith) (f ∙ ap err same)
      | inl (all, f) ↦
          elim (Result-cases
            (validate_inheritance_chain target (λ key. lookup key all) max_inheritance_bases)) [
              | inl (bases, g) ↦ (let done : ok tt ≡ err out_of_fuel = rw (f, g) at h in cc)
              | inr (bad, g) ↦ (let stop : err (chain bad) ≡ err out_of_fuel = rw (f, g) at h in cc)
            ]
    ]

-- The loop of `validateParentChain` ends: with fuel for ten rounds it never runs out, whatever the store
-- holds, since it stops at a revision that was met before and after nine parents.
pub validate_parent_chain-ends :
    (api : Api) (db : Database) (target : VerifiedRevision)
    → validate_parent_chain api db target ≢ err out_of_fuel
unfolding validate_parent_chain
validate_parent_chain-ends api db target = validate_parents-fuel api db target target.manifest.base

-- The revision has no base, or a valid chain of bases from the store.
pub record HasChain (api : Api) (db : Database) (target : VerifiedRevision) : Type 0 where
  pub parents : ParentMap
  pub stored : All (Sound api db) parents
  pub bases : List VerifiedRevision
  pub linked : IsChain target (λ key. lookup key parents) max_inheritance_bases bases

pub validate_parents-HasChain :
    (api : Api) (db : Database) (target : VerifiedRevision) (base : Option ParentRef)
    → validate_parents api db target base ≡ ok tt
    → (base ≡ none) ⊎ HasChain api db target
unfolding validate_parents
validate_parents-HasChain api db target none h = inl refl
validate_parents-HasChain api db target (some pin) h =
    let (all, f, h₁) = bind_ok (collect_parents api db 10 [] (some pin)) _ h in
    let (found, g, _) =
      bind_ok
        (as_error chain
          (validate_inheritance_chain target (λ key. lookup key all) max_inheritance_bases))
        _ h₁ in
    let (bases, _, linked) =
      (validate_inheritance_chain_iff target (λ key. lookup key all) max_inheritance_bases found).0
        (as_error_ok chain _ g) in
    inr (record {
      parents = all;
      stored = collect_parents-All api db 10 [] (some pin) all tt f;
      bases = bases;
      linked = linked;
    })
