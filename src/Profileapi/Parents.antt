-- ===== src/Profileapi/Parents.antt =====
-- internal/profileapi/api.go: `validateParentChain`, which collects the parents that
-- `ValidateInheritanceChain` needs.
pub mod Collected
use boot_optim_distribution.Base.{
  ltb_ℤ, int_eq, length, lookup, insert, ◌>>=◌, ◌>>◌, Result, bytes_eq, if◌then◌else◌, ◌!=◌, nat_eq,
  bool_eq, is_some, pos, ok, err, ℕ, zero, suc, ◌-◌, Option, none, some, List, [],
}
use boot_optim_distribution.Revision.Types.{VerifiedRevision, ParentRef}
use boot_optim_distribution.Revision.Chain.{
  RevisionKey, key_eq, pin_key, inheritance_cycle, inheritance_too_deep, max_inheritance_bases,
  validate_inheritance_chain,
}
use boot_optim_distribution.Storage.Database.{Database}
use boot_optim_distribution.Profileapi.Errors.{Api, ParentError, chain, lookup_failed, out_of_fuel}
use boot_optim_distribution.Profileapi.Lookup.{verified_revision, as_error}

abbrev pub ParentMap : Type 0
ParentMap = List (RevisionKey × VerifiedRevision)

module _ (api : Api) (db : Database) where
  -- The loop `for pin != nil`. The maps `seen` and `parents` get their keys together.
  unfoldable pub collect_parents : ℕ → ParentMap → Option ParentRef → Result ParentError ParentMap
  collect_parents zero parents pin = err out_of_fuel
  collect_parents (suc fuel) parents none = ok parents
  collect_parents (suc fuel) parents (some pin) =
      if is_some (lookup (pin_key pin) parents)
      then err (chain inheritance_cycle)
      else as_error lookup_failed (verified_revision api db pin.revision_id) >>= λ parent.
          let more = insert (pin_key pin) parent parents in
          let rest = collect_parents fuel more parent.manifest.base in
          if ltb_ℤ max_inheritance_bases (pos (length more))
          then err (chain inheritance_too_deep)
          else rest

  -- The rest of the function for a target with this base, with fuel for one round more than there can
  -- be parents.
  unfoldable pub validate_parents :
      VerifiedRevision → Option ParentRef → Result ParentError (Unit {0})
  validate_parents target none = ok tt
  validate_parents target (some pin) = collect_parents 10 [] (some pin) >>= λ parents.
      as_error chain
        (validate_inheritance_chain target (λ key. lookup key parents) max_inheritance_bases)
      >>= λ bases. ok tt

  -- `validateParentChain`
  unfoldable pub validate_parent_chain : VerifiedRevision → Result ParentError (Unit {0})
  validate_parent_chain target = validate_parents target target.manifest.base
