-- ===== src/Revision/Jvm/Effective.antt =====
-- `EffectiveJVMOptions`: the options of a chain, oldest revision first. The loop keeps the list of
-- options and a map from identifiers to positions in it.
pub mod Index
pub mod Reference
pub mod Refines
use Prim.Native.String.{String}
use boot_optim_distribution.Base.{
  int_eq, length, lookup, delete, insert, ◌>>=◌, ◌>>◌, Result, Bytes, bytes_eq, ltb, if◌then◌else◌,
  nat_eq, bool_eq, ok, err, ℕ, zero, suc, ◌+◌, ◌-◌, not, none, some, List, [], ◌∷◌, ◌++◌, map,
}
use boot_optim_distribution.Revision.Types.{JvmOption, Manifest, VerifiedRevision}
use boot_optim_distribution.Revision.Jvm.Collisions.{check_flag_collisions}

abbrev pub Index : Type 0
Index = List (Bytes × ℕ)

pub record Resolved : Type 0 where
  pub out : List JvmOption
  pub index : Index

-- `append(out[:at], out[at+1:]...)`
unfoldable pub remove_at : ℕ → List JvmOption → List JvmOption
remove_at at [] = []
remove_at zero (x ∷ xs) = xs
remove_at (suc at) (x ∷ xs) = x ∷ remove_at at xs

-- `out[at] = option`
unfoldable pub set_at : ℕ → JvmOption → List JvmOption → List JvmOption
set_at at option [] = []
set_at zero option (x ∷ xs) = option ∷ xs
set_at (suc at) option (x ∷ xs) = x ∷ set_at at option xs

abbrev pub shift : ℕ → ℕ → ℕ
shift at i = if ltb at i then i - 1 else i

-- `for other, otherAt := range index { if otherAt > at { index[other] = otherAt - 1 } }`
unfoldable pub shift_index : ℕ → Index → Index
shift_index at [] = []
shift_index at ((other, i) ∷ rest) = (other, shift at i) ∷ shift_index at rest

unfoldable pub remove_option : Resolved → Bytes → Result String Resolved
remove_option r id = elim (lookup id r.index) [
  | none ↦ err "remove_jvm_options names an option that the parent profile does not define"
  | some at ↦ ok (record { out = remove_at at r.out; index = shift_index at (delete id r.index) })
]

unfoldable pub put_option : Resolved → JvmOption → Resolved
put_option r option = elim (lookup option.id r.index) [
  | some at ↦ record { out = set_at at option r.out; index = r.index }
  | none ↦ record { out = r.out ++ (option ∷ []); index = insert option.id (length r.out) r.index }
]

unfoldable pub remove_options : Resolved → List Bytes → Result String Resolved
remove_options r [] = ok r
remove_options r (id ∷ ids) = do r' ← remove_option r id; remove_options r' ids

unfoldable pub put_options : Resolved → List JvmOption → Resolved
put_options r [] = r
put_options r (o ∷ os) = put_options (put_option r o) os

-- One round of the loop over the chain.
unfoldable pub apply_manifest : Resolved → Manifest → Result String Resolved
apply_manifest r m = do
  r' ← remove_options r m.remove_jvm_options
  ok (put_options r' m.jvm_options)

-- The chain has the target first; its last revision is applied first.
unfoldable pub resolve_chain : List VerifiedRevision → Result String Resolved
resolve_chain [] = ok (record { out = []; index = [] })
resolve_chain (v ∷ older) = do r ← resolve_chain older; apply_manifest r v.manifest

-- `EffectiveJVMOptions`
unfoldable pub effective_options : List VerifiedRevision → Result String (List JvmOption)
effective_options chain = do r ← resolve_chain chain; check_flag_collisions r.out; ok r.out
