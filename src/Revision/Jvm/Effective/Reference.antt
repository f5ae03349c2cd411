-- ===== src/Revision/Jvm/Effective/Reference.antt =====
-- The options of a chain by a walk over the list alone.
use Prim.Native.String.{String}
use boot_optim_distribution.Base.{
  int_eq, contains, ◌>>=◌, Result, Bytes, bytes_eq, if◌then◌else◌, ◌==◌, nat_eq, bool_eq, ok, err,
  List, [], ◌∷◌,
}
use boot_optim_distribution.Revision.Types.{JvmOption, VerifiedRevision}
use boot_optim_distribution.Revision.Jvm.Effective.Index.{ids}

-- The reference: no map, only the list.
unfoldable pub without : Bytes → List JvmOption → List JvmOption
without id [] = []
without id (x ∷ xs) = let rest = without id xs in if x.id == id then xs else x ∷ rest

unfoldable pub replace_or_append : JvmOption → List JvmOption → List JvmOption
replace_or_append o [] = o ∷ []
replace_or_append o (x ∷ xs) =
    let rest = replace_or_append o xs in if x.id == o.id then o ∷ xs else x ∷ rest

unfoldable pub withdraw : List JvmOption → List Bytes → Result String (List JvmOption)
withdraw out [] = ok out
withdraw out (id ∷ rest) =
    if contains id (ids out)
    then withdraw (without id out) rest
    else err "remove_jvm_options names an option that the parent profile does not define"

unfoldable pub publish : List JvmOption → List JvmOption → List JvmOption
publish out [] = out
publish out (o ∷ os) = publish (replace_or_append o out) os

-- Oldest revision first: its withdrawals, then its options.
unfoldable pub inherit : List VerifiedRevision → Result String (List JvmOption)
inherit [] = ok []
inherit (v ∷ older) = do
  out ← inherit older
  kept ← withdraw out v.manifest.remove_jvm_options
  ok (publish kept v.manifest.jvm_options)
