-- ===== src/Revision/Jvm/Collisions.antt =====
-- `checkJVMFlagCollisions`: no two options set one flag on one platform.
pub mod Owners
use Prim.Native.String.{String}
use boot_optim_distribution.Base.{
  int_eq, length, lookup, delete, insert, ◌>>=◌, ◌>>◌, Result, Bytes, bytes_beq, bytes_eq, ltb,
  if◌then◌else◌, ◌==◌, ◌!=◌, nat_eq, bool_eq, ok, err, ◌+◌, ◌-◌, none, some, List, [], ◌∷◌, ◌++◌,
}
use boot_optim_distribution.Revision.Types.{JvmOption, OptionPlatform}
use boot_optim_distribution.Revision.Jvm.Argument.{flag_key_unchecked}
use boot_optim_distribution.Revision.Jvm.Template.{replace_once, decimal, type_int, type_enum}

-- The template with a value that the option admits, if it takes one.
unfoldable pub sample_of : JvmOption → Bytes
unfolding replace_once decimal bytes_beq
sample_of option =
    if option.kind == type_int
    then elim option.min [
      | some lo ↦ replace_once (decimal lo) option.template
      | none ↦ option.template
    ]
    else if option.kind == type_enum
    then elim option.values [ v ∷ _ ↦ replace_once v option.template | [] ↦ option.template ]
    else option.template

-- `jvmOptionFlagKey`
unfoldable pub option_flag_key : JvmOption → Bytes
unfolding sample_of flag_key_unchecked
option_flag_key option =
    if ltb (length (sample_of option)) 4
    then sample_of option
    else flag_key_unchecked (sample_of option)

abbrev pub Owners : Type 0
Owners = List (Bytes × Bytes)

abbrev pub slot : Bytes → Bytes → Bytes
slot platform key = platform ++ (0 ∷ key)

-- The loop over the platforms of one option.
unfoldable pub claim : Bytes → Bytes → List (Bytes × OptionPlatform) → Owners → Result String Owners
claim id key [] owners = ok owners
claim id key ((platform, _) ∷ rest) owners =
    let taken = claim id key rest (insert (slot platform key) id owners) in
    elim (lookup (slot platform key) owners) [
      | none ↦ taken
      | some owner ↦
          if owner != id then err "jvm options both set one flag on one platform" else taken
    ]

unfoldable pub claim_all : List JvmOption → Owners → Result String Owners
claim_all [] owners = ok owners
claim_all (option ∷ rest) owners = do
  owners' ← claim option.id (option_flag_key option) option.platforms owners
  claim_all rest owners'

-- `checkJVMFlagCollisions`
unfoldable pub check_flag_collisions : List JvmOption → Result String (Unit {0})
check_flag_collisions options = do _ ← claim_all options []; ok tt
