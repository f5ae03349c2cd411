-- ===== src/Revision/Jvm/Template.antt =====
-- Templates of options: the placeholder, the text of a value, and `RenderJVMOption`.
use Prim.Native.String.{String}
use boot_optim_distribution.Base.{
  ltb_ℤ, int_eq, ℤ, contains, Result, Bytes, codes, bytes_beq, bytes_eq, after_prefix, has_prefix,
  ltb, if◌then◌else◌, ◌==◌, nat_eq, bool_eq, pos, negsuc, ok, err, ℕ, zero, suc, ◌+◌, ◌/◌, ◌%◌,
  Bool, true, false, not, ◌||◌, Option, none, some, [], ◌∷◌, ◌++◌,
}
use boot_optim_distribution.Revision.Types.{integral, Value, num, str, JvmOption}

abbrev pub placeholder : Bytes
placeholder = codes "{value}"

-- `strings.Replace(s, placeholder, text, 1)`
unfoldable pub replace_once : Bytes → Bytes → Bytes
unfolding after_prefix
replace_once text [] = []
replace_once text (c ∷ s) = elim (after_prefix placeholder (c ∷ s)) [
  | some rest ↦ text ++ rest
  | none ↦ c ∷ replace_once text s
]

-- `strings.Count(s, placeholder)`: `skip` bytes of a placeholder are still to be passed.
unfoldable pub count_from : ℕ → Bytes → ℕ
unfolding has_prefix
count_from skip [] = 0
count_from (suc skip) (c ∷ s) = count_from skip s
count_from zero (c ∷ s) = elim (has_prefix placeholder (c ∷ s)) [
  | true ↦ suc (count_from 6 s)
  | false ↦ count_from 0 s
]

-- `strings.ReplaceAll(s, placeholder, "")`
unfoldable pub strip_from : ℕ → Bytes → Bytes
unfolding has_prefix
strip_from skip [] = []
strip_from (suc skip) (c ∷ s) = strip_from skip s
strip_from zero (c ∷ s) = elim (has_prefix placeholder (c ∷ s)) [
  | true ↦ strip_from 6 s
  | false ↦ c ∷ strip_from 0 s
]

-- The decimal digits of a number, before those in `out`; each round of the fuel makes one digit.
unfoldable pub digits : ℕ → ℕ → Bytes → Bytes
digits zero n out = out
digits (suc fuel) n out =
    let more = digits fuel (n / 10) ((b'0' + n % 10) ∷ out) in
    if ltb n 10 then (b'0' + n) ∷ out else more

-- `fmt.Sprintf("%d", n)`: `n + 1` rounds are more than a number `n` has digits.
unfoldable pub decimal : ℤ → Bytes
unfolding digits
decimal (pos n) = digits (n + 1) n []
decimal (negsuc n) = b'-' ∷ digits (n + 2) (n + 1) []

abbrev pub min_int32 : ℤ
min_int32 = negsuc 2147483647

abbrev pub max_int32 : ℤ
max_int32 = pos 2147483647

-- `jvmInteger`, on decoded JSON, whose numbers are `float64`.
unfoldable pub jvm_integer : Value → Option ℤ
jvm_integer (num (integral i)) =
    if ltb_ℤ max_int32 i || ltb_ℤ i (negsuc 2147483646) then none else some i
jvm_integer _ = none

abbrev pub type_bool : Bytes
type_bool = codes "bool"

abbrev pub type_int : Bytes
type_int = codes "int"

abbrev pub type_enum : Bytes
type_enum = codes "enum"

abbrev in_range : Option ℤ → Option ℤ → ℤ → Bool
in_range (some lo) (some hi) i = not (ltb_ℤ i lo || ltb_ℤ hi i)
in_range _ _ i = false

-- The text of a value, and whether the option admits it.
unfoldable pub int_text : JvmOption → Value → Option Bytes
unfolding jvm_integer decimal
int_text option value = elim (jvm_integer value) [
  | none ↦ none
  | some i ↦ if in_range option.min option.max i then some (decimal i) else none
]

unfoldable pub enum_text : JvmOption → Value → Option Bytes
unfolding contains bytes_beq
enum_text option (str text) = if contains text option.values then some text else none
enum_text option _ = none

-- `jvmValueText`
unfoldable pub value_text : JvmOption → Value → Option Bytes
unfolding int_text enum_text bytes_beq
value_text option value =
    if option.kind == type_int
    then int_text option value
    else if option.kind == type_enum
    then enum_text option value
    else none

-- `RenderJVMOption`
unfoldable pub render_option : JvmOption → Value → Result String Bytes
unfolding value_text replace_once bytes_beq
render_option option value =
    if option.kind == type_bool then ok option.template else elim (value_text option value) [
      | some text ↦ ok (replace_once text option.template)
      | none ↦ err "value is outside the option's type or range"
    ]
