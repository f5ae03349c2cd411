-- ===== src/Revision/Jvm/Argument.antt =====
-- The launcher's allowlist for one rendered argument: `ValidateJVMArgument` and `JVMFlagKey`. An
-- error is Go's message, without the values that are formatted into it.
pub mod Forms
pub mod Allowed
use Prim.Native.String.{String}
use boot_optim_distribution.Base.{
  int_eq, length, all, is_empty, contains, ◌>>=◌, ◌>>◌, reject, Result, Bytes, codes, bytes_eq,
  after_prefix, cut, is_digit, is_lower, is_upper, ltb, leb, if◌then◌else◌, ◌==◌, nat_eq, bool_eq,
  ok, err, ℕ, ◌+◌, ◌-◌, Bool, true, false, not, ◌&&◌, ◌||◌, Option, none, some, List, [], ◌∷◌, ◌++◌,
}

abbrev pub max_argument_bytes : ℕ
max_argument_bytes = 256

-- `AllowedJVMSystemProperties`
abbrev pub allowed_system_properties : List Bytes
allowed_system_properties = []

-- `deniedJVMXXFlags`
abbrev pub denied_xx_flags : List Bytes
denied_xx_flags =
    codes "Flags"
    ∷ codes "VMOptionsFile"
    ∷ codes "IgnoreUnrecognizedVMOptions"
    ∷ codes "EnableJVMCI"
    ∷ codes "EnableJVMCIProduct"
    ∷ codes "UseJVMCICompiler"
    ∷ codes "UseJVMCINativeLibrary"
    ∷ codes "LogVMOutput"
    ∷ codes "ShowMessageBoxOnError"
    ∷ codes "PauseAtStartup"
    ∷ codes "PauseAtExit"
    ∷ codes "ManagementServer"
    ∷ []

-- `allDigits`
unfoldable pub all_digits : Bytes → Bool
unfolding is_digit
all_digits value = if is_empty value || ltb 19 (length value) then false else all is_digit value

unfoldable pub is_unit : ℕ → Bool
is_unit c =
    c == b'k'
    || c == b'K'
    || c == b'm'
    || c == b'M'
    || c == b'g'
    || c == b'G'
    || c == b't'
    || c == b'T'

-- The text without a unit at its end.
unfoldable pub without_unit : Bytes → Bytes
without_unit [] = []
without_unit (c ∷ []) = if is_unit c then [] else c ∷ []
without_unit (c ∷ d ∷ s) = c ∷ without_unit (d ∷ s)

-- `validJVMSize`
unfoldable pub valid_size : Bytes → Bool
valid_size value = if is_empty value then false else all_digits (without_unit value)

-- `validJVMNumber`
unfoldable pub valid_number : Bytes → Bool
valid_number value = if valid_size value then true else elim (cut b'.' value) [
  | none ↦ false
  | some (whole, fraction) ↦ all_digits whole && all_digits fraction
]

unfoldable pub is_letter : ℕ → Bool
unfolding is_upper is_lower
is_letter c = is_upper c || is_lower c

unfoldable pub name_char : ℕ → Bool
unfolding is_upper is_lower is_digit
name_char c = is_upper c || is_lower c || is_digit c || c == b'_'

-- `validJVMFlagName`
unfoldable pub valid_flag_name : Bytes → Bool
valid_flag_name [] = false
valid_flag_name (c ∷ s) = leb (length (c ∷ s)) 80 && is_letter c && all name_char s

-- The tests on the name behind those on the value.
unfoldable pub validate_flag_name : Bytes → Result String (Unit {0})
validate_flag_name name =
    if not (valid_flag_name name)
    then err "-XX flag name is malformed"
    else reject (contains name denied_xx_flags) "-XX flag is not allowed"

unfoldable pub validate_xx_value : Bytes → Result String (Unit {0})
validate_xx_value body = elim (cut b'=' body) [
  | none ↦ err "-XX values must be a number or size; text values are not accepted"
  | some (name, value) ↦
      if valid_number value
      then validate_flag_name name
      else err "-XX values must be a number or size; text values are not accepted"
]

-- `validateXXArgument`
unfoldable pub validate_xx_argument : Bytes → Result String (Unit {0})
validate_xx_argument [] = validate_xx_value []
validate_xx_argument (c ∷ body) =
    if c == b'+' || c == b'-' then validate_flag_name body else validate_xx_value (c ∷ body)

unfoldable pub is_printable : ℕ → Bool
is_printable c = ltb b' ' c && leb c b'~'

unfoldable pub is_quoting : ℕ → Bool
is_quoting c = c == b'"' || c == b'\'' || c == b'\\'

-- `strings.ContainsAny` of quotes and backslashes
unfoldable pub has_quoting : Bytes → Bool
has_quoting [] = false
has_quoting (c ∷ s) = is_quoting c || has_quoting s

unfoldable pub validate_property : Bytes → Result String (Unit {0})
validate_property body = elim (cut b'=' body) [
  | none ↦ err "system property is not in the allowlist"
  | some (key, value) ↦
      if not (contains key allowed_system_properties)
      then err "system property is not in the allowlist"
      else reject (has_quoting value) "system property value contains quotes or backslashes"
]

abbrev pub first_some : Option Bytes → Option Bytes → Option Bytes
first_some (some a) o = some a
first_some none o = o

-- What follows "-Xss", "-Xms" or "-Xmx".
unfoldable pub after_size_prefix : Bytes → Option Bytes
after_size_prefix arg =
    first_some (after_prefix (codes "-Xss") arg)
      (first_some (after_prefix (codes "-Xms") arg) (after_prefix (codes "-Xmx") arg))

-- The `switch` of `ValidateJVMArgument`.
unfoldable pub validate_form : Bytes → Result String (Unit {0})
validate_form arg = elim (after_prefix (codes "-XX:") arg) [
  | some body ↦ validate_xx_argument body
  | none ↦ elim (after_size_prefix arg) [
    | some size ↦
        if valid_size size then ok tt else err "-Xss/-Xms/-Xmx require a size such as 512m"
    | none ↦ elim (after_prefix (codes "-D") arg) [
      | some body ↦ validate_property body
      | none ↦ err "only -XX:, -Xss, -Xms, -Xmx and allowlisted -D arguments are accepted"
    ]
  ]
]

-- `ValidateJVMArgument`
unfoldable pub validate_argument : Bytes → Result String (Unit {0})
validate_argument arg =
    if is_empty arg || ltb max_argument_bytes (length arg)
    then err "argument is empty or longer than 256 bytes"
    else if not (all is_printable arg)
    then err "argument must be printable ASCII without spaces"
    else validate_form arg

-- What stands before the first '=', or the whole text.
unfoldable pub before_equals : Bytes → Bytes
unfolding cut
before_equals body = elim (cut b'=' body) [ none ↦ body | some (name, value) ↦ name ]

unfoldable pub xx_key : Bytes → Bytes
xx_key [] = codes "XX:"
xx_key (c ∷ body) =
    codes "XX:" ++ (if c == b'+' || c == b'-' then body else before_equals (c ∷ body))

-- `arg[1:4]`
unfoldable pub slice_1_4 : Bytes → Bytes
slice_1_4 (a ∷ b ∷ c ∷ d ∷ s) = b ∷ c ∷ d ∷ []
slice_1_4 s = []

-- `jvmFlagKeyUnchecked`, for a text of at least four bytes (on a shorter one the slice panics).
unfoldable pub flag_key_unchecked : Bytes → Bytes
flag_key_unchecked arg = elim (after_prefix (codes "-XX:") arg) [
  | some body ↦ xx_key body
  | none ↦ elim (after_prefix (codes "-D") arg) [
    | some body ↦ codes "D:" ++ before_equals body
    | none ↦ slice_1_4 arg
  ]
]

-- `JVMFlagKey`
unfoldable pub flag_key : Bytes → Result String Bytes
flag_key arg = do validate_argument arg; ok (flag_key_unchecked arg)
