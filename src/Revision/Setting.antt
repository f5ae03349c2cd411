-- ===== src/Revision/Setting.antt =====
-- internal/revision/validate.go: what `validateConfigSetting` asks of a setting of each format.
use Prim.Native.String.{String}
use boot_optim_distribution.Base.{
  int_eq, length, all, is_empty, reject, Result, Bytes, codes, bytes_eq, after_prefix, split,
  is_digit, ltb, leb, if◌then◌else◌, ◌==◌, ◌!=◌, nat_eq, bool_eq, pos, err, ℕ, ◌+◌, ◌-◌, ◌*◌, Bool,
  true, false, not, ◌&&◌, ◌||◌, Option, none, some, [], ◌∷◌,
}
use boot_optim_distribution.Revision.Types.{
  integral, fractional, not_finite, Value, Values, end, item, nil, bool, num, str, arr, obj,
  ConfigSetting,
}
use boot_optim_distribution.Revision.Ids.{is_alphanum}
use boot_optim_distribution.Revision.Jvm.Template.{decimal}

-- `validDottedBareKey`
unfoldable pub bare_char : ℕ → Bool
bare_char c = is_alphanum c || c == b'_' || c == b'-'

unfoldable pub valid_dotted_bare_key : Bytes → Bool
valid_dotted_bare_key key =
    if is_empty key || ltb 256 (length key)
    then false
    else all (λ part. not (is_empty part) && all bare_char part) (split b'.' key)

-- `validPropertyKey`
unfoldable pub valid_property_key : Bytes → Bool
valid_property_key key =
    if is_empty key || ltb 256 (length key) then false else all (λ c. bare_char c || c == b'.') key

abbrev pub count_values : Values → ℕ
count_values end = 0
count_values (item v vs) = count_values vs + 1

abbrev pub is_scalar : Value → Bool
is_scalar (bool b) = true
is_scalar (num n) = true
is_scalar (str s) = true
is_scalar _ = false

abbrev pub all_scalar : Values → Bool
all_scalar end = true
all_scalar (item v vs) = is_scalar v && all_scalar vs

-- `validTOMLJSONValue`
unfoldable pub valid_toml_value : Value → Bool
valid_toml_value (bool b) = true
valid_toml_value (str s) = true
valid_toml_value (num not_finite) = false
valid_toml_value (num (integral i)) = true
valid_toml_value (num (fractional t)) = true
valid_toml_value (arr vs) = leb (count_values vs) 1024 && all_scalar vs
valid_toml_value nil = false
valid_toml_value (obj members) = false

-- `value, ok := v.(string); ok && len(value) <= 65536`
unfoldable pub short_string : Value → Bool
short_string (str s) = leb (length s) 65536
short_string _ = false

unfoldable pub value_of : ℕ → Bytes → ℕ
value_of n [] = n
value_of n (c ∷ s) = value_of (n * 10 + (c - b'0')) s

-- `strconv.ParseUint(s, 10, 32)`
unfoldable pub parse_uint : Bytes → Option ℕ
parse_uint s =
    if is_empty s || not (all is_digit s)
    then none
    else if ltb (value_of 0 s) 4294967296
    then some (value_of 0 s)
    else none

-- The number behind "line:".
unfoldable pub valid_line : Bytes → Bool
valid_line text = elim (parse_uint text) [
  | none ↦ false
  | some line ↦ not (line == 0 || ltb 1000000 line || decimal (pos line) != text)
]

unfoldable pub ends_with : Bytes → Bytes → Bool
ends_with suffix [] = is_empty suffix
ends_with suffix (c ∷ s) = (c ∷ s) == suffix || ends_with suffix s

abbrev pub known_policy : Bytes → Bool
known_policy policy = policy == codes "enforced" || policy == codes "default_once"

-- The case `text_lines` of `validateConfigSetting`.
unfoldable pub validate_text_lines : Bytes → ConfigSetting → Result String (Unit {0})
validate_text_lines path setting = elim (after_prefix (codes "line:") setting.key) [
  | none ↦ err "text_lines selector is unsupported"
  | some line ↦
      if not (ends_with (codes ".txt") path)
      then err "text_lines selector is unsupported"
      else if not (valid_line line)
      then err "text_lines selector must use line:<one-based number>"
      else reject (not (short_string setting.value))
          "text_lines value must be a string of at most 65536 bytes"
]

unfoldable pub validate_properties : Bytes → ConfigSetting → Result String (Unit {0})
validate_properties path setting =
    if not (ends_with (codes ".properties") path && valid_property_key setting.key)
    then err "properties selector is unsupported"
    else reject (not (short_string setting.value))
        "properties value must be a string of at most 65536 bytes"

unfoldable pub validate_toml : Bytes → ConfigSetting → Result String (Unit {0})
validate_toml path setting =
    reject
      (not (
        ends_with (codes ".toml") path
        && valid_dotted_bare_key setting.key
        && valid_toml_value setting.value))
      "TOML selector or value is unsupported"
