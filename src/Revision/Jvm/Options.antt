-- ===== src/Revision/Jvm/Options.antt =====
-- `validateJVMOptions` and what it calls. An error is Go's message, without the values that are
-- formatted into it. A Go map is listed by ascending key.
pub mod Rendered
use Prim.Native.String.{String}
use boot_optim_distribution.Base.{
  ltb_ℤ, int_eq, ℤ, length, all, is_empty, contains, ◌>>=◌, ◌>>◌, reject, each, Result, Bytes,
  codes, bytes_eq, has_prefix, ltb, leb, if◌then◌else◌, ◌==◌, ◌!=◌, nat_eq, bool_eq, is_some, pos,
  ok, err, ℕ, ◌+◌, ◌-◌, ◌^◌, Bool, true, false, not, ◌&&◌, ◌||◌, Option, none, some, List, [], ◌∷◌,
  map,
}
use boot_optim_distribution.Revision.Types.{
  Value, nil, FactRange, AutoRule, OptionAuto, OptionPlatform, JvmOption, Manifest,
}
use boot_optim_distribution.Revision.Ids.{is_lower_alphanum, is_alphanum}
use boot_optim_distribution.Revision.Jvm.Argument.{validate_argument, flag_key_unchecked}
use boot_optim_distribution.Revision.Jvm.Template.{
  replace_once, count_from, strip_from, decimal, min_int32, max_int32, type_bool, type_int,
  type_enum, value_text,
}
use boot_optim_distribution.Revision.Jvm.Collisions.{check_flag_collisions}

abbrev pub max_options : ℕ
max_options = 64

-- `JVMOptionPlatforms`
abbrev pub option_platforms : List Bytes
option_platforms = codes "pc" ∷ codes "android" ∷ []

-- `JVMOptionVMs`
abbrev pub option_vms : List Bytes
option_vms = codes "hotspot" ∷ codes "openj9" ∷ []

-- `JVMAutoFacts`
abbrev pub auto_facts : List Bytes
auto_facts = codes "logical_cpus" ∷ codes "memory_mib" ∷ []

-- `validJVMOptionID`
unfoldable pub valid_option_id : Bytes → Bool
valid_option_id [] = false
valid_option_id (c ∷ s) =
    leb (length (c ∷ s)) 64 && is_lower_alphanum c && all (λ d. is_lower_alphanum d || d == b'-') s

-- `validEnumValue`
unfoldable pub valid_enum_value : Bytes → Bool
valid_enum_value value =
    if is_empty value || ltb 64 (length value)
    then false
    else all (λ c. is_alphanum c || c == b'.' || c == b'_' || c == b'+' || c == b'-') value

-- `validateStringSet`: `seen` holds the values before.
unfoldable pub validate_string_set : List Bytes → List Bytes → List Bytes → Result String (Unit {0})
validate_string_set allowed seen [] = ok tt
validate_string_set allowed seen (value ∷ values) =
    let rest = validate_string_set allowed (value ∷ seen) values in
    if not (contains value allowed)
    then err "value is not supported"
    else if contains value seen
    then err "value is duplicated"
    else rest

-- `validateJVMDecisionValue`
unfoldable pub validate_decision_value : JvmOption → Value → Bool → Result String (Unit {0})
validate_decision_value option nil required =
    if option.kind == type_bool then ok tt else reject required "a value is required"
validate_decision_value option value required =
    if option.kind == type_bool
    then err "bool options do not take a value"
    else if is_some (value_text option value)
    then ok tt
    else err "value is outside the option's type or range"

abbrev bound_invalid : Option ℤ → Bool
bound_invalid none = false
bound_invalid (some i) = ltb_ℤ i (pos 0) || ltb_ℤ (pos 1073741824) i

abbrev crossed : Option ℤ → Option ℤ → Bool
crossed (some lo) (some hi) = ltb_ℤ hi lo
crossed _ _ = false

-- The tests on one fact of a rule.
unfoldable pub validate_fact : Bytes × FactRange → Result String (Unit {0})
validate_fact (fact, bounds) =
    if not (contains fact auto_facts)
    then err "auto.rules uses unknown fact"
    else if not (is_some bounds.min || is_some bounds.max)
    then err "auto.rules.when needs min or max"
    else reject
        (bound_invalid bounds.min || bound_invalid bounds.max || crossed bounds.min bounds.max)
        "auto.rules.when range is invalid"

unfoldable pub validate_rule : JvmOption → AutoRule → Result String (Unit {0})
validate_rule option rule = do
  reject (is_empty rule.when) "auto.rules.when must test at least one fact"
  each validate_fact rule.when
  validate_decision_value option rule.value rule.enabled

unfoldable pub validate_auto : JvmOption → OptionAuto → Result String (Unit {0})
validate_auto option auto = do
  reject (is_empty auto.rules || ltb 16 (length auto.rules)) "auto needs 1..16 rules"
  each (validate_rule option) auto.rules
  validate_decision_value option auto.otherwise.value auto.otherwise.enabled

-- `validateJVMOptionPlatform`
unfoldable pub validate_platform : JvmOption → OptionPlatform → Result String (Unit {0})
validate_platform option platform = do
  validate_decision_value option platform.default_value true
  elim platform.auto [ none ↦ ok tt | some auto ↦ validate_auto option auto ]

-- `strings.ContainsAny(s, "{}")`
unfoldable pub has_brace : Bytes → Bool
has_brace [] = false
has_brace (c ∷ s) = c == b'{' || c == b'}' || has_brace s

-- The loop over the values of an enum option; `seen` holds those before.
unfoldable pub validate_enum_values : List Bytes → List Bytes → Result String (Unit {0})
validate_enum_values seen [] = ok tt
validate_enum_values seen (value ∷ values) =
    let rest = validate_enum_values (value ∷ seen) values in
    if not (valid_enum_value value)
    then err "enum value is invalid"
    else if contains value seen
    then err "enum value is duplicated"
    else rest

unfoldable pub render_each : Bytes → List Bytes → List Bytes
render_each template [] = []
render_each template (value ∷ values) = replace_once value template ∷ render_each template values

unfoldable pub rendered_int : JvmOption → Option ℤ → Option ℤ → Result String (List Bytes)
rendered_int option (some lo) (some hi) =
    if count_from 0 option.template != 1 || not (is_empty option.values)
    then err "int options need one {value}, min and max, and no values"
    else if ltb_ℤ hi lo || ltb_ℤ lo min_int32 || ltb_ℤ max_int32 hi
    then err "int range is invalid"
    else ok (render_each option.template (decimal lo ∷ decimal hi ∷ []))
rendered_int option _ _ = err "int options need one {value}, min and max, and no values"

unfoldable pub rendered_enum : JvmOption → Result String (List Bytes)
rendered_enum option =
    if count_from 0 option.template != 1
      || is_some option.min
      || is_some option.max
      || is_empty option.values
      || ltb 16 (length option.values)
    then err "enum options need one {value} and 1..16 values, without min or max"
    else do validate_enum_values [] option.values; ok (render_each option.template option.values)

-- The arguments that the template is tried with.
unfoldable pub rendered_of : JvmOption → Result String (List Bytes)
rendered_of option =
    if option.kind == type_bool
    then (if count_from 0 option.template != 0
          || is_some option.min
          || is_some option.max
          || not (is_empty option.values)
        then err "bool options use a fixed template without {value}, min, max or values"
        else ok (option.template ∷ []))
    else if option.kind == type_int
    then rendered_int option option.min option.max
    else if option.kind == type_enum
    then rendered_enum option
    else err "type must be bool, int or enum"

-- The loop over the rendered arguments: `key` is empty before the first.
unfoldable pub check_rendered : Bytes → List Bytes → Result String (Unit {0})
check_rendered key [] = ok tt
check_rendered key (arg ∷ args) =
    let first = check_rendered (flag_key_unchecked arg) args in
    let rest = check_rendered key args in
    do
      validate_argument arg
      if is_empty key
          then first
          else (if flag_key_unchecked arg != key
              then err "every value must render the same JVM flag"
              else rest)

-- `validateJVMOptionTemplate`
unfoldable pub validate_template : JvmOption → Result String (Unit {0})
validate_template option =
    if has_brace (strip_from 0 option.template)
    then err "template may only contain the {value} placeholder"
    else do rendered ← rendered_of option; check_rendered [] rendered

-- `strings.ContainsAny(s, "\r\n")`
unfoldable pub has_line_break : Bytes → Bool
has_line_break [] = false
has_line_break (c ∷ s) = c == 13 || c == 10 || has_line_break s

unfoldable pub bad_java : JvmOption → Bool
bad_java option =
    ltb_ℤ option.java.min (pos 8)
    || ltb_ℤ (pos 1000) option.java.min
    || crossed (some option.java.min) option.java.max

unfoldable pub validate_platforms :
    JvmOption → List (Bytes × OptionPlatform) → Result String (Unit {0})
validate_platforms option [] = ok tt
validate_platforms option ((name, platform) ∷ rest) =
    let later = validate_platforms option rest in
    if not (contains name option_platforms)
    then err "platform is not supported"
    else validate_platform option platform >> later

-- `validateJVMOption`
unfoldable pub validate_option : JvmOption → Result String (Unit {0})
validate_option option = do
  reject (not (valid_option_id option.id)) "id must match ^[a-z0-9][a-z0-9-]{0,63}$"
  reject (is_empty option.label || ltb 64 (length option.label) || has_line_break option.label)
      "label must be 1..64 bytes on one line"
  reject (is_empty option.help || ltb 1024 (length option.help)) "help must be 1..1024 bytes"
  reject (bad_java option) "java range must start at 8 or later and not end before it starts"
  validate_string_set option_vms [] option.vm
  reject (has_prefix (codes "-XX:") option.template && is_empty option.vm)
      "-XX options must name the JVM implementations they apply to"
  validate_template option
  reject (is_empty option.platforms) "platforms must contain pc and/or android"
  validate_platforms option option.platforms

-- The first loop of `validateJVMOptions`; it returns the identifiers.
unfoldable pub validate_each_option : List Bytes → List JvmOption → Result String (List Bytes)
validate_each_option ids [] = ok ids
validate_each_option ids (option ∷ options) =
    let rest = validate_each_option (option.id ∷ ids) options in
    validate_option option
    >> (if contains option.id ids then err "jvm_options duplicates id" else rest)

-- The loop over the removals.
unfoldable pub validate_removals : List Bytes → List Bytes → List Bytes → Result String (Unit {0})
validate_removals ids removed [] = ok tt
validate_removals ids removed (id ∷ rest) =
    let later = validate_removals ids (id ∷ removed) rest in
    if not (valid_option_id id)
    then err "remove_jvm_options is invalid"
    else if contains id removed
    then err "remove_jvm_options duplicates id"
    else if contains id ids
    then err "jvm option is both published and removed"
    else later

-- `validateJVMOptions`
unfoldable pub validate_options : Manifest → Result String (Unit {0})
validate_options m =
    if ltb max_options (length m.jvm_options) || ltb max_options (length m.remove_jvm_options)
    then err "jvm_options and remove_jvm_options are limited to 64 entries"
    else if not (is_some m.base) && not (is_empty m.remove_jvm_options)
    then err "root manifest cannot remove jvm_options"
    else do
      ids ← validate_each_option [] m.jvm_options
      validate_removals ids [] m.remove_jvm_options
      check_flag_collisions m.jvm_options
