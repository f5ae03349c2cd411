-- ===== src/Revision/Tests.antt =====
-- The theorems on revisions at concrete inputs.
use boot_optim_distribution.Base.{
  ◌<ℤ◌, int_eq, length, All, contains, IsDistinct, lookup, delete, insert, ◌>>=◌, ◌>>◌, each, Bytes,
  codes, bytes_beq, bytes_eq, after_prefix, has_prefix, cut, split, contains_byte, is_digit,
  is_lower, is_upper, nat_eq, bool_eq, pos, ok, err, ℕ, ◌≤◌, ◌≡◌, refl, ◌↔◌, ◌⊎◌, inl, inr, Bool,
  true, false, Option, none, some, List, [], ◌∷◌, ◌++◌,
}
use boot_optim_distribution.Revision.Types.{ConfigSetting, identity}
use boot_optim_distribution.Revision.Types.{
  VerifiedRollbackEvent, ChannelState, VerifiedRevision, Manifest, JvmOption, ParentRef, nil, str,
  same_game, resolved_loader,
}
use boot_optim_distribution.Revision.Ids.{
  is_sha256, valid_profile_id, valid_entry_id_range, valid_revision_id, valid_channel,
  valid_entry_id, safe_path, safe_part, has_double_slash, ends_with_byte, valid_object_ref,
  optional_digest, is_hex, is_alphanum, is_lower_alphanum, lower_tail, lower_word,
}
use boot_optim_distribution.Revision.Transition.{
  rollback_required, decide_channel_transition, decide_from, well_formed_head, well_formed_channel,
  binds,
}
use boot_optim_distribution.Revision.Transition.Laws.{
  IsHead, SameChannel, Move, here, step, decide_channel_transition_iff, rollback_required_iff,
  History-ascends,
}
use boot_optim_distribution.Revision.Jvm.Argument.{
  max_argument_bytes, validate_argument, validate_form, valid_number, valid_size, without_unit,
  is_unit, all_digits, validate_xx_argument, validate_xx_value, validate_flag_name, valid_flag_name,
  is_letter, name_char, is_printable, flag_key_unchecked, xx_key, before_equals,
}
use boot_optim_distribution.Revision.Jvm.Argument.Forms.{Allowed}
use boot_optim_distribution.Revision.Jvm.Argument.Allowed.{IsPrintable, validate_argument_iff}
use boot_optim_distribution.Revision.Jvm.Collisions.{
  check_flag_collisions, claim, claim_all, option_flag_key, sample_of,
}
use boot_optim_distribution.Revision.Jvm.Collisions.Owners.{no_collision}
use boot_optim_distribution.Revision.Jvm.Effective.{
  effective_options, resolve_chain, apply_manifest, remove_options, remove_option, put_options,
  put_option, remove_at, shift_index, set_at,
}
use boot_optim_distribution.Revision.Jvm.Effective.Index.{ids}
use boot_optim_distribution.Revision.Jvm.Effective.Refines.{
  effective_options-inherit, effective_options-IsDistinct,
}
use boot_optim_distribution.Revision.Jvm.Effective.Reference.{inherit}
use boot_optim_distribution.Revision.Jvm.Template.{
  render_option, replace_once, count_from, strip_from, value_text, enum_text,
}
use boot_optim_distribution.Revision.Jvm.Options.{
  validate_template, rendered_of, check_rendered, has_brace, validate_enum_values, valid_enum_value,
  rendered_enum, render_each, validate_options, validate_each_option, validate_removals,
}
use boot_optim_distribution.Revision.Jvm.Options.Rendered.{render_option-accepted}
use boot_optim_distribution.Revision.Validate.{
  validate_manifest_values, check_schema, check_revision, check_profile, check_icon, validate_game,
  check_base, check_lists, check_mods, check_configs, check_objects, check_settings, add_place,
}
use boot_optim_distribution.Revision.Validate.Publishable.{
  IsPublishable, validate_manifest_values-IsPublishable,
}
use boot_optim_distribution.Revision.Chain.{
  Parents, validate_inheritance_chain, key_beq, follow, next_parent, matches_pin, depth_cap,
  lineage_of, extend_lineage, drop_configs, add_configs, add_settings,
}
use boot_optim_distribution.Revision.Chain.Override.{Outcome, add_setting-Outcome}
use boot_optim_distribution.Revision.Chain.{Lineage, add_setting, check_override, may_override}
use boot_optim_distribution.Revision.Chain.Settings.{HasConfig, lineage_of-HasConfig}
use boot_optim_distribution.Revision.Chain.Walk.{IsChain, validate_inheritance_chain_iff}

abbrev sha_a : Bytes
sha_a = codes "aaaaaaaaaaaaaaaaaaaaaaaaaaaaaaaaaaaaaaaaaaaaaaaaaaaaaaaaaaaaaaaa"

abbrev state : Bytes → ℕ → ChannelState
state id n = record {
  profile_id = codes "profile_abc";
  channel = codes "stable";
  revision_id = id;
  sequence = pos n;
  manifest_sha256 = sha_a;
}

abbrev third : ChannelState
third = state (codes "rev_0123456789abcdef") 3

abbrev fifth : ChannelState
fifth = state (codes "rev_fedcba9876543210") 5

abbrev back : VerifiedRollbackEvent
back = record {
  event_id = [];
  digest = [];
  canonical = [];
  statement = record {
    profile_id = codes "profile_abc";
    channel = codes "stable";
    from_revision_id = codes "rev_fedcba9876543210";
    from_sequence = pos 5;
    to_revision_id = codes "rev_0123456789abcdef";
    reason = [];
    issued_at = [];
  };
  signature = record { key_id = []; algorithm = []; value = [] };
}

abbrev absent : Option VerifiedRollbackEvent
absent = none

goes_up : decide_channel_transition (some third) fifth none ≡ ok tt
unfolding decide_channel_transition decide_from well_formed_head well_formed_channel
    valid_profile_id valid_channel valid_revision_id is_sha256 valid_entry_id_range is_hex
    is_alphanum lower_word lower_tail is_lower_alphanum is_digit is_lower is_upper after_prefix
    bytes_beq
goes_up = refl

goes_back : decide_channel_transition (some fifth) third (some back) ≡ ok tt
unfolding decide_channel_transition decide_from binds well_formed_head well_formed_channel
    valid_profile_id valid_channel valid_revision_id is_sha256 valid_entry_id_range is_hex
    is_alphanum lower_word lower_tail is_lower_alphanum is_digit is_lower is_upper after_prefix
    bytes_beq
goes_back = refl

decide_channel_transition_iff_example :
    (decide_channel_transition (some fifth) third (some back) ≡ ok tt) ↔ (
      IsHead third
      × (well_formed_head fifth ≡ true)
      × SameChannel fifth third
      × Move fifth third (some back))
decide_channel_transition_iff_example = decide_channel_transition_iff fifth third (some back)

rollback_required_iff_example :
    (decide_channel_transition (some fifth) third absent ≡ err rollback_required) ↔ (
      (known : ChannelState) × (some fifth ≡ some known)
      × IsHead third
      × (well_formed_head known ≡ true)
      × SameChannel known third
      × (third.sequence <ℤ known.sequence)
      × (absent ≡ none))
rollback_required_iff_example = rollback_required_iff (some fifth) third absent

History-ascends_example :
    SameChannel third fifth × ((third.sequence <ℤ fifth.sequence) ⊎ (third ≡ fifth))
History-ascends_example = History-ascends third fifth (step here goes_up)

validate_argument_iff_example : (validate_argument (codes "-XX:MaxGCPauseMillis=50") ≡ ok tt) ↔ (
    (length (codes "-XX:MaxGCPauseMillis=50") ≤ max_argument_bytes)
    × All IsPrintable (codes "-XX:MaxGCPauseMillis=50")
    × Allowed (codes "-XX:MaxGCPauseMillis=50"))
validate_argument_iff_example = validate_argument_iff (codes "-XX:MaxGCPauseMillis=50")

denied_flag : validate_argument (codes "-XX:+EnableJVMCI") ≡ err "-XX flag is not allowed"
unfolding validate_argument validate_form validate_xx_argument validate_flag_name valid_flag_name
    is_letter name_char is_printable is_digit is_lower is_upper after_prefix contains bytes_beq
denied_flag = refl

abbrev flag_option : Bytes → Bytes → JvmOption
flag_option id template = record {
  id = id;
  label = [];
  template = template;
  kind = codes "bool";
  min = none;
  max = none;
  values = [];
  help = [];
  java = record { min = pos 17; max = none };
  vm = [];
  platforms =
      (codes "linux", record { default_enabled = true; default_value = nil; auto = none }) ∷ [];
}

abbrev zgc : JvmOption
zgc = flag_option (codes "jvm_zgc") (codes "-XX:+UseZGC")

abbrev touch : JvmOption
touch = flag_option (codes "jvm_touch") (codes "-XX:+AlwaysPreTouch")

abbrev manifest : Bytes → Option ParentRef → List JvmOption → List Bytes → Manifest
manifest id base options removed = record {
  schema_version = pos 2;
  revision = record { id = id; sequence = pos 1; created_at = []; release_notes = [] };
  profile = record {
    description = [];
    icon = none;
    id = codes "profile_abc";
    name = [];
    official = true;
  };
  game = record { minecraft = codes "1.21.1"; neoforge = codes "21.1.1"; loader = none };
  base = base;
  permissions = record {
    derive_local = true;
    mods = record { add = true; remove = true };
    configs = record { override_enforced = false; override_default_once = true };
    max_inheritance_depth = pos 2;
  };
  mods = [];
  remove_mods = [];
  configs = [];
  remove_configs = [];
  config_settings = [];
  jvm_options = options;
  remove_jvm_options = removed;
  objects = [];
}

abbrev revision : Manifest → VerifiedRevision
revision m = record {
  manifest = m;
  digest = sha_a;
  canonical = [];
  signature = record { key_id = []; algorithm = []; value = [] };
}

abbrev root : VerifiedRevision
root = revision (manifest (codes "rev_root") none (zgc ∷ touch ∷ []) [])

abbrev child : VerifiedRevision
child = revision (
    manifest (codes "rev_child")
      (some (record {
        profile_id = codes "profile_abc";
        revision_id = codes "rev_root";
        manifest_sha256 = sha_a;
      }))
      [] (codes "jvm_zgc" ∷ []))

only_root : Parents
only_root key = some root

inherits : effective_options (child ∷ root ∷ []) ≡ ok (touch ∷ [])
unfolding effective_options resolve_chain apply_manifest remove_options remove_option put_options
    put_option remove_at shift_index set_at check_flag_collisions claim claim_all option_flag_key
    sample_of flag_key_unchecked xx_key before_equals lookup delete insert bytes_beq after_prefix
    cut
inherits = refl

no_clash : check_flag_collisions (zgc ∷ touch ∷ []) ≡ ok tt
unfolding check_flag_collisions claim claim_all option_flag_key sample_of flag_key_unchecked xx_key
    before_equals lookup delete insert bytes_beq after_prefix cut
no_clash = refl

no_collision_example : codes "jvm_zgc" ≡ codes "jvm_zgc"
unfolding option_flag_key sample_of flag_key_unchecked xx_key bytes_beq after_prefix
no_collision_example =
    no_collision (zgc ∷ touch ∷ []) (codes "linux" ++ (0 ∷ codes "XX:UseZGC")) (codes "jvm_zgc")
      (codes "jvm_zgc") no_clash (inl (refl, inl refl)) (inl (refl, inl refl))

effective_options-inherit_example :
    effective_options (child ∷ root ∷ [])
    ≡ (do out ← inherit (child ∷ root ∷ []); check_flag_collisions out; ok out)
effective_options-inherit_example = effective_options-inherit (child ∷ root ∷ [])

effective_options-IsDistinct_example :
    IsDistinct (ids (touch ∷ [])) × (check_flag_collisions (touch ∷ []) ≡ ok tt)
effective_options-IsDistinct_example =
    effective_options-IsDistinct (child ∷ root ∷ []) (touch ∷ []) inherits

child_chain : validate_inheritance_chain child only_root (pos 8) ≡ ok (child ∷ root ∷ [])
unfolding key_beq only_root validate_inheritance_chain follow next_parent matches_pin depth_cap
    same_game resolved_loader lineage_of extend_lineage drop_configs add_configs add_settings
    effective_options resolve_chain apply_manifest remove_options remove_option put_options
    put_option remove_at shift_index set_at check_flag_collisions claim claim_all option_flag_key
    sample_of flag_key_unchecked xx_key before_equals lookup delete insert contains bytes_beq
    after_prefix cut
child_chain = refl

validate_inheritance_chain_iff_example :
    (validate_inheritance_chain child only_root (pos 8) ≡ ok (child ∷ root ∷ [])) ↔ (
      (bases : List VerifiedRevision) × (child ∷ root ∷ [] ≡ child ∷ bases)
      × IsChain child only_root (pos 8) bases)
validate_inheritance_chain_iff_example =
    validate_inheritance_chain_iff child only_root (pos 8) (child ∷ root ∷ [])

abbrev shenandoah : JvmOption
shenandoah = record (flag_option (codes "jvm_heuristic") (codes "-XX:GCMode={value}")) {
  kind = codes "enum";
  values = codes "1" ∷ codes "2" ∷ [];
}

template_passes : validate_template shenandoah ≡ ok tt
unfolding validate_template rendered_of rendered_enum render_each check_rendered has_brace
    validate_enum_values valid_enum_value is_alphanum strip_from count_from has_prefix replace_once
    validate_argument validate_form validate_xx_argument validate_xx_value validate_flag_name
    valid_flag_name is_letter name_char is_printable valid_number valid_size without_unit is_unit
    all_digits flag_key_unchecked xx_key before_equals is_digit is_lower is_upper after_prefix cut
    contains bytes_beq
template_passes = refl

renders : render_option shenandoah (str (codes "2")) ≡ ok (codes "-XX:GCMode=2")
unfolding render_option value_text enum_text replace_once after_prefix contains bytes_beq
renders = refl

render_option-accepted_example : validate_argument (codes "-XX:GCMode=2") ≡ ok tt
render_option-accepted_example =
    render_option-accepted shenandoah (str (codes "2")) (codes "-XX:GCMode=2") template_passes
      (inr refl) renders

abbrev publishable : Manifest
publishable = record (manifest (codes "rev_0123456789abcdef") none [] []) {
  profile = record {
    description = [];
    icon = none;
    id = codes "profile_abc";
    name = codes "Abc";
    official = true;
  };
  mods =
      record {
        id = codes "mod_a";
        path = codes "mods/a.jar";
        object = record { sha256 = sha_a; size = pos 10; media_type = [] };
        expect_base_object_sha256 = none;
      }
      ∷ [];
  configs =
      record {
        path = codes "config/a.toml";
        object = record { sha256 = sha_a; size = pos 10; media_type = [] };
        policy = codes "enforced";
        expect_base_object_sha256 = none;
      }
      ∷ [];
}

unchanged : Bytes → Bytes
unchanged bytes = bytes

any_time : Bytes → Bool
any_time text = true

passes : validate_manifest_values unchanged any_time publishable ≡ ok tt
unfolding validate_manifest_values any_time check_schema validate_options validate_each_option
    validate_removals check_flag_collisions claim_all check_revision check_profile check_icon
    validate_game check_base check_lists check_mods check_configs check_objects check_settings each
    add_place optional_digest valid_entry_id safe_path safe_part has_double_slash ends_with_byte
    valid_object_ref valid_profile_id valid_revision_id is_sha256 valid_entry_id_range is_hex
    is_alphanum lower_word lower_tail is_lower_alphanum is_digit is_lower is_upper after_prefix
    has_prefix contains_byte split contains bytes_beq
passes = refl

validate_manifest_values-IsPublishable_example : IsPublishable publishable
validate_manifest_values-IsPublishable_example =
    validate_manifest_values-IsPublishable unchanged any_time publishable passes

abbrev setting : Bytes → ConfigSetting
setting value = record {
  path = codes "config/a.toml";
  format = codes "toml";
  key = codes "k";
  value = str value;
  policy = codes "default_once";
}

abbrev with_setting : VerifiedRevision
with_setting = revision (record publishable { config_settings = setting (codes "1") ∷ [] })

abbrev replacing : VerifiedRevision
replacing = revision (record child.manifest { config_settings = setting (codes "2") ∷ [] })

abbrev one_setting : Bytes → Lineage
one_setting value = record {
  configs = codes "config/a.toml" ∷ [];
  settings = (identity (setting value), setting value) ∷ [];
  permissions = some (record { override_enforced = false; override_default_once = true });
}

replaces : lineage_of (replacing ∷ with_setting ∷ []) ≡ ok (one_setting (codes "2"))
unfolding lineage_of extend_lineage drop_configs add_configs add_settings add_setting check_override
    may_override identity lookup insert delete contains bytes_beq
replaces = refl

lineage_of-HasConfig_example :
    All (HasConfig (codes "config/a.toml" ∷ [])) (one_setting (codes "2")).settings
lineage_of-HasConfig_example =
    lineage_of-HasConfig (replacing ∷ with_setting ∷ []) (one_setting (codes "2")) replaces

abbrev enforced_setting : ConfigSetting
enforced_setting = record (setting (codes "1")) { policy = codes "enforced" }

-- The permission to replace defaults is not one to replace what is enforced.
refuses_enforced :
    add_setting
      (record (one_setting (codes "1")) {
        settings = (identity enforced_setting, enforced_setting) ∷ [];
      })
      (setting (codes "2"))
    ≡ err "parent profile does not permit overriding config setting"
unfolding add_setting check_override may_override identity lookup contains bytes_beq
refuses_enforced = refl

add_setting-Outcome_example :
    Outcome
      (one_setting (codes "1"))
      (setting (codes "2"))
      (add_setting (one_setting (codes "1")) (setting (codes "2")))
add_setting-Outcome_example = add_setting-Outcome (one_setting (codes "1")) (setting (codes "2"))
