-- ===== src/Revision/Validate.antt =====
-- internal/revision/validate.go: `validateManifestValues` and what it calls. An error is Go's message,
-- without the values that are formatted into it. `strings.ToLower`, and whether `time.Parse` accepts
-- an RFC 3339 time, are parameters.
pub mod Publishable
use Prim.Native.String.{String}
use boot_optim_distribution.Base.{
  ltb_ℤ, int_eq, length, all, is_empty, contains, ◌>>=◌, ◌>>◌, reject, each, Result, Bytes, codes,
  bytes_eq, after_prefix, split, contains_byte, is_digit, ltb, leb, if◌then◌else◌, ◌==◌, ◌!=◌,
  nat_eq, bool_eq, is_some, pos, ok, err, ℕ, ◌+◌, ◌-◌, ◌*◌, ◌<◌, Bool, true, false, not, ◌&&◌, ◌||◌,
  Option, none, some, List, [], ◌∷◌,
}
use boot_optim_distribution.Revision.Types.{
  Number, integral, fractional, not_finite, Value, Values, end, item, nil, bool, num, str, arr, obj,
  ConfigSetting, ConfigEntry, RemoveConfig, ModEntry, RemoveMod, ObjectEntry, ObjectRef, ParentRef,
  GameLoader, Manifest, Signature, identity,
}
use boot_optim_distribution.Revision.Ids.{
  is_sha256, is_alphanum, valid_profile_id, valid_revision_id, valid_entry_id, safe_path,
  valid_object_ref, optional_digest,
}
use boot_optim_distribution.Revision.Jvm.Template.{decimal}
use boot_optim_distribution.Revision.Jvm.Options.{validate_options}
use boot_optim_distribution.Revision.Setting.{
  known_policy, validate_text_lines, validate_properties, validate_toml,
}

-- `validLoaderVersion`
unfoldable pub loader_char : ℕ → Bool
loader_char c = is_alphanum c || c == b'.' || c == b'_' || c == b'+' || c == b'-'

unfoldable pub valid_loader_version : Bytes → Bool
valid_loader_version [] = false
valid_loader_version (c ∷ s) = leb (length (c ∷ s)) 64 && is_alphanum c && all loader_char s

abbrev bad_version : Bytes → Bool
bad_version s = is_empty s || ltb 64 (length s)

unfoldable pub validate_loader : Option GameLoader → Result String (Unit {0})
validate_loader none = err "schema_version 4 requires game.loader and no game.neoforge"
validate_loader (some loader) =
    if not (
      loader.kind == codes "neoforge"
      || loader.kind == codes "fabric"
      || loader.kind == codes "forge")
    then err "game.loader.kind is not supported"
    else reject (not (valid_loader_version loader.version))
        "game.loader.version is empty, too long or has unsafe characters"

-- `validateGame`
unfoldable pub validate_game : Manifest → Result String (Unit {0})
validate_game m =
    if bad_version m.game.minecraft
    then err "game versions must be non-empty and at most 64 bytes"
    else if ltb_ℤ m.schema_version (pos 4)
    then (if is_some m.game.loader
        then err "game.loader requires schema_version 4"
        else reject (bad_version m.game.neoforge)
            "game versions must be non-empty and at most 64 bytes")
    else if not (is_empty m.game.neoforge)
    then err "schema_version 4 requires game.loader and no game.neoforge"
    else validate_loader m.game.loader

-- `addPath` and the tests behind it: where an entry goes, and the object that it expects there.
unfoldable pub add_place :
    Bool → String → List Bytes → Bytes → Option Bytes → Result String (List Bytes)
add_place root message paths path expected =
    if contains path paths
    then err "destination path collides"
    else if not (optional_digest expected)
    then err "expected base digest is malformed"
    else if root && is_some expected
    then err message
    else ok (path ∷ paths)

-- The loop over `m.Mods`.
unfoldable pub check_mods :
    Bool → List Bytes → List Bytes → List ModEntry → Result String (List Bytes)
check_mods root ids paths [] = ok paths
check_mods root ids paths (e ∷ es) = do
  reject (not (valid_entry_id e.id (codes "mod_") && safe_path e.path && valid_object_ref e.object))
      "mods is invalid"
  reject (contains e.id ids) "duplicate mod id"
  paths' ←
      add_place root "root mods cannot expect a base object" paths e.path
        e.expect_base_object_sha256
  check_mods root (e.id ∷ ids) paths' es

-- The loop over `m.Configs`.
unfoldable pub check_configs : Bool → List Bytes → List ConfigEntry → Result String (List Bytes)
check_configs root paths [] = ok paths
check_configs root paths (e ∷ es) = do
  reject (not (safe_path e.path && valid_object_ref e.object && known_policy e.policy))
      "configs is invalid"
  paths' ←
      add_place root "root configs cannot expect a base object" paths e.path
        e.expect_base_object_sha256
  check_configs root paths' es

-- The loop over `m.Objects`.
unfoldable pub check_objects :
    Bool → List Bytes → List Bytes → List ObjectEntry → Result String (List Bytes)
check_objects root ids paths [] = ok paths
check_objects root ids paths (e ∷ es) = do
  reject (not (valid_entry_id e.id (codes "obj_") && safe_path e.path && valid_object_ref e.object))
      "objects is invalid"
  reject (contains e.id ids) "duplicate object id"
  paths' ←
      add_place root "root objects cannot expect a base object" paths e.path
        e.expect_base_object_sha256
  check_objects root (e.id ∷ ids) paths' es

unfoldable pub check_remove_mod : RemoveMod → Result String (Unit {0})
check_remove_mod e =
    reject (not (valid_entry_id e.id (codes "mod_") && is_sha256 e.expect_base_object_sha256))
      "remove_mods is invalid"

unfoldable pub check_remove_config : RemoveConfig → Result String (Unit {0})
check_remove_config e =
    reject (not (safe_path e.path && is_sha256 e.expect_base_object_sha256))
      "remove_configs is invalid"

unfoldable pub check_base : Manifest → Result String (Unit {0})
check_base m = elim m.base [
  | some base ↦
      reject
        (not (
          valid_profile_id base.profile_id
          && valid_revision_id base.revision_id
          && is_sha256 base.manifest_sha256))
        "base pin is malformed"
  | none ↦
      reject (not (is_empty m.remove_mods && is_empty m.remove_configs))
        "root manifest cannot contain removals"
]

unfoldable pub check_icon : Option ObjectRef → Result String (Unit {0})
check_icon none = ok tt
check_icon (some icon) =
    reject
      (not (valid_object_ref icon)
        || ltb_ℤ (pos 2097152) icon.size
        || icon.media_type != codes "image/png")
      "profile icon must be a PNG object of at most 2 MiB"

unfoldable pub check_schema : Manifest → Result String (Unit {0})
check_schema m =
    if ltb_ℤ m.schema_version (pos 1) || ltb_ℤ (pos 4) m.schema_version
    then err "schema_version must equal 1, 2, 3 or 4"
    else if m.schema_version == pos 1 && not (is_empty m.config_settings)
    then err "config_settings require schema_version 2 or later"
    else reject
        (ltb_ℤ m.schema_version (pos 3)
          && not (is_empty m.jvm_options && is_empty m.remove_jvm_options))
        "jvm_options require schema_version 3"

abbrev pub bad_depth : Manifest → Bool
bad_depth m =
    ltb_ℤ m.permissions.max_inheritance_depth (pos 0)
    || ltb_ℤ (pos 8) m.permissions.max_inheritance_depth

module _ (to_lower : Bytes → Bytes) (is_time : Bytes → Bool) where
  -- `validateConfigSetting`
  unfoldable pub validate_config_setting : ConfigSetting → Result String (Unit {0})
  validate_config_setting s =
      if not (safe_path s.path) || is_empty s.key || ltb 256 (length s.key)
      then err "path or key is invalid"
      else if not (known_policy s.policy)
      then err "policy must be enforced or default_once"
      else if s.format == codes "toml"
      then validate_toml (to_lower s.path) s
      else if s.format == codes "properties"
      then validate_properties (to_lower s.path) s
      else if s.format == codes "text_lines"
      then validate_text_lines (to_lower s.path) s
      else err "format must be toml, properties, or text_lines"

  -- The loop over `m.ConfigSettings`.
  unfoldable pub check_settings : List Bytes → List ConfigSetting → Result String (Unit {0})
  check_settings seen [] = ok tt
  check_settings seen (s ∷ ss) = do
    validate_config_setting s
    reject (contains (identity s) seen) "config_settings duplicates path/key"
    check_settings (identity s ∷ seen) ss

  unfoldable pub check_revision : Manifest → Result String (Unit {0})
  check_revision m = do
    reject (not (valid_revision_id m.revision.id) || ltb_ℤ m.revision.sequence (pos 1))
        "revision id or sequence is invalid"
    reject (not (is_time m.revision.created_at)) "revision.created_at must be RFC3339 date-time"
    reject (ltb 8192 (length m.revision.release_notes)) "revision.release_notes exceeds 8192 bytes"

  unfoldable pub check_profile : Manifest → Result String (Unit {0})
  check_profile m = do
    reject
        (not (valid_profile_id m.profile.id)
          || is_empty m.profile.name
          || ltb 96 (length m.profile.name)
          || not m.profile.official)
        "profile is invalid or not official"
    reject (ltb 8192 (length m.profile.description)) "profile description exceeds 8192 bytes"
    check_icon m.profile.icon

  -- The loops over the lists of a manifest.
  unfoldable pub check_lists : Manifest → Result String (Unit {0})
  check_lists m = do
    mods ← check_mods (not (is_some m.base)) [] [] m.mods
    each check_remove_mod m.remove_mods
    configs ← check_configs (not (is_some m.base)) mods m.configs
    each check_remove_config m.remove_configs
    reject (ltb 4096 (length m.config_settings)) "config_settings exceeds 4096 entries"
    check_settings [] m.config_settings
    objects ← check_objects (not (is_some m.base)) [] configs m.objects
    ok tt

  -- `validateManifestValues`
  unfoldable pub validate_manifest_values : Manifest → Result String (Unit {0})
  validate_manifest_values m = do
    check_schema m
    validate_options m
    check_revision m
    check_profile m
    validate_game m
    reject (bad_depth m) "permissions.max_inheritance_depth is outside 0..8"
    check_base m
    check_lists m

-- `validateSignature`
unfoldable pub validate_signature : Signature → Result String (Unit {0})
validate_signature sig =
    if is_empty sig.key_id || ltb 128 (length sig.key_id)
    then err "signature.key_id must be 1..128 bytes"
    else if sig.algorithm != codes "Ed25519"
    then err "signature.algorithm must be Ed25519"
    else reject (contains_byte b'=' sig.value || is_empty sig.value)
        "signature.value must be unpadded base64url"
