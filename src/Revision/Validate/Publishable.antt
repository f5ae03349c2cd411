-- ===== src/Revision/Validate/Publishable.antt =====
-- What a manifest that passed `validateManifestValues` promises to the launchers that apply it.
use Prim.Native.String.{String}
use boot_optim_distribution.Base.{
  int_eq, length, is_empty, All, contains, IsDistinct, reject, each, bind_ok, guard_ok, Bytes,
  codes, bytes_eq, ltb, nat_eq, bool_eq, Option-cases, is_some, ok, ◌≡◌, refl, sym, ◌∙◌, ◌⊎◌, inl,
  inr, Bool, true, false, not, ◌&&◌, Option, List, [], ◌∷◌, arith,
}
use boot_optim_distribution.Revision.Types.{
  ConfigSetting, ConfigEntry, ModEntry, ObjectEntry, Manifest, identity,
}
use boot_optim_distribution.Revision.Ids.{valid_entry_id, safe_path, valid_object_ref}
use boot_optim_distribution.Revision.Jvm.Collisions.{check_flag_collisions}
use boot_optim_distribution.Revision.Jvm.Options.{
  validate_options, validate_each_option, validate_removals,
}
use boot_optim_distribution.Revision.Validate.{
  add_place, check_mods, check_configs, check_objects, check_remove_mod, check_remove_config,
  check_base, check_schema, check_revision, bad_depth, check_profile, check_lists, check_settings,
  validate_config_setting, validate_game, validate_manifest_values,
}
use boot_optim_distribution.Revision.Setting.{known_policy}

-- The list on top of what was there, last first.
abbrev pub pile {ℓ κ} : {A : Type ℓ} {B : Type κ} → (A → B) → List B → List A → List B
pile f acc [] = acc
pile f acc (x ∷ xs) = pile f (f x ∷ acc) xs

-- The paths that the manifest writes to.
abbrev pub destinations : Manifest → List Bytes
destinations m =
    pile (λ e. e.path) (pile (λ e. e.path) (pile (λ e. e.path) [] m.mods) m.configs) m.objects

abbrev pub IsPath : Bytes → Type 0
IsPath path = safe_path path ≡ true

pub record IsPublishable (m : Manifest) : Type 0 where
  -- No two entries write to one path, and every path is safe.
  pub distinct : IsDistinct (destinations m)
  pub safe : All IsPath (destinations m)
  pub mod_ids : IsDistinct (pile (λ e. e.id) [] m.mods)
  pub object_ids : IsDistinct (pile (λ e. e.id) [] m.objects)
  pub settings : IsDistinct (pile identity [] m.config_settings)
  -- A root removes nothing.
  pub root :
      (is_some m.base ≡ true)
      ⊎ ((is_empty m.remove_mods ≡ true)
          × (is_empty m.remove_configs ≡ true)
          × (is_empty m.remove_jvm_options ≡ true))
  pub flags : check_flag_collisions m.jvm_options ≡ ok tt

add_place_ok :
    (root : Bool) (message : String) (paths paths' : List Bytes) (path : Bytes)
    (expected : Option Bytes)
    → add_place root message paths path expected ≡ ok paths'
    → (contains path paths ≡ false) × (paths' ≡ path ∷ paths)
unfolding add_place
add_place_ok root message paths paths' path expected h = ground arith

reject_ok : {E : Type 0} (b : Bool) (e : E) (u : Unit {0}) → reject b e ≡ ok u → b ≡ false
reject_ok true e u h = cc
reject_ok false e u h = refl

module _ (root : Bool) where
  check_mods_ok :
      (es : List ModEntry) (ids paths paths' : List Bytes)
      → check_mods root ids paths es ≡ ok paths'
      → IsDistinct ids
      → IsDistinct paths
      → All IsPath paths
      → (paths' ≡ pile (λ e. e.path) paths es)
        × IsDistinct paths'
        × All IsPath paths'
        × IsDistinct (pile (λ e. e.id) ids es)
  unfolding check_mods
  check_mods_ok [] ids paths paths' h d k s =
      let same : paths ≡ paths' = ground arith in (sym same, rw (← same) k, rw (← same) s, d)
  check_mods_ok (e ∷ es) ids paths paths' h d k s =
      let (u, valid, r₁) =
        bind_ok
          (reject
            (not
              (valid_entry_id e.id (codes "mod_") && safe_path e.path && valid_object_ref e.object))
            _)
          _ h in
      let (v, new, r₂) = bind_ok (reject (contains e.id ids) _) _ r₁ in
      let (mid, placed, rest) =
        bind_ok (add_place root _ paths e.path e.expect_base_object_sha256) _ r₂ in
      let (free, grown) = add_place_ok root _ paths mid e.path e.expect_base_object_sha256 placed in
      let fine = reject_ok _ _ u valid in
      check_mods_ok es (e.id ∷ ids) (e.path ∷ paths) paths' (rw grown at rest)
        (reject_ok _ _ v new, d) (free, k) (ground (arith, fine), s)

  check_configs_ok :
      (es : List ConfigEntry) (paths paths' : List Bytes)
      → check_configs root paths es ≡ ok paths'
      → IsDistinct paths
      → All IsPath paths
      → (paths' ≡ pile (λ e. e.path) paths es) × IsDistinct paths' × All IsPath paths'
  unfolding check_configs
  check_configs_ok [] paths paths' h k s =
      let same : paths ≡ paths' = ground arith in (sym same, rw (← same) k, rw (← same) s)
  check_configs_ok (e ∷ es) paths paths' h k s =
      let (u, valid, r₁) =
        bind_ok
          (reject (not (safe_path e.path && valid_object_ref e.object && known_policy e.policy)) _)
          _ h in
      let (mid, placed, rest) =
        bind_ok (add_place root _ paths e.path e.expect_base_object_sha256) _ r₁ in
      let (free, grown) = add_place_ok root _ paths mid e.path e.expect_base_object_sha256 placed in
      let fine = reject_ok _ _ u valid in
      check_configs_ok es (e.path ∷ paths) paths' (rw grown at rest) (free, k)
        (ground (arith, fine), s)

  check_objects_ok :
      (es : List ObjectEntry) (ids paths paths' : List Bytes)
      → check_objects root ids paths es ≡ ok paths'
      → IsDistinct ids
      → IsDistinct paths
      → All IsPath paths
      → (paths' ≡ pile (λ e. e.path) paths es)
        × IsDistinct paths'
        × All IsPath paths'
        × IsDistinct (pile (λ e. e.id) ids es)
  unfolding check_objects
  check_objects_ok [] ids paths paths' h d k s =
      let same : paths ≡ paths' = ground arith in (sym same, rw (← same) k, rw (← same) s, d)
  check_objects_ok (e ∷ es) ids paths paths' h d k s =
      let (u, valid, r₁) =
        bind_ok
          (reject
            (not
              (valid_entry_id e.id (codes "obj_") && safe_path e.path && valid_object_ref e.object))
            _)
          _ h in
      let (v, new, r₂) = bind_ok (reject (contains e.id ids) _) _ r₁ in
      let (mid, placed, rest) =
        bind_ok (add_place root _ paths e.path e.expect_base_object_sha256) _ r₂ in
      let (free, grown) = add_place_ok root _ paths mid e.path e.expect_base_object_sha256 placed in
      let fine = reject_ok _ _ u valid in
      check_objects_ok es (e.id ∷ ids) (e.path ∷ paths) paths' (rw grown at rest)
        (reject_ok _ _ v new, d) (free, k) (ground (arith, fine), s)

module _ (to_lower : Bytes → Bytes) (is_time : Bytes → Bool) where
  check_settings_ok :
      (ss : List ConfigSetting) (seen : List Bytes)
      → check_settings to_lower is_time seen ss ≡ ok tt
      → IsDistinct seen
      → IsDistinct (pile identity seen ss)
  unfolding check_settings
  check_settings_ok [] seen h d = d
  check_settings_ok (s ∷ ss) seen h d =
      let (u, valid, r₁) = bind_ok (validate_config_setting to_lower is_time s) _ h in
      let (v, new, rest) = bind_ok (reject (contains (identity s) seen) _) _ r₁ in
      check_settings_ok ss (identity s ∷ seen) rest (reject_ok _ _ v new, d)

  check_lists_ok :
      (m : Manifest)
      → check_lists to_lower is_time m ≡ ok tt
      → IsDistinct (destinations m)
        × All IsPath (destinations m)
        × IsDistinct (pile (λ e. e.id) [] m.mods)
        × IsDistinct (pile (λ e. e.id) [] m.objects)
        × IsDistinct (pile identity [] m.config_settings)
  unfolding check_lists
  check_lists_ok m h =
      let root = not (is_some m.base) in
      let (mods, a, r₁) = bind_ok (check_mods root [] [] m.mods) _ h in
      let (u₁, b, r₂) = bind_ok (each check_remove_mod m.remove_mods) _ r₁ in
      let (configs, c, r₃) = bind_ok (check_configs root mods m.configs) _ r₂ in
      let (u₂, d, r₄) = bind_ok (each check_remove_config m.remove_configs) _ r₃ in
      let (u₃, e, r₅) = bind_ok (reject (ltb 4096 (length m.config_settings)) _) _ r₄ in
      let (u₄, f, r₆) = bind_ok (check_settings to_lower is_time [] m.config_settings) _ r₅ in
      let (objects, g, _) = bind_ok (check_objects root [] configs m.objects) _ r₆ in
      let (em, dm, sm, im) = check_mods_ok root m.mods [] [] mods a tt tt tt in
      let (ec, dc, sc) = check_configs_ok root m.configs mods configs c dm sm in
      let (eo, do', so, io) = check_objects_ok root m.objects [] configs objects g tt dc sc in
      let same : objects ≡ destinations m = eo ∙ (rw ec (rw em refl)) in
      (rw (← same) do', rw (← same) so, im, io, check_settings_ok m.config_settings [] f tt)

  options_ok :
      (m : Manifest)
      → validate_options m ≡ ok tt
      → (check_flag_collisions m.jvm_options ≡ ok tt)
        × ((is_some m.base ≡ true) ⊎ (is_empty m.remove_jvm_options ≡ true))
  unfolding validate_options
  options_ok m h =
      let (_, r₁) = guard_ok _ _ _ h in
      let (root, r₂) =
        guard_ok (not (is_some m.base) && not (is_empty m.remove_jvm_options)) _ _ r₁ in
      let (ids, a, r₃) = bind_ok (validate_each_option [] m.jvm_options) _ r₂ in
      let (u, b, flags) = bind_ok (validate_removals ids [] m.remove_jvm_options) _ r₃ in
      (flags, ground (arith, root))

  base_ok :
      (m : Manifest)
      → check_base m ≡ ok tt
      → (is_some m.base ≡ true)
        ⊎ ((is_empty m.remove_mods ≡ true) × (is_empty m.remove_configs ≡ true))
  unfolding check_base
  base_ok m h = elim (Option-cases m.base) [
    | inl e ↦ inr (ground arith, ground arith)
    | inr (b, e) ↦ inl (rw e refl)
  ]

-- A manifest that passes validation writes each destination once and to a safe path, repeats no mod,
-- object or setting, has options whose flags do not collide, and removes nothing if it has no base.
pub validate_manifest_values-IsPublishable :
    (to_lower : Bytes → Bytes) (is_time : Bytes → Bool) (m : Manifest)
    → validate_manifest_values to_lower is_time m ≡ ok tt
    → IsPublishable m
unfolding validate_manifest_values
validate_manifest_values-IsPublishable to_lower is_time m h =
    let (u₁, a, r₁) = bind_ok (check_schema m) _ h in
    let (u₂, b, r₂) = bind_ok (validate_options m) _ r₁ in
    let (u₃, c, r₃) = bind_ok (check_revision to_lower is_time m) _ r₂ in
    let (u₄, d, r₄) = bind_ok (check_profile to_lower is_time m) _ r₃ in
    let (u₅, e, r₅) = bind_ok (validate_game m) _ r₄ in
    let (u₆, f, r₆) =
      bind_ok (reject (bad_depth m) "permissions.max_inheritance_depth is outside 0..8") _ r₅ in
    let (u₇, g, lists) = bind_ok (check_base m) _ r₆ in
    let (distinct, safe, mods, objects, settings) = check_lists_ok to_lower is_time m lists in
    let (flags, one) = options_ok to_lower is_time m b in
    record {
      distinct = distinct;
      safe = safe;
      mod_ids = mods;
      object_ids = objects;
      settings = settings;
      root = ground (arith, one, base_ok to_lower is_time m g);
      flags = flags;
    }
