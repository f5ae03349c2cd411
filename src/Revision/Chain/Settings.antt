-- ===== src/Revision/Chain/Settings.antt =====
-- The config settings of a chain always have their config.
use boot_optim_distribution.Base.{
  int_eq, All, contains, lookup, insert, All-delete, ◌>>◌, bind_ok, Bytes, bytes_eq, ◌==◌, eq_iff,
  nat_eq, bool_eq, Bool-cases, Option-cases, ok, ◌≡◌, refl, inl, inr, true, false, Option, none,
  some, List, [], ◌∷◌, arith,
}
use boot_optim_distribution.Revision.Types.{
  ConfigPermissions, ConfigSetting, ConfigEntry, RemoveConfig, VerifiedRevision, identity,
}
use boot_optim_distribution.Revision.Chain.{
  Lineage, no_lineage, without_path, without_settings_of, drop_configs, add_configs, check_override,
  may_override, add_setting, add_settings, extend_lineage, lineage_of,
}

-- The config that the setting is about is in the effective profile.
abbrev pub HasConfig : List Bytes → Bytes × ConfigSetting → Type 0
HasConfig configs entry = contains entry.1.path configs ≡ true

abbrev pub AllHaveConfig : Lineage → Type 0
AllHaveConfig l = All (HasConfig l.configs) l.settings

contains-without_path :
    (p path : Bytes) (ps : List Bytes)
    → (p == path) ≡ false
    → contains p ps ≡ true
    → contains p (without_path path ps) ≡ true
unfolding contains without_path
contains-without_path p path [] h k = k
contains-without_path p path (q ∷ ps) h k =
    ground (arith, eq_iff q p, eq_iff q path, eq_iff p path, contains-without_path p path ps h)

without_settings_of-HasConfig :
    (path : Bytes) (configs : List Bytes) (settings : List (Bytes × ConfigSetting))
    → All (HasConfig configs) settings
    → All (HasConfig (without_path path configs)) (without_settings_of path settings)
unfolding without_settings_of
without_settings_of-HasConfig path configs [] h = tt
without_settings_of-HasConfig path configs ((i, s) ∷ rest) h = elim (Bool-cases (s.path == path)) [
  | inl e ↦ rw e (without_settings_of-HasConfig path configs rest h.1)
  | inr e ↦ rw e (
    contains-without_path s.path path configs e h.0,
    without_settings_of-HasConfig path configs rest h.1,
  )
]

drop_configs-HasConfig :
    (rs : List RemoveConfig) (l : Lineage) → AllHaveConfig l → AllHaveConfig (drop_configs l rs)
unfolding drop_configs
drop_configs-HasConfig [] l h = h
drop_configs-HasConfig (r ∷ rs) l h =
    drop_configs-HasConfig rs _ (without_settings_of-HasConfig r.path l.configs l.settings h)

HasConfig-cons :
    (path : Bytes) (configs : List Bytes) (settings : List (Bytes × ConfigSetting))
    → All (HasConfig configs) settings
    → All (HasConfig (path ∷ configs)) settings
unfolding contains
HasConfig-cons path configs [] h = tt
HasConfig-cons path configs ((i, s) ∷ rest) h =
    (ground (arith, h.0), HasConfig-cons path configs rest h.1)

add_configs-HasConfig :
    (cs : List ConfigEntry) (l : Lineage) → AllHaveConfig l → AllHaveConfig (add_configs l cs)
unfolding add_configs
add_configs-HasConfig [] l h = h
add_configs-HasConfig (c ∷ cs) l h =
    add_configs-HasConfig cs _ (HasConfig-cons c.path l.configs l.settings h)

-- There is no earlier setting with the identity, or the parent's permissions allow to replace it.
pub data Added (l : Lineage) (s : ConfigSetting) : Type 0 where
  fresh : lookup (identity s) l.settings ≡ none → Added l s
  override :
      (previous : ConfigSetting) (permissions : ConfigPermissions)
      → lookup (identity s) l.settings ≡ some previous
      → l.permissions ≡ some permissions
      → may_override permissions previous ≡ true
      → Added l s

check_override_ok :
    (o : Option ConfigPermissions) (previous : ConfigSetting)
    → check_override o previous ≡ ok tt
    → (permissions : ConfigPermissions) × (o ≡ some permissions)
      × (may_override permissions previous ≡ true)
unfolding check_override
check_override_ok none previous h = cc
check_override_ok (some permissions) previous h = (permissions, refl, ground arith)

-- A setting that is accepted has its config, and it takes the place of an earlier one only where the
-- parent's permissions allow that for the earlier one's policy; then it is put under its identity.
pub add_setting-Added :
    (l l' : Lineage) (s : ConfigSetting)
    → add_setting l s ≡ ok l'
    → (contains s.path l.configs ≡ true)
      × Added l s
      × (l' ≡ record l { settings = insert (identity s) s l.settings })
unfolding add_setting
add_setting-Added l l' s h = elim (Option-cases (lookup (identity s) l.settings)) [
  | inl e ↦ (ground arith, fresh e, ground arith)
  | inr (previous, e) ↦
      let there : contains s.path l.configs ≡ true = ground arith in
      let run : (check_override l.permissions previous
            >> ok (record l { settings = insert (identity s) s l.settings }))
          ≡ ok l' =
        ground arith in
      let (u, allowed, fin) = bind_ok (check_override l.permissions previous) _ run in
      let (permissions, some_permissions, may) = check_override_ok l.permissions previous allowed in
      (there, override previous permissions e some_permissions may, ground (arith, fin))
]

add_settings-HasConfig :
    (ss : List ConfigSetting) (l l' : Lineage)
    → add_settings l ss ≡ ok l'
    → AllHaveConfig l
    → AllHaveConfig l'
unfolding add_settings
add_settings-HasConfig [] l l' h k = let same : l ≡ l' = ground arith in rw (← same) k
add_settings-HasConfig (s ∷ ss) l l' h k =
    let (mid, first, rest) = bind_ok (add_setting l s) _ h in
    let (there, _, same) = add_setting-Added l mid s first in
    add_settings-HasConfig ss mid l' rest (
      rw same
        (unfold insert in (there, All-delete (HasConfig l.configs) (identity s) l.settings k)))

-- After the config settings of a chain were accepted, every effective setting is about a config that is
-- in the effective profile, whatever removals and additions the revisions made.
pub lineage_of-HasConfig :
    (chain : List VerifiedRevision) (l : Lineage)
    → lineage_of chain ≡ ok l
    → All (HasConfig l.configs) l.settings
unfolding lineage_of extend_lineage
lineage_of-HasConfig [] l h = let same : no_lineage ≡ l = ground arith in rw (← same) tt
lineage_of-HasConfig (v ∷ older) l h =
    let (before, first, step) = bind_ok (lineage_of older) _ h in
    let (after, added, fin) =
      bind_ok
        (add_settings
          (add_configs (drop_configs before v.manifest.remove_configs) v.manifest.configs)
          v.manifest.config_settings)
        _ step in
    let k = add_settings-HasConfig v.manifest.config_settings _ after added (
      add_configs-HasConfig v.manifest.configs _ (
        drop_configs-HasConfig v.manifest.remove_configs before
          (lineage_of-HasConfig older before first))) in
    let same : record after { permissions = some v.manifest.permissions.configs } ≡ l =
      ground (arith, fin) in
    rw (← same) k
