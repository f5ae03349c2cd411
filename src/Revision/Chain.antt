-- ===== src/Revision/Chain.antt =====
-- internal/revision/chain.go: the chain of pinned parents, and the config settings along it.
pub mod Walk
pub mod Settings
pub mod Override
use Prim.Native.String.{String}
use boot_optim_distribution.Base.{
  pos_part, ltb_ℤ, int_eq, ℤ, contains, lookup, delete, insert, ◌>>=◌, ◌>>◌, Result, Bytes, codes,
  bytes_eq, if◌then◌else◌, ◌==◌, eq_iff, nat_eq, bool_eq, Equality, pos, ok, err, ℕ, zero, suc, ◌-◌,
  ◌≡◌, ◌↔◌, Bool, true, not, ◌&&◌, ◌||◌, Option, none, some, List, [], ◌∷◌, arith,
}
use boot_optim_distribution.Revision.Types.{
  ConfigPermissions, ConfigSetting, ConfigEntry, RemoveConfig, ParentRef, Manifest,
  VerifiedRevision, profile_id, revision_id, same_game, identity,
}
use boot_optim_distribution.Revision.Jvm.Effective.{effective_options}

pub data ChainError : Type 0 where
  parent_missing parent_pin_mismatch inheritance_cycle inheritance_too_deep game_mismatch :
      ChainError
  -- An error of the config settings or of the JVM options.
  content : String → ChainError

-- `RevisionKey`
pub record RevisionKey : Type 0 where
  pub profile : Bytes
  pub revision : Bytes

unfoldable pub key_beq : RevisionKey → RevisionKey → Bool
key_beq a b = a.profile == b.profile && a.revision == b.revision

pub key_beq_iff : (a b : RevisionKey) → (key_beq a b ≡ true) ↔ (a ≡ b)
unfolding key_beq
key_beq_iff a b = ground (arith, eq_iff a.profile b.profile, eq_iff a.revision b.revision)

instance abbrev pub key_eq : Equality RevisionKey
key_eq = record { equal = key_beq; equal_iff = key_beq_iff }

abbrev pub key_of : VerifiedRevision → RevisionKey
key_of v = record { profile = profile_id v; revision = revision_id v }

abbrev pub pin_key : ParentRef → RevisionKey
pin_key pin = record { profile = pin.profile_id; revision = pin.revision_id }

-- The set of verified revisions that the caller supplies; a nil pointer counts as absent.
abbrev pub Parents : Type 0
Parents = RevisionKey → Option VerifiedRevision

abbrev pub max_inheritance_bases : ℤ
max_inheritance_bases = pos 8

-- The first lines of `ValidateInheritanceChain`: how many bases may be followed.
unfoldable pub depth_cap : VerifiedRevision → ℤ → ℤ
depth_cap target implementation_max =
    let most =
      if ltb_ℤ implementation_max (pos 1) || ltb_ℤ max_inheritance_bases implementation_max
      then max_inheritance_bases
      else implementation_max in
    let signed = target.manifest.permissions.max_inheritance_depth in
    if ltb_ℤ signed most then signed else most

-- The parent is the revision that the pin names.
unfoldable pub matches_pin : VerifiedRevision → ParentRef → Bool
matches_pin parent pin =
    profile_id parent == pin.profile_id
    && revision_id parent == pin.revision_id
    && parent.digest == pin.manifest_sha256

module _ (parents : Parents) where
  -- The tests of one round of the loop, before the chain grows.
  unfoldable pub next_parent :
      List RevisionKey → VerifiedRevision → ParentRef → Result ChainError VerifiedRevision
  next_parent seen current pin =
      if contains (pin_key pin) seen then err inheritance_cycle else elim (parents (pin_key pin)) [
        | none ↦ err parent_missing
        | some parent ↦
            if not (matches_pin parent pin)
            then err parent_pin_mismatch
            else if same_game parent.manifest.game current.manifest.game
            then ok parent
            else err game_mismatch
      ]

  -- The loop: the parents of `current`, nearest first, while `left` more bases may be followed.
  unfoldable pub follow :
      ℕ → List RevisionKey → VerifiedRevision → Result ChainError (List VerifiedRevision)
  follow zero seen current = elim current.manifest.base [
    | none ↦ ok []
    | some pin ↦ err inheritance_too_deep
  ]
  follow (suc left) seen current = elim current.manifest.base [
    | none ↦ ok []
    | some pin ↦ do
      parent ← next_parent seen current pin
      rest ← follow left (pin_key pin ∷ seen) parent
      ok (parent ∷ rest)
  ]

-- What `validateConfigSettingChain` keeps while it goes from the root to the target.
pub record Lineage : Type 0 where
  pub configs : List Bytes
  pub settings : List (Bytes × ConfigSetting)
  pub permissions : Option ConfigPermissions

abbrev pub no_lineage : Lineage
no_lineage = record { configs = []; settings = []; permissions = none }

unfoldable pub without_path : Bytes → List Bytes → List Bytes
without_path path [] = []
without_path path (p ∷ ps) = let rest = without_path path ps in if p == path then rest else p ∷ rest

-- `for identity, setting := range effectiveSettings { if setting.Path == path { delete … } }`
unfoldable pub without_settings_of :
    Bytes → List (Bytes × ConfigSetting) → List (Bytes × ConfigSetting)
without_settings_of path [] = []
without_settings_of path ((i, s) ∷ rest) =
    let kept = without_settings_of path rest in if s.path == path then kept else (i, s) ∷ kept

unfoldable pub drop_configs : Lineage → List RemoveConfig → Lineage
drop_configs l [] = l
drop_configs l (r ∷ rs) =
    drop_configs
      (record l {
        configs = without_path r.path l.configs;
        settings = without_settings_of r.path l.settings;
      })
      rs

unfoldable pub add_configs : Lineage → List ConfigEntry → Lineage
add_configs l [] = l
add_configs l (c ∷ cs) = add_configs (record l { configs = c.path ∷ l.configs }) cs

-- May a setting take the place of `previous`?
unfoldable pub may_override : ConfigPermissions → ConfigSetting → Bool
may_override permissions previous =
    if previous.policy == codes "enforced"
    then permissions.override_enforced
    else permissions.override_default_once

unfoldable pub check_override : Option ConfigPermissions → ConfigSetting → Result String (Unit {0})
check_override none previous = err "config setting lineage has no parent permissions"
check_override (some permissions) previous =
    if may_override permissions previous
    then ok tt
    else err "parent profile does not permit overriding config setting"

unfoldable pub add_setting : Lineage → ConfigSetting → Result String Lineage
add_setting l setting =
    let set : Result String Lineage =
      ok (record l { settings = insert (identity setting) setting l.settings }) in
    if not (contains setting.path l.configs)
    then err "config setting refers to a config absent from the effective profile"
    else elim (lookup (identity setting) l.settings) [
      | none ↦ set
      | some previous ↦ check_override l.permissions previous >> set
    ]

unfoldable pub add_settings : Lineage → List ConfigSetting → Result String Lineage
add_settings l [] = ok l
add_settings l (s ∷ ss) = do l' ← add_setting l s; add_settings l' ss

-- One round of the loop of `validateConfigSettingChain`.
unfoldable pub extend_lineage : Lineage → Manifest → Result String Lineage
extend_lineage l m = do
  l' ← add_settings (add_configs (drop_configs l m.remove_configs) m.configs) m.config_settings
  ok (record l' { permissions = some m.permissions.configs })

-- The target stands first and is applied last.
unfoldable pub lineage_of : List VerifiedRevision → Result String Lineage
lineage_of [] = ok no_lineage
lineage_of (v ∷ older) = do l ← lineage_of older; extend_lineage l v.manifest

abbrev pub content_of {ℓ} : {A : Type ℓ} → Result String A → Result ChainError (Unit {0})
content_of (ok a) = ok tt
content_of (err message) = err (content message)

-- `ValidateInheritanceChain`
unfoldable pub validate_inheritance_chain :
    VerifiedRevision → Parents → ℤ → Result ChainError (List VerifiedRevision)
validate_inheritance_chain target parents implementation_max = do
  bases ←
      follow parents (pos_part (depth_cap target implementation_max)) (key_of target ∷ []) target
  content_of (lineage_of (target ∷ bases))
  content_of (effective_options (target ∷ bases))
  ok (target ∷ bases)
