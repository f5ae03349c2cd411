-- ===== src/Revision/Types.antt =====
-- internal/revision/types.go and the types of jvm_options.go: the manifest and its parts. A pointer
-- that may be nil is an `Option`; `int64` and `int` values are ℤ.
use boot_optim_distribution.Base.{
  int_eq, ℤ, Bytes, codes, bytes_eq, ◌==◌, nat_eq, bool_eq, Bool, ◌&&◌, Option, none, some, List,
  ◌∷◌, ◌++◌,
}

-- A `float64` as the program looks at it: a whole number, a finite number that is not whole (by the
-- text that it was read from), or NaN or an infinity.
pub data Number : Type 0 where
  integral : ℤ → Number
  fractional : Bytes → Number
  not_finite : Number

-- A decoded JSON value of type `any`.
mutual
  pub data Value : Type 0 where
    nil : Value
    bool : Bool → Value
    num : Number → Value
    str : Bytes → Value
    arr : Values → Value
    obj : Members → Value

  pub data Values : Type 0 where
    end : Values
    item : Value → Values → Values

  pub data Members : Type 0 where
    closed : Members
    member : Bytes → Value → Members → Members

pub record RevisionStamp : Type 0 where
  pub id : Bytes
  pub sequence : ℤ
  pub created_at : Bytes
  pub release_notes : Bytes

pub record ObjectRef : Type 0 where
  pub sha256 : Bytes
  pub size : ℤ
  pub media_type : Bytes

pub record Profile : Type 0 where
  pub description : Bytes
  pub icon : Option ObjectRef
  pub id : Bytes
  pub name : Bytes
  pub official : Bool

pub record GameLoader : Type 0 where
  pub kind : Bytes
  pub version : Bytes

pub record Game : Type 0 where
  pub minecraft : Bytes
  pub neoforge : Bytes
  pub loader : Option GameLoader

pub record ParentRef : Type 0 where
  pub profile_id : Bytes
  pub revision_id : Bytes
  pub manifest_sha256 : Bytes

pub record ModPermissions : Type 0 where
  pub add : Bool
  pub remove : Bool

pub record ConfigPermissions : Type 0 where
  pub override_enforced : Bool
  pub override_default_once : Bool

pub record Permissions : Type 0 where
  pub derive_local : Bool
  pub mods : ModPermissions
  pub configs : ConfigPermissions
  pub max_inheritance_depth : ℤ

pub record ModEntry : Type 0 where
  pub id : Bytes
  pub path : Bytes
  pub object : ObjectRef
  pub expect_base_object_sha256 : Option Bytes

pub record RemoveMod : Type 0 where
  pub id : Bytes
  pub expect_base_object_sha256 : Bytes

pub record ConfigEntry : Type 0 where
  pub path : Bytes
  pub object : ObjectRef
  pub policy : Bytes
  pub expect_base_object_sha256 : Option Bytes

pub record RemoveConfig : Type 0 where
  pub path : Bytes
  pub expect_base_object_sha256 : Bytes

pub record ConfigSetting : Type 0 where
  pub path : Bytes
  pub format : Bytes
  pub key : Bytes
  pub value : Value
  pub policy : Bytes

pub record ObjectEntry : Type 0 where
  pub id : Bytes
  pub path : Bytes
  pub object : ObjectRef
  pub expect_base_object_sha256 : Option Bytes

-- `JavaRange`
pub record JavaRange : Type 0 where
  pub min : ℤ
  pub max : Option ℤ

-- `JVMFactRange`
pub record FactRange : Type 0 where
  pub min : Option ℤ
  pub max : Option ℤ

-- `JVMAutoRule`: `when` maps facts to ranges.
pub record AutoRule : Type 0 where
  pub when : List (Bytes × FactRange)
  pub enabled : Bool
  pub value : Value

-- `JVMAutoDecision`
pub record AutoDecision : Type 0 where
  pub enabled : Bool
  pub value : Value

-- `JVMOptionAuto`
pub record OptionAuto : Type 0 where
  pub rules : List AutoRule
  pub otherwise : AutoDecision

-- `JVMOptionPlatform`
pub record OptionPlatform : Type 0 where
  pub default_enabled : Bool
  pub default_value : Value
  pub auto : Option OptionAuto

-- `JVMOption`: `platforms` maps platform names to their defaults.
pub record JvmOption : Type 0 where
  pub id : Bytes
  pub label : Bytes
  pub template : Bytes
  pub kind : Bytes
  pub min : Option ℤ
  pub max : Option ℤ
  pub values : List Bytes
  pub help : Bytes
  pub java : JavaRange
  pub vm : List Bytes
  pub platforms : List (Bytes × OptionPlatform)

pub record Manifest : Type 0 where
  pub schema_version : ℤ
  pub revision : RevisionStamp
  pub profile : Profile
  pub game : Game
  pub base : Option ParentRef
  pub permissions : Permissions
  pub mods : List ModEntry
  pub remove_mods : List RemoveMod
  pub configs : List ConfigEntry
  pub remove_configs : List RemoveConfig
  pub config_settings : List ConfigSetting
  pub jvm_options : List JvmOption
  pub remove_jvm_options : List Bytes
  pub objects : List ObjectEntry

pub record Signature : Type 0 where
  pub key_id : Bytes
  pub algorithm : Bytes
  pub value : Bytes

pub record RollbackStatement : Type 0 where
  pub profile_id : Bytes
  pub channel : Bytes
  pub from_revision_id : Bytes
  pub from_sequence : ℤ
  pub to_revision_id : Bytes
  pub reason : Bytes
  pub issued_at : Bytes

pub record ChannelState : Type 0 where
  pub profile_id : Bytes
  pub channel : Bytes
  pub revision_id : Bytes
  pub sequence : ℤ
  pub manifest_sha256 : Bytes

pub record VerifiedRevision : Type 0 where
  pub manifest : Manifest
  pub digest : Bytes
  pub canonical : Bytes
  pub signature : Signature

pub record VerifiedRollbackEvent : Type 0 where
  pub event_id : Bytes
  pub digest : Bytes
  pub statement : RollbackStatement
  pub signature : Signature
  pub canonical : Bytes

-- `ProfileID`, `RevisionID` and `Sequence` of a verified revision.
abbrev pub profile_id : VerifiedRevision → Bytes
profile_id v = v.manifest.profile.id

abbrev pub revision_id : VerifiedRevision → Bytes
revision_id v = v.manifest.revision.id

-- `ResolvedLoader`
unfoldable pub resolved_loader : Game → GameLoader
resolved_loader g = elim g.loader [
  | some loader ↦ loader
  | none ↦ record { kind = codes "neoforge"; version = g.neoforge }
]

-- `SameGame`
unfoldable pub same_game : Game → Game → Bool
unfolding resolved_loader
same_game a b =
    a.minecraft == b.minecraft
    && (resolved_loader a).kind == (resolved_loader b).kind
    && (resolved_loader a).version == (resolved_loader b).version

-- `ConfigSetting.Identity`
unfoldable pub identity : ConfigSetting → Bytes
identity s = s.path ++ (0 ∷ s.key)
