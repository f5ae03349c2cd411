-- ===== src/Profileapi/Publish.antt =====
-- internal/profileapi/api.go: `expectedObjects` and `publishCore`. The tables are given twice: as the
-- handler reads them, and as the final transaction finds them.
pub mod Outcome
use Prim.Native.String.{String}
use boot_optim_distribution.Base.{
  ltb_ℤ, int_eq, ℤ, lookup, insert, ◌>>=◌, ◌>>◌, reject, Result, Bytes, bytes_eq, if◌then◌else◌,
  ◌!=◌, nat_eq, bool_eq, ok, err, ℕ, ◌-◌, Bool, false, not, ◌||◌, Option, none, some, List, [], ◌∷◌,
  map,
}
use boot_optim_distribution.Revision.Types.{
  VerifiedRevision, Manifest, ObjectRef, profile_id, revision_id,
}
use boot_optim_distribution.Storage.Database.{StoreError, revision_not_found, Object, Database}
use boot_optim_distribution.Storage.Channel.{profile_head}
use boot_optim_distribution.Storage.Publish.{RevisionPublication, publish_signed_revision}
use boot_optim_distribution.Profileapi.Errors.{
  Api, ApiError, refusal, verify_refusal, parent_refusal, publish_refusal, answer,
}
use boot_optim_distribution.Profileapi.Lookup.{
  StoredSignedRevision, signed_revision, verify_revision_envelope, validate_profile_icon,
}
use boot_optim_distribution.Profileapi.Parents.{validate_parent_chain}

-- A digest that has another size already.
abbrev conflicting : Option ℤ → ℤ → Bool
conflicting none size = false
conflicting (some previous) size = previous != size

module _ (api : Api) where
  -- `add`
  unfoldable pub add_object : List (Bytes × ℤ) → ObjectRef → Result String (List (Bytes × ℤ))
  add_object by_hash ref =
      if ltb_ℤ api.max_object_bytes ref.size
      then err "object exceeds configured object limit"
      else if conflicting (lookup ref.sha256 by_hash) ref.size
      then err "object is referenced with conflicting sizes"
      else ok (insert ref.sha256 ref.size by_hash)

  unfoldable pub add_objects : List (Bytes × ℤ) → List ObjectRef → Result String (List (Bytes × ℤ))
  add_objects by_hash [] = ok by_hash
  add_objects by_hash (ref ∷ refs) = do by_hash' ← add_object by_hash ref; add_objects by_hash' refs

  unfoldable pub icon_objects : Option ObjectRef → List ObjectRef
  icon_objects none = []
  icon_objects (some icon) = icon ∷ []

  -- `expectedObjects`: the icon, then the mods, the configs and the other objects.
  unfoldable pub expected_objects : Manifest → Result String (List Object)
  expected_objects manifest = do
    with_icon ← add_objects [] (icon_objects manifest.profile.icon)
    with_mods ← add_objects with_icon (map (λ e. e.object) manifest.mods)
    with_configs ← add_objects with_mods (map (λ e. e.object) manifest.configs)
    by_hash ← add_objects with_configs (map (λ e. e.object) manifest.objects)
    ok (map (λ (digest, size). record { sha256 = digest; size = size }) by_hash)

  -- The publication of a verified revision.
  abbrev pub publication_of : VerifiedRevision → List Object → RevisionPublication
  publication_of v objects = record {
    revision_id = revision_id v;
    profile_id = profile_id v;
    sequence = v.manifest.revision.sequence;
    manifest_bytes = v.canonical;
    manifest_sha256 = v.digest;
    expected_objects = objects;
  }

  -- The last steps of both branches.
  unfoldable pub store_revision : Database → VerifiedRevision → Bytes → Result ApiError Database
  store_revision now v envelope = do
    objects ←
        answer (λ message. refusal 422 "invalid_object_set" message) (expected_objects v.manifest)
    answer publish_refusal (
        publish_signed_revision api.sha256_hex api.verify_object now (publication_of v objects)
          envelope)

  -- The revision is there already.
  unfoldable pub publish_again :
      Database → VerifiedRevision → Bytes → StoredSignedRevision → Result ApiError (ℕ × Database)
  publish_again now v envelope existing =
      if existing.row.profile_id != profile_id v
        || existing.row.manifest_sha256 != v.digest
        || existing.envelope != envelope
      then err (
          refusal 409 "immutable_conflict"
            "revision id already identifies different immutable content")
      else store_revision now v envelope >>= λ db. ok (200, db)

  -- The sequence is above the head of the profile, if it has one.
  unfoldable pub check_sequence : Database → VerifiedRevision → Result ApiError (Unit {0})
  check_sequence read v = elim (profile_head read (profile_id v)) [
    | ok head ↦
        reject (not (ltb_ℤ head.sequence v.manifest.revision.sequence))
          (refusal 409 "sequence_conflict" "revision sequence must advance the profile sequence")
    | err e ↦ elim e [
      | revision_not_found ↦ ok tt
      | _ ↦ err (refusal 500 "storage_error" "profile sequence lookup failed")
    ]
  ]

  unfoldable pub publish_first :
      Database → Database → VerifiedRevision → Bytes → Result ApiError (ℕ × Database)
  publish_first read now v envelope = do
    check_sequence read v
    answer parent_refusal (validate_parent_chain api read v)
    db ← store_revision now v envelope
    ok (201, db)

  unfoldable pub publish_verified :
      Database → Database → VerifiedRevision → Bytes → Result ApiError (ℕ × Database)
  publish_verified read now v envelope = elim (signed_revision read (revision_id v)) [
    | ok existing ↦ publish_again now v envelope existing
    | err e ↦ elim e [
      | revision_not_found ↦ publish_first read now v envelope
      | _ ↦ err (refusal 500 "storage_error" "revision lookup failed")
    ]
  ]

  -- `publishCore`: the verified revision with the status, and the tables after it.
  unfoldable pub publish_core :
      Database → Database → Bytes → Result ApiError (VerifiedRevision × ℕ × Database)
  publish_core read now raw = do
    verified ← answer verify_refusal (verify_revision_envelope api raw)
    answer (λ message. refusal 422 "invalid_profile_icon" message)
        (validate_profile_icon api verified.0.manifest.profile.icon)
    stored ← publish_verified read now verified.0 verified.1
    ok (verified.0, stored.0, stored.1)
