-- ===== src/Profileapi/Lookup.antt =====
-- internal/profileapi/api.go: the verification of envelopes, and of what the store holds.
use Prim.Native.String.{String}
use boot_optim_distribution.Base.{
  ltb_ℤ, int_eq, lookup, ◌>>=◌, ◌>>◌, reject, Result, Bytes, bytes_eq, ◌==◌, ◌!=◌, nat_eq, bool_eq,
  pos, ok, err, ◌≡◌, Bool, not, ◌&&◌, ◌||◌, Option, none, some,
}
use boot_optim_distribution.Revision.Types.{VerifiedRevision, profile_id, revision_id, ObjectRef}
use boot_optim_distribution.Storage.Database.{
  StoreError, revision_not_found, StoredRevision, Database, find_revision,
}
use boot_optim_distribution.Profileapi.Errors.{
  Api, VerifyError, of_key, invalid_envelope, LookupError, missing, corrupt, unavailable,
}

-- `StoredSignedRevision`
pub record StoredSignedRevision : Type 0 where
  pub row : StoredRevision
  pub envelope : Bytes

-- `SignedRevision`: the join of `revisions` and `revision_envelopes`.
unfoldable pub signed_revision : Database → Bytes → Result StoreError StoredSignedRevision
signed_revision db id = elim (find_revision id db.revisions) [
  | none ↦ err revision_not_found
  | some row ↦ elim (lookup id db.envelopes) [
    | none ↦ err revision_not_found
    | some envelope ↦ ok (record { row = row; envelope = envelope })
  ]
]

unfoldable pub lookup_error : StoreError → LookupError
lookup_error revision_not_found = missing
lookup_error _ = unavailable

-- The error of one step as an error of the whole.
unfoldable pub as_error {ℓ} : {E F : Type 0} {A : Type ℓ} → (E → F) → Result E A → Result F A
as_error f (ok a) = ok a
as_error f (err e) = err (f e)

pub as_error_ok {ℓ} :
    {E F : Type 0} {A : Type ℓ} (f : E → F) (r : Result E A) {a : A}
    → as_error f r ≡ ok a
    → r ≡ ok a
unfolding as_error
as_error_ok f (ok b) h = cc
as_error_ok f (err e) h = cc

-- A value, or an error in its place.
unfoldable pub required {ℓ} : {E : Type 0} {A : Type ℓ} → E → Option A → Result E A
required e none = err e
required e (some a) = ok a

pub required_ok {ℓ} :
    {E : Type 0} {A : Type ℓ} (e : E) (o : Option A) {a : A} → required e o ≡ ok a → o ≡ some a
unfolding required
required_ok e none h = cc
required_ok e (some b) h = cc

module _ (api : Api) where
  -- `verifyRevisionEnvelope`
  unfoldable pub verify_revision_envelope : Bytes → Result VerifyError (VerifiedRevision × Bytes)
  verify_revision_envelope raw = do
    key_id ← required invalid_envelope (api.signature_key_id raw)
    key ← as_error of_key (api.public_key key_id)
    verified ← api.parse_revision raw key
    canonical ← required invalid_envelope (api.canonicalize_json raw)
    ok (verified, canonical)

  -- The row repeats what the envelope says.
  unfoldable pub matches_row : VerifiedRevision → StoredRevision → Bool
  matches_row v row =
      revision_id v == row.revision_id
      && profile_id v == row.profile_id
      && v.manifest.revision.sequence == row.sequence
      && v.digest == row.manifest_sha256
      && v.canonical == row.manifest

  -- `verifyStoredRevision`
  unfoldable pub verify_stored_revision :
      StoredSignedRevision → Result LookupError (VerifiedRevision × Bytes)
  verify_stored_revision stored = do
    verified ← as_error (λ e. corrupt) (verify_revision_envelope stored.envelope)
    reject (not (matches_row verified.0 stored.row)) corrupt
    ok verified

  -- The lookup of a revision with its verification, as `loadCandidate` and `validateParentChain` do it.
  unfoldable pub verified_revision : Database → Bytes → Result LookupError VerifiedRevision
  verified_revision db id = do
    stored ← as_error lookup_error (signed_revision db id)
    verified ← verify_stored_revision stored
    ok verified.0

  -- `validateProfileIcon`
  unfoldable pub validate_profile_icon : Option ObjectRef → Result String (Unit {0})
  validate_profile_icon none = ok tt
  validate_profile_icon (some icon) = do
    size ← api.open_object icon.sha256
    reject (size != icon.size || ltb_ℤ (pos 2097152) size) "invalid profile icon size"
    (width, height) ← required "profile icon is not a valid PNG" (api.png_size icon.sha256)
    reject
        (ltb_ℤ width (pos 1)
          || ltb_ℤ height (pos 1)
          || ltb_ℤ (pos 1024) width
          || ltb_ℤ (pos 1024) height)
        "profile icon dimensions exceed 1024 by 1024 pixels"
