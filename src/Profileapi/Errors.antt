-- ===== src/Profileapi/Errors.antt =====
-- internal/profileapi/api.go: what the API is built from, and the errors that it answers with.
use Prim.Native.String.{String}
use boot_optim_distribution.Base.{
  int_eq, ℤ, Result, Bytes, codes, bytes_eq, nat_eq, bool_eq, ok, err, ℕ, ◌≡◌, Option,
}
use boot_optim_distribution.Revision.Types.{VerifiedRevision, VerifiedRollbackEvent}
use boot_optim_distribution.Revision.Chain.{
  ChainError, parent_missing, parent_pin_mismatch, inheritance_cycle, inheritance_too_deep,
  game_mismatch,
}
use boot_optim_distribution.Storage.Database.{
  StoreError, Object, object_missing, corrupt_object, immutable_conflict,
}

-- `ErrKeyNotFound`, or another error of the key resolver.
pub data KeyError : Type 0 where
  key_not_found key_lookup : KeyError

-- The errors of `verifyRevisionEnvelope`.
pub data VerifyError : Type 0 where
  of_key : KeyError → VerifyError
  invalid_signature digest_mismatch invalid_manifest invalid_envelope invalid_json : VerifyError

-- What the API calls: the object store, the trusted keys, and the parsing of signed JSON.
pub record Api : Type 0 where
  pub sha256_hex : Bytes → Bytes
  -- The object store re-proves an object; it opens one and gives its size.
  pub verify_object : Object → Result StoreError (Unit {0})
  pub open_object : Bytes → Result String ℤ
  -- Width and height of a PNG image.
  pub png_size : Bytes → Option (ℤ × ℤ)
  pub max_object_bytes : ℤ
  -- `signatureKeyID`, `PublicKey`, `ParseAndVerifyRevisionEnvelope`, `ParseAndVerifyRollbackEvent`,
  -- `CanonicalizeJSON`
  pub signature_key_id : Bytes → Option Bytes
  pub public_key : Bytes → Result KeyError Bytes
  pub parse_revision : Bytes → Bytes → Result VerifyError VerifiedRevision
  pub parse_rollback : Bytes → Bytes → Option VerifiedRollbackEvent
  pub canonicalize_json : Bytes → Option Bytes

-- `writeError`
pub record ApiError : Type 0 where
  pub status : ℕ
  pub code : Bytes
  pub message : Bytes

abbrev pub refusal : ℕ → String → String → ApiError
refusal status code message = record { status = status; code = codes code; message = codes message }

-- What goes wrong when a stored revision is read: `ErrRevisionNotFound`, `ErrStoredRevisionCorrupt`, or
-- another error of the store.
pub data LookupError : Type 0 where
  missing corrupt unavailable : LookupError

-- The errors of `validateParentChain`. The loop never comes to `out_of_fuel`.
pub data ParentError : Type 0 where
  chain : ChainError → ParentError
  lookup_failed : LookupError → ParentError
  out_of_fuel : ParentError

-- `writeRevisionVerifyError`
unfoldable pub verify_refusal : VerifyError → ApiError
verify_refusal (of_key key_not_found) =
    refusal 422 "unknown_release_key" "revision signature key is not trusted"
verify_refusal (of_key key_lookup) = refusal 500 "key_resolver_error" "release key lookup failed"
verify_refusal invalid_signature = refusal 422 "invalid_signature" "revision signature is invalid"
verify_refusal digest_mismatch =
    refusal 422 "manifest_digest_mismatch" "manifest digest does not match canonical manifest"
verify_refusal invalid_manifest =
    refusal 422 "invalid_envelope" "signed revision envelope is invalid"
verify_refusal invalid_envelope =
    refusal 422 "invalid_envelope" "signed revision envelope is invalid"
verify_refusal invalid_json = refusal 422 "invalid_envelope" "signed revision envelope is invalid"

abbrev parent_not_found : ApiError
parent_not_found = refusal 409 "parent_not_found" "pinned parent revision is unavailable"

abbrev parent_unverified : ApiError
parent_unverified = refusal 500 "parent_verification_failed" "stored parent could not be verified"

-- The answers to the errors of `validateParentChain`.
unfoldable pub parent_refusal : ParentError → ApiError
unfolding parent_not_found parent_unverified
parent_refusal (chain parent_missing) = parent_not_found
parent_refusal (chain parent_pin_mismatch) =
    refusal 409 "parent_pin_mismatch" "pinned parent identity or digest does not match"
parent_refusal (chain inheritance_cycle) =
    refusal 422 "inheritance_cycle" "inheritance chain contains a cycle"
parent_refusal (chain inheritance_too_deep) =
    refusal 422 "inheritance_too_deep" "inheritance chain exceeds the signed or implementation cap"
parent_refusal (chain game_mismatch) =
    refusal 422 "game_mismatch" "parent and child game versions do not match"
parent_refusal (chain (ChainError.content message)) = parent_unverified
parent_refusal (lookup_failed missing) = parent_not_found
parent_refusal (lookup_failed corrupt) = parent_unverified
parent_refusal (lookup_failed unavailable) = parent_unverified
parent_refusal out_of_fuel = parent_unverified

-- `writeStoragePublishError`
unfoldable pub publish_refusal : StoreError → ApiError
publish_refusal object_missing =
    refusal 409 "object_missing" "one or more referenced objects have not been staged"
publish_refusal corrupt_object =
    refusal 422 "object_verification_failed" "referenced object failed size or hash verification"
publish_refusal immutable_conflict =
    refusal 409 "immutable_conflict"
      "revision identity or sequence conflicts with immutable history"
publish_refusal _ = refusal 500 "storage_error" "revision could not be published"

-- The answers to the errors of `loadCandidate`.
unfoldable pub candidate_refusal : LookupError → ApiError
candidate_refusal missing = refusal 404 "not_found" "target revision not found"
candidate_refusal corrupt =
    refusal 500 "revision_corrupt" "stored target revision failed integrity verification"
candidate_refusal unavailable = refusal 500 "storage_error" "target revision unavailable"

-- An error turned into the answer to it.
unfoldable pub answer {ℓ} :
    {E : Type 0} {A : Type ℓ} → (E → ApiError) → Result E A → Result ApiError A
answer f (ok a) = ok a
answer f (err e) = err (f e)

pub answer_ok {ℓ} :
    {E : Type 0} {A : Type ℓ} (f : E → ApiError) (r : Result E A) {a : A}
    → answer f r ≡ ok a
    → r ≡ ok a
unfolding answer
answer_ok f (ok b) h = cc
answer_ok f (err e) h = cc
