-- ===== src/Revision/Rollback.antt =====
-- internal/revision/rollback.go: `ParseAndVerifyRollbackEvent`, with `CanonicalizeJSON` of verify.go.
-- The libraries that they call, and the strict decoding of JSON, are the fields of `Wire`.
pub mod Verified
mod Tests
use Prim.Native.String.{String}
use boot_optim_distribution.Base.{
  ltb_ℤ, int_eq, length, is_empty, ◌>>=◌, ◌>>◌, reject, each, Result, Bytes, bytes_eq, ltb,
  if◌then◌else◌, ◌==◌, ◌!=◌, nat_eq, bool_eq, pos, ok, err, ℕ, ◌-◌, Bool, false, not, ◌&&◌, ◌||◌,
  Option, none, some,
}
use boot_optim_distribution.Revision.Types.{Signature, RollbackStatement, VerifiedRollbackEvent}
use boot_optim_distribution.Revision.Ids.{
  valid_profile_id, valid_channel, valid_revision_id, is_sha256,
}
use boot_optim_distribution.Revision.Validate.{validate_signature}
use boot_optim_distribution.Revision.Unicode.{UnicodeError, validate_json_string_unicode}

pub record RollbackEvent : Type 0 where
  pub event_id : Bytes
  pub statement_sha256 : Bytes
  pub statement : Bytes
  pub signature : Signature

pub record Wire : Type 0 where
  -- `utf8.Valid`, and the size of `utf8.DecodeRune`
  pub utf8_valid : Bytes → Bool
  pub rune_size : Bytes → ℕ
  -- `jcs.Transform`
  pub transform : Bytes → Option Bytes
  -- `decodeStrict` into each struct
  pub decode_event : Bytes → Option RollbackEvent
  pub decode_statement : Bytes → Option RollbackStatement
  -- `objectShape` finds the properties of a statement, and no others.
  pub statement_shape : Bytes → Bool
  -- `time.Parse` accepts the text.
  pub is_time : Bytes → Bool
  pub sha256_hex : Bytes → Bytes
  -- `base64.RawURLEncoding.DecodeString`
  pub base64_decode : Bytes → Option Bytes
  -- `ed25519.Verify`, of a key, a message and a signature
  pub ed25519_verify : Bytes → Bytes → Bytes → Bool

-- `ErrInvalidPublicKey`, `ErrInvalidRollbackEvent`
pub data RollbackError : Type 0 where
  invalid_public_key : RollbackError
  invalid_rollback_event : String → RollbackError

unfoldable pub checked {ℓ κ} :
    {E : Type ℓ} {A : Type κ} → String → Result E A → Result RollbackError A
checked what (ok a) = ok a
checked what (err e) = err (invalid_rollback_event what)

unfoldable pub decoded {ℓ} : {A : Type ℓ} → String → Option A → Result RollbackError A
decoded what (some a) = ok a
decoded what none = err (invalid_rollback_event what)

unfoldable pub refuse : Bool → String → Result RollbackError (Unit {0})
refuse bad what = reject bad (invalid_rollback_event what)

-- The identifiers of a statement.
unfoldable pub statement_ids : RollbackStatement → Bool
statement_ids s =
    valid_profile_id s.profile_id
    && valid_channel s.channel
    && valid_revision_id s.from_revision_id
    && not (ltb_ℤ s.from_sequence (pos 1))
    && valid_revision_id s.to_revision_id

module _ (w : Wire) where
  -- `CanonicalizeJSON`
  unfoldable pub canonicalize_json : Bytes → Result String Bytes
  canonicalize_json raw =
      if is_empty raw || not (w.utf8_valid raw)
      then err "input is empty or not valid UTF-8"
      else elim (validate_json_string_unicode w.rune_size raw) [
        | err e ↦ err "invalid JSON"
        | ok done ↦ elim (w.transform raw) [
          | none ↦ err "RFC 8785 canonicalization failed"
          | some canonical ↦ ok canonical
        ]
      ]

  -- The signature is base64 of 64 bytes that sign the text under the key.
  unfoldable pub signs : Bytes → Bytes → Option Bytes → Bool
  signs key canonical none = false
  signs key canonical (some sig) = length sig == 64 && w.ed25519_verify key canonical sig

  unfoldable pub check_statement : RollbackStatement → Result RollbackError (Unit {0})
  check_statement s = do
    refuse (not (statement_ids s)) "statement identifiers are invalid"
    refuse (is_empty s.reason || ltb 2048 (length s.reason)) "rollback reason must be 1..2048 bytes"
    refuse (not (w.is_time s.issued_at)) "issued_at must be RFC3339 date-time"

  unfoldable pub verify_event :
      Bytes → RollbackEvent → RollbackStatement → Result RollbackError VerifiedRollbackEvent
  verify_event key event statement = do
    canonical ← checked "statement is not canonical JSON" (canonicalize_json event.statement)
    refuse (w.sha256_hex canonical != event.statement_sha256) "statement digest mismatch"
    refuse (not (signs key canonical (w.base64_decode event.signature.value))) "invalid signature"
    ok (record {
      event_id = event.event_id;
      digest = w.sha256_hex canonical;
      statement = statement;
      signature = event.signature;
      canonical = canonical;
    })

  -- `ParseAndVerifyRollbackEvent`
  unfoldable pub parse_and_verify_rollback_event :
      Bytes → Bytes → Result RollbackError VerifiedRollbackEvent
  parse_and_verify_rollback_event raw key = do
    reject (length key != 32) invalid_public_key
    unused ← checked "event is not canonical JSON" (canonicalize_json raw)
    event ← decoded "malformed event" (w.decode_event raw)
    refuse (is_empty event.event_id || not (is_sha256 event.statement_sha256))
        "event id or statement digest is invalid"
    checked "signature" (validate_signature event.signature)
    refuse (not (w.statement_shape event.statement)) "malformed statement"
    statement ← decoded "malformed statement" (w.decode_statement event.statement)
    check_statement statement
    verify_event key event statement
