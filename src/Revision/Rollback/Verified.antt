-- ===== src/Revision/Rollback/Verified.antt =====
-- internal/revision/rollback.go: what a verified rollback event promises.
use Prim.Native.String.{String}
use boot_optim_distribution.Base.{
  int_eq, length, is_empty, reject, bind_ok, Result, Bytes, bytes_eq, ltb, ◌!=◌, eq_iff, nat_eq,
  bool_eq, ok, err, ◌≤◌, ◌≡◌, refl, sym, ap, ◌∙◌, Bool, true, false, not, ◌||◌, Option, none, some,
  [], ◌∷◌, arith,
}
use boot_optim_distribution.Revision.Types.{RollbackStatement, VerifiedRollbackEvent}
use boot_optim_distribution.Revision.Ids.{is_sha256}
use boot_optim_distribution.Revision.Validate.{validate_signature}
use boot_optim_distribution.Revision.Rollback.{
  Wire, RollbackEvent, checked, decoded, refuse, statement_ids, canonicalize_json, signs,
  check_statement, verify_event, parse_and_verify_rollback_event,
}

checked_ok {ℓ κ} :
    {E : Type ℓ} {A : Type κ} (what : String) (r : Result E A) (a : A)
    → checked what r ≡ ok a
    → r ≡ ok a
unfolding checked
checked_ok what (ok b) a h = let same : b ≡ a = cc in ap ok same
checked_ok what (err e) a h = cc

decoded_ok {ℓ} :
    {A : Type ℓ} (what : String) (o : Option A) (a : A) → decoded what o ≡ ok a → o ≡ some a
unfolding decoded
decoded_ok what (some b) a h = let same : b ≡ a = cc in ap some same
decoded_ok what none a h = cc

refuse_ok : (bad : Bool) (what : String) (u : Unit {0}) → refuse bad what ≡ ok u → bad ≡ false
unfolding refuse
refuse_ok true what u h = cc
refuse_ok false what u h = refl

module _ (w : Wire) where
  signs_ok :
      (key canonical : Bytes) (o : Option Bytes)
      → signs w key canonical o ≡ true
      → (sig : Bytes) × (o ≡ some sig)
        × (length sig ≡ 64)
        × (w.ed25519_verify key canonical sig ≡ true)
  unfolding signs
  signs_ok key canonical none h = cc
  signs_ok key canonical (some sig) h = (sig, refl, ground arith, ground arith)

  -- The statement of an event is signed by the key, and its parts are in order.
  pub record IsSigned (key : Bytes) (e : VerifiedRollbackEvent) : Type 0 where
    pub text : Bytes
    pub stated : w.decode_statement text ≡ some e.statement
    pub canonical : canonicalize_json w text ≡ ok e.canonical
    pub digest : (e.digest ≡ w.sha256_hex e.canonical) × (is_sha256 e.digest ≡ true)
    pub sig : Bytes
    pub encoded : (w.base64_decode e.signature.value ≡ some sig) × (length sig ≡ 64)
    pub signed : w.ed25519_verify key e.canonical sig ≡ true
    pub identifiers : statement_ids e.statement ≡ true
    pub reason : (1 ≤ length e.statement.reason) × (length e.statement.reason ≤ 2048)
    pub issued : w.is_time e.statement.issued_at ≡ true

  size_bounds :
      (text : Bytes)
      → (is_empty text || ltb 2048 (length text)) ≡ false
      → (1 ≤ length text) × (length text ≤ 2048)
  size_bounds [] h = cc
  size_bounds (c ∷ text) h = (ground arith, ground (arith, h))

  check_statement_ok :
      (s : RollbackStatement) (u : Unit {0})
      → check_statement w s ≡ ok u
      → (statement_ids s ≡ true)
        × ((1 ≤ length s.reason) × (length s.reason ≤ 2048))
        × (w.is_time s.issued_at ≡ true)
  unfolding check_statement
  check_statement_ok s u h =
      let (a, e₁, h₁) = bind_ok (refuse (not (statement_ids s)) _) _ h in
      let (b, e₂, h₂) = bind_ok (refuse (is_empty s.reason || ltb 2048 (length s.reason)) _) _ h₁ in
      let ids = refuse_ok (not (statement_ids s)) _ a e₁ in
      let size = refuse_ok (is_empty s.reason || ltb 2048 (length s.reason)) _ b e₂ in
      let time = refuse_ok (not (w.is_time s.issued_at)) _ u h₂ in
      (ground (arith, ids), size_bounds s.reason size, ground (arith, time))

  verify_event_ok :
      (key : Bytes) (event : RollbackEvent) (s : RollbackStatement) (e : VerifiedRollbackEvent)
      → verify_event w key event s ≡ ok e
      → (canonicalize_json w event.statement ≡ ok e.canonical)
        × ((e.digest ≡ w.sha256_hex e.canonical) × (e.digest ≡ event.statement_sha256))
        × (signs w key e.canonical (w.base64_decode e.signature.value) ≡ true)
        × ((e.statement ≡ s) × (e.signature ≡ event.signature))
  unfolding verify_event
  verify_event_ok key event s e h =
      let (canonical, e₁, h₁) =
        bind_ok (checked "statement is not canonical JSON" (canonicalize_json w event.statement)) _
          h in
      let (a, e₂, h₂) =
        bind_ok (refuse (w.sha256_hex canonical != event.statement_sha256) _) _ h₁ in
      let (b, e₃, h₃) =
        bind_ok (refuse (not (signs w key canonical (w.base64_decode event.signature.value))) _) _
          h₂ in
      let same_digest = refuse_ok (w.sha256_hex canonical != event.statement_sha256) _ a e₂ in
      let signed =
        refuse_ok (not (signs w key canonical (w.base64_decode event.signature.value))) _ b e₃ in
      let made : record {
        event_id = event.event_id;
        digest = w.sha256_hex canonical;
        statement = s;
        signature = event.signature;
        canonical = canonical;
      }
          ≡ e =
        cc in
      rw (← made) (
        checked_ok _ (canonicalize_json w event.statement) canonical e₁,
        (
          refl,
          (eq_iff (w.sha256_hex canonical) event.statement_sha256).0 (ground (arith, same_digest)),
        ),
        ground (arith, signed),
        (refl, refl),
      )

  -- An event that is accepted under a key is signed by it: the bytes of its signature verify, under the
  -- key, the canonical form of a text that decodes to its statement, its digest is that form's hash,
  -- and the identifiers, the reason's length and the time of the statement are in order.
  pub parse_and_verify_rollback_event-IsSigned :
      (raw key : Bytes) (e : VerifiedRollbackEvent)
      → parse_and_verify_rollback_event w raw key ≡ ok e
      → IsSigned key e × (length key ≡ 32)
  unfolding parse_and_verify_rollback_event
  parse_and_verify_rollback_event-IsSigned raw key e h =
      let (a, sized, h₁) = bind_ok (reject (length key != 32) _) _ h in
      let (text, e₁, h₂) =
        bind_ok (checked "event is not canonical JSON" (canonicalize_json w raw)) _ h₁ in
      let (event, e₂, h₃) = bind_ok (decoded "malformed event" (w.decode_event raw)) _ h₂ in
      let (b, e₃, h₄) =
        bind_ok (refuse (is_empty event.event_id || not (is_sha256 event.statement_sha256)) _) _
          h₃ in
      let (c, e₄, h₅) = bind_ok (checked "signature" (validate_signature event.signature)) _ h₄ in
      let (d, e₅, h₆) = bind_ok (refuse (not (w.statement_shape event.statement)) _) _ h₅ in
      let (s, e₆, h₇) =
        bind_ok (decoded "malformed statement" (w.decode_statement event.statement)) _ h₆ in
      let (u, e₇, fin) = bind_ok (check_statement w s) _ h₇ in
      let (canonical, (digest, stored), good, (statement, signature)) =
        verify_event_ok key event s e fin in
      let (ids, size, time) = check_statement_ok s u e₇ in
      let (sig, encoded, long, signed) =
        signs_ok key e.canonical (w.base64_decode e.signature.value) good in
      let known =
        refuse_ok (is_empty event.event_id || not (is_sha256 event.statement_sha256)) _ b e₃ in
      let hex : is_sha256 event.statement_sha256 ≡ true = ground (arith, known) in
      let stated = decoded_ok _ (w.decode_statement event.statement) s e₆ in
      (
        record {
          text = event.statement;
          stated = stated ∙ ap some (sym statement);
          canonical = canonical;
          digest = (digest, ap is_sha256 stored ∙ hex);
          sig = sig;
          encoded = (encoded, long);
          signed = signed;
          identifiers = ap statement_ids statement ∙ ids;
          reason = rw statement size;
          issued = ap (λ t. w.is_time t.issued_at) statement ∙ time;
        },
        ground (arith, sized),
      )
