-- ===== src/Profileapi/Publish/Outcome.antt =====
-- internal/profileapi/api.go: what a publication through the API that succeeds has done.
use boot_optim_distribution.Base.{
  ◌<ℤ◌, int_eq, contains, bind_ok, guard_ok, Result-cases, Bytes, bytes_eq, ◌!=◌, eq_iff, nat_eq,
  bool_eq, ok, err, ℕ, ◌≡◌, ap, ◌∙◌, ◌⊎◌, inl, inr, false, ◌||◌, none, List, arith,
}
use boot_optim_distribution.Revision.Types.{VerifiedRevision, profile_id, revision_id}
use boot_optim_distribution.Storage.Database.{revision_not_found, Object, StoredRevision, Database}
use boot_optim_distribution.Storage.Channel.{profile_head}
use boot_optim_distribution.Storage.Publish.Outcome.{SignedOutcome, publish_signed_revision-outcome}
use boot_optim_distribution.Profileapi.Errors.{
  Api, verify_refusal, parent_refusal, publish_refusal, answer, answer_ok,
}
use boot_optim_distribution.Profileapi.Lookup.{
  StoredSignedRevision, signed_revision, verify_revision_envelope, validate_profile_icon,
}
use boot_optim_distribution.Profileapi.Parents.{validate_parent_chain}
use boot_optim_distribution.Profileapi.Parents.Collected.{HasChain, validate_parents-HasChain}
use boot_optim_distribution.Profileapi.Publish.{
  expected_objects, publication_of, store_revision, publish_again, check_sequence, publish_first,
  publish_verified, publish_core,
}

-- What is published: the verified revision of the text, with its objects, stored or found stored.
pub record Published (api : Api) (now : Database) (v : VerifiedRevision) (envelope : Bytes)
    (after : Database) : Type 0 where
  pub objects : List Object
  pub expected : expected_objects api v.manifest ≡ ok objects
  pub hashed : api.sha256_hex v.canonical ≡ v.digest
  pub listed : contains (profile_id v) now.deleted ≡ false
  pub outcome : SignedOutcome now (publication_of api v objects) envelope after

-- A revision that is new to the reader: its sequence is above the head's, and its chain is in order.
pub record IsNew (api : Api) (read : Database) (v : VerifiedRevision) : Type 0 where
  pub above :
      (profile_head read (profile_id v) ≡ err revision_not_found)
      ⊎ ((head : StoredRevision) × (profile_head read (profile_id v) ≡ ok head)
          × (head.sequence <ℤ v.manifest.revision.sequence))
  pub chain : (v.manifest.base ≡ none) ⊎ HasChain api read v

module _ (api : Api) where
  store_revision-Published :
      (now after : Database) (v : VerifiedRevision) (envelope : Bytes)
      → store_revision api now v envelope ≡ ok after
      → Published api now v envelope after
  unfolding store_revision
  store_revision-Published now after v envelope h =
      let (objects, e, fin) = bind_ok (answer _ (expected_objects api v.manifest)) _ h in
      let (listed, hashed, outcome) =
        publish_signed_revision-outcome api.sha256_hex api.verify_object now after
          (publication_of api v objects) envelope (answer_ok publish_refusal _ fin) in
      record {
        objects = objects;
        expected = answer_ok _ _ e;
        hashed = hashed;
        listed = listed;
        outcome = outcome;
      }

  check_sequence-above :
      (read : Database) (v : VerifiedRevision)
      → check_sequence api read v ≡ ok tt
      → (profile_head read (profile_id v) ≡ err revision_not_found)
        ⊎ ((head : StoredRevision) × (profile_head read (profile_id v) ≡ ok head)
            × (head.sequence <ℤ v.manifest.revision.sequence))
  unfolding check_sequence
  check_sequence-above read v h = elim (Result-cases (profile_head read (profile_id v))) [
    | inl (head, e) ↦ inr (head, e, ground arith)
    | inr (bad, e) ↦ inl (e ∙ ap err (ground arith))
  ]

  publish_first-IsNew :
      (read now after : Database) (v : VerifiedRevision) (envelope : Bytes) (status : ℕ)
      → publish_first api read now v envelope ≡ ok (status, after)
      → (status ≡ 201) × IsNew api read v × Published api now v envelope after
  unfolding publish_first
  publish_first-IsNew read now after v envelope status h =
      let (u, above, h₁) = bind_ok (check_sequence api read v) _ h in
      let (w, chained, h₂) =
        bind_ok (answer parent_refusal (validate_parent_chain api read v)) _ h₁ in
      let (db, stored, fin) = bind_ok (store_revision api now v envelope) _ h₂ in
      let created : status ≡ 201 = cc in
      let same : db ≡ after = cc in
      (
        created,
        record {
          above = check_sequence-above read v above;
          chain =
              validate_parents-HasChain api read v v.manifest.base
                (unfold validate_parent_chain in answer_ok parent_refusal _ chained);
        },
        rw (← same) (store_revision-Published now db v envelope stored),
      )

  publish_again_ok :
      (now after : Database) (v : VerifiedRevision) (envelope : Bytes)
      (existing : StoredSignedRevision) (status : ℕ)
      → publish_again api now v envelope existing ≡ ok (status, after)
      → (status ≡ 200) × (existing.envelope ≡ envelope) × Published api now v envelope after
  unfolding publish_again
  publish_again_ok now after v envelope existing status h =
      let (fine, h₁) =
        guard_ok
          (existing.row.profile_id != profile_id v
            || existing.row.manifest_sha256 != v.digest
            || existing.envelope != envelope)
          _ _ h in
      let (db, stored, fin) = bind_ok (store_revision api now v envelope) _ h₁ in
      let repeated : status ≡ 200 = cc in
      let same : db ≡ after = cc in
      (
        repeated,
        ground (arith, eq_iff existing.envelope envelope),
        rw (← same) (store_revision-Published now db v envelope stored),
      )

-- What was known of the revision before, for either status.
abbrev pub Before : Api → Database → VerifiedRevision → Bytes → ℕ → Type 0
Before api read v envelope status =
    ((status ≡ 200)
      × ((existing : StoredSignedRevision) × (signed_revision read (revision_id v) ≡ ok existing)
          × (existing.envelope ≡ envelope)))
    ⊎ ((status ≡ 201)
        × (signed_revision read (revision_id v) ≡ err revision_not_found)
        × IsNew api read v)

publish_verified-Before :
    (api : Api) (read now after : Database) (v : VerifiedRevision) (envelope : Bytes) (status : ℕ)
    → publish_verified api read now v envelope ≡ ok (status, after)
    → Before api read v envelope status × Published api now v envelope after
unfolding publish_verified
publish_verified-Before api read now after v envelope status h =
    elim (Result-cases (signed_revision read (revision_id v))) [
      | inl (existing, e) ↦
          let (repeated, same, p) =
            publish_again_ok api now after v envelope existing status
              (rw (e, publish_verified) at h) in
          (inl (repeated, (existing, e, same)), p)
      | inr (bad, e) ↦
          let absent : bad ≡ revision_not_found = ground arith in
          let (created, new, p) =
            publish_first-IsNew api read now after v envelope status
              (rw (e, publish_verified, absent) at h) in
          (inr (created, e ∙ ap err absent, new), p)
    ]

-- A publication that succeeds verified the text under a trusted key to a revision whose icon is in
-- order. Either the reader found the revision with this very envelope, and the answer is 200; or it
-- found none, the revision's sequence is above its profile's head and its chain of bases was read from
-- the store, verified and found valid, and the answer is 201. In both cases its objects are expected
-- without a conflict, its profile is not deleted, and the tables have the revision and its envelope
-- already or get exactly their rows.
pub publish_core-Published :
    (api : Api) (read now after : Database) (raw : Bytes) (v : VerifiedRevision) (status : ℕ)
    → publish_core api read now raw ≡ ok (v, status, after)
    → (envelope : Bytes) × (verify_revision_envelope api raw ≡ ok (v, envelope))
      × (validate_profile_icon api v.manifest.profile.icon ≡ ok tt)
      × Before api read v envelope status
      × Published api now v envelope after
unfolding publish_core
publish_core-Published api read now after raw v status h =
    let (verified, checked, h₁) =
      bind_ok (answer verify_refusal (verify_revision_envelope api raw)) _ h in
    let (u, icon, h₂) =
      bind_ok (answer _ (validate_profile_icon api verified.0.manifest.profile.icon)) _ h₁ in
    let (stored, done, fin) = bind_ok (publish_verified api read now verified.0 verified.1) _ h₂ in
    let (before, published) =
      publish_verified-Before api read now stored.1 verified.0 verified.1 stored.0 done in
    let same : verified.0 ≡ v = cc in
    let answered : stored.0 ≡ status = cc in
    let tables : stored.1 ≡ after = cc in
    rw (← same, ← answered, ← tables)
      (verified.1, answer_ok verify_refusal _ checked, answer_ok _ _ icon, before, published)
