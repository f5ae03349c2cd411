-- ===== src/Profileapi/Genuine.antt =====
-- internal/profileapi/api.go: over any run of calls, where the envelopes come from that the store holds.
use boot_optim_distribution.Base.{
  int_eq, All, All-map, lookup, All-lookup, Bytes, bytes_eq, ◌==◌, eq_iff, eq_refl, nat_eq, bool_eq,
  Bool-cases, Option-cases, ok, ℕ, ◌≡◌, refl, sym, ◌∙◌, inl, inr, true, none, some, List, ◌∷◌,
  arith,
}
use boot_optim_distribution.Revision.Types.{VerifiedRevision, profile_id, revision_id}
use boot_optim_distribution.Storage.Database.{
  StoredRevision, ChannelRecord, Database, empty_database, find_revision,
}
use boot_optim_distribution.Storage.Publish.{row_of}
use boot_optim_distribution.Storage.Publish.Outcome.{SignedOutcome, again, new, find_revision-id}
use boot_optim_distribution.Storage.Channel.{delete_profile}
use boot_optim_distribution.Storage.Steps.{delete_ok}
use boot_optim_distribution.Profileapi.Errors.{Api}
use boot_optim_distribution.Profileapi.Lookup.{
  StoredSignedRevision, signed_revision, verify_revision_envelope, matches_row,
}
use boot_optim_distribution.Profileapi.Publish.{publication_of, publish_core}
use boot_optim_distribution.Profileapi.Publish.Outcome.{Published, publish_core-Published}
use boot_optim_distribution.Profileapi.Channels.{promote_channel, rollback_channel}
use boot_optim_distribution.Profileapi.Channels.Moves.{
  promote_channel-Moved, rollback_channel-Moved,
}

-- Calls of the API that change the tables. What a call read may be of any time.
pub data Call (api : Api) (now after : Database) : Type 0 where
  publish :
      (read : Database) (raw : Bytes) (v : VerifiedRevision) (status : ℕ)
      → publish_core api read now raw ≡ ok (v, status, after)
      → Call api now after
  promote :
      (read : Database) (profile channel revision : Bytes) (c : ChannelRecord)
      → promote_channel api read now profile channel revision ≡ ok (c, after)
      → Call api now after
  roll_back :
      (read : Database) (profile channel revision event : Bytes) (c : ChannelRecord)
      → rollback_channel api read now profile channel revision event ≡ ok (c, after)
      → Call api now after
  remove : (id : Bytes) → delete_profile now id ≡ ok after → Call api now after

pub data Calls (api : Api) : Database → Type 0 where
  none_yet : Calls api empty_database
  after_call : {now next : Database} → Calls api now → Call api now next → Calls api next

-- The envelope is the canonical form of a text that verifies to what the row of its revision says.
pub record Genuine (api : Api) (rows : List StoredRevision) (entry : Bytes × Bytes) : Type 0 where
  pub row : StoredRevision
  pub found : find_revision entry.0 rows ≡ some row
  pub verified : VerifiedRevision
  pub raw : Bytes
  pub verifies : verify_revision_envelope api raw ≡ ok (verified, entry.1)
  pub matches : matches_row api verified row ≡ true

find_revision-cons :
    (r : StoredRevision) (rows : List StoredRevision)
    → find_revision r.revision_id rows ≡ none
    → (id : Bytes) (row : StoredRevision) → find_revision id rows ≡ some row
    → find_revision id (r ∷ rows) ≡ some row
unfolding find_revision
find_revision-cons r rows fresh id row h = elim (Bool-cases (r.revision_id == id)) [
  | inl e ↦
      let same : r.revision_id ≡ id = (eq_iff r.revision_id id).0 e in
      let nothing : find_revision id rows ≡ none = rw same at fresh in
      let both : none ≡ some row = sym nothing ∙ h in cc
  | inr e ↦ rw e h
]

module _ (api : Api) where
  matches_row-row_of :
      (v : VerifiedRevision) (now : Database) (envelope : Bytes) (after : Database)
      (p : Published api now v envelope after)
      → matches_row api v (row_of (publication_of api v p.objects)) ≡ true
  unfolding matches_row
  matches_row-row_of v now envelope after p = rw (
    eq_refl (revision_id v),
    eq_refl (profile_id v),
    eq_refl v.manifest.revision.sequence,
    eq_refl v.digest,
    eq_refl v.canonical,
  )

  -- A row that is new leaves the others to be found.
  Genuine-cons :
      (r : StoredRevision) (rows : List StoredRevision)
      → find_revision r.revision_id rows ≡ none
      → (entry : Bytes × Bytes) → Genuine api rows entry
      → Genuine api (r ∷ rows) entry
  Genuine-cons r rows fresh entry g = record {
    row = g.row;
    found = find_revision-cons r rows fresh entry.0 g.row g.found;
    verified = g.verified;
    raw = g.raw;
    verifies = g.verifies;
    matches = g.matches;
  }

  abbrev AllGenuine : Database → Type 0
  AllGenuine db = All (Genuine api db.revisions) db.envelopes

  publish-Genuine :
      (now after : Database) (v : VerifiedRevision) (raw envelope : Bytes)
      → verify_revision_envelope api raw ≡ ok (v, envelope)
      → (p : Published api now v envelope after) → AllGenuine now
      → AllGenuine after
  publish-Genuine now after v raw envelope verified p h = go p.outcome
    where
      go : SignedOutcome now (publication_of api v p.objects) envelope after → AllGenuine after
      go (again found stored same) = rw same h
      go (new fresh below rows envelopes channels) =
          let row = row_of (publication_of api v p.objects) in
          rw (rows, envelopes)
            (
              record {
                row = row;
                found = unfold find_revision in rw (eq_refl (revision_id v)) refl;
                verified = v;
                raw = raw;
                verifies = verified;
                matches = matches_row-row_of v now envelope after p;
              },
              All-map (Genuine-cons row now.revisions fresh) now.envelopes h,
            )

  Call-Genuine : (now after : Database) → Call api now after → AllGenuine now → AllGenuine after
  Call-Genuine now after (publish read raw v status e) h =
      let (envelope, verified, icon, before, p) =
        publish_core-Published api read now after raw v status e in
      publish-Genuine now after v raw envelope verified p h
  Call-Genuine now after (promote read profile channel revision c e) h =
      rw ((promote_channel-Moved api read now after profile channel revision c e).0.put.tables) h
  Call-Genuine now after (roll_back read profile channel revision event c e) h =
      let (_, _, _, moved, _, _, _, _) =
        rollback_channel-Moved api read now after profile channel revision event c e in
      rw (moved.put.tables) h
  Call-Genuine now after (remove id e) h =
      rw (delete_ok api.sha256_hex api.verify_object now after id e) h

  Calls-Genuine : (db : Database) → Calls api db → AllGenuine db
  Calls-Genuine _ none_yet = tt
  Calls-Genuine _ (after_call {now} {next} calls call) =
      Call-Genuine now next call (Calls-Genuine now calls)

  Genuine-id :
      (id envelope : Bytes) (rows : List StoredRevision) (g : Genuine api rows (id, envelope))
      → revision_id g.verified ≡ id
  unfolding matches_row
  Genuine-id id envelope rows g =
      let named : revision_id g.verified ≡ g.row.revision_id =
        ground (arith, g.matches, eq_iff (revision_id g.verified) g.row.revision_id) in
      named ∙ find_revision-id id g.row rows g.found

-- After any calls that publish, promote, roll back and delete, whatever tables they read: an envelope that
-- the store returns with a revision is the canonical form of a text that passes the verification of
-- envelopes, and the stored row says what that text verifies to, the identifier included.
pub Calls-signed_revision :
    (api : Api) (db : Database) (id : Bytes) (stored : StoredSignedRevision)
    → Calls api db
    → signed_revision db id ≡ ok stored
    → (raw : Bytes) × (v : VerifiedRevision) × (verify_revision_envelope api raw
        ≡ ok (v, stored.envelope))
      × (matches_row api v stored.row ≡ true)
      × (revision_id v ≡ id)
unfolding signed_revision
Calls-signed_revision api db id stored calls h =
    elim (Option-cases (find_revision id db.revisions)) [
      | inl e ↦ absurd (ground (arith, e))
      | inr (row, e) ↦ elim (Option-cases (lookup id db.envelopes)) [
        | inl f ↦ absurd (ground (arith, e, f))
        | inr (envelope, f) ↦
            let g =
              All-lookup (Genuine api db.revisions) id db.envelopes envelope
                (Calls-Genuine api db calls) f in
            let same : record { row = row; envelope = envelope } ≡ stored =
              (let found : ok (record { row = row; envelope = envelope }) ≡ ok stored =
                  rw (e, signed_revision, f) at h in
                cc) in
            let found : g.row ≡ row = (let both : some g.row ≡ some row = sym g.found ∙ e in cc) in
            rw (← same) (
              g.raw,
              g.verified,
              g.verifies,
              rw found at g.matches,
              Genuine-id api id envelope db.revisions g,
            )
      ]
    ]
