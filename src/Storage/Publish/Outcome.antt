-- ===== src/Storage/Publish/Outcome.antt =====
-- What single writes to the tables do: signed publications, channel moves, deletions; and the heads.
use boot_optim_distribution.Base.{
  ◌≤ℤ◌, ◌<ℤ◌, int_eq, ℤ, All, contains, lookup, Result, Bytes, bytes_eq, eq_iff, nat_eq, bool_eq,
  Option-cases, ok, ◌≡◌, ap, ◌∙◌, ◌≢◌, ◌⊎◌, inl, inr, true, false, none, some, List, [], ◌∷◌, arith,
}
use boot_optim_distribution.Storage.Database.{
  StoreError, Object, object_eq, Database, StoredRevision, find_revision, max_sequence,
}
use boot_optim_distribution.Storage.Publish.{
  RevisionPublication, row_of, same_row, identical_existing_revision, publish_signed_revision,
  existing_envelope, sequence_advances, signed_hooks,
}
use boot_optim_distribution.Storage.History.{Published, republished, inserted, insert_revision_ok}
use boot_optim_distribution.Storage.Steps.{publish_with_hooks_ok, signed_ok, insert_envelope_ok}
use boot_optim_distribution.Storage.Rows.{All-weaken}

-- The revision is of another profile, or has a lower sequence.
abbrev pub IsBelow : RevisionPublication → StoredRevision → Type 0
IsBelow p r = (r.profile_id ≢ p.profile_id) ⊎ (r.sequence <ℤ p.sequence)

-- What a signed publication that succeeds has done.
pub data SignedOutcome (db : Database) (p : RevisionPublication) (envelope : Bytes) (db' : Database)
    : Type 0 where
  again :
      find_revision p.revision_id db.revisions ≡ some (row_of p)
      → lookup p.revision_id db.envelopes ≡ some envelope
      → db' ≡ db
      → SignedOutcome db p envelope db'
  new :
      find_revision p.revision_id db.revisions ≡ none
      → All (IsBelow p) db.revisions
      → db'.revisions ≡ row_of p ∷ db.revisions
      → db'.envelopes ≡ (p.revision_id, envelope) ∷ db.envelopes
      → db'.channels ≡ db.channels
      → SignedOutcome db p envelope db'

pub find_revision-id :
    (id : Bytes) (r : StoredRevision) (rows : List StoredRevision)
    → find_revision id rows ≡ some r
    → r.revision_id ≡ id
unfolding find_revision
find_revision-id id r [] h = cc
find_revision-id id r (s ∷ rows) h =
    ground (arith, eq_iff s.revision_id id, find_revision-id id r rows)

same_row-eq :
    (r : StoredRevision) (p : RevisionPublication)
    → r.revision_id ≡ p.revision_id
    → same_row r p ≡ true
    → r ≡ row_of p
unfolding same_row
same_row-eq r p e h =
    let profile : r.profile_id ≡ p.profile_id = ground (arith, eq_iff r.profile_id p.profile_id) in
    let sequence : r.sequence ≡ p.sequence = ground (arith, eq_iff r.sequence p.sequence) in
    let digest : r.manifest_sha256 ≡ p.manifest_sha256 =
      ground (arith, eq_iff r.manifest_sha256 p.manifest_sha256) in
    let manifest : r.manifest ≡ p.manifest_bytes =
      ground (arith, eq_iff r.manifest p.manifest_bytes) in
    cc

identical-row :
    (db : Database) (p : RevisionPublication) (objects : List Object)
    → identical_existing_revision db p objects ≡ ok true
    → find_revision p.revision_id db.revisions ≡ some (row_of p)
unfolding identical_existing_revision
identical-row db p objects h = elim (Option-cases (find_revision p.revision_id db.revisions)) [
  | inl e ↦ absurd (ground arith)
  | inr (r, e) ↦
      e ∙ ap some (same_row-eq r p (find_revision-id p.revision_id r db.revisions e) (ground arith))
]

max_sequence-none :
    (profile : Bytes) (rows : List StoredRevision)
    → max_sequence profile rows ≡ none
    → All (λ r. r.profile_id ≢ profile) rows
unfolding max_sequence
max_sequence-none profile [] h = tt
max_sequence-none profile (r ∷ rows) h = (
  λ e. ground (arith, eq_iff r.profile_id profile),
  max_sequence-none profile rows (ground arith),
)

-- The greatest sequence of a profile is a bound.
abbrev IsBounded : Bytes → ℤ → StoredRevision → Type 0
IsBounded profile m r = (r.profile_id ≢ profile) ⊎ (r.sequence ≤ℤ m)

IsBounded-le :
    (profile : Bytes) (a b : ℤ)
    → a ≤ℤ b
    → (r : StoredRevision) → IsBounded profile a r
    → IsBounded profile b r
IsBounded-le profile a b h r (inl k) = inl k
IsBounded-le profile a b h r (inr k) = inr (omega (arith, h, k))

max_sequence-bounds :
    (profile : Bytes) (m : ℤ) (rows : List StoredRevision)
    → max_sequence profile rows ≡ some m
    → All (IsBounded profile m) rows
unfolding max_sequence
max_sequence-bounds profile m [] h = tt
max_sequence-bounds profile m (r ∷ rows) h = elim (Option-cases (max_sequence profile rows)) [
  | inl e ↦ (
    ground (arith, eq_iff r.profile_id profile),
    All-weaken _ _ (λ s k. inl k) rows (max_sequence-none profile rows e),
  )
  | inr (k, e) ↦ (
    ground (arith, eq_iff r.profile_id profile),
    All-weaken _ _ (IsBounded-le profile k m (ground arith)) rows
        (max_sequence-bounds profile k rows e),
  )
]

module _ (sha256_hex : Bytes → Bytes) (verify : Object → Result StoreError (Unit {0})) where
  advances-IsBelow :
      (db : Database) (p : RevisionPublication)
      → sequence_advances sha256_hex verify db p ≡ ok tt
      → All (IsBelow p) db.revisions
  unfolding sequence_advances
  advances-IsBelow db p h = elim (Option-cases (max_sequence p.profile_id db.revisions)) [
    | inl e ↦
        All-weaken _ _ (λ s k. inl k) db.revisions (max_sequence-none p.profile_id db.revisions e)
    | inr (m, e) ↦
        let up : m <ℤ p.sequence = ground arith in
        All-weaken (IsBounded p.profile_id m) (IsBelow p)
          (λ r k. elim k [ inl a ↦ inl a | inr b ↦ inr (omega (arith, up, b)) ]) db.revisions
          (max_sequence-bounds p.profile_id m db.revisions e)
  ]

  existing_envelope_ok :
      (db : Database) (p : RevisionPublication) (envelope : Bytes)
      → existing_envelope sha256_hex verify envelope db p ≡ ok tt
      → lookup p.revision_id db.envelopes ≡ some envelope
  unfolding existing_envelope
  existing_envelope_ok db p envelope h = elim (Option-cases (lookup p.revision_id db.envelopes)) [
    | inl e ↦ absurd (ground arith)
    | inr (stored, e) ↦ e ∙ ap some (ground (arith, eq_iff stored envelope))
  ]

  outcome :
      (db db' : Database) (p : RevisionPublication) (envelope : Bytes) (objects : List Object)
      → Published (signed_hooks sha256_hex verify envelope) db p objects db'
      → SignedOutcome db p envelope db'
  outcome db db' p envelope objects (republished i e same) =
      again (identical-row db p objects i) (existing_envelope_ok db p envelope e) same
  outcome db db' p envelope objects (inserted mid i b w a) =
      let (row, fresh, _, _) = insert_revision_ok db.revisions mid.revisions (row_of p) w.row in
      let (_, same) = insert_envelope_ok sha256_hex verify envelope mid db' p a in
      new fresh (advances-IsBelow db p b) (ap (λ d. d.revisions) same ∙ row)
        (ap (λ d. d.envelopes) same ∙ ap (λ t. (p.revision_id, envelope) ∷ t) w.envelopes)
        (ap (λ d. d.channels) same ∙ w.channels)

-- A signed publication that succeeds was for a profile that is not deleted and for a manifest with the
-- named digest. Either the same revision and envelope were there and nothing changes, or the revision is
-- new, every revision of its profile has a lower sequence, and its row and its envelope are written.
pub publish_signed_revision-outcome :
    (sha256_hex : Bytes → Bytes) (verify : Object → Result StoreError (Unit {0}))
    (db db' : Database) (p : RevisionPublication) (envelope : Bytes)
    → publish_signed_revision sha256_hex verify db p envelope ≡ ok db'
    → (contains p.profile_id db.deleted ≡ false)
      × (sha256_hex p.manifest_bytes ≡ p.manifest_sha256)
      × SignedOutcome db p envelope db'
publish_signed_revision-outcome sha256_hex verify db db' p envelope h =
    let hooks = signed_hooks sha256_hex verify envelope in
    let (objects, _, hashed, _, free, f) =
      publish_with_hooks_ok sha256_hex verify hooks db db' p
        (signed_ok sha256_hex verify db db' p envelope h) in
    (free, hashed, outcome sha256_hex verify db db' p envelope objects f)
