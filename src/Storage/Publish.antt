-- ===== src/Storage/Publish.antt =====
-- internal/storage/sqlite.go: `publishRevision` and what it calls; profile_api.go:
-- `PublishSignedRevision`. SHA-256 in hexadecimal and the object store behind `s.objects` are
-- parameters.
pub mod Outcome
pub mod Again
use boot_optim_distribution.Base.{
  ltb_ℤ, int_eq, ℤ, is_empty, lookup, ◌>>=◌, ◌>>◌, reject, each, Result, Bytes, bytes_eq,
  if◌then◌else◌, ◌==◌, ◌!=◌, nat_eq, bool_eq, is_some, pos, ok, err, ◌-◌, Bool, true, false, not,
  ◌&&◌, ◌||◌, none, some, List, [], ◌∷◌,
}
use boot_optim_distribution.Revision.Ids.{is_sha256}
use boot_optim_distribution.Storage.Database.{
  StoreError, invalid_publication, immutable_conflict, object_missing, corrupt_object, Object,
  object_eq, StoredRevision, Database, find_revision, has_sequence, has_digest, max_sequence,
  stored_size, sort_objects, linked_objects, reject_deleted_profile, record_objects,
  insert_revision, link_objects,
}

-- `RevisionPublication`, with the fields of its `ValidatedManifest`.
pub record RevisionPublication : Type 0 where
  pub revision_id : Bytes
  pub profile_id : Bytes
  pub sequence : ℤ
  pub manifest_bytes : Bytes
  pub manifest_sha256 : Bytes
  pub expected_objects : List Object

-- `validateObject` returns no error.
unfoldable pub valid_object : Object → Bool
valid_object o = is_sha256 o.sha256 && not (ltb_ℤ o.size (pos 0))

-- The loop of `normalizePublication`: one object for each digest, in the order of their first uses.
unfoldable pub by_hash : List Object → List Object → Result StoreError (List Object)
by_hash seen [] = ok seen
by_hash seen (o ∷ os) =
    let keep = by_hash seen os in
    let add = by_hash (o ∷ seen) os in
    if not (valid_object o) then err invalid_publication else elim (stored_size o.sha256 seen) [
      | none ↦ add
      | some size ↦ if size != o.size then err invalid_publication else keep
    ]

-- `normalizePublication`
unfoldable pub normalize_publication : RevisionPublication → Result StoreError (List Object)
normalize_publication p =
    if is_empty p.revision_id || is_empty p.profile_id || ltb_ℤ p.sequence (pos 0)
    then err invalid_publication
    else if is_empty p.manifest_bytes || not (is_sha256 p.manifest_sha256)
    then err invalid_publication
    else do objects ← by_hash [] p.expected_objects; ok (sort_objects objects)

-- The comparison of `stored` with `objects`, lengths first.
unfoldable pub same_objects : List Object → List Object → Bool
same_objects [] [] = true
same_objects [] (_ ∷ _) = false
same_objects (_ ∷ _) [] = false
same_objects (a ∷ xs) (b ∷ ys) = a == b && same_objects xs ys

abbrev pub row_of : RevisionPublication → StoredRevision
row_of p = record {
  revision_id = p.revision_id;
  profile_id = p.profile_id;
  sequence = p.sequence;
  manifest_sha256 = p.manifest_sha256;
  manifest = p.manifest_bytes;
}

-- The stored row says what the publication says.
unfoldable pub same_row : StoredRevision → RevisionPublication → Bool
same_row r p =
    r.profile_id == p.profile_id
    && r.sequence == p.sequence
    && r.manifest_sha256 == p.manifest_sha256
    && r.manifest == p.manifest_bytes

-- `identicalExistingRevision`
unfoldable pub identical_existing_revision :
    Database → RevisionPublication → List Object → Result StoreError Bool
identical_existing_revision db p objects = elim (find_revision p.revision_id db.revisions) [
  | some r ↦
      if not (same_row r p)
      then err immutable_conflict
      else if same_objects
          (sort_objects (linked_objects p.revision_id db.objects db.revision_objects)) objects
      then ok true
      else err immutable_conflict
  | none ↦
      if has_sequence p.profile_id p.sequence db.revisions
      then err immutable_conflict
      else if has_digest p.manifest_sha256 db.revisions
      then err immutable_conflict
      else ok false
]

-- `publicationHooks`: a hook that is nil does nothing.
pub record PublicationHooks : Type 0 where
  pub existing : Database → RevisionPublication → Result StoreError (Unit {0})
  pub before_insert : Database → RevisionPublication → Result StoreError (Unit {0})
  pub after_insert : Database → RevisionPublication → Result StoreError Database

-- The statements between the two hooks.
unfoldable pub insert_publication :
    Database → RevisionPublication → List Object → Result StoreError Database
insert_publication db p objects = do
  stored ← record_objects db.objects objects
  revisions ← insert_revision db.revisions (row_of p)
  links ← link_objects p.revision_id db.revision_objects objects
  ok (record db { objects = stored; revisions = revisions; revision_objects = links })

-- The transaction of `publishRevision` for a revision that is not there yet.
unfoldable pub publish_new :
    PublicationHooks → Database → RevisionPublication → List Object → Result StoreError Database
publish_new hooks db p objects = do
  hooks.before_insert db p
  inserted ← insert_publication db p objects
  hooks.after_insert inserted p

-- The transaction of `publishRevision`.
unfoldable pub publish_transaction :
    PublicationHooks → Database → RevisionPublication → List Object → Result StoreError Database
publish_transaction hooks db p objects = do
  reject_deleted_profile db p.profile_id
  identical ← identical_existing_revision db p objects
  if identical then hooks.existing db p >> ok db else publish_new hooks db p objects

-- What `publishRevision` makes of an error of the object store.
abbrev pub verify_error : Result StoreError (Unit {0}) → Result StoreError (Unit {0})
verify_error (ok u) = ok u
verify_error (err object_missing) = err object_missing
verify_error (err _) = err corrupt_object

module _ (sha256_hex : Bytes → Bytes) (verify : Object → Result StoreError (Unit {0})) where
  -- `publishRevision`
  unfoldable pub publish_with_hooks :
      PublicationHooks → Database → RevisionPublication → Result StoreError Database
  publish_with_hooks hooks db p = do
    objects ← normalize_publication p
    reject (sha256_hex p.manifest_bytes != p.manifest_sha256) invalid_publication
    each (λ o. verify_error (verify o)) objects
    publish_transaction hooks db p objects

  abbrev pub no_hooks : PublicationHooks
  no_hooks = record {
    existing = λ db p. ok tt;
    before_insert = λ db p. ok tt;
    after_insert = λ db p. ok db;
  }

  -- `PublishRevision`
  unfoldable pub publish_revision : Database → RevisionPublication → Result StoreError Database
  publish_revision db p = publish_with_hooks no_hooks db p

  -- The three hooks of `PublishSignedRevision`.
  unfoldable pub existing_envelope :
      Bytes → Database → RevisionPublication → Result StoreError (Unit {0})
  existing_envelope envelope db p = elim (lookup p.revision_id db.envelopes) [
    | none ↦ err immutable_conflict
    | some stored ↦ reject (stored != envelope) immutable_conflict
  ]

  unfoldable pub sequence_advances : Database → RevisionPublication → Result StoreError (Unit {0})
  sequence_advances db p = elim (max_sequence p.profile_id db.revisions) [
    | none ↦ ok tt
    | some head ↦ reject (not (ltb_ℤ head p.sequence)) immutable_conflict
  ]

  unfoldable pub insert_envelope :
      Bytes → Database → RevisionPublication → Result StoreError Database
  insert_envelope envelope db p =
      if is_some (lookup p.revision_id db.envelopes)
      then err immutable_conflict
      else ok (record db { envelopes = (p.revision_id, envelope) ∷ db.envelopes })

  abbrev pub signed_hooks : Bytes → PublicationHooks
  signed_hooks envelope = record {
    existing = existing_envelope envelope;
    before_insert = sequence_advances;
    after_insert = insert_envelope envelope;
  }

  -- `PublishSignedRevision`
  unfoldable pub publish_signed_revision :
      Database → RevisionPublication → Bytes → Result StoreError Database
  publish_signed_revision db p envelope =
      if is_empty envelope
      then err invalid_publication
      else publish_with_hooks (signed_hooks envelope) db p
