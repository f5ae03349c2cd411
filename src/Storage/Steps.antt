-- ===== src/Storage/Steps.antt =====
-- The writes to the tables as steps, and the runs that they make. SHA-256 and the object store are
-- any functions.
use boot_optim_distribution.Base.{
  int_eq, contains, lookup, reject, each, bind_ok, Result, Bytes, bytes_eq, if◌then◌else◌, ◌!=◌,
  eq_iff, nat_eq, bool_eq, Bool-cases, Option-cases, ok, ◌≡◌, refl, inl, inr, true, false, Option,
  none, some, List, [], ◌∷◌, arith,
}
use boot_optim_distribution.Storage.Database.{
  StoreError, Object, object_eq, Database, ChannelRecord, StoredRevision, find_revision,
}
use boot_optim_distribution.Storage.Publish.{
  RevisionPublication, PublicationHooks, normalize_publication, publish_with_hooks,
  publish_revision, publish_signed_revision, insert_envelope, no_hooks, signed_hooks, verify_error,
}
use boot_optim_distribution.Storage.Channel.{
  compare_and_set_channel, delete_profile, as_expected, find_channel, complete_record, put_channel,
  points_at,
}
use boot_optim_distribution.Storage.History.{
  Grows, Grows-refl, Grows-trans, Inserted-Grows, Published, republished, inserted,
  publish_transaction_ok,
}

module _ (sha256_hex : Bytes → Bytes) (verify : Object → Result StoreError (Unit {0})) where
  -- A write that succeeds. One that fails is rolled back and is no step.
  pub data Step (db db' : Database) : Type 0 where
    publish :
        (p : RevisionPublication) → publish_revision sha256_hex verify db p ≡ ok db' → Step db db'
    publish_signed :
        (p : RevisionPublication) (envelope : Bytes)
        → publish_signed_revision sha256_hex verify db p envelope ≡ ok db'
        → Step db db'
    set_channel :
        (expected : Option ChannelRecord) (candidate : ChannelRecord)
        → compare_and_set_channel db expected candidate ≡ ok db'
        → Step db db'
    delete_one : (id : Bytes) → delete_profile db id ≡ ok db' → Step db db'

  pub data Run (start : Database) : Database → Type 0 where
    here : Run start start
    more : {now next : Database} → Run start now → Step now next → Run start next

  -- The tests before the transaction, and the transaction.
  pub publish_with_hooks_ok :
      (hooks : PublicationHooks) (db db' : Database) (p : RevisionPublication)
      → publish_with_hooks sha256_hex verify hooks db p ≡ ok db'
      → (objects : List Object) × (normalize_publication p ≡ ok objects)
        × (sha256_hex p.manifest_bytes ≡ p.manifest_sha256)
        × (each (λ o. verify_error (verify o)) objects ≡ ok tt)
        × (contains p.profile_id db.deleted ≡ false)
        × Published hooks db p objects db'
  unfolding publish_with_hooks
  publish_with_hooks_ok hooks db db' p h =
      let (objects, a, r₁) = bind_ok (normalize_publication p) _ h in
      let (u, b, r₂) = bind_ok (reject (sha256_hex p.manifest_bytes != p.manifest_sha256) _) _ r₁ in
      let (v, c, fin) = bind_ok (each (λ o. verify_error (verify o)) objects) _ r₂ in
      let (free, published) = publish_transaction_ok hooks db db' p objects fin in
      (
        objects,
        a,
        ground (arith, b, eq_iff (sha256_hex p.manifest_bytes) p.manifest_sha256),
        c,
        free,
        published,
      )

  pub insert_envelope_ok :
      (envelope : Bytes) (db db' : Database) (p : RevisionPublication)
      → insert_envelope sha256_hex verify envelope db p ≡ ok db'
      → (lookup p.revision_id db.envelopes ≡ none)
        × (db' ≡ record db { envelopes = (p.revision_id, envelope) ∷ db.envelopes })
  unfolding insert_envelope
  insert_envelope_ok envelope db db' p h = ground arith

  pub set_channel_ok :
      (db db' : Database) (expected : Option ChannelRecord) (c : ChannelRecord)
      → compare_and_set_channel db expected c ≡ ok db'
      → (r : StoredRevision) × (complete_record c ≡ true)
        × (contains c.profile_id db.deleted ≡ false)
        × (as_expected (find_channel c.profile_id c.channel db.channels) expected ≡ true)
        × (find_revision c.revision_id db.revisions ≡ some r)
        × (points_at c r ≡ true)
        × (db' ≡ record db { channels = put_channel c db.channels })
  unfolding compare_and_set_channel
  set_channel_ok db db' expected c h =
      elim (Option-cases (find_revision c.revision_id db.revisions)) [
        | inl e ↦ absurd (ground arith)
        | inr (r, e) ↦ (r, ground arith, ground arith, ground arith, e, ground arith, ground arith)
      ]

  pub delete_ok :
      (db db' : Database) (id : Bytes)
      → delete_profile db id ≡ ok db'
      → db' ≡ record db { deleted = if contains id db.deleted then db.deleted else id ∷ db.deleted }
  unfolding delete_profile
  delete_ok db db' id h = ground arith

  delete-Grows :
      (db : Database) (id : Bytes)
      → Grows db
          (record db { deleted = if contains id db.deleted then db.deleted else id ∷ db.deleted })
  delete-Grows db id = elim (Bool-cases (contains id db.deleted)) [
    | inl e ↦ rw e (Grows-refl db)
    | inr e ↦ rw e (record {
      objects = ([], refl);
      revisions = ([], refl);
      revision_objects = ([], refl);
      envelopes = ([], refl);
      deleted = (id ∷ [], refl);
    })
  ]

  Published-Grows :
      (hooks : PublicationHooks) (db db' : Database) (p : RevisionPublication)
      (objects : List Object)
      → ((mid : Database) → hooks.after_insert mid p ≡ ok db' → Grows mid db')
      → Published hooks db p objects db'
      → Grows db db'
  Published-Grows hooks db db' p objects after (republished i e same) = rw same (Grows-refl db)
  Published-Grows hooks db db' p objects after (inserted mid i b w a) =
      Grows-trans db mid db' (Inserted-Grows db mid p objects w) (after mid a)

  envelope-Grows :
      (envelope : Bytes) (db db' : Database) (p : RevisionPublication)
      → insert_envelope sha256_hex verify envelope db p ≡ ok db'
      → Grows db db'
  envelope-Grows envelope db db' p h = rw (insert_envelope_ok envelope db db' p h).1 (record {
    objects = ([], refl);
    revisions = ([], refl);
    revision_objects = ([], refl);
    envelopes = ((p.revision_id, envelope) ∷ [], refl);
    deleted = ([], refl);
  })

  pub signed_ok :
      (db db' : Database) (p : RevisionPublication) (envelope : Bytes)
      → publish_signed_revision sha256_hex verify db p envelope ≡ ok db'
      → publish_with_hooks sha256_hex verify (signed_hooks sha256_hex verify envelope) db p ≡ ok db'
  unfolding publish_signed_revision
  signed_ok db db' p envelope h = ground arith

  pub Step-Grows : (db db' : Database) → Step db db' → Grows db db'
  Step-Grows db db' (publish p h) =
      let (objects, _, _, _, _, f) =
        publish_with_hooks_ok (no_hooks sha256_hex verify) db db' p
          (unfold publish_revision in h) in
      Published-Grows (no_hooks sha256_hex verify) db db' p objects
        (λ mid e. (let same : mid ≡ db' = cc in rw same (Grows-refl db'))) f
  Step-Grows db db' (publish_signed p envelope h) =
      let (objects, _, _, _, _, f) =
        publish_with_hooks_ok (signed_hooks sha256_hex verify envelope) db db' p
          (signed_ok db db' p envelope h) in
      Published-Grows (signed_hooks sha256_hex verify envelope) db db' p objects
        (λ mid e. envelope-Grows envelope mid db' p e) f
  Step-Grows db db' (set_channel expected c h) =
      let (r, _, _, _, _, _, f) = set_channel_ok db db' expected c h in
      rw f (record {
        objects = ([], refl);
        revisions = ([], refl);
        revision_objects = ([], refl);
        envelopes = ([], refl);
        deleted = ([], refl);
      })
  Step-Grows db db' (delete_one id h) = rw (delete_ok db db' id h) (delete-Grows db id)

  -- Over any run of publications, channel moves and deletions the tables of objects, revisions, links,
  -- envelopes and deleted profiles only gain rows: no row changes or goes away.
  pub Run-Grows : (start now : Database) → Run start now → Grows start now
  Run-Grows start _ here = Grows-refl start
  Run-Grows start _ (more {now} {next} run step) =
      Grows-trans start now next (Run-Grows start now run) (Step-Grows now next step)
