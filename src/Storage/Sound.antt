-- ===== src/Storage/Sound.antt =====
-- What holds of the tables in every state that the service can reach.
use boot_optim_distribution.Base.{int_eq, Result, Bytes, bytes_eq, nat_eq, bool_eq, ok, ◌≡◌, List}
use boot_optim_distribution.Storage.Database.{
  StoreError, Object, object_eq, Database, empty_database,
}
use boot_optim_distribution.Storage.Publish.{
  RevisionPublication, PublicationHooks, row_of, publish_revision, no_hooks, signed_hooks,
  insert_envelope,
}
use boot_optim_distribution.Storage.History.{
  Inserted, Published, republished, inserted, insert_revision_ok,
}
use boot_optim_distribution.Storage.Steps.{
  Step, publish, publish_signed, set_channel, delete_one, Run, here, more, publish_with_hooks_ok,
  signed_ok, set_channel_ok, delete_ok, insert_envelope_ok,
}
use boot_optim_distribution.Storage.Rows.{
  Backed, HasRevision, IsLink, IsSound, All-weaken, insert-Apart, find_kept, HasRevision-kept,
  HasRevision-new, record_objects-keeps, record_objects-has, link_objects-All, put_channel-All,
  points_at-Backed,
}

module _ (sha256_hex : Bytes → Bytes) where
  Inserted-IsSound :
      (db db' : Database) (p : RevisionPublication) (objects : List Object)
      → sha256_hex p.manifest_bytes ≡ p.manifest_sha256
      → Inserted db p objects db'
      → IsSound sha256_hex db
      → IsSound sha256_hex db'
  Inserted-IsSound db db' p objects hashed i s =
      let (row, fresh, free, unused) =
        insert_revision_ok db.revisions db'.revisions (row_of p) i.row in
      let keep_object = record_objects-keeps objects db.objects db'.objects in
      let has : HasRevision db'.revisions p.revision_id =
        rw row (HasRevision-new (row_of p) db.revisions) in
      let kept : (id : Bytes) → HasRevision db.revisions id → HasRevision db'.revisions id =
        λ id h. rw row (HasRevision-kept id (row_of p) db.revisions h) in
      record {
        apart = rw row (insert-Apart (row_of p) db.revisions fresh free unused, s.apart);
        digests = rw row (hashed, s.digests);
        links =
            link_objects-All (IsLink db'.revisions db'.objects) p.revision_id objects _ _ i.linked
              (All-weaken _ _ (λ o h. (has, h)) objects
                (record_objects-has objects db.objects db'.objects i.recorded))
              (All-weaken _ _ (λ l h. (kept l.0 h.0, keep_object l.1 i.recorded h.1))
                db.revision_objects s.links);
        envelopes = rw i.envelopes (All-weaken _ _ (λ e h. kept e.0 h) db.envelopes s.envelopes);
        channels = rw i.channels (
            All-weaken _ _
              (λ c b. (record {
                row = b.row;
                found =
                    rw row (find_kept c.revision_id b.row (row_of p) db.revisions fresh b.found);
                profile = b.profile;
                sequence = b.sequence;
                digest = b.digest;
              }))
              db.channels s.channels);
      }

module _ (sha256_hex : Bytes → Bytes) (verify : Object → Result StoreError (Unit {0})) where
  Published-IsSound :
      (hooks : PublicationHooks) (db db' : Database) (p : RevisionPublication)
      (objects : List Object)
      → sha256_hex p.manifest_bytes ≡ p.manifest_sha256
      → ((mid : Database)
          → HasRevision mid.revisions p.revision_id
          → hooks.after_insert mid p ≡ ok db'
          → IsSound sha256_hex mid
          → IsSound sha256_hex db')
      → Published hooks db p objects db'
      → IsSound sha256_hex db
      → IsSound sha256_hex db'
  Published-IsSound hooks db db' p objects hashed after (republished i e same) s = rw same s
  Published-IsSound hooks db db' p objects hashed after (inserted mid i b w a) s =
      after mid
        (rw (insert_revision_ok db.revisions mid.revisions (row_of p) w.row).0
          (HasRevision-new (row_of p) db.revisions))
        a (Inserted-IsSound sha256_hex db mid p objects hashed w s)

  envelope-IsSound :
      (envelope : Bytes) (db db' : Database) (p : RevisionPublication)
      → HasRevision db.revisions p.revision_id
      → insert_envelope sha256_hex verify envelope db p ≡ ok db'
      → IsSound sha256_hex db
      → IsSound sha256_hex db'
  envelope-IsSound envelope db db' p has h s =
      rw (insert_envelope_ok sha256_hex verify envelope db db' p h).1 (record {
        apart = s.apart;
        digests = s.digests;
        links = s.links;
        envelopes = (has, s.envelopes);
        channels = s.channels;
      })

  Step-IsSound :
      (db db' : Database)
      → Step sha256_hex verify db db'
      → IsSound sha256_hex db
      → IsSound sha256_hex db'
  Step-IsSound db db' (publish p h) s =
      let hooks = no_hooks sha256_hex verify in
      let (objects, _, hashed, _, _, f) =
        publish_with_hooks_ok sha256_hex verify hooks db db' p (unfold publish_revision in h) in
      Published-IsSound hooks db db' p objects hashed
        (λ mid has e t. (let same : mid ≡ db' = cc in rw (← same) t)) f s
  Step-IsSound db db' (publish_signed p envelope h) s =
      let hooks = signed_hooks sha256_hex verify envelope in
      let (objects, _, hashed, _, _, f) =
        publish_with_hooks_ok sha256_hex verify hooks db db' p
          (signed_ok sha256_hex verify db db' p envelope h) in
      Published-IsSound hooks db db' p objects hashed
        (λ mid has e t. envelope-IsSound envelope mid db' p has e t) f s
  Step-IsSound db db' (set_channel expected c h) s =
      let (r, _, _, _, found, points, same) =
        set_channel_ok sha256_hex verify db db' expected c h in
      rw same (record {
        apart = s.apart;
        digests = s.digests;
        links = s.links;
        envelopes = s.envelopes;
        channels =
            put_channel-All (Backed db.revisions) c db.channels
              (points_at-Backed c r db.revisions found points) s.channels;
      })
  Step-IsSound db db' (delete_one id h) s = rw (delete_ok sha256_hex verify db db' id h) (record {
    apart = s.apart;
    digests = s.digests;
    links = s.links;
    envelopes = s.envelopes;
    channels = s.channels;
  })

  -- In every state that publications, channel moves and deletions reach from empty tables: no two
  -- revisions share an identifier, a digest, or a profile with a sequence; each manifest has the digest
  -- that its row names; each link and each envelope has its revision, each link its object; and each
  -- channel repeats the profile, the sequence and the digest of the stored revision that it names.
  pub Run-IsSound :
      (now : Database) → Run sha256_hex verify empty_database now → IsSound sha256_hex now
  Run-IsSound _ here = record {
    apart = tt;
    digests = tt;
    links = tt;
    envelopes = tt;
    channels = tt;
  }
  Run-IsSound _ (more {now} {next} run step) = Step-IsSound now next step (Run-IsSound now run)
