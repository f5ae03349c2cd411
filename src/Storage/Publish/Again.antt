-- ===== src/Storage/Publish/Again.antt =====
-- A publication that is repeated is recognised by the tables that the first one left.
use boot_optim_distribution.Base.{
  ltb_ℤ, int_eq, is_empty, All, contains, lookup, each, bind_ok, guard_ok, Result, Bytes, bytes_eq,
  ◌==◌, eq_iff, eq_refl, nat_eq, bool_eq, Bool-cases, is_some, pos, ok, ◌≡◌, refl, ap, ◌∙◌, inl,
  inr, true, false, not, ◌||◌, none, some, List, [], ◌∷◌, arith,
}
use boot_optim_distribution.Revision.Ids.{is_sha256}
use boot_optim_distribution.Storage.Database.{
  StoreError, Object, object_eq, StoredRevision, Database, empty_database, find_revision,
  linked_objects, sort_objects, reject_deleted_profile,
}
use boot_optim_distribution.Storage.Publish.{
  RevisionPublication, PublicationHooks, row_of, same_objects, same_row, by_hash,
  normalize_publication, identical_existing_revision, publish_transaction, publish_with_hooks,
  publish_revision, publish_signed_revision, existing_envelope, insert_envelope, no_hooks,
  signed_hooks, verify_error,
}
use boot_optim_distribution.Storage.History.{Inserted, republished, inserted, insert_revision_ok}
use boot_optim_distribution.Storage.Steps.{Run, publish_with_hooks_ok, insert_envelope_ok}
use boot_optim_distribution.Storage.Sound.{Run-IsSound}
use boot_optim_distribution.Storage.Rows.{IsLink, IsSound}
use boot_optim_distribution.Storage.Sorted.{
  Ordered, sort_objects-Ordered, sort_objects-pushed, record_objects-size, linked_objects-pushed,
  pushed,
}

same_objects_refl : (xs : List Object) → same_objects xs xs ≡ true
unfolding same_objects
same_objects_refl [] = refl
same_objects_refl (x ∷ xs) = rw (eq_refl x, same_objects_refl xs)

same_row_refl : (p : RevisionPublication) → same_row (row_of p) p ≡ true
unfolding same_row
same_row_refl p =
    rw (
      eq_refl p.profile_id,
      eq_refl p.sequence,
      eq_refl p.manifest_sha256,
      eq_refl p.manifest_bytes,
    )

-- A revision that is not there has no links.
no_links :
    (id : Bytes) (rows : List StoredRevision) (known objects : List Object)
    (links : List (Bytes × Bytes))
    → find_revision id rows ≡ none
    → All (IsLink rows known) links
    → linked_objects id objects links ≡ []
unfolding linked_objects
no_links id rows known objects [] h k = refl
no_links id rows known objects ((i, d) ∷ links) h (l, k) =
    let other : (i == id) ≡ false = elim (Bool-cases (i == id)) [
      | inr e ↦ e
      | inl e ↦
          let same : i ≡ id = (eq_iff i id).0 e in
          let there : is_some (find_revision id rows) ≡ true = rw same at l.0 in
          absurd (ground (arith, there, h))
    ] in
    rw other (no_links id rows known objects links h k)

normal-Ordered :
    (p : RevisionPublication) (objects : List Object)
    → normalize_publication p ≡ ok objects
    → Ordered objects
unfolding normalize_publication
normal-Ordered p objects h =
    let (_, r₁) =
      guard_ok (is_empty p.revision_id || is_empty p.profile_id || ltb_ℤ p.sequence (pos 0)) _ _
        h in
    let (_, r₂) =
      guard_ok (is_empty p.manifest_bytes || not (is_sha256 p.manifest_sha256)) _ _ r₁ in
    let (found, e, fin) = bind_ok (by_hash [] p.expected_objects) _ r₂ in
    let same : sort_objects found ≡ objects = ground (arith, fin) in
    rw (← same) (sort_objects-Ordered found)

-- The tables after an insertion hold the publication.
Inserted-identical :
    (sha256_hex : Bytes → Bytes) (db db' now : Database) (p : RevisionPublication)
    (objects : List Object)
    → IsSound sha256_hex db
    → Ordered objects
    → Inserted db p objects db'
    → now.revisions ≡ db'.revisions
    → now.objects ≡ db'.objects
    → now.revision_objects ≡ db'.revision_objects
    → identical_existing_revision now p objects ≡ ok true
unfolding identical_existing_revision
Inserted-identical sha256_hex db db' now p objects s ordered i r o l =
    let (row, fresh, _, _) = insert_revision_ok db.revisions db'.revisions (row_of p) i.row in
    let found : find_revision p.revision_id now.revisions ≡ some (row_of p) =
      rw r (rw row (unfold find_revision in rw (eq_refl p.revision_id))) in
    let none_before =
      no_links p.revision_id db.revisions db.objects db'.objects db.revision_objects fresh
        s.links in
    let linked =
      linked_objects-pushed p.revision_id db'.objects objects db.revision_objects
        db'.revision_objects i.linked
        (record_objects-size objects db.objects db'.objects i.recorded) in
    let sorted : sort_objects (linked_objects p.revision_id db'.objects db'.revision_objects)
        ≡ objects =
      ap sort_objects (linked ∙ ap (pushed objects) none_before)
      ∙ sort_objects-pushed objects [] [] (unfold sort_objects in refl) ordered in
    let all_there : same_objects
          (sort_objects (linked_objects p.revision_id now.objects now.revision_objects)) objects
        ≡ true =
      rw (o, l, sorted) (same_objects_refl objects) in
    rw (found, identical_existing_revision, same_row_refl p, all_there)

again :
    (hooks : PublicationHooks) (now : Database) (p : RevisionPublication) (objects : List Object)
    → contains p.profile_id now.deleted ≡ false
    → identical_existing_revision now p objects ≡ ok true
    → hooks.existing now p ≡ ok tt
    → publish_transaction hooks now p objects ≡ ok now
unfolding publish_transaction reject_deleted_profile
again hooks now p objects free identical existing = rw (free, identical, existing)

module _ (sha256_hex : Bytes → Bytes) (verify : Object → Result StoreError (Unit {0})) where
  outer :
      (hooks : PublicationHooks) (now : Database) (p : RevisionPublication) (objects : List Object)
      → normalize_publication p ≡ ok objects
      → sha256_hex p.manifest_bytes ≡ p.manifest_sha256
      → each (λ o. verify_error (verify o)) objects ≡ ok tt
      → publish_transaction hooks now p objects ≡ ok now
      → publish_with_hooks sha256_hex verify hooks now p ≡ ok now
  unfolding publish_with_hooks
  outer hooks now p objects a b c d = rw (a, b, eq_refl p.manifest_sha256, c, d)

  -- What an after-insert hook may do to the tables.
  record Keeps (hooks : PublicationHooks) (p : RevisionPublication) (mid now : Database)
      : Type 0 where
    revisions : now.revisions ≡ mid.revisions
    objects : now.objects ≡ mid.objects
    links : now.revision_objects ≡ mid.revision_objects
    deleted : now.deleted ≡ mid.deleted
    existing : hooks.existing now p ≡ ok tt

  repeat :
      (hooks : PublicationHooks) (db now : Database) (p : RevisionPublication)
      → IsSound sha256_hex db
      → ((mid : Database) → hooks.after_insert mid p ≡ ok now → Keeps hooks p mid now)
      → publish_with_hooks sha256_hex verify hooks db p ≡ ok now
      → publish_with_hooks sha256_hex verify hooks now p ≡ ok now
  repeat hooks db now p s keeps h =
      let (objects, a, b, c, free, done) =
        publish_with_hooks_ok sha256_hex verify hooks db now p h in
      elim done [
        | republished i e same ↦ rw (← same) at h
        | inserted mid i e w after ↦
            let k = keeps mid after in
            outer hooks now p objects a b c (
              again hooks now p objects (rw (k.deleted ∙ w.deleted) free)
                (Inserted-identical sha256_hex db mid now p objects s (normal-Ordered p objects a) w
                  k.revisions k.objects k.links)
                k.existing)
      ]

-- Publishing a revision again, right after it was published, succeeds and changes nothing, in any
-- state that the service reaches.
pub publish_revision_again :
    (sha256_hex : Bytes → Bytes) (verify : Object → Result StoreError (Unit {0}))
    (db now : Database) (p : RevisionPublication)
    → Run sha256_hex verify empty_database db
    → publish_revision sha256_hex verify db p ≡ ok now
    → publish_revision sha256_hex verify now p ≡ ok now
unfolding publish_revision
publish_revision_again sha256_hex verify db now p run h =
    repeat sha256_hex verify (no_hooks sha256_hex verify) db now p
      (Run-IsSound sha256_hex verify db run)
      (λ mid e.
        (let same : mid ≡ now = cc in
          rw (← same) (record {
            revisions = refl;
            objects = refl;
            links = refl;
            deleted = refl;
            existing = refl;
          })))
      h

existing_new :
    (sha256_hex : Bytes → Bytes) (verify : Object → Result StoreError (Unit {0}))
    (p : RevisionPublication) (envelope : Bytes) (mid : Database)
    → existing_envelope sha256_hex verify envelope
        (record mid { envelopes = (p.revision_id, envelope) ∷ mid.envelopes })
        p
      ≡ ok tt
unfolding existing_envelope
existing_new sha256_hex verify p envelope mid =
    let found : lookup p.revision_id ((p.revision_id, envelope) ∷ mid.envelopes) ≡ some envelope =
      unfold lookup in rw (eq_refl p.revision_id) in
    rw (found, existing_envelope) (rw (eq_refl envelope))

signed-Keeps :
    (sha256_hex : Bytes → Bytes) (verify : Object → Result StoreError (Unit {0}))
    (p : RevisionPublication) (envelope : Bytes) (mid now : Database)
    → insert_envelope sha256_hex verify envelope mid p ≡ ok now
    → Keeps sha256_hex verify (signed_hooks sha256_hex verify envelope) p mid now
signed-Keeps sha256_hex verify p envelope mid now h =
    rw (insert_envelope_ok sha256_hex verify envelope mid now p h).1 (record {
      revisions = refl;
      objects = refl;
      links = refl;
      deleted = refl;
      existing = existing_new sha256_hex verify p envelope mid;
    })

-- Publishing a signed revision again with the same envelope, right after it was published, succeeds
-- and changes nothing, in any state that the service reaches.
pub publish_signed_revision_again :
    (sha256_hex : Bytes → Bytes) (verify : Object → Result StoreError (Unit {0}))
    (db now : Database) (p : RevisionPublication) (envelope : Bytes)
    → Run sha256_hex verify empty_database db
    → publish_signed_revision sha256_hex verify db p envelope ≡ ok now
    → publish_signed_revision sha256_hex verify now p envelope ≡ ok now
unfolding publish_signed_revision
publish_signed_revision_again sha256_hex verify db now p envelope run h =
    let (some_envelope, published) = guard_ok (is_empty envelope) _ _ h in
    rw some_envelope (
      repeat sha256_hex verify (signed_hooks sha256_hex verify envelope) db now p
        (Run-IsSound sha256_hex verify db run)
        (λ mid e. signed-Keeps sha256_hex verify p envelope mid now e) published)
