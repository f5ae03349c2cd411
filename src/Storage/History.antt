-- ===== src/Storage/History.antt =====
-- What the transactions do to the tables, one after the other: nothing that was written goes away.
use boot_optim_distribution.Base.{
  int_eq, contains, reject, bind_ok, Bytes, bytes_eq, nat_eq, bool_eq, Bool-cases, ok, ◌≡◌, refl,
  sym, ap, ◌∙◌, ◌⊎◌, inl, inr, true, false, none, List, [], ◌∷◌, ◌++◌, arith,
}
use boot_optim_distribution.Storage.Database.{
  Object, object_eq, StoredRevision, Database, find_revision, has_sequence, has_digest,
  record_object, record_objects, insert_revision, link_objects, reject_deleted_profile,
}
use boot_optim_distribution.Storage.Publish.{
  RevisionPublication, PublicationHooks, row_of, identical_existing_revision, insert_publication,
  publish_new, publish_transaction,
}

-- `ys` is `xs` with new rows.
abbrev pub Extends {ℓ} : {A : Type ℓ} → List A → List A → Type ℓ
Extends {A} xs ys = (new : List A) × (ys ≡ new ++ xs)

Extends-refl {ℓ} : {A : Type ℓ} (xs : List A) → Extends xs xs
Extends-refl xs = ([], refl)

Extends-of {ℓ} : {A : Type ℓ} (xs ys : List A) → xs ≡ ys → Extends xs ys
Extends-of xs ys e = ([], sym e)

append_assoc {ℓ} : {A : Type ℓ} (xs ys zs : List A) → (xs ++ ys) ++ zs ≡ xs ++ (ys ++ zs)
append_assoc [] ys zs = refl
append_assoc (x ∷ xs) ys zs = ap (λ t. x ∷ t) (append_assoc xs ys zs)

Extends-trans {ℓ} : {A : Type ℓ} (xs ys zs : List A) → Extends xs ys → Extends ys zs → Extends xs zs
Extends-trans xs ys zs (a, e) (b, f) =
    (b ++ a, f ∙ (ap (λ t. b ++ t) e ∙ sym (append_assoc b a xs)))

-- Every table of immutable rows, and that of the deleted profiles, only gains rows.
pub record Grows (db db' : Database) : Type 0 where
  pub objects : Extends db.objects db'.objects
  pub revisions : Extends db.revisions db'.revisions
  pub revision_objects : Extends db.revision_objects db'.revision_objects
  pub envelopes : Extends db.envelopes db'.envelopes
  pub deleted : Extends db.deleted db'.deleted

pub Grows-refl : (db : Database) → Grows db db
Grows-refl db = record {
  objects = Extends-refl _;
  revisions = Extends-refl _;
  revision_objects = Extends-refl _;
  envelopes = Extends-refl _;
  deleted = Extends-refl _;
}

pub Grows-trans : (a b c : Database) → Grows a b → Grows b c → Grows a c
Grows-trans a b c g h = record {
  objects = Extends-trans _ _ _ g.objects h.objects;
  revisions = Extends-trans _ _ _ g.revisions h.revisions;
  revision_objects = Extends-trans _ _ _ g.revision_objects h.revision_objects;
  envelopes = Extends-trans _ _ _ g.envelopes h.envelopes;
  deleted = Extends-trans _ _ _ g.deleted h.deleted;
}

record_object-grows :
    (stored stored' : List Object) (o : Object)
    → record_object stored o ≡ ok stored'
    → (stored' ≡ stored) ⊎ (stored' ≡ o ∷ stored)
unfolding record_object
record_object-grows stored stored' o h = ground arith

pub record_objects-Extends :
    (os stored stored' : List Object)
    → record_objects stored os ≡ ok stored'
    → Extends stored stored'
unfolding record_objects
record_objects-Extends [] stored stored' h = Extends-of _ _ (ground arith)
record_objects-Extends (o ∷ os) stored stored' h =
    let (mid, first, more) = bind_ok (record_object stored o) _ h in
    let rest = record_objects-Extends os mid stored' more in
    elim (record_object-grows stored mid o first) [
      | inl e ↦ rw (← e) rest
      | inr e ↦ Extends-trans stored (o ∷ stored) stored' (o ∷ [], refl) (rw e at rest)
    ]

pub link_objects-Extends :
    (id : Bytes) (os : List Object) (rows rows' : List (Bytes × Bytes))
    → link_objects id rows os ≡ ok rows'
    → Extends rows rows'
unfolding link_objects
link_objects-Extends id [] rows rows' h = Extends-of _ _ (ground arith)
link_objects-Extends id (o ∷ os) rows rows' h =
    let rest = link_objects-Extends id os ((id, o.sha256) ∷ rows) rows' (ground arith) in
    Extends-trans rows ((id, o.sha256) ∷ rows) rows' ((id, o.sha256) ∷ [], refl) rest

-- A row that went in, and the constraints that let it.
pub insert_revision_ok :
    (rows rows' : List StoredRevision) (r : StoredRevision)
    → insert_revision rows r ≡ ok rows'
    → (rows' ≡ r ∷ rows)
      × (find_revision r.revision_id rows ≡ none)
      × (has_sequence r.profile_id r.sequence rows ≡ false)
      × (has_digest r.manifest_sha256 rows ≡ false)
unfolding insert_revision
insert_revision_ok rows rows' r h = ground arith

-- What an insertion wrote.
pub record Inserted (db : Database) (p : RevisionPublication) (objects : List Object)
    (db' : Database) : Type 0 where
  pub recorded : record_objects db.objects objects ≡ ok db'.objects
  pub row : insert_revision db.revisions (row_of p) ≡ ok db'.revisions
  pub linked : link_objects p.revision_id db.revision_objects objects ≡ ok db'.revision_objects
  pub envelopes : db'.envelopes ≡ db.envelopes
  pub channels : db'.channels ≡ db.channels
  pub deleted : db'.deleted ≡ db.deleted

insert_publication_ok :
    (db db' : Database) (p : RevisionPublication) (objects : List Object)
    → insert_publication db p objects ≡ ok db'
    → Inserted db p objects db'
unfolding insert_publication
insert_publication_ok db db' p objects h =
    let (stored, a, r₁) = bind_ok (record_objects db.objects objects) _ h in
    let (revisions, b, r₂) = bind_ok (insert_revision db.revisions (row_of p)) _ r₁ in
    let (links, c, fin) = bind_ok (link_objects p.revision_id db.revision_objects objects) _ r₂ in
    let same : db'
        ≡ record db { objects = stored; revisions = revisions; revision_objects = links } =
      cc in
    rw same (record {
      recorded = a;
      row = b;
      linked = c;
      envelopes = refl;
      channels = refl;
      deleted = refl;
    })

-- How a publication can succeed: the revision was there, or it was inserted.
pub data Published (hooks : PublicationHooks) (db : Database) (p : RevisionPublication)
    (objects : List Object) (db' : Database) : Type 0 where
  republished :
      identical_existing_revision db p objects ≡ ok true
      → hooks.existing db p ≡ ok tt
      → db' ≡ db
      → Published hooks db p objects db'
  inserted :
      (mid : Database)
      → identical_existing_revision db p objects ≡ ok false
      → hooks.before_insert db p ≡ ok tt
      → Inserted db p objects mid
      → hooks.after_insert mid p ≡ ok db'
      → Published hooks db p objects db'

publish_new_ok :
    (hooks : PublicationHooks) (db db' : Database) (p : RevisionPublication) (objects : List Object)
    → identical_existing_revision db p objects ≡ ok false
    → publish_new hooks db p objects ≡ ok db'
    → Published hooks db p objects db'
unfolding publish_new
publish_new_ok hooks db db' p objects i h =
    let (u, a, r₁) = bind_ok (hooks.before_insert db p) _ h in
    let (mid, b, fin) = bind_ok (insert_publication db p objects) _ r₁ in
    inserted mid i a (insert_publication_ok db mid p objects b) fin

pub publish_transaction_ok :
    (hooks : PublicationHooks) (db db' : Database) (p : RevisionPublication) (objects : List Object)
    → publish_transaction hooks db p objects ≡ ok db'
    → (contains p.profile_id db.deleted ≡ false) × Published hooks db p objects db'
unfolding publish_transaction reject_deleted_profile
publish_transaction_ok hooks db db' p objects h =
    let (u, a, r₁) = bind_ok (reject (contains p.profile_id db.deleted) _) _ h in
    let (identical, b, r₂) = bind_ok (identical_existing_revision db p objects) _ r₁ in
    (
      ground (arith, a),
      elim (Bool-cases identical) [
        | inl e ↦
            let (v, c, fin) = bind_ok (hooks.existing db p) (λ _. ok db) (rw e at r₂) in
            republished (rw e at b) c (ground (arith, fin))
        | inr e ↦ publish_new_ok hooks db db' p objects (rw e at b) (rw e at r₂)
      ],
    )

pub Inserted-Grows :
    (db db' : Database) (p : RevisionPublication) (objects : List Object)
    → Inserted db p objects db'
    → Grows db db'
Inserted-Grows db db' p objects i = record {
  objects = record_objects-Extends objects _ _ i.recorded;
  revisions = (row_of p ∷ [], (insert_revision_ok _ _ _ i.row).0);
  revision_objects = link_objects-Extends p.revision_id objects _ _ i.linked;
  envelopes = Extends-of _ _ (sym i.envelopes);
  deleted = Extends-of _ _ (sym i.deleted);
}
