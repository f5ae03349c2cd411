-- ===== src/Storage/Database.antt =====
-- internal/storage/sqlite.go and profile_api.go: the tables of `schemaV1` and `profileAPISchema`
-- that publication and the channels use, and the queries on them. A timestamp is not modelled:
-- none of these statements reads one. A transaction that fails leaves the tables as they were.
use boot_optim_distribution.Base.{
  ltb_ℤ, int_eq, ℤ, length, contains, ◌>>=◌, reject, Result, Bytes, bytes_eq, if◌then◌else◌, ◌==◌,
  ◌!=◌, eq_iff, nat_eq, bool_eq, is_some, Equality, pos, ok, err, ◌≡◌, ◌↔◌, Bool, true, false, ◌&&◌,
  ◌||◌, Option, none, some, List, [], ◌∷◌, arith,
}
use boot_optim_distribution.Semver.{compare_bytes}
use Prim.Native.Nat.{Ordering}

-- `ErrInvalidPublication`, `ErrObjectMissing`, `ErrCorruptObject`, `ErrImmutableConflict`,
-- `ErrRevisionNotFound`, `ErrChannelConflict`, and an error of the database itself.
pub data StoreError : Type 0 where
  invalid_publication object_missing corrupt_object immutable_conflict : StoreError
  revision_not_found channel_conflict database : StoreError

-- `Object`
pub record Object : Type 0 where
  pub sha256 : Bytes
  pub size : ℤ

pub object_beq : Object → Object → Bool
object_beq a b = a.sha256 == b.sha256 && a.size == b.size

pub object_beq_iff : (a b : Object) → (object_beq a b ≡ true) ↔ (a ≡ b)
unfolding object_beq
object_beq_iff a b = ground (arith, eq_iff a.sha256 b.sha256, eq_iff a.size b.size)

instance abbrev pub object_eq : Equality Object
object_eq = record { equal = object_beq; equal_iff = object_beq_iff }

-- `StoredRevision`: a row of `revisions`.
pub record StoredRevision : Type 0 where
  pub revision_id : Bytes
  pub profile_id : Bytes
  pub sequence : ℤ
  pub manifest_sha256 : Bytes
  pub manifest : Bytes

-- `ChannelRecord`: a row of `channels`.
pub record ChannelRecord : Type 0 where
  pub profile_id : Bytes
  pub channel : Bytes
  pub revision_id : Bytes
  pub sequence : ℤ
  pub manifest_sha256 : Bytes

pub record Database : Type 0 where
  pub objects : List Object
  pub revisions : List StoredRevision
  -- Rows of `revision_objects`: a revision and an object's digest.
  pub revision_objects : List (Bytes × Bytes)
  -- Rows of `revision_envelopes`.
  pub envelopes : List (Bytes × Bytes)
  pub channels : List ChannelRecord
  pub deleted : List Bytes

abbrev pub empty_database : Database
empty_database = record {
  objects = [];
  revisions = [];
  revision_objects = [];
  envelopes = [];
  channels = [];
  deleted = [];
}

-- `SELECT size FROM objects WHERE sha256 = ?`
unfoldable pub stored_size : Bytes → List Object → Option ℤ
stored_size digest [] = none
stored_size digest (o ∷ os) =
    let rest = stored_size digest os in if o.sha256 == digest then some o.size else rest

-- `SELECT … FROM revisions WHERE id = ?`
unfoldable pub find_revision : Bytes → List StoredRevision → Option StoredRevision
find_revision id [] = none
find_revision id (r ∷ rs) =
    let rest = find_revision id rs in if r.revision_id == id then some r else rest

-- `SELECT id FROM revisions WHERE profile_id = ? AND sequence = ?` finds a row.
unfoldable pub has_sequence : Bytes → ℤ → List StoredRevision → Bool
has_sequence profile n [] = false
has_sequence profile n (r ∷ rs) =
    (r.profile_id == profile && r.sequence == n) || has_sequence profile n rs

-- `SELECT id FROM revisions WHERE manifest_sha256 = ?` finds a row.
unfoldable pub has_digest : Bytes → List StoredRevision → Bool
has_digest digest [] = false
has_digest digest (r ∷ rs) = r.manifest_sha256 == digest || has_digest digest rs

-- `SELECT COUNT(*) FROM revisions WHERE profile_id = ?` is not 0.
unfoldable pub has_profile : Bytes → List StoredRevision → Bool
has_profile profile [] = false
has_profile profile (r ∷ rs) = r.profile_id == profile || has_profile profile rs

abbrev pub max_ℤ : ℤ → Option ℤ → ℤ
max_ℤ a none = a
max_ℤ a (some b) = if ltb_ℤ a b then b else a

-- `SELECT MAX(sequence) FROM revisions WHERE profile_id = ?`
unfoldable pub max_sequence : Bytes → List StoredRevision → Option ℤ
max_sequence profile [] = none
max_sequence profile (r ∷ rs) =
    let rest = max_sequence profile rs in
    if r.profile_id == profile then some (max_ℤ r.sequence rest) else rest

abbrev pub sorts_before : Bytes → Bytes → Bool
sorts_before a b = elim (compare_bytes a b) [ Ordering.lt ↦ true | _ ↦ false ]

unfoldable pub insert_sorted : Object → List Object → List Object
insert_sorted o [] = o ∷ []
insert_sorted o (x ∷ xs) =
    let rest = insert_sorted o xs in if sorts_before o.sha256 x.sha256 then o ∷ x ∷ xs else x ∷ rest

-- `sort.Slice` by digest; `ORDER BY ro.object_sha256`. No two of the digests are the same.
unfoldable pub sort_objects : List Object → List Object
sort_objects [] = []
sort_objects (o ∷ os) = insert_sorted o (sort_objects os)

-- The join of `revision_objects` with `objects` for one revision.
unfoldable pub linked_objects : Bytes → List Object → List (Bytes × Bytes) → List Object
unfolding stored_size
linked_objects id objects [] = []
linked_objects id objects ((revision, digest) ∷ rows) =
    let rest = linked_objects id objects rows in
    if revision == id
    then elim (stored_size digest objects) [
      | none ↦ rest
      | some size ↦ record { sha256 = digest; size = size } ∷ rest
    ]
    else rest

-- `rejectDeletedProfile`
unfoldable pub reject_deleted_profile : Database → Bytes → Result StoreError (Unit {0})
reject_deleted_profile db id = reject (contains id db.deleted) immutable_conflict

-- `INSERT INTO objects … ON CONFLICT(sha256) DO NOTHING`, and the comparison of the size read back.
unfoldable pub record_object : List Object → Object → Result StoreError (List Object)
record_object stored o = elim (stored_size o.sha256 stored) [
  | none ↦ ok (o ∷ stored)
  | some size ↦ if size == o.size then ok stored else err immutable_conflict
]

unfoldable pub record_objects : List Object → List Object → Result StoreError (List Object)
record_objects stored [] = ok stored
record_objects stored (o ∷ os) = do stored' ← record_object stored o; record_objects stored' os

-- `INSERT INTO revisions`, which its constraints refuse: the primary key, `UNIQUE(profile_id,
-- sequence)`, `UNIQUE` of the digest and the `CHECK`s.
unfoldable pub insert_revision :
    List StoredRevision → StoredRevision → Result StoreError (List StoredRevision)
insert_revision rows r =
    if is_some (find_revision r.revision_id rows)
      || has_sequence r.profile_id r.sequence rows
      || has_digest r.manifest_sha256 rows
      || ltb_ℤ r.sequence (pos 0)
      || length r.manifest_sha256 != 64
    then err immutable_conflict
    else ok (r ∷ rows)

-- `INSERT INTO revision_objects`, whose primary key is the pair.
unfoldable pub has_link : Bytes → Bytes → List (Bytes × Bytes) → Bool
has_link id digest [] = false
has_link id digest ((i, d) ∷ rows) = (i == id && d == digest) || has_link id digest rows

unfoldable pub link_objects :
    Bytes → List (Bytes × Bytes) → List Object → Result StoreError (List (Bytes × Bytes))
link_objects id rows [] = ok rows
link_objects id rows (o ∷ os) =
    let rest = link_objects id ((id, o.sha256) ∷ rows) os in
    if has_link id o.sha256 rows then err database else rest
