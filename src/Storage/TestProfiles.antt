-- ===== src/Storage/TestProfiles.antt =====
-- internal/storage/test_profiles.go: the tables of `testProfilesSchema` and the operations on them, and
-- `ProfileSummaries`. A time is the text that the code writes for it.
pub mod Kept
use boot_optim_distribution.Base.{
  pos_part, ltb_ℤ, int_eq, ℤ, contains, lookup, ◌>>=◌, ◌>>◌, Result, Bytes, codes, bytes_eq,
  has_prefix, if◌then◌else◌, ◌==◌, nat_eq, bool_eq, is_some, pos, ok, err, ℕ, ◌+◌, ◌-◌, Bool, true,
  false, not, ◌&&◌, ◌||◌, Option, none, some, List, [], ◌∷◌,
}
use Prim.Native.Nat.{Ordering}
use boot_optim_distribution.Semver.{compare_bytes}
use boot_optim_distribution.Revision.Ids.{is_sha256}
use boot_optim_distribution.Storage.Database.{
  Object, StoredRevision, Database, has_profile, has_link, max_sequence, sorts_before,
}

-- `TestProfilePrefix`
abbrev pub test_prefix : Bytes
test_prefix = codes "profile_test-"

-- `ErrInvalidPublication`, `ErrTestProfileExists`, `ErrTestProfileNotFound`, `ErrInvalidDigest`
pub data TestError : Type 0 where
  lacks_prefix already_used not_registered invalid_digest : TestError

-- A row of `test_profiles`.
pub record TestRow : Type 0 where
  pub profile_id : Bytes
  pub owner : Bytes
  pub created_at : Bytes
  pub follow_parent : Bool

-- `TestProfileRecord`
pub record TestProfileRecord : Type 0 where
  pub row : TestRow
  pub deleted : Bool

-- A row of `test_objects`.
pub record TestObject : Type 0 where
  pub sha256 : Bytes
  pub size : ℤ
  pub owner : Bytes
  pub uploaded_at : Bytes

-- `TestUsage`
pub record TestUsage : Type 0 where
  pub live_profiles : ℕ
  pub counted_bytes : ℕ

pub record TestTables : Type 0 where
  pub profiles : List TestRow
  pub objects : List TestObject
  -- The hash and the time of the row of `test_api_token`.
  pub token : Option (Bytes × Bytes)

-- `SELECT … FROM test_profiles WHERE profile_id = ?`
unfoldable pub find_test_row : Bytes → List TestRow → Option TestRow
find_test_row id [] = none
find_test_row id (r ∷ rs) =
    let rest = find_test_row id rs in if r.profile_id == id then some r else rest

-- The sum of the three counts is not 0.
unfoldable pub is_used : Database → TestTables → Bytes → Bool
is_used db t id =
    has_profile id db.revisions || contains id db.deleted || is_some (find_test_row id t.profiles)

-- `RegisterTestProfile`
unfoldable pub register_test_profile :
    Database → TestTables → Bytes → Bytes → Bool → Bytes → Result TestError TestTables
register_test_profile db t id owner follow_parent now =
    if not (has_prefix test_prefix id)
    then err lacks_prefix
    else if is_used db t id
    then err already_used
    else ok (record t {
      profiles =
          record { profile_id = id; owner = owner; created_at = now; follow_parent = follow_parent }
          ∷ t.profiles;
    })

-- `DELETE FROM test_profiles WHERE profile_id = ?`
unfoldable pub without_row : Bytes → List TestRow → List TestRow
without_row id [] = []
without_row id (r ∷ rs) =
    let rest = without_row id rs in if r.profile_id == id then rest else r ∷ rest

-- `ReleaseUnpublishedTestProfile`
unfoldable pub release_unpublished : Database → TestTables → Bytes → TestTables
release_unpublished db t id =
    if has_profile id db.revisions then t else record t { profiles = without_row id t.profiles }

abbrev pub record_of : Database → TestRow → TestProfileRecord
record_of db r = record { row = r; deleted = contains r.profile_id db.deleted }

-- `TestProfile`
unfoldable pub test_profile : Database → TestTables → Bytes → Result TestError TestProfileRecord
test_profile db t id = elim (find_test_row id t.profiles) [
  | none ↦ err not_registered
  | some r ↦ ok (record_of db r)
]

-- `ORDER BY deleted, t.profile_id`
unfoldable pub lists_before : TestProfileRecord → TestProfileRecord → Bool
lists_before a b =
    if a.deleted == b.deleted then sorts_before a.row.profile_id b.row.profile_id else b.deleted

unfoldable pub insert_record : TestProfileRecord → List TestProfileRecord → List TestProfileRecord
insert_record a [] = a ∷ []
insert_record a (b ∷ bs) =
    let rest = insert_record a bs in if lists_before a b then a ∷ b ∷ bs else b ∷ rest

unfoldable pub sorted_records : Database → List TestRow → List TestProfileRecord
sorted_records db [] = []
sorted_records db (r ∷ rs) = insert_record (record_of db r) (sorted_records db rs)

-- `ListTestProfiles`
unfoldable pub list_test_profiles : Database → TestTables → List TestProfileRecord
list_test_profiles db t = sorted_records db t.profiles

-- `UPDATE test_profiles SET follow_parent = ? WHERE profile_id = ?`
unfoldable pub updated_row : Bytes → Bool → TestRow → TestRow
updated_row id follow r = if r.profile_id == id then record r { follow_parent = follow } else r

unfoldable pub with_follow : Bytes → Bool → List TestRow → List TestRow
with_follow id follow [] = []
with_follow id follow (r ∷ rs) = updated_row id follow r ∷ with_follow id follow rs

-- `SetTestProfileFollow`
unfoldable pub set_test_profile_follow : TestTables → Bytes → Bool → Result TestError TestTables
set_test_profile_follow t id follow =
    if is_some (find_test_row id t.profiles)
    then ok (record t { profiles = with_follow id follow t.profiles })
    else err not_registered

-- `TestProfileFollows`
unfoldable pub test_profile_follows : Database → TestTables → Bytes → Bool
test_profile_follows db t id = elim (test_profile db t id) [
  | ok r ↦ r.row.follow_parent
  | err e ↦ true
]

unfoldable pub has_test_object : Bytes → List TestObject → Bool
has_test_object digest [] = false
has_test_object digest (o ∷ os) = o.sha256 == digest || has_test_object digest os

-- `RecordTestObject`
unfoldable pub record_test_object :
    TestTables → Object → Bytes → Bytes → Result TestError TestTables
record_test_object t o owner now =
    if not (is_sha256 o.sha256) || ltb_ℤ o.size (pos 0)
    then err invalid_digest
    else if has_test_object o.sha256 t.objects
    then ok t
    else ok (record t {
      objects =
          record { sha256 = o.sha256; size = o.size; owner = owner; uploaded_at = now } ∷ t.objects;
    })

unfoldable pub live_rows : Database → List TestRow → ℕ
live_rows db [] = 0
live_rows db (r ∷ rs) = (if contains r.profile_id db.deleted then 0 else 1) + live_rows db rs

-- A link from a revision with the property to the object.
unfoldable pub linked_from :
    (StoredRevision → Bool) → Bytes → List StoredRevision → List (Bytes × Bytes) → Bool
linked_from p digest [] links = false
linked_from p digest (r ∷ rs) links =
    (p r && has_link r.revision_id digest links) || linked_from p digest rs links

-- A row of `revision_objects` names the object.
unfoldable pub is_linked : Bytes → List (Bytes × Bytes) → Bool
is_linked digest [] = false
is_linked digest ((id, d) ∷ links) = d == digest || is_linked digest links

-- `a >= b` on texts.
abbrev pub text_from : Bytes → Bytes → Bool
text_from a b = elim (compare_bytes a b) [ Ordering.lt ↦ false | _ ↦ true ]

unfoldable pub is_counted : Database → TestTables → Bytes → TestObject → Bool
is_counted db t cutoff o =
    linked_from
      (λ r.
        is_some (find_test_row r.profile_id t.profiles) && not (contains r.profile_id db.deleted))
      o.sha256 db.revisions db.revision_objects
    || (not (is_linked o.sha256 db.revision_objects) && text_from o.uploaded_at cutoff)

-- `SUM(o.size)`: by its CHECK no size is negative.
unfoldable pub sum_sizes : (TestObject → Bool) → List TestObject → ℕ
sum_sizes p [] = 0
sum_sizes p (o ∷ os) = (if p o then pos_part o.size else 0) + sum_sizes p os

-- `TestUsage`, with the text of the time a day ago.
unfoldable pub test_usage : Database → TestTables → Bytes → TestUsage
test_usage db t cutoff = record {
  live_profiles = live_rows db t.profiles;
  counted_bytes = sum_sizes (is_counted db t cutoff) t.objects;
}

-- `TestProfileOwnBytes`
unfoldable pub own_bytes : Database → TestTables → Bytes → ℕ
own_bytes db t id =
    sum_sizes (λ o. linked_from (λ r. r.profile_id == id) o.sha256 db.revisions db.revision_objects)
      t.objects

-- `SetTestTokenHash`; `TestTokenHash` reads the field.
unfoldable pub set_test_token_hash : TestTables → Bytes → Bytes → Result TestError TestTables
set_test_token_hash t hash created_at =
    if not (is_sha256 hash)
    then err invalid_digest
    else ok (record t { token = some (hash, created_at) })

-- `ProfileSummary`
pub record ProfileSummary : Type 0 where
  pub latest : StoredRevision
  pub envelope : Bytes
  pub revision_count : ℕ

unfoldable pub count_revisions : Bytes → List StoredRevision → ℕ
count_revisions id [] = 0
count_revisions id (r ∷ rs) = (if r.profile_id == id then 1 else 0) + count_revisions id rs

-- The row of a revision in the listing, if it is the latest of a profile that is not deleted.
unfoldable pub summary_of : Database → StoredRevision → Option ProfileSummary
summary_of db r = elim (lookup r.revision_id db.envelopes) [
  | none ↦ none
  | some envelope ↦
      if contains r.profile_id db.deleted
      then none
      else elim (max_sequence r.profile_id db.revisions) [
        | none ↦ none
        | some most ↦
            if r.sequence == most
            then some (record {
              latest = r;
              envelope = envelope;
              revision_count = count_revisions r.profile_id db.revisions;
            })
            else none
      ]
]

unfoldable pub insert_summary : ProfileSummary → List ProfileSummary → List ProfileSummary
insert_summary a [] = a ∷ []
insert_summary a (b ∷ bs) =
    let rest = insert_summary a bs in
    if sorts_before a.latest.profile_id b.latest.profile_id then a ∷ b ∷ bs else b ∷ rest

unfoldable pub summaries_of : Database → List StoredRevision → List ProfileSummary
summaries_of db [] = []
summaries_of db (r ∷ rs) = elim (summary_of db r) [
  | none ↦ summaries_of db rs
  | some s ↦ insert_summary s (summaries_of db rs)
]

-- `ProfileSummaries`
unfoldable pub profile_summaries : Database → List ProfileSummary
profile_summaries db = summaries_of db db.revisions
