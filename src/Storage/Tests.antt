-- ===== src/Storage/Tests.antt =====
-- The theorems on the tables at a publication, a channel and a deletion, with stand-ins for SHA-256 and
-- the object store.
use boot_optim_distribution.Base.{
  int_eq, All, contains, lookup, each, Result, Bytes, codes, bytes_beq, bytes_eq, is_digit, nat_eq,
  bool_eq, pos, ok, err, ◌≡◌, refl, ◌≢◌, ◌↔◌, true, false, Option, none, [], ◌∷◌,
}
use boot_optim_distribution.Revision.Ids.{is_sha256, is_hex}
use boot_optim_distribution.Storage.Database.{
  StoreError, Object, object_eq, revision_not_found, Database, empty_database, ChannelRecord,
  find_revision, has_sequence, has_digest, has_profile, has_link, max_sequence, stored_size,
  insert_sorted, sort_objects, reject_deleted_profile, record_object, record_objects,
  insert_revision, link_objects,
}
use boot_optim_distribution.Storage.Publish.{
  RevisionPublication, row_of, valid_object, by_hash, normalize_publication,
  identical_existing_revision, insert_publication, publish_new, publish_transaction,
  publish_with_hooks, publish_revision, publish_signed_revision, existing_envelope, insert_envelope,
  sequence_advances,
}
use boot_optim_distribution.Storage.Publish.Outcome.{SignedOutcome, publish_signed_revision-outcome}
use boot_optim_distribution.Storage.Publish.Again.{publish_signed_revision_again}
use boot_optim_distribution.Storage.Channel.{
  compare_and_set_channel, delete_profile, find_channel, put_channel, as_expected, complete_record,
  points_at, newest, profile_head,
}
use boot_optim_distribution.Storage.Channel.Laws.{
  MaySet, IsPut, In, NoHigher, compare_and_set_channel_iff, deleted_forever, profile_head-newest,
}
use boot_optim_distribution.Storage.History.{Grows}
use boot_optim_distribution.Storage.Steps.{here, more, publish_signed, Run-Grows}
use boot_optim_distribution.Storage.Sound.{Run-IsSound}
use boot_optim_distribution.Storage.Rows.{IsSound}
use boot_optim_distribution.Storage.TestProfiles.{
  TestRow, TestTables, find_test_row, register_test_profile, release_unpublished, without_row,
}
use boot_optim_distribution.Storage.TestProfiles.Kept.{
  Owns, TestStep, TestRun-keeps_owner, start, then_step, release,
}

abbrev digest : Bytes
digest = codes "aaaaaaaaaaaaaaaaaaaaaaaaaaaaaaaaaaaaaaaaaaaaaaaaaaaaaaaaaaaaaaaa"

hash : Bytes → Bytes
hash bytes = digest

stored : Object → Result StoreError (Unit {0})
stored o = ok tt

abbrev first_revision : RevisionPublication
first_revision = record {
  revision_id = codes "r1";
  profile_id = codes "p";
  sequence = pos 1;
  manifest_bytes = codes "m";
  manifest_sha256 = digest;
  expected_objects = record { sha256 = digest; size = pos 3 } ∷ [];
}

abbrev published : Database
published = record {
  objects = record { sha256 = digest; size = pos 3 } ∷ [];
  revisions = row_of first_revision ∷ [];
  revision_objects = (codes "r1", digest) ∷ [];
  envelopes = (codes "r1", codes "e") ∷ [];
  channels = [];
  deleted = [];
}

publishes :
    publish_signed_revision hash stored empty_database first_revision (codes "e") ≡ ok published
unfolding hash stored publish_signed_revision publish_with_hooks publish_transaction publish_new
    insert_publication insert_envelope existing_envelope sequence_advances normalize_publication
    by_hash valid_object is_sha256 is_hex is_digit sort_objects insert_sorted stored_size
    reject_deleted_profile identical_existing_revision find_revision has_sequence has_digest
    max_sequence record_object record_objects insert_revision link_objects has_link each contains
    lookup bytes_beq
publishes = refl

Run-Grows_example : Grows empty_database published
Run-Grows_example =
    Run-Grows hash stored empty_database published
      (more here (publish_signed first_revision (codes "e") publishes))

Run-IsSound_example : IsSound hash published
Run-IsSound_example =
    Run-IsSound hash stored published
      (more here (publish_signed first_revision (codes "e") publishes))

publish_signed_revision-outcome_example :
    (contains (codes "p") [] ≡ false)
    × (hash (codes "m") ≡ digest)
    × SignedOutcome empty_database first_revision (codes "e") published
publish_signed_revision-outcome_example =
    publish_signed_revision-outcome hash stored empty_database published first_revision (codes "e")
      publishes

abbrev stable : ChannelRecord
stable = record {
  profile_id = codes "p";
  channel = codes "stable";
  revision_id = codes "r1";
  sequence = pos 1;
  manifest_sha256 = digest;
}

sets :
    compare_and_set_channel published none stable ≡ ok (record published { channels = stable ∷ [] })
unfolding compare_and_set_channel complete_record is_sha256 is_hex is_digit as_expected find_channel
    find_revision points_at put_channel contains bytes_beq
sets = refl

abbrev no_record : Option ChannelRecord
no_record = none

compare_and_set_channel_iff_example :
    (compare_and_set_channel published no_record stable
      ≡ ok (record published { channels = stable ∷ [] }))
    ↔ (MaySet published stable no_record
        × IsPut published stable (record published { channels = stable ∷ [] }))
compare_and_set_channel_iff_example =
    compare_and_set_channel_iff published (record published { channels = stable ∷ [] }) no_record
      stable

deletes : delete_profile published (codes "p") ≡ ok (record published { deleted = codes "p" ∷ [] })
unfolding delete_profile has_profile contains bytes_beq
deletes = refl

deleted_forever_example :
    (publish_revision hash stored (record published { deleted = codes "p" ∷ [] }) first_revision
      ≢ ok published)
    × (publish_signed_revision hash stored
          (record published { deleted = codes "p" ∷ [] })
          first_revision
          (codes "e")
        ≢ ok published)
    × (compare_and_set_channel (record published { deleted = codes "p" ∷ [] }) no_record stable
        ≢ ok published)
    × (profile_head (record published { deleted = codes "p" ∷ [] }) (codes "p")
        ≡ err revision_not_found)
deleted_forever_example =
    deleted_forever hash stored published (record published { deleted = codes "p" ∷ [] })
      (record published { deleted = codes "p" ∷ [] }) published first_revision (codes "e") no_record
      stable deletes here refl

head : profile_head published (codes "p") ≡ ok (row_of first_revision)
unfolding profile_head newest contains bytes_beq
head = refl

profile_head-newest_example :
    In (row_of first_revision) (row_of first_revision ∷ [])
    × (codes "p" ≡ codes "p")
    × All (NoHigher (codes "p") (pos 1)) (row_of first_revision ∷ [])
    × (contains (codes "p") [] ≡ false)
profile_head-newest_example = profile_head-newest published (codes "p") (row_of first_revision) head

publish_signed_revision_again_example :
    publish_signed_revision hash stored published first_revision (codes "e") ≡ ok published
publish_signed_revision_again_example =
    publish_signed_revision_again hash stored empty_database published first_revision (codes "e")
      here publishes

abbrev test_row : TestRow
test_row = record {
  profile_id = codes "p";
  owner = codes "o";
  created_at = codes "t";
  follow_parent = true;
}

abbrev registered : TestTables
registered = record { profiles = test_row ∷ []; objects = []; token = none }

owns : Owns published registered (codes "p") (codes "o")
unfolding find_test_row has_profile bytes_beq
owns = record { row = test_row; found = refl; owned = refl; published = refl }

released : TestStep hash stored published registered published registered
unfolding release_unpublished has_profile without_row bytes_beq
released = release (codes "q")

TestRun-keeps_owner_example :
    Owns published registered (codes "p") (codes "o")
    × (register_test_profile published registered (codes "p") (codes "x") false (codes "t")
        ≢ ok registered)
TestRun-keeps_owner_example =
    TestRun-keeps_owner hash stored published published registered registered registered (codes "p")
      (codes "o") (codes "x") false (codes "t") owns (then_step start released)
