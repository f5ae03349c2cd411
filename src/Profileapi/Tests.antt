-- ===== src/Profileapi/Tests.antt =====
-- The theorems on the API at concrete calls, with stand-ins for SHA-256, the object store, the keys and
-- the parsing of signed JSON.
use boot_optim_distribution.Base.{
  ◌<ℤ◌, int_eq, contains, IsDistinct, lookup, delete, insert, each, Result, Bytes, codes, bytes_beq,
  bytes_eq, after_prefix, is_digit, is_lower, is_upper, if◌then◌else◌, ◌==◌, nat_eq, bool_eq, pos,
  ok, err, ℕ, ◌≡◌, refl, ◌≢◌, true, false, Option, none, some, List, [], ◌∷◌,
}
use boot_optim_distribution.Revision.Types.{
  Manifest, ParentRef, VerifiedRevision, VerifiedRollbackEvent, revision_id, same_game,
  resolved_loader,
}
use boot_optim_distribution.Revision.Ids.{
  is_sha256, is_hex, valid_profile_id, valid_channel, valid_revision_id, valid_entry_id_range,
  is_lower_alphanum, lower_tail, lower_word, is_alphanum,
}
use boot_optim_distribution.Revision.Transition.{
  decide_channel_transition, decide_from, well_formed_head, well_formed_channel, binds,
}
use boot_optim_distribution.Revision.Chain.{
  key_beq, depth_cap, matches_pin, next_parent, follow, extend_lineage, drop_configs, add_configs,
  add_settings, lineage_of, validate_inheritance_chain,
}
use boot_optim_distribution.Revision.Jvm.Effective.{
  effective_options, resolve_chain, apply_manifest, remove_options, put_options,
}
use boot_optim_distribution.Revision.Jvm.Collisions.{check_flag_collisions, claim_all}
use boot_optim_distribution.Storage.Database.{
  StoreError, Object, StoredRevision, ChannelRecord, Database, empty_database, find_revision,
  has_sequence, has_digest, has_link, max_sequence, stored_size, insert_sorted, sort_objects,
  reject_deleted_profile, record_object, record_objects, insert_revision, link_objects,
}
use boot_optim_distribution.Storage.Publish.{
  valid_object, by_hash, normalize_publication, identical_existing_revision, insert_publication,
  publish_new, publish_transaction, publish_with_hooks, publish_signed_revision, existing_envelope,
  insert_envelope, sequence_advances,
}
use boot_optim_distribution.Storage.Channel.{
  channel_of, compare_and_set_channel, find_channel, put_channel, as_expected, same_record,
  complete_record, points_at, newest, profile_head,
}
use boot_optim_distribution.Profileapi.Errors.{Api, VerifyError, out_of_fuel, answer}
use boot_optim_distribution.Profileapi.Lookup.{
  signed_revision, as_error, required, verify_revision_envelope, matches_row,
  verify_stored_revision, verified_revision, validate_profile_icon,
}
use boot_optim_distribution.Profileapi.Parents.{
  collect_parents, validate_parents, validate_parent_chain,
}
use boot_optim_distribution.Profileapi.Parents.Collected.{validate_parent_chain-ends}
use boot_optim_distribution.Profileapi.Publish.{
  add_objects, icon_objects, expected_objects, store_revision, publish_first, check_sequence,
  publish_verified, publish_core,
}
use boot_optim_distribution.Profileapi.Publish.Outcome.{Published, Before, publish_core-Published}
use boot_optim_distribution.Profileapi.Channels.{
  if_any, load_channel, move_channel, load_candidate, promote_channel, verified_event,
  rollback_channel,
}
use boot_optim_distribution.Profileapi.Channels.Moves.{
  Moved, NoLower, IsSigned, promote_channel-Moved, rollback_channel-Moved,
}
use boot_optim_distribution.Profileapi.Genuine.{
  none_yet, after_call, publish, Calls-signed_revision,
}
use boot_optim_distribution.Profileapi.Follow.{Follower, FollowResult, follow_parent}
use boot_optim_distribution.Profileapi.Follow.Ends.{followed, follow_parent-ends}

abbrev sha_a : Bytes
sha_a = codes "aaaaaaaaaaaaaaaaaaaaaaaaaaaaaaaaaaaaaaaaaaaaaaaaaaaaaaaaaaaaaaaa"

abbrev sha_b : Bytes
sha_b = codes "bbbbbbbbbbbbbbbbbbbbbbbbbbbbbbbbbbbbbbbbbbbbbbbbbbbbbbbbbbbbbbbb"

abbrev manifest : Bytes → Bytes → ℕ → Option ParentRef → Manifest
manifest profile id sequence base = record {
  schema_version = pos 2;
  revision = record { id = id; sequence = pos sequence; created_at = []; release_notes = [] };
  profile = record { description = []; icon = none; id = profile; name = []; official = true };
  game = record { minecraft = codes "1.21.1"; neoforge = codes "21.1.1"; loader = none };
  base = base;
  permissions = record {
    derive_local = true;
    mods = record { add = true; remove = true };
    configs = record { override_enforced = false; override_default_once = true };
    max_inheritance_depth = pos 2;
  };
  mods = [];
  remove_mods = [];
  configs = [];
  remove_configs = [];
  config_settings = [];
  jvm_options = [];
  remove_jvm_options = [];
  objects = [];
}

abbrev revision : Bytes → Bytes → Manifest → VerifiedRevision
revision canonical digest m = record {
  manifest = m;
  digest = digest;
  canonical = canonical;
  signature = record { key_id = []; algorithm = []; value = [] };
}

abbrev root : VerifiedRevision
root =
    revision (codes "r") sha_a
      (manifest (codes "profile_abc") (codes "rev_0123456789abcdef") 1 none)

abbrev root_pin : ParentRef
root_pin = record {
  profile_id = codes "profile_abc";
  revision_id = codes "rev_0123456789abcdef";
  manifest_sha256 = sha_a;
}

abbrev child : VerifiedRevision
child =
    revision (codes "c") sha_b
      (manifest (codes "profile_xyz") (codes "rev_child") 1 (some root_pin))

hash : Bytes → Bytes
hash text = if text == codes "r" then sha_a else sha_b

present : Object → Result StoreError (Unit {0})
present o = ok tt

parsed : Bytes → Bytes → Result VerifyError VerifiedRevision
parsed raw key = if raw == codes "R" then ok root else ok child

abbrev event : VerifiedRollbackEvent
event = record {
  event_id = [];
  digest = [];
  statement = record {
    profile_id = codes "profile_abc";
    channel = codes "stable";
    from_revision_id = codes "rev_fedcba9876543210";
    from_sequence = pos 2;
    to_revision_id = codes "rev_0123456789abcdef";
    reason = [];
    issued_at = [];
  };
  signature = record { key_id = []; algorithm = []; value = [] };
  canonical = [];
}

abbrev api : Api
api = record {
  sha256_hex = hash;
  verify_object = present;
  open_object = λ digest. err "no object";
  png_size = λ digest. none;
  max_object_bytes = pos 10;
  signature_key_id = λ raw. some (codes "k");
  public_key = λ id. ok (codes "key");
  parse_revision = parsed;
  parse_rollback = λ raw key. some event;
  canonicalize_json = λ raw. some raw;
}

abbrev root_row : StoredRevision
root_row = record {
  revision_id = codes "rev_0123456789abcdef";
  profile_id = codes "profile_abc";
  sequence = pos 1;
  manifest_sha256 = sha_a;
  manifest = codes "r";
}

abbrev child_row : StoredRevision
child_row = record {
  revision_id = codes "rev_child";
  profile_id = codes "profile_xyz";
  sequence = pos 1;
  manifest_sha256 = sha_b;
  manifest = codes "c";
}

abbrev with_root : Database
with_root = record empty_database {
  revisions = root_row ∷ [];
  envelopes = (codes "rev_0123456789abcdef", codes "R") ∷ [];
}

abbrev with_child : Database
with_child = record empty_database {
  revisions = child_row ∷ root_row ∷ [];
  envelopes = (codes "rev_child", codes "C") ∷ (codes "rev_0123456789abcdef", codes "R") ∷ [];
}

root_publishes :
    publish_core api empty_database empty_database (codes "R") ≡ ok (root, 201, with_root)
unfolding hash present parsed publish_core answer verify_revision_envelope required as_error
    validate_profile_icon publish_verified signed_revision publish_first check_sequence profile_head
    newest validate_parent_chain validate_parents store_revision expected_objects add_objects
    icon_objects publish_signed_revision publish_with_hooks publish_transaction publish_new
    insert_publication insert_envelope existing_envelope sequence_advances normalize_publication
    by_hash valid_object is_sha256 is_hex is_digit sort_objects insert_sorted stored_size
    reject_deleted_profile identical_existing_revision find_revision has_sequence has_digest
    max_sequence record_object record_objects insert_revision link_objects has_link each contains
    lookup bytes_beq
root_publishes = refl

child_publishes : publish_core api with_root with_root (codes "C") ≡ ok (child, 201, with_child)
unfolding hash present parsed publish_core answer verify_revision_envelope required as_error
    validate_profile_icon publish_verified signed_revision publish_first check_sequence profile_head
    newest validate_parent_chain validate_parents collect_parents verified_revision
    verify_stored_revision matches_row store_revision expected_objects add_objects icon_objects
    publish_signed_revision publish_with_hooks publish_transaction publish_new insert_publication
    insert_envelope existing_envelope sequence_advances normalize_publication by_hash valid_object
    is_sha256 is_hex is_digit sort_objects insert_sorted stored_size reject_deleted_profile
    identical_existing_revision find_revision has_sequence has_digest max_sequence record_object
    record_objects insert_revision link_objects has_link each contains lookup insert delete
    bytes_beq key_beq validate_inheritance_chain follow next_parent matches_pin depth_cap same_game
    resolved_loader lineage_of extend_lineage drop_configs add_configs add_settings
    effective_options resolve_chain apply_manifest remove_options put_options check_flag_collisions
    claim_all
child_publishes = refl

publish_core-Published_example :
    (envelope : Bytes) × (verify_revision_envelope api (codes "C") ≡ ok (child, envelope))
    × (validate_profile_icon api none ≡ ok tt)
    × Before api with_root child envelope 201
    × Published api with_root child envelope with_child
publish_core-Published_example =
    publish_core-Published api with_root with_root with_child (codes "C") child 201 child_publishes

validate_parent_chain-ends_example : validate_parent_chain api with_root child ≢ err out_of_fuel
validate_parent_chain-ends_example = validate_parent_chain-ends api with_root child

found_child :
    signed_revision with_child (codes "rev_child")
    ≡ ok (record { row = child_row; envelope = codes "C" })
unfolding signed_revision find_revision lookup bytes_beq
found_child = refl

Calls-signed_revision_example :
    (raw : Bytes) × (v : VerifiedRevision) × (verify_revision_envelope api raw ≡ ok (v, codes "C"))
    × (matches_row api v child_row ≡ true)
    × (revision_id v ≡ codes "rev_child")
Calls-signed_revision_example =
    Calls-signed_revision api with_child (codes "rev_child")
      (record { row = child_row; envelope = codes "C" })
      (after_call (after_call none_yet (publish empty_database (codes "R") root 201 root_publishes))
        (publish with_root (codes "C") child 201 child_publishes))
      found_child

abbrev root_channel : ChannelRecord
root_channel = record {
  profile_id = codes "profile_abc";
  channel = codes "stable";
  revision_id = codes "rev_0123456789abcdef";
  sequence = pos 1;
  manifest_sha256 = sha_a;
}

abbrev next_channel : ChannelRecord
next_channel = record root_channel {
  revision_id = codes "rev_fedcba9876543210";
  sequence = pos 2;
  manifest_sha256 = sha_b;
}

promotes :
    promote_channel api with_root with_root
      (codes "profile_abc")
      (codes "stable")
      (codes "rev_0123456789abcdef")
    ≡ ok (root_channel, record with_root { channels = root_channel ∷ [] })
unfolding parsed promote_channel answer load_candidate verified_revision signed_revision
    find_revision lookup verify_stored_revision verify_revision_envelope required as_error
    matches_row load_channel if_any channel_of find_channel move_channel decide_channel_transition
    well_formed_channel well_formed_head valid_profile_id valid_channel valid_revision_id
    valid_entry_id_range after_prefix is_lower_alphanum lower_tail lower_word is_alphanum is_sha256
    is_hex is_digit is_lower is_upper compare_and_set_channel complete_record as_expected points_at
    put_channel contains bytes_beq
promotes = refl

promote_channel-Moved_example :
    Moved api with_root with_root
      (codes "profile_abc")
      (codes "stable")
      (codes "rev_0123456789abcdef")
      none
      root_channel
      (record with_root { channels = root_channel ∷ [] })
    × NoLower (find_channel (codes "profile_abc") (codes "stable") []) root_channel
promote_channel-Moved_example =
    promote_channel-Moved api with_root with_root
      (record with_root { channels = root_channel ∷ [] }) (codes "profile_abc") (codes "stable")
      (codes "rev_0123456789abcdef") root_channel promotes

abbrev at_next : Database
at_next = record with_root { channels = next_channel ∷ [] }

rolls_back :
    rollback_channel api at_next at_next
      (codes "profile_abc")
      (codes "stable")
      (codes "rev_0123456789abcdef")
      (codes "E")
    ≡ ok (root_channel, record with_root { channels = root_channel ∷ [] })
unfolding parsed rollback_channel answer load_candidate verified_revision signed_revision
    find_revision lookup verify_stored_revision verify_revision_envelope required as_error
    matches_row load_channel if_any channel_of find_channel verified_event move_channel
    decide_channel_transition decide_from binds well_formed_channel well_formed_head
    valid_profile_id valid_channel valid_revision_id valid_entry_id_range after_prefix
    is_lower_alphanum lower_tail lower_word is_alphanum is_sha256 is_hex is_digit is_lower is_upper
    compare_and_set_channel complete_record as_expected same_record points_at put_channel contains
    bytes_beq
rolls_back = refl

rollback_channel-Moved_example :
    (e : VerifiedRollbackEvent) × (known : ChannelRecord) × IsSigned api (codes "E") e
    × Moved api at_next at_next
        (codes "profile_abc")
        (codes "stable")
        (codes "rev_0123456789abcdef")
        (some e)
        root_channel
        (record with_root { channels = root_channel ∷ [] })
    × (find_channel (codes "profile_abc") (codes "stable") (next_channel ∷ []) ≡ some known)
    × (pos 1 <ℤ known.sequence)
    × (e.statement.from_revision_id ≡ known.revision_id)
    × (e.statement.to_revision_id ≡ codes "rev_0123456789abcdef")
rollback_channel-Moved_example =
    rollback_channel-Moved api at_next at_next (record with_root { channels = root_channel ∷ [] })
      (codes "profile_abc") (codes "stable") (codes "rev_0123456789abcdef") (codes "E") root_channel
      rolls_back

abbrev follower : Follower
follower = record {
  decode = λ text. if text == codes "c" then some child.manifest else some root.manifest;
  has_signer = true;
  sign = λ m. ok (codes "C");
  test_follows = λ id. ok true;
}

follow_parent-ends_example :
    (results : List FollowResult) × (after : Database) × (follow_parent api follower with_child
        ((some (codes "0"), codes "t") ∷ [])
        (ok (child_row ∷ root_row ∷ []))
        root
      ≡ some (results, after))
    × IsDistinct (followed results)
    × (contains (codes "profile_abc") (followed results) ≡ false)
follow_parent-ends_example =
    follow_parent-ends api follower with_child ((some (codes "0"), codes "t") ∷ [])
      (child_row ∷ root_row ∷ []) root
