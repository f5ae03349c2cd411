-- ===== src/Profileapi/Channels.antt =====
-- internal/profileapi/api.go: `promoteChannel` and `rollbackChannel`. The tables are given twice: as
-- the handler reads them, and as the final transaction finds them.
pub mod Moves
use Prim.Native.String.{String}
use boot_optim_distribution.Base.{
  int_eq, is_empty, lookup, ◌>>=◌, ◌>>◌, reject, Result, Bytes, bytes_eq, if◌then◌else◌, ◌!=◌,
  nat_eq, bool_eq, is_some, ok, err, ◌-◌, not, Option, none, some,
}
use boot_optim_distribution.Revision.Types.{
  VerifiedRevision, ChannelState, VerifiedRollbackEvent, profile_id, revision_id,
}
use boot_optim_distribution.Revision.Transition.{
  TransitionError, rollback_required, ambiguous_head, decide_channel_transition,
}
use boot_optim_distribution.Storage.Database.{
  StoreError, revision_not_found, channel_conflict, ChannelRecord, Database,
}
use boot_optim_distribution.Storage.Channel.{channel_of, compare_and_set_channel}
use boot_optim_distribution.Profileapi.Errors.{
  Api, KeyError, key_not_found, key_lookup, ApiError, refusal, LookupError, missing,
  candidate_refusal, answer,
}
use boot_optim_distribution.Profileapi.Lookup.{required, verified_revision}

abbrev pub state_of : Bytes → VerifiedRevision → ChannelState
state_of channel v = record {
  profile_id = profile_id v;
  channel = channel;
  revision_id = revision_id v;
  sequence = v.manifest.revision.sequence;
  manifest_sha256 = v.digest;
}

-- `channelRecord`
abbrev pub channel_record : ChannelState → ChannelRecord
channel_record s = record {
  profile_id = s.profile_id;
  channel = s.channel;
  revision_id = s.revision_id;
  sequence = s.sequence;
  manifest_sha256 = s.manifest_sha256;
}

abbrev pub known_state : ChannelRecord → ChannelState
known_state r = record {
  profile_id = r.profile_id;
  channel = r.channel;
  revision_id = r.revision_id;
  sequence = r.sequence;
  manifest_sha256 = r.manifest_sha256;
}

abbrev pub known_of : Option ChannelRecord → Option ChannelState
known_of none = none
known_of (some r) = some (known_state r)

unfoldable pub if_any : Result StoreError ChannelRecord → Result StoreError (Option ChannelRecord)
if_any (ok r) = ok (some r)
if_any (err revision_not_found) = ok none
if_any (err e) = err e

-- `loadChannel`: the record, which `known_of` turns into the state.
unfoldable pub load_channel : Database → Bytes → Bytes → Result StoreError (Option ChannelRecord)
load_channel db profile channel = if_any (channel_of db profile channel)

unfoldable pub transition_refusal : String → TransitionError → ApiError
transition_refusal ambiguous rollback_required =
    refusal 409 "rollback_required" "downgrade requires a valid signed rollback event"
transition_refusal ambiguous ambiguous_head = refusal 409 "channel_conflict" ambiguous

unfoldable pub set_refusal : StoreError → ApiError
set_refusal channel_conflict = refusal 409 "channel_conflict" "channel state changed concurrently"
set_refusal _ = refusal 500 "storage_error" "channel could not be updated"

unfoldable pub key_refusal : KeyError → ApiError
key_refusal key_not_found =
    refusal 422 "unknown_release_key" "rollback signature key is not trusted"
key_refusal key_lookup = refusal 500 "key_resolver_error" "release key lookup failed"

abbrev state_unavailable : StoreError → ApiError
state_unavailable e = refusal 500 "storage_error" "channel state unavailable"

-- The decision and the write that end both operations.
unfoldable pub move_channel :
    Database
    → String
    → Option ChannelRecord
    → ChannelState
    → Option VerifiedRollbackEvent
    → Result ApiError (ChannelRecord × Database)
move_channel now ambiguous known target event = do
  answer (transition_refusal ambiguous) (decide_channel_transition (known_of known) target event)
  db ← answer set_refusal (compare_and_set_channel now known (channel_record target))
  ok (channel_record target, db)

module _ (api : Api) where
  -- `loadCandidate`
  unfoldable pub load_candidate : Database → Bytes → Bytes → Bytes → Result LookupError ChannelState
  load_candidate read profile channel revision =
      if is_empty revision
      then err missing
      else verified_revision api read revision >>= λ verified.
          if profile_id verified != profile then err missing else ok (state_of channel verified)

  -- `promoteChannel`
  unfoldable pub promote_channel :
      Database → Database → Bytes → Bytes → Bytes → Result ApiError (ChannelRecord × Database)
  promote_channel read now profile channel revision = do
    target ← answer candidate_refusal (load_candidate read profile channel revision)
    known ← answer state_unavailable (load_channel read profile channel)
    move_channel now "channel transition is ambiguous" known target none

  -- The signed event of a rollback.
  unfoldable pub verified_event : Bytes → Result ApiError VerifiedRollbackEvent
  verified_event raw = do
    key_id ←
        required (refusal 422 "invalid_rollback" "rollback event is malformed")
          (api.signature_key_id raw)
    key ← answer key_refusal (api.public_key key_id)
    required (refusal 422 "invalid_rollback" "rollback signature or statement is invalid")
        (api.parse_rollback raw key)

  -- `rollbackChannel`
  unfoldable pub rollback_channel :
      Database
      → Database
      → Bytes
      → Bytes
      → Bytes
      → Bytes
      → Result ApiError (ChannelRecord × Database)
  rollback_channel read now profile channel revision raw_event = do
    target ← answer candidate_refusal (load_candidate read profile channel revision)
    known ← answer state_unavailable (load_channel read profile channel)
    reject (not (is_some known))
        (refusal 409 "channel_not_found" "rollback requires an existing channel head")
    event ← verified_event raw_event
    move_channel now "rollback statement does not bind the current and target channel heads" known
        target (some event)
