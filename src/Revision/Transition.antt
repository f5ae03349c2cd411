-- ===== src/Revision/Transition.antt =====
-- internal/revision/rollback.go: `DecideChannelTransition`.
pub mod Laws
use boot_optim_distribution.Base.{
  ltb_ℤ, int_eq, ◌>>=◌, ◌>>◌, reject, Result, bytes_eq, if◌then◌else◌, ◌==◌, ◌!=◌, nat_eq, bool_eq,
  is_some, pos, ok, err, ◌-◌, Bool, not, ◌&&◌, ◌||◌, Option, none, some,
}
use boot_optim_distribution.Revision.Types.{ChannelState, VerifiedRollbackEvent}
use boot_optim_distribution.Revision.Ids.{
  valid_profile_id, valid_channel, valid_revision_id, is_sha256,
}

-- `ErrRollbackRequired`, `ErrAmbiguousHead`
pub data TransitionError : Type 0 where
  rollback_required ambiguous_head : TransitionError

-- A revision that a channel can stand at.
unfoldable pub well_formed_head : ChannelState → Bool
well_formed_head c =
    valid_revision_id c.revision_id && not (ltb_ℤ c.sequence (pos 1)) && is_sha256 c.manifest_sha256

unfoldable pub well_formed_channel : ChannelState → Bool
well_formed_channel c = valid_profile_id c.profile_id && valid_channel c.channel

-- The statement names the channel, where it stands, and the candidate.
unfoldable pub binds : VerifiedRollbackEvent → ChannelState → ChannelState → Bool
binds event known candidate =
    event.statement.profile_id == known.profile_id
    && event.statement.channel == known.channel
    && event.statement.from_revision_id == known.revision_id
    && event.statement.from_sequence == known.sequence
    && event.statement.to_revision_id == candidate.revision_id

-- The tests behind those of the two states.
unfoldable pub decide_from :
    ChannelState → ChannelState → Option VerifiedRollbackEvent → Result TransitionError (Unit {0})
decide_from known candidate rollback =
    if ltb_ℤ known.sequence candidate.sequence
    then reject (is_some rollback) ambiguous_head
    else if candidate.sequence == known.sequence
    then reject
        (is_some rollback
          || candidate.revision_id != known.revision_id
          || candidate.manifest_sha256 != known.manifest_sha256)
        ambiguous_head
    else elim rollback [
      | none ↦ err rollback_required
      | some event ↦ if binds event known candidate then ok tt else err ambiguous_head
    ]

-- `DecideChannelTransition`
unfoldable pub decide_channel_transition :
    Option ChannelState
    → ChannelState
    → Option VerifiedRollbackEvent
    → Result TransitionError (Unit {0})
decide_channel_transition known candidate rollback =
    if not (well_formed_channel candidate && well_formed_head candidate)
    then err ambiguous_head
    else elim known [
      | none ↦ reject (is_some rollback) ambiguous_head
      | some state ↦
          if state.profile_id != candidate.profile_id
            || state.channel != candidate.channel
            || not (well_formed_head state)
          then err ambiguous_head
          else decide_from state candidate rollback
    ]
