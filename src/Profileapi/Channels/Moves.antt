-- ===== src/Profileapi/Channels/Moves.antt =====
-- internal/profileapi/api.go: what a promotion or a rollback that succeeds has done.
use Prim.Native.String.{String}
use boot_optim_distribution.Base.{
  ◌<ℤ◌, int_eq, is_empty, reject, bind_ok, guard_ok, Bytes, bytes_eq, ◌!=◌, eq_iff, nat_eq, bool_eq,
  is_some, ok, ◌≡◌, refl, sym, ap, ◌∙◌, ◌⊎◌, inl, inr, true, not, Option, none, some, arith,
}
use boot_optim_distribution.Revision.Types.{
  VerifiedRevision, VerifiedRollbackEvent, ChannelState, profile_id,
}
use boot_optim_distribution.Revision.Transition.{decide_channel_transition}
use boot_optim_distribution.Revision.Transition.Laws.{
  Binds, Move, advance, replay, rollback, decide_channel_transition_iff,
}
use boot_optim_distribution.Storage.Database.{ChannelRecord, Database}
use boot_optim_distribution.Storage.Channel.{find_channel, compare_and_set_channel}
use boot_optim_distribution.Storage.Channel.Laws.{MaySet, IsPut, compare_and_set_channel_iff}
use boot_optim_distribution.Profileapi.Errors.{Api, candidate_refusal, answer, answer_ok}
use boot_optim_distribution.Profileapi.Lookup.{required, required_ok, verified_revision}
use boot_optim_distribution.Profileapi.Channels.{
  state_of, channel_record, known_state, known_of, load_channel, key_refusal, transition_refusal,
  set_refusal, state_unavailable, move_channel, load_candidate, promote_channel, verified_event,
  rollback_channel,
}

-- The channel went to a verified revision of its profile, by a transition from where it stood when the
-- write was made.
pub record Moved (api : Api) (read now : Database) (profile channel revision : Bytes)
    (event : Option VerifiedRollbackEvent) (c : ChannelRecord) (after : Database) : Type 0 where
  pub target : VerifiedRevision
  pub verified : verified_revision api read revision ≡ ok target
  pub owned : profile_id target ≡ profile
  pub written : c ≡ channel_record (state_of channel target)
  pub decided :
      decide_channel_transition
        (known_of (find_channel profile channel now.channels))
        (state_of channel target)
        event
      ≡ ok tt
  pub stored : MaySet now c (find_channel profile channel now.channels)
  -- The channel reads as the answer, and nothing but its row changed.
  pub put : IsPut now c after

module _ (api : Api) where
  load_candidate_ok :
      (read : Database) (profile channel revision : Bytes) (target : ChannelState)
      → load_candidate api read profile channel revision ≡ ok target
      → (v : VerifiedRevision) × (verified_revision api read revision ≡ ok v)
        × (profile_id v ≡ profile)
        × (target ≡ state_of channel v)
  unfolding load_candidate
  load_candidate_ok read profile channel revision target h =
      let (_, h₁) = guard_ok (is_empty revision) _ _ h in
      let (v, verified, h₂) = bind_ok (verified_revision api read revision) _ h₁ in
      let (own, fin) = guard_ok (profile_id v != profile) _ _ h₂ in
      (v, verified, ground (arith, eq_iff (profile_id v) profile), cc)

  set_known :
      (read now after : Database) (channel revision : Bytes) (known : Option ChannelRecord)
      (v : VerifiedRevision) (event : Option VerifiedRollbackEvent)
      → verified_revision api read revision ≡ ok v
      → decide_channel_transition (known_of known) (state_of channel v) event ≡ ok tt
      → compare_and_set_channel now known (channel_record (state_of channel v)) ≡ ok after
      → Moved api read now
          (profile_id v)
          channel
          revision
          event
          (channel_record (state_of channel v))
          after
        × (find_channel (profile_id v) channel now.channels ≡ known)
  set_known read now after channel revision known v event verified decided set =
      let c = channel_record (state_of channel v) in
      let (may, put) = (compare_and_set_channel_iff now after known c).0 set in
      (
        record {
          target = v;
          verified = verified;
          owned = refl;
          written = refl;
          decided = rw may.current decided;
          stored = rw may.current may;
          put = put;
        },
        may.current,
      )

  move_channel_ok :
      (read now after : Database) (profile channel revision : Bytes) (ambiguous : String)
      (known : Option ChannelRecord) (target : ChannelState) (event : Option VerifiedRollbackEvent)
      (c : ChannelRecord)
      → load_candidate api read profile channel revision ≡ ok target
      → move_channel now ambiguous known target event ≡ ok (c, after)
      → Moved api read now profile channel revision event c after
        × (find_channel profile channel now.channels ≡ known)
  unfolding move_channel
  move_channel_ok read now after profile channel revision ambiguous known target event c loaded h =
      let (v, verified, owned, same) =
        load_candidate_ok read profile channel revision target loaded in
      let h' = rw same at h in
      let (u, decided, h₁) =
        bind_ok
          (answer (transition_refusal ambiguous)
            (decide_channel_transition (known_of known) (state_of channel v) event))
          _ h' in
      let (db, set, fin) =
        bind_ok
          (answer set_refusal
            (compare_and_set_channel now known (channel_record (state_of channel v))))
          _ h₁ in
      let written : channel_record (state_of channel v) ≡ c = cc in
      let ended : db ≡ after = cc in
      rw (← owned, ← written, ← ended)
        (set_known read now db channel revision known v event verified
          (answer_ok (transition_refusal ambiguous) _ decided) (answer_ok set_refusal _ set))

  promote_parts :
      (read now after : Database) (profile channel revision : Bytes) (c : ChannelRecord)
      → promote_channel api read now profile channel revision ≡ ok (c, after)
      → Moved api read now profile channel revision none c after
  unfolding promote_channel
  promote_parts read now after profile channel revision c h =
      let (target, loaded, h₁) =
        bind_ok (answer candidate_refusal (load_candidate api read profile channel revision)) _ h in
      let (known, current, fin) =
        bind_ok (answer state_unavailable (load_channel read profile channel)) _ h₁ in
      (move_channel_ok read now after profile channel revision "channel transition is ambiguous"
        known target none c (answer_ok candidate_refusal _ loaded) fin).0

-- The channel was not there, or its sequence has grown, or it stays at what it was.
abbrev pub NoLower : Option ChannelRecord → ChannelRecord → Type 0
NoLower known c =
    (known ≡ none)
    ⊎ ((r : ChannelRecord) × (known ≡ some r) × ((r.sequence <ℤ c.sequence) ⊎ (c ≡ r)))

known-NoLower :
    (known : Option ChannelRecord) (target : ChannelState)
    → decide_channel_transition (known_of known) target none ≡ ok tt
    → NoLower known (channel_record target)
known-NoLower none target h = inl refl
known-NoLower (some r) target h =
    inr (r, refl, go ((decide_channel_transition_iff (known_state r) target none).0 h).3)
  where
    go :
        Move (known_state r) target none
        → (r.sequence <ℤ target.sequence) ⊎ (channel_record target ≡ r)
    go (advance up) = inl up
    go (replay same) = inr (ap channel_record same)

-- A promotion that succeeds moved the channel to the asked revision, which is stored and verified and
-- belongs to the profile; the transition was accepted without an event from the record that the channel
-- had when it was written, so its sequence did not fall; only this channel's row changed, and it reads
-- as the answer.
pub promote_channel-Moved :
    (api : Api) (read now after : Database) (profile channel revision : Bytes) (c : ChannelRecord)
    → promote_channel api read now profile channel revision ≡ ok (c, after)
    → Moved api read now profile channel revision none c after
      × NoLower (find_channel profile channel now.channels) c
promote_channel-Moved api read now after profile channel revision c h =
    let m = promote_parts api read now after profile channel revision c h in
    (
      m,
      rw (m.written) (
          known-NoLower (find_channel profile channel now.channels) (state_of channel m.target)
            m.decided),
    )

-- The text parses, under a trusted key that it names, to the event.
pub record IsSigned (api : Api) (raw : Bytes) (event : VerifiedRollbackEvent) : Type 0 where
  pub key_id : Bytes
  pub key : Bytes
  pub names : api.signature_key_id raw ≡ some key_id
  pub trusted : api.public_key key_id ≡ ok key
  pub parsed : api.parse_rollback raw key ≡ some event

verified_event-IsSigned :
    (api : Api) (raw : Bytes) (event : VerifiedRollbackEvent)
    → verified_event api raw ≡ ok event
    → IsSigned api raw event
unfolding verified_event
verified_event-IsSigned api raw event h =
    let (key_id, names, h₁) = bind_ok (required _ (api.signature_key_id raw)) _ h in
    let (key, trusted, fin) = bind_ok (answer key_refusal (api.public_key key_id)) _ h₁ in
    record {
      key_id = key_id;
      key = key;
      names = required_ok _ _ names;
      trusted = answer_ok key_refusal _ trusted;
      parsed = required_ok _ _ fin;
    }

some_known :
    (known : Option ChannelRecord) → is_some known ≡ true → (r : ChannelRecord) × (known ≡ some r)
some_known none h = cc
some_known (some r) h = (r, refl)

event-lower :
    (r : ChannelRecord) (target : ChannelState) (event : VerifiedRollbackEvent)
    → Move (known_state r) target (some event)
    → (target.sequence <ℤ r.sequence) × Binds event (known_state r) target
event-lower r target _ (rollback event down binds) = (down, binds)

Moved-lower :
    (api : Api) (read now after : Database) (profile channel revision : Bytes)
    (event : VerifiedRollbackEvent) (c r : ChannelRecord)
    → Moved api read now profile channel revision (some event) c after
    → find_channel profile channel now.channels ≡ some r
    → (c.sequence <ℤ r.sequence)
      × (event.statement.from_revision_id ≡ r.revision_id)
      × (event.statement.to_revision_id ≡ c.revision_id)
Moved-lower api read now after profile channel revision event c r m found =
    let target = state_of channel m.target in
    let decided : decide_channel_transition (some (known_state r)) target (some event) ≡ ok tt =
      ap (λ k. decide_channel_transition (known_of k) target (some event)) (sym found)
      ∙ m.decided in
    let (down, binds) =
      event-lower r target event
        ((decide_channel_transition_iff (known_state r) target (some event)).0 decided).3 in
    rw (m.written) (down, binds.from_revision, binds.to_revision)

-- A rollback that succeeds moved an existing channel to the asked revision, which is stored and verified
-- and belongs to the profile, under an event that a trusted key signed and that names this channel, the
-- record that it had when it was written, and the revision, whose sequence is lower; only this
-- channel's row changed, and it reads as the answer.
pub rollback_channel-Moved :
    (api : Api) (read now after : Database) (profile channel revision raw_event : Bytes)
    (c : ChannelRecord)
    → rollback_channel api read now profile channel revision raw_event ≡ ok (c, after)
    → (event : VerifiedRollbackEvent) × (known : ChannelRecord) × IsSigned api raw_event event
      × Moved api read now profile channel revision (some event) c after
      × (find_channel profile channel now.channels ≡ some known)
      × (c.sequence <ℤ known.sequence)
      × (event.statement.from_revision_id ≡ known.revision_id)
      × (event.statement.to_revision_id ≡ c.revision_id)
unfolding rollback_channel
rollback_channel-Moved api read now after profile channel revision raw_event c h =
    let (target, loaded, h₁) =
      bind_ok (answer candidate_refusal (load_candidate api read profile channel revision)) _ h in
    let (known, current, h₂) =
      bind_ok (answer state_unavailable (load_channel read profile channel)) _ h₁ in
    let (u, there, h₃) = bind_ok (reject (not (is_some known)) _) _ h₂ in
    let (event, signed, fin) = bind_ok (verified_event api raw_event) _ h₃ in
    let (r, known_r) = some_known known (ground arith) in
    let (m, found) =
      move_channel_ok api read now after profile channel revision
        "rollback statement does not bind the current and target channel heads" known target
        (some event) c (answer_ok candidate_refusal _ loaded) fin in
    let found_r : find_channel profile channel now.channels ≡ some r = found ∙ known_r in
    let (down, from_here, to_there) =
      Moved-lower api read now after profile channel revision event c r m found_r in
    (
      event,
      r,
      verified_event-IsSigned api raw_event event signed,
      m,
      found_r,
      down,
      from_here,
      to_there,
    )
