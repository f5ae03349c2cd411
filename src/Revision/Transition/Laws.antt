-- ===== src/Revision/Transition/Laws.antt =====
-- What `DecideChannelTransition` lets a channel do, step by step and over a history.
use boot_optim_distribution.Base.{
  ◌<ℤ◌, ltb_ℤ, int_eq, bytes_eq, ◌==◌, eq_iff, eq_refl, nat_eq, bool_eq, ltb→lt, Bool-cases, ok,
  err, ◌≡◌, refl, sym, ◌∙◌, ◌≢◌, ◌↔◌, ◌⊎◌, inl, inr, true, false, Option, none, some, arith,
}
use boot_optim_distribution.Revision.Types.{ChannelState, VerifiedRollbackEvent}
use boot_optim_distribution.Revision.Transition.{
  rollback_required, well_formed_head, well_formed_channel, binds, decide_from,
  decide_channel_transition,
}

-- The event is about this move of this channel.
pub record Binds (event : VerifiedRollbackEvent) (known candidate : ChannelState) : Type 0 where
  pub profile : event.statement.profile_id ≡ known.profile_id
  pub channel : event.statement.channel ≡ known.channel
  pub from_revision : event.statement.from_revision_id ≡ known.revision_id
  pub from_sequence : event.statement.from_sequence ≡ known.sequence
  pub to_revision : event.statement.to_revision_id ≡ candidate.revision_id

-- The moves that are meant to be accepted.
pub data Move (known candidate : ChannelState) : Option VerifiedRollbackEvent → Type 0 where
  advance : known.sequence <ℤ candidate.sequence → Move known candidate none
  replay : candidate ≡ known → Move known candidate none
  rollback :
      (event : VerifiedRollbackEvent)
      → candidate.sequence <ℤ known.sequence
      → Binds event known candidate
      → Move known candidate (some event)

binds-Binds :
    (event : VerifiedRollbackEvent) (known candidate : ChannelState)
    → binds event known candidate ≡ true
    → Binds event known candidate
unfolding binds
binds-Binds event known candidate h =
    let s = event.statement in
    ground (
      arith,
      eq_iff s.profile_id known.profile_id,
      eq_iff s.channel known.channel,
      eq_iff s.from_revision_id known.revision_id,
      eq_iff s.to_revision_id candidate.revision_id,
      eq_iff s.from_sequence known.sequence,
    )

Binds-binds :
    (event : VerifiedRollbackEvent) (known candidate : ChannelState)
    → Binds event known candidate
    → binds event known candidate ≡ true
unfolding binds
Binds-binds event known candidate h =
    let s = event.statement in
    ground (
      arith,
      eq_iff s.profile_id known.profile_id,
      eq_iff s.channel known.channel,
      eq_iff s.from_revision_id known.revision_id,
      eq_iff s.to_revision_id candidate.revision_id,
      eq_iff s.from_sequence known.sequence,
    )

abbrev pub SameChannel : ChannelState → ChannelState → Type 0
SameChannel a b = (a.profile_id ≡ b.profile_id) × (a.channel ≡ b.channel)

-- The state can be the head of a channel.
abbrev pub IsHead : ChannelState → Type 0
IsHead c = (well_formed_channel c ≡ true) × (well_formed_head c ≡ true)

module _ (known candidate : ChannelState) (event : Option VerifiedRollbackEvent) where
  entry_ok :
      decide_channel_transition (some known) candidate event ≡ ok tt
      → IsHead candidate
        × (well_formed_head known ≡ true)
        × SameChannel known candidate
        × (decide_from known candidate event ≡ ok tt)
  unfolding decide_channel_transition
  entry_ok h =
      ground (
        arith,
        eq_iff known.profile_id candidate.profile_id,
        eq_iff known.channel candidate.channel,
      )

  entry_pass :
      IsHead candidate
      → well_formed_head known ≡ true
      → SameChannel known candidate
      → decide_channel_transition (some known) candidate event ≡ decide_from known candidate event
  unfolding decide_channel_transition
  entry_pass h k s =
      ground (
        arith,
        eq_iff known.profile_id candidate.profile_id,
        eq_iff known.channel candidate.channel,
      )

state-eq :
    (a b : ChannelState)
    → SameChannel a b
    → a.revision_id ≡ b.revision_id
    → a.sequence ≡ b.sequence
    → a.manifest_sha256 ≡ b.manifest_sha256
    → a ≡ b
state-eq a b s r q m = cc (s.0, s.1)

module _ (known candidate : ChannelState) where
  lower_of :
      ltb_ℤ known.sequence candidate.sequence ≡ false
      → (candidate.sequence == known.sequence) ≡ false
      → candidate.sequence <ℤ known.sequence
  lower_of p q = ground arith

  from-Move :
      (event : Option VerifiedRollbackEvent)
      → SameChannel known candidate
      → decide_from known candidate event ≡ ok tt
      → Move known candidate event
  unfolding decide_from
  from-Move none s h = elim (Bool-cases (ltb_ℤ known.sequence candidate.sequence)) [
    | inl up ↦ advance (ltb→lt _ _ up)
    | inr p ↦ replay (
        state-eq candidate known (sym s.0, sym s.1)
          (ground (arith, eq_iff candidate.revision_id known.revision_id))
          (ground (arith, eq_iff candidate.sequence known.sequence))
          (ground (arith, eq_iff candidate.manifest_sha256 known.manifest_sha256)))
  ]
  from-Move (some e) s h = rollback e (ground arith) (binds-Binds e known candidate (ground arith))

  Move-from :
      (event : Option VerifiedRollbackEvent)
      → Move known candidate event
      → decide_from known candidate event ≡ ok tt
  unfolding decide_from
  Move-from _ (advance h) = ground arith
  Move-from _ (replay e) =
      rw e (ground (arith, eq_refl known.revision_id, eq_refl known.manifest_sha256))
  Move-from _ (rollback e h b) = ground (arith, Binds-binds e known candidate b)

-- From a known head a candidate is accepted exactly when it is a head of the same channel and the
-- move is an advance or an exact replay with no rollback event, or a move to a lower sequence with
-- an event that names this channel, where it stands, and the candidate.
pub decide_channel_transition_iff :
    (known candidate : ChannelState) (event : Option VerifiedRollbackEvent)
    → (decide_channel_transition (some known) candidate event ≡ ok tt) ↔ (
        IsHead candidate
        × (well_formed_head known ≡ true)
        × SameChannel known candidate
        × Move known candidate event)
decide_channel_transition_iff known candidate event = (
  λ h.
      let p = entry_ok known candidate event h in
      (p.0, p.1, p.2, from-Move known candidate event p.2 p.3),
  λ p. entry_pass known candidate event p.0 p.1 p.2 ∙ Move-from known candidate event p.3,
)

module _ (known candidate : ChannelState) (event : Option VerifiedRollbackEvent) where
  entry_required :
      decide_channel_transition (some known) candidate event ≡ err rollback_required
      → IsHead candidate
        × (well_formed_head known ≡ true)
        × SameChannel known candidate
        × (decide_from known candidate event ≡ err rollback_required)
  unfolding decide_channel_transition
  entry_required h =
      ground (
        arith,
        eq_iff known.profile_id candidate.profile_id,
        eq_iff known.channel candidate.channel,
      )

  from_required :
      decide_from known candidate event ≡ err rollback_required
      → (candidate.sequence <ℤ known.sequence) × (event ≡ none)
  unfolding decide_from
  from_required h = ground arith

  required_from :
      candidate.sequence <ℤ known.sequence
      → event ≡ none
      → decide_from known candidate event ≡ err rollback_required
  unfolding decide_from
  required_from h e = ground arith

known_required :
    (known candidate : ChannelState) (event : Option VerifiedRollbackEvent)
    → (decide_channel_transition (some known) candidate event ≡ err rollback_required) ↔ (
        IsHead candidate
        × (well_formed_head known ≡ true)
        × SameChannel known candidate
        × (candidate.sequence <ℤ known.sequence)
        × (event ≡ none))
known_required known candidate event = (
  λ h.
      let p = entry_required known candidate event h in
      let q = from_required known candidate event p.3 in (p.0, p.1, p.2, q.0, q.1),
  λ p. entry_pass known candidate event p.0 p.1 p.2 ∙ required_from known candidate event p.3 p.4,
)

first_never_required :
    (candidate : ChannelState) (event : Option VerifiedRollbackEvent)
    → decide_channel_transition none candidate event ≢ err rollback_required
unfolding decide_channel_transition
first_never_required candidate event h = ground (arith, h)

-- A candidate is refused with `ErrRollbackRequired` exactly when there is a known head of its channel,
-- both are well formed, its sequence is lower than the head's, and there is no event. So a first head
-- never is.
pub rollback_required_iff :
    (before : Option ChannelState) (candidate : ChannelState) (event : Option VerifiedRollbackEvent)
    → (decide_channel_transition before candidate event ≡ err rollback_required) ↔ (
        (known : ChannelState) × (before ≡ some known)
        × IsHead candidate
        × (well_formed_head known ≡ true)
        × SameChannel known candidate
        × (candidate.sequence <ℤ known.sequence)
        × (event ≡ none))
rollback_required_iff none candidate event =
    (λ h. absurd (first_never_required candidate event h), λ p. cc (p.1))
rollback_required_iff (some known) candidate event = (
  λ h.
      (let (a, b, c, d, e) = (known_required known candidate event).0 h in
        (known, refl, a, b, c, d, e)),
  λ p.
      let (other, same, a, b, c, d, e) = p in
      let known_one : other ≡ known = cc in
      (known_required known candidate event).1
        (a, rw known_one at b, rw known_one at c, rw known_one at d, e),
)

event_of :
    {known candidate : ChannelState} {event : VerifiedRollbackEvent}
    → Move known candidate (some event)
    → (candidate.sequence <ℤ known.sequence) × Binds event known candidate
event_of (rollback event h b) = (h, b)

lower_once :
    (known candidate third : ChannelState) (event : VerifiedRollbackEvent)
    → Move known candidate (some event)
    → Move candidate third (some event)
    → ⊥
lower_once known candidate third event m n =
    let same : known.sequence ≡ candidate.sequence =
      sym (event_of m).1.from_sequence ∙ (event_of n).1.from_sequence in
    let lower = (event_of m).0 in ground arith

ascends :
    {known candidate : ChannelState}
    → Move known candidate none
    → (known.sequence <ℤ candidate.sequence) ⊎ (known ≡ candidate)
ascends (advance h) = inl h
ascends (replay e) = inr (sym e)

-- An event that took a channel down is of no use for a second move from where it led.
pub no_second_rollback :
    (known candidate third : ChannelState) (event : VerifiedRollbackEvent)
    → decide_channel_transition (some known) candidate (some event) ≡ ok tt
    → decide_channel_transition (some candidate) third (some event) ≢ ok tt
no_second_rollback known candidate third event h k =
    let p = (decide_channel_transition_iff known candidate (some event)).0 h in
    let q = (decide_channel_transition_iff candidate third (some event)).0 k in
    lower_once known candidate third event p.3 q.3

-- Moves accepted one after the other with no rollback event.
pub data History (start : ChannelState) : ChannelState → Type 0 where
  here : History start start
  step :
      {now next : ChannelState}
      → History start now
      → decide_channel_transition (some now) next none ≡ ok tt
      → History start next

ascends_trans :
    (a b c : ChannelState)
    → (a.sequence <ℤ b.sequence) ⊎ (a ≡ b)
    → (b.sequence <ℤ c.sequence) ⊎ (b ≡ c)
    → (a.sequence <ℤ c.sequence) ⊎ (a ≡ c)
ascends_trans a b c (inl h) (inl k) = inl (omega arith)
ascends_trans a b c (inl h) (inr e) = inl (rw (← e) h)
ascends_trans a b c (inr e) k = rw e k

-- A history without rollback events stays in its channel, and it ends at a higher sequence or in the
-- very state it began with.
pub History-ascends :
    (start now : ChannelState)
    → History start now
    → SameChannel start now × ((start.sequence <ℤ now.sequence) ⊎ (start ≡ now))
History-ascends start _ here = ((refl, refl), inr refl)
History-ascends start _ (step {now} {next} h accepted) =
    let p = (decide_channel_transition_iff now next none).0 accepted in
    let (same, before) = History-ascends start now h in
    ((same.0 ∙ p.2.0, same.1 ∙ p.2.1), ascends_trans start now next before (ascends p.3))
