-- ===== src/Testauth/Admission.antt =====
-- Which requests the middleware lets through.
use boot_optim_distribution.Base.{
  int_eq, All, lookup, bind_ok, Bytes, bytes_eq, eq_iff, nat_eq, bool_eq, Bool-cases, Option-cases,
  ok, ℕ, ◌+◌, ◌≤◌, ◌<◌, ◌≡◌, ap, ◌∙◌, ◌↔◌, inl, inr, true, false, some, List, ◌++◌, arith,
}
use boot_optim_distribution.Testauth.{
  Manager, Request, too_many_auth_failures, served, FailureWindow, failure_window, max_failures,
  Stage, answered, Visits, next_stage, judge, blocked, bearer, agent_label, accepts, respond_agent,
  handle, TokenStore, rotate, token_prefix,
}
use boot_optim_distribution.Testauth.Interleave.{Move, IsGoOn, run, run-hash}

-- Twenty failures of the client are on record, in a window that is not over.
pub record IsBlocked (m : Manager) (now : ℕ) (client : Bytes) : Type 0 where
  pub window : FailureWindow
  pub known : lookup client m.failures ≡ some window
  pub running : now < window.start + failure_window
  pub full : max_failures ≤ window.count

blocked-IsBlocked :
    (m : Manager) (now : ℕ) (client : Bytes)
    → (blocked m now client).0 ≡ true
    → IsBlocked m now client
unfolding blocked
blocked-IsBlocked m now client h = elim (Option-cases (lookup client m.failures)) [
  | inl e ↦ absurd (ground arith)
  | inr (w, e) ↦ record { window = w; known = e; running = ground arith; full = ground arith }
]

IsBlocked-blocked :
    (m : Manager) (now : ℕ) (client : Bytes)
    → IsBlocked m now client
    → (blocked m now client).0 ≡ true
unfolding blocked
IsBlocked-blocked m now client b = ground (arith, b.known, b.running, b.full)

module _ (sha256 trim_space : Bytes → Bytes) where
  -- The request carries a token with the hash that it finds, and its label is in order.
  pub record IsAdmitted (v : Visits) (r : Request) (agent : Bytes) : Type 0 where
    pub free : (blocked v.at_check v.check_time r.client).0 ≡ false
    pub ready : v.at_read.ready ≡ true
    pub token : Bytes
    pub presented : bearer sha256 trim_space r.authorization ≡ some token
    pub matches : sha256 token ≡ v.at_read.hash
    pub label : agent_label sha256 trim_space r.agent ≡ some agent

  accepts_ok :
      (m : Manager) (header : Bytes)
      → accepts sha256 trim_space m header ≡ true
      → (token : Bytes) × (bearer sha256 trim_space header ≡ some token) × (sha256 token ≡ m.hash)
  unfolding accepts
  accepts_ok m header h = elim (Option-cases (bearer sha256 trim_space header)) [
    | inl e ↦ absurd (ground arith)
    | inr (t, e) ↦ (t, e, ground (arith, eq_iff (sha256 t) m.hash))
  ]

  respond_agent_ok :
      (value agent : Bytes)
      → respond_agent sha256 trim_space value ≡ served agent
      → agent_label sha256 trim_space value ≡ some agent
  unfolding respond_agent
  respond_agent_ok value agent h = elim (Option-cases (agent_label sha256 trim_space value)) [
    | inl e ↦ absurd (ground arith)
    | inr (a, e) ↦ e ∙ ap some (ground arith)
  ]

  handle-IsAdmitted :
      (v : Visits) (r : Request) (agent : Bytes)
      → handle sha256 trim_space v r ≡ answered (served agent)
      → IsAdmitted v r agent
  unfolding handle next_stage judge
  handle-IsAdmitted v r agent h = elim (Bool-cases (blocked v.at_check v.check_time r.client).0) [
    | inl stopped ↦ absurd (ground (arith, h, stopped))
    | inr free ↦
        let ready : v.at_read.ready ≡ true = ground (arith, h, free) in
        let good : accepts sha256 trim_space v.at_read r.authorization ≡ true =
          ground (arith, h, free, ready) in
        let labelled : respond_agent sha256 trim_space r.agent ≡ served agent =
          ground (arith, h, free, ready, good) in
        let (token, presented, matches) = accepts_ok v.at_read r.authorization good in
        record {
          free = free;
          ready = ready;
          token = token;
          presented = presented;
          matches = matches;
          label = respond_agent_ok r.agent agent labelled;
        }
  ]

  accepts_of :
      (m : Manager) (header token : Bytes)
      → bearer sha256 trim_space header ≡ some token
      → sha256 token ≡ m.hash
      → accepts sha256 trim_space m header ≡ true
  unfolding accepts
  accepts_of m header token e h = ground (arith, e, (eq_iff (sha256 token) m.hash).1 h)

  IsAdmitted-handle :
      (v : Visits) (r : Request) (agent : Bytes)
      → IsAdmitted v r agent
      → handle sha256 trim_space v r ≡ answered (served agent)
  unfolding handle next_stage judge
  IsAdmitted-handle v r agent a =
      let good : accepts sha256 trim_space v.at_read r.authorization ≡ true =
        accepts_of v.at_read r.authorization a.token a.presented a.matches in
      let labelled : respond_agent sha256 trim_space r.agent ≡ served agent =
        unfold respond_agent in rw (a.label, respond_agent) in
      ground (arith, a.free, a.ready, good, labelled)

-- Whatever other requests and rotations come in between: a request is served, under an owner label,
-- exactly when its client is not blocked when it comes in, a token is set when it reads the hash, the
-- header carries a token whose hash is that one, and the label is in order.
pub handle-served_iff :
    (sha256 trim_space : Bytes → Bytes) (v : Visits) (r : Request) (agent : Bytes)
    → (handle sha256 trim_space v r ≡ answered (served agent))
      ↔ IsAdmitted sha256 trim_space v r agent
handle-served_iff sha256 trim_space v r agent =
    (handle-IsAdmitted sha256 trim_space v r agent, IsAdmitted-handle sha256 trim_space v r agent)

-- A request is turned away before its token is looked at exactly when its client has twenty failures
-- on record, when it comes in, in a window that is not over.
pub handle-IsBlocked_iff :
    (sha256 trim_space : Bytes → Bytes) (v : Visits) (r : Request)
    → (handle sha256 trim_space v r ≡ answered too_many_auth_failures)
      ↔ IsBlocked v.at_check v.check_time r.client
unfolding handle next_stage judge respond_agent
handle-IsBlocked_iff sha256 trim_space v r = (
  λ h. blocked-IsBlocked v.at_check v.check_time r.client (ground (arith, h)),
  λ b. (let stop = IsBlocked-blocked v.at_check v.check_time r.client b in ground (arith, stop)),
)

-- After a rotation, and until the next one, whatever requests are worked on since: a request that reads
-- the hash then and is served carries a token with the hash of the new token.
pub rotate-served :
    {S : Type 0} (sha256 trim_space hex_encode base64 : Bytes → Bytes) (store : TokenStore S)
    (m m' : Manager) (s s' : S) (raw token agent : Bytes) (now : ℕ) (rs : List (Request × Stage))
    (moves : List Move) (v : Visits) (r : Request)
    → rotate sha256 hex_encode base64 store m s raw now ≡ ok (token, m', s')
    → All IsGoOn moves
    → v.at_read ≡ (run sha256 trim_space m' rs moves).0
    → handle sha256 trim_space v r ≡ answered (served agent)
    → (presented : Bytes) × (bearer sha256 trim_space r.authorization ≡ some presented)
      × (sha256 presented ≡ sha256 token)
unfolding rotate
rotate-served sha256 trim_space hex_encode base64 store m m' s s' raw token agent now rs moves v r h
      others e served_now =
    let hash = sha256 (token_prefix ++ base64 raw) in
    let (next, _, fin) = bind_ok (store.set_test_token_hash s (hex_encode hash) now) _ h in
    let a = handle-IsAdmitted sha256 trim_space v r agent served_now in
    let hashed : m'.hash ≡ sha256 token = ground arith in
    let read : v.at_read.hash ≡ m'.hash =
      ap (λ n. n.hash) e ∙ run-hash sha256 trim_space m' rs moves others in
    (a.token, a.presented, a.matches ∙ read ∙ hashed)
