-- ===== src/Testauth/Limit.antt =====
-- How many wrong tokens one client can try, when requests are worked on at the same time.
use boot_optim_distribution.Base.{
  int_eq, length, All, lookup, lookup-delete, lookup-insert, Bytes, bytes_eq, ltb, if◌then◌else◌,
  ◌==◌, eq_iff, nat_eq, bool_eq, Bool-cases, Option-cases, ℕ, ◌+◌, ◌≤◌, ◌<◌, ◌≡◌, refl, ap, ◌∙◌,
  inl, inr, false, Option, none, some, List, [], ◌∷◌, arith,
}
use boot_optim_distribution.Testauth.{
  Manager, Request, invalid_token, FailureWindow, expired, failure_window, max_failures, live,
  counted, blocked, fail, respond_agent, judge, next_stage, Stage, waiting, let_in, wrong, answered,
}
use boot_optim_distribution.Testauth.Interleave.{
  Move, go_on, new_token, time_of, step, all_waiting, step_at, run, is_refused, is_open, one,
  count_of, count_of-waiting, none_moved, one_moved, step_at-Moved,
}

-- All the moves are made at `from` or later, and less than a window after it.
abbrev pub Within : ℕ → List Move → Type 0
Within from moves =
    All (λ move. (from ≤ time_of move) × (time_of move < from + failure_window)) moves

-- No window of the client, or one that opened at `from` or later.
abbrev Recent : ℕ → Option FailureWindow → Type 0
Recent from none = Unit
Recent from (some w) = from ≤ w.start

-- The failures on record.
abbrev recorded : Option FailureWindow → ℕ
recorded none = 0
recorded (some w) = w.count

lookup-live :
    (now : ℕ) (client : Bytes) (w : FailureWindow) (table : List (Bytes × FailureWindow))
    → lookup client table ≡ some w
    → expired now w ≡ false
    → lookup client (live now table) ≡ some w
unfolding lookup live
lookup-live now client w [] h k = cc
lookup-live now client w ((key, v) ∷ rest) h k = ground (arith, lookup-live now client w rest)

kept_of : Manager → ℕ → List (Bytes × FailureWindow)
kept_of m now = if ltb 4096 (length m.failures) then live now m.failures else m.failures

kept-lookup :
    (m : Manager) (now : ℕ) (client : Bytes) (w : FailureWindow)
    → lookup client m.failures ≡ some w
    → expired now w ≡ false
    → lookup client (kept_of m now) ≡ some w
unfolding kept_of
kept-lookup m now client w h k = ground (arith, lookup-live now client w m.failures h k)

live-none :
    (now : ℕ) (client : Bytes) (table : List (Bytes × FailureWindow))
    → lookup client table ≡ none
    → lookup client (live now table) ≡ none
unfolding lookup live
live-none now client [] h = h
live-none now client ((key, v) ∷ rest) h = ground (arith, live-none now client rest)

module _ (from : ℕ) (client : Bytes) (now : ℕ) where
  -- The client's window is not over, so the cleaning leaves it.
  kept-same :
      (m : Manager) (o : Option FailureWindow)
      → now < from + failure_window
      → Recent from o
      → lookup client m.failures ≡ o
      → lookup client (kept_of m now) ≡ o
  kept-same m none early recent h =
      unfold kept_of in ground (arith, live-none now client m.failures h)
  kept-same m (some w) early recent h = kept-lookup m now client w h (ground arith)

  blocked-lookup :
      (m : Manager) (other : Bytes) (o : Option FailureWindow)
      → now < from + failure_window
      → Recent from o
      → lookup client m.failures ≡ o
      → lookup client (blocked m now other).1.failures ≡ o
  unfolding blocked
  blocked-lookup m other none early recent h =
      ground (arith, Option-cases (lookup other m.failures), lookup-delete other client m.failures)
  blocked-lookup m other (some w) early recent h = ground (
    arith,
    Option-cases (lookup other m.failures),
    lookup-delete other client m.failures,
    eq_iff other client,
  )

  fail-lookup :
      (m : Manager) (other : Bytes)
      → lookup client (fail m now other).failures ≡ (
          if other == client
          then some (counted now (lookup other (kept_of m now)))
          else lookup client (kept_of m now))
  unfolding fail kept_of
  fail-lookup m other =
      lookup-insert other client (counted now (lookup other (kept_of m now))) (kept_of m now)

  counted-recorded :
      (o : Option FailureWindow)
      → from ≤ now
      → now < from + failure_window
      → Recent from o
      → (from ≤ (counted now o).start) × ((counted now o).count ≡ recorded o + 1)
  unfolding counted
  counted-recorded none late early recent = (late, refl)
  counted-recorded (some w) late early recent = ground arith

  free-recorded :
      (m : Manager) (o : Option FailureWindow)
      → now < from + failure_window
      → Recent from o
      → lookup client m.failures ≡ o
      → (blocked m now client).0 ≡ false
      → recorded o + 1 ≤ max_failures
  unfolding blocked
  free-recorded m none early recent h free = omega arith
  free-recorded m (some w) early recent h free = ground arith

module _ (sha256 trim_space : Bytes → Bytes) (k : ℕ) (client : Bytes) where
  -- At most `k` requests of the client are open, before the run and after each of its moves.
  unfoldable pub AtMostOpen : Manager → List (Request × Stage) → List Move → Type 0
  AtMostOpen m rs [] = count_of is_open client rs ≤ k
  AtMostOpen m rs (move ∷ moves) =
      (count_of is_open client rs ≤ k)
      × AtMostOpen (step sha256 trim_space m move rs).0 (step sha256 trim_space m move rs).1 moves

module _ (sha256 trim_space : Bytes → Bytes) (from k : ℕ) (client : Bytes) where
  -- The answers 401 are on record, and those that are still to come are of open requests.
  record Bounded (m : Manager) (refused open_now : ℕ) : Type 0 where
    found : Option FailureWindow
    known : lookup client m.failures ≡ found
    recent : Recent from found
    on_record : refused ≤ recorded found
    bound : refused + open_now + 1 ≤ max_failures + k

  judge-not_refused :
      (m : Manager) (r : Request) → (is_refused (judge sha256 trim_space m r) ≡ false)
  unfolding judge is_refused respond_agent
  judge-not_refused m r = ground arith

  waiting-Bounded :
      (m : Manager) (now : ℕ) (r : Request) (f p f' p' : ℕ)
      → (from ≤ now) × (now < from + failure_window)
      → Bounded m f p
      → p' ≤ k
      → f' + one is_refused client r waiting
        ≡ f + one is_refused client r (next_stage sha256 trim_space m now r waiting).0
      → p' + one is_open client r waiting
        ≡ p + one is_open client r (next_stage sha256 trim_space m now r waiting).0
      → Bounded (next_stage sha256 trim_space m now r waiting).1 f' p'
  unfolding next_stage one is_refused is_open
  waiting-Bounded m now r f p f' p' (late, early) b few refused opened =
      let known = blocked-lookup from client now m r.client b.found early b.recent b.known in
      let recent = b.recent in
      let same : f' ≡ f = ground (arith, refused) in
      let on_record : f' ≤ recorded b.found = (let h = b.on_record in omega arith) in
      let bound : f' + p' + 1 ≤ max_failures + k = elim (Bool-cases (blocked m now r.client).0) [
        | inl stopped ↦
            let p_same : p' ≡ p = ground (arith, opened, stopped) in let h = b.bound in omega arith
        | inr free ↦ elim (Bool-cases (r.client == client)) [
          | inr other ↦
              let p_same : p' ≡ p = ground (arith, opened, other) in let h = b.bound in omega arith
          | inl own ↦
              let mine : r.client ≡ client = (eq_iff r.client client).0 own in
              let left =
                free-recorded from client now m b.found early b.recent b.known (rw mine at free) in
              omega arith
        ]
      ] in
      record {
        found = b.found;
        known = known;
        recent = recent;
        on_record = on_record;
        bound = bound;
      }

  wrong-Bounded :
      (m : Manager) (now : ℕ) (r : Request) (f p f' p' : ℕ)
      → (from ≤ now) × (now < from + failure_window)
      → Bounded m f p
      → f' + one is_refused client r wrong ≡ f + one is_refused client r (answered invalid_token)
      → p' + one is_open client r wrong ≡ p + one is_open client r (answered invalid_token)
      → Bounded (fail m now r.client) f' p'
  unfolding one is_refused is_open
  wrong-Bounded m now r f p f' p' (late, early) b refused opened =
      let kept = kept-same from client now m b.found early b.recent b.known in
      let before = b.bound in
      let listed = b.on_record in
      elim (Bool-cases (r.client == client)) [
        | inr other ↦
            let same : f' ≡ f = ground (arith, refused, other) in
            let p_same : p' ≡ p = ground (arith, opened, other) in
            record {
              found = b.found;
              known = fail-lookup from client now m r.client ∙ rw other kept;
              recent = b.recent;
              on_record = omega arith;
              bound = omega arith;
            }
        | inl own ↦
            let more : f' ≡ f + 1 = ground (arith, refused, own) in
            let less : p' + 1 ≡ p = ground (arith, opened, own) in
            let mine : r.client ≡ client = (eq_iff r.client client).0 own in
            let found : lookup r.client (kept_of m now) ≡ b.found =
              ap (λ t. lookup t (kept_of m now)) mine ∙ kept in
            let (start, count) = counted-recorded from client now b.found late early b.recent in
            record {
              found = some (counted now b.found);
              known =
                  fail-lookup from client now m r.client
                  ∙ rw own (ap (λ t. some (counted now t)) found);
              recent = start;
              on_record = omega (arith, count);
              bound = omega arith;
            }
      ]

  next_stage-Bounded :
      (m : Manager) (now : ℕ) (r : Request) (stage : Stage) (f p f' p' : ℕ)
      → (from ≤ now) × (now < from + failure_window)
      → Bounded m f p
      → p' ≤ k
      → f' + one is_refused client r stage
        ≡ f + one is_refused client r (next_stage sha256 trim_space m now r stage).0
      → p' + one is_open client r stage
        ≡ p + one is_open client r (next_stage sha256 trim_space m now r stage).0
      → Bounded (next_stage sha256 trim_space m now r stage).1 f' p'
  unfolding next_stage one is_refused is_open
  next_stage-Bounded m now r waiting f p f' p' time b few refused opened =
      waiting-Bounded m now r f p f' p' time b few refused opened
  next_stage-Bounded m now r wrong f p f' p' time b few refused opened =
      wrong-Bounded m now r f p f' p' time b refused opened
  next_stage-Bounded m now r let_in f p f' p' time b few refused opened =
      let none_refused = judge-not_refused m r in
      let same : f' ≡ f = ground (arith, refused, none_refused) in
      let fewer : p' ≤ p = ground (arith, opened) in
      let before = b.bound in
      let listed = b.on_record in
      record {
        found = b.found;
        known = b.known;
        recent = b.recent;
        on_record = omega arith;
        bound = omega arith;
      }
  next_stage-Bounded m now r (answered response) f p f' p' time b few refused opened =
      let same : f' ≡ f = omega (arith, refused) in
      let p_same : p' ≡ p = omega (arith, opened) in
      let before = b.bound in
      let listed = b.on_record in
      record {
        found = b.found;
        known = b.known;
        recent = b.recent;
        on_record = omega arith;
        bound = omega arith;
      }

  AtMostOpen-now :
      (m : Manager) (rs : List (Request × Stage)) (moves : List Move)
      → AtMostOpen sha256 trim_space k client m rs moves
      → count_of is_open client rs ≤ k
  unfolding AtMostOpen
  AtMostOpen-now m rs [] h = h
  AtMostOpen-now m rs (move ∷ moves) h = h.0

  step_at-Bounded :
      (m : Manager) (now i : ℕ) (rs : List (Request × Stage))
      → (from ≤ now) × (now < from + failure_window)
      → count_of is_open client (step_at sha256 trim_space m now i rs).1 ≤ k
      → Bounded m (count_of is_refused client rs) (count_of is_open client rs)
      → Bounded
          (step_at sha256 trim_space m now i rs).0
          (count_of is_refused client (step_at sha256 trim_space m now i rs).1)
          (count_of is_open client (step_at sha256 trim_space m now i rs).1)
  step_at-Bounded m now i rs time few b = elim (step_at-Moved sha256 trim_space m now i rs) [
    | none_moved same_m same_rs ↦ rw (same_m, same_rs) b
    | one_moved r stage same_m counts ↦ rw same_m (
        next_stage-Bounded m now r stage _ _ _ _ time b few (counts is_refused client)
          (counts is_open client))
  ]

  step-Bounded :
      (m : Manager) (move : Move) (rs : List (Request × Stage))
      → (from ≤ time_of move) × (time_of move < from + failure_window)
      → count_of is_open client (step sha256 trim_space m move rs).1 ≤ k
      → Bounded m (count_of is_refused client rs) (count_of is_open client rs)
      → Bounded
          (step sha256 trim_space m move rs).0
          (count_of is_refused client (step sha256 trim_space m move rs).1)
          (count_of is_open client (step sha256 trim_space m move rs).1)
  unfolding step
  step-Bounded m (go_on i now) rs time few b = step_at-Bounded m now i rs time few b
  step-Bounded m (new_token hash now) rs time few b = record {
    found = b.found;
    known = b.known;
    recent = b.recent;
    on_record = b.on_record;
    bound = b.bound;
  }

  run-Bounded :
      (m : Manager) (rs : List (Request × Stage)) (moves : List Move)
      → Within from moves
      → AtMostOpen sha256 trim_space k client m rs moves
      → Bounded m (count_of is_refused client rs) (count_of is_open client rs)
      → count_of is_refused client (run sha256 trim_space m rs moves).1 + 1 ≤ max_failures + k
  unfolding run AtMostOpen
  run-Bounded m rs [] within few b = let h = b.bound in omega arith
  run-Bounded m rs (move ∷ moves) within few b =
      let m' = (step sha256 trim_space m move rs).0 in
      let rs' = (step sha256 trim_space m move rs).1 in
      run-Bounded m' rs' moves within.1 few.1
        (step-Bounded m move rs within.0 (AtMostOpen-now m' rs' moves few.1) b)

-- Of a client with no failures on record: of any requests that come in, of this client and of others,
-- worked on at the same time in any order of their locked sections, with rotations in between, less than
-- twenty plus `k` of the client are answered with 401 in the ten minutes from a start, where `k` is the
-- most requests of the client that are past `blocked` and not answered at one time.
pub refusals-bound :
    (sha256 trim_space : Bytes → Bytes) (from k : ℕ) (client : Bytes) (m : Manager)
    (rs : List Request) (moves : List Move)
    → lookup client m.failures ≡ none
    → Within from moves
    → AtMostOpen sha256 trim_space k client m (all_waiting rs) moves
    → count_of is_refused client (run sha256 trim_space m (all_waiting rs) moves).1
      < max_failures + k
unfolding is_refused is_open
refusals-bound sha256 trim_space from k client m rs moves clean within few =
    let nothing = count_of-waiting is_refused client rs refl in
    let idle = count_of-waiting is_open client rs refl in
    let bounded =
      run-Bounded sha256 trim_space from k client m (all_waiting rs) moves within few (record {
        found = none;
        known = clean;
        recent = tt;
        on_record = ground (arith, nothing);
        bound = ground (arith, nothing, idle);
      }) in
    omega arith
