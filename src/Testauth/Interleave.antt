-- ===== src/Testauth/Interleave.antt =====
-- internal/testauth/testauth.go: requests that the server works on at the same time, as sequences of their
-- locked sections.
use boot_optim_distribution.Base.{
  int_eq, All, lookup, Bytes, bytes_eq, if◌then◌else◌, ◌==◌, nat_eq, bool_eq, Option-cases, ℕ, zero,
  suc, ◌+◌, ◌≡◌, refl, ap, ◌∙◌, Bool, true, false, ◌&&◌, List, [], ◌∷◌, arith,
}
use boot_optim_distribution.Testauth.{
  Manager, Request, invalid_token, Stage, waiting, let_in, wrong, answered, blocked, fail,
  next_stage, with_token,
}

-- Requests that have just come in.
unfoldable pub all_waiting : List Request → List (Request × Stage)
all_waiting [] = []
all_waiting (r ∷ rs) = (r, waiting) ∷ all_waiting rs

-- The request with this number goes on by one section, or a rotation leaves a hash, at a time of the clock.
pub data Move : Type 0 where
  go_on : ℕ → ℕ → Move
  new_token : Bytes → ℕ → Move

abbrev pub time_of : Move → ℕ
time_of (go_on i now) = now
time_of (new_token hash now) = now

-- The move is no rotation.
abbrev pub IsGoOn : Move → Type 0
IsGoOn (go_on i now) = Unit
IsGoOn (new_token hash now) = ⊥

module _ (sha256 trim_space : Bytes → Bytes) where
  -- The request with this number goes on by one section; past the last number nothing does.
  unfoldable pub step_at :
      Manager → ℕ → ℕ → List (Request × Stage) → Manager × List (Request × Stage)
  step_at m now i [] = (m, [])
  step_at m now zero ((r, stage) ∷ rest) =
      let (stage', m') = next_stage sha256 trim_space m now r stage in (m', (r, stage') ∷ rest)
  step_at m now (suc i) (first ∷ rest) =
      let (m', rest') = step_at m now i rest in (m', first ∷ rest')

  unfoldable pub step : Manager → Move → List (Request × Stage) → Manager × List (Request × Stage)
  step m (go_on i now) rs = step_at m now i rs
  step m (new_token hash now) rs = (with_token m hash now, rs)

  unfoldable pub run :
      Manager → List (Request × Stage) → List Move → Manager × List (Request × Stage)
  run m rs [] = (m, rs)
  run m rs (move ∷ moves) = let (m', rs') = step m move rs in run m' rs' moves

  next_stage-hash :
      (m : Manager) (now : ℕ) (r : Request) (stage : Stage)
      → (next_stage sha256 trim_space m now r stage).1.hash ≡ m.hash
  unfolding next_stage blocked fail
  next_stage-hash m now r waiting = ground (arith, Option-cases (lookup r.client m.failures))
  next_stage-hash m now r let_in = refl
  next_stage-hash m now r wrong = refl
  next_stage-hash m now r (answered response) = refl

  step_at-hash :
      (m : Manager) (now i : ℕ) (rs : List (Request × Stage)) → (step_at m now i rs).0.hash ≡ m.hash
  unfolding step_at
  step_at-hash m now i [] = refl
  step_at-hash m now zero ((r, stage) ∷ rest) = next_stage-hash m now r stage
  step_at-hash m now (suc i) (first ∷ rest) = step_at-hash m now i rest

  step-hash :
      (m : Manager) (move : Move) (rs : List (Request × Stage))
      → IsGoOn move
      → (step m move rs).0.hash ≡ m.hash
  unfolding step
  step-hash m (go_on i now) rs goes = step_at-hash m now i rs
  step-hash m (new_token hash now) rs goes = absurd goes

  pub run-hash :
      (m : Manager) (rs : List (Request × Stage)) (moves : List Move)
      → All IsGoOn moves
      → (run m rs moves).0.hash ≡ m.hash
  unfolding run
  run-hash m rs [] h = refl
  run-hash m rs (move ∷ moves) h =
      run-hash (step m move rs).0 (step m move rs).1 moves h.1 ∙ step-hash m move rs h.0

-- The request has an answer 401.
unfoldable pub is_refused : Stage → Bool
is_refused (answered invalid_token) = true
is_refused _ = false

-- The request is past `blocked` and has no answer yet.
unfoldable pub is_open : Stage → Bool
is_open let_in = true
is_open wrong = true
is_open _ = false

unfoldable pub one : (Stage → Bool) → Bytes → Request → Stage → ℕ
one p client r stage = if r.client == client && p stage then 1 else 0

-- How many requests of the client are at such a stage.
unfoldable pub count_of : (Stage → Bool) → Bytes → List (Request × Stage) → ℕ
count_of p client [] = 0
count_of p client ((r, stage) ∷ rest) = one p client r stage + count_of p client rest

pub count_of-waiting :
    (p : Stage → Bool) (client : Bytes) (rs : List Request)
    → p waiting ≡ false
    → count_of p client (all_waiting rs) ≡ 0
unfolding count_of all_waiting one
count_of-waiting p client [] h = refl
count_of-waiting p client (r ∷ rs) h = ground (arith, h, count_of-waiting p client rs h)

module _ (sha256 trim_space : Bytes → Bytes) (m : Manager) (now : ℕ) where
  -- One request goes on, or none; the others stay where they are.
  pub data Moved (rs : List (Request × Stage)) (m' : Manager) (rs' : List (Request × Stage))
      : Type 0 where
    none_moved : m' ≡ m → rs' ≡ rs → Moved rs m' rs'
    one_moved :
        (r : Request) (stage : Stage)
        → m' ≡ (next_stage sha256 trim_space m now r stage).1
        → ((p : Stage → Bool) (client : Bytes)
            → count_of p client rs' + one p client r stage
              ≡ count_of p client rs
                + one p client r (next_stage sha256 trim_space m now r stage).0)
        → Moved rs m' rs'

  pub step_at-Moved :
      (i : ℕ) (rs : List (Request × Stage))
      → Moved rs (step_at sha256 trim_space m now i rs).0 (step_at sha256 trim_space m now i rs).1
  unfolding step_at count_of
  step_at-Moved i [] = none_moved refl refl
  step_at-Moved zero ((r, stage) ∷ rest) = one_moved r stage refl (λ p client. omega arith)
  step_at-Moved (suc i) ((q, other) ∷ rest) = elim (step_at-Moved i rest) [
    | none_moved same_m same_rs ↦ none_moved same_m (ap (λ t. (q, other) ∷ t) same_rs)
    | one_moved r stage same_m counts ↦
        one_moved r stage same_m (λ p client. (let c = counts p client in omega (arith, c)))
  ]
