-- ===== src/Testauth/Tests.antt =====
-- The theorems on the test token at concrete requests, with stand-ins for the library functions.
use boot_optim_distribution.Base.{
  int_eq, length, length-append, take, length-take, lookup, delete, insert, Bytes, codes, bytes_beq,
  bytes_eq, nat_eq, bool_eq, ok, ℕ, ◌+◌, ◌≤◌, ◌<◌, ◌≡◌, refl, ◌↔◌, true, false, Option, none, some,
  List, [], ◌∷◌, ◌++◌, arith,
}
use boot_optim_distribution.Testauth.{
  Manager, Request, served, max_failures, default_agent, after_folded, live, counted, blocked, fail,
  bearer, agent_label, accepts, respond_agent, handle, TokenStore, rotate, new_manager, status,
  Visits, failure_window, answered, next_stage, judge,
}
use boot_optim_distribution.Testauth.Admission.{IsAdmitted, handle-served_iff, rotate-served}
use boot_optim_distribution.Testauth.Restart.{rotate-new_manager}
use boot_optim_distribution.Testauth.Limit.{Within, AtMostOpen, refusals-bound}
use boot_optim_distribution.Testauth.Interleave.{
  Move, go_on, step, all_waiting, step_at, run, is_refused, is_open, one, count_of,
}

same : Bytes → Bytes
same bytes = bytes

-- A store of one row.
abbrev store : TokenStore (Option (Bytes × ℕ))
store = record {
  test_token_hash = λ row. ok row;
  set_test_token_hash = λ row hash time. ok (some (hash, time));
}

abbrev manager : Manager
manager = record { hash = codes "wbt_k"; created_at = 5; ready = true; failures = [] }

abbrev request : Bytes → Request
request header = record { client = codes "c"; authorization = header; agent = [] }

abbrev visits : Visits
visits = record {
  at_check = manager;
  check_time = 7;
  at_read = manager;
  at_count = manager;
  count_time = 8;
}

rotates :
    rotate same same same store (record manager { ready = false; hash = [] }) none (codes "k") 5
    ≡ ok (codes "wbt_k", manager, some (codes "wbt_k", 5))
unfolding same rotate
rotates = refl

serves : handle same same visits (request (codes "bearer wbt_k")) ≡ answered (served default_agent)
unfolding same handle next_stage judge blocked lookup accepts bearer after_folded respond_agent
    agent_label bytes_beq
serves = refl

handle-served_iff_example :
    (handle same same visits (request (codes "bearer wbt_k")) ≡ answered (served default_agent))
    ↔ IsAdmitted same same visits (request (codes "bearer wbt_k")) default_agent
handle-served_iff_example =
    handle-served_iff same same visits (request (codes "bearer wbt_k")) default_agent

rotate-served_example :
    (presented : Bytes) × (bearer same same (codes "bearer wbt_k") ≡ some presented)
    × (same presented ≡ same (codes "wbt_k"))
rotate-served_example =
    rotate-served same same same same store (record manager { ready = false; hash = [] }) manager
      none (some (codes "wbt_k", 5)) (codes "k") (codes "wbt_k") default_agent 5 [] [] visits
      (request (codes "bearer wbt_k")) rotates tt (unfold run in refl) serves

-- Two wrong tokens of one client, both past `blocked` before the first failure counts.
abbrev both : List Request
both = request (codes "bearer x") ∷ request (codes "bearer y") ∷ []

abbrev together : List Move
together = go_on 0 7 ∷ go_on 1 7 ∷ go_on 1 8 ∷ go_on 0 8 ∷ go_on 0 9 ∷ go_on 1 9 ∷ []

-- Nineteen failures are on record, and two more are answered with 401.
two_refusals :
    count_of is_refused
      (codes "c")
      (run same same
        (record manager { failures = (codes "c", record { start = 6; count = 19 }) ∷ [] })
        (all_waiting both)
        together).1
    ≡ 2
unfolding run step step_at all_waiting count_of one is_refused same next_stage judge blocked lookup
    delete insert fail live counted accepts bearer after_folded respond_agent agent_label bytes_beq
two_refusals = refl

two_open : AtMostOpen same same 2 (codes "c") manager (all_waiting both) together
unfolding AtMostOpen step step_at all_waiting count_of one is_open same next_stage judge blocked
    lookup delete insert fail live counted accepts bearer after_folded respond_agent agent_label
    bytes_beq
two_open = (
  omega arith,
  (omega arith, (omega arith, (omega arith, (omega arith, (omega arith, omega arith))))),
)

together-Within : Within 6 together
together-Within =
    let soon : (now : ℕ) → 6 ≤ now → now < 10 → (6 ≤ now) × (now < 6 + failure_window) =
      λ now late early. (late, omega arith) in
    (
      soon 7 (omega arith) (omega arith),
      (
        soon 7 (omega arith) (omega arith),
        (
          soon 8 (omega arith) (omega arith),
          (
            soon 8 (omega arith) (omega arith),
            (soon 9 (omega arith) (omega arith), (soon 9 (omega arith) (omega arith), tt)),
          ),
        ),
      ),
    )

refusals-bound_example :
    count_of is_refused (codes "c") (run same same manager (all_waiting both) together).1
    < max_failures + 2
unfolding lookup
refusals-bound_example =
    refusals-bound same same 6 2 (codes "c") manager both together refl together-Within two_open

abbrev zeros : Bytes
zeros = let eight = 0 ∷ 0 ∷ 0 ∷ 0 ∷ 0 ∷ 0 ∷ 0 ∷ 0 ∷ [] in eight ++ eight ++ eight ++ eight

-- The first 32 bytes of a text, filled up.
digest : Bytes → Bytes
digest bytes = take 32 (bytes ++ zeros)

length-digest : (bytes : Bytes) → length (digest bytes) ≡ 32
unfolding digest
length-digest bytes =
    let sum = length-append bytes zeros in length-take 32 (bytes ++ zeros) (ground (arith, sum))

abbrev rotated : Manager
rotated = record manager {
  hash = digest (codes "wbt_k");
  failures = (codes "c", record { start = 3; count = 2 }) ∷ [];
}

rotates_digest :
    rotate digest same same store (record rotated { ready = false; hash = [] }) none (codes "k") 5
    ≡ ok (codes "wbt_k", rotated, some (digest (codes "wbt_k"), 5))
unfolding same rotate
rotates_digest = refl

rotate-new_manager_example :
    (new_manager some store (some (digest (codes "wbt_k"), 5))
      ≡ ok (record rotated { failures = [] }))
    × (status rotated ≡ some 5)
rotate-new_manager_example =
    rotate-new_manager digest same same some store (record rotated { ready = false; hash = [] })
      rotated none (some (digest (codes "wbt_k"), 5)) (codes "k") (codes "wbt_k") 5
      (λ s s' hash time h. cc) (unfold same in λ bytes. refl) length-digest rotates_digest
