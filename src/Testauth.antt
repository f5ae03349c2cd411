-- ===== src/Testauth.antt =====
-- internal/testauth/testauth.go: the shared token of the test API, and the limiter of failed attempts.
-- A time is a number of nanoseconds. SHA-256, base64, hexadecimal and `strings.TrimSpace` are
-- parameters.
pub mod Admission
pub mod Interleave
pub mod Limit
pub mod Restart
mod Tests
use Prim.Native.String.{String}
use boot_optim_distribution.Base.{
  int_eq, length, all, is_empty, lookup, delete, insert, ◌>>=◌, ◌>>◌, each, Result, Bytes, codes,
  bytes_eq, is_digit, is_lower, is_upper, ltb, leb, if◌then◌else◌, ◌==◌, ◌!=◌, nat_eq, bool_eq, ok,
  err, ℕ, ◌+◌, ◌-◌, Bool, true, false, not, ◌&&◌, ◌||◌, Option, none, some, List, [], ◌∷◌, ◌++◌,
}

abbrev pub token_prefix : Bytes
token_prefix = codes "wbt_"

-- `DefaultAgent`
abbrev pub default_agent : Bytes
default_agent = codes "sin-etiqueta"

-- `defaultMaxFailures`
abbrev pub max_failures : ℕ
max_failures = 20

-- `defaultFailureWindow`: ten minutes.
abbrev pub failure_window : ℕ
failure_window = 600000000000

pub record FailureWindow : Type 0 where
  pub start : ℕ
  pub count : ℕ

pub record Manager : Type 0 where
  pub hash : Bytes
  pub created_at : ℕ
  pub ready : Bool
  pub failures : List (Bytes × FailureWindow)

-- The parts of a request that `Middleware` reads: `client` is what `clientKey` finds.
pub record Request : Type 0 where
  pub client : Bytes
  pub authorization : Bytes
  pub agent : Bytes

pub data Response : Type 0 where
  too_many_auth_failures test_token_not_configured invalid_token invalid_agent : Response
  -- The next handler gets the request with the owner label.
  served : Bytes → Response

-- How far a request has come. The middleware takes a lock three times at most: for `blocked`, to read
-- the token's hash, and for `fail`. Other requests can come in between.
pub data Stage : Type 0 where
  waiting : Stage
  -- Past `blocked`.
  let_in : Stage
  -- The token is wrong, and the failure is not counted yet.
  wrong : Stage
  answered : Response → Stage

-- The managers that a request finds each time, and the clock's times.
pub record Visits : Type 0 where
  pub at_check : Manager
  pub check_time : ℕ
  pub at_read : Manager
  pub at_count : Manager
  pub count_time : ℕ

-- The window is over.
abbrev pub expired : ℕ → FailureWindow → Bool
expired now window = leb (window.start + failure_window) now

-- `blocked`
unfoldable pub blocked : Manager → ℕ → Bytes → Bool × Manager
blocked m now client = elim (lookup client m.failures) [
  | none ↦ (false, m)
  | some window ↦
      if expired now window
      then (false, record m { failures = delete client m.failures })
      else (leb max_failures window.count, m)
]

-- The loop that deletes what is over.
unfoldable pub live : ℕ → List (Bytes × FailureWindow) → List (Bytes × FailureWindow)
live now [] = []
live now ((key, window) ∷ rest) =
    let kept = live now rest in if expired now window then kept else (key, window) ∷ kept

abbrev pub opened : ℕ → FailureWindow
opened now = record { start = now; count = 1 }

unfoldable pub counted : ℕ → Option FailureWindow → FailureWindow
counted now none = opened now
counted now (some window) =
    if expired now window then opened now else record window { count = window.count + 1 }

-- `fail`
unfoldable pub fail : Manager → ℕ → Bytes → Manager
fail m now client =
    let kept = if ltb 4096 (length m.failures) then live now m.failures else m.failures in
    record m { failures = insert client (counted now (lookup client kept)) kept }

-- Bytes of the ASCII letters are folded; "Bearer " has no letter that another character folds to.
abbrev pub lower : ℕ → ℕ
lower c = if leb b'A' c && leb c b'Z' then c + 32 else c

-- What follows `prefix`, whatever the case of its letters.
unfoldable pub after_folded : Bytes → Bytes → Option Bytes
after_folded [] s = some s
after_folded (p ∷ ps) [] = none
after_folded (p ∷ ps) (c ∷ s) =
    let rest = after_folded ps s in if lower p == lower c then rest else none

unfoldable pub agent_char : ℕ → Bool
agent_char c = is_lower c || is_upper c || is_digit c || c == b'.' || c == b'_' || c == b'-'

module _ (sha256 : Bytes → Bytes) (trim_space : Bytes → Bytes) where
  -- `bearer`
  unfoldable pub bearer : Bytes → Option Bytes
  bearer header = elim (after_folded (codes "Bearer ") header) [
    | none ↦ none
    | some rest ↦
        if is_empty rest
        then none
        else if is_empty (trim_space rest) || ltb 256 (length (trim_space rest))
        then none
        else some (trim_space rest)
  ]

  -- `agentLabel`, on the text without the spaces around it.
  unfoldable pub agent_label : Bytes → Option Bytes
  agent_label value =
      if is_empty (trim_space value)
      then some default_agent
      else if ltb 64 (length (trim_space value))
      then none
      else if all agent_char (trim_space value)
      then some (trim_space value)
      else none

  -- The token is presented and has the stored hash.
  unfoldable pub accepts : Manager → Bytes → Bool
  accepts m header = elim (bearer header) [
    | none ↦ false
    | some presented ↦ sha256 presented == m.hash
  ]

  unfoldable pub respond_agent : Bytes → Response
  respond_agent value = elim (agent_label value) [
    | none ↦ invalid_agent
    | some agent ↦ served agent
  ]

  -- What the token and the label come to, under the hash that was read.
  unfoldable pub judge : Manager → Request → Stage
  judge m r =
      if not m.ready
      then answered test_token_not_configured
      else if accepts m r.authorization
      then answered (respond_agent r.agent)
      else wrong

  -- `Middleware`, from one lock to the next.
  unfoldable pub next_stage : Manager → ℕ → Request → Stage → Stage × Manager
  next_stage m now r waiting =
      let (stopped, m') = blocked m now r.client in
      (if stopped then answered too_many_auth_failures else let_in, m')
  next_stage m now r let_in = (judge m r, m)
  next_stage m now r wrong = (answered invalid_token, fail m now r.client)
  next_stage m now r (answered response) = (answered response, m)

  -- `Middleware` for one request, among others.
  unfoldable pub handle : Visits → Request → Stage
  handle v r =
      let (checked, _) = next_stage v.at_check v.check_time r waiting in
      let (judged, _) = next_stage v.at_read v.check_time r checked in
      (next_stage v.at_count v.count_time r judged).0

-- `TokenStore`, on a store with this state.
pub record TokenStore (S : Type 0) : Type 0 where
  pub test_token_hash : S → Result String (Option (Bytes × ℕ))
  pub set_test_token_hash : S → Bytes → ℕ → Result String S

-- The manager that `New` starts from; while it is not ready its hash is not looked at.
abbrev pub unready : Manager
unready = record { hash = []; created_at = 0; ready = false; failures = [] }

-- What `New` makes of the store's answer; of a text that is no hexadecimal one `hex_decode` makes
-- `none`.
unfoldable pub from_verifier : (Bytes → Option Bytes) → Option (Bytes × ℕ) → Result String Manager
from_verifier hex_decode none = ok unready
from_verifier hex_decode (some (hash, created)) = elim (hex_decode hash) [
  | none ↦ err "stored test token verifier is malformed"
  | some decoded ↦
      if length decoded != 32
      then err "stored test token verifier is malformed"
      else ok (record unready { hash = decoded; created_at = created; ready = true })
]

-- `New`, given a store.
unfoldable pub new_manager :
    {S : Type 0} → (Bytes → Option Bytes) → TokenStore S → S → Result String Manager
new_manager hex_decode store s = store.test_token_hash s >>= from_verifier hex_decode

-- What `Rotate` leaves in the manager.
abbrev pub with_token : Manager → Bytes → ℕ → Manager
with_token m hash now = record m { hash = hash; created_at = now; ready = true }

-- `Rotate`: the random bytes, their base64 text and the clock's time come from outside.
unfoldable pub rotate :
    {S : Type 0}
    → (Bytes → Bytes)
    → (Bytes → Bytes)
    → (Bytes → Bytes)
    → TokenStore S
    → Manager
    → S
    → Bytes
    → ℕ
    → Result String (Bytes × Manager × S)
rotate sha256 hex_encode base64 store m s raw now =
    let token = token_prefix ++ base64 raw in
    do
      let hash = sha256 token
      s' ← store.set_test_token_hash s (hex_encode hash) now
      ok (token, with_token m hash now, s')

-- `Status`: when the token was made, if there is one.
unfoldable pub status : Manager → Option ℕ
status m = if not m.ready then none else some m.created_at
