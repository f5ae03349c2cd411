-- ===== src/Adminauth/Bounds.antt =====
-- internal/adminauth/adminauth.go: what `New` and `parsePasswordHash` let through.
use boot_optim_distribution.Base.{
  pos_part, ltb_ℤ, int_eq, ℤ, length, is_empty, bind_ok, guard_ok, Result, Bytes, codes, bytes_eq,
  split, ltb, ◌==◌, ◌!=◌, nat_eq, bool_eq, pos, negsuc, ok, err, ℕ, ◌*◌, ◌≤◌, ◌≡◌, refl, ap, ◌∙◌,
  false, ◌||◌, Option, none, some, List, [], ◌∷◌, arith,
}
use boot_optim_distribution.Adminauth.Password.{
  PasswordHash, HashError, bad_rounds, bad_salt, bad_digest, min_rounds, max_rounds, rounds_of,
  salt_of, digest_of, parse_parts, parse_password_hash, verify, pbkdf2_sha256,
}
use boot_optim_distribution.Adminauth.Password.Rfc.{IsHash, rfc_block, pbkdf2_sha256-rfc_block}
use boot_optim_distribution.Adminauth.Types.{minute, Manager}
use boot_optim_distribution.Adminauth.Sessions.{Config, ttl_of, of_hash, made, new}

-- The bounds on a verifier.
pub record IsStrong (p : PasswordHash) : Type 0 where
  pub rounds : ℕ
  pub counted : p.rounds ≡ pos rounds
  pub rounds_low : 200000 ≤ rounds
  pub rounds_high : rounds ≤ 2000000
  pub salt_low : 16 ≤ length p.salt
  pub salt_high : length p.salt ≤ 64
  pub digest_size : IsHash p.digest

rounds_of_ok :
    (o : Option ℤ) (rounds : ℤ)
    → rounds_of o ≡ ok rounds
    → (n : ℕ) × (rounds ≡ pos n) × (200000 ≤ n) × (n ≤ 2000000)
unfolding rounds_of
rounds_of_ok none rounds h = cc
rounds_of_ok (some (pos n)) rounds h =
    let (low, fine) =
      guard_ok (ltb_ℤ (pos n) min_rounds || ltb_ℤ max_rounds (pos n)) bad_rounds (ok (pos n)) h in
    (n, (cc), ground arith, ground arith)
rounds_of_ok (some (negsuc n)) rounds h = ground arith

salt_of_ok :
    (o : Option Bytes) (salt : Bytes)
    → salt_of o ≡ ok salt
    → (16 ≤ length salt) × (length salt ≤ 64)
unfolding salt_of
salt_of_ok none salt h = cc
salt_of_ok (some s) salt h =
    let (fine, e) = guard_ok (ltb (length s) 16 || ltb 64 (length s)) bad_salt (ok s) h in
    let same : s ≡ salt = cc in rw (← same) (ground arith, ground arith)

digest_of_ok : (o : Option Bytes) (digest : Bytes) → digest_of o ≡ ok digest → IsHash digest
unfolding digest_of
digest_of_ok none digest h = cc
digest_of_ok (some s) digest h =
    let (fine, e) = guard_ok (length s != 32) bad_digest (ok s) h in
    let same : s ≡ digest = cc in rw (← same) (ground arith)

module _ (atoi : Bytes → Option ℤ) (decode : Bytes → Option Bytes) where
  parse_parts-IsStrong :
      (parts : List Bytes) (p : PasswordHash) → parse_parts atoi decode parts ≡ ok p → IsStrong p
  unfolding parse_parts
  parse_parts-IsStrong [] p h = cc
  parse_parts-IsStrong (a ∷ []) p h = cc
  parse_parts-IsStrong (a ∷ b ∷ []) p h = cc
  parse_parts-IsStrong (a ∷ b ∷ c ∷ []) p h = cc
  parse_parts-IsStrong (a ∷ b ∷ c ∷ d ∷ []) p h = cc
  parse_parts-IsStrong (a ∷ b ∷ c ∷ d ∷ e ∷ []) p h = cc
  parse_parts-IsStrong (a ∷ b ∷ c ∷ d ∷ e ∷ f ∷ g ∷ rest) p h = cc
  parse_parts-IsStrong (lead ∷ owner ∷ scheme ∷ count ∷ salted ∷ digested ∷ []) p h =
      let (_, h₁) =
        guard_ok (lead != [] || owner != codes "bootoptim" || scheme != codes "pbkdf2-sha256") _ _
          h in
      let (rounds, r, h₂) = bind_ok (rounds_of (atoi count)) _ h₁ in
      let (salt, s, h₃) = bind_ok (salt_of (decode salted)) _ h₂ in
      let (digest, d, fin) = bind_ok (digest_of (decode digested)) _ h₃ in
      let (n, counted, low, high) = rounds_of_ok (atoi count) rounds r in
      let (salt_low, salt_high) = salt_of_ok (decode salted) salt s in
      let same : record { rounds = rounds; salt = salt; digest = digest } ≡ p = cc in
      rw (← same) (record {
        rounds = n;
        counted = counted;
        rounds_low = low;
        rounds_high = high;
        salt_low = salt_low;
        salt_high = salt_high;
        digest_size = digest_of_ok (decode digested) digest d;
      })

-- The password's verifier compares with the key of RFC 8018.
verify-rfc_block :
    (hmac : Bytes → Bytes → Bytes)
    → ((key text : Bytes) → IsHash (hmac key text))
    → (p : PasswordHash) (s : IsStrong p) (password : Bytes)
    → verify hmac p password ≡ some (rfc_block hmac password p.salt s.rounds 1 == p.digest)
unfolding verify
verify-rfc_block hmac hashes p s password =
    let e : pbkdf2_sha256 hmac password p.salt p.rounds (length p.digest)
        ≡ some (rfc_block hmac password p.salt s.rounds 1) =
      ap (λ k. pbkdf2_sha256 hmac password p.salt k (length p.digest)) s.counted
      ∙ ap (pbkdf2_sha256 hmac password p.salt (pos s.rounds)) s.digest_size
      ∙ pbkdf2_sha256-rfc_block hmac hashes password p.salt s.rounds in
    rw (e, verify) refl

-- What `New` gives: a name of at most 128 bytes, no session, a lifetime of five minutes to a day.
pub record IsReady (m : Manager) : Type 0 where
  pub name_low : 1 ≤ length m.username
  pub name_high : length m.username ≤ 128
  pub empty : m.sessions ≡ []
  pub ttl_low : 5 * minute ≤ m.session_ttl
  pub ttl_high : m.session_ttl ≤ 1440 * minute
  pub strong : IsStrong m.password_hash

ttl-bounds :
    (ttl : ℤ)
    → (ltb_ℤ ttl (pos (5 * minute)) || ltb_ℤ (pos (1440 * minute)) ttl) ≡ false
    → (5 * minute ≤ pos_part ttl) × (pos_part ttl ≤ 1440 * minute)
ttl-bounds (pos n) h = ground arith
ttl-bounds (negsuc n) h = ground arith

is_empty-length : (s : Bytes) → is_empty s ≡ false → 1 ≤ length s
is_empty-length [] h = cc
is_empty-length (c ∷ s) h = omega arith

of_hash_ok : (r : Result HashError PasswordHash) (p : PasswordHash) → of_hash r ≡ ok p → r ≡ ok p
of_hash_ok (ok a) p h = cc
of_hash_ok (err e) p h = cc

-- A manager that `New` makes has a name of 1 to 128 bytes, no sessions, sessions of five minutes to a
-- day, and a verifier of 200,000 to 2,000,000 rounds with a salt of 16 to 64 bytes; and with an HMAC of
-- 32 bytes the verifier takes, without a panic, exactly the passwords whose key of RFC 8018 is the
-- stored one.
pub new-IsReady :
    (trim_space : Bytes → Bytes) (atoi : Bytes → Option ℤ) (decode : Bytes → Option Bytes)
    (random : List (Option Bytes)) (hmac : Bytes → Bytes → Bytes)
    → ((key text : Bytes) → IsHash (hmac key text))
    → (cfg : Config) (m : Manager) → new trim_space atoi decode random cfg ≡ ok m
    → (ready : IsReady m) × ((password : Bytes)
        → verify hmac m.password_hash password
          ≡ some (
              rfc_block hmac password m.password_hash.salt ready.strong.rounds 1
              == m.password_hash.digest))
unfolding new made parse_password_hash
new-IsReady trim_space atoi decode random hmac hashes cfg m h =
    let name = trim_space cfg.username in
    let (some_name, h₁) = guard_ok (is_empty name) _ _ h in
    let (short, h₂) = guard_ok (ltb 128 (length name)) _ _ h₁ in
    let (p, parsed, h₃) =
      bind_ok (of_hash (parse_password_hash atoi decode (trim_space cfg.password_hash))) _ h₂ in
    let (in_time, fin) =
      guard_ok
        (ltb_ℤ (ttl_of cfg.session_ttl) (pos (5 * minute))
          || ltb_ℤ (pos (1440 * minute)) (ttl_of cfg.session_ttl))
        _ _ h₃ in
    let strong =
      parse_parts-IsStrong atoi decode (split b'$' (trim_space cfg.password_hash)) p
        (of_hash_ok _ p parsed) in
    let (ttl_low, ttl_high) = ttl-bounds (ttl_of cfg.session_ttl) in_time in
    let m₀ : Manager = record {
      username = name;
      password_hash = p;
      session_ttl = pos_part (ttl_of cfg.session_ttl);
      random = random;
      sessions = [];
    } in
    let same : m₀ ≡ m = cc in
    rw (← same) (
      record {
        name_low = is_empty-length name some_name;
        name_high = ground arith;
        empty = refl;
        ttl_low = ttl_low;
        ttl_high = ttl_high;
        strong = strong;
      },
      verify-rfc_block hmac hashes p strong,
    )
