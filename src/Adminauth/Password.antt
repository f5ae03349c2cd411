-- ===== src/Adminauth/Password.antt =====
-- internal/adminauth/adminauth.go: the verifier of the administrator's password. The HMAC of
-- SHA-256, base64url and `strconv.Atoi` are parameters.
pub mod Rfc
use Prim.Native.Nat.{bit_xor}
use boot_optim_distribution.Base.{
  pos_part, ltb_ℤ, int_eq, ℤ, length, take, ◌>>=◌, ◌>>◌, Result, Bytes, codes, bytes_eq, split, ltb,
  if◌then◌else◌, ◌==◌, ◌!=◌, nat_eq, bool_eq, pos, ok, err, ℕ, zero, suc, ◌+◌, ◌-◌, ◌/◌, ◌%◌, ◌^◌,
  Bool, ◌||◌, Option, none, some, List, [], ◌∷◌, ◌++◌,
}

-- `sha256.Size`
abbrev pub hash_len : ℕ
hash_len = 32

-- `minPBKDF2Rounds`
abbrev pub min_rounds : ℤ
min_rounds = pos 200000

-- `maxPBKDF2Rounds`
abbrev pub max_rounds : ℤ
max_rounds = pos 2000000

pub record PasswordHash : Type 0 where
  pub rounds : ℤ
  pub salt : Bytes
  pub digest : Bytes

pub data HashError : Type 0 where
  bad_layout bad_rounds bad_salt bad_digest : HashError

-- What `Atoi` found, within the bounds.
unfoldable pub rounds_of : Option ℤ → Result HashError ℤ
rounds_of none = err bad_rounds
rounds_of (some n) = if ltb_ℤ n min_rounds || ltb_ℤ max_rounds n then err bad_rounds else ok n

unfoldable pub salt_of : Option Bytes → Result HashError Bytes
salt_of none = err bad_salt
salt_of (some salt) = if ltb (length salt) 16 || ltb 64 (length salt) then err bad_salt else ok salt

unfoldable pub digest_of : Option Bytes → Result HashError Bytes
digest_of none = err bad_digest
digest_of (some digest) = if length digest != hash_len then err bad_digest else ok digest

module _ (atoi : Bytes → Option ℤ) (decode : Bytes → Option Bytes) where
  unfoldable pub parse_parts : List Bytes → Result HashError PasswordHash
  parse_parts (lead ∷ owner ∷ scheme ∷ count ∷ salted ∷ digested ∷ []) =
      if lead != [] || owner != codes "bootoptim" || scheme != codes "pbkdf2-sha256"
      then err bad_layout
      else rounds_of (atoi count) >>= λ rounds. salt_of (decode salted) >>= λ salt.
          digest_of (decode digested) >>= λ digest.
          ok (record { rounds = rounds; salt = salt; digest = digest })
  parse_parts _ = err bad_layout

  -- `parsePasswordHash`
  unfoldable pub parse_password_hash : Bytes → Result HashError PasswordHash
  parse_password_hash encoded = parse_parts (split b'$' encoded)

-- `for j := range t { t[j] ^= u[j] }`; none is a panic, of an index out of range.
unfoldable pub xor_into : Bytes → Bytes → Option Bytes
xor_into [] us = some []
xor_into (t ∷ ts) [] = none
xor_into (t ∷ ts) (u ∷ us) = elim (xor_into ts us) [
  | none ↦ none
  | some rest ↦ some (bit_xor t u ∷ rest)
]

-- `binary.BigEndian.PutUint32(counter, uint32(block))`
unfoldable pub put_uint32 : ℕ → Bytes
put_uint32 block =
    let w = block % 2 ^ 32 in w / 2 ^ 24 ∷ w / 2 ^ 16 % 256 ∷ w / 2 ^ 8 % 256 ∷ w % 256 ∷ []

module _ (hmac : Bytes → Bytes → Bytes) (password : Bytes) where
  -- The loop over `i`, with so many rounds left.
  unfoldable pub rounds_loop : ℕ → Bytes → Bytes → Option Bytes
  rounds_loop zero u t = some t
  rounds_loop (suc left) u t = elim (xor_into t (hmac password u)) [
    | none ↦ none
    | some t' ↦ rounds_loop left (hmac password u) t'
  ]

  -- The loop over `block`, with so many blocks left.
  unfoldable pub block_loop : Bytes → ℤ → ℕ → ℕ → Bytes → Option Bytes
  block_loop salt rounds block zero out = some out
  block_loop salt rounds block (suc left) out =
      let u = hmac password (salt ++ put_uint32 block) in
      elim (rounds_loop (pos_part rounds - 1) u u) [
        | none ↦ none
        | some t ↦ block_loop salt rounds (block + 1) left (out ++ t)
      ]

  -- `pbkdf2SHA256`
  unfoldable pub pbkdf2_sha256 : Bytes → ℤ → ℕ → Option Bytes
  pbkdf2_sha256 salt rounds key_len =
      elim (block_loop salt rounds 1 ((key_len + hash_len - 1) / hash_len) []) [
        | none ↦ none
        | some out ↦ some (take key_len out)
      ]

-- `passwordHash.verify`
unfoldable pub verify : (Bytes → Bytes → Bytes) → PasswordHash → Bytes → Option Bool
verify hmac p password = elim (pbkdf2_sha256 hmac password p.salt p.rounds (length p.digest)) [
  | none ↦ none
  | some derived ↦ some (derived == p.digest)
]
