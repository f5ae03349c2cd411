-- ===== src/Adminauth/Password/Rfc.antt =====
-- internal/adminauth/adminauth.go: the loops of `pbkdf2SHA256` against the definition of RFC 8018.
use Prim.Native.Nat.{bit_xor}
use boot_optim_distribution.Base.{
  int_eq, length, length-append, take, length-take, take-length, Bytes, bytes_eq, nat_eq, bool_eq,
  pos, ℕ, zero, suc, ◌+◌, ◌-◌, ◌*◌, ◌/◌, ◌≤◌, ◌≡◌, refl, sym, ap, ◌∙◌, some, [], ◌∷◌, ◌++◌, arith,
}
use boot_optim_distribution.Adminauth.Password.{
  hash_len, xor_into, put_uint32, rounds_loop, block_loop, pbkdf2_sha256,
}

-- The texts of 32 bytes.
abbrev pub IsHash : Bytes → Type 0
IsHash s = length s ≡ hash_len

-- The bitwise sum of two texts, as long as the shorter one.
unfoldable pub xor : Bytes → Bytes → Bytes
xor [] us = []
xor (t ∷ ts) [] = []
xor (t ∷ ts) (u ∷ us) = bit_xor t u ∷ xor ts us

module _ (hmac : Bytes → Bytes → Bytes) (password : Bytes) where
  -- `U_(n+1)` of a block: the HMAC of the salt and the block's number, iterated.
  unfoldable pub iterated : Bytes → ℕ → Bytes
  iterated first zero = first
  iterated first (suc n) = hmac password (iterated first n)

  -- `U_1 ⊕ … ⊕ U_(n+1)`
  unfoldable pub summed : Bytes → ℕ → Bytes
  summed first zero = first
  summed first (suc n) = xor (summed first n) (iterated first (suc n))

  -- The block `F(P, S, c, i)`.
  unfoldable pub rfc_block : Bytes → ℕ → ℕ → Bytes
  rfc_block salt rounds i = summed (hmac password (salt ++ put_uint32 i)) (rounds - 1)

  -- The blocks 1 to `n`, in a row.
  unfoldable pub rfc_blocks : Bytes → ℕ → ℕ → Bytes
  rfc_blocks salt rounds zero = []
  rfc_blocks salt rounds (suc n) = rfc_blocks salt rounds n ++ rfc_block salt rounds (suc n)

xor-length :
    (t u : Bytes)
    → length t ≡ length u
    → (xor_into t u ≡ some (xor t u)) × (length (xor t u) ≡ length t)
unfolding xor_into xor
xor-length [] u h = (refl, refl)
xor-length (t ∷ ts) [] h = ground arith
xor-length (t ∷ ts) (u ∷ us) h =
    let (e, n) = xor-length ts us (omega arith) in (rw e refl, omega arith)

module _ (hmac : Bytes → Bytes → Bytes) (hashes : (key text : Bytes) → IsHash (hmac key text))
    (password : Bytes) where
  iterated-IsHash : (first : Bytes) (n : ℕ) → IsHash first → IsHash (iterated hmac password first n)
  unfolding iterated
  iterated-IsHash first zero h = h
  iterated-IsHash first (suc n) h = hashes password (iterated hmac password first n)

  summed-IsHash : (first : Bytes) (n : ℕ) → IsHash first → IsHash (summed hmac password first n)
  unfolding summed
  summed-IsHash first zero h = h
  summed-IsHash first (suc n) h =
      let shorter = summed-IsHash first n h in
      (xor-length (summed hmac password first n) (iterated hmac password first (suc n))
        (shorter ∙ sym (iterated-IsHash first (suc n) h))).1
      ∙ shorter

  -- The loop goes on from the sum of the first `n + 1` texts.
  rounds_loop-summed :
      (first : Bytes) (n left total : ℕ)
      → IsHash first
      → n + left ≡ total
      → rounds_loop hmac password left
          (iterated hmac password first n)
          (summed hmac password first n)
        ≡ some (summed hmac password first total)
  unfolding rounds_loop iterated summed
  rounds_loop-summed first n zero total h e =
      ap (λ k. some (summed hmac password first k)) (omega (arith, e))
  rounds_loop-summed first n (suc left) total h e =
      let next =
        (xor-length (summed hmac password first n) (iterated hmac password first (suc n))
          (summed-IsHash first n h ∙ sym (iterated-IsHash first (suc n) h))).0 in
      let rest = rounds_loop-summed first (suc n) left total h (omega (arith, e)) in
      rw (next, rounds_loop) rest

  pub rfc_block-IsHash :
      (salt : Bytes) (rounds i : ℕ) → IsHash (rfc_block hmac password salt rounds i)
  unfolding rfc_block
  rfc_block-IsHash salt rounds i =
      summed-IsHash (hmac password (salt ++ put_uint32 i)) (rounds - 1)
        (hashes password (salt ++ put_uint32 i))

  block_loop-rfc_blocks :
      (salt : Bytes) (rounds n block left total : ℕ)
      → block ≡ suc n
      → n + left ≡ total
      → block_loop hmac password salt
          (pos rounds)
          block
          left
          (rfc_blocks hmac password salt rounds n)
        ≡ some (rfc_blocks hmac password salt rounds total)
  unfolding block_loop rfc_blocks
  block_loop-rfc_blocks salt rounds n block zero total b e =
      let same : n ≡ total = omega (arith, e) in
      ap (λ k. some (rfc_blocks hmac password salt rounds k)) same
  block_loop-rfc_blocks salt rounds n block (suc left) total b e =
      let first = hmac password (salt ++ put_uint32 (suc n)) in
      let made : rounds_loop hmac password (rounds - 1) first first
          ≡ some (rfc_block hmac password salt rounds (suc n)) =
        unfold rfc_block in
        unfold iterated in
        unfold summed in
        rounds_loop-summed first 0 (rounds - 1) (rounds - 1)
          (hashes password (salt ++ put_uint32 (suc n))) (omega arith) in
      let rest =
        block_loop-rfc_blocks salt rounds (suc n) (block + 1) left total (omega (arith, b))
          (omega (arith, e)) in
      rw
        (
          ap
                (λ k.
                  rounds_loop hmac password (rounds - 1) (hmac password (salt ++ put_uint32 k))
                    (hmac password (salt ++ put_uint32 k)))
                b
              ∙ made,
          block_loop,
        )
        rest

  length-rfc_blocks :
      (salt : Bytes) (rounds n : ℕ) → length (rfc_blocks hmac password salt rounds n) ≡ n * hash_len
  unfolding rfc_blocks
  length-rfc_blocks salt rounds zero = refl
  length-rfc_blocks salt rounds (suc n) = omega (
    arith,
    length-append (rfc_blocks hmac password salt rounds n)
        (rfc_block hmac password salt rounds (suc n)),
    length-rfc_blocks salt rounds n,
    rfc_block-IsHash salt rounds (suc n),
  )

-- With an HMAC of 32 bytes the loops never index out of range, and what they return is the key of RFC
-- 8018: the first bytes of the blocks `F(P, S, c, 1)`, `F(P, S, c, 2)`, …, as many as asked for.
pub pbkdf2_sha256-rfc_blocks :
    (hmac : Bytes → Bytes → Bytes)
    → ((key text : Bytes) → IsHash (hmac key text))
    → (password salt : Bytes) (rounds key_len : ℕ)
    → (pbkdf2_sha256 hmac password salt (pos rounds) key_len
        ≡ some (take key_len (rfc_blocks hmac password salt rounds ((key_len + 31) / 32))))
      × (length (take key_len (rfc_blocks hmac password salt rounds ((key_len + 31) / 32)))
          ≡ key_len)
unfolding pbkdf2_sha256
pbkdf2_sha256-rfc_blocks hmac hashes password salt rounds key_len =
    let blocks = (key_len + 31) / 32 in
    let run =
      block_loop-rfc_blocks hmac hashes password salt rounds 0 1
        ((key_len + hash_len - 1) / hash_len) blocks refl (omega arith) in
    let whole : key_len ≤ length (rfc_blocks hmac password salt rounds blocks) =
      omega (arith, length-rfc_blocks hmac hashes password salt rounds blocks) in
    (
      unfold rfc_blocks in rw (run, pbkdf2_sha256),
      length-take key_len (rfc_blocks hmac password salt rounds blocks) whole,
    )

-- A key of 32 bytes is the first block.
pub pbkdf2_sha256-rfc_block :
    (hmac : Bytes → Bytes → Bytes)
    → ((key text : Bytes) → IsHash (hmac key text))
    → (password salt : Bytes) (rounds : ℕ)
    → pbkdf2_sha256 hmac password salt (pos rounds) 32
      ≡ some (rfc_block hmac password salt rounds 1)
pbkdf2_sha256-rfc_block hmac hashes password salt rounds =
    let block = rfc_block hmac password salt rounds 1 in
    let whole : take 32 block ≡ block =
      ap (λ n. take n block) (sym (rfc_block-IsHash hmac hashes password salt rounds 1))
      ∙ take-length block in
    let one : rfc_blocks hmac password salt rounds 1 ≡ block = unfold rfc_blocks in refl in
    (pbkdf2_sha256-rfc_blocks hmac hashes password salt rounds 32).0
    ∙ ap some (ap (take 32) one ∙ whole)
