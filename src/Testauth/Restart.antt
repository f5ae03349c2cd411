-- ===== src/Testauth/Restart.antt =====
-- internal/testauth/testauth.go: `New` on what `Rotate` left in the store.
use boot_optim_distribution.Base.{
  int_eq, length, bind_ok, Bytes, bytes_eq, ◌!=◌, nat_eq, bool_eq, ok, ℕ, ◌≡◌, refl, true, false,
  Option, some, [], ◌++◌, arith,
}
use boot_optim_distribution.Testauth.{
  Manager, TokenStore, from_verifier, new_manager, rotate, status, token_prefix,
}

-- A rotation survives a restart: for a store that returns what was last put in, hexadecimal texts that
-- decode to what they were made from, and hashes of 32 bytes, the manager that is loaded from the
-- store after a rotation is the one that the rotation left, without its failures, and it reports the
-- time of the rotation.
pub rotate-new_manager :
    {S : Type 0} (sha256 hex_encode base64 : Bytes → Bytes) (hex_decode : Bytes → Option Bytes)
    (store : TokenStore S) (m m' : Manager) (s s' : S) (raw token : Bytes) (now : ℕ)
    → ((s s' : S) (hash : Bytes) (time : ℕ)
        → store.set_test_token_hash s hash time ≡ ok s'
        → store.test_token_hash s' ≡ ok (some (hash, time)))
    → ((bytes : Bytes) → hex_decode (hex_encode bytes) ≡ some bytes)
    → ((bytes : Bytes) → length (sha256 bytes) ≡ 32)
    → rotate sha256 hex_encode base64 store m s raw now ≡ ok (token, m', s')
    → (new_manager hex_decode store s' ≡ ok (record m' { failures = [] })) × (status m' ≡ some now)
unfolding rotate new_manager from_verifier status
rotate-new_manager sha256 hex_encode base64 hex_decode store m m' s s' raw token now kept decodes
      sized h =
    let hash = sha256 (token_prefix ++ base64 raw) in
    let (next, put, fin) = bind_ok (store.set_test_token_hash s (hex_encode hash) now) _ h in
    let made : record m { hash = hash; created_at = now; ready = true } ≡ m' = cc in
    let left : next ≡ s' = cc in
    let found : store.test_token_hash s' ≡ ok (some (hex_encode hash, now)) =
      kept s s' (hex_encode hash) now (rw (← left) put) in
    let long : (length hash != 32) ≡ false = ground (arith, sized (token_prefix ++ base64 raw)) in
    rw (← made, found, from_verifier, decodes hash, long) (refl, refl)
