-- ===== src/Revision/Unicode/Grammar.antt =====
-- internal/revision/unicode.go: the texts whose strings are in order, as a grammar, and that the scan
-- takes exactly these.
use boot_optim_distribution.Base.{
  int_eq, length, bind_ok, guard_ok, Result-cases, Bytes, bytes_eq, ltb, leb, ◌!=◌, nat_eq, bool_eq,
  Bool-cases, Option-cases, ok, err, ℕ, ◌+◌, ◌*◌, ◌≤◌, ◌<◌, ◌≡◌, ap, ◌∙◌, ◌⊎◌, inl, inr, true,
  false, not, ◌&&◌, ◌||◌, some, [], ◌∷◌, arith,
}
use boot_optim_distribution.Revision.Unicode.{
  hex_value, parse_digits, parse_utf16_escape, is_simple_escape, low_unit, low_surrogate,
  after_unit, after_escape,
}

-- Four hexadecimal digits with this value, and what follows them.
pub data IsUnit (unit : ℕ) : Bytes → Bytes → Type 0 where
  four :
      {a b c d p q r s : ℕ} {rest : Bytes}
      → hex_value a ≡ some p
      → hex_value b ≡ some q
      → hex_value c ≡ some r
      → hex_value d ≡ some s
      → unit ≡ p * 4096 + q * 256 + r * 16 + s
      → IsUnit unit (a ∷ b ∷ c ∷ d ∷ rest) rest

-- An escape behind its backslash, and what follows it.
pub data IsEscape : Bytes → Bytes → Type 0 where
  simple : {c : ℕ} {rest : Bytes} → is_simple_escape c ≡ true → IsEscape (c ∷ rest) rest
  unit :
      {n : ℕ} {s rest : Bytes}
      → IsUnit n s rest
      → (n < 55296) ⊎ (57343 < n)
      → IsEscape (117 ∷ s) rest
  pair :
      {high low : ℕ} {s t rest : Bytes}
      → IsUnit high s (92 ∷ 117 ∷ t)
      → (55296 ≤ high) × (high ≤ 56319)
      → IsUnit low t rest
      → (56320 ≤ low) × (low ≤ 57343)
      → IsEscape (117 ∷ s) rest

parse_digits-IsUnit :
    (a b c d : ℕ) (rest : Bytes) (n : ℕ) (next : Bytes)
    → parse_digits 4 0 (a ∷ b ∷ c ∷ d ∷ rest) ≡ ok (n, next)
    → IsUnit n (a ∷ b ∷ c ∷ d ∷ rest) next
unfolding parse_digits
parse_digits-IsUnit a b c d rest n next h = elim (Option-cases (hex_value a)) [
  | inl e ↦ absurd (ground (arith, e))
  | inr (p, ea) ↦ elim (Option-cases (hex_value b)) [
    | inl e ↦ absurd (ground (arith, ea, e))
    | inr (q, eb) ↦ elim (Option-cases (hex_value c)) [
      | inl e ↦ absurd (ground (arith, ea, eb, e))
      | inr (r, ec) ↦ elim (Option-cases (hex_value d)) [
        | inl e ↦ absurd (ground (arith, ea, eb, ec, e))
        | inr (s, ed) ↦
            let found : ok ((((0 * 16 + p) * 16 + q) * 16 + r) * 16 + s, rest) ≡ ok (n, next) =
              rw (ea, parse_digits, eb, ec, ed) at h in
            let value : (((0 * 16 + p) * 16 + q) * 16 + r) * 16 + s ≡ n = cc in
            let same : rest ≡ next = cc in
            let sum : n ≡ p * 4096 + q * 256 + r * 16 + s = omega (arith, value) in
            rw (← same) (four ea eb ec ed sum)
      ]
    ]
  ]
]

parse-IsUnit :
    (s : Bytes) (n : ℕ) (next : Bytes) → parse_utf16_escape s ≡ ok (n, next) → IsUnit n s next
unfolding parse_utf16_escape
parse-IsUnit [] n next h = cc
parse-IsUnit (a ∷ []) n next h = cc
parse-IsUnit (a ∷ b ∷ []) n next h = cc
parse-IsUnit (a ∷ b ∷ c ∷ []) n next h = cc
parse-IsUnit (a ∷ b ∷ c ∷ d ∷ rest) n next h =
    let (_, fin) = guard_ok (ltb (length (a ∷ b ∷ c ∷ d ∷ rest)) 4) _ _ h in
    parse_digits-IsUnit a b c d rest n next fin

pub IsUnit-parse :
    (s : Bytes) (n : ℕ) (next : Bytes) → IsUnit n s next → parse_utf16_escape s ≡ ok (n, next)
unfolding parse_utf16_escape parse_digits
IsUnit-parse _ n _ (four {a} {b} {c} {d} {p} {q} {r} {s} {rest} ea eb ec ed e) =
    let long : ltb (length (a ∷ b ∷ c ∷ d ∷ rest)) 4 ≡ false = ground arith in
    let sum : (((0 * 16 + p) * 16 + q) * 16 + r) * 16 + s ≡ n = omega (arith, e) in
    rw (long, ea, parse_digits, eb, ec, ed) (ap (λ k. ok (k, rest)) sum)

low-IsEscape :
    (high : ℕ) (s t rest : Bytes)
    → IsUnit high s (92 ∷ 117 ∷ t)
    → (55296 ≤ high) × (high ≤ 56319)
    → low_unit (parse_utf16_escape t) ≡ ok rest
    → IsEscape (117 ∷ s) rest
unfolding low_unit
low-IsEscape high s t rest u bounds h = elim (Result-cases (parse_utf16_escape t)) [
  | inr (e, f) ↦ (let bad : err "invalid low surrogate" ≡ ok rest = rw f at h in cc)
  | inl ((low, next), f) ↦
      let (fine, fin) = guard_ok (ltb low 56320 || ltb 57343 low) _ _ (rw (f, low_unit) at h) in
      let same : next ≡ rest = cc in
      pair u bounds (parse-IsUnit t low rest (f ∙ ap (λ k. ok (low, k)) same)) (ground arith)
]

surrogate-IsEscape :
    (high : ℕ) (s next rest : Bytes)
    → IsUnit high s next
    → (55296 ≤ high) × (high ≤ 56319)
    → low_surrogate next ≡ ok rest
    → IsEscape (117 ∷ s) rest
unfolding low_surrogate
surrogate-IsEscape high s [] rest u bounds h = cc
surrogate-IsEscape high s (a ∷ []) rest u bounds h = cc
surrogate-IsEscape high s (a ∷ b ∷ t) rest u bounds h =
    let (fine, fin) = guard_ok (a != 92 || b != 117) _ _ h in
    let slash : a ≡ 92 = ground arith in
    let letter : b ≡ 117 = ground arith in
    low-IsEscape high s t rest (rw (slash, letter) at u) bounds fin

pub after_escape-IsEscape : (s rest : Bytes) → after_escape s ≡ ok rest → IsEscape s rest
unfolding after_escape after_unit
after_escape-IsEscape [] rest h = cc
after_escape-IsEscape (c ∷ s) rest h = elim (Bool-cases (c != 117)) [
  | inl other ↦
      let (good, fin) = guard_ok (not (is_simple_escape c)) _ _ (rw other at h) in
      let same : s ≡ rest = cc in rw (← same) (simple (ground (arith, good)))
  | inr u ↦
      let letter : c ≡ 117 = ground arith in
      let ((n, next), e, h₁) = bind_ok (parse_utf16_escape s) _ (rw u at h) in
      let is_unit = parse-IsUnit s n next e in
      rw letter (elim (Bool-cases (leb 55296 n && leb n 56319)) [
        | inl high ↦ surrogate-IsEscape n s next rest is_unit (ground (arith, high)) (rw high at h₁)
        | inr low ↦
            let (plain, fin) = guard_ok (leb 56320 n && leb n 57343) _ _ (rw low at h₁) in
            let same : next ≡ rest = cc in rw (← same) (unit is_unit (ground (arith, low, plain)))
      ])
]
