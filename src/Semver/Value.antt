-- ===== src/Semver/Value.antt =====
-- `compareNumeric` compares the numbers that digits spell.
use boot_optim_distribution.Base.{
  int_eq, length, All, Bytes, bytes_eq, nat_eq, bool_eq, ℕ, zero, suc, ◌+◌, ◌-◌, ◌*◌, ◌^◌, ◌≤◌, ◌<◌,
  ◌≡◌, refl, ap, [], ◌∷◌, arith,
}
use Prim.Native.Nat.{Ordering, compare}
use native.Mathlib.Nat.{pow-suc}
use boot_optim_distribution.Semver.{compare_bytes, compare_numeric}
use boot_optim_distribution.Semver.Grammar.{IsDigit, IsNumber}

-- The number that digits spell.
unfoldable pub value : Bytes → ℕ
value [] = 0
value (c ∷ s) = (c - b'0') * 10 ^ length s + value s

digit_step : (d p v : ℕ) → d ≤ 9 → v < p → d * p + v < p * 10
digit_step d p v h k = grind arith

value-lt : (s : Bytes) → All IsDigit s → value s < 10 ^ length s
unfolding value
value-lt [] h = omega arith
value-lt (c ∷ s) h =
    rw pow-suc (digit_step (c - b'0') (10 ^ length s) (value s) (omega arith) (value-lt s h.1))

leading_lt : (a b p v w : ℕ) → a < b → v < p → a * p + v < b * p + w
leading_lt a b p v w h k = grind arith

compare-lt : (m n : ℕ) → m < n → compare m n ≡ Ordering.lt
compare-lt m n h = ground arith

compare-gt : (m n : ℕ) → n < m → compare m n ≡ Ordering.gt
compare-gt m n h = ground arith

compare-add : (q m n : ℕ) → compare (q + m) (q + n) ≡ compare m n
compare-add q m n = ground arith

-- One digit more in front of texts of one length.
digit_compare :
    (c d p v w : ℕ)
    → b'0' ≤ c
    → b'0' ≤ d
    → v < p
    → w < p
    → elim (compare c d) [
      | Ordering.lt ↦ Ordering.lt
      | Ordering.eq ↦ compare v w
      | Ordering.gt ↦ Ordering.gt
    ]
      ≡ compare ((c - b'0') * p + v) ((d - b'0') * p + w)
digit_compare c d p v w hc hd hv hw =
    ground (arith, leading_lt (c - b'0') (d - b'0') p v w, leading_lt (d - b'0') (c - b'0') p w v)

compare_bytes-value :
    (s t : Bytes)
    → length s ≡ length t
    → All IsDigit s
    → All IsDigit t
    → compare_bytes s t ≡ compare (value s) (value t)
unfolding value compare_bytes
compare_bytes-value [] [] e h k = refl
compare_bytes-value [] (d ∷ t) e h k = absurd (omega arith)
compare_bytes-value (c ∷ s) [] e h k = absurd (omega arith)
compare_bytes-value (c ∷ s) (d ∷ t) e h k =
    let same : length s ≡ length t = omega arith in
    let p = 10 ^ length s in
    ground (
      arith,
      compare_bytes-value s t same h.1 k.1,
      ap (λ n. 10 ^ n) same,
      digit_compare c d p (value s) (value t) h.0.0 k.0.0 (value-lt s h.1)
          (rw same (value-lt t k.1)),
    )

le-value : (c : ℕ) (s : Bytes) → b'1' ≤ c → 10 ^ length s ≤ value (c ∷ s)
unfolding value
le-value c s h = grind arith

one-le-pow : (n : ℕ) → 1 ≤ 10 ^ n
one-le-pow zero = omega arith
one-le-pow (suc n) = rw pow-suc (omega (arith, one-le-pow n))

pow-le : (m n : ℕ) → m ≤ n → 10 ^ m ≤ 10 ^ n
pow-le zero n h = one-le-pow n
pow-le (suc m) zero h = elim h [ ]
pow-le (suc m) (suc n) h = rw (pow-suc, pow-suc) (omega (arith, pow-le m n (omega arith)))

nonzero_head : (d e : ℕ) (b : Bytes) → IsNumber (d ∷ e ∷ b) → b'1' ≤ d
nonzero_head d e b h = ground arith

-- A longer number is the larger one.
longer-lt : (a b : Bytes) → IsNumber a → IsNumber b → length a < length b → value a < value b
longer-lt a [] ha hb lt = absurd hb
longer-lt [] b ha hb lt = absurd ha
longer-lt (c ∷ a) (d ∷ []) ha hb lt = absurd (omega arith)
longer-lt (c ∷ a) (d ∷ e ∷ b) ha hb lt = omega (
  arith,
  value-lt (c ∷ a) ha.0,
  pow-le (length (c ∷ a)) (length (e ∷ b)) (omega arith),
  le-value d (e ∷ b) (nonzero_head d e b hb),
)

IsNumber-digits : (s : Bytes) → IsNumber s → All IsDigit s
IsNumber-digits [] h = absurd h
IsNumber-digits (c ∷ s) h = h.0

-- On numbers with no leading zero `compareNumeric` gives the order of the values, whatever their
-- lengths.
pub compare_numeric-value :
    (a b : Bytes) → IsNumber a → IsNumber b → compare_numeric a b ≡ compare (value a) (value b)
unfolding compare_numeric
compare_numeric-value a b ha hb = ground (
  arith,
  compare_bytes-value a b,
  longer-lt a b ha hb,
  longer-lt b a hb ha,
  IsNumber-digits a ha,
  IsNumber-digits b hb,
)
