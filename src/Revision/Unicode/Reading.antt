-- ===== src/Revision/Unicode/Reading.antt =====
-- internal/revision/unicode.go: a round of the scan, as a step of reading.
use boot_optim_distribution.Base.{
  int_eq, length, bind_ok, guard_ok, Bytes, bytes_eq, ltb, leb, ◌==◌, ◌!=◌, nat_eq, bool_eq,
  Bool-cases, ok, ℕ, zero, suc, ◌-◌, ◌≤◌, ◌<◌, ◌≡◌, refl, ◌≢◌, inl, inr, true, false, ◌&&◌, ◌||◌,
  [], ◌∷◌, arith,
}
use boot_optim_distribution.Revision.Unicode.{
  low_unit, low_surrogate, after_unit, after_escape, Mode, outside, inside, drop, scan_byte,
}
use boot_optim_distribution.Revision.Unicode.Grammar.{
  IsUnit, four, IsEscape, simple, unit, pair, IsUnit-parse, after_escape-IsEscape,
}

length-drop : (n : ℕ) (s : Bytes) → length (drop n s) ≤ length s
unfolding drop
length-drop zero s = ground arith
length-drop (suc n) [] = ground arith
length-drop (suc n) (c ∷ s) = let shorter = length-drop n s in ground arith

IsUnit-shorter : (n : ℕ) (s rest : Bytes) → IsUnit n s rest → length rest ≤ length s
IsUnit-shorter n _ _ (four ea eb ec ed e) = ground arith

IsEscape-shorter : (s rest : Bytes) → IsEscape s rest → length rest ≤ length s
IsEscape-shorter _ _ (simple good) = ground arith
IsEscape-shorter _ _ (unit {n} {s} {rest} u plain) =
    let shorter = IsUnit-shorter n s rest u in ground arith
IsEscape-shorter _ _ (pair {high} {low} {s} {t} {rest} u bounds v bounds') =
    let first = IsUnit-shorter high s (92 ∷ 117 ∷ t) u in
    let second = IsUnit-shorter low t rest v in ground arith

IsEscape-after_escape : (s rest : Bytes) → IsEscape s rest → after_escape s ≡ ok rest
unfolding after_escape after_unit low_surrogate low_unit
IsEscape-after_escape _ _ (simple {c} {rest} good) =
    let other : (c != 117) ≡ true = ground (arith, good) in rw (other, good) refl
IsEscape-after_escape _ _ (unit {n} {s} {rest} u plain) =
    let high : (leb 55296 n && leb n 56319) ≡ false = ground (arith, plain) in
    let low : (leb 56320 n && leb n 57343) ≡ false = ground (arith, plain) in
    rw (IsUnit-parse s n rest u, high, low) refl
IsEscape-after_escape _ _ (pair {high} {low} {s} {t} {rest} u bounds v bounds') =
    let is_high : (leb 55296 high && leb high 56319) ≡ true = ground (arith, bounds) in
    let is_low : (ltb low 56320 || ltb 57343 low) ≡ false = ground (arith, bounds') in
    rw (IsUnit-parse s high (92 ∷ 117 ∷ t) u, is_high, IsUnit-parse t low rest v, is_low) refl

module _ (rune_size : Bytes → ℕ) where
  -- One round, on a byte and what follows it: the mode and the text that it leaves.
  pub data Reads : Mode → ℕ → Bytes → Mode → Bytes → Type 0 where
    skip : {c : ℕ} {rest : Bytes} → c ≢ 34 → Reads outside c rest outside rest
    opening : {rest : Bytes} → Reads outside 34 rest inside rest
    closing : {rest : Bytes} → Reads inside 34 rest outside rest
    plain :
        {c : ℕ} {rest : Bytes}
        → (32 ≤ c) × (c < 128)
        → (c ≢ 34) × (c ≢ 92)
        → Reads inside c rest inside rest
    escape : {s rest : Bytes} → IsEscape s rest → Reads inside 92 s inside rest
    rune :
        {c : ℕ} {rest : Bytes}
        → 128 ≤ c
        → rune_size (c ∷ rest) ≢ 1
        → Reads inside c rest inside (drop (rune_size (c ∷ rest) - 1) rest)

  pub Reads-shorter :
      (m : Mode) (c : ℕ) (s : Bytes) (m' : Mode) (rest : Bytes)
      → Reads m c s m' rest
      → length rest ≤ length s
  Reads-shorter _ _ _ _ _ (skip other) = ground arith
  Reads-shorter _ _ _ _ _ opening = ground arith
  Reads-shorter _ _ _ _ _ closing = ground arith
  Reads-shorter _ _ _ _ _ (plain a b) = ground arith
  Reads-shorter _ _ s _ rest (escape e) = IsEscape-shorter s rest e
  Reads-shorter _ c s _ _ (rune a b) = length-drop (rune_size (c ∷ s) - 1) s

  pub Reads-scan_byte :
      (m : Mode) (c : ℕ) (s : Bytes) (m' : Mode) (rest : Bytes)
      → Reads m c s m' rest
      → scan_byte rune_size m c s ≡ ok (m', rest)
  unfolding scan_byte
  Reads-scan_byte _ _ _ _ _ (skip {c} other) = let e : (c != 34) ≡ true = ground arith in rw e refl
  Reads-scan_byte _ _ _ _ _ opening = refl
  Reads-scan_byte _ _ _ _ _ closing = refl
  Reads-scan_byte _ _ _ _ _ (plain {c} (low, high) (a, b)) =
      let quote : (c == 34) ≡ false = ground arith in
      let control : ltb c 32 ≡ false = ground arith in
      let slash : (c == 92) ≡ false = ground arith in
      let ascii : leb 128 c ≡ false = ground arith in rw (quote, control, slash, ascii) refl
  Reads-scan_byte _ _ s _ rest (escape e) = rw (IsEscape-after_escape s rest e) refl
  Reads-scan_byte _ _ _ _ _ (rune {c} {rest = s} high size) =
      let quote : (c == 34) ≡ false = ground arith in
      let control : ltb c 32 ≡ false = ground arith in
      let slash : (c == 92) ≡ false = ground arith in
      let more : leb 128 c ≡ true = ground arith in
      let good : (rune_size (c ∷ s) == 1) ≡ false = ground arith in
      rw (quote, control, slash, more, good) refl

  pub scan_byte-Reads :
      (m : Mode) (c : ℕ) (s : Bytes) (m' : Mode) (rest : Bytes)
      → scan_byte rune_size m c s ≡ ok (m', rest)
      → Reads m c s m' rest
  unfolding scan_byte
  scan_byte-Reads outside c s m' rest h = elim (Bool-cases (c != 34)) [
    | inl other ↦
        let found : ok (outside, s) ≡ ok (m', rest) = rw other at h in
        let mode : outside ≡ m' = cc in
        let text : s ≡ rest = cc in rw (← mode, ← text) (skip {c = c} (ground arith))
    | inr quote ↦
        let found : ok (inside, s) ≡ ok (m', rest) = rw quote at h in
        let mode : inside ≡ m' = cc in
        let text : s ≡ rest = cc in
        let byte : c ≡ 34 = ground arith in rw (← mode, ← text, byte) opening
  ]
  scan_byte-Reads inside c s m' rest h = elim (Bool-cases (c == 34)) [
    | inl quote ↦
        let found : ok (outside, s) ≡ ok (m', rest) = rw quote at h in
        let mode : outside ≡ m' = cc in
        let text : s ≡ rest = cc in
        let byte : c ≡ 34 = ground arith in rw (← mode, ← text, byte) closing
    | inr other ↦
        let (printable, h₁) = guard_ok (ltb c 32) _ _ (rw other at h) in
        elim (Bool-cases (c == 92)) [
          | inl slash ↦
              let (next, e, h₂) = bind_ok (after_escape s) _ (rw slash at h₁) in
              let mode : inside ≡ m' = cc in
              let text : next ≡ rest = cc in
              let byte : c ≡ 92 = ground arith in
              rw (← mode, ← text, byte) (escape (after_escape-IsEscape s next e))
          | inr no_slash ↦ elim (Bool-cases (leb 128 c)) [
            | inl more ↦
                let (size, h₂) =
                  guard_ok (rune_size (c ∷ s) == 1) _ _ (rw (no_slash, more) at h₁) in
                let mode : inside ≡ m' = cc in
                let text : drop (rune_size (c ∷ s) - 1) s ≡ rest = cc in
                rw (← mode, ← text) (rune {c = c} {rest = s} (ground arith) (ground arith))
            | inr ascii ↦
                let found : ok (inside, s) ≡ ok (m', rest) = rw (no_slash, ascii) at h₁ in
                let mode : inside ≡ m' = cc in
                let text : s ≡ rest = cc in
                rw (← mode, ← text) (plain {c = c} (ground arith) (ground arith))
          ]
        ]
  ]
