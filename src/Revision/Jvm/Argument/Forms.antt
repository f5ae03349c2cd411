-- ===== src/Revision/Jvm/Argument/Forms.antt =====
-- The arguments that the allowlist is meant to accept, and what its tests on names and numbers say.
use boot_optim_distribution.Base.{
  int_eq, length, is_empty, All, all_sound, all_complete, contains-false, contains_of_All, Bytes,
  codes, bytes_eq, cut, is_digit, is_lower, is_upper, leb, nat_eq, bool_eq, Bool-cases,
  Option-cases, cut-eq-some, cut-append, All-Lacks, ok, ℕ, ◌≤◌, ◌≡◌, refl, ap, ◌≢◌, ◌↔◌, ◌⊎◌, inl,
  inr, true, false, some, [], ◌∷◌, ◌++◌, arith,
}
use boot_optim_distribution.Revision.Jvm.Argument.{
  denied_xx_flags, all_digits, is_unit, without_unit, valid_size, valid_number, is_letter,
  name_char, valid_flag_name, validate_flag_name,
}

abbrev pub IsDigit : ℕ → Type 0
IsDigit c = (b'0' ≤ c) × (c ≤ b'9')

abbrev pub IsLetter : ℕ → Type 0
IsLetter c = ((b'A' ≤ c) × (c ≤ b'Z')) ⊎ ((b'a' ≤ c) × (c ≤ b'z'))

abbrev pub IsNameChar : ℕ → Type 0
IsNameChar c = IsLetter c ⊎ IsDigit c ⊎ (c ≡ b'_')

-- A flag's name: a letter, then letters, digits and '_', at most 80 bytes, and not a denied flag.
abbrev pub IsFlagName : Bytes → Type 0
IsFlagName [] = ⊥
IsFlagName (c ∷ s) =
    IsLetter c × All IsNameChar s × (length (c ∷ s) ≤ 80) × All (λ d. d ≢ c ∷ s) denied_xx_flags

-- One to nineteen digits.
abbrev pub IsDigits : Bytes → Type 0
IsDigits s = (s ≢ []) × (length s ≤ 19) × All IsDigit s

-- Digits, with at most one unit behind them.
pub data IsSize (s : Bytes) : Type 0 where
  plain : IsDigits s → IsSize s
  scaled : (n : Bytes) (u : ℕ) → IsDigits n → is_unit u ≡ true → s ≡ n ++ (u ∷ []) → IsSize s

pub data IsNumberText (s : Bytes) : Type 0 where
  size : IsSize s → IsNumberText s
  with_fraction : (w f : Bytes) → IsDigits w → IsDigits f → s ≡ w ++ (b'.' ∷ f) → IsNumberText s

-- The accepted forms. No `-D` argument is among them, and a flag never takes a text for its value.
pub data Allowed (arg : Bytes) : Type 0 where
  switch :
      (sign : ℕ) (name : Bytes)
      → (sign ≡ b'+') ⊎ (sign ≡ b'-')
      → IsFlagName name
      → arg ≡ codes "-XX:" ++ (sign ∷ name)
      → Allowed arg
  setting :
      (name value : Bytes)
      → IsFlagName name
      → IsNumberText value
      → arg ≡ codes "-XX:" ++ (name ++ (b'=' ∷ value))
      → Allowed arg
  memory :
      (prefix value : Bytes)
      → (prefix ≡ codes "-Xss") ⊎ (prefix ≡ codes "-Xms") ⊎ (prefix ≡ codes "-Xmx")
      → IsSize value
      → arg ≡ prefix ++ value
      → Allowed arg

pub IsDigit-iff : (c : ℕ) → (is_digit c ≡ true) ↔ IsDigit c
unfolding is_digit
IsDigit-iff c = ground arith

pub name_char_iff : (c : ℕ) → (name_char c ≡ true) ↔ IsNameChar c
unfolding name_char is_letter is_upper is_lower is_digit
name_char_iff c = ground arith

pub IsLetter-iff : (c : ℕ) → (is_letter c ≡ true) ↔ IsLetter c
unfolding is_letter is_upper is_lower
IsLetter-iff c = ground arith

pub all_digits-IsDigits : (s : Bytes) → all_digits s ≡ true → IsDigits s
unfolding all_digits
all_digits-IsDigits [] h = cc
all_digits-IsDigits (c ∷ s) h =
    (cc, ground arith, all_sound IsDigit is_digit (λ d. (IsDigit-iff d).0) (c ∷ s) (ground arith))

pub IsDigits-all_digits : (s : Bytes) → IsDigits s → all_digits s ≡ true
unfolding all_digits
IsDigits-all_digits [] h = absurd (h.0 refl)
IsDigits-all_digits (c ∷ s) h =
    ground (arith, all_complete IsDigit is_digit (λ d. (IsDigit-iff d).1) (c ∷ s) h.2)

-- A text is its part without the unit, or that part and a unit.
pub without_unit-cases :
    (s : Bytes)
    → (without_unit s ≡ s) ⊎ ((u : ℕ) × (is_unit u ≡ true) × (s ≡ without_unit s ++ (u ∷ [])))
unfolding without_unit
without_unit-cases [] = inl refl
without_unit-cases (c ∷ []) = elim (Bool-cases (is_unit c)) [
  | inl e ↦ inr (c, e, rw e)
  | inr e ↦ inl (rw e)
]
without_unit-cases (c ∷ d ∷ s) = elim (without_unit-cases (d ∷ s)) [
  | inl e ↦ inl (ap (λ t. c ∷ t) e)
  | inr (u, unit, e) ↦ inr (u, unit, ap (λ t. c ∷ t) e)
]

pub without_unit-append : (n : Bytes) (u : ℕ) → is_unit u ≡ true → without_unit (n ++ (u ∷ [])) ≡ n
unfolding without_unit
without_unit-append [] u h = rw h
without_unit-append (c ∷ []) u h = rw h
without_unit-append (c ∷ d ∷ n) u h = ap (λ t. c ∷ t) (without_unit-append (d ∷ n) u h)

pub digit-not-unit : (c : ℕ) → IsDigit c → is_unit c ≡ false
unfolding is_unit
digit-not-unit c h = ground arith

pub without_unit-digits : (s : Bytes) → All IsDigit s → without_unit s ≡ s
unfolding without_unit
without_unit-digits [] h = refl
without_unit-digits (c ∷ []) h = rw (digit-not-unit c h.0)
without_unit-digits (c ∷ d ∷ s) h = ap (λ t. c ∷ t) (without_unit-digits (d ∷ s) h.1)

pub valid_size-IsSize : (s : Bytes) → valid_size s ≡ true → IsSize s
unfolding valid_size
valid_size-IsSize [] h = cc
valid_size-IsSize (c ∷ s) h = elim (without_unit-cases (c ∷ s)) [
  | inl e ↦ plain (rw e at (all_digits-IsDigits _ h))
  | inr (u, unit, e) ↦ scaled (without_unit (c ∷ s)) u (all_digits-IsDigits _ h) unit e
]

pub is_empty-snoc : (n : Bytes) (u : ℕ) → is_empty (n ++ (u ∷ [])) ≡ false
is_empty-snoc [] u = refl
is_empty-snoc (c ∷ n) u = refl

pub nonempty : (s : Bytes) → s ≢ [] → is_empty s ≡ false
nonempty [] h = absurd (h refl)
nonempty (c ∷ s) h = refl

pub IsSize-valid_size : (s : Bytes) → IsSize s → valid_size s ≡ true
unfolding valid_size
IsSize-valid_size s (plain d) =
    rw (nonempty s d.0, without_unit-digits s d.2) (IsDigits-all_digits s d)
IsSize-valid_size s (scaled n u d unit e) =
    rw e (rw (is_empty-snoc n u, without_unit-append n u unit) (IsDigits-all_digits n d))

pub digit-ne-dot : (c : ℕ) → IsDigit c → c ≢ b'.'
digit-ne-dot c h = omega arith

pub valid_number-IsNumberText : (s : Bytes) → valid_number s ≡ true → IsNumberText s
unfolding valid_number
valid_number-IsNumberText s h = elim (Bool-cases (valid_size s)) [
  | inl e ↦ size (valid_size-IsSize s e)
  | inr e ↦ elim (Option-cases (cut b'.' s)) [
    | inl c ↦ absurd (ground arith)
    | inr ((w, f), c) ↦
        with_fraction w f (all_digits-IsDigits w (ground arith))
          (all_digits-IsDigits f (ground arith)) (cut-eq-some b'.' s w f c).0
  ]
]

pub IsNumberText-valid_number : (s : Bytes) → IsNumberText s → valid_number s ≡ true
unfolding valid_number
IsNumberText-valid_number s (size z) = rw (IsSize-valid_size s z)
IsNumberText-valid_number s (with_fraction w f dw df e) =
    let c : cut b'.' s ≡ some (w, f) =
      rw e (cut-append b'.' w f (All-Lacks b'.' IsDigit digit-ne-dot w dw.2)) in
    ground (arith, IsDigits-all_digits w dw, IsDigits-all_digits f df)

pub validate_flag_name-IsFlagName : (s : Bytes) → validate_flag_name s ≡ ok tt → IsFlagName s
unfolding validate_flag_name valid_flag_name
validate_flag_name-IsFlagName [] h = cc
validate_flag_name-IsFlagName (c ∷ s) h = (
  (IsLetter-iff c).0 (ground arith),
  all_sound IsNameChar name_char (λ d. (name_char_iff d).0) s (ground arith),
  ground arith,
  contains-false (c ∷ s) denied_xx_flags (ground arith),
)

pub IsFlagName-validate_flag_name : (s : Bytes) → IsFlagName s → validate_flag_name s ≡ ok tt
unfolding validate_flag_name valid_flag_name
IsFlagName-validate_flag_name [] h = absurd h
IsFlagName-validate_flag_name (c ∷ s) h =
    let short : leb (length (c ∷ s)) 80 ≡ true = ground (arith, h.2) in
    rw (
      short,
      (IsLetter-iff c).1 h.0,
      all_complete IsNameChar name_char (λ d. (name_char_iff d).1) s h.1,
      contains_of_All (c ∷ s) denied_xx_flags h.3,
    )
