-- ===== src/Revision/Jvm/Argument/Allowed.antt =====
-- The proof that the allowlist accepts the forms that it is meant to, and no others.
use boot_optim_distribution.Base.{
  int_eq, length, is_empty, All, all_sound, all_complete, contains, Bytes, codes, bytes_eq,
  after_prefix, cut, contains_byte, ltb, ◌==◌, nat_eq, bool_eq, Bool-cases, Option-cases, Lacks,
  cut-eq-some, cut-append, All-Lacks, after_prefix-eq_some, after_prefix-append, ok, ℕ, ◌≤◌, ◌<◌,
  ◌≡◌, refl, ap, ◌∙◌, ◌≢◌, ◌↔◌, ◌⊎◌, inl, inr, true, false, ◌||◌, some, [], ◌∷◌, ◌++◌, arith,
}
use boot_optim_distribution.Revision.Jvm.Argument.{
  max_argument_bytes, validate_xx_value, validate_xx_argument, is_printable, validate_property,
  after_size_prefix, validate_form, validate_argument,
}
use boot_optim_distribution.Revision.Jvm.Argument.Forms.{
  IsLetter, IsNameChar, IsFlagName, IsSize, IsNumberText, Allowed, valid_size-IsSize,
  IsSize-valid_size, valid_number-IsNumberText, IsNumberText-valid_number,
  validate_flag_name-IsFlagName, IsFlagName-validate_flag_name, switch, setting, memory,
}

module _ (arg : Bytes) where
  xx_value-Allowed :
      (body : Bytes) → arg ≡ codes "-XX:" ++ body → validate_xx_value body ≡ ok tt → Allowed arg
  unfolding validate_xx_value
  xx_value-Allowed body e h = elim (Option-cases (cut b'=' body)) [
    | inl c ↦ absurd (ground arith)
    | inr ((name, value), c) ↦
        setting name value (validate_flag_name-IsFlagName name (ground arith))
          (valid_number-IsNumberText value (ground arith))
          (e ∙ ap (λ t. codes "-XX:" ++ t) (cut-eq-some b'=' body name value c).0)
  ]

  xx_argument-Allowed :
      (body : Bytes) → arg ≡ codes "-XX:" ++ body → validate_xx_argument body ≡ ok tt → Allowed arg
  unfolding validate_xx_argument
  xx_argument-Allowed [] e h = xx_value-Allowed [] e h
  xx_argument-Allowed (c ∷ body) e h = elim (Bool-cases (c == b'+' || c == b'-')) [
    | inl s ↦ switch c body (ground arith) (validate_flag_name-IsFlagName body (ground arith)) e
    | inr s ↦ xx_value-Allowed (c ∷ body) e (ground arith)
  ]

  size_prefix :
      (value : Bytes)
      → after_size_prefix arg ≡ some value
      → (prefix : Bytes) × ((prefix ≡ codes "-Xss")
          ⊎ (prefix ≡ codes "-Xms")
          ⊎ (prefix ≡ codes "-Xmx"))
        × (arg ≡ prefix ++ value)
  unfolding after_size_prefix
  size_prefix value h = elim (Option-cases (after_prefix (codes "-Xss") arg)) [
    | inr (r, e) ↦
        (codes "-Xss", inl refl, after_prefix-eq_some (codes "-Xss") arg value (ground arith))
    | inl e ↦ elim (Option-cases (after_prefix (codes "-Xms") arg)) [
      | inr (r, f) ↦ (
        codes "-Xms",
        inr (inl refl),
        after_prefix-eq_some (codes "-Xms") arg value (ground arith),
      )
      | inl f ↦ (
        codes "-Xmx",
        inr (inr refl),
        after_prefix-eq_some (codes "-Xmx") arg value (ground arith),
      )
    ]
  ]

  property_never : (body : Bytes) → validate_property body ≢ ok tt
  unfolding validate_property contains
  property_never body h = ground arith

  form-Allowed : validate_form arg ≡ ok tt → Allowed arg
  unfolding validate_form
  form-Allowed h = elim (Option-cases (after_prefix (codes "-XX:") arg)) [
    | inr (body, e) ↦
        xx_argument-Allowed body (after_prefix-eq_some (codes "-XX:") arg body e) (ground arith)
    | inl e ↦ elim (Option-cases (after_size_prefix arg)) [
      | inr (value, f) ↦
          let (prefix, which, spelled) = size_prefix value f in
          memory prefix value which (valid_size-IsSize value (ground arith)) spelled
      | inl f ↦ elim (Option-cases (after_prefix (codes "-D") arg)) [
        | inr (body, d) ↦ absurd (property_never body (ground arith))
        | inl d ↦ absurd (ground arith)
      ]
    ]
  ]

sign-test : (c : ℕ) → (c ≡ b'+') ⊎ (c ≡ b'-') → (c == b'+' || c == b'-') ≡ true
sign-test c h = ground arith

letter-no-sign : (c : ℕ) → IsLetter c → (c == b'+' || c == b'-') ≡ false
letter-no-sign c h = ground arith

name-Lacks_equals : (s : Bytes) → IsFlagName s → Lacks b'=' s
unfolding contains_byte
name-Lacks_equals [] h = absurd h
name-Lacks_equals (c ∷ s) h = ground (arith, All-Lacks b'=' IsNameChar (λ d k. ground arith) s h.1)

setting-accepted :
    (name value : Bytes)
    → IsFlagName name
    → IsNumberText value
    → validate_xx_argument (name ++ (b'=' ∷ value)) ≡ ok tt
unfolding validate_xx_argument validate_xx_value
setting-accepted [] value h k = absurd h
setting-accepted (c ∷ s) value h k = rw (letter-no-sign c h.0) (
    rw
      (
        cut-append b'=' (c ∷ s) value (name-Lacks_equals (c ∷ s) h),
        validate_xx_value,
        IsNumberText-valid_number value k,
      )
      (IsFlagName-validate_flag_name (c ∷ s) h))

memory-accepted :
    (prefix value : Bytes)
    → (prefix ≡ codes "-Xss") ⊎ (prefix ≡ codes "-Xms") ⊎ (prefix ≡ codes "-Xmx")
    → IsSize value
    → validate_form (prefix ++ value) ≡ ok tt
unfolding validate_form after_size_prefix after_prefix
memory-accepted prefix value (inl e) k = rw e (rw (IsSize-valid_size value k))
memory-accepted prefix value (inr (inl e)) k = rw e (rw (IsSize-valid_size value k))
memory-accepted prefix value (inr (inr e)) k = rw e (rw (IsSize-valid_size value k))

Allowed-form : (arg : Bytes) → Allowed arg → validate_form arg ≡ ok tt
unfolding validate_form
Allowed-form arg (switch sign name s n e) =
    rw (e, validate_form, after_prefix-append (codes "-XX:") (sign ∷ name))
      (unfold validate_xx_argument in rw (sign-test sign s) (IsFlagName-validate_flag_name name n))
Allowed-form arg (setting name value n v e) =
    rw (e, validate_form, after_prefix-append (codes "-XX:") (name ++ (b'=' ∷ value)))
      (setting-accepted name value n v)
Allowed-form arg (memory prefix value p v e) = rw e (memory-accepted prefix value p v)

Allowed-nonempty : (arg : Bytes) → Allowed arg → is_empty arg ≡ false
Allowed-nonempty arg (switch sign name s n e) = rw e
Allowed-nonempty arg (setting name value n v e) = rw e
Allowed-nonempty arg (memory prefix value (inl p) v e) = rw e (rw p)
Allowed-nonempty arg (memory prefix value (inr (inl p)) v e) = rw e (rw p)
Allowed-nonempty arg (memory prefix value (inr (inr p)) v e) = rw e (rw p)

abbrev pub IsPrintable : ℕ → Type 0
IsPrintable c = (b' ' < c) × (c ≤ b'~')

IsPrintable-iff : (c : ℕ) → (is_printable c ≡ true) ↔ IsPrintable c
unfolding is_printable
IsPrintable-iff c = ground arith

validated-Allowed :
    (arg : Bytes)
    → validate_argument arg ≡ ok tt
    → (length arg ≤ max_argument_bytes) × All IsPrintable arg × Allowed arg
unfolding validate_argument
validated-Allowed arg h = (
  ground arith,
  all_sound IsPrintable is_printable (λ c. (IsPrintable-iff c).0) arg (ground arith),
  form-Allowed arg (ground arith),
)

-- `ValidateJVMArgument` accepts exactly the texts of at most 256 printable bytes, none of them a
-- space, that switch a flag which is not denied, set such a flag to a number or size, or set the
-- stack or heap to a size.
pub validate_argument_iff :
    (arg : Bytes)
    → (validate_argument arg ≡ ok tt)
      ↔ ((length arg ≤ max_argument_bytes) × All IsPrintable arg × Allowed arg)
validate_argument_iff arg = (
  validated-Allowed arg,
  λ p.
      let short : ltb max_argument_bytes (length arg) ≡ false = ground arith in
      unfold validate_argument in
      rw
        (
          Allowed-nonempty arg p.2,
          short,
          all_complete IsPrintable is_printable (λ c. (IsPrintable-iff c).1) arg p.1,
        )
        (Allowed-form arg p.2),
)
