-- ===== src/Semver/Parse.antt =====
-- `Parse` accepts the texts of the grammar, of at most 64 bytes, and returns what they spell.
use boot_optim_distribution.Base.{
  int_eq, length, all, is_empty, All, all_sound, all_complete, bind_ok, guard_ok, Bytes, bytes_eq,
  cut, split, is_digit, is_lower, is_upper, ltb, nat_eq, bool_eq, Bool-cases, Option-cases, join,
  cut-eq-some, split-ne-nil, join-split, ok, ℕ, ◌≤◌, ◌≡◌, refl, sym, ap, ◌∙◌, ◌≢◌, ◌↔◌, ◌⊎◌, inl,
  inr, true, false, ◌||◌, some, List, [], ◌∷◌, ◌++◌, arith,
}
use mathlib.Core.List.{append-nil}
use boot_optim_distribution.Semver.{
  Version, invalid, max_length, numeric, ident_char, valid_identifier, valid_identifiers,
  parse_build, parse_pre, core_part, core_of, parse,
}
use boot_optim_distribution.Semver.Grammar.{
  IsDigit, IsIdentChar, IsNumber, IsIdentifier, IsPreIdentifier, IsVersion, pre_text, build_text,
  render,
}

IsDigit-iff : (c : ℕ) → (is_digit c ≡ true) ↔ IsDigit c
unfolding is_digit
IsDigit-iff c = ground arith

ident_char_iff : (c : ℕ) → (ident_char c ≡ true) ↔ IsIdentChar c
unfolding ident_char is_digit is_lower is_upper
ident_char_iff c = ground arith

all-IsDigit : (s : Bytes) → all is_digit s ≡ true → All IsDigit s
all-IsDigit s = all_sound IsDigit is_digit (λ c. (IsDigit-iff c).0) s

digits_all : (s : Bytes) → All IsDigit s → all is_digit s ≡ true
digits_all s = all_complete IsDigit is_digit (λ c. (IsDigit-iff c).1) s

core_part-IsNumber : (s : Bytes) → core_part s ≡ true → IsNumber s
unfolding core_part numeric
core_part-IsNumber [] h = cc
core_part-IsNumber (c ∷ []) h = (all-IsDigit (c ∷ []) (ground arith), inr refl)
core_part-IsNumber (c ∷ d ∷ s) h = (all-IsDigit (c ∷ d ∷ s) (ground arith), inl (ground arith))

pub IsNumber-core_part : (s : Bytes) → IsNumber s → core_part s ≡ true
unfolding core_part numeric
IsNumber-core_part [] h = absurd h
IsNumber-core_part (c ∷ []) h = ground (arith, digits_all (c ∷ []) h.0)
IsNumber-core_part (c ∷ d ∷ s) h = ground (arith, digits_all (c ∷ d ∷ s) h.0)

all_ident : (s : Bytes) → all ident_char s ≡ true → All IsIdentChar s
all_ident s = all_sound IsIdentChar ident_char (λ c. (ident_char_iff c).0) s

ident_all : (s : Bytes) → All IsIdentChar s → all ident_char s ≡ true
ident_all s = all_complete IsIdentChar ident_char (λ c. (ident_char_iff c).1) s

pub IsIdentifier-iff : (id : Bytes) → (valid_identifier false id ≡ true) ↔ IsIdentifier id
unfolding valid_identifier
IsIdentifier-iff [] = (λ h. cc, λ h. absurd (h.0 refl))
IsIdentifier-iff (c ∷ id) =
    (λ h. (cc, all_ident (c ∷ id) (ground arith)), λ h. rw (ident_all (c ∷ id) h.1))

valid_identifier-IsPreIdentifier :
    (id : Bytes) → valid_identifier true id ≡ true → IsPreIdentifier id
unfolding valid_identifier numeric
valid_identifier-IsPreIdentifier [] h = cc
valid_identifier-IsPreIdentifier (c ∷ id) h = (
  (cc, all_ident (c ∷ id) (ground arith)),
  λ d.
      core_part-IsNumber (c ∷ id)
        (unfold core_part numeric in ground (arith, digits_all (c ∷ id) d)),
)

pub IsPreIdentifier-pre_identifier :
    (id : Bytes) → IsPreIdentifier id → valid_identifier true id ≡ true
unfolding valid_identifier
IsPreIdentifier-pre_identifier [] h = absurd (h.0.0 refl)
IsPreIdentifier-pre_identifier (c ∷ id) h = elim (Bool-cases (all is_digit (c ∷ id))) [
  | inl d ↦ rw (ident_all (c ∷ id) h.0.1) (
      unfold numeric core_part in
      ground (arith, IsNumber-core_part (c ∷ id) (h.1 (all-IsDigit (c ∷ id) d))))
  | inr d ↦ rw (ident_all (c ∷ id) h.0.1) (unfold numeric in ground arith)
]

identifiers-All :
    (s : Bytes) → valid_identifiers s false ≡ true → (s ≢ []) × All IsIdentifier (split b'.' s)
unfolding valid_identifiers
identifiers-All [] h = cc
identifiers-All (c ∷ s) h =
    (cc, all_sound IsIdentifier (valid_identifier false) (λ id. (IsIdentifier-iff id).0) _ h)

pre_identifiers-All :
    (s : Bytes) → valid_identifiers s true ≡ true → All IsPreIdentifier (split b'.' s)
unfolding valid_identifiers
pre_identifiers-All [] h = cc
pre_identifiers-All (c ∷ s) h =
    all_sound IsPreIdentifier (valid_identifier true) valid_identifier-IsPreIdentifier _ h

parse_build_inv :
    (s rest build : Bytes)
    → parse_build s ≡ ok (rest, build)
    → ((rest ≡ s) × (build ≡ []))
      ⊎ ((cut b'+' s ≡ some (rest, build)) × (valid_identifiers build false ≡ true))
unfolding parse_build
parse_build_inv s rest build h = ground arith

parse_pre_inv :
    (s rest : Bytes) (pre : List Bytes)
    → parse_pre s ≡ ok (rest, pre)
    → ((rest ≡ s) × (pre ≡ []))
      ⊎ ((text : Bytes) × (cut b'-' s ≡ some (rest, text))
          × (pre ≡ split b'.' text)
          × (valid_identifiers text true ≡ true))
unfolding parse_pre
parse_pre_inv s rest pre h = elim (Option-cases (cut b'-' s)) [
  | inl e ↦ inl (ground arith)
  | inr (p, e) ↦ inr (p.1, ground arith, ground arith, ground arith)
]

build_text-eq : (build : Bytes) → build ≢ [] → build_text build ≡ b'+' ∷ build
unfolding build_text
build_text-eq [] h = absurd (h refl)
build_text-eq (c ∷ s) h = refl

pre_text-eq : (pre : List Bytes) → pre ≢ [] → pre_text pre ≡ b'-' ∷ join b'.' pre
unfolding pre_text
pre_text-eq [] h = absurd (h refl)
pre_text-eq (p ∷ ps) h = refl

-- What `parse_build` leaves, and what it took, spell the text.
parse_build_sound :
    (s rest build : Bytes)
    → parse_build s ≡ ok (rest, build)
    → (s ≡ rest ++ build_text build) × ((build ≡ []) ⊎ All IsIdentifier (split b'.' build))
parse_build_sound s rest build h = elim (parse_build_inv s rest build h) [
  | inl e ↦ (rw (e.0, e.1) (unfold build_text in sym (append-nil s)), inl e.1)
  | inr e ↦
      let v = identifiers-All build e.1 in
      (rw (build_text-eq build v.0) (cut-eq-some b'+' s rest build e.0).0, inr v.1)
]

parse_pre_sound :
    (s rest : Bytes) (pre : List Bytes)
    → parse_pre s ≡ ok (rest, pre)
    → (s ≡ rest ++ pre_text pre) × All IsPreIdentifier pre
parse_pre_sound s rest pre h = elim (parse_pre_inv s rest pre h) [
  | inl e ↦ (rw (e.0, e.1) (unfold pre_text in sym (append-nil s)), rw e.1 tt)
  | inr e ↦ (
    rw (e.2, pre_text-eq _ (split-ne-nil b'.' e.0), join-split b'.' e.0)
        (cut-eq-some b'-' s rest e.0 e.1).0,
    rw e.2 (pre_identifiers-All e.0 e.3),
  )
]

core_of_sound :
    (ps : List Bytes) (a b c : Bytes)
    → core_of ps ≡ ok (a, b, c)
    → (ps ≡ a ∷ b ∷ c ∷ []) × IsNumber a × IsNumber b × IsNumber c
unfolding core_of
core_of_sound (x ∷ y ∷ z ∷ []) a b c h =
    ground (arith, core_part-IsNumber x, core_part-IsNumber y, core_part-IsNumber z)
core_of_sound _ a b c h = cc

core_text-eq :
    (s : Bytes) (a b c : Bytes) → split b'.' s ≡ a ∷ b ∷ c ∷ [] → s ≡ join b'.' (a ∷ b ∷ c ∷ [])
core_text-eq s a b c e = sym (join-split b'.' s) ∙ ap (join b'.') e

-- The three stages that a successful `parse` went through.
record Stages (s : Bytes) (v : Version) : Type 0 where
  fits : (length s ≤ 64)
  rest : Bytes
  core : Bytes
  build : parse_build s ≡ ok (rest, v.build)
  pre : parse_pre rest ≡ ok (core, v.pre)
  parts : core_of (split b'.' core) ≡ ok (v.major, v.minor, v.patch)

parse_inv : (s : Bytes) (v : Version) → parse s ≡ ok v → Stages s v
unfolding parse
parse_inv s v h =
    let (short, run) = guard_ok (is_empty s || ltb max_length (length s)) invalid _ h in
    let (b, eb, run₁) = bind_ok (parse_build s) _ run in
    let (p, ep, run₂) = bind_ok (parse_pre b.0) _ run₁ in
    let (c, ec, run₃) = bind_ok (core_of (split b'.' p.0)) _ run₂ in
    record {
      fits = ground arith;
      rest = b.0;
      core = p.0;
      build = ground arith;
      pre = ground arith;
      parts = ground arith;
    }

-- A text that `parse` accepts is at most 64 bytes long, the version is well formed, and printing it
-- gives the text back.
pub render-parse :
    (s : Bytes) (v : Version)
    → parse s ≡ ok v
    → (render v ≡ s) × IsVersion v × (length s ≤ max_length)
render-parse s v h =
    let st = parse_inv s v h in
    let b = parse_build_sound s st.rest v.build st.build in
    let p = parse_pre_sound st.rest st.core v.pre st.pre in
    let c = core_of_sound (split b'.' st.core) v.major v.minor v.patch st.parts in
    let core = core_text-eq st.core v.major v.minor v.patch c.0 in
    (
      unfold render in cc (b.0, p.0, core),
      record { major = c.1; minor = c.2; patch = c.3; pre = p.1; build = b.1 },
      st.fits,
    )
