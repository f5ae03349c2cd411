-- ===== src/Semver/Complete.antt =====
-- Every version of the grammar is parsed back from the text that spells it.
use boot_optim_distribution.Base.{
  int_eq, length, is_empty, All, all_complete, Bytes, bytes_eq, split, contains_byte, ltb, nat_eq,
  bool_eq, Lacks, join, Lacks-append, cut-Lacks, cut-append, split-join, All-Lacks, join-Lacks,
  is_empty-append, is_empty-join, ok, ℕ, ◌≤◌, ◌<◌, ◌≡◌, refl, ◌≢◌, ◌⊎◌, inl, inr, true, false, List,
  [], ◌∷◌, ◌++◌, arith,
}
use mathlib.Core.List.{append-nil}
use boot_optim_distribution.Semver.{
  Version, max_length, valid_identifier, valid_identifiers, parse_build, parse_pre, core_of, parse,
}
use boot_optim_distribution.Semver.Grammar.{
  IsDigit, IsIdentChar, IsNumber, IsIdentifier, IsPreIdentifier, IsVersion, pre_text, build_text,
  render,
}
use boot_optim_distribution.Semver.Parse.{
  IsIdentifier-iff, IsPreIdentifier-pre_identifier, IsNumber-core_part,
}

number_digits : (s : Bytes) → IsNumber s → All IsDigit s × (is_empty s ≡ false)
number_digits [] h = absurd h
number_digits (c ∷ s) h = (h.0, refl)

number-Lacks : (b : ℕ) → b < b'0' → (s : Bytes) → IsNumber s → Lacks b s
number-Lacks b lt s h = All-Lacks b IsDigit (λ c d. omega arith) s (number_digits s h).0

ident-Lacks : (b : ℕ) → b < b'-' → (s : Bytes) → All IsIdentChar s → Lacks b s
ident-Lacks b lt s h = All-Lacks b IsIdentChar (λ c d. omega arith) s h

dot-Lacks : (s : Bytes) → All IsIdentChar s → Lacks b'.' s
dot-Lacks s h = All-Lacks b'.' IsIdentChar (λ c d. omega arith) s h

nonempty : (s : Bytes) → s ≢ [] → is_empty s ≡ false
nonempty [] h = absurd (h refl)
nonempty (c ∷ s) h = refl

pre-Lacks : (b : ℕ) → b < b'-' → (pre : List Bytes) → All IsPreIdentifier pre → All (Lacks b) pre
pre-Lacks b lt [] h = tt
pre-Lacks b lt (p ∷ ps) h = (ident-Lacks b lt p h.0.0.1, pre-Lacks b lt ps h.1)

pre-Lacks_dot : (pre : List Bytes) → All IsPreIdentifier pre → All (Lacks b'.') pre
pre-Lacks_dot [] h = tt
pre-Lacks_dot (p ∷ ps) h = (dot-Lacks p h.0.0.1, pre-Lacks_dot ps h.1)

parse_build_complete :
    (rest build : Bytes)
    → Lacks b'+' rest
    → (build ≡ []) ⊎ All IsIdentifier (split b'.' build)
    → parse_build (rest ++ build_text build) ≡ ok (rest, build)
unfolding parse_build build_text
parse_build_complete rest [] lacks h = rw append-nil (rw (cut-Lacks b'+' rest lacks, parse_build))
parse_build_complete rest (c ∷ s) lacks (inl e) = absurd (cc)
parse_build_complete rest (c ∷ s) lacks (inr h) =
    rw (cut-append b'+' rest (c ∷ s) lacks, parse_build)
      (unfold valid_identifiers in
        rw (all_complete IsIdentifier (valid_identifier false) (λ id. (IsIdentifier-iff id).1) _ h))

parse_pre_complete :
    (rest : Bytes) (pre : List Bytes)
    → Lacks b'-' rest
    → All IsPreIdentifier pre
    → parse_pre (rest ++ pre_text pre) ≡ ok (rest, pre)
unfolding parse_pre pre_text
parse_pre_complete rest [] lacks h = rw append-nil (rw (cut-Lacks b'-' rest lacks, parse_pre))
parse_pre_complete rest (p ∷ ps) lacks h =
    rw (cut-append b'-' rest (join b'.' (p ∷ ps)) lacks, parse_pre)
      (unfold valid_identifiers in
        rw (
          is_empty-join b'.' p ps (nonempty p h.0.0.0),
          split-join b'.' p ps (pre-Lacks_dot (p ∷ ps) h),
          all_complete IsPreIdentifier (valid_identifier true) IsPreIdentifier-pre_identifier _ h,
        ))

core_of_complete :
    (a b c : Bytes)
    → IsNumber a
    → IsNumber b
    → IsNumber c
    → core_of (split b'.' (join b'.' (a ∷ b ∷ c ∷ []))) ≡ ok (a, b, c)
unfolding core_of
core_of_complete a b c ha hb hc =
    let lt : b'.' < b'0' = omega arith in
    rw (
      split-join b'.' a (b ∷ c ∷ [])
          (number-Lacks b'.' lt a ha, (number-Lacks b'.' lt b hb, (number-Lacks b'.' lt c hc, tt))),
      IsNumber-core_part a ha,
      IsNumber-core_part b hb,
      IsNumber-core_part c hc,
    )

core-Lacks :
    (x : ℕ) (a b c : Bytes)
    → x < b'.'
    → IsNumber a
    → IsNumber b
    → IsNumber c
    → Lacks x (join b'.' (a ∷ b ∷ c ∷ []))
core-Lacks x a b c lt ha hb hc = join-Lacks x b'.' (omega arith) (a ∷ b ∷ c ∷ []) (
  number-Lacks x (omega arith) a ha,
  (number-Lacks x (omega arith) b hb, (number-Lacks x (omega arith) c hc, tt)),
)

pre_text-Lacks : (pre : List Bytes) → All IsPreIdentifier pre → Lacks b'+' (pre_text pre)
unfolding pre_text contains_byte
pre_text-Lacks [] h = refl
pre_text-Lacks (p ∷ ps) h =
    join-Lacks b'+' b'.' (omega arith) (p ∷ ps) (pre-Lacks b'+' (omega arith) (p ∷ ps) h)

-- The text that spells a well-formed version, if it has at most 64 bytes, parses to that version.
pub parse-render :
    (v : Version) → IsVersion v → length (render v) ≤ max_length → parse (render v) ≡ ok v
unfolding parse render
parse-render v h fits =
    let core = join b'.' (v.major ∷ v.minor ∷ v.patch ∷ []) in
    let lacks = core-Lacks b'-' v.major v.minor v.patch (omega arith) h.major h.minor h.patch in
    let plus =
      Lacks-append b'+' core (pre_text v.pre)
        (core-Lacks b'+' v.major v.minor v.patch (omega arith) h.major h.minor h.patch)
        (pre_text-Lacks v.pre h.pre) in
    let full = is_empty-append (core ++ pre_text v.pre) (build_text v.build) (
      is_empty-append core (pre_text v.pre)
        (is_empty-join b'.' v.major (v.minor ∷ v.patch ∷ []) (number_digits v.major h.major).1)) in
    let short : ltb max_length (length ((core ++ pre_text v.pre) ++ build_text v.build)) ≡ false =
      ground arith in
    rw (
      full,
      short,
      parse_build_complete (core ++ pre_text v.pre) v.build plus h.build,
      parse_pre_complete core v.pre lacks h.pre,
      core_of_complete v.major v.minor v.patch h.major h.minor h.patch,
    )
