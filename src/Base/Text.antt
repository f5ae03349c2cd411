-- ===== src/Base/Text.antt =====
-- Laws of cutting, splitting and joining text at one byte.
use Prim.Native.Nat.{ℕ}
use mathlib.Core.Path.{◌≡◌, refl, ap}
use mathlib.Core.Logic.{◌≢◌, inl, inr}
use mathlib.Core.Bool.{false}
use mathlib.Core.List.{List, [], ◌∷◌, ◌++◌}
use mathlib.Core.Option.{none, some}
use native.Mathlib.Omega.{arith}
use boot_optim_distribution.Base.Tests.{◌==◌, if◌then◌else◌, nat_eq, Bool-cases}
use boot_optim_distribution.Base.Lists.{All, is_empty}
use boot_optim_distribution.Base.Strings.{after_prefix, Bytes, cut, split, cons_head, contains_byte}

abbrev pub Lacks : ℕ → Bytes → Type 0
Lacks b s = contains_byte b s ≡ false

-- `strings.Join` with a separator of one byte.
unfoldable pub join : ℕ → List Bytes → Bytes
join sep [] = []
join sep (p ∷ []) = p
join sep (p ∷ q ∷ ps) = p ++ (sep ∷ join sep (q ∷ ps))

pub Lacks-append : (sep : ℕ) (a b : Bytes) → Lacks sep a → Lacks sep b → Lacks sep (a ++ b)
unfolding contains_byte
Lacks-append sep [] b h k = k
Lacks-append sep (c ∷ a) b h k = ground (arith, Lacks-append sep a b)

module _ (sep : ℕ) where
  cut_cons_sep : (s : Bytes) → cut sep (sep ∷ s) ≡ some ([], s)
  unfolding cut
  cut_cons_sep s = ground arith

  pub cut-eq-none : (s : Bytes) → cut sep s ≡ none → Lacks sep s
  unfolding cut contains_byte
  cut-eq-none [] h = refl
  cut-eq-none (c ∷ s) h = ground (arith, cut-eq-none s)

  pub cut-eq-some : (s a b : Bytes) → cut sep s ≡ some (a, b) → (s ≡ a ++ (sep ∷ b)) × Lacks sep a
  unfolding cut contains_byte
  cut-eq-some [] a b h = cc
  cut-eq-some (c ∷ s) [] b h = ground (arith)
  cut-eq-some (c ∷ s) (d ∷ a) b h = ground (arith, cut-eq-some s a b)

  pub cut-Lacks : (s : Bytes) → Lacks sep s → cut sep s ≡ none
  unfolding cut contains_byte
  cut-Lacks [] h = refl
  cut-Lacks (c ∷ s) h = ground (arith, cut-Lacks s)

  pub cut-append : (a b : Bytes) → Lacks sep a → cut sep (a ++ (sep ∷ b)) ≡ some (a, b)
  unfolding cut contains_byte
  cut-append [] b h = cut_cons_sep b
  cut-append (c ∷ a) b h = ground (arith, cut-append a b)

  pub split-ne-nil : (s : Bytes) → split sep s ≢ []
  unfolding split
  split-ne-nil [] h = cc
  split-ne-nil (c ∷ s) h = ground arith

  join-cons_head : (c : ℕ) (ps : List Bytes) → join sep (cons_head c ps) ≡ c ∷ join sep ps
  unfolding join
  join-cons_head c [] = refl
  join-cons_head c (p ∷ []) = refl
  join-cons_head c (p ∷ q ∷ ps) = refl

  join_nil_cons : (ps : List Bytes) → ps ≢ [] → join sep ([] ∷ ps) ≡ sep ∷ join sep ps
  unfolding join
  join_nil_cons [] h = absurd (h refl)
  join_nil_cons (p ∷ ps) h = refl

  -- Joining the parts of a split gives the text back.
  pub join-split : (s : Bytes) → join sep (split sep s) ≡ s
  unfolding split join
  join-split [] = refl
  join-split (c ∷ s) = ground (
    arith,
    join-split s,
    join-cons_head c (split sep s),
    join_nil_cons (split sep s) (split-ne-nil s),
  )

  split-append-sep : (p s : Bytes) → Lacks sep p → split sep (p ++ (sep ∷ s)) ≡ p ∷ split sep s
  unfolding split contains_byte
  split-append-sep [] s h = ground arith
  split-append-sep (c ∷ p) s h = ground (arith, split-append-sep p s)

  pub split-Lacks : (p : Bytes) → Lacks sep p → split sep p ≡ p ∷ []
  unfolding split contains_byte
  split-Lacks [] h = refl
  split-Lacks (c ∷ p) h = ground (arith, split-Lacks p)

  -- Splitting a join gives the parts back, if none of them holds the separator.
  pub split-join :
      (p : Bytes) (ps : List Bytes)
      → All (Lacks sep) (p ∷ ps)
      → split sep (join sep (p ∷ ps)) ≡ p ∷ ps
  unfolding join
  split-join p [] h = split-Lacks p h.0
  split-join p (q ∷ ps) h =
      rw (split-append-sep p (join sep (q ∷ ps)) h.0) (ap (λ t. p ∷ t) (split-join q ps h.1))

  cons_head-All-Lacks :
      (c : ℕ) (ps : List Bytes)
      → (c == sep) ≡ false
      → All (Lacks sep) ps
      → All (Lacks sep) (cons_head c ps)
  unfolding contains_byte
  cons_head-All-Lacks c [] e h = (rw e, tt)
  cons_head-All-Lacks c (p ∷ ps) e h = (rw e h.0, h.1)

  split_step-All-Lacks :
      (c : ℕ) (ps : List Bytes)
      → All (Lacks sep) ps
      → All (Lacks sep) (if c == sep then [] ∷ ps else cons_head c ps)
  unfolding contains_byte
  split_step-All-Lacks c ps h = elim (Bool-cases (c == sep)) [
    | inl e ↦ rw e (refl, h)
    | inr e ↦ rw e (cons_head-All-Lacks c ps e h)
  ]

  -- No part of a split holds the separator.
  pub split-All-Lacks : (s : Bytes) → All (Lacks sep) (split sep s)
  unfolding split contains_byte
  split-All-Lacks [] = (refl, tt)
  split-All-Lacks (c ∷ s) = split_step-All-Lacks c (split sep s) (split-All-Lacks s)

pub All-Lacks :
    (b : ℕ) (P : ℕ → Type 0) → ((c : ℕ) → P c → c ≢ b) → (s : Bytes) → All P s → Lacks b s
unfolding contains_byte
All-Lacks b P f [] h = refl
All-Lacks b P f (c ∷ s) h = ground (arith, f c h.0, All-Lacks b P f s h.1)

pub join-Lacks :
    (b sep : ℕ) → sep ≢ b → (ps : List Bytes) → All (Lacks b) ps → Lacks b (join sep ps)
unfolding join contains_byte
join-Lacks b sep ne [] h = refl
join-Lacks b sep ne (p ∷ []) h = h.0
join-Lacks b sep ne (p ∷ q ∷ ps) h =
    Lacks-append b p (sep ∷ join sep (q ∷ ps)) h.0
      (ground (arith, join-Lacks b sep ne (q ∷ ps) h.1))

pub is_empty-append : (a b : Bytes) → is_empty a ≡ false → is_empty (a ++ b) ≡ false
is_empty-append [] b h = cc
is_empty-append (c ∷ a) b h = refl

pub is_empty-join :
    (sep : ℕ) (p : Bytes) (ps : List Bytes)
    → is_empty p ≡ false
    → is_empty (join sep (p ∷ ps)) ≡ false
unfolding join
is_empty-join sep p [] h = h
is_empty-join sep p (q ∷ ps) h = is_empty-append p (sep ∷ join sep (q ∷ ps)) h

pub after_prefix-eq_some : (p s r : Bytes) → after_prefix p s ≡ some r → s ≡ p ++ r
unfolding after_prefix
after_prefix-eq_some [] s r h = cc
after_prefix-eq_some (c ∷ p) [] r h = cc
after_prefix-eq_some (c ∷ p) (d ∷ s) r h = ground (arith, after_prefix-eq_some p s r)

pub after_prefix-append : (p r : Bytes) → after_prefix p (p ++ r) ≡ some r
unfolding after_prefix
after_prefix-append [] r = refl
after_prefix-append (c ∷ p) r = ground (arith, after_prefix-append p r)
