-- ===== src/Base/Lists.antt =====
-- Lists measured by native numbers, and predicates over lists.
use Prim.Native.Nat.{ℕ, zero, suc, ◌+◌, ◌≤◌}
use mathlib.Core.Path.{◌≡◌, refl, ap}
use mathlib.Core.Bool.{Bool, true, false, ◌&&◌, ◌||◌}
use mathlib.Core.List.{List, [], ◌∷◌, ◌++◌}
use native.Mathlib.Omega.{arith}
use boot_optim_distribution.Base.Tests.{Equality, ◌==◌, eq_iff}
use mathlib.Core.Logic.{◌≢◌, ◌⊎◌, inl, inr}

module _ {ℓ} {A : Type ℓ} where
  abbrev pub length : List A → ℕ
  length [] = 0
  length (x ∷ xs) = suc (length xs)

  -- The loop `for _, x := range xs { if !p(x) { return false } }; return true`.
  abbrev pub all : (A → Bool) → List A → Bool
  all p [] = true
  all p (x ∷ xs) = p x && all p xs

  abbrev pub is_empty : List A → Bool
  is_empty [] = true
  is_empty (x ∷ xs) = false

  pub length-append : (xs ys : List A) → length (xs ++ ys) ≡ length xs + length ys
  length-append [] ys = omega arith
  length-append (x ∷ xs) ys = omega (arith, length-append xs ys)

module _ {ℓ κ} {A : Type ℓ} (P : A → Type κ) where
  abbrev pub All : List A → Type κ
  All [] = Unit
  All (x ∷ xs) = P x × All xs

module _ {ℓ κ} {A : Type ℓ} (P : A → Type κ) where
  pub All-append : (xs ys : List A) → All P xs → All P ys → All P (xs ++ ys)
  All-append [] ys _ k = k
  All-append (x ∷ xs) ys (p, h) k = (p, All-append xs ys h k)

  pub all_sound :
      (p : A → Bool) → ((x : A) → p x ≡ true → P x) → (xs : List A) → all p xs ≡ true → All P xs
  all_sound p f [] h = tt
  all_sound p f (x ∷ xs) h = (f x (ground arith), all_sound p f xs (ground arith))

  pub all_complete :
      (p : A → Bool) → ((x : A) → P x → p x ≡ true) → (xs : List A) → All P xs → all p xs ≡ true
  all_complete p f [] h = refl
  all_complete p f (x ∷ xs) (px, h) = rw (f x px) (all_complete p f xs h)

module _ {ℓ} {A : Type ℓ} ⦃e : Equality A⦄ where
  -- A search through a slice; also the membership test of a `map[A]struct{}`.
  unfoldable pub contains : A → List A → Bool
  contains a [] = false
  contains a (x ∷ xs) = x == a || contains a xs

  -- No value stands twice.
  abbrev pub IsDistinct : List A → Type 0
  IsDistinct [] = Unit
  IsDistinct (x ∷ xs) = (contains x xs ≡ false) × IsDistinct xs

  pub contains-false : (a : A) (xs : List A) → contains a xs ≡ false → All (λ x. x ≢ a) xs
  unfolding contains
  contains-false a [] h = tt
  contains-false a (x ∷ xs) h =
      (λ p. ground (arith, eq_iff x a), contains-false a xs (ground arith))

  pub contains_of_All : (a : A) (xs : List A) → All (λ x. x ≢ a) xs → contains a xs ≡ false
  unfolding contains
  contains_of_All a [] h = refl
  contains_of_All a (x ∷ xs) h = ground (arith, eq_iff x a, contains_of_All a xs h.1)

module _ {ℓ} {A : Type ℓ} where
  -- `xs[:n]`, for an `n` up to the capacity.
  unfoldable pub take : ℕ → List A → List A
  take zero xs = []
  take (suc n) [] = []
  take (suc n) (x ∷ xs) = x ∷ take n xs

module _ {ℓ} {A : Type ℓ} (P : A → Type 0) where
  -- Some member has the property.
  abbrev pub Exists : List A → Type 0
  Exists [] = ⊥
  Exists (x ∷ xs) = P x ⊎ Exists xs

pub length-take {ℓ} : {A : Type ℓ} (n : ℕ) (xs : List A) → n ≤ length xs → length (take n xs) ≡ n
unfolding take
length-take zero xs h = refl
length-take (suc n) [] h = absurd (omega (arith, h))
length-take (suc n) (x ∷ xs) h = omega (arith, length-take n xs (omega arith))

module _ {ℓ κ μ} {A : Type ℓ} {P : A → Type κ} {Q : A → Type μ} where
  pub All-map : ((x : A) → P x → Q x) → (xs : List A) → All P xs → All Q xs
  All-map f [] h = tt
  All-map f (x ∷ xs) (p, h) = (f x p, All-map f xs h)

-- Who holds a value of a relation on a list's members is a member.
pub All-Exists {ℓ κ} :
    {A : Type ℓ} {B : Type κ} (R : A → B → Type 0) (xs : List A)
    → All (λ x. (b : B) → R x b → Exists (λ y. R y b) xs) xs
All-Exists R [] = tt
All-Exists R (x ∷ xs) = (λ b r. inl r, All-map (λ y f b r. inr (f b r)) xs (All-Exists R xs))

module _ {ℓ} {A : Type ℓ} where
  pub All-intro {κ} : {P : A → Type κ} → ((x : A) → P x) → (xs : List A) → All P xs
  All-intro f [] = tt
  All-intro f (x ∷ xs) = (f x, All-intro f xs)

  pub Exists-map :
      {P Q : A → Type 0} → ((x : A) → P x → Q x) → (xs : List A) → Exists P xs → Exists Q xs
  Exists-map f [] h = absurd h
  Exists-map f (x ∷ xs) (inl p) = inl (f x p)
  Exists-map f (x ∷ xs) (inr h) = inr (Exists-map f xs h)

pub take-length {ℓ} : {A : Type ℓ} (xs : List A) → take (length xs) xs ≡ xs
unfolding take
take-length [] = refl
take-length (x ∷ xs) = ap (λ t. x ∷ t) (take-length xs)

pub List-cases {ℓ} :
    {A : Type ℓ} (xs : List A) → (xs ≡ []) ⊎ ((x : A) × (rest : List A) × (xs ≡ x ∷ rest))
List-cases [] = inl refl
List-cases (x ∷ rest) = inr (x, rest, refl)

pub contains_self {ℓ} :
    {A : Type ℓ} ⦃e : Equality A⦄ (xs : List A) → All (λ x. contains x xs ≡ true) xs
unfolding contains
contains_self [] = tt
contains_self (x ∷ xs) =
    (ground (arith, eq_iff x x), All-map (λ y h. ground (arith, h)) xs (contains_self xs))
