-- ===== src/Base/Map.antt =====
-- Go maps as association lists: a key that was set again stands first.
use mathlib.Core.Path.{◌≡◌, refl, ap}
use mathlib.Core.List.{List, [], ◌∷◌}
use mathlib.Core.Option.{Option, none, some}
use native.Mathlib.Omega.{arith}
use mathlib.Core.Logic.{inl, inr}
use boot_optim_distribution.Base.Tests.{Equality, ◌==◌, eq_iff, if◌then◌else◌, Bool-cases}
use boot_optim_distribution.Base.Lists.{All}

module _ {ℓ κ} {K : Type ℓ} ⦃e : Equality K⦄ {V : Type κ} where
  unfoldable pub lookup : K → List (K × V) → Option V
  lookup k [] = none
  lookup k ((j, v) ∷ m) = let rest = lookup k m in if j == k then some v else rest

  -- `delete(m, k)`
  unfoldable pub delete : K → List (K × V) → List (K × V)
  delete k [] = []
  delete k ((j, v) ∷ m) = let rest = delete k m in if j == k then rest else (j, v) ∷ rest

  -- `m[k] = v`
  unfoldable pub insert : K → V → List (K × V) → List (K × V)
  insert k v m = (k, v) ∷ delete k m

  pub lookup-delete :
      (k j : K) (m : List (K × V)) → lookup j (delete k m) ≡ (if k == j then none else lookup j m)
  unfolding lookup delete
  lookup-delete k j [] = ground arith
  lookup-delete k j ((i, v) ∷ m) =
      ground (arith, lookup-delete k j m, eq_iff i k, eq_iff i j, eq_iff k j)

  pub lookup-insert :
      (k j : K) (v : V) (m : List (K × V))
      → lookup j (insert k v m) ≡ (if k == j then some v else lookup j m)
  unfolding lookup insert
  lookup-insert k j v m = ground (arith, lookup-delete k j m)

  pub All-delete {μ} :
      (P : K × V → Type μ) (k : K) (m : List (K × V)) → All P m → All P (delete k m)
  unfolding delete
  All-delete P k [] h = tt
  All-delete P k ((j, v) ∷ m) (p, h) = elim (Bool-cases (j == k)) [
    | inl e ↦ rw e (All-delete P k m h)
    | inr e ↦ rw e (p, All-delete P k m h)
  ]

  pub All-lookup {μ} :
      (P : K × V → Type μ) (k : K) (m : List (K × V)) (v : V)
      → All P m
      → lookup k m ≡ some v
      → P (k, v)
  unfolding lookup
  All-lookup P k [] v h e = cc
  All-lookup P k ((j, w) ∷ m) v (p, h) e = elim (Bool-cases (j == k)) [
    | inl same ↦
        let key : j ≡ k = (eq_iff j k).0 same in
        let value : w ≡ v = (let found : some w ≡ some v = rw same at e in cc) in
        rw (← value) (rw (← key) p)
    | inr other ↦ All-lookup P k m v h (rw other at e)
  ]

  pub delete_absent : (k : K) (m : List (K × V)) → lookup k m ≡ none → delete k m ≡ m
  unfolding lookup delete
  delete_absent k [] h = refl
  delete_absent k ((j, w) ∷ m) h = elim (Bool-cases (j == k)) [
    | inl same ↦ (let found : some w ≡ none = rw same at h in cc)
    | inr other ↦
        let rest : lookup k m ≡ none = rw other at h in
        rw other (ap (λ t. (j, w) ∷ t) (delete_absent k m rest))
  ]
