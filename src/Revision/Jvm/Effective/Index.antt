-- ===== src/Revision/Jvm/Effective/Index.antt =====
-- The map from identifiers to positions always agrees with the list.
use boot_optim_distribution.Base.{
  int_eq, length, contains, IsDistinct, lookup, Bytes, bytes_eq, if◌then◌else◌, ◌==◌, eq_iff,
  nat_eq, bool_eq, ℕ, zero, suc, ◌≡◌, refl, false, Option, none, some, List, [], ◌∷◌, ◌++◌, arith,
}
use boot_optim_distribution.Revision.Types.{JvmOption}
use boot_optim_distribution.Revision.Jvm.Effective.{Index, remove_at, set_at, shift, shift_index}

abbrev pub ids : List JvmOption → List Bytes
ids [] = []
ids (x ∷ xs) = x.id ∷ ids xs

abbrev pub omap : (ℕ → ℕ) → Option ℕ → Option ℕ
omap f none = none
omap f (some i) = some (f i)

-- Where the option with an identifier stands.
unfoldable pub position : Bytes → List JvmOption → Option ℕ
position id [] = none
position id (x ∷ xs) = let rest = position id xs in if x.id == id then some 0 else omap suc rest

pub position-absent :
    (id : Bytes) (xs : List JvmOption) → contains id (ids xs) ≡ false → position id xs ≡ none
unfolding position contains
position-absent id [] h = refl
position-absent id (x ∷ xs) h = ground (arith, position-absent id xs)

pub absent-position :
    (id : Bytes) (xs : List JvmOption) → position id xs ≡ none → contains id (ids xs) ≡ false
unfolding position contains
absent-position id [] h = refl
absent-position id (x ∷ xs) h = ground (arith, absent-position id xs)

pub lookup-shift_index :
    (at : ℕ) (j : Bytes) (m : Index) → lookup j (shift_index at m) ≡ omap (shift at) (lookup j m)
unfolding lookup shift_index
lookup-shift_index at j [] = refl
lookup-shift_index at j ((k, i) ∷ m) = ground (arith, lookup-shift_index at j m)

pub position-remove_at :
    (id j : Bytes) (at : ℕ) (xs : List JvmOption)
    → IsDistinct (ids xs)
    → position id xs ≡ some at
    → position j (remove_at at xs) ≡ (if id == j then none else omap (shift at) (position j xs))
unfolding position remove_at
position-remove_at id j at [] d h = cc
position-remove_at id j zero (x ∷ xs) d h =
    ground (arith, position-absent x.id xs d.0, eq_iff x.id id, eq_iff x.id j, eq_iff id j)
position-remove_at id j (suc at) (x ∷ xs) d h =
    ground (arith, position-remove_at id j at xs d.1, eq_iff x.id id, eq_iff x.id j, eq_iff id j)

pub position-set_at :
    (o : JvmOption) (j : Bytes) (at : ℕ) (xs : List JvmOption)
    → position o.id xs ≡ some at
    → position j (set_at at o xs) ≡ position j xs
unfolding position set_at
position-set_at o j at [] h = cc
position-set_at o j zero (x ∷ xs) h = ground (arith, eq_iff x.id o.id)
position-set_at o j (suc at) (x ∷ xs) h = ground (arith, position-set_at o j at xs)

abbrev pub or_at : Option ℕ → Option ℕ → Option ℕ
or_at (some i) o = some i
or_at none o = o

pub position-append :
    (o : JvmOption) (j : Bytes) (xs : List JvmOption)
    → position j (xs ++ (o ∷ []))
      ≡ or_at (position j xs) (if o.id == j then some (length xs) else none)
unfolding position
position-append o j [] = ground arith
position-append o j (x ∷ xs) = ground (arith, position-append o j xs)
