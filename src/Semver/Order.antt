-- ===== src/Semver/Order.antt =====
-- `Compare` is a total order on what Semantic Versioning compares: all but the build part.
use boot_optim_distribution.Base.{
  int_eq, is_empty, Bytes, bytes_eq, if◌then◌else◌, nat_eq, bool_eq, ◌≡◌, refl, ◌↔◌, ◌&&◌, List, [],
  ◌∷◌, arith,
}
use Prim.Native.Nat.{Ordering}
use boot_optim_distribution.Semver.{
  Version, compare_bytes, or_else, compare_numeric, compare_identifier, compare_pre,
  compare_version,
}

abbrev pub flip : Ordering → Ordering
flip Ordering.lt = Ordering.gt
flip Ordering.eq = Ordering.eq
flip Ordering.gt = Ordering.lt

-- A comparison that is a total order.
pub record IsOrder {ℓ} {A : Type ℓ} (c : A → A → Ordering) : Type ℓ where
  pub eq_sound : (x y : A) → c x y ≡ Ordering.eq → x ≡ y
  pub same : (x : A) → c x x ≡ Ordering.eq
  pub swap : (x y : A) → c y x ≡ flip (c x y)
  pub trans : (x y z : A) → c x y ≡ Ordering.lt → c y z ≡ Ordering.lt → c x z ≡ Ordering.lt

compare_bytes-eq : (s t : Bytes) → compare_bytes s t ≡ Ordering.eq → s ≡ t
unfolding compare_bytes
compare_bytes-eq [] [] h = refl
compare_bytes-eq [] (_ ∷ _) h = cc
compare_bytes-eq (_ ∷ _) [] h = cc
compare_bytes-eq (a ∷ s) (b ∷ t) h = ground (arith, compare_bytes-eq s t)

compare_bytes_same : (s : Bytes) → compare_bytes s s ≡ Ordering.eq
unfolding compare_bytes
compare_bytes_same [] = refl
compare_bytes_same (a ∷ s) = ground (arith, compare_bytes_same s)

pub compare_bytes_swap : (s t : Bytes) → compare_bytes t s ≡ flip (compare_bytes s t)
unfolding compare_bytes
compare_bytes_swap [] [] = refl
compare_bytes_swap [] (_ ∷ _) = refl
compare_bytes_swap (_ ∷ _) [] = refl
compare_bytes_swap (a ∷ s) (b ∷ t) = ground (arith, compare_bytes_swap s t)

pub compare_bytes_trans :
    (s t u : Bytes)
    → compare_bytes s t ≡ Ordering.lt
    → compare_bytes t u ≡ Ordering.lt
    → compare_bytes s u ≡ Ordering.lt
unfolding compare_bytes
compare_bytes_trans [] [] u h k = cc
compare_bytes_trans [] (b ∷ t) [] h k = cc
compare_bytes_trans [] (b ∷ t) (c ∷ u) h k = refl
compare_bytes_trans (a ∷ s) [] u h k = cc
compare_bytes_trans (a ∷ s) (b ∷ t) [] h k = cc
compare_bytes_trans (a ∷ s) (b ∷ t) (c ∷ u) h k = ground (arith, compare_bytes_trans s t u)

compare_numeric-IsOrder : IsOrder compare_numeric
unfolding compare_numeric
compare_numeric-IsOrder = record {
  eq_sound = λ s t h. ground (arith, compare_bytes-eq s t);
  same = λ s. ground (arith, compare_bytes_same s);
  swap = λ s t. ground (arith, compare_bytes_swap s t);
  trans = λ s t u h k. ground (arith, compare_bytes_trans s t u);
}

compare_identifier-IsOrder : IsOrder compare_identifier
unfolding compare_identifier
compare_identifier-IsOrder =
    let n = compare_numeric-IsOrder in
    record {
      eq_sound = λ s t h. ground (arith, compare_bytes-eq s t, n.eq_sound s t);
      same = λ s. ground (arith, compare_bytes_same s, n.same s);
      swap = λ s t. ground (arith, compare_bytes_swap s t, n.swap s t);
      trans = λ s t u h k. ground (arith, compare_bytes_trans s t u, n.trans s t u);
    }

compare_pre-eq : (xs ys : List Bytes) → compare_pre xs ys ≡ Ordering.eq → xs ≡ ys
unfolding compare_pre
compare_pre-eq [] [] h = refl
compare_pre-eq [] (_ ∷ _) h = cc
compare_pre-eq (_ ∷ _) [] h = cc
compare_pre-eq (x ∷ xs) (y ∷ ys) h =
    ground (arith, compare_pre-eq xs ys, compare_identifier-IsOrder.eq_sound x y)

compare_pre_same : (xs : List Bytes) → compare_pre xs xs ≡ Ordering.eq
unfolding compare_pre
compare_pre_same [] = refl
compare_pre_same (x ∷ xs) = ground (arith, compare_pre_same xs, compare_identifier-IsOrder.same x)

compare_pre_swap : (xs ys : List Bytes) → compare_pre ys xs ≡ flip (compare_pre xs ys)
unfolding compare_pre
compare_pre_swap [] [] = refl
compare_pre_swap [] (_ ∷ _) = refl
compare_pre_swap (_ ∷ _) [] = refl
compare_pre_swap (x ∷ xs) (y ∷ ys) =
    ground (arith, compare_pre_swap xs ys, compare_identifier-IsOrder.swap x y)

compare_pre_trans :
    (xs ys zs : List Bytes)
    → compare_pre xs ys ≡ Ordering.lt
    → compare_pre ys zs ≡ Ordering.lt
    → compare_pre xs zs ≡ Ordering.lt
unfolding compare_pre
compare_pre_trans [] [] zs h k = cc
compare_pre_trans [] (y ∷ ys) [] h k = cc
compare_pre_trans [] (y ∷ ys) (z ∷ zs) h k = refl
compare_pre_trans (x ∷ xs) [] zs h k = cc
compare_pre_trans (x ∷ xs) (y ∷ ys) [] h k = cc
compare_pre_trans (x ∷ xs) (y ∷ ys) (z ∷ zs) h k =
    let o = compare_identifier-IsOrder in
    ground (arith, compare_pre_trans xs ys zs, o.eq_sound x y, o.eq_sound y z, o.trans x y z)

-- What the precedence looks at.
pub record Key : Type 0 where
  pub major : Bytes
  pub minor : Bytes
  pub patch : Bytes
  pub pre : List Bytes

abbrev pub key : Version → Key
key v = record { major = v.major; minor = v.minor; patch = v.patch; pre = v.pre }

-- A version with no pre-release part is the later one.
pre_order : List Bytes → List Bytes → Ordering
pre_order xs ys =
    if is_empty xs && is_empty ys
    then Ordering.eq
    else if is_empty xs
    then Ordering.gt
    else if is_empty ys
    then Ordering.lt
    else compare_pre xs ys

pre_order-eq : (xs ys : List Bytes) → pre_order xs ys ≡ Ordering.eq → xs ≡ ys
unfolding pre_order
pre_order-eq [] [] h = refl
pre_order-eq [] (_ ∷ _) h = cc
pre_order-eq (_ ∷ _) [] h = cc
pre_order-eq (x ∷ xs) (y ∷ ys) h = compare_pre-eq (x ∷ xs) (y ∷ ys) h

pre_order_same : (xs : List Bytes) → pre_order xs xs ≡ Ordering.eq
unfolding pre_order
pre_order_same [] = refl
pre_order_same (x ∷ xs) = compare_pre_same (x ∷ xs)

pre_order_swap : (xs ys : List Bytes) → pre_order ys xs ≡ flip (pre_order xs ys)
unfolding pre_order
pre_order_swap [] [] = refl
pre_order_swap [] (_ ∷ _) = refl
pre_order_swap (_ ∷ _) [] = refl
pre_order_swap (x ∷ xs) (y ∷ ys) = compare_pre_swap (x ∷ xs) (y ∷ ys)

pre_order_trans :
    (xs ys zs : List Bytes)
    → pre_order xs ys ≡ Ordering.lt
    → pre_order ys zs ≡ Ordering.lt
    → pre_order xs zs ≡ Ordering.lt
unfolding pre_order
pre_order_trans [] [] zs h k = cc
pre_order_trans [] (y ∷ ys) zs h k = cc
pre_order_trans (x ∷ xs) [] [] h k = cc
pre_order_trans (x ∷ xs) [] (z ∷ zs) h k = cc
pre_order_trans (x ∷ xs) (y ∷ ys) [] h k = refl
pre_order_trans (x ∷ xs) (y ∷ ys) (z ∷ zs) h k = compare_pre_trans (x ∷ xs) (y ∷ ys) (z ∷ zs) h k

-- The comparison of keys, field by field.
key_order : Key → Key → Ordering
key_order a b = or_else (compare_numeric a.major b.major) (
    or_else (compare_numeric a.minor b.minor)
      (or_else (compare_numeric a.patch b.patch) (pre_order a.pre b.pre)))

module _ (a b : Key) where
  key_order-eq : key_order a b ≡ Ordering.eq → a ≡ b
  unfolding key_order
  key_order-eq h =
      let n = compare_numeric-IsOrder in
      ground (
        arith,
        n.eq_sound a.major b.major,
        n.eq_sound a.minor b.minor,
        n.eq_sound a.patch b.patch,
        pre_order-eq a.pre b.pre,
      )

  key_order_swap : key_order b a ≡ flip (key_order a b)
  unfolding key_order
  key_order_swap =
      let n = compare_numeric-IsOrder in
      ground (
        arith,
        n.swap a.major b.major,
        n.swap a.minor b.minor,
        n.swap a.patch b.patch,
        pre_order_swap a.pre b.pre,
      )

  key_order_trans :
      (c : Key)
      → key_order a b ≡ Ordering.lt
      → key_order b c ≡ Ordering.lt
      → key_order a c ≡ Ordering.lt
  unfolding key_order
  key_order_trans c h k =
      let n = compare_numeric-IsOrder in
      ground (
        arith,
        n.eq_sound a.major b.major,
        n.eq_sound b.major c.major,
        n.trans a.major b.major c.major,
        n.eq_sound a.minor b.minor,
        n.eq_sound b.minor c.minor,
        n.trans a.minor b.minor c.minor,
        n.eq_sound a.patch b.patch,
        n.eq_sound b.patch c.patch,
        n.trans a.patch b.patch c.patch,
        pre_order_trans a.pre b.pre c.pre,
      )

key_order_same : (a : Key) → key_order a a ≡ Ordering.eq
unfolding key_order
key_order_same a =
    let n = compare_numeric-IsOrder in
    rw (n.same a.major, n.same a.minor, n.same a.patch, pre_order_same a.pre)

key_order-IsOrder : IsOrder key_order
key_order-IsOrder = record {
  eq_sound = key_order-eq;
  same = key_order_same;
  swap = key_order_swap;
  trans = key_order_trans;
}

compare_version-key : (a b : Version) → compare_version a b ≡ key_order (key a) (key b)
unfolding compare_version key_order pre_order
compare_version-key a b = refl

-- `Compare` returns 0 exactly on versions that agree in all but the build part, and changes its
-- sign when the arguments are swapped.
pub compare_version-eq_iff :
    (a b : Version)
    → ((compare_version a b ≡ Ordering.eq) ↔ (key a ≡ key b))
      × (compare_version b a ≡ flip (compare_version a b))
compare_version-eq_iff a b =
    let o = key_order-IsOrder in
    rw (compare_version-key a b, compare_version-key b a)
      ((o.eq_sound (key a) (key b), λ e. rw e (o.same (key b))), o.swap (key a) (key b))

-- If `Compare` puts a first version before a second and the second before a third, it puts the first
-- before the third.
pub compare_version_trans :
    (a b c : Version)
    → compare_version a b ≡ Ordering.lt
    → compare_version b c ≡ Ordering.lt
    → compare_version a c ≡ Ordering.lt
compare_version_trans a b c h k = rw compare_version-key (
    key_order-IsOrder.trans (key a) (key b) (key c) (rw compare_version-key at h)
      (rw compare_version-key at k))
