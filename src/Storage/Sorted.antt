-- ===== src/Storage/Sorted.antt =====
-- The objects of a revision come back from the tables in the order in which they were published.
use boot_optim_distribution.Base.{
  int_eq, ℤ, All, bind_ok, Bytes, bytes_eq, eq_iff, eq_refl, nat_eq, bool_eq, Bool-cases,
  Option-cases, ok, ◌≡◌, refl, sym, ap, ◌∙◌, inl, inr, true, false, some, List, [], ◌∷◌, ◌++◌,
  arith,
}
use boot_optim_distribution.Semver.Order.{compare_bytes_swap, compare_bytes_trans}
use boot_optim_distribution.Storage.Database.{
  Object, stored_size, sorts_before, insert_sorted, sort_objects, linked_objects, record_object,
  record_objects, link_objects,
}

-- No object stands behind one that it sorts before.
abbrev pub Ordered : List Object → Type 0
Ordered [] = Unit
Ordered (x ∷ xs) = All (λ y. sorts_before y.sha256 x.sha256 ≡ false) xs × Ordered xs

before_asym : (a b : Bytes) → sorts_before a b ≡ true → sorts_before b a ≡ false
before_asym a b h = ground (arith, compare_bytes_swap a b)

before_trans :
    (a b c : Bytes) → sorts_before a b ≡ true → sorts_before b c ≡ true → sorts_before a c ≡ true
before_trans a b c h k = ground (arith, compare_bytes_trans a b c)

after_later :
    (o x y : Object)
    → sorts_before o.sha256 x.sha256 ≡ true
    → sorts_before y.sha256 x.sha256 ≡ false
    → sorts_before y.sha256 o.sha256 ≡ false
after_later o x y h k = elim (Bool-cases (sorts_before y.sha256 o.sha256)) [
  | inl e ↦ cc (before_trans y.sha256 o.sha256 x.sha256 e h)
  | inr e ↦ e
]

after-All :
    (o x : Object) (xs : List Object)
    → sorts_before o.sha256 x.sha256 ≡ true
    → All (λ y. sorts_before y.sha256 x.sha256 ≡ false) xs
    → All (λ y. sorts_before y.sha256 o.sha256 ≡ false) xs
after-All o x [] h k = tt
after-All o x (y ∷ xs) h k = (after_later o x y h k.0, after-All o x xs h k.1)

All-insert_sorted :
    (P : Object → Type 0) (o : Object) (xs : List Object)
    → P o
    → All P xs
    → All P (insert_sorted o xs)
unfolding insert_sorted
All-insert_sorted P o [] p h = (p, tt)
All-insert_sorted P o (x ∷ xs) p h = elim (Bool-cases (sorts_before o.sha256 x.sha256)) [
  | inl e ↦ rw e (p, h)
  | inr e ↦ rw e (h.0, All-insert_sorted P o xs p h.1)
]

insert_sorted-Ordered : (o : Object) (xs : List Object) → Ordered xs → Ordered (insert_sorted o xs)
unfolding insert_sorted
insert_sorted-Ordered o [] h = (tt, tt)
insert_sorted-Ordered o (x ∷ xs) h = elim (Bool-cases (sorts_before o.sha256 x.sha256)) [
  | inl e ↦ rw e ((before_asym o.sha256 x.sha256 e, after-All o x xs e h.0), h)
  | inr e ↦ rw e (
    All-insert_sorted (λ y. sorts_before y.sha256 x.sha256 ≡ false) o xs e h.0,
    insert_sorted-Ordered o xs h.1,
  )
]

pub sort_objects-Ordered : (xs : List Object) → Ordered (sort_objects xs)
unfolding sort_objects
sort_objects-Ordered [] = tt
sort_objects-Ordered (o ∷ os) = insert_sorted-Ordered o (sort_objects os) (sort_objects-Ordered os)

insert_last :
    (o : Object) (base os : List Object)
    → Ordered (base ++ (o ∷ os))
    → insert_sorted o base ≡ base ++ (o ∷ [])
unfolding insert_sorted
insert_last o [] os h = refl
insert_last o (x ∷ base) os h =
    rw (after_of o x base os h.0) (ap (λ t. x ∷ t) (insert_last o base os h.1))
  where
    after_of :
        (o x : Object) (base os : List Object)
        → All (λ y. sorts_before y.sha256 x.sha256 ≡ false) (base ++ (o ∷ os))
        → sorts_before o.sha256 x.sha256 ≡ false
    after_of o x [] os k = k.0
    after_of o x (y ∷ base) os k = after_of o x base os k.1

-- The rows are pushed one by one.
abbrev pub pushed : List Object → List Object → List Object
pushed [] acc = acc
pushed (o ∷ os) acc = pushed os (o ∷ acc)

snoc_append : (base os : List Object) (o : Object) → (base ++ (o ∷ [])) ++ os ≡ base ++ (o ∷ os)
snoc_append [] os o = refl
snoc_append (x ∷ base) os o = ap (λ t. x ∷ t) (snoc_append base os o)

append_nil : (xs : List Object) → xs ++ [] ≡ xs
append_nil [] = refl
append_nil (x ∷ xs) = ap (λ t. x ∷ t) (append_nil xs)

pub sort_objects-pushed :
    (os acc base : List Object)
    → sort_objects acc ≡ base
    → Ordered (base ++ os)
    → sort_objects (pushed os acc) ≡ base ++ os
unfolding sort_objects
sort_objects-pushed [] acc base e h = e ∙ sym (append_nil base)
sort_objects-pushed (o ∷ os) acc base e h =
    sort_objects-pushed os (o ∷ acc) (base ++ (o ∷ []))
      (ap (insert_sorted o) e ∙ insert_last o base os h) (rw (snoc_append base os o) h)
    ∙ snoc_append base os o

record_object-size :
    (stored stored' : List Object) (o : Object)
    → record_object stored o ≡ ok stored'
    → stored_size o.sha256 stored' ≡ some o.size
unfolding record_object stored_size
record_object-size stored stored' o h = elim (Option-cases (stored_size o.sha256 stored)) [
  | inl e ↦ (let same : stored' ≡ o ∷ stored = ground arith in rw same (rw (eq_refl o.sha256) refl))
  | inr (s, e) ↦
      let same : stored' ≡ stored = ground arith in
      let size : s ≡ o.size = ground (arith, eq_iff s o.size) in rw same (e ∙ ap some size)
]

record_object-keeps :
    (stored stored' : List Object) (o : Object) (d : Bytes) (n : ℤ)
    → record_object stored o ≡ ok stored'
    → stored_size d stored ≡ some n
    → stored_size d stored' ≡ some n
unfolding record_object stored_size
record_object-keeps stored stored' o d n h k =
    ground (arith, eq_iff o.sha256 d, Option-cases (stored_size o.sha256 stored))

record_objects-keeps_size :
    (os stored stored' : List Object) (d : Bytes) (n : ℤ)
    → record_objects stored os ≡ ok stored'
    → stored_size d stored ≡ some n
    → stored_size d stored' ≡ some n
unfolding record_objects
record_objects-keeps_size [] stored stored' d n h k = ground arith
record_objects-keeps_size (o ∷ os) stored stored' d n h k =
    let (mid, first, rest) = bind_ok (record_object stored o) _ h in
    record_objects-keeps_size os mid stored' d n rest (record_object-keeps stored mid o d n first k)

pub record_objects-size :
    (os stored stored' : List Object)
    → record_objects stored os ≡ ok stored'
    → All (λ o. stored_size o.sha256 stored' ≡ some o.size) os
unfolding record_objects
record_objects-size [] stored stored' h = tt
record_objects-size (o ∷ os) stored stored' h =
    let (mid, first, rest) = bind_ok (record_object stored o) _ h in
    (
      record_objects-keeps_size os mid stored' o.sha256 o.size rest
          (record_object-size stored mid o first),
      record_objects-size os mid stored' rest,
    )

linked_one :
    (id : Bytes) (objects : List Object) (o : Object) (rows : List (Bytes × Bytes))
    → stored_size o.sha256 objects ≡ some o.size
    → linked_objects id objects ((id, o.sha256) ∷ rows) ≡ o ∷ linked_objects id objects rows
unfolding linked_objects
linked_one id objects o rows h = rw (eq_refl id) (rw h)

pub linked_objects-pushed :
    (id : Bytes) (objects os : List Object) (rows rows' : List (Bytes × Bytes))
    → link_objects id rows os ≡ ok rows'
    → All (λ o. stored_size o.sha256 objects ≡ some o.size) os
    → linked_objects id objects rows' ≡ pushed os (linked_objects id objects rows)
unfolding link_objects
linked_objects-pushed id objects [] rows rows' h k =
    let same : rows ≡ rows' = ground arith in ap (linked_objects id objects) (sym same)
linked_objects-pushed id objects (o ∷ os) rows rows' h k =
    linked_objects-pushed id objects os ((id, o.sha256) ∷ rows) rows' (ground arith) k.1
    ∙ ap (pushed os) (linked_one id objects o rows k.0)
