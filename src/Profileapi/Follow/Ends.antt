-- ===== src/Profileapi/Follow/Ends.antt =====
-- internal/profileapi/follow_parent.go: the queue runs empty, and no profile is followed twice.
use boot_optim_distribution.Base.{
  int_eq, length, length-append, All, All-append, contains, IsDistinct, All-map, List-cases,
  contains_self, lookup, Result, Bytes, bytes_eq, leb, if◌then◌else◌, ◌==◌, eq_iff, eq_refl, nat_eq,
  bool_eq, Bool-cases, Option-cases, ok, err, ℕ, zero, suc, ◌+◌, ◌≤◌, ◌<◌, ◌≡◌, refl, sym, ap, ◌∙◌,
  ◌⊎◌, inl, inr, true, false, Option, none, some, List, [], ◌∷◌, ◌++◌, map, arith,
}
use boot_optim_distribution.Revision.Types.{VerifiedRevision, Manifest, profile_id}
use boot_optim_distribution.Storage.Database.{StoredRevision, Database}
use boot_optim_distribution.Profileapi.Errors.{Api}
use boot_optim_distribution.Profileapi.Follow.{
  FollowResult, Follower, Following, inventory, follows_parent, repin_child, record_published,
  record_repin, follow_child, due, visit, visit_all, advance, run_queue, start_of, follow_parent,
}

-- The profiles that have a result.
abbrev pub followed : List FollowResult → List Bytes
followed rs = map (λ r. r.profile_id) rs

-- What a round of the inner loop does about one child.
pub data Visited (child_id : Bytes) (s s' : Following) : Type 0 where
  passed_over : s' ≡ s → Visited child_id s s'
  visited :
      contains child_id s.visited ≡ false
      → s'.visited ≡ child_id ∷ s.visited
      → length s'.queue ≤ length s.queue + 1
      → (followed s'.results ≡ followed s.results)
        ⊎ (followed s'.results ≡ followed s.results ++ (child_id ∷ []))
      → Visited child_id s s'

map-append : (rs qs : List FollowResult) → followed (rs ++ qs) ≡ followed rs ++ followed qs
map-append [] qs = refl
map-append (r ∷ rs) qs = ap (λ t. r.profile_id ∷ t) (map-append rs qs)

-- What handling a child keeps of the state in which it is marked.
pub record Handled (child_id : Bytes) (s s' : Following) : Type 0 where
  pub same_visited : s'.visited ≡ s.visited
  pub few : length s'.queue ≤ length s.queue + 1
  pub one :
      (followed s'.results ≡ followed s.results)
      ⊎ (followed s'.results ≡ followed s.results ++ (child_id ∷ []))

module _ (api : Api) (follower : Follower) where
  record_repin-Handled :
      (parent : VerifiedRevision) (depth : ℕ) (child_id previous : Bytes) (s : Following)
      (outcome : Result (Bytes × Bytes) (VerifiedRevision × Database))
      → Handled child_id s (record_repin api follower parent depth child_id previous s outcome)
  unfolding record_repin record_published
  record_repin-Handled parent depth child_id previous s (ok (verified, tables)) = record {
    same_visited = refl;
    few = omega (arith, length-append s.queue ((verified, depth + 1) ∷ []));
    one = inr (map-append s.results _);
  }
  record_repin-Handled parent depth child_id previous s (err (code, message)) = record {
    same_visited = refl;
    few = omega arith;
    one = inr (map-append s.results _);
  }

  follow_child-Handled :
      (parent : VerifiedRevision) (depth : ℕ) (child_id : Bytes) (s : Following) (child : Manifest)
      → Handled child_id s (follow_child api follower parent depth child_id s child)
  unfolding follow_child
  follow_child-Handled parent depth child_id s child =
      elim (Bool-cases (follows_parent api follower child_id)) [
        | inr e ↦ rw e (record { same_visited = refl; few = omega arith; one = inl refl })
        | inl e ↦
            let (outcome, stamps) = repin_child api follower s.tables s.stamps child parent in
            let h =
              record_repin-Handled parent depth child_id child.revision.id
                (record s { stamps = stamps }) outcome in
            rw e (record { same_visited = h.same_visited; few = h.few; one = h.one })
      ]

  due-contains :
      (parent : VerifiedRevision) (done : List Bytes) (child_id : Bytes) (o : Option Manifest)
      (child : Manifest)
      → due api follower parent done child_id o ≡ some child
      → contains child_id done ≡ false
  unfolding due
  due-contains parent done child_id none child h = cc
  due-contains parent done child_id (some m) child h = elim (Option-cases m.base) [
    | inl e ↦ (let nothing : none ≡ some child = rw (e, due) at h in cc)
    | inr (pin, e) ↦ ground (arith, e)
  ]

  visit-Visited :
      (parent : VerifiedRevision) (depth : ℕ) (child_id : Bytes) (s : Following)
      → Visited child_id s (visit api follower parent depth child_id s)
  unfolding visit
  visit-Visited parent depth child_id s =
      elim (Option-cases (due api follower parent s.visited child_id (lookup child_id s.latest))) [
        | inl e ↦ passed_over (rw (e, visit) refl)
        | inr (child, e) ↦
            let h =
              follow_child-Handled parent depth child_id
                (record s { visited = child_id ∷ s.visited }) child in
            rw (e, visit)
              (visited (due-contains parent s.visited child_id (lookup child_id s.latest) child e)
                h.same_visited h.few h.one)
      ]

-- How many of the profiles are not visited yet.
unfoldable unvisited : List Bytes → List Bytes → ℕ
unvisited [] done = 0
unvisited (id ∷ ids) done = (if contains id done then 0 else 1) + unvisited ids done

unvisited-le : (ids done : List Bytes) (c : Bytes) → unvisited ids (c ∷ done) ≤ unvisited ids done
unfolding unvisited contains
unvisited-le [] done c = omega arith
unvisited-le (id ∷ ids) done c = ground (arith, unvisited-le ids done c)

unvisited-lt :
    (ids done : List Bytes) (c : Bytes)
    → contains c ids ≡ true
    → contains c done ≡ false
    → unvisited ids (c ∷ done) + 1 ≤ unvisited ids done
unfolding unvisited contains
unvisited-lt [] done c h k = cc
unvisited-lt (id ∷ ids) done c h k = elim (Bool-cases (id == c)) [
  | inl e ↦
      let same : id ≡ c = (eq_iff id c).0 e in
      let off : contains id done ≡ false = rw same k in
      let on : (c == id) ≡ true = rw same (eq_refl c) in
      ground (arith, off, on, unvisited-le ids done c)
  | inr e ↦ ground (arith, e, unvisited-lt ids done c)
]

unvisited-length : (ids done : List Bytes) → unvisited ids done ≤ length ids
unfolding unvisited
unvisited-length [] done = omega arith
unvisited-length (id ∷ ids) done = ground (arith, unvisited-length ids done)

abbrev weight : List Bytes → Following → ℕ
weight order s = length s.queue + unvisited order s.visited

Visited-weight :
    (order : List Bytes) (c : Bytes) (s s' : Following)
    → contains c order ≡ true
    → Visited c s s'
    → weight order s' ≤ weight order s
Visited-weight order c s s' h (passed_over same) = rw same (omega arith)
Visited-weight order c s s' h (visited off mark few one) =
    let less = unvisited-lt order s.visited c h off in
    let here : unvisited order s'.visited ≡ unvisited order (c ∷ s.visited) =
      ap (unvisited order) mark in
    omega (arith, less, here, few)

contains-snoc :
    (x c : Bytes) (ids : List Bytes)
    → contains x ids ≡ false
    → (c == x) ≡ false
    → contains x (ids ++ (c ∷ [])) ≡ false
unfolding contains
contains-snoc x c [] h k = ground (arith, k)
contains-snoc x c (id ∷ ids) h k = ground (arith, contains-snoc x c ids)

IsDistinct-snoc :
    (c : Bytes) (ids : List Bytes)
    → IsDistinct ids
    → contains c ids ≡ false
    → IsDistinct (ids ++ (c ∷ []))
unfolding contains
IsDistinct-snoc c [] h k = (refl, tt)
IsDistinct-snoc c (id ∷ ids) (off, h) k =
    let other : (c == id) ≡ false = ground (arith, eq_iff c id, eq_iff id c) in
    (contains-snoc id c ids off other, IsDistinct-snoc c ids h (ground arith))

unmarked-contains :
    (c : Bytes) (done ids : List Bytes)
    → All (λ id. contains id done ≡ true) ids
    → contains c done ≡ false
    → contains c ids ≡ false
unfolding contains
unmarked-contains c done [] h k = refl
unmarked-contains c done (id ∷ ids) (on, h) k = elim (Bool-cases (id == c)) [
  | inl e ↦
      let same : id ≡ c = (eq_iff id c).0 e in
      let both : true ≡ false = sym (rw same at on) ∙ k in cc
  | inr e ↦ ground (arith, e, unmarked-contains c done ids h k)
]

-- Who has a result is visited, and has one only; the first profile is visited and has none.
abbrev OnceOf : Bytes → List Bytes → List Bytes → Type 0
OnceOf first done ids =
    All (λ id. contains id done ≡ true) ids
    × IsDistinct ids
    × (contains first done ≡ true)
    × (contains first ids ≡ false)

OnceOf-mark :
    (first c : Bytes) (done ids : List Bytes) → OnceOf first done ids → OnceOf first (c ∷ done) ids
unfolding contains
OnceOf-mark first c done ids (marked, distinct, on, free) =
    (All-map (λ id h. ground (arith, h)) ids marked, distinct, ground (arith, on), free)

OnceOf-snoc :
    (first c : Bytes) (done ids : List Bytes)
    → contains c done ≡ false
    → OnceOf first done ids
    → OnceOf first (c ∷ done) (ids ++ (c ∷ []))
OnceOf-snoc first c done ids off once =
    let (marked, distinct, on, free) = OnceOf-mark first c done ids once in
    let absent = unmarked-contains c done ids once.0 off in
    let other : (c == first) ≡ false = elim (Bool-cases (c == first)) [
      | inr e ↦ e
      | inl e ↦
          let same : c ≡ first = (eq_iff c first).0 e in
          let both : false ≡ true = sym (rw same at off) ∙ once.2 in cc
    ] in
    let self : contains c (c ∷ done) ≡ true = unfold contains in ground (arith, eq_refl c) in
    (
      All-append (λ id. contains id (c ∷ done) ≡ true) ids (c ∷ []) marked (self, tt),
      IsDistinct-snoc c ids distinct absent,
      on,
      contains-snoc first c ids free other,
    )

Visited-Once :
    (first c : Bytes) (s s' : Following)
    → Visited c s s'
    → OnceOf first s.visited (followed s.results)
    → OnceOf first s'.visited (followed s'.results)
Visited-Once first c s s' (passed_over same) once = rw same once
Visited-Once first c s s' (visited off mark few (inl e)) once =
    rw (mark, e) (OnceOf-mark first c s.visited (followed s.results) once)
Visited-Once first c s s' (visited off mark few (inr e)) once =
    rw (mark, e) (OnceOf-snoc first c s.visited (followed s.results) off once)

module _ (api : Api) (follower : Follower) where
  visit_all-weight :
      (order ids : List Bytes) (parent : VerifiedRevision) (depth : ℕ) (s : Following)
      → All (λ id. contains id order ≡ true) ids
      → weight order (visit_all api follower parent depth ids s) ≤ weight order s
  unfolding visit_all
  visit_all-weight order [] parent depth s h = omega arith
  visit_all-weight order (id ∷ ids) parent depth s (here, h) =
      let s' = visit api follower parent depth id s in
      let one = Visited-weight order id s s' here (visit-Visited api follower parent depth id s) in
      let rest = visit_all-weight order ids parent depth s' h in omega (arith, one, rest)

  visit_all-Once :
      (first : Bytes) (ids : List Bytes) (parent : VerifiedRevision) (depth : ℕ) (s : Following)
      → OnceOf first s.visited (followed s.results)
      → OnceOf first
          (visit_all api follower parent depth ids s).visited
          (followed (visit_all api follower parent depth ids s).results)
  unfolding visit_all
  visit_all-Once first [] parent depth s once = once
  visit_all-Once first (id ∷ ids) parent depth s once =
      let s' = visit api follower parent depth id s in
      visit_all-Once first ids parent depth s'
        (Visited-Once first id s s' (visit-Visited api follower parent depth id s) once)

  advance-weight :
      (order : List Bytes) (current : VerifiedRevision × ℕ) (s : Following)
      → All (λ id. contains id order ≡ true) order
      → weight order (advance api follower order current s) ≤ weight order s
  unfolding advance
  advance-weight order (parent, depth) s h = elim (Bool-cases (leb 8 depth)) [
    | inl e ↦ rw e (omega arith)
    | inr e ↦ rw e (visit_all-weight order order parent depth s h)
  ]

  advance-Once :
      (first : Bytes) (order : List Bytes) (current : VerifiedRevision × ℕ) (s : Following)
      → OnceOf first s.visited (followed s.results)
      → OnceOf first
          (advance api follower order current s).visited
          (followed (advance api follower order current s).results)
  unfolding advance
  advance-Once first order (parent, depth) s once = elim (Bool-cases (leb 8 depth)) [
    | inl e ↦ rw e once
    | inr e ↦ rw e (visit_all-Once first order parent depth s once)
  ]

  -- Enough fuel empties the queue.
  run_queue-ends :
      (first : Bytes) (fuel : ℕ) (order : List Bytes) (s : Following)
      → All (λ id. contains id order ≡ true) order
      → weight order s < fuel
      → OnceOf first s.visited (followed s.results)
      → (last : Following) × (run_queue api follower fuel order s ≡ some last)
        × IsDistinct (followed last.results)
        × (contains first (followed last.results) ≡ false)
  unfolding run_queue
  run_queue-ends first zero order s members enough once = absurd (omega (arith, enough))
  run_queue-ends first (suc fuel) order s members enough once = elim (List-cases s.queue) [
    | inl e ↦ rw (e, run_queue) (s, refl, once.1, once.3)
    | inr (current, rest, e) ↦
        let popped : Following = record s { queue = rest } in
        let longer : length s.queue ≡ suc (length rest) = ap length e in
        let less = advance-weight order current popped members in
        let room : weight order (advance api follower order current popped) < fuel =
          omega (arith, longer, less, enough) in
        let r =
          run_queue-ends first fuel order (advance api follower order current popped) members room
            (advance-Once first order current popped once) in
        rw (e, run_queue) r
  ]

-- However the children and their children are linked, the queue runs empty within the fuel, so
-- `followParent` returns; no profile has two results, and the published profile has none.
pub follow_parent-ends :
    (api : Api) (follower : Follower) (db : Database) (stamps : List (Option Bytes × Bytes))
    (stored : List StoredRevision) (published : VerifiedRevision)
    → (results : List FollowResult) × (after : Database) × (follow_parent api follower db stamps
          (ok stored)
          published
        ≡ some (results, after))
      × IsDistinct (followed results)
      × (contains (profile_id published) (followed results) ≡ false)
unfolding follow_parent
follow_parent-ends api follower db stamps stored published =
    let (latest, order) = inventory api follower stored [] [] in
    let s = start_of api follower db stamps published latest in
    let room : weight order s < length order + 2 =
      omega (arith, unvisited-length order s.visited) in
    let self : contains (profile_id published) s.visited ≡ true =
      unfold contains in ground (arith, eq_refl (profile_id published)) in
    let free : contains (profile_id published) [] ≡ false = unfold contains in refl in
    let (last, e, distinct, none_of_first) =
      run_queue-ends api follower (profile_id published) (length order + 2) order s
        (contains_self order) room (tt, tt, self, free) in
    (last.results, last.tables, rw (follow_parent, e) refl, distinct, none_of_first)
