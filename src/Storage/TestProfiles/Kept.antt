-- ===== src/Storage/TestProfiles/Kept.antt =====
-- internal/storage/test_profiles.go: a test profile that has a revision stays its owner's.
use boot_optim_distribution.Base.{
  int_eq, guard_ok, Result, Bytes, bytes_eq, has_prefix, ◌==◌, eq_iff, nat_eq, bool_eq, Bool-cases,
  ok, ◌≡◌, refl, sym, ap, ◌∙◌, ◌≢◌, inl, inr, Bool, true, false, not, some, List, [], ◌∷◌, ◌++◌,
  arith,
}
use boot_optim_distribution.Storage.Database.{
  StoreError, Object, Database, StoredRevision, has_profile,
}
use boot_optim_distribution.Storage.Steps.{Step, Step-Grows}
use boot_optim_distribution.Storage.TestProfiles.{
  TestRow, TestTables, test_prefix, find_test_row, is_used, register_test_profile, without_row,
  release_unpublished, updated_row, with_follow, set_test_profile_follow, record_test_object,
  set_test_token_hash,
}

module _ (sha256_hex : Bytes → Bytes) (verify : Object → Result StoreError (Unit {0})) where
  -- A write to the tables of revisions, or one to those of the test API.
  pub data TestStep (db : Database) (t : TestTables) : Database → TestTables → Type 0 where
    store : (db' : Database) → Step sha256_hex verify db db' → TestStep db t db' t
    register :
        (t' : TestTables) (id owner : Bytes) (follows : Bool) (now : Bytes)
        → register_test_profile db t id owner follows now ≡ ok t'
        → TestStep db t db t'
    release : (id : Bytes) → TestStep db t db (release_unpublished db t id)
    follow :
        (t' : TestTables) (id : Bytes) (follows : Bool)
        → set_test_profile_follow t id follows ≡ ok t'
        → TestStep db t db t'
    upload :
        (t' : TestTables) (o : Object) (owner now : Bytes)
        → record_test_object t o owner now ≡ ok t'
        → TestStep db t db t'
    rotate :
        (t' : TestTables) (hash now : Bytes)
        → set_test_token_hash t hash now ≡ ok t'
        → TestStep db t db t'

  pub data TestRun (db : Database) (t : TestTables) : Database → TestTables → Type 0 where
    start : TestRun db t db t
    then_step :
        {mid : Database} {t₁ : TestTables} {end : Database} {t₂ : TestTables}
        → TestRun db t mid t₁
        → TestStep mid t₁ end t₂
        → TestRun db t end t₂

-- The profile has a revision, and a registration of the owner's.
pub record Owns (db : Database) (t : TestTables) (id owner : Bytes) : Type 0 where
  pub row : TestRow
  pub found : find_test_row id t.profiles ≡ some row
  pub owned : row.owner ≡ owner
  pub published : has_profile id db.revisions ≡ true

has_profile-append :
    (id : Bytes) (xs ys : List StoredRevision)
    → has_profile id ys ≡ true
    → has_profile id (xs ++ ys) ≡ true
unfolding has_profile
has_profile-append id [] ys h = h
has_profile-append id (x ∷ xs) ys h = ground (arith, has_profile-append id xs ys h)

find-without_row :
    (id other : Bytes) (rows : List TestRow)
    → (id == other) ≡ false
    → find_test_row id (without_row other rows) ≡ find_test_row id rows
unfolding find_test_row without_row
find-without_row id other [] h = refl
find-without_row id other (r ∷ rows) h = ground (
  arith,
  h,
  find-without_row id other rows h,
  eq_iff r.profile_id id,
  eq_iff r.profile_id other,
  eq_iff id other,
)

updated_row-same :
    (other : Bytes) (follows : Bool) (r : TestRow)
    → ((updated_row other follows r).profile_id ≡ r.profile_id)
      × ((updated_row other follows r).owner ≡ r.owner)
unfolding updated_row
updated_row-same other follows r = elim (Bool-cases (r.profile_id == other)) [
  | inl e ↦ rw e (refl, refl)
  | inr e ↦ rw e (refl, refl)
]

find-with_follow :
    (id other : Bytes) (follows : Bool) (rows : List TestRow) (row : TestRow)
    → find_test_row id rows ≡ some row
    → (row' : TestRow) × (find_test_row id (with_follow other follows rows) ≡ some row')
      × (row'.owner ≡ row.owner)
unfolding find_test_row with_follow
find-with_follow id other follows [] row h = cc
find-with_follow id other follows (r ∷ rows) row h =
    let r' = updated_row other follows r in
    let (same_id, same_owner) = updated_row-same other follows r in
    elim (Bool-cases (r.profile_id == id)) [
      | inl e ↦
          let here : r ≡ row = (let found : some r ≡ some row = rw e at h in cc) in
          let hit : (r'.profile_id == id) ≡ true = ap (λ k. k == id) same_id ∙ e in
          (r', rw hit refl, same_owner ∙ ap (λ k. k.owner) here)
      | inr e ↦
          let (row', found, owned) = find-with_follow id other follows rows row (rw e at h) in
          let miss : (r'.profile_id == id) ≡ false = ap (λ k. k == id) same_id ∙ e in
          (row', rw miss found, owned)
    ]

-- A registration that succeeds was of another identifier than one that is used.
register_ok :
    (db : Database) (t t' : TestTables) (id owner : Bytes) (follows : Bool) (now : Bytes)
    → register_test_profile db t id owner follows now ≡ ok t'
    → (is_used db t id ≡ false)
      × (t' ≡ record t {
        profiles =
            record { profile_id = id; owner = owner; created_at = now; follow_parent = follows }
            ∷ t.profiles;
      })
unfolding register_test_profile
register_ok db t t' id owner follows now h =
    let (_, h₁) = guard_ok (not (has_prefix test_prefix id)) _ _ h in
    let (unused, fin) = guard_ok (is_used db t id) _ _ h₁ in (unused, cc)

follow_ok :
    (t t' : TestTables) (id : Bytes) (follows : Bool)
    → set_test_profile_follow t id follows ≡ ok t'
    → t' ≡ record t { profiles = with_follow id follows t.profiles }
unfolding set_test_profile_follow
follow_ok t t' id follows h = ground arith

upload_profiles :
    (t t' : TestTables) (o : Object) (owner now : Bytes)
    → record_test_object t o owner now ≡ ok t'
    → t'.profiles ≡ t.profiles
unfolding record_test_object
upload_profiles t t' o owner now h = ground arith

rotate_profiles :
    (t t' : TestTables) (hash now : Bytes)
    → set_test_token_hash t hash now ≡ ok t'
    → t'.profiles ≡ t.profiles
unfolding set_test_token_hash
rotate_profiles t t' hash now h = ground arith

Owns-is_used :
    (db : Database) (t : TestTables) (id owner : Bytes)
    → Owns db t id owner
    → is_used db t id ≡ true
unfolding is_used
Owns-is_used db t id owner o = ground (arith, o.published)

module _ (sha256_hex : Bytes → Bytes) (verify : Object → Result StoreError (Unit {0})) where
  TestStep-Owns :
      (db db' : Database) (t t' : TestTables) (id owner : Bytes)
      → TestStep sha256_hex verify db t db' t'
      → Owns db t id owner
      → Owns db' t' id owner
  TestStep-Owns db _ t _ id owner (store db' s) o =
      let grows = Step-Grows sha256_hex verify db db' s in
      record {
        row = o.row;
        found = o.found;
        owned = o.owned;
        published =
            rw (grows.revisions.1)
              (has_profile-append id grows.revisions.0 db.revisions o.published);
      }
  TestStep-Owns db _ t _ id owner (register t' other by follows now h) o =
      elim (Bool-cases (other == id)) [
        | inl e ↦
            let same : other ≡ id = (eq_iff other id).0 e in
            let unused : is_used db t id ≡ false =
              rw same at (register_ok db t t' other by follows now h).0 in
            let both : true ≡ false = sym (Owns-is_used db t id owner o) ∙ unused in cc
        | inr e ↦ rw ((register_ok db t t' other by follows now h).1) (record {
          row = o.row;
          found = unfold find_test_row in rw e o.found;
          owned = o.owned;
          published = o.published;
        })
      ]
  TestStep-Owns db _ t _ id owner (release other) o =
      elim (Bool-cases (has_profile other db.revisions)) [
        | inl e ↦ unfold release_unpublished in rw e o
        | inr e ↦
            let apart : (id == other) ≡ false = elim (Bool-cases (id == other)) [
              | inr f ↦ f
              | inl f ↦
                  let same : id ≡ other = (eq_iff id other).0 f in
                  let both : true ≡ false = sym o.published ∙ rw same e in cc
            ] in
            unfold release_unpublished in
            rw e (record {
              row = o.row;
              found = find-without_row id other t.profiles apart ∙ o.found;
              owned = o.owned;
              published = o.published;
            })
      ]
  TestStep-Owns db _ t _ id owner (follow t' other follows h) o =
      let (row', found, owned) = find-with_follow id other follows t.profiles o.row o.found in
      rw (follow_ok t t' other follows h)
        (record { row = row'; found = found; owned = owned ∙ o.owned; published = o.published })
  TestStep-Owns db _ t _ id owner (upload t' object by now h) o =
      let same = upload_profiles t t' object by now h in
      record {
        row = o.row;
        found = ap (find_test_row id) same ∙ o.found;
        owned = o.owned;
        published = o.published;
      }
  TestStep-Owns db _ t _ id owner (rotate t' hash now h) o =
      let same = rotate_profiles t t' hash now h in
      record {
        row = o.row;
        found = ap (find_test_row id) same ∙ o.found;
        owned = o.owned;
        published = o.published;
      }

  TestRun-Owns :
      (db : Database) (t : TestTables) (id owner : Bytes) (db' : Database) (t' : TestTables)
      → TestRun sha256_hex verify db t db' t'
      → Owns db t id owner
      → Owns db' t' id owner
  TestRun-Owns db t id owner _ _ start o = o
  TestRun-Owns db t id owner _ _ (then_step {mid} {t₁} {end} {t₂} run step) o =
      TestStep-Owns mid end t₁ t₂ id owner step (TestRun-Owns db t id owner mid t₁ run o)

-- Once a registered test profile has a revision, it stays registered to its owner through every run of
-- publications, channel moves, deletions and writes of the test API, and no later registration of its
-- identifier succeeds.
pub TestRun-keeps_owner :
    (sha256_hex : Bytes → Bytes) (verify : Object → Result StoreError (Unit {0}))
    (db db' : Database) (t t' t'' : TestTables) (id owner other : Bytes) (follows : Bool)
    (now : Bytes)
    → Owns db t id owner
    → TestRun sha256_hex verify db t db' t'
    → Owns db' t' id owner × (register_test_profile db' t' id other follows now ≢ ok t'')
TestRun-keeps_owner sha256_hex verify db db' t t' t'' id owner other follows now o run =
    let after = TestRun-Owns sha256_hex verify db t id owner db' t' run o in
    (
      after,
      λ h.
          let both : true ≡ false =
            sym (Owns-is_used db' t' id owner after)
            ∙ (register_ok db' t' t'' id other follows now h).0 in
          cc,
    )
