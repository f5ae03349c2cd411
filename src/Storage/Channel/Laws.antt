-- ===== src/Storage/Channel/Laws.antt =====
-- What setting a channel, deleting a profile and asking for a head do.
use boot_optim_distribution.Base.{
  ◌≤ℤ◌, ltb_ℤ, int_eq, ℤ, All, contains, Result, Bytes, bytes_eq, ◌==◌, eq_iff, eq_refl, nat_eq,
  bool_eq, Bool-cases, Option-cases, ok, err, ◌≡◌, refl, sym, ap, ◌∙◌, ◌≢◌, ◌↔◌, ◌⊎◌, inl, inr,
  true, false, not, ◌&&◌, Option, none, some, List, [], ◌∷◌, ◌++◌, arith,
}
use boot_optim_distribution.Storage.Database.{
  StoreError, Object, Database, ChannelRecord, StoredRevision, revision_not_found,
}
use boot_optim_distribution.Storage.Publish.{
  RevisionPublication, publish_revision, publish_signed_revision, no_hooks, signed_hooks,
}
use boot_optim_distribution.Storage.Channel.{
  compare_and_set_channel, delete_profile, find_channel, put_channel, same_record, as_expected,
  complete_record, points_at, newest, profile_head,
}
use boot_optim_distribution.Storage.Steps.{
  Run, Run-Grows, publish_with_hooks_ok, signed_ok, set_channel_ok,
}
use boot_optim_distribution.Storage.Rows.{Backed, points_at-Backed, All-weaken}

module _ (db : Database) (c : ChannelRecord) where
  -- The conditions under which a channel may be set.
  pub record MaySet (expected : Option ChannelRecord) : Type 0 where
    pub complete : complete_record c ≡ true
    pub listed : contains c.profile_id db.deleted ≡ false
    pub current : find_channel c.profile_id c.channel db.channels ≡ expected
    pub backed : Backed db.revisions c

  same_record-eq : (a b : ChannelRecord) → same_record a b ≡ true → a ≡ b
  unfolding same_record
  same_record-eq a b h =
      let e₁ : a.profile_id ≡ b.profile_id = ground (arith, eq_iff a.profile_id b.profile_id) in
      let e₂ : a.channel ≡ b.channel = ground (arith, eq_iff a.channel b.channel) in
      let e₃ : a.revision_id ≡ b.revision_id = ground (arith, eq_iff a.revision_id b.revision_id) in
      let e₄ : a.sequence ≡ b.sequence = ground (arith, eq_iff a.sequence b.sequence) in
      let e₅ : a.manifest_sha256 ≡ b.manifest_sha256 =
        ground (arith, eq_iff a.manifest_sha256 b.manifest_sha256) in
      cc

  same_record_refl : (a : ChannelRecord) → same_record a a ≡ true
  unfolding same_record
  same_record_refl a = rw (
    eq_refl a.profile_id,
    eq_refl a.channel,
    eq_refl a.revision_id,
    eq_refl a.sequence,
    eq_refl a.manifest_sha256,
  )

  as_expected-eq : (a b : Option ChannelRecord) → as_expected a b ≡ true → a ≡ b
  unfolding as_expected
  as_expected-eq none none h = refl
  as_expected-eq none (some b) h = cc
  as_expected-eq (some a) none h = cc
  as_expected-eq (some a) (some b) h = ap some (same_record-eq a b h)

  as_expected_refl : (a : Option ChannelRecord) → as_expected a a ≡ true
  unfolding as_expected
  as_expected_refl none = refl
  as_expected_refl (some a) = same_record_refl a

  may_set :
      (expected : Option ChannelRecord)
      → MaySet expected
      → compare_and_set_channel db expected c
        ≡ ok (record db { channels = put_channel c db.channels })
  unfolding compare_and_set_channel points_at
  may_set expected m =
      let b = m.backed in
      let asked : as_expected (find_channel c.profile_id c.channel db.channels) expected ≡ true =
        rw m.current (as_expected_refl expected) in
      rw (
        m.complete,
        m.listed,
        asked,
        b.found,
        b.profile,
        b.sequence,
        b.digest,
        eq_refl c.profile_id,
        eq_refl c.sequence,
        eq_refl c.manifest_sha256,
      )

  may_of :
      (db' : Database) (expected : Option ChannelRecord)
      → compare_and_set_channel db expected c ≡ ok db'
      → MaySet expected × (db' ≡ record db { channels = put_channel c db.channels })
  may_of db' expected h =
      let (r, complete, listed, asked, found, points, same) =
        set_channel_ok (λ b. b) (λ o. ok tt) db db' expected c h in
      (
        record {
          complete = complete;
          listed = listed;
          current = as_expected-eq _ _ asked;
          backed = points_at-Backed c r db.revisions found points;
        },
        same,
      )

  pub find_channel-put_channel :
      (cs : List ChannelRecord) → find_channel c.profile_id c.channel (put_channel c cs) ≡ some c
  unfolding find_channel put_channel
  find_channel-put_channel [] = rw (eq_refl c.profile_id, eq_refl c.channel)
  find_channel-put_channel (d ∷ cs) =
      ground (arith, eq_refl c.profile_id, eq_refl c.channel, find_channel-put_channel cs)

  other_channel :
      (profile channel : Bytes) (cs : List ChannelRecord)
      → (profile ≢ c.profile_id) ⊎ (channel ≢ c.channel)
      → find_channel profile channel (put_channel c cs) ≡ find_channel profile channel cs
  unfolding find_channel put_channel
  other_channel profile channel [] h =
      ground (arith, eq_iff c.profile_id profile, eq_iff c.channel channel)
  other_channel profile channel (d ∷ cs) h = ground (
    arith,
    eq_iff c.profile_id profile,
    eq_iff c.channel channel,
    eq_iff d.profile_id c.profile_id,
    eq_iff d.channel c.channel,
    eq_iff d.profile_id profile,
    eq_iff d.channel channel,
    other_channel profile channel cs h,
  )

-- The tables after a channel was set: the record of the candidate is put in the place of the current one,
-- its channel reads as the candidate, and every other channel reads as before.
pub record IsPut (db : Database) (c : ChannelRecord) (db' : Database) : Type 0 where
  pub tables : db' ≡ record db { channels = put_channel c db.channels }
  pub current : find_channel c.profile_id c.channel db'.channels ≡ some c
  pub others :
      (profile channel : Bytes)
      → (profile ≢ c.profile_id) ⊎ (channel ≢ c.channel)
      → find_channel profile channel db'.channels ≡ find_channel profile channel db.channels

pub compare_and_set_channel_when :
    (db db' : Database) (expected : Option ChannelRecord) (c : ChannelRecord)
    → (compare_and_set_channel db expected c ≡ ok db')
      ↔ (MaySet db c expected × (db' ≡ record db { channels = put_channel c db.channels }))
compare_and_set_channel_when db db' expected c =
    (λ h. may_of db c db' expected h, λ m. may_set db c expected m.0 ∙ ap ok (sym m.1))

put_channel-IsPut :
    (db : Database) (c : ChannelRecord)
    → IsPut db c (record db { channels = put_channel c db.channels })
put_channel-IsPut db c = record {
  tables = refl;
  current = find_channel-put_channel db c db.channels;
  others = λ profile channel other. other_channel db c profile channel db.channels other;
}

-- A channel is set exactly when the candidate is complete, its profile is not deleted, the record that
-- the caller expects is the current one, and a stored revision says what the candidate says; then the
-- candidate's record is put in the place of the current one, the channel reads as the candidate, and
-- every other channel reads as before.
pub compare_and_set_channel_iff :
    (db db' : Database) (expected : Option ChannelRecord) (c : ChannelRecord)
    → (compare_and_set_channel db expected c ≡ ok db') ↔ (MaySet db c expected × IsPut db c db')
compare_and_set_channel_iff db db' expected c = (
  λ h.
      let (may, tables) = (compare_and_set_channel_when db db' expected c).0 h in
      (may, rw tables (put_channel-IsPut db c)),
  λ m. (compare_and_set_channel_when db db' expected c).1 (m.0, m.1.tables),
)

-- After a channel was set it reads as the candidate, and every other channel reads as before.
pub channel_after_set :
    (db db' : Database) (expected : Option ChannelRecord) (c : ChannelRecord)
    (profile channel : Bytes)
    → compare_and_set_channel db expected c ≡ ok db'
    → (profile ≢ c.profile_id) ⊎ (channel ≢ c.channel)
    → (find_channel c.profile_id c.channel db'.channels ≡ some c)
      × (find_channel profile channel db'.channels ≡ find_channel profile channel db.channels)
channel_after_set db db' expected c profile channel h other =
    rw ((compare_and_set_channel_when db db' expected c).0 h).1 (
      find_channel-put_channel db c db.channels,
      other_channel db c profile channel db.channels other,
    )

contains-append :
    (id : Bytes) (xs ys : List Bytes) → contains id ys ≡ true → contains id (xs ++ ys) ≡ true
unfolding contains
contains-append id [] ys h = h
contains-append id (x ∷ xs) ys h = ground (arith, contains-append id xs ys h)

delete_profile-contains :
    (db db' : Database) (id : Bytes)
    → delete_profile db id ≡ ok db'
    → contains id db'.deleted ≡ true
unfolding delete_profile contains
delete_profile-contains db db' id h = ground (arith, eq_refl id)

-- Once a profile is deleted, and whatever run of writes follows, no revision of it is published,
-- signed or not, none of its channels is set, and it has no head.
pub deleted_forever :
    (sha256_hex : Bytes → Bytes) (verify : Object → Result StoreError (Unit {0}))
    (db start now next : Database) (p : RevisionPublication) (envelope : Bytes)
    (expected : Option ChannelRecord) (c : ChannelRecord)
    → delete_profile db p.profile_id ≡ ok start
    → Run sha256_hex verify start now
    → c.profile_id ≡ p.profile_id
    → (publish_revision sha256_hex verify now p ≢ ok next)
      × (publish_signed_revision sha256_hex verify now p envelope ≢ ok next)
      × (compare_and_set_channel now expected c ≢ ok next)
      × (profile_head now p.profile_id ≡ err revision_not_found)
deleted_forever sha256_hex verify db start now next p envelope expected c gone run same =
    let (rows, e) = (Run-Grows sha256_hex verify start now run).deleted in
    let still : contains p.profile_id now.deleted ≡ true = rw e (
      contains-append p.profile_id rows start.deleted
        (delete_profile-contains db start p.profile_id gone)) in
    (
      λ h.
          (let (_, _, _, _, free, _) =
              publish_with_hooks_ok sha256_hex verify (no_hooks sha256_hex verify) now next p
                (unfold publish_revision in h) in
            cc),
      λ h.
          (let (_, _, _, _, free, _) =
              publish_with_hooks_ok sha256_hex verify (signed_hooks sha256_hex verify envelope) now
                next p (signed_ok sha256_hex verify now next p envelope h) in
            cc),
      λ h. (let listed = ((compare_and_set_channel_when now next expected c).0 h).0.listed in cc),
      (unfold profile_head in rw still),
    )

-- The revision stands in the table.
abbrev pub In : StoredRevision → List StoredRevision → Type 0
In r [] = ⊥
In r (s ∷ rows) = (s ≡ r) ⊎ In r rows

-- The revision is of another profile, or has no higher sequence.
abbrev pub NoHigher : Bytes → ℤ → StoredRevision → Type 0
NoHigher profile m r = (r.profile_id ≢ profile) ⊎ (r.sequence ≤ℤ m)

NoHigher-le :
    (profile : Bytes) (a b : ℤ)
    → a ≤ℤ b
    → (r : StoredRevision) → NoHigher profile a r
    → NoHigher profile b r
NoHigher-le profile a b h r (inl k) = inl k
NoHigher-le profile a b h r (inr k) = inr (omega (arith, h, k))

newest-none :
    (profile : Bytes) (rows : List StoredRevision)
    → newest profile rows ≡ none
    → All (λ r. r.profile_id ≢ profile) rows
unfolding newest
newest-none profile [] h = tt
newest-none profile (r ∷ rows) h =
    (λ e. ground (arith, eq_iff r.profile_id profile), newest-none profile rows (ground arith))

newest_lem :
    (profile : Bytes) (r : StoredRevision) (rows : List StoredRevision)
    → newest profile rows ≡ some r
    → In r rows × (r.profile_id ≡ profile) × All (NoHigher profile r.sequence) rows
unfolding newest
newest_lem profile r [] h = cc
newest_lem profile r (s ∷ rows) h = elim (Option-cases (newest profile rows)) [
  | inl e ↦ (
    inl (ground (arith, eq_iff s.profile_id profile)),
    ground (arith, eq_iff s.profile_id profile),
    (
      ground (arith, eq_iff s.profile_id profile),
      All-weaken _ _ (λ t k. inl k) rows (newest-none profile rows e),
    ),
  )
  | inr (t, e) ↦
      let (there, own, bound) = newest_lem profile t rows e in
      elim (Bool-cases (s.profile_id == profile && not (ltb_ℤ s.sequence t.sequence))) [
        | inl k ↦
            let same : s ≡ r = ground arith in
            (
              inl same,
              ground (arith, eq_iff s.profile_id profile),
              (
                inr (ground arith),
                All-weaken _ _ (NoHigher-le profile t.sequence r.sequence (ground arith)) rows
                    bound,
              ),
            )
        | inr k ↦
            let same : t ≡ r = ground arith in
            (
              inr (rw same at there),
              rw same at own,
              (ground (arith, eq_iff s.profile_id profile), rw same at bound),
            )
      ]
]

-- The head of a profile is a stored revision of it, no revision of the profile has a higher sequence,
-- and the profile is not deleted.
pub profile_head-newest :
    (db : Database) (profile : Bytes) (r : StoredRevision)
    → profile_head db profile ≡ ok r
    → In r db.revisions
      × (r.profile_id ≡ profile)
      × All (NoHigher profile r.sequence) db.revisions
      × (contains profile db.deleted ≡ false)
unfolding profile_head
profile_head-newest db profile r h =
    let (there, own, bound) = newest_lem profile r db.revisions (ground arith) in
    (there, own, bound, ground arith)
