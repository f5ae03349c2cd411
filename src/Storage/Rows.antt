-- ===== src/Storage/Rows.antt =====
-- Rows that fit together: revisions that differ, links and channels that have their revision.
use boot_optim_distribution.Base.{
  int_eq, All, bind_ok, Bytes, bytes_eq, ◌==◌, eq_iff, eq_refl, nat_eq, bool_eq, Bool-cases,
  is_some, ok, ◌≡◌, refl, ◌≢◌, ◌⊎◌, inl, inr, true, false, ◌&&◌, none, some, List, [], ◌∷◌, arith,
}
use boot_optim_distribution.Storage.Database.{
  Object, object_eq, Database, ChannelRecord, StoredRevision, find_revision, has_sequence,
  has_digest, stored_size, record_object, record_objects, link_objects,
}
use boot_optim_distribution.Storage.Channel.{put_channel, points_at}

-- Two revisions that differ in all that is unique.
pub record Apart (a b : StoredRevision) : Type 0 where
  pub id : a.revision_id ≢ b.revision_id
  pub place : (a.profile_id ≢ b.profile_id) ⊎ (a.sequence ≢ b.sequence)
  pub digest : a.manifest_sha256 ≢ b.manifest_sha256

abbrev pub AllApart : List StoredRevision → Type 0
AllApart [] = Unit
AllApart (r ∷ rs) = All (Apart r) rs × AllApart rs

-- The channel repeats the row of the revision that it names.
pub record Backed (rows : List StoredRevision) (c : ChannelRecord) : Type 0 where
  pub row : StoredRevision
  pub found : find_revision c.revision_id rows ≡ some row
  pub profile : row.profile_id ≡ c.profile_id
  pub sequence : row.sequence ≡ c.sequence
  pub digest : row.manifest_sha256 ≡ c.manifest_sha256

abbrev pub HasRevision : List StoredRevision → Bytes → Type 0
HasRevision rows id = is_some (find_revision id rows) ≡ true

abbrev pub HasObject : List Object → Bytes → Type 0
HasObject objects digest = is_some (stored_size digest objects) ≡ true

-- A link joins a revision and an object that are there.
abbrev pub IsLink : List StoredRevision → List Object → Bytes × Bytes → Type 0
IsLink rows objects link = HasRevision rows link.0 × HasObject objects link.1

pub record IsSound (sha256_hex : Bytes → Bytes) (db : Database) : Type 0 where
  pub apart : AllApart db.revisions
  pub digests : All (λ r. sha256_hex r.manifest ≡ r.manifest_sha256) db.revisions
  pub links : All (IsLink db.revisions db.objects) db.revision_objects
  pub envelopes : All (λ e. HasRevision db.revisions e.0) db.envelopes
  pub channels : All (Backed db.revisions) db.channels

pub All-weaken {ℓ κ μ} :
    {A : Type ℓ} (P : A → Type κ) (Q : A → Type μ)
    → ((a : A) → P a → Q a)
    → (xs : List A) → All P xs
    → All Q xs
All-weaken P Q f [] h = tt
All-weaken P Q f (x ∷ xs) (p, h) = (f x p, All-weaken P Q f xs h)

pub insert-Apart :
    (r : StoredRevision) (rows : List StoredRevision)
    → find_revision r.revision_id rows ≡ none
    → has_sequence r.profile_id r.sequence rows ≡ false
    → has_digest r.manifest_sha256 rows ≡ false
    → All (Apart r) rows
unfolding find_revision has_sequence has_digest
insert-Apart r [] a b c = tt
insert-Apart r (s ∷ rows) a b c = (
  record {
    id = λ e. ground (arith, eq_iff s.revision_id r.revision_id);
    place = ground (arith, eq_iff s.profile_id r.profile_id, eq_iff s.sequence r.sequence);
    digest = λ e. ground (arith, eq_iff s.manifest_sha256 r.manifest_sha256);
  },
  insert-Apart r rows (ground arith) (ground arith) (ground arith),
)

pub find_kept :
    (id : Bytes) (r new : StoredRevision) (rows : List StoredRevision)
    → find_revision new.revision_id rows ≡ none
    → find_revision id rows ≡ some r
    → find_revision id (new ∷ rows) ≡ some r
unfolding find_revision
find_kept id r new rows fresh h = ground (arith, eq_iff new.revision_id id)

pub HasRevision-kept :
    (id : Bytes) (new : StoredRevision) (rows : List StoredRevision)
    → HasRevision rows id
    → HasRevision (new ∷ rows) id
unfolding find_revision
HasRevision-kept id new rows h = ground arith

pub HasRevision-new :
    (new : StoredRevision) (rows : List StoredRevision) → HasRevision (new ∷ rows) new.revision_id
unfolding find_revision
HasRevision-new new rows = ground (arith, eq_refl new.revision_id)

pub record_object-has :
    (stored stored' : List Object) (o : Object) (d : Bytes)
    → record_object stored o ≡ ok stored'
    → HasObject stored d ⊎ (o.sha256 ≡ d)
    → HasObject stored' d
unfolding record_object stored_size
record_object-has stored stored' o d h k = ground (arith, eq_iff o.sha256 d)

pub record_objects-keeps :
    (os stored stored' : List Object) (d : Bytes)
    → record_objects stored os ≡ ok stored'
    → HasObject stored d
    → HasObject stored' d
unfolding record_objects
record_objects-keeps [] stored stored' d h k = ground arith
record_objects-keeps (o ∷ os) stored stored' d h k =
    let (mid, first, rest) = bind_ok (record_object stored o) _ h in
    record_objects-keeps os mid stored' d rest (record_object-has stored mid o d first (inl k))

pub record_objects-has :
    (os stored stored' : List Object)
    → record_objects stored os ≡ ok stored'
    → All (λ o. HasObject stored' o.sha256) os
unfolding record_objects
record_objects-has [] stored stored' h = tt
record_objects-has (o ∷ os) stored stored' h =
    let (mid, first, rest) = bind_ok (record_object stored o) _ h in
    (
      record_objects-keeps os mid stored' o.sha256 rest
          (record_object-has stored mid o o.sha256 first (inr refl)),
      record_objects-has os mid stored' rest,
    )

pub link_objects-All :
    (L : Bytes × Bytes → Type 0) (id : Bytes) (os : List Object) (rows rows' : List (Bytes × Bytes))
    → link_objects id rows os ≡ ok rows'
    → All (λ o. L (id, o.sha256)) os
    → All L rows
    → All L rows'
unfolding link_objects
link_objects-All L id [] rows rows' h new old =
    let same : rows ≡ rows' = ground arith in rw (← same) old
link_objects-All L id (o ∷ os) rows rows' h new old =
    link_objects-All L id os ((id, o.sha256) ∷ rows) rows' (ground arith) new.1 (new.0, old)

pub put_channel-All :
    (P : ChannelRecord → Type 0) (c : ChannelRecord) (cs : List ChannelRecord)
    → P c
    → All P cs
    → All P (put_channel c cs)
unfolding put_channel
put_channel-All P c [] p h = (p, tt)
put_channel-All P c (d ∷ cs) p h =
    elim (Bool-cases (d.profile_id == c.profile_id && d.channel == c.channel)) [
      | inl e ↦ rw e (p, h.1)
      | inr e ↦ rw e (h.0, put_channel-All P c cs p h.1)
    ]

pub points_at-Backed :
    (c : ChannelRecord) (r : StoredRevision) (rows : List StoredRevision)
    → find_revision c.revision_id rows ≡ some r
    → points_at c r ≡ true
    → Backed rows c
unfolding points_at
points_at-Backed c r rows e h = record {
  row = r;
  found = e;
  profile = ground (arith, eq_iff r.profile_id c.profile_id);
  sequence = ground (arith, eq_iff r.sequence c.sequence);
  digest = ground (arith, eq_iff r.manifest_sha256 c.manifest_sha256);
}
