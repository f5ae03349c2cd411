-- ===== src/Profileapi/Follow.antt =====
-- internal/profileapi/follow_parent.go: after a publication, the children of the profile are published
-- again with the new parent, and their children after them.
pub mod Ends
use Prim.Native.String.{String}
use boot_optim_distribution.Base.{
  int_eq, ℤ, length, contains, lookup, insert, ◌>>=◌, ◌>>◌, each, Result, Bytes, codes, bytes_eq,
  has_prefix, leb, if◌then◌else◌, ◌==◌, ◌!=◌, nat_eq, bool_eq, is_some, pos, negsuc, ok, err, ℕ,
  zero, suc, ◌+◌, ◌-◌, ◌*◌, Bool, true, false, not, ◌||◌, Option, none, some, List, [], ◌∷◌, ◌++◌,
}
use boot_optim_distribution.Revision.Types.{
  VerifiedRevision, Manifest, RevisionStamp, ParentRef, profile_id, revision_id,
}
use boot_optim_distribution.Storage.Database.{
  StoreError, revision_not_found, StoredRevision, ChannelRecord, Database,
}
use boot_optim_distribution.Storage.Channel.{channel_of}
use boot_optim_distribution.Profileapi.Errors.{Api, ApiError}
use boot_optim_distribution.Profileapi.Publish.{publish_core}
use boot_optim_distribution.Profileapi.Channels.{promote_channel}

-- `TestProfilePrefix`
abbrev pub test_profile_prefix : Bytes
test_profile_prefix = codes "profile_test-"

-- `followResult`; a revision is its id, sequence and digest.
pub record FollowResult : Type 0 where
  pub profile_id : Bytes
  pub parent_profile_id : Bytes
  pub parent_revision_id : Bytes
  pub status : Bytes
  pub revision : Option (Bytes × ℤ × Bytes)
  pub code : Bytes
  pub message : Bytes
  pub stable : Bytes
  pub stable_message : Bytes

-- What the function calls beside the API. `decode` reads a stored manifest. `sign` writes a manifest as
-- canonical JSON and signs it, or gives the code and message of the step that fails. `test_follows` is
-- `TestProfileFollows`.
pub record Follower : Type 0 where
  pub decode : Bytes → Option Manifest
  pub has_signer : Bool
  pub sign : Manifest → Result (Bytes × Bytes) Bytes
  pub test_follows : Bytes → Result StoreError Bool

-- The state of the loops. `stamps` holds, for the next revisions, the random hexadecimal text (none when
-- there is none to be had) and the time.
pub record Following : Type 0 where
  pub tables : Database
  pub latest : List (Bytes × Manifest)
  pub visited : List Bytes
  pub queue : List (VerifiedRevision × ℕ)
  pub results : List FollowResult
  pub stamps : List (Option Bytes × Bytes)

-- `child.Revision.Sequence + 1` on int64.
unfoldable pub next_sequence : ℤ → ℤ
next_sequence (pos n) = if n == 9223372036854775807 then negsuc 9223372036854775807 else pos (n + 1)
next_sequence (negsuc zero) = pos 0
next_sequence (negsuc (suc n)) = negsuc n

-- The child with its new parent.
abbrev pub repinned : Manifest → VerifiedRevision → Bytes → Bytes → Manifest
repinned child parent id created_at = record child {
  base = some (record {
    profile_id = profile_id parent;
    revision_id = revision_id parent;
    manifest_sha256 = parent.digest;
  });
  game = parent.manifest.game;
  revision = record {
    id = id;
    sequence = next_sequence child.revision.sequence;
    created_at = created_at;
    release_notes =
        codes "auto: sigue a " ++ (profile_id parent ++ (codes " rev " ++ revision_id parent));
  };
}

-- What `repinChild` makes of the answer of `publishCore`.
unfoldable pub repin_refusal : ApiError → Bytes × Bytes
repin_refusal e =
    if e.code == codes "parent_verification_failed"
    then (
      codes "auto_follow_conflict",
      codes "child content no longer validates against the new parent",
    )
    else (e.code, e.message)

module _ (api : Api) (follower : Follower) where
  -- The inventory: the first row of each profile whose manifest is readable.
  unfoldable pub inventory :
      List StoredRevision
      → List (Bytes × Manifest)
      → List Bytes
      → List (Bytes × Manifest) × List Bytes
  inventory [] latest order = (latest, order)
  inventory (row ∷ rows) latest order =
      if is_some (lookup row.profile_id latest)
      then inventory rows latest order
      else elim (follower.decode row.manifest) [
        | none ↦ inventory rows latest order
        | some manifest ↦
            inventory rows (insert row.profile_id manifest latest) (order ++ (row.profile_id ∷ []))
      ]

  -- `followsParent`
  unfoldable pub follows_parent : Bytes → Bool
  follows_parent id =
      if not (has_prefix test_profile_prefix id)
      then true
      else elim (follower.test_follows id) [ ok follows ↦ follows | err e ↦ false ]

  unfoldable pub publish_repinned :
      Database → Manifest → Result (Bytes × Bytes) (VerifiedRevision × Database)
  publish_repinned db manifest = follower.sign manifest >>= λ envelope.
      elim (publish_core api db db envelope) [
        | ok (v, status, db') ↦ ok (v, db')
        | err e ↦ err (repin_refusal e)
      ]

  unfoldable pub stamped :
      Database
      → Manifest
      → VerifiedRevision
      → Option Bytes × Bytes
      → Result (Bytes × Bytes) (VerifiedRevision × Database)
  stamped db child parent (none, created_at) =
      err (codes "internal_error", codes "revision id could not be generated")
  stamped db child parent (some hex, created_at) =
      publish_repinned db (repinned child parent (codes "rev_" ++ hex) created_at)

  -- `repinChild`, with the stamps that are left.
  unfoldable pub repin_child :
      Database
      → List (Option Bytes × Bytes)
      → Manifest
      → VerifiedRevision
      → Result (Bytes × Bytes) (VerifiedRevision × Database) × List (Option Bytes × Bytes)
  repin_child db stamps child parent =
      if not follower.has_signer
      then (err (codes "publication_unavailable", codes "automatic signing is unavailable"), stamps)
      else elim stamps [
        | [] ↦ (err (codes "internal_error", codes "revision id could not be generated"), [])
        | stamp ∷ rest ↦ (stamped db child parent stamp, rest)
      ]

  -- `followStable`: what it reports, and the tables after it.
  unfoldable pub follow_stable : Database → Bytes → Bytes → Bytes → Bytes × Bytes × Database
  follow_stable db profile revision previous = elim (channel_of db profile (codes "stable")) [
    | ok record_now ↦
        if record_now.revision_id != previous
        then (codes "stable_held", [], db)
        else elim (promote_channel api db db profile (codes "stable") revision) [
          | ok (c, db') ↦ (codes "promoted", [], db')
          | err e ↦ (codes "promote_failed", e.code ++ (codes ": " ++ e.message), db)
        ]
    | err e ↦ elim e [
      | revision_not_found ↦ ([], [], db)
      | _ ↦ (codes "promote_failed", codes "channel state unavailable", db)
    ]
  ]

  abbrev pub blank : VerifiedRevision → Bytes → FollowResult
  blank parent child_id = record {
    profile_id = child_id;
    parent_profile_id = profile_id parent;
    parent_revision_id = revision_id parent;
    status = [];
    revision = none;
    code = [];
    message = [];
    stable = [];
    stable_message = [];
  }

  -- The result of a child that was published, with the state after it.
  unfoldable pub record_published :
      VerifiedRevision → ℕ → Bytes → Bytes → Following → VerifiedRevision → Following
  record_published parent depth child_id previous s verified =
      let (stable, stable_message, tables) =
        follow_stable s.tables child_id (revision_id verified) previous in
      record s {
        tables = tables;
        latest = insert child_id verified.manifest s.latest;
        queue = s.queue ++ ((verified, depth + 1) ∷ []);
        results =
            s.results
            ++ (record (blank parent child_id) {
              status = codes "published";
              revision =
                  some (revision_id verified, verified.manifest.revision.sequence, verified.digest);
              stable = stable;
              stable_message = stable_message;
            }
                ∷ []);
      }

  unfoldable pub record_repin :
      VerifiedRevision
      → ℕ
      → Bytes
      → Bytes
      → Following
      → Result (Bytes × Bytes) (VerifiedRevision × Database)
      → Following
  record_repin parent depth child_id previous s (ok (verified, tables)) =
      record_published parent depth child_id previous (record s { tables = tables }) verified
  record_repin parent depth child_id previous s (err (code, message)) = record s {
    results =
        s.results
        ++ (record (blank parent child_id) {
          status = codes "skipped";
          code = code;
          message = message;
        }
            ∷ []);
  }

  -- The body of the inner loop for a child that is not passed over; it counts as visited.
  unfoldable pub follow_child : VerifiedRevision → ℕ → Bytes → Following → Manifest → Following
  follow_child parent depth child_id s child =
      if not (follows_parent child_id)
      then s
      else (let (outcome, stamps) = repin_child s.tables s.stamps child parent in
          record_repin parent depth child_id child.revision.id (record s { stamps = stamps })
            outcome)

  -- The child's latest manifest, if it is to be looked at under this parent.
  unfoldable pub due : VerifiedRevision → List Bytes → Bytes → Option Manifest → Option Manifest
  due parent visited child_id none = none
  due parent visited child_id (some child) = elim child.base [
    | none ↦ none
    | some pin ↦
        if contains child_id visited
          || pin.profile_id != profile_id parent
          || pin.revision_id == revision_id parent
        then none
        else some child
  ]

  unfoldable pub visit : VerifiedRevision → ℕ → Bytes → Following → Following
  visit parent depth child_id s = elim (due parent s.visited child_id (lookup child_id s.latest)) [
    | none ↦ s
    | some child ↦
        follow_child parent depth child_id (record s { visited = child_id ∷ s.visited }) child
  ]

  -- `for _, childID := range order`
  unfoldable pub visit_all : VerifiedRevision → ℕ → List Bytes → Following → Following
  visit_all parent depth [] s = s
  visit_all parent depth (child_id ∷ rest) s =
      visit_all parent depth rest (visit parent depth child_id s)

  -- One round of `for len(queue) > 0`, with its pair taken off the queue.
  unfoldable pub advance : List Bytes → VerifiedRevision × ℕ → Following → Following
  advance order (parent, depth) s = if leb 8 depth then s else visit_all parent depth order s

  -- The outer loop; none is too little fuel.
  unfoldable pub run_queue : ℕ → List Bytes → Following → Option Following
  run_queue zero order s = none
  run_queue (suc fuel) order s = elim s.queue [
    | [] ↦ some s
    | current ∷ rest ↦ run_queue fuel order (advance order current (record s { queue = rest }))
  ]

  abbrev pub start_of :
      Database
      → List (Option Bytes × Bytes)
      → VerifiedRevision
      → List (Bytes × Manifest)
      → Following
  start_of db stamps published latest = record {
    tables = db;
    latest = latest;
    visited = profile_id published ∷ [];
    queue = (published, 0) ∷ [];
    results = [];
    stamps = stamps;
  }

  abbrev inventory_failed : VerifiedRevision → FollowResult
  inventory_failed published = record (blank published (codes "*")) {
    status = codes "skipped";
    code = codes "storage_error";
    message = codes "profile inventory unavailable; children were not re-pinned";
  }

  -- `followParent`, with fuel for two rounds more than there are profiles.
  unfoldable pub follow_parent :
      Database
      → List (Option Bytes × Bytes)
      → Result StoreError (List StoredRevision)
      → VerifiedRevision
      → Option (List FollowResult × Database)
  unfolding inventory_failed
  follow_parent db stamps (err e) published = some (inventory_failed published ∷ [], db)
  follow_parent db stamps (ok stored) published =
      let (latest, order) = inventory stored [] [] in
      elim (run_queue (length order + 2) order (start_of db stamps published latest)) [
        | none ↦ none
        | some s ↦ some (s.results, s.tables)
      ]
