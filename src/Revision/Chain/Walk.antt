-- ===== src/Revision/Chain/Walk.antt =====
-- The chain that `ValidateInheritanceChain` returns: linked by pins, free of cycles, bounded.
use Prim.Native.String.{String}
use boot_optim_distribution.Base.{
  pos_part, int_eq, ℤ, length, contains, ◌>>=◌, bind_ok, Result, bytes_eq, eq_iff, nat_eq, bool_eq,
  Option-cases, ok, err, ℕ, zero, suc, ◌≤◌, ◌≡◌, refl, sym, ◌∙◌, ◌≢◌, ◌↔◌, inl, inr, true, false,
  none, some, List, [], ◌∷◌, arith,
}
use boot_optim_distribution.Revision.Types.{
  ParentRef, VerifiedRevision, profile_id, revision_id, same_game,
}
use boot_optim_distribution.Revision.Jvm.Effective.{effective_options}
use boot_optim_distribution.Revision.Chain.{
  RevisionKey, key_eq, key_of, pin_key, Parents, depth_cap, matches_pin, next_parent, follow,
  lineage_of, content_of, validate_inheritance_chain,
}

-- The child's pin names the parent, which pins the same game.
pub record Pins (parents : Parents) (child parent : VerifiedRevision) : Type 0 where
  pub pin : ParentRef
  pub base : child.manifest.base ≡ some pin
  pub supplied : parents (pin_key pin) ≡ some parent
  pub profile : profile_id parent ≡ pin.profile_id
  pub revision : revision_id parent ≡ pin.revision_id
  pub digest : parent.digest ≡ pin.manifest_sha256
  pub game : same_game parent.manifest.game child.manifest.game ≡ true

-- Each revision pins the next, and the last has no base.
abbrev pub Linked : Parents → VerifiedRevision → List VerifiedRevision → Type 0
Linked parents v [] = v.manifest.base ≡ none
Linked parents v (p ∷ ps) = Pins parents v p × Linked parents p ps

-- No key of the bases was seen before, and none repeats.
abbrev pub Fresh : List RevisionKey → List VerifiedRevision → Type 0
Fresh seen [] = Unit
Fresh seen (p ∷ ps) = (contains (key_of p) seen ≡ false) × Fresh (key_of p ∷ seen) ps

matches_pin_iff :
    (parent : VerifiedRevision) (pin : ParentRef)
    → (matches_pin parent pin ≡ true) ↔ (
        (profile_id parent ≡ pin.profile_id)
        × (revision_id parent ≡ pin.revision_id)
        × (parent.digest ≡ pin.manifest_sha256))
unfolding matches_pin
matches_pin_iff parent pin = ground (
  arith,
  eq_iff (profile_id parent) pin.profile_id,
  eq_iff (revision_id parent) pin.revision_id,
  eq_iff parent.digest pin.manifest_sha256,
)

module _ (parents : Parents) where
  -- What the tests of one round found.
  next_parent_facts :
      (seen : List RevisionKey) (current parent : VerifiedRevision) (pin : ParentRef)
      → next_parent parents seen current pin ≡ ok parent
      → (contains (pin_key pin) seen ≡ false)
        × (parents (pin_key pin) ≡ some parent)
        × (matches_pin parent pin ≡ true)
        × (same_game parent.manifest.game current.manifest.game ≡ true)
  unfolding next_parent
  next_parent_facts seen current parent pin h = ground arith

  next_parent_pass :
      (seen : List RevisionKey) (current parent : VerifiedRevision) (pin : ParentRef)
      → contains (pin_key pin) seen ≡ false
      → parents (pin_key pin) ≡ some parent
      → matches_pin parent pin ≡ true
      → same_game parent.manifest.game current.manifest.game ≡ true
      → next_parent parents seen current pin ≡ ok parent
  unfolding next_parent
  next_parent_pass seen current parent pin a b c d = ground arith

  next_parent-Pins :
      (seen : List RevisionKey) (current parent : VerifiedRevision) (pin : ParentRef)
      → current.manifest.base ≡ some pin
      → next_parent parents seen current pin ≡ ok parent
      → Pins parents current parent
        × (pin_key pin ≡ key_of parent)
        × (contains (key_of parent) seen ≡ false)
  next_parent-Pins seen current parent pin e h =
      let (fresh, supplied, matched, game) = next_parent_facts seen current parent pin h in
      let (profile, revision, digest) = (matches_pin_iff parent pin).0 matched in
      let same : pin_key pin ≡ key_of parent = cc in
      (
        record {
          pin = pin;
          base = e;
          supplied = supplied;
          profile = profile;
          revision = revision;
          digest = digest;
          game = game;
        },
        same,
        rw (← same) fresh,
      )

  Pins-next_parent :
      (seen : List RevisionKey) (current parent : VerifiedRevision)
      (p : Pins parents current parent)
      → contains (key_of parent) seen ≡ false
      → (next_parent parents seen current p.pin ≡ ok parent) × (pin_key p.pin ≡ key_of parent)
  Pins-next_parent seen current parent p fresh =
      let same : pin_key p.pin ≡ key_of parent = cc (p.profile, p.revision) in
      (
        next_parent_pass seen current parent p.pin (rw same fresh) p.supplied
            ((matches_pin_iff parent p.pin).1 (p.profile, p.revision, p.digest)) p.game,
        same,
      )

  follow-some :
      (left : ℕ) (seen : List RevisionKey) (current : VerifiedRevision) (pin : ParentRef)
      → current.manifest.base ≡ some pin
      → follow parents (suc left) seen current ≡ (do
        parent ← next_parent parents seen current pin
        rest ← follow parents left (pin_key pin ∷ seen) parent
        ok (parent ∷ rest))
  unfolding follow
  follow-some left seen current pin e = rw e

  follow-none :
      (left : ℕ) (seen : List RevisionKey) (current : VerifiedRevision)
      → current.manifest.base ≡ none
      → follow parents left seen current ≡ ok []
  unfolding follow
  follow-none zero seen current e = rw e
  follow-none (suc left) seen current e = rw e

  follow_zero :
      (seen : List RevisionKey) (current : VerifiedRevision) (bases : List VerifiedRevision)
      (pin : ParentRef)
      → current.manifest.base ≡ some pin
      → follow parents 0 seen current ≢ ok bases
  unfolding follow
  follow_zero seen current bases pin e h = ground arith

  root-Linked :
      (left : ℕ) (seen : List RevisionKey) (current : VerifiedRevision)
      (bases : List VerifiedRevision)
      → current.manifest.base ≡ none
      → follow parents left seen current ≡ ok bases
      → Linked parents current bases × Fresh seen bases × (length bases ≤ left)
  root-Linked left seen current bases e h =
      let f = follow-none left seen current e in
      let same : bases ≡ [] = cc in rw same (e, tt, omega arith)

  follow-Linked :
      (left : ℕ) (seen : List RevisionKey) (current : VerifiedRevision)
      (bases : List VerifiedRevision)
      → follow parents left seen current ≡ ok bases
      → Linked parents current bases × Fresh seen bases × (length bases ≤ left)
  follow-Linked zero seen current bases h = elim (Option-cases current.manifest.base) [
    | inl e ↦ root-Linked 0 seen current bases e h
    | inr (pin, e) ↦ absurd (follow_zero seen current bases pin e h)
  ]
  follow-Linked (suc left) seen current bases h = elim (Option-cases current.manifest.base) [
    | inl e ↦ root-Linked (suc left) seen current bases e h
    | inr (pin, e) ↦
        let run = sym (follow-some left seen current pin e) ∙ h in
        let (parent, found, more) = bind_ok (next_parent parents seen current pin) _ run in
        let (rest, tail, fin) = bind_ok (follow parents left (pin_key pin ∷ seen) parent) _ more in
        let (pins, same, fresh) = next_parent-Pins seen current parent pin e found in
        let (linked, new, short) = follow-Linked left (pin_key pin ∷ seen) parent rest tail in
        let whole : bases ≡ parent ∷ rest = cc in
        rw whole ((pins, linked), (fresh, rw same at new), omega (arith, short))
  ]

  Linked-follow :
      (left : ℕ) (seen : List RevisionKey) (current : VerifiedRevision)
      (bases : List VerifiedRevision)
      → Linked parents current bases
      → Fresh seen bases
      → length bases ≤ left
      → follow parents left seen current ≡ ok bases
  Linked-follow left seen current [] linked fresh short = follow-none left seen current linked
  Linked-follow zero seen current (p ∷ ps) linked fresh short = absurd (omega arith)
  Linked-follow (suc left) seen current (p ∷ ps) (pins, linked) (fresh, new) short =
      let (found, same) = Pins-next_parent seen current p pins fresh in
      follow-some left seen current pins.pin pins.base
      ∙ rw (found, same) (rw (Linked-follow left (key_of p ∷ seen) p ps linked new (omega arith)))

-- The chain that `ValidateInheritanceChain` is meant to return.
pub record IsChain (target : VerifiedRevision) (parents : Parents) (most : ℤ)
    (bases : List VerifiedRevision) : Type 0 where
  -- From pin to pin down to a root, in the same game, with no revision twice.
  pub linked : Linked parents target bases
  pub fresh : Fresh (key_of target ∷ []) bases
  -- No more bases than the caller, the target's own permissions and the limit of eight allow.
  pub short : (length bases ≤ pos_part (depth_cap target most))
  pub settings : (l : _) × (lineage_of (target ∷ bases) ≡ ok l)
  pub options : (o : _) × (effective_options (target ∷ bases) ≡ ok o)

content_ok {ℓ} : {A : Type ℓ} (m : Result String A) → content_of m ≡ ok tt → (a : A) × (m ≡ ok a)
content_ok (ok a) h = (a, refl)
content_ok (err message) h = cc

unit_ok {ℓ} : {E : Type ℓ} (m : Result E (Unit {0})) (u : Unit {0}) → m ≡ ok u → m ≡ ok tt
unit_ok m u h = h

IsChain-sound :
    (target : VerifiedRevision) (parents : Parents) (most : ℤ) (chain : List VerifiedRevision)
    → validate_inheritance_chain target parents most ≡ ok chain
    → (bases : List VerifiedRevision) × (chain ≡ target ∷ bases) × IsChain target parents most bases
unfolding validate_inheritance_chain
IsChain-sound target parents most chain h =
    let left = pos_part (depth_cap target most) in
    let (bases, walk, r₁) = bind_ok (follow parents left (key_of target ∷ []) target) _ h in
    let (u, settled, r₂) = bind_ok (content_of (lineage_of (target ∷ bases))) _ r₁ in
    let (w, resolved, fin) = bind_ok (content_of (effective_options (target ∷ bases))) _ r₂ in
    let (linked, fresh, short) =
      follow-Linked parents left (key_of target ∷ []) target bases walk in
    let same : chain ≡ target ∷ bases = cc in
    (
      bases,
      same,
      record {
        linked = linked;
        fresh = fresh;
        short = short;
        settings = content_ok (lineage_of (target ∷ bases)) settled;
        options = content_ok (effective_options (target ∷ bases)) resolved;
      },
    )

IsChain-complete :
    (target : VerifiedRevision) (parents : Parents) (most : ℤ) (bases : List VerifiedRevision)
    → IsChain target parents most bases
    → validate_inheritance_chain target parents most ≡ ok (target ∷ bases)
unfolding validate_inheritance_chain
IsChain-complete target parents most bases c =
    let left = pos_part (depth_cap target most) in
    rw (
      Linked-follow parents left (key_of target ∷ []) target bases c.linked c.fresh c.short,
      c.settings.1,
      c.options.1,
    )

-- `ValidateInheritanceChain` returns a chain exactly when there is one that follows the pins from
-- the target to a root, in one game, with no revision twice, no more bases than allowed, and with
-- config settings and JVM options that fit together; and then it returns that chain.
pub validate_inheritance_chain_iff :
    (target : VerifiedRevision) (parents : Parents) (most : ℤ) (chain : List VerifiedRevision)
    → (validate_inheritance_chain target parents most ≡ ok chain) ↔ (
        (bases : List VerifiedRevision) × (chain ≡ target ∷ bases)
        × IsChain target parents most bases)
validate_inheritance_chain_iff target parents most chain = (
  IsChain-sound target parents most chain,
  λ p. rw p.1 (IsChain-complete target parents most p.0 p.2),
)

cap_le_eight : (target : VerifiedRevision) (most : ℤ) → pos_part (depth_cap target most) ≤ 8
unfolding depth_cap
cap_le_eight target most = ground arith

-- Whatever limit the caller asks for and whatever the supplied parents are, a returned chain has at
-- most nine revisions.
pub length-validate_inheritance_chain :
    (target : VerifiedRevision) (parents : Parents) (most : ℤ) (chain : List VerifiedRevision)
    → validate_inheritance_chain target parents most ≡ ok chain
    → length chain ≤ 9
length-validate_inheritance_chain target parents most chain h =
    let (bases, same, c) = IsChain-sound target parents most chain h in
    rw same (omega (arith, c.short, cap_le_eight target most))
