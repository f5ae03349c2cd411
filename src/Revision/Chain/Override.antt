-- ===== src/Revision/Chain/Override.antt =====
-- internal/revision/chain.go: when a config setting may come after an earlier one, and what it leaves.
use Prim.Native.String.{String}
use boot_optim_distribution.Base.{
  int_eq, contains, lookup, insert, lookup-insert, Result-cases, Result, Bytes, codes, bytes_eq,
  ◌==◌, eq_iff, eq_refl, nat_eq, bool_eq, Bool-cases, ok, err, ◌≡◌, refl, ◌∙◌, ◌≢◌, inl, inr, true,
  false, none, some, arith,
}
use boot_optim_distribution.Revision.Types.{ConfigPermissions, ConfigSetting, identity}
use boot_optim_distribution.Revision.Chain.{Lineage, check_override, may_override, add_setting}
use boot_optim_distribution.Revision.Chain.Settings.{Added, fresh, override, add_setting-Added}

-- Nothing has the setting's identity, or the parent permits to replace what has: an enforced setting by
-- one permission, any other by the other.
pub data MayAdd (l : Lineage) (s : ConfigSetting) : Type 0 where
  first : lookup (identity s) l.settings ≡ none → MayAdd l s
  replace_enforced :
      (previous : ConfigSetting) (permissions : ConfigPermissions)
      → lookup (identity s) l.settings ≡ some previous
      → l.permissions ≡ some permissions
      → previous.policy ≡ codes "enforced"
      → permissions.override_enforced ≡ true
      → MayAdd l s
  replace_default :
      (previous : ConfigSetting) (permissions : ConfigPermissions)
      → lookup (identity s) l.settings ≡ some previous
      → l.permissions ≡ some permissions
      → previous.policy ≢ codes "enforced"
      → permissions.override_default_once ≡ true
      → MayAdd l s

-- The setting is found under its identity, and all else is as it was.
pub record IsCurrent (s : ConfigSetting) (l l' : Lineage) : Type 0 where
  pub current : lookup (identity s) l'.settings ≡ some s
  pub others : (i : Bytes) → i ≢ identity s → lookup i l'.settings ≡ lookup i l.settings
  pub configs : l'.configs ≡ l.configs
  pub permissions : l'.permissions ≡ l.permissions

Added-MayAdd : (l : Lineage) (s : ConfigSetting) → Added l s → MayAdd l s
unfolding may_override
Added-MayAdd l s (fresh e) = first e
Added-MayAdd l s (override previous permissions e p may) =
    elim (Bool-cases (previous.policy == codes "enforced")) [
      | inl enforced ↦
          replace_enforced previous permissions e p
            ((eq_iff previous.policy (codes "enforced")).0 enforced) (rw enforced at may)
      | inr other ↦
          replace_default previous permissions e p
            (λ same. (let enforced = (eq_iff previous.policy (codes "enforced")).1 same in cc))
            (rw other at may)
    ]

MayAdd-Added : (l : Lineage) (s : ConfigSetting) → MayAdd l s → Added l s
unfolding may_override
MayAdd-Added l s (first e) = fresh e
MayAdd-Added l s (replace_enforced previous permissions e p policy allowed) =
    override previous permissions e p
      (rw ((eq_iff previous.policy (codes "enforced")).1 policy) allowed)
MayAdd-Added l s (replace_default previous permissions e p policy allowed) =
    let other : (previous.policy == codes "enforced") ≡ false =
      ground (arith, eq_iff previous.policy (codes "enforced")) in
    override previous permissions e p (rw other allowed)

insert-IsCurrent :
    (l : Lineage) (s : ConfigSetting)
    → IsCurrent s l (record l { settings = insert (identity s) s l.settings })
insert-IsCurrent l s = record {
  current = lookup-insert (identity s) (identity s) s l.settings ∙ rw (eq_refl (identity s)) refl;
  others = λ i other.
      (let differs : (identity s == i) ≡ false = ground (arith, eq_iff (identity s) i) in
        lookup-insert (identity s) i s l.settings ∙ rw differs refl);
  configs = refl;
  permissions = refl;
}

Added-accepted :
    (l : Lineage) (s : ConfigSetting)
    → contains s.path l.configs ≡ true
    → Added l s
    → add_setting l s ≡ ok (record l { settings = insert (identity s) s l.settings })
unfolding add_setting check_override
Added-accepted l s there (fresh e) = rw (there, e) refl
Added-accepted l s there (override previous permissions e p may) = rw (there, e, p, may) refl

-- An accepted setting is current and was to be added; a refused one was not.
pub data Outcome (l : Lineage) (s : ConfigSetting) : Result String Lineage → Type 0 where
  accepted :
      {l' : Lineage}
      → contains s.path l.configs ≡ true
      → MayAdd l s
      → IsCurrent s l l'
      → Outcome l s (ok l')
  refused : {e : String} → ¬ ((contains s.path l.configs ≡ true) × MayAdd l s) → Outcome l s (err e)

-- A setting is accepted exactly when its config is in the effective profile and nothing has its
-- identity yet, or the parent's permissions allow to replace what has: `OverrideEnforced` a setting
-- with the policy "enforced", `OverrideDefaultOnce` any other. Once accepted it is the setting with
-- its identity, and other settings, configs and permissions are as before.
pub add_setting-Outcome : (l : Lineage) (s : ConfigSetting) → Outcome l s (add_setting l s)
add_setting-Outcome l s = elim (Result-cases (add_setting l s)) [
  | inl (l', h) ↦
      let (there, added, same) = add_setting-Added l l' s h in
      rw h (accepted there (Added-MayAdd l s added) (rw same (insert-IsCurrent l s)))
  | inr (e, h) ↦
      let impossible : ¬ ((contains s.path l.configs ≡ true) × MayAdd l s) = λ may.
        (let (there, may_add) = may in
          let done = Added-accepted l s there (MayAdd-Added l s may_add) in cc) in
      rw h (refused impossible)
]
