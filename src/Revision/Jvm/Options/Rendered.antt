-- ===== src/Revision/Jvm/Options/Rendered.antt =====
-- What the validation of an option says of the arguments that launchers render from it.
use boot_optim_distribution.Base.{
  int_eq, is_empty, All, contains, bind_ok, guard_ok, Bytes, bytes_beq, bytes_eq, ◌==◌, ◌!=◌,
  eq_iff, nat_eq, bool_eq, Bool-cases, Option-cases, ok, ◌≡◌, ◌⊎◌, inl, inr, true, some, List, [],
  ◌∷◌, arith,
}
use boot_optim_distribution.Revision.Types.{Value, nil, bool, num, str, arr, obj, JvmOption}
use boot_optim_distribution.Revision.Jvm.Argument.{validate_argument, flag_key_unchecked}
use boot_optim_distribution.Revision.Jvm.Template.{
  replace_once, strip_from, type_bool, type_enum, value_text, enum_text, render_option,
}
use boot_optim_distribution.Revision.Jvm.Options.{
  has_brace, render_each, rendered_enum, rendered_of, check_rendered, validate_template,
  validate_enum_values,
}

check_rendered-All :
    (key : Bytes) (args : List Bytes)
    → check_rendered key args ≡ ok tt
    → All (λ arg. validate_argument arg ≡ ok tt) args
unfolding check_rendered
check_rendered-All key [] h = tt
check_rendered-All key (arg ∷ args) h =
    let (u, accepted, more) = bind_ok (validate_argument arg) _ h in
    elim (Bool-cases (is_empty key)) [
      | inl e ↦ (accepted, check_rendered-All (flag_key_unchecked arg) args (rw e at more))
      | inr e ↦ (
        accepted,
        check_rendered-All key args
            (guard_ok (flag_key_unchecked arg != key) _ (check_rendered key args) (rw e at more)).1,
      )
    ]

-- One of the values of the option was rendered.
render_each-All :
    (P : Bytes → Type 0) (template text : Bytes) (values : List Bytes)
    → contains text values ≡ true
    → All P (render_each template values)
    → P (replace_once text template)
unfolding contains render_each
render_each-All P template text [] h k = cc
render_each-All P template text (v ∷ values) h (p, k) = elim (Bool-cases (v == text)) [
  | inl e ↦ let same : v ≡ text = (eq_iff v text).0 e in rw (← same) p
  | inr e ↦ render_each-All P template text values (rw e at h) k
]

module _ (option : JvmOption) where
  template_ok :
      validate_template option ≡ ok tt
      → (rendered : List Bytes) × (rendered_of option ≡ ok rendered)
        × All (λ arg. validate_argument arg ≡ ok tt) rendered
  unfolding validate_template
  template_ok h =
      let run = (guard_ok (has_brace (strip_from 0 option.template)) _ _ h).1 in
      let (rendered, e, checked) = bind_ok (rendered_of option) _ run in
      (rendered, e, check_rendered-All [] rendered checked)

  bool_rendered :
      (rendered : List Bytes)
      → option.kind ≡ type_bool
      → rendered_of option ≡ ok rendered
      → rendered ≡ option.template ∷ []
  unfolding rendered_of
  bool_rendered rendered kind h =
      let yes = (eq_iff option.kind type_bool).1 kind in ground (arith, yes)

  enum_rendered :
      (rendered : List Bytes)
      → option.kind ≡ type_enum
      → rendered_of option ≡ ok rendered
      → rendered ≡ render_each option.template option.values
  unfolding rendered_of rendered_enum bytes_beq
  enum_rendered rendered kind h =
      let run = rw kind at h in
      let (u, checked, fin) =
        bind_ok (validate_enum_values [] option.values) _ (guard_ok _ _ _ run).1 in
      ground arith

  bool_text :
      (value : Value) (arg : Bytes)
      → option.kind ≡ type_bool
      → render_option option value ≡ ok arg
      → arg ≡ option.template
  unfolding render_option
  bool_text value arg kind h =
      let yes = (eq_iff option.kind type_bool).1 kind in ground (arith, yes)

  enum_admits :
      (value : Value) (text : Bytes)
      → enum_text option value ≡ some text
      → contains text option.values ≡ true
  unfolding enum_text
  enum_admits (str s) text h = elim (Bool-cases (contains s option.values)) [
    | inl e ↦ (let same : s ≡ text = ground arith in rw (← same) e)
    | inr e ↦ absurd (ground arith)
  ]
  enum_admits nil text h = cc
  enum_admits (bool b) text h = cc
  enum_admits (num n) text h = cc
  enum_admits (arr vs) text h = cc
  enum_admits (obj ms) text h = cc

  enum_case :
      (value : Value) (arg : Bytes)
      → option.kind ≡ type_enum
      → render_option option value ≡ ok arg
      → (text : Bytes) × (contains text option.values ≡ true)
        × (arg ≡ replace_once text option.template)
  unfolding render_option value_text bytes_beq
  enum_case value arg kind h =
      let run = rw kind at h in
      elim (Option-cases (enum_text option value)) [
        | inl e ↦ absurd (ground arith)
        | inr (text, e) ↦ (text, enum_admits value text e, ground arith)
      ]

-- Of an option of type bool or enum whose template was validated, whatever value a launcher renders
-- it with, the argument is one that the allowlist accepts.
pub render_option-accepted :
    (option : JvmOption) (value : Value) (arg : Bytes)
    → validate_template option ≡ ok tt
    → (option.kind ≡ type_bool) ⊎ (option.kind ≡ type_enum)
    → render_option option value ≡ ok arg
    → validate_argument arg ≡ ok tt
render_option-accepted option value arg h (inl kind) run =
    let (rendered, e, accepted) = template_ok option h in
    rw (bool_text option value arg kind run)
      (rw (bool_rendered option rendered kind e) at accepted).0
render_option-accepted option value arg h (inr kind) run =
    let (rendered, e, accepted) = template_ok option h in
    let (text, listed, same) = enum_case option value arg kind run in
    rw same (
      render_each-All (λ a. validate_argument a ≡ ok tt) option.template text option.values listed
        (rw (enum_rendered option rendered kind e) at accepted))
