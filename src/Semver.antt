-- ===== src/Semver.antt =====
-- internal/semver/semver.go: the versions of launcher releases, their grammar and their precedence.
pub mod Grammar
pub mod Parse
pub mod Complete
pub mod Order
pub mod Value
mod Tests
use boot_optim_distribution.Base.{
  int_eq, length, all, is_empty, ◌>>=◌, ◌>>◌, Result, Bytes, bytes_eq, cut, split, is_digit,
  is_lower, is_upper, ltb, if◌then◌else◌, ◌==◌, ◌!=◌, nat_eq, bool_eq, ok, err, ℕ, ◌+◌, ◌-◌, Bool,
  true, false, not, ◌&&◌, ◌||◌, none, some, List, [], ◌∷◌,
}
use Prim.Native.Nat.{Ordering, compare}

-- `Version`
pub record Version : Type 0 where
  pub major : Bytes
  pub minor : Bytes
  pub patch : Bytes
  pub pre : List Bytes
  pub build : Bytes

-- `ErrInvalid`
pub data Invalid : Type 0 where
  invalid : Invalid

abbrev pub max_length : ℕ
max_length = 64

-- `s[0] == c`, on a text that is not empty.
abbrev pub head_is : ℕ → Bytes → Bool
head_is c [] = false
head_is c (d ∷ s) = d == c

unfoldable pub numeric : Bytes → Bool
numeric s = if is_empty s then false else all is_digit s

-- `len(s) > 1 && s[0] == '0'`
abbrev pub leading_zero : Bytes → Bool
leading_zero s = ltb 1 (length s) && head_is b'0' s

pub ident_char : ℕ → Bool
ident_char c = is_digit c || is_lower c || is_upper c || c == b'-'

-- One round of the loop of `validIdentifiers`.
pub valid_identifier : Bool → Bytes → Bool
valid_identifier no_leading_zero id =
    if is_empty id
    then false
    else if not (all ident_char id)
    then false
    else not (no_leading_zero && numeric id && leading_zero id)

pub valid_identifiers : Bytes → Bool → Bool
unfolding valid_identifier ident_char
valid_identifiers s no_leading_zero =
    if is_empty s then false else all (valid_identifier no_leading_zero) (split b'.' s)

-- The part behind the first '+', and what stands before it.
pub parse_build : Bytes → Result Invalid (Bytes × Bytes)
parse_build s = elim (cut b'+' s) [
  | none ↦ ok (s, [])
  | some (rest, build) ↦ if valid_identifiers build false then ok (rest, build) else err invalid
]

-- The part behind the first '-', split at the dots, and what stands before it.
pub parse_pre : Bytes → Result Invalid (Bytes × List Bytes)
parse_pre s = elim (cut b'-' s) [
  | none ↦ ok (s, [])
  | some (rest, pre) ↦ if valid_identifiers pre true then ok (rest, split b'.' pre) else err invalid
]

pub core_part : Bytes → Bool
core_part part = if not (numeric part) then false else not (leading_zero part)

pub core_of : List Bytes → Result Invalid (Bytes × Bytes × Bytes)
core_of (a ∷ b ∷ c ∷ []) =
    if core_part a && core_part b && core_part c then ok (a, b, c) else err invalid
core_of _ = err invalid

-- `Parse`
pub parse : Bytes → Result Invalid Version
unfolding parse_build parse_pre core_of valid_identifiers core_part
parse s = if is_empty s || ltb max_length (length s) then err invalid else do
  b ← parse_build s
  p ← parse_pre b.0
  c ← core_of (split b'.' p.0)
  ok (record { major = c.0; minor = c.1; patch = c.2; pre = p.1; build = b.1 })

-- `strings.Compare`; the results -1, 0 and 1 of the source are `lt`, `eq` and `gt`.
unfoldable pub compare_bytes : Bytes → Bytes → Ordering
compare_bytes [] [] = Ordering.eq
compare_bytes [] (_ ∷ _) = Ordering.lt
compare_bytes (_ ∷ _) [] = Ordering.gt
compare_bytes (a ∷ s) (b ∷ t) =
    let rest = compare_bytes s t in
    elim (compare a b) [
      | Ordering.lt ↦ Ordering.lt
      | Ordering.eq ↦ rest
      | Ordering.gt ↦ Ordering.gt
    ]

-- `if c := …; c != 0 { return c }`
abbrev pub or_else : Ordering → Ordering → Ordering
or_else Ordering.lt next = Ordering.lt
or_else Ordering.eq next = next
or_else Ordering.gt next = Ordering.gt

unfoldable pub compare_numeric : Bytes → Bytes → Ordering
compare_numeric a b =
    if length a != length b
    then (if ltb (length a) (length b) then Ordering.lt else Ordering.gt)
    else compare_bytes a b

-- One round of the loop of `Compare`.
unfoldable pub compare_identifier : Bytes → Bytes → Ordering
compare_identifier x y =
    if numeric x && numeric y
    then compare_numeric x y
    else if numeric x
    then Ordering.lt
    else if numeric y
    then Ordering.gt
    else compare_bytes x y

-- The loop of `Compare`, and the comparison of lengths behind it.
unfoldable pub compare_pre : List Bytes → List Bytes → Ordering
compare_pre [] [] = Ordering.eq
compare_pre [] (_ ∷ _) = Ordering.lt
compare_pre (_ ∷ _) [] = Ordering.gt
compare_pre (x ∷ xs) (y ∷ ys) =
    let rest = compare_pre xs ys in or_else (compare_identifier x y) rest

-- `Compare`
unfoldable pub compare_version : Version → Version → Ordering
compare_version a b = or_else (compare_numeric a.major b.major) (
    or_else (compare_numeric a.minor b.minor) (
      or_else (compare_numeric a.patch b.patch) (
        if is_empty a.pre && is_empty b.pre
        then Ordering.eq
        else if is_empty a.pre
        then Ordering.gt
        else if is_empty b.pre
        then Ordering.lt
        else compare_pre a.pre b.pre)))

-- `CompareStrings`
pub compare_strings : Bytes → Bytes → Result Invalid Ordering
compare_strings a b = do va ← parse a; vb ← parse b; ok (compare_version va vb)
