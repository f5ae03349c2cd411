-- ===== src/Revision/Ids.antt =====
-- internal/revision/validate.go: the predicates on identifiers, digests and paths.
use boot_optim_distribution.Base.{
  ltb_ℤ, int_eq, length, all, is_empty, Bytes, codes, bytes_eq, after_prefix, has_prefix, split,
  contains_byte, is_digit, is_lower, is_upper, ltb, leb, if◌then◌else◌, ◌==◌, ◌!=◌, nat_eq, bool_eq,
  pos, ℕ, Bool, true, false, not, ◌&&◌, ◌||◌, Option, none, some, [], ◌∷◌,
}
use boot_optim_distribution.Revision.Types.{ObjectRef}

unfoldable pub is_lower_alphanum : ℕ → Bool
unfolding is_lower is_digit
is_lower_alphanum c = is_lower c || is_digit c

unfoldable pub is_alphanum : ℕ → Bool
unfolding is_lower is_digit is_upper
is_alphanum c = is_upper c || is_lower c || is_digit c

unfoldable pub is_hex : ℕ → Bool
unfolding is_digit
is_hex c = is_digit c || (leb b'a' c && leb c b'f')

-- `isSHA256`, and `validDigest` of internal/storage/cas.go
unfoldable pub is_sha256 : Bytes → Bool
unfolding is_hex
is_sha256 value = if length value != 64 then false else all is_hex value

-- A first byte in `a-z0-9`, and further bytes that may be '_' and '-' too.
unfoldable pub lower_tail : ℕ → Bool
unfolding is_lower_alphanum
lower_tail c = is_lower_alphanum c || c == b'_' || c == b'-'

unfoldable pub lower_word : Bytes → Bool
unfolding lower_tail
lower_word [] = false
lower_word (c ∷ s) = is_lower_alphanum c && all lower_tail s

-- `validProfileID`
unfoldable pub valid_profile_id : Bytes → Bool
unfolding lower_word after_prefix
valid_profile_id value = elim (after_prefix (codes "profile_") value) [
  | none ↦ false
  | some tail ↦ if ltb (length tail) 3 || ltb 64 (length tail) then false else lower_word tail
]

-- `validEntryIDRange`
unfoldable pub valid_entry_id_range : Bytes → Bytes → ℕ → ℕ → Bool → Bool
unfolding is_alphanum after_prefix
valid_entry_id_range value prefix least most allow_dot = elim (after_prefix prefix value) [
  | none ↦ false
  | some tail ↦
      if ltb (length tail) least || ltb most (length tail)
      then false
      else all (λ c. is_alphanum c || c == b'_' || c == b'-' || (allow_dot && c == b'.')) tail
]

-- `validRevisionID`
unfoldable pub valid_revision_id : Bytes → Bool
unfolding valid_entry_id_range
valid_revision_id value = valid_entry_id_range value (codes "rev_") 16 80 false

-- `validEntryID`
unfoldable pub valid_entry_id : Bytes → Bytes → Bool
unfolding valid_entry_id_range
valid_entry_id value prefix = valid_entry_id_range value prefix 1 120 true

-- `validChannel`
unfoldable pub valid_channel : Bytes → Bool
unfolding lower_word
valid_channel value =
    if ltb (length value) 1 || ltb 32 (length value) then false else lower_word value

-- `strings.HasSuffix(s, "c")`
unfoldable pub ends_with_byte : ℕ → Bytes → Bool
ends_with_byte b [] = false
ends_with_byte b (c ∷ []) = c == b
ends_with_byte b (c ∷ d ∷ s) = ends_with_byte b (d ∷ s)

-- `strings.Contains(s, "//")`
unfoldable pub has_double_slash : Bytes → Bool
has_double_slash [] = false
has_double_slash (c ∷ []) = false
has_double_slash (c ∷ d ∷ s) = (c == b'/' && d == b'/') || has_double_slash (d ∷ s)

unfoldable pub safe_part : Bytes → Bool
safe_part part = not (is_empty part || part == codes "..")

-- `safePath`
unfoldable pub safe_path : Bytes → Bool
unfolding ends_with_byte has_double_slash safe_part contains_byte has_prefix split
safe_path value =
    if is_empty value
      || ltb 512 (length value)
      || has_prefix (codes "/") value
      || ends_with_byte b'/' value
      || contains_byte b'\\' value
      || has_double_slash value
    then false
    else all safe_part (split b'/' value)

-- `validObjectRef`
unfoldable pub valid_object_ref : ObjectRef → Bool
unfolding is_sha256
valid_object_ref ref =
    is_sha256 ref.sha256 && not (ltb_ℤ ref.size (pos 0)) && leb (length ref.media_type) 128

-- `validateOptionalDigest` returns no error.
unfoldable pub optional_digest : Option Bytes → Bool
unfolding is_sha256
optional_digest none = true
optional_digest (some value) = is_sha256 value
