-- ===== src/Revision/Unicode.antt =====
-- internal/revision/unicode.go: the scan of a JSON text for strings with bad escapes or bad UTF-8. The
-- index into the text is what is left of it. `utf8.DecodeRune` is a parameter: the size of the rune
-- that a text begins with, 1 for bytes that are none.
pub mod Grammar
pub mod Reading
pub mod Language
mod Tests
use Prim.Native.String.{String}
use boot_optim_distribution.Base.{
  int_eq, length, ◌>>=◌, ◌>>◌, Result, Bytes, bytes_eq, is_digit, ltb, leb, if◌then◌else◌, ◌==◌,
  ◌!=◌, nat_eq, bool_eq, ok, err, ℕ, zero, suc, ◌+◌, ◌-◌, ◌*◌, Bool, not, ◌&&◌, ◌||◌, Option, none,
  some, [], ◌∷◌,
}

-- The errors of the scan.
pub data UnicodeError : Type 0 where
  message : String → UnicodeError
  -- Too little fuel: with fuel for every byte the scan never says so.
  out_of_fuel : UnicodeError

-- A hexadecimal digit's value.
unfoldable pub hex_value : ℕ → Option ℕ
hex_value c =
    if is_digit c
    then some (c - 48)
    else if leb 97 c && leb c 102
    then some (c - 97 + 10)
    else if leb 65 c && leb c 70
    then some (c - 65 + 10)
    else none

-- The loop of `parseUTF16Escape` over four digits: the value so far, shifted, with the next digit.
unfoldable pub parse_digits : ℕ → ℕ → Bytes → Result String (ℕ × Bytes)
parse_digits zero value rest = ok (value, rest)
parse_digits (suc left) value [] = err "truncated unicode escape"
parse_digits (suc left) value (c ∷ rest) = elim (hex_value c) [
  | none ↦ err "invalid unicode escape"
  | some digit ↦ parse_digits left (value * 16 + digit) rest
]

-- `parseUTF16Escape`, on what follows the `u`. Fewer than four bytes are refused first.
unfoldable pub parse_utf16_escape : Bytes → Result String (ℕ × Bytes)
parse_utf16_escape rest =
    if ltb (length rest) 4 then err "truncated unicode escape" else parse_digits 4 0 rest

-- `strings.ContainsRune` in the list of simple escapes.
abbrev pub is_simple_escape : ℕ → Bool
is_simple_escape c =
    c == 34 || c == 92 || c == 47 || c == 98 || c == 102 || c == 110 || c == 114 || c == 116

unfoldable pub low_unit : Result String (ℕ × Bytes) → Result String Bytes
low_unit (err e) = err "invalid low surrogate"
low_unit (ok (low, next)) =
    if ltb low 56320 || ltb 57343 low then err "invalid low surrogate" else ok next

-- What has to follow a high surrogate.
unfoldable pub low_surrogate : Bytes → Result String Bytes
low_surrogate (a ∷ b ∷ rest) =
    if a != 92 || b != 117
    then err "high surrogate is not followed by low surrogate"
    else low_unit (parse_utf16_escape rest)
low_surrogate _ = err "high surrogate is not followed by low surrogate"

unfoldable pub after_unit : ℕ × Bytes → Result String Bytes
after_unit (unit, next) =
    if leb 55296 unit && leb unit 56319
    then low_surrogate next
    else if leb 56320 unit && leb unit 57343
    then err "unpaired low surrogate"
    else ok next

-- What follows a backslash; the result is what follows the escape.
unfoldable pub after_escape : Bytes → Result String Bytes
after_escape [] = err "truncated escape"
after_escape (c ∷ rest) =
    if c != 117
    then (if not (is_simple_escape c) then err "invalid string escape" else ok rest)
    else parse_utf16_escape rest >>= after_unit

-- The outer loop, or the loop over a string.
pub data Mode : Type 0 where
  outside inside : Mode

unfoldable pub drop : ℕ → Bytes → Bytes
drop zero s = s
drop (suc n) [] = []
drop (suc n) (c ∷ s) = drop n s

module _ (rune_size : Bytes → ℕ) where
  -- One round of either loop, on a byte and what follows it.
  unfoldable pub scan_byte : Mode → ℕ → Bytes → Result String (Mode × Bytes)
  scan_byte outside c rest = ok (if c != 34 then outside else inside, rest)
  scan_byte inside c rest =
      if c == 34
      then ok (outside, rest)
      else if ltb c 32
      then err "unescaped control character in string"
      else if c == 92
      then after_escape rest >>= (λ next. ok (inside, next))
      else if leb 128 c
      then (if rune_size (c ∷ rest) == 1
          then err "invalid UTF-8 sequence in string"
          else ok (inside, drop (rune_size (c ∷ rest) - 1) rest))
      else ok (inside, rest)

  unfoldable pub scan : ℕ → Mode → Bytes → Result UnicodeError (Unit {0})
  scan zero mode text = err out_of_fuel
  scan (suc fuel) outside [] = ok tt
  scan (suc fuel) inside [] = err (message "unterminated JSON string")
  scan (suc fuel) mode (c ∷ rest) = elim (scan_byte mode c rest) [
    | err e ↦ err (message e)
    | ok (mode', rest') ↦ scan fuel mode' rest'
  ]

  -- `validateJSONStringUnicode`
  unfoldable pub validate_json_string_unicode : Bytes → Result UnicodeError (Unit {0})
  validate_json_string_unicode raw = scan (length raw + 1) outside raw
