-- ===== src/Revision/Unicode/Tests.antt =====
-- The scan of JSON strings at concrete texts.
use boot_optim_distribution.Base.{
  int_eq, Bytes, codes, bytes_eq, is_digit, leb, if◌then◌else◌, nat_eq, bool_eq, ok, err, ℕ, ◌≡◌,
  refl, ◌≢◌, ◌↔◌, ◌&&◌, [], ◌∷◌, ◌++◌,
}
use boot_optim_distribution.Revision.Unicode.{
  message, out_of_fuel, hex_value, parse_digits, parse_utf16_escape, low_unit, low_surrogate,
  after_unit, after_escape, outside, drop, scan_byte, scan, validate_json_string_unicode,
}
use boot_optim_distribution.Revision.Unicode.Language.{IsReadable, validate_json_string_unicode_iff}

-- Two bytes are a rune, as in most of Europe's languages; all else is none.
abbrev rune_size : Bytes → ℕ
rune_size (a ∷ b ∷ rest) = if leb 194 a && leb a 223 && leb 128 b && leb b 191 then 2 else 1
rune_size _ = 1

-- An object with a rune, a simple escape and a pair of surrogates in its strings.
abbrev text : Bytes
text = codes "{\"a\":\"" ++ (195 ∷ 169 ∷ []) ++ codes "\\n\\ud83d\\ude00\"}"

taken : validate_json_string_unicode rune_size text ≡ ok tt
unfolding validate_json_string_unicode scan scan_byte after_escape after_unit low_surrogate low_unit
    parse_utf16_escape parse_digits hex_value drop is_digit
taken = refl

-- A low surrogate alone, and a rune cut short.
refused :
    (validate_json_string_unicode rune_size (codes "\"\\ude00\"")
      ≡ err (message "unpaired low surrogate"))
    × (validate_json_string_unicode rune_size (34 ∷ 195 ∷ 34 ∷ [])
        ≡ err (message "invalid UTF-8 sequence in string"))
unfolding validate_json_string_unicode scan scan_byte after_escape after_unit low_surrogate low_unit
    parse_utf16_escape parse_digits hex_value drop is_digit
refused = (refl, refl)

validate_json_string_unicode_iff_example :
    (validate_json_string_unicode rune_size text ≢ err out_of_fuel)
    × ((validate_json_string_unicode rune_size text ≡ ok tt) ↔ IsReadable rune_size outside text)
validate_json_string_unicode_iff_example = validate_json_string_unicode_iff rune_size text
