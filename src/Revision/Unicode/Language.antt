-- ===== src/Revision/Unicode/Language.antt =====
-- internal/revision/unicode.go: the whole scan against the texts that can be read to their end.
use boot_optim_distribution.Base.{
  int_eq, length, Result-cases, Bytes, bytes_eq, nat_eq, bool_eq, ok, err, ℕ, zero, suc, ◌+◌, ◌<◌,
  ◌≡◌, refl, ◌≢◌, ◌↔◌, inl, inr, [], ◌∷◌, arith,
}
use boot_optim_distribution.Revision.Unicode.{
  message, out_of_fuel, Mode, outside, inside, scan_byte, scan, validate_json_string_unicode,
}
use boot_optim_distribution.Revision.Unicode.Reading.{
  Reads, Reads-shorter, Reads-scan_byte, scan_byte-Reads,
}

module _ (rune_size : Bytes → ℕ) where
  -- A text that is read to its end, round by round, and ends outside a string.
  pub data IsReadable : Mode → Bytes → Type 0 where
    end : IsReadable outside []
    read :
        {m m' : Mode} {c : ℕ} {s rest : Bytes}
        → Reads rune_size m c s m' rest
        → IsReadable m' rest
        → IsReadable m (c ∷ s)

  scan_sound : (fuel : ℕ) (m : Mode) (s : Bytes) → scan rune_size fuel m s ≡ ok tt → IsReadable m s
  unfolding scan
  scan_sound zero m s h = cc
  scan_sound (suc fuel) outside [] h = end
  scan_sound (suc fuel) inside [] h = cc
  scan_sound (suc fuel) m (c ∷ s) h = elim (Result-cases (scan_byte rune_size m c s)) [
    | inr (e, f) ↦ (let bad : err (message e) ≡ ok tt = rw (scan, f) at h in cc)
    | inl ((m', rest), f) ↦
        read (scan_byte-Reads rune_size m c s m' rest f)
          (scan_sound fuel m' rest (rw (scan, f) at h))
  ]

  scan_complete :
      (fuel : ℕ) (m : Mode) (s : Bytes)
      → IsReadable m s
      → length s < fuel
      → scan rune_size fuel m s ≡ ok tt
  unfolding scan
  scan_complete zero m s r enough = absurd (ground arith)
  scan_complete (suc fuel) _ _ end enough = refl
  scan_complete (suc fuel) _ _ (read {m} {m'} {c} {s} {rest} r more) enough =
      let shorter = Reads-shorter rune_size m c s m' rest r in
      let done = scan_complete fuel m' rest more (ground arith) in
      rw (scan, Reads-scan_byte rune_size m c s m' rest r) done

  scan-ends :
      (fuel : ℕ) (m : Mode) (s : Bytes)
      → length s < fuel
      → scan rune_size fuel m s ≢ err out_of_fuel
  unfolding scan
  scan-ends zero m s enough = absurd (ground arith)
  scan-ends (suc fuel) outside [] enough = λ bad. cc
  scan-ends (suc fuel) inside [] enough = λ bad. cc
  scan-ends (suc fuel) m (c ∷ s) enough = elim (Result-cases (scan_byte rune_size m c s)) [
    | inr (e, f) ↦
        λ bad. (let other : err (message e) ≡ err out_of_fuel = rw (scan, f) at bad in cc)
    | inl ((m', rest), f) ↦
        let shorter =
          Reads-shorter rune_size m c s m' rest (scan_byte-Reads rune_size m c s m' rest f) in
        λ bad. scan-ends fuel m' rest (ground arith) (rw (scan, f) at bad)
  ]

  -- The scan takes a text exactly when the text is read to its end outside a string, each round by
  -- the rules: outside a string anything but a quote is skipped; inside one there are printable ASCII
  -- bytes, the simple escapes, `\u` escapes that are no surrogate or a high and then a low one, and
  -- bytes from 128 on that begin a rune of a size other than 1. The fuel, one more than the bytes, is
  -- enough for every text, whatever the size of a rune.
  pub validate_json_string_unicode_iff :
      (raw : Bytes)
      → (validate_json_string_unicode rune_size raw ≢ err out_of_fuel)
        × ((validate_json_string_unicode rune_size raw ≡ ok tt) ↔ IsReadable outside raw)
  unfolding validate_json_string_unicode
  validate_json_string_unicode_iff raw = (
    scan-ends (length raw + 1) outside raw (ground arith),
    (
      (λ h. scan_sound (length raw + 1) outside raw h),
      (λ r. scan_complete (length raw + 1) outside raw r (ground arith)),
    ),
  )
