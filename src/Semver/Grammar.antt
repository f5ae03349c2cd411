-- ===== src/Semver/Grammar.antt =====
-- The grammar of versions, written from Semantic Versioning and apart from the parser.
use boot_optim_distribution.Base.{
  int_eq, All, Bytes, bytes_eq, split, nat_eq, bool_eq, join, ℕ, ◌≤◌, ◌≡◌, ◌≢◌, ◌⊎◌, List, [], ◌∷◌,
  ◌++◌,
}
use boot_optim_distribution.Semver.{Version}

abbrev pub IsDigit : ℕ → Type 0
IsDigit c = (b'0' ≤ c) × (c ≤ b'9')

abbrev pub IsIdentChar : ℕ → Type 0
IsIdentChar c =
    ((b'0' ≤ c) × (c ≤ b'9')) ⊎ ((b'a' ≤ c) × (c ≤ b'z')) ⊎ ((b'A' ≤ c) × (c ≤ b'Z')) ⊎ (c ≡ b'-')

-- Digits with no leading zero.
abbrev pub IsNumber : Bytes → Type 0
IsNumber [] = ⊥
IsNumber (c ∷ s) = All IsDigit (c ∷ s) × ((c ≢ b'0') ⊎ (s ≡ []))

abbrev pub IsIdentifier : Bytes → Type 0
IsIdentifier id = (id ≢ []) × All IsIdentChar id

-- An identifier of digits alone has no leading zero.
abbrev pub IsPreIdentifier : Bytes → Type 0
IsPreIdentifier id = IsIdentifier id × (All IsDigit id → IsNumber id)

pub record IsVersion (v : Version) : Type 0 where
  pub major : IsNumber v.major
  pub minor : IsNumber v.minor
  pub patch : IsNumber v.patch
  pub pre : All IsPreIdentifier v.pre
  -- No build part, or identifiers joined by dots.
  pub build : (v.build ≡ []) ⊎ All IsIdentifier (split b'.' v.build)

unfoldable pub pre_text : List Bytes → Bytes
pre_text [] = []
pre_text (p ∷ ps) = b'-' ∷ join b'.' (p ∷ ps)

unfoldable pub build_text : Bytes → Bytes
build_text [] = []
build_text (c ∷ s) = b'+' ∷ c ∷ s

-- The one text that spells a version.
unfoldable pub render : Version → Bytes
render v = (join b'.' (v.major ∷ v.minor ∷ v.patch ∷ []) ++ pre_text v.pre) ++ build_text v.build
