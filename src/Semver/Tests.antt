-- ===== src/Semver/Tests.antt =====
-- The theorems on versions at concrete inputs, and runs of the parser and the comparison.
use boot_optim_distribution.Base.{
  int_eq, length, Bytes, codes, bytes_beq, bytes_eq, cut, split, contains_byte, is_digit, is_lower,
  is_upper, nat_eq, bool_eq, join, ok, err, ◌≤◌, ◌≡◌, refl, List, [], ◌∷◌, arith,
}
use Prim.Native.Nat.{Ordering}
use boot_optim_distribution.Semver.{
  Version, invalid, parse, compare_version, compare_numeric, compare_strings, numeric,
  compare_bytes, compare_identifier, compare_pre,
}
use boot_optim_distribution.Semver.Grammar.{IsVersion, render, pre_text, build_text}
use boot_optim_distribution.Semver.Parse.{render-parse}
use boot_optim_distribution.Semver.Complete.{parse-render}
use boot_optim_distribution.Semver.Order.{compare_version_trans}

abbrev version : Bytes → List Bytes → Bytes → Version
version minor pre build = record {
  major = codes "1";
  minor = minor;
  patch = codes "0";
  pre = pre;
  build = build;
}

abbrev sample : Version
sample = version (codes "12") (codes "rc" ∷ codes "1" ∷ []) (codes "b-7")

parse-sample : parse (codes "1.12.0-rc.1+b-7") ≡ ok sample
unfolding parse cut split bytes_beq contains_byte is_digit is_lower is_upper numeric
parse-sample = refl

parse_errors :
    (parse (codes "1.02.0") ≡ err invalid)
    × (parse (codes "v1.2.0") ≡ err invalid)
    × (parse (codes "1.2.0-") ≡ err invalid)
    × (parse (codes "1.2") ≡ err invalid)
unfolding parse cut split bytes_beq contains_byte is_digit is_lower is_upper numeric
parse_errors = (refl, refl, refl, refl)

numeric_before_text : compare_strings (codes "1.0.0-2") (codes "1.0.0-10") ≡ ok Ordering.lt
unfolding compare_strings parse cut split is_digit is_lower is_upper numeric compare_version
    compare_numeric compare_pre compare_identifier compare_bytes
numeric_before_text = refl

render-parse_example :
    (render sample ≡ codes "1.12.0-rc.1+b-7")
    × IsVersion sample
    × (length (codes "1.12.0-rc.1+b-7") ≤ 64)
render-parse_example = render-parse (codes "1.12.0-rc.1+b-7") sample parse-sample

parse-render_example : parse (render sample) ≡ ok sample
unfolding render pre_text build_text join
parse-render_example = parse-render sample render-parse_example.1 (omega arith)

compare_version_trans_example :
    compare_version (version (codes "2") [] []) (version (codes "10") [] []) ≡ Ordering.lt
unfolding compare_version compare_numeric compare_bytes compare_pre compare_identifier numeric
    is_digit
compare_version_trans_example =
    compare_version_trans (version (codes "2") [] []) (version (codes "10") (codes "a" ∷ []) [])
      (version (codes "10") [] []) refl refl
