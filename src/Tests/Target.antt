-- ===== src/Tests/Target.antt =====
-- Concrete paths through the validation of a target.
use cursedelete.Base.{◌≡◌, refl, true, false, [], ◌∷◌, Text, codes, text_eq, ok}
use cursedelete.Base.{split}
use cursedelete.Target.Lexical.{
  classify, drive, unc, lexical_of, strip_verbatim, strip_unc, strip_prefix_ci, starts_with_ci,
  parse_unc_body, classify_plain, resolve_dot_components,
}
use cursedelete.Target.Validate.{CanonicalTarget}

classify_collapse :
    classify (codes "C:/folder/..") ≡ ok (record { prefix = drive b'C'; components = [] })
unfolding classify lexical_of strip_verbatim strip_unc strip_prefix_ci starts_with_ci parse_unc_body
    classify_plain resolve_dot_components split text_eq
classify_collapse = refl

classify_share :
    classify (codes "//server/share/../../x")
    ≡ ok (record { prefix = unc (codes "server") (codes "share"); components = codes "x" ∷ [] })
unfolding classify lexical_of strip_verbatim strip_unc strip_prefix_ci starts_with_ci parse_unc_body
    classify_plain resolve_dot_components split text_eq
classify_share = refl

classify_verbatim :
    classify (codes "//?/UNC/server/share/")
    ≡ ok (record { prefix = unc (codes "server") (codes "share"); components = [] })
unfolding classify lexical_of strip_verbatim strip_unc strip_prefix_ci starts_with_ci parse_unc_body
    classify_plain resolve_dot_components split text_eq
classify_verbatim = refl

-- Two characters of three UTF-8 bytes each.
abbrev japan : Text
japan = 0xe6 ∷ 0x97 ∷ 0xa5 ∷ 0xe6 ∷ 0x9c ∷ 0xac ∷ []

abbrev scratch : CanonicalTarget
scratch = record {
  requested = codes "/tmp/x";
  canonical = codes "/tmp/x";
  is_symlink = false;
  is_dir = true;
}
