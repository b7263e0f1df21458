-- ===== src/License/Http/Urls.antt =====
-- Which server addresses are accepted, and which identifiers go into a path.
use cursedelete.Base.{
  strip_prefix, is_some_and, after_prefix_iff, ℕ, ◌≡◌, refl, ap, ◌∙◌, ◌≢◌, ◌↔◌, ◌⊎◌, inl, inr,
  ||_iff, Bool, true, List, [], ◌∷◌, ◌++◌, arith, is_empty_iff, any, All, Text, codes, ok,
}
use cursedelete.License.Http.{
  not_empty, ends_host, loopback_hosts, is_loopback, is_acceptable_url, is_segment_char, all_chars,
  path_segment,
}

abbrev pub OneOf : Text → List Text → Type 0
OneOf s [] = ⊥
OneOf s (t ∷ ts) = (s ≡ t) ⊎ OneOf s ts

-- What may follow the name of a loopback host: nothing, or any text after a colon or a slash.
abbrev pub EndsHost : Text → Type 0
EndsHost [] = Unit
EndsHost (c ∷ s) = (c ≡ b':') ⊎ (c ≡ b'/')

abbrev pub IsHttps : Text → Type 0
IsHttps url = (rest : Text) × (url ≡ codes "https://" ++ rest) × (rest ≢ [])

abbrev pub IsLoopback : Text → Type 0
IsLoopback url =
    (host : Text) × (after : Text) × OneOf host loopback_hosts
    × (url ≡ codes "http://" ++ host ++ after)
    × EndsHost after

ends_host_iff : (s : Text) → (ends_host s ≡ true) ↔ EndsHost s
ends_host_iff [] = (λ h. tt, λ h. refl)
ends_host_iff (c ∷ s) = ground arith

all_chars_iff : (p : ℕ → Bool) (s : Text) → (all_chars p s ≡ true) ↔ All (λ c. p c ≡ true) s
all_chars_iff p [] = (λ h. tt, λ h. refl)
all_chars_iff p (c ∷ s) = ground (arith, all_chars_iff p s)

not_empty_iff : (s : Text) → (not_empty s ≡ true) ↔ (s ≢ [])
not_empty_iff s = ground (arith, is_empty_iff s)

is_loopback_iff :
    (hosts : List Text) (rest : Text)
    → (any (λ host. is_some_and ends_host (strip_prefix host rest)) hosts ≡ true) ↔ (
        (host : Text) × (after : Text) × OneOf host hosts × (rest ≡ host ++ after) × EndsHost after)
is_loopback_iff [] rest = (λ h. absurd (ground (arith, h)), λ (host, after, o, e, d). absurd o)
is_loopback_iff (t ∷ ts) rest = (
  λ h.
      elim ((||_iff (is_some_and ends_host (strip_prefix t rest))
          (any (λ x. is_some_and ends_host (strip_prefix x rest)) ts)).0
        h) [
          | inl here ↦
              let (after, e, d) = (after_prefix_iff ends_host t rest).0 here in
              (t, after, inl refl, e, (ends_host_iff after).0 d)
          | inr later ↦
              let (host, after, o, e, d) = (is_loopback_iff ts rest).0 later in
              (host, after, inr o, e, d)
        ],
  λ (host, after, o, e, d).
      (||_iff (is_some_and ends_host (strip_prefix t rest))
          (any (λ x. is_some_and ends_host (strip_prefix x rest)) ts)).1
        (elim o [
          | inl same ↦ inl (
              (after_prefix_iff ends_host t rest).1
                (after, e ∙ ap (λ h. h ++ after) same, (ends_host_iff after).1 d))
          | inr later ↦ inr ((is_loopback_iff ts rest).1 (host, after, later, e, d))
        ]),
)

-- An address is accepted exactly when it is one of HTTPS with something after the scheme, or one of
-- HTTP whose text goes on with the name of a loopback host and then ends, or goes on with a colon or
-- a slash and any text.
pub is_acceptable_url_iff :
    (url : Text) → (is_acceptable_url url ≡ true) ↔ (IsHttps url ⊎ IsLoopback url)
unfolding is_acceptable_url
is_acceptable_url_iff url = (
  λ h.
      elim ((||_iff (is_some_and not_empty (strip_prefix (codes "https://") url))
          (is_some_and is_loopback (strip_prefix (codes "http://") url))).0
        h) [
          | inl secure ↦
              let (rest, e, d) = (after_prefix_iff not_empty (codes "https://") url).0 secure in
              inl (rest, e, (not_empty_iff rest).0 d)
          | inr plain ↦
              let (rest, e, d) = (after_prefix_iff is_loopback (codes "http://") url).0 plain in
              let (host, after, o, f, g) = (is_loopback_iff loopback_hosts rest).0 d in
              inr (host, after, o, e ∙ ap (λ r. codes "http://" ++ r) f, g)
        ],
  λ h.
      (||_iff (is_some_and not_empty (strip_prefix (codes "https://") url))
          (is_some_and is_loopback (strip_prefix (codes "http://") url))).1
        (elim h [
          | inl (rest, e, d) ↦ inl (
              (after_prefix_iff not_empty (codes "https://") url).1
                (rest, e, (not_empty_iff rest).1 d))
          | inr (host, after, o, e, d) ↦ inr (
              (after_prefix_iff is_loopback (codes "http://") url).1 (
                host ++ after,
                e,
                (is_loopback_iff loopback_hosts (host ++ after)).1 (host, after, o, refl, d),
              ))
        ]),
)

-- An identifier goes into a path exactly when it is not empty and all its characters are ASCII letters,
-- digits, dashes, underscores or points.
pub path_segment_iff :
    (id s : Text)
    → (path_segment id ≡ ok s) ↔ ((id ≡ s) × (s ≢ []) × All (λ c. is_segment_char c ≡ true) s)
unfolding path_segment
path_segment_iff id s = ground (arith, is_empty_iff id, all_chars_iff is_segment_char id)
