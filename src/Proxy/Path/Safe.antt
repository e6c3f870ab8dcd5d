-- ===== src/Proxy/Path/Safe.antt =====
-- What a forwarded path looks like to the router, which splits it again.
use unhardcoded.Prelude.{
  ℕ, all, All, subst, Bool, true, false, ◌&&◌, ◌||◌, not, some, List, [], ◌∷◌, ◌++◌, ◌==◌, ◌≡◌,
  refl, ap, sym, ◌∙◌, arith, Bool-cases, inl, inr,
}
use unhardcoded.Proxy.Path.{
  slash, same_text, join, split, drop_first, is_segment_char, is_dots, v1, api, x_path,
  segment_fits, segments_fit, is_surface, has_escape, proxy_path, is_empty,
}

-- A segment character is no slash.
no_slash : (c : ℕ) → is_segment_char c ≡ true → (c == slash) ≡ false
no_slash c h = ground arith

and_true : (a b : Bool) → (a && b) ≡ true → (a ≡ true) × (b ≡ true)
and_true true b h = (refl, h)
and_true false b h = absurd cc

split_prefix :
    (s rest : List ℕ) → all is_segment_char s ≡ true → split (s ++ (slash ∷ rest)) ≡ s ∷ split rest
unfolding split
split_prefix [] rest h = refl
split_prefix (c ∷ cs) rest h =
    let (fits, others) = and_true (is_segment_char c) (all is_segment_char cs) h in
    simp (no_slash c fits, split_prefix cs rest others) refl

split_one : (s : List ℕ) → all is_segment_char s ≡ true → split s ≡ s ∷ []
unfolding split
split_one [] h = refl
split_one (c ∷ cs) h =
    let (fits, others) = and_true (is_segment_char c) (all is_segment_char cs) h in
    simp (no_slash c fits, split_one cs others) refl

chars_lem : (s : List ℕ) → segment_fits s ≡ true → all is_segment_char s ≡ true
chars_lem s h =
    (and_true (not (is_empty s)) (all is_segment_char s)
      ((and_true (not (is_dots s)) (not (is_empty s) && all is_segment_char s) h).1)).1

-- Joined segments that fit split into the same segments.
split-join :
    (s : List ℕ) (rest : List (List ℕ))
    → segments_fit (s ∷ rest) ≡ true
    → split (join (s ∷ rest)) ≡ s ∷ rest
unfolding join
split-join s [] h = split_one s (chars_lem s (and_true (segment_fits s) true h).0)
split-join s (t ∷ rest) h =
    let (fits, others) = and_true (segment_fits s) (segments_fit (t ∷ rest)) h in
    split_prefix s (join (t ∷ rest)) (chars_lem s fits) ∙ ap (λ r. s ∷ r) (split-join t rest others)

-- Characters that would make the router see another path: slash, backslash and percent.
abbrev pub is_separator : ℕ → Bool
is_separator c = c == 47 || c == 92 || c == 37

abbrev pub IsSafe : List ℕ → Type 0
IsSafe s = (is_empty s ≡ false) × (is_dots s ≡ false) × (all (λ c. not (is_separator c)) s ≡ true)

no_separator :
    (s : List ℕ) → all is_segment_char s ≡ true → all (λ c. not (is_separator c)) s ≡ true
no_separator [] h = refl
no_separator (c ∷ cs) h =
    let (fits, others) = and_true (is_segment_char c) (all is_segment_char cs) h in
    let clear : not (is_separator c) ≡ true = ground arith in simp clear (no_separator cs others)

not-true : (b : Bool) → not b ≡ true → b ≡ false
not-true true h = sym h
not-true false h = refl

segment-IsSafe : (s : List ℕ) → segment_fits s ≡ true → IsSafe s
segment-IsSafe s h =
    let (undotted, rest) =
      and_true (not (is_dots s)) (not (is_empty s) && all is_segment_char s) h in
    let (filled, chars) = and_true (not (is_empty s)) (all is_segment_char s) rest in
    (not-true _ filled, not-true _ undotted, no_separator s chars)

segments-IsSafe : (segs : List (List ℕ)) → segments_fit segs ≡ true → All IsSafe segs
segments-IsSafe [] h = tt
segments-IsSafe (s ∷ rest) h =
    let (fits, others) = and_true (segment_fits s) (segments_fit rest) h in
    (segment-IsSafe s fits, segments-IsSafe rest others)

-- The router's own diagnostics are at `x/…`.
abbrev pub is_internal : List (List ℕ) → Bool
is_internal [] = false
is_internal (s ∷ rest) = same_text s x_path

internal_lem :
    (s : List ℕ) → same_text s x_path ≡ true → (same_text s v1 ≡ false) × (same_text s api ≡ false)
internal_lem [] h = absurd cc
internal_lem (c ∷ cs) h = ground arith

surface_lem :
    (segs : List (List ℕ))
    → segments_fit segs ≡ true
    → is_surface segs ≡ true
    → (split (join segs) ≡ segs) × (is_internal segs ≡ false)
surface_lem [] fit h = absurd cc
surface_lem (s ∷ []) fit h = absurd cc
surface_lem (s ∷ (t ∷ [])) fit h = (
  split-join s (t ∷ []) fit,
  elim (Bool-cases (same_text s x_path)) [
    | inl inside ↦ let (a, b) = internal_lem s inside in ground arith
    | inr outside ↦ outside
  ],
)
surface_lem (s ∷ (t ∷ (u ∷ rest))) fit h = (
  split-join s (t ∷ (u ∷ rest)) fit,
  elim (Bool-cases (same_text s x_path)) [
    | inl inside ↦ let (a, b) = internal_lem s inside in ground arith
    | inr outside ↦ outside
  ],
)

-- What is claimed of a forwarded path.
abbrev pub IsForwardable : List ℕ → List ℕ → List ℕ → Type 0
IsForwardable raw path out =
    (split out ≡ drop_first (split path))
    × All IsSafe (split out)
    × (is_internal (split out) ≡ false)
    × (has_escape raw ≡ false)

fits_lem :
    (raw path out : List ℕ) (segs : List (List ℕ))
    → drop_first (split path) ≡ segs
    → segments_fit segs ≡ true
    → is_surface segs ≡ true
    → has_escape raw ≡ false
    → out ≡ join segs
    → IsForwardable raw path out
fits_lem raw path out segs e fit surface clean o =
    let (again, outside) = surface_lem segs fit surface in
    let back = ap split o ∙ again in
    (
      back ∙ sym e,
      subst (All IsSafe) (sym back) (segments-IsSafe segs fit),
      ap is_internal back ∙ outside,
      clean,
    )

-- A path that is forwarded splits into the same segments as the path of the request. None of these
-- is empty, `.` or `..` or has a slash, a backslash or a percent sign, so the router resolves no
-- other path; the first is not `x`, the router's own diagnostics; and the raw path had no encoded
-- separator.
pub proxy_path-IsForwardable :
    (raw path out : List ℕ) → proxy_path raw path ≡ some out → IsForwardable raw path out
unfolding proxy_path
proxy_path-IsForwardable raw path out h =
    let segs = drop_first (split path) in
    elim (Bool-cases (has_escape raw)) [
      | inl escaped ↦ let g = rw escaped at h in absurd cc
      | inr clean ↦ elim (Bool-cases (segments_fit segs)) [
        | inr unfit ↦ let g = rw (clean, unfit) at h in absurd cc
        | inl fit ↦ elim (Bool-cases (is_surface segs)) [
          | inr inner ↦ let g = rw (clean, fit, inner) at h in absurd cc
          | inl surface ↦
              let g = rw (clean, fit, surface) at h in
              fits_lem raw path out segs refl fit surface clean cc
        ]
      ]
    ]
