-- ===== src/Proxy/Path.antt =====
-- `_proxy_path`, the allowlist over the path of a request. Texts are lists of the numbers of their
-- characters. The raw path comes decoded, without its query and in lower case.
pub mod Safe
use unhardcoded.Prelude.{
  ℕ, Bool, true, false, ◌&&◌, ◌||◌, not, Option, none, some, List, [], ◌∷◌, ◌++◌, ◌+◌, all,
  if◌then◌else◌, leb, ◌==◌,
}

abbrev slash : ℕ
slash = 47

-- `sep in text`
abbrev pub same_text : List ℕ → List ℕ → Bool
same_text [] [] = true
same_text (c ∷ cs) (d ∷ ds) = c == d && same_text cs ds
same_text _ _ = false

unfoldable pub begins_with : List ℕ → List ℕ → Bool
begins_with [] cs = true
begins_with (p ∷ ps) [] = false
begins_with (p ∷ ps) (c ∷ cs) = p == c && begins_with ps cs

unfoldable pub has_part : List ℕ → List ℕ → Bool
has_part part [] = begins_with part []
has_part part (c ∷ cs) = begins_with part (c ∷ cs) || has_part part cs

-- `"/".join(segs)`
unfoldable pub join : List (List ℕ) → List ℕ
join [] = []
join (s ∷ []) = s
join (s ∷ (t ∷ rest)) = s ++ (slash ∷ join (t ∷ rest))

-- `text.split("/")`
abbrev onto_first : ℕ → List (List ℕ) → List (List ℕ)
onto_first c [] = (c ∷ []) ∷ []
onto_first c (s ∷ rest) = (c ∷ s) ∷ rest

unfoldable pub split : List ℕ → List (List ℕ)
split [] = [] ∷ []
split (c ∷ cs) = let rest = split cs in if c == slash then [] ∷ rest else onto_first c rest

-- `text[1:]` of a list.
abbrev pub drop_first : List (List ℕ) → List (List ℕ)
drop_first [] = []
drop_first (s ∷ rest) = rest

abbrev in_range : ℕ → ℕ → ℕ → Bool
in_range lo hi c = leb lo c && leb c hi

-- The class `[A-Za-z0-9_-]`.
abbrev pub is_word : ℕ → Bool
is_word c = in_range 65 90 c || in_range 97 122 c || in_range 48 57 c || c == 95 || c == 45

-- The class `[A-Za-z0-9_.:@+~-]`.
abbrev pub is_segment_char : ℕ → Bool
is_segment_char c = is_word c || c == 46 || c == 58 || c == 64 || c == 43 || c == 126

abbrev pub is_empty : List ℕ → Bool
is_empty [] = true
is_empty _ = false

unfoldable pub size : List ℕ → ℕ
size [] = 0
size (c ∷ cs) = size cs + 1

-- `s not in (".", "..")`, and `_PROXY_SEGMENT_RE`
abbrev pub is_dots : List ℕ → Bool
is_dots s = same_text s (46 ∷ []) || same_text s (46 ∷ (46 ∷ []))

abbrev pub segment_fits : List ℕ → Bool
segment_fits s = not (is_dots s) && (not (is_empty s) && all is_segment_char s)

abbrev pub segments_fit : List (List ℕ) → Bool
segments_fit = all segment_fits

-- `_PROXY_PROFILE_RE`
abbrev pub profile_fits : List ℕ → Bool
profile_fits s = not (is_empty s) && all is_word s && leb (size s) 64

-- "v1", "api" and "x"
abbrev pub v1 : List ℕ
v1 = 118 ∷ (49 ∷ [])

abbrev pub api : List ℕ
api = 97 ∷ (112 ∷ (105 ∷ []))

abbrev pub x_path : List ℕ
x_path = 120 ∷ []

-- The shapes of the consumer surface: `v1/…`, `api/…` and `<profile>/v1/…`.
abbrev pub is_surface : List (List ℕ) → Bool
is_surface [] = false
is_surface (s ∷ []) = false
is_surface (s ∷ (t ∷ [])) = same_text s v1 || same_text s api
is_surface (s ∷ (t ∷ (u ∷ rest))) =
    same_text s v1
    || same_text s api
    || (same_text t v1 && not (same_text s x_path) && profile_fits s)

-- "%2f", "%5c" and "\"
abbrev pub has_escape : List ℕ → Bool
has_escape raw =
    has_part (37 ∷ (50 ∷ (102 ∷ []))) raw
    || has_part (37 ∷ (53 ∷ (99 ∷ []))) raw
    || has_part (92 ∷ []) raw

unfoldable pub proxy_path : List ℕ → List ℕ → Option (List ℕ)
proxy_path raw path =
    let segs = drop_first (split path) in
    if has_escape raw
    then none
    else if not (segments_fit segs)
    then none
    else if is_surface segs
    then some (join segs)
    else none
