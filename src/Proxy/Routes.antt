-- ===== src/Proxy/Routes.antt =====
-- `_route_matches` and `_route_allowed`. Routes and patterns are texts, as paths are; the patterns come
-- stripped, as `_clean_route_list` leaves them.
pub mod Wildcards
use unhardcoded.Prelude.{
  ℕ, Bool, true, false, ◌&&◌, ◌||◌, Option, none, some, List, [], ◌∷◌, any, ◌==◌,
}
use unhardcoded.Proxy.Path.{same_text, begins_with}

-- `pattern.endswith("*")` and `pattern[:-1]`
unfoldable pub ends_with_star : List ℕ → Bool
ends_with_star [] = false
ends_with_star (c ∷ []) = c == 42
ends_with_star (c ∷ (d ∷ cs)) = ends_with_star (d ∷ cs)

unfoldable pub drop_last : List ℕ → List ℕ
drop_last [] = []
drop_last (c ∷ []) = []
drop_last (c ∷ (d ∷ cs)) = c ∷ drop_last (d ∷ cs)

-- "*" and "all"
abbrev pub star : List ℕ
star = 42 ∷ []

abbrev pub all_routes : List ℕ
all_routes = 97 ∷ (108 ∷ (108 ∷ []))

unfoldable pub route_matches : List ℕ → List ℕ → Bool
route_matches pattern route =
    same_text pattern star
    || (same_text pattern all_routes
        || (same_text pattern route
            || (ends_with_star pattern && begins_with (drop_last pattern) route)))

-- `if not route: return False`
unfoldable pub some_matches : List (List ℕ) → Option (List ℕ) → Bool
some_matches patterns none = false
some_matches patterns (some []) = false
some_matches patterns (some (c ∷ cs)) = any (λ p. route_matches p (c ∷ cs)) patterns

unfoldable pub route_allowed : List (List ℕ) → Option (List ℕ) → Bool
route_allowed [] route = true
route_allowed (p ∷ ps) route = some_matches (p ∷ ps) route
