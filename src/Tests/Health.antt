-- ===== src/Tests/Health.antt =====
-- The health of a route with a timeout, a neutral failure and an older success; sellers of a family.
use unhardcoded.Prelude.{
  ℕ, ◌+◌, ◌≤◌, ◌≡◌, refl, String, Bool, true, false, Option, none, some, List, [], ◌∷◌, arith, max,
  All, any, str_eq, length,
}
use unhardcoded.Health.{
  evidence, fold_rows, update, observe, blame, Observation, HealthState, MarketRow,
  fold_health_rows, get, cooldown_until, cooldown_base, cooldown_max, admit, keep_sellers,
  is_attributable, key_of, route_health_tier,
}
use unhardcoded.Health.Fold.{get-fold_health_rows, reported, rows_of}
use unhardcoded.Health.Summary.{summary, streak}
use unhardcoded.Health.Cooldown.{cooldown_until-bounds}
use unhardcoded.Health.Sellers.{AreFresh, keep_sellers-AreFresh, keep_sellers-offers}
use unhardcoded.Health.Admission.{health_of, blamed, health_of-idle, admit-held_back}

abbrev row_at : ℕ → Bool → Option String → Observation
row_at ts ok kind = record {
  family = "glm-5.1";
  served_by = "peer-a";
  ts = ts;
  ok = ok;
  error_kind = kind;
  http_status = none;
}

abbrev timed_out : Observation
timed_out = row_at 9_000 false (some "timeout")

abbrev history : List Observation
history =
    row_at 9_500 false (some "bad_request")
    ∷ timed_out
    ∷ row_at 8_000 true none
    ∷ row_at 7_000 false none
    ∷ []

abbrev recovered : List Observation
recovered = row_at 9_800 true none ∷ history

abbrev glm : String
glm = "antseed|glm-5.1|peer-a"

abbrev seen_state : HealthState
seen_state = record {
  consecutive_failures = 1;
  last_failure_at = some 9_000;
  last_success_at = some 8_000;
  latest_error_kind = some "timeout";
  latest_http_status = none;
  sample_count = 4;
}

folded : get glm (fold_health_rows history "antseed" false) ≡ some seen_state
unfolding fold_health_rows evidence fold_rows update key_of observe is_attributable blame
folded = refl

get-fold_health_rows_example :
    get glm (fold_health_rows history "antseed" false)
    ≡ reported (summary false (rows_of false "antseed" glm history))
get-fold_health_rows_example = get-fold_health_rows false "antseed" glm history

none_blamed : blamed false "antseed" glm recovered ≡ []
unfolding streak key_of
none_blamed = refl

health_of-idle_example :
    (cooldown_until false (health_of false "antseed" glm recovered) ≡ 0)
    × (route_health_tier (health_of false "antseed" glm recovered) ≤ 1)
health_of-idle_example = health_of-idle false "antseed" glm recovered none_blamed

abbrev seller : String → MarketRow
seller peer = record { peer_id = peer; last_reached_at = none; health_tier = 1; tier_of_reach = 1 }

one_blamed : blamed false "antseed" glm history ≡ timed_out ∷ []
unfolding streak key_of is_attributable
one_blamed = refl

admit-held_back_example :
    admit 900_000 (health_of false "antseed" glm history) none (seller "peer-a") ≡ none
admit-held_back_example =
    admit-held_back "antseed" glm history [] timed_out 900_000 none (seller "peer-a") one_blamed
      (omega arith)

cooldown_until-bounds_example :
    (9_000 + cooldown_base false (some "timeout") ≤ cooldown_until false (some seen_state))
    × (cooldown_until false (some seen_state) ≤ 9_000 + cooldown_max false (some "timeout"))
    × (cooldown_max false (some "timeout") ≤ 21_600_000)
cooldown_until-bounds_example = cooldown_until-bounds false seen_state 9_000 refl (omega arith)

abbrev market : List MarketRow
market = seller "a" ∷ seller "a" ∷ seller "b" ∷ seller "c" ∷ []

two_kept : keep_sellers 2 [] market ≡ seller "a" ∷ seller "b" ∷ []
unfolding keep_sellers
two_kept = refl

three_kept : keep_sellers 4 [] market ≡ seller "a" ∷ seller "b" ∷ seller "c" ∷ []
unfolding keep_sellers
three_kept = refl

keep_sellers-AreFresh_example :
    AreFresh [] (keep_sellers 2 [] market) × (length (keep_sellers 2 [] market) ≤ max 1 2)
keep_sellers-AreFresh_example = keep_sellers-AreFresh 2 market

keep_sellers-offers_example :
    All (λ r. any (λ k. str_eq k.peer_id r.peer_id) (keep_sellers 4 [] market) ≡ true) market
keep_sellers-offers_example = keep_sellers-offers 4 market (rw three_kept (omega arith))
