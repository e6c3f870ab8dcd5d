-- ===== src/Selection.antt =====
-- Automatic routing: `select_policy` of policy_selection.py from line 149 on, with `validate_answer`
-- of decision_providers/__init__.py. What the host's `rank` finds, the answer of the decision
-- provider and the hash of the cohort are arguments. Probabilities are millionths. The check of a
-- distribution and its entropy are floating-point sums and logarithms, so a reply carries their
-- outcome.
pub mod Laws
use unhardcoded.Prelude.{
  ℕ, ◌%◌, ◌||◌, String, Bool, true, false, not, Option, none, some, List, [], ◌∷◌, if◌then◌else◌,
  ltb, ◌==◌, str_eq, any, keep, length,
}

-- `automatic_mode`; `other_mode` is any other value.
pub data Mode : Type 0 where
  off shadow sampled active other_mode : Mode

-- The execution envelope and its configuration.
pub record Execution : Type 0 where
  pub enabled : Bool
  pub automatic_mode : Mode
  pub percent : ℕ
  pub cohort_hash : ℕ
  pub policies : List String
  pub min_confidence : ℕ
  pub max_normalized_entropy : ℕ

-- Does `host.rank` find a route under the policy of that name: for `legal_policies`, at the recheck
-- and at the second recheck.
pub record Readings : Type 0 where
  pub at_start : String → Bool
  pub at_recheck : String → Bool
  pub at_fallback : String → Bool

-- The distribution of a reply: absent, refused by the checks, or sound with an entropy.
pub data Distribution : Type 0 where
  absent invalid : Distribution
  entropy_of : ℕ → Distribution

pub record Reply : Type 0 where
  pub selected_id : Option String
  pub confidence : Option ℕ
  pub distribution : Distribution

pub data Reason : Type 0 where
  unknown_choice invalid_confidence invalid_probabilities timeout disabled outside_sample
        single_choice uncertain selection_unavailable :
      Reason
  provider_error : String → Reason

-- How the call of the provider ends: late, with a DecisionError, or with a result. Any other
-- exception leaves select_policy.
pub data Consult : Type 0 where
  times_out : Consult
  fails : String → Option ℕ → ℕ → Consult
  replies : Reply → Option ℕ → ℕ → Consult

pub data Answer : Type 0 where
  accepted : String → Option ℕ → Option ℕ → Answer
  refused : Reason → Answer

-- `name in names`
abbrev pub is_in : String → List String → Bool
is_in name names = any (λ n. str_eq n name) names

-- `confidence is not None and not probability(confidence)`
abbrev pub is_bad_confidence : Option ℕ → Bool
is_bad_confidence none = false
is_bad_confidence (some c) = ltb 1_000_000 c

abbrev pub answer_with : String → Option ℕ → Distribution → Answer
answer_with name confidence absent = accepted name confidence none
answer_with name confidence invalid = refused invalid_probabilities
answer_with name confidence (entropy_of e) = accepted name confidence (some e)

abbrev pub validate_choice : Option String → Reply → List String → Answer
validate_choice none reply choices = refused unknown_choice
validate_choice (some name) reply choices =
    if not (is_in name choices)
    then refused unknown_choice
    else if is_bad_confidence reply.confidence
    then refused invalid_confidence
    else answer_with name reply.confidence reply.distribution

unfoldable pub validate_answer : Reply → List String → Answer
validate_answer reply choices = validate_choice reply.selected_id reply choices

-- The trace's fields that the selection decides.
pub record Trace : Type 0 where
  pub fallback_used : Bool
  pub fallback_reason : Option Reason
  pub cost_usd : Option ℕ
  pub attempts : ℕ

-- A selection that is not final, or the final one.
pub record Selected : Type 0 where
  pub selected_id : String
  pub trace : Trace

pub data SelectError : Type 0 where
  invalid_rollout_mode : SelectError
  no_eligible_policy : Option ℕ → SelectError

pub data Selection : Type 0 where
  selects : Selected → Selection
  raises : SelectError → Selection

abbrev pub quiet : Reason → Trace
quiet reason = record {
  fallback_used = false;
  fallback_reason = some reason;
  cost_usd = some 0;
  attempts = 0;
}

-- `trace.update(fallback_used=True, …)` of the `except`, and of an answer that is not sure enough.
abbrev pub fallback : Reason → Option ℕ → ℕ → Selected
fallback reason cost attempts = record {
  selected_id = "general";
  trace = record {
    fallback_used = true;
    fallback_reason = some reason;
    cost_usd = cost;
    attempts = attempts;
  };
}

-- `confidence is None or entropy is None or …`
abbrev pub is_uncertain : Execution → Option ℕ → Option ℕ → Bool
is_uncertain ex none entropy = true
is_uncertain ex (some c) none = true
is_uncertain ex (some c) (some e) = ltb c ex.min_confidence || ltb ex.max_normalized_entropy e

abbrev pub proposed : Bool → String → Option ℕ → ℕ → Selected
proposed is_active name cost attempts = record {
  selected_id = if is_active then name else "general";
  trace = record {
    fallback_used = false;
    fallback_reason = none;
    cost_usd = cost;
    attempts = attempts;
  };
}

-- What comes of a validated answer.
abbrev pub on_answer : Execution → Bool → Option ℕ → ℕ → Answer → Selected
on_answer ex is_active cost attempts (refused reason) = fallback reason cost attempts
on_answer ex is_active cost attempts (accepted name confidence entropy) =
    if is_uncertain ex confidence entropy
    then fallback uncertain cost attempts
    else proposed is_active name cost attempts

-- The `try` around the provider.
unfoldable pub consult : Execution → Bool → List String → Consult → Selected
consult ex is_active legal times_out = fallback timeout none 0
consult ex is_active legal (fails reason cost attempts) =
    fallback (provider_error reason) cost attempts
consult ex is_active legal (replies reply cost attempts) =
    on_answer ex is_active cost attempts (validate_answer reply legal)

-- The default instead of a selection that found no route.
abbrev pub unavailable : Selected → Selected
unavailable s = record {
  selected_id = "general";
  trace = record s.trace { fallback_used = true; fallback_reason = some selection_unavailable };
}

-- The recheck against the host's present state.
unfoldable pub recheck : Readings → Selected → Selection
recheck readings s =
    if readings.at_recheck s.selected_id
    then selects s
    else if readings.at_fallback "general"
    then selects (unavailable s)
    else raises (no_eligible_policy s.trace.cost_usd)

-- `execution.get("automatic_mode", "off") if enabled() else "off"`
abbrev pub mode_of : Execution → Mode
mode_of ex = if ex.enabled then ex.automatic_mode else off

-- `mode == "active" or (mode == "sampled" and … % 100 < percent)`
abbrev pub is_active_mode : Mode → Execution → Bool
is_active_mode active ex = true
is_active_mode sampled ex = ltb (ex.cohort_hash % 100) ex.percent
is_active_mode _ ex = false

-- `mode == "sampled" and not active`
abbrev pub is_outside : Mode → Execution → Bool
is_outside sampled ex = not (is_active_mode sampled ex)
is_outside _ ex = false

-- `legal[0]`, of a list that holds "general".
abbrev pub first_of : List String → String
first_of [] = "general"
first_of (name ∷ names) = name

-- The branches below `mode == "off"`.
abbrev pub pick : Execution → List String → Consult → Mode → Selected
pick ex legal answer mode =
    if is_outside mode ex
    then record { selected_id = "general"; trace = quiet outside_sample }
    else if length legal == 1
    then record { selected_id = first_of legal; trace = quiet single_choice }
    else consult ex (is_active_mode mode ex) legal answer

-- The selection before the recheck, from the mode.
unfoldable pub propose : Execution → List String → Consult → Mode → Selected
propose ex legal answer off = record { selected_id = "general"; trace = quiet disabled }
propose ex legal answer mode = pick ex legal answer mode

unfoldable pub legal_policies : Execution → Readings → List String
legal_policies ex readings = keep readings.at_start ex.policies

abbrev pub is_mode : Mode → Bool
is_mode other_mode = false
is_mode _ = true

unfoldable pub select_policy : Execution → Readings → Consult → Selection
select_policy ex readings answer =
    let legal = legal_policies ex readings in
    if not (is_mode (mode_of ex)) || ltb 100 ex.percent
    then raises invalid_rollout_mode
    else if not (is_in "general" legal)
    then raises (no_eligible_policy (some 0))
    else recheck readings (propose ex legal answer (mode_of ex))
