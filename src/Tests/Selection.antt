-- ===== src/Tests/Selection.antt =====
-- A selection among three policies, two of which are legal.
use unhardcoded.Prelude.{◌≡◌, refl, String, true, false, not, none, some, [], ◌∷◌, str_eq}
use unhardcoded.Selection.{
  Execution, Readings, Consult, Selected, replies, entropy_of, sampled, select_policy, selects,
  legal_policies, propose, consult, recheck, validate_answer, is_in,
}
use unhardcoded.Selection.Laws.{Fits, select_policy-Fits, select_policy-selects}

abbrev rollout : Execution
rollout = record {
  enabled = true;
  automatic_mode = sampled;
  percent = 10;
  cohort_hash = 1_205;
  policies = "general" ∷ "coding" ∷ "vision" ∷ [];
  min_confidence = 550_000;
  max_normalized_entropy = 720_000;
}

abbrev no_vision : Readings
no_vision = record {
  at_start = λ name. not (str_eq name "vision");
  at_recheck = λ name. not (str_eq name "vision");
  at_fallback = λ name. true;
}

abbrev choose : String → Consult
choose name =
    replies
      (record {
        selected_id = some name;
        confidence = some 900_000;
        distribution = entropy_of 300_000;
      })
      (some 12) 1

abbrev coding : Selected
coding = record {
  selected_id = "coding";
  trace = record {
    fallback_used = false;
    fallback_reason = none;
    cost_usd = some 12;
    attempts = 1;
  };
}

coding_selected : select_policy rollout no_vision (choose "coding") ≡ selects coding
unfolding select_policy legal_policies propose consult recheck validate_answer
coding_selected = refl

select_policy-Fits_example :
    Fits rollout no_vision (choose "coding") (select_policy rollout no_vision (choose "coding"))
select_policy-Fits_example = select_policy-Fits rollout no_vision (choose "coding")

general_legal : is_in "general" (legal_policies rollout no_vision) ≡ true
unfolding legal_policies
general_legal = refl

select_policy-selects_example :
    (s : Selected) × (select_policy rollout no_vision (choose "vision") ≡ selects s)
select_policy-selects_example =
    select_policy-selects rollout no_vision (choose "vision") refl general_legal refl
