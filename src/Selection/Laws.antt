-- ===== src/Selection/Laws.antt =====
-- What a selection of `select_policy` rests on.
use unhardcoded.Prelude.{
  ℕ, ◌≡◌, ◌⊎◌, inl, inr, refl, sym, ◌∙◌, subst, String, true, false, not, ◌||◌, Option, some, List,
  [], ◌∷◌, arith, Bool-cases, length, eq_iff, ltb, ◌==◌,
}
use unhardcoded.Selection.{
  Execution, Readings, Consult, replies, Reply, Answer, accepted, validate_answer, Selected,
  Selection, selects, raises, mode_of, is_active_mode, is_uncertain, propose, is_mode, unavailable,
  invalid_rollout_mode, no_eligible_policy, Mode, off, shadow, sampled, active, other_mode, refused,
  fails, times_out, on_answer, pick, first_of, is_outside, legal_policies, select_policy, recheck,
  is_in, consult,
}

-- Grounds for a policy that is not the default: an active rollout, and a reply of the provider that
-- names a policy legal at the start and is sure enough.
pub record Grounds (ex : Execution) (mode : Mode) (legal : List String) (answer : Consult)
    (name : String) : Type 0 where
  pub in_rollout : is_active_mode mode ex ≡ true
  pub reply : Reply
  pub cost : Option ℕ
  pub attempts : ℕ
  pub replied : answer ≡ replies reply cost attempts
  pub confidence : Option ℕ
  pub entropy : Option ℕ
  pub validated : validate_answer reply legal ≡ accepted name confidence entropy
  pub sure : is_uncertain ex confidence entropy ≡ false

-- The default, or a policy with grounds.
abbrev pub IsGrounded : Execution → Mode → List String → Consult → String → Type 0
IsGrounded ex mode legal answer name = (name ≡ "general") ⊎ Grounds ex mode legal answer name

first-general :
    (legal : List String)
    → is_in "general" legal ≡ true
    → (length legal == 1) ≡ true
    → first_of legal ≡ "general"
first-general [] h one = refl
first-general (n ∷ []) h one = (eq_iff n "general").0 (ground arith)
first-general (n ∷ m ∷ ns) h one = absurd (ground arith)

module _ (ex : Execution) (mode : Mode) (legal : List String) where
  on_answer-IsGrounded :
      (reply : Reply) (cost : Option ℕ) (attempts : ℕ) (a : Answer)
      → validate_answer reply legal ≡ a
      → IsGrounded ex mode legal
          (replies reply cost attempts)
          (on_answer ex (is_active_mode mode ex) cost attempts a).selected_id
  on_answer-IsGrounded reply cost attempts (refused reason) v = inl refl
  on_answer-IsGrounded reply cost attempts (accepted name c e) v =
      elim (Bool-cases (is_uncertain ex c e)) [
        | inl u ↦ inl (simp u refl)
        | inr u ↦ elim (Bool-cases (is_active_mode mode ex)) [
          | inl g ↦ inr (
              subst (Grounds ex mode legal (replies reply cost attempts)) (sym (simp (u, g) refl))
                (record {
                  in_rollout = g;
                  reply = reply;
                  cost = cost;
                  attempts = attempts;
                  replied = refl;
                  confidence = c;
                  entropy = e;
                  validated = v;
                  sure = u;
                }))
          | inr g ↦ inl (simp (u, g) refl)
        ]
      ]

  consult-IsGrounded :
      (answer : Consult)
      → IsGrounded ex mode legal answer
          (consult ex (is_active_mode mode ex) legal answer).selected_id
  unfolding consult
  consult-IsGrounded times_out = inl refl
  consult-IsGrounded (fails reason cost attempts) = inl refl
  consult-IsGrounded (replies reply cost attempts) =
      on_answer-IsGrounded reply cost attempts (validate_answer reply legal) refl

  pick-IsGrounded :
      (answer : Consult)
      → is_in "general" legal ≡ true
      → IsGrounded ex mode legal answer (pick ex legal answer mode).selected_id
  pick-IsGrounded answer h = elim (Bool-cases (is_outside mode ex)) [
    | inl o ↦ inl (simp o refl)
    | inr o ↦ elim (Bool-cases (length legal == 1)) [
      | inl one ↦ inl (simp (o, one) (first-general legal h one))
      | inr one ↦ simp (o, one) (consult-IsGrounded answer)
    ]
  ]

propose-IsGrounded :
    (ex : Execution) (mode : Mode) (legal : List String) (answer : Consult)
    → is_in "general" legal ≡ true
    → IsGrounded ex mode legal answer (propose ex legal answer mode).selected_id
unfolding propose
propose-IsGrounded ex off legal answer h = inl refl
propose-IsGrounded ex shadow legal answer h = pick-IsGrounded ex shadow legal answer h
propose-IsGrounded ex sampled legal answer h = pick-IsGrounded ex sampled legal answer h
propose-IsGrounded ex active legal answer h = pick-IsGrounded ex active legal answer h
propose-IsGrounded ex other_mode legal answer h = pick-IsGrounded ex other_mode legal answer h

-- What the host's rank said of the policy last.
abbrev pub IsEligible : Readings → String → Type 0
IsEligible readings name =
    (readings.at_recheck name ≡ true)
    ⊎ ((name ≡ "general") × (readings.at_fallback "general" ≡ true))

-- A selection's grounds, or why there is none.
abbrev pub Fits : Execution → Readings → Consult → Selection → Type 0
Fits ex readings answer (selects s) =
    (is_in "general" (legal_policies ex readings) ≡ true)
    × IsGrounded ex (mode_of ex) (legal_policies ex readings) answer s.selected_id
    × IsEligible readings s.selected_id
Fits ex readings answer (raises invalid_rollout_mode) =
    (not (is_mode (mode_of ex)) || ltb 100 ex.percent) ≡ true
Fits ex readings answer (raises (no_eligible_policy cost)) =
    (is_in "general" (legal_policies ex readings) ≡ false)
    ⊎ (readings.at_fallback "general" ≡ false)

recheck-Fits :
    (ex : Execution) (readings : Readings) (answer : Consult) (s : Selected)
    → is_in "general" (legal_policies ex readings) ≡ true
    → IsGrounded ex (mode_of ex) (legal_policies ex readings) answer s.selected_id
    → Fits ex readings answer (recheck readings s)
unfolding recheck
recheck-Fits ex readings answer s h g = elim (Bool-cases (readings.at_recheck s.selected_id)) [
  | inl e ↦ simp e (h, g, inl refl)
  | inr e ↦ elim (Bool-cases (readings.at_fallback "general")) [
    | inl f ↦ simp (e, f) (h, inl refl, inr (refl, refl))
    | inr f ↦ simp (e, f) (inr refl)
  ]
]

module _ (ex : Execution) (readings : Readings) (answer : Consult) where
  select-invalid :
      (not (is_mode (mode_of ex)) || ltb 100 ex.percent) ≡ true
      → select_policy ex readings answer ≡ raises invalid_rollout_mode
  unfolding select_policy
  select-invalid b = simp b refl

  module _ (b : (not (is_mode (mode_of ex)) || ltb 100 ex.percent) ≡ false) where
    select-none :
        is_in "general" (legal_policies ex readings) ≡ false
        → select_policy ex readings answer ≡ raises (no_eligible_policy (some 0))
    unfolding select_policy
    select-none h = simp (b, h) refl

    select-legal :
        is_in "general" (legal_policies ex readings) ≡ true
        → select_policy ex readings answer
          ≡ recheck readings (propose ex (legal_policies ex readings) answer (mode_of ex))
    unfolding select_policy
    select-legal h = simp (b, h) refl

-- A policy that is selected is legal by the host's last word, and it is the default, or the rollout
-- is active and the provider's valid answer named it with enough confidence and little entropy. An
-- error means a rollout mode or percentage that is not valid, or that the default is not legal.
pub select_policy-Fits :
    (ex : Execution) (readings : Readings) (answer : Consult)
    → Fits ex readings answer (select_policy ex readings answer)
select_policy-Fits ex readings answer =
    elim (Bool-cases (not (is_mode (mode_of ex)) || ltb 100 ex.percent)) [
      | inl b ↦ subst (Fits ex readings answer) (sym (select-invalid ex readings answer b)) b
      | inr b ↦ elim (Bool-cases (is_in "general" (legal_policies ex readings))) [
        | inl h ↦
            subst (Fits ex readings answer) (sym (select-legal ex readings answer b h))
              (recheck-Fits ex readings answer _ h (propose-IsGrounded ex (mode_of ex) _ answer h))
        | inr h ↦ subst (Fits ex readings answer) (sym (select-none ex readings answer b h)) (inl h)
      ]
    ]

recheck-selects :
    (readings : Readings) (s : Selected)
    → readings.at_fallback "general" ≡ true
    → (s' : Selected) × (recheck readings s ≡ selects s')
unfolding recheck
recheck-selects readings s f = elim (Bool-cases (readings.at_recheck s.selected_id)) [
  | inl e ↦ (s, simp e refl)
  | inr e ↦ (unavailable s, simp (e, f) refl)
]

-- Whether the provider is late, fails with a DecisionError or replies anything, a valid rollout
-- whose default is legal at the start and at the last recheck selects a policy.
pub select_policy-selects :
    (ex : Execution) (readings : Readings) (answer : Consult)
    → (not (is_mode (mode_of ex)) || ltb 100 ex.percent) ≡ false
    → is_in "general" (legal_policies ex readings) ≡ true
    → readings.at_fallback "general" ≡ true
    → (s : Selected) × (select_policy ex readings answer ≡ selects s)
select_policy-selects ex readings answer b h f =
    let found =
      recheck-selects readings (propose ex (legal_policies ex readings) answer (mode_of ex)) f in
    (found.0, select-legal ex readings answer b h ∙ found.1)
