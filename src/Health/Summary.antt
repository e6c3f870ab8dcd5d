-- ===== src/Health/Summary.antt =====
-- The state of one identity, told from its own rows without the loop's state.
use unhardcoded.Prelude.{
  ℕ, ◌+◌, ◌≡◌, refl, ap, ◌∙◌, String, Bool, true, false, Option, none, some, List, [], ◌∷◌, arith,
  if◌then◌else◌, keep, length, Bool-cases, inl, inr,
}
use unhardcoded.Health.{
  Observation, HealthState, Tally, kind_of, is_attributable, fresh_state, blame, observe,
}

-- The rows before the newest success.
unfoldable pub streak : List Observation → List Observation
streak [] = []
streak (r ∷ rs) = let rest = streak rs in if r.ok then [] else r ∷ rest

unfoldable pub newest_success : List Observation → Option ℕ
newest_success [] = none
newest_success (r ∷ rs) = let rest = newest_success rs in if r.ok then some r.ts else rest

-- What the newest of the failures says.
abbrev pub failed_at : List Observation → Option ℕ
failed_at [] = none
failed_at (r ∷ rs) = some r.ts

abbrev pub failed_kind : List Observation → Option String
failed_kind [] = none
failed_kind (r ∷ rs) = kind_of r

abbrev pub failed_status : List Observation → Option ℕ
failed_status [] = none
failed_status (r ∷ rs) = r.http_status

-- The attributable failures since the newest success.
abbrev pub failures : Bool → List Observation → List Observation
failures peer rows = keep (is_attributable peer) (streak rows)

-- The state of an identity from its own rows, newest first.
abbrev pub summary : Bool → List Observation → HealthState
summary peer rows = record {
  consecutive_failures = length (failures peer rows);
  last_failure_at = failed_at (failures peer rows);
  last_success_at = newest_success rows;
  latest_error_kind = failed_kind (failures peer rows);
  latest_http_status = failed_status (failures peer rows);
  sample_count = length rows;
}

-- The loop over the rows of one identity.
unfoldable pub observe_all : Bool → List Observation → Tally → Tally
observe_all peer [] t = t
observe_all peer (r ∷ rs) t = observe_all peer rs (observe peer r t)

abbrev state_of : ℕ → Option ℕ → Option ℕ → Option String → Option ℕ → ℕ → HealthState
state_of n at success kind status m = record {
  consecutive_failures = n;
  last_failure_at = at;
  last_success_at = success;
  latest_error_kind = kind;
  latest_http_status = status;
  sample_count = m;
}

abbrev running : HealthState → Tally
running s = record { health = s; ended = false }

recount :
    (n n' m m' : ℕ) (at success status : Option ℕ) (kind : Option String)
    → n ≡ n'
    → m ≡ m'
    → state_of n at success kind status m ≡ state_of n' at success kind status m'
recount n n' m m' at success status kind e f = rw (e, f) refl

module _ (peer : Bool) where
  -- After a success only the samples are counted.
  ended_all :
      (rs : List Observation) (s : HealthState)
      → (observe_all peer rs (record { health = s; ended = true })).health
        ≡ record s { sample_count = length rs + s.sample_count }
  unfolding observe_all observe
  ended_all [] s = let e : 0 + s.sample_count ≡ s.sample_count = omega arith in rw e refl
  ended_all (r ∷ rs) s =
      ended_all rs (record s { sample_count = s.sample_count + 1 })
      ∙ ap (λ n. record s { sample_count = n }) (omega arith)

  -- After a failure it stays the latest one.
  failed_all :
      (rs : List Observation) (n at m : ℕ) (kind : Option String) (status : Option ℕ)
      → (observe_all peer rs (running (state_of n (some at) none kind status m))).health
        ≡ state_of
            (length (failures peer rs) + n)
            (some at)
            (newest_success rs)
            kind
            status
            (length rs + m)
  unfolding observe_all observe blame streak newest_success
  failed_all [] n at m kind status =
      recount n _ m _ (some at) none status kind (omega arith) (omega arith)
  failed_all (r ∷ rs) n at m kind status = elim (Bool-cases r.ok) [
    | inl e ↦ simp e (
        ended_all rs _
        ∙ recount n _ _ _ (some at) (some r.ts) status kind (omega arith) (omega arith))
    | inr e ↦ elim (Bool-cases (is_attributable peer r)) [
      | inl f ↦
          simp (e, f)
            (failed_all rs _ at _ kind status
              ∙ recount _ _ _ _ (some at) _ status kind (omega arith) (omega arith))
      | inr f ↦
          simp (e, f)
            (failed_all rs n at _ kind status
              ∙ recount _ _ _ _ (some at) _ status kind (omega arith) (omega arith))
    ]
  ]

  -- Before any failure.
  fresh_all :
      (rs : List Observation) (m : ℕ)
      → (observe_all peer rs (running (state_of 0 none none none none m))).health
        ≡ record (summary peer rs) { sample_count = length rs + m }
  unfolding observe_all observe blame streak newest_success
  fresh_all [] m = recount 0 _ m _ none none none none refl (omega arith)
  fresh_all (r ∷ rs) m = elim (Bool-cases r.ok) [
    | inl e ↦
        simp e (ended_all rs _ ∙ recount 0 _ _ _ none (some r.ts) none none refl (omega arith))
    | inr e ↦ elim (Bool-cases (is_attributable peer r)) [
      | inl f ↦
          simp (e, f)
            (failed_all rs _ r.ts _ (kind_of r) r.http_status
              ∙ recount _ _ _ _ (some r.ts) _ r.http_status (kind_of r) (omega arith) (omega arith))
      | inr f ↦
          simp (e, f)
            (fresh_all rs _ ∙ ap (λ n. record (summary peer rs) { sample_count = n }) (omega arith))
    ]
  ]

pub observed :
    (peer : Bool) (r : Observation) (rs : List Observation)
    → (observe_all peer rs (observe peer r fresh_state)).health ≡ summary peer (r ∷ rs)
unfolding observe_all
observed peer r rs =
    fresh_all peer (r ∷ rs) 0
    ∙ ap (λ n. record (summary peer (r ∷ rs)) { sample_count = n }) (omega arith)
