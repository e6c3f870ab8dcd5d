-- ===== src/Health/Fold.antt =====
-- What `_fold_health_rows` computes for one identity, told without the loop's state.
use unhardcoded.Prelude.{
  ◌≡◌, refl, sym, ap, ◌∙◌, subst, String, Bool, true, false, Option, none, some, List, [], ◌∷◌,
  if◌then◌else◌, str_eq, eq_iff, keep, Bool-cases, inl, inr,
}
use unhardcoded.Health.{
  Observation, HealthState, Tally, key_of, fresh_state, observe, update, fold_rows, has_evidence,
  evidence, fold_health_rows, get,
}
use unhardcoded.Health.Summary.{streak, newest_success, summary, observe_all, observed}

-- The state under a key that may be missing.
abbrev found : Option Tally → Tally
found none = fresh_state
found (some t) = t

differs : (x y : String) → str_eq x y ≡ false → str_eq y x ≡ false
differs x y h = elim (Bool-cases (str_eq y x)) [
  | inl e ↦ let same : str_eq x y ≡ true = (eq_iff x y).1 (sym ((eq_iff y x).0 e)) in cc
  | inr e ↦ e
]

same_key : (key : String) → str_eq key key ≡ true
same_key key = (eq_iff key key).1 refl

module _ (key : String) (f : Tally → Tally) where
  get-update : (d : List (String × Tally)) → get key (update key f d) ≡ some (f (found (get key d)))
  unfolding update
  get-update [] = simp (same_key key) refl
  get-update ((k, t) ∷ d) = elim (Bool-cases (str_eq k key)) [
    | inl e ↦ simp e refl
    | inr e ↦ simp e (get-update d)
  ]

  get-update_other :
      (other : String) (d : List (String × Tally))
      → str_eq key other ≡ false
      → get other (update key f d) ≡ get other d
  unfolding update
  get-update_other other [] h = simp h refl
  get-update_other other ((k, t) ∷ d) h = elim (Bool-cases (str_eq k key)) [
    | inl e ↦
        let g : str_eq k other ≡ false =
          subst (λ z. str_eq z other ≡ false) (sym ((eq_iff k key).0 e)) h in
        simp (e, g) refl
    | inr e ↦ elim (Bool-cases (str_eq k other)) [
      | inl g ↦ simp (e, g) refl
      | inr g ↦ simp (e, g) (get-update_other other d h)
    ]
  ]

-- No key stands twice.
unfoldable AreDistinct : List (String × Tally) → Type 0
AreDistinct [] = Unit
AreDistinct ((k, t) ∷ d) = (get k d ≡ none) × AreDistinct d

update-AreDistinct :
    (key : String) (f : Tally → Tally) (d : List (String × Tally))
    → AreDistinct d
    → AreDistinct (update key f d)
unfolding update AreDistinct
update-AreDistinct key f [] h = (refl, tt)
update-AreDistinct key f ((k, t) ∷ d) (n, h) = elim (Bool-cases (str_eq k key)) [
  | inl e ↦ simp e (n, h)
  | inr e ↦ simp e (get-update_other key f k d (differs k key e) ∙ n, update-AreDistinct key f d h)
]

abbrev shown : Option Tally → Option HealthState
shown none = none
shown (some t) = if has_evidence t.health then some t.health else none

get-evidence :
    (key : String) (d : List (String × Tally))
    → AreDistinct d
    → get key (evidence d) ≡ shown (get key d)
unfolding evidence AreDistinct
get-evidence key [] h = refl
get-evidence key ((k, t) ∷ d) (n, h) = elim (Bool-cases (str_eq k key)) [
  | inl e ↦ elim (Bool-cases (has_evidence t.health)) [
    | inl f ↦ simp (f, e) refl
    | inr f ↦
        simp (f, e)
          (get-evidence key d h ∙ ap shown (subst (λ z. get z d ≡ none) ((eq_iff k key).0 e) n))
  ]
  | inr e ↦ elim (Bool-cases (has_evidence t.health)) [
    | inl f ↦ simp (f, e) (get-evidence key d h)
    | inr f ↦ simp (f, e) (get-evidence key d h)
  ]
]

fold_rows-AreDistinct :
    (peer : Bool) (pid : String) (rows : List Observation) (d : List (String × Tally))
    → AreDistinct d
    → AreDistinct (fold_rows peer pid rows d)
unfolding fold_rows
fold_rows-AreDistinct peer pid [] d h = h
fold_rows-AreDistinct peer pid (r ∷ rs) d h =
    fold_rows-AreDistinct peer pid rs _
      (update-AreDistinct (key_of peer pid r) (observe peer r) d h)

unfoldable run : Bool → List Observation → Option Tally → Option Tally
run peer [] o = o
run peer (r ∷ rs) o = run peer rs (some (observe peer r (found o)))

run-some :
    (peer : Bool) (rows : List Observation) (t : Tally)
    → run peer rows (some t) ≡ some (observe_all peer rows t)
unfolding run observe_all
run-some peer [] t = refl
run-some peer (r ∷ rs) t = run-some peer rs (observe peer r t)

-- The rows of one identity.
abbrev pub rows_of : Bool → String → String → List Observation → List Observation
rows_of peer pid key rows = keep (λ r. str_eq (key_of peer pid r) key) rows

get-fold_rows :
    (peer : Bool) (pid key : String) (rows : List Observation) (d : List (String × Tally))
    → get key (fold_rows peer pid rows d) ≡ run peer (rows_of peer pid key rows) (get key d)
unfolding fold_rows run
get-fold_rows peer pid key [] d = refl
get-fold_rows peer pid key (r ∷ rs) d = elim (Bool-cases (str_eq (key_of peer pid r) key)) [
  | inl e ↦ simp e (
      get-fold_rows peer pid key rs _
      ∙ ap (run peer (rows_of peer pid key rs)) (
          subst
            (λ k. get key (update k (observe peer r) d) ≡ some (observe peer r (found (get key d))))
            (sym ((eq_iff (key_of peer pid r) key).0 e)) (get-update key (observe peer r) d)))
  | inr e ↦ simp e (
      get-fold_rows peer pid key rs _
      ∙ ap (run peer (rows_of peer pid key rs))
          (get-update_other (key_of peer pid r) (observe peer r) key d e))
]

-- The summary, where it holds any evidence.
abbrev pub reported : HealthState → Option HealthState
reported s = if has_evidence s then some s else none

run-reported :
    (peer : Bool) (rows : List Observation)
    → shown (run peer rows none) ≡ reported (summary peer rows)
unfolding run streak newest_success
run-reported peer [] = refl
run-reported peer (r ∷ rs) =
    ap shown (run-some peer rs (observe peer r fresh_state)) ∙ ap reported (observed peer r rs)

-- The one pass over all the rows, newest first, tells of each identity what its own rows say: the
-- attributable failures before its newest success, the newest of these with its time, kind and
-- status, the time of that success, and how many rows it has. An identity with no such failure and
-- no success is left out.
pub get-fold_health_rows :
    (peer : Bool) (pid key : String) (rows : List Observation)
    → get key (fold_health_rows rows pid peer) ≡ reported (summary peer (rows_of peer pid key rows))
unfolding fold_health_rows AreDistinct
get-fold_health_rows peer pid key rows =
    get-evidence key _ (fold_rows-AreDistinct peer pid rows [] tt)
    ∙ ap shown (get-fold_rows peer pid key rows [])
    ∙ run-reported peer (rows_of peer pid key rows)
