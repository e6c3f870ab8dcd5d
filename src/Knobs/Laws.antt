-- ===== src/Knobs/Laws.antt =====
-- `load_knobs` accepts exactly the knobs whose relations hold, and changes none.
use unhardcoded.Prelude.{◌≡◌, ◌↔◌, arith, sym, subst}
use unhardcoded.Knobs.{Knobs, knobs, load_knobs, IsConsistent}

-- Knobs that satisfy the three relations come back as they are.
pub load_knobs_of_consistent : (k : Knobs) → IsConsistent k → load_knobs k ≡ knobs k
unfolding load_knobs
load_knobs_of_consistent k h = ground arith

-- Knobs that come back are those that were read, and satisfy the three relations.
pub load_knobs-accepted : (k k' : Knobs) → load_knobs k ≡ knobs k' → (k' ≡ k) × IsConsistent k
unfolding load_knobs
load_knobs-accepted k k' h = ground arith

-- `load_knobs` returns its settings as they are exactly when the trigger lies above the tourniquet
-- and the amount exceeds neither the daily cap nor the hard limit; nothing else is accepted.
pub load_knobs_iff : (k k' : Knobs) → (load_knobs k ≡ knobs k') ↔ ((k' ≡ k) × IsConsistent k)
load_knobs_iff k k' = (
  load_knobs-accepted k k',
  λ h. subst (λ x. load_knobs k ≡ knobs x) (sym h.0) (load_knobs_of_consistent k h.1),
)
