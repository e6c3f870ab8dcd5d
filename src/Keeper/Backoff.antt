-- ===== src/Keeper/Backoff.antt =====
-- The strike counter and the backoff of the top-up path.
use unhardcoded.Prelude.{
  ℕ, zero, suc, ◌-◌, ◌*◌, ◌^◌, ◌≤◌, ◌≡◌, refl, Bool, true, false, List, [], ◌∷◌, arith, min, max,
  length, all, take, Bool-cases, inl, inr, if◌then◌else◌,
}
use native.Mathlib.Nat.{pow-suc}
use unhardcoded.Ledger.{Outcome, WalletOp}
use unhardcoded.Knobs.{Knobs}
use unhardcoded.Keeper.Strikes.{consecutive, backoff_s, topup_backoff_base_s, topup_backoff_cap_s}

-- Does the list go on with a row that breaks the run, or end?
abbrev pub breaks_at : (Outcome → Bool) → ℕ → List WalletOp → Bool
breaks_at among n [] = true
breaks_at among zero (r ∷ rs) = if among r.outcome then false else true
breaks_at among (suc n) (r ∷ rs) = breaks_at among n rs

-- The counted rows are the newest ones, they all share one of the outcomes, and the row after them,
-- if there is one, does not.
pub consecutive-longest :
    (among : Outcome → Bool) (rows : List WalletOp)
    → (consecutive among rows ≤ length rows)
      × (all (λ r. among r.outcome) (take (consecutive among rows) rows) ≡ true)
      × (breaks_at among (consecutive among rows) rows ≡ true)
unfolding consecutive
consecutive-longest among [] = (omega arith, refl, refl)
consecutive-longest among (r ∷ rs) = elim (Bool-cases (among r.outcome)) [
  | inl e ↦ let ih = consecutive-longest among rs in rw e (omega (arith, ih.0), rw e ih.1, ih.2)
  | inr e ↦ rw e (omega arith, refl, rw e refl)
]

pow_grows : (n : ℕ) → 1 ≤ 2 ^ n
pow_grows zero = omega arith
pow_grows (suc n) = rw pow-suc (omega (arith, pow_grows n))

bounded :
    (base cooldown p : ℕ)
    → 1 ≤ p
    → topup_backoff_base_s ≤ base
    → cooldown ≤ base
    → (topup_backoff_base_s ≤ min (base * p) topup_backoff_cap_s)
      × (min cooldown topup_backoff_cap_s ≤ min (base * p) topup_backoff_cap_s)
      × (min (base * p) topup_backoff_cap_s ≤ topup_backoff_cap_s)
      × (min (base * (p * 2)) topup_backoff_cap_s
          ≡ min (2 * min (base * p) topup_backoff_cap_s) topup_backoff_cap_s)
bounded base cooldown p h low high =
    let m : base ≤ base * p = grind arith in (omega arith, omega arith, omega arith, omega arith)

-- The wait after the first error in a row is the larger of the operator's cooldown and the base
-- floor, each further error doubles it, both up to the ceiling of 3600 seconds; it is never less than
-- the floor of 300 seconds or, below the ceiling, than the cooldown.
pub backoff_s_bounds :
    (k : Knobs) (strikes : ℕ)
    → 1 ≤ strikes
    → (backoff_s k 1 ≡ min (max k.topup_cooldown_s 300) 3600)
      × (backoff_s k (suc strikes) ≡ min (2 * backoff_s k strikes) 3600)
      × (300 ≤ backoff_s k strikes)
      × (min k.topup_cooldown_s 3600 ≤ backoff_s k strikes)
      × (backoff_s k strikes ≤ 3600)
backoff_s_bounds k zero h = absurd (omega arith)
backoff_s_bounds k (suc n) h =
    let e : suc n - 1 ≡ n = omega arith in
    let f : suc (suc n) - 1 ≡ suc n = omega arith in
    let b =
      bounded (max k.topup_cooldown_s topup_backoff_base_s) k.topup_cooldown_s (2 ^ n) (pow_grows n)
        (omega arith) (omega arith) in
    rw (e, f, pow-suc)
      (let (low, cool, high, doubled) = b in (omega arith, doubled, low, cool, high))
