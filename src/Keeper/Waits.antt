-- ===== src/Keeper/Waits.antt =====
-- The backoff of a top-up after errors, where the store answers.
use unhardcoded.Prelude.{
  ℕ, ◌+◌, ◌≤◌, ◌≡◌, ◌⊎◌, inl, inr, refl, sym, subst, Bool, true, false, String, Option, none, some,
  List, [], ◌∷◌, arith, leb, ◌==◌, if◌then◌else◌, Bool-cases, Option-cases,
}
use unhardcoded.Ledger.{topup, topup_kind, is_error, is_terminal, WalletOp, newest, halt_stands}
use unhardcoded.Exec.{
  Core, World, M, returned, seconds, gets, query, store_call, under_fault, continue, ◌>>=◌,
}
use unhardcoded.Store.{
  Environment, Spend, wallet_ops_terminal, wallet_halted, wallet_op_spend_since,
}
use unhardcoded.Knobs.{Knobs}
use unhardcoded.Keeper.{Decision}
use unhardcoded.Keeper.Settle.{touched_at}
use unhardcoded.Keeper.Strikes.{consecutive, backoff_s}
use unhardcoded.Keeper.Topup.{in_cooldown, backoff_gate, retry_gate, unless_waiting, maybe_topup}

-- The newest finished top-up is no error, or the backoff for the errors in a row is over since.
abbrev pub HasWaited : Knobs → ℕ → List WalletOp → Type 0
HasWaited knobs now [] = Unit
HasWaited knobs now (row ∷ rows) =
    (consecutive is_error (row ∷ rows) ≡ 0)
    ⊎ (touched_at row + backoff_s knobs (consecutive is_error (row ∷ rows)) ≤ now)

backoff_gate-HasWaited :
    (knobs : Knobs) (now : ℕ) (rows : List WalletOp)
    → backoff_gate knobs now rows ≡ none
    → HasWaited knobs now rows
unfolding backoff_gate
backoff_gate-HasWaited knobs now [] h = tt
backoff_gate-HasWaited knobs now (row ∷ rows) h =
    elim (Bool-cases (consecutive is_error (row ∷ rows) == 0)) [
      | inl e ↦ inl (ground arith)
      | inr e ↦ let h' = (simp e at h) in inr (ground arith)
    ]

-- The finished top-ups that the gate reads.
abbrev pub last_finished : String → List WalletOp → List WalletOp
last_finished pid rows = newest is_terminal pid topup 3 rows

-- A store whose every call answers.
abbrev pub answering : Core → World
answering c = record { core = c; faults = [] }

module _ (c : Core) where
  abbrev Still {ℓ} : {A : Type ℓ} → M A → Type 0
  Still m = (m (answering c)).1.core.sent ≡ c.sent

  Still-if {ℓ} :
      {A : Type ℓ} (b : Bool) (m n : M A)
      → (b ≡ true → Still m)
      → (b ≡ false → Still n)
      → Still (if b then m else n)
  Still-if true m n km kn = km refl
  Still-if false m n km kn = kn refl

  module _ {ℓ κ} {A : Type ℓ} {B : Type κ} where
    Still-query : (f d : Core → A) (k : A → M B) → Still (k (f c)) → Still (query f d >>= k)
    unfolding ◌>>=◌ store_call under_fault continue
    Still-query f d k h = h

    Still-gets : (f : Core → A) (k : A → M B) → Still (k (f c)) → Still (gets f >>= k)
    unfolding ◌>>=◌ continue
    Still-gets f k h = h

    Still-after :
        (m : M A) (k : A → M B) (a : A)
        → m (answering c) ≡ (returned a, answering c)
        → Still (k a)
        → Still (m >>= k)
    unfolding ◌>>=◌ continue
    Still-after m k a e h = subst (λ r. (continue r.0 k r.1).1.core.sent ≡ c.sent) (sym e) h

  module _ (env : Environment) (pid : String) (knobs : Knobs) (available : ℕ)
      (reserved : Option ℕ) where
    retry_gate-waits :
        (spend : Spend) (d : Decision)
        → backoff_gate knobs (seconds c) (last_finished pid c.ledger.rows) ≡ some d
        → (x : Decision) × (retry_gate pid knobs spend (answering c)
            ≡ (returned (some x), answering c))
    unfolding retry_gate wallet_ops_terminal ◌>>=◌ store_call under_fault continue
    retry_gate-waits spend d h = elim (Bool-cases (in_cooldown knobs (seconds c) spend.last_ts)) [
      | inl e ↦ (Decision.cooldown, simp e refl)
      | inr e ↦ (d, simp e (rw h refl))
    ]

    waiting-Still :
        (d : Decision)
        → backoff_gate knobs (seconds c) (last_finished pid c.ledger.rows) ≡ some d
        → Still (maybe_topup env pid knobs available reserved)
    unfolding maybe_topup wallet_halted wallet_op_spend_since unless_waiting
    waiting-Still d h =
        Still-if (leb knobs.topup_trigger_usdc available) _ _ (λ _. refl)
          (λ _. Still-query _ _ _ (
            Still-if (halt_stands pid topup_kind c.ledger.rows) _ _ (λ _. refl)
              (λ _. Still-gets seconds _ (
                Still-query _ _ _
                  (let (x, e) = retry_gate-waits _ d h in Still-after _ _ (some x) e refl)))))

    -- Where every store call answers, `_maybe_topup` sends nothing, or the last errors are waited for.
    pub maybe_topup-HasWaited :
        Still (maybe_topup env pid knobs available reserved)
        ⊎ HasWaited knobs (seconds c) (last_finished pid c.ledger.rows)
    maybe_topup-HasWaited =
        elim (Option-cases (backoff_gate knobs (seconds c) (last_finished pid c.ledger.rows))) [
          | inl e ↦ inr (backoff_gate-HasWaited knobs (seconds c) _ e)
          | inr (d, e) ↦ inl (waiting-Still d e)
        ]
