-- ===== src/Keeper/Sound/Topups.antt =====
-- `_maybe_topup` keeps the safety invariant: its guards leave room in every window of a day.
use unhardcoded.Prelude.{
  ℕ, ◌+◌, ◌-◌, ◌≤◌, ◌≡◌, ◌⊎◌, ◌&&◌, leb→le, ltb→le, inl, inr, refl, Bool, true, false, String,
  Option, none, some, arith, min, ltb, leb, str_eq, eq_iff, subst, Bool-cases, ◌==◌, if◌then◌else◌,
}
use unhardcoded.Ledger.{
  Op, topup, topup_kind, Outcome, failed, is_spent, same_op, WalletOp, insert, spent_since,
  halt_stands,
}
use unhardcoded.Ledger.Sums.{
  in_window, share, spent_in, spent_in-cons, spent_in-le-spent_since, share-out, share-le-amount,
  share-spent,
}
use unhardcoded.Exec.{Core, M, amount, zero_division, seconds, pure, raise, ◌>>=◌, returned}
use unhardcoded.Exec.Ends.{
  Ends, Ends-bind, Ends-pure, Ends-raise, Ends-if, Ends-call, Ends-query, Ends-gets-bind,
}
use unhardcoded.Store.{
  Environment, Usdc, finite, infinite, Spend, intent_row, wallet_op_begin, wallet_ops_terminal,
  wallet_halted, wallet_op_spend_since,
}
use unhardcoded.Control.{ControlResponse, outcome_for}
use unhardcoded.Control.Requests.{asked, sent_in, is_permitted}
use unhardcoded.Knobs.{Knobs, max_topup_usdc, min_topup_usdc}
use unhardcoded.Keeper.{Decision}
use unhardcoded.Keeper.Chain.{chain_view}
use unhardcoded.Keeper.Strikes.{error_strikes, topup_error_strikes_to_halt, halt_topups}
use unhardcoded.Keeper.Topup.{
  day_s, is_over_cap, run_deposit, fire_topup, topup_from_wallet, cap_reached, topup_within_cap,
  retry_gate, maybe_topup, capped_strikes_to_halt, topup_on_reading, below_floor, unless_waiting,
  in_cooldown,
}
use unhardcoded.Keeper.Sound.{Limit, IsSound, is_of, of_all, insert-IsSound}
use unhardcoded.Keeper.Sound.Writes.{Sound, Safe, Safe-bind, Safe-read}
use unhardcoded.Keeper.Sound.Settling.{halt_topups-Safe}
use unhardcoded.Keeper.Sound.Replies.{Replied, on_raise-Replied, finish-Safe}

outcome_cases :
    (resp : ControlResponse) → (is_spent (outcome_for resp) ≡ true) ⊎ (outcome_for resp ≡ failed)
unfolding outcome_for is_spent
outcome_cases resp = ground arith

over_cap_false :
    (u : Usdc) (a n : ℕ) → is_over_cap u a n ≡ false → (m : ℕ) × (u ≡ finite m) × (m + a ≤ n)
over_cap_false infinite a n h = cc
over_cap_false (finite m) a n h = (m, refl, ground arith)

finite_inj : (m n : ℕ) → finite m ≡ finite n → n ≡ m
finite_inj m n e = cc

pending-spent : is_spent Outcome.pending ≡ true
unfolding is_spent
pending-spent = refl

window_lem :
    (owns same after : Bool) (before : Bool)
    → ((owns && same) && (after && before)) ≡ true
    → (owns ≡ true) × (before ≡ true)
window_lem owns same after before h = ground arith

topup-same : same_op topup topup ≡ true
unfolding same_op
topup-same = refl

module _ (p : String) (limit : Limit) (env : Environment) (pid : String) (usdc available : ℕ)
    (reserved : Option ℕ) (c : Core) (s : Sound p limit c) where
  abbrev deposit_row : WalletOp
  deposit_row = intent_row pid topup (some usdc) (some available) reserved (seconds c)

  abbrev begun_core : Core
  begun_core = record c { ledger = insert deposit_row c.ledger }

  -- There is room for the deposit in every window of a day.
  abbrev HasRoom : Type 0
  HasRoom =
      (lo : ℕ)
      → share (is_of p) lo (lo + day_s) deposit_row
          + spent_in (is_of p) lo (lo + day_s) c.ledger.rows
        ≤ limit.usdc

  deposit_share :
      (lo hi n : ℕ)
      → asked lo hi (seconds c) (amount usdc) ≤ share of_all lo hi (record deposit_row { id = n })
  unfolding asked
  deposit_share lo hi n =
      ground
        (arith, share-spent of_all lo hi (record deposit_row { id = n }) pending-spent, topup-same)

  deposit_covers :
      (lo hi : ℕ)
      → asked lo hi (seconds c) (amount usdc) + sent_in lo hi c.sent
        ≤ spent_in of_all lo hi (insert deposit_row c.ledger).rows
  unfolding insert
  deposit_covers lo hi = omega (
    arith,
    s.covered lo hi,
    spent_in-cons of_all lo hi (record deposit_row { id = c.ledger.next_id }) c.ledger.rows,
    deposit_share lo hi c.ledger.next_id,
  )

  -- The amount lies within the two hard limits.
  abbrev FitsLimits : Type 0
  FitsLimits = (min_topup_usdc ≤ usdc) × (usdc ≤ max_topup_usdc)

  permitted_deposit : FitsLimits → is_permitted "deposit" (amount usdc) ≡ true
  unfolding is_permitted
  permitted_deposit (low, high) = ground arith

  run_deposit-Safe :
      HasRoom → FitsLimits → Safe p limit (run_deposit env pid usdc c.ledger.next_id) begun_core
  unfolding run_deposit
  run_deposit-Safe room fits =
      Ends-bind
        (Replied p limit c.ledger deposit_row "deposit" (amount usdc) begun_core refl
          (permitted_deposit fits) pending-spent s begun deposit_covers)
        _ _ _
        (on_raise-Replied p limit c.ledger deposit_row "deposit" (amount usdc) begun_core refl
          (permitted_deposit fits) pending-spent s begun deposit_covers env)
        (λ resp c' q.
          Safe-bind p limit _ _
            (finish-Safe p limit c.ledger deposit_row "deposit" (amount usdc) begun_core refl
              (permitted_deposit fits) pending-spent s begun deposit_covers (returned resp) c'
              (outcome_for resp) none none q
              (elim (outcome_cases resp) [
                | inl k ↦ inl k
                | inr k ↦
                    inr (λ lo hi. omega (arith, q.failed_free resp refl k lo hi, s.covered lo hi))
              ]))
            (λ _ c'' t. Ends-pure _ t))
        (λ e c' t. t)
    where
      begun : IsSound p limit (insert deposit_row c.ledger) c.sent
      begun = insert-IsSound p limit c.ledger c.sent deposit_row room s

  fire_topup-Safe :
      HasRoom → FitsLimits → Safe p limit (fire_topup env pid usdc available reserved) c
  unfolding fire_topup wallet_op_begin
  fire_topup-Safe room fits = Ends-call _ _ _ (run_deposit-Safe room fits) (Ends-pure _ s) s

  -- A deposit that fits under the cap, by the sum that the store answered, has room.
  room_of_spend :
      (cap_usdc : ℕ)
      → spent_since pid topup (seconds c - day_s) c.ledger.rows + usdc ≤ cap_usdc
      → (str_eq pid p ≡ true → cap_usdc ≤ limit.usdc)
      → HasRoom
  room_of_spend cap_usdc fits bound lo =
      elim (Bool-cases (in_window (is_of p) lo (lo + day_s) deposit_row)) [
        | inl e ↦ within e
        | inr e ↦ omega (arith, s.capped lo, share-out (is_of p) lo (lo + day_s) deposit_row e)
      ]
    where
      window_parts :
          in_window (is_of p) lo (lo + day_s) deposit_row ≡ true
          → (str_eq pid p ≡ true) × (seconds c ≤ lo + day_s)
      window_parts e =
          let h = window_lem _ _ _ (leb (seconds c) (lo + day_s)) e in (h.0, leb→le _ _ h.1)

      within :
          in_window (is_of p) lo (lo + day_s) deposit_row ≡ true
          → share (is_of p) lo (lo + day_s) deposit_row
              + spent_in (is_of p) lo (lo + day_s) c.ledger.rows
            ≤ limit.usdc
      within e = omega (
        arith,
        share-le-amount (is_of p) lo (lo + day_s) deposit_row,
        fits,
        bound (window_parts e).0,
        subst
            (λ (q : String).
              spent_in (is_of q) lo (lo + day_s) c.ledger.rows
              ≤ spent_since pid topup (seconds c - day_s) c.ledger.rows)
            ((eq_iff pid p).0 (window_parts e).0)
            (spent_in-le-spent_since pid (seconds c - day_s) lo (lo + day_s) c.ledger.rows
              (omega (arith, (window_parts e).1))),
      )

  topup_on_reading-Safe :
      (knobs : Knobs) (o : Option ℕ)
      → HasRoom
      → FitsLimits
      → Safe p limit (topup_on_reading env pid knobs available reserved usdc o) c
  unfolding topup_on_reading
  topup_on_reading-Safe knobs none room fits = Ends-pure _ s
  topup_on_reading-Safe knobs (some w) room fits =
      Ends-if (below_floor knobs usdc w) _ _ (λ _. Ends-pure _ s) (λ _. fire_topup-Safe room fits)

  topup_from_wallet-Safe :
      (knobs : Knobs)
      → HasRoom
      → FitsLimits
      → Safe p limit (topup_from_wallet env pid knobs available reserved usdc) c
  unfolding topup_from_wallet chain_view
  topup_from_wallet-Safe knobs room fits =
      Ends-gets-bind _ _ (topup_on_reading-Safe knobs _ room fits)

module _ (p : String) (limit : Limit) (env : Environment) (pid : String) (knobs : Knobs)
    (available : ℕ) (reserved : Option ℕ)
    (bound : str_eq pid p ≡ true → knobs.topup_daily_cap_usdc ≤ limit.usdc) (c : Core)
    (s : Sound p limit c) where
  capped_at : (strikes : ℕ) → M Decision
  capped_at strikes =
      if knobs.topup_amount_usdc == 0
      then raise zero_division
      else if leb (capped_strikes_to_halt knobs) strikes
      then halt_topups pid Decision.error_halt
      else pure Decision.daily_cap

  capped_at-Safe : (strikes : ℕ) → Safe p limit (capped_at strikes) c
  unfolding capped_at
  capped_at-Safe strikes =
      Ends-if (knobs.topup_amount_usdc == 0) _ _ (λ _. Ends-raise zero_division s)
        (λ _.
          Ends-if (leb (capped_strikes_to_halt knobs) strikes) _ _
            (λ _. halt_topups-Safe p limit pid _ c s) (λ _. Ends-pure _ s))

  error_strikes-Ends : (op : Op) (n : ℕ) → Ends (error_strikes pid op n) c (λ _ c'. c' ≡ c)
  unfolding error_strikes wallet_ops_terminal
  error_strikes-Ends op n = Ends-query _ _ _ (Ends-pure _ refl) (Ends-pure _ refl) refl

  cap_reached-Safe : Safe p limit (cap_reached pid knobs) c
  unfolding cap_reached capped_at
  cap_reached-Safe =
      Safe-read p limit _ _ (error_strikes-Ends topup topup_error_strikes_to_halt) capped_at-Safe s

  topup_within_cap-Safe :
      (spend : Spend)
      → ((n : ℕ)
          → spend.spent_usdc ≡ finite n
          → n ≡ spent_since pid topup (seconds c - day_s) c.ledger.rows)
      → Safe p limit (topup_within_cap env pid knobs available reserved spend) c
  unfolding topup_within_cap
  topup_within_cap-Safe spend answered =
      Ends-if (is_over_cap spend.spent_usdc knobs.topup_amount_usdc knobs.topup_daily_cap_usdc) _ _
        (λ _. cap_reached-Safe)
        (λ e.
          Ends-if (ltb usdc min_topup_usdc) _ _ (λ _. Ends-pure _ s)
            (λ big.
              topup_from_wallet-Safe p limit env pid usdc available reserved c s knobs (room e)
                (ltb→le _ _ big, omega arith)))
    where
      usdc : ℕ
      usdc = min knobs.topup_amount_usdc max_topup_usdc

      room :
          is_over_cap spend.spent_usdc knobs.topup_amount_usdc knobs.topup_daily_cap_usdc ≡ false
          → HasRoom p limit env pid usdc available reserved c s
      room e =
          let (m, known, fits) =
            over_cap_false spend.spent_usdc knobs.topup_amount_usdc knobs.topup_daily_cap_usdc e in
          room_of_spend p limit env pid usdc available reserved c s knobs.topup_daily_cap_usdc
            (omega (arith, answered m known, fits)) bound

  gated-Safe :
      (spend : Spend)
      → ((n : ℕ)
          → spend.spent_usdc ≡ finite n
          → n ≡ spent_since pid topup (seconds c - day_s) c.ledger.rows)
      → (o : Option Decision)
      → Safe p limit (unless_waiting o (topup_within_cap env pid knobs available reserved spend)) c
  unfolding unless_waiting
  gated-Safe spend answered none = topup_within_cap-Safe spend answered
  gated-Safe spend answered (some d) = Ends-pure d s

  retry_gate-Ends : (spend : Spend) → Ends (retry_gate pid knobs spend) c (λ _ c'. c' ≡ c)
  unfolding retry_gate wallet_ops_terminal
  retry_gate-Ends spend = Ends-gets-bind seconds _ (
      Ends-if (in_cooldown knobs (seconds c) spend.last_ts) _ _ (λ _. Ends-pure _ refl)
        (λ _. Ends-query _ _ _ (Ends-pure _ refl) (Ends-pure _ refl) refl))

  retried-Safe :
      (spend : Spend)
      → ((n : ℕ)
          → spend.spent_usdc ≡ finite n
          → n ≡ spent_since pid topup (seconds c - day_s) c.ledger.rows)
      → Safe p limit
          (retry_gate pid knobs spend >>= λ waiting.
            unless_waiting waiting (topup_within_cap env pid knobs available reserved spend))
          c
  retried-Safe spend answered =
      Safe-read p limit _ _ (retry_gate-Ends spend) (gated-Safe spend answered) s

  pub maybe_topup-Safe : Safe p limit (maybe_topup env pid knobs available reserved) c
  unfolding maybe_topup wallet_halted wallet_op_spend_since
  maybe_topup-Safe =
      Ends-if (leb knobs.topup_trigger_usdc available) _ _ (λ _. Ends-pure _ s)
        (λ _.
          Ends-query _ _ _
            (Ends-if (halt_stands pid topup_kind c.ledger.rows) _ _ (λ _. Ends-pure _ s)
              (λ _. Ends-gets-bind seconds _ (
                Ends-query _ _ _ (retried-Safe _ (λ n e. finite_inj _ _ e))
                  (retried-Safe _ (λ n e. cc)) s)))
            (Ends-pure _ s) s)
