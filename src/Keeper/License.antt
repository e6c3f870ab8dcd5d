-- ===== src/Keeper/License.antt =====
-- What must hold for `_maybe_topup` to send a deposit, and what it does when it sends one.
use unhardcoded.Prelude.{
  ℕ, ◌+◌, ◌-◌, ◌≤◌, ◌<◌, ◌≡◌, ◌⊎◌, inl, inr, refl, true, false, any, ◌&&◌, String, Option, none,
  some, List, arith, min, ltb, leb, ltb→le, leb→lt, ◌==◌, if◌then◌else◌, sym, subst, ap,
}
use unhardcoded.Ledger.{
  topup, topup_kind, is_spent, is_for, WalletOp, halt_stands, spent_since, max_ts,
}
use unhardcoded.Exec.{Core, M, zero_division, seconds, pure, raise, ◌>>=◌, returned}
use unhardcoded.Exec.Ends.{
  Ends, Ends-bind, Ends-read, Ends-pure, Ends-raise, Ends-if, Ends-call, Ends-query, Ends-gets-bind,
  Ends-weaken,
}
use unhardcoded.Store.{
  Environment, Usdc, finite, infinite, Spend, wallet_ops_terminal, wallet_halt, wallet_halted,
  wallet_op_spend_since,
}
use unhardcoded.Knobs.{Knobs, max_topup_usdc, min_topup_usdc}
use unhardcoded.Keeper.{Decision}
use unhardcoded.Keeper.Chain.{chain_view, fresh_detail}
use unhardcoded.Keeper.Strikes.{error_strikes, halt_topups, topup_error_strikes_to_halt}
use unhardcoded.Keeper.Logged.{is_intent, fire_topup-IsLogged}
use unhardcoded.Keeper.Waits.{HasWaited, last_finished, answering, maybe_topup-HasWaited}
use unhardcoded.Keeper.Topup.{
  day_s, is_over_cap, topup_on_reading, topup_from_wallet, cap_reached, topup_within_cap,
  retry_gate, unless_waiting, fire_topup, maybe_topup, capped_strikes_to_halt, below_floor,
  in_cooldown,
}

-- The last top-up that counts as spent in the day before `now`.
abbrev pub last_spent : String → ℕ → List WalletOp → Option ℕ
last_spent pid now rows =
    max_ts (λ r. is_for pid topup r && leb (now - day_s) r.ts && is_spent r.outcome) rows

-- The guards of a deposit, on the core at which `_maybe_topup` starts.
pub record MayDeposit (env : Environment) (pid : String) (knobs : Knobs) (available : ℕ) (c : Core)
    : Type 0 where
  pub short : available < knobs.topup_trigger_usdc
  pub not_halted : halt_stands pid topup_kind c.ledger.rows ≡ false
  pub cooled : in_cooldown knobs (seconds c) (last_spent pid (seconds c) c.ledger.rows) ≡ false
  pub under_cap :
      spent_since pid topup (seconds c - day_s) c.ledger.rows + knobs.topup_amount_usdc
      ≤ knobs.topup_daily_cap_usdc
  pub not_dust : min_topup_usdc ≤ min knobs.topup_amount_usdc max_topup_usdc
  pub wallet_usdc : ℕ
  pub fresh_wallet :
      (fresh_detail c.clock_ms (env.balances c.clock_ms pid)).wallet_usdc ≡ some wallet_usdc
  pub above_floor :
      knobs.topup_wallet_floor_usdc + min knobs.topup_amount_usdc max_topup_usdc ≤ wallet_usdc

-- The USDC of a deposit, under the hard limit.
abbrev pub deposit_usdc : Knobs → ℕ
deposit_usdc knobs = min knobs.topup_amount_usdc max_topup_usdc

-- Nothing was sent, or the guards hold and the table has the deposit's row.
abbrev pub Licensed : Environment → String → Knobs → ℕ → Core → Core → Type 0
Licensed env pid knobs available c c' =
    (c'.sent ≡ c.sent)
    ⊎ (MayDeposit env pid knobs available c
        × (any (is_intent pid (deposit_usdc knobs) c.ledger.next_id) c'.ledger.rows ≡ true))

over_cap_false :
    (u : Usdc) (a n : ℕ) → is_over_cap u a n ≡ false → (m : ℕ) × (u ≡ finite m) × (m + a ≤ n)
over_cap_false infinite a n h = cc
over_cap_false (finite m) a n h = (m, refl, ltb→le _ _ h)

finite_inj : (m n : ℕ) → finite m ≡ finite n → n ≡ m
finite_inj m n e = cc

module _ (c : Core) where
  -- A part that sends nothing.
  abbrev pub Quiet {ℓ} : {A : Type ℓ} → M A → Core → Type 0
  Quiet m d = Ends m d (λ _ c'. c'.sent ≡ c.sent)

module _ (env : Environment) (pid : String) (knobs : Knobs) (available : ℕ) (reserved : Option ℕ)
    (c : Core) where
  abbrev MayBe {ℓ} : {A : Type ℓ} → M A → Type 0
  MayBe m = Ends m c (λ _ c'. Licensed env pid knobs available c c')

  quiet : (m : M Decision) → Quiet c m c → MayBe m
  quiet m q = Ends-weaken q (λ x c' e. inl e)

  still : (d : Decision) → MayBe (pure d)
  still d = Ends-pure d (inl refl)

  halt_topups-Quiet : (d : Decision) → Quiet c (halt_topups pid d) c
  unfolding halt_topups wallet_halt
  halt_topups-Quiet d = Ends-call _ _ _ (Ends-pure _ refl) (Ends-pure _ refl) refl

  cap_branch-Quiet :
      (strikes : ℕ)
      → Quiet c
          (if knobs.topup_amount_usdc == 0
            then raise zero_division
            else if leb (capped_strikes_to_halt knobs) strikes
            then halt_topups pid Decision.error_halt
            else pure Decision.daily_cap)
          c
  cap_branch-Quiet strikes =
      Ends-if (knobs.topup_amount_usdc == 0) _ _ (λ _. Ends-raise zero_division refl)
        (λ _.
          Ends-if (leb (capped_strikes_to_halt knobs) strikes) _ _ (λ _. halt_topups-Quiet _)
            (λ _. Ends-pure _ refl))

  error_strikes-Ends : (n : ℕ) → Ends (error_strikes pid topup n) c (λ _ c'. c' ≡ c)
  unfolding error_strikes wallet_ops_terminal
  error_strikes-Ends n = Ends-query _ _ _ (Ends-pure _ refl) (Ends-pure _ refl) refl

  cap_reached-Quiet : Quiet c (cap_reached pid knobs) c
  unfolding cap_reached
  cap_reached-Quiet =
      Ends-read (λ _ c'. c'.sent ≡ c.sent) _ _ (error_strikes-Ends topup_error_strikes_to_halt)
        cap_branch-Quiet (λ _. refl)

  abbrev usdc : ℕ
  usdc = deposit_usdc knobs

  granted :
      MayDeposit env pid knobs available c → MayBe (fire_topup env pid usdc available reserved)
  granted g =
      Ends-weaken (fire_topup-IsLogged env pid usdc available reserved c)
        (λ r c' o. elim o [ inl e ↦ inl e | inr logged ↦ inr (g, logged) ])

  reading :
      (o : Option ℕ)
      → ((w : ℕ)
          → o ≡ some w
          → knobs.topup_wallet_floor_usdc + usdc ≤ w
          → MayDeposit env pid knobs available c)
      → MayBe (topup_on_reading env pid knobs available reserved usdc o)
  unfolding topup_on_reading
  reading none h = still _
  reading (some w) h =
      Ends-if (below_floor knobs usdc w) _ _ (λ _. still _) (λ e. granted (h w refl (ltb→le _ _ e)))

  -- What a spend that the store answered says.
  abbrev Answered : Spend → Type 0
  Answered spend =
      (n : ℕ)
      → spend.spent_usdc ≡ finite n
      → (n ≡ spent_since pid topup (seconds c - day_s) c.ledger.rows)
        × (spend.last_ts ≡ last_spent pid (seconds c) c.ledger.rows)

  within :
      (spend : Spend)
      → available < knobs.topup_trigger_usdc
      → halt_stands pid topup_kind c.ledger.rows ≡ false
      → Answered spend
      → in_cooldown knobs (seconds c) spend.last_ts ≡ false
      → MayBe (topup_within_cap env pid knobs available reserved spend)
  unfolding topup_within_cap topup_from_wallet chain_view
  within spend short unhalted answered cool =
      Ends-if (is_over_cap spend.spent_usdc knobs.topup_amount_usdc knobs.topup_daily_cap_usdc) _ _
        (λ _. quiet _ cap_reached-Quiet)
        (λ fits.
          Ends-if (ltb usdc min_topup_usdc) _ _ (λ _. still _)
            (λ big. Ends-gets-bind _ _ (
              reading _ (λ w e f.
                let (m, known, room) =
                  over_cap_false spend.spent_usdc knobs.topup_amount_usdc knobs.topup_daily_cap_usdc
                    fits in
                record {
                  short = short;
                  not_halted = unhalted;
                  cooled =
                      subst (λ o. in_cooldown knobs (seconds c) o ≡ false) (answered m known).1
                        cool;
                  under_cap = omega (arith, (answered m known).0, room);
                  not_dust = ltb→le _ _ big;
                  wallet_usdc = w;
                  fresh_wallet = e;
                  above_floor = f;
                }))))

  -- `retry_gate` leaves the core, and lets a top-up pass only outside the cooldown.
  retry_gate-Ends :
      (spend : Spend)
      → Ends (retry_gate pid knobs spend) c (λ x c'.
        (c' ≡ c) × (x ≡ returned none → in_cooldown knobs (seconds c) spend.last_ts ≡ false))
  unfolding retry_gate wallet_ops_terminal
  retry_gate-Ends spend = Ends-gets-bind seconds _ (
      Ends-if (in_cooldown knobs (seconds c) spend.last_ts) _ _ (λ _. Ends-pure _ (refl, λ e. cc))
        (λ out.
          Ends-query _ _ _ (Ends-pure _ (refl, λ _. out)) (Ends-pure _ (refl, λ _. out))
            (refl, λ _. out)))

  waited :
      (spend : Spend) (o : Option Decision)
      → available < knobs.topup_trigger_usdc
      → halt_stands pid topup_kind c.ledger.rows ≡ false
      → Answered spend
      → (o ≡ none → in_cooldown knobs (seconds c) spend.last_ts ≡ false)
      → MayBe (unless_waiting o (topup_within_cap env pid knobs available reserved spend))
  unfolding unless_waiting
  waited spend (some d) short unhalted answered cool = still d
  waited spend none short unhalted answered cool = within spend short unhalted answered (cool refl)

  retried :
      (spend : Spend)
      → available < knobs.topup_trigger_usdc
      → halt_stands pid topup_kind c.ledger.rows ≡ false
      → Answered spend
      → MayBe (
          retry_gate pid knobs spend >>= λ waiting.
          unless_waiting waiting (topup_within_cap env pid knobs available reserved spend))
  retried spend short unhalted answered =
      Ends-bind
        (λ x c'.
          (c' ≡ c) × (x ≡ returned none → in_cooldown knobs (seconds c) spend.last_ts ≡ false))
        (λ _ c'. Licensed env pid knobs available c c') _ _ (retry_gate-Ends spend)
        (λ o c' (e, cool).
          subst
            (λ x.
              Ends (unless_waiting o (topup_within_cap env pid knobs available reserved spend)) x
                (λ _ c''. Licensed env pid knobs available c c''))
            (sym e) (waited spend o short unhalted answered (λ q. cool (ap returned q))))
        (λ _ c' (e, cool). inl (ap (λ (x : Core). x.sent) e))

  licensed : MayBe (maybe_topup env pid knobs available reserved)
  unfolding maybe_topup wallet_halted wallet_op_spend_since
  licensed =
      Ends-if (leb knobs.topup_trigger_usdc available) _ _ (λ _. still _)
        (λ short.
          Ends-query _ _ _
            (Ends-if (halt_stands pid topup_kind c.ledger.rows) _ _ (λ _. still _)
              (λ unhalted. Ends-gets-bind seconds _ (
                Ends-query _ _ _
                  (retried _ (leb→lt _ _ short) unhalted (λ n e. (finite_inj _ _ e, refl)))
                  (retried _ (leb→lt _ _ short) unhalted (λ n e. cc)) (inl refl))))
            (still _) (inl refl))

  -- From any core and under any store failures, `_maybe_topup` sends the sidecar nothing, or all of
  -- this holds: the escrow is below the trigger; no halt stands; the cooldown since the last spent
  -- top-up is over; the day's spent top-ups and the amount fit under the daily cap; the deposit is
  -- no dust; a fresh reading of the hot wallet covers the deposit and the floor; and the deposit's
  -- row is in the table, even where the process ends at any point. Where every store call answers, it
  -- also sends nothing before the backoff that its last errors in a row call for is over.
  pub maybe_topup-Licensed :
      Ends
        (maybe_topup env pid knobs available reserved)
        c
        (λ _ c'. Licensed env pid knobs available c c')
      × (((maybe_topup env pid knobs available reserved (answering c)).1.core.sent ≡ c.sent)
          ⊎ HasWaited knobs (seconds c) (last_finished pid c.ledger.rows))
  maybe_topup-Licensed = (licensed, maybe_topup-HasWaited c env pid knobs available reserved)
