-- ===== src/Keeper/Sound/Settling.antt =====
-- `_reconcile_orphans`, `_settle_topups` and the breakers keep the safety invariant.
use unhardcoded.Prelude.{
  ℕ, ◌≡◌, refl, Bool, true, not, ◌||◌, String, Option, none, some, List, [], max, min, arith, All,
  All-map_of, if◌then◌else◌, leb, ltb, ◌+◌,
}
use unhardcoded.Ledger.{
  topup, topup_kind, Outcome, unknown, is_spent, is_pending, same_op, WalletOp, is_error,
  is_settled, is_terminal, newest,
}
use unhardcoded.Ledger.Ids.{spent_id, spent_id-close_rows, open_rows-spent}
use unhardcoded.Exec.{Core, M, seconds, ◌>>=◌, for_each, pure}
use unhardcoded.Exec.Ends.{
  Ends, Ends-bind, Ends-pure, Ends-if, Ends-store_call, Ends-query, Ends-for_each, Ends-weaken,
  Ends-gets-bind,
}
use unhardcoded.Store.{
  Environment, wallet_op_finish, wallet_ops_open, wallet_ops_settled, wallet_ops_terminal,
}
use unhardcoded.Keeper.{Decision}
use unhardcoded.Keeper.Strikes.{consecutive, halt_topups, topup_error_strikes_to_halt}
use unhardcoded.Keeper.Settle.{
  reconcile_row, reconcile_orphans, settle_row, measured, error_breaker, settle_topups, touched_at,
  settle_after_s, pump_strikes_to_halt, is_pumping,
}
use unhardcoded.Keeper.Sound.{Limit, close-IsSound}
use unhardcoded.Keeper.Sound.Writes.{Sound, Safe, Safe-bind, wallet_halt-Safe}

module _ (p : String) (limit : Limit) where
  -- Sound, with every id spent that was spent at `c₀`.
  abbrev Keeps : Core → Core → Type 0
  Keeps c₀ c =
      Sound p limit c
      × ((j : ℕ) → spent_id j c₀.ledger.rows ≡ true → spent_id j c.ledger.rows ≡ true)

  finish-Keeps :
      (c₀ : Core) (op_id : ℕ) (o : Outcome) (a b : Option ℕ) (c : Core)
      → spent_id op_id c₀.ledger.rows ≡ true
      → is_spent o ≡ true
      → Keeps c₀ c
      → Ends (wallet_op_finish op_id o a b) c (λ _. Keeps c₀)
  unfolding wallet_op_finish
  finish-Keeps c₀ op_id o a b c h k (s, t) =
      Ends-store_call _ _
        (
          close-IsSound p limit c.ledger c.sent op_id o a b (seconds c) (t op_id h) k s,
          λ j e. spent_id-close_rows op_id o a b (seconds c) j c.ledger.rows k (t j e),
        )
        (s, t) (s, t)

  finished-Keeps :
      (c₀ : Core) (op_id : ℕ) (o : Outcome) (a b : Option ℕ) (c : Core)
      → spent_id op_id c₀.ledger.rows ≡ true
      → is_spent o ≡ true
      → Keeps c₀ c
      → Ends (wallet_op_finish op_id o a b >>= λ _. pure {A = Unit {0}} tt) c (λ _. Keeps c₀)
  finished-Keeps c₀ op_id o a b c h k i =
      Ends-bind (λ _. Keeps c₀) (λ _. Keeps c₀) _ _ (finish-Keeps c₀ op_id o a b c h k i)
        (λ _ c' j. Ends-pure tt j) (λ _ _ j. j)

  unknown-spent : is_spent unknown ≡ true
  unfolding is_spent
  unknown-spent = refl

  measured-spent :
      (env : Environment) (available : ℕ) (reserved : Option ℕ) (row : WalletOp)
      → is_spent (measured env available reserved row) ≡ true
  unfolding measured is_spent
  measured-spent env available reserved row = ground arith

  reconcile_row-Keeps :
      (c₀ : Core) (row : WalletOp)
      → spent_id row.id c₀.ledger.rows ≡ true
      → (c : Core) → Keeps c₀ c
      → Ends (reconcile_row row) c (λ _. Keeps c₀)
  unfolding reconcile_row
  reconcile_row-Keeps c₀ row h c i =
      Ends-if (same_op row.op topup || not (is_pending row.outcome)) _ _ (λ _. Ends-pure tt i)
        (λ _. finished-Keeps c₀ row.id unknown none none c h unknown-spent i)

  settle_row-Keeps :
      (env : Environment) (available : ℕ) (reserved : Option ℕ) (now : ℕ) (c₀ : Core)
      (row : WalletOp)
      → spent_id row.id c₀.ledger.rows ≡ true
      → (c : Core) → Keeps c₀ c
      → Ends (settle_row env available reserved now row) c (λ _. Keeps c₀)
  unfolding settle_row
  settle_row-Keeps env available reserved now c₀ row h c i =
      Ends-if (is_pending row.outcome) _ _
        (λ _. finished-Keeps c₀ row.id unknown _ _ c h unknown-spent i)
        (λ _.
          Ends-if (ltb now (touched_at row + settle_after_s)) _ _ (λ _. Ends-pure tt i)
            (λ _. finished-Keeps c₀ row.id _ _ _ c h (measured-spent env available reserved row) i))

  -- A loop over rows whose ids are spent.
  rows-Safe :
      (body : WalletOp → M (Unit {0})) (c₀ : Core) (rows : List WalletOp)
      → ((row : WalletOp)
          → spent_id row.id c₀.ledger.rows ≡ true
          → (c : Core) → Keeps c₀ c
          → Ends (body row) c (λ _. Keeps c₀))
      → All (λ r. spent_id r.id c₀.ledger.rows ≡ true) rows
      → Sound p limit c₀
      → Safe p limit (for_each body rows) c₀
  rows-Safe body c₀ rows step h s =
      Ends-weaken
        (Ends-for_each (Keeps c₀) body rows (All-map_of _ rows (λ row e. step row e) h) c₀
          (s, λ j e. e))
        (λ _ c' k. k.0)

  pub reconcile_orphans-Safe :
      (pid : String) (c : Core) → Sound p limit c → Safe p limit (reconcile_orphans pid) c
  unfolding reconcile_orphans wallet_ops_open
  reconcile_orphans-Safe pid c s =
      Ends-query _ _ _
        (rows-Safe reconcile_row c _ (reconcile_row-Keeps c)
          (open_rows-spent c.ledger.next_id pid none c.ledger.rows s.distinct) s)
        (rows-Safe reconcile_row c _ (reconcile_row-Keeps c) tt s) s

  pub halt_topups-Safe :
      (pid : String) (d : Decision) (c : Core)
      → Sound p limit c
      → Safe p limit (halt_topups pid d) c
  unfolding halt_topups
  halt_topups-Safe pid d c s =
      Safe-bind p limit _ _ (wallet_halt-Safe p limit pid topup_kind c s) (λ _ c' i. Ends-pure d i)

  halted_with-Safe :
      (pid : String) (d : Decision) (c : Core)
      → Sound p limit c
      → Safe p limit (halt_topups pid d >>= λ x. pure (some x)) c
  halted_with-Safe pid d c s =
      Safe-bind p limit _ _ (halt_topups-Safe pid d c s) (λ x c' i. Ends-pure (some x) i)

  breaker_rows-Safe :
      (pid : String) (d : Decision) (b : Bool) (c : Core) (n : M (Option Decision))
      → Sound p limit c
      → Safe p limit n c
      → Safe p limit (if b then (halt_topups pid d >>= λ x. pure (some x)) else n) c
  breaker_rows-Safe pid d b c n s h = Ends-if b _ _ (λ _. halted_with-Safe pid d c s) (λ _. h)

  error_breaker-Safe :
      (pid : String) (c : Core) → Sound p limit c → Safe p limit (error_breaker pid) c
  unfolding error_breaker wallet_ops_terminal
  error_breaker-Safe pid c s =
      Ends-query _ _ _
        (breaker_rows-Safe pid Decision.error_halt
          (leb topup_error_strikes_to_halt (
            consecutive is_error (
              newest is_terminal pid topup (max 1 (min topup_error_strikes_to_halt 100))
                c.ledger.rows)))
          c _ s (Ends-pure none s))
        (breaker_rows-Safe pid Decision.error_halt
          (leb topup_error_strikes_to_halt (consecutive is_error [])) c _ s (Ends-pure none s))
        s

  breakers-Safe :
      (pid : String) (c : Core)
      → Sound p limit c
      → Safe p limit
          (wallet_ops_settled pid topup pump_strikes_to_halt >>= λ settled.
            if is_pumping settled
            then (halt_topups pid Decision.pump_halt >>= λ d. pure (some d))
            else error_breaker pid)
          c
  unfolding wallet_ops_settled
  breakers-Safe pid c s =
      Ends-query _ _ _
        (breaker_rows-Safe pid Decision.pump_halt
          (is_pumping
            (newest is_settled pid topup (max 1 (min pump_strikes_to_halt 100)) c.ledger.rows))
          c _ s (error_breaker-Safe pid c s))
        (error_breaker-Safe pid c s) s

  pub settle_topups-Safe :
      (env : Environment) (pid : String) (available : ℕ) (reserved : Option ℕ) (c : Core)
      → Sound p limit c
      → Safe p limit (settle_topups env pid available reserved) c
  unfolding settle_topups wallet_ops_open
  settle_topups-Safe env pid available reserved c s = Ends-gets-bind seconds _ (
      Ends-query _ _ _
        (Safe-bind p limit _ _
          (rows-Safe _ c _ (settle_row-Keeps env available reserved (seconds c) c)
            (open_rows-spent c.ledger.next_id pid (some topup) c.ledger.rows s.distinct) s)
          (λ _ c' i. breakers-Safe pid c' i))
        (Safe-bind p limit _ _
          (rows-Safe _ c _ (settle_row-Keeps env available reserved (seconds c) c) tt s)
          (λ _ c' i. breakers-Safe pid c' i))
        s)
