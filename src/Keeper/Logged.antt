-- ===== src/Keeper/Logged.antt =====
-- `_fire_topup` of wallet_keeper.py writes the intent row before it asks for the deposit.
use unhardcoded.Prelude.{
  ℕ, ◌≡◌, ◌⊎◌, inl, inr, refl, true, false, ◌&&◌, ◌∙◌, Bool, String, Option, none, some, List, [],
  ◌∷◌, ◌==◌, eq_iff, any, arith, subst, sym, Bool-cases,
}
use unhardcoded.Ledger.{
  topup, is_for, same_op, Outcome, unknown, WalletOp, insert, close_row, close_rows,
}
use unhardcoded.Exec.{Core, seconds, amount}
use unhardcoded.Exec.Ends.{
  Ends, Ends-bind, Ends-pure, Ends-call, Ends-store_call, Ends-weaken, Ends-on_raise,
}
use unhardcoded.Store.{Environment, intent_row, wallet_op_begin, wallet_op_finish}
use unhardcoded.Control.{outcome_for, control}
use unhardcoded.Control.Requests.{control-Requested}
use unhardcoded.Keeper.Topup.{run_deposit, fire_topup}

-- The row of a deposit of `usdc`, by its id.
abbrev pub is_intent : String → ℕ → ℕ → WalletOp → Bool
is_intent pid usdc id r =
    r.id == id && is_for pid topup r && elim r.amount_usdc [ none ↦ false | some n ↦ n == usdc ]

module _ (p : WalletOp → Bool) where
  -- A test that reads nothing that a close writes.
  abbrev IgnoresClose : Type 0
  IgnoresClose =
      (id : ℕ) (o : Outcome) (a b : Option ℕ) (now : ℕ) (r : WalletOp)
      → p (close_row id o a b now r) ≡ p r

  any-close_rows :
      (id : ℕ) (o : Outcome) (a b : Option ℕ) (now : ℕ) (rows : List WalletOp)
      → IgnoresClose
      → any p (close_rows id o a b now rows) ≡ any p rows
  unfolding close_rows
  any-close_rows id o a b now [] h = refl
  any-close_rows id o a b now (r ∷ rs) h =
      rw (h id o a b now r, any-close_rows id o a b now rs h) refl

module _ (env : Environment) (pid : String) (usdc available : ℕ) (reserved : Option ℕ)
    (c : Core) where
  -- The table holds the deposit's row, under the id that was next in `c`.
  abbrev pub IsLogged : Core → Type 0
  IsLogged c' = any (is_intent pid usdc c.ledger.next_id) c'.ledger.rows ≡ true

  intent-ignores : IgnoresClose (is_intent pid usdc c.ledger.next_id)
  intent-ignores id o a b now r = elim (Bool-cases (r.id == id)) [
    | inl e ↦ simp e refl
    | inr e ↦ simp e refl
  ]

  begun-IsLogged : IsLogged (record c {
    ledger =
        insert (intent_row pid topup (some usdc) (some available) reserved (seconds c)) c.ledger;
  })
  unfolding insert same_op
  begun-IsLogged = let same = (eq_iff pid pid).1 refl in ground arith

  finish-IsLogged :
      (o : Outcome) (c' : Core)
      → IsLogged c'
      → Ends (wallet_op_finish c.ledger.next_id o none none) c' (λ _ c''. IsLogged c'')
  unfolding wallet_op_finish
  finish-IsLogged o c' h =
      Ends-store_call _ _
        (any-close_rows (is_intent pid usdc c.ledger.next_id) c.ledger.next_id o none none
            (seconds c') c'.ledger.rows intent-ignores
          ∙ h)
        h h

  asked-IsLogged :
      (c' : Core)
      → IsLogged c'
      → Ends (control env "deposit" (amount usdc)) c' (λ _ c''. IsLogged c'')
  asked-IsLogged c' h = Ends-weaken (control-Requested (amount usdc) c' env "deposit") (λ r c'' q.
      subst (λ l. any (is_intent pid usdc c.ledger.next_id) l.rows ≡ true) (sym q.same_ledger) h)

  run_deposit-IsLogged :
      (c' : Core)
      → IsLogged c'
      → Ends (run_deposit env pid usdc c.ledger.next_id) c' (λ _ c''. IsLogged c'')
  unfolding run_deposit
  run_deposit-IsLogged c' h =
      Ends-bind (λ _ c''. IsLogged c'') (λ _ c''. IsLogged c'') _ _
        (Ends-on_raise (λ _ c''. IsLogged c'') (λ _ c''. IsLogged c'') _ _ (asked-IsLogged c' h)
          (λ a c'' l. l) (λ c'' l. l)
          (λ e c'' l. Ends-weaken (finish-IsLogged unknown c'' l) (λ r d m x. m)))
        (λ resp c'' l.
          Ends-bind (λ _ d. IsLogged d) (λ _ d. IsLogged d) _ _
            (finish-IsLogged (outcome_for resp) c'' l) (λ _ d m. Ends-pure _ m) (λ _ d m. m))
        (λ e c'' l. l)

  -- Whatever store call fails or ends the process, and however the request goes: nothing was sent,
  -- or the row of the deposit is in the table.
  pub fire_topup-IsLogged :
      Ends (fire_topup env pid usdc available reserved) c (λ _ c'. (c'.sent ≡ c.sent) ⊎ IsLogged c')
  unfolding fire_topup wallet_op_begin
  fire_topup-IsLogged =
      Ends-call _ _ _ (Ends-weaken (run_deposit-IsLogged _ begun-IsLogged) (λ r c' l. inr l))
        (Ends-pure _ (inl refl)) (inl refl)
