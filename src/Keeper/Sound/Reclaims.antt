-- ===== src/Keeper/Sound/Reclaims.antt =====
-- `_maybe_reclaim` keeps the safety invariant: no phase of it deposits, or is logged as a deposit.
use unhardcoded.Prelude.{
  ℕ, ◌+◌, ◌≤◌, ◌≡◌, refl, inr, true, false, not, ◌&&◌, String, Option, none, some, List, [], ◌∷◌,
  arith, leb, ltb, length, take, ◌==◌, subst, sym, ◌∙◌, length-take, if◌then◌else◌,
}
use unhardcoded.Ledger.{
  Op, topup, reclaim_kind, reclaim_set_operator, reclaim_request_close, reclaim_withdraw, Outcome,
  is_spent, same_op, WalletOp, insert, halt_stands,
}
use unhardcoded.Ledger.Sums.{spent_in}
use unhardcoded.Exec.{Core, Channel, nothing, ids, seconds, pure, ◌>>=◌, returned}
use unhardcoded.Exec.Ends.{
  Ends, Ends-bind, Ends-pure, Ends-if, Ends-call, Ends-query, Ends-gets-bind, Ends-weaken,
}
use unhardcoded.Store.{
  Environment, wallet_halt, intent_row, wallet_op_begin, wallet_ops_terminal, wallet_halted,
  wallet_ops_last_ts, provider_attempt_counts,
}
use unhardcoded.Control.{ControlResponse, outcome_for, control}
use unhardcoded.Control.Requests.{asked, sent_in, control-Requested, is_permitted, is_batch_body}
use unhardcoded.Knobs.{Knobs}
use unhardcoded.Keeper.{Decision}
use unhardcoded.Keeper.Chain.{chain_view, fresh_detail}
use unhardcoded.Keeper.Strikes.{error_strikes, reclaim_error_strikes_to_halt}
use unhardcoded.Keeper.Reclaim.{
  wedged, last_reclaim_ts, fire_batch, choose_phase, reclaim_from_scan, scan_and_reclaim,
  maybe_reclaim, is_short, is_ratcheted, is_nothing_reserved, fire_first, reclaimed_lately,
  lacks_gas,
}
use unhardcoded.Keeper.Reclaim.Batch.{sort_channels, ids_of, max_tx_per_cycle}
use unhardcoded.Keeper.Reclaim.Phase.{
  body_of, honours, is_fired, is_empty_selection, reclaim_outcome, reclaim_breaker, after_phase,
  run_phase, fire_reclaim_phase,
}
use unhardcoded.Keeper.Topup.{day_s}
use unhardcoded.Keeper.Sound.{Limit, IsSound, is_of, of_all, insert-IsSound}
use unhardcoded.Keeper.Sound.Writes.{
  Sound, Safe, Safe-bind, Safe-read, share-other, wallet_halt-Safe,
}
use unhardcoded.Keeper.Sound.Replies.{Replied, on_raise-Replied, finish-Safe}

pending-spent : is_spent Outcome.pending ≡ true
unfolding is_spent
pending-spent = refl

asked_nothing : (lo hi at : ℕ) (sel : Option (List (List ℕ))) → asked lo hi at (body_of sel) ≤ 0
unfolding asked
asked_nothing lo hi at none = ground arith
asked_nothing lo hi at (some l) = ground arith

module _ (p : String) (limit : Limit) (env : Environment) (pid : String) where
  error_strikes-Ends :
      (op : Op) (n : ℕ) (c : Core) → Ends (error_strikes pid op n) c (λ _ c'. c' ≡ c)
  unfolding error_strikes wallet_ops_terminal
  error_strikes-Ends op n c = Ends-query _ _ _ (Ends-pure _ refl) (Ends-pure _ refl) refl

  halt_and-Safe :
      (d : Decision) (c : Core)
      → Sound p limit c
      → Safe p limit (wallet_halt pid reclaim_kind >>= λ _. pure d) c
  halt_and-Safe d c s =
      Safe-bind p limit _ _ (wallet_halt-Safe p limit pid reclaim_kind c s)
        (λ _ c' i. Ends-pure d i)

  reclaim_breaker-Safe :
      (op : Op) (c : Core) → Sound p limit c → Safe p limit (reclaim_breaker pid op) c
  unfolding reclaim_breaker
  reclaim_breaker-Safe op c s =
      Safe-read p limit _ _ (error_strikes-Ends op reclaim_error_strikes_to_halt c)
        (λ n.
          Ends-if (leb reclaim_error_strikes_to_halt n) _ _ (λ _. halt_and-Safe _ c s)
            (λ _. Ends-pure _ s))
        s

  after_phase-Safe :
      (op : Op) (sel : Option (List (List ℕ))) (resp : ControlResponse) (c : Core)
      → Sound p limit c
      → Safe p limit (after_phase pid op sel resp) c
  unfolding after_phase
  after_phase-Safe op sel resp c s =
      Ends-if (is_fired (outcome_for resp)) _ _
        (λ _.
          Ends-if (honours sel resp.selected) _ _ (λ _. Ends-pure _ s) (λ _. halt_and-Safe _ c s))
        (λ _. reclaim_breaker-Safe op c s)

module _ (p : String) (limit : Limit) (env : Environment) (pid phase : String) (op : Op)
    (other : same_op op topup ≡ false) (available : ℕ) (reserved : Option ℕ)
    (sel : Option (List (List ℕ)))
    (allowed : is_empty_selection sel ≡ false → is_permitted phase (body_of sel) ≡ true) (c : Core)
    (s : Sound p limit c) where
  abbrev phase_row : WalletOp
  phase_row = intent_row pid op none (some available) reserved (seconds c)

  abbrev begun_core : Core
  begun_core = record c { ledger = insert phase_row c.ledger }

  phase_begun : IsSound p limit (insert phase_row c.ledger) c.sent
  phase_begun =
      insert-IsSound p limit c.ledger c.sent phase_row
        (λ lo.
          omega (arith, s.capped lo, share-other p limit (is_of p) lo (lo + day_s) phase_row other))
        s

  phase_covers :
      (lo hi : ℕ)
      → asked lo hi (seconds c) (body_of sel) + sent_in lo hi c.sent
        ≤ spent_in of_all lo hi (insert phase_row c.ledger).rows
  phase_covers lo hi = omega (arith, asked_nothing lo hi (seconds c) sel, phase_begun.covered lo hi)

  run_phase-Safe :
      is_empty_selection sel ≡ false
      → Safe p limit (run_phase env pid phase op sel c.ledger.next_id) begun_core
  unfolding run_phase
  run_phase-Safe full =
      Ends-bind
        (Replied p limit c.ledger phase_row phase (body_of sel) begun_core refl (allowed full)
          pending-spent s phase_begun phase_covers)
        _ _ _
        (on_raise-Replied p limit c.ledger phase_row phase (body_of sel) begun_core refl
          (allowed full) pending-spent s phase_begun phase_covers env)
        (λ resp c' q.
          Safe-bind p limit _ _
            (finish-Safe p limit c.ledger phase_row phase (body_of sel) begun_core refl
              (allowed full) pending-spent s phase_begun phase_covers (returned resp) c'
              (reclaim_outcome (outcome_for resp)) none none q
              (inr (λ lo hi.
                omega
                  (arith, q.within lo hi, asked_nothing lo hi (seconds c) sel, s.covered lo hi))))
            (λ _ c'' t. after_phase-Safe p limit env pid op sel resp c'' t))
        (λ e c' t. t)

  pub fire_reclaim_phase-Safe :
      Safe p limit (fire_reclaim_phase env pid phase op available reserved sel) c
  unfolding fire_reclaim_phase wallet_op_begin
  fire_reclaim_phase-Safe =
      Ends-if (is_empty_selection sel) _ _ (λ _. Ends-pure _ s)
        (λ full. Ends-call _ _ _ (run_phase-Safe full) (Ends-pure _ s) s)

set_operator_other : same_op reclaim_set_operator topup ≡ false
unfolding same_op
set_operator_other = refl

request_close_other : same_op reclaim_request_close topup ≡ false
unfolding same_op
request_close_other = refl

withdraw_other : same_op reclaim_withdraw topup ≡ false
unfolding same_op
withdraw_other = refl

-- The first ids of a list that is not empty after the cut are a permitted batch.
taken_permitted :
    (phase : String) (l : List (List ℕ))
    → ((m : List (List ℕ)) → is_permitted phase (ids m) ≡ is_batch_body (ids m))
    → is_empty_selection (some (take max_tx_per_cycle l)) ≡ false
    → is_permitted phase (ids (take max_tx_per_cycle l)) ≡ true
taken_permitted phase [] batched full = cc
taken_permitted phase (x ∷ xs) batched full = batched _ ∙ (ground (arith, length-take 7 xs))

module _ (p : String) (limit : Limit) (env : Environment) (pid : String) (available : ℕ)
    (reserved : Option ℕ) (c : Core) (s : Sound p limit c) where
  fire_batch-Safe :
      (phase : String) (op : Op) (batch : List Channel)
      → same_op op topup ≡ false
      → ((l : List (List ℕ)) → is_permitted phase (ids l) ≡ is_batch_body (ids l))
      → Safe p limit (fire_batch env pid available reserved phase op batch) c
  unfolding fire_batch
  fire_batch-Safe phase op batch other batched =
      Ends-if (length (ids_of (sort_channels batch)) == length batch) _ _
        (λ _.
          fire_reclaim_phase-Safe p limit env pid phase op other available reserved _
            (taken_permitted phase (ids_of (sort_channels batch)) batched) c s)
        (λ _. Ends-pure _ s)

  fire_first-Safe :
      (withdrawable closable : List Channel)
      → Safe p limit (fire_first env pid available reserved withdrawable closable) c
  unfolding fire_first is_permitted
  fire_first-Safe [] [] = Ends-pure _ s
  fire_first-Safe [] (ch ∷ cs) = fire_batch-Safe _ _ (ch ∷ cs) request_close_other (λ l. refl)
  fire_first-Safe (ch ∷ cs) closable = fire_batch-Safe _ _ (ch ∷ cs) withdraw_other (λ l. refl)

  scanned-Safe :
      (scan : ControlResponse) (last : Option ℕ)
      → Safe p limit
          (if reclaimed_lately (seconds c) last
            then pure Decision.cooldown
            else if scan.operator_is_self
            then choose_phase env pid available reserved scan.channels
            else fire_reclaim_phase env pid "reclaim/set-operator" reclaim_set_operator available
                reserved none)
          c
  unfolding choose_phase is_permitted
  scanned-Safe scan last =
      Ends-if (reclaimed_lately (seconds c) last) _ _ (λ _. Ends-pure _ s)
        (λ _.
          Ends-if scan.operator_is_self _ _ (λ _. fire_first-Safe _ _)
            (λ _.
              fire_reclaim_phase-Safe p limit env pid _ _ set_operator_other available reserved none
                (λ _. refl) c s))

  reclaim_from_scan-Safe :
      (scan : ControlResponse) → Safe p limit (reclaim_from_scan env pid available reserved scan) c
  unfolding reclaim_from_scan last_reclaim_ts wallet_ops_last_ts
  reclaim_from_scan-Safe scan =
      Ends-gets-bind seconds _
        (Ends-query _ _ _ (scanned-Safe scan _) (scanned-Safe scan (some (seconds c))) s)

-- The scan asks for no deposit.
module _ (p : String) (limit : Limit) (env : Environment) (pid : String) (available : ℕ)
    (reserved : Option ℕ) (c : Core) (s : Sound p limit c) where
  scan-Safe : Safe p limit (control env "reclaim/scan" nothing) c
  unfolding is_permitted
  scan-Safe = Ends-weaken (control-Requested nothing c env "reclaim/scan") (λ x c' q.
      subst (λ l. IsSound p limit l c'.sent) (sym q.same_ledger)
        (record {
          distinct = s.distinct;
          capped = s.capped;
          covered = λ lo hi.
              omega (arith, q.within lo hi, asked_nothing lo hi (seconds c) none, s.covered lo hi);
          stands = s.stands;
          permitted = q.permitted refl s.permitted;
        }))

  scan_and_reclaim-Safe : Safe p limit (scan_and_reclaim env pid available reserved) c
  unfolding scan_and_reclaim chain_view
  scan_and_reclaim-Safe = Ends-gets-bind _ _ (
      Ends-if (lacks_gas (fresh_detail c.clock_ms (env.balances c.clock_ms pid)).wallet_eth) _ _
        (λ _. Ends-pure _ s)
        (λ _. Safe-bind p limit _ _ scan-Safe (λ scan c' t.
          Ends-if scan.ok _ _
            (λ _. reclaim_from_scan-Safe p limit env pid available reserved c' t scan)
            (λ _. Ends-pure _ t))))

  wedged-Ends : (knobs : Knobs) → Ends (wedged env pid knobs available) c (λ _ c'. c' ≡ c)
  unfolding wedged provider_attempt_counts
  wedged-Ends knobs =
      Ends-if (ltb available knobs.min_available_usdc) _ _ (λ _. Ends-pure _ refl)
        (λ _. Ends-query _ _ _ (Ends-pure _ refl) (Ends-pure _ refl) refl)

  pub maybe_reclaim-Safe :
      (knobs : Knobs) → Safe p limit (maybe_reclaim env pid knobs available reserved) c
  unfolding maybe_reclaim wallet_halted
  maybe_reclaim-Safe knobs =
      Ends-query _ _ _
        (Ends-if (halt_stands pid reclaim_kind c.ledger.rows) _ _ (λ _. Ends-pure _ s) (λ _. going))
        (Ends-pure _ s) s
    where
      going :
          Safe p limit
            (if not (is_short knobs available) && not (is_ratcheted knobs available reserved)
              then pure Decision.not_short
              else if is_nothing_reserved knobs reserved
              then pure Decision.nothing_reserved
              else (wedged env pid knobs available >>= λ stuck.
                  if stuck
                  then scan_and_reclaim env pid available reserved
                  else pure Decision.not_wedged))
            c
      going =
          Ends-if (not (is_short knobs available) && not (is_ratcheted knobs available reserved)) _
            _ (λ _. Ends-pure _ s)
            (λ _.
              Ends-if (is_nothing_reserved knobs reserved) _ _ (λ _. Ends-pure _ s)
                (λ _.
                  Safe-read p limit _ _ (wedged-Ends knobs)
                    (λ stuck. Ends-if stuck _ _ (λ _. scan_and_reclaim-Safe) (λ _. Ends-pure _ s))
                    s))
