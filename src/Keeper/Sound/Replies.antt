-- ===== src/Keeper/Sound/Replies.antt =====
-- A request whose intent was logged, and the close of its row, keep the safety invariant.
use unhardcoded.Prelude.{
  ℕ, ◌+◌, ◌≤◌, ◌≡◌, ◌⊎◌, inl, inr, refl, true, String, Option, none, arith, subst, sym, ◌∙◌,
}
use unhardcoded.Ledger.{Outcome, unknown, is_spent, WalletOp, Ledger, insert}
use unhardcoded.Ledger.Ids.{spent_id}
use unhardcoded.Ledger.Sums.{spent_in}
use unhardcoded.Exec.{Body, Core, Exit, returned, raised, seconds, on_raise}
use unhardcoded.Exec.Ends.{Ends, Ends-on_raise, Ends-store_call, Ends-weaken}
use unhardcoded.Store.{Environment, wallet_op_finish}
use unhardcoded.Control.{ControlResponse, control}
use unhardcoded.Control.Requests.{asked, sent_in, Requested, control-Requested, is_permitted}
use unhardcoded.Keeper.Sound.{Limit, IsSound, of_all, closed, newest_spent, close_newest-IsSound}
use unhardcoded.Keeper.Sound.Writes.{Sound, wallet_op_finish-Safe}

pub unknown-spent : is_spent unknown ≡ true
unfolding is_spent
unknown-spent = refl

-- From ledger `l`, an intent `r` is logged, and the request `body` may ask for what `r` covers.
module _ (p : String) (limit : Limit) (l : Ledger) (r : WalletOp) (op : String) (body : Body)
    (c : Core) (logged : c.ledger ≡ insert r l) (allowed : is_permitted op body ≡ true)
    (pays : is_spent r.outcome ≡ true) (old : IsSound p limit l c.sent)
    (begun : IsSound p limit (insert r l) c.sent)
    (covers : (lo hi : ℕ)
      → asked lo hi (seconds c) body + sent_in lo hi c.sent
        ≤ spent_in of_all lo hi (insert r l).rows) where
  ask-IsSound :
      (x : Exit ControlResponse) (c' : Core)
      → Requested op body c x c'
      → IsSound p limit (insert r l) c'.sent
  ask-IsSound x c' q = record {
    distinct = begun.distinct;
    capped = begun.capped;
    covered = λ lo hi. omega (arith, q.within lo hi, covers lo hi);
    stands = begun.stands;
    permitted = q.permitted allowed begun.permitted;
  }

  pub ask-Sound :
      (x : Exit ControlResponse) (c' : Core) → Requested op body c x c' → Sound p limit c'
  ask-Sound x c' q =
      subst (λ m. IsSound p limit m c'.sent) (sym (q.same_ledger ∙ logged)) (ask-IsSound x c' q)

  same_id_spent :
      (x : Exit ControlResponse) (c' : Core)
      → Requested op body c x c'
      → spent_id l.next_id c'.ledger.rows ≡ true
  same_id_spent x c' q =
      subst (λ (m : Ledger). spent_id l.next_id m.rows ≡ true) (sym (q.same_ledger ∙ logged))
        (newest_spent p limit l c.sent r pays old.distinct)

  -- What the request and its handlers leave.
  abbrev pub Replied : Exit ControlResponse → Core → Type 0
  Replied (returned resp) c' = Requested op body c (returned resp) c'
  Replied (raised e) c' = Sound p limit c'

  pub on_raise-Replied :
      (env : Environment)
      → Ends
          (on_raise (control env op body) (wallet_op_finish l.next_id unknown none none))
          c
          Replied
  on_raise-Replied env =
      Ends-on_raise (Requested op body c) Replied _ _ (control-Requested body c env op)
        (λ resp c' q. q) (λ c' q. ask-Sound _ c' q)
        (λ e c' q.
          Ends-weaken
            (wallet_op_finish-Safe p limit l.next_id unknown none none c' (same_id_spent _ c' q)
              unknown-spent (ask-Sound _ c' q))
            (λ _ _ s _. s))

  -- The row is closed as spent, or the older rows cover what was sent.
  pub finish-Safe :
      (x : Exit ControlResponse) (c' : Core) (o : Outcome) (a b : Option ℕ)
      → Requested op body c x c'
      → (is_spent o ≡ true) ⊎ ((lo hi : ℕ) → sent_in lo hi c'.sent ≤ spent_in of_all lo hi l.rows)
      → Ends (wallet_op_finish l.next_id o a b) c' (λ _ c''. Sound p limit c'')
  unfolding wallet_op_finish
  finish-Safe x c' o a b q (inl k) =
      wallet_op_finish-Safe p limit l.next_id o a b c' (same_id_spent x c' q) k (ask-Sound x c' q)
  finish-Safe x c' o a b q (inr cov) =
      Ends-store_call _ _
        (subst (λ m. IsSound p limit (closed l.next_id o a b (seconds c') m) c'.sent)
          (sym (q.same_ledger ∙ logged))
          (close_newest-IsSound p limit l c'.sent r o a b (seconds c') pays old.distinct cov
            (ask-IsSound x c' q)))
        (ask-Sound x c' q) (ask-Sound x c' q)
