-- ===== src/Keeper/Sound.antt =====
-- The safety invariant of the funding loop, and how each statement on the ledger keeps it.
pub mod Writes
pub mod Settling
pub mod Replies
pub mod Topups
pub mod Reclaims
pub mod Cycles
pub mod Reach
use unhardcoded.Prelude.{ℕ, ◌+◌, ◌≤◌, ◌≡◌, Bool, true, String, Option, List, arith, str_eq}
use unhardcoded.Ledger.{Outcome, is_spent, WalletOp, Ledger, insert, close_row, close_rows}
use unhardcoded.Ledger.Ids.{
  Descending, spent_id, Descending-insert, Descending-close_rows, close_rows-fresh, spent_id-fresh,
}
use unhardcoded.Ledger.Sums.{
  share, spent_in, spent_in-cons, share-id, spent_in-close_rows-le, spent_in-le-close_rows,
}
use unhardcoded.Ledger.Halts.{halt_stands-insert, halt_stands-close_rows}
use unhardcoded.Ledger.{HaltKind, halt_stands}
use unhardcoded.Prelude.{Bool}
use unhardcoded.Exec.{Sent}
use unhardcoded.Control.Requests.{sent_in, Permitted}
use unhardcoded.Keeper.Topup.{day_s}

-- Rows of provider `p`, and of all providers.
abbrev pub is_of : String → String → Bool
is_of p q = str_eq q p

abbrev pub of_all : String → Bool
of_all q = true

-- What the invariant is about: a bound on the daily caps, and the halts that stand.
pub record Limit : Type 0 where
  pub usdc : ℕ
  pub halts : String → HaltKind → Bool

-- Ids are distinct; no window of a day holds more spent top-ups of `p` than `limit`; and the
-- deposits that may have been broadcast in a window are spent top-ups of that window; the halts
-- stand; every request was permitted.
pub record IsSound (p : String) (limit : Limit) (l : Ledger) (sent : List Sent) : Type 0 where
  pub distinct : Descending l.next_id l.rows
  pub capped : (lo : ℕ) → spent_in (is_of p) lo (lo + day_s) l.rows ≤ limit.usdc
  pub covered : (lo hi : ℕ) → sent_in lo hi sent ≤ spent_in of_all lo hi l.rows
  pub stands :
      (q : String) (kind : HaltKind) → limit.halts q kind ≡ true → halt_stands q kind l.rows ≡ true
  pub permitted : Permitted sent

abbrev pub closed : ℕ → Outcome → Option ℕ → Option ℕ → ℕ → Ledger → Ledger
closed op_id o a b now l = record l { rows = close_rows op_id o a b now l.rows }

module _ (p : String) (limit : Limit) (l : Ledger) (sent : List Sent) where
  -- A row that adds nothing to any window of `p`, or only where there is room.
  pub insert-IsSound :
      (r : WalletOp)
      → ((lo : ℕ)
          → share (is_of p) lo (lo + day_s) r + spent_in (is_of p) lo (lo + day_s) l.rows
            ≤ limit.usdc)
      → IsSound p limit l sent
      → IsSound p limit (insert r l) sent
  unfolding insert
  insert-IsSound r room s = record {
    distinct = Descending-insert r l s.distinct;
    capped = λ lo. omega (
      arith,
      room lo,
      spent_in-cons (is_of p) lo (lo + day_s) (record r { id = l.next_id }) l.rows,
      share-id (is_of p) lo (lo + day_s) l.next_id r,
    );
    covered = λ lo hi.
        omega
          (arith, s.covered lo hi, spent_in-cons of_all lo hi (record r { id = l.next_id }) l.rows);
    stands = λ q kind h. halt_stands-insert q kind r l (s.stands q kind h);
    permitted = s.permitted;
  }

  -- Closing a row whose id is spent, as spent.
  pub close-IsSound :
      (op_id : ℕ) (o : Outcome) (a b : Option ℕ) (now : ℕ)
      → spent_id op_id l.rows ≡ true
      → is_spent o ≡ true
      → IsSound p limit l sent
      → IsSound p limit (closed op_id o a b now l) sent
  close-IsSound op_id o a b now h k s = record {
    distinct = Descending-close_rows op_id o a b now l.next_id l.rows s.distinct;
    capped = λ lo. omega (
      arith,
      s.capped lo,
      spent_in-close_rows-le (is_of p) lo (lo + day_s) op_id o a b now l.rows h,
    );
    covered = λ lo hi.
        omega
          (arith, s.covered lo hi, spent_in-le-close_rows of_all lo hi op_id o a b now l.rows k);
    stands = λ q kind e. halt_stands-close_rows q kind op_id o a b now l.rows h (s.stands q kind e);
    permitted = s.permitted;
  }

  pub newest_spent :
      (r : WalletOp)
      → is_spent r.outcome ≡ true
      → Descending l.next_id l.rows
      → spent_id l.next_id (insert r l).rows ≡ true
  unfolding insert
  newest_spent r pays d = ground (arith, spent_id-fresh l.next_id l.next_id l.rows)

  -- Closing the row that was begun last, with whatever outcome, where the older rows cover the
  -- deposits.
  pub close_newest-IsSound :
      (r : WalletOp) (o : Outcome) (a b : Option ℕ) (now : ℕ)
      → is_spent r.outcome ≡ true
      → Descending l.next_id l.rows
      → ((lo hi : ℕ) → sent_in lo hi sent ≤ spent_in of_all lo hi l.rows)
      → IsSound p limit (insert r l) sent
      → IsSound p limit (closed l.next_id o a b now (insert r l)) sent
  unfolding insert close_rows
  close_newest-IsSound r o a b now pays d cov begun = record {
    distinct =
        Descending-close_rows l.next_id o a b now (insert r l).next_id (insert r l).rows
          (Descending-insert r l d);
    capped = λ lo. omega (
      arith,
      begun.capped lo,
      spent_in-close_rows-le (is_of p) lo (lo + day_s) l.next_id o a b now (insert r l).rows
          (newest_spent r pays d),
    );
    covered = λ lo hi. rw (close_rows-fresh l.next_id o a b now l.next_id l.rows (omega arith) d) (
        omega (
          arith,
          cov lo hi,
          spent_in-cons of_all lo hi (close_row l.next_id o a b now (record r { id = l.next_id }))
              l.rows,
        ));
    stands = λ q kind e.
        halt_stands-close_rows q kind l.next_id o a b now (insert r l).rows (newest_spent r pays d)
          (begun.stands q kind e);
    permitted = begun.permitted;
  }
