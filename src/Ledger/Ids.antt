-- ===== src/Ledger/Ids.antt =====
-- Row ids: they fall from the newest row to the oldest, so a statement by id reaches one row.
use unhardcoded.Prelude.{
  ℕ, ◌<◌, ◌≤◌, ◌≡◌, refl, Bool, true, ◌&&◌, ◌||◌, not, String, Option, List, [], ◌∷◌, arith, ◌==◌,
  All, All-keep_of_test, All-reverse, All-map_of, String, str_eq,
}
use unhardcoded.Ledger.{
  Outcome, is_spent, is_open, WalletOp, Ledger, Op, insert, close_row, close_rows, open_rows,
}

abbrev pub Descending : ℕ → List WalletOp → Type 0
Descending n [] = Unit
Descending n (r ∷ rs) = (r.id < n) × Descending r.id rs

-- Every row of this id counts as spent.
abbrev pub spent_id : ℕ → List WalletOp → Bool
spent_id op_id [] = true
spent_id op_id (r ∷ rs) = (not (r.id == op_id) || is_spent r.outcome) && spent_id op_id rs

pub Descending-le : (m n : ℕ) (rows : List WalletOp) → m ≤ n → Descending m rows → Descending n rows
Descending-le m n [] h d = tt
Descending-le m n (r ∷ rs) h (l, d) = (omega arith, d)

pub Descending-insert :
    (r : WalletOp) (l : Ledger)
    → Descending l.next_id l.rows
    → Descending (insert r l).next_id (insert r l).rows
unfolding insert
Descending-insert r l d = (omega arith, d)

module _ (op_id : ℕ) (o : Outcome) (a b : Option ℕ) (now : ℕ) where
  pub id-close_row : (r : WalletOp) → (close_row op_id o a b now r).id ≡ r.id
  id-close_row r = ground arith

  pub Descending-close_rows :
      (n : ℕ) (rows : List WalletOp)
      → Descending n rows
      → Descending n (close_rows op_id o a b now rows)
  unfolding close_rows
  Descending-close_rows n [] d = tt
  Descending-close_rows n (r ∷ rs) (l, d) = ground (arith, Descending-close_rows r.id rs d)

  -- Closing a row of an id that no row has changes nothing.
  pub close_rows-fresh :
      (n : ℕ) (rows : List WalletOp)
      → n ≤ op_id
      → Descending n rows
      → close_rows op_id o a b now rows ≡ rows
  unfolding close_rows
  close_rows-fresh n [] h d = refl
  close_rows-fresh n (r ∷ rs) h (l, d) = ground (arith, close_rows-fresh r.id rs)

  -- Closing a row as spent keeps every id spent.
  pub spent_id-close_rows :
      (j : ℕ) (rows : List WalletOp)
      → is_spent o ≡ true
      → spent_id j rows ≡ true
      → spent_id j (close_rows op_id o a b now rows) ≡ true
  unfolding close_rows
  spent_id-close_rows j [] s h = refl
  spent_id-close_rows j (r ∷ rs) s h = ground (arith, spent_id-close_rows j rs s)

pub spent_id-fresh :
    (n j : ℕ) (rows : List WalletOp) → n ≤ j → Descending n rows → spent_id j rows ≡ true
spent_id-fresh n j [] h d = refl
spent_id-fresh n j (r ∷ rs) h (l, d) = ground (arith, spent_id-fresh r.id j rs)

-- An open row's id is spent.
abbrev OpenIsSpent : List WalletOp → WalletOp → Type 0
OpenIsSpent rows r = is_open r.outcome ≡ true → spent_id r.id rows ≡ true

open_is_spent : (o : Outcome) → is_open o ≡ true → is_spent o ≡ true
unfolding is_open is_spent
open_is_spent o h = ground arith

open_head : (r : WalletOp) (rs : List WalletOp) → Descending r.id rs → OpenIsSpent (r ∷ rs) r
open_head r rs d h = ground (arith, open_is_spent r.outcome h, spent_id-fresh r.id r.id rs)

open_tail :
    (r : WalletOp) (rs qs : List WalletOp)
    → Descending r.id qs
    → All (OpenIsSpent rs) qs
    → All (OpenIsSpent (r ∷ rs)) qs
open_tail r rs [] d h = tt
open_tail r rs (q ∷ qs) (l, d) (h, hs) =
    ((λ o. ground (arith, h o)), open_tail r rs qs (Descending-le q.id r.id qs (omega arith) d) hs)

every_open_spent : (n : ℕ) (rows : List WalletOp) → Descending n rows → All (OpenIsSpent rows) rows
every_open_spent n [] d = tt
every_open_spent n (r ∷ rs) (l, d) =
    (open_head r rs d, open_tail r rs rs d (every_open_spent r.id rs d))

and_middle : (x y z : Bool) → (x && y && z) ≡ true → y ≡ true
and_middle x y z h = ground arith

-- Whatever the store answers to a query for open rows, their ids are spent.
pub open_rows-spent :
    (n : ℕ) (pid : String) (op : Option Op) (rows : List WalletOp)
    → Descending n rows
    → All (λ r. spent_id r.id rows ≡ true) (open_rows pid op rows)
unfolding open_rows
open_rows-spent n pid op rows d = All-reverse _ _ (
    All-keep_of_test _ _ rows (
      All-map_of _ rows (λ r h e. h (and_middle (str_eq r.pid pid) _ _ e))
        (every_open_spent n rows d)))
