-- ===== src/Ledger/Sums.antt =====
-- The top-ups that count as spent in a window of time, and what the statements on the ledger do to
-- their sum.
use unhardcoded.Prelude.{
  ℕ, ◌+◌, ◌≤◌, ◌≡◌, refl, Bool, true, false, ◌&&◌, String, Option, List, [], ◌∷◌, arith,
  if◌then◌else◌, leb, str_eq, Bool-cases, inl, inr,
}
use unhardcoded.Ledger.{
  topup, Outcome, is_spent, same_op, amount_of, WalletOp, close_row, close_rows, spent_since,
}
use unhardcoded.Ledger.Ids.{spent_id}

-- Is the row a top-up, of a provider that `who` holds of, from `lo` to `hi`?
abbrev pub in_window : (String → Bool) → ℕ → ℕ → WalletOp → Bool
in_window who lo hi r = (who r.pid && same_op r.op topup) && (leb lo r.ts && leb r.ts hi)

-- What the row adds to the sum of its window.
unfoldable pub share : (String → Bool) → ℕ → ℕ → WalletOp → ℕ
share who lo hi r = if in_window who lo hi r && is_spent r.outcome then amount_of r else 0

unfoldable pub spent_in : (String → Bool) → ℕ → ℕ → List WalletOp → ℕ
spent_in who lo hi [] = 0
spent_in who lo hi (r ∷ rs) = share who lo hi r + spent_in who lo hi rs

pub spent_in-cons :
    (who : String → Bool) (lo hi : ℕ) (r : WalletOp) (rs : List WalletOp)
    → spent_in who lo hi (r ∷ rs) ≡ share who lo hi r + spent_in who lo hi rs
unfolding spent_in
spent_in-cons who lo hi r rs = refl

-- A window that begins no earlier than `since` holds no more than was spent since then.
pub spent_in-le-spent_since :
    (pid : String) (since lo hi : ℕ) (rows : List WalletOp)
    → since ≤ lo
    → spent_in (λ q. str_eq q pid) lo hi rows ≤ spent_since pid topup since rows
unfolding spent_in spent_since share
spent_in-le-spent_since pid since lo hi [] h = omega arith
spent_in-le-spent_since pid since lo hi (r ∷ rs) h =
    ground (arith, spent_in-le-spent_since pid since lo hi rs h)

-- A row outside the window, or of another kind, adds nothing; any row adds at most its amount.
pub share-le-amount :
    (who : String → Bool) (lo hi : ℕ) (r : WalletOp) → share who lo hi r ≤ amount_of r
unfolding share
share-le-amount who lo hi r = elim (Bool-cases (in_window who lo hi r && is_spent r.outcome)) [
  | inl e ↦ rw e (omega arith)
  | inr e ↦ rw e (omega arith)
]

pub share-out :
    (who : String → Bool) (lo hi : ℕ) (r : WalletOp)
    → in_window who lo hi r ≡ false
    → share who lo hi r ≡ 0
unfolding share
share-out who lo hi r h = rw h

pub share-unspent :
    (who : String → Bool) (lo hi : ℕ) (r : WalletOp)
    → is_spent r.outcome ≡ false
    → share who lo hi r ≡ 0
unfolding share
share-unspent who lo hi r h = elim (Bool-cases (in_window who lo hi r)) [
  | inl e ↦ rw (e, h) refl
  | inr e ↦ rw e refl
]

pub share-spent :
    (who : String → Bool) (lo hi : ℕ) (r : WalletOp)
    → is_spent r.outcome ≡ true
    → share who lo hi r ≡ (if in_window who lo hi r then amount_of r else 0)
unfolding share
share-spent who lo hi r h = elim (Bool-cases (in_window who lo hi r)) [
  | inl e ↦ rw (e, h) refl
  | inr e ↦ rw e refl
]

module _ (who : String → Bool) (lo hi op_id : ℕ) (o : Outcome) (a b : Option ℕ) (now : ℕ) where
  share_close_le :
      (r : WalletOp)
      → spent_id op_id (r ∷ []) ≡ true
      → share who lo hi (close_row op_id o a b now r) ≤ share who lo hi r
  unfolding share
  share_close_le r h = ground arith

  share_le_close :
      (r : WalletOp)
      → is_spent o ≡ true
      → share who lo hi r ≤ share who lo hi (close_row op_id o a b now r)
  unfolding share
  share_le_close r h = ground arith

  -- Closing a row that counts as spent, with whatever outcome, never raises the sum.
  pub spent_in-close_rows-le :
      (rows : List WalletOp)
      → spent_id op_id rows ≡ true
      → spent_in who lo hi (close_rows op_id o a b now rows) ≤ spent_in who lo hi rows
  unfolding spent_in close_rows
  spent_in-close_rows-le [] h = omega arith
  spent_in-close_rows-le (r ∷ rs) h = ground (arith, share_close_le r, spent_in-close_rows-le rs)

  -- Closing a row as spent never lowers it.
  pub spent_in-le-close_rows :
      (rows : List WalletOp)
      → is_spent o ≡ true
      → spent_in who lo hi rows ≤ spent_in who lo hi (close_rows op_id o a b now rows)
  unfolding spent_in close_rows
  spent_in-le-close_rows [] h = omega arith
  spent_in-le-close_rows (r ∷ rs) s = omega (arith, share_le_close r s, spent_in-le-close_rows rs s)

-- The id of a row has no part in its share.
pub share-id :
    (who : String → Bool) (lo hi n : ℕ) (r : WalletOp)
    → share who lo hi (record r { id = n }) ≡ share who lo hi r
unfolding share
share-id who lo hi n r = refl
