-- ===== src/Ledger/Halts.antt =====
-- Halt rows: clearing them leaves every sum as it is, and nothing but the operator clears them.
use unhardcoded.Prelude.{
  ℕ, ◌≡◌, refl, Bool, true, false, ◌&&◌, ◌||◌, not, String, Option, List, [], ◌∷◌, arith, keep,
  Bool-cases, inl, inr, ◌==◌,
}
use unhardcoded.Ledger.{
  HaltKind, halt, Outcome, is_spent, is_halted, is_for, WalletOp, Ledger, insert, close_row,
  close_rows, halt_stands, without_halt,
}
use unhardcoded.Ledger.Ids.{Descending, Descending-le, spent_id}
use unhardcoded.Ledger.Sums.{spent_in, share-unspent}

pub Descending-keep :
    (f : WalletOp → Bool) (n : ℕ) (rows : List WalletOp)
    → Descending n rows
    → Descending n (keep f rows)
Descending-keep f n [] d = tt
Descending-keep f n (r ∷ rs) (l, d) = elim (Bool-cases (f r)) [
  | inl e ↦ rw e (l, Descending-keep f r.id rs d)
  | inr e ↦ rw e (Descending-le r.id n _ (omega arith) (Descending-keep f r.id rs d))
]

halted-unspent : (o : Outcome) → is_halted o ≡ true → is_spent o ≡ false
unfolding is_halted is_spent
halted-unspent o h = ground arith

dropped : (b h : Bool) → not (b && h) ≡ false → h ≡ true
dropped b h e = ground arith

pub spent_in-without_halt :
    (who : String → Bool) (lo hi : ℕ) (pid : String) (kind : HaltKind) (rows : List WalletOp)
    → spent_in who lo hi (without_halt pid kind rows) ≡ spent_in who lo hi rows
unfolding spent_in without_halt
spent_in-without_halt who lo hi pid kind [] = refl
spent_in-without_halt who lo hi pid kind (r ∷ rs) =
    elim (Bool-cases (not (is_for pid (halt kind) r && is_halted r.outcome))) [
      | inl e ↦ rw e (omega (arith, spent_in-without_halt who lo hi pid kind rs))
      | inr e ↦ rw e (
          omega (
            arith,
            spent_in-without_halt who lo hi pid kind rs,
            share-unspent who lo hi r (halted-unspent r.outcome (dropped _ _ e)),
          ))
    ]

and_fst : (x y : Bool) → (x && y) ≡ true → x ≡ true
and_fst x y h = ground arith

and_snd : (x y : Bool) → (x && y) ≡ true → y ≡ true
and_snd x y h = ground arith

or_inl : (x y : Bool) → x ≡ true → (x || y) ≡ true
or_inl x y h = ground arith

or_inr : (x y : Bool) → y ≡ true → (x || y) ≡ true
or_inr x y h = ground arith

or_right : (x y : Bool) → x ≡ false → (x || y) ≡ true → y ≡ true
or_right x y e h = ground arith

pub halt_stands-insert :
    (pid : String) (kind : HaltKind) (r : WalletOp) (l : Ledger)
    → halt_stands pid kind l.rows ≡ true
    → halt_stands pid kind (insert r l).rows ≡ true
unfolding halt_stands insert
halt_stands-insert pid kind r l h = ground arith

module _ (pid : String) (kind : HaltKind) (op_id : ℕ) (o : Outcome) (a b : Option ℕ) (now : ℕ) where
  -- A halted row is none that the id reaches.
  close_row-halted :
      (r : WalletOp)
      → (not (r.id == op_id) || is_spent r.outcome) ≡ true
      → (is_for pid (halt kind) r && is_halted r.outcome) ≡ true
      → close_row op_id o a b now r ≡ r
  close_row-halted r free h =
      ground (
        arith,
        halted-unspent r.outcome (and_snd (is_for pid (halt kind) r) (is_halted r.outcome) h),
      )

  pub halt_stands-close_rows :
      (rows : List WalletOp)
      → spent_id op_id rows ≡ true
      → halt_stands pid kind rows ≡ true
      → halt_stands pid kind (close_rows op_id o a b now rows) ≡ true
  unfolding halt_stands close_rows
  halt_stands-close_rows [] free h = h
  halt_stands-close_rows (r ∷ rs) free h =
      elim (Bool-cases (is_for pid (halt kind) r && is_halted r.outcome)) [
        | inl e ↦ rw (close_row-halted r (and_fst _ _ free) e) (or_inl _ _ e)
        | inr e ↦ or_inr _ _ (halt_stands-close_rows rs (and_snd _ _ free) (or_right _ _ e h))
      ]
