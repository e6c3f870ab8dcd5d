-- ===== src/Keeper/Sound/Writes.antt =====
-- The store calls of the keeper keep its safety invariant.
use unhardcoded.Prelude.{
  ℕ, ◌+◌, ◌≡◌, refl, Bool, true, false, String, Option, arith, Bool-cases, inl, inr, if◌then◌else◌,
}
use unhardcoded.Ledger.{
  HaltKind, halt, topup, Outcome, is_spent, same_op, WalletOp, insert, halt_stands,
}
use unhardcoded.Ledger.Ids.{spent_id}
use unhardcoded.Ledger.Sums.{share, share-out}
use unhardcoded.Exec.{Core, M, seconds, ◌>>=◌}
use unhardcoded.Exec.Ends.{Ends, Ends-bind, Ends-read, Ends-store_call}
use unhardcoded.Store.{wallet_op_finish, wallet_halt, halt_row}
use unhardcoded.Keeper.Topup.{day_s}
use unhardcoded.Keeper.Sound.{Limit, IsSound, is_of, insert-IsSound, close-IsSound}

module _ (p : String) (limit : Limit) where
  abbrev pub Sound : Core → Type 0
  Sound c = IsSound p limit c.ledger c.sent

  -- `m` leaves a sound core, however it ends.
  abbrev pub Safe {ℓ} : {A : Type ℓ} → M A → Core → Type 0
  Safe m c = Ends m c (λ _ c'. Sound c')

  pub Safe-bind {ℓ κ} :
      {A : Type ℓ} {B : Type κ} (m : M A) (k : A → M B) {c : Core}
      → Safe m c
      → ((a : A) (c' : Core) → Sound c' → Safe (k a) c')
      → Safe (m >>= k) c
  Safe-bind m k s h = Ends-bind (λ _ c'. Sound c') (λ _ c'. Sound c') m k s h (λ _ _ i. i)

  -- After a part that leaves the core as it is.
  pub Safe-read {ℓ κ} :
      {A : Type ℓ} {B : Type κ} (m : M A) (k : A → M B) {c : Core}
      → Ends m c (λ _ c'. c' ≡ c)
      → ((a : A) → Safe (k a) c)
      → Sound c
      → Safe (m >>= k) c
  Safe-read m k r h s = Ends-read (λ _ c'. Sound c') m k r h (λ _. s)

  -- A row that is no top-up has no share.
  pub share-other :
      (who : String → Bool) (lo hi : ℕ) (r : WalletOp)
      → same_op r.op topup ≡ false
      → share who lo hi r ≡ 0
  share-other who lo hi r h = share-out who lo hi r (ground arith)

  halt-other : (kind : HaltKind) → same_op (halt kind) topup ≡ false
  unfolding same_op
  halt-other HaltKind.topup_kind = refl
  halt-other HaltKind.reclaim_kind = refl

  halt_insert-Sound :
      (pid : String) (kind : HaltKind) (c : Core)
      → Sound c
      → IsSound p limit
          (if halt_stands pid kind c.ledger.rows
            then c.ledger
            else insert (halt_row pid kind (seconds c)) c.ledger)
          c.sent
  halt_insert-Sound pid kind c s = elim (Bool-cases (halt_stands pid kind c.ledger.rows)) [
    | inl e ↦ rw e s
    | inr e ↦ rw e (
        insert-IsSound p limit c.ledger c.sent (halt_row pid kind (seconds c))
          (λ lo. omega (
            arith,
            s.capped lo,
            share-other (is_of p) lo (lo + day_s) (halt_row pid kind (seconds c)) (halt-other kind),
          ))
          s)
  ]

  pub wallet_halt-Safe :
      (pid : String) (kind : HaltKind) (c : Core) → Sound c → Safe (wallet_halt pid kind) c
  unfolding wallet_halt
  wallet_halt-Safe pid kind c s = Ends-store_call _ _ (halt_insert-Sound pid kind c s) s s

  -- A row of a spent id is closed as spent.
  pub wallet_op_finish-Safe :
      (op_id : ℕ) (o : Outcome) (a b : Option ℕ) (c : Core)
      → spent_id op_id c.ledger.rows ≡ true
      → is_spent o ≡ true
      → Sound c
      → Safe (wallet_op_finish op_id o a b) c
  unfolding wallet_op_finish
  wallet_op_finish-Safe op_id o a b c h k s =
      Ends-store_call _ _ (close-IsSound p limit c.ledger c.sent op_id o a b (seconds c) h k s) s s
