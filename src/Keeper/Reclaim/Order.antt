-- ===== src/Keeper/Reclaim/Order.antt =====
-- Which channels of a batch `_maybe_reclaim` acts on, and in which order.
use unhardcoded.Prelude.{
  ℕ, zero, suc, ◌++◌, ◌≤◌, ◌≡◌, map, min, some, Option, String, Bool, List, [], ◌∷◌, length, keep,
  All,
}
use unhardcoded.Ledger.{Op}
use unhardcoded.Exec.{Channel, M}
use unhardcoded.Store.{Environment}
use unhardcoded.Keeper.{Decision}
use unhardcoded.Keeper.Reclaim.{fire_batch, fire_reclaim_phase}
use unhardcoded.Keeper.Reclaim.Batch.{reclaimable_of, sort_channels}

-- Every channel holds at least what each later one holds.
abbrev pub IsDescending : List Channel → Type 0
IsDescending [] = Unit
IsDescending (c ∷ cs) = All (λ d. reclaimable_of d ≤ reclaimable_of c) cs × IsDescending cs

module _ {ℓ} {A : Type ℓ} where
  -- What `take` leaves.
  abbrev beyond : ℕ → List A → List A
  beyond zero xs = xs
  beyond (suc n) [] = []
  beyond (suc n) (x ∷ xs) = beyond n xs

module _ (env : Environment) (pid : String) (available : ℕ) (reserved : Option ℕ) (phase : String)
    (op : Op) (batch : List Channel) where
  abbrev fired_with : List Channel → M Decision
  fired_with chosen =
      fire_reclaim_phase env pid phase op available reserved (some (map (λ c. c.id) chosen))

  -- The phase acts on the most valuable channels, at most eight, in falling order, and on no others.
  pub record TakesBest : Type 0 where
    pub chosen : List Channel
    pub left : List Channel
    pub fired : fire_batch env pid available reserved phase op batch ≡ fired_with chosen
    pub size : length chosen ≡ min 8 (length batch)
    pub falling : IsDescending (chosen ++ left)
    pub complete : (p : Channel → Bool) → length (keep p (chosen ++ left)) ≡ length (keep p batch)

  abbrev sorted_batch : List Channel
  sorted_batch = sort_channels batch
