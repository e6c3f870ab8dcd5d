-- ===== src/Tests/Leases.antt =====
-- A peer of one slot.
use unhardcoded.Prelude.{ℕ, zero, suc, ◌≤◌, ◌≡◌, refl, true, false, [], ◌∷◌, List, arith}
use unhardcoded.Budget.{commits}
use unhardcoded.Leases.{
  Lease, peer_lease_args, used_by, acquire_row, acquire_with, Acquire, try_acquire_peer_lease,
}
use unhardcoded.Leases.Bound.{acquires, unused, then_moves, Moves-Within}

abbrev repeat : ℕ → ℕ → List ℕ
repeat zero c = []
repeat (suc n) c = c ∷ repeat n c

abbrev ask : ℕ → ℕ → Acquire
ask digit t = record {
  peer_id = 112 ∷ [];
  lease_id = repeat 32 digit;
  cap = 1;
  ttl = 5000;
  now = t;
  later = t;
}

abbrev first : List Lease
first = (try_acquire_peer_lease commits (ask 97 0) []).1

abbrev second : List Lease
second = (try_acquire_peer_lease commits (ask 98 10) first).1

-- The slot is taken, and free again when its lease has expired.
refused : (try_acquire_peer_lease commits (ask 98 10) first).0.acquired ≡ false
unfolding try_acquire_peer_lease peer_lease_args acquire_with acquire_row used_by
refused = refl

reclaimed : (try_acquire_peer_lease commits (ask 98 5000) first).0.acquired ≡ true
unfolding try_acquire_peer_lease peer_lease_args acquire_with acquire_row used_by
reclaimed = refl

Moves-Within_example : used_by (112 ∷ []) second ≤ 1
Moves-Within_example = Moves-Within (112 ∷ []) 1 second (
    then_moves (then_moves unused (acquires commits (ask 97 0) [] (λ e. omega arith)))
      (acquires commits (ask 98 10) first (λ e. omega arith)))
