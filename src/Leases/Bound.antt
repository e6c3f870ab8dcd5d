-- ===== src/Leases/Bound.antt =====
-- How many leases a peer has.
use unhardcoded.Prelude.{
  ℕ, ◌≤◌, ◌≡◌, refl, Bool, true, false, ◌&&◌, not, Option, none, some, List, [], ◌∷◌, leb, leb→lt,
  keep, any, arith, Bool-cases, inl, inr, sym, ap, subst,
}
use unhardcoded.Budget.{Db, commits, rolls_back, commits_unheard, transact}
use unhardcoded.Proxy.Path.{same_text}
use unhardcoded.Proxy.Routes.Wildcards.{same_text_iff}
use unhardcoded.Leases.{
  is_peer, is_lease, Lease, LeaseArgs, peer_lease_args, stays, used_by, has_lease, acquire_failed,
  acquire_row, capacity_from, acquire_with, Acquire, try_acquire_peer_lease, names, extend,
  renew_with, renew_peer_lease, release_with, release_peer_lease,
}

module _ (peer : List ℕ) where
  used_by-keep : (p : Lease → Bool) (ls : List Lease) → used_by peer (keep p ls) ≤ used_by peer ls
  unfolding used_by
  used_by-keep p [] = omega arith
  used_by-keep p (l ∷ ls) =
      let ih = used_by-keep p ls in
      elim (Bool-cases (p l)) [ inl e ↦ simp e (omega arith) | inr e ↦ simp e (omega arith) ]

  used_by-extend :
      (a : LeaseArgs) (now : ℕ) (ls : List Lease) → used_by peer (extend a now ls) ≡ used_by peer ls
  unfolding used_by extend
  used_by-extend a now [] = refl
  used_by-extend a now (l ∷ ls) =
      let ih = used_by-extend a now ls in
      elim (Bool-cases (names a l)) [ inl e ↦ simp e (omega arith) | inr e ↦ simp e (omega arith) ]

  module _ (limit : ℕ) where
    transact-Within :
        {A : Type 0} (db : Db) (failed : A) (r : A × List Lease) (ls : List Lease)
        → used_by peer ls ≤ limit
        → used_by peer r.1 ≤ limit
        → used_by peer (transact db failed r ls).1 ≤ limit
    transact-Within commits failed r ls old new = new
    transact-Within rolls_back failed r ls old new = old
    transact-Within commits_unheard failed r ls old new = new

    acquire_row-Within :
        (a : LeaseArgs) (capacity now later : ℕ) (ls : List Lease)
        → (same_text a.peer peer ≡ true → capacity ≤ limit)
        → used_by peer ls ≤ limit
        → used_by peer (acquire_row a capacity now later ls).1 ≤ limit
    unfolding acquire_row used_by
    acquire_row-Within a capacity now later ls le h =
        let fewer = used_by-keep (stays a.peer now) ls in
        elim (Bool-cases (leb capacity (used_by a.peer (keep (stays a.peer now) ls)))) [
          | inl full ↦ simp full (omega arith)
          | inr room ↦ elim (Bool-cases (has_lease a.lease (keep (stays a.peer now) ls))) [
            | inl taken ↦ simp (room, taken) h
            | inr free ↦ elim (Bool-cases (same_text a.peer peer)) [
              | inl own ↦
                  let small = le own in
                  let same =
                    ap (λ p. used_by p (keep (stays a.peer now) ls))
                      ((same_text_iff a.peer peer).0 own) in
                  let below = leb→lt _ _ room in simp (room, free, own) (omega arith)
              | inr other ↦ simp (room, free, other) (omega arith)
            ]
          ]
        ]

-- The calls of the table. An acquisition of the peer names a cap that `limit` bounds.
pub data Move (peer : List ℕ) (limit : ℕ) : List Lease → List Lease → Type 0 where
  acquires :
      (db : Db) (c : Acquire) (ls : List Lease)
      → (same_text c.peer_id peer ≡ true → capacity_from c.cap ≤ limit)
      → Move peer limit ls (try_acquire_peer_lease db c ls).1
  renews :
      (db : Db) (p l : List ℕ) (ttl now : ℕ) (ls : List Lease)
      → Move peer limit ls (renew_peer_lease db p l ttl now ls).1
  releases :
      (db : Db) (p l : List ℕ) (ls : List Lease)
      → Move peer limit ls (release_peer_lease db p l ls).1

pub data Moves (peer : List ℕ) (limit : ℕ) : List Lease → Type 0 where
  unused : Moves peer limit []
  then_moves :
      {ls ms : List Lease} → Moves peer limit ls → Move peer limit ls ms → Moves peer limit ms

module _ (peer : List ℕ) (limit : ℕ) where
  args-peer :
      (p l : List ℕ) (ttl : ℕ) (a : LeaseArgs) → peer_lease_args p l ttl ≡ some a → a.peer ≡ p
  unfolding peer_lease_args
  args-peer p l ttl a e = elim (Bool-cases (is_peer p && is_lease l)) [
    | inl on ↦ let g = rw on at e in ap (λ o. elim o [ none ↦ p | some b ↦ b.peer ]) (sym g)
    | inr off ↦ let g = rw off at e in absurd cc
  ]

  acquire-Within :
      (db : Db) (o : Option LeaseArgs) (cap now later : ℕ) (ls : List Lease)
      → ((a : LeaseArgs) → o ≡ some a → same_text a.peer peer ≡ true → capacity_from cap ≤ limit)
      → used_by peer ls ≤ limit
      → used_by peer (acquire_with db o cap now later ls).1 ≤ limit
  unfolding acquire_with
  acquire-Within db none cap now later ls le h = h
  acquire-Within db (some a) cap now later ls le h =
      transact-Within peer limit db acquire_failed (acquire_row a (capacity_from cap) now later ls)
        ls h (acquire_row-Within peer limit a (capacity_from cap) now later ls (le a refl) h)

  renew-Within :
      (db : Db) (o : Option LeaseArgs) (now : ℕ) (ls : List Lease)
      → used_by peer ls ≤ limit
      → used_by peer (renew_with db o now ls).1 ≤ limit
  unfolding renew_with
  renew-Within db none now ls h = h
  renew-Within db (some a) now ls h =
      let same = used_by-extend peer a now ls in
      transact-Within peer limit db false (any (names a) ls, extend a now ls) ls h (omega arith)

  release-Within :
      (db : Db) (o : Option LeaseArgs) (ls : List Lease)
      → used_by peer ls ≤ limit
      → used_by peer (release_with db o ls).1 ≤ limit
  unfolding release_with
  release-Within db none ls h = h
  release-Within db (some a) ls h =
      let fewer = used_by-keep peer (λ l. not (names a l)) ls in
      transact-Within peer limit db false (true, keep (λ l. not (names a l)) ls) ls h (omega arith)

Move-Within :
    (peer : List ℕ) (limit : ℕ) {ls ms : List Lease}
    → Move peer limit ls ms
    → used_by peer ls ≤ limit
    → used_by peer ms ≤ limit
unfolding try_acquire_peer_lease renew_peer_lease release_peer_lease
Move-Within peer limit (acquires db c ls le) h =
    acquire-Within peer limit db (peer_lease_args c.peer_id c.lease_id c.ttl) c.cap c.now c.later ls
      (λ a e own. le (
        subst (λ p. same_text p peer ≡ true) (args-peer peer limit c.peer_id c.lease_id c.ttl a e)
          own))
      h
Move-Within peer limit (renews db p l ttl now ls) h =
    renew-Within peer limit db (peer_lease_args p l ttl) now ls h
Move-Within peer limit (releases db p l ls) h =
    release-Within peer limit db (peer_lease_args p l 120_000) ls h

-- In every sequence of acquisitions, renewals and releases by any replicas for any peers, which may
-- fail or commit unheard, at whatever readings of the clock, a peer holds at most as many leases as
-- the highest cap, clamped to 1..1000, that an acquisition of the peer named.
pub Moves-Within :
    (peer : List ℕ) (limit : ℕ) (ls : List Lease) → Moves peer limit ls → used_by peer ls ≤ limit
unfolding used_by
Moves-Within peer limit _ unused = omega arith
Moves-Within peer limit _ (then_moves {ls} {ms} r s) =
    Move-Within peer limit s (Moves-Within peer limit ls r)
