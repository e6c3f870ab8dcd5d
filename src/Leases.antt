-- ===== src/Leases.antt =====
-- The concurrency slots of marketplace peers in host_store.py: `try_acquire_peer_lease`,
-- `renew_peer_lease` and `release_peer_lease` on the table peer_concurrency_leases. An advisory lock on
-- the peer makes an acquisition one step. Names come stripped and in lower case, as the numbers of their
-- characters; times are milliseconds of the database's clock.
pub mod Bound
use unhardcoded.Prelude.{
  ℕ, ◌+◌, Bool, true, false, ◌&&◌, ◌||◌, not, Option, none, some, List, [], ◌∷◌, if◌then◌else◌, leb,
  ◌==◌, length, all, keep, any, min, max,
}
use unhardcoded.Budget.{Db, transact}
use unhardcoded.Proxy.Path.{same_text}

pub record Lease : Type 0 where
  pub lease_id : List ℕ
  pub peer_id : List ℕ
  pub expires_at : ℕ

-- The arguments that `_peer_lease_args` returns.
pub record LeaseArgs : Type 0 where
  pub peer : List ℕ
  pub lease : List ℕ
  pub ttl : ℕ

-- `[a-f0-9]`
abbrev pub is_hex_digit : ℕ → Bool
is_hex_digit c = (leb 48 c && leb c 57) || (leb 97 c && leb c 102)

-- `not peer or len(peer) > 200`, and the lease's pattern.
abbrev pub is_peer : List ℕ → Bool
is_peer p = not (length p == 0) && leb (length p) 200

abbrev pub is_lease : List ℕ → Bool
is_lease l = length l == 32 && all is_hex_digit l

-- `_peer_lease_args`: none where it raises.
unfoldable pub peer_lease_args : List ℕ → List ℕ → ℕ → Option LeaseArgs
peer_lease_args peer lease ttl =
    if is_peer peer && is_lease lease
    then some (record { peer = peer; lease = lease; ttl = max 5000 (min 3_600_000 ttl) })
    else none

abbrev pub is_of_peer : List ℕ → Lease → Bool
is_of_peer peer l = same_text l.peer_id peer

-- `DELETE … WHERE peer_id=… AND expires_at <= now`
abbrev pub stays : List ℕ → ℕ → Lease → Bool
stays peer now l = not (is_of_peer peer l && leb l.expires_at now)

-- `SELECT COUNT(*) … WHERE peer_id=…`
unfoldable pub used_by : List ℕ → List Lease → ℕ
used_by peer [] = 0
used_by peer (l ∷ ls) = (if is_of_peer peer l then 1 else 0) + used_by peer ls

-- The row is there; the id is the primary key, so another `INSERT` of it fails.
abbrev pub has_lease : List ℕ → List Lease → Bool
has_lease lease ls = any (λ l. same_text l.lease_id lease) ls

-- `(acquired, store_ok)`
pub record Acquired : Type 0 where
  pub acquired : Bool
  pub store_ok : Bool

abbrev pub acquire_failed : Acquired
acquire_failed = record { acquired = false; store_ok = false }

-- The transaction of an acquisition: `now` and `later` are its two readings of the clock.
unfoldable pub acquire_row : LeaseArgs → ℕ → ℕ → ℕ → List Lease → Acquired × List Lease
acquire_row a capacity now later ls =
    let left = keep (stays a.peer now) ls in
    if leb capacity (used_by a.peer left)
    then (record { acquired = false; store_ok = true }, left)
    else if has_lease a.lease left
    then (acquire_failed, ls)
    else (
      record { acquired = true; store_ok = true },
      record { lease_id = a.lease; peer_id = a.peer; expires_at = later + a.ttl } ∷ left,
    )

abbrev pub capacity_from : ℕ → ℕ
capacity_from cap = max 1 (min 1000 cap)

unfoldable pub acquire_with : Db → Option LeaseArgs → ℕ → ℕ → ℕ → List Lease → Acquired × List Lease
acquire_with db none cap now later ls = (acquire_failed, ls)
acquire_with db (some a) cap now later ls =
    transact db acquire_failed (acquire_row a (capacity_from cap) now later ls) ls

-- The call of `try_acquire_peer_lease`.
pub record Acquire : Type 0 where
  pub peer_id : List ℕ
  pub lease_id : List ℕ
  pub cap : ℕ
  pub ttl : ℕ
  pub now : ℕ
  pub later : ℕ

unfoldable pub try_acquire_peer_lease : Db → Acquire → List Lease → Acquired × List Lease
try_acquire_peer_lease db c ls =
    acquire_with db (peer_lease_args c.peer_id c.lease_id c.ttl) c.cap c.now c.later ls

-- `UPDATE … RETURNING lease_id`: whether a row was found, and the rows.
abbrev pub names : LeaseArgs → Lease → Bool
names a l = is_of_peer a.peer l && same_text l.lease_id a.lease

unfoldable pub extend : LeaseArgs → ℕ → List Lease → List Lease
extend a now [] = []
extend a now (l ∷ ls) =
    (if names a l then record l { expires_at = now + a.ttl } else l) ∷ extend a now ls

unfoldable pub renew_with : Db → Option LeaseArgs → ℕ → List Lease → Bool × List Lease
renew_with db none now ls = (false, ls)
renew_with db (some a) now ls = transact db false (any (names a) ls, extend a now ls) ls

unfoldable pub renew_peer_lease : Db → List ℕ → List ℕ → ℕ → ℕ → List Lease → Bool × List Lease
renew_peer_lease db peer lease ttl now ls = renew_with db (peer_lease_args peer lease ttl) now ls

-- `release_peer_lease`, whose ttl is the default.
unfoldable pub release_with : Db → Option LeaseArgs → List Lease → Bool × List Lease
release_with db none ls = (false, ls)
release_with db (some a) ls = transact db false (true, keep (λ l. not (names a l)) ls) ls

unfoldable pub release_peer_lease : Db → List ℕ → List ℕ → List Lease → Bool × List Lease
release_peer_lease db peer lease ls = release_with db (peer_lease_args peer lease 120_000) ls
