-- ===== src/Rate.antt =====
-- The token buckets of host_store.py: `consume_rate_token` on the table consumer_rate_buckets. The
-- row is locked for one transaction, so a call is one step. Times are milliseconds. A token is
-- 60000 parts, so that a rate per minute refills whole parts in a millisecond.
pub mod Bound
use unhardcoded.Prelude.{
  ℕ, ◌+◌, ◌-◌, ◌*◌, String, Bool, true, false, List, [], ◌∷◌, if◌then◌else◌, leb, str_eq, min, max,
}
use unhardcoded.Budget.{Db, transact}

pub record Bucket : Type 0 where
  pub consumer : String
  pub tokens : ℕ
  pub updated_at : ℕ

-- One token.
abbrev pub token_parts : ℕ
token_parts = 60_000

-- The arguments of a call, and its `now`.
pub record Draw : Type 0 where
  pub consumer : String
  pub rate_per_min : ℕ
  pub burst : ℕ
  pub stamp : ℕ

abbrev pub rate_of : Draw → ℕ
rate_of d = max 1 d.rate_per_min

abbrev pub capacity_of : Draw → ℕ
capacity_of d = max 1 d.burst * token_parts

abbrev pub full_bucket : Draw → Bucket
full_bucket d = record { consumer = d.consumer; tokens = capacity_of d; updated_at = d.stamp }

-- `INSERT … ON CONFLICT DO NOTHING`, and the row under the lock.
unfoldable pub bucket_of : Draw → List Bucket → Bucket
bucket_of d [] = full_bucket d
bucket_of d (b ∷ bs) = let rest = bucket_of d bs in if str_eq b.consumer d.consumer then b else rest

unfoldable pub put_bucket : Bucket → List Bucket → List Bucket
put_bucket b [] = b ∷ []
put_bucket b (x ∷ xs) =
    let rest = put_bucket b xs in if str_eq x.consumer b.consumer then b ∷ xs else x ∷ rest

-- The tokens after the refill.
unfoldable pub refilled : Draw → Bucket → ℕ
refilled d b = min (capacity_of d) (b.tokens + (d.stamp - b.updated_at) * rate_of d)

-- A wait of `parts / rate` milliseconds, which need not be whole.
pub record Wait : Type 0 where
  pub parts : ℕ
  pub rate : ℕ

-- `(allowed, store_ok, retry_after_s)`
pub record Drawn : Type 0 where
  pub allowed : Bool
  pub store_ok : Bool
  pub retry_after : Wait

abbrev pub no_wait : Wait
no_wait = record { parts = 0; rate = 1 }

abbrev pub draw_failed : Drawn
draw_failed = record { allowed = false; store_ok = false; retry_after = no_wait }

-- `max(0.01, (1.0 - tokens) / refill_per_s)`
unfoldable pub retry_after_of : Draw → ℕ → Wait
retry_after_of d tokens =
    if leb (10 * rate_of d) (token_parts - tokens)
    then record { parts = token_parts - tokens; rate = rate_of d }
    else record { parts = 10; rate = 1 }

-- The bucket and the answer of a call with `tokens` after the refill.
unfoldable pub draw : Draw → ℕ → Drawn × Bucket
draw d tokens =
    if leb token_parts tokens
    then (
      record { allowed = true; store_ok = true; retry_after = no_wait },
      record { consumer = d.consumer; tokens = tokens - token_parts; updated_at = d.stamp },
    )
    else (
      record { allowed = false; store_ok = true; retry_after = retry_after_of d tokens },
      record { consumer = d.consumer; tokens = tokens; updated_at = d.stamp },
    )

-- The transaction.
unfoldable pub draw_rows : Draw → List Bucket → Drawn × List Bucket
draw_rows d bs = let (answer, b) = draw d (refilled d (bucket_of d bs)) in (answer, put_bucket b bs)

unfoldable pub consume_rate_token : Db → Draw → List Bucket → Drawn × List Bucket
consume_rate_token db d bs = transact db draw_failed (draw_rows d bs) bs
