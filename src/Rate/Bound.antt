-- ===== src/Rate/Bound.antt =====
-- How many calls the buckets admit.
use unhardcoded.Prelude.{
  ℕ, ◌+◌, ◌-◌, ◌*◌, ◌≤◌, ◌≡◌, refl, String, true, false, Option, none, some, List, [], ◌∷◌, arith,
  if◌then◌else◌, str_eq, eq_iff, max, Bool-cases, inl, inr, sym, subst, ap,
}
use unhardcoded.Budget.{Db, commits, rolls_back, commits_unheard}
use unhardcoded.Rate.{
  Bucket, Draw, Drawn, token_parts, rate_of, full_bucket, bucket_of, put_bucket, refilled, draw,
  draw_rows, consume_rate_token,
}

-- What a call admits, to a caller of that name.
abbrev pub admits : String → Draw → Drawn → ℕ
admits who d r = if str_eq d.consumer who then (if r.allowed then 1 else 0) else 0

-- The row of a name, if it has one.
unfoldable pub row : String → List Bucket → Option Bucket
row who [] = none
row who (b ∷ bs) = let rest = row who bs in if str_eq b.consumer who then some b else rest

-- By how much the clock of a row moved forward.
abbrev pub forward : Option Bucket → Option Bucket → ℕ
forward (some b) (some c) = c.updated_at - b.updated_at
forward _ _ = 0

-- Calls of any callers, with the number admitted to `who` and the sum of the forward moves of its
-- row's clock. Its calls name at most `rate` a minute and a burst of at most `burst`.
pub data Calls (who : String) (rate burst : ℕ) : ℕ → ℕ → List Bucket → Type 0 where
  quiet : Calls who rate burst 0 0 []
  then_calls :
      {n t : ℕ} {bs : List Bucket}
      → Calls who rate burst n t bs
      → (db : Db) (d : Draw)
      → (str_eq d.consumer who ≡ true → (rate_of d ≤ rate) × (max 1 d.burst ≤ burst))
      → Calls who rate burst
          (n + admits who d (consume_rate_token db d bs).0)
          (t + forward (row who bs) (row who (consume_rate_token db d bs).1))
          (consume_rate_token db d bs).1

row-put :
    (who : String) (b : Bucket) (bs : List Bucket)
    → row who (put_bucket b bs) ≡ (if str_eq b.consumer who then some b else row who bs)
unfolding row put_bucket
row-put who b [] = refl
row-put who b (x ∷ xs) = ground (
  arith,
  row-put who b xs,
  eq_iff x.consumer b.consumer,
  eq_iff x.consumer who,
  eq_iff b.consumer who,
)

abbrev pub or_full : Draw → Option Bucket → Bucket
or_full d none = full_bucket d
or_full d (some b) = b

bucket_of-row : (d : Draw) (bs : List Bucket) → bucket_of d bs ≡ or_full d (row d.consumer bs)
unfolding row bucket_of
bucket_of-row d [] = refl
bucket_of-row d (x ∷ xs) = ground (arith, bucket_of-row d xs)

add_mul : (a b r : ℕ) → (a + b) * r ≡ a * r + b * r
add_mul a b r = omega arith

expanded : (a x r y : ℕ) → a * r ≤ (a + x) * (r + y)
expanded a x r y = omega arith

pub mul_le : (a b r s : ℕ) → a ≤ b → r ≤ s → a * r ≤ b * s
mul_le a b r s h k =
    let e : b ≡ a + (b - a) = omega arith in
    let f : s ≡ r + (s - r) = omega arith in
    subst (λ x. a * r ≤ x * s) (sym e)
      (subst (λ y. a * r ≤ (a + (b - a)) * y) (sym f) (expanded a (b - a) r (s - r)))

module _ (rate burst : ℕ) where
  -- What has been admitted, and what the row still allows, against the burst and the refills.
  Fits : ℕ → ℕ → Option Bucket → Type 0
  Fits n t none = n ≡ 0
  Fits n t (some b) = n * token_parts + b.tokens ≤ burst * token_parts + t * rate

  refilled-le :
      (d : Draw) (n t : ℕ) (o : Option Bucket)
      → rate_of d ≤ rate
      → max 1 d.burst ≤ burst
      → Fits n t o
      → n * token_parts + refilled d (or_full d o)
        ≤ burst * token_parts + (t + forward o (some (full_bucket d))) * rate
  unfolding Fits refilled
  refilled-le d n t none r b h =
      let m = mul_le (max 1 d.burst) burst token_parts token_parts b (omega arith) in omega arith
  refilled-le d n t (some x) r b h =
      let m =
        mul_le (d.stamp - x.updated_at) (d.stamp - x.updated_at) (rate_of d) rate (omega arith) r in
      let e = add_mul t (d.stamp - x.updated_at) rate in omega arith

  draw-Fits :
      (d : Draw) (n t tokens : ℕ)
      → n * token_parts + tokens ≤ burst * token_parts + t * rate
      → Fits (n + (if (draw d tokens).0.allowed then 1 else 0)) t (some (draw d tokens).1)
  unfolding draw Fits
  draw-Fits d n t tokens h = ground arith

  Fits-later : (n t k : ℕ) (o : Option Bucket) → Fits n t o → Fits (n + 0) (t + k) o
  unfolding Fits
  Fits-later n t k none h = omega arith
  Fits-later n t k (some b) h = let e = add_mul t k rate in omega arith

  Fits-fewer : (n k t : ℕ) (b : Bucket) → Fits (n + k) t (some b) → Fits (n + 0) t (some b)
  unfolding Fits
  Fits-fewer n k t b h = let e = add_mul n k token_parts in omega arith

-- The bucket and the answer of a call on the caller's row.
abbrev pub drawn : Draw → Option Bucket → Drawn × Bucket
drawn d o = draw d (refilled d (or_full d o))

pub drawn-kept :
    (d : Draw) (o : Option Bucket)
    → ((drawn d o).1.consumer ≡ d.consumer) × ((drawn d o).1.updated_at ≡ d.stamp)
unfolding draw
drawn-kept d o = ground arith

forward-stamp :
    (o : Option Bucket) (b c : Bucket)
    → b.updated_at ≡ c.updated_at
    → forward o (some b) ≡ forward o (some c)
forward-stamp none b c e = refl
forward-stamp (some x) b c e = omega arith

drawn-Fits :
    (rate burst : ℕ) (d : Draw) (n t : ℕ) (o : Option Bucket)
    → rate_of d ≤ rate
    → max 1 d.burst ≤ burst
    → Fits rate burst n t o
    → Fits rate burst
        (n + (if (drawn d o).0.allowed then 1 else 0))
        (t + forward o (some (drawn d o).1))
        (some (drawn d o).1)
drawn-Fits rate burst d n t o r b h =
    let f =
      draw-Fits rate burst d n (t + forward o (some (full_bucket d))) (refilled d (or_full d o))
        (refilled-le rate burst d n t o r b h) in
    subst
      (λ k.
        Fits rate burst (n + (if (drawn d o).0.allowed then 1 else 0)) (t + k) (some (drawn d o).1))
      (forward-stamp o _ _ (sym (drawn-kept d o).1)) f

pub draw_rows-answer :
    (d : Draw) (bs : List Bucket) → (draw_rows d bs).0 ≡ (drawn d (row d.consumer bs)).0
unfolding draw_rows
draw_rows-answer d bs = ap (λ b. (draw d (refilled d b)).0) (bucket_of-row d bs)

pub draw_rows-row :
    (who : String) (d : Draw) (bs : List Bucket)
    → row who (draw_rows d bs).1
      ≡ (if str_eq d.consumer who then some (drawn d (row d.consumer bs)).1 else row who bs)
unfolding draw_rows
draw_rows-row who d bs =
    let k = (drawn-kept d (row d.consumer bs)).0 in
    subst
      (λ b.
        row who (put_bucket (draw d (refilled d b)).1 bs)
        ≡ (if str_eq d.consumer who then some (drawn d (row d.consumer bs)).1 else row who bs))
      (sym (bucket_of-row d bs))
      (subst
        (λ c.
          row who (put_bucket (drawn d (row d.consumer bs)).1 bs)
          ≡ (if str_eq c who then some (drawn d (row d.consumer bs)).1 else row who bs))
        k (row-put who (drawn d (row d.consumer bs)).1 bs))

module _ (rate burst : ℕ) (d : Draw) (n t : ℕ) where
  -- A call of another name leaves the row.
  other-Fits :
      (who : String) (db : Db) (bs : List Bucket)
      → str_eq d.consumer who ≡ false
      → Fits rate burst n t (row who bs)
      → let r = consume_rate_token db d bs in
        Fits rate burst
          (n + admits who d r.0)
          (t + forward (row who bs) (row who r.1))
          (row who r.1)
  unfolding consume_rate_token
  other-Fits who commits bs other h =
      let p = draw_rows-row who d bs in
      let e = rw other at p in simp (other, e) (Fits-later rate burst n t _ (row who bs) h)
  other-Fits who rolls_back bs other h = simp other (Fits-later rate burst n t _ (row who bs) h)
  other-Fits who commits_unheard bs other h =
      let p = draw_rows-row who d bs in
      let e = rw other at p in simp (other, e) (Fits-later rate burst n t _ (row who bs) h)

  own-Fits :
      (db : Db) (bs : List Bucket)
      → rate_of d ≤ rate
      → max 1 d.burst ≤ burst
      → Fits rate burst n t (row d.consumer bs)
      → let r = consume_rate_token db d bs in
        Fits rate burst
          (n + admits d.consumer d r.0)
          (t + forward (row d.consumer bs) (row d.consumer r.1))
          (row d.consumer r.1)
  unfolding consume_rate_token
  own-Fits commits bs le fits h =
      let s = (eq_iff d.consumer d.consumer).1 refl in
      let p = draw_rows-row d.consumer d bs in
      let e = rw s at p in
      let f = drawn-Fits rate burst d n t (row d.consumer bs) le fits h in
      simp (s, e, draw_rows-answer d bs) f
  own-Fits rolls_back bs le fits h =
      let s = (eq_iff d.consumer d.consumer).1 refl in
      simp s (Fits-later rate burst n t _ (row d.consumer bs) h)
  own-Fits commits_unheard bs le fits h =
      let s = (eq_iff d.consumer d.consumer).1 refl in
      let p = draw_rows-row d.consumer d bs in
      let e = rw s at p in
      let f = drawn-Fits rate burst d n t (row d.consumer bs) le fits h in
      simp (s, e) (Fits-fewer rate burst n _ _ _ f)

Calls-Fits :
    (who : String) (rate burst n t : ℕ) (bs : List Bucket)
    → Calls who rate burst n t bs
    → Fits rate burst n t (row who bs)
unfolding Fits row
Calls-Fits who rate burst _ _ _ quiet = refl
Calls-Fits who rate burst _ _ _ (then_calls {n} {t} {bs} calls db d le) =
    let h = Calls-Fits who rate burst n t bs calls in
    elim (Bool-cases (str_eq d.consumer who)) [
      | inl own ↦
          let (slow, small) = le own in
          let same = (eq_iff d.consumer who).0 own in
          (subst
              (λ name.
                Fits rate burst n t (row name bs)
                → let r = consume_rate_token db d bs in
                  Fits rate burst (n + admits name d r.0) (t + forward (row name bs) (row name r.1))
                    (row name r.1))
              same (own-Fits rate burst d n t db bs slow small))
            h
      | inr other ↦ other-Fits rate burst d n t who db bs other h
    ]

Fits-le :
    (rate burst n t : ℕ) (o : Option Bucket)
    → Fits rate burst n t o
    → n * token_parts ≤ burst * token_parts + t * rate
unfolding Fits
Fits-le rate burst n t none h = simp h (omega arith)
Fits-le rate burst n t (some b) h = omega arith

-- In every sequence of calls of any callers from an empty table, of which any may fail or commit
-- unheard, and whatever their clocks say, the calls admitted to a consumer are at most the burst and
-- one for each minute-share of the rate: 60000 times their number is at most 60000 times the burst
-- plus the rate times the sum, in milliseconds, of the forward moves of its row's clock. The rate
-- and the burst are at least those that the calls of the consumer name.
pub Calls-bound :
    (who : String) (rate burst n t : ℕ) (bs : List Bucket)
    → Calls who rate burst n t bs
    → n * token_parts ≤ burst * token_parts + t * rate
Calls-bound who rate burst n t bs calls =
    Fits-le rate burst n t (row who bs) (Calls-Fits who rate burst n t bs calls)
