-- ===== src/Keeper/Reclaim/Batch.antt =====
-- Which channels a reclaim phase acts on: `_worth_it`, `_ids`, CHANNEL_ID_RE and the sort of
-- `_maybe_reclaim`.
use unhardcoded.Prelude.{
  ℕ, zero, suc, Bool, true, false, ◌&&◌, ◌||◌, not, none, some, List, [], ◌∷◌, map, if◌then◌else◌,
  leb, ◌==◌, all, any, keep,
}
use unhardcoded.Exec.{Channel}

-- MIN_CHANNEL_RECLAIMABLE, MAX_TX_PER_CYCLE
abbrev pub min_channel_reclaimable : ℕ
min_channel_reclaimable = 50_000

abbrev pub max_tx_per_cycle : ℕ
max_tx_per_cycle = 8

-- `as_float(c.get("reclaimable")) or 0.0`
abbrev pub reclaimable_of : Channel → ℕ
reclaimable_of c = elim c.reclaimable [ none ↦ 0 | some a ↦ a ]

unfoldable pub is_worth_it : Channel → Bool
is_worth_it c = leb min_channel_reclaimable (reclaimable_of c)

-- [A-Za-z0-9]
abbrev is_alnum : ℕ → Bool
is_alnum c = leb b'A' c && leb c b'Z' || leb b'a' c && leb c b'z' || leb b'0' c && leb c b'9'

-- [A-Za-z0-9_.:-]
abbrev is_id_char : ℕ → Bool
is_id_char c = is_alnum c || c == b'_' || c == b'.' || c == b':' || c == b'-'

-- What `$` of Python matches before: the end, or a line feed at the end.
abbrev at_end : List ℕ → Bool
at_end [] = true
at_end (c ∷ []) = c == 10
at_end _ = false

-- [A-Za-z0-9_.:-]{0,room}$
unfoldable pub id_rest : ℕ → List ℕ → Bool
id_rest zero cs = at_end cs
id_rest (suc room) [] = true
id_rest (suc room) (c ∷ cs) = let rest = id_rest room cs in is_id_char c && rest || at_end (c ∷ cs)

-- CHANNEL_ID_RE.match
unfoldable pub matches_channel_id : List ℕ → Bool
unfolding id_rest
matches_channel_id [] = false
matches_channel_id (c ∷ cs) = is_alnum c && id_rest 127 cs

-- `sorted(batch, key=lambda c: -reclaimable)`, which keeps the order of equal keys.
unfoldable pub insert_channel : Channel → List Channel → List Channel
insert_channel c [] = c ∷ []
insert_channel c (d ∷ ds) =
    let rest = insert_channel c ds in
    if leb (reclaimable_of d) (reclaimable_of c) then c ∷ d ∷ ds else d ∷ rest

unfoldable pub sort_channels : List Channel → List Channel
unfolding insert_channel
sort_channels [] = []
sort_channels (c ∷ cs) = insert_channel c (sort_channels cs)

-- `_ids`
unfoldable pub ids_of : List Channel → List (List ℕ)
unfolding matches_channel_id
ids_of batch = map (λ c. c.id) (keep (λ c. matches_channel_id c.id) batch)

-- `withdrawable` and `closable`
unfoldable pub eligible : Bool → List Channel → List Channel
unfolding is_worth_it
eligible close_requested channels =
    keep
      (λ c. (if close_requested then c.close_requested else not c.close_requested) && is_worth_it c)
      channels

-- Equality of ids, and of the sets of two lists of ids.
unfoldable pub same_id : List ℕ → List ℕ → Bool
same_id [] [] = true
same_id (a ∷ rest_a) (b ∷ rest_b) = a == b && same_id rest_a rest_b
same_id _ _ = false

unfoldable pub same_ids : List (List ℕ) → List (List ℕ) → Bool
unfolding same_id
same_ids xs ys = all (λ x. any (same_id x) ys) xs && all (λ y. any (same_id y) xs) ys
