-- ===== src/Flow.antt =====
-- The order of a flow's nodes: `topo_order` of flow_runner.py.
pub mod Counts
pub mod Steps
pub mod Order
use unhardcoded.Prelude.{
  ℕ, ◌-◌, zero, suc, String, Bool, true, ◌&&◌, Option, none, some, List, [], ◌∷◌, ◌++◌,
  if◌then◌else◌, ◌==◌, str_eq, length, all, any,
}
use text.Mathlib.Text.{is_le}
use Prim.Native.String.{compare}

-- A node, with its key in the dict of nodes.
pub record Node : Type 0 where
  pub id : String
  pub inputs : List String

-- `sorted`
unfoldable pub insert_id : String → List String → List String
insert_id x [] = x ∷ []
insert_id x (y ∷ ys) =
    let rest = insert_id x ys in if is_le (compare x y) then x ∷ (y ∷ ys) else y ∷ rest

unfoldable pub sort_ids : List String → List String
sort_ids [] = []
sort_ids (x ∷ xs) = insert_id x (sort_ids xs)

-- `indeg`, as a function of the id.
abbrev pub Degrees : Type 0
Degrees = String → ℕ

unfoldable pub inputs_of : List Node → String → List String
inputs_of [] x = []
inputs_of (n ∷ ns) x = let rest = inputs_of ns x in if str_eq n.id x then n.inputs else rest

unfoldable pub degrees : List Node → Degrees
degrees ns x = length (inputs_of ns x)

-- `succ[nid]`: each node, once for each of its inputs that is `nid`.
unfoldable pub copies : String → String → List String → List String
copies nid b [] = []
copies nid b (pre ∷ ins) = let rest = copies nid b ins in if str_eq pre nid then b ∷ rest else rest

unfoldable pub successors : List Node → String → List String
successors [] nid = []
successors (n ∷ ns) nid = copies nid n.id n.inputs ++ successors ns nid

-- `indeg[b] -= 1` for each of the list, with `newly`. A degree of 0 stays 0 where Python's falls
-- below it; neither becomes 0 again.
abbrev pub lower : String → Degrees → Degrees
lower b deg x = if str_eq b x then deg x - 1 else deg x

unfoldable pub relax : List String → Degrees → List String × Degrees
relax [] deg = ([], deg)
relax (b ∷ bs) deg =
    let (newly, left) = relax bs (lower b deg) in
    if deg b == 1 then (b ∷ newly, left) else (newly, left)

-- `sorted(queue + newly)`, if `newly`
unfoldable pub enqueue : List String → List String → List String
enqueue queue [] = queue
enqueue queue (b ∷ bs) = sort_ids (queue ++ (b ∷ bs))

-- The loop, with at most `fuel` rounds: the queue and the order at its end.
unfoldable pub drain :
    List Node → ℕ → Degrees → List String → List String → List String × List String
drain ns zero deg queue order = (queue, order)
drain ns (suc fuel) deg [] order = ([], order)
drain ns (suc fuel) deg (nid ∷ queue) order =
    let (newly, left) = relax (successors ns nid) deg in
    drain ns fuel left (enqueue queue newly) (order ++ (nid ∷ []))

unfoldable pub node_ids : List Node → List String
node_ids [] = []
node_ids (n ∷ ns) = n.id ∷ node_ids ns

unfoldable pub ready : Degrees → List String → List String
ready deg [] = []
ready deg (x ∷ xs) = let rest = ready deg xs in if deg x == 0 then x ∷ rest else rest

-- Every input is a node; else `succ[pre]` is a KeyError.
abbrev pub is_id : List String → String → Bool
is_id ids x = any (λ y. str_eq y x) ids

unfoldable pub are_known : List String → List Node → Bool
are_known ids [] = true
are_known ids (n ∷ ns) = all (is_id ids) n.inputs && are_known ids ns

-- `topo_order`, with a round for each node.
unfoldable pub topo_order : List Node → Option (List String × List String)
topo_order ns =
    if are_known (node_ids ns) ns
    then some (drain ns (length ns) (degrees ns) (sort_ids (ready (degrees ns) (node_ids ns))) [])
    else none
