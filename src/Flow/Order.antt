-- ===== src/Flow/Order.antt =====
-- `topo_order` ends, and orders every node of an acyclic flow.
use unhardcoded.Prelude.{
  ℕ, ◌≤◌, ◌<◌, ◌≡◌, refl, zero, suc, String, Bool, true, false, ◌&&◌, some, List, [], ◌∷◌, ◌==◌,
  ==_iff, str_eq, eq_iff, length, all, arith, ap, subst, Bool-cases, inl, inr,
}
use unhardcoded.Flow.{
  Node, Degrees, inputs_of, degrees, drain, node_ids, ready, sort_ids, is_id, are_known, topo_order,
}
use unhardcoded.Flow.Counts.{occ, IsDict, missing, missing-nil, missing-snoc}
use unhardcoded.Flow.Steps.{Follows, IsOrderly, start-IsOrderly, head_lem, round-IsOrderly}

-- The loop ended with its queue empty.
abbrev pub Ends : (ns : List Node) → IsDict ns → List String × List String → Type 0
Ends ns dict (queue, order) = (queue ≡ []) × ((deg : Degrees) × IsOrderly ns dict deg [] order)

module _ (ns : List Node) (dict : IsDict ns) where
  drain-Ends :
      (fuel : ℕ) (deg : Degrees) (queue order : List String)
      → IsOrderly ns dict deg queue order
      → missing order (node_ids ns) ≤ fuel
      → Ends ns dict (drain ns fuel deg queue order)
  unfolding drain
  drain-Ends zero deg [] order h le = (refl, (deg, h))
  drain-Ends (suc fuel) deg [] order h le = (refl, (deg, h))
  drain-Ends zero deg (nid ∷ queue) order h le =
      let (free, fresh, node) = head_lem ns dict deg nid queue order h in
      let gone = missing-snoc nid order (node_ids ns) fresh in absurd (omega arith)
  drain-Ends (suc fuel) deg (nid ∷ queue) order h le =
      let (free, fresh, node) = head_lem ns dict deg nid queue order h in
      let gone = missing-snoc nid order (node_ids ns) fresh in
      drain-Ends fuel _ _ _ (round-IsOrderly ns dict deg nid queue order h) (omega arith)

and-true : (a b : Bool) → (a && b) ≡ true → (a ≡ true) × (b ≡ true)
and-true true b h = (refl, h)
and-true false b h = absurd cc

any-occ : (x : String) (ids : List String) → is_id ids x ≡ true → 1 ≤ occ x ids
unfolding occ
any-occ x [] h = absurd cc
any-occ x (y ∷ ids) h = elim (Bool-cases (str_eq y x)) [
  | inl s ↦ simp s (omega arith)
  | inr s ↦ let g = rw s at h in let ih = any-occ x ids g in simp s (omega arith)
]

all-occ :
    (ids ins : List String) (p : String)
    → all (is_id ids) ins ≡ true
    → 1 ≤ occ p ins
    → 1 ≤ occ p ids
unfolding occ
all-occ ids [] p h k = absurd (omega arith)
all-occ ids (q ∷ ins) p h k =
    let (here, others) = and-true (is_id ids q) (all (is_id ids) ins) h in
    elim (Bool-cases (str_eq q p)) [
      | inl s ↦ subst (λ y. 1 ≤ occ y ids) ((eq_iff q p).0 s) (any-occ q ids here)
      | inr s ↦ let g = rw s at k in all-occ ids ins p others (omega arith)
    ]

-- The inputs of a node are nodes.
known_inputs :
    (ids : List String) (ns : List Node) (x p : String)
    → are_known ids ns ≡ true
    → 1 ≤ occ p (inputs_of ns x)
    → 1 ≤ occ p ids
unfolding are_known inputs_of occ
known_inputs ids [] x p h k = absurd (omega arith)
known_inputs ids (n ∷ ns) x p h k =
    let (here, others) = and-true (all (is_id ids) n.inputs) (are_known ids ns) h in
    elim (Bool-cases (str_eq n.id x)) [
      | inl s ↦ let g = rw s at k in all-occ ids n.inputs p here g
      | inr s ↦ let g = rw s at k in known_inputs ids ns x p others g
    ]

missing-none :
    (order ins : List String)
    → ((p : String) → 1 ≤ occ p ins → 1 ≤ occ p order)
    → missing order ins ≡ 0
unfolding missing occ
missing-none order [] h = refl
missing-none order (p ∷ ins) h =
    let own = (eq_iff p p).1 refl in
    let here = h p (simp own (omega arith)) in
    let rest = missing-none order ins (λ q k. h q (omega arith)) in ground arith

-- A number for each id that grows from the inputs of a node to the node: the flow has no cycle.
abbrev pub Grows : List Node → (String → ℕ) → Type 0
Grows ns rank = (x p : String) → 1 ≤ occ p (inputs_of ns x) → rank p < rank x

module _ (ns : List Node) (dict : IsDict ns) (rank : String → ℕ) where
  ordered_below :
      (deg : Degrees) (order : List String)
      → Grows ns rank
      → are_known (node_ids ns) ns ≡ true
      → IsOrderly ns dict deg [] order
      → (b : ℕ) (x : String) → rank x < b
      → occ x (node_ids ns) ≡ 1
      → occ x order ≡ 1
  unfolding occ
  ordered_below deg order grows known h zero x low node = absurd (omega arith)
  ordered_below deg order grows known h (suc b) x low node =
      let (counts, once, follows) = h in
      let none_left = missing-none order (inputs_of ns x) (λ p k.
        let least = known_inputs (node_ids ns) ns x p known k in
        let most = dict p in
        let lower = grows x p k in
        let ih = ordered_below deg order grows known h b p (omega arith) (omega arith) in
        omega arith) in
      let e = counts x in let f = once x in ground arith

-- What a topological order of the nodes is.
abbrev pub IsTopological : List Node → List String → Type 0
IsTopological ns order = ((x : String) → occ x order ≡ occ x (node_ids ns)) × Follows ns [] order

length-ids : (ns : List Node) → length (node_ids ns) ≡ length ns
unfolding node_ids
length-ids [] = refl
length-ids (n ∷ ns) = ap suc (length-ids ns)

complete :
    (ns : List Node) (rank : String → ℕ) (dict : IsDict ns) (deg : Degrees) (order : List String)
    → Grows ns rank
    → are_known (node_ids ns) ns ≡ true
    → IsOrderly ns dict deg [] order
    → (x : String) → occ x order ≡ occ x (node_ids ns)
unfolding occ
complete ns rank dict deg order grows known h x =
    let most = dict x in
    let (counts, once, follows) = h in
    let e = once x in
    elim (Bool-cases (occ x (node_ids ns) == 0)) [
      | inl z ↦ let none_there = (==_iff (occ x (node_ids ns)) 0).0 z in ground arith
      | inr z ↦
          let node : occ x (node_ids ns) ≡ 1 = ground arith in
          let there =
            ordered_below ns dict rank deg order grows known h (suc (rank x)) x (omega arith)
              node in
          omega arith
    ]

-- `topo_order` of a flow without a cycle, whose inputs are nodes, ends within one round for each node,
-- with an empty queue, and its order holds each node exactly once and nothing else, each one after
-- all of its inputs.
pub topo_order-IsTopological :
    (ns : List Node) (rank : String → ℕ)
    → IsDict ns
    → Grows ns rank
    → are_known (node_ids ns) ns ≡ true
    → (order : List String) × ((topo_order ns ≡ some ([], order)) × IsTopological ns order)
unfolding topo_order
topo_order-IsTopological ns rank dict grows known =
    let first = sort_ids (ready (degrees ns) (node_ids ns)) in
    let all_missing = missing-nil (node_ids ns) in
    let size = length-ids ns in
    let (empty, (deg, h)) =
      drain-Ends ns dict (length ns) (degrees ns) first [] (start-IsOrderly ns dict)
        (omega arith) in
    let order = (drain ns (length ns) (degrees ns) first []).1 in
    (
      order,
      (
        simp known (ap (λ q. some (q, order)) empty),
        (complete ns rank dict deg order grows known h, h.2),
      ),
    )
