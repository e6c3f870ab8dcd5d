-- ===== src/Tests/Flow.antt =====
-- A flow with two branches that merge.
use unhardcoded.Prelude.{
  ℕ, ◌≤◌, ◌<◌, ◌≡◌, refl, subst, String, true, some, List, [], ◌∷◌, arith, if◌then◌else◌, str_eq,
  eq_iff, Bool-cases, inl, inr,
}
use unhardcoded.Flow.{
  Node, insert_id, sort_ids, inputs_of, degrees, copies, successors, relax, enqueue, drain,
  node_ids, ready, are_known, topo_order,
}
use unhardcoded.Flow.Counts.{occ, IsDict}
use unhardcoded.Flow.Order.{Grows, IsTopological, topo_order-IsTopological}

abbrev source : Node
source = record { id = "in"; inputs = [] }

abbrev left : Node
left = record { id = "b"; inputs = "in" ∷ [] }

abbrev right : Node
right = record { id = "a"; inputs = "in" ∷ [] }

abbrev sink : Node
sink = record { id = "out"; inputs = "a" ∷ ("b" ∷ []) }

abbrev diamond : List Node
diamond = sink ∷ (left ∷ (right ∷ (source ∷ [])))

ordered : topo_order diamond ≡ some ([], "in" ∷ ("a" ∷ ("b" ∷ ("out" ∷ []))))
unfolding topo_order are_known node_ids drain degrees inputs_of ready sort_ids insert_id enqueue
    relax successors copies
ordered = refl

-- Two nodes that wait for each other are left out.
cyclic :
    topo_order
      (record { id = "a"; inputs = "b" ∷ [] } ∷ (record { id = "b"; inputs = "a" ∷ [] } ∷ []))
    ≡ some ([], [])
unfolding topo_order are_known node_ids drain degrees inputs_of ready sort_ids insert_id enqueue
    relax successors copies
cyclic = refl

-- One node between the input and nothing.
abbrev chain : List Node
chain = left ∷ (source ∷ [])

abbrev rank : String → ℕ
rank x = if str_eq x "b" then 1 else 0

is_dict : IsDict chain
unfolding occ node_ids
is_dict x = elim (Bool-cases (str_eq "b" x)) [
  | inl s ↦ subst (λ y. occ y (node_ids chain) ≤ 1) ((eq_iff "b" x).0 s) (omega arith)
  | inr s ↦ ground arith
]

does_grow : Grows chain rank
unfolding occ inputs_of
does_grow x p h = elim (Bool-cases (str_eq "b" x)) [
  | inl s ↦
      let g = rw s at h in
      elim (Bool-cases (str_eq "in" p)) [
        | inl t ↦
            subst (λ y. rank p < rank y) ((eq_iff "b" x).0 s)
              (subst (λ y. rank y < rank "b") ((eq_iff "in" p).0 t) (omega arith))
        | inr t ↦ absurd (ground arith)
      ]
  | inr s ↦ absurd (ground arith)
]

is_known : are_known (node_ids chain) chain ≡ true
unfolding are_known node_ids
is_known = refl

topo_order-IsTopological_example :
    (order : List String) × ((topo_order chain ≡ some ([], order)) × IsTopological chain order)
topo_order-IsTopological_example = topo_order-IsTopological chain rank is_dict does_grow is_known
