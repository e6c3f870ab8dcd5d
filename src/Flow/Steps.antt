-- ===== src/Flow/Steps.antt =====
-- What holds of the loop of `topo_order` before each round.
use unhardcoded.Prelude.{
  ◌+◌, ◌≡◌, refl, String, true, List, [], ◌∷◌, ◌++◌, if◌then◌else◌, ◌==◌, ==_iff, eq_iff, arith, ap,
  sym, ◌∙◌, subst, Bool-cases, inl, inr,
}
use unhardcoded.Flow.{
  Node, Degrees, inputs_of, degrees, successors, relax, enqueue, node_ids, ready, sort_ids,
}
use unhardcoded.Flow.Counts.{
  occ, occ-append, occ-enqueue, occ-sort, occ-ready, relax-degree, relax-newly, IsDict,
  occ-successors, missing, missing-nil, missing-snoc, has_input-node,
}

-- Each id of the list comes after its inputs, which `before` or the list itself holds.
abbrev pub Follows : List Node → List String → List String → Type 0
Follows ns before [] = true ≡ true
Follows ns before (x ∷ xs) =
    (missing before (inputs_of ns x) ≡ 0) × Follows ns (before ++ (x ∷ [])) xs

append-nil : (xs : List String) → xs ++ [] ≡ xs
append-nil [] = refl
append-nil (x ∷ xs) = ap (λ ys. x ∷ ys) (append-nil xs)

append_assoc : (xs ys zs : List String) → (xs ++ ys) ++ zs ≡ xs ++ (ys ++ zs)
append_assoc [] ys zs = refl
append_assoc (x ∷ xs) ys zs = ap (λ l. x ∷ l) (append_assoc xs ys zs)

Follows-snoc :
    (ns : List Node) (before xs : List String) (x : String)
    → Follows ns before xs
    → missing (before ++ xs) (inputs_of ns x) ≡ 0
    → Follows ns before (xs ++ (x ∷ []))
Follows-snoc ns before [] x h e =
    (subst (λ l. missing l (inputs_of ns x) ≡ 0) (append-nil before) e, refl)
Follows-snoc ns before (y ∷ ys) x (f, h) e = (
  f,
  Follows-snoc ns (before ++ (y ∷ [])) ys x h
      (subst (λ l. missing l (inputs_of ns x) ≡ 0) (sym (append_assoc before (y ∷ []) ys)) e),
)

module _ (ns : List Node) (dict : IsDict ns) where
  -- The degree of an id counts its inputs that are not in the order; the nodes of degree 0 stand once,
  -- in the order or in the queue; and the order follows the inputs.
  abbrev pub IsOrderly : Degrees → List String → List String → Type 0
  IsOrderly deg queue order =
      ((x : String) → deg x ≡ missing order (inputs_of ns x))
      × ((x : String) → occ x order + occ x queue ≡ (if deg x == 0 then occ x (node_ids ns) else 0))
      × Follows ns [] order

  pub start-IsOrderly : IsOrderly (degrees ns) (sort_ids (ready (degrees ns) (node_ids ns))) []
  unfolding degrees occ
  start-IsOrderly = (
    λ x. sym (missing-nil (inputs_of ns x)),
    λ x.
        let a = occ-sort x (ready (degrees ns) (node_ids ns)) in
        let b = occ-ready x (degrees ns) (node_ids ns) in omega arith,
    refl,
  )

  -- The first of the queue is a node, of degree 0, and not in the order.
  pub head_lem :
      (deg : Degrees) (nid : String) (queue order : List String)
      → IsOrderly deg (nid ∷ queue) order
      → (deg nid ≡ 0) × (occ nid order ≡ 0) × (occ nid (node_ids ns) ≡ 1)
  unfolding occ
  head_lem deg nid queue order (counts, once, follows) =
      let here = once nid in
      let own = (eq_iff nid nid).1 refl in let bound = dict nid in ground arith

  pub round-IsOrderly :
      (deg : Degrees) (nid : String) (queue order : List String)
      → IsOrderly deg (nid ∷ queue) order
      → let r = relax (successors ns nid) deg in
        IsOrderly r.1 (enqueue queue r.0) (order ++ (nid ∷ []))
  unfolding occ
  round-IsOrderly deg nid queue order (counts, once, follows) =
      let (free, fresh, node) = head_lem deg nid queue order (counts, once, follows) in
      (
        λ x.
            let a = relax-degree x (successors ns nid) deg in
            let b = occ-successors x nid ns (dict x) in
            let c = missing-snoc nid order (inputs_of ns x) fresh in
            let d = counts x in omega arith,
        λ x.
            let a = relax-degree x (successors ns nid) deg in
            let b = occ-successors x nid ns (dict x) in
            let c = missing-snoc nid order (inputs_of ns x) fresh in
            let d = counts x in
            let e = once x in
            let f = relax-newly x (successors ns nid) deg in
            let g = occ-enqueue x queue (relax (successors ns nid) deg).0 in
            let h = occ-append x order (nid ∷ []) in
            let most = dict x in
            elim (Bool-cases (occ x (node_ids ns) == 0)) [
              | inl z ↦
                  let n = has_input-node x nid ns ((==_iff (occ x (node_ids ns)) 0).0 z) in
                  ground arith
              | inr z ↦ ground arith
            ],
        Follows-snoc ns [] order nid follows (sym (counts nid) ∙ free),
      )
