-- ===== src/Flow/Counts.antt =====
-- How often an id stands in the lists of the loop.
use unhardcoded.Prelude.{
  ℕ, ◌+◌, ◌-◌, ◌≤◌, ◌≡◌, refl, String, ◌&&◌, List, [], ◌∷◌, ◌++◌, if◌then◌else◌, ◌==◌, leb, str_eq,
  eq_iff, length, arith, ap, sym, ◌∙◌, Bool-cases, inl, inr,
}
use unhardcoded.Flow.{
  Node, insert_id, sort_ids, Degrees, inputs_of, copies, successors, lower, relax, enqueue,
  node_ids, ready,
}

unfoldable pub occ : String → List String → ℕ
occ x [] = 0
occ x (y ∷ ys) = (if str_eq y x then 1 else 0) + occ x ys

pub occ-append : (x : String) (xs ys : List String) → occ x (xs ++ ys) ≡ occ x xs + occ x ys
unfolding occ
occ-append x [] ys = omega arith
occ-append x (y ∷ xs) ys = omega (arith, occ-append x xs ys)

occ-insert :
    (x y : String) (ys : List String)
    → occ x (insert_id y ys) ≡ (if str_eq y x then 1 else 0) + occ x ys
unfolding occ insert_id
occ-insert x y [] = refl
occ-insert x y (z ∷ ys) = ground (arith, occ-insert x y ys)

pub occ-sort : (x : String) (xs : List String) → occ x (sort_ids xs) ≡ occ x xs
unfolding occ sort_ids
occ-sort x [] = refl
occ-sort x (y ∷ xs) =
    occ-insert x y (sort_ids xs) ∙ ap (λ n. (if str_eq y x then 1 else 0) + n) (occ-sort x xs)

pub occ-enqueue :
    (x : String) (q newly : List String) → occ x (enqueue q newly) ≡ occ x q + occ x newly
unfolding enqueue occ
occ-enqueue x q [] = omega arith
occ-enqueue x q (b ∷ bs) = occ-sort x (q ++ (b ∷ bs)) ∙ occ-append x q (b ∷ bs)

pub relax-degree :
    (x : String) (bs : List String) (deg : Degrees) → (relax bs deg).1 x ≡ deg x - occ x bs
unfolding relax occ
relax-degree x [] deg = omega arith
relax-degree x (b ∷ bs) deg =
    let ih = relax-degree x bs (lower b deg) in
    elim (Bool-cases (deg b == 1)) [
      | inl e ↦ simp e (ground (arith, ih))
      | inr e ↦ simp e (ground (arith, ih))
    ]

-- An id is newly ready when its degree runs out.
pub relax-newly :
    (x : String) (bs : List String) (deg : Degrees)
    → occ x (relax bs deg).0 ≡ (if leb 1 (deg x) && leb (deg x) (occ x bs) then 1 else 0)
unfolding relax occ
relax-newly x [] deg = ground arith
relax-newly x (b ∷ bs) deg =
    let ih = relax-newly x bs (lower b deg) in
    elim (Bool-cases (str_eq b x)) [
      | inl s ↦
          let same = ap deg ((eq_iff b x).0 s) in
          elim (Bool-cases (deg b == 1)) [
            | inl e ↦ simp e (ground (arith, ih))
            | inr e ↦ simp e (ground (arith, ih))
          ]
      | inr s ↦ elim (Bool-cases (deg b == 1)) [
        | inl e ↦ simp e (ground (arith, ih))
        | inr e ↦ simp e (ground (arith, ih))
      ]
    ]

occ-copies :
    (x nid b : String) (ins : List String)
    → occ x (copies nid b ins) ≡ (if str_eq b x then occ nid ins else 0)
unfolding occ copies
occ-copies x nid b [] = ground arith
occ-copies x nid b (p ∷ ins) = ground (arith, occ-copies x nid b ins)

-- The nodes' ids are keys of a dict.
abbrev pub IsDict : List Node → Type 0
IsDict ns = (x : String) → occ x (node_ids ns) ≤ 1

inputs_of-absent : (x : String) (ns : List Node) → occ x (node_ids ns) ≡ 0 → inputs_of ns x ≡ []
unfolding occ node_ids inputs_of
inputs_of-absent x [] h = refl
inputs_of-absent x (n ∷ ns) h = elim (Bool-cases (str_eq n.id x)) [
  | inl s ↦ let g = rw s at h in absurd (omega arith)
  | inr s ↦ let g = rw s at h in simp s (inputs_of-absent x ns (omega arith))
]

pub occ-successors :
    (x nid : String) (ns : List Node)
    → occ x (node_ids ns) ≤ 1
    → occ x (successors ns nid) ≡ occ nid (inputs_of ns x)
unfolding occ node_ids inputs_of successors
occ-successors x nid [] h = refl
occ-successors x nid (n ∷ ns) h =
    let parts = occ-append x (copies nid n.id n.inputs) (successors ns nid) in
    let own = occ-copies x nid n.id n.inputs in
    elim (Bool-cases (str_eq n.id x)) [
      | inl s ↦
          let g = rw s at h in
          let first = rw s at own in
          let ih = occ-successors x nid ns (omega arith) in
          let gone = ap (occ nid) (inputs_of-absent x ns (omega arith)) in simp s (omega arith)
      | inr s ↦
          let g = rw s at h in
          let first = rw s at own in
          let ih = occ-successors x nid ns (omega arith) in simp s (omega arith)
    ]

-- An id that has an input is a node.
pub has_input-node :
    (x nid : String) (ns : List Node) → occ x (node_ids ns) ≡ 0 → occ nid (inputs_of ns x) ≡ 0
unfolding occ
has_input-node x nid ns h = ap (occ nid) (inputs_of-absent x ns h)

-- How many of the inputs are not in the order yet.
unfoldable pub missing : List String → List String → ℕ
missing order [] = 0
missing order (p ∷ ins) = (if occ p order == 0 then 1 else 0) + missing order ins

pub missing-nil : (ins : List String) → missing [] ins ≡ length ins
unfolding missing occ
missing-nil [] = refl
missing-nil (p ∷ ins) = omega (arith, missing-nil ins)

pub missing-snoc :
    (nid : String) (order ins : List String)
    → occ nid order ≡ 0
    → missing (order ++ (nid ∷ [])) ins + occ nid ins ≡ missing order ins
unfolding missing occ
missing-snoc nid order [] h = refl
missing-snoc nid order (p ∷ ins) h =
    let ih = missing-snoc nid order ins h in
    let parts = occ-append p order (nid ∷ []) in
    elim (Bool-cases (str_eq p nid)) [
      | inl s ↦
          let same = ap (λ y. occ y order) ((eq_iff p nid).0 s) in
          let back = (eq_iff nid p).1 (sym ((eq_iff p nid).0 s)) in ground arith
      | inr s ↦ elim (Bool-cases (str_eq nid p)) [
        | inl b ↦ let e = (eq_iff p nid).1 (sym ((eq_iff nid p).0 b)) in ground arith
        | inr b ↦ ground arith
      ]
    ]

pub occ-ready :
    (x : String) (deg : Degrees) (xs : List String)
    → occ x (ready deg xs) ≡ (if deg x == 0 then occ x xs else 0)
unfolding occ ready
occ-ready x deg [] = ground arith
occ-ready x deg (y ∷ xs) =
    let ih = occ-ready x deg xs in
    elim (Bool-cases (str_eq y x)) [
      | inl s ↦ let same = ap deg ((eq_iff y x).0 s) in ground arith
      | inr s ↦ ground arith
    ]
