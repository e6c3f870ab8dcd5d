-- ===== src/Contract/Lookup.antt =====
-- What an object holds after a change.
use unhardcoded.Prelude.{
  String, Option, none, some, if◌then◌else◌, str_eq, eq_iff, ◌≡◌, refl, arith, Bool-cases, inl, inr,
  ap,
}
use unhardcoded.Contract.{Json, Fields, no_fields, field, get_field, pop_field, set_field, copy}

pub get_field-pop_field :
    (j k : String) (f : Fields)
    → get_field j (pop_field k f) ≡ (if str_eq k j then none else get_field j f)
unfolding get_field pop_field
get_field-pop_field j k no_fields = ground arith
get_field-pop_field j k (field i v rest) =
    let ih = get_field-pop_field j k rest in
    elim (Bool-cases (str_eq i k)) [
      | inl s ↦ let e = ap (λ x. str_eq x j) ((eq_iff i k).0 s) in ground arith
      | inr s ↦ elim (Bool-cases (str_eq k j)) [
        | inl t ↦ let e = ap (str_eq i) ((eq_iff k j).0 t) in ground arith
        | inr t ↦ ground arith
      ]
    ]

pub get_field-set_field :
    (j k : String) (v : Json) (f : Fields)
    → get_field j (set_field k v f) ≡ (if str_eq k j then some v else get_field j f)
unfolding get_field set_field
get_field-set_field j k v no_fields = refl
get_field-set_field j k v (field i w rest) =
    let ih = get_field-set_field j k v rest in
    elim (Bool-cases (str_eq i k)) [
      | inl s ↦ let e = ap (λ x. str_eq x j) ((eq_iff i k).0 s) in ground arith
      | inr s ↦ elim (Bool-cases (str_eq k j)) [
        | inl t ↦ let e = ap (str_eq i) ((eq_iff k j).0 t) in ground arith
        | inr t ↦ ground arith
      ]
    ]

abbrev pub or_option : Option Json → Option Json → Option Json
or_option none y = y
or_option (some x) y = some x

pub get_field-copy :
    (j k : String) (o : Option Json) (f : Fields)
    → get_field j (copy k o f) ≡ (if str_eq k j then or_option o (get_field j f) else get_field j f)
unfolding copy
get_field-copy j k none f = ground arith
get_field-copy j k (some v) f = get_field-set_field j k v f
