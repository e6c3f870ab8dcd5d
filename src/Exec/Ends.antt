-- ===== src/Exec/Ends.antt =====
-- What a method returns or raises, and the core that it leaves, whichever store calls fail: a
-- statement for every list of faults, with one rule for each way to build a method.
use unhardcoded.Prelude.{
  ◌≡◌, refl, sym, subst, Bool, true, false, List, [], ◌∷◌, All, if◌then◌else◌,
}
use unhardcoded.Exec.{
  Fault, answers, errors, dies, Exn, cancelled, value_error, zero_division, died, Exit, returned,
  raised, Core, World, M, pure, raise, gets, for_each, under_fault, store_call, query, continue,
  ◌>>=◌, clean_up, on_raise,
}

-- From core `c`, under any faults, `m` ends in a result and a core of `Q`.
pub record Ends {ℓ κ} {A : Type ℓ} (m : M A) (c : Core) (Q : Exit A → Core → Type κ) : Type κ where
  pub run :
      (faults : List Fault)
      → Q
          (m (record { core = c; faults = faults })).0
          (m (record { core = c; faults = faults })).1.core

module _ {ℓ κ} {A : Type ℓ} (Q : Exit A → Core → Type κ) {c : Core} where
  under_fault_lem :
      (fs : List Fault) (run : Core → A × Core) (d : A)
      → Q (returned (run c).0) (run c).1
      → Q (returned d) c
      → Q (raised died) c
      → Q (under_fault fs run d c).0 (under_fault fs run d c).1.core
  unfolding under_fault
  under_fault_lem [] run d h k l = h
  under_fault_lem (answers ∷ fs) run d h k l = h
  under_fault_lem (errors ∷ fs) run d h k l = k
  under_fault_lem (dies ∷ fs) run d h k l = l

module _ {ℓ κ} {A : Type ℓ} {Q : Exit A → Core → Type κ} {c : Core} where
  pub Ends-pure : (a : A) → Q (returned a) c → Ends (pure a) c Q
  Ends-pure a h = record { run = λ fs. h }

  pub Ends-raise : (e : Exn) → Q (raised e) c → Ends (raise e) c Q
  Ends-raise e h = record { run = λ fs. h }

  pub Ends-gets : (f : Core → A) → Q (returned (f c)) c → Ends (gets f) c Q
  Ends-gets f h = record { run = λ fs. h }

  pub Ends-if :
      (b : Bool) (m n : M A)
      → (b ≡ true → Ends m c Q)
      → (b ≡ false → Ends n c Q)
      → Ends (if b then m else n) c Q
  Ends-if true m n km kn = km refl
  Ends-if false m n km kn = kn refl

  pub Ends-store_call :
      (run : Core → A × Core) (d : Core → A)
      → Q (returned (run c).0) (run c).1
      → Q (returned (d c)) c
      → Q (raised died) c
      → Ends (store_call run d) c Q
  unfolding store_call
  Ends-store_call run d h k l = record { run = λ fs. under_fault_lem Q fs run (d c) h k l }

module _ {ℓ κ} {A : Type ℓ} {Q R : Exit A → Core → Type κ} {c : Core} where
  pub Ends-weaken :
      {m : M A} → Ends m c R → ((r : Exit A) (c' : Core) → R r c' → Q r c') → Ends m c Q
  Ends-weaken e h = record { run = λ fs. h _ _ (e.run fs) }

module _ {ℓ κ μ ν} {A : Type ℓ} {B : Type κ} (R : Exit A → Core → Type μ)
    (Q : Exit B → Core → Type ν) where
  continue_lem :
      (r : Exit A) (w : World) (k : A → M B)
      → R r w.core
      → ((a : A) (c' : Core) → R (returned a) c' → Ends (k a) c' Q)
      → ((e : Exn) (c' : Core) → R (raised e) c' → Q (raised e) c')
      → Q (continue r k w).0 (continue r k w).1.core
  unfolding continue
  continue_lem (returned a) w k h on fail = (on a w.core h).run w.faults
  continue_lem (raised e) w k h on fail = fail e w.core h

  pub Ends-bind :
      (m : M A) (k : A → M B) {c : Core}
      → Ends m c R
      → ((a : A) (c' : Core) → R (returned a) c' → Ends (k a) c' Q)
      → ((e : Exn) (c' : Core) → R (raised e) c' → Q (raised e) c')
      → Ends (m >>= k) c Q
  unfolding ◌>>=◌
  Ends-bind m k {c} em on fail = record {
    run = λ fs.
        let w = m (record { core = c; faults = fs }) in continue_lem w.0 w.1 k (em.run fs) on fail;
  }

module _ {ℓ κ ν} {A : Type ℓ} {B : Type κ} (Q : Exit B → Core → Type ν) where
  -- After a part that leaves the core as it is.
  pub Ends-read :
      (m : M A) (k : A → M B) {c : Core}
      → Ends m c (λ _ c'. c' ≡ c)
      → ((a : A) → Ends (k a) c Q)
      → ((e : Exn) → Q (raised e) c)
      → Ends (m >>= k) c Q
  Ends-read m k {c} r h j =
      Ends-bind (λ _ c'. c' ≡ c) Q m k r (λ a c' e. subst (λ x. Ends (k a) x Q) (sym e) (h a))
        (λ x c' e. subst (λ y. Q (raised x) y) (sym e) (j x))

module _ {ℓ κ ν} {A : Type ℓ} {B : Type κ} {Q : Exit B → Core → Type ν} {c : Core} where
  -- A call of the store, and what comes after it: it ran, it failed, or the process ended in it.
  pub Ends-call :
      (run : Core → A × Core) (d : Core → A) (k : A → M B)
      → Ends (k (run c).0) (run c).1 Q
      → Ends (k (d c)) c Q
      → Q (raised died) c
      → Ends (store_call run d >>= k) c Q
  unfolding ◌>>=◌ store_call
  Ends-call run d k h j l = record { run = λ fs. cases fs }
    where
      cases :
          (fs : List Fault)
          → let w = under_fault fs run (d c) c in
            Q (continue w.0 k w.1).0 (continue w.0 k w.1).1.core
      cases [] = h.run []
      cases (answers ∷ fs) = h.run fs
      cases (errors ∷ fs) = j.run fs
      cases (dies ∷ fs) = l

  -- After a read the core is the same, and the value is that of the store or the failsafe.
  pub Ends-query :
      (f d : Core → A) (k : A → M B)
      → Ends (k (f c)) c Q
      → Ends (k (d c)) c Q
      → Q (raised died) c
      → Ends (query f d >>= k) c Q
  Ends-query f d k h j l = Ends-call (λ x. (f x, x)) d k h j l

  pub Ends-gets-bind : (f : Core → A) (k : A → M B) → Ends (k (f c)) c Q → Ends (gets f >>= k) c Q
  unfolding ◌>>=◌ continue
  Ends-gets-bind f k h = record { run = h.run }

module _ {ℓ κ ν} {A : Type ℓ} {B : Type κ} (Q : Exit A → Core → Type ν) (e : Exn) where
  -- After the handler the exception goes on, unless the handler itself did not end.
  reraise_lem :
      (r : Exit B) (w : World)
      → ((x : Exn) → Q (raised x) w.core)
      → Q (continue {B = A} r (λ _. raise e) w).0 (continue {B = A} r (λ _. raise e) w).1.core
  unfolding continue
  reraise_lem (returned b) w h = h e
  reraise_lem (raised x) w h = h x

module _ {ℓ κ μ ν} {A : Type ℓ} {B : Type κ} (R : Exit A → Core → Type μ)
    (Q : Exit A → Core → Type ν) (handler : M B) where
  clean_up_lem :
      (r : Exit A) (w : World)
      → R r w.core
      → ((a : A) (c' : Core) → R (returned a) c' → Q (returned a) c')
      → ((c' : Core) → R (raised died) c' → Q (raised died) c')
      → ((e : Exn) (c' : Core)
          → R (raised e) c'
          → Ends handler c' (λ _ c''. (x : Exn) → Q (raised x) c''))
      → Q (clean_up r handler w).0 (clean_up r handler w).1.core
  unfolding clean_up
  clean_up_lem (returned a) w h on dead fail = on a w.core h
  clean_up_lem (raised died) w h on dead fail = dead w.core h
  clean_up_lem (raised cancelled) w h on dead fail =
      reraise_lem Q cancelled (handler w).0 (handler w).1 ((fail cancelled w.core h).run w.faults)
  clean_up_lem (raised value_error) w h on dead fail =
      reraise_lem Q value_error (handler w).0 (handler w).1
        ((fail value_error w.core h).run w.faults)
  clean_up_lem (raised zero_division) w h on dead fail =
      reraise_lem Q zero_division (handler w).0 (handler w).1
        ((fail zero_division w.core h).run w.faults)

  pub Ends-on_raise :
      (m : M A) {c : Core}
      → Ends m c R
      → ((a : A) (c' : Core) → R (returned a) c' → Q (returned a) c')
      → ((c' : Core) → R (raised died) c' → Q (raised died) c')
      → ((e : Exn) (c' : Core)
          → R (raised e) c'
          → Ends handler c' (λ _ c''. (x : Exn) → Q (raised x) c''))
      → Ends (on_raise m handler) c Q
  unfolding on_raise
  Ends-on_raise m {c} em on dead fail = record {
    run = λ fs.
        let w = m (record { core = c; faults = fs }) in
        clean_up_lem w.0 w.1 (em.run fs) on dead fail;
  }

-- A loop whose body keeps `I`, whatever the body returns or raises.
pub Ends-for_each {ℓ κ} :
    {A : Type ℓ} (I : Core → Type κ) (body : A → M (Unit {0})) (xs : List A)
    → All (λ x. (c : Core) → I c → Ends (body x) c (λ _. I)) xs
    → (c : Core) → I c
    → Ends (for_each body xs) c (λ _. I)
unfolding for_each
Ends-for_each I body [] h c i = Ends-pure tt i
Ends-for_each I body (x ∷ xs) (h, hs) c i =
    Ends-bind (λ _. I) (λ _. I) (body x) (λ _. for_each body xs) (h c i)
      (λ _ c' j. Ends-for_each I body xs hs c' j) (λ _ _ j. j)
