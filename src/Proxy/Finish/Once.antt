-- ===== src/Proxy/Finish/Once.antt =====
-- Each request that was sent ends once.
use unhardcoded.Prelude.{
  ℕ, ◌-◌, String, true, false, ◌≡◌, refl, ap, sym, ◌∙◌, subst, Option, none, some, List, [], ◌∷◌,
  arith,
}
use unhardcoded.Budget.{Tables}
use unhardcoded.Proxy.Settles.{Held, Submitted, settle_reservation}
use unhardcoded.Proxy.Keys.{Identity}
use unhardcoded.Proxy.Tenant.{}
use unhardcoded.Proxy.Admission.{Answers, Config, Shared, Forward, forwards, proxy, budget_of}
use unhardcoded.Proxy.Admission.Checked.{proxy-Passed}
use unhardcoded.Proxy.Admission.Guards.{IsReserved}
use unhardcoded.Proxy.Admission.Stops.{proxy-Leaves, Leaves}
use unhardcoded.Proxy.Finish.{SentCall, settlement, finish, finishes, sent_of}

-- The settles after a request with that reservation.
abbrev pub settled_with : Option Held → Option ℕ → ℕ → List Submitted → List Submitted
settled_with none cost status out = out
settled_with (some h) cost status out =
    record { id = h.id; cost = settlement cost status (some h) } ∷ out

abbrev IsOpen : Option Held → Type 0
IsOpen none = true ≡ true
IsOpen (some h) = h.done ≡ false

released_kept :
    (ends : List (Option ℕ × ℕ)) (c : SentCall) (s : Shared)
    → c.released ≡ true
    → finishes ends c s ≡ (c, s)
unfolding finishes finish
released_kept [] c s e = refl
released_kept ((cost, status) ∷ rest) c s e = simp e (released_kept rest c s e)

first_finish :
    (cost : Option ℕ) (status : ℕ) (held : Option Held) (s : Shared)
    → IsOpen held
    → let r = finish cost status (record { held = held; released = false }) s in
      (r.0.released ≡ true)
      × (r.1.permits ≡ s.permits - 1)
      × (r.1.submitted ≡ settled_with held cost status s.submitted)
unfolding finish settle_reservation
first_finish cost status none s e = (refl, omega arith, refl)
first_finish cost status (some h) s e = simp e (refl, omega arith, refl)

-- Whatever the reservation is, it is not done before the first end.
IsReserved-IsOpen :
    (cfg : Config) (w : Answers) (i : Identity) (b : Option (String × ℕ)) (t : Tables) (f : Forward)
    → IsReserved cfg w i b t f
    → IsOpen f.reservation
IsReserved-IsOpen cfg w i none t f e = subst IsOpen (sym e) refl
IsReserved-IsOpen cfg w i (some (subject, limit)) t f (e, a) = subst IsOpen (sym e) refl

proxy-IsOpen :
    (cfg : Config) (w : Answers) (s t : Shared) (f : Forward)
    → proxy cfg w s ≡ (forwards f, t)
    → IsOpen f.reservation
proxy-IsOpen cfg w s t f h =
    let (path, known, (auth, (k, rest))) = proxy-Passed cfg w s f (ap (λ r. r.0) h) in
    let (a, b, c, d, e, g, i, reserved) = rest in
    IsReserved-IsOpen cfg w f.identity (budget_of k) s.tables f reserved

-- A request that was sent gives its permit back once and settles its reservation once, where it has
-- one, with what the first call of `_finish` books: the cost where it is known; else the reserved
-- amount where the call succeeded, and nothing where it failed. Further calls of `_finish`, by the
-- handler or by the pump of a stream, change nothing.
pub proxy-finishes :
    (cfg : Config) (w : Answers) (s t : Shared) (f : Forward)
    → proxy cfg w s ≡ (forwards f, t)
    → (cost : Option ℕ) (status : ℕ) (more : List (Option ℕ × ℕ))
    → let u = (finishes ((cost, status) ∷ more) (sent_of f) t).1 in
      (u.permits ≡ s.permits) × (u.submitted ≡ settled_with f.reservation cost status s.submitted)
unfolding finishes
proxy-finishes cfg w s t f h cost status more =
    let (released, freed, settled) =
      first_finish cost status f.reservation t (proxy-IsOpen cfg w s t f h) in
    let (taken, silent) = subst (Leaves w s) h (proxy-Leaves cfg w s) in
    let last = ap (λ r. r.1) (released_kept more _ _ released) in
    (
      ap (λ x. x.permits) last ∙ omega arith,
      ap (λ x. x.submitted) last ∙ (settled ∙ ap (settled_with f.reservation cost status) silent),
    )
