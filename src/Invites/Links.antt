-- ===== src/Invites/Links.antt =====
-- One pending link per account name.
use unhardcoded.Prelude.{
  ℕ, ◌+◌, ◌≤◌, ◌≡◌, refl, sym, ap, subst, String, Bool, true, false, not, none, some, [], ◌∷◌,
  arith, str_eq, eq_iff, keep, Bool-cases, Option-cases, inl, inr,
}
use unhardcoded.Invites.{
  Invite, Invites, Disk, Device, load, save, lookup, put, is_pending_for, renewed, new_invite,
  create, mutate, without, revoke, set_device, clear_device, mark_used, due_for_poll, checked,
  is_due, done, change, remove,
}

-- One or nothing.
abbrev pub one_if : Bool → ℕ
one_if true = 1
one_if false = 0

-- How many invites of the name are not used.
unfoldable pub links : String → Invites → ℕ
links name [] = 0
links name (e ∷ d) = one_if (is_pending_for name e.1) + links name d

module _ (name : String) where
  links-put :
      (token : String) (inv : Invite) (d : Invites)
      → links name (put token inv d) ≤ one_if (is_pending_for name inv) + links name d
  unfolding links put
  links-put token inv [] = omega arith
  links-put token inv ((t, old) ∷ d) = elim (Bool-cases (str_eq t token)) [
    | inl e ↦ simp e (omega arith)
    | inr e ↦ simp e (omega (arith, links-put token inv d))
  ]

  -- A change of the invite that the token finds, which opens none.
  links-change :
      (token : String) (inv inv' : Invite) (d : Invites)
      → lookup token d ≡ some inv
      → one_if (is_pending_for name inv') ≤ one_if (is_pending_for name inv)
      → links name (put token inv' d) ≤ links name d
  unfolding links put lookup
  links-change token inv inv' [] = λ h le. ground arith
  links-change token inv inv' ((t, old) ∷ d) = elim (Bool-cases (str_eq t token)) [
    | inl e ↦ simp e (λ h le. ground (arith, is_pending_for))
    | inr e ↦ simp e (λ h le. omega (arith, links-change token inv inv' d h le))
  ]

  links-keep : (f : String × Invite → Bool) (d : Invites) → links name (keep f d) ≤ links name d
  unfolding links
  links-keep f [] = omega arith
  links-keep f (e ∷ d) = elim (Bool-cases (f e)) [
    | inl h ↦ simp h (omega (arith, links-keep f d))
    | inr h ↦ simp h (omega (arith, links-keep f d))
  ]

  links-closed : (d : Invites) → links name (keep (λ e. not (is_pending_for name e.1)) d) ≡ 0
  unfolding links
  links-closed [] = refl
  links-closed (e ∷ d) = elim (Bool-cases (is_pending_for name e.1)) [
    | inl h ↦ simp h (links-closed d)
    | inr h ↦ simp h (omega (arith, links-closed d))
  ]

one_if_le : (b : Bool) → one_if b ≤ 1
one_if_le true = omega arith
one_if_le false = omega arith

-- For every name at most one invite that is not used.
abbrev pub IsOneLink : Invites → Type 0
IsOneLink d = (name : String) → links name d ≤ 1

-- The new link replaces the open ones of its name.
renewed-IsOneLink :
    (slug token : String) (now ttl_s : ℕ) (d : Invites)
    → IsOneLink d
    → IsOneLink (renewed slug token now ttl_s d)
unfolding renewed
renewed-IsOneLink slug token now ttl_s d h name = elim (Bool-cases (str_eq slug name)) [
  | inl e ↦
      subst (λ n. links n (renewed slug token now ttl_s d) ≤ 1) ((eq_iff slug name).0 e)
        (let p =
            links-put slug token (new_invite slug now ttl_s)
              (keep (λ x. not (is_pending_for slug x.1)) d) in
          let z = links-closed slug d in
          let o = one_if_le (is_pending_for slug (new_invite slug now ttl_s)) in omega arith)
  | inr e ↦
      let p =
        links-put name token (new_invite slug now ttl_s)
          (keep (λ x. not (is_pending_for slug x.1)) d) in
      let z = links-keep name (λ x. not (is_pending_for slug x.1)) d in
      let o : one_if (is_pending_for name (new_invite slug now ttl_s)) ≡ 0 = simp e refl in
      let hn = h name in omega arith
]

saved-IsOneLink :
    {A : Type 0} (d : Invites) (a : A) (disk : Disk)
    → IsOneLink d
    → IsOneLink (load disk)
    → IsOneLink (load (save d a disk).1)
unfolding save load
saved-IsOneLink d a disk h old = elim (Bool-cases disk.writable) [
  | inl e ↦ simp e h
  | inr e ↦ simp e old
]

-- A change that opens no link.
abbrev ClosesOnly : (Invite → Invite) → Type 0
ClosesOnly f =
    (name : String) (inv : Invite)
    → one_if (is_pending_for name (f inv)) ≤ one_if (is_pending_for name inv)

module _ (token : String) (f : Invite → Invite) (granted : Invite → Bool) (disk : Disk) where
  pub mutate-missing :
      lookup token (load disk) ≡ none → mutate token f granted disk ≡ (done false, disk)
  unfolding mutate
  mutate-missing e = ap (change token f granted disk) e

  pub mutate-found :
      (inv : Invite)
      → lookup token (load disk) ≡ some inv
      → mutate token f granted disk ≡ save (put token (f inv) (load disk)) (granted inv) disk
  unfolding mutate
  mutate-found inv e = ap (change token f granted disk) e

pub revoke-missing :
    (token : String) (disk : Disk)
    → lookup token (load disk) ≡ none
    → revoke token disk ≡ (done false, disk)
unfolding revoke
revoke-missing token disk e = ap (remove token disk) e

pub revoke-found :
    (token : String) (disk : Disk) (inv : Invite)
    → lookup token (load disk) ≡ some inv
    → revoke token disk ≡ save (without token (load disk)) true disk
unfolding revoke
revoke-found token disk inv e = ap (remove token disk) e

-- The links after an operation whose outcome is known.
abbrev Leaves {ℓ} : {A : Type ℓ} → A × Disk → Type 0
Leaves w = IsOneLink (load w.1)

mutate-IsOneLink :
    (token : String) (f : Invite → Invite) (granted : Invite → Bool) (disk : Disk)
    → ClosesOnly f
    → IsOneLink (load disk)
    → IsOneLink (load (mutate token f granted disk).1)
mutate-IsOneLink token f granted disk closes h = elim (Option-cases (lookup token (load disk))) [
  | inl e ↦ subst Leaves (sym (mutate-missing token f granted disk e)) h
  | inr (inv, e) ↦ subst Leaves (sym (mutate-found token f granted disk inv e)) (
      saved-IsOneLink (put token (f inv) (load disk)) (granted inv) disk
        (λ name.
          let c = links-change name token inv (f inv) (load disk) e (closes name inv) in
          let hn = h name in omega arith)
        h)
]

revoke-IsOneLink :
    (token : String) (disk : Disk) → IsOneLink (load disk) → IsOneLink (load (revoke token disk).1)
unfolding without
revoke-IsOneLink token disk h = elim (Option-cases (lookup token (load disk))) [
  | inl e ↦ subst Leaves (sym (revoke-missing token disk e)) h
  | inr (inv, e) ↦ subst Leaves (sym (revoke-found token disk inv e)) (
      saved-IsOneLink (without token (load disk)) true disk
        (λ name.
          let c = links-keep name (λ x. not (str_eq x.0 token)) (load disk) in
          let hn = h name in omega arith)
        h)
]

used-closes : (now : ℕ) → 1 ≤ now → ClosesOnly (λ inv. record inv { used_at = some now })
used-closes now h name inv = ground arith

checked-closes : (now : ℕ) → ClosesOnly (checked now)
checked-closes now name inv = elim (Bool-cases (is_due now inv)) [
  | inl e ↦ simp e (omega arith)
  | inr e ↦ simp e (omega arith)
]

-- A step of the store: one of its operations, at any time, on a disk that takes the write or not.
pub data Step : Disk → Disk → Type 0 where
  creates :
      (slug : String) (ttl_s : ℕ) (token : String) (now : ℕ) (disk : Disk)
      → Step disk (create slug ttl_s token now disk).1
  revokes : (token : String) (disk : Disk) → Step disk (revoke token disk).1
  sets_device :
      (token : String) (device : Device) (now : ℕ) (disk : Disk)
      → Step disk (set_device token device now disk).1
  clears_device : (token : String) (disk : Disk) → Step disk (clear_device token disk).1
  marks_used :
      (token : String) (now : ℕ) (disk : Disk) → 1 ≤ now → Step disk (mark_used token now disk).1
  polls : (token : String) (now : ℕ) (disk : Disk) → Step disk (due_for_poll token now disk).1
  breaks : (disk : Disk) → Step disk (record disk { writable = not disk.writable })

pub data Reach (start : Disk) : Disk → Type 0 where
  here : Reach start start
  next : {a b : Disk} → Reach start a → Step a b → Reach start b

Step-IsOneLink : {a b : Disk} → Step a b → IsOneLink (load a) → IsOneLink (load b)
unfolding create set_device clear_device mark_used due_for_poll load
Step-IsOneLink (creates slug ttl_s token now disk) h =
    saved-IsOneLink _ (new_invite slug now ttl_s) disk
      (renewed-IsOneLink slug token now ttl_s (load disk) h) h
Step-IsOneLink (revokes token disk) h = revoke-IsOneLink token disk h
Step-IsOneLink (sets_device token device now disk) h =
    mutate-IsOneLink token _ _ disk (λ name inv. omega arith) h
Step-IsOneLink (clears_device token disk) h =
    mutate-IsOneLink token _ _ disk (λ name inv. omega arith) h
Step-IsOneLink (marks_used token now disk le) h =
    mutate-IsOneLink token _ _ disk (used-closes now le) h
Step-IsOneLink (polls token now disk) h = mutate-IsOneLink token _ _ disk (checked-closes now) h
Step-IsOneLink (breaks disk) h = h

-- From an invite file in which each name has at most one invite that is not used, every run of the
-- store's operations, in any order, with writes that fail and marks of use at times that are not 0, keeps
-- that so.
pub Reach-IsOneLink : (a b : Disk) → IsOneLink (load a) → Reach a b → IsOneLink (load b)
Reach-IsOneLink a _ h here = h
Reach-IsOneLink a _ h (next r s) = Step-IsOneLink s (Reach-IsOneLink a _ h r)
