-- ===== src/Invites/Used.antt =====
-- An invite that was used stays used, whatever the store does next.
use unhardcoded.Prelude.{
  ℕ, ◌≤◌, ◌≡◌, refl, sym, ap, subst, String, Bool, true, false, not, ◌∙◌, some, [], ◌∷◌, arith,
  str_eq, eq_iff, keep, Bool-cases, Option-cases, inl, inr,
}
use unhardcoded.Invites.{
  Invite, Invites, Disk, load, save, lookup, put, is_pending_for, renewed, new_invite, create,
  mutate, without, revoke, set_device, clear_device, mark_used, due_for_poll, checked, is_due,
  is_set, get_invite, status_of, used,
}
use unhardcoded.Invites.Links.{
  Step, creates, revokes, sets_device, clears_device, marks_used, polls, breaks, mutate-missing,
  mutate-found, revoke-missing, revoke-found,
}
use unhardcoded.Invites.Polls.{lookup-put, changed}

-- A step other than a link drawn under this token and a revocation of it.
abbrev pub IsOther : String → {a b : Disk} → Step a b → Type 0
IsOther token (creates slug ttl_s t now disk) = str_eq t token ≡ false
IsOther token (revokes t disk) = str_eq t token ≡ false
IsOther token _ = Unit

-- A run of such steps.
pub data Later (token : String) (start : Disk) : Disk → Type 0 where
  at_once : Later token start start
  and_then :
      {a b : Disk} → Later token start a → (s : Step a b) → IsOther token s → Later token start b

-- The token finds an invite that was used.
abbrev Used : String → Invites → Type 0
Used token d = (i : Invite) × (lookup token d ≡ some i) × (is_set i.used_at ≡ true)

-- A change that leaves a used invite used.
abbrev KeepsUsed : (Invite → Invite) → Type 0
KeepsUsed f = (i : Invite) → is_set i.used_at ≡ true → is_set (f i).used_at ≡ true

module _ (token : String) where
  lookup-put_other :
      (t : String) (inv : Invite) (d : Invites)
      → str_eq t token ≡ false
      → lookup token (put t inv d) ≡ lookup token d
  unfolding lookup put
  lookup-put_other t inv [] e = simp e refl
  lookup-put_other t inv ((u, old) ∷ d) e = elim (Bool-cases (str_eq u t)) [
    | inl h ↦
        let e' : str_eq u token ≡ false = ap (λ x. str_eq x token) ((eq_iff u t).0 h) ∙ e in
        simp (h, e') refl
    | inr h ↦ elim (Bool-cases (str_eq u token)) [
      | inl k ↦ simp (h, k) refl
      | inr k ↦ simp (h, k) (lookup-put_other t inv d e)
    ]
  ]

  lookup-keep :
      (f : String × Invite → Bool) (i : Invite) (d : Invites)
      → ((t : String) → str_eq t token ≡ true → f (t, i) ≡ true)
      → lookup token d ≡ some i
      → lookup token (keep f d) ≡ some i
  unfolding lookup
  lookup-keep f i [] k e = cc
  lookup-keep f i ((t, x) ∷ d) k e = elim (Bool-cases (str_eq t token)) [
    | inl h ↦
        let e' = (simp h at e) in
        let same : x ≡ i = cc in
        let kept : f (t, x) ≡ true = subst (λ y. f (t, y) ≡ true) (sym same) (k t h) in
        simp (kept, h) e'
    | inr h ↦
        let e' = (simp h at e) in
        elim (Bool-cases (f (t, x))) [
          | inl g ↦ simp (g, h) (lookup-keep f i d k e')
          | inr g ↦ simp g (lookup-keep f i d k e')
        ]
  ]

  saved-Used :
      {A : Type 0} (d : Invites) (a : A) (disk : Disk)
      → Used token d
      → Used token (load disk)
      → Used token (load (save d a disk).1)
  unfolding save load
  saved-Used d a disk new old = elim (Bool-cases disk.writable) [
    | inl e ↦ simp e new
    | inr e ↦ simp e old
  ]

  mutate-Used :
      (t : String) (f : Invite → Invite) (granted : Invite → Bool) (disk : Disk)
      → KeepsUsed f
      → Used token (load disk)
      → Used token (load (mutate t f granted disk).1)
  mutate-Used t f granted disk keeps (i, e, u) = elim (Option-cases (lookup t (load disk))) [
    | inl m ↦ subst (λ w. Used token (load w.1)) (sym (mutate-missing t f granted disk m)) (i, e, u)
    | inr (inv, m) ↦
        subst (λ w. Used token (load w.1)) (sym (mutate-found t f granted disk inv m))
          (saved-Used (put t (f inv) (load disk)) (granted inv) disk
            (elim (Bool-cases (str_eq t token)) [
              | inl h ↦
                  let q = (eq_iff t token).0 h in
                  let same : some inv ≡ some i = sym m ∙ ap (λ x. lookup x (load disk)) q ∙ e in
                  let is_used : is_set inv.used_at ≡ true = cc in
                  (
                    f inv,
                    subst (λ x. lookup x (put t (f inv) (load disk)) ≡ some (f inv)) q
                        (lookup-put t (f inv) (load disk)),
                    keeps inv is_used,
                  )
              | inr h ↦ (i, lookup-put_other t (f inv) (load disk) h ∙ e, u)
            ])
            (i, e, u))
  ]

  renewed-Used :
      (slug t : String) (now ttl_s : ℕ) (d : Invites)
      → str_eq t token ≡ false
      → Used token d
      → Used token (renewed slug t now ttl_s d)
  unfolding renewed
  renewed-Used slug t now ttl_s d other (i, e, u) = (
    i,
    lookup-put_other t (new_invite slug now ttl_s) (keep (λ x. not (is_pending_for slug x.1)) d)
          other
        ∙ lookup-keep (λ x. not (is_pending_for slug x.1)) i d (λ _ _. ground arith) e,
    u,
  )

  other_token :
      (t : String)
      → str_eq t token ≡ false
      → (x : String) → str_eq x token ≡ true
      → not (str_eq x t) ≡ true
  other_token t other x h = elim (Bool-cases (str_eq x t)) [
    | inl p ↦ let q = ap (λ y. str_eq y token) ((eq_iff x t).0 p) in absurd cc
    | inr p ↦ simp p refl
  ]

  revoke-Used :
      (t : String) (disk : Disk)
      → str_eq t token ≡ false
      → Used token (load disk)
      → Used token (load (revoke t disk).1)
  unfolding without
  revoke-Used t disk other (i, e, u) = elim (Option-cases (lookup t (load disk))) [
    | inl m ↦ subst (λ w. Used token (load w.1)) (sym (revoke-missing t disk m)) (i, e, u)
    | inr (inv, m) ↦
        subst (λ w. Used token (load w.1)) (sym (revoke-found t disk inv m))
          (saved-Used (without t (load disk)) true disk
            (i, lookup-keep (λ x. not (str_eq x.0 t)) i (load disk) (other_token t other) e, u)
            (i, e, u))
  ]

  Step-Used :
      {a b : Disk} (s : Step a b) → IsOther token s → Used token (load a) → Used token (load b)
  unfolding create set_device clear_device mark_used due_for_poll load
  Step-Used (creates slug ttl_s t now disk) other h =
      saved-Used _ (new_invite slug now ttl_s) disk
        (renewed-Used slug t now ttl_s (load disk) other h) h
  Step-Used (revokes t disk) other h = revoke-Used t disk other h
  Step-Used (sets_device t device now disk) _ h = mutate-Used t _ _ disk (λ i e. e) h
  Step-Used (clears_device t disk) _ h = mutate-Used t _ _ disk (λ i e. e) h
  Step-Used (marks_used t now disk le) _ h = mutate-Used t _ _ disk (λ i e. ground arith) h
  Step-Used (polls t now disk) _ h =
      mutate-Used t (checked now) (is_due now) disk
        (λ i e. elim (Bool-cases (is_due now i)) [ inl d ↦ simp d e | inr d ↦ simp d e ]) h
  Step-Used (breaks disk) _ h = h

  Later-Used : {a b : Disk} → Later token a b → Used token (load a) → Used token (load b)
  Later-Used at_once h = h
  Later-Used (and_then r s other) h = Step-Used s other (Later-Used r h)

-- An invite marked used, at a time that is not 0 on a disk that takes the write, is still there with
-- the status used at every later look, after every run of the store's operations in which its token
-- is neither revoked nor drawn for another link, and in which any write may fail.
pub mark_used-status :
    (token : String) (disk last : Disk) (inv : Invite) (now later : ℕ)
    → disk.writable ≡ true
    → get_invite token disk ≡ some inv
    → 1 ≤ now
    → Later token (mark_used token now disk).1 last
    → (i : Invite) × (get_invite token last ≡ some i) × (status_of later i ≡ used)
unfolding mark_used get_invite status_of
mark_used-status token disk last inv now later w e le r =
    let first = changed token (λ i. record i { used_at = some now }) (λ i. true) disk inv w e in
    let (i, found, u) =
      Later-Used token r (record inv { used_at = some now }, first.2, ground arith) in
    (i, found, simp u refl)
