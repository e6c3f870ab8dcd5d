-- ===== src/Invites/Polls.antt =====
-- What an invite goes through: the pace of the polls and the device flow.
use unhardcoded.Prelude.{
  ℕ, ◌+◌, ◌≤◌, ◌≡◌, ◌↔◌, refl, sym, ap, ◌∙◌, subst, String, Bool, true, false, some, [], ◌∷◌, arith,
  leb, str_eq, eq_iff, Bool-cases, inl, inr, if◌then◌else◌,
}
use unhardcoded.Invites.{
  Invite, Invites, Disk, Device, done, load, save, lookup, put, get_invite, written, mutate,
  checked, is_due, due_for_poll, or_five, with_device, set_device, status_of, awaiting, pending,
  is_set, device_code_ttl_s,
}
use unhardcoded.Invites.Links.{mutate-found}

pub lookup-put :
    (token : String) (inv : Invite) (d : Invites) → lookup token (put token inv d) ≡ some inv
unfolding lookup put
lookup-put token inv [] =
    let e : str_eq token token ≡ true = (eq_iff token token).1 refl in simp e refl
lookup-put token inv ((t, old) ∷ d) = elim (Bool-cases (str_eq t token)) [
  | inl e ↦ simp e refl
  | inr e ↦ simp e (lookup-put token inv d)
]

module _ (token : String) (f : Invite → Invite) (granted : Invite → Bool) (disk : Disk)
    (inv : Invite) where
  saved :
      disk.writable ≡ true
      → lookup token (load disk) ≡ some inv
      → mutate token f granted disk
        ≡ (done (granted inv), record disk { file = written (put token (f inv) (load disk)) })
  unfolding save
  saved w e = mutate-found token f granted disk inv e ∙ simp w refl

  -- What a change leaves under its token.
  pub changed :
      disk.writable ≡ true
      → get_invite token disk ≡ some inv
      → ((mutate token f granted disk).0 ≡ done (granted inv))
        × ((mutate token f granted disk).1.writable ≡ true)
        × (get_invite token (mutate token f granted disk).1 ≡ some (f inv))
  unfolding get_invite load
  changed w e =
      let s = saved w e in
      (
        ap (λ r. r.0) s,
        ap (λ r. r.1.writable) s ∙ w,
        ap (λ r. lookup token (load r.1)) s ∙ lookup-put token (f inv) (load disk),
      )

leb_iff : (a b : ℕ) → (done (leb a b) ≡ done true) ↔ (a ≤ b)
leb_iff a b = ground arith

polled_due :
    (inv : Invite) (now later : ℕ)
    → (done (is_due later (record inv { last_poll_at = some now })) ≡ done true)
      ↔ (now + or_five inv.interval ≤ later)
unfolding is_due
polled_due inv now later = leb_iff (now + or_five inv.interval) later

due_after :
    (inv : Invite) (now later : ℕ)
    → is_due now inv ≡ true
    → (done (is_due later (checked now inv)) ≡ done true) ↔ (now + or_five inv.interval ≤ later)
due_after inv now later due =
    subst (λ i. (done (is_due later i) ≡ done true) ↔ (now + or_five inv.interval ≤ later))
      (sym (simp due refl)) (polled_due inv now later)

-- On a disk that takes the write, after a poll that is granted at `now` the next one is granted exactly from `now` plus the
-- invite's interval on, 5 seconds where it has none.
pub due_for_poll-again :
    (token : String) (disk : Disk) (inv : Invite) (now later : ℕ)
    → disk.writable ≡ true
    → get_invite token disk ≡ some inv
    → is_due now inv ≡ true
    → ((due_for_poll token now disk).0 ≡ done true)
      × (((due_for_poll token later (due_for_poll token now disk).1).0 ≡ done true)
          ↔ (now + or_five inv.interval ≤ later))
unfolding due_for_poll
due_for_poll-again token disk inv now later w e due =
    let first = changed token (checked now) (is_due now) disk inv w e in
    let second =
      changed token (checked later) (is_due later) (mutate token (checked now) (is_due now) disk).1
        (checked now inv) first.1 first.2 in
    (
      first.0 ∙ ap done due,
      subst (λ x. (x ≡ done true) ↔ (now + or_five inv.interval ≤ later)) (sym second.0)
          (due_after inv now later due),
    )

-- On a disk that takes the write, a device with an id that was set at a time that is not 0 makes an open, unexpired invite wait for its user
-- until 900 seconds have passed, and pend from then on.
pub set_device-status :
    (token : String) (disk : Disk) (inv : Invite) (device : Device) (now later : ℕ)
    → disk.writable ≡ true
    → get_invite token disk ≡ some inv
    → 1 ≤ now
    → str_eq device.device_auth_id "" ≡ false
    → is_set inv.used_at ≡ false
    → later ≤ inv.expires_at
    → (get_invite token (set_device token device now disk).1 ≡ some (with_device device now inv))
      × (status_of later (with_device device now inv)
          ≡ (if leb later (now + device_code_ttl_s) then awaiting else pending))
unfolding set_device status_of
set_device-status token disk inv device now later w e le named unused early =
    ((changed token (with_device device now) (λ i. true) disk inv w e).2, ground arith)
