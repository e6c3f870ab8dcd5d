-- ===== src/Control/Allowlist.antt =====
-- The allowlist of `control`: which verbs can reach the sidecar at all.
use unhardcoded.Prelude.{
  ◌≡◌, ◌↔◌, refl, ap, ◌⊎◌, inl, inr, true, String, arith, eq_iff, str_eq, Bool-cases, subst, sym,
}
use unhardcoded.Exec.{
  World, raised, value_error, Body, Transport, bad_request, broken, cancel, die, answer,
}
use unhardcoded.Store.{Environment}
use unhardcoded.Control.{
  control, control_post, request, leave, next_turn, one_of, allowed_control_ops,
}

-- The five verbs, of which none takes USDC out of the escrow.
abbrev pub IsVerb : String → Type 0
IsVerb op =
    (op ≡ "deposit")
    ⊎ (op ≡ "reclaim/scan")
    ⊎ (op ≡ "reclaim/set-operator")
    ⊎ (op ≡ "reclaim/request-close")
    ⊎ (op ≡ "reclaim/withdraw")

leave-raises : (t : Transport) → ¬ (leave t ≡ raised value_error)
leave-raises bad_request e = cc
leave-raises broken e = cc
leave-raises cancel e = cc
leave-raises die e = cc
leave-raises (answer n p) e = cc

control_post-raises :
    (env : Environment) (body : Body) (w : World) (op : String)
    → ¬ ((control_post env op body w).0 ≡ raised value_error)
unfolding control_post request
control_post-raises env body w op e = elim (Bool-cases env.control_configured) [
  | inl a ↦ elim (Bool-cases env.httpx_available) [
    | inl b ↦ leave-raises (next_turn w.core.turns).transport (simp (a, b) at e)
    | inr b ↦ let h = (simp (a, b) at e) in cc
  ]
  | inr a ↦ let h = (simp a at e) in cc
]

verb-passes :
    (env : Environment) (body : Body) (op : String)
    → IsVerb op
    → control env op body ≡ control_post env op body
unfolding control
verb-passes env body op v = elim v [
  | inl e ↦ rw e refl
  | inr v1 ↦ elim v1 [
    | inl e ↦ rw e refl
    | inr v2 ↦ elim v2 [
      | inl e ↦ rw e refl
      | inr v3 ↦ elim v3 [ inl e ↦ rw e refl | inr e ↦ rw e refl ]
    ]
  ]
]

one_of-IsVerb : (op : String) → one_of op allowed_control_ops ≡ true → IsVerb op
one_of-IsVerb op h = elim (Bool-cases (str_eq "deposit" op)) [
  | inl e ↦ inl (sym ((eq_iff _ _).0 e))
  | inr n0 ↦ elim (Bool-cases (str_eq "reclaim/scan" op)) [
    | inl e ↦ inr (inl (sym ((eq_iff _ _).0 e)))
    | inr n1 ↦ elim (Bool-cases (str_eq "reclaim/set-operator" op)) [
      | inl e ↦ inr (inr (inl (sym ((eq_iff _ _).0 e))))
      | inr n2 ↦ elim (Bool-cases (str_eq "reclaim/request-close" op)) [
        | inl e ↦ inr (inr (inr (inl (sym ((eq_iff _ _).0 e)))))
        | inr n3 ↦ elim (Bool-cases (str_eq "reclaim/withdraw" op)) [
          | inl e ↦ inr (inr (inr (inr (sym ((eq_iff _ _).0 e)))))
          | inr n4 ↦ let f = (simp (n0, n1, n2, n3, n4) at h) in absurd cc
        ]
      ]
    ]
  ]
]

refused_lem :
    (env : Environment) (body : Body) (w : World) (op : String)
    → ¬ IsVerb op
    → control env op body w ≡ (raised value_error, w)
unfolding control
refused_lem env body w op v = elim (Bool-cases (one_of op allowed_control_ops)) [
  | inl h ↦ absurd (v (one_of-IsVerb op h))
  | inr h ↦ ground arith
]

-- `control` raises a ValueError, and leaves the world as it is, for exactly the verbs other than
-- deposit, reclaim/scan, reclaim/set-operator, reclaim/request-close and reclaim/withdraw.
pub control_refuses :
    (env : Environment) (op : String) (body : Body) (w : World)
    → (control env op body w ≡ (raised value_error, w)) ↔ (¬ IsVerb op)
control_refuses env op body w = (
  λ e v.
      control_post-raises env body w op
        (subst (λ m. (m w).0 ≡ raised value_error) (verb-passes env body op v) (ap (λ r. r.0) e)),
  refused_lem env body w op,
)
