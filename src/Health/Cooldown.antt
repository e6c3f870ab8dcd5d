-- ===== src/Health/Cooldown.antt =====
-- The bounds of `_cooldown_until`, and how it grows with the failures.
use unhardcoded.Prelude.{
  ℕ, zero, suc, ◌+◌, ◌-◌, ◌*◌, ◌^◌, ◌≤◌, ◌≡◌, refl, String, Bool, true, false, Option, some, arith,
  min, ◌==◌, ◌⊎◌, inl, inr, ◌≢◌, Option-cases,
}
use native.Mathlib.Nat.{pow-suc}
use unhardcoded.Health.{HealthState, cooldown_base, cooldown_max, cooldown_of, cooldown_until}

pow_pos : (n : ℕ) → 1 ≤ 2 ^ n
pow_pos zero = omega arith
pow_pos (suc n) = rw pow-suc (omega (arith, pow_pos n))

pow_grows_by : (n d : ℕ) → 2 ^ n ≤ 2 ^ (d + n)
pow_grows_by n zero = let e : 0 + n ≡ n = omega arith in rw e (omega arith)
pow_grows_by n (suc d) =
    let e : suc d + n ≡ suc (d + n) = omega arith in
    rw (e, pow-suc) (omega (arith, pow_grows_by n d))

pow_grows : (m n : ℕ) → m ≤ n → 2 ^ m ≤ 2 ^ n
pow_grows m n h = let e : n ≡ (n - m) + m = omega arith in rw e (pow_grows_by m (n - m))

base_le_max :
    (peer : Bool) (kind : Option String) → cooldown_base peer kind ≤ cooldown_max peer kind
base_le_max true kind = ground arith
base_le_max false kind = ground arith

max_le_six_hours : (peer : Bool) (kind : Option String) → cooldown_max peer kind ≤ 21_600_000
max_le_six_hours true kind = ground arith
max_le_six_hours false kind = ground arith

multiplied :
    (t base top p : ℕ)
    → 1 ≤ p
    → base ≤ top
    → (t + base ≤ t + min top (base * p)) × (t + min top (base * p) ≤ t + top)
multiplied t base top p h le = let m : base ≤ base * p = grind arith in (omega arith, omega arith)

raised : (t base top p q : ℕ) → p ≤ q → t + min top (base * p) ≤ t + min top (base * q)
raised t base top p q h = let m : base * p ≤ base * q = grind arith in omega arith

zero-cases : (n : ℕ) → (n ≡ 0) ⊎ ((n == 0) ≡ false)
zero-cases zero = inl refl
zero-cases (suc n) = inr (ground arith)

positive : (n m : ℕ) → (n == 0) ≡ false → n ≤ m → m ≢ 0
positive n m z h e = ground arith

-- A state with a failure holds its route or peer back, after the latest failure, for at least the
-- base and at most the maximum of its kind of error, which is never more than six hours.
pub cooldown_until-bounds :
    (peer : Bool) (s : HealthState) (failed_at : ℕ)
    → s.last_failure_at ≡ some failed_at
    → 1 ≤ s.consecutive_failures
    → (failed_at + cooldown_base peer s.latest_error_kind ≤ cooldown_until peer (some s))
      × (cooldown_until peer (some s) ≤ failed_at + cooldown_max peer s.latest_error_kind)
      × (cooldown_max peer s.latest_error_kind ≤ 21_600_000)
unfolding cooldown_until cooldown_of
cooldown_until-bounds peer s t e h = rw e (
    let p =
      multiplied t (cooldown_base peer s.latest_error_kind) (cooldown_max peer s.latest_error_kind)
        (2 ^ min (s.consecutive_failures - 1) 10) (pow_pos _)
        (base_le_max peer s.latest_error_kind) in
    let top = max_le_six_hours peer s.latest_error_kind in
    elim (zero-cases s.consecutive_failures) [
      | inl z ↦ absurd (omega arith)
      | inr z ↦ rw z (p.0, p.1, top)
    ])

-- More failures in a row never shorten the wait.
cooldown_until-grows :
    (peer : Bool) (s : HealthState) (more : ℕ)
    → s.consecutive_failures ≤ more
    → cooldown_until peer (some s)
      ≤ cooldown_until peer (some (record s { consecutive_failures = more }))
unfolding cooldown_until cooldown_of
cooldown_until-grows peer s more h = elim (Option-cases s.last_failure_at) [
  | inl e ↦ rw e (omega arith)
  | inr (t, e) ↦ rw e (elim (zero-cases s.consecutive_failures) [
    | inl z ↦ rw z (omega arith)
    | inr z ↦ elim (zero-cases more) [
      | inl y ↦ absurd (positive _ _ z h y)
      | inr y ↦
          rw (z, y)
            (raised t (cooldown_base peer s.latest_error_kind)
              (cooldown_max peer s.latest_error_kind) _ _ (pow_grows _ _ (omega arith)))
    ]
  ])
]
