-- ===== src/Control/Requests.antt =====
-- What the sidecar was asked for: the deposits among it, the requests that are permitted, and what
-- one call of `control` adds.
use unhardcoded.Prelude.{
  Option, Option-cases, inl, inr, none, some, ◌∙◌, ◌==◌, All, length, str_eq, ◌||◌, ◌&&◌, true,
  false, ℕ, sym, subst, ◌+◌, ◌≤◌, ◌≡◌, refl, Bool, not, String, List, [], ◌∷◌, arith, if◌then◌else◌,
  leb,
}
use unhardcoded.Ledger.{failed}
use unhardcoded.Exec.{
  Payload, nothing, ids, value_error, Exit, returned, Transport, bad_request, broken, answer,
  cancel, die, Body, amount, Sent, Core, seconds, Turn,
}
use unhardcoded.Exec.Ends.{Ends, Ends-pure, Ends-raise, Ends-if}
use unhardcoded.Store.{Environment}
use unhardcoded.Knobs.{min_topup_usdc, max_topup_usdc}
use unhardcoded.Keeper.Reclaim.Batch.{max_tx_per_cycle}
use unhardcoded.Control.{
  ControlResponse, leave, record_sent, next_turn, one_of, forbidden_control_ops,
  allowed_control_ops, classify, request, control_post, control, outcome_for,
}

-- An answer rules a transaction out by the body's own `attempted`, or without one by a status with
-- which the sidecar turns a request away before it acts.
abbrev pub answer_may_broadcast : ℕ → Option Bool → Bool
answer_may_broadcast status (some attempted) = attempted
answer_may_broadcast status none =
    not (status == 400 || status == 401 || status == 404 || status == 405 || status == 429)

abbrev pub statement_of : Option Payload → Option Bool
statement_of none = none
statement_of (some p) = p.attempted

-- Can the request have led to a transaction? This reads what came back, not what `_control_post`
-- makes of it: a request that was cut off may have, one that was never built has not.
unfoldable pub may_broadcast : Transport → Bool
may_broadcast bad_request = false
may_broadcast (answer status payload) = answer_may_broadcast status (statement_of payload)
may_broadcast broken = true
may_broadcast cancel = true
may_broadcast die = true

split_statement :
    (status : ℕ) (p : Payload)
    → (classify (answer status (some p))).attempted ≡ may_broadcast (answer status (some p))
unfolding classify may_broadcast
split_statement status p = elim (Option-cases p.attempted) [
  | inl e ↦ rw e (ground arith)
  | inr (b, e) ↦ rw e (ground arith)
]

-- `_control_post` never takes a request that may have been broadcast for one that was not
-- attempted, nor the other way round.
classify-attempted : (t : Transport) → (classify t).attempted ≡ may_broadcast t
unfolding classify may_broadcast
classify-attempted bad_request = refl
classify-attempted broken = refl
classify-attempted cancel = refl
classify-attempted die = refl
classify-attempted (answer status none) = ground arith
classify-attempted (answer status (some p)) = split_statement status p

abbrev pub usdc_of : Body → ℕ
usdc_of (amount n) = n
usdc_of _ = 0

-- What a request at second `at` asks to deposit in a window.
unfoldable pub asked : ℕ → ℕ → ℕ → Body → ℕ
asked lo hi at body = if leb lo at && leb at hi then usdc_of body else 0

unfoldable pub sent_in : ℕ → ℕ → List Sent → ℕ
sent_in lo hi [] = 0
sent_in lo hi (s ∷ ss) =
    (if may_broadcast s.transport then asked lo hi s.at s.body else 0) + sent_in lo hi ss

-- The bodies that each verb may have: a deposit within the two hard limits, a batch of one to
-- MAX_TX_PER_CYCLE channels, or nothing.
abbrev pub is_deposit_body : Body → Bool
is_deposit_body (amount n) = leb min_topup_usdc n && leb n max_topup_usdc
is_deposit_body _ = false

abbrev pub is_batch_body : Body → Bool
is_batch_body (ids l) = leb 1 (length l) && leb (length l) max_tx_per_cycle
is_batch_body _ = false

abbrev pub is_empty_body : Body → Bool
is_empty_body nothing = true
is_empty_body _ = false

-- A request that the keeper may make: one of five verbs, with a body of its kind.
unfoldable pub is_permitted : String → Body → Bool
is_permitted op body =
    if str_eq op "deposit"
    then is_deposit_body body
    else if str_eq op "reclaim/scan" || str_eq op "reclaim/set-operator"
    then is_empty_body body
    else if str_eq op "reclaim/request-close" || str_eq op "reclaim/withdraw"
    then is_batch_body body
    else false

abbrev pub Permitted : List Sent → Type 0
Permitted sent = All (λ s. is_permitted s.op s.body ≡ true) sent

-- How a call of `control` from core `c` ends.
pub record Requested (op : String) (body : Body) (c : Core) (r : Exit ControlResponse) (c' : Core)
    : Type 0 where
  pub same_ledger : c'.ledger ≡ c.ledger
  pub later : c.clock_ms ≤ c'.clock_ms
  pub within :
      (lo hi : ℕ) → sent_in lo hi c'.sent ≤ asked lo hi (seconds c) body + sent_in lo hi c.sent
  pub failed_free :
      (resp : ControlResponse)
      → r ≡ returned resp
      → outcome_for resp ≡ failed
      → (lo hi : ℕ) → sent_in lo hi c'.sent ≤ sent_in lo hi c.sent
  pub permitted : is_permitted op body ≡ true → Permitted c.sent → Permitted c'.sent

failed-attempted : (resp : ControlResponse) → outcome_for resp ≡ failed → resp.attempted ≡ false
unfolding outcome_for
failed-attempted resp h = ground arith

returned_inj {ℓ} : {A : Type ℓ} (a b : A) → returned a ≡ returned b → a ≡ b
returned_inj a b e = cc

module _ (body : Body) (c : Core) where
  unsent : (op : String) (r : Exit ControlResponse) → Requested op body c r c
  unsent op r = record {
    same_ledger = refl;
    later = omega arith;
    within = λ lo hi. omega arith;
    failed_free = λ resp e f lo hi. omega arith;
    permitted = λ h a. a;
  }

  -- The core after a request that took `ms` and ended in `t`.
  abbrev reached : String → ℕ → List Turn → Transport → Core
  reached op ms turns t = record c {
    clock_ms = c.clock_ms + ms;
    turns = turns;
    sent = record_sent (seconds c) op body t c.sent;
  }

  reached-within :
      (op : String) (ms : ℕ) (turns : List Turn) (t : Transport) (lo hi : ℕ)
      → sent_in lo hi (reached op ms turns t).sent
        ≤ (if may_broadcast t then asked lo hi (seconds c) body else 0) + sent_in lo hi c.sent
  unfolding sent_in
  reached-within op ms turns bad_request lo hi = omega arith
  reached-within op ms turns t lo hi = omega arith

  at_most : (b : Bool) (n : ℕ) → (if b then n else 0) ≤ n
  at_most true n = omega arith
  at_most false n = omega arith

  unattempted :
      (t : Transport) (resp : ControlResponse)
      → returned (classify t) ≡ returned resp
      → outcome_for resp ≡ failed
      → may_broadcast t ≡ false
  unattempted t resp e f =
      sym (classify-attempted t)
      ∙ failed-attempted _ (subst (λ x. outcome_for x ≡ failed) (sym (returned_inj _ _ e)) f)

  failed_unattempted :
      (t : Transport) (resp : ControlResponse)
      → leave t ≡ returned resp
      → outcome_for resp ≡ failed
      → may_broadcast t ≡ false
  failed_unattempted cancel resp e f = cc
  failed_unattempted die resp e f = cc
  failed_unattempted bad_request resp e f = unattempted bad_request resp e f
  failed_unattempted broken resp e f = unattempted broken resp e f
  failed_unattempted (answer n p) resp e f = unattempted (answer n p) resp e f

  free :
      (op : String) (ms : ℕ) (turns : List Turn) (t : Transport) (lo hi : ℕ)
      → may_broadcast t ≡ false
      → sent_in lo hi (reached op ms turns t).sent ≤ sent_in lo hi c.sent
  free op ms turns t lo hi e = let h = (rw e at (reached-within op ms turns t lo hi)) in omega arith

  reached-Permitted :
      (op : String) (ms : ℕ) (turns : List Turn) (t : Transport)
      → is_permitted op body ≡ true
      → Permitted c.sent
      → Permitted (reached op ms turns t).sent
  reached-Permitted op ms turns bad_request h a = a
  reached-Permitted op ms turns t h a = (h, a)

  reached-Requested :
      (op : String) (ms : ℕ) (turns : List Turn) (t : Transport)
      → Requested op body c (leave t) (reached op ms turns t)
  reached-Requested op ms turns t = record {
    same_ledger = refl;
    later = omega arith;
    within = λ lo hi. omega (
      arith,
      reached-within op ms turns t lo hi,
      at_most (may_broadcast t) (asked lo hi (seconds c) body),
    );
    failed_free = λ resp e f lo hi. free op ms turns t lo hi (failed_unattempted t resp e f);
    permitted = λ h a. reached-Permitted op ms turns t h a;
  }

  pub request-Requested : (op : String) → Ends (request op body) c (Requested op body c)
  unfolding request
  request-Requested op = record {
    run = λ fs. reached-Requested op _ _ (next_turn c.turns).transport;
  }

  pub control-Requested :
      (env : Environment) (op : String) → Ends (control env op body) c (Requested op body c)
  unfolding control control_post
  control-Requested env op =
      Ends-if (one_of op forbidden_control_ops) _ _ (λ _. Ends-raise value_error (unsent op _))
        (λ _.
          Ends-if (not (one_of op allowed_control_ops)) _ _
            (λ _. Ends-raise value_error (unsent op _))
            (λ _.
              Ends-if (not env.control_configured) _ _ (λ _. Ends-pure _ (unsent op _))
                (λ _.
                  Ends-if (not env.httpx_available) _ _ (λ _. Ends-pure _ (unsent op _))
                    (λ _. request-Requested op))))
