-- ===== src/Control.antt =====
-- The sidecar's control server as wallet_keeper.py calls it: `_control_post`, `control` and
-- `_outcome_for`. How the HTTP request goes is an input. A request that takes longer than its
-- timeout is a broken one.
pub mod Requests
pub mod Allowlist
use unhardcoded.Prelude.{
  ℕ, ◌+◌, String, Bool, true, false, not, Option, none, some, List, [], ◌∷◌, if◌then◌else◌, ◌==◌,
  str_eq, any,
}
use unhardcoded.Ledger.{Outcome, fired, failed, unknown}
use unhardcoded.Store.{Environment}
use unhardcoded.Exec.{
  value_error, cancelled, died, Exit, returned, raised, Channel, Payload, Transport, bad_request,
  broken, answer, cancel, die, Turn, Body, Sent, Core, M, seconds, pure, raise,
}

-- The dict that `_control_post` returns.
pub record ControlResponse : Type 0 where
  pub ok : Bool
  pub attempted : Bool
  pub operator_is_self : Bool
  pub channels : List Channel
  pub selected : Option (List (List ℕ))

-- A response that is not ok.
abbrev pub refused : Bool → ControlResponse
refused attempted = record {
  ok = false;
  attempted = attempted;
  operator_is_self = false;
  channels = [];
  selected = none;
}

-- NOT_ATTEMPTED_STATUSES
abbrev pub not_attempted_statuses : List ℕ
not_attempted_statuses = 400 ∷ 401 ∷ 404 ∷ 405 ∷ 429 ∷ []

-- The fallback for a response that does not state `attempted`.
abbrev pub status_attempted : ℕ → Bool
status_attempted status = not (any (λ s. s == status) not_attempted_statuses)

abbrev or_default : Option Bool → Bool → Bool
or_default none d = d
or_default (some b) d = b

-- `payload.get("attempted")` of a body that may be unreadable.
abbrev stated : Option Payload → Option Bool
stated none = none
stated (some p) = p.attempted

-- A response with status 200.
abbrev accepted : Option Payload → ControlResponse
accepted none = refused true
accepted (some p) = record {
  ok = or_default p.ok true;
  attempted = or_default p.attempted true;
  operator_is_self = p.operator_is_self;
  channels = p.channels;
  selected = p.selected;
}

-- What `_control_post` makes of a request that came to an end.
unfoldable pub classify : Transport → ControlResponse
classify bad_request = refused false
classify (answer status payload) =
    if status == 200
    then accepted payload
    else refused (or_default (stated payload) (status_attempted status))
classify _ = refused true

abbrev next_turn : List Turn → Turn
next_turn [] = record { elapsed_ms = 0; transport = broken }
next_turn (t ∷ ts) = t

abbrev later_turns : List Turn → List Turn
later_turns [] = []
later_turns (t ∷ ts) = ts

abbrev leave : Transport → Exit ControlResponse
leave cancel = raised cancelled
leave die = raised died
leave t = returned (classify t)

-- A request that httpx refuses to build is not sent.
abbrev record_sent : ℕ → String → Body → Transport → List Sent → List Sent
record_sent now op body bad_request sent = sent
record_sent now op body t sent = record { at = now; op = op; body = body; transport = t } ∷ sent

-- The request itself takes the next turn, and the clock moves on.
abbrev pub after_request : String → Body → Core → Core
after_request op body c =
    let t = next_turn c.turns in
    record c {
      clock_ms = c.clock_ms + t.elapsed_ms;
      turns = later_turns c.turns;
      sent = record_sent (seconds c) op body t.transport c.sent;
    }

unfoldable pub request : String → Body → M ControlResponse
request op body w =
    (leave (next_turn w.core.turns).transport, record w { core = after_request op body w.core })

unfoldable pub control_post : Environment → String → Body → M ControlResponse
control_post env op body =
    if not env.control_configured
    then pure (refused false)
    else if not env.httpx_available
    then pure (refused false)
    else request op body

-- ALLOWED_CONTROL_OPS
abbrev pub allowed_control_ops : List String
allowed_control_ops =
    "deposit" ∷ "reclaim/scan" ∷ "reclaim/set-operator" ∷ "reclaim/request-close"
    ∷ "reclaim/withdraw" ∷ []

-- FORBIDDEN_CONTROL_OPS
abbrev pub forbidden_control_ops : List String
forbidden_control_ops = "withdraw" ∷ "buyer/withdraw" ∷ "/withdraw" ∷ []

-- `op in ops`
abbrev pub one_of : String → List String → Bool
one_of op ops = any (λ o. str_eq o op) ops

unfoldable pub control : Environment → String → Body → M ControlResponse
control env op body =
    if one_of op forbidden_control_ops
    then raise value_error
    else if not (one_of op allowed_control_ops)
    then raise value_error
    else control_post env op body

unfoldable pub outcome_for : ControlResponse → Outcome
outcome_for resp = if resp.ok then fired else if resp.attempted then unknown else failed
