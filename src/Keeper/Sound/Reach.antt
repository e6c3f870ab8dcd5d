-- ===== src/Keeper/Sound/Reach.antt =====
-- What every run of the keeper satisfies: cycles, in any order and cut off anywhere, with time that
-- passes, sidecar answers as they come, and an operator who clears halts.
use unhardcoded.Prelude.{ℕ, ◌+◌, ◌≤◌, ◌≡◌, true, false, String, Option, List, [], arith}
use unhardcoded.Ledger.{HaltKind, empty_ledger, without_halt, halt_stands}
use unhardcoded.Ledger.Halts.{Descending-keep, spent_in-without_halt}
use unhardcoded.Ledger.Sums.{spent_in}
use unhardcoded.Exec.{Core, World, Fault, Turn}
use unhardcoded.Exec.Ends.{Ends-store_call}
use unhardcoded.Store.{Environment, wallet_clear_halt}
use unhardcoded.Knobs.{Knobs}
use unhardcoded.Control.Requests.{sent_in, Permitted}
use unhardcoded.Keeper.Topup.{day_s}
use unhardcoded.Keeper.Cycle.{cycle}
use unhardcoded.Keeper.Sound.{Limit, is_of, of_all}
use unhardcoded.Keeper.Sound.Writes.{Sound, Safe}
use unhardcoded.Keeper.Sound.Cycles.{CapWithin, cycle-Safe}

-- A first start: an empty table, nothing sent.
abbrev pub start_core : ℕ → Core
start_core now = record { ledger = empty_ledger; clock_ms = now; turns = []; sent = [] }

abbrev pub world_of : Core → List Fault → World
world_of c faults = record { core = c; faults = faults }

-- What happens without an operator. `limit` bounds the daily cap of every cycle; all else may
-- change from cycle to cycle.
pub data Move (limit : ℕ) : Core → Core → Type 0 where
  cycles :
      (env : Environment) (settings : Option Knobs) (pids : List String) (faults : List Fault)
      (c : Core)
      → CapWithin limit settings
      → Move limit c (cycle env settings pids (world_of c faults)).1.core
  waits : (ms : ℕ) (c : Core) → Move limit c (record c { clock_ms = c.clock_ms + ms })
  answers_with : (turns : List Turn) (c : Core) → Move limit c (record c { turns = turns })

pub data Step (limit : ℕ) : Core → Core → Type 0 where
  moves : {c d : Core} → Move limit c d → Step limit c d
  clears :
      (pid : String) (kind : HaltKind) (faults : List Fault) (c : Core)
      → Step limit c (wallet_clear_halt pid kind (world_of c faults)).1.core

pub data Run (limit : ℕ) (c : Core) : Core → Type 0 where
  still : Run limit c c
  then_moves : {d e : Core} → Run limit c d → Move limit d e → Run limit c e

pub data Reach (limit : ℕ) (c : Core) : Core → Type 0 where
  here : Reach limit c c
  next : {d e : Core} → Reach limit c d → Step limit d e → Reach limit c e

abbrev no_halts : ℕ → Limit
no_halts usdc = record { usdc = usdc; halts = λ q kind. false }

module _ (p : String) (limit : Limit) where
  pub Move-Sound : {c d : Core} → Move limit.usdc c d → Sound p limit c → Sound p limit d
  Move-Sound (cycles env settings pids faults c bound) s =
      (cycle-Safe p limit env settings pids c bound s).run faults
  Move-Sound (waits ms c) s = record {
    distinct = s.distinct;
    capped = s.capped;
    covered = s.covered;
    stands = s.stands;
    permitted = s.permitted;
  }
  Move-Sound (answers_with turns c) s = record {
    distinct = s.distinct;
    capped = s.capped;
    covered = s.covered;
    stands = s.stands;
    permitted = s.permitted;
  }

  pub Run-Sound : {c d : Core} → Run limit.usdc c d → Sound p limit c → Sound p limit d
  Run-Sound still s = s
  Run-Sound (then_moves r m) s = Move-Sound m (Run-Sound r s)

module _ (p : String) (limit : ℕ) where
  clear_halt-Safe :
      (pid : String) (kind : HaltKind) (c : Core)
      → Sound p (no_halts limit) c
      → Safe p (no_halts limit) (wallet_clear_halt pid kind) c
  unfolding wallet_clear_halt
  clear_halt-Safe pid kind c s =
      Ends-store_call _ _
        (record {
          distinct =
              unfold without_halt in Descending-keep _ c.ledger.next_id c.ledger.rows s.distinct;
          capped = λ lo. omega (
            arith,
            s.capped lo,
            spent_in-without_halt (is_of p) lo (lo + day_s) pid kind c.ledger.rows,
          );
          covered = λ lo hi.
              omega
                (arith, s.covered lo hi, spent_in-without_halt of_all lo hi pid kind c.ledger.rows);
          stands = λ q k e. cc;
          permitted = s.permitted;
        })
        s s

  pub Step-Sound :
      {c d : Core} → Step limit c d → Sound p (no_halts limit) c → Sound p (no_halts limit) d
  Step-Sound (moves m) s = Move-Sound p (no_halts limit) m s
  Step-Sound (clears pid kind faults c) s = (clear_halt-Safe pid kind c s).run faults

  pub Reach-Sound :
      {c d : Core} → Reach limit c d → Sound p (no_halts limit) c → Sound p (no_halts limit) d
  Reach-Sound here s = s
  Reach-Sound (next r st) s = Step-Sound st (Reach-Sound r s)

  pub start-Sound : (now : ℕ) → Sound p (no_halts limit) (start_core now)
  unfolding spent_in sent_in
  start-Sound now = record {
    distinct = tt;
    capped = λ lo. omega arith;
    covered = λ lo hi. omega arith;
    stands = λ q k e. cc;
    permitted = tt;
  }

-- In every core that a keeper reaches from an empty table, with daily caps of at most `limit`, the
-- top-ups of provider `p` that count as spent in any 86400 seconds (both ends included) sum up to
-- at most `limit`, whatever store calls fail, whatever the sidecar answers and wherever the process
-- dies.
pub Reach-capped :
    (p : String) (limit now : ℕ) (c : Core)
    → Reach limit (start_core now) c
    → (lo : ℕ) → spent_in (is_of p) lo (lo + day_s) c.ledger.rows ≤ limit
Reach-capped p limit now c r = (Reach-Sound p limit r (start-Sound p limit now)).capped

-- In every core that a keeper reaches from an empty table, whatever fails: the USDC of the deposits
-- sent to the sidecar from second `lo` to `hi` that may have led to a transaction, summed over all
-- providers, is at most the sum of all providers' top-ups of the ledger that count as spent in that
-- time. A deposit may have led to one unless the answer states that nothing was attempted, or states
-- nothing and has status 400, 401, 404, 405 or 429: a broken or cut off request always may.
pub Reach-covered :
    (limit now : ℕ) (c : Core)
    → Reach limit (start_core now) c
    → (lo hi : ℕ) → sent_in lo hi c.sent ≤ spent_in of_all lo hi c.ledger.rows
Reach-covered limit now c r = (Reach-Sound "" limit r (start-Sound "" limit now)).covered

-- In every core that a keeper reaches from an empty table, every request that was sent is one of
-- the five verbs with a body of its kind: a deposit from MIN_TOPUP_USDC to MAX_TOPUP_USDC, a close
-- or a withdrawal that names one to MAX_TX_PER_CYCLE channels, a scan or a set-operator with no
-- body.
pub Reach-Permitted : (limit now : ℕ) (c : Core) → Reach limit (start_core now) c → Permitted c.sent
Reach-Permitted limit now c r = (Reach-Sound "" limit r (start-Sound "" limit now)).permitted

-- In a core that a keeper reaches, a halt that stands stands through every further run in which the
-- operator clears nothing: no cycle, failed call or end of the process removes it.
pub Run-halt_stands :
    (limit now : ℕ) (pid : String) (kind : HaltKind) (c d : Core)
    → Reach limit (start_core now) c
    → halt_stands pid kind c.ledger.rows ≡ true
    → Run limit c d
    → halt_stands pid kind d.ledger.rows ≡ true
Run-halt_stands limit now pid kind c d reached h r =
    let s = Reach-Sound pid limit reached (start-Sound pid limit now) in
    (Run-Sound pid (record { usdc = limit; halts = λ q k. halt_stands q k c.ledger.rows }) r
        (record {
          distinct = s.distinct;
          capped = s.capped;
          covered = s.covered;
          stands = λ q k e. e;
          permitted = s.permitted;
        })).stands
      pid kind h
