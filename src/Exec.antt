-- ===== src/Exec.antt =====
-- The keeper's world, and the monad in which its methods run.
--
-- A method may raise, and what it did before it raised stays done. The environment is part of the
-- world: a list that says how each next store call goes, a list of how each next request to the
-- sidecar goes, and the clock. Between two requests the clock stands still.
pub mod Ends
use unhardcoded.Prelude.{ℕ, ◌/◌, String, Bool, Option, List, [], ◌∷◌}
use unhardcoded.Ledger.{Ledger}

-- How a call of the database goes. `dies` is the end of the process.
pub data Fault : Type 0 where
  answers errors dies : Fault

-- What leaves a method early: `asyncio.CancelledError`, the `ValueError` of `control`, the
-- `ZeroDivisionError` of a division of amounts, and the end of the process, which no handler sees.
pub data Exn : Type 0 where
  cancelled value_error zero_division died : Exn

pub data Exit {ℓ} (A : Type ℓ) : Type ℓ where
  returned : A → Exit A
  raised : Exn → Exit A

-- A channel of a scan, with its `reclaimable` read by `as_float`, in micro-USDC, and its id as a
-- list of code points, empty if it has none.
pub record Channel : Type 0 where
  pub id : List ℕ
  pub close_requested : Bool
  pub reclaimable : Option ℕ

-- The JSON object of an answer. `none` at `ok` and `attempted` is an absent key or, for
-- `attempted`, a value that is no boolean.
pub record Payload : Type 0 where
  pub ok : Option Bool
  pub attempted : Option Bool
  pub operator_is_self : Bool
  pub channels : List Channel
  pub selected : Option (List (List ℕ))

-- How the request to the sidecar ends: refused while it is built, broken on the wire, an answer
-- (its status, and its body if that is a JSON object), cancelled, or the end of the process.
pub data Transport : Type 0 where
  bad_request broken : Transport
  answer : ℕ → Option Payload → Transport
  cancel die : Transport

pub record Turn : Type 0 where
  pub elapsed_ms : ℕ
  pub transport : Transport

-- The JSON body of a request.
pub data Body : Type 0 where
  nothing : Body
  amount : ℕ → Body
  ids : List (List ℕ) → Body

-- A request that was handed to the HTTP client at second `at`, and how it ended. The code keeps no
-- such list: it is there to state what the keeper asks of the sidecar.
pub record Sent : Type 0 where
  pub at : ℕ
  pub op : String
  pub body : Body
  pub transport : Transport

-- What the store calls leave alone or change by rule.
pub record Core : Type 0 where
  pub ledger : Ledger
  pub clock_ms : ℕ
  pub turns : List Turn
  pub sent : List Sent

pub record World : Type 0 where
  pub core : Core
  pub faults : List Fault

-- `int(time.time())`
abbrev pub seconds : Core → ℕ
seconds c = c.clock_ms / 1000

abbrev pub M {ℓ} : Type ℓ → Type ℓ
M A = World → Exit A × World

module _ {ℓ} {A : Type ℓ} where
  abbrev pub pure : A → M A
  pure a w = (returned a, w)

  abbrev pub raise : Exn → M A
  raise e w = (raised e, w)

  abbrev pub gets : (Core → A) → M A
  gets f w = (returned (f w.core), w)

-- One call of the database: `run` if it answers, the value of the `except` branch if not. An empty
-- list of faults answers from then on.
unfoldable pub under_fault {ℓ} :
    {A : Type ℓ} → List Fault → (Core → A × Core) → A → Core → Exit A × World
under_fault [] run failsafe c =
    let (a, c') = run c in (returned a, record { core = c'; faults = [] })
under_fault (answers ∷ fs) run failsafe c =
    let (a, c') = run c in (returned a, record { core = c'; faults = fs })
under_fault (errors ∷ fs) run failsafe c = (returned failsafe, record { core = c; faults = fs })
under_fault (dies ∷ fs) run failsafe c = (raised died, record { core = c; faults = fs })

module _ {ℓ} {A : Type ℓ} where
  unfoldable pub store_call : (Core → A × Core) → (Core → A) → M A
  unfolding under_fault
  store_call run failsafe w = under_fault w.faults run (failsafe w.core) w.core

  -- A call that reads, and one that writes the ledger.
  abbrev pub query : (Core → A) → (Core → A) → M A
  query f failsafe = store_call (λ c. (f c, c)) failsafe

module _ {ℓ κ} {A : Type ℓ} {B : Type κ} where
  unfoldable pub continue : Exit A → (A → M B) → M B
  continue (returned a) f w = f a w
  continue (raised e) f w = (raised e, w)

  infixl 10 ◌>>=◌ ◌>>◌
  unfoldable pub ◌>>=◌ : M A → (A → M B) → M B
  unfolding continue
  ◌>>=◌ m f w = let (r, w') = m w in continue r f w'

  abbrev pub ◌>>◌ : M A → M B → M B
  m >> n = m >>= λ _. n

module _ {ℓ κ} {A : Type ℓ} {B : Type κ} where
  unfoldable pub clean_up : Exit A → M B → M A
  unfolding continue
  clean_up (returned a) handler w = (returned a, w)
  clean_up (raised died) handler w = (raised died, w)
  clean_up (raised e) handler w = let (r, w') = handler w in continue r (λ _. raise e) w'

  -- `try: m except CancelledError: handler; raise except Exception: handler; raise`
  unfoldable pub on_raise : M A → M B → M A
  unfolding clean_up
  on_raise m handler w = let (r, w') = m w in clean_up r handler w'

-- `for x in xs: body(x)`
unfoldable pub for_each {ℓ} : {A : Type ℓ} → (A → M (Unit {0})) → List A → M (Unit {0})
for_each body [] = pure tt
for_each body (x ∷ xs) = do body x; for_each body xs
