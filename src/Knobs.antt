-- ===== src/Knobs.antt =====
-- `Knobs` and `load_knobs` of wallet_keeper.py. Amounts are micro-USDC.
pub mod Laws
use unhardcoded.Prelude.{ℕ, ◌<◌, ◌≤◌, Bool, if◌then◌else◌, leb, ltb}

pub record Knobs : Type 0 where
  pub enabled : Bool
  pub min_available_usdc : ℕ
  pub topup_trigger_usdc : ℕ
  pub topup_amount_usdc : ℕ
  pub topup_wallet_floor_usdc : ℕ
  pub topup_daily_cap_usdc : ℕ
  pub topup_cooldown_s : ℕ
  pub reclaim_min_usdc : ℕ

-- MAX_TOPUP_USDC, MIN_TOPUP_USDC
abbrev pub max_topup_usdc : ℕ
max_topup_usdc = 50_000_000

abbrev pub min_topup_usdc : ℕ
min_topup_usdc = 10_000

-- The three relations that raise `KnobError`.
pub data KnobError : Type 0 where
  trigger_not_above amount_over_cap amount_over_limit : KnobError

pub data KnobResult : Type 0 where
  knobs : Knobs → KnobResult
  knob_error : KnobError → KnobResult

-- From the values that `settings.get` gave.
unfoldable pub load_knobs : Knobs → KnobResult
load_knobs k =
    if leb k.topup_trigger_usdc k.min_available_usdc
    then knob_error trigger_not_above
    else if ltb k.topup_daily_cap_usdc k.topup_amount_usdc
    then knob_error amount_over_cap
    else if ltb max_topup_usdc k.topup_amount_usdc
    then knob_error amount_over_limit
    else knobs k

-- The relations that hold of knobs that can be acted on.
pub record IsConsistent (k : Knobs) : Type 0 where
  pub reacts_first : k.min_available_usdc < k.topup_trigger_usdc
  pub fits_cap : k.topup_amount_usdc ≤ k.topup_daily_cap_usdc
  pub fits_limit : k.topup_amount_usdc ≤ max_topup_usdc
