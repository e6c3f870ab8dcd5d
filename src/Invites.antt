-- ===== src/Invites.antt =====
-- The invite links of codex_invites.py, `CodexInviteStore`. Each operation runs under the lock, so
-- it is one step on the file. Times are seconds of the store's clock, an argument here; the token
-- that `secrets` draws and the account's slug are arguments too. Where the source drops the answer of
-- `_mutate`, it is kept here.
pub mod Links
pub mod Polls
pub mod Used
use unhardcoded.Prelude.{
  ℕ, ◌+◌, ◌&&◌, String, Bool, true, false, not, Option, none, some, List, [], ◌∷◌, if◌then◌else◌,
  ltb, leb, ◌==◌, str_eq, keep,
}

-- The JSON object of an invite; `used_at` and the device's keys may be absent.
pub record Invite : Type 0 where
  pub name : String
  pub created_at : ℕ
  pub expires_at : ℕ
  pub used_at : Option ℕ
  pub device_auth_id : Option String
  pub user_code : Option String
  pub interval : Option ℕ
  pub device_started_at : Option ℕ
  pub last_poll_at : Option ℕ

abbrev pub Invites : Type 0
Invites = List (String × Invite)

-- _invites.json: absent, not JSON, or the object that the store wrote last.
pub data File : Type 0 where
  missing corrupt : File
  written : Invites → File

-- The disk takes the write of `_save` or raises OSError, and the old file stays.
pub record Disk : Type 0 where
  pub file : File
  pub writable : Bool

pub data Result {ℓ} (A : Type ℓ) : Type ℓ where
  done : A → Result A
  os_error : Result A

-- `_load`
unfoldable pub load : Disk → Invites
load disk = elim disk.file [ missing ↦ [] | corrupt ↦ [] | written invites ↦ invites ]

-- `_save`, and what the caller returns after it.
unfoldable pub save {ℓ} : {A : Type ℓ} → Invites → A → Disk → Result A × Disk
save invites a disk =
    if disk.writable then (done a, record disk { file = written invites }) else (os_error, disk)

-- `invites.get(token)`
unfoldable pub lookup : String → Invites → Option Invite
lookup token [] = none
lookup token ((t, inv) ∷ d) = let rest = lookup token d in if str_eq t token then some inv else rest

-- `invites[token] = inv`
unfoldable pub put : String → Invite → Invites → Invites
put token inv [] = (token, inv) ∷ []
put token inv ((t, old) ∷ d) =
    let rest = put token inv d in if str_eq t token then (t, inv) ∷ d else (t, old) ∷ rest

-- The truth of a value that may be absent: a number is true unless it is 0, a string unless empty.
abbrev pub is_set : Option ℕ → Bool
is_set none = false
is_set (some n) = not (n == 0)

abbrev pub is_text : Option String → Bool
is_text none = false
is_text (some s) = not (str_eq s "")

-- `inv.get("name") == slug and not inv.get("used_at")`
abbrev pub is_pending_for : String → Invite → Bool
is_pending_for slug inv = str_eq inv.name slug && not (is_set inv.used_at)

abbrev pub invite_ttl_s : ℕ
invite_ttl_s = 86_400

abbrev pub device_code_ttl_s : ℕ
device_code_ttl_s = 900

abbrev pub new_invite : String → ℕ → ℕ → Invite
new_invite slug now ttl_s = record {
  name = slug;
  created_at = now;
  expires_at = now + ttl_s;
  used_at = none;
  device_auth_id = none;
  user_code = none;
  interval = none;
  device_started_at = none;
  last_poll_at = none;
}

-- The invites that `create` keeps, and the new one.
unfoldable pub renewed : String → String → ℕ → ℕ → Invites → Invites
renewed slug token now ttl_s invites =
    put token (new_invite slug now ttl_s) (keep (λ e. not (is_pending_for slug e.1)) invites)

unfoldable pub create : String → ℕ → String → ℕ → Disk → Result Invite × Disk
create slug ttl_s token now disk =
    save (renewed slug token now ttl_s (load disk)) (new_invite slug now ttl_s) disk

-- `get`
unfoldable pub get_invite : String → Disk → Option Invite
get_invite token disk = lookup token (load disk)

-- `_mutate`, `granted` on what `fn` grants, which the caller adds to the answer.
abbrev pub change :
    String → (Invite → Invite) → (Invite → Bool) → Disk → Option Invite → Result Bool × Disk
change token f granted disk none = (done false, disk)
change token f granted disk (some inv) = save (put token (f inv) (load disk)) (granted inv) disk

unfoldable pub mutate : String → (Invite → Invite) → (Invite → Bool) → Disk → Result Bool × Disk
mutate token f granted disk = change token f granted disk (lookup token (load disk))

-- `del invites[token]`
unfoldable pub without : String → Invites → Invites
without token invites = keep (λ e. not (str_eq e.0 token)) invites

abbrev pub remove : String → Disk → Option Invite → Result Bool × Disk
remove token disk none = (done false, disk)
remove token disk (some inv) = save (without token (load disk)) true disk

unfoldable pub revoke : String → Disk → Result Bool × Disk
revoke token disk = remove token disk (lookup token (load disk))

-- The device of OpenAI's device-code flow.
pub record Device : Type 0 where
  pub device_auth_id : String
  pub user_code : String
  pub interval : Option ℕ

abbrev pub default_interval : ℕ
default_interval = 5

abbrev pub or_five : Option ℕ → ℕ
or_five none = default_interval
or_five (some n) = n

abbrev pub with_device : Device → ℕ → Invite → Invite
with_device device now inv = record inv {
  device_auth_id = some device.device_auth_id;
  user_code = some device.user_code;
  interval = some (or_five device.interval);
  device_started_at = some now;
  last_poll_at = none;
}

unfoldable pub set_device : String → Device → ℕ → Disk → Result Bool × Disk
set_device token device now disk = mutate token (with_device device now) (λ inv. true) disk

abbrev pub without_device : Invite → Invite
without_device inv = record inv {
  device_auth_id = none;
  user_code = none;
  interval = none;
  device_started_at = none;
  last_poll_at = none;
}

unfoldable pub clear_device : String → Disk → Result Bool × Disk
clear_device token disk = mutate token without_device (λ inv. true) disk

unfoldable pub mark_used : String → ℕ → Disk → Result Bool × Disk
mark_used token now disk =
    mutate token (λ inv. record inv { used_at = some now }) (λ inv. true) disk

-- `last is None or now - last >= inv.get("interval", 5)`
unfoldable pub is_due : ℕ → Invite → Bool
is_due now inv = elim inv.last_poll_at [
  | none ↦ true
  | some last ↦ leb (last + or_five inv.interval) now
]

-- `check` of due_for_poll.
abbrev pub checked : ℕ → Invite → Invite
checked now inv = if is_due now inv then record inv { last_poll_at = some now } else inv

unfoldable pub due_for_poll : String → ℕ → Disk → Result Bool × Disk
due_for_poll token now disk = mutate token (checked now) (is_due now) disk

pub data Status : Type 0 where
  used expired awaiting pending : Status

-- `started and now - started <= DEVICE_CODE_TTL_S`
abbrev pub started_lately : ℕ → Option ℕ → Bool
started_lately now none = false
started_lately now (some started) = is_set (some started) && leb now (started + device_code_ttl_s)

unfoldable pub status_of : ℕ → Invite → Status
status_of now inv =
    if is_set inv.used_at
    then used
    else if ltb inv.expires_at now
    then expired
    else if is_text inv.device_auth_id && started_lately now inv.device_started_at
    then awaiting
    else pending
