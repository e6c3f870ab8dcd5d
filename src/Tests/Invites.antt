-- ===== src/Tests/Invites.antt =====
-- An invite from its creation to its use.
use unhardcoded.Prelude.{
  ◌+◌, ◌≤◌, ◌≡◌, ◌↔◌, refl, true, none, some, [], ◌∷◌, arith, leb, if◌then◌else◌,
}
use unhardcoded.Invites.{
  Invite, Disk, Device, missing, written, done, load, create, renewed, put, new_invite, save,
  get_invite, lookup, is_due, due_for_poll, or_five, mark_used, set_device, clear_device,
  with_device, status_of, used, awaiting, pending, device_code_ttl_s,
}
use unhardcoded.Invites.Links.{
  links, IsOneLink, creates, marks_used, sets_device, clears_device, here, next, Reach-IsOneLink,
}
use unhardcoded.Invites.Polls.{due_for_poll-again, set_device-status}
use unhardcoded.Invites.Used.{at_once, and_then, mark_used-status}

abbrev blank : Disk
blank = record { file = missing; writable = true }

abbrev invited : Invite
invited = new_invite "ana" 100 1000

abbrev one_invite : Disk
one_invite = record { file = written (("tok", invited) ∷ []); writable = true }

-- A second link for the name replaces the first.
created : (create "ana" 1000 "tok" 100 (create "ana" 1000 "old" 50 blank).1).1 ≡ one_invite
unfolding create load renewed put save
created = refl

stored : get_invite "tok" one_invite ≡ some invited
unfolding get_invite lookup load
stored = refl

none_open : IsOneLink (load blank)
unfolding load links
none_open name = omega arith

Reach-IsOneLink_example :
    IsOneLink (load (mark_used "old" 70 (create "ana" 1000 "old" 50 blank).1).1)
Reach-IsOneLink_example =
    Reach-IsOneLink blank (mark_used "old" 70 (create "ana" 1000 "old" 50 blank).1).1 none_open (
      next (next here (creates "ana" 1000 "old" 50 blank))
        (marks_used "old" 70 (create "ana" 1000 "old" 50 blank).1 (omega arith)))

due : is_due 200 invited ≡ true
unfolding is_due
due = refl

due_for_poll-again_example :
    ((due_for_poll "tok" 200 one_invite).0 ≡ done true)
    × (((due_for_poll "tok" 203 (due_for_poll "tok" 200 one_invite).1).0 ≡ done true)
        ↔ (200 + or_five none ≤ 203))
due_for_poll-again_example = due_for_poll-again "tok" one_invite invited 200 203 refl stored due

abbrev phone : Device
phone = record { device_auth_id = "dev"; user_code = "AB-12"; interval = none }

set_device-status_example :
    (get_invite "tok" (set_device "tok" phone 150 one_invite).1
      ≡ some (with_device phone 150 invited))
    × (status_of 160 (with_device phone 150 invited)
        ≡ (if leb 160 (150 + device_code_ttl_s) then awaiting else pending))
set_device-status_example =
    set_device-status "tok" one_invite invited phone 150 160 refl stored (omega arith) refl refl
      (omega arith)

-- Used at 300, then given a device that is cleared again.
abbrev marked : Disk
marked = (mark_used "tok" 300 one_invite).1

abbrev given : Disk
given = (set_device "tok" phone 310 marked).1

mark_used-status_example :
    (i : Invite) × (get_invite "tok" (clear_device "tok" given).1 ≡ some i)
    × (status_of 9_999 i ≡ used)
mark_used-status_example =
    mark_used-status "tok" one_invite (clear_device "tok" given).1 invited 300 9_999 refl stored
      (omega arith)
      (and_then (and_then at_once (sets_device "tok" phone 310 marked) tt)
        (clears_device "tok" given) tt)
