-- ===== src/RateLimiting.antt =====
-- keystore/confirmationui_rate_limiting.h: how often an application may ask the user to confirm.
-- Times are counts of nanoseconds, what Clock::now() returns is an argument, and a comparison with
-- a difference of times is written with a sum. The request that is latest at the beginning is an
-- argument of `init`, since the source leaves the field unset.
pub mod Bounds
pub mod Rollback
use system_security.Base.{
  ℕ, ◌+◌, ◌-◌, ◌*◌, ◌%◌, ◌^◌, Bool, true, false, ◌||◌, Option, none, some, List, [], ◌∷◌, ltb, leb,
  ◌==◌, if◌then◌else◌,
}
use system_security.Base.Assoc.{find_key, put_key, erase_key}

-- The response codes of the confirmation UI's interface that the source names, and the others.
pub data ConfirmationResponseCode : Type 0 where
  ok canceled system_error operation_pending unimplemented : ConfirmationResponseCode
  other : ℕ → ConfirmationResponseCode

pub record Slot : Type 0 where
  pub previous_start : ℕ
  pub prompt_start : ℕ
  pub counter : ℕ

pub record RateLimiting : Type 0 where
  pub slots : List (ℕ × Slot)
  pub latest_requester : ℕ

abbrev pub second : ℕ
second = 1000000000

abbrev pub day : ℕ
day = 86400000000000

abbrev pub new_slot : Slot
new_slot = record { previous_start = 0; prompt_start = 0; counter = 0 }

abbrev pub slot_or_new : Option Slot → Slot
slot_or_new none = new_slot
slot_or_new (some s) = s

unfoldable pub init : ℕ → RateLimiting
init latest = record { slots = []; latest_requester = latest }

-- getBackoff; from the counter 70 on the source shifts too far, which a slot's counter never is.
unfoldable pub get_backoff : ℕ → ℕ
get_backoff counter =
    if ltb counter 3
    then 0
    else if ltb counter 6
    then 30 * second
    else 60 * second * 2 ^ (counter - 6)

-- doGC
unfoldable pub do_gc : ℕ → List (ℕ × Slot) → List (ℕ × Slot)
do_gc now [] = []
do_gc now ((id, slot) ∷ slots) =
    let rest = do_gc now slots in
    if leb (slot.prompt_start + day) now then rest else (id, slot) ∷ rest

-- The test of tryPrompt.
unfoldable pub may_prompt : ℕ → Slot → Bool
unfolding get_backoff
may_prompt now slot = (slot.counter == 0) || leb (slot.prompt_start + get_backoff slot.counter) now

-- What tryPrompt writes to the slot.
unfoldable pub prompted : ℕ → Slot → Slot
prompted now slot = record {
  previous_start = slot.prompt_start;
  prompt_start = now;
  counter = (slot.counter + 1) % 2 ^ 32;
}

-- What tryPrompt does once it has the slot; a refusal leaves the slot that `slots_[id]` found or made.
unfoldable pub try_slot : ℕ → ℕ → List (ℕ × Slot) → ℕ → Slot → Bool × RateLimiting
unfolding may_prompt prompted
try_slot id now slots latest slot =
    if may_prompt now slot
    then (true, record { slots = put_key id (prompted now slot) slots; latest_requester = id })
    else (false, record { slots = put_key id slot slots; latest_requester = latest })

-- tryPrompt; the source reads the clock in doGC and once more after it, and `now` stands for both.
unfoldable pub try_prompt : RateLimiting → ℕ → ℕ → Bool × RateLimiting
unfolding do_gc try_slot
try_prompt r id now =
    try_slot id now (do_gc now r.slots) r.latest_requester
      (slot_or_new (find_key id (do_gc now r.slots)))

-- kInvalidRequester
abbrev pub invalid_requester : ℕ
invalid_requester = 2 ^ 32 - 1

-- cancelPrompt
unfoldable pub cancel_prompt : RateLimiting → RateLimiting
cancel_prompt r = record r { latest_requester = invalid_requester }

-- What processResult does to a request that neither ended well nor was cancelled.
unfoldable pub roll_back : RateLimiting → Slot → RateLimiting
roll_back r slot =
    if leb slot.counter 1
    then record r { slots = erase_key r.latest_requester r.slots }
    else record r {
      slots =
          put_key r.latest_requester
            (record slot { counter = slot.counter - 1; prompt_start = slot.previous_start })
            r.slots;
    }

unfoldable pub process_code : RateLimiting → ConfirmationResponseCode → RateLimiting
unfolding roll_back
process_code r ConfirmationResponseCode.ok = record r {
  slots = erase_key r.latest_requester r.slots;
}
process_code r ConfirmationResponseCode.canceled = r
process_code r rc = roll_back r (slot_or_new (find_key r.latest_requester r.slots))

-- processResult
unfoldable pub process_result : RateLimiting → ConfirmationResponseCode → RateLimiting
unfolding process_code
process_result r rc = if r.latest_requester == invalid_requester then r else process_code r rc
