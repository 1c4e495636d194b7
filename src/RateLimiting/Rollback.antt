-- ===== src/RateLimiting/Rollback.antt =====
-- keystore/confirmationui_rate_limiting.h: what an admitted prompt leads to, a second request or an
-- error of the system.
use system_security.Base.{
  ℕ, ◌+◌, ◌-◌, ◌%◌, ◌^◌, ◌≤◌, ◌<◌, ◌≡◌, Bool, true, false, Option, none, some, List, [], ◌∷◌, ◌≢◌,
  ap, sym, ◌∙◌, arith, ◌==◌, if◌then◌else◌, inl, inr, Bool-cases,
}
use system_security.Base.Assoc.{find_key, find_key-put_key, find_key-erase_key}
use system_security.RateLimiting.{
  ConfirmationResponseCode, Slot, RateLimiting, day, slot_or_new, get_backoff, do_gc, may_prompt,
  prompted, try_slot, try_prompt, invalid_requester, roll_back, process_code, process_result,
}
use system_security.RateLimiting.Bounds.{may_prompt-counter}

-- The slot that a request finds.
abbrev pub slot_at : RateLimiting → ℕ → ℕ → Slot
slot_at r id now = slot_or_new (find_key id (do_gc now r.slots))

pub try_prompt-admitted :
    (r : RateLimiting) (id now j : ℕ)
    → (try_prompt r id now).0 ≡ true
    → find_key j (try_prompt r id now).1.slots
      ≡ (if id == j then some (prompted now (slot_at r id now)) else find_key j (do_gc now r.slots))
unfolding try_prompt try_slot
try_prompt-admitted r id now j h = elim (Bool-cases (may_prompt now (slot_at r id now))) [
  | inl e ↦ rw e (find_key-put_key id j (prompted now (slot_at r id now)) (do_gc now r.slots))
  | inr e ↦ ground (arith, h, e)
]

pub try_prompt-latest :
    (r : RateLimiting) (id now : ℕ)
    → (try_prompt r id now).0 ≡ true
    → (try_prompt r id now).1.latest_requester ≡ id
unfolding try_prompt try_slot
try_prompt-latest r id now h = ground (arith, h)

-- A slot that was used in the last day stays.
do_gc-keeps :
    (id now : ℕ) (slot : Slot) (slots : List (ℕ × Slot))
    → find_key id slots ≡ some slot
    → now < slot.prompt_start + day
    → find_key id (do_gc now slots) ≡ some slot
unfolding do_gc find_key
do_gc-keeps id now slot [] e h = cc
do_gc-keeps id now slot ((j, s) ∷ slots) e h = elim (Bool-cases (j == id)) [
  | inl f ↦ ground (arith, e, f, h)
  | inr f ↦ ground (arith, e, f, h, do_gc-keeps id now slot slots)
]

-- The second request finds what the first one wrote.
slot_at-again :
    (r : RateLimiting) (id now later : ℕ)
    → (try_prompt r id now).0 ≡ true
    → later < now + day
    → slot_at (try_prompt r id now).1 id later ≡ prompted now (slot_at r id now)
unfolding prompted
slot_at-again r id now later a b = ap slot_or_new (
    do_gc-keeps id later (prompted now (slot_at r id now)) (try_prompt r id now).1.slots
      (ground (arith, try_prompt-admitted r id now id a)) b)

raise_counter : (c : ℕ) → c ≤ 16 → (c + 1) % 2 ^ 32 ≡ c + 1
raise_counter c h = omega arith

may_prompt-refused :
    (now later : ℕ) (s : Slot)
    → s.counter ≤ 16
    → later < now + get_backoff (s.counter + 1)
    → may_prompt later (prompted now s) ≡ false
unfolding may_prompt prompted
may_prompt-refused now later s a b =
    ground (arith, raise_counter s.counter a, ap get_backoff (raise_counter s.counter a))

try_prompt-0 :
    (r : RateLimiting) (id now : ℕ) → (try_prompt r id now).0 ≡ may_prompt now (slot_at r id now)
unfolding try_prompt try_slot
try_prompt-0 r id now = ground arith

-- An admitted request of an application raises its counter by one, and a second request of it that
-- comes before the back-off of the raised counter is over, within a day, is refused.
pub try_prompt-refused :
    (r : RateLimiting) (id now later : ℕ)
    → (try_prompt r id now).0 ≡ true
    → later < now + day
    → later < now + get_backoff ((slot_at r id now).counter + 1)
    → (try_prompt (try_prompt r id now).1 id later).0 ≡ false
try_prompt-refused r id now later a b d =
    try_prompt-0 (try_prompt r id now).1 id later
    ∙ ap (may_prompt later) (slot_at-again r id now later a b)
    ∙ may_prompt-refused now later (slot_at r id now)
        (may_prompt-counter now id r.slots (sym (try_prompt-0 r id now) ∙ a)) d

abbrev pub restored : Slot → Option Slot
restored s = if s.counter == 0 then none else some (record s { previous_start = s.prompt_start })

abbrev pub is_error : ConfirmationResponseCode → Bool
is_error ConfirmationResponseCode.ok = false
is_error ConfirmationResponseCode.canceled = false
is_error rc = true

roll_back-find_key :
    (r : RateLimiting) (s : Slot) (now j : ℕ)
    → s.counter ≤ 16
    → find_key j (roll_back r (prompted now s)).slots
      ≡ (if r.latest_requester == j then restored s else find_key j r.slots)
unfolding roll_back prompted
roll_back-find_key r s now j h = ground (
  arith,
  raise_counter s.counter h,
  find_key-erase_key r.latest_requester j r.slots,
  find_key-put_key r.latest_requester j
      (record {
        previous_start = s.prompt_start;
        prompt_start = s.prompt_start;
        counter = (s.counter + 1) % 2 ^ 32 - 1;
      })
      r.slots,
)

process_result-error :
    (r : RateLimiting) (rc : ConfirmationResponseCode)
    → is_error rc ≡ true
    → r.latest_requester ≢ invalid_requester
    → process_result r rc ≡ roll_back r (slot_or_new (find_key r.latest_requester r.slots))
unfolding process_result process_code
process_result-error r ConfirmationResponseCode.ok e h = ground (arith, e)
process_result-error r ConfirmationResponseCode.canceled e h = ground (arith, e)
process_result-error r rc e h = ground (arith, h)

prompted_slot :
    (r : RateLimiting) (id now : ℕ)
    → (try_prompt r id now).0 ≡ true
    → slot_or_new (find_key (try_prompt r id now).1.latest_requester (try_prompt r id now).1.slots)
      ≡ prompted now (slot_at r id now)
prompted_slot r id now a =
    rw (try_prompt-latest r id now a) (ground (arith, try_prompt-admitted r id now id a))

-- When an admitted request ends with neither success nor a cancellation, the requester's slot has again
-- the start and the count of before the request, with its earlier start replaced by that start, and is
-- gone if its count was 0; every other slot is as the collection at the request left it.
pub process_result-rolls_back :
    (r : RateLimiting) (id now j : ℕ) (rc : ConfirmationResponseCode)
    → (try_prompt r id now).0 ≡ true
    → id ≢ invalid_requester
    → is_error rc ≡ true
    → find_key j (process_result (try_prompt r id now).1 rc).slots
      ≡ (if id == j then restored (slot_at r id now) else find_key j (do_gc now r.slots))
process_result-rolls_back r id now j rc a h e =
    ap (λ x. find_key j x.slots)
      (process_result-error (try_prompt r id now).1 rc e (rw (try_prompt-latest r id now a) h)
        ∙ ap (roll_back (try_prompt r id now).1) (prompted_slot r id now a))
    ∙ roll_back-find_key (try_prompt r id now).1 (slot_at r id now) now j
        (may_prompt-counter now id r.slots (sym (try_prompt-0 r id now) ∙ a))
    ∙ ground (arith, try_prompt-latest r id now a, try_prompt-admitted r id now j a)
