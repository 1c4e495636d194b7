-- ===== src/Examples/Prompts.antt =====
-- Runs of the confirmation prompts and their limits.
use system_security.Base.{
  ℕ, ◌+◌, ◌*◌, ◌^◌, ◌≤◌, ◌<◌, ◌≡◌, refl, false, none, some, List, [], ◌∷◌, arith, ◌==◌,
  if◌then◌else◌,
}
use system_security.Base.Assoc.{find_key, put_key, count}
use system_security.RateLimiting.{
  ConfirmationResponseCode, Slot, RateLimiting, init, second, get_backoff, do_gc, may_prompt,
  prompted, try_slot, try_prompt, process_result,
}
use system_security.RateLimiting.Bounds.{Reachable, Reachable-Bounded}
use system_security.RateLimiting.Rollback.{
  slot_at, restored, try_prompt-refused, process_result-rolls_back,
}
use system_security.ConfirmationManager.{ConfirmationManager}
use system_security.ConfirmationManager.Delivery.{Event, run, told_count, pending, run-accounted}

-- The application 5 has asked three times in the first seconds.
abbrev slot : Slot
slot = record { previous_start = second; prompt_start = 2 * second; counter = 3 }

abbrev limits : RateLimiting
limits = record { slots = (5, slot) ∷ []; latest_requester = 5 }

abbrev first_slot : Slot
first_slot = record { previous_start = 0; prompt_start = second; counter = 1 }

Reachable-Bounded_example : (first_slot.counter ≤ 17) × (get_backoff first_slot.counter < 2 ^ 63)
unfolding init find_key put_key do_gc may_prompt prompted try_slot try_prompt
Reachable-Bounded_example =
    Reachable-Bounded (try_prompt (init 0) 5 second).1 5 first_slot
      (Reachable.tried (init 0) 5 second (Reachable.started 0)) refl

try_prompt-refused_example :
    (try_prompt (try_prompt limits 5 (40 * second)).1 5 (50 * second)).0 ≡ false
unfolding find_key put_key do_gc may_prompt prompted try_slot try_prompt get_backoff
try_prompt-refused_example =
    try_prompt-refused limits 5 (40 * second) (50 * second) refl (omega arith) (omega arith)

process_result-rolls_back_example :
    find_key 5
      (process_result
        (try_prompt limits 5 (40 * second)).1
        ConfirmationResponseCode.system_error).slots
    ≡ (if 5 == 5
        then restored (slot_at limits 5 (40 * second))
        else find_key 5 (do_gc (40 * second) limits.slots))
unfolding find_key put_key do_gc may_prompt prompted try_slot try_prompt get_backoff
process_result-rolls_back_example =
    process_result-rolls_back limits 5 (40 * second) 5 ConfirmationResponseCode.system_error refl
      (λ h. ground arith) refl

abbrev manager : ConfirmationManager
manager = record {
  current_listener = none;
  current_confirmation_ui = false;
  latest_confirmation_token = [];
  rate_limiting = limits;
  listener_links = [];
  aborts = 0;
}

-- The user is asked, presses cancel, and an application's listener that has no prompt dies.
abbrev events : List Event
events =
    Event.presented (some (λ (os : List ℕ). ConfirmationResponseCode.ok)) 11 5 (40 * second) 3
    ∷ Event.resulted ConfirmationResponseCode.canceled [] []
    ∷ Event.client_died 11
    ∷ []

run-accounted_example :
    count 11 (run manager events).0.shown + pending 11 none
    ≡ told_count 11 (run manager events).0.told
      + count 11 (run manager events).0.lost
      + pending 11 (run manager events).1.current_listener
run-accounted_example = run-accounted manager events 11
