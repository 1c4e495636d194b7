-- ===== src/ConfirmationManager.antt =====
-- keystore/confirmation_manager.h and confirmation_manager.cpp: ConfirmationManager. A listener is a
-- number. The user interface is a service that is not in the repository: whether it is there and
-- what it answers are arguments, and `aborts` counts the calls of abort(). A handler is one
-- function on the state, also where the source lets go of the lock and takes it again.
pub mod Delivery
use system_security.Base.{
  ℕ, ◌+◌, ◌/◌, ◌%◌, ◌^◌, Bool, true, false, Option, none, some, List, [], ◌∷◌, ◌++◌, ◌==◌,
  if◌then◌else◌, is_some, suc, zero,
}
use system_security.Base.Assoc.{erase_one}
use system_security.RateLimiting.{
  ConfirmationResponseCode, RateLimiting, try_prompt, cancel_prompt, process_result,
}

-- A completed prompt, as the listener is told of it.
pub record Completion : Type 0 where
  pub listener : ℕ
  pub response_code : ConfirmationResponseCode
  pub confirmed : List ℕ

-- `listener_links` are the listeners whose death is listened to, and `ui_linked` is whether that of
-- the user interface is.
pub record ConfirmationManager : Type 0 where
  pub current_listener : Option ℕ
  pub current_confirmation_ui : Bool
  pub latest_confirmation_token : List ℕ
  pub rate_limiting : RateLimiting
  pub listener_links : List ℕ
  pub aborts : ℕ

unfoldable pub init : RateLimiting → ConfirmationManager
init limits = record {
  current_listener = none;
  current_confirmation_ui = false;
  latest_confirmation_token = [];
  rate_limiting = limits;
  listener_links = [];
  aborts = 0;
}

abbrev pub is_ok : ConfirmationResponseCode → Bool
is_ok ConfirmationResponseCode.ok = true
is_ok rc = false

-- The options of the flags' bits from a bit on, so many of them.
unfoldable pub ui_options_from : ℕ → ℕ → ℕ → List ℕ
ui_options_from zero n flags = []
ui_options_from (suc k) n flags =
    let rest = ui_options_from k (suc n) flags in if flags / 2 ^ n % 2 == 1 then n ∷ rest else rest

-- A signed flag word is the number of its 32 bits.
unfoldable pub ui_options : ℕ → List ℕ
unfolding ui_options_from
ui_options flags = ui_options_from 32 0 flags

-- What presentConfirmationPrompt does with the answer of promptUserConfirmation.
unfoldable pub prompt_answered :
    ConfirmationManager
    → ℕ
    → ConfirmationResponseCode
    → ConfirmationResponseCode × ConfirmationManager
prompt_answered m listener ConfirmationResponseCode.ok = (
  ConfirmationResponseCode.ok,
  record m {
    current_listener = some listener;
    current_confirmation_ui = true;
    listener_links = listener ∷ m.listener_links;
  },
)
prompt_answered m listener rc = (rc, m)

-- presentConfirmationPrompt, `now` being the time of the call and `prompt` what the service answers
-- to the options.
unfoldable pub present_confirmation_prompt :
    (Option (List ℕ → ConfirmationResponseCode))
    → ConfirmationManager
    → ℕ
    → ℕ
    → ℕ
    → ℕ
    → ConfirmationResponseCode × ConfirmationManager
present_confirmation_prompt service m listener uid now flags =
    if is_some m.current_listener
    then (ConfirmationResponseCode.operation_pending, m)
    else elim service [
      | none ↦ (ConfirmationResponseCode.unimplemented, m)
      | some prompt ↦
          let tried = try_prompt m.rate_limiting uid now in
          let limited = record m { rate_limiting = tried.1 } in
          if tried.0
          then prompt_answered limited listener (prompt (ui_options flags))
          else (ConfirmationResponseCode.system_error, limited)
    ]

-- cancelPrompt
unfoldable pub cancel_current : ConfirmationManager → ConfirmationManager
cancel_current m = record m {
  rate_limiting = cancel_prompt m.rate_limiting;
  aborts = if m.current_confirmation_ui then m.aborts + 1 else m.aborts;
}

-- `mCurrentListener == listener`, the caller's listener being there or not.
abbrev pub same_listener : Option ℕ → Option ℕ → Bool
same_listener none none = true
same_listener (some a) (some b) = a == b
same_listener _ _ = false

-- cancelConfirmationPrompt
unfoldable pub cancel_confirmation_prompt :
    ConfirmationManager → Option ℕ → ConfirmationResponseCode × ConfirmationManager
unfolding cancel_current
cancel_confirmation_prompt m listener =
    if same_listener m.current_listener listener
    then (ConfirmationResponseCode.ok, cancel_current m)
    else (ConfirmationResponseCode.operation_pending, m)

-- isConfirmationPromptSupported
unfoldable pub is_confirmation_prompt_supported :
    (Option (List ℕ → ConfirmationResponseCode)) → Bool
is_confirmation_prompt_supported service = is_some service

-- What finalizeTransaction does for the listener that it finds.
unfoldable pub finalize_listener :
    ConfirmationManager
    → Option ℕ
    → ConfirmationResponseCode
    → List ℕ
    → List Completion × ConfirmationManager
finalize_listener m none rc confirmed = ([], m)
finalize_listener m (some l) rc confirmed = (
  record { listener = l; response_code = rc; confirmed = confirmed } ∷ [],
  record m { current_listener = none; listener_links = erase_one l m.listener_links },
)

-- finalizeTransaction, with what the listeners are told.
unfoldable pub finalize_transaction :
    ConfirmationManager → ConfirmationResponseCode → List ℕ → List Completion × ConfirmationManager
unfolding finalize_listener
finalize_transaction m rc confirmed =
    finalize_listener
      (record m {
        rate_limiting = process_result m.rate_limiting rc;
        current_confirmation_ui = false;
      })
      m.current_listener rc confirmed

unfoldable pub set_token :
    List ℕ → List Completion × ConfirmationManager → List Completion × ConfirmationManager
set_token token (told, m) = (told, record m { latest_confirmation_token = token })

-- result
unfoldable pub result :
    ConfirmationManager
    → ConfirmationResponseCode
    → List ℕ
    → List ℕ
    → List Completion × ConfirmationManager
unfolding finalize_transaction set_token
result m rc confirmed token = set_token token (finalize_transaction m rc confirmed)

-- getLatestConfirmationToken
unfoldable pub get_latest_confirmation_token : ConfirmationManager → List ℕ
get_latest_confirmation_token m = m.latest_confirmation_token

-- binderDied
unfoldable pub binder_died : ConfirmationManager → ℕ → ConfirmationManager
unfolding cancel_current
binder_died m who =
    if same_listener m.current_listener (some who)
    then cancel_current
        (record m { current_listener = none; listener_links = erase_one who m.listener_links })
    else m

-- serviceDied
unfoldable pub service_died : ConfirmationManager → List Completion × ConfirmationManager
unfolding finalize_transaction
service_died m = finalize_transaction m ConfirmationResponseCode.system_error []
