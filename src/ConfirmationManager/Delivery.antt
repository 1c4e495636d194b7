-- ===== src/ConfirmationManager/Delivery.antt =====
-- keystore/confirmation_manager.cpp: the fate of the prompts that are shown, over any sequence of
-- the manager's handlers.
use system_security.Base.{
  ℕ, ◌+◌, ◌≡◌, Option, none, some, List, [], ◌∷◌, ◌++◌, arith, ◌==◌, if◌then◌else◌, inl, inr,
  Bool-cases, Option-cases,
}
use system_security.Base.Assoc.{count, count-append}
use system_security.RateLimiting.{ConfirmationResponseCode, try_prompt}
use system_security.ConfirmationManager.{
  Completion, ConfirmationManager, is_ok, prompt_answered, ui_options, present_confirmation_prompt,
  cancel_current, same_listener, cancel_confirmation_prompt, finalize_listener,
  finalize_transaction, set_token, result, binder_died, service_died,
}

-- A call of a handler that changes the state.
pub data Event : Type 0 where
  presented :
      (service : Option (List ℕ → ConfirmationResponseCode)) (listener uid now flags : ℕ) → Event
  cancelled : (listener : Option ℕ) → Event
  resulted : (rc : ConfirmationResponseCode) (confirmed token : List ℕ) → Event
  client_died : (who : ℕ) → Event
  ui_died : Event

-- The listeners that were told that their prompt is shown, the completions that listeners were told
-- of, and the listeners that died with a prompt on the screen.
pub record Trace : Type 0 where
  pub shown : List ℕ
  pub told : List Completion
  pub lost : List ℕ

-- What a handler's call leaves in the trace, and the state after it.
unfoldable pub step : ConfirmationManager → Event → Trace × ConfirmationManager
step m (Event.presented service l uid now flags) =
    let r = present_confirmation_prompt service m l uid now flags in
    (record { shown = if is_ok r.0 then l ∷ [] else []; told = []; lost = [] }, r.1)
step m (Event.cancelled l) =
    (record { shown = []; told = []; lost = [] }, (cancel_confirmation_prompt m l).1)
step m (Event.resulted rc confirmed token) =
    let r = result m rc confirmed token in (record { shown = []; told = r.0; lost = [] }, r.1)
step m (Event.client_died who) = (
  record {
    shown = [];
    told = [];
    lost = if same_listener m.current_listener (some who) then who ∷ [] else [];
  },
  binder_died m who,
)
step m Event.ui_died = let r = service_died m in (record { shown = []; told = r.0; lost = [] }, r.1)

unfoldable pub join : Trace → Trace → Trace
join s t = record { shown = s.shown ++ t.shown; told = s.told ++ t.told; lost = s.lost ++ t.lost }

unfoldable pub run : ConfirmationManager → List Event → Trace × ConfirmationManager
unfolding step join
run m [] = (record { shown = []; told = []; lost = [] }, m)
run m (e ∷ es) = let s = step m e in let rest = run s.1 es in (join s.0 rest.0, rest.1)

unfoldable pub told_count : ℕ → List Completion → ℕ
told_count l [] = 0
told_count l (c ∷ cs) = (if c.listener == l then 1 else 0) + told_count l cs

abbrev pub pending : ℕ → Option ℕ → ℕ
pending l none = 0
pending l (some k) = if k == l then 1 else 0

told_count-append :
    (l : ℕ) (cs ds : List Completion) → told_count l (cs ++ ds) ≡ told_count l cs + told_count l ds
unfolding told_count
told_count-append l [] ds = omega arith
told_count-append l (c ∷ cs) ds = omega (arith, told_count-append l cs ds)

answered-accounted :
    (m : ConfirmationManager) (l k : ℕ) (rc : ConfirmationResponseCode)
    → m.current_listener ≡ none
    → count l (if is_ok (prompt_answered m k rc).0 then k ∷ [] else []) + 0
      ≡ pending l (prompt_answered m k rc).1.current_listener
unfolding count prompt_answered
answered-accounted m l k ConfirmationResponseCode.ok e = ground arith
answered-accounted m l k rc e = ground (arith, e)

present-accounted :
    (service : Option (List ℕ → ConfirmationResponseCode)) (m : ConfirmationManager)
    (l k uid now flags : ℕ)
    → count l
          (if is_ok (present_confirmation_prompt service m k uid now flags).0 then k ∷ [] else [])
        + pending l m.current_listener
      ≡ pending l (present_confirmation_prompt service m k uid now flags).1.current_listener
unfolding present_confirmation_prompt count
present-accounted none m l k uid now flags = elim (Option-cases m.current_listener) [
  | inl e ↦ ground (arith, e)
  | inr (j, e) ↦ ground (arith, e)
]
present-accounted (some prompt) m l k uid now flags = elim (Option-cases m.current_listener) [
  | inl e ↦ elim (Bool-cases (try_prompt m.rate_limiting uid now).0) [
    | inl b ↦ ground (
      arith,
      e,
      b,
      answered-accounted (record m { rate_limiting = (try_prompt m.rate_limiting uid now).1 }) l k
          (prompt (ui_options flags)) e,
    )
    | inr b ↦ ground (arith, e, b)
  ]
  | inr (j, e) ↦ ground (arith, e)
]

finalize-accounted :
    (m : ConfirmationManager) (l : ℕ) (rc : ConfirmationResponseCode) (confirmed : List ℕ)
    → pending l m.current_listener
      ≡ told_count l (finalize_transaction m rc confirmed).0
        + pending l (finalize_transaction m rc confirmed).1.current_listener
unfolding finalize_transaction finalize_listener told_count
finalize-accounted m l rc confirmed = elim (Option-cases m.current_listener) [
  | inl e ↦ ground (arith, e)
  | inr (j, e) ↦ ground (arith, e)
]

step-accounted :
    (m : ConfirmationManager) (e : Event) (l : ℕ)
    → count l (step m e).0.shown + pending l m.current_listener
      ≡ told_count l (step m e).0.told
        + count l (step m e).0.lost
        + pending l (step m e).1.current_listener
unfolding step count told_count result set_token service_died cancel_confirmation_prompt
    cancel_current binder_died
step-accounted m (Event.presented service k uid now flags) l =
    omega (arith, present-accounted service m l k uid now flags)
step-accounted m (Event.cancelled k) l = ground arith
step-accounted m (Event.resulted rc confirmed token) l =
    omega (arith, finalize-accounted m l rc confirmed)
step-accounted m (Event.client_died who) l = elim (Option-cases m.current_listener) [
  | inl e ↦ ground (arith, e)
  | inr (j, e) ↦ ground (arith, e)
]
step-accounted m Event.ui_died l =
    omega (arith, finalize-accounted m l ConfirmationResponseCode.system_error [])

-- Over any sequence of calls, a listener is told of as many completions as prompts of it were
-- shown, but for the prompts that it died with and the one that is on the screen at the end.
pub run-accounted :
    (m : ConfirmationManager) (es : List Event) (l : ℕ)
    → count l (run m es).0.shown + pending l m.current_listener
      ≡ told_count l (run m es).0.told
        + count l (run m es).0.lost
        + pending l (run m es).1.current_listener
unfolding run join count told_count
run-accounted m [] l = omega arith
run-accounted m (e ∷ es) l = omega (
  arith,
  step-accounted m e l,
  run-accounted (step m e).1 es l,
  count-append l (step m e).0.shown (run (step m e).1 es).0.shown,
  count-append l (step m e).0.lost (run (step m e).1 es).0.lost,
  told_count-append l (step m e).0.told (run (step m e).1 es).0.told,
)
