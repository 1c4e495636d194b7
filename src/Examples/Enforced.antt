-- ===== src/Examples/Enforced.antt =====
-- Runs of KeymasterEnforcement.
use system_security.Base.{◌≤◌, ◌≡◌, ◌≢◌, ◌↔◌, refl, [], ◌∷◌, arith, All, inl, inr}
use system_security.Keymaster.{ErrorCode}
use system_security.Enforcement.{init}
use system_security.Enforcement.Maps.{key_access_count, AccessCountMap, increment_key_access_count}
use system_security.Enforcement.Maps.Laws.{Incremented, increment_key_access_count-Incremented}
use system_security.Enforcement.Begin.{
  after_purpose, conclude, count_use, note_access, round, secure_id_round, token_matches,
  auth_token_matches, scan_indices, note_index, authorized_purpose, label,
  max_uses_per_boot_not_exceeded, is_origination_purpose, is_usage_purpose,
  min_time_between_ops_passed, allowed_when_locked, rounds, indices, authorize_begin,
}
use system_security.Enforcement.Operation.{authorize_update_or_finish}
use system_security.Enforcement.Grounds.{Admitted, authorize_begin-Admitted}
use system_security.Enforcement.Uses.{successes, successes-le-limit}
use system_security.Enforcement.RateLimit.{answers, rate_never_limited}
use system_security.Enforcement.Finish.{Allows, authorize_update_or_finish_iff}
use system_security.Examples.Keys.{km, key_info, token, context, request}

authorize_begin-Admitted_example : Admitted km (init 2 2) request
unfolding init authorize_begin after_purpose conclude count_use note_access rounds round
    secure_id_round token_matches auth_token_matches scan_indices indices note_index
    authorized_purpose label max_uses_per_boot_not_exceeded is_origination_purpose is_usage_purpose
    min_time_between_ops_passed allowed_when_locked key_access_count increment_key_access_count
authorize_begin-Admitted_example = authorize_begin-Admitted km (init 2 2) request refl

successes-le-limit_example : successes km 9 (init 2 2) (request ∷ request ∷ request ∷ []) ≤ 2
successes-le-limit_example =
    successes-le-limit km 9 2 2 2 (request ∷ request ∷ request ∷ [])
      (
        (λ h. inr (inr (inr (inl (refl, refl))))),
        (
          (λ h. inr (inr (inr (inl (refl, refl))))),
          ((λ h. inr (inr (inr (inl (refl, refl))))), tt),
        ),
      )
      (omega arith) (omega arith)

authorize_update_or_finish_iff_example :
    (authorize_update_or_finish km context key_info token 33 ≡ ErrorCode.ok)
    ↔ Allows km context key_info token 33
authorize_update_or_finish_iff_example = authorize_update_or_finish_iff km context key_info token 33

rate_never_limited_example :
    All
      (λ e. e ≢ ErrorCode.key_rate_limit_exceeded)
      (answers km (init 2 2) (request ∷ request ∷ []))
rate_never_limited_example = rate_never_limited km 2 2 (request ∷ request ∷ [])

abbrev counts : AccessCountMap
counts = record { access_count_list = record { keyid = 9; access_count = 1 } ∷ []; max_size = 2 }

increment_key_access_count-Incremented_example :
    Incremented counts 9 (increment_key_access_count counts 9)
increment_key_access_count-Incremented_example = increment_key_access_count-Incremented counts 9
