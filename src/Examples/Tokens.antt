-- ===== src/Examples/Tokens.antt =====
-- Runs of the table of authorization tokens.
use system_security.Base.{
  ℕ, ◌≤◌, ◌≡◌, ◌⊎◌, ◌↔◌, refl, true, false, Option, [], ◌∷◌, arith, All, Any, length,
}
use system_security.AuthTokens.{
  auth_token_not_found, Entry, AuthTokenTable, new_entry, satisfies_auth, add_authentication_token,
}
use system_security.AuthTokens.Find.{
  fail, find_auth_per_op_authorization, extract_sids, key_auth_type, find_timed_authorization,
  mark_completed,
}
use system_security.AuthTokens.Newest.{Newest, Authorizes, satisfies_auth_iff}
use system_security.AuthTokens.Soundness.{TimedOutcome, find_timed_authorization_lem}
use system_security.AuthTokens.Completion.{
  Superseded, Accounted, mark_completed-not_found, add_authentication_token-present,
  add_authentication_token-supersedes,
}
use system_security.AuthTokens.Bounds.{add_authentication_token-bounded}
use system_security.Examples.Keys.{km, key_info, token, op_token}

abbrev table : AuthTokenTable
table = record { entries = new_entry token 20 ∷ []; max_entries = 2; last_off_body = 0 }

abbrev op_entry : Entry
op_entry = record {
  token = op_token;
  time_received = 21;
  last_use = 21;
  operation_completed = false;
}

abbrev op_table : AuthTokenTable
op_table = record table { entries = new_entry token 20 ∷ op_entry ∷ [] }

find_timed_authorization_lem_example :
    (best : Option (ℕ × Entry)) × Newest
      (extract_sids km key_info)
      (key_auth_type km key_info)
      op_table.entries
      best
    × TimedOutcome km op_table
        (extract_sids km key_info)
        (key_auth_type km key_info)
        key_info
        40
        best
        (find_timed_authorization km op_table
          (extract_sids km key_info)
          (key_auth_type km key_info)
          key_info
          40)
find_timed_authorization_lem_example =
    find_timed_authorization_lem km op_table (extract_sids km key_info) (key_auth_type km key_info)
      key_info 40

satisfies_auth_iff_example :
    (satisfies_auth op_entry (5 ∷ []) 1 ≡ true) ↔ Authorizes op_entry (5 ∷ []) 1
satisfies_auth_iff_example = satisfies_auth_iff op_entry (5 ∷ []) 1

mark_completed-not_found_example :
    find_auth_per_op_authorization (mark_completed op_table 33) (5 ∷ []) 1 33
    ≡ fail auth_token_not_found (mark_completed op_table 33)
unfolding new_entry
mark_completed-not_found_example =
    mark_completed-not_found op_table (5 ∷ []) 1 33 (new_entry token 20 ∷ []) op_entry []
      (λ h. ground arith) refl refl ((λ h. ground arith), tt) tt

add_authentication_token-present_example :
    Any (λ x. x ≡ new_entry token 30) (add_authentication_token op_table token 30).entries
add_authentication_token-present_example =
    add_authentication_token-present op_table token 30 (omega arith)

add_authentication_token-supersedes_example :
    (let after = add_authentication_token op_table token 30 in
      All (λ e. ¬ Superseded token 30 e) after.entries
      × (All (Accounted token 30 after.entries) op_table.entries ⊎ (2 ≤ length op_table.entries)))
add_authentication_token-supersedes_example = add_authentication_token-supersedes op_table token 30

add_authentication_token-bounded_example :
    length (add_authentication_token op_table token 30).entries ≤ 2
add_authentication_token-bounded_example =
    add_authentication_token-bounded op_table token 30 (omega arith)
