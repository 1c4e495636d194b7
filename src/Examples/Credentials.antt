-- ===== src/Examples/Credentials.antt =====
-- Runs of the authentication keys of a credential.
use system_security.Base.{
  ℕ, ◌*◌, ◌≤◌, ◌≡◌, ◌⊎◌, true, false, Option, none, some, List, [], ◌∷◌, refl,
}
use system_security.Text.{text_eq}
use system_security.AuthKeys.{
  AuthKeys, init, resize_keys, set_available_authentication_keys, select_auth_key, select_candidate,
  candidate_from, is_better, prepare, prepare_keys, get_auth_keys_needing_certification,
  store_first, store_static_authentication_data, new_auth_key, with_pending, stored_key, used,
}
use system_security.AuthKeys.Selection.{Refused, Taken, select_auth_key_lem}
use system_security.AuthKeys.Budget.{
  KeyOperation, select, certify, store, set_count, after, selections, stores, taken, renewed,
  selections-le-stores,
}

-- The HAL answers with a certificate that names the key's index.
abbrev hal : ℕ → Option (List ℕ × List ℕ)
hal n = some (n ∷ [], 7 ∷ n ∷ [])

abbrev two_keys : AuthKeys
two_keys = record {
  key_count = 2;
  max_uses_per_key = 2;
  auth_key_datas =
      used (stored_key [] (with_pending [] (7 ∷ []) new_auth_key))
      ∷ stored_key [] (with_pending [] (8 ∷ []) new_auth_key)
      ∷ [];
}

-- The second key was used less.
least_used : (select_auth_key false two_keys).0 ≡ some 1
unfolding select_auth_key select_candidate candidate_from is_better
least_used = refl

no_key : (select_auth_key true init).0 ≡ none
unfolding select_auth_key select_candidate candidate_from is_better
no_key = refl

-- Nothing can be selected before a certified key is stored; then it can twice.
abbrev history : List KeyOperation
history = select ∷ certify hal ∷ store (7 ∷ 0 ∷ []) [] ∷ select ∷ set_count 2 ∷ select ∷ select ∷ []

history_run : selections history (set_available_authentication_keys 1 2 init) ≡ 2
unfolding selections stores after taken renewed select_auth_key select_candidate candidate_from
    is_better prepare prepare_keys get_auth_keys_needing_certification store_first
    store_static_authentication_data resize_keys set_available_authentication_keys text_eq
history_run = refl

select_auth_key_lem_example : Refused false two_keys ⊎ Taken false two_keys
select_auth_key_lem_example = select_auth_key_lem false two_keys

selections-le-stores_example :
    selections history (set_available_authentication_keys 1 2 init)
    ≤ 2 * stores history (set_available_authentication_keys 1 2 init)
selections-le-stores_example = selections-le-stores history 1 2
