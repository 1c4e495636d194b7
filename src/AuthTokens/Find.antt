-- ===== src/AuthTokens/Find.antt =====
-- keystore/auth_token_table.cpp: the lookups of AuthTokenTable, and the operations that end an
-- operation or take the device off the body. Each lookup returns the error, the token and the table.
use system_security.Base.{
  ℕ, ◌+◌, Bool, true, false, not, ◌&&◌, none, some, List, [], ◌∷◌, ltb, ◌==◌, if◌then◌else◌,
  is_some, ◌++◌, length,
}
use system_security.Base.Int.{ℤ, pos, negsuc}
use system_security.Keymaster.{no_token, Authorizations, Algorithm, aes, KeyPurpose, Tag}
use system_security.AuthTokens.{
  Error, ok, auth_not_required, auth_token_expired, auth_token_wrong_sid, op_handle_required,
  auth_token_not_found, Entry, AuthTokenTable, satisfies_auth, supersedes, is_secret_key_operation,
  default_or, find_open, newest_match, update_last_use, Found,
}

abbrev pub fail : Error → AuthTokenTable → Found
fail err t = (err, no_token, t)

-- FindAuthPerOpAuthorization
unfoldable pub find_auth_per_op_authorization : AuthTokenTable → List ℕ → ℕ → ℕ → Found
find_auth_per_op_authorization t sids auth_type op_handle =
    if op_handle == 0 then fail op_handle_required t else elim (find_open op_handle t.entries) [
      | none ↦ fail auth_token_not_found t
      | some e ↦
          if satisfies_auth e sids auth_type then (ok, e.token, t) else fail auth_token_wrong_sid t
    ]

-- HardwareAuthenticatorType::ANY, all 32 bits
abbrev pub any_authenticator : ℕ
any_authenticator = 0xFFFFFFFF

-- `authTokenMaxAgeMillis > 0`, and then `time_received + authTokenMaxAgeMillis < now`: the code adds
-- the milliseconds to a time in seconds.
unfoldable pub too_old : Entry → ℤ → ℕ → Bool
too_old e (negsuc n) now = false
too_old e (pos age) now = ltb 0 age && ltb (e.time_received + age) now

-- FindAuthorizationForCredstore
unfoldable pub find_authorization_for_credstore : AuthTokenTable → ℕ → ℕ → ℤ → ℕ → Found
find_authorization_for_credstore t challenge secure_user_id max_age now =
    let sids : List ℕ = secure_user_id ∷ [] in
    if not (challenge == 0)
    then elim (find_open challenge t.entries) [
      | none ↦ fail auth_token_not_found t
      | some e ↦
          if not (satisfies_auth e sids any_authenticator)
          then fail auth_token_wrong_sid t
          else if too_old e max_age now
          then fail auth_token_expired t
          else (ok, e.token, t)
    ]
    else elim (newest_match sids any_authenticator 0 t.entries none) [
      | none ↦ fail auth_token_not_found t
      | some (i, e) ↦
          if too_old e max_age now
          then fail auth_token_expired t
          else (ok, e.token, update_last_use t i e now)
    ]

module _ {Param : Type 0} (km : Authorizations Param) where
  -- ExtractSids
  unfoldable pub extract_sids : List Param → List ℕ
  extract_sids [] = []
  extract_sids (p ∷ ps) = elim (km.tag p) [
    | Tag.user_secure_id ↦
        default_or (km.authorization_value Tag.user_secure_id p) km.null_value ∷ extract_sids ps
    | _ ↦ extract_sids ps
  ]

  unfoldable pub key_algorithm : List Param → Algorithm
  key_algorithm key_info = default_or (km.get_algorithm key_info) aes

  unfoldable pub key_requires_authentication : List Param → KeyPurpose → Bool
  unfolding key_algorithm
  key_requires_authentication key_info purpose =
      is_secret_key_operation (key_algorithm key_info) purpose
      && not (is_some (km.find Tag.no_auth_required key_info))

  unfoldable pub key_requires_auth_per_operation : List Param → KeyPurpose → Bool
  unfolding key_algorithm
  key_requires_auth_per_operation key_info purpose =
      is_secret_key_operation (key_algorithm key_info) purpose
      && not (is_some (km.find Tag.auth_timeout key_info))

  -- FindTimedAuthorization
  unfoldable pub find_timed_authorization : AuthTokenTable → List ℕ → ℕ → List Param → ℕ → Found
  find_timed_authorization t sids auth_type key_info now =
      elim (newest_match sids auth_type 0 t.entries none) [
        | none ↦ fail auth_token_not_found t
        | some (i, e) ↦
            if ltb (e.time_received + default_or (km.get_tag_value Tag.auth_timeout key_info) 0) now
            then fail auth_token_expired t
            else if is_some (km.get_tag_value Tag.allow_while_on_body key_info)
                && ltb e.time_received t.last_off_body
            then fail auth_token_expired t
            else (ok, e.token, update_last_use t i e now)
      ]

  -- HardwareAuthenticatorType::NONE is 0.
  abbrev pub key_auth_type : List Param → ℕ
  key_auth_type key_info = default_or (km.get_tag_value Tag.user_auth_type key_info) 0

  -- FindAuthorization
  unfoldable pub find_authorization : AuthTokenTable → List Param → KeyPurpose → ℕ → ℕ → Found
  find_authorization t key_info purpose op_handle now =
      if not (key_requires_authentication key_info purpose)
      then fail auth_not_required t
      else if key_requires_auth_per_operation key_info purpose
      then find_auth_per_op_authorization t (extract_sids key_info) (key_auth_type key_info)
          op_handle
      else find_timed_authorization t (extract_sids key_info) (key_auth_type key_info) key_info now

unfoldable pub on_device_off_body : AuthTokenTable → ℕ → AuthTokenTable
on_device_off_body t now = record t { last_off_body = now }

unfoldable pub clear : AuthTokenTable → AuthTokenTable
clear t = record t { entries = [] }

unfoldable pub size : AuthTokenTable → ℕ
size t = length t.entries

-- IsSupersededBySomeEntry
unfoldable pub is_superseded : List Entry → Entry → Bool
is_superseded [] entry = false
is_superseded (e ∷ es) entry = if supersedes e entry then true else is_superseded es entry

-- MarkCompleted: the first entry for the challenge is marked, and erased if another supersedes it.
-- The vector that is searched for one that supersedes has the marked entry in it.
unfoldable pub complete : List Entry → Entry → List Entry → List Entry
unfolding is_superseded
complete before marked after =
    if is_superseded (before ++ marked ∷ after) marked
    then before ++ after
    else before ++ marked ∷ after

unfoldable pub mark_first : ℕ → List Entry → List Entry → List Entry
unfolding complete
mark_first op_handle before [] = before
mark_first op_handle before (e ∷ es) =
    if e.token.challenge == op_handle
    then complete before (record e { operation_completed = true }) es
    else mark_first op_handle (before ++ e ∷ []) es

unfoldable pub mark_completed : AuthTokenTable → ℕ → AuthTokenTable
unfolding mark_first
mark_completed t op_handle = record t { entries = mark_first op_handle [] t.entries }
