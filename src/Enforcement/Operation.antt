-- ===== src/Enforcement/Operation.antt =====
-- keystore/keymaster_enforcement.cpp: AuthorizeUpdateOrFinish and AuthorizeOperation.
use system_security.Base.{
  ℕ, suc, Bool, true, false, ◌&&◌, Option, none, some, List, [], ◌∷◌, ltb, if◌then◌else◌, is_some,
  length,
}
use system_security.Keymaster.{
  HardwareAuthToken, Authorizations, Algorithm, rsa, ec, KeyPurpose, encrypt, verify, wrap_key, Tag,
  ErrorCode,
}
use system_security.Enforcement.{KeymasterEnforcement, Context}
use system_security.Enforcement.Begin.{auth_token_matches, authorize_begin, Request}

unfoldable pub is_asymmetric : Option Algorithm → Bool
is_asymmetric (some rsa) = true
is_asymmetric (some ec) = true
is_asymmetric _ = false

-- The first loop returns OK at either of two tags; else it leaves the last position of the type.
pub data Scan : Type 0 where
  nothing_to_check : Scan
  type_index : Option ℕ → Scan

-- The switch of AuthorizeOperation for public key algorithms: what it returns, or to go on.
unfoldable pub public_key_switch : KeyPurpose → Option ErrorCode
public_key_switch encrypt = some ErrorCode.ok
public_key_switch verify = some ErrorCode.ok
public_key_switch wrap_key = some ErrorCode.incompatible_purpose
public_key_switch _ = none

module _ {Param : Type 0} (km : Authorizations Param) where
  unfoldable pub is_public_key_algorithm : List Param → Bool
  is_public_key_algorithm auth_set = is_asymmetric (km.get_algorithm auth_set)

  unfoldable pub scan : ℕ → List Param → Option ℕ → Scan
  scan pos [] ix = type_index ix
  scan pos (p ∷ ps) ix = elim (km.tag p) [
    | Tag.no_auth_required ↦ nothing_to_check
    | Tag.auth_timeout ↦ nothing_to_check
    | Tag.user_auth_type ↦ scan (suc pos) ps (some pos)
    | _ ↦ scan (suc pos) ps ix
  ]

  -- The second loop: whether a secure id is matched by the token, and whether there is one.
  unfoldable pub match_ids :
      Context → List Param → HardwareAuthToken → Option ℕ → ℕ → List Param → Bool → ErrorCode
  match_ids c auth_set token ix op_handle [] required =
      if required then ErrorCode.key_user_not_authenticated else ErrorCode.ok
  match_ids c auth_set token ix op_handle (p ∷ ps) required =
      elim (km.authorization_value Tag.user_secure_id p) [
        | none ↦ match_ids c auth_set token ix op_handle ps required
        | some sid ↦
            elim (ltb 0 (length token.mac)
              && auth_token_matches km c auth_set token sid ix none op_handle false) [
                | true ↦ ErrorCode.ok
                | false ↦ match_ids c auth_set token ix op_handle ps true
              ]
      ]

  -- AuthorizeUpdateOrFinish, and so AuthorizeUpdate and AuthorizeFinish.
  unfoldable pub authorize_update_or_finish :
      Context → List Param → HardwareAuthToken → ℕ → ErrorCode
  authorize_update_or_finish c auth_set token op_handle = elim (scan 0 auth_set none) [
    | nothing_to_check ↦ ErrorCode.ok
    | type_index ix ↦ match_ids c auth_set token ix op_handle auth_set (is_some ix)
  ]

  -- AuthorizeOperation
  unfoldable pub authorize_operation :
      KeymasterEnforcement
      → Request Param
      → HardwareAuthToken
      → ℕ
      → Bool
      → ErrorCode × KeymasterEnforcement
  authorize_operation s r auth_token op_handle is_begin_operation =
      let checked =
        if is_begin_operation
        then authorize_begin km s (record r { auth_token = some auth_token })
        else (authorize_update_or_finish r.context r.auth_set auth_token op_handle, s) in
      elim (if is_public_key_algorithm r.auth_set then public_key_switch r.purpose else none) [
        | some error ↦ (error, s)
        | none ↦ checked
      ]
