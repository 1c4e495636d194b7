-- ===== src/Enforcement/Begin.antt =====
-- keystore/keymaster_enforcement.cpp: AuthTokenMatches and AuthorizeBegin. An index of -1 is `none`.
use system_security.Base.{
  ℕ, suc, ◌+◌, ◌-◌, ◌^◌, Bool, true, false, not, ◌&&◌, ◌||◌, Option, none, some, List, [], ◌∷◌, ltb,
  leb, ◌==◌, if◌then◌else◌, is_some, get_elem?, bit_and,
}
use system_security.Keymaster.{
  HardwareAuthToken, Authorizations, KeyPurpose, encrypt, decrypt, sign, verify, wrap_key, Tag,
  ErrorCode,
}
use system_security.Enforcement.Maps.{
  last_key_access_time, update_key_access_time, key_access_count, increment_key_access_count,
}
use system_security.Enforcement.{KeymasterEnforcement, Context}

unfoldable pub is_origination_purpose : KeyPurpose → Bool
is_origination_purpose encrypt = true
is_origination_purpose sign = true
is_origination_purpose _ = false

unfoldable pub is_usage_purpose : KeyPurpose → Bool
is_usage_purpose decrypt = true
is_usage_purpose verify = true
is_usage_purpose _ = false

-- `min_time_between <= now - last_access_time`, in 64 bits with a sign
unfoldable pub min_time_between_ops_passed : KeymasterEnforcement → Context → ℕ → ℕ → Bool
min_time_between_ops_passed s c min_time_between keyid =
    elim (last_key_access_time s.access_time_map keyid) [
      | none ↦ true
      | some last ↦ leb (min_time_between + last) c.get_current_time
    ]

unfoldable pub max_uses_per_boot_not_exceeded : KeymasterEnforcement → ℕ → ℕ → Bool
max_uses_per_boot_not_exceeded s keyid max_uses = elim (key_access_count s.access_count_map keyid) [
  | none ↦ true
  | some count ↦ ltb count max_uses
]

-- The loop that notes the last position of three tags.
pub record Indices : Type 0 where
  pub auth_timeout_index : Option ℕ
  pub auth_type_index : Option ℕ
  pub no_auth_required_index : Option ℕ

unfoldable pub note_index : Tag → ℕ → Indices → Indices
note_index Tag.auth_timeout pos ix = record ix { auth_timeout_index = some pos }
note_index Tag.user_auth_type pos ix = record ix { auth_type_index = some pos }
note_index Tag.no_auth_required pos ix = record ix { no_auth_required_index = some pos }
note_index _ pos ix = ix

-- The labels of the switch in AuthorizeBegin: those with code of their own, those that reject the key
-- (`forbidden`), and those that pass.
pub data Label : Type 0 where
  activation origination usage rate uses secure_id user nonce_allowed unlocked forbidden pass :
      Label

unfoldable pub label : Tag → Label
label Tag.active_datetime = activation
label Tag.origination_expire_datetime = origination
label Tag.usage_expire_datetime = usage
label Tag.min_seconds_between_ops = rate
label Tag.max_uses_per_boot = uses
label Tag.user_secure_id = secure_id
label Tag.user_id = user
label Tag.caller_nonce = nonce_allowed
label Tag.unlocked_device_required = unlocked
label Tag.invalid = forbidden
label Tag.root_of_trust = forbidden
label Tag.application_data = forbidden
label Tag.attestation_challenge = forbidden
label Tag.attestation_application_id = forbidden
label Tag.attestation_id_brand = forbidden
label Tag.attestation_id_device = forbidden
label Tag.attestation_id_product = forbidden
label Tag.attestation_id_serial = forbidden
label Tag.attestation_id_imei = forbidden
label Tag.attestation_id_meid = forbidden
label Tag.attestation_id_manufacturer = forbidden
label Tag.attestation_id_model = forbidden
label Tag.bootloader_only = forbidden
label _ = pass

-- The local variables of AuthorizeBegin that its loop may set. `min_ops_timeout` keeps its first
-- value: the case for MIN_SECONDS_BETWEEN_OPS declares a variable of that name of its own.
pub record Locals : Type 0 where
  pub min_ops_timeout : ℕ
  pub update_access_count : Bool
  pub caller_nonce_authorized_by_key : Bool
  pub authentication_required : Bool
  pub auth_token_matched : Bool
  pub unlocked_device_required : Bool
  pub user_id : ℕ

abbrev pub uint32_max : ℕ
uint32_max = 2 ^ 32 - 1

-- `user_id` starts at -1.
abbrev pub start : Locals
start = record {
  min_ops_timeout = uint32_max;
  update_access_count = false;
  caller_nonce_authorized_by_key = false;
  authentication_required = false;
  auth_token_matched = false;
  unlocked_device_required = false;
  user_id = uint32_max;
}

-- A round of the loop goes on or returns.
pub data Round : Type 0 where
  proceed : Locals → Round
  return : ErrorCode → Round

abbrev pub unless : Bool → ErrorCode → Locals → Round
unless bad error l = if bad then return error else proceed l

-- `value.isOk() && test(value)`
abbrev pub holds : Option ℕ → (ℕ → Bool) → Bool
holds none test = false
holds (some v) test = test v

abbrev pub value_or : Option ℕ → ℕ → ℕ
value_or none d = d
value_or (some v) d = v

-- The arguments of a call of AuthorizeBegin, and the virtual methods during it.
pub record Request (Param : Type 0) : Type 0 where
  pub context : Context
  pub purpose : KeyPurpose
  pub keyid : ℕ
  pub auth_set : List Param
  pub operation_params : List Param
  pub auth_token : Option HardwareAuthToken

-- The switch on the purpose for a locked device.
unfoldable pub allowed_when_locked : KeyPurpose → Bool
allowed_when_locked encrypt = true
allowed_when_locked verify = true
allowed_when_locked _ = false

module _ {Param : Type 0} (km : Authorizations Param) where
  unfoldable pub scan_indices : ℕ → List Param → Indices → Indices
  scan_indices pos [] ix = ix
  scan_indices pos (p ∷ ps) ix = scan_indices (suc pos) ps (note_index (km.tag p) pos ix)

  unfoldable pub authorized_purpose : KeyPurpose → List Param → ErrorCode
  authorized_purpose wrap_key auth_set = ErrorCode.unsupported_purpose
  authorized_purpose purpose auth_set =
      if km.contains_purpose purpose auth_set then ErrorCode.ok else ErrorCode.incompatible_purpose

  abbrev pub value_at : Tag → List Param → Option ℕ → Option ℕ
  value_at tag auth_set none = none
  value_at tag auth_set (some i) = elim (get_elem? auth_set i) [
    | none ↦ none
    | some p ↦ km.authorization_value tag p
  ]

  -- AuthTokenMatches
  unfoldable pub auth_token_matches :
      Context → List Param → HardwareAuthToken → ℕ → Option ℕ → Option ℕ → ℕ → Bool → Bool
  auth_token_matches c auth_set token user_secure_id auth_type_index auth_timeout_index op_handle
        begins =
      if not (c.validate_token_signature token)
      then false
      else if not (is_some auth_timeout_index)
          && (not (op_handle == 0) && not (op_handle == token.challenge))
      then false
      else if not (user_secure_id == token.user_id)
          && not (user_secure_id == token.authenticator_id)
      then false
      else if not (
          holds (value_at Tag.user_auth_type auth_set auth_type_index)
            (λ mask. not (bit_and mask token.authenticator_type == 0)))
      then false
      else if is_some auth_timeout_index && begins
      then holds (value_at Tag.auth_timeout auth_set auth_timeout_index)
          (λ timeout. not (c.auth_token_timed_out token timeout))
      else true

  unfoldable pub token_matches : Request Param → Indices → Option ℕ → Bool
  token_matches r ix none = false
  token_matches r ix (some sid) = elim r.auth_token [
    | none ↦ false
    | some token ↦
        auth_token_matches r.context r.auth_set token sid ix.auth_type_index ix.auth_timeout_index 0
          true
  ]

  -- The case for USER_SECURE_ID.
  unfoldable pub secure_id_round : Request Param → Indices → Param → Locals → Round
  secure_id_round r ix p l =
      if is_some ix.no_auth_required_index
      then return ErrorCode.invalid_key_blob
      else if is_some ix.auth_timeout_index
      then proceed (record l {
        authentication_required = true;
        auth_token_matched =
            token_matches r ix (km.authorization_value Tag.user_secure_id p)
            || l.auth_token_matched;
      })
      else proceed l

  -- One round of the loop, by the label of the parameter's tag.
  unfoldable pub round :
      KeymasterEnforcement → Request Param → Indices → Param → Locals → Label → Round
  round s r ix p l activation =
      unless
        (holds (km.authorization_value Tag.active_datetime p)
          (λ date. not (r.context.activation_date_valid date)))
        ErrorCode.key_not_yet_valid l
  round s r ix p l origination =
      unless
        (is_origination_purpose r.purpose
          && holds (km.authorization_value Tag.origination_expire_datetime p)
              r.context.expiration_date_passed)
        ErrorCode.key_expired l
  round s r ix p l usage =
      unless
        (is_usage_purpose r.purpose
          && holds (km.authorization_value Tag.usage_expire_datetime p)
              r.context.expiration_date_passed)
        ErrorCode.key_expired l
  round s r ix p l rate =
      unless
        (holds (km.authorization_value Tag.min_seconds_between_ops p)
          (λ min. not (min_time_between_ops_passed s r.context min r.keyid)))
        ErrorCode.key_rate_limit_exceeded l
  round s r ix p l uses =
      unless
        (holds (km.authorization_value Tag.max_uses_per_boot p)
          (λ max_uses. not (max_uses_per_boot_not_exceeded s r.keyid max_uses)))
        ErrorCode.key_max_ops_exceeded (record l { update_access_count = true })
  round s r ix p l secure_id = secure_id_round r ix p l
  round s r ix p l user =
      proceed (record l { user_id = value_or (km.authorization_value Tag.user_id p) km.null_value })
  round s r ix p l nonce_allowed = proceed (record l { caller_nonce_authorized_by_key = true })
  round s r ix p l unlocked = proceed (record l { unlocked_device_required = true })
  round s r ix p l forbidden = return ErrorCode.invalid_key_blob
  round s r ix p l pass = proceed l

  unfoldable pub rounds :
      KeymasterEnforcement → Request Param → Indices → List Param → Locals → Round
  rounds s r ix [] l = proceed l
  rounds s r ix (p ∷ ps) l = elim (round s r ix p l (label (km.tag p))) [
    | return error ↦ return error
    | proceed l' ↦ rounds s r ix ps l'
  ]

  -- The last block: the access count is raised if the key limits its uses.
  unfoldable pub count_use : KeymasterEnforcement → ℕ → Locals → ErrorCode × KeymasterEnforcement
  count_use s keyid l =
      let (counted, counts) = increment_key_access_count s.access_count_map keyid in
      if l.update_access_count
      then (
        (if counted then ErrorCode.ok else ErrorCode.too_many_operations),
        record s { access_count_map = counts },
      )
      else (ErrorCode.ok, s)

  -- The block before it, for `min_ops_timeout`.
  unfoldable pub note_access :
      KeymasterEnforcement → Request Param → Locals → ErrorCode × KeymasterEnforcement
  note_access s r l =
      let (noted, times) =
        update_key_access_time s.access_time_map r.keyid r.context.get_current_time
          l.min_ops_timeout in
      if not (l.min_ops_timeout == uint32_max)
      then (if noted
          then count_use (record s { access_time_map = times }) r.keyid l
          else (ErrorCode.too_many_operations, record s { access_time_map = times }))
      else count_use s r.keyid l

  -- What follows the loop.
  unfoldable pub conclude :
      KeymasterEnforcement → Request Param → Locals → ErrorCode × KeymasterEnforcement
  conclude s r l =
      if (l.unlocked_device_required && r.context.is_device_locked l.user_id)
        && not (allowed_when_locked r.purpose)
      then (ErrorCode.device_locked, s)
      else if l.authentication_required && not l.auth_token_matched
      then (ErrorCode.key_user_not_authenticated, s)
      else if not l.caller_nonce_authorized_by_key
          && (is_origination_purpose r.purpose && km.contains Tag.nonce r.operation_params)
      then (ErrorCode.caller_nonce_prohibited, s)
      else note_access s r l

  abbrev pub indices : List Param → Indices
  indices auth_set =
      scan_indices 0 auth_set (record {
        auth_timeout_index = none;
        auth_type_index = none;
        no_auth_required_index = none;
      })

  unfoldable pub after_purpose :
      KeymasterEnforcement → Request Param → ErrorCode → ErrorCode × KeymasterEnforcement
  after_purpose s r ErrorCode.ok = elim (rounds s r (indices r.auth_set) r.auth_set start) [
    | return error ↦ (error, s)
    | proceed l ↦ conclude s r l
  ]
  after_purpose s r error = (error, s)

  -- AuthorizeBegin
  unfoldable pub authorize_begin :
      KeymasterEnforcement → Request Param → ErrorCode × KeymasterEnforcement
  unfolding after_purpose
  authorize_begin s r = after_purpose s r (authorized_purpose r.purpose r.auth_set)
