-- ===== src/Keymaster.antt =====
-- The names of the keymaster HAL that keystore's code switches on. The HAL and its support library
-- are not part of this repository: the enumerations below hold the enumerators that the code
-- names, and the operations of AuthorizationSet are an interface. A set of authorizations is the
-- list of its parameters, which is how the code walks it.
use system_security.Base.{ℕ, Bool, Option, List, []}

pub data Algorithm : Type 0 where
  rsa ec aes triple_des hmac : Algorithm

pub data KeyPurpose : Type 0 where
  encrypt decrypt sign verify wrap_key : KeyPurpose

pub data Tag : Type 0 where
  -- KM_TAG_PADDING_OLD and KM_TAG_DIGEST_OLD, numbers outside of the enumeration
  padding_old digest_old : Tag
  active_datetime origination_expire_datetime usage_expire_datetime : Tag
  min_seconds_between_ops max_uses_per_boot user_secure_id user_id : Tag
  caller_nonce unlocked_device_required : Tag
  invalid root_of_trust application_data attestation_challenge attestation_application_id : Tag
  attestation_id_brand attestation_id_device attestation_id_product attestation_id_serial : Tag
  attestation_id_imei attestation_id_meid attestation_id_manufacturer attestation_id_model : Tag
  purpose algorithm key_size block_mode digest mac_length padding nonce min_mac_length : Tag
  ec_curve blob_usage_requirements rsa_public_exponent creation_datetime origin : Tag
  rollback_resistance no_auth_required user_auth_type auth_timeout associated_data : Tag
  application_id boot_patchlevel os_patchlevel os_version trusted_user_presence_required : Tag
  vendor_patchlevel include_unique_id unique_id reset_since_id_rotation : Tag
  allow_while_on_body hardware_type trusted_confirmation_required confirmation_token : Tag
  bootloader_only : Tag

pub data ErrorCode : Type 0 where
  ok unsupported_purpose incompatible_purpose key_not_yet_valid key_expired : ErrorCode
  key_user_not_authenticated invalid_key_blob key_rate_limit_exceeded : ErrorCode
  key_max_ops_exceeded device_locked caller_nonce_prohibited too_many_operations : ErrorCode
  unsupported_algorithm invalid_operation_handle key_requires_upgrade : ErrorCode
  invalid_argument unknown_error no_user_confirmation unimplemented : ErrorCode
  -- an error that the code does not name
  other_error : ℕ → ErrorCode

pub record HardwareAuthToken : Type 0 where
  pub challenge : ℕ
  pub user_id : ℕ
  pub authenticator_id : ℕ
  pub authenticator_type : ℕ
  pub timestamp : ℕ
  pub mac : List ℕ

-- The default value `{}` of a token.
abbrev pub no_token : HardwareAuthToken
no_token = record {
  challenge = 0;
  user_id = 0;
  authenticator_id = 0;
  authenticator_type = 0;
  timestamp = 0;
  mac = [];
}

-- KeyParameter and AuthorizationSet of the support library: `none` is a NullOr that holds nothing,
-- and index -1 of `find`; `null_value` is what `value()` yields on such a NullOr.
pub record Authorizations (Param : Type 0) : Type 0 where
  pub tag : Param → Tag
  pub authorization_value : Tag → Param → Option ℕ
  pub get_tag_value : Tag → List Param → Option ℕ
  pub get_algorithm : List Param → Option Algorithm
  pub find : Tag → List Param → Option ℕ
  pub contains : Tag → List Param → Bool
  pub contains_purpose : KeyPurpose → List Param → Bool
  pub null_value : ℕ
