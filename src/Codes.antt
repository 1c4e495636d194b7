-- ===== src/Codes.antt =====
-- keystore/include/keystore/keystore.h: the states of a user, the response codes and the flags of a
-- key blob; and KeyStoreServiceReturnCode of keystore_return_types.h.
use system_security.Base.{ℕ, ◌^◌, Bool, true, false}
use system_security.Keymaster.{ErrorCode}

pub data State : Type 0 where
  no_error locked uninitialized : State

pub data ResponseCode : Type 0 where
  no_error locked uninitialized system_error protocol_error permission_denied : ResponseCode
  key_not_found value_corrupted undefined_action : ResponseCode
  wrong_password_0 wrong_password_1 wrong_password_2 wrong_password_3 : ResponseCode
  signature_invalid op_auth_needed key_already_exists key_permanently_invalidated : ResponseCode
  abort_called pruned binder_died : ResponseCode

abbrev pub flag_none : ℕ
flag_none = 0

abbrev pub flag_encrypted : ℕ
flag_encrypted = 2 ^ 0

abbrev pub flag_fallback : ℕ
flag_fallback = 2 ^ 1

abbrev pub flag_super_encrypted : ℕ
flag_super_encrypted = 2 ^ 2

abbrev pub flag_critical_to_device_encryption : ℕ
flag_critical_to_device_encryption = 2 ^ 3

abbrev pub flag_strongbox : ℕ
flag_strongbox = 2 ^ 4

-- KeyStoreServiceReturnCode, which is set from either of the two kinds of code.
pub data ReturnCode : Type 0 where
  response : ResponseCode → ReturnCode
  error : ErrorCode → ReturnCode

-- isOk
abbrev pub code_is_ok : ReturnCode → Bool
code_is_ok (response ResponseCode.no_error) = true
code_is_ok (error ErrorCode.ok) = true
code_is_ok _ = false
