-- ===== src/Worker/Transfers.antt =====
-- keystore/keymaster_worker.cpp: importWrappedKey and exportKey, which ask the device a second time if
-- a key must be upgraded first.
use system_security.Base.{ℕ, Bool, true, Option, none, some, List, [], if◌then◌else◌}
use system_security.Keymaster.{ErrorCode}
use system_security.SecurityLevels.{SecurityLevel}
use system_security.Codes.{ResponseCode, ReturnCode, response, error, code_is_ok}
use system_security.Blob.{
  Blob, new_blob, get_value, set_super_encrypted, set_security_level, type_keymaster_10,
}
use system_security.Blob.Stored.{Ciphers}
use system_security.Blob.Entry.{EntryFiles}
use system_security.Worker.{Answer, no_answer, answer}
use system_security.Worker.Upgrade.{UpgradeSteps, CacheWrite, upgrade_key_blob, requires_upgrade}
use system_security.Worker.Keys.{
  NewKey, CreationSets, is_authentication_bound, with_user_id, store_key,
}

-- The result of importWrappedKey, and the files of the wrapping key's entry and of the wrapped key's.
pub record Unwrapped (Param : Type 0) : Type 0 where
  pub code : ReturnCode
  pub characteristics : Option (List Param × List Param)
  pub wrapping_files : EntryFiles
  pub wrapped_files : EntryFiles

-- ExportResult
pub record ExportResult : Type 0 where
  pub result_code : ReturnCode
  pub export_data : List ℕ

-- The blob of a key that was unwrapped.
unfoldable pub unwrapped_blob : SecurityLevel → Bool → List ℕ → Blob
unwrapped_blob level authentication_bound key =
    let blob = set_security_level (new_blob key [] type_keymaster_10) level in
    if authentication_bound then set_super_encrypted blob true else blob

module _ {Param : Type 0} (c : CreationSets Param) where
  abbrev pub unwrapped_stored :
      NewKey Param → Unwrapped Param → ResponseCode × EntryFiles → Unwrapped Param
  unwrapped_stored key u (code, files) = record u {
    code = response code;
    characteristics = some (key.hardware_enforced, key.software_enforced);
    wrapped_files = files;
  }

  -- The callback of importWrappedKey.
  unfoldable pub unwrap_callback :
      Ciphers
      → CacheWrite
      → SecurityLevel
      → ℕ
      → Unwrapped Param
      → ErrorCode
      → NewKey Param
      → Unwrapped Param
  unwrap_callback ciphers w level user_id u ErrorCode.ok key = unwrapped_stored key u (
      store_key c ciphers w
        (unwrapped_blob level (is_authentication_bound c key.hardware_enforced) key.key_blob)
        key.hardware_enforced (with_user_id c user_id key.software_enforced) u.wrapped_files)
  unwrap_callback ciphers w level user_id u code key = record u { code = error code }

  -- The second call, for the wrapping key that was upgraded.
  abbrev pub unwrap_again :
      Ciphers
      → CacheWrite
      → SecurityLevel
      → ℕ
      → Unwrapped Param
      → Answer (NewKey Param)
      → Unwrapped Param
  unwrap_again ciphers w level user_id u no_answer = record u {
    code = error ErrorCode.unknown_error;
  }
  unwrap_again ciphers w level user_id u (answer code key) =
      unwrap_callback ciphers w level user_id u code key

  abbrev pub unwrap_upgraded :
      Ciphers
      → CacheWrite
      → SecurityLevel
      → ℕ
      → (ℕ → List ℕ → Answer (NewKey Param))
      → Unwrapped Param
      → ReturnCode × Option Blob × EntryFiles
      → Unwrapped Param
  unwrap_upgraded ciphers w level user_id import_wrapped u (code, none, files) = record u {
    code = code;
    characteristics = none;
    wrapping_files = files;
  }
  unwrap_upgraded ciphers w level user_id import_wrapped u (code, some blob, files) =
      if code_is_ok code
      then unwrap_again ciphers w level user_id (record u { wrapping_files = files })
          (import_wrapped 1 (get_value blob))
      else record u { code = code; characteristics = none; wrapping_files = files }

  -- importWrappedKey, for the device's importWrappedKey by the number of the call and the wrapping
  -- key, and its upgradeKey.
  unfoldable pub import_wrapped_key :
      Ciphers
      → CacheWrite
      → CacheWrite
      → UpgradeSteps
      → SecurityLevel
      → ℕ
      → (ℕ → List ℕ → Answer (NewKey Param))
      → (List ℕ → Answer (List ℕ))
      → Blob
      → EntryFiles
      → EntryFiles
      → Unwrapped Param
  import_wrapped_key ciphers first second steps level user_id import_wrapped upgrade_key
        wrapping_blob wrapping_files wrapped_files =
      let u : Unwrapped Param = record {
        code = error ErrorCode.ok;
        characteristics = none;
        wrapping_files = wrapping_files;
        wrapped_files = wrapped_files;
      } in
      elim (import_wrapped 0 (get_value wrapping_blob)) [
        | no_answer ↦ record u { code = error ErrorCode.unknown_error }
        | answer code key ↦
            let u' = unwrap_callback ciphers first level user_id u code key in
            if requires_upgrade u'.code
            then unwrap_upgraded ciphers second level user_id import_wrapped u'
                (upgrade_key_blob ciphers steps upgrade_key u'.wrapping_files)
            else u'
      ]

-- An answer to exportKey, and what there is without one.
abbrev pub export_answered : Answer (List ℕ) → ExportResult
export_answered no_answer = record { result_code = error ErrorCode.unknown_error; export_data = [] }
export_answered (answer ErrorCode.ok key) = record {
  result_code = error ErrorCode.ok;
  export_data = key;
}
export_answered (answer code key) = record { result_code = error code; export_data = [] }

-- After the upgrade in exportKey: if it failed, the result is still that the key requires it.
abbrev pub export_upgraded :
    (ℕ → List ℕ → Answer (List ℕ))
    → ExportResult
    → ReturnCode × Option Blob × EntryFiles
    → ExportResult × EntryFiles
export_upgraded export_key result (code, none, files) = (result, files)
export_upgraded export_key result (code, some blob, files) =
    (if code_is_ok code then export_answered (export_key 1 (get_value blob)) else result, files)

-- exportKey
unfoldable pub export_key_blob :
    Ciphers
    → UpgradeSteps
    → (ℕ → List ℕ → Answer (List ℕ))
    → (List ℕ → Answer (List ℕ))
    → Blob
    → EntryFiles
    → ExportResult × EntryFiles
export_key_blob ciphers steps export_key upgrade_key key_blob files =
    let result = export_answered (export_key 0 (get_value key_blob)) in
    if requires_upgrade result.result_code
    then export_upgraded export_key result (upgrade_key_blob ciphers steps upgrade_key files)
    else (result, files)
