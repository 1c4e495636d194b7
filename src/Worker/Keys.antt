-- ===== src/Worker/Keys.antt =====
-- keystore/keymaster_worker.cpp: the requests that make and import keys. The log entries of
-- generateKey and importKey are left out.
use system_security.Base.{
  ℕ, Bool, true, false, not, ◌&&◌, ◌||◌, Option, none, some, List, [], ◌∷◌, ◌++◌, if◌then◌else◌,
}
use system_security.Keymaster.{Authorizations, Algorithm, Tag, ErrorCode}
use system_security.SecurityLevels.{SecurityLevel}
use system_security.Codes.{
  ResponseCode, ReturnCode, response, error, code_is_ok, flag_encrypted,
  flag_critical_to_device_encryption,
}
use system_security.Blob.{
  Blob, zeros, has_flag, new_blob, set_encrypted, set_super_encrypted,
  set_critical_to_device_encryption, set_security_level, is_critical_to_device_encryption,
  current_blob_version, type_any, type_keymaster_10,
}
use system_security.Blob.Stored.{Ciphers}
use system_security.Blob.Entry.{EntryFiles, write_blobs, Sets, put_key_characteristics}
use system_security.Worker.{Answer, no_answer, answer}
use system_security.Worker.Upgrade.{CacheWrite}

-- A key as the device makes it: its blob and the two sets of its characteristics.
pub record NewKey (Param : Type 0) : Type 0 where
  pub key_blob : List ℕ
  pub hardware_enforced : List Param
  pub software_enforced : List Param

-- What the support library does with a set besides what Authorizations and Sets say: the parameter
-- for a user, and the test for two tags by which the set is filtered.
pub record CreationSets (Param : Type 0) : Type 0 where
  pub authorizations : Authorizations Param
  pub sets : Sets Param
  pub user_id_param : ℕ → Param

-- What is answered to the client: a code and the characteristics, or that the fallback device's
-- worker has the request now.
pub data Creation (Param : Type 0) : Type 0 where
  created : ReturnCode → Option (List Param × List Param) → Creation Param
  delegated : Creation Param

abbrev pub is_trusted_environment : SecurityLevel → Bool
is_trusted_environment SecurityLevel.trusted_environment = true
is_trusted_environment _ = false

abbrev pub is_triple_des : Option Algorithm → Bool
is_triple_des (some Algorithm.triple_des) = true
is_triple_des _ = false

abbrev pub is_application_tag : Tag → Bool
is_application_tag Tag.application_data = true
is_application_tag Tag.application_id = true
is_application_tag _ = false

abbrev pub is_no_auth_required : Tag → Bool
is_no_auth_required Tag.no_auth_required = true
is_no_auth_required _ = false

-- The blob of a key that is made or imported.
unfoldable pub created_blob : SecurityLevel → ℕ → Bool → List ℕ → Blob
created_blob level flags authentication_bound key =
    let critical = has_flag flags flag_critical_to_device_encryption in
    let blob =
      set_critical_to_device_encryption
        (set_security_level (new_blob key [] type_keymaster_10) level) critical in
    set_encrypted
      (if authentication_bound && not (is_critical_to_device_encryption blob)
        then set_super_encrypted blob true
        else blob)
      (has_flag flags flag_encrypted)

-- What is left of the blob if putKeyCharacteristics fails, whose answer is not looked at.
abbrev pub or_unwritten : Option Blob → Blob
or_unwritten (some b) = b
or_unwritten none = record {
  version = current_blob_version;
  blob_type = type_any;
  flags = 0;
  info = 0;
  initialization_vector = zeros 16;
  aead_tag = zeros 16;
  value_length = 0;
  value = [];
}

module _ {Param : Type 0} (c : CreationSets Param) where
  -- containsTag for NO_AUTH_REQUIRED, and so isAuthenticationBound.
  unfoldable pub is_authentication_bound : List Param → Bool
  is_authentication_bound [] = true
  is_authentication_bound (p ∷ ps) =
      let rest = is_authentication_bound ps in
      if is_no_auth_required (c.authorizations.tag p) then false else rest

  -- Filter, for the tags that are not kept.
  unfoldable pub without_application_tags : List Param → List Param
  without_application_tags [] = []
  without_application_tags (p ∷ ps) =
      let rest = without_application_tags ps in
      if is_application_tag (c.authorizations.tag p) then rest else p ∷ rest

  abbrev pub with_user_id : ℕ → List Param → List Param
  with_user_id user_id ps =
      if c.authorizations.contains Tag.user_id ps then ps else ps ++ c.user_id_param user_id ∷ []

  -- The software enforced set of a key that is made or imported.
  unfoldable pub created_software_enforced : ℕ → List Param → NewKey Param → List Param
  created_software_enforced user_id key_params key = with_user_id user_id (
      without_application_tags
        (c.sets.union (c.sets.subtract key_params key.hardware_enforced) key.software_enforced))

  -- The two blobs of a new key are put into the entry.
  unfoldable pub store_key :
      Ciphers → CacheWrite → Blob → List Param → List Param → EntryFiles → ResponseCode × EntryFiles
  store_key ciphers w blob hw sw files =
      write_blobs ciphers w.write_user w.writes (some blob)
        (some (or_unwritten (put_key_characteristics c.sets hw sw))) files

  -- Whether a parameter asks for 3DES.
  unfoldable pub wants_triple_des : List Param → Bool
  wants_triple_des [] = false
  wants_triple_des (p ∷ ps) =
      is_triple_des (c.authorizations.get_algorithm (p ∷ [])) || wants_triple_des ps

  -- What generateKey and importKey do with an error: the fallback is for the trusted environment.
  unfoldable pub creation_failed : SecurityLevel → Bool → List Param → ErrorCode → Creation Param
  creation_failed level has_fallback key_params code =
      if not (is_trusted_environment level)
      then created (error code) none
      else if not has_fallback
      then created (error code) none
      else if wants_triple_des key_params
      then created (error ErrorCode.unsupported_algorithm) none
      else delegated

  abbrev pub key_stored : NewKey Param → ResponseCode × EntryFiles → Creation Param × EntryFiles
  key_stored key (code, files) = (
    if code_is_ok (response code)
        then created (response code) (some (key.hardware_enforced, key.software_enforced))
        else created (response code) none,
    files,
  )

  -- What follows the device's answer in generateKey and importKey.
  unfoldable pub creation_answered :
      Ciphers
      → CacheWrite
      → SecurityLevel
      → Bool
      → ℕ
      → List Param
      → ℕ
      → EntryFiles
      → Answer (NewKey Param)
      → Creation Param × EntryFiles
  creation_answered ciphers w level has_fallback user_id key_params flags files no_answer =
      (created (error ErrorCode.unknown_error) none, files)
  creation_answered ciphers w level has_fallback user_id key_params flags files
        (answer ErrorCode.ok key) =
      key_stored key (
        store_key ciphers w
          (created_blob level flags (is_authentication_bound key_params) key.key_blob)
          key.hardware_enforced (created_software_enforced user_id key_params key) files)
  creation_answered ciphers w level has_fallback user_id key_params flags files (answer code key) =
      (creation_failed level has_fallback key_params code, files)

  -- generateKey, with what the device answers to the entropy and to the request.
  unfoldable pub generate_key :
      Ciphers
      → CacheWrite
      → SecurityLevel
      → Bool
      → ℕ
      → List Param
      → ℕ
      → ErrorCode
      → Answer (NewKey Param)
      → EntryFiles
      → Creation Param × EntryFiles
  generate_key ciphers w level has_fallback user_id key_params flags fed out files =
      if code_is_ok (error fed)
      then creation_answered ciphers w level has_fallback user_id key_params flags files out
      else (created (error fed) none, files)

  -- importKey
  unfoldable pub import_key :
      Ciphers
      → CacheWrite
      → SecurityLevel
      → Bool
      → ℕ
      → List Param
      → ℕ
      → Answer (NewKey Param)
      → EntryFiles
      → Creation Param × EntryFiles
  import_key ciphers w level has_fallback user_id key_params flags out files =
      creation_answered ciphers w level has_fallback user_id key_params flags files out
