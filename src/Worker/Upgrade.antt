-- ===== src/Worker/Upgrade.antt =====
-- keystore/keymaster_worker.cpp: upgradeKeyBlob and createKeyCharacteristicsCache, which rewrite the
-- files of an entry that the request has locked. KeyStore::put writes them with the key and the state
-- of the entry's user, who is looked up for each use.
use system_security.Base.{
  ℕ, Bool, true, false, not, Option, none, some, List, [], ◌==◌, if◌then◌else◌,
}
use system_security.Keymaster.{ErrorCode}
use system_security.Codes.{ResponseCode, ReturnCode, response, error, code_is_ok}
use system_security.Blob.{
  Blob, new_blob, get_value, is_encrypted, is_super_encrypted, is_critical_to_device_encryption,
  get_security_level, set_encrypted, set_super_encrypted, set_critical_to_device_encryption,
  set_security_level, type_keymaster_10, type_key_characteristics,
}
use system_security.Blob.Stored.{Ciphers}
use system_security.Blob.Entry.{
  EntryFiles, UserKey, Writes, Reads, code_is_no_error, write_blobs, read_blobs, Sets,
  get_key_characteristics, put_key_characteristics,
}
use system_security.Worker.{Answer, no_answer, answer}

-- What the user data base, the file system and the random generator answer during an upgrade.
pub record UpgradeSteps : Type 0 where
  pub read_user : UserKey
  pub reads : Reads
  pub write_user : UserKey
  pub writes : Writes

-- The blob of an upgraded key, with the flags of the old one that are copied.
unfoldable pub upgraded_blob : Blob → List ℕ → Blob
upgraded_blob blob key =
    set_critical_to_device_encryption
      (set_super_encrypted
        (set_encrypted
          (set_security_level (new_blob key [] type_keymaster_10) (get_security_level blob))
          (is_encrypted blob))
        (is_super_encrypted blob))
      (is_critical_to_device_encryption blob)

-- The end of the callback: the new blob takes the old one's place if it was stored.
abbrev pub upgrade_stored : Blob → Blob → ResponseCode × EntryFiles → ReturnCode × Blob × EntryFiles
upgrade_stored blob new (code, files) =
    (response code, if code_is_no_error code then new else blob, files)

-- What comes of the device's answer.
unfoldable pub upgrade_answered :
    Ciphers
    → UpgradeSteps
    → Blob
    → Option Blob
    → EntryFiles
    → Answer (List ℕ)
    → ReturnCode × Blob × EntryFiles
upgrade_answered c s blob characteristics files no_answer =
    (error ErrorCode.unknown_error, blob, files)
upgrade_answered c s blob characteristics files (answer ErrorCode.ok key) =
    let new = upgraded_blob blob key in
    upgrade_stored blob new (write_blobs c s.write_user s.writes (some new) characteristics files)
upgrade_answered c s blob characteristics files (answer code key) = (error code, blob, files)

abbrev pub upgrade_read :
    Ciphers
    → UpgradeSteps
    → (List ℕ → Answer (List ℕ))
    → EntryFiles
    → ResponseCode × Option Blob × Option Blob
    → ReturnCode × Option Blob × EntryFiles
upgrade_read c s upgrade_key files (ResponseCode.no_error, some blob, characteristics) =
    let (code, blob', files') =
      upgrade_answered c s blob characteristics files (upgrade_key (get_value blob)) in
    (code, some blob', files')
upgrade_read c s upgrade_key files (code, blob, characteristics) = (response code, blob, files)

-- upgradeKeyBlob, for the device's upgradeKey with the parameters of the upgrade. The old key is
-- deleted at the device as well, whose answer only goes to the log.
unfoldable pub upgrade_key_blob :
    Ciphers
    → UpgradeSteps
    → (List ℕ → Answer (List ℕ))
    → EntryFiles
    → ReturnCode × Option Blob × EntryFiles
upgrade_key_blob c s upgrade_key files =
    upgrade_read c s upgrade_key files (read_blobs c s.read_user s.reads files)

-- The state of createKeyCharacteristicsCache that its callback changes: `code` is `error`, and the
-- two sets are those that are read from the characteristics or come from the device.
pub record Cache (Param : Type 0) : Type 0 where
  pub code : ReturnCode
  pub hw_enforced : List Param
  pub sw_enforced : List Param
  pub characteristics : Option Blob
  pub files : EntryFiles

-- The two users and the two writes that the two calls of the callback see.
pub record CacheWrite : Type 0 where
  pub write_user : UserKey
  pub writes : Writes

module _ {Param : Type 0} (sets : Sets Param) where
  abbrev pub cache_stored : Cache Param → Blob → ResponseCode × EntryFiles → Cache Param
  cache_stored cache b (code, files) = record cache {
    code = response code;
    characteristics = if code_is_no_error code then some b else cache.characteristics;
    files = files;
  }

  -- The callback of getKeyCharacteristics, with the two sets of the device.
  unfoldable pub cache_callback :
      Ciphers → CacheWrite → Cache Param → ErrorCode → List Param × List Param → Cache Param
  cache_callback c s cache ErrorCode.ok (hardware_enforced, software_enforced) =
      let sw = sets.union cache.sw_enforced software_enforced in
      let cache' = record cache { hw_enforced = hardware_enforced; sw_enforced = sw } in
      elim (put_key_characteristics sets hardware_enforced sw) [
        | none ↦ record cache' { code = response ResponseCode.system_error }
        | some b ↦
            cache_stored cache' b (write_blobs c s.write_user s.writes none (some b) cache.files)
      ]
  cache_callback c s cache code enforced = record cache { code = error code }

-- What createKeyCharacteristicsCache returns, and the files.
pub record CacheResult (Param : Type 0) : Type 0 where
  pub code : ReturnCode
  pub hardware_enforced : List Param
  pub software_enforced : List Param
  pub key_blob : Option Blob
  pub char_blob : Option Blob
  pub files : EntryFiles

abbrev pub requires_upgrade : ReturnCode → Bool
requires_upgrade (error ErrorCode.key_requires_upgrade) = true
requires_upgrade _ = false

-- What the device answers: getKeyCharacteristics, by the number of the call, and upgradeKey.
pub record KeyDevice (Param : Type 0) : Type 0 where
  pub ask_key_characteristics : ℕ → List ℕ → Answer (List Param × List Param)
  pub upgrade_key : List ℕ → Answer (List ℕ)

-- And what the others answer to the two calls of the callback and to the upgrade between.
pub record CacheSteps : Type 0 where
  pub first_write : CacheWrite
  pub upgrade : UpgradeSteps
  pub second_write : CacheWrite

module _ {Param : Type 0} (sets : Sets Param) where
  abbrev pub cache_failed : ReturnCode → EntryFiles → CacheResult Param
  cache_failed code files = record {
    code = code;
    hardware_enforced = [];
    software_enforced = [];
    key_blob = none;
    char_blob = none;
    files = files;
  }

  abbrev pub cache_result : Blob → Cache Param → CacheResult Param
  cache_result key_blob cache = record {
    code = cache.code;
    hardware_enforced = cache.hw_enforced;
    software_enforced = cache.sw_enforced;
    key_blob = some key_blob;
    char_blob = cache.characteristics;
    files = cache.files;
  }

  -- The second call of the device, for the upgraded key.
  abbrev pub cache_again :
      Ciphers
      → CacheSteps
      → Blob
      → Cache Param
      → Answer (List Param × List Param)
      → CacheResult Param
  cache_again c s key_blob cache no_answer =
      cache_failed (error ErrorCode.unknown_error) cache.files
  cache_again c s key_blob cache (answer code enforced) =
      cache_result key_blob (cache_callback sets c s.second_write cache code enforced)

  -- What follows the upgrade of the key.
  abbrev pub cache_upgraded :
      Ciphers
      → CacheSteps
      → KeyDevice Param
      → Cache Param
      → ReturnCode × Option Blob × EntryFiles
      → CacheResult Param
  cache_upgraded c s d cache (code, none, files) = cache_failed code files
  cache_upgraded c s d cache (code, some key_blob, files) =
      if code_is_ok code
      then cache_again c s key_blob (record cache { files = files })
          (d.ask_key_characteristics 1 (get_value key_blob))
      else cache_failed code files

  -- The first call of the device.
  unfoldable pub cache_first :
      Ciphers
      → CacheSteps
      → KeyDevice Param
      → Blob
      → Cache Param
      → Answer (List Param × List Param)
      → CacheResult Param
  cache_first c s d key_blob cache no_answer =
      cache_failed (error ErrorCode.unknown_error) cache.files
  cache_first c s d key_blob cache (answer code enforced) =
      let cache' = cache_callback sets c s.first_write cache code enforced in
      if requires_upgrade cache'.code
      then cache_upgraded c s d cache' (upgrade_key_blob c s.upgrade d.upgrade_key cache'.files)
      else cache_result key_blob cache'

  -- Whether the device is asked: there is no cache, or one of the old kind.
  abbrev pub asks_device : Option Blob → Bool
  asks_device none = true
  asks_device (some b) = b.blob_type == type_key_characteristics

  -- The sets that the characteristics blob holds, if it is there.
  abbrev pub cached_sets : Option Blob → Bool × List Param × List Param
  cached_sets none = (true, [], [])
  cached_sets (some b) = get_key_characteristics sets b

  -- createKeyCharacteristicsCache
  unfoldable pub create_key_characteristics_cache :
      Ciphers
      → CacheSteps
      → KeyDevice Param
      → Option Blob
      → Option Blob
      → EntryFiles
      → CacheResult Param
  create_key_characteristics_cache c s d none char_blob files =
      cache_failed (response ResponseCode.system_error) files
  create_key_characteristics_cache c s d (some key_blob) char_blob files =
      let (success, hw, sw) = cached_sets char_blob in
      let cache : Cache Param = record {
        code = error ErrorCode.ok;
        hw_enforced = hw;
        sw_enforced = sw;
        characteristics = char_blob;
        files = files;
      } in
      if not success
      then cache_failed (response ResponseCode.system_error) files
      else if asks_device char_blob
      then cache_first c s d key_blob cache (d.ask_key_characteristics 0 (get_value key_blob))
      else cache_result key_blob cache
