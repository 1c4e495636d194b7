-- ===== src/Worker/Upgraded.antt =====
-- keystore/keymaster_worker.cpp: what an upgraded key is stored as.
use system_security.Base.{
  ℕ, ◌≤◌, ◌≡◌, refl, sym, subst, Bool, true, Option, none, some, List, length, bit_or,
}
use system_security.Keymaster.{ErrorCode}
use system_security.Codes.{
  State, ResponseCode, flag_encrypted, flag_super_encrypted, flag_critical_to_device_encryption,
}
use system_security.SecurityLevels.{
  SecurityLevel, flags_to_security_level, security_level_to_flags, level_of,
}
use system_security.Blob.{
  Blob, new_blob, set_flag, get_value, is_encrypted, is_super_encrypted,
  is_critical_to_device_encryption, get_security_level, set_encrypted, set_super_encrypted,
  set_critical_to_device_encryption, set_security_level,
}
use system_security.Blob.Cases.{same, Says, says_test, says_test-Says, every_case, every_case_lem}
use system_security.Blob.Stored.{Ciphers, write_blob}
use system_security.Blob.Entry.{
  EntryFiles, UserKey, Write, Reads, write_characteristics, write_blobs, read_blobs,
}
use system_security.Blob.Fresh.{flagged-Storable, get_value-flagged}
use system_security.Blob.RoundTrip.{Storable, GcmLaws, ReadsBack, write_blob-read_blob}
use system_security.Worker.{answer, Answer}
use system_security.Worker.Upgrade.{UpgradeSteps, upgraded_blob, upgrade_answered, upgrade_key_blob}

-- The flags of an upgraded blob.
flags_of : SecurityLevel → Bool → Bool → Bool → ℕ
flags_of level encrypted super_encrypted critical =
    set_flag
      (set_flag (set_flag (bit_or 0 (security_level_to_flags level)) encrypted flag_encrypted)
        super_encrypted flag_super_encrypted)
      critical flag_critical_to_device_encryption

flags_table : every_case (λ l x y z. says_test l x y z (flags_of l x y z)) ≡ true
unfolding flags_of set_flag flags_to_security_level security_level_to_flags level_of same
flags_table = refl

flags_of-Says : (level : SecurityLevel) (e s c : Bool) → Says level e s c (flags_of level e s c)
flags_of-Says level e s c =
    says_test-Says level e s c (flags_of level e s c)
      (every_case_lem (λ l x y z. says_test l x y z (flags_of l x y z)) level e s c flags_table)

upgraded_flags :
    (blob : Blob) (key : List ℕ)
    → (upgraded_blob blob key).flags
      ≡ flags_of
          (get_security_level blob)
          (is_encrypted blob)
          (is_super_encrypted blob)
          (is_critical_to_device_encryption blob)
unfolding upgraded_blob flags_of set_security_level set_encrypted set_super_encrypted
    set_critical_to_device_encryption new_blob
upgraded_flags blob key = refl

-- The blob of an upgraded key is encrypted, super-encrypted, critical and of the security level as
-- the old one was, and it can be stored.
pub upgraded_blob-Storable :
    (blob : Blob) (key : List ℕ)
    → Storable (upgraded_blob blob key)
      × (get_security_level (upgraded_blob blob key) ≡ get_security_level blob)
      × (is_encrypted (upgraded_blob blob key) ≡ is_encrypted blob)
      × (is_super_encrypted (upgraded_blob blob key) ≡ is_super_encrypted blob)
      × (is_critical_to_device_encryption (upgraded_blob blob key)
          ≡ is_critical_to_device_encryption blob)
unfolding upgraded_blob set_security_level set_encrypted set_super_encrypted
    set_critical_to_device_encryption new_blob get_security_level is_encrypted is_super_encrypted
    is_critical_to_device_encryption
upgraded_blob-Storable blob key =
    let (bound, level, encrypted, super_encrypted, critical) =
      subst
        (Says (get_security_level blob) (is_encrypted blob) (is_super_encrypted blob)
          (is_critical_to_device_encryption blob))
        (sym (upgraded_flags blob key))
        (flags_of-Says (get_security_level blob) (is_encrypted blob) (is_super_encrypted blob)
          (is_critical_to_device_encryption blob)) in
    (
      flagged-Storable key (upgraded_blob blob key).flags bound,
      level,
      encrypted,
      super_encrypted,
      critical,
    )

-- Writing the characteristics leaves the key file as it is.
write_characteristics_key_file :
    (c : Ciphers) (u : UserKey) (w : Write) (rc : ResponseCode) (b : Option Blob)
    (files : EntryFiles)
    → (write_characteristics c u w rc b files).1.key_file ≡ files.key_file
unfolding write_characteristics
write_characteristics_key_file c u w rc none files = refl
write_characteristics_key_file c u w rc (some b) files = refl

pub write_blobs_key_file :
    (c : Ciphers) (key file : List ℕ) (w : Write) (rest : Write) (unset : ResponseCode) (b : Blob)
    (characteristics : Option Blob) (files : EntryFiles)
    → write_blob c key State.no_error w.random w.stored b ≡ (ResponseCode.no_error, some file)
    → (write_blobs c
        (record { encryption_key = key; state = State.no_error })
        (record { key_write = w; characteristics_write = rest; unset = unset })
        (some b)
        characteristics
        files).1.key_file
      ≡ some file
unfolding write_blobs
write_blobs_key_file c key file w rest unset b characteristics files e =
    rw (write_blobs, e) (write_characteristics_key_file c _ rest _ characteristics _)

get_value-upgraded_blob :
    (blob : Blob) (key : List ℕ) → length key ≤ 32768 → get_value (upgraded_blob blob key) ≡ key
unfolding upgraded_blob set_security_level set_encrypted set_super_encrypted
    set_critical_to_device_encryption
get_value-upgraded_blob blob key h = get_value-flagged key (upgraded_blob blob key).flags h

-- What an upgraded blob takes over from the old one.
abbrev pub TakenOver : Blob → Blob → Type 0
TakenOver blob old =
    (get_security_level blob ≡ get_security_level old)
    × (is_encrypted blob ≡ is_encrypted old)
    × (is_super_encrypted blob ≡ is_super_encrypted old)
    × (is_critical_to_device_encryption blob ≡ is_critical_to_device_encryption old)

-- For a cipher that keeps its documented laws, if the blobs of an entry are read, the device upgrades the
-- key to one of at most 32768 bytes, the user's storage is open, and 12 random bytes and the writing of
-- the key file are had, then the entry's key file holds the upgraded key: reading it yields a blob whose
-- value is the new key, and which is encrypted, super-encrypted, critical and of the security level as
-- the old one was. This is so whether or not the characteristics could be written as well.
pub upgrade_key_blob-ReadsBack :
    (c : Ciphers) (read_user : UserKey) (reads : Reads) (upgrade_key : List ℕ → Answer (List ℕ))
    (files : EntryFiles) (blob : Blob) (characteristics : Option Blob)
    (new user_key random : List ℕ) (rest : Write) (unset : ResponseCode)
    → GcmLaws c
    → read_blobs c read_user reads files ≡ (ResponseCode.no_error, some blob, characteristics)
    → upgrade_key (get_value blob) ≡ answer ErrorCode.ok new
    → length random ≡ 12
    → length new ≤ 32768
    → (let steps : UpgradeSteps = record {
      read_user = read_user;
      reads = reads;
      write_user = record { encryption_key = user_key; state = State.no_error };
      writes = record {
        key_write = record { random = some random; stored = true };
        characteristics_write = rest;
        unset = unset;
      };
    } in
        (file : List ℕ) × ((upgrade_key_blob c steps upgrade_key files).2.key_file ≡ some file)
        × ((new_blob : Blob) × ReadsBack c user_key State.no_error new_blob file
            × (get_value new_blob ≡ new)
            × TakenOver new_blob blob))
unfolding upgrade_key_blob upgrade_answered
upgrade_key_blob-ReadsBack c read_user reads upgrade_key files blob characteristics new user_key
      random rest unset laws read up n fits =
    let (storable, level, encrypted, super_encrypted, critical) = upgraded_blob-Storable blob new in
    let (file, wrote, back) =
      write_blob-read_blob c user_key random (upgraded_blob blob new) laws storable n in
    (
      file,
      rw (upgrade_key_blob, read, up)
          (write_blobs_key_file c user_key file (record { random = some random; stored = true })
            rest unset (upgraded_blob blob new) characteristics files wrote),
      (
        upgraded_blob blob new,
        back,
        get_value-upgraded_blob blob new fits,
        (level, encrypted, super_encrypted, critical),
      ),
    )
