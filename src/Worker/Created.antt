-- ===== src/Worker/Created.antt =====
-- keystore/keymaster_worker.cpp: what a key that is made or imported is stored as.
use system_security.Base.{
  ℕ, ◌≤◌, ◌<◌, ◌≡◌, ◌≢◌, ◌↔◌, refl, inl, inr, All, arith, Bool-cases, ◌∷◌, Bool, true, false, not,
  ◌&&◌, some, List, [], if◌then◌else◌, length, bit_or,
}
use system_security.Keymaster.{Tag, ErrorCode}
use system_security.Codes.{
  State, ResponseCode, flag_encrypted, flag_super_encrypted, flag_critical_to_device_encryption,
}
use system_security.SecurityLevels.{
  SecurityLevel, flags_to_security_level, security_level_to_flags, level_of,
}
use system_security.Blob.{
  Blob, has_flag, set_flag, get_value, is_encrypted, is_super_encrypted,
  is_critical_to_device_encryption, get_security_level, new_blob, set_encrypted,
  set_super_encrypted, set_critical_to_device_encryption, set_security_level, type_keymaster_10,
}
use system_security.Blob.Cases.{same, says_test, says_test-Says, every_case, every_case_lem}
use system_security.Blob.Stored.{Ciphers}
use system_security.Blob.Entry.{EntryFiles, Write}
use system_security.Blob.Fresh.{flagged, flagged-Storable, get_value-flagged}
use system_security.Blob.RoundTrip.{GcmLaws, ReadsBack, write_blob-read_blob}
use system_security.Worker.{answer}
use system_security.Worker.Upgrade.{CacheWrite}
use system_security.Worker.Keys.{
  NewKey, CreationSets, created_blob, is_authentication_bound, is_no_auth_required, store_key,
  creation_answered, generate_key,
}
use system_security.Worker.Upgraded.{write_blobs_key_file}

-- The flags of a created blob.
abbrev with_super : Bool → ℕ → ℕ
with_super bound flags =
    if bound && not (has_flag flags flag_critical_to_device_encryption)
    then set_flag flags true flag_super_encrypted
    else flags

created_flags : SecurityLevel → Bool → Bool → Bool → ℕ
created_flags level encrypted bound critical =
    set_flag
      (with_super bound (
        set_flag (bit_or 0 (security_level_to_flags level)) critical
          flag_critical_to_device_encryption))
      encrypted flag_encrypted

created_table : every_case (λ l e b c. says_test l e (b && not c) c (created_flags l e b c)) ≡ true
unfolding created_flags set_flag flags_to_security_level security_level_to_flags level_of same
created_table = refl

set_super_lem :
    (test : Bool) (b : Blob) (encrypted : Bool)
    → set_encrypted (if test then set_super_encrypted b true else b) encrypted ≡ record b {
      flags =
          set_flag
            (if test then set_flag b.flags true flag_super_encrypted else b.flags)
            encrypted
            flag_encrypted;
    }
unfolding set_encrypted set_super_encrypted
set_super_lem true b encrypted = refl
set_super_lem false b encrypted = refl

created_blob_lem :
    (level : SecurityLevel) (flags : ℕ) (bound : Bool) (key : List ℕ)
    → created_blob level flags bound key
      ≡ flagged key (
          created_flags level
            (has_flag flags flag_encrypted)
            bound
            (has_flag flags flag_critical_to_device_encryption))
unfolding created_blob created_flags set_critical_to_device_encryption set_security_level
    is_critical_to_device_encryption new_blob
created_blob_lem level flags bound key =
    let critical = has_flag flags flag_critical_to_device_encryption in
    let base =
      set_critical_to_device_encryption
        (set_security_level (new_blob key [] type_keymaster_10) level) critical in
    set_super_lem (bound && not (is_critical_to_device_encryption base)) base
      (has_flag flags flag_encrypted)

-- The blob of a key that was made: its value, where the key is stored, and what protects it.
abbrev pub MadeOf : SecurityLevel → ℕ → Bool → List ℕ → Blob → Type 0
MadeOf level flags authentication_bound key b =
    let critical = has_flag flags flag_critical_to_device_encryption in
    (get_value b ≡ key)
    × (get_security_level b ≡ level)
    × (is_encrypted b ≡ has_flag flags flag_encrypted)
    × (is_super_encrypted b ≡ (authentication_bound && not critical))
    × (is_critical_to_device_encryption b ≡ critical)

flagged-MadeOf :
    (level : SecurityLevel) (flags : ℕ) (bound : Bool) (key : List ℕ)
    → length key ≤ 32768
    → (let made =
          created_flags level
            (has_flag flags flag_encrypted)
            bound
            (has_flag flags flag_critical_to_device_encryption) in
        (made < 256) × MadeOf level flags bound key (flagged key made))
unfolding get_security_level is_encrypted is_super_encrypted is_critical_to_device_encryption
    new_blob
flagged-MadeOf level flags bound key fits =
    let e = has_flag flags flag_encrypted in
    let c = has_flag flags flag_critical_to_device_encryption in
    let made = created_flags level e bound c in
    let (byte, at_level, encrypted, super_encrypted, critical) =
      says_test-Says level e (bound && not c) c made (
        every_case_lem (λ l x y z. says_test l x (y && not z) z (created_flags l x y z)) level e
          bound c created_table) in
    (byte, (get_value-flagged key made fits, at_level, encrypted, super_encrypted, critical))

only_no_auth_required : (t : Tag) → is_no_auth_required t ≡ true → t ≡ Tag.no_auth_required
only_no_auth_required Tag.no_auth_required h = refl
only_no_auth_required _ h = cc

module _ {Param : Type 0} (sets : CreationSets Param) where
  -- A key needs authentication if no parameter says NO_AUTH_REQUIRED.
  abbrev pub NeedsAuthentication : List Param → Type 0
  NeedsAuthentication = All (λ p. sets.authorizations.tag p ≢ Tag.no_auth_required)

  bound_iff : (ps : List Param) → (is_authentication_bound sets ps ≡ true) ↔ NeedsAuthentication ps
  unfolding is_authentication_bound
  bound_iff [] = ((λ h. tt), (λ h. refl))
  bound_iff (p ∷ ps) = elim (Bool-cases (is_no_auth_required (sets.authorizations.tag p))) [
    | inl b ↦ (
      (λ h. absurd (ground (arith, b))),
      (λ h. absurd (h.0 (only_no_auth_required (sets.authorizations.tag p) b))),
    )
    | inr b ↦ (
      (λ h. ((λ e. cc), (bound_iff ps).0 (ground (arith, b)))),
      (λ h. ground (arith, b, (bound_iff ps).1 h.1)),
    )
  ]

  -- The blob of a key that was made for a request: its value, where the key is stored, and what
  -- protects it.
  abbrev pub MadeFor : SecurityLevel → ℕ → List Param → List ℕ → Blob → Type 0
  MadeFor level flags key_params key b =
      let critical = has_flag flags flag_critical_to_device_encryption in
      (get_value b ≡ key)
      × (get_security_level b ≡ level)
      × (is_encrypted b ≡ has_flag flags flag_encrypted)
      × ((is_super_encrypted b ≡ true) ↔ (NeedsAuthentication key_params × (critical ≡ false)))
      × (is_critical_to_device_encryption b ≡ critical)

  MadeOf-MadeFor :
      (level : SecurityLevel) (flags : ℕ) (key_params : List Param) (key : List ℕ) (b : Blob)
      → MadeOf level flags (is_authentication_bound sets key_params) key b
      → MadeFor level flags key_params key b
  MadeOf-MadeFor level flags key_params key b (v, l, e, s, c) = (
    v,
    l,
    e,
    (
      (λ h. ((bound_iff key_params).0 (ground (arith, s, h)), ground (arith, s, h))),
      (λ h. ground (arith, s, h.1, (bound_iff key_params).1 h.0)),
    ),
    c,
  )

  -- If the entropy is taken, the device makes a key, of at most 32768 bytes, the user's storage is
  -- open, the cipher keeps its documented laws, and 12 random bytes and the writing of the file are
  -- had, then the entry's key file holds the key: reading it yields a blob of that value, which has
  -- the device's security level, is encrypted and critical as the request's flags say, and is
  -- super-encrypted exactly if no parameter says NO_AUTH_REQUIRED and it is not critical.
  pub generate_key-MadeOf :
      (c : Ciphers) (user_key random : List ℕ) (rest : Write) (unset : ResponseCode)
      (level : SecurityLevel) (has_fallback : Bool) (user_id : ℕ) (key_params : List Param)
      (flags : ℕ) (key : NewKey Param) (files : EntryFiles)
      → GcmLaws c
      → length random ≡ 12
      → length key.key_blob ≤ 32768
      → (let write : CacheWrite = record {
        write_user = record { encryption_key = user_key; state = State.no_error };
        writes = record {
          key_write = record { random = some random; stored = true };
          characteristics_write = rest;
          unset = unset;
        };
      } in
          (file : List ℕ) × ((generate_key sets c write level has_fallback user_id key_params flags
              ErrorCode.ok
              (answer ErrorCode.ok key)
              files).1.key_file
            ≡ some file)
          × ((made : Blob) × ReadsBack c user_key State.no_error made file
              × MadeFor level flags key_params key.key_blob made))
  unfolding generate_key creation_answered store_key
  generate_key-MadeOf c user_key random rest unset level has_fallback user_id key_params flags key
        files laws n fits =
      let bound = is_authentication_bound sets key_params in
      let value =
        created_flags level (has_flag flags flag_encrypted) bound
          (has_flag flags flag_critical_to_device_encryption) in
      let (byte, made) = flagged-MadeOf level flags bound key.key_blob fits in
      let (file, wrote, back) =
        write_blob-read_blob c user_key random (flagged key.key_blob value) laws
          (flagged-Storable key.key_blob value byte) n in
      (
        file,
        rw (created_blob_lem level flags bound key.key_blob) (
            write_blobs_key_file c user_key file (record { random = some random; stored = true })
              rest unset (flagged key.key_blob value) _ files wrote),
        (
          flagged key.key_blob value,
          back,
          MadeOf-MadeFor level flags key_params key.key_blob (flagged key.key_blob value) made,
        ),
      )
