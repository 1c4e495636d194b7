-- ===== src/Blob/Flags.antt =====
-- keystore/blob.cpp: the flags of a blob are independent of each other.
use system_security.Base.{
  ℕ, zero, suc, ◌+◌, ◌-◌, ◌^◌, ◌<◌, ◌≡◌, refl, ap, Bool, true, false, ◌&&◌, ◌||◌, arith, ltb, ◌==◌,
  ==_iff, if◌then◌else◌, bit_and, bit_or, inl, inr, Bool-cases,
}
use system_security.Codes.{
  flag_encrypted, flag_fallback, flag_super_encrypted, flag_critical_to_device_encryption,
  flag_strongbox,
}
use system_security.SecurityLevels.{
  SecurityLevel, flags_to_security_level, security_level_to_flags, level_of,
}
use system_security.Blob.Cases.{same, same_eq, and_left, and_right, level_same, level_same_eq}
use system_security.Blob.{
  Blob, has_flag, raw_blob_is_encrypted, is_encrypted, is_super_encrypted,
  is_critical_to_device_encryption, set_flag, get_security_level, set_security_level,
}

-- Whether a test holds of every byte below a bound.
holds_below : (ℕ → Bool) → ℕ → Bool
holds_below test zero = true
holds_below test (suc k) = elim (test k) [ true ↦ holds_below test k | false ↦ false ]

holds_below_lem : (test : ℕ → Bool) (c k : ℕ) → c < k → holds_below test k ≡ true → test c ≡ true
unfolding holds_below
holds_below_lem test c zero lt e = absurd (omega arith)
holds_below_lem test c (suc k) lt e = elim (Bool-cases (test k)) [
  | inr f ↦ ground (arith, e, f)
  | inl f ↦ elim (Bool-cases (c == k)) [
    | inl q ↦ rw ((==_iff c k).0 q) f
    | inr q ↦ holds_below_lem test c k (ground arith) (ground (arith, e, f))
  ]
]

-- The flag for the encryption of a value as a whole.
encrypted_table :
    holds_below
      (λ f.
        same
          (has_flag f (flag_encrypted + flag_super_encrypted))
          (has_flag f flag_encrypted || has_flag f flag_super_encrypted))
      256
    ≡ true
unfolding holds_below same
encrypted_table = refl

-- readBlob takes a blob for an encrypted one exactly if writeBlob does.
pub raw_blob_is_encrypted_lem :
    (b : Blob) → b.flags < 256 → raw_blob_is_encrypted b ≡ (is_encrypted b || is_super_encrypted b)
unfolding raw_blob_is_encrypted is_encrypted is_super_encrypted
raw_blob_is_encrypted_lem b h =
    let e = same_eq _ _ (holds_below_lem _ b.flags 256 h encrypted_table) in ground (arith, e)

-- Setting a bit, seen at a bit.
abbrev set_test : Bool → ℕ → Bool
set_test on f =
    holds_below
      (λ i.
        holds_below
          (λ j.
            same (has_flag (set_flag f on (2 ^ i)) (2 ^ j))
              (if i == j then on else has_flag f (2 ^ j)))
          8)
      8

set_on_table : holds_below (set_test true) 256 ≡ true
unfolding holds_below same set_flag
set_on_table = refl

set_off_table : holds_below (set_test false) 256 ≡ true
unfolding holds_below same set_flag
set_off_table = refl

set_table : (on : Bool) → holds_below (set_test on) 256 ≡ true
set_table true = set_on_table
set_table false = set_off_table

-- Setting or clearing one of the eight flags of a blob changes this flag alone.
pub has_flag-set_flag :
    (flags : ℕ) (on : Bool) (i j : ℕ)
    → flags < 256
    → i < 8
    → j < 8
    → has_flag (set_flag flags on (2 ^ i)) (2 ^ j) ≡ (if i == j then on else has_flag flags (2 ^ j))
has_flag-set_flag flags on i j hf hi hj = same_eq _ _ (
    holds_below_lem _ j 8 hj
      (holds_below_lem _ i 8 hi (holds_below_lem (set_test on) flags 256 hf (set_table on))))

-- The level is set, and the flags that say nothing of it stay.
abbrev level_test : SecurityLevel → ℕ → Bool
level_test level f =
    let g =
      bit_or (bit_and f (255 - (flag_fallback + flag_strongbox))) (security_level_to_flags level) in
    level_same (flags_to_security_level g) level
    && (same (has_flag g flag_encrypted) (has_flag f flag_encrypted)
        && (same (has_flag g flag_super_encrypted) (has_flag f flag_super_encrypted)
            && same (has_flag g flag_critical_to_device_encryption)
                (has_flag f flag_critical_to_device_encryption)))

level_table : (level : SecurityLevel) → holds_below (level_test level) 256 ≡ true
unfolding holds_below same flags_to_security_level security_level_to_flags level_of
level_table SecurityLevel.software = refl
level_table SecurityLevel.trusted_environment = refl
level_table SecurityLevel.strongbox = refl

-- A blob has the security level that was set, and it is encrypted, super-encrypted and critical as
-- it was before.
pub get_security_level-set_security_level :
    (b : Blob) (level : SecurityLevel)
    → b.flags < 256
    → (get_security_level (set_security_level b level) ≡ level)
      × (is_encrypted (set_security_level b level) ≡ is_encrypted b)
      × (is_super_encrypted (set_security_level b level) ≡ is_super_encrypted b)
      × (is_critical_to_device_encryption (set_security_level b level)
          ≡ is_critical_to_device_encryption b)
unfolding get_security_level set_security_level is_encrypted is_super_encrypted
    is_critical_to_device_encryption
get_security_level-set_security_level b level h =
    let t = holds_below_lem (level_test level) b.flags 256 h (level_table level) in
    let g =
      bit_or (bit_and b.flags (255 - (flag_fallback + flag_strongbox)))
        (security_level_to_flags level) in
    let r = and_right _ _ t in
    (
      level_same_eq _ _ (and_left _ _ t),
      ap (λ x. ltb b.version 2 || x) (same_eq _ _ (and_left _ _ r)),
      same_eq _ _ (and_left _ _ (and_right _ _ r)),
      same_eq _ _ (and_right _ _ (and_right _ _ r)),
    )
