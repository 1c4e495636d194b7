-- ===== src/Blob/Cases.antt =====
-- keystore/blob.h: what the flags of a blob say, as a test that runs on all cases.
use system_security.Base.{ℕ, ◌<◌, ◌≡◌, refl, Bool, true, false, not, ◌&&◌, arith, ltb, ltb→lt}
use system_security.Codes.{flag_encrypted, flag_super_encrypted, flag_critical_to_device_encryption}
use system_security.SecurityLevels.{SecurityLevel, flags_to_security_level}
use system_security.Blob.{has_flag}

unfoldable pub same : Bool → Bool → Bool
same true b = b
same false b = not b

pub same_eq : (a b : Bool) → same a b ≡ true → a ≡ b
unfolding same
same_eq a b h = ground (arith, h)

pub and_left : (a b : Bool) → (a && b) ≡ true → a ≡ true
and_left a b h = ground (arith, h)

pub and_right : (a b : Bool) → (a && b) ≡ true → b ≡ true
and_right a b h = ground (arith, h)

abbrev pub level_same : SecurityLevel → SecurityLevel → Bool
level_same SecurityLevel.software SecurityLevel.software = true
level_same SecurityLevel.trusted_environment SecurityLevel.trusted_environment = true
level_same SecurityLevel.strongbox SecurityLevel.strongbox = true
level_same _ _ = false

pub level_same_eq : (a b : SecurityLevel) → level_same a b ≡ true → a ≡ b
level_same_eq SecurityLevel.software SecurityLevel.software h = refl
level_same_eq SecurityLevel.software SecurityLevel.trusted_environment h = cc
level_same_eq SecurityLevel.software SecurityLevel.strongbox h = cc
level_same_eq SecurityLevel.trusted_environment SecurityLevel.software h = cc
level_same_eq SecurityLevel.trusted_environment SecurityLevel.trusted_environment h = refl
level_same_eq SecurityLevel.trusted_environment SecurityLevel.strongbox h = cc
level_same_eq SecurityLevel.strongbox SecurityLevel.software h = cc
level_same_eq SecurityLevel.strongbox SecurityLevel.trusted_environment h = cc
level_same_eq SecurityLevel.strongbox SecurityLevel.strongbox h = refl

-- What the flags are made of is what they say, and they are a byte.
abbrev pub Says : SecurityLevel → Bool → Bool → Bool → ℕ → Type 0
Says level encrypted super_encrypted critical flags =
    (flags < 256)
    × (flags_to_security_level flags ≡ level)
    × (has_flag flags flag_encrypted ≡ encrypted)
    × (has_flag flags flag_super_encrypted ≡ super_encrypted)
    × (has_flag flags flag_critical_to_device_encryption ≡ critical)

abbrev pub says_test : SecurityLevel → Bool → Bool → Bool → ℕ → Bool
says_test level encrypted super_encrypted critical flags =
    ltb flags 256
    && (level_same (flags_to_security_level flags) level
        && (same (has_flag flags flag_encrypted) encrypted
            && (same (has_flag flags flag_super_encrypted) super_encrypted
                && same (has_flag flags flag_critical_to_device_encryption) critical)))

pub says_test-Says :
    (level : SecurityLevel) (e s c : Bool) (flags : ℕ)
    → says_test level e s c flags ≡ true
    → Says level e s c flags
says_test-Says level e s c flags h =
    let r1 = and_right _ _ h in
    let r2 = and_right _ _ r1 in
    let r3 = and_right _ _ r2 in
    (
      ltb→lt flags 256 (and_left _ _ h),
      level_same_eq _ _ (and_left _ _ r1),
      same_eq _ _ (and_left _ _ r2),
      same_eq _ _ (and_left _ _ r3),
      same_eq _ _ (and_right _ _ r3),
    )

-- Whether a test holds in the cases of a security level and three flags.
abbrev pub both_flags : (Bool → Bool) → Bool
both_flags test = test true && test false

abbrev pub every_case : (SecurityLevel → Bool → Bool → Bool → Bool) → Bool
every_case test =
    let at =
      λ (l : SecurityLevel). both_flags (λ e. both_flags (λ s. both_flags (λ c. test l e s c))) in
    at SecurityLevel.software
    && (at SecurityLevel.trusted_environment && at SecurityLevel.strongbox)

both_flags_lem : (test : Bool → Bool) (b : Bool) → both_flags test ≡ true → test b ≡ true
both_flags_lem test true h = and_left _ _ h
both_flags_lem test false h = and_right _ _ h

level_lem :
    (at : SecurityLevel → Bool) (level : SecurityLevel)
    → (at SecurityLevel.software
        && (at SecurityLevel.trusted_environment && at SecurityLevel.strongbox))
      ≡ true
    → at level ≡ true
level_lem at SecurityLevel.software h = and_left _ _ h
level_lem at SecurityLevel.trusted_environment h = and_left _ _ (and_right _ _ h)
level_lem at SecurityLevel.strongbox h = and_right _ _ (and_right _ _ h)

pub every_case_lem :
    (test : SecurityLevel → Bool → Bool → Bool → Bool) (level : SecurityLevel) (e s c : Bool)
    → every_case test ≡ true
    → test level e s c ≡ true
every_case_lem test level e s c h = both_flags_lem (test level e s) c (
    both_flags_lem (λ s'. both_flags (test level e s')) s
      (both_flags_lem (λ e'. both_flags (λ s'. both_flags (test level e' s'))) e
        (level_lem (λ l. both_flags (λ e'. both_flags (λ s'. both_flags (test l e' s')))) level h)))
