-- ===== src/SecurityLevels.antt =====
-- keystore/keystore_utils.cpp: the flags of a key blob that say where its key lives. A signed word of
-- flags is the number of its 32 bits.
use system_security.Base.{ℕ, ◌+◌, ◌≡◌, refl, bit_and, ◌==◌, if◌then◌else◌}
use system_security.Codes.{flag_fallback, flag_strongbox}

-- The security levels of the HAL.
pub data SecurityLevel : Type 0 where
  software trusted_environment strongbox : SecurityLevel

-- The switch of flagsToSecurityLevel, on the two flags alone.
unfoldable pub level_of : ℕ → SecurityLevel
level_of two_flags =
    if two_flags == flag_fallback
    then SecurityLevel.software
    else if two_flags == flag_fallback + flag_strongbox
    then SecurityLevel.software
    else if two_flags == flag_strongbox
    then SecurityLevel.strongbox
    else SecurityLevel.trusted_environment

-- flagsToSecurityLevel
unfoldable pub flags_to_security_level : ℕ → SecurityLevel
unfolding level_of
flags_to_security_level flags = level_of (bit_and flags (flag_fallback + flag_strongbox))

-- securityLevelToFlags
unfoldable pub security_level_to_flags : SecurityLevel → ℕ
security_level_to_flags SecurityLevel.software = flag_fallback
security_level_to_flags SecurityLevel.strongbox = flag_strongbox
security_level_to_flags SecurityLevel.trusted_environment = 0

-- A security level is the one that its flags stand for.
flags_to_security_level-security_level_to_flags :
    (level : SecurityLevel) → flags_to_security_level (security_level_to_flags level) ≡ level
unfolding flags_to_security_level security_level_to_flags
flags_to_security_level-security_level_to_flags SecurityLevel.software = refl
flags_to_security_level-security_level_to_flags SecurityLevel.trusted_environment = refl
flags_to_security_level-security_level_to_flags SecurityLevel.strongbox = refl
