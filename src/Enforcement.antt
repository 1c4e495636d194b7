-- ===== src/Enforcement.antt =====
-- keystore/keymaster_enforcement.h and keymaster_enforcement.cpp: KeymasterEnforcement, which checks
-- what a key's authorizations permit. The virtual methods are the record Context; their versions for
-- keystore are in Enforcement/Keystore.
pub mod Maps
pub mod Begin
pub mod Operation
pub mod Keystore
pub mod Rounds
pub mod Admission
pub mod Uses
pub mod RateLimit
pub mod Finish
pub mod Tags
pub mod Grounds
use system_security.Base.{ℕ, Bool, []}
use system_security.Keymaster.{HardwareAuthToken}
use Maps.{AccessTimeMap, AccessCountMap}

-- The state is the two maps.
pub record KeymasterEnforcement : Type 0 where
  pub access_time_map : AccessTimeMap
  pub access_count_map : AccessCountMap

-- The constructor.
unfoldable pub init : ℕ → ℕ → KeymasterEnforcement
init max_access_time_map_size max_access_count_map_size = record {
  access_time_map = record { last_access_list = []; max_size = max_access_time_map_size };
  access_count_map = record { access_count_list = []; max_size = max_access_count_map_size };
}

-- The virtual methods, as they answer during one call. A user id is the bit pattern of an int32_t.
pub record Context : Type 0 where
  pub activation_date_valid : ℕ → Bool
  pub expiration_date_passed : ℕ → Bool
  pub auth_token_timed_out : HardwareAuthToken → ℕ → Bool
  pub get_current_time : ℕ
  pub validate_token_signature : HardwareAuthToken → Bool
  pub is_device_locked : ℕ → Bool
