-- ===== src/Enforcement/Keystore.antt =====
-- keystore/keystore_keymaster_enforcement.h: the virtual methods of KeystoreKeymasterEnforcement. The
-- readings of clock_gettime and time are arguments.
use system_security.Base.{
  ℕ, ◌+◌, ◌*◌, ◌%◌, ◌^◌, Bool, true, false, Option, none, some, List, [], ◌∷◌, ltb, leb, ◌==◌,
  if◌then◌else◌,
}
use system_security.Base.Int.{ℤ, pos, negsuc}
use system_security.Enforcement.{Context, KeymasterEnforcement, init}

-- KeymasterEnforcement(64, 64)
unfoldable pub keystore_init : KeymasterEnforcement
unfolding init
keystore_init = init 64 64

-- `none` is an error of clock_gettime.
unfoldable pub get_current_time : Option ℤ → ℕ
get_current_time none = 0
get_current_time (some (negsuc n)) = 0
get_current_time (some (pos sec)) = sec % 2 ^ 32

unfoldable pub activation_date_valid : ℤ → ℕ → Bool
activation_date_valid (negsuc n) activation_date = false
activation_date_valid (pos now) activation_date = leb activation_date ((now * 1000 + 999) % 2 ^ 64)

-- time_t -1 is the failure of time().
unfoldable pub expiration_date_passed : ℤ → ℕ → Bool
expiration_date_passed (negsuc n) expiration_date = n == 0
expiration_date_passed (pos now) expiration_date = ltb expiration_date ((now * 1000) % 2 ^ 64)

-- mIsDeviceLockedForUser, a map from users to whether the device is locked for them.
abbrev pub LockedForUser : Type 0
LockedForUser = List (ℕ × Bool)

unfoldable pub is_device_locked : LockedForUser → ℕ → Bool
is_device_locked [] user_id = true
is_device_locked ((user, locked) ∷ rest) user_id =
    if user == user_id then locked else is_device_locked rest user_id

unfoldable pub set_device_locked : LockedForUser → Bool → ℕ → LockedForUser
set_device_locked [] locked user_id = (user_id, locked) ∷ []
set_device_locked ((user, was) ∷ rest) locked user_id =
    if user == user_id
    then (user, locked) ∷ rest
    else (user, was) ∷ set_device_locked rest locked user_id

unfoldable pub keystore_context : Option ℤ → ℤ → LockedForUser → Context
keystore_context monotonic now locks = record {
  activation_date_valid = activation_date_valid now;
  expiration_date_passed = expiration_date_passed now;
  auth_token_timed_out = λ token timeout. false;
  get_current_time = get_current_time monotonic;
  validate_token_signature = λ token. true;
  is_device_locked = is_device_locked locks;
}
