-- ===== src/Examples/Keys.antt =====
-- A concrete authorization set, a key and requests for it.
use system_security.Base.{
  ℕ, suc, Bool, true, false, Option, none, some, List, [], ◌∷◌, if◌then◌else◌,
}
use system_security.Keymaster.{Algorithm, KeyPurpose, Tag, HardwareAuthToken, Authorizations}
use system_security.Enforcement.{Context}
use system_security.Enforcement.Begin.{Request}

-- The tags of the key below.
abbrev pub same_tag : Tag → Tag → Bool
same_tag Tag.user_secure_id Tag.user_secure_id = true
same_tag Tag.user_auth_type Tag.user_auth_type = true
same_tag Tag.auth_timeout Tag.auth_timeout = true
same_tag Tag.max_uses_per_boot Tag.max_uses_per_boot = true
same_tag Tag.algorithm Tag.algorithm = true
same_tag _ _ = false

abbrev pub param_value : Tag → Tag × ℕ → Option ℕ
param_value tag (t, v) = if same_tag tag t then some v else none

abbrev pub first_value : Tag → List (Tag × ℕ) → Option ℕ
first_value tag [] = none
first_value tag ((t, v) ∷ ps) = if same_tag tag t then some v else first_value tag ps

abbrev pub position : ℕ → Tag → List (Tag × ℕ) → Option ℕ
position n tag [] = none
position n tag ((t, v) ∷ ps) = if same_tag tag t then some n else position (suc n) tag ps

abbrev pub signs : KeyPurpose → List (Tag × ℕ) → Bool
signs KeyPurpose.sign ps = true
signs _ ps = false

abbrev pub has_tag : Tag → List (Tag × ℕ) → Bool
has_tag tag [] = false
has_tag tag ((t, v) ∷ ps) = if same_tag tag t then true else has_tag tag ps

abbrev pub km : Authorizations (Tag × ℕ)
km = record {
  tag = λ (p : Tag × ℕ). p.0;
  authorization_value = param_value;
  get_tag_value = first_value;
  get_algorithm = λ (ps : List (Tag × ℕ)). some Algorithm.rsa;
  find = position 0;
  contains = has_tag;
  contains_purpose = signs;
  null_value = 0;
}

-- A key that signs, twice a boot, for the user 5 in the ten seconds after an authentication.
abbrev pub key_info : List (Tag × ℕ)
key_info =
    (Tag.user_secure_id, 5)
    ∷ (Tag.user_auth_type, 1)
    ∷ (Tag.auth_timeout, 10)
    ∷ (Tag.max_uses_per_boot, 2)
    ∷ []

abbrev pub token : HardwareAuthToken
token = record {
  challenge = 0;
  user_id = 5;
  authenticator_id = 7;
  authenticator_type = 1;
  timestamp = 100;
  mac = 1 ∷ [];
}

abbrev pub op_token : HardwareAuthToken
op_token = record token { challenge = 33 }

abbrev pub context : Context
context = record {
  activation_date_valid = λ (d : ℕ). true;
  expiration_date_passed = λ (d : ℕ). false;
  auth_token_timed_out = λ (t : HardwareAuthToken) (d : ℕ). false;
  get_current_time = 50;
  validate_token_signature = λ (t : HardwareAuthToken). true;
  is_device_locked = λ (u : ℕ). false;
}

abbrev pub request : Request (Tag × ℕ)
request = record {
  context = context;
  purpose = KeyPurpose.sign;
  keyid = 9;
  auth_set = key_info;
  operation_params = [];
  auth_token = some token;
}
