-- ===== src/Examples/Workers.antt =====
-- Runs of a keymaster worker.
use system_security.Base.{
  ℕ, zero, suc, ◌≡◌, ◌≤◌, refl, true, false, none, some, List, [], ◌∷◌, ◌++◌, arith,
}
use system_security.Base.Assoc.{find_key}
use system_security.Keymaster.{KeyPurpose, Tag, ErrorCode, HardwareAuthToken, no_token}
use system_security.SecurityLevels.{SecurityLevel}
use system_security.Codes.{State, ResponseCode, response}
use system_security.Enforcement.{init}
use system_security.Blob.{Blob, zeros, get_value, raw_blob_is_encrypted}
use system_security.Blob.Stored.{
  raw_blob, read_blob, read_file, read_version, read_v3, check_length,
}
use system_security.Blob.Entry.{EntryFiles, UserKey, Write, Reads, Sets, read_blobs}
use system_security.Blob.RoundTrip.{ReadsBack}
use system_security.Operations.{
  Operation, OperationMap, add_operation, emplace, get_operation_count,
  get_oldest_pruneable_operation,
}
use system_security.Operations.Tracking.{Consistent, init-Consistent, add_operation-Consistent}
use system_security.Worker.{answer, Device, Details, Worker, Moment, make_room, worker_binder_died}
use system_security.Worker.Upgrade.{
  UpgradeSteps, KeyDevice, CacheSteps, CacheWrite, upgrade_key_blob,
}
use system_security.Worker.Begin.{BeginRequest, Prepared, begin_loop}
use system_security.Worker.Start.{begin}
use system_security.Worker.Room.{RoomMade, make_room-RoomMade}
use system_security.Worker.Beginnings.{begin_loop-enough}
use system_security.Worker.Handles.{emplace_fresh}
use system_security.Worker.Ledger.{SoundWorker}
use system_security.Worker.History.{began, died, fresh, start, next, Reachable-Sound}
use system_security.Worker.Keys.{NewKey, CreationSets, generate_key}
use system_security.Worker.Created.{MadeFor, generate_key-MadeOf}
use system_security.Worker.Upgraded.{TakenOver, upgrade_key_blob-ReadsBack}
use system_security.Examples.Keys.{km, key_info, context}
use system_security.Examples.Blobs.{ciphers, ciphers_laws, blob}

abbrev Parameter : Type 0
Parameter = Tag × ℕ

abbrev sets : Sets Parameter
sets = record {
  deserialize = λ (bytes : List ℕ). ([], bytes, false);
  serialize = λ (ps : List Parameter). [];
  union = λ (ps qs : List Parameter). ps ++ qs;
  subtract = λ (ps qs : List Parameter). ps;
}

abbrev device : Device Parameter
device = record {
  begin_operation =
      λ (number : ℕ) (purpose : KeyPurpose) (key : List ℕ) (params : List Parameter)
          (token : HardwareAuthToken).
        answer ErrorCode.ok (33, []);
  update_operation =
      λ (handle : ℕ) (params : List Parameter) (input : List ℕ) (token : HardwareAuthToken)
          (verification : List ℕ).
        answer ErrorCode.ok (1, [], []);
  finish_operation =
      λ (handle : ℕ) (params : List Parameter) (input signature : List ℕ)
          (token : HardwareAuthToken) (verification : List ℕ).
        answer ErrorCode.ok ([], []);
  abort_operation = λ (handle : ℕ). ErrorCode.ok;
  add_rng_entropy = λ (bytes : List ℕ). ErrorCode.ok;
}

abbrev key_device : KeyDevice Parameter
key_device = record {
  ask_key_characteristics = λ (number : ℕ) (key : List ℕ). answer ErrorCode.ok (key_info, []);
  upgrade_key = λ (key : List ℕ). answer ErrorCode.ok (1 ∷ key);
}

abbrev user_key : UserKey
user_key = record { encryption_key = zeros 16; state = State.no_error }

abbrev key_write : Write
key_write = record { random = some (zeros 12); stored = true }

abbrev reads : Reads
reads = record { key_opened = true; characteristics_opened = true; has_characteristics = false }

abbrev upgrade_steps : UpgradeSteps
upgrade_steps = record {
  read_user = user_key;
  reads = reads;
  write_user = user_key;
  writes = record {
    key_write = key_write;
    characteristics_write = key_write;
    unset = ResponseCode.no_error;
  };
}

abbrev cache_write : CacheWrite
cache_write = record { write_user = user_key; writes = upgrade_steps.writes }

abbrev cache_steps : CacheSteps
cache_steps = record {
  first_write = cache_write;
  upgrade = upgrade_steps;
  second_write = cache_write;
}

abbrev begin_request : BeginRequest Parameter
begin_request = record {
  app_token = 4;
  pruneable = true;
  purpose = KeyPurpose.sign;
  op_params = [];
  entropy = 1 ∷ [];
  create_key_id = λ (key : List ℕ). some 9;
  operation_token = 70;
  security_level = SecurityLevel.trusted_environment;
  verify_authorization =
      λ (handle : ℕ) (token : HardwareAuthToken). (response ResponseCode.no_error, token, []);
  upgrades = λ (number : ℕ). upgrade_steps;
  upgrade_key = λ (key : List ℕ). answer ErrorCode.ok (1 ∷ key);
}

abbrev moment : Moment
moment = record { now = 50; context = context }

-- A plain key: one byte of value in a file of version 3.
abbrev plain_blob : Blob
plain_blob = record blob { flags = 0 }

abbrev files : EntryFiles
files = record {
  key_file = some (3 ∷ 4 ∷ 0 ∷ 0 ∷ (zeros 32 ++ 0 ∷ 0 ∷ 0 ∷ 2 ∷ 7 ∷ 8 ∷ []));
  characteristics_file = none;
}

-- The blob that is read from it.
abbrev plain_read : Blob
plain_read = raw_blob (3 ∷ 4 ∷ 0 ∷ 0 ∷ (zeros 32 ++ 0 ∷ 0 ∷ 0 ∷ 2 ∷ 7 ∷ 8 ∷ []))

abbrev worker : Worker Parameter
worker = record {
  operation_map = system_security.Operations.init;
  auth_token_table = system_security.AuthTokens.init 2 0;
  enforcement = init 2 2;
  operation_devices = [];
  calls = [];
}

abbrev after_begin : Worker Parameter
after_begin =
    (begin sets km ciphers cache_steps key_device device moment begin_request (some plain_blob) none
      files (fresh sets km ciphers worker.auth_token_table worker.enforcement)).1

-- An operation is begun, and then its application dies.
Reachable-Sound_example : SoundWorker (worker_binder_died device after_begin 4)
unfolding fresh find_key system_security.Operations.init
Reachable-Sound_example = Reachable-Sound sets km ciphers (
    next
      (next (start worker.auth_token_table worker.enforcement) (
        began device key_device moment begin_request cache_steps (some plain_blob) none files
          (fresh sets km ciphers worker.auth_token_table worker.enforcement) refl))
      (died device 4 after_begin))

-- A map with so many pruneable operations.
abbrev numbered : ℕ → Operation (Details Parameter)
numbered n = record {
  handle = n;
  keyid = 9;
  purpose = KeyPurpose.sign;
  app_token = 4;
  rest = record {
    hardware_enforced = key_info;
    software_enforced = [];
    auth_token_future = none;
    auth_token = no_token;
    verification_token = [];
    params = [];
  };
}

abbrev filled : ℕ → OperationMap (Details Parameter)
filled zero = system_security.Operations.init
filled (suc n) = add_operation (filled n) n (numbered n) true

filled_unused : (n m : ℕ) → n ≤ m → find_key m (filled n).map ≡ none
unfolding add_operation find_key system_security.Operations.init
filled_unused zero m h = refl
filled_unused (suc n) m h =
    rw (emplace_fresh n (numbered n) (filled n).map (filled_unused n n (omega arith)))
      (ground (arith, filled_unused n m (omega arith)))

filled-Consistent : (n : ℕ) → Consistent (filled n)
filled-Consistent zero = init-Consistent
filled-Consistent (suc n) =
    add_operation-Consistent (filled n) n (numbered n) true (filled_unused n n (omega arith))
      (filled-Consistent n)

abbrev busy : Worker Parameter
busy = record worker { operation_map = filled 16 }

make_room-RoomMade_example : RoomMade busy (make_room 16 device busy)
unfolding get_operation_count add_operation emplace find_key system_security.Operations.init
make_room-RoomMade_example = make_room-RoomMade 16 device busy (filled-Consistent 16) (omega arith)

abbrev prepared : Prepared Parameter
prepared = record {
  keyid = 9;
  hardware_enforced = key_info;
  software_enforced = [];
  auth_code = response ResponseCode.no_error;
  auth_token = no_token;
}

begin_loop-enough_example :
    begin_loop 18 ciphers device begin_request prepared 0 plain_blob files busy
    ≡ begin_loop 17 ciphers device begin_request prepared 0 plain_blob files busy
unfolding get_operation_count add_operation emplace find_key system_security.Operations.init
begin_loop-enough_example =
    begin_loop-enough device ciphers begin_request prepared 17 0 plain_blob files busy
      (filled-Consistent 16) (omega arith)

upgrade_key_blob-ReadsBack_example :
    (file : List ℕ) × ((upgrade_key_blob ciphers upgrade_steps key_device.upgrade_key
        files).2.key_file
      ≡ some file)
    × ((new_blob : Blob) × ReadsBack ciphers (zeros 16) State.no_error new_blob file
        × (get_value new_blob ≡ 1 ∷ 7 ∷ 8 ∷ [])
        × TakenOver new_blob plain_read)
unfolding read_blobs read_blob read_file read_version read_v3 check_length raw_blob
    raw_blob_is_encrypted get_value
upgrade_key_blob-ReadsBack_example =
    upgrade_key_blob-ReadsBack ciphers user_key reads key_device.upgrade_key files plain_read none
      (1 ∷ 7 ∷ 8 ∷ []) (zeros 16) (zeros 12) key_write ResponseCode.no_error ciphers_laws refl refl
      refl (omega arith)

abbrev creation_sets : CreationSets Parameter
creation_sets = record {
  authorizations = km;
  sets = sets;
  user_id_param = λ (user_id : ℕ). (Tag.user_id, user_id);
}

abbrev new_key : NewKey Parameter
new_key = record { key_blob = 5 ∷ 6 ∷ []; hardware_enforced = key_info; software_enforced = [] }

-- A key that needs authentication, asked for with the flag for encryption.
generate_key-MadeOf_example :
    (file : List ℕ) × ((generate_key creation_sets ciphers cache_write
        SecurityLevel.trusted_environment false 0 key_info 1 ErrorCode.ok
        (answer ErrorCode.ok new_key)
        files).1.key_file
      ≡ some file)
    × ((made : Blob) × ReadsBack ciphers (zeros 16) State.no_error made file
        × MadeFor creation_sets SecurityLevel.trusted_environment 1 key_info (5 ∷ 6 ∷ []) made)
generate_key-MadeOf_example =
    generate_key-MadeOf creation_sets ciphers (zeros 16) (zeros 12) key_write ResponseCode.no_error
      SecurityLevel.trusted_environment false 0 key_info 1 new_key files ciphers_laws refl
      (omega arith)
