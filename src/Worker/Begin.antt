-- ===== src/Worker/Begin.antt =====
-- keystore/keymaster_worker.cpp: the request begin. The application's id and data in the parameters
-- only go to the device. `create_key_id` is KeymasterEnforcement::CreateKeyId, a hash of the SSL
-- library that may fail. The loop around the device's begin has fuel for its rounds: each but the
-- last removes an operation, so that one more than there are operations is enough.
use system_security.Base.{
  ℕ, zero, suc, Bool, true, false, not, ◌&&◌, Option, none, some, List, [], ◌∷◌, ◌==◌,
  if◌then◌else◌, length,
}
use system_security.Keymaster.{HardwareAuthToken, no_token, KeyPurpose, ErrorCode}
use system_security.SecurityLevels.{SecurityLevel}
use system_security.Codes.{ResponseCode, ReturnCode, response, error, code_is_ok}
use system_security.Blob.{Blob, get_value}
use system_security.Blob.Stored.{Ciphers}
use system_security.Blob.Entry.{EntryFiles}
use system_security.Operations.{Operation, add_operation, get_operation}
use system_security.Worker.{
  Answer, no_answer, answer, Device, Details, begun, Worker, prune_operation,
}
use system_security.Worker.Requests.{OperationResult, operation_failed, set_details}
use system_security.Worker.Upgrade.{UpgradeSteps, upgrade_key_blob}

-- The arguments of begin besides the device, and what others answer during it: the id of the key,
-- the token of the new operation, and what the trusted environment's device will say of the token.
pub record BeginRequest (Param : Type 0) : Type 0 where
  pub app_token : ℕ
  pub pruneable : Bool
  pub purpose : KeyPurpose
  pub op_params : List Param
  pub entropy : List ℕ
  pub create_key_id : List ℕ → Option ℕ
  pub operation_token : ℕ
  pub security_level : SecurityLevel
  pub verify_authorization : ℕ → HardwareAuthToken → ReturnCode × HardwareAuthToken × List ℕ
  pub upgrades : ℕ → UpgradeSteps
  pub upgrade_key : List ℕ → Answer (List ℕ)

-- What begin knows when it asks the device: the id, the sets, the token and its code.
pub record Prepared (Param : Type 0) : Type 0 where
  pub keyid : ℕ
  pub hardware_enforced : List Param
  pub software_enforced : List Param
  pub auth_code : ReturnCode
  pub auth_token : HardwareAuthToken

-- Where a round of the loop leaves: a return with a code, or `result` as the callback set it.
pub data Attempt (Param : Type 0) : Type 0 where
  gave_up : ReturnCode → Attempt Param
  tried : ErrorCode → ℕ → List Param → Attempt Param

abbrev pub is_op_auth_needed : ReturnCode → Bool
is_op_auth_needed (response ResponseCode.op_auth_needed) = true
is_op_auth_needed _ = false

abbrev pub error_requires_upgrade : ErrorCode → Bool
error_requires_upgrade ErrorCode.key_requires_upgrade = true
error_requires_upgrade _ = false

abbrev pub is_too_many : ErrorCode → Bool
is_too_many ErrorCode.too_many_operations = true
is_too_many _ = false

abbrev pub is_strongbox : SecurityLevel → Bool
is_strongbox SecurityLevel.strongbox = true
is_strongbox _ = false

module _ {Param : Type 0} where
  -- An operation that the device began is on record.
  abbrev pub note_begun : Attempt Param → Worker Param → Worker Param
  note_begun (tried ErrorCode.ok handle out_params) w = record w { calls = begun handle ∷ w.calls }
  note_begun _ w = w

  abbrev pub attempted : Answer (ℕ × List Param) → Attempt Param
  attempted no_answer = gave_up (response ResponseCode.system_error)
  attempted (answer code (handle, out_params)) = tried code handle out_params

  -- The call of the device's begin with a key.
  unfoldable pub call_begin :
      Device Param → BeginRequest Param → Prepared Param → ℕ → List ℕ → Attempt Param
  call_begin d r p number key =
      attempted (d.begin_operation number r.purpose key r.op_params p.auth_token)

  -- A second call with the key that the upgrade yields, which is kept for the next rounds.
  abbrev pub begin_upgraded :
      Device Param
      → BeginRequest Param
      → Prepared Param
      → ℕ
      → Blob
      → ReturnCode × Option Blob × EntryFiles
      → Attempt Param × Blob × EntryFiles
  begin_upgraded d r p number old (code, none, files) = (gave_up code, old, files)
  begin_upgraded d r p number old (code, some blob, files) =
      if code_is_ok code
      then (call_begin d r p (suc number) (get_value blob), blob, files)
      else (gave_up code, blob, files)

  abbrev pub wants_upgrade : Attempt Param → Bool
  wants_upgrade (gave_up code) = false
  wants_upgrade (tried code handle out_params) = error_requires_upgrade code

  -- A round of the loop.
  unfoldable pub begin_round :
      Ciphers
      → Device Param
      → BeginRequest Param
      → Prepared Param
      → ℕ
      → Blob
      → EntryFiles
      → Attempt Param × Blob × EntryFiles
  begin_round c d r p number blob files =
      let first = call_begin d r p number (get_value blob) in
      if wants_upgrade first
      then begin_upgraded d r p number blob
          (upgrade_key_blob c (r.upgrades number) r.upgrade_key files)
      else (first, blob, files)

  abbrev pub wants_room : Attempt Param → Bool
  wants_room (gave_up code) = false
  wants_room (tried code handle out_params) = is_too_many code

  -- The loop: the last attempt, the worker and the files.
  unfoldable pub begin_loop :
      ℕ
      → Ciphers
      → Device Param
      → BeginRequest Param
      → Prepared Param
      → ℕ
      → Blob
      → EntryFiles
      → Worker Param
      → Attempt Param × Worker Param × EntryFiles
  begin_loop zero c d r p number blob files w =
      (gave_up (response ResponseCode.system_error), w, files)
  begin_loop (suc fuel) c d r p number blob files w =
      let round = begin_round c d r p number blob files in
      let pruned = prune_operation d w in
      elim (wants_room round.0) [
        | false ↦ (round.0, note_begun round.0 w, round.2)
        | true ↦ elim pruned.0 [
          | true ↦ begin_loop fuel c d r p (suc (suc number)) round.1 round.2 pruned.1
          | false ↦ (round.0, pruned.1, round.2)
        ]
      ]

  -- The operation that is added.
  abbrev pub new_operation : BeginRequest Param → Prepared Param → ℕ → Operation (Details Param)
  new_operation r p handle = record {
    handle = handle;
    keyid = p.keyid;
    purpose = r.purpose;
    app_token = r.app_token;
    rest = record {
      hardware_enforced = p.hardware_enforced;
      software_enforced = p.software_enforced;
      auth_token_future = none;
      auth_token = no_token;
      verification_token = [];
      params = r.op_params;
    };
  }

  -- The future of a strongbox operation with a token.
  abbrev pub with_future :
      BeginRequest Param → Prepared Param → Operation (Details Param) → Details Param
  with_future r p op =
      if code_is_ok p.auth_code
        && (not (length p.auth_token.mac == 0) && is_strongbox r.security_level)
      then record op.rest {
        auth_token_future = some (r.verify_authorization op.handle p.auth_token);
      }
      else op.rest

  -- The end of begin, with the operation as the map has it.
  abbrev pub begin_added :
      BeginRequest Param
      → Prepared Param
      → List Param
      → Option (Operation (Details Param))
      → Worker Param
      → OperationResult Param × Worker Param
  begin_added r p out_params none w = (operation_failed (response ResponseCode.system_error), w)
  begin_added r p out_params (some op) w = (
    record {
      result_code = p.auth_code;
      token = some r.operation_token;
      handle = op.handle;
      input_consumed = 0;
      output = [];
      out_params = out_params;
    },
    set_details w r.operation_token op (with_future r p op),
  )

  -- What begin does with the last attempt.
  unfoldable pub begin_attempted :
      BeginRequest Param
      → Prepared Param
      → Attempt Param
      → Worker Param
      → OperationResult Param × Worker Param
  begin_attempted r p (gave_up code) w = (operation_failed code, w)
  begin_attempted r p (tried ErrorCode.ok handle out_params) w =
      let added =
        add_operation w.operation_map r.operation_token (new_operation r p handle) r.pruneable in
      let (found, m) = get_operation added r.operation_token in
      begin_added r p out_params found (record w { operation_map = m })
  begin_attempted r p (tried code handle out_params) w = (operation_failed (error code), w)
