-- ===== src/Worker.antt =====
-- keystore/keymaster_worker.h and keymaster_worker.cpp: KeymasterWorker, which runs the requests of
-- one keymaster device one after the other. The device is not in the repository: what it answers
-- during a request is a record of functions. The reason of an abort goes to the log alone.

pub mod Requests
pub mod Upgrade
pub mod Begin
pub mod Start
pub mod Room
pub mod Handles
pub mod Ledger
pub mod Runs
pub mod Beginnings
pub mod History
pub mod Upgraded
pub mod Keys
pub mod Transfers
pub mod Created
use system_security.Base.{
  ℕ, zero, suc, Bool, true, false, not, Option, none, some, List, [], ◌∷◌, ◌++◌, ltb, leb, ◌==◌,
  if◌then◌else◌, length,
}
use system_security.Base.Assoc.{find_key, put_key, erase_key}
use system_security.Keymaster.{HardwareAuthToken, no_token, Authorizations, KeyPurpose, ErrorCode}
use system_security.Codes.{ResponseCode, ReturnCode, response, error, code_is_ok}
use system_security.AuthTokens.{Error, AuthTokenTable}
use system_security.AuthTokens.Find.{find_authorization, mark_completed}
use system_security.Enforcement.{KeymasterEnforcement, Context}
use system_security.Operations.{
  Operation, OperationMap, get_operation, remove_operation, get_oldest_pruneable_operation,
  get_operations_for_token, get_operation_count,
}

-- A call of the device with a callback. Without an answer, KS_HANDLE_HIDL_ERROR yields
-- UNKNOWN_ERROR; with one it yields OK, and the callback gets the error code and what comes with it.
pub data Answer (A : Type 0) : Type 0 where
  no_answer : Answer A
  answer : ErrorCode → A → Answer A

-- What the device answers during one request. The first argument of begin_operation is the number
-- of the call within the request.
pub record Device (Param : Type 0) : Type 0 where
  pub begin_operation :
      ℕ → KeyPurpose → List ℕ → List Param → HardwareAuthToken → Answer (ℕ × List Param)
  pub update_operation :
      ℕ → List Param → List ℕ → HardwareAuthToken → List ℕ → Answer (ℕ × List Param × List ℕ)
  pub finish_operation :
      ℕ → List Param → List ℕ → List ℕ → HardwareAuthToken → List ℕ → Answer (List Param × List ℕ)
  pub abort_operation : ℕ → ErrorCode
  pub add_rng_entropy : List ℕ → ErrorCode

-- What an Operation holds besides its numbers, its purpose and its application. The future holds
-- what the device of the trusted environment answers about the token: the callback puts the two
-- tokens into the operation before the future is ready, and nothing reads them until then.
pub record Details (Param : Type 0) : Type 0 where
  pub hardware_enforced : List Param
  pub software_enforced : List Param
  pub auth_token_future : Option (ReturnCode × HardwareAuthToken × List ℕ)
  pub auth_token : HardwareAuthToken
  pub verification_token : List ℕ
  pub params : List Param

-- A call of the device that begins or ends an operation.
pub data DeviceCall : Type 0 where
  begun aborted finished : ℕ → DeviceCall

-- The worker and what it uses of the key store. `calls` are those the device carried out or was
-- asked for, the last one first.
pub record Worker (Param : Type 0) : Type 0 where
  pub operation_map : OperationMap (Details Param)
  pub auth_token_table : AuthTokenTable
  pub enforcement : KeymasterEnforcement
  pub operation_devices : List (ℕ × ℕ)
  pub calls : List DeviceCall

-- The clocks and the locks, as they are during one request.
pub record Moment : Type 0 where
  pub now : ℕ
  pub context : Context

-- kMaxOperations
abbrev pub max_operations : ℕ
max_operations = 15

-- The switch of getAuthToken.
unfoldable pub auth_error_code : Error → Bool → ReturnCode
auth_error_code Error.ok fail_on_token_missing = response ResponseCode.no_error
auth_error_code Error.auth_not_required fail_on_token_missing = response ResponseCode.no_error
auth_error_code Error.op_handle_required fail_on_token_missing =
    if fail_on_token_missing
    then error ErrorCode.key_user_not_authenticated
    else response ResponseCode.op_auth_needed
auth_error_code _ fail_on_token_missing = error ErrorCode.key_user_not_authenticated

module _ {Param : Type 0} where
  -- MarkCompleted, and the call of the device that ends an operation.
  unfoldable pub end_operation : Worker Param → ℕ → DeviceCall → Worker Param
  end_operation w handle call = record w {
    auth_token_table = mark_completed w.auth_token_table handle;
    calls = call ∷ w.calls;
  }

  abbrev pub abort_removed :
      Device Param
      → Worker Param
      → Option (Operation (Details Param)) × OperationMap (Details Param)
      → ReturnCode × Worker Param
  abort_removed d w (none, m) =
      (error ErrorCode.invalid_operation_handle, record w { operation_map = m })
  abort_removed d w (some op, m) = (
    error (d.abort_operation op.handle),
    end_operation (record w { operation_map = m }) op.handle (aborted op.handle),
  )

  -- abort
  unfoldable pub abort : Device Param → Worker Param → ℕ → ReturnCode × Worker Param
  abort d w token = abort_removed d w (remove_operation w.operation_map token)

  -- removeOperationDevice
  unfoldable pub remove_operation_device : Worker Param → ℕ → Worker Param
  remove_operation_device w token = record w {
    operation_devices = erase_key token w.operation_devices;
  }

  -- What pruneOperation does with the oldest token; a null pointer is in neither map.
  unfoldable pub prune_oldest : Device Param → Worker Param → Option ℕ → Worker Param
  prune_oldest d w none = w
  prune_oldest d w (some oldest) = remove_operation_device (abort d w oldest).1 oldest

  -- pruneOperation
  unfoldable pub prune_operation : Device Param → Worker Param → Bool × Worker Param
  prune_operation d w =
      let w' = prune_oldest d w (get_oldest_pruneable_operation w.operation_map) in
      (not (leb (get_operation_count w.operation_map) (get_operation_count w'.operation_map)), w')

  -- The loop of begin that makes room; the fuel bounds its rounds.
  unfoldable pub make_room : ℕ → Device Param → Worker Param → Worker Param
  make_room zero d w = w
  make_room (suc fuel) d w =
      let pruned = prune_operation d w in
      elim (leb max_operations (get_operation_count w.operation_map)) [
        | false ↦ w
        | true ↦ elim pruned.0 [ true ↦ make_room fuel d pruned.1 | false ↦ pruned.1 ]
      ]

  abbrev pub abort_all : Device Param → List ℕ → Worker Param → Worker Param
  abort_all d [] w = w
  abort_all d (token ∷ tokens) w =
      abort_all d tokens (remove_operation_device (abort d w token).1 token)

  -- binderDied
  unfoldable pub worker_binder_died : Device Param → Worker Param → ℕ → Worker Param
  worker_binder_died d w who = abort_all d (get_operations_for_token w.operation_map who) w

module _ {Param : Type 0} (km : Authorizations Param) where
  -- getAuthToken
  unfoldable pub get_auth_token :
      AuthTokenTable
      → List Param
      → List Param
      → ℕ
      → KeyPurpose
      → Bool
      → ℕ
      → ReturnCode × HardwareAuthToken × AuthTokenTable
  get_auth_token t hardware_enforced software_enforced handle purpose fail_on_token_missing now =
      let found =
        find_authorization km t (software_enforced ++ hardware_enforced) purpose handle now in
      (auth_error_code found.0 fail_on_token_missing, found.1, found.2)

  -- getOperationAuthTokenIfNeeded, for an operation that is there: its answer, the operation's
  -- details and the table.
  unfoldable pub get_operation_auth_token_if_needed :
      AuthTokenTable → Operation (Details Param) → ℕ → ReturnCode × Details Param × AuthTokenTable
  get_operation_auth_token_if_needed t op now = elim op.rest.auth_token_future [
    | some (rc, token, verification) ↦
        if code_is_ok rc
        then (
          response ResponseCode.no_error,
          record op.rest {
            auth_token_future = none;
            auth_token = token;
            verification_token = verification;
          },
          t,
        )
        else (rc, record op.rest { auth_token_future = none }, t)
    | none ↦
        let found =
          get_auth_token t op.rest.hardware_enforced op.rest.software_enforced op.handle op.purpose
            true now in
        if not (length op.rest.auth_token.mac == 0)
        then (response ResponseCode.no_error, op.rest, t)
        else if code_is_ok found.0
        then (response ResponseCode.no_error, record op.rest { auth_token = found.1 }, found.2)
        else (found.0, op.rest, found.2)
  ]
