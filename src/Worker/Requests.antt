-- ===== src/Worker/Requests.antt =====
-- keystore/keymaster_worker.cpp: the requests update, finish and abort. The result of a request is
-- what it hands to its callback. The object that a scope leaves behind to abort the operation is the
-- function abort_after, which every return but a good one goes through.
use system_security.Base.{
  ℕ, Bool, true, false, not, Option, none, some, List, [], ◌∷◌, ◌++◌, ◌==◌, if◌then◌else◌, length,
}
use system_security.Base.Assoc.{put_key}
use system_security.Keymaster.{Authorizations, Tag, ErrorCode}
use system_security.Codes.{ReturnCode, error, code_is_ok}
use system_security.Enforcement.Begin.{Request}
use system_security.Enforcement.Operation.{authorize_operation}
use system_security.Operations.{Operation, get_operation, remove_operation}
use system_security.Worker.{
  Answer, no_answer, answer, Device, Details, DeviceCall, aborted, finished, Worker, Moment,
  end_operation, get_operation_auth_token_if_needed,
}

pub record OperationResult (Param : Type 0) : Type 0 where
  pub result_code : ReturnCode
  pub token : Option ℕ
  pub handle : ℕ
  pub input_consumed : ℕ
  pub output : List ℕ
  pub out_params : List Param

module _ {Param : Type 0} where
  abbrev pub operation_failed : ReturnCode → OperationResult Param
  operation_failed code = record {
    result_code = code;
    token = none;
    handle = 0;
    input_consumed = 0;
    output = [];
    out_params = [];
  }

  -- The operation is shared: what a request sets in it, the map's operation has.
  unfoldable pub set_details :
      Worker Param → ℕ → Operation (Details Param) → Details Param → Worker Param
  set_details w token op details = record w {
    operation_map = record w.operation_map {
      map = put_key token (record op { rest = details }) w.operation_map.map;
    };
  }

  -- The finalizer: the operation is removed and completed, and aborted at the device, unless the
  -- device has finished it.
  unfoldable pub finalize : Worker Param → ℕ → Operation (Details Param) → DeviceCall → Worker Param
  finalize w token op call =
      end_operation (record w { operation_map = (remove_operation w.operation_map token).1 })
        op.handle call

  abbrev pub abort_after : Worker Param → ℕ → Operation (Details Param) → Worker Param
  abort_after w token op = finalize w token op (aborted op.handle)

  -- The answer to update, for the callback and without an answer.
  abbrev pub update_result : Answer (ℕ × List Param × List ℕ) → OperationResult Param
  update_result no_answer = operation_failed (error ErrorCode.unknown_error)
  update_result (answer ErrorCode.ok (consumed, out_params, output)) = record {
    result_code = error ErrorCode.ok;
    token = none;
    handle = 0;
    input_consumed = consumed;
    output = output;
    out_params = out_params;
  }
  update_result (answer code out) = operation_failed (error code)

  -- What update does with the device's answer.
  unfoldable pub update_answered :
      Worker Param
      → ℕ
      → Operation (Details Param)
      → Answer (ℕ × List Param × List ℕ)
      → OperationResult Param × Worker Param
  update_answered w token op out =
      let result = update_result out in
      (result, if code_is_ok result.result_code then w else abort_after w token op)

  -- The answer to finish.
  abbrev pub finish_result : ErrorCode → List Param → List ℕ → OperationResult Param
  finish_result ErrorCode.ok out_params output = record {
    result_code = error ErrorCode.ok;
    token = none;
    handle = 0;
    input_consumed = 0;
    output = output;
    out_params = out_params;
  }
  finish_result code out_params output = operation_failed (error code)

  -- What finish does with the device's answer.
  unfoldable pub finish_answered :
      Worker Param
      → ℕ
      → Operation (Details Param)
      → Answer (List Param × List ℕ)
      → OperationResult Param × Worker Param
  finish_answered w token op no_answer =
      (operation_failed (error ErrorCode.unknown_error), abort_after w token op)
  finish_answered w token op (answer code (out_params, output)) =
      (finish_result code out_params output, finalize w token op (finished op.handle))

  -- The check of the enforcement policy for an operation that goes on, with the operation's token.
  abbrev pub policy_request : Moment → Operation (Details Param) → List Param → Request Param
  policy_request e op params = record {
    context = e.context;
    purpose = op.purpose;
    keyid = op.keyid;
    auth_set = op.rest.hardware_enforced ++ op.rest.software_enforced;
    operation_params = params;
    auth_token = none;
  }

module _ {Param : Type 0} (km : Authorizations Param) where
  -- What follows the lookup of the token in update, with the operation's new details.
  unfoldable pub update_authorized :
      Device Param
      → Moment
      → Worker Param
      → ℕ
      → Operation (Details Param)
      → List Param
      → List ℕ
      → OperationResult Param × Worker Param
  update_authorized d e w token op params input =
      let (code, policy) =
        authorize_operation km w.enforcement (policy_request e op params) op.rest.auth_token
          op.handle false in
      let w' = record w { enforcement = policy } in
      if code_is_ok (error code)
      then update_answered w' token op
          (d.update_operation op.handle params input op.rest.auth_token op.rest.verification_token)
      else (operation_failed (error code), abort_after w' token op)

  unfoldable pub update_found :
      Device Param
      → Moment
      → Worker Param
      → ℕ
      → Option (Operation (Details Param))
      → List Param
      → List ℕ
      → OperationResult Param × Worker Param
  update_found d e w token none params input =
      (operation_failed (error ErrorCode.invalid_operation_handle), w)
  update_found d e w token (some op) params input =
      let (code, details, table) =
        get_operation_auth_token_if_needed km w.auth_token_table op e.now in
      let w' = record (set_details w token op details) { auth_token_table = table } in
      if code_is_ok code
      then update_authorized d e w' token (record op { rest = details }) params input
      else (operation_failed code, abort_after w' token op)

  -- update
  unfoldable pub update :
      Device Param
      → Moment
      → Worker Param
      → ℕ
      → List Param
      → List ℕ
      → OperationResult Param × Worker Param
  update d e w token params input =
      let (found, m) = get_operation w.operation_map token in
      update_found d e (record w { operation_map = m }) token found params input

  -- checkAllowedOperationParams
  unfoldable pub check_allowed_operation_params : List Param → Bool
  check_allowed_operation_params [] = true
  check_allowed_operation_params (p ∷ ps) = elim (km.tag p) [
    | Tag.attestation_application_id ↦ false
    | Tag.reset_since_id_rotation ↦ false
    | _ ↦ check_allowed_operation_params ps
  ]

  -- The last steps of finish, after the entropy.
  unfoldable pub finish_authorized :
      Device Param
      → Worker Param
      → ℕ
      → Operation (Details Param)
      → List Param
      → List ℕ
      → List ℕ
      → List ℕ
      → OperationResult Param × Worker Param
  finish_authorized d w token op params input signature entropy =
      let fed = if length entropy == 0 then ErrorCode.ok else d.add_rng_entropy entropy in
      if code_is_ok (error fed)
      then finish_answered w token op (
          d.finish_operation op.handle params input signature op.rest.auth_token
            op.rest.verification_token)
      else (operation_failed (error fed), abort_after w token op)

  -- The check of the policy in finish.
  unfoldable pub finish_checked :
      Device Param
      → Moment
      → Worker Param
      → ℕ
      → Operation (Details Param)
      → List Param
      → List ℕ
      → List ℕ
      → List ℕ
      → OperationResult Param × Worker Param
  finish_checked d e w token op params input signature entropy =
      let (code, policy) =
        authorize_operation km w.enforcement (policy_request e op params) op.rest.auth_token
          op.handle false in
      let w' = record w { enforcement = policy } in
      if code_is_ok (error code)
      then finish_authorized d w' token op params input signature entropy
      else (operation_failed (error code), abort_after w' token op)

  -- finish for an operation that is there and parameters that are allowed. `confirmation` is what
  -- the confirmation manager has, and `confirmation_param` makes the parameter of it.
  unfoldable pub finish_confirmed :
      (List ℕ → Param)
      → Device Param
      → Moment
      → Worker Param
      → ℕ
      → Operation (Details Param)
      → List Param
      → List ℕ
      → List ℕ
      → List ℕ
      → List ℕ
      → OperationResult Param × Worker Param
  finish_confirmed confirmation_param d e w token op params input signature entropy confirmation =
      if km.contains Tag.trusted_confirmation_required
        (op.rest.hardware_enforced ++ op.rest.software_enforced)
      then (if length confirmation == 0
          then (operation_failed (error ErrorCode.no_user_confirmation), abort_after w token op)
          else finish_checked d e w token op (params ++ confirmation_param confirmation ∷ []) input
              signature entropy)
      else finish_checked d e w token op params input signature entropy

  unfoldable pub finish_found :
      (List ℕ → Param)
      → Device Param
      → Moment
      → Worker Param
      → ℕ
      → Option (Operation (Details Param))
      → List Param
      → List ℕ
      → List ℕ
      → List ℕ
      → List ℕ
      → OperationResult Param × Worker Param
  finish_found confirmation_param d e w token none params input signature entropy confirmation =
      (operation_failed (error ErrorCode.invalid_operation_handle), w)
  finish_found confirmation_param d e w token (some op) params input signature entropy
        confirmation =
      let (code, details, table) =
        get_operation_auth_token_if_needed km w.auth_token_table op e.now in
      let w' = record (set_details w token op details) { auth_token_table = table } in
      if not (check_allowed_operation_params params)
      then (operation_failed (error ErrorCode.invalid_argument), abort_after w token op)
      else if code_is_ok code
      then finish_confirmed confirmation_param d e w' token (record op { rest = details }) params
          input signature entropy confirmation
      else (operation_failed code, abort_after w' token op)

  -- finish
  unfoldable pub finish :
      (List ℕ → Param)
      → Device Param
      → Moment
      → Worker Param
      → ℕ
      → List Param
      → List ℕ
      → List ℕ
      → List ℕ
      → List ℕ
      → OperationResult Param × Worker Param
  finish confirmation_param d e w token params input signature entropy confirmation =
      let (found, m) = get_operation w.operation_map token in
      finish_found confirmation_param d e (record w { operation_map = m }) token found params input
        signature entropy confirmation
