-- ===== src/Worker/Start.antt =====
-- keystore/keymaster_worker.cpp: begin from its start, the checks before the device is asked.
use system_security.Base.{
  ℕ, suc, true, false, not, ◌||◌, Option, none, some, ◌++◌, ◌==◌, if◌then◌else◌, length,
}
use system_security.Keymaster.{HardwareAuthToken, Authorizations, ErrorCode}
use system_security.Codes.{ReturnCode, error, code_is_ok}
use system_security.Enforcement.Operation.{authorize_operation}
use system_security.Blob.{Blob, get_value}
use system_security.Blob.Stored.{Ciphers}
use system_security.Blob.Entry.{EntryFiles, Sets}
use system_security.Operations.{get_operation_count}
use system_security.Worker.{Device, Worker, Moment, get_auth_token, make_room}
use system_security.Worker.Requests.{OperationResult, operation_failed}
use system_security.Worker.Upgrade.{
  KeyDevice, CacheSteps, CacheResult, create_key_characteristics_cache,
}
use system_security.Worker.Begin.{
  BeginRequest, Prepared, is_op_auth_needed, begin_loop, begin_attempted,
}

-- The answer, the worker and the files of the entry.
abbrev pub Began : Type 0 → Type 0
Began Param = OperationResult Param × Worker Param × EntryFiles

module _ {Param : Type 0} where
  -- What follows the checks: room is made, the device asked and the operation added.
  unfoldable pub begin_authorized :
      Ciphers
      → Device Param
      → BeginRequest Param
      → Prepared Param
      → Blob
      → EntryFiles
      → Worker Param
      → Began Param
  begin_authorized c d r p blob files w =
      let roomy = make_room (get_operation_count w.operation_map) d w in
      let looped =
        begin_loop (suc (get_operation_count roomy.operation_map)) c d r p 0 blob files roomy in
      let ended = begin_attempted r p looped.0 looped.1 in (ended.0, ended.1, looped.2)

  -- The check of the policy, for a key that has an id.
  abbrev pub begin_identified :
      Authorizations Param
      → Ciphers
      → Device Param
      → Moment
      → BeginRequest Param
      → CacheResult Param
      → Blob
      → ReturnCode
      → HardwareAuthToken
      → Option ℕ
      → Worker Param
      → Began Param
  begin_identified km c d e r cache blob auth_code auth_token none w =
      (operation_failed (error ErrorCode.unknown_error), w, cache.files)
  begin_identified km c d e r cache blob auth_code auth_token (some keyid) w =
      let (code, policy) =
        authorize_operation km w.enforcement
          (record {
            context = e.context;
            purpose = r.purpose;
            keyid = keyid;
            auth_set = cache.hardware_enforced ++ cache.software_enforced;
            operation_params = r.op_params;
            auth_token = none;
          })
          auth_token 0 true in
      let w' = record w { enforcement = policy } in
      let p : Prepared Param = record {
        keyid = keyid;
        hardware_enforced = cache.hardware_enforced;
        software_enforced = cache.software_enforced;
        auth_code = auth_code;
        auth_token = auth_token;
      } in
      if code_is_ok (error code)
      then begin_authorized c d r p blob cache.files w'
      else (operation_failed (error code), w', cache.files)

  -- The lookup of a token and the entropy, for a key whose characteristics are known.
  unfoldable pub begin_known :
      Authorizations Param
      → Ciphers
      → Device Param
      → Moment
      → BeginRequest Param
      → CacheResult Param
      → Blob
      → Worker Param
      → Began Param
  begin_known km c d e r cache blob w =
      let (auth_code, auth_token, table) =
        get_auth_token km w.auth_token_table cache.hardware_enforced cache.software_enforced 0
          r.purpose false e.now in
      let w' = record w { auth_token_table = table } in
      let fed = if length r.entropy == 0 then ErrorCode.ok else d.add_rng_entropy r.entropy in
      if not (code_is_ok auth_code || is_op_auth_needed auth_code)
      then (operation_failed auth_code, w', cache.files)
      else if code_is_ok (error fed)
      then begin_identified km c d e r cache blob auth_code auth_token
          (r.create_key_id (get_value blob)) w'
      else (operation_failed (error fed), w', cache.files)

  -- A cache without an error has the key blob.
  abbrev pub begin_cached :
      Authorizations Param
      → Ciphers
      → Device Param
      → Moment
      → BeginRequest Param
      → CacheResult Param
      → Option Blob
      → Worker Param
      → Began Param
  begin_cached km c d e r cache none w = (operation_failed cache.code, w, cache.files)
  begin_cached km c d e r cache (some blob) w =
      if code_is_ok cache.code
      then begin_known km c d e r cache blob w
      else (operation_failed cache.code, w, cache.files)

  -- begin
  unfoldable pub begin :
      Sets Param
      → Authorizations Param
      → Ciphers
      → CacheSteps
      → KeyDevice Param
      → Device Param
      → Moment
      → BeginRequest Param
      → Option Blob
      → Option Blob
      → EntryFiles
      → Worker Param
      → Began Param
  begin sets km c s kd d e r key_blob char_blob files w =
      let cache = create_key_characteristics_cache sets c s kd key_blob char_blob files in
      begin_cached km c d e r cache cache.key_blob w
