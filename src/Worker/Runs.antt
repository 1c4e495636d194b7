-- ===== src/Worker/Runs.antt =====
-- keystore/keymaster_worker.cpp: no request loses an operation of the device.
use system_security.Base.{
  ℕ, ◌≡◌, refl, sym, ap, ◌∙◌, inl, inr, Bool, true, false, Option, none, some, List, [], ◌∷◌, ◌++◌,
  ◌==◌, if◌then◌else◌, length, Bool-cases,
}
use system_security.Base.Assoc.{find_key}
use system_security.Keymaster.{Authorizations, Tag}
use system_security.AuthTokens.{AuthTokenTable}
use system_security.Codes.{code_is_ok}
use system_security.Operations.{Operation}
use system_security.Worker.{
  Answer, no_answer, answer, Device, Details, aborted, finished, Worker, Moment,
  get_operation_auth_token_if_needed,
}
use system_security.Worker.Requests.{
  OperationResult, set_details, finalize, update_result, update_answered, finish_answered,
  update_authorized, update_found, update, check_allowed_operation_params, finish_authorized,
  finish_checked, finish_confirmed, finish_found, finish,
}
use system_security.Worker.Ledger.{
  SoundWorker, get_operation_map, get_operation-Sound, finalize-Sound, set_details-Sound,
  find_key-set_details,
}

-- A test, and what holds on both of its branches.
both : {A : Type 0} (P : A → Type 0) (b : Bool) (x y : A) → P x → P y → P (if b then x else y)
both P true x y h k = h
both P false x y h k = k

module _ {Param : Type 0} (d : Device Param) (e : Moment) (km : Authorizations Param) where
  abbrev SoundResult : OperationResult Param × Worker Param → Type 0
  SoundResult (result, w) = SoundWorker w

  abort_after-Sound :
      (w : Worker Param) (token : ℕ) (op : Operation (Details Param))
      → SoundWorker w
      → find_key token w.operation_map.map ≡ some op
      → SoundWorker (finalize w token op (aborted op.handle))
  abort_after-Sound w token op s f =
      finalize-Sound w token op (aborted op.handle) f (λ h. (refl, refl)) s

  update_answered-Sound :
      (w : Worker Param) (token : ℕ) (op : Operation (Details Param))
      (out : Answer (ℕ × List Param × List ℕ))
      → SoundWorker w
      → find_key token w.operation_map.map ≡ some op
      → SoundWorker (update_answered w token op out).1
  unfolding update_answered
  update_answered-Sound w token op out s f =
      both SoundWorker (code_is_ok (update_result out).result_code) _ _ s
        (abort_after-Sound w token op s f)

  update_authorized-Sound :
      (w : Worker Param) (token : ℕ) (op : Operation (Details Param)) (params : List Param)
      (input : List ℕ)
      → SoundWorker w
      → find_key token w.operation_map.map ≡ some op
      → SoundWorker (update_authorized km d e w token op params input).1
  unfolding update_authorized
  update_authorized-Sound w token op params input s f =
      both SoundResult _ _ _ (update_answered-Sound _ token op _ s f)
        (abort_after-Sound _ token op s f)

  -- The same after the lookup of the token has set the operation's details.
  abort_after_shared :
      (w : Worker Param) (token : ℕ) (op : Operation (Details Param)) (details : Details Param)
      (table : AuthTokenTable)
      → SoundWorker (set_details w token op details)
      → find_key token (set_details w token op details).operation_map.map
        ≡ some (record op { rest = details })
      → SoundWorker (
          finalize
            (record (set_details w token op details) { auth_token_table = table })
            token
            op
            (aborted op.handle))
  unfolding set_details finalize
  abort_after_shared w token op details table s f =
      finalize-Sound _ token (record op { rest = details }) (aborted op.handle) f
        (λ h. (refl, refl)) s

  update_found-Sound :
      (w : Worker Param) (token : ℕ) (found : Option (Operation (Details Param)))
      (params : List Param) (input : List ℕ)
      → SoundWorker w
      → find_key token w.operation_map.map ≡ found
      → SoundResult (update_found km d e w token found params input)
  unfolding update_found
  update_found-Sound w token none params input s f = s
  update_found-Sound w token (some op) params input s f =
      let details = (get_operation_auth_token_if_needed km w.auth_token_table op e.now).1 in
      let s' = set_details-Sound w token op details f s in
      let f' = find_key-set_details w token op details in
      both SoundResult _ _ _
        (update_authorized-Sound _ token (record op { rest = details }) params input s' f')
        (abort_after_shared w token op details _ s' f')

  finish_answered-Sound :
      (w : Worker Param) (token : ℕ) (op : Operation (Details Param))
      (out : Answer (List Param × List ℕ))
      → SoundWorker w
      → find_key token w.operation_map.map ≡ some op
      → SoundResult (finish_answered w token op out)
  unfolding finish_answered
  finish_answered-Sound w token op no_answer s f = abort_after-Sound w token op s f
  finish_answered-Sound w token op (answer code (out_params, output)) s f =
      finalize-Sound w token op (finished op.handle) f (λ h. (refl, refl)) s

  finish_authorized-Sound :
      (w : Worker Param) (token : ℕ) (op : Operation (Details Param)) (params : List Param)
      (input signature entropy : List ℕ)
      → SoundWorker w
      → find_key token w.operation_map.map ≡ some op
      → SoundResult (finish_authorized km d w token op params input signature entropy)
  unfolding finish_authorized
  finish_authorized-Sound w token op params input signature entropy s f =
      both SoundResult _ _ _ (finish_answered-Sound w token op _ s f)
        (abort_after-Sound w token op s f)

  finish_checked-Sound :
      (w : Worker Param) (token : ℕ) (op : Operation (Details Param)) (params : List Param)
      (input signature entropy : List ℕ)
      → SoundWorker w
      → find_key token w.operation_map.map ≡ some op
      → SoundResult (finish_checked km d e w token op params input signature entropy)
  unfolding finish_checked
  finish_checked-Sound w token op params input signature entropy s f =
      both SoundResult _ _ _ (finish_authorized-Sound _ token op params input signature entropy s f)
        (abort_after-Sound _ token op s f)

  finish_confirmed-Sound :
      (confirmation_param : List ℕ → Param) (w : Worker Param) (token : ℕ)
      (op : Operation (Details Param)) (params : List Param)
      (input signature entropy confirmation : List ℕ)
      → SoundWorker w
      → find_key token w.operation_map.map ≡ some op
      → SoundResult (
          finish_confirmed km confirmation_param d e w token op params input signature entropy
            confirmation)
  unfolding finish_confirmed
  finish_confirmed-Sound confirmation_param w token op params input signature entropy confirmation s
        f =
      elim (Bool-cases (
        km.contains Tag.trusted_confirmation_required
          (op.rest.hardware_enforced ++ op.rest.software_enforced))) [
            | inr none_needed ↦
                rw (finish_confirmed, none_needed)
                  (finish_checked-Sound w token op params input signature entropy s f)
            | inl needed ↦ elim (Bool-cases (length confirmation == 0)) [
              | inl missing ↦
                  rw (finish_confirmed, needed, missing) (abort_after-Sound w token op s f)
              | inr there ↦
                  rw (finish_confirmed, needed, there)
                    (finish_checked-Sound w token op
                      (params ++ confirmation_param confirmation ∷ []) input signature entropy s f)
            ]
          ]

  finish_found-Sound :
      (confirmation_param : List ℕ → Param) (w : Worker Param) (token : ℕ)
      (found : Option (Operation (Details Param))) (params : List Param)
      (input signature entropy confirmation : List ℕ)
      → SoundWorker w
      → find_key token w.operation_map.map ≡ found
      → SoundResult (
          finish_found km confirmation_param d e w token found params input signature entropy
            confirmation)
  unfolding finish_found
  finish_found-Sound confirmation_param w token none params input signature entropy confirmation s
        f =
      s
  finish_found-Sound confirmation_param w token (some op) params input signature entropy
        confirmation s f =
      let details = (get_operation_auth_token_if_needed km w.auth_token_table op e.now).1 in
      let s' = set_details-Sound w token op details f s in
      let f' = find_key-set_details w token op details in
      let code = (get_operation_auth_token_if_needed km w.auth_token_table op e.now).0 in
      elim (Bool-cases (check_allowed_operation_params km params)) [
        | inr forbidden ↦ rw (finish_found, forbidden) (abort_after-Sound w token op s f)
        | inl allowed ↦ elim (Bool-cases (code_is_ok code)) [
          | inl ok ↦
              rw (finish_found, allowed, ok)
                (finish_confirmed-Sound confirmation_param _ token (record op { rest = details })
                  params input signature entropy confirmation s' f')
          | inr refused ↦
              rw (finish_found, allowed, refused) (abort_after_shared w token op details _ s' f')
        ]
      ]

  -- update keeps the account in order, on every branch.
  pub update-Sound :
      (w : Worker Param) (token : ℕ) (params : List Param) (input : List ℕ)
      → SoundWorker w
      → SoundWorker (update km d e w token params input).1
  unfolding update
  update-Sound w token params input s =
      let (found, same) = get_operation_map w.operation_map token in
      update_found-Sound _ token _ params input
        (get_operation-Sound w.operation_map token w.calls s) (ap (find_key token) same ∙ sym found)

  -- So does finish.
  pub finish-Sound :
      (confirmation_param : List ℕ → Param) (w : Worker Param) (token : ℕ) (params : List Param)
      (input signature entropy confirmation : List ℕ)
      → SoundWorker w
      → SoundWorker
          (finish km confirmation_param d e w token params input signature entropy confirmation).1
  unfolding finish
  finish-Sound confirmation_param w token params input signature entropy confirmation s =
      let (found, same) = get_operation_map w.operation_map token in
      finish_found-Sound confirmation_param _ token _ params input signature entropy confirmation
        (get_operation-Sound w.operation_map token w.calls s) (ap (find_key token) same ∙ sym found)
