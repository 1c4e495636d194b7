-- ===== src/Worker/Beginnings.antt =====
-- keystore/keymaster_worker.cpp: begin loses no operation of the device, and its loops end.
use system_security.Base.{
  ℕ, zero, suc, ◌<◌, ◌≡◌, refl, sym, ap, subst, ◌∙◌, inl, inr, Bool, true, false, ◌||◌, Option,
  none, some, List, arith, leb, ◌==◌, if◌then◌else◌, length, Bool-cases, Option-cases,
}
use system_security.Base.Assoc.{find_key, find_key-erase_key}
use system_security.Keymaster.{Authorizations, ErrorCode, HardwareAuthToken}
use system_security.Codes.{ReturnCode, error, code_is_ok}
use system_security.Blob.{Blob, get_value}
use system_security.Blob.Stored.{Ciphers}
use system_security.Blob.Entry.{EntryFiles, Sets}
use system_security.Operations.{
  Operation, OperationMap, add_operation, remove_operation, get_oldest_pruneable_operation,
  get_operation_count,
}
use system_security.Operations.Tracking.{Consistent}
use system_security.Worker.{
  Device, Details, Worker, Moment, get_auth_token, remove_operation_device, prune_oldest,
  prune_operation, make_room,
}
use system_security.Worker.Requests.{OperationResult}
use system_security.Worker.Upgrade.{
  KeyDevice, CacheSteps, CacheResult, create_key_characteristics_cache,
}
use system_security.Worker.Begin.{
  BeginRequest, Prepared, Attempt, gave_up, tried, is_op_auth_needed, note_begun, begin_round,
  wants_room, begin_loop, new_operation, with_future, begin_added, begin_attempted,
}
use system_security.Worker.Start.{
  begin_authorized, begin_identified, begin_known, begin_cached, begin,
}
use system_security.Worker.Room.{
  remove_operation_map, remove_operation_missing, abort_map, prune_operation-Ends,
}
use system_security.Worker.Ledger.{
  SoundWorker, get_operation_map, get_operation-Sound, set_details-Sound, abort-Sound,
  add_operation-Sound,
}

-- What holds of the worker on both branches of a test.
both_began :
    {Param : Type 0} (b : Bool) (x y : OperationResult Param × Worker Param × EntryFiles)
    → SoundWorker x.1
    → SoundWorker y.1
    → SoundWorker (if b then x else y).1
both_began true x y h k = h
both_began false x y h k = k

module _ {Param : Type 0} (d : Device Param) where
  -- An account in order, and a token that no operation has.
  abbrev SoundFor : ℕ → Worker Param → Type 0
  SoundFor token w = SoundWorker w × (find_key token w.operation_map.map ≡ none)

  still_unused :
      (m : OperationMap (Details Param)) (t token : ℕ)
      → find_key token m.map ≡ none
      → find_key token (remove_operation m t).1.map ≡ none
  still_unused m t token f = elim (Option-cases (find_key t m.map)) [
    | inl e ↦ rw (remove_operation_missing m t e) f
    | inr (op, e) ↦
        rw (remove_operation_map m t op e).1 (ground (arith, f, find_key-erase_key t token m.map))
  ]

  prune_oldest-SoundFor :
      (w : Worker Param) (token : ℕ) (oldest : Option ℕ)
      → SoundFor token w
      → SoundFor token (prune_oldest d w oldest)
  unfolding prune_oldest remove_operation_device
  prune_oldest-SoundFor w token none s = s
  prune_oldest-SoundFor w token (some t) s = (
    abort-Sound d w t s.0,
    ap (λ (m : OperationMap (Details Param)). find_key token m.map) (abort_map d w t)
        ∙ still_unused w.operation_map t token s.1,
  )

  prune_operation-SoundFor :
      (w : Worker Param) (token : ℕ) → SoundFor token w → SoundFor token (prune_operation d w).1
  unfolding prune_operation
  prune_operation-SoundFor w token s =
      prune_oldest-SoundFor w token (get_oldest_pruneable_operation w.operation_map) s

  make_room-SoundFor :
      (fuel : ℕ) (w : Worker Param) (token : ℕ)
      → SoundFor token w
      → SoundFor token (make_room fuel d w)
  unfolding make_room
  make_room-SoundFor zero w token s = s
  make_room-SoundFor (suc fuel) w token s =
      let pruned = prune_operation-SoundFor w token s in
      elim (Bool-cases (leb 15 (get_operation_count w.operation_map))) [
        | inr few ↦ rw (make_room, few) s
        | inl many ↦ elim (Bool-cases (prune_operation d w).0) [
          | inl again ↦
              rw (make_room, many, again)
                (make_room-SoundFor fuel (prune_operation d w).1 token pruned)
          | inr done ↦ rw (make_room, many, done) pruned
        ]
      ]

  -- What the loop leaves: the account was in order before the call that it ended with was noted.
  abbrev Looped : ℕ → Attempt Param × Worker Param × EntryFiles → Type 0
  Looped token (attempt, w, files) =
      (w' : Worker Param) × SoundFor token w' × (w ≡ note_begun attempt w')

  not_noted : (a : Attempt Param) (w : Worker Param) → wants_room a ≡ true → w ≡ note_begun a w
  not_noted (gave_up code) w h = refl
  not_noted (tried ErrorCode.ok handle out) w h = absurd cc
  not_noted (tried ErrorCode.too_many_operations handle out) w h = refl
  not_noted (tried _ handle out) w h = absurd cc

  module _ (c : Ciphers) (r : BeginRequest Param) (p : Prepared Param) where
    begin_loop-Looped :
        (fuel number : ℕ) (blob : Blob) (files : EntryFiles) (w : Worker Param) (token : ℕ)
        → SoundFor token w
        → Looped token (begin_loop fuel c d r p number blob files w)
    unfolding begin_loop
    begin_loop-Looped zero number blob files w token s = (w, s, refl)
    begin_loop-Looped (suc fuel) number blob files w token s =
        let round = begin_round c d r p number blob files in
        let pruned = prune_operation-SoundFor w token s in
        elim (Bool-cases (wants_room round.0)) [
          | inr through ↦ rw (begin_loop, through) (w, s, refl)
          | inl full ↦ elim (Bool-cases (prune_operation d w).0) [
            | inl again ↦
                rw (begin_loop, full, again)
                  (begin_loop-Looped fuel (suc (suc number)) round.1 round.2 (prune_operation d w).1
                    token pruned)
            | inr done ↦
                rw (begin_loop, full, done)
                  ((prune_operation d w).1, pruned, not_noted round.0 _ full)
          ]
        ]

    begin_added-Sound :
        (out_params : List Param) (found : Option (Operation (Details Param))) (w : Worker Param)
        → find_key r.operation_token w.operation_map.map ≡ found
        → SoundWorker w
        → SoundWorker (begin_added r p out_params found w).1
    begin_added-Sound out_params none w f s = s
    begin_added-Sound out_params (some op) w f s =
        set_details-Sound w r.operation_token op (with_future r p op) f s

    begin_attempted-Sound :
        (attempt : Attempt Param) (w : Worker Param)
        → SoundFor r.operation_token w
        → SoundWorker (begin_attempted r p attempt (note_begun attempt w)).1
    unfolding begin_attempted
    begin_attempted-Sound (gave_up code) w s = s.0
    begin_attempted-Sound (tried ErrorCode.ok handle out_params) w s =
        let op = new_operation r p handle in
        let added =
          add_operation-Sound w.operation_map r.operation_token op r.pruneable w.calls s.1 s.0 in
        let m = add_operation w.operation_map r.operation_token op r.pruneable in
        let (found, same) = get_operation_map m r.operation_token in
        begin_added-Sound out_params _ _ (ap (find_key r.operation_token) same ∙ sym found)
          (get_operation-Sound m r.operation_token _ added)
    begin_attempted-Sound (tried _ handle out_params) w s = s.0

    -- More fuel than there are operations changes nothing in the loop around the device's begin:
    -- it ends by itself, since each round but the last one removes an operation.
    pub begin_loop-enough :
        (fuel number : ℕ) (blob : Blob) (files : EntryFiles) (w : Worker Param)
        → Consistent w.operation_map
        → get_operation_count w.operation_map < fuel
        → begin_loop (suc fuel) c d r p number blob files w
          ≡ begin_loop fuel c d r p number blob files w
    unfolding begin_loop
    begin_loop-enough zero number blob files w ok h = absurd (omega arith)
    begin_loop-enough (suc fuel) number blob files w ok h =
        let round = begin_round c d r p number blob files in
        elim (Bool-cases (wants_room round.0)) [
          | inr through ↦ rw (begin_loop, through) refl
          | inl full ↦ elim (prune_operation-Ends d w ok) [
            | inl (none_left, done, same) ↦ rw (begin_loop, full, done) refl
            | inr (again, ok', lt) ↦
                rw (begin_loop, full, again)
                  (begin_loop-enough fuel (suc (suc number)) round.1 round.2 (prune_operation d w).1
                    ok' (omega (arith, lt, h)))
          ]
        ]

    begin_authorized-Sound :
        (blob : Blob) (files : EntryFiles) (w : Worker Param)
        → SoundFor r.operation_token w
        → SoundWorker (begin_authorized c d r p blob files w).1
    unfolding begin_authorized
    begin_authorized-Sound blob files w s =
        let roomy = make_room (get_operation_count w.operation_map) d w in
        let looped =
          begin_loop (suc (get_operation_count roomy.operation_map)) c d r p 0 blob files roomy in
        let (w', s', noted) =
          begin_loop-Looped (suc (get_operation_count roomy.operation_map)) 0 blob files roomy
            r.operation_token
            (make_room-SoundFor (get_operation_count w.operation_map) w r.operation_token s) in
        subst (λ (x : Worker Param). SoundWorker (begin_attempted r p looped.0 x).1) (sym noted)
          (begin_attempted-Sound looped.0 w' s')

  module _ (km : Authorizations Param) (c : Ciphers) (e : Moment) (r : BeginRequest Param) where
    abbrev SoundBegan : OperationResult Param × Worker Param × EntryFiles → Type 0
    SoundBegan (result, w, files) = SoundWorker w

    begin_identified-Sound :
        (cache : CacheResult Param) (blob : Blob) (auth_code : ReturnCode)
        (auth_token : HardwareAuthToken) (keyid : Option ℕ) (w : Worker Param)
        → SoundFor r.operation_token w
        → SoundBegan (begin_identified km c d e r cache blob auth_code auth_token keyid w)
    begin_identified-Sound cache blob auth_code auth_token none w s = s.0
    begin_identified-Sound cache blob auth_code auth_token (some keyid) w s =
        both_began _ _ _ (begin_authorized-Sound c r _ blob cache.files _ s) s.0

    begin_known-Sound :
        (cache : CacheResult Param) (blob : Blob) (w : Worker Param)
        → SoundFor r.operation_token w
        → SoundBegan (begin_known km c d e r cache blob w)
    unfolding begin_known
    begin_known-Sound cache blob w s =
        let found =
          get_auth_token km w.auth_token_table cache.hardware_enforced cache.software_enforced 0
            r.purpose false e.now in
        let w' : Worker Param = record w { auth_token_table = found.2 } in
        let fed = if length r.entropy == 0 then ErrorCode.ok else d.add_rng_entropy r.entropy in
        elim (Bool-cases (code_is_ok found.0 || is_op_auth_needed found.0)) [
          | inr refused ↦ rw (begin_known, refused) s.0
          | inl allowed ↦ elim (Bool-cases (code_is_ok (error fed))) [
            | inr unfed ↦ rw (begin_known, allowed, unfed) s.0
            | inl ok ↦
                rw (begin_known, allowed, ok)
                  (begin_identified-Sound cache blob found.0 found.1
                    (r.create_key_id (get_value blob)) w' s)
          ]
        ]

    begin_cached-Sound :
        (cache : CacheResult Param) (key_blob : Option Blob) (w : Worker Param)
        → SoundFor r.operation_token w
        → SoundBegan (begin_cached km c d e r cache key_blob w)
    begin_cached-Sound cache none w s = s.0
    begin_cached-Sound cache (some blob) w s =
        both_began _ _ _ (begin_known-Sound cache blob w s) s.0

    -- begin keeps the account in order on every branch, if the token of the new operation is one
    -- that no operation has.
    pub begin-Sound :
        (sets : Sets Param) (s : CacheSteps) (kd : KeyDevice Param)
        (key_blob char_blob : Option Blob) (files : EntryFiles) (w : Worker Param)
        → find_key r.operation_token w.operation_map.map ≡ none
        → SoundWorker w
        → SoundWorker (begin sets km c s kd d e r key_blob char_blob files w).1
    unfolding begin
    begin-Sound sets s kd key_blob char_blob files w unused sound =
        begin_cached-Sound (create_key_characteristics_cache sets c s kd key_blob char_blob files) _
          w (sound, unused)
