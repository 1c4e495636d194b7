-- ===== src/Worker/Ledger.antt =====
-- keystore/keymaster_worker.cpp: the account of the device's operations, and what the worker's parts
-- do to it.
use system_security.Base.{
  ℕ, ◌+◌, ◌≤◌, ◌≡◌, refl, sym, subst, ◌∙◌, inl, inr, Bool, Option, none, some, List, [], ◌∷◌, arith,
  ◌==◌, Bool-cases, Option-cases,
}
use system_security.Base.Assoc.{find_key, put_key, find_key-put_key}
use system_security.Operations.{
  Operation, OperationMap, add_operation, update_lru, get_operation, remove_operation,
  get_operations_for_token,
}
use system_security.Operations.Tracking.{
  Consistent, tracked_as, present, get_operation-Consistent, remove_operation-Consistent,
  add_operation-Consistent,
}
use system_security.Worker.{
  Device, Details, DeviceCall, begun, aborted, Worker, end_operation, abort_removed, abort,
  remove_operation_device, abort_all,
}
use system_security.Worker.Requests.{set_details, finalize}
use system_security.Worker.Handles.{
  begun_count, ended_count, live_count, has_handle, keyed, keyed_missing, live_count-erase_key,
  keyed-erase_key, live_count-put_key, keyed-put_key, emplace_fresh, begins, ends,
}
use system_security.Worker.Room.{remove_operation_map, remove_operation_missing}

module _ {Param : Type 0} where
  -- An account that is in order: the containers are consistent, a token stands for one operation,
  -- and of each handle as many operations were begun as were ended or are in the map.
  pub record Sound (m : OperationMap (Details Param)) (calls : List DeviceCall) : Type 0 where
    pub consistent : Consistent m
    pub unique : (token : ℕ) → keyed token m.map ≤ 1
    pub balanced : (h : ℕ) → begun_count h calls ≡ ended_count h calls + live_count h m.map

  abbrev pub SoundWorker : Worker Param → Type 0
  SoundWorker w = Sound w.operation_map w.calls

  update_lru_map : (m : OperationMap (Details Param)) (token : ℕ) → (update_lru m token).map ≡ m.map
  unfolding update_lru
  update_lru_map m token = ground arith

  pub get_operation_map :
      (m : OperationMap (Details Param)) (token : ℕ)
      → ((get_operation m token).0 ≡ find_key token m.map) × ((get_operation m token).1.map ≡ m.map)
  unfolding get_operation
  get_operation_map m token = elim (Option-cases (find_key token m.map)) [
    | inl e ↦ rw (get_operation, e) (refl, refl)
    | inr (op, e) ↦ rw (get_operation, e) (refl, update_lru_map m token)
  ]

  -- Looking an operation up changes nothing in the account.
  pub get_operation-Sound :
      (m : OperationMap (Details Param)) (token : ℕ) (calls : List DeviceCall)
      → Sound m calls
      → Sound (get_operation m token).1 calls
  get_operation-Sound m token calls s =
      let e = (get_operation_map m token).1 in
      record {
        consistent = get_operation-Consistent m token s.consistent;
        unique = λ t. rw e (s.unique t);
        balanced = λ h. rw e (s.balanced h);
      }

  -- Removing an operation and ending it at the device.
  pub remove_operation-Sound :
      (m : OperationMap (Details Param)) (token : ℕ) (op : Operation (Details Param))
      (call : DeviceCall) (calls : List DeviceCall)
      → find_key token m.map ≡ some op
      → ((h : ℕ) → (begins h call ≡ 0) × (ends h call ≡ has_handle h op))
      → Sound m calls
      → Sound (remove_operation m token).1 (call ∷ calls)
  unfolding begun_count ended_count
  remove_operation-Sound m token op call calls f k s =
      let e = (remove_operation_map m token op f).1 in
      record {
        consistent = remove_operation-Consistent m token s.consistent;
        unique = λ t. rw e (omega (arith, keyed-erase_key token t m.map, s.unique t));
        balanced = λ h.
            let (none_begun, one_ended) = k h in
            rw e (
              omega (
                arith,
                none_begun,
                one_ended,
                s.balanced h,
                live_count-erase_key token h op m.map (s.unique token) f,
              ));
      }

  abort_removed-Sound :
      (d : Device Param) (w : Worker Param) (token : ℕ)
      → (found : Option (Operation (Details Param))) → find_key token w.operation_map.map ≡ found
      → SoundWorker w
      → SoundWorker (abort_removed d w (remove_operation w.operation_map token)).1
  unfolding end_operation
  abort_removed-Sound d w token none f s = rw (remove_operation_missing w.operation_map token f) s
  abort_removed-Sound d w token (some op) f s =
      let gone = (remove_operation_map w.operation_map token op f).0 in
      let left =
        remove_operation-Sound w.operation_map token op (aborted op.handle) w.calls f
          (λ h. (refl, refl)) s in
      subst (λ o. SoundWorker (abort_removed d w (o, (remove_operation w.operation_map token).1)).1)
        (sym gone) left

  -- abort keeps the account in order, whether there is an operation for the token or not.
  pub abort-Sound :
      (d : Device Param) (w : Worker Param) (token : ℕ)
      → SoundWorker w
      → SoundWorker (abort d w token).1
  unfolding abort
  abort-Sound d w token s =
      abort_removed-Sound d w token (find_key token w.operation_map.map) refl s

  -- So does the end of a request, by an abort or when the device has finished.
  pub finalize-Sound :
      (w : Worker Param) (token : ℕ) (op : Operation (Details Param)) (call : DeviceCall)
      → find_key token w.operation_map.map ≡ some op
      → ((h : ℕ) → (begins h call ≡ 0) × (ends h call ≡ has_handle h op))
      → SoundWorker w
      → SoundWorker (finalize w token op call)
  unfolding finalize end_operation
  finalize-Sound w token op call f k s =
      remove_operation-Sound w.operation_map token op call w.calls f k s

  present_put :
      (token t : ℕ) (op new : Operation (Details Param)) (m : List (ℕ × Operation (Details Param)))
      → find_key token m ≡ some op
      → present (find_key t m) ≤ present (find_key t (put_key token new m))
  present_put token t op new m f = ground (arith, find_key-put_key token t new m)

  tracked_put :
      (token t app : ℕ) (op new : Operation (Details Param))
      (m : List (ℕ × Operation (Details Param)))
      → find_key token m ≡ some op
      → new.app_token ≡ op.app_token
      → tracked_as app (find_key t m) ≡ tracked_as app (find_key t (put_key token new m))
  tracked_put token t app op new m f same = elim (Bool-cases (token == t)) [
    | inr n ↦ ground (arith, n, find_key-put_key token t new m)
    | inl y ↦ ground (arith, y, f, same, find_key-put_key token t new m)
  ]

  -- What a request sets in an operation keeps the account in order.
  pub set_details-Sound :
      (w : Worker Param) (token : ℕ) (op : Operation (Details Param)) (details : Details Param)
      → find_key token w.operation_map.map ≡ some op
      → SoundWorker w
      → SoundWorker (set_details w token op details)
  unfolding set_details get_operations_for_token
  set_details-Sound w token op details f s =
      let new : Operation (Details Param) = record op { rest = details } in
      let m = w.operation_map.map in
      record {
        consistent = record {
          tracked = λ t app. s.consistent.tracked t app ∙ tracked_put token t app op new m f refl;
          pruneable = λ t. omega (arith, s.consistent.pruneable t, present_put token t op new m f);
          linked = s.consistent.linked;
          in_use = s.consistent.in_use;
        };
        unique = λ t. rw (keyed-put_key token t op new m f) (s.unique t);
        balanced = λ h. rw (live_count-put_key token h op new m f refl) (s.balanced h);
      }

  pub find_key-set_details :
      (w : Worker Param) (token : ℕ) (op : Operation (Details Param)) (details : Details Param)
      → find_key token (set_details w token op details).operation_map.map
        ≡ some (record op { rest = details })
  unfolding set_details
  find_key-set_details w token op details =
      ground
        (arith, find_key-put_key token token (record op { rest = details }) w.operation_map.map)

  -- Adding the operation that the device began last.
  pub add_operation-Sound :
      (m : OperationMap (Details Param)) (token : ℕ) (op : Operation (Details Param))
      (pruneable : Bool) (calls : List DeviceCall)
      → find_key token m.map ≡ none
      → Sound m calls
      → Sound (add_operation m token op pruneable) (begun op.handle ∷ calls)
  unfolding add_operation begun_count ended_count live_count keyed
  add_operation-Sound m token op pruneable calls f s =
      let e = emplace_fresh token op m.map f in
      record {
        consistent = add_operation-Consistent m token op pruneable f s.consistent;
        unique = λ t. rw e (elim (Bool-cases (token == t)) [
          | inl y ↦ ground (arith, y, f, keyed_missing t m.map)
          | inr n ↦ ground (arith, n, s.unique t)
        ]);
        balanced = λ h. rw e (omega (arith, s.balanced h));
      }

  pub abort_all-Sound :
      (d : Device Param) (tokens : List ℕ) (w : Worker Param)
      → SoundWorker w
      → SoundWorker (abort_all d tokens w)
  unfolding remove_operation_device
  abort_all-Sound d [] w s = s
  abort_all-Sound d (t ∷ ts) w s = abort_all-Sound d ts _ (abort-Sound d w t s)
