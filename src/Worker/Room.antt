-- ===== src/Worker/Room.antt =====
-- keystore/keymaster_worker.cpp: pruning ends, and makes room while there is something to prune.
use mathlib.Core.Option.{some-injective}
use system_security.Base.{
  ℕ, zero, suc, ◌≤◌, ◌<◌, ◌≡◌, refl, sym, ap, subst, ◌⊎◌, inl, inr, Bool, true, false, Option, none,
  some, List, [], ◌∷◌, arith, leb, length, Bool-cases, Option-cases,
}
use system_security.Base.Assoc.{find_key, erase_key, count, erase_one}
use system_security.Operations.{
  Operation, OperationMap, retrack, remove_operation_tracking, remove_operation,
  get_oldest_pruneable_operation, get_operation_count,
}
use system_security.Operations.Tracking.{Consistent, remove_operation-Consistent}
use system_security.Worker.{
  Device, Details, Worker, end_operation, abort_removed, abort, remove_operation_device,
  prune_oldest, prune_operation, make_room,
}

length-erase_key_le : {A : Type 0} (k : ℕ) (m : List (ℕ × A)) → length (erase_key k m) ≤ length m
unfolding erase_key
length-erase_key_le k [] = omega arith
length-erase_key_le k ((j, a) ∷ m) = ground (arith, length-erase_key_le k m)

-- Erasing a key that is there makes the map shorter.
length-erase_key_lt :
    {A : Type 0} (k : ℕ) (a : A) (m : List (ℕ × A))
    → find_key k m ≡ some a
    → length (erase_key k m) < length m
unfolding erase_key find_key
length-erase_key_lt k a [] h = ground arith
length-erase_key_lt k a ((j, b) ∷ m) h =
    ground (arith, h, length-erase_key_lt k a m, length-erase_key_le k m)

first_of :
    (ts : List ℕ) (t : ℕ)
    → elim ts as (λ x. Option ℕ) [ [] ↦ none | y ∷ ys ↦ some y ] ≡ some t
    → (rest : List ℕ) × (ts ≡ t ∷ rest)
first_of [] t h = absurd (cc)
first_of (y ∷ ys) t h = (ys, ap (λ x. x ∷ ys) (some-injective _ _ h))

module _ {Param : Type 0} where
  retrack_map :
      (m : OperationMap (Details Param)) (app : ℕ) (ts : List ℕ) → (retrack m app ts).map ≡ m.map
  unfolding retrack
  retrack_map m app [] = refl
  retrack_map m app (t ∷ ts) = refl

  tracking_map :
      (m : OperationMap (Details Param)) (token app : ℕ)
      → (remove_operation_tracking m token app).map ≡ m.map
  unfolding remove_operation_tracking
  tracking_map m token app = elim (Option-cases (find_key app m.app_token_map)) [
    | inl e ↦ rw (remove_operation_tracking, e) refl
    | inr (ts, e) ↦ rw (remove_operation_tracking, e) (retrack_map m app (erase_one token ts))
  ]

  -- What is left of the map when an operation is removed that is there.
  pub remove_operation_map :
      (m : OperationMap (Details Param)) (token : ℕ) (op : Operation (Details Param))
      → find_key token m.map ≡ some op
      → ((remove_operation m token).0 ≡ some op)
        × ((remove_operation m token).1.map ≡ erase_key token m.map)
  unfolding remove_operation
  remove_operation_map m token op e =
      rw (remove_operation, e) (refl, tracking_map _ token op.app_token)

  pub remove_operation_missing :
      (m : OperationMap (Details Param)) (token : ℕ)
      → find_key token m.map ≡ none
      → remove_operation m token ≡ (none, m)
  unfolding remove_operation
  remove_operation_missing m token e = rw (remove_operation, e) refl

  -- The oldest pruneable operation is in the map.
  oldest_found :
      (m : OperationMap (Details Param)) (t : ℕ) (ts : List ℕ)
      → Consistent m
      → m.lru ≡ t ∷ ts
      → (op : Operation (Details Param)) × (find_key t m.map ≡ some op)
  unfolding count
  oldest_found m t ts c h = elim (Option-cases (find_key t m.map)) [
    | inr found ↦ found
    | inl e ↦ absurd (ground (arith, e, c.pruneable t, ap (count t) h))
  ]

  -- What one call of pruneOperation does to consistent containers: nothing if no operation is
  -- pruneable, and else it removes one.
  abbrev PruneEnds : Device Param → Worker Param → Bool × Worker Param → Type 0
  PruneEnds d w (pruned, w') =
      ((get_oldest_pruneable_operation w.operation_map ≡ none) × (pruned ≡ false) × (w' ≡ w))
      ⊎ ((pruned ≡ true)
          × Consistent w'.operation_map
          × (get_operation_count w'.operation_map < get_operation_count w.operation_map))

  abort_removed_map :
      (d : Device Param) (w : Worker Param)
      (removed : Option (Operation (Details Param)) × OperationMap (Details Param))
      → (abort_removed d w removed).1.operation_map ≡ removed.1
  unfolding end_operation
  abort_removed_map d w (none, m) = refl
  abort_removed_map d w (some op, m) = refl

  -- The operation map after an abort, and after a pruning.
  pub abort_map :
      (d : Device Param) (w : Worker Param) (token : ℕ)
      → (abort d w token).1.operation_map ≡ (remove_operation w.operation_map token).1
  unfolding abort
  abort_map d w token = abort_removed_map d w (remove_operation w.operation_map token)

  prune_oldest_map :
      (d : Device Param) (w : Worker Param) (t : ℕ)
      → (prune_oldest d w (some t)).operation_map ≡ (remove_operation w.operation_map t).1
  unfolding prune_oldest remove_operation_device
  prune_oldest_map d w t = abort_map d w t

  get_oldest_some :
      (m : OperationMap (Details Param)) (t : ℕ)
      → get_oldest_pruneable_operation m ≡ some t
      → (ts : List ℕ) × (m.lru ≡ t ∷ ts)
  unfolding get_oldest_pruneable_operation
  get_oldest_some m t h = first_of m.lru t h

  pub prune_operation-Ends :
      (d : Device Param) (w : Worker Param)
      → Consistent w.operation_map
      → PruneEnds d w (prune_operation d w)
  unfolding prune_operation prune_oldest get_operation_count
  prune_operation-Ends d w c =
      elim (Option-cases (get_oldest_pruneable_operation w.operation_map)) [
        | inl e ↦ inl (e, rw e (ground arith), rw e refl)
        | inr (t, e) ↦
            let (ts, l) = get_oldest_some w.operation_map t e in
            let (op, found) = oldest_found w.operation_map t ts c l in
            let left = (remove_operation_map w.operation_map t op found).1 in
            let shorter = length-erase_key_lt t op w.operation_map.map found in
            let map = prune_oldest_map d w t in
            inr (
              rw (e, map, left) (ground (arith, shorter)),
              rw (e, map) (remove_operation-Consistent w.operation_map t c),
              rw (e, map, left) shorter,
            )
      ]

  -- When the loop that makes room is through: there is room, or nothing is pruneable.
  abbrev pub RoomMade : Worker Param → Worker Param → Type 0
  RoomMade w w' =
      Consistent w'.operation_map
      × (get_operation_count w'.operation_map ≤ get_operation_count w.operation_map)
      × ((get_operation_count w'.operation_map < 15)
          ⊎ (get_oldest_pruneable_operation w'.operation_map ≡ none))

  -- With as much fuel as there are operations, the loop of begin that prunes operations ends by
  -- itself: either less than 15 operations are left, or none of them is pruneable. The containers
  -- stay consistent.
  pub make_room-RoomMade :
      (fuel : ℕ) (d : Device Param) (w : Worker Param)
      → Consistent w.operation_map
      → get_operation_count w.operation_map ≤ fuel
      → RoomMade w (make_room fuel d w)
  unfolding make_room
  make_room-RoomMade zero d w c h = (c, omega arith, inl (omega arith))
  make_room-RoomMade (suc fuel) d w c h =
      elim (Bool-cases (leb 15 (get_operation_count w.operation_map))) [
        | inr few ↦ rw (make_room, few) (c, omega arith, inl (ground (arith, few)))
        | inl many ↦ elim (prune_operation-Ends d w c) [
          | inl (e, p, q) ↦
              rw (make_room, many, p) (subst (RoomMade w) (sym q) (c, omega arith, inr e))
          | inr (p, c', lt) ↦
              let (c'', le, ends) =
                make_room-RoomMade fuel d (prune_operation d w).1 c' (omega (arith, lt, h)) in
              rw (make_room, many, p) (c'', omega (arith, le, lt), ends)
        ]
      ]
