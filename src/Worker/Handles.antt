-- ===== src/Worker/Handles.antt =====
-- keystore/keymaster_worker.cpp: which handles of the device are live, by the operations in the map
-- and by the calls of the device.
use mathlib.Core.Option.{some-injective}
use system_security.Base.{
  ℕ, ◌+◌, ◌≤◌, ◌≡◌, refl, ap, subst, inl, inr, none, some, List, [], ◌∷◌, arith, ◌==◌,
  if◌then◌else◌, Bool-cases,
}
use system_security.Base.Assoc.{find_key, put_key, erase_key}
use system_security.Operations.{Operation, emplace}
use system_security.Worker.{DeviceCall, begun, aborted, finished}

-- Whether a call begins an operation with a handle, and whether it ends one.
abbrev pub begins : ℕ → DeviceCall → ℕ
begins h (begun k) = if k == h then 1 else 0
begins h (aborted k) = 0
begins h (finished k) = 0

abbrev pub ends : ℕ → DeviceCall → ℕ
ends h (begun k) = 0
ends h (aborted k) = if k == h then 1 else 0
ends h (finished k) = if k == h then 1 else 0

-- How many calls of the device began, and ended, an operation with the handle.
unfoldable pub begun_count : ℕ → List DeviceCall → ℕ
begun_count h [] = 0
begun_count h (c ∷ cs) = begins h c + begun_count h cs

unfoldable pub ended_count : ℕ → List DeviceCall → ℕ
ended_count h [] = 0
ended_count h (c ∷ cs) = ends h c + ended_count h cs

module _ {Data : Type 0} where
  abbrev pub has_handle : ℕ → Operation Data → ℕ
  has_handle h op = if op.handle == h then 1 else 0

  -- How many operations of the map have the handle.
  unfoldable pub live_count : ℕ → List (ℕ × Operation Data) → ℕ
  live_count h [] = 0
  live_count h ((k, op) ∷ m) = has_handle h op + live_count h m

  -- How many entries of the map have the key.
  unfoldable pub keyed : ℕ → List (ℕ × Operation Data) → ℕ
  keyed k [] = 0
  keyed k ((j, op) ∷ m) = (if j == k then 1 else 0) + keyed k m

  pub keyed_missing : (k : ℕ) (m : List (ℕ × Operation Data)) → find_key k m ≡ none → keyed k m ≡ 0
  unfolding keyed find_key
  keyed_missing k [] h = refl
  keyed_missing k ((j, op) ∷ m) h = ground (arith, h, keyed_missing k m)

  live_unkeyed :
      (k h : ℕ) (m : List (ℕ × Operation Data))
      → keyed k m ≡ 0
      → live_count h (erase_key k m) ≡ live_count h m
  unfolding keyed erase_key live_count
  live_unkeyed k h [] e = refl
  live_unkeyed k h ((j, op) ∷ m) e = ground (arith, e, live_unkeyed k h m)

  -- An operation that is erased is live no more.
  pub live_count-erase_key :
      (k h : ℕ) (op : Operation Data) (m : List (ℕ × Operation Data))
      → keyed k m ≤ 1
      → find_key k m ≡ some op
      → live_count h m ≡ has_handle h op + live_count h (erase_key k m)
  unfolding keyed erase_key live_count find_key
  live_count-erase_key k h op [] u e = ground arith
  live_count-erase_key k h op ((j, o) ∷ m) u e = elim (Bool-cases (j == k)) [
    | inr n ↦ ground (arith, n, u, e, live_count-erase_key k h op m)
    | inl y ↦
        let same : o ≡ op = some-injective _ _ (ground (arith, y, e)) in
        let gone = live_unkeyed k h m (ground (arith, y, u)) in
        subst
          (λ x.
            has_handle h o + live_count h m
            ≡ has_handle h x + live_count h (erase_key k ((j, o) ∷ m)))
          same (ground (arith, y, gone))
  ]

  pub keyed-erase_key :
      (k j : ℕ) (m : List (ℕ × Operation Data)) → keyed j (erase_key k m) ≤ keyed j m
  unfolding keyed erase_key
  keyed-erase_key k j [] = omega arith
  keyed-erase_key k j ((i, op) ∷ m) = ground (arith, keyed-erase_key k j m)

  -- Setting what an operation holds besides its handle changes no count.
  pub live_count-put_key :
      (k h : ℕ) (op new : Operation Data) (m : List (ℕ × Operation Data))
      → find_key k m ≡ some op
      → new.handle ≡ op.handle
      → live_count h (put_key k new m) ≡ live_count h m
  unfolding live_count put_key find_key
  live_count-put_key k h op new [] e s = ground arith
  live_count-put_key k h op new ((j, o) ∷ m) e s = elim (Bool-cases (j == k)) [
    | inr n ↦ ground (arith, n, e, s, live_count-put_key k h op new m)
    | inl y ↦
        let found : o ≡ op = some-injective _ _ (ground (arith, y, e)) in
        let same : o.handle ≡ op.handle = ap (λ (x : Operation Data). x.handle) found in
        ground (arith, y, same, s)
  ]

  pub keyed-put_key :
      (k j : ℕ) (op new : Operation Data) (m : List (ℕ × Operation Data))
      → find_key k m ≡ some op
      → keyed j (put_key k new m) ≡ keyed j m
  unfolding keyed put_key find_key
  keyed-put_key k j op new [] e = ground arith
  keyed-put_key k j op new ((i, o) ∷ m) e = ground (arith, e, keyed-put_key k j op new m)

  -- The operation that is added under a new token.
  pub emplace_fresh :
      (k : ℕ) (op : Operation Data) (m : List (ℕ × Operation Data))
      → find_key k m ≡ none
      → emplace k op m ≡ (k, op) ∷ m
  unfolding emplace
  emplace_fresh k op m e = rw (emplace, e) refl
