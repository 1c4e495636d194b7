-- ===== src/Enforcement/Maps/Laws.antt =====
-- The access maps as maps: what a lookup returns after an update, and their bounds.
use system_security.Base.{
  ℕ, ◌+◌, ◌-◌, ◌%◌, ◌^◌, ◌≤◌, ◌≡◌, ◌≢◌, refl, Bool, true, false, ◌⊎◌, inl, inr, Option, none, some,
  List, [], ◌∷◌, arith, ltb, leb, ◌==◌, if◌then◌else◌, length, Bool-cases,
}
use system_security.Enforcement.Maps.{
  AccessTime, AccessTimeMap, find_access, last_key_access_time, touch, after_touch,
  update_key_access_time, AccessCount, AccessCountMap, find_count, key_access_count, raise_count,
  increment_key_access_count,
}

-- The count that a success leaves for the key.
abbrev pub next_count : Option ℕ → ℕ
next_count none = 1
next_count (some n) = if ltb n (2 ^ 64 - 1) then n + 1 else n

raise_count-find :
    (keyid : ℕ) (list : List AccessCount)
    → ((raise_count keyid list ≡ none) × (find_count keyid list ≡ none))
      ⊎ ((bs : List AccessCount) × (raise_count keyid list ≡ some bs)
          × (length bs ≡ length list)
          × (find_count keyid bs ≡ some (next_count (find_count keyid list)))
          × ((j : ℕ) → j ≢ keyid → find_count j bs ≡ find_count j list))
unfolding raise_count find_count
raise_count-find keyid [] = inl (refl, refl)
raise_count-find keyid (a ∷ list) = elim (Bool-cases (a.keyid == keyid)) [
  | inl b ↦ inr (
    record a {
      access_count = if ltb a.access_count (2 ^ 64 - 1) then a.access_count + 1 else a.access_count;
    }
        ∷ list,
    ground arith,
    ground arith,
    ground arith,
    λ j ne. ground arith,
  )
  | inr b ↦ elim (raise_count-find keyid list) [
    | inl (e, f) ↦ inl (ground arith, ground arith)
    | inr (bs, e, l, f, g) ↦
        inr (a ∷ bs, ground arith, ground arith, ground arith, λ j ne. ground (arith, g j ne))
  ]
]

-- An increment that succeeds raises the key's count by one, from nothing to 1 and no further than
-- UINT64_MAX, which KeyAccessCount reads modulo 2^32, leaves the counts of the other keys, and keeps the list within its bound; one that
-- fails changes nothing, and happens only for a new key in a full list.
pub record Incremented (m : AccessCountMap) (keyid : ℕ) (r : Bool × AccessCountMap) : Type 0 where
  pub counted :
      r.0 ≡ true
      → find_count keyid r.1.access_count_list
        ≡ some (next_count (find_count keyid m.access_count_list))
  pub read :
      r.0 ≡ true
      → key_access_count r.1 keyid
        ≡ some (next_count (find_count keyid m.access_count_list) % 2 ^ 32)
  pub others :
      (j : ℕ)
      → j ≢ keyid
      → (find_count j r.1.access_count_list ≡ find_count j m.access_count_list)
        × (key_access_count r.1 j ≡ key_access_count m j)
  pub refused :
      r.0 ≡ false
      → (r.1 ≡ m) × (key_access_count m keyid ≡ none) × (m.max_size ≤ length m.access_count_list)
  pub bounded :
      length m.access_count_list ≤ m.max_size → length r.1.access_count_list ≤ r.1.max_size

-- Counting a key that succeeds raises its count by one, up to the largest number of 64 bits, of which
-- KeyAccessCount reads the low 32; the other counts stay; it fails only for a key without a count when the list is full, and changes nothing
-- then; and the list keeps within its bound.
pub increment_key_access_count-Incremented :
    (m : AccessCountMap) (keyid : ℕ) → Incremented m keyid (increment_key_access_count m keyid)
unfolding increment_key_access_count key_access_count find_count
increment_key_access_count-Incremented m keyid = elim (raise_count-find keyid m.access_count_list) [
  | inl (e, f) ↦ record {
    counted = λ h. ground arith;
    read = λ h. ground arith;
    others = λ j ne. ground arith;
    refused = λ h. ground arith;
    bounded = λ h. ground arith;
  }
  | inr (bs, e, l, f, g) ↦ record {
    counted = λ h. ground arith;
    read = λ h. ground arith;
    others = λ j ne. ground (arith, g j ne);
    refused = λ h. ground arith;
    bounded = λ h. ground arith;
  }
]

touch-find :
    (keyid now : ℕ) (list : List AccessTime)
    → (((touch keyid now list).0 ≡ true)
        × (find_access keyid (touch keyid now list).1 ≡ some now)
        × (length (touch keyid now list).1 ≤ length list))
      ⊎ (((touch keyid now list).0 ≡ false)
          × (find_access keyid list ≡ none)
          × (length (touch keyid now list).1 ≤ length list))
unfolding touch find_access
touch-find keyid now [] = inr (refl, refl, omega arith)
touch-find keyid now (a ∷ list) = ground (arith, touch-find keyid now list)

-- What holds of an update, by its result.
abbrev pub Updated : AccessTimeMap → ℕ → ℕ → Bool × AccessTimeMap → Type 0
Updated m keyid now r =
    (r.0 ≡ true → last_key_access_time r.1 keyid ≡ some now)
    × (r.0 ≡ false → last_key_access_time m keyid ≡ none)
    × (length m.last_access_list ≤ m.max_size → length r.1.last_access_list ≤ r.1.max_size)

after_touch-Updated :
    (m : AccessTimeMap) (keyid now timeout : ℕ) (r : Bool × List AccessTime)
    → ((r.0 ≡ true) × (find_access keyid r.1 ≡ some now) × (length r.1 ≤ length m.last_access_list))
      ⊎ ((r.0 ≡ false)
          × (find_access keyid m.last_access_list ≡ none)
          × (length r.1 ≤ length m.last_access_list))
    → Updated m keyid now (after_touch m keyid now timeout r)
unfolding last_key_access_time
after_touch-Updated m keyid now timeout (true, l) (inl h) =
    ((λ e. h.1), (λ e. cc), (λ b. omega (arith, h.2)))
after_touch-Updated m keyid now timeout (true, l) (inr h) = cc
after_touch-Updated m keyid now timeout (false, l) (inl h) = cc
after_touch-Updated m keyid now timeout (false, l) (inr h) =
    elim (Bool-cases (leb m.max_size (length l))) [
      | inl b ↦ rw b ((λ e. cc), (λ e. h.1), (λ b. omega (arith, h.2)))
      | inr b ↦ rw b ((λ e. ground arith), (λ e. cc), (λ c. ground arith))
    ]

-- An update that succeeds makes the lookup return the time given; one that fails happens only for a
-- key that is not in the map; and either way the list keeps within its bound.
pub update_key_access_time-Updated :
    (m : AccessTimeMap) (keyid now timeout : ℕ)
    → Updated m keyid now (update_key_access_time m keyid now timeout)
unfolding update_key_access_time
update_key_access_time-Updated m keyid now timeout =
    after_touch-Updated m keyid now timeout _ (touch-find keyid now m.last_access_list)
