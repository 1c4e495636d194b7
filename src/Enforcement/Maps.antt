-- ===== src/Enforcement/Maps.antt =====
-- keystore/keymaster_enforcement.h and keymaster_enforcement.cpp: AccessTimeMap and AccessCountMap,
-- the bounded lists of when and how often a key was used. Key ids, times and counts are words of 64,
-- 32 and 64 bits.
pub mod Laws
use system_security.Base.{
  ℕ, ◌+◌, ◌-◌, ◌%◌, ◌^◌, Bool, true, false, Option, none, some, List, [], ◌∷◌, ltb, leb, ◌==◌,
  if◌then◌else◌, length,
}

pub record AccessTime : Type 0 where
  pub keyid : ℕ
  pub access_time : ℕ
  pub timeout : ℕ

pub record AccessTimeMap : Type 0 where
  pub last_access_list : List AccessTime
  pub max_size : ℕ

find_access : ℕ → List AccessTime → Option ℕ
find_access keyid [] = none
find_access keyid (a ∷ list) =
    if a.keyid == keyid then some a.access_time else find_access keyid list

-- LastKeyAccessTime; `none` is the result false.
unfoldable pub last_key_access_time : AccessTimeMap → ℕ → Option ℕ
unfolding find_access
last_key_access_time m keyid = find_access keyid m.last_access_list

-- `current_time - iter->access_time >= iter->timeout` in 32 bits
expired_at : AccessTime → ℕ → Bool
expired_at a current_time = leb a.timeout ((current_time + 2 ^ 32 - a.access_time) % 2 ^ 32)

-- The loop of UpdateKeyAccessTime: whether it met the key, and the list that it leaves.
touch : ℕ → ℕ → List AccessTime → Bool × List AccessTime
unfolding expired_at
touch keyid now [] = (false, [])
touch keyid now (a ∷ list) =
    let (found, rest) = touch keyid now list in
    if a.keyid == keyid
    then (true, record a { access_time = now } ∷ list)
    else if expired_at a now
    then (found, rest)
    else (found, a ∷ rest)

abbrev add_access : AccessTimeMap → ℕ → ℕ → ℕ → Bool × AccessTimeMap
add_access m keyid now timeout =
    if leb m.max_size (length m.last_access_list) then (false, m) else (
      true,
      record m {
        last_access_list =
            record { keyid = keyid; access_time = now; timeout = timeout } ∷ m.last_access_list;
      },
    )

abbrev after_touch : AccessTimeMap → ℕ → ℕ → ℕ → Bool × List AccessTime → Bool × AccessTimeMap
after_touch m keyid now timeout (true, list) = (true, record m { last_access_list = list })
after_touch m keyid now timeout (false, list) =
    add_access (record m { last_access_list = list }) keyid now timeout

-- UpdateKeyAccessTime
unfoldable pub update_key_access_time : AccessTimeMap → ℕ → ℕ → ℕ → Bool × AccessTimeMap
unfolding touch
update_key_access_time m keyid current_time timeout =
    after_touch m keyid current_time timeout (touch keyid current_time m.last_access_list)

pub record AccessCount : Type 0 where
  pub keyid : ℕ
  pub access_count : ℕ

pub record AccessCountMap : Type 0 where
  pub access_count_list : List AccessCount
  pub max_size : ℕ

-- The count of 64 bits that is kept for a key.
unfoldable pub find_count : ℕ → List AccessCount → Option ℕ
find_count keyid [] = none
find_count keyid (a ∷ list) =
    if a.keyid == keyid then some a.access_count else find_count keyid list

-- `*count = entry.access_count`, where `count` points to a word of 32 bits.
abbrev pub cut_count : Option ℕ → Option ℕ
cut_count none = none
cut_count (some n) = some (n % 2 ^ 32)

-- KeyAccessCount; `none` is the result false.
unfoldable pub key_access_count : AccessCountMap → ℕ → Option ℕ
unfolding find_count
key_access_count m keyid = cut_count (find_count keyid m.access_count_list)

-- The loop of IncrementKeyAccessCount: the list with the key's count raised, if the key is there.
-- The count stops at UINT64_MAX.
raise_count : ℕ → List AccessCount → Option (List AccessCount)
raise_count keyid [] = none
raise_count keyid (a ∷ list) =
    if a.keyid == keyid
    then some (
        record a {
          access_count =
              if ltb a.access_count (2 ^ 64 - 1) then a.access_count + 1 else a.access_count;
        }
        ∷ list)
    else elim (raise_count keyid list) [ none ↦ none | some rest ↦ some (a ∷ rest) ]

-- IncrementKeyAccessCount
unfoldable pub increment_key_access_count : AccessCountMap → ℕ → Bool × AccessCountMap
unfolding raise_count
increment_key_access_count m keyid = elim (raise_count keyid m.access_count_list) [
  | some counts ↦ (true, record m { access_count_list = counts })
  | none ↦ if leb m.max_size (length m.access_count_list) then (false, m) else (
    true,
    record m {
      access_count_list = record { keyid = keyid; access_count = 1 } ∷ m.access_count_list;
    },
  )
]
