-- ===== src/UserState/Life.antt =====
-- keystore/user_state.cpp: what the reading of a master key leaves, on each answer.
use system_security.Base.{◌<◌, ◌≢◌, ◌⊎◌, length, ℕ, ◌≡◌, Option, none, some, List}
use system_security.Codes.{State, ResponseCode}
use system_security.Blob.{Blob, get_value, min_of, type_master_key}
use system_security.Blob.Stored.{raw_blob, raw_size}
use system_security.UserState.{UserState}

abbrev pub Answer : Type 0
Answer = ResponseCode × Option Blob × Option Blob

-- A file with a salt at its end: its info has 16 bytes, and there are more than 16.
abbrev pub IsSalted : List ℕ → Type 0
IsSalted file = ((raw_blob file).info ≡ 16) × (16 < min_of (length file) raw_size)

-- The size of a key, which a file of the old type gives 128 bits and others 256.
abbrev pub HasKeySize : List ℕ → ℕ → Type 0
HasKeySize file n =
    (((raw_blob file).blob_type ≡ type_master_key) × (n ≡ 16))
    ⊎ (((raw_blob file).blob_type ≢ type_master_key) × (n ≡ 32))

-- The password opened the file, and its value has the size of the key.
abbrev pub IsOpened : List ℕ → Answer → Blob → Type 0
IsOpened file a b = (a.0 ≡ ResponseCode.no_error) × (a.1 ≡ some b) × HasKeySize file b.value_length

-- What an answer of readMasterKey means, for the bytes of the file, what readBlobs answers and what the
-- random generator yields for a salt.
abbrev pub Read :
    UserState → List ℕ → Answer → Option (List ℕ) → Option (ResponseCode × UserState) → Type 0
Read u file a new_salt none =
    (b : Blob) × IsOpened file a b × (¬ IsSalted file) × ((salt : List ℕ) × (new_salt ≡ some salt))
Read u file a new_salt (some (ResponseCode.no_error, v)) =
    (b : Blob) × IsOpened file a b
    × IsSalted file
    × (v.state ≡ State.no_error)
    × (v.master_key ≡ get_value b)
    × (v.key_file ≡ u.key_file)
Read u file a new_salt (some (answer, v)) =
    (v.state ≡ u.state) × (v.master_key ≡ u.master_key) × (v.key_file ≡ u.key_file)
