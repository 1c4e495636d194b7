-- ===== src/UserState.antt =====
-- keystore/user_state.h and user_state.cpp: UserState and UserStateDB, the life of a user's master
-- key. What the file system and the random generator answer are arguments; `key_file` are the bytes
-- of the user's master key file. PBKDF2 of the SSL library is a function of whether its digest is
-- SHA-1, the password, the salt and the size of the key. A function that may wait for ever returns an
-- Option, `none` being that it does: LockedKeyBlobEntry::get of an entry that the thread holds.
pub mod Life
pub mod Unlock
use system_security.Base.{
  ℕ, ◌-◌, ltb, take, drop, zero, suc, is_some, Bool, true, false, not, ◌&&◌, ◌||◌, Option, none,
  some, List, [], ◌∷◌, ◌==◌, if◌then◌else◌, length,
}
use system_security.Permissions.{Aids, get_user_id}
use system_security.Codes.{State, ResponseCode}
use system_security.Blob.{
  Blob, new_blob, get_value, min_of, type_master_key, type_master_key_aes256,
}
use system_security.Blob.Stored.{Ciphers, raw_blob, raw_size}
use system_security.Blob.Entry.{EntryFiles, Write, Reads, write_blobs, read_blobs}
use system_security.Base.Assoc.{find_key, put_key}

pub record UserState : Type 0 where
  pub user_id : ℕ
  pub state : State
  pub master_key : List ℕ
  pub salt : List ℕ
  pub key_file : Option (List ℕ)

-- The constructor.
unfoldable pub new_user : ℕ → Option (List ℕ) → UserState
new_user user_id key_file = record {
  user_id = user_id;
  state = State.uninitialized;
  master_key = [];
  salt = [];
  key_file = key_file;
}

unfoldable pub set_state : UserState → State → UserState
set_state u state = record u { state = state }

-- initialize(): `made` is whether the directory is there after mkdir.
unfoldable pub initialize : UserState → Bool → Bool × UserState
unfolding set_state
initialize u made =
    if made
    then (true, set_state u (if is_some u.key_file then State.locked else State.uninitialized))
    else (false, u)

abbrev pub zeros : List ℕ → List ℕ
zeros [] = []
zeros (b ∷ bs) = 0 ∷ zeros bs

-- zeroizeMasterKeysInMemory
unfoldable pub zeroize_master_keys_in_memory : UserState → UserState
zeroize_master_keys_in_memory u = record u { master_key = zeros u.master_key; salt = zeros u.salt }

-- deleteMasterKey: `unlinked` is whether unlink removes a file that is there.
unfoldable pub delete_master_key : UserState → Bool → Bool × UserState
unfolding zeroize_master_keys_in_memory set_state
delete_master_key u unlinked =
    let v = zeroize_master_keys_in_memory (set_state u State.uninitialized) in
    (
      not (is_some u.key_file) || unlinked,
      record v { key_file = if unlinked then none else u.key_file },
    )

-- setupMasterKeys
unfoldable pub setup_master_keys : UserState → UserState
unfolding set_state
setup_master_keys u = set_state u State.no_error

-- What the random generator yields for the key and the salt; `none` is its failure.
unfoldable pub generate_salt : UserState → Option (List ℕ) → Bool × UserState
generate_salt u none = (false, u)
generate_salt u (some salt) = (true, record u { salt = salt })

-- vector::resize
abbrev pub resize : ℕ → List ℕ → List ℕ
resize zero bs = []
resize (suc n) [] = 0 ∷ resize n []
resize (suc n) (b ∷ bs) = b ∷ resize n bs

-- generateMasterKey
unfoldable pub generate_master_key :
    UserState → Option (List ℕ) → Option (List ℕ) → Bool × UserState
unfolding generate_salt
generate_master_key u none salt = (false, record u { master_key = resize 32 u.master_key })
generate_master_key u (some key) salt = generate_salt (record u { master_key = key }) salt

abbrev pub Kdf : Type 0
Kdf = Bool → List ℕ → List ℕ → ℕ → List ℕ

-- "keystore", with the zero at its end.
abbrev pub hardwired_salt : List ℕ
hardwired_salt = b'k' ∷ b'e' ∷ b'y' ∷ b's' ∷ b't' ∷ b'o' ∷ b'r' ∷ b'e' ∷ 0 ∷ []

-- generateKeyFromPassword
unfoldable pub generate_key_from_password : Kdf → ℕ → List ℕ → Option (List ℕ) → List ℕ
generate_key_from_password kdf size pw none = kdf (size == 16) pw hardwired_salt size
generate_key_from_password kdf size pw (some salt) = kdf (size == 16) pw salt size

-- The blob that writeMasterKey stores.
unfoldable pub master_key_blob : UserState → Blob
master_key_blob u =
    new_blob u.master_key u.salt
      (if length u.master_key == 16 then type_master_key else type_master_key_aes256)

abbrev pub key_entry : UserState → EntryFiles
key_entry u = record { key_file = u.key_file; characteristics_file = none }

-- writeMasterKey, by a thread that holds the entry of the master key or not.
unfoldable pub write_master_key :
    Ciphers → Kdf → Bool → List ℕ → Write → UserState → Option (ResponseCode × UserState)
unfolding generate_key_from_password master_key_blob
write_master_key c kdf true pw w u = none
write_master_key c kdf false pw w u =
    let password_key = generate_key_from_password kdf (length u.master_key) pw (some u.salt) in
    let (code, files) =
      write_blobs c (record { encryption_key = password_key; state = State.no_error })
        (record { key_write = w; characteristics_write = w; unset = ResponseCode.no_error })
        (some (master_key_blob u)) none (key_entry u) in
    some (code, record u { key_file = files.key_file })

-- What initialize(pw) does after writeMasterKey.
unfoldable pub written : Option (ResponseCode × UserState) → Option (ResponseCode × UserState)
unfolding setup_master_keys
written none = none
written (some (ResponseCode.no_error, u)) = some (ResponseCode.no_error, setup_master_keys u)
written (some (answer, u)) = some (answer, u)

-- What it does after generateMasterKey.
unfoldable pub generated :
    Ciphers → Kdf → List ℕ → Write → Bool × UserState → Option (ResponseCode × UserState)
unfolding written write_master_key
generated c kdf pw w (false, u) = some (ResponseCode.system_error, u)
generated c kdf pw w (true, u) = written (write_master_key c kdf false pw w u)

-- initialize(pw), with what the random generator yields for the key and the salt.
unfoldable pub initialize_with :
    Ciphers
    → Kdf
    → List ℕ
    → Write
    → Option (List ℕ)
    → Option (List ℕ)
    → UserState
    → Option (ResponseCode × UserState)
unfolding generated
initialize_with c kdf pw w key salt u = generated c kdf pw w (generate_master_key u key salt)

-- copyMasterKeyFile: `copied` is whether opening, reading, writing and closing all succeed, and
-- `left` is what a failed copy leaves of the file.
unfoldable pub copy_master_key_file :
    UserState → UserState → Bool → Option (List ℕ) → ResponseCode × UserState
copy_master_key_file u src copied left =
    if copied
    then (ResponseCode.no_error, record u { key_file = src.key_file })
    else (ResponseCode.system_error, record u { key_file = left })

abbrev pub is_state : State → State → Bool
is_state State.no_error State.no_error = true
is_state State.locked State.locked = true
is_state State.uninitialized State.uninitialized = true
is_state _ _ = false

-- copyMasterKey
unfoldable pub copy_master_key :
    UserState → UserState → Bool → Option (List ℕ) → ResponseCode × UserState
unfolding copy_master_key_file setup_master_keys
copy_master_key u src copied left =
    if not (is_state u.state State.uninitialized)
    then (ResponseCode.system_error, u)
    else if not (is_state src.state State.no_error)
    then (ResponseCode.system_error, u)
    else copy_master_key_file (setup_master_keys (record u { master_key = src.master_key })) src
        copied left

-- The bytes that readMasterKey reads into the raw blob.
abbrev pub read_length : List ℕ → ℕ
read_length file = min_of (length file) raw_size

-- The salt at the end of the file, if there is one.
unfoldable pub salt_in : List ℕ → Option (List ℕ)
salt_in file =
    if ltb 16 (read_length file) && (raw_blob file).info == 16
    then some (take 16 (drop (read_length file - 16) file))
    else none

-- masterKeySize
unfoldable pub master_key_size : List ℕ → ℕ
master_key_size file = if (raw_blob file).blob_type == type_master_key then 16 else 32

abbrev pub load_key : Blob → UserState → UserState
load_key b u = setup_master_keys (record u { master_key = get_value b })

-- The last step, after writeMasterKey.
unfoldable pub load_after :
    Blob → Option (ResponseCode × UserState) → Option (ResponseCode × UserState)
unfolding setup_master_keys get_value
load_after b none = none
load_after b (some (ResponseCode.no_error, u)) = some (ResponseCode.no_error, load_key b u)
load_after b (some (answer, u)) = some (answer, u)

-- The step before it: a file without salt is written again with the salt that was generated, while
-- the thread holds the entry.
unfoldable pub add_salt :
    Ciphers → Kdf → List ℕ → Write → Blob → Bool × UserState → Option (ResponseCode × UserState)
unfolding load_after write_master_key
add_salt c kdf pw w b (false, u) = some (ResponseCode.system_error, u)
add_salt c kdf pw w b (true, u) = load_after b (write_master_key c kdf true pw w u)

-- What readMasterKey does with a blob of the right size.
unfoldable pub opened_key :
    Ciphers
    → Kdf
    → List ℕ
    → Write
    → Option (List ℕ)
    → Blob
    → UserState
    → Option (List ℕ)
    → Option (ResponseCode × UserState)
unfolding setup_master_keys get_value add_salt generate_salt
opened_key c kdf pw w new_salt b u (some salt) = some (ResponseCode.no_error, load_key b u)
opened_key c kdf pw w new_salt b u none = add_salt c kdf pw w b (generate_salt u new_salt)

-- What it does with the answer of readBlobs.
unfoldable pub read_answered :
    Ciphers
    → Kdf
    → List ℕ
    → Write
    → Option (List ℕ)
    → List ℕ
    → UserState
    → ResponseCode × Option Blob × Option Blob
    → Option (ResponseCode × UserState)
unfolding opened_key master_key_size salt_in
read_answered c kdf pw w new_salt file u (ResponseCode.system_error, b, _) =
    some (ResponseCode.system_error, u)
read_answered c kdf pw w new_salt file u (ResponseCode.no_error, some b, _) =
    let opened = opened_key c kdf pw w new_salt b u (salt_in file) in
    if b.value_length == master_key_size file
    then opened
    else some (ResponseCode.wrong_password_0, u)
read_answered c kdf pw w new_salt file u other = some (ResponseCode.wrong_password_0, u)

-- readBlobs, with the key derived from the password.
unfoldable pub read_with :
    Ciphers → Kdf → List ℕ → Reads → UserState → List ℕ → ResponseCode × Option Blob × Option Blob
unfolding generate_key_from_password master_key_size salt_in
read_with c kdf pw reads u file =
    let password_key = generate_key_from_password kdf (master_key_size file) pw (salt_in file) in
    read_blobs c (record { encryption_key = password_key; state = State.no_error }) reads
      (key_entry u)

-- readMasterKey of a file that is there or not; `opened` is whether it can be opened and closed at
-- first, `new_salt` what the random generator yields.
unfoldable pub read_key_file :
    Ciphers
    → Kdf
    → List ℕ
    → Write
    → Reads
    → Bool
    → Option (List ℕ)
    → UserState
    → Option (List ℕ)
    → Option (ResponseCode × UserState)
unfolding read_answered read_with
read_key_file c kdf pw w reads opened new_salt u none = some (ResponseCode.system_error, u)
read_key_file c kdf pw w reads opened new_salt u (some file) =
    if opened
    then read_answered c kdf pw w new_salt file u (read_with c kdf pw reads u file)
    else some (ResponseCode.system_error, u)

-- readMasterKey
unfoldable pub read_master_key :
    Ciphers
    → Kdf
    → List ℕ
    → Write
    → Reads
    → Bool
    → Option (List ℕ)
    → UserState
    → Option (ResponseCode × UserState)
unfolding read_key_file
read_master_key c kdf pw w reads opened new_salt u =
    read_key_file c kdf pw w reads opened new_salt u u.key_file

-- reset: the files of the user's directory go, if it can be opened.
unfoldable pub reset : UserState → Option Bool → Bool × UserState
reset u none = (true, u)
reset u (some opened) = if opened then (true, record u { key_file = none }) else (false, u)

-- UserStateDB: the users that were asked for.
abbrev pub UserStateDb : Type 0
UserStateDb = List (ℕ × UserState)

-- getUserState; `file` and `made` are what a new user's initialization finds.
unfoldable pub get_user_state : UserStateDb → ℕ → Option (List ℕ) → Bool → UserState × UserStateDb
unfolding initialize new_user
get_user_state db user_id file made = elim (find_key user_id db) [
  | some u ↦ (u, db)
  | none ↦ let u = (initialize (new_user user_id file) made).1 in (u, put_key user_id u db)
]

-- The const getUserState.
unfoldable pub peek_user_state : UserStateDb → ℕ → Option UserState
peek_user_state db user_id = find_key user_id db

-- getUserStateByUid, the user of a uid being counted by the system's AID_USER.
unfoldable pub get_user_state_by_uid :
    Aids → UserStateDb → ℕ → Option (List ℕ) → Bool → UserState × UserStateDb
unfolding get_user_state
get_user_state_by_uid aids db uid file made = get_user_state db (get_user_id aids uid) file made

-- The const getUserStateByUid.
unfoldable pub peek_user_state_by_uid : Aids → UserStateDb → ℕ → Option UserState
unfolding peek_user_state
peek_user_state_by_uid aids db uid = peek_user_state db (get_user_id aids uid)
