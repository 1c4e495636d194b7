-- ===== src/KeyStore.antt =====
-- keystore/KeyStore.h and KeyStore.cpp: KeyStore, over the users, the grants and the files of the
-- entries. What the file system and the random generator answer during a call are its arguments. A
-- function that may wait for ever returns an Option, `none` being that it does: the lock of a user's
-- state is not recursive, and a thread that asks for a lock that it holds is never woken.
pub mod Access
pub mod Storage
use system_security.Base.{
  ℕ, Bool, true, false, not, ◌&&◌, ◌||◌, Option, none, some, List, [], ◌∷◌, ◌++◌, ltb, ◌==◌,
  if◌then◌else◌,
}
use system_security.Codes.{State, ResponseCode}
use system_security.Text.{decimal, text_eq}
use system_security.KeyBlob.{KeyBlobEntry, entry_eq, filename_to_uid_alias, starts_with_dot}
use system_security.Grants.{Grant, GrantStore, remove_all_grants_to_key}
use system_security.Permissions.{Aids, get_user_id, get_keystore_euid}
use system_security.SecurityLevels.{SecurityLevel}
use system_security.UserState.{
  UserState, UserStateDb, set_state, zeroize_master_keys_in_memory, get_user_state,
  get_user_state_by_uid, delete_master_key, reset,
}
use system_security.Base.Assoc.{put_key}
use system_security.Blob.{
  Blob, get_value, is_encrypted, set_encrypted, set_version, get_security_level,
  current_blob_version, type_keymaster_10,
}
use system_security.Blob.Stored.{Ciphers}
use system_security.Blob.Entry.{
  EntryFiles, UserKey, Writes, Reads, Unlinked, AccessResult, code_is_no_error, write_blobs,
  read_blobs, delete_blobs, has_blob,
}

-- `device_deletes` are the keys that a device was told to delete, the last one first.
pub record KeyStore : Type 0 where
  pub user_states : UserStateDb
  pub grants : GrantStore
  pub entries : List (KeyBlobEntry × EntryFiles)
  pub device_deletes : List (SecurityLevel × List ℕ)

-- What others answer during a call: the ciphers, what the initialization of a new user finds, and for
-- each entry how its files are read, written and read again by an upgrade, found and unlinked.
pub record World : Type 0 where
  pub aids : Aids
  pub root_all : Bool
  pub ciphers : Ciphers
  pub user_file : ℕ → Option (List ℕ)
  pub user_made : ℕ → Bool
  pub reads : KeyBlobEntry → Reads
  pub upgrade_writes : KeyBlobEntry → Writes
  pub rereads : KeyBlobEntry → Reads
  pub access : KeyBlobEntry → AccessResult × AccessResult × AccessResult
  pub unlinks : KeyBlobEntry → Unlinked × Unlinked

abbrev pub no_files : EntryFiles
no_files = record { key_file = none; characteristics_file = none }

unfoldable pub files_of : KeyBlobEntry → List (KeyBlobEntry × EntryFiles) → EntryFiles
files_of e [] = no_files
files_of e ((f, files) ∷ rest) = if entry_eq f e then files else files_of e rest

unfoldable pub set_files :
    KeyBlobEntry → EntryFiles → List (KeyBlobEntry × EntryFiles) → List (KeyBlobEntry × EntryFiles)
set_files e files [] = (e, files) ∷ []
set_files e files ((f, old) ∷ rest) =
    if entry_eq f e then (f, files) ∷ rest else (f, old) ∷ set_files e files rest

-- getUserDirName
abbrev pub user_dir_name : ℕ → List ℕ
user_dir_name user_id = b'u' ∷ b's' ∷ b'e' ∷ b'r' ∷ b'_' ∷ decimal user_id

abbrev pub entry_for : World → List ℕ → ℕ → KeyBlobEntry
entry_for w alias uid = record {
  alias = alias;
  user_dir = user_dir_name (get_user_id w.aids uid);
  uid = uid;
  masterkey = false;
}

-- A user's state, which is made if it is not there.
unfoldable pub user_of : World → KeyStore → ℕ → UserState × KeyStore
user_of w ks user_id =
    let (u, db) =
      get_user_state ks.user_states user_id (w.user_file user_id) (w.user_made user_id) in
    (u, record ks { user_states = db })

abbrev pub key_of : UserState → UserKey
key_of u = record { encryption_key = u.master_key; state = u.state }

abbrev pub has_key_blob : World → KeyBlobEntry → Bool
has_key_blob w e = let (first, second, third) = w.access e in has_blob first second third

-- put
unfoldable pub put :
    World → KeyStore → Writes → KeyBlobEntry → Option Blob → Option Blob → ResponseCode × KeyStore
put w ks writes e key_blob characteristics =
    let (u, ks') = user_of w ks (get_user_id w.aids e.uid) in
    let (code, files) =
      write_blobs w.ciphers (key_of u) writes key_blob characteristics (files_of e ks'.entries) in
    (code, record ks' { entries = set_files e files ks'.entries })

-- upgradeBlob: whether the blob was changed, and the blob.
unfoldable pub upgrade_blob : Blob → Bool × Blob
upgrade_blob b = if b.version == 1 then (true, set_version (set_encrypted b true) 2) else (false, b)

abbrev pub Got : Type 0
Got = ResponseCode × Option Blob × Option Blob

abbrev pub is_held : ℕ → List ℕ → Bool
is_held user_id [] = false
is_held user_id (held ∷ rest) = user_id == held || is_held user_id rest

-- put by a thread that holds the states of some users.
unfoldable pub put_holding :
    World
    → List ℕ
    → KeyStore
    → Writes
    → KeyBlobEntry
    → Option Blob
    → Option Blob
    → Option (ResponseCode × KeyStore)
unfolding put
put_holding w held ks writes e key_blob characteristics =
    if is_held (get_user_id w.aids e.uid) held
    then none
    else some (put w ks writes e key_blob characteristics)

-- What `get` does after `put`: it reads again, or returns the error with the blobs that it has.
unfoldable pub stored_again :
    World
    → UserKey
    → KeyBlobEntry
    → Blob
    → Option Blob
    → KeyStore
    → Option (ResponseCode × KeyStore)
    → Option Got × KeyStore
stored_again w key e b characteristics ks none = (none, ks)
stored_again w key e b characteristics ks (some (ResponseCode.no_error, ks')) =
    (some (read_blobs w.ciphers key (w.rereads e) (files_of e ks'.entries)), ks')
stored_again w key e b characteristics ks (some (code, ks')) =
    (some (code, some b, characteristics), ks')

-- What `get` does with the blobs that were read, holding the states of some users.
unfoldable pub got :
    World → List ℕ → UserKey → KeyBlobEntry → KeyStore → Got → Option Got × KeyStore
unfolding put_holding stored_again
got w held key e ks (ResponseCode.no_error, some b, characteristics) =
    if ltb b.version current_blob_version && (upgrade_blob b).0
    then stored_again w key e (upgrade_blob b).1 characteristics ks
        (put_holding w held ks (w.upgrade_writes e) e (some (upgrade_blob b).1) none)
    else (some (ResponseCode.no_error, some b, characteristics), ks)
got w held key e ks other = (some other, ks)

-- get, which holds the state of the entry's user.
unfoldable pub get : World → KeyStore → KeyBlobEntry → Option Got × KeyStore
get w ks e =
    let user_id = get_user_id w.aids e.uid in
    let (u, ks') = user_of w ks user_id in
    got w (user_id ∷ []) (key_of u) e ks'
      (read_blobs w.ciphers (key_of u) (w.reads e) (files_of e ks'.entries))

-- The call of the device for a key blob that was read.
abbrev pub delete_key : KeyStore → ResponseCode × Option Blob → KeyStore
delete_key ks (ResponseCode.no_error, some b) =
    if b.blob_type == type_keymaster_10
    then record ks { device_deletes = (get_security_level b, get_value b) ∷ ks.device_deletes }
    else ks
delete_key ks other = ks

-- What del does with what it got.
unfoldable pub del_got : World → KeyStore → KeyBlobEntry → Got → ResponseCode × KeyStore
del_got w ks e (code, key_blob, characteristics) =
    let (first, second) = w.unlinks e in
    let (deleted, files) = delete_blobs first second (files_of e ks.entries) in
    let ks' : KeyStore = record ks {
      grants = remove_all_grants_to_key e.uid e.alias ks.grants;
      entries = set_files e files ks.entries;
    } in
    (if code_is_no_error code then deleted else code, delete_key ks' (code, key_blob))

abbrev pub del_after :
    World → KeyBlobEntry → Option Got × KeyStore → Option (ResponseCode × KeyStore)
del_after w e (none, ks) = none
del_after w e (some found, ks) = some (del_got w ks e found)

-- del
unfoldable pub del : World → KeyStore → KeyBlobEntry → Option (ResponseCode × KeyStore)
del w ks e = del_after w e (get w ks e)

-- The entries of a directory that LockedKeyBlobEntry::list finds, for each file its name and whether
-- it is a regular one.
unfoldable pub list_entries : List ℕ → List (Bool × List ℕ) → List KeyBlobEntry
list_entries user_dir [] = []
list_entries user_dir ((regular, name) ∷ names) =
    let rest = list_entries user_dir names in
    if not regular || starts_with_dot name then rest else elim (filename_to_uid_alias name) [
      | none ↦ rest
      | some (uid, alias) ↦
          record { alias = alias; user_dir = user_dir; uid = uid; masterkey = false } ∷ rest
    ]

-- The switch of resetUser on the answer to readBlobs; LOCKED comes with the blob as it is stored.
unfoldable pub should_delete : Got → Bool
should_delete (ResponseCode.no_error, some b, characteristics) = is_encrypted b
should_delete (ResponseCode.locked, some b, characteristics) = is_encrypted b
should_delete _ = true

abbrev pub deleted_store : Option (ResponseCode × KeyStore) → Option KeyStore
deleted_store none = none
deleted_store (some (code, ks)) = some ks

-- The loop of resetUser, with the user's key and state as they were before it.
unfoldable pub reset_entries :
    World → UserKey → Bool → List KeyBlobEntry → KeyStore → Option KeyStore
reset_entries w key keep [] ks = some ks
reset_entries w key keep (e ∷ es) ks =
    let blobs = read_blobs w.ciphers key (w.reads e) (files_of e ks.entries) in
    let next = if not keep || should_delete blobs then deleted_store (del w ks e) else some ks in
    elim next [ none ↦ none | some ks' ↦ reset_entries w key keep es ks' ]

-- What is left of the entries when the files of a directory are unlinked.
unfoldable pub clear_directory :
    List ℕ → List (KeyBlobEntry × EntryFiles) → List (KeyBlobEntry × EntryFiles)
clear_directory dir [] = []
clear_directory dir ((e, files) ∷ rest) =
    let others = clear_directory dir rest in
    if text_eq e.user_dir dir then others else (e, files) ∷ others

abbrev pub is_opened : Option Bool → Bool
is_opened none = false
is_opened (some opened) = opened

-- The end of resetUser: the user's master key, and the directory. `unlinked` and `opened` are the
-- answers to the calls of the file system, where `none` is a directory that is not there.
unfoldable pub reset_state : World → ℕ → Bool → Bool → Option Bool → KeyStore → KeyStore
reset_state w user_id keep unlinked opened ks =
    let (u, ks') = user_of w ks user_id in
    let v = (delete_master_key u unlinked).1 in
    let v' = if keep then v else (reset v opened).1 in
    record ks' {
      user_states = put_key user_id v' ks'.user_states;
      entries =
          if not keep && is_opened opened
          then clear_directory (user_dir_name user_id) ks'.entries
          else ks'.entries;
    }

abbrev pub reset_after : World → ℕ → Bool → Bool → Option Bool → Option KeyStore → Option KeyStore
reset_after w user_id keep unlinked opened none = none
reset_after w user_id keep unlinked opened (some ks) =
    some (reset_state w user_id keep unlinked opened ks)

-- resetUser, for the entries that are listed, none if the directory cannot be opened.
unfoldable pub reset_user :
    World
    → ℕ
    → Bool
    → Bool
    → Option Bool
    → Option (List (Bool × List ℕ))
    → KeyStore
    → Option KeyStore
reset_user w user_id keep unlinked opened none ks = some (user_of w ks user_id).1
reset_user w user_id keep unlinked opened (some names) ks =
    let (u, ks') = user_of w ks user_id in
    reset_after w user_id keep unlinked opened
      (reset_entries w (key_of u) keep (list_entries (user_dir_name user_id) names) ks')

-- lock
unfoldable pub lock : World → KeyStore → ℕ → KeyStore
lock w ks user_id =
    let (u, ks') = user_of w ks user_id in
    record ks' {
      user_states =
          put_key user_id (set_state (zeroize_master_keys_in_memory u) State.locked)
            ks'.user_states;
    }
