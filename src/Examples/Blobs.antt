-- ===== src/Examples/Blobs.antt =====
-- Runs of the blobs, their files and the key store, with a cipher that changes nothing.
use system_security.Base.{
  ℕ, ◌≡◌, ◌↔◌, ◌⊎◌, refl, Bool, true, false, Option, none, some, List, [], ◌∷◌, arith, length,
}
use system_security.Base.Assoc.{find_key}
use system_security.Codes.{State, ResponseCode}
use system_security.KeyBlob.{KeyBlobEntry}
use system_security.Permissions.{get_keystore_euid, get_user_id}
use system_security.UserState.{UserState}
use system_security.Blob.{Blob, zeros, min_of}
use system_security.Blob.Stored.{Ciphers, write_blob, read_blob, raw_size, file_bytes}
use system_security.Blob.Reads.{Answered, read_blob-Answered}
use system_security.Blob.Entry.{Write, Unlinked, AccessResult, has_blob}
use system_security.Blob.RoundTrip.{Storable, GcmLaws, Same, ReadsBack, write_blob-read_blob}
use system_security.KeyStore.{KeyStore, World, entry_for}
use system_security.KeyStore.Access.{
  get_blob_entry_if_exists, candidates, first_there, get_blob_entry_if_exists_lem,
  get_blob_entry_if_exists_revoked,
}
use system_security.KeyStore.Storage.{IsOld, blobs_read, get-waits_iff, writes_with, put-get}

abbrev pub ciphers : Ciphers
ciphers = record {
  gcm_encrypt = λ (small : Bool) (key iv plain : List ℕ). (plain, zeros 16);
  gcm_decrypt = λ (small : Bool) (key iv tag cipher : List ℕ). some cipher;
  cbc_decrypt = λ (key iv cipher : List ℕ). cipher;
  md5 = λ (bytes : List ℕ). zeros 16;
}

pub ciphers_laws : GcmLaws ciphers
ciphers_laws = record {
  decrypts = λ small key iv plain. refl;
  as_long = λ small key iv plain. refl;
  tag_size = λ small key iv plain. refl;
}

-- A blob that is encrypted and super-encrypted.
abbrev pub blob : Blob
blob = record {
  version = 3;
  blob_type = 4;
  flags = 5;
  info = 1;
  initialization_vector = zeros 16;
  aead_tag = zeros 16;
  value_length = 2;
  value = 7 ∷ 8 ∷ 9 ∷ [];
}

pub blob-Storable : Storable blob
blob-Storable = record {
  version = refl;
  flags = omega arith;
  initialization_vector = refl;
  aead_tag = refl;
  room = omega arith;
  filled = omega arith;
}

write_blob-read_blob_example :
    (file : List ℕ) × (write_blob ciphers (zeros 16) State.no_error (some (zeros 12)) true blob
      ≡ (ResponseCode.no_error, some file))
    × ReadsBack ciphers (zeros 16) State.no_error blob file
write_blob-read_blob_example =
    write_blob-read_blob ciphers (zeros 16) (zeros 12) blob ciphers_laws blob-Storable refl

read_blob-Answered_example :
    Answered
      (min_of (length (file_bytes blob)) raw_size)
      (read_blob ciphers (zeros 16) State.no_error true (some (file_bytes blob)))
read_blob-Answered_example =
    read_blob-Answered ciphers (zeros 16) State.no_error true (file_bytes blob)

-- A store with an unlocked user and a key.
abbrev user : UserState
user = record {
  user_id = 0;
  state = State.no_error;
  master_key = zeros 16;
  salt = [];
  key_file = some (zeros 16);
}

abbrev store : KeyStore
store = record { user_states = (0, user) ∷ []; grants = []; entries = []; device_deletes = [] }

abbrev world : World
world = record {
  aids = record {
    system = 1000;
    vpn = 1016;
    wifi = 1010;
    root = 0;
    bluetooth = 1002;
    user = 100000;
  };
  root_all = false;
  ciphers = ciphers;
  user_file = λ (user_id : ℕ). none;
  user_made = λ (user_id : ℕ). true;
  reads = λ (e : KeyBlobEntry). record {
    key_opened = true;
    characteristics_opened = true;
    has_characteristics = false;
  };
  upgrade_writes = λ (e : KeyBlobEntry).
      writes_with (zeros 12) (record { random = none; stored = false }) ResponseCode.no_error;
  rereads = λ (e : KeyBlobEntry). record {
    key_opened = true;
    characteristics_opened = true;
    has_characteristics = false;
  };
  access =
      λ (e : KeyBlobEntry). (AccessResult.again, AccessResult.accessible, AccessResult.accessible);
  unlinks = λ (e : KeyBlobEntry). (Unlinked.removed, Unlinked.no_entry);
}

-- The key "k" of the uid 1010, which acts as the system.
abbrev name : List ℕ
name = b'k' ∷ []

abbrev entry : KeyBlobEntry
entry = entry_for world name 1010

abbrev other_write : Write
other_write = record { random = none; stored = false }

put-get_example :
    (let stored =
        system_security.KeyStore.put world store
          (writes_with (zeros 12) other_write ResponseCode.no_error)
          entry
          (some blob)
          none in
      (stored.0 ≡ ResponseCode.no_error)
      × ((b' : Blob) × (characteristics : Option Blob) × ((system_security.KeyStore.get world
              stored.1 entry).0
            ≡ some (ResponseCode.no_error, some b', characteristics))
          × Same b' blob))
unfolding get_user_id find_key
put-get_example =
    put-get world store entry user blob (zeros 12) other_write ResponseCode.no_error ciphers_laws
      blob-Storable refl refl refl refl

get-waits_iff_example :
    ((system_security.KeyStore.get world store entry).0 ≡ none)
    ↔ IsOld (blobs_read world store entry)
get-waits_iff_example = get-waits_iff world store entry

get_blob_entry_if_exists_lem_example :
    (get_blob_entry_if_exists world store name 1010).0
    ≡ first_there world (candidates world store.grants name 1010)
get_blob_entry_if_exists_lem_example = get_blob_entry_if_exists_lem world store name 1010

get_blob_entry_if_exists_revoked_example :
    (entry ≡ entry_for world name 1010)
    ⊎ (entry ≡ entry_for world name (get_keystore_euid false world.aids 1010))
unfolding get_blob_entry_if_exists has_blob
get_blob_entry_if_exists_revoked_example =
    get_blob_entry_if_exists_revoked world store name 1010 entry refl
