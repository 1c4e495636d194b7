-- ===== src/Examples/Users.antt =====
-- Runs of the life of a user's master key.
use system_security.Base.{◌≡◌, true, false, refl, none, some, [], ◌∷◌}
use system_security.Codes.{State, ResponseCode}
use system_security.Blob.{zeros}
use system_security.Blob.Stored.{file_bytes}
use system_security.Blob.Entry.{Reads}
use system_security.UserState.{UserState, Kdf, initialize_with, read_master_key}
use system_security.UserState.Unlock.{writes, locked_user, HasKey, initialize_with-read_master_key}
use system_security.Examples.Blobs.{ciphers, ciphers_laws, blob}

abbrev user : UserState
user = record {
  user_id = 10;
  state = State.locked;
  master_key = [];
  salt = [];
  key_file = some (file_bytes blob);
}

-- A key derivation that takes the password.
abbrev kdf : Kdf
kdf small pw salt size = pw

abbrev reads : Reads
reads = record { key_opened = true; characteristics_opened = true; has_characteristics = false }

initialize_with-read_master_key_example :
    (v : UserState) × (initialize_with ciphers kdf
        (1 ∷ [])
        (writes (zeros 12))
        (some (zeros 32))
        (some (zeros 16))
        user
      ≡ some (ResponseCode.no_error, v))
    × HasKey (zeros 32) v
    × ((x : UserState) × (read_master_key ciphers kdf
            (1 ∷ [])
            (writes (zeros 12))
            reads
            true
            none
            (locked_user v)
          ≡ some (ResponseCode.no_error, x))
        × HasKey (zeros 32) x)
initialize_with-read_master_key_example =
    initialize_with-read_master_key ciphers kdf (1 ∷ []) (zeros 12) (zeros 32) (zeros 16)
      (writes (zeros 12)) reads none user ciphers_laws refl refl refl refl
