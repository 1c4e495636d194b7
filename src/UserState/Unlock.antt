-- ===== src/UserState/Unlock.antt =====
-- keystore/user_state.cpp: a user who was initialized with a password is unlocked by it.
use system_security.Base.{
  ℕ, ◌+◌, ◌≤◌, ◌≡◌, refl, sym, ap, ◌∙◌, true, Option, some, List, ◌++◌, arith, length, take, drop,
  take-append, drop-append, take-all, take-take, length-append,
}
use system_security.Codes.{State, ResponseCode}
use system_security.Blob.{Blob, new_blob, get_value, min_of, type_master_key_aes256}
use system_security.Blob.Stored.{Ciphers, file_bytes, raw_blob, raw_size, read_blob, write_blob}
use system_security.Blob.Layout.{Storable}
use system_security.Blob.RoundTrip.{
  GcmLaws, Same, stored_form, write_blob-stored_form, stored_form-ReadsBack,
}
use system_security.Blob.Tail.{Shows, stored_form-Shows, info_bytes}
use system_security.Blob.Entry.{Write, Reads, write_blobs, read_blobs, write_characteristics}
use system_security.UserState.{
  UserState, Kdf, generate_salt, generate_master_key, generate_key_from_password, master_key_blob,
  write_master_key, generated, initialize_with, salt_in, master_key_size, opened_key, read_answered,
  read_with, read_key_file, read_master_key, setup_master_keys, set_state,
  zeroize_master_keys_in_memory,
}

-- The blob of a key and a salt.
abbrev blob_of : List ℕ → List ℕ → Blob
blob_of key salt = new_blob key salt type_master_key_aes256

value_of :
    (key salt : List ℕ)
    → length key ≡ 32
    → length salt ≡ 16
    → (blob_of key salt).value ≡ key ++ salt
unfolding new_blob
value_of key salt k s =
    rw (k, s)
      (ap (λ x. x ++ take 16 salt) (take-all 32 key (omega (arith, k)))
        ∙ ap (λ x. key ++ x) (take-all 16 salt (omega (arith, s))))

length_of : (key salt : List ℕ) → length key ≡ 32 → (blob_of key salt).value_length ≡ 32
unfolding new_blob
length_of key salt k = ground (arith, k)

info_of : (key salt : List ℕ) → length key ≡ 32 → length salt ≡ 16 → (blob_of key salt).info ≡ 16
unfolding new_blob
info_of key salt k s = ground (arith, k, s)

filled_of :
    (key salt : List ℕ)
    → length key ≡ 32
    → length salt ≡ 16
    → (blob_of key salt).value_length + (blob_of key salt).info ≤ length (blob_of key salt).value
filled_of key salt k s = omega (
  arith,
  length_of key salt k,
  info_of key salt k s,
  ap length (value_of key salt k s),
  length-append key salt,
  k,
  s,
)

blob_of-Storable :
    (key salt : List ℕ) → length key ≡ 32 → length salt ≡ 16 → Storable (blob_of key salt)
unfolding new_blob
blob_of-Storable key salt k s = record {
  version = refl;
  flags = ground arith;
  initialization_vector = refl;
  aead_tag = refl;
  room = ground (arith, length_of key salt k, info_of key salt k s);
  filled = filled_of key salt k s;
}

-- The end of the file is the salt.
info_bytes_of :
    (key salt : List ℕ) → length key ≡ 32 → length salt ≡ 16 → info_bytes (blob_of key salt) ≡ salt
info_bytes_of key salt k s =
    ap (λ (n : ℕ). take n (drop (blob_of key salt).value_length (blob_of key salt).value))
      (info_of key salt k s)
    ∙ ap (λ (n : ℕ). take 16 (drop n (blob_of key salt).value)) (length_of key salt k)
    ∙ ap (λ x. take 16 (drop 32 x)) (value_of key salt k s)
    ∙ ap (take 16) (drop-append key salt 32 k)
    ∙ take-all 16 salt (omega (arith, s))

-- The file that shows such a blob gives back the salt and the size of the key.
salt_in-Shows :
    (file key salt : List ℕ)
    → length key ≡ 32
    → length salt ≡ 16
    → Shows file (blob_of key salt)
    → salt_in file ≡ some salt
unfolding salt_in
salt_in-Shows file key salt k s h =
    let n : min_of (length file) raw_size ≡ 88 =
      h.read_length ∙ omega (arith, length_of key salt k, info_of key salt k s) in
    let i : (raw_blob file).info ≡ 16 = h.info ∙ info_of key salt k s in
    let tail : drop 72 file ≡ salt =
      ap (λ (m : ℕ). drop (40 + m) file) (sym (length_of key salt k))
      ∙ h.tail
      ∙ info_bytes_of key salt k s in
    rw (n, i) (ap (λ x. some (take 16 x)) tail ∙ ap some (take-all 16 salt (omega (arith, s))))

size-Shows : (file key salt : List ℕ) → Shows file (blob_of key salt) → master_key_size file ≡ 32
unfolding master_key_size new_blob
size-Shows file key salt h = rw h.blob_type refl

-- The value that is read is the key.
get_value-Same :
    (key salt : List ℕ) (b : Blob)
    → length key ≡ 32
    → length salt ≡ 16
    → Same b (blob_of key salt)
    → get_value b ≡ key
unfolding get_value
get_value-Same key salt b k s h =
    let n : b.value_length ≡ 32 = h.value_length ∙ length_of key salt k in
    let i : b.info ≡ 16 = h.info ∙ info_of key salt k s in
    let wide : 48 ≡ b.value_length + b.info = omega (arith, n, i) in
    let made : (blob_of key salt).value_length + (blob_of key salt).info ≡ 48 =
      omega (arith, length_of key salt k, info_of key salt k s) in
    let whole : take 48 b.value ≡ key ++ salt =
      ap (λ (m : ℕ). take m b.value) wide
      ∙ h.value
      ∙ ap (λ (m : ℕ). take m (blob_of key salt).value) made
      ∙ ap (take 48) (value_of key salt k s)
      ∙ take-all 48 (key ++ salt) (omega (arith, length-append key salt, k, s)) in
    ap (λ (m : ℕ). take m b.value) n
    ∙ sym (take-take 32 48 b.value (omega arith))
    ∙ ap (take 32) whole
    ∙ take-append key salt 32 k

-- What a password, a salt and a size of 32 give.
abbrev key_for : Kdf → List ℕ → List ℕ → List ℕ
key_for kdf pw salt = generate_key_from_password kdf 32 pw (some salt)

abbrev pub writes : List ℕ → Write
writes random = record { random = some random; stored = true }

-- The user after initialize(pw).
abbrev pub initialized : UserState → List ℕ → List ℕ → List ℕ → UserState
initialized u key salt file = record u {
  master_key = key;
  salt = salt;
  key_file = some file;
  state = State.no_error;
}

initialize_with-written :
    (c : Ciphers) (kdf : Kdf) (pw random key salt file : List ℕ) (u : UserState)
    → length key ≡ 32
    → write_blob c (key_for kdf pw salt) State.no_error (some random) true (blob_of key salt)
      ≡ (ResponseCode.no_error, some file)
    → initialize_with c kdf pw (writes random) (some key) (some salt) u
      ≡ some (ResponseCode.no_error, initialized u key salt file)
unfolding initialize_with generate_master_key generate_salt generated write_master_key
    master_key_blob write_blobs write_characteristics system_security.UserState.written
    setup_master_keys set_state generate_key_from_password
initialize_with-written c kdf pw random key salt file u k h = rw (k, h) refl

-- What a read of such a file leaves, if the password derives the key that opens it.
read_key_file_opened :
    (c : Ciphers) (kdf : Kdf) (pw salt file : List ℕ) (w : Write) (reads : Reads)
    (new_salt : Option (List ℕ)) (b : Blob) (x : UserState)
    → salt_in file ≡ some salt
    → master_key_size file ≡ 32
    → reads.key_opened ≡ true
    → read_blob c (key_for kdf pw salt) State.no_error true (some file)
      ≡ (ResponseCode.no_error, some b)
    → b.value_length ≡ 32
    → read_master_key c kdf pw w reads true new_salt (record x { key_file = some file })
      ≡ some (
        ResponseCode.no_error,
        record x { master_key = get_value b; state = State.no_error; key_file = some file },
      )
unfolding read_master_key read_key_file read_with read_blobs read_answered opened_key
    setup_master_keys set_state generate_key_from_password
read_key_file_opened c kdf pw salt file w reads new_salt b x sa si op rd n =
    rw (read_master_key, read_key_file, read_with, read_blobs, sa, si, op, rd, read_answered, n)
      (rw (si, sa) refl)

-- The user as the key store's lock leaves it.
abbrev pub locked_user : UserState → UserState
locked_user u = set_state (zeroize_master_keys_in_memory u) State.locked

-- The user is unlocked with a key in memory.
abbrev pub HasKey : List ℕ → UserState → Type 0
HasKey key u = (u.state ≡ State.no_error) × (u.master_key ≡ key)

-- For a cipher that keeps its documented laws, 12 random bytes for the file, a generated key of 32
-- bytes and a salt of 16, and files that can be written and opened: initialize(pw) answers NO_ERROR and
-- leaves the user unlocked with the key; and once the user is locked, which wipes the key, readMasterKey
-- with the same password answers NO_ERROR and leaves the user unlocked with the same key again.
pub initialize_with-read_master_key :
    (c : Ciphers) (kdf : Kdf) (pw random key salt : List ℕ) (w : Write) (reads : Reads)
    (new_salt : Option (List ℕ)) (u : UserState)
    → GcmLaws c
    → length random ≡ 12
    → length key ≡ 32
    → length salt ≡ 16
    → reads.key_opened ≡ true
    → (v : UserState) × (initialize_with c kdf pw (writes random) (some key) (some salt) u
        ≡ some (ResponseCode.no_error, v))
      × HasKey key v
      × ((x : UserState) × (read_master_key c kdf pw w reads true new_salt (locked_user v)
            ≡ some (ResponseCode.no_error, x))
          × HasKey key x)
unfolding set_state zeroize_master_keys_in_memory
initialize_with-read_master_key c kdf pw random key salt w reads new_salt u laws n k s op =
    let b = blob_of key salt in
    let secret = key_for kdf pw salt in
    let ok = blob_of-Storable key salt k s in
    let file = file_bytes (stored_form c secret random b) in
    let wrote = write_blob-stored_form c secret random b laws ok in
    let shows = stored_form-Shows c secret random b laws ok n in
    let (b', read, same) = stored_form-ReadsBack c secret random b laws ok n in
    let v = initialized u key salt file in
    (
      v,
      initialize_with-written c kdf pw random key salt file u k wrote,
      (refl, refl),
      (
        record (locked_user v) {
          master_key = get_value b';
          state = State.no_error;
          key_file = some file;
        },
        read_key_file_opened c kdf pw salt file w reads new_salt b' (locked_user v)
            (salt_in-Shows file key salt k s shows) (size-Shows file key salt shows) op read
            (same.value_length ∙ length_of key salt k),
        (refl, get_value-Same key salt b' k s same),
      ),
    )
