-- ===== src/Blob/Stored.antt =====
-- keystore/blob.cpp: writeBlob, readBlob and the two functions of the AES-GCM cipher. A file is the
-- list of its bytes; `stored` is whether the temporary file is written and renamed. The cipher of
-- versions before 3, with its digest, is a parameter too.
use system_security.Base.{
  ℕ, ◌+◌, ◌-◌, ◌*◌, ◌/◌, ◌%◌, ◌^◌, Bool, true, false, not, ◌&&◌, ◌||◌, Option, none, some, List, [],
  ◌∷◌, ◌++◌, ltb, leb, ◌==◌, if◌then◌else◌, length, take, drop, get_elem?,
}
use system_security.Codes.{State, ResponseCode, flag_super_encrypted}
use system_security.Blob.{
  Blob, zeros, value_size, aes_block_size, raw_blob_is_encrypted, is_encrypted, is_super_encrypted,
  has_flag, min_of,
}

-- The SSL library: AES-GCM, whose first argument says whether the key has 128 bits, AES-CBC with 128
-- bits, and MD5. `none` is the failure of EVP_DecryptFinal_ex.
pub record Ciphers : Type 0 where
  pub gcm_encrypt : Bool → List ℕ → List ℕ → List ℕ → List ℕ × List ℕ
  pub gcm_decrypt : Bool → List ℕ → List ℕ → List ℕ → List ℕ → Option (List ℕ)
  pub cbc_decrypt : List ℕ → List ℕ → List ℕ → List ℕ
  pub md5 : List ℕ → List ℕ

abbrev pub is_no_error : State → Bool
is_no_error State.no_error = true
is_no_error _ = false

-- htonl and ntohl, on the four bytes.
abbrev pub be32 : ℕ → List ℕ
be32 n = (n / 2 ^ 24 % 256) ∷ (n / 2 ^ 16 % 256) ∷ (n / 2 ^ 8 % 256) ∷ (n % 256) ∷ []

-- A byte of the buffer, which is 0 where nothing was read.
abbrev pub byte_or_zero : Option ℕ → ℕ
byte_or_zero none = 0
byte_or_zero (some c) = c

abbrev pub byte_at : ℕ → List ℕ → ℕ
byte_at i bs = byte_or_zero (get_elem? bs i)

abbrev pub from_be32 : List ℕ → ℕ
from_be32 bs =
    byte_at 0 bs * 2 ^ 24 + (byte_at 1 bs * 2 ^ 16 + (byte_at 2 bs * 2 ^ 8 + byte_at 3 bs))

-- offsetof(blobv3, value)
abbrev pub header_size : ℕ
header_size = 40

-- The bytes of a blob's file: the header, the value and the info.
unfoldable pub file_bytes : Blob → List ℕ
file_bytes b =
    b.version
    ∷ b.blob_type
    ∷ b.flags
    ∷ b.info
    ∷ (b.initialization_vector
        ++ (b.aead_tag ++ (be32 b.value_length ++ take (b.value_length + b.info) b.value)))

-- The number of bytes in a blobv3, which is what readFully reads at most.
abbrev pub raw_size : ℕ
raw_size = header_size + (value_size + aes_block_size)

-- What the buffer holds after the file was read into it.
unfoldable pub raw_blob : List ℕ → Blob
raw_blob file = record {
  version = byte_at 0 file;
  blob_type = byte_at 1 file;
  flags = byte_at 2 file;
  info = byte_at 3 file;
  initialization_vector = take 16 (drop 4 file);
  aead_tag = take 16 (drop 20 file);
  value_length = from_be32 (drop 36 file);
  value = take (value_size + aes_block_size) (drop header_size file);
}

-- AES_gcm_encrypt; `none` is SYSTEM_ERROR.
unfoldable pub aes_gcm_encrypt : Ciphers → List ℕ → List ℕ → List ℕ → Option (List ℕ × List ℕ)
aes_gcm_encrypt c plain key iv =
    let out = c.gcm_encrypt (length key == 16) key (take 12 iv) plain in
    if length out.0 == length plain then some out else none

-- AES_gcm_decrypt; `none` is VALUE_CORRUPTED.
unfoldable pub aes_gcm_decrypt : Ciphers → List ℕ → List ℕ → List ℕ → List ℕ → Option (List ℕ)
aes_gcm_decrypt c cipher key iv tag =
    elim (c.gcm_decrypt (length key == 16) key (take 12 iv) tag cipher) [
      | none ↦ none
      | some plain ↦ if length plain == length cipher then some plain else none
    ]

-- What writeBlob does once the blob is ready to be stored.
unfoldable pub store_blob : Bool → Blob → ResponseCode × Option (List ℕ)
store_blob stored b =
    if stored
    then (ResponseCode.no_error, some (file_bytes b))
    else (ResponseCode.system_error, none)

-- The encryption of the value in place.
unfoldable pub encrypt_value : Blob → List ℕ → List ℕ × List ℕ → Blob
encrypt_value b random (cipher, tag) = record b {
  initialization_vector = random ++ zeros 4;
  aead_tag = tag;
  value = cipher ++ drop b.value_length b.value;
}

abbrev pub store_encrypted :
    Bool → Blob → List ℕ → Option (List ℕ × List ℕ) → ResponseCode × Option (List ℕ)
store_encrypted stored b random none = (ResponseCode.system_error, none)
store_encrypted stored b random (some out) = store_blob stored (encrypt_value b random out)

-- The part of writeBlob for a blob that is encrypted; `random` are the 12 bytes of RAND_bytes.
unfoldable pub write_encrypted :
    Ciphers → List ℕ → Option (List ℕ) → Bool → Blob → ResponseCode × Option (List ℕ)
write_encrypted c key none stored b = (ResponseCode.system_error, none)
write_encrypted c key (some random) stored b =
    store_encrypted stored b random
      (aes_gcm_encrypt c (take b.value_length b.value) key (random ++ zeros 4))

-- writeBlob: the answer, and the file's new bytes if it was written.
unfoldable pub write_blob :
    Ciphers → List ℕ → State → Option (List ℕ) → Bool → Blob → ResponseCode × Option (List ℕ)
write_blob c key state random stored b =
    if is_encrypted b || is_super_encrypted b
    then (if is_no_error state
        then write_encrypted c key random stored b
        else (ResponseCode.locked, none))
    else store_blob stored b

-- The checks at the end of readBlob. A length from 2^31 on is negative.
unfoldable pub check_length : ℕ → Blob → ResponseCode × Option Blob
check_length file_length b =
    if leb (2 ^ 31) b.value_length
      || (ltb file_length (b.value_length + b.info + header_size)
          || ltb (value_size + aes_block_size) (b.value_length + b.info + aes_block_size))
    then (ResponseCode.value_corrupted, none)
    else if not (b.info == 0) && ltb b.version 3
    then (
      ResponseCode.no_error,
      some (record b {
        value = take b.value_length b.value ++ drop (file_length - header_size - b.info) b.value;
      }),
    )
    else (ResponseCode.no_error, some b)

-- The answer to a value that cannot be decrypted.
unfoldable pub decrypt_failure : Blob → ResponseCode
decrypt_failure b =
    if has_flag b.flags flag_super_encrypted
    then ResponseCode.key_permanently_invalidated
    else ResponseCode.value_corrupted

abbrev pub decrypted_v3 : ℕ → Blob → Option (List ℕ) → ResponseCode × Option Blob
decrypted_v3 file_length b none = (decrypt_failure b, none)
decrypted_v3 file_length b (some plain) =
    check_length file_length (record b { value = plain ++ drop b.value_length b.value })

-- The part of readBlob for version 3.
unfoldable pub read_v3 : Ciphers → List ℕ → ℕ → Blob → ResponseCode × Option Blob
read_v3 c key file_length b =
    if raw_blob_is_encrypted b
    then decrypted_v3 file_length b
        (aes_gcm_decrypt c (take b.value_length b.value) key b.initialization_vector b.aead_tag)
    else check_length file_length b

-- The bytes that version 2 encrypts: the digest, which stands where the tag is, the length and the
-- value.
unfoldable pub v2_encrypted : ℕ → Blob → List ℕ
v2_encrypted encrypted_length b =
    take encrypted_length (b.aead_tag ++ (be32 b.value_length ++ b.value))

-- The buffer with those bytes decrypted in place.
unfoldable pub v2_decrypted : ℕ → Blob → List ℕ → Blob
v2_decrypted encrypted_length b plain =
    let whole = plain ++ drop encrypted_length (b.aead_tag ++ (be32 b.value_length ++ b.value)) in
    record b {
      aead_tag = take 16 whole;
      value_length = from_be32 (drop 16 whole);
      value = drop 20 whole;
    }

abbrev pub bytes_eq : List ℕ → List ℕ → Bool
bytes_eq [] [] = true
bytes_eq (x ∷ xs) (y ∷ ys) = x == y && bytes_eq xs ys
bytes_eq _ _ = false

-- The comparison of the digests. The source computes the digest's length below 0 if less than 16 bytes
-- are encrypted, which no file that it wrote has.
unfoldable pub check_digest : Ciphers → ℕ → ℕ → Blob → ResponseCode × Option Blob
check_digest c file_length encrypted_length b =
    if bytes_eq b.aead_tag (c.md5 (take (encrypted_length - 16) (be32 b.value_length ++ b.value)))
    then check_length file_length b
    else (ResponseCode.value_corrupted, none)

-- The part of readBlob for the versions before 3.
unfoldable pub read_v2 : Ciphers → List ℕ → ℕ → Blob → ResponseCode × Option Blob
read_v2 c key file_length b =
    let encrypted_length = file_length - 20 - b.info in
    if ltb file_length (20 + b.info)
    then (ResponseCode.value_corrupted, none)
    else if raw_blob_is_encrypted b
    then (if encrypted_length % aes_block_size == 0
        then check_digest c file_length encrypted_length (
            v2_decrypted encrypted_length b
              (c.cbc_decrypt key b.initialization_vector (v2_encrypted encrypted_length b)))
        else (ResponseCode.value_corrupted, none))
    else check_length file_length b

abbrev pub is_locked : State → Bool
is_locked State.locked = true
is_locked _ = false

abbrev pub is_uninitialized : State → Bool
is_uninitialized State.uninitialized = true
is_uninitialized _ = false

-- What follows the checks of the user's state; a version above 3 is read as it stands.
unfoldable pub read_version : Ciphers → List ℕ → ℕ → Blob → ResponseCode × Option Blob
read_version c key file_length b =
    if ltb file_length header_size
    then (ResponseCode.value_corrupted, none)
    else if b.version == 3
    then read_v3 c key file_length b
    else if ltb b.version 3
    then read_v2 c key file_length b
    else check_length file_length b

-- readBlob of a file that was opened and closed: the answer, and the blob if it is set.
unfoldable pub read_file : Ciphers → List ℕ → State → List ℕ → ResponseCode × Option Blob
read_file c key state file =
    let b = raw_blob file in
    let file_length = min_of (length file) raw_size in
    if file_length == 0
    then (ResponseCode.value_corrupted, none)
    else if raw_blob_is_encrypted b && is_locked state
    then (ResponseCode.locked, some b)
    else if raw_blob_is_encrypted b && is_uninitialized state
    then (ResponseCode.uninitialized, none)
    else read_version c key file_length b

-- readBlob; `none` is a file that is not there, and `opened` whether one that is there can be opened
-- and closed.
unfoldable pub read_blob :
    Ciphers → List ℕ → State → Bool → Option (List ℕ) → ResponseCode × Option Blob
read_blob c key state opened none = (ResponseCode.key_not_found, none)
read_blob c key state opened (some file) =
    if opened then read_file c key state file else (ResponseCode.system_error, none)
