-- ===== src/Blob.antt =====
-- keystore/blob.h and blob.cpp: Blob, the content of a key blob, in memory and in its file. The
-- buffer of a blob is the list of the bytes that were written to it; what follows is 0. The ciphers
-- of the SSL library are a record of parameters.
pub mod Stored
pub mod Cases
pub mod Flags
pub mod Reads
pub mod Layout
pub mod RoundTrip
pub mod Tail
pub mod Fresh
pub mod Entry
use system_security.Base.{
  ℕ, zero, suc, ◌+◌, ◌-◌, ◌*◌, ◌/◌, ◌%◌, ◌^◌, Bool, true, false, not, ◌&&◌, ◌||◌, Option, none,
  some, List, [], ◌∷◌, ◌++◌, ltb, leb, ◌==◌, if◌then◌else◌, length, take, drop, get_elem?, bit_and,
  bit_or,
}
use system_security.Codes.{
  State, ResponseCode, flag_none, flag_encrypted, flag_fallback, flag_super_encrypted,
  flag_critical_to_device_encryption, flag_strongbox,
}
use system_security.SecurityLevels.{SecurityLevel, flags_to_security_level, security_level_to_flags}

-- kValueSize
abbrev pub value_size : ℕ
value_size = 32768

-- AES_BLOCK_SIZE
abbrev pub aes_block_size : ℕ
aes_block_size = 16

-- CURRENT_BLOB_VERSION
abbrev pub current_blob_version : ℕ
current_blob_version = 3

-- BlobType, as the byte that the blob holds.
abbrev pub type_any : ℕ
type_any = 0

abbrev pub type_generic : ℕ
type_generic = 1

abbrev pub type_master_key : ℕ
type_master_key = 2

abbrev pub type_key_pair : ℕ
type_key_pair = 3

abbrev pub type_keymaster_10 : ℕ
type_keymaster_10 = 4

abbrev pub type_key_characteristics : ℕ
type_key_characteristics = 5

abbrev pub type_key_characteristics_cache : ℕ
type_key_characteristics_cache = 6

abbrev pub type_master_key_aes256 : ℕ
type_master_key_aes256 = 7

-- blobv3, with the length in the host's order.
pub record Blob : Type 0 where
  pub version : ℕ
  pub blob_type : ℕ
  pub flags : ℕ
  pub info : ℕ
  pub initialization_vector : List ℕ
  pub aead_tag : List ℕ
  pub value_length : ℕ
  pub value : List ℕ

abbrev pub zeros : ℕ → List ℕ
zeros zero = []
zeros (suc n) = 0 ∷ zeros n

abbrev pub min_of : ℕ → ℕ → ℕ
min_of a b = if leb a b then a else b

abbrev pub is_master_key_type : ℕ → Bool
is_master_key_type t = (t == type_master_key) || (t == type_master_key_aes256)

-- The constructor, of a value, an info of at most 255 bytes and a type.
unfoldable pub new_blob : List ℕ → List ℕ → ℕ → Blob
new_blob value info blob_type =
    let value_length = min_of (length value) value_size in
    let info_length = min_of (length info) (value_size - value_length) in
    record {
      version = current_blob_version;
      blob_type = blob_type;
      flags = if is_master_key_type blob_type then flag_encrypted else flag_none;
      info = info_length;
      initialization_vector = zeros 16;
      aead_tag = zeros 16;
      value_length = value_length;
      value = take value_length value ++ take info_length info;
    }

-- getValue, of getLength bytes.
unfoldable pub get_value : Blob → List ℕ
get_value b = take b.value_length b.value

-- getInfo, of getInfoLength bytes.
unfoldable pub get_info : Blob → List ℕ
get_info b = take b.info (drop b.value_length b.value)

abbrev pub has_flag : ℕ → ℕ → Bool
has_flag flags flag = not (bit_and flags flag == 0)

-- rawBlobIsEncrypted
unfoldable pub raw_blob_is_encrypted : Blob → Bool
raw_blob_is_encrypted b =
    ltb b.version 2 || has_flag b.flags (flag_encrypted + flag_super_encrypted)

unfoldable pub is_encrypted : Blob → Bool
is_encrypted b = ltb b.version 2 || has_flag b.flags flag_encrypted

unfoldable pub is_super_encrypted : Blob → Bool
is_super_encrypted b = has_flag b.flags flag_super_encrypted

unfoldable pub is_critical_to_device_encryption : Blob → Bool
is_critical_to_device_encryption b = has_flag b.flags flag_critical_to_device_encryption

unfoldable pub is_fallback : Blob → Bool
is_fallback b = has_flag b.flags flag_fallback

-- setFlag, on the byte of flags.
unfoldable pub set_flag : ℕ → Bool → ℕ → ℕ
set_flag flags on flag = if on then bit_or flags flag else bit_and flags (255 - flag)

unfoldable pub set_encrypted : Blob → Bool → Blob
set_encrypted b encrypted = record b { flags = set_flag b.flags encrypted flag_encrypted }

unfoldable pub set_super_encrypted : Blob → Bool → Blob
set_super_encrypted b super_encrypted = record b {
  flags = set_flag b.flags super_encrypted flag_super_encrypted;
}

unfoldable pub set_critical_to_device_encryption : Blob → Bool → Blob
set_critical_to_device_encryption b critical = record b {
  flags = set_flag b.flags critical flag_critical_to_device_encryption;
}

unfoldable pub set_fallback : Blob → Bool → Blob
set_fallback b fallback = record b {
  flags = if fallback then bit_or b.flags flag_fallback else bit_and b.flags (255 - flag_fallback);
}

unfoldable pub set_version : Blob → ℕ → Blob
set_version b version = record b { version = version }

unfoldable pub get_security_level : Blob → SecurityLevel
get_security_level b = flags_to_security_level b.flags

unfoldable pub set_security_level : Blob → SecurityLevel → Blob
set_security_level b level = record b {
  flags =
      bit_or (bit_and b.flags (255 - (flag_fallback + flag_strongbox)))
        (security_level_to_flags level);
}
