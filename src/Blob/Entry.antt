-- ===== src/Blob/Entry.antt =====
-- keystore/blob.cpp: the two files of a key blob entry, that of the key blob and that of its
-- characteristics. A Blob object that holds nothing is `none`.
use system_security.Base.{
  ℕ, ◌+◌, Bool, true, false, not, ◌||◌, Option, none, some, List, [], ◌++◌, ltb, ◌==◌,
  if◌then◌else◌, length,
}
use system_security.Codes.{State, ResponseCode}
use system_security.Blob.{
  Blob, value_size, aes_block_size, current_blob_version, type_key_characteristics,
  type_key_characteristics_cache, zeros,
}
use system_security.Blob.Stored.{Ciphers, write_blob, read_blob}

pub record EntryFiles : Type 0 where
  pub key_file : Option (List ℕ)
  pub characteristics_file : Option (List ℕ)

-- A user's key and state, as a caller found them.
pub record UserKey : Type 0 where
  pub encryption_key : List ℕ
  pub state : State

-- What the random generator and the file system answer to one write: the random bytes, and whether
-- the file is written and renamed.
pub record Write : Type 0 where
  pub random : Option (List ℕ)
  pub stored : Bool

-- And to the two writes of an entry; `unset` is the variable that the source returns unset if it is
-- given neither blob.
pub record Writes : Type 0 where
  pub key_write : Write
  pub characteristics_write : Write
  pub unset : ResponseCode

-- And to a read: whether the two files can be opened, and whether the file of the characteristics is
-- there for hasCharacteristicsBlob.
pub record Reads : Type 0 where
  pub key_opened : Bool
  pub characteristics_opened : Bool
  pub has_characteristics : Bool

abbrev pub code_is_no_error : ResponseCode → Bool
code_is_no_error ResponseCode.no_error = true
code_is_no_error _ = false

-- A file keeps its bytes if it is not written.
abbrev pub new_bytes : Option (List ℕ) → Option (List ℕ) → Option (List ℕ)
new_bytes old none = old
new_bytes old (some bytes) = some bytes

-- The part of writeBlobs for the characteristics, with the answer so far.
unfoldable pub write_characteristics :
    Ciphers → UserKey → Write → ResponseCode → Option Blob → EntryFiles → ResponseCode × EntryFiles
write_characteristics c u w rc none files = (rc, files)
write_characteristics c u w rc (some b) files =
    let (code, bytes) = write_blob c u.encryption_key u.state w.random w.stored b in
    (code, record files { characteristics_file = new_bytes files.characteristics_file bytes })

-- writeBlobs, of an entry that is there.
unfoldable pub write_blobs :
    Ciphers → UserKey → Writes → Option Blob → Option Blob → EntryFiles → ResponseCode × EntryFiles
write_blobs c u w none characteristics files =
    write_characteristics c u w.characteristics_write w.unset characteristics files
write_blobs c u w (some b) characteristics files =
    let (code, bytes) =
      write_blob c u.encryption_key u.state w.key_write.random w.key_write.stored b in
    let files' = record files { key_file = new_bytes files.key_file bytes } in
    if code_is_no_error code
    then write_characteristics c u w.characteristics_write code characteristics files'
    else (code, files')

-- Whether readBlobs goes on to the characteristics.
abbrev pub reads_on : ResponseCode → Bool
reads_on ResponseCode.no_error = true
reads_on ResponseCode.uninitialized = true
reads_on _ = false

-- readBlobs, of an entry that is there.
unfoldable pub read_blobs :
    Ciphers → UserKey → Reads → EntryFiles → ResponseCode × Option Blob × Option Blob
read_blobs c u r files =
    let (code, key_blob) = read_blob c u.encryption_key u.state r.key_opened files.key_file in
    let (_, characteristics) =
      read_blob c u.encryption_key u.state r.characteristics_opened files.characteristics_file in
    (
      code,
      key_blob,
      if reads_on code then (if r.has_characteristics then characteristics else none) else none,
    )

-- What unlink answers.
pub data Unlinked : Type 0 where
  removed no_entry failed : Unlinked

abbrev pub unlink_code : Unlinked → ResponseCode
unlink_code failed = ResponseCode.system_error
unlink_code _ = ResponseCode.no_error

abbrev pub after_unlink : Unlinked → Option (List ℕ) → Option (List ℕ)
after_unlink failed file = file
after_unlink _ file = none

-- deleteBlobs, of an entry that is there.
unfoldable pub delete_blobs : Unlinked → Unlinked → EntryFiles → ResponseCode × EntryFiles
delete_blobs first second files = (
  if code_is_no_error (unlink_code first) then unlink_code second else unlink_code first,
  record files {
    key_file = after_unlink first files.key_file;
    characteristics_file = after_unlink second files.characteristics_file;
  },
)

-- What access answers: the file can be read and written, or one of the errors.
pub data AccessResult : Type 0 where
  accessible missing again other_failure : AccessResult

-- A round of the loop in hasKeyBlob and hasCharacteristicsBlob, with what comes of the next rounds.
abbrev pub access_round : AccessResult → Bool → Bool
access_round accessible next = true
access_round missing next = false
access_round again next = next
access_round other_failure next = false

-- hasKeyBlob and hasCharacteristicsBlob, on the answers to the three calls.
unfoldable pub has_blob : AccessResult → AccessResult → AccessResult → Bool
has_blob first second third = access_round first (access_round second (access_round third false))

-- AuthorizationSet of the support library, with its reading and writing of streams: what
-- Deserialize reads, what it leaves and whether the stream is then bad.
pub record Sets (Param : Type 0) : Type 0 where
  pub deserialize : List ℕ → List Param × List ℕ × Bool
  pub serialize : List Param → List ℕ
  pub union : List Param → List Param → List Param
  pub subtract : List Param → List Param → List Param

module _ {Param : Type 0} (sets : Sets Param) where
  -- getKeyCharacteristics: success, and the two sets.
  unfoldable pub get_key_characteristics : Blob → Bool × List Param × List Param
  get_key_characteristics b =
      let (hw, rest, bad) = sets.deserialize b.value in
      let (sw, _, sw_bad) = sets.deserialize rest in
      if b.blob_type == type_key_characteristics_cache
      then (not (bad || sw_bad), hw, sw)
      else if b.blob_type == type_key_characteristics
      then (not bad, [], hw)
      else (false, [], [])

  -- putKeyCharacteristics into a Blob that holds nothing; `none` is the failure.
  unfoldable pub put_key_characteristics : List Param → List Param → Option Blob
  put_key_characteristics hw sw =
      let bytes = sets.serialize hw ++ sets.serialize sw in
      if ltb (value_size + aes_block_size) (length bytes)
      then none
      else some (record {
        version = current_blob_version;
        blob_type = type_key_characteristics_cache;
        flags = 0;
        info = 0;
        initialization_vector = zeros 16;
        aead_tag = zeros 16;
        value_length = length bytes;
        value = bytes;
      })
