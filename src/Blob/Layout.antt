-- ===== src/Blob/Layout.antt =====
-- keystore/blob.cpp: the bytes of a blob's file, and the buffer that they are read into.
use system_security.Base.{
  ℕ, ◌+◌, ◌^◌, ◌≤◌, ◌<◌, ◌≡◌, refl, sym, ap, ◌∙◌, true, false, ◌&&◌, some, List, ◌++◌, arith,
  length, take, drop, take-append, drop-append, drop-drop, take-all, length-take, length-append,
}
use system_security.Codes.{State, ResponseCode}
use system_security.Blob.{Blob, raw_blob_is_encrypted, min_of, value_size}
use system_security.Blob.Stored.{
  Ciphers, be32, from_be32, raw_blob, raw_size, file_bytes, check_length, read_v3, is_locked,
  is_uninitialized, read_version, read_file, read_blob,
}

-- A blob that writeBlob may be given: of the current version, with its tag and vector in place, and a
-- value and an info that its buffer holds.
pub record Storable (b : Blob) : Type 0 where
  pub version : b.version ≡ 3
  pub flags : b.flags < 256
  pub initialization_vector : length b.initialization_vector ≡ 16
  pub aead_tag : length b.aead_tag ≡ 16
  pub room : b.value_length + b.info ≤ value_size
  pub filled : b.value_length + b.info ≤ length b.value

from_be32-be32 : (n : ℕ) (rest : List ℕ) → n < 2 ^ 32 → from_be32 (be32 n ++ rest) ≡ n
from_be32-be32 n rest h = omega arith

-- The bytes from the tag on, and from the length on.
past_iv :
    (b : Blob) (rest : List ℕ)
    → length b.initialization_vector ≡ 16
    → drop 16 (b.initialization_vector ++ (b.aead_tag ++ rest)) ≡ b.aead_tag ++ rest
past_iv b rest h = drop-append b.initialization_vector (b.aead_tag ++ rest) 16 h

past_tag :
    (b : Blob) (rest : List ℕ)
    → length b.initialization_vector ≡ 16
    → length b.aead_tag ≡ 16
    → drop 32 (b.initialization_vector ++ (b.aead_tag ++ rest)) ≡ rest
past_tag b rest h k =
    sym (drop-drop 16 16 (b.initialization_vector ++ (b.aead_tag ++ rest)))
    ∙ ap (drop 16) (past_iv b rest h)
    ∙ drop-append b.aead_tag rest 16 k

pub past_length :
    (b : Blob) (rest : List ℕ)
    → length b.initialization_vector ≡ 16
    → length b.aead_tag ≡ 16
    → drop 36 (b.initialization_vector ++ (b.aead_tag ++ (be32 b.value_length ++ rest))) ≡ rest
past_length b rest h k =
    sym (drop-drop 32 4 (b.initialization_vector ++ (b.aead_tag ++ (be32 b.value_length ++ rest))))
    ∙ ap (drop 4) (past_tag b (be32 b.value_length ++ rest) h k)

abbrev pub kept : Blob → List ℕ
kept b = take (b.value_length + b.info) b.value

pub length-kept : (b : Blob) → Storable b → length (kept b) ≡ b.value_length + b.info
length-kept b s = length-take (b.value_length + b.info) b.value s.filled

pub take-kept : (b : Blob) → Storable b → take (b.value_length + b.info) (kept b) ≡ kept b
take-kept b s = take-all (b.value_length + b.info) (kept b) (omega (arith, length-kept b s))

short : (b : Blob) → Storable b → length (kept b) ≤ 32784
short b s = omega (arith, length-kept b s, s.room)

small : (b : Blob) → Storable b → b.value_length < 2 ^ 32
small b s = omega (arith, s.room)

-- The buffer after the file of a blob was read.
pub raw_blob-file_bytes :
    (b : Blob) → Storable b → raw_blob (file_bytes b) ≡ record b { value = kept b }
unfolding raw_blob file_bytes
raw_blob-file_bytes b s =
    rw
      (
        take-append b.initialization_vector (b.aead_tag ++ (be32 b.value_length ++ kept b)) 16
            s.initialization_vector,
        past_iv b (be32 b.value_length ++ kept b) s.initialization_vector,
        take-append b.aead_tag (be32 b.value_length ++ kept b) 16 s.aead_tag,
        past_tag b (be32 b.value_length ++ kept b) s.initialization_vector s.aead_tag,
        from_be32-be32 b.value_length (kept b) (small b s),
        past_length b (kept b) s.initialization_vector s.aead_tag,
        take-all 32784 (kept b) (short b s),
      )
      refl

length-file_bytes : (b : Blob) → Storable b → length (file_bytes b) ≡ 40 + (b.value_length + b.info)
unfolding file_bytes
length-file_bytes b s = omega (
  arith,
  length-append b.initialization_vector (b.aead_tag ++ (be32 b.value_length ++ kept b)),
  length-append b.aead_tag (be32 b.value_length ++ kept b),
  length-append (be32 b.value_length) (kept b),
  length-kept b s,
  s.initialization_vector,
  s.aead_tag,
)

pub min_of-raw_size :
    (b : Blob)
    → Storable b
    → min_of (length (file_bytes b)) raw_size ≡ 40 + (b.value_length + b.info)
min_of-raw_size b s = ground (arith, length-file_bytes b s, s.room)

-- What is left of readBlob for a blob's file, if the user's state lets it be read.
pub read_blob-file_bytes :
    (c : Ciphers) (key : List ℕ) (state : State) (b : Blob)
    → Storable b
    → (raw_blob_is_encrypted b && is_locked state) ≡ false
    → (raw_blob_is_encrypted b && is_uninitialized state) ≡ false
    → read_blob c key state true (some (file_bytes b))
      ≡ read_v3 c key (40 + (b.value_length + b.info)) (record b { value = kept b })
unfolding read_blob read_file read_version raw_blob_is_encrypted
read_blob-file_bytes c key state b s l u =
    rw (raw_blob-file_bytes b s, min_of-raw_size b s) (ground (arith, s.version, l, u))

pub check_length-kept :
    (b : Blob)
    → Storable b
    → (v : List ℕ)
    → check_length (40 + (b.value_length + b.info)) (record b { value = v })
      ≡ (ResponseCode.no_error, some (record b { value = v }))
unfolding check_length
check_length-kept b s v = ground (arith, s.version, s.room)
