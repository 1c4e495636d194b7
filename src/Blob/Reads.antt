-- ===== src/Blob/Reads.antt =====
-- keystore/blob.cpp: readBlob never hands out a blob whose value and info leave its buffer, whatever
-- bytes the file has.
use system_security.Base.{
  ℕ, ◌+◌, ◌-◌, ◌^◌, ◌%◌, ◌≤◌, Bool, not, ◌&&◌, ◌||◌, Option, none, some, List, ◌++◌, arith, ltb,
  leb, ◌==◌, length, take, inl, inr, Bool-cases,
}
use system_security.Codes.{State, ResponseCode, flag_super_encrypted}
use system_security.Blob.{Blob, raw_blob_is_encrypted, has_flag, min_of}
use system_security.Blob.Stored.{
  Ciphers, be32, raw_blob, raw_size, header_size, check_length, decrypt_failure, decrypted_v3,
  read_v3, bytes_eq, check_digest, read_v2, is_locked, is_uninitialized, read_version, read_file,
  read_blob,
}

-- The value and the info lie within the file and within the buffer, with a block to spare.
abbrev pub Within : ℕ → Blob → Type 0
Within file_length b =
    (b.value_length + b.info + 40 ≤ file_length) × (b.value_length + b.info + 16 ≤ 32784)

-- NO_ERROR comes with a blob that is within; what comes with LOCKED is not looked at.
abbrev pub Answered : ℕ → ResponseCode × Option Blob → Type 0
Answered n (ResponseCode.no_error, some b) = Within n b
Answered n (ResponseCode.no_error, none) = ⊥
Answered n (other, o) = Unit {0}

check_length-Answered : (n : ℕ) (b : Blob) → Answered n (check_length n b)
unfolding check_length
check_length-Answered n b =
    elim (Bool-cases (
      leb (2 ^ 31) b.value_length
      || (ltb n (b.value_length + b.info + header_size)
          || ltb 32784 (b.value_length + b.info + 16)))) [
            | inl e ↦ rw e tt
            | inr e ↦ elim (Bool-cases (not (b.info == 0) && ltb b.version 3)) [
              | inl f ↦ rw (e, f) (ground arith, ground arith)
              | inr f ↦ rw (e, f) (ground arith, ground arith)
            ]
          ]

decrypt_failure-Answered : (n : ℕ) (b : Blob) → Answered n (decrypt_failure b, none)
unfolding decrypt_failure
decrypt_failure-Answered n b = elim (Bool-cases (has_flag b.flags flag_super_encrypted)) [
  | inl e ↦ rw e tt
  | inr e ↦ rw e tt
]

decrypted_v3-Answered : (n : ℕ) (b : Blob) (o : Option (List ℕ)) → Answered n (decrypted_v3 n b o)
decrypted_v3-Answered n b none = decrypt_failure-Answered n b
decrypted_v3-Answered n b (some plain) = check_length-Answered n _

read_v3-Answered : (c : Ciphers) (key : List ℕ) (n : ℕ) (b : Blob) → Answered n (read_v3 c key n b)
unfolding read_v3
read_v3-Answered c key n b = elim (Bool-cases (raw_blob_is_encrypted b)) [
  | inl e ↦ rw e (decrypted_v3-Answered n b _)
  | inr e ↦ rw e (check_length-Answered n b)
]

check_digest-Answered : (c : Ciphers) (n m : ℕ) (b : Blob) → Answered n (check_digest c n m b)
unfolding check_digest
check_digest-Answered c n m b =
    elim (Bool-cases
      (bytes_eq b.aead_tag (c.md5 (take (m - 16) (be32 b.value_length ++ b.value))))) [
        | inl e ↦ rw e (check_length-Answered n b)
        | inr e ↦ rw e tt
      ]

read_v2-Answered : (c : Ciphers) (key : List ℕ) (n : ℕ) (b : Blob) → Answered n (read_v2 c key n b)
unfolding read_v2
read_v2-Answered c key n b = elim (Bool-cases (ltb n (20 + b.info))) [
  | inl e ↦ rw e tt
  | inr e ↦ elim (Bool-cases (raw_blob_is_encrypted b)) [
    | inr f ↦ rw (e, f) (check_length-Answered n b)
    | inl f ↦ elim (Bool-cases ((n - 20 - b.info) % 16 == 0)) [
      | inl g ↦ rw (e, f, g) (check_digest-Answered c n _ _)
      | inr g ↦ rw (e, f, g) tt
    ]
  ]
]

read_version-Answered :
    (c : Ciphers) (key : List ℕ) (n : ℕ) (b : Blob) → Answered n (read_version c key n b)
unfolding read_version
read_version-Answered c key n b = elim (Bool-cases (ltb n header_size)) [
  | inl e ↦ rw e tt
  | inr e ↦ elim (Bool-cases (b.version == 3)) [
    | inl f ↦ rw (e, f) (read_v3-Answered c key n b)
    | inr f ↦ elim (Bool-cases (ltb b.version 3)) [
      | inl g ↦ rw (e, f, g) (read_v2-Answered c key n b)
      | inr g ↦ rw (e, f, g) (check_length-Answered n b)
    ]
  ]
]

read_file-Answered :
    (c : Ciphers) (key : List ℕ) (state : State) (file : List ℕ)
    → Answered (min_of (length file) raw_size) (read_file c key state file)
unfolding read_file
read_file-Answered c key state file =
    let n = min_of (length file) raw_size in
    let b = raw_blob file in
    elim (Bool-cases (n == 0)) [
      | inl e ↦ rw e tt
      | inr e ↦ elim (Bool-cases (raw_blob_is_encrypted b && is_locked state)) [
        | inl f ↦ rw (e, f) tt
        | inr f ↦ elim (Bool-cases (raw_blob_is_encrypted b && is_uninitialized state)) [
          | inl g ↦ rw (e, f, g) tt
          | inr g ↦ rw (e, f, g) (read_version-Answered c key n b)
        ]
      ]
    ]

-- Whatever the file holds, with whatever key and in whatever state of the user, readBlob answers
-- NO_ERROR only with a blob whose value and info lie within the file and within the blob's buffer.
pub read_blob-Answered :
    (c : Ciphers) (key : List ℕ) (state : State) (opened : Bool) (file : List ℕ)
    → Answered (min_of (length file) raw_size) (read_blob c key state opened (some file))
unfolding read_blob
read_blob-Answered c key state opened file = elim (Bool-cases opened) [
  | inl e ↦ rw e (read_file-Answered c key state file)
  | inr e ↦ rw e tt
]
