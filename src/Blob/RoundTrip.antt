-- ===== src/Blob/RoundTrip.antt =====
-- keystore/blob.cpp: what writeBlob writes, readBlob reads.
pub use system_security.Blob.Layout.{Storable}
use system_security.Base.{
  ℕ, ◌+◌, ◌≡◌, refl, sym, ◌∙◌, Bool, true, false, ◌||◌, some, List, ◌++◌, arith, ◌==◌,
  if◌then◌else◌, length, take, drop, inl, inr, Bool-cases, take-append, drop-append, length-take,
  length-append, length-drop, take-add,
}
use system_security.Codes.{State, ResponseCode}
use system_security.Blob.{Blob, zeros, raw_blob_is_encrypted, is_encrypted, is_super_encrypted}
use system_security.Blob.Stored.{
  Ciphers, file_bytes, aes_gcm_encrypt, aes_gcm_decrypt, store_blob, encrypt_value, write_encrypted,
  write_blob, read_v3, read_blob,
}
use system_security.Blob.Flags.{raw_blob_is_encrypted_lem}
use system_security.Blob.Layout.{kept, take-kept, read_blob-file_bytes, check_length-kept}

-- The documented behaviour of AES-GCM: what is encrypted is decrypted with the same key and vector
-- under its tag, and the cipher text is as long as the text.
pub record GcmLaws (c : Ciphers) : Type 0 where
  pub decrypts :
      (small : Bool) (key iv plain : List ℕ)
      → c.gcm_decrypt small key iv
          (c.gcm_encrypt small key iv plain).1
          (c.gcm_encrypt small key iv plain).0
        ≡ some plain
  pub as_long :
      (small : Bool) (key iv plain : List ℕ)
      → length (c.gcm_encrypt small key iv plain).0 ≡ length plain
  pub tag_size :
      (small : Bool) (key iv plain : List ℕ) → length (c.gcm_encrypt small key iv plain).1 ≡ 16

-- The same blob, as far as its operations show it.
pub record Same (a b : Blob) : Type 0 where
  pub version : a.version ≡ b.version
  pub blob_type : a.blob_type ≡ b.blob_type
  pub flags : a.flags ≡ b.flags
  pub info : a.info ≡ b.info
  pub value_length : a.value_length ≡ b.value_length
  pub value : take (a.value_length + a.info) a.value ≡ take (b.value_length + b.info) b.value

-- The answer to a read is the blob that was written.
abbrev pub ReadsBack : Ciphers → List ℕ → State → Blob → List ℕ → Type 0
ReadsBack c key state b file =
    (b' : Blob) × (read_blob c key state true (some file) ≡ (ResponseCode.no_error, some b'))
    × Same b' b

read_v3-plain :
    (c : Ciphers) (key : List ℕ) (b : Blob)
    → Storable b
    → raw_blob_is_encrypted b ≡ false
    → read_v3 c key (40 + (b.value_length + b.info)) (record b { value = kept b })
      ≡ (ResponseCode.no_error, some (record b { value = kept b }))
unfolding read_v3 raw_blob_is_encrypted
read_v3-plain c key b s e = rw e (check_length-kept b s (kept b))

plain-ReadsBack :
    (c : Ciphers) (key : List ℕ) (state : State) (b : Blob)
    → Storable b
    → raw_blob_is_encrypted b ≡ false
    → ReadsBack c key state b (file_bytes b)
plain-ReadsBack c key state b s e = (
  record b { value = kept b },
  read_blob-file_bytes c key state b s (ground (arith, e)) (ground (arith, e))
      ∙ read_v3-plain c key b s e,
  record {
    version = refl;
    blob_type = refl;
    flags = refl;
    info = refl;
    value_length = refl;
    value = take-kept b s;
  },
)

-- What gcm_encrypt makes of the value of a blob.
abbrev pub sealed : Ciphers → List ℕ → List ℕ → Blob → List ℕ × List ℕ
sealed c key random b =
    c.gcm_encrypt (length key == 16) key (take 12 (random ++ zeros 4)) (take b.value_length b.value)

length-value : (b : Blob) → Storable b → length (take b.value_length b.value) ≡ b.value_length
length-value b s = length-take b.value_length b.value (omega (arith, s.filled))

pub length-sealed :
    (c : Ciphers) (key random : List ℕ) (b : Blob)
    → GcmLaws c
    → Storable b
    → length (sealed c key random b).0 ≡ b.value_length
length-sealed c key random b g s = g.as_long _ _ _ _ ∙ length-value b s

pub encrypt_value-Storable :
    (c : Ciphers) (key random : List ℕ) (b : Blob)
    → GcmLaws c
    → Storable b
    → length random ≡ 12
    → Storable (encrypt_value b random (sealed c key random b))
unfolding encrypt_value
encrypt_value-Storable c key random b g s l = record {
  version = s.version;
  flags = s.flags;
  initialization_vector = omega (arith, length-append random (zeros 4), l);
  aead_tag = g.tag_size _ _ _ _;
  room = s.room;
  filled = omega (
    arith,
    length-append (sealed c key random b).0 (drop b.value_length b.value),
    length-sealed c key random b g s,
    length-drop b.value_length b.value,
    s.filled,
  );
}

-- The parts of the buffer that the file holds: the cipher text and the info.
kept-encrypt_value :
    (c : Ciphers) (key random : List ℕ) (b : Blob)
    → GcmLaws c
    → Storable b
    → kept (encrypt_value b random (sealed c key random b))
      ≡ (sealed c key random b).0 ++ take b.info (drop b.value_length b.value)
unfolding encrypt_value
kept-encrypt_value c key random b g s =
    let x = (sealed c key random b).0 in
    let d = drop b.value_length b.value in
    let l = length-sealed c key random b g s in
    take-add b.value_length b.info (x ++ d)
    ∙ rw (take-append x d b.value_length l, drop-append x d b.value_length l) refl

aes_gcm_decrypt-sealed :
    (c : Ciphers) (key random : List ℕ) (b : Blob)
    → GcmLaws c
    → Storable b
    → aes_gcm_decrypt c (sealed c key random b).0 key (random ++ zeros 4) (sealed c key random b).1
      ≡ some (take b.value_length b.value)
unfolding aes_gcm_decrypt
aes_gcm_decrypt-sealed c key random b g s =
    rw
      (
        aes_gcm_decrypt,
        g.decrypts (length key == 16) key (take 12 (random ++ zeros 4))
            (take b.value_length b.value),
      )
      (ground (arith, length-sealed c key random b g s, length-value b s))

-- What aes_gcm_encrypt is asked for.
aes_gcm_encrypt-sealed :
    (c : Ciphers) (key random : List ℕ) (b : Blob)
    → GcmLaws c
    → Storable b
    → aes_gcm_encrypt c (take b.value_length b.value) key (random ++ zeros 4)
      ≡ some (sealed c key random b)
unfolding aes_gcm_encrypt
aes_gcm_encrypt-sealed c key random b g s =
    ground (arith, length-sealed c key random b g s, length-value b s)

-- The decrypted value of the blob that was sealed.
opened_lem :
    (c : Ciphers) (key random : List ℕ) (b : Blob)
    → GcmLaws c
    → Storable b
    → (let w = encrypt_value b random (sealed c key random b) in
        (aes_gcm_decrypt c
            (take b.value_length (kept w))
            key
            (random ++ zeros 4)
            (sealed c key random b).1
          ≡ some (take b.value_length b.value))
        × (take b.value_length b.value ++ drop b.value_length (kept w) ≡ kept b))
opened_lem c key random b g s =
    let x = (sealed c key random b).0 in
    let d = take b.info (drop b.value_length b.value) in
    let l = length-sealed c key random b g s in
    (
      rw (kept-encrypt_value c key random b g s, take-append x d b.value_length l)
          (aes_gcm_decrypt-sealed c key random b g s),
      rw (kept-encrypt_value c key random b g s, drop-append x d b.value_length l)
          (sym (take-add b.value_length b.info b.value)),
    )

read_v3-sealed :
    (c : Ciphers) (key random : List ℕ) (b : Blob)
    → GcmLaws c
    → Storable b
    → length random ≡ 12
    → raw_blob_is_encrypted b ≡ true
    → (let w = encrypt_value b random (sealed c key random b) in
        read_v3 c key (40 + (b.value_length + b.info)) (record w { value = kept w })
        ≡ (ResponseCode.no_error, some (record w { value = kept b })))
unfolding read_v3 raw_blob_is_encrypted encrypt_value
read_v3-sealed c key random b g s n e =
    let w = encrypt_value b random (sealed c key random b) in
    let o = opened_lem c key random b g s in
    rw (e, o.0, o.1) (check_length-kept w (encrypt_value-Storable c key random b g s n) (kept b))

sealed-ReadsBack :
    (c : Ciphers) (key random : List ℕ) (b : Blob)
    → GcmLaws c
    → Storable b
    → length random ≡ 12
    → raw_blob_is_encrypted b ≡ true
    → ReadsBack c key State.no_error b (file_bytes (encrypt_value b random (sealed c key random b)))
unfolding encrypt_value raw_blob_is_encrypted
sealed-ReadsBack c key random b g s n e =
    let w = encrypt_value b random (sealed c key random b) in
    (
      record w { value = kept b },
      read_blob-file_bytes c key State.no_error w (encrypt_value-Storable c key random b g s n)
            (ground (arith, e)) (ground (arith, e))
          ∙ read_v3-sealed c key random b g s n e,
      record {
        version = refl;
        blob_type = refl;
        flags = refl;
        info = refl;
        value_length = refl;
        value = take-kept b s;
      },
    )

-- The way writeBlob takes, for the blobs that it encrypts and the others.
unfoldable pub stored_form : Ciphers → List ℕ → List ℕ → Blob → Blob
stored_form c key random b =
    if raw_blob_is_encrypted b then encrypt_value b random (sealed c key random b) else b

pub write_blob-stored_form :
    (c : Ciphers) (key random : List ℕ) (b : Blob)
    → GcmLaws c
    → Storable b
    → write_blob c key State.no_error (some random) true b
      ≡ (ResponseCode.no_error, some (file_bytes (stored_form c key random b)))
unfolding write_blob write_encrypted store_blob stored_form
write_blob-stored_form c key random b g s =
    let e = raw_blob_is_encrypted_lem b s.flags in
    elim (Bool-cases (is_encrypted b || is_super_encrypted b)) [
      | inl t ↦ rw (e, t, aes_gcm_encrypt-sealed c key random b g s) refl
      | inr f ↦ rw (e, f) refl
    ]

pub stored_form-ReadsBack :
    (c : Ciphers) (key random : List ℕ) (b : Blob)
    → GcmLaws c
    → Storable b
    → length random ≡ 12
    → ReadsBack c key State.no_error b (file_bytes (stored_form c key random b))
unfolding stored_form
stored_form-ReadsBack c key random b g s n = elim (Bool-cases (raw_blob_is_encrypted b)) [
  | inl e ↦ rw e (sealed-ReadsBack c key random b g s n e)
  | inr e ↦ rw e (plain-ReadsBack c key State.no_error b s e)
]

-- For a cipher that keeps its documented laws, a blob with 12 bytes of randomness that writeBlob
-- stores for an unlocked user is written, whatever its flags, and readBlob answers with the same
-- blob from the file and the same key.
pub write_blob-read_blob :
    (c : Ciphers) (key random : List ℕ) (b : Blob)
    → GcmLaws c
    → Storable b
    → length random ≡ 12
    → (file : List ℕ) × (write_blob c key State.no_error (some random) true b
        ≡ (ResponseCode.no_error, some file))
      × ReadsBack c key State.no_error b file
write_blob-read_blob c key random b g s n = (
  file_bytes (stored_form c key random b),
  write_blob-stored_form c key random b g s,
  stored_form-ReadsBack c key random b g s n,
)
