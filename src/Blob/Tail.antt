-- ===== src/Blob/Tail.antt =====
-- keystore/blob.cpp: the info of a blob, at the end of the file that writeBlob makes of it.
use system_security.Base.{
  ℕ, suc, ◌+◌, ◌≤◌, ◌≡◌, refl, sym, ap, ◌∙◌, List, ◌++◌, arith, length, take, drop, drop-append,
  drop-drop, length-take, take-add, inl, inr, Bool-cases,
}
use system_security.Blob.{Blob, min_of, raw_blob_is_encrypted}
use system_security.Blob.Stored.{Ciphers, be32, file_bytes, raw_blob, raw_size, encrypt_value}
use system_security.Blob.Layout.{Storable, kept, past_length, raw_blob-file_bytes, min_of-raw_size}
use system_security.Blob.RoundTrip.{
  GcmLaws, stored_form, sealed, encrypt_value-Storable, length-sealed,
}

-- The info of a blob.
abbrev pub info_bytes : Blob → List ℕ
info_bytes b = take b.info (drop b.value_length b.value)

drop-take_add :
    (m n : ℕ) (xs : List ℕ) → m ≤ length xs → drop m (take (m + n) xs) ≡ take n (drop m xs)
drop-take_add m n xs h =
    ap (drop m) (take-add m n xs)
    ∙ drop-append (take m xs) (take n (drop m xs)) m (length-take m xs h)

pub stored_form-Storable :
    (c : Ciphers) (key random : List ℕ) (b : Blob)
    → GcmLaws c
    → Storable b
    → length random ≡ 12
    → Storable (stored_form c key random b)
unfolding stored_form
stored_form-Storable c key random b g s n = elim (Bool-cases (raw_blob_is_encrypted b)) [
  | inl e ↦ rw e (encrypt_value-Storable c key random b g s n)
  | inr e ↦ rw e s
]

-- What encryption leaves of a blob.
pub record Alike (a b : Blob) : Type 0 where
  pub blob_type : a.blob_type ≡ b.blob_type
  pub info : a.info ≡ b.info
  pub value_length : a.value_length ≡ b.value_length
  pub bytes : info_bytes a ≡ info_bytes b

stored_form-Alike :
    (c : Ciphers) (key random : List ℕ) (b : Blob)
    → GcmLaws c
    → Storable b
    → Alike (stored_form c key random b) b
unfolding stored_form encrypt_value
stored_form-Alike c key random b g s = elim (Bool-cases (raw_blob_is_encrypted b)) [
  | inl e ↦ rw e (record {
    blob_type = refl;
    info = refl;
    value_length = refl;
    bytes = ap (take b.info) (
        drop-append (sealed c key random b).0 (drop b.value_length b.value) b.value_length
          (length-sealed c key random b g s));
  })
  | inr e ↦ rw e (record { blob_type = refl; info = refl; value_length = refl; bytes = refl })
]

past_four : (n : ℕ) → 40 + n ≡ suc (suc (suc (suc (36 + n))))
past_four n = omega arith

-- The end of a blob's file.
file_bytes-tail : (b : Blob) → Storable b → drop (40 + b.value_length) (file_bytes b) ≡ info_bytes b
unfolding file_bytes
file_bytes-tail b s =
    ap (λ (n : ℕ). drop n (file_bytes b)) (past_four b.value_length)
    ∙ sym (
        drop-drop 36 b.value_length
          (b.initialization_vector ++ (b.aead_tag ++ (be32 b.value_length ++ kept b))))
    ∙ ap (drop b.value_length) (past_length b (kept b) s.initialization_vector s.aead_tag)
    ∙ drop-take_add b.value_length b.info b.value (omega (arith, s.filled))

-- What the file of a blob shows of it before it is decrypted.
pub record Shows (file : List ℕ) (b : Blob) : Type 0 where
  pub blob_type : (raw_blob file).blob_type ≡ b.blob_type
  pub info : (raw_blob file).info ≡ b.info
  pub read_length : min_of (length file) raw_size ≡ 40 + (b.value_length + b.info)
  pub tail : drop (40 + b.value_length) file ≡ info_bytes b

pub stored_form-Shows :
    (c : Ciphers) (key random : List ℕ) (b : Blob)
    → GcmLaws c
    → Storable b
    → length random ≡ 12
    → Shows (file_bytes (stored_form c key random b)) b
stored_form-Shows c key random b g s n =
    let w = stored_form c key random b in
    let ok = stored_form-Storable c key random b g s n in
    let a = stored_form-Alike c key random b g s in
    record {
      blob_type = ap (λ (x : Blob). x.blob_type) (raw_blob-file_bytes w ok) ∙ a.blob_type;
      info = ap (λ (x : Blob). x.info) (raw_blob-file_bytes w ok) ∙ a.info;
      read_length = min_of-raw_size w ok ∙ omega (arith, a.value_length, a.info);
      tail =
          ap (λ (m : ℕ). drop (40 + m) (file_bytes w)) (sym a.value_length)
          ∙ file_bytes-tail w ok
          ∙ a.bytes;
    }
