-- ===== src/KeyStore/Storage.antt =====
-- keystore/KeyStore.cpp: what get answers after put, and when it never answers.

use system_security.Base.{
  ℕ, ◌≡◌, ◌↔◌, refl, ◌∙◌, inl, inr, true, Option, none, some, List, [], ◌∷◌, arith, ◌==◌, ==_iff,
  length, Bool-cases,
}
use system_security.Base.Assoc.{find_key}
use system_security.Codes.{State, ResponseCode}
use system_security.KeyBlob.{KeyBlobEntry, entry_eq}
use system_security.Text.Search.{text_eq_iff}
use system_security.Permissions.{get_user_id}
use system_security.UserState.{UserState, get_user_state}
use system_security.Blob.{Blob}
use system_security.Blob.Stored.{write_blob, read_blob}
use system_security.Blob.Entry.{
  EntryFiles, UserKey, Write, Writes, read_blobs, write_blobs, write_characteristics,
}
use system_security.Blob.RoundTrip.{Storable, GcmLaws, Same, write_blob-read_blob}
use system_security.KeyStore.{
  KeyStore, World, Got, files_of, set_files, user_of, key_of, put, put_holding, stored_again,
  is_held, upgrade_blob, got, get,
}

-- The blobs that `get` reads.
abbrev pub blobs_read : World → KeyStore → KeyBlobEntry → Got
blobs_read w ks e =
    let found = user_of w ks (get_user_id w.aids e.uid) in
    read_blobs w.ciphers (key_of found.0) (w.reads e) (files_of e found.1.entries)

-- A key blob of version 1 was read without an error.
abbrev pub IsOld : Got → Type 0
IsOld (ResponseCode.no_error, some b, characteristics) = b.version ≡ 1
IsOld _ = ⊥

held_itself : (user_id : ℕ) → is_held user_id (user_id ∷ []) ≡ true
held_itself user_id = ground arith

got_iff :
    (w : World) (key : UserKey) (e : KeyBlobEntry) (ks : KeyStore) (g : Got)
    → ((got w (get_user_id w.aids e.uid ∷ []) key e ks g).0 ≡ none) ↔ IsOld g
unfolding got upgrade_blob put_holding stored_again
got_iff w key e ks (ResponseCode.no_error, some b, characteristics) =
    let v = ==_iff b.version 1 in
    let held = held_itself (get_user_id w.aids e.uid) in
    elim (Bool-cases (b.version == 1)) [
      | inl old ↦ (λ h. v.0 old, λ h. ground (arith, old, held))
      | inr new ↦ (λ h. absurd (ground (arith, new, h)), λ h. absurd (ground (arith, new, v.1 h)))
    ]
got_iff w key e ks (ResponseCode.no_error, none, characteristics) = (λ h. absurd cc, λ h. absurd h)
got_iff w key e ks (_, o, characteristics) = (λ h. absurd cc, λ h. absurd h)

-- KeyStore::get never answers exactly if the entry's key blob is read without an error and is of
-- version 1: such a blob is upgraded and stored again by put, which asks for the lock of the user's
-- state that get holds.
pub get-waits_iff :
    (w : World) (ks : KeyStore) (e : KeyBlobEntry)
    → ((get w ks e).0 ≡ none) ↔ IsOld (blobs_read w ks e)
unfolding get
get-waits_iff w ks e =
    let found = user_of w ks (get_user_id w.aids e.uid) in
    got_iff w (key_of found.0) e found.1 (blobs_read w ks e)

entry_eq_refl : (e : KeyBlobEntry) → entry_eq e e ≡ true
unfolding entry_eq
entry_eq_refl e =
    ground (arith, (text_eq_iff e.alias e.alias).1 refl, (text_eq_iff e.user_dir e.user_dir).1 refl)

files_of-set_files :
    (e : KeyBlobEntry) (files : EntryFiles) (entries : List (KeyBlobEntry × EntryFiles))
    → files_of e (set_files e files entries) ≡ files
unfolding files_of set_files
files_of-set_files e files [] = rw (files_of, set_files, entry_eq_refl e) refl
files_of-set_files e files ((f, old) ∷ rest) = elim (Bool-cases (entry_eq f e)) [
  | inl same ↦ rw (set_files, same, files_of, same) refl
  | inr other ↦ rw (set_files, other, files_of, other) (files_of-set_files e files rest)
]

-- The state of a user who is known.
user_of_known :
    (w : World) (ks : KeyStore) (user_id : ℕ) (u : UserState)
    → find_key user_id ks.user_states ≡ some u
    → user_of w ks user_id ≡ (u, ks)
unfolding user_of get_user_state
user_of_known w ks user_id u h = rw (user_of, get_user_state, h) refl

-- How the random generator and the file system let the key file be written.
abbrev pub writes_with : List ℕ → Write → ResponseCode → Writes
writes_with random rest unset = record {
  key_write = record { random = some random; stored = true };
  characteristics_write = rest;
  unset = unset;
}

got_new :
    (w : World) (held : List ℕ) (key : UserKey) (e : KeyBlobEntry) (ks : KeyStore) (b : Blob)
    (characteristics : Option Blob)
    → b.version ≡ 3
    → (got w held key e ks (ResponseCode.no_error, some b, characteristics)).0
      ≡ some (ResponseCode.no_error, some b, characteristics)
unfolding got upgrade_blob
got_new w held key e ks b characteristics v = ground (arith, v)

-- What a store holds after put, for a known user whose blob was written.
put_stored :
    (w : World) (ks : KeyStore) (e : KeyBlobEntry) (u : UserState) (b : Blob) (random file : List ℕ)
    (rest : Write) (unset : ResponseCode)
    → find_key (get_user_id w.aids e.uid) ks.user_states ≡ some u
    → write_blob w.ciphers u.master_key u.state (some random) true b
      ≡ (ResponseCode.no_error, some file)
    → put w ks (writes_with random rest unset) e (some b) none ≡ (
      ResponseCode.no_error,
      record ks {
        entries = set_files e (record (files_of e ks.entries) { key_file = some file }) ks.entries;
      },
    )
unfolding put write_blobs write_characteristics
put_stored w ks e u b random file rest unset known wrote =
    rw (put, user_of_known w ks (get_user_id w.aids e.uid) u known, write_blobs, wrote) refl

-- What get answers from a key file that is read without an error.
get_stored :
    (w : World) (ks : KeyStore) (e : KeyBlobEntry) (u : UserState) (b : Blob) (file : List ℕ)
    (files : EntryFiles)
    → find_key (get_user_id w.aids e.uid) ks.user_states ≡ some u
    → files_of e ks.entries ≡ record files { key_file = some file }
    → read_blob w.ciphers u.master_key u.state (w.reads e).key_opened (some file)
      ≡ (ResponseCode.no_error, some b)
    → b.version ≡ 3
    → (characteristics : Option Blob) × ((get w ks e).0
        ≡ some (ResponseCode.no_error, some b, characteristics))
unfolding get read_blobs
get_stored w ks e u b file files known holds read v = (
  (blobs_read w ks e).2,
  rw (get, user_of_known w ks (get_user_id w.aids e.uid) u known, holds, read_blobs, read)
      (got_new w _ _ e _ b _ v),
)

-- What put stores, get finds: for a cipher that keeps its documented laws, a known user who is
-- unlocked, and files that can be written with 12 random bytes and opened, a blob of the current version
-- that fits its buffer, put without characteristics, is stored with NO_ERROR; and get then answers
-- NO_ERROR with the same blob, whatever its flags, and with some characteristics or none, whatever the
-- entry's files held before.
pub put-get :
    (w : World) (ks : KeyStore) (e : KeyBlobEntry) (u : UserState) (b : Blob) (random : List ℕ)
    (rest : Write) (unset : ResponseCode)
    → GcmLaws w.ciphers
    → Storable b
    → length random ≡ 12
    → find_key (get_user_id w.aids e.uid) ks.user_states ≡ some u
    → u.state ≡ State.no_error
    → (w.reads e).key_opened ≡ true
    → (let stored = put w ks (writes_with random rest unset) e (some b) none in
        (stored.0 ≡ ResponseCode.no_error)
        × ((b' : Blob) × (characteristics : Option Blob) × ((get w stored.1 e).0
              ≡ some (ResponseCode.no_error, some b', characteristics))
            × Same b' b))
put-get w ks e u b random rest unset laws ok n known unlocked opened =
    let (file, wrote, back) = write_blob-read_blob w.ciphers u.master_key random b laws ok n in
    let (b', read, same) = back in
    let kept = files_of e ks.entries in
    let ks' : KeyStore = record ks {
      entries = set_files e (record kept { key_file = some file }) ks.entries;
    } in
    let stored = put_stored w ks e u b random file rest unset known (rw unlocked wrote) in
    let (characteristics, found) =
      get_stored w ks' e u b' file kept known
        (files_of-set_files e (record kept { key_file = some file }) ks.entries)
        (rw (unlocked, opened) read) (same.version ∙ ok.version) in
    rw stored (refl, (b', characteristics, found, same))
