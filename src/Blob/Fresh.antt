-- ===== src/Blob/Fresh.antt =====
-- keystore/blob.cpp: a blob that the constructor makes of a key, with whatever flags.
use system_security.Base.{
  ℕ, ◌-◌, ◌≤◌, ◌<◌, ◌≡◌, refl, List, [], arith, length, take, take-all, take-append, length-append,
  length-take,
}
use system_security.Blob.{Blob, new_blob, min_of, get_value, type_keymaster_10}
use system_security.Blob.Layout.{Storable}

abbrev pub flagged : List ℕ → ℕ → Blob
flagged key flags = record (new_blob key [] type_keymaster_10) { flags = flags }

pub flagged-Storable : (key : List ℕ) (flags : ℕ) → flags < 256 → Storable (flagged key flags)
unfolding new_blob
flagged-Storable key flags bound =
    let n = min_of (length key) 32768 in
    let fits : n ≤ length key = ground arith in
    record {
      version = refl;
      flags = bound;
      initialization_vector = refl;
      aead_tag = refl;
      room = ground arith;
      filled = ground (
        arith,
        length-append (take n key) (take (min_of 0 (32768 - n)) []),
        length-take n key fits,
      );
    }

-- The value of such a blob is the key, if it is not too long for the buffer.
pub get_value-flagged :
    (key : List ℕ) (flags : ℕ) → length key ≤ 32768 → get_value (flagged key flags) ≡ key
unfolding get_value new_blob
get_value-flagged key flags h =
    let n = min_of (length key) 32768 in
    let whole : length key ≤ n = ground (arith, h) in
    let same = take-all n key whole in
    rw same (take-append key (take (min_of 0 (32768 - n)) []) n (ground (arith, h)))
