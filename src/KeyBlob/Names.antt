-- ===== src/KeyBlob/Names.antt =====
-- keystore/blob.cpp: the encoding of key names, and the file names of key blobs.
use system_security.Base.{
  ℕ, zero, suc, ◌+◌, ◌-◌, ◌*◌, ◌/◌, ◌%◌, ◌^◌, ◌<◌, ◌≤◌, ◌≡◌, ◌≢◌, refl, subst, Bool, true, false,
  some, List, [], ◌∷◌, ◌++◌, arith, ◌==◌, ==_iff, All, All-map, All-append, inl, inr, Bool-cases,
  bit_or, if◌then◌else◌,
}
use system_security.Text.{decimal}
use system_security.Text.Decimal.{Digit, decimal-All, decimal-cons, read_unsigned-decimal}
use system_security.Text.Search.{split_first-append, after_last-none}
use system_security.KeyBlob.{
  KeyBlobEntry, must_encode, encode_key_name, decode_key_name, get_key_blob_base_name,
  filename_to_uid_alias, starts_with_dot,
}

abbrev pub Bytes : List ℕ → Type 0
Bytes = All (λ c. c < 256)

-- The two parts of a byte, put together as the decoder does.
abbrev joined : ℕ → ℕ
joined c = bit_or ((b'+' + c / 64 - b'+') * 64 % 256) ((b'0' + c % 64 + 256 - b'0') % 256)

-- Whether the bytes below a bound are their parts put together.
joins_below : ℕ → Bool
joins_below zero = true
joins_below (suc k) = if joined k == k then joins_below k else false

joins_below_lem : (c k : ℕ) → c < k → joins_below k ≡ true → joined c ≡ c
unfolding joins_below
joins_below_lem c zero lt e = absurd (omega arith)
joins_below_lem c (suc k) lt e = elim (Bool-cases (c == k)) [
  | inl q ↦ rw ((==_iff c k).0 q) (ground (arith, e))
  | inr q ↦ joins_below_lem c k (ground arith) (ground (arith, e))
]

bytes_join : joins_below 256 ≡ true
unfolding joins_below
bytes_join = refl

joined_lem : (c : ℕ) → c < 256 → joined c ≡ c
joined_lem c h = joins_below_lem c 256 h bytes_join

-- Every name of bytes is decoded from its encoding.
pub decode_key_name-encode_key_name :
    (name : List ℕ) → Bytes name → decode_key_name (encode_key_name name) ≡ name
unfolding decode_key_name encode_key_name
decode_key_name-encode_key_name [] h = refl
decode_key_name-encode_key_name (c ∷ cs) h =
    ground (arith, joined_lem c h.0, decode_key_name-encode_key_name cs h.1)

-- The characters of an encoded name: [+-.] and [0-~], never a slash.
abbrev pub Safe : ℕ → Type 0
Safe c = (c ≢ b'/') × (b'+' ≤ c) × (c ≤ b'~')

kept-Safe : (c : ℕ) → must_encode c ≡ false → Safe c
unfolding must_encode
kept-Safe c b = ((λ e. ground arith), ground arith, ground arith)

encoded-Safe : (c : ℕ) → c < 256 → Safe (b'+' + c / 2 ^ 6) × Safe (b'0' + c % 2 ^ 6)
encoded-Safe c h = (omega arith, omega arith)

-- The encoding of a name of bytes has no slash and only characters from '+' to '~'.
pub encode_key_name-Safe : (name : List ℕ) → Bytes name → All Safe (encode_key_name name)
unfolding encode_key_name
encode_key_name-Safe [] h = tt
encode_key_name-Safe (c ∷ cs) h = elim (Bool-cases (must_encode c)) [
  | inl b ↦ let k = encoded-Safe c h.0 in rw b (k.0, (k.1, encode_key_name-Safe cs h.1))
  | inr b ↦ rw b (kept-Safe c b, encode_key_name-Safe cs h.1)
]

digits_no_slash : (n : ℕ) → All (λ x. x ≢ b'/') (decimal n)
digits_no_slash n = All-map (λ x (d : Digit x). omega arith) (decimal n) (decimal-All n)

base_name_no_slash :
    (uid : ℕ) (name : List ℕ)
    → Bytes name
    → All (λ x. x ≢ b'/') (decimal uid ++ b'_' ∷ encode_key_name name)
base_name_no_slash uid name h = All-append _ (decimal uid) _ (digits_no_slash uid) (
  omega arith,
  All-map (λ x (s : Safe x). s.0) (encode_key_name name) (encode_key_name-Safe name h),
)

base_name_no_dot : (uid : ℕ) (rest : List ℕ) → starts_with_dot (decimal uid ++ rest) ≡ false
base_name_no_dot uid rest =
    let (d, ds, e) = decimal-cons uid in
    let k : Digit d = (subst (All Digit) e (decimal-All uid)).0 in rw e (ground arith)

-- The file name of a key blob that is no master key gives back the uid and the alias that it was made
-- of, if the uid has 32 bits and the alias consists of bytes.
pub filename_to_uid_alias-get_key_blob_base_name :
    (e : KeyBlobEntry)
    → e.masterkey ≡ false
    → e.uid < 2 ^ 32
    → Bytes e.alias
    → filename_to_uid_alias (get_key_blob_base_name e) ≡ some (e.uid, e.alias)
unfolding filename_to_uid_alias get_key_blob_base_name
filename_to_uid_alias-get_key_blob_base_name e m lt h = ground (
  arith,
  after_last-none b'/' _ (base_name_no_slash e.uid e.alias h),
  base_name_no_dot e.uid (b'_' ∷ encode_key_name e.alias),
  split_first-append b'_' (decimal e.uid) (encode_key_name e.alias)
      (All-map (λ x (d : Digit x). omega arith) (decimal e.uid) (decimal-All e.uid)),
  read_unsigned-decimal (2 ^ 32) e.uid lt,
  decode_key_name-encode_key_name e.alias h,
)
