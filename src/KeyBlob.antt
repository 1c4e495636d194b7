-- ===== src/KeyBlob.antt =====
-- keystore/blob.h and blob.cpp: the names of key blobs. Characters are bytes; those from 128 on are
-- encoded, whether char has a sign (then they are below '0') or not (then they are above '~').
pub mod Names
use system_security.Base.{
  ℕ, ◌+◌, ◌-◌, ◌*◌, ◌/◌, ◌%◌, ◌^◌, Bool, true, false, not, ◌&&◌, ◌||◌, Option, none, some, List, [],
  ◌∷◌, ◌++◌, ltb, leb, ◌==◌, if◌then◌else◌, bit_or,
}
use system_security.Text.{decimal, read_unsigned, split_first, after_last, text_eq}

pub record KeyBlobEntry : Type 0 where
  pub alias : List ℕ
  pub user_dir : List ℕ
  pub uid : ℕ
  pub masterkey : Bool

-- operator== compares uid, alias and directory.
unfoldable pub entry_eq : KeyBlobEntry → KeyBlobEntry → Bool
entry_eq a b = a.uid == b.uid && (text_eq a.alias b.alias && text_eq a.user_dir b.user_dir)

unfoldable pub must_encode : ℕ → Bool
must_encode c = ltb c b'0' || ltb b'~' c

-- encodeKeyName
unfoldable pub encode_key_name : List ℕ → List ℕ
unfolding must_encode
encode_key_name [] = []
encode_key_name (c ∷ cs) =
    let rest = encode_key_name cs in
    if must_encode c then (b'+' + c / 2 ^ 6) ∷ (b'0' + c % 2 ^ 6) ∷ rest else c ∷ rest

-- decodeKeyName: the state is the two bits that a first byte has given.
unfoldable pub decode_from : Option ℕ → List ℕ → List ℕ
decode_from state [] = []
decode_from (some high) (c ∷ cs) = bit_or high ((c + 256 - b'0') % 256) ∷ decode_from none cs
decode_from none (c ∷ cs) = elim (leb b'+' c && leb c b'.') [
  | true ↦ decode_from (some ((c - b'+') * 2 ^ 6 % 256)) cs
  | false ↦ c ∷ decode_from none cs
]

unfoldable pub decode_key_name : List ℕ → List ℕ
unfolding decode_from
decode_key_name name = decode_from none name

-- getKeyBlobBaseName
unfoldable pub get_key_blob_base_name : KeyBlobEntry → List ℕ
get_key_blob_base_name e =
    if e.masterkey then e.alias else decimal e.uid ++ b'_' ∷ encode_key_name e.alias

-- getKeyBlobPath
unfoldable pub get_key_blob_path : KeyBlobEntry → List ℕ
unfolding get_key_blob_base_name
get_key_blob_path e = e.user_dir ++ b'/' ∷ get_key_blob_base_name e

-- "_chr_"
abbrev pub chr_infix : List ℕ
chr_infix = b'_' ∷ b'c' ∷ b'h' ∷ b'r' ∷ b'_' ∷ []

-- getCharacteristicsBlobBaseName
unfoldable pub get_characteristics_blob_base_name : KeyBlobEntry → List ℕ
get_characteristics_blob_base_name e =
    if e.masterkey then [] else b'.' ∷ (decimal e.uid ++ (chr_infix ++ encode_key_name e.alias))

-- getCharacteristicsBlobPath
unfoldable pub get_characteristics_blob_path : KeyBlobEntry → List ℕ
get_characteristics_blob_path e =
    if e.masterkey then [] else e.user_dir ++ b'/' ∷ get_characteristics_blob_base_name e

abbrev pub starts_with_dot : List ℕ → Bool
starts_with_dot [] = false
starts_with_dot (c ∷ cs) = c == b'.'

abbrev pub or_else {ℓ} : {A : Type ℓ} → Option A → A → A
or_else none d = d
or_else (some a) d = a

-- filename2UidAlias; `none` is no success.
unfoldable pub filename_to_uid_alias : List ℕ → Option (ℕ × List ℕ)
filename_to_uid_alias filepath =
    let filename = or_else (after_last b'/' filepath) filepath in
    if starts_with_dot filename then none else elim (split_first b'_' filename) [
      | none ↦ none
      | some (before, after) ↦ elim (read_unsigned (2 ^ 32) before) [
        | none ↦ none
        | some uid ↦ some (uid, decode_key_name after)
      ]
    ]
