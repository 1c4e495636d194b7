-- ===== src/AuthKeys.antt =====
-- identity/CredentialData.cpp: the authentication keys of a credential, how often each was used, and
-- the certification of new ones. A pointer into the vector of keys is its index; byte vectors are
-- lists of numbers. The counts of the source are ints: a bound below 0 acts as 0, a number of keys
-- below 0 makes the vector's resize throw, and a use count stays below 2^31. What the
-- HAL answers to generateSigningKeyPair for the key at an index is an argument, none for a failure.
pub mod Selection
pub mod Budget
use system_security.Base.{
  ℕ, zero, suc, ◌+◌, Bool, true, false, not, ◌&&◌, ◌||◌, Option, none, some, List, [], ◌∷◌, length,
  ltb, leb, ◌==◌, set, if◌then◌else◌,
}
use system_security.Text.{text_eq}

pub record AuthKeyData : Type 0 where
  pub certificate : List ℕ
  pub key_blob : List ℕ
  pub static_authentication_data : List ℕ
  pub pending_certificate : List ℕ
  pub pending_key_blob : List ℕ
  pub use_count : ℕ

pub record AuthKeys : Type 0 where
  pub key_count : ℕ
  pub max_uses_per_key : ℕ
  pub auth_key_datas : List AuthKeyData

abbrev pub new_auth_key : AuthKeyData
new_auth_key = record {
  certificate = [];
  key_blob = [];
  static_authentication_data = [];
  pending_certificate = [];
  pending_key_blob = [];
  use_count = 0;
}

-- The fields of a new CredentialData.
abbrev pub init : AuthKeys
init = record { key_count = 0; max_uses_per_key = 1; auth_key_datas = [] }

-- vector::resize
unfoldable pub resize_keys : ℕ → List AuthKeyData → List AuthKeyData
resize_keys zero ds = []
resize_keys (suc n) [] = new_auth_key ∷ resize_keys n []
resize_keys (suc n) (d ∷ ds) = d ∷ resize_keys n ds

-- setAvailableAuthenticationKeys
unfoldable pub set_available_authentication_keys : ℕ → ℕ → AuthKeys → AuthKeys
set_available_authentication_keys count uses keys = record {
  key_count = count;
  max_uses_per_key = uses;
  auth_key_datas = resize_keys count keys.auth_key_datas;
}

abbrev pub is_certified : AuthKeyData → Bool
is_certified d = not (length d.certificate == 0)

-- The inner test of selectAuthKey's loop.
unfoldable pub is_better : AuthKeyData → Option (ℕ × AuthKeyData) → Bool
is_better d none = true
is_better d (some (n, candidate)) = ltb d.use_count candidate.use_count

-- The loop of selectAuthKey: the candidate with its index.
unfoldable pub candidate_from :
    ℕ → List AuthKeyData → Option (ℕ × AuthKeyData) → Option (ℕ × AuthKeyData)
unfolding is_better
candidate_from n [] candidate = candidate
candidate_from n (d ∷ ds) candidate =
    candidate_from (suc n) ds
      (if is_certified d && is_better d candidate then some (n, d) else candidate)

abbrev pub used : AuthKeyData → AuthKeyData
used d = record {
  certificate = d.certificate;
  key_blob = d.key_blob;
  static_authentication_data = d.static_authentication_data;
  pending_certificate = d.pending_certificate;
  pending_key_blob = d.pending_key_blob;
  use_count = suc d.use_count;
}

abbrev pub with_keys : List AuthKeyData → AuthKeys → AuthKeys
with_keys ds keys = record {
  key_count = keys.key_count;
  max_uses_per_key = keys.max_uses_per_key;
  auth_key_datas = ds;
}

-- What selectAuthKey does with the candidate.
unfoldable pub select_candidate : Bool → AuthKeys → Option (ℕ × AuthKeyData) → Option ℕ × AuthKeys
select_candidate allow keys none = (none, keys)
select_candidate allow keys (some (n, d)) =
    if leb keys.max_uses_per_key d.use_count && not allow
    then (none, keys)
    else (some n, with_keys (set keys.auth_key_datas n (used d)) keys)

-- selectAuthKey
unfoldable pub select_auth_key : Bool → AuthKeys → Option ℕ × AuthKeys
unfolding select_candidate candidate_from
select_auth_key allow keys = select_candidate allow keys (candidate_from 0 keys.auth_key_datas none)

abbrev pub needs_new_key : ℕ → AuthKeyData → Bool
needs_new_key uses d = (length d.certificate == 0) || leb uses d.use_count

abbrev pub is_pending : AuthKeyData → Bool
is_pending d = ltb 0 (length d.pending_certificate)

abbrev pub with_pending : List ℕ → List ℕ → AuthKeyData → AuthKeyData
with_pending blob certificate d = record {
  certificate = d.certificate;
  key_blob = d.key_blob;
  static_authentication_data = d.static_authentication_data;
  pending_certificate = certificate;
  pending_key_blob = blob;
  use_count = d.use_count;
}

abbrev pub with_generated : AuthKeyData → Option (List ℕ × List ℕ) → Option (Bool × AuthKeyData)
with_generated d none = none
with_generated d (some (blob, certificate)) = some (true, with_pending blob certificate d)

-- A round of getAuthKeysNeedingCertification: whether the key is in the answer, and the key.
unfoldable pub prepare : Option (List ℕ × List ℕ) → ℕ → AuthKeyData → Option (Bool × AuthKeyData)
prepare answer uses d =
    if needs_new_key uses d && not (is_pending d)
    then with_generated d answer
    else some (is_pending d, d)

abbrev pub add_pending : Bool → AuthKeyData → Option (List (List ℕ)) → Option (List (List ℕ))
add_pending true d (some certificates) = some (d.pending_certificate ∷ certificates)
add_pending true d none = none
add_pending false d certificates = certificates

abbrev pub add_prepared :
    AuthKeyData
    → List AuthKeyData
    → Option (Bool × AuthKeyData)
    → Option (List (List ℕ)) × List AuthKeyData
    → Option (List (List ℕ)) × List AuthKeyData
add_prepared d ds none rest = (none, d ∷ ds)
add_prepared d ds (some (b, e)) rest = (add_pending b e rest.0, e ∷ rest.1)

-- The loop of getAuthKeysNeedingCertification; the keys prepared before a failure stay prepared.
unfoldable pub prepare_keys :
    (ℕ → Option (List ℕ × List ℕ))
    → ℕ
    → ℕ
    → List AuthKeyData
    → Option (List (List ℕ)) × List AuthKeyData
unfolding prepare
prepare_keys hal uses n [] = (some [], [])
prepare_keys hal uses n (d ∷ ds) =
    add_prepared d ds (prepare (hal n) uses d) (prepare_keys hal uses (suc n) ds)

-- getAuthKeysNeedingCertification
unfoldable pub get_auth_keys_needing_certification :
    (ℕ → Option (List ℕ × List ℕ)) → AuthKeys → Option (List (List ℕ)) × AuthKeys
unfolding prepare_keys
get_auth_keys_needing_certification hal keys =
    let found = prepare_keys hal keys.max_uses_per_key 0 keys.auth_key_datas in
    (found.0, with_keys found.1 keys)

abbrev pub stored_key : List ℕ → AuthKeyData → AuthKeyData
stored_key static_data d = record {
  certificate = d.pending_certificate;
  key_blob = d.pending_key_blob;
  static_authentication_data = static_data;
  pending_certificate = [];
  pending_key_blob = [];
  use_count = 0;
}

-- The loop of storeStaticAuthenticationData.
unfoldable pub store_first : List ℕ → List ℕ → List AuthKeyData → Bool × List AuthKeyData
store_first key static_data [] = (false, [])
store_first key static_data (d ∷ ds) =
    let rest = store_first key static_data ds in
    if text_eq d.pending_certificate key
    then (true, stored_key static_data d ∷ ds)
    else (rest.0, d ∷ rest.1)

-- storeStaticAuthenticationData
unfoldable pub store_static_authentication_data : List ℕ → List ℕ → AuthKeys → Bool × AuthKeys
unfolding store_first
store_static_authentication_data key static_data keys =
    let done = store_first key static_data keys.auth_key_datas in (done.0, with_keys done.1 keys)
