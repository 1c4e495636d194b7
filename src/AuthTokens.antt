-- ===== src/AuthTokens.antt =====
-- keystore/auth_token_table.h and auth_token_table.cpp: the received authorization tokens. Clock
-- readings are an argument of the operations that take one, in seconds; `entries` is the vector.
pub mod Find
pub mod Bounds
pub mod Newest
pub mod Soundness
pub mod Completion
use system_security.Base.{
  ℕ, suc, Bool, true, false, not, ◌&&◌, ◌||◌, Option, none, some, List, [], ◌∷◌, ◌++◌, ltb, leb,
  ◌==◌, if◌then◌else◌, length, set, bit_and,
}
use system_security.Keymaster.{HardwareAuthToken, Algorithm, rsa, ec, KeyPurpose, sign, decrypt}

pub data Error : Type 0 where
  ok auth_not_required auth_token_expired auth_token_wrong_sid op_handle_required : Error
  auth_token_not_found : Error

pub record Entry : Type 0 where
  pub token : HardwareAuthToken
  pub time_received : ℕ
  pub last_use : ℕ
  pub operation_completed : Bool

pub record AuthTokenTable : Type 0 where
  pub entries : List Entry
  pub max_entries : ℕ
  pub last_off_body : ℕ

unfoldable pub init : ℕ → ℕ → AuthTokenTable
init max_entries now = record { entries = []; max_entries = max_entries; last_off_body = now }

unfoldable pub new_entry : HardwareAuthToken → ℕ → Entry
new_entry token current_time = record {
  token = token;
  time_received = current_time;
  last_use = current_time;
  operation_completed = token.challenge == 0;
}

unfoldable pub is_newer_than : Entry → Option Entry → Bool
is_newer_than e none = true
is_newer_than e (some other) =
    ltb other.token.timestamp e.token.timestamp
    || (e.token.timestamp == other.token.timestamp && ltb other.time_received e.time_received)

unfoldable pub satisfies_auth_sid : Entry → ℕ → ℕ → Bool
satisfies_auth_sid e sid auth_type =
    (sid == e.token.user_id || sid == e.token.authenticator_id)
    && not (bit_and auth_type e.token.authenticator_type == 0)

unfoldable pub satisfies_auth : Entry → List ℕ → ℕ → Bool
satisfies_auth e [] auth_type = false
satisfies_auth e (sid ∷ sids) auth_type =
    satisfies_auth_sid e sid auth_type || satisfies_auth e sids auth_type

unfoldable pub supersedes : Entry → Entry → Bool
unfolding is_newer_than
supersedes e entry =
    entry.operation_completed
    && (e.token.user_id == entry.token.user_id
        && (e.token.authenticator_type == entry.token.authenticator_type
            && (e.token.authenticator_id == entry.token.authenticator_id
                && is_newer_than e (some entry))))

unfoldable pub remove_superseded : Entry → List Entry → List Entry
remove_superseded n [] = []
remove_superseded n (e ∷ es) =
    let rest = remove_superseded n es in if supersedes n e then rest else e ∷ rest

-- RemoveEntriesSupersededBy
unfoldable pub remove_entries_superseded_by : AuthTokenTable → Entry → AuthTokenTable
unfolding remove_superseded
remove_entries_superseded_by t n = record t { entries = remove_superseded n t.entries }

-- `*min_element(entries_) = new_entry`: the first of the entries with the least `last_use`.
unfoldable pub least_use : ℕ → List Entry → ℕ
least_use m [] = m
least_use m (e ∷ es) = least_use (if ltb e.last_use m then e.last_use else m) es

unfoldable pub replace_first : ℕ → Entry → List Entry → List Entry
replace_first m n [] = []
replace_first m n (e ∷ es) = if e.last_use == m then n ∷ es else e ∷ replace_first m n es

unfoldable pub replace_oldest : Entry → List Entry → List Entry
unfolding least_use replace_first
replace_oldest n [] = []
replace_oldest n (e ∷ es) = replace_first (least_use e.last_use es) n (e ∷ es)

unfoldable pub add_authentication_token : AuthTokenTable → HardwareAuthToken → ℕ → AuthTokenTable
unfolding remove_entries_superseded_by new_entry
add_authentication_token t token now =
    let n = new_entry token now in
    let t' = remove_entries_superseded_by t n in
    if leb t'.max_entries (length t'.entries)
    then record t' { entries = replace_oldest n t'.entries }
    else record t' { entries = t'.entries ++ n ∷ [] }

unfoldable pub is_secret_key_operation : Algorithm → KeyPurpose → Bool
is_secret_key_operation rsa sign = true
is_secret_key_operation rsa decrypt = true
is_secret_key_operation rsa _ = false
is_secret_key_operation ec sign = true
is_secret_key_operation ec decrypt = true
is_secret_key_operation ec _ = false
is_secret_key_operation _ _ = true

abbrev pub default_or {ℓ} : {A : Type ℓ} → Option A → A → A
default_or none d = d
default_or (some a) d = a

-- The first entry for a challenge that is not completed, and the first one for a challenge.
unfoldable pub find_open : ℕ → List Entry → Option Entry
find_open c [] = none
find_open c (e ∷ es) =
    if e.token.challenge == c && not e.operation_completed then some e else find_open c es

-- The loop over `newest_match`: the pointer is the entry's position, kept with the entry.
unfoldable pub newest_entry : Option (ℕ × Entry) → Option Entry
newest_entry none = none
newest_entry (some (i, e)) = some e

unfoldable pub newest_match : List ℕ → ℕ → ℕ → List Entry → Option (ℕ × Entry) → Option (ℕ × Entry)
unfolding newest_entry
newest_match sids auth_type i [] best = best
newest_match sids auth_type i (e ∷ es) best = newest_match sids auth_type (suc i) es (
    if satisfies_auth e sids auth_type && is_newer_than e (newest_entry best)
    then some (i, e)
    else best)

unfoldable pub update_last_use : AuthTokenTable → ℕ → Entry → ℕ → AuthTokenTable
update_last_use t i e now = record t { entries = set t.entries i (record e { last_use = now }) }

abbrev pub Found : Type 0
Found = Error × HardwareAuthToken × AuthTokenTable
