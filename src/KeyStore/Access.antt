-- ===== src/KeyStore/Access.antt =====
-- keystore/KeyStore.cpp: which key a name stands for when a caller uses it.
use mathlib.Core.Option.{some-injective}
use system_security.Base.{
  ℕ, ◌≡◌, refl, sym, ap, subst, ◌∙◌, ◌⊎◌, inl, inr, Bool, true, false, not, ◌||◌, Option, none,
  some, List, [], ◌∷◌, arith, ◌==◌, if◌then◌else◌, length, is_some,
}
use system_security.Codes.{ResponseCode}
use system_security.KeyBlob.{KeyBlobEntry}
use system_security.Grants.{Grant, GrantStore, remove_all_grants_to_uid}
use system_security.Grants.Revocation.{get-remove_all_grants_to_uid}
use system_security.Permissions.{get_user_id, get_keystore_euid}
use system_security.UserState.{peek_user_state}
use system_security.KeyStore.{
  KeyStore, World, Got, entry_for, has_key_blob, user_of, get, list_entries, user_dir_name,
}

-- getUserStateByUid, which makes the state of a user that is not there.
abbrev pub touch_user : World → KeyStore → ℕ → KeyStore
touch_user w ks uid = (user_of w ks (get_user_id w.aids uid)).1

-- The entry of a grant.
abbrev pub granted_entry : Option Grant → Option KeyBlobEntry
granted_entry none = none
granted_entry (some g) = some g.entry

abbrev pub if_has_key_blob : World → Option KeyBlobEntry → Option KeyBlobEntry
if_has_key_blob w none = none
if_has_key_blob w (some e) = if has_key_blob w e then some e else none

-- getBlobEntryIfExists
unfoldable pub get_blob_entry_if_exists :
    World → KeyStore → List ℕ → ℕ → Option KeyBlobEntry × KeyStore
get_blob_entry_if_exists w ks alias uid =
    let own = entry_for w alias uid in
    let ks1 = touch_user w ks uid in
    let euid = get_keystore_euid w.root_all w.aids uid in
    let legacy = entry_for w alias euid in
    let ks2 = touch_user w ks1 euid in
    let grant =
      if_has_key_blob w (granted_entry (system_security.Grants.get uid alias ks.grants)) in
    if has_key_blob w own
    then (some own, ks1)
    else if not (euid == uid)
    then (if has_key_blob w legacy then (some legacy, ks2) else (grant, ks2))
    else (grant, ks1)

-- The rest of getKeyForName, for the entry that was locked.
abbrev pub key_of_type : ℕ → Option Got → Option Got
key_of_type blob_type none = none
key_of_type blob_type (some (ResponseCode.no_error, some b, characteristics)) =
    if b.blob_type == blob_type
    then some (ResponseCode.no_error, some b, characteristics)
    else some (ResponseCode.key_not_found, some b, characteristics)
key_of_type blob_type (some other) = some other

-- getLockedBlobEntryIfExists and getKeyForName, for an entry whose lock is free: the file is looked
-- for again under the lock, with the answers of `locked`.
unfoldable pub get_key_for_name : World → World → KeyStore → List ℕ → ℕ → ℕ → Option Got × KeyStore
get_key_for_name w locked ks alias uid blob_type =
    let (found, ks') = get_blob_entry_if_exists w ks alias uid in
    elim found [
      | none ↦ (some (ResponseCode.key_not_found, none, none), ks')
      | some e ↦
          let (got, ks'') = get locked ks' e in
          if has_key_blob locked e
          then (key_of_type blob_type got, ks'')
          else (some (ResponseCode.key_not_found, none, none), ks')
    ]

-- isEmpty; `names` is what the user's directory holds, none if it cannot be opened.
unfoldable pub is_empty : KeyStore → ℕ → Option (List (Bool × List ℕ)) → Bool
is_empty ks user_id none = true
is_empty ks user_id (some names) =
    not (is_some (peek_user_state ks.user_states user_id))
    || (length (list_entries (user_dir_name user_id) names) == 0)

-- The kinds of key that isHardwareBacked tells apart.
pub data KeyType : Type 0 where
  rsa_key ec_key other_key : KeyType

abbrev pub hardware_backed_by : KeyType → Bool → Bool
hardware_backed_by rsa_key supports_ec = true
hardware_backed_by ec_key supports_ec = supports_ec
hardware_backed_by other_key supports_ec = false

-- isHardwareBacked: whether there is a strongbox, and whether the trusted environment's device, if
-- there is one, supports elliptic curves.
unfoldable pub is_hardware_backed : Bool → Option Bool → KeyType → Bool
is_hardware_backed strongbox tee key_type =
    if strongbox
    then true
    else elim tee [ none ↦ false | some supports_ec ↦ hardware_backed_by key_type supports_ec ]

-- The keys that a name may stand for, in the order in which they are looked for: the caller's own, the
-- one of the uid that the caller acts as, and the granted one.
abbrev pub candidates : World → GrantStore → List ℕ → ℕ → List (Option KeyBlobEntry)
candidates w grants alias uid =
    let euid = get_keystore_euid w.root_all w.aids uid in
    some (entry_for w alias uid)
    ∷ (if euid == uid then none else some (entry_for w alias euid))
    ∷ granted_entry (system_security.Grants.get uid alias grants)
    ∷ []

abbrev pub first_there : World → List (Option KeyBlobEntry) → Option KeyBlobEntry
first_there w [] = none
first_there w (c ∷ cs) = elim (if_has_key_blob w c) [ none ↦ first_there w cs | some e ↦ some e ]

option_eta :
    {A : Type 0} (o : Option A) → elim o as (λ x. Option A) [ none ↦ none | some a ↦ some a ] ≡ o
option_eta none = refl
option_eta (some a) = refl

abbrev or_next : Option KeyBlobEntry → Option KeyBlobEntry → Option KeyBlobEntry
or_next first next = elim first [ none ↦ next | some e ↦ some e ]

if_other_has_key_blob :
    (w : World) (same : Bool) (e : KeyBlobEntry)
    → if_has_key_blob w (if same then none else some e)
      ≡ (if same then none else (if has_key_blob w e then some e else none))
if_other_has_key_blob w true e = refl
if_other_has_key_blob w false e = refl

abbrev entry_of : Option KeyBlobEntry × KeyStore → Option KeyBlobEntry
entry_of (e, ks) = e

-- The tests of getBlobEntryIfExists, on whatever they answer.
pick_lem :
    (own legacy : KeyBlobEntry) (own_there same legacy_there : Bool) (grant : Option KeyBlobEntry)
    (ks1 ks2 : KeyStore)
    → entry_of (
        if own_there
        then (some own, ks1)
        else if not same
        then (if legacy_there then (some legacy, ks2) else (grant, ks2))
        else (grant, ks1))
      ≡ or_next (if own_there then some own else none) (
          or_next
            (if same then none else (if legacy_there then some legacy else none))
            (or_next grant none))
pick_lem own legacy true same legacy_there grant ks1 ks2 = refl
pick_lem own legacy false true legacy_there grant ks1 ks2 = sym (option_eta grant)
pick_lem own legacy false false true grant ks1 ks2 = refl
pick_lem own legacy false false false grant ks1 ks2 = sym (option_eta grant)

-- getBlobEntryIfExists finds the first of the three candidates whose key blob is there: the caller's
-- own key, then the key of the uid that the caller acts as, then a granted key.
pub get_blob_entry_if_exists_lem :
    (w : World) (ks : KeyStore) (alias : List ℕ) (uid : ℕ)
    → (get_blob_entry_if_exists w ks alias uid).0 ≡ first_there w (candidates w ks.grants alias uid)
unfolding get_blob_entry_if_exists
get_blob_entry_if_exists_lem w ks alias uid =
    let euid = get_keystore_euid w.root_all w.aids uid in
    let own = entry_for w alias uid in
    let legacy = entry_for w alias euid in
    let granted =
      if_has_key_blob w (granted_entry (system_security.Grants.get uid alias ks.grants)) in
    pick_lem own legacy (has_key_blob w own) (euid == uid) (has_key_blob w legacy) granted
      (touch_user w ks uid) (touch_user w (touch_user w ks uid) euid)
    ∙ ap
        (λ x.
          or_next (if has_key_blob w own then some own else none)
            (or_next x (or_next granted none)))
        (sym (if_other_has_key_blob w (euid == uid) legacy))

first_of_two :
    (w : World) (own legacy e : KeyBlobEntry) (there same legacy_there : Bool)
    → or_next
        (if there then some own else none)
        (or_next (if same then none else (if legacy_there then some legacy else none)) none)
      ≡ some e
    → (e ≡ own) ⊎ (e ≡ legacy)
first_of_two w own legacy e true same legacy_there h = inl (sym (some-injective _ _ h))
first_of_two w own legacy e false true legacy_there h = absurd cc
first_of_two w own legacy e false false true h = inr (sym (some-injective _ _ h))
first_of_two w own legacy e false false false h = absurd cc

-- Once all grants to a uid are removed, a name stands for a key of the uid itself or of the uid that
-- it acts as, and for no other.
pub get_blob_entry_if_exists_revoked :
    (w : World) (ks : KeyStore) (alias : List ℕ) (uid : ℕ) (e : KeyBlobEntry)
    → (get_blob_entry_if_exists w
        (record ks { grants = remove_all_grants_to_uid uid ks.grants })
        alias
        uid).0
      ≡ some e
    → (e ≡ entry_for w alias uid)
      ⊎ (e ≡ entry_for w alias (get_keystore_euid w.root_all w.aids uid))
get_blob_entry_if_exists_revoked w ks alias uid e h =
    let euid = get_keystore_euid w.root_all w.aids uid in
    let own = entry_for w alias uid in
    let legacy = entry_for w alias euid in
    let no_grant : system_security.Grants.get uid alias (remove_all_grants_to_uid uid ks.grants)
        ≡ none =
      ground (arith, get-remove_all_grants_to_uid uid uid alias ks.grants) in
    let found =
      sym (
        get_blob_entry_if_exists_lem w
          (record ks { grants = remove_all_grants_to_uid uid ks.grants }) alias uid)
      ∙ h in
    first_of_two w own legacy e (has_key_blob w own) (euid == uid) (has_key_blob w legacy) (
      subst
        (λ g.
          or_next (if has_key_blob w own then some own else none) (
            or_next
              (if euid == uid then none else (if has_key_blob w legacy then some legacy else none))
              (or_next (if_has_key_blob w (granted_entry g)) none))
          ≡ some e)
        no_grant
        (ap
            (λ x. or_next (if has_key_blob w own then some own else none) (
              or_next x (
                or_next
                  (if_has_key_blob w (
                    granted_entry (
                      system_security.Grants.get uid alias
                        (remove_all_grants_to_uid uid ks.grants))))
                  none)))
            (sym (if_other_has_key_blob w (euid == uid) legacy))
          ∙ found))
