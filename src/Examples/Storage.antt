-- ===== src/Examples/Storage.antt =====
-- Runs of the names of key blobs, the grants, the operations and the permissions.
use system_security.Base.{
  ℕ, ◌≡◌, ◌&&◌, ◌||◌, refl, true, false, none, some, List, [], ◌∷◌, arith, ◌==◌, if◌then◌else◌, inl,
  inr,
}
use system_security.Base.Assoc.{find_key}
use system_security.Keymaster.{KeyPurpose}
use system_security.KeyBlob.{KeyBlobEntry, get_key_blob_base_name, filename_to_uid_alias}
use system_security.KeyBlob.Names.{filename_to_uid_alias-get_key_blob_base_name}
use system_security.Text.{
  text_eq, split_last, strip_prefix, decimal, digits, read_unsigned, read_digits, read_number,
  is_digit, skip_space, is_space, starts_with_digit,
}
use system_security.Grants.{
  Grant, GrantStore, grants_of, find_number, put, get, is_for_key, remove_all_grants_to_key,
  remove_all_grants_to_uid, grant_alias, parse_grant_alias, erase_first,
}
use system_security.Grants.RoundTrip.{Granted, put-found}
use system_security.Grants.Revocation.{get-remove_all_grants_to_key, get-remove_all_grants_to_uid}
use system_security.Operations.{Operation, add_operation, get_operation, remove_operation, init}
use system_security.Operations.Tracking.{
  Consistent, init-Consistent, add_operation-Consistent, get_operation-kept, Touched,
  remove_operation-Consistent,
}
use system_security.Permissions.{Aids, get_keystore_euid, is_granted_to}
use system_security.Permissions.Callers.{is_granted_to-get_keystore_euid, is_granted_to_iff}

-- "k/", with a byte that is encoded.
abbrev name : List ℕ
name = b'k' ∷ b'/' ∷ []

abbrev entry : KeyBlobEntry
entry = record { alias = name; user_dir = []; uid = 1000; masterkey = false }

filename_to_uid_alias-get_key_blob_base_name_example :
    filename_to_uid_alias (get_key_blob_base_name entry) ≡ some (1000, name)
filename_to_uid_alias-get_key_blob_base_name_example =
    filename_to_uid_alias-get_key_blob_base_name entry refl (omega arith)
      (omega arith, (omega arith, tt))

abbrev other_entry : KeyBlobEntry
other_entry = record entry { uid = 1001 }

abbrev store : GrantStore
store = (7, record { entry = other_entry; grant_no = 3 } ∷ []) ∷ []

put-found_example :
    (alias : List ℕ) × (store' : GrantStore) × (put 7 entry (3 ∷ 8 ∷ []) store
      ≡ some (alias, store'))
    × Granted 7 entry alias store'
unfolding grants_of find_number
put-found_example =
    put-found 7 entry (3 ∷ 8 ∷ []) store (omega arith, (omega arith, tt))
      (omega arith, omega arith, tt) (inr (inl refl))

abbrev grant : Grant
grant = record { entry = other_entry; grant_no = 3 }

get-remove_all_grants_to_key_example : is_for_key 1000 name grant ≡ false
unfolding grants_of find_number get remove_all_grants_to_key parse_grant_alias erase_first text_eq
    split_last strip_prefix decimal digits read_unsigned read_digits read_number is_digit skip_space
    is_space starts_with_digit
get-remove_all_grants_to_key_example =
    get-remove_all_grants_to_key 1000 name store 7 (grant_alias other_entry 3) grant ((λ h. tt), tt)
      refl

get-remove_all_grants_to_uid_example :
    get 7 (grant_alias other_entry 3) (remove_all_grants_to_uid 7 store)
    ≡ (if 7 == 7 then none else get 7 (grant_alias other_entry 3) store)
get-remove_all_grants_to_uid_example =
    get-remove_all_grants_to_uid 7 7 (grant_alias other_entry 3) store

abbrev operation : Operation ℕ
operation = record { handle = 12; keyid = 9; purpose = KeyPurpose.sign; app_token = 4; rest = 0 }

add_operation-Consistent_example : Consistent (add_operation init 21 operation true)
unfolding init find_key
add_operation-Consistent_example =
    add_operation-Consistent init 21 operation true refl init-Consistent

add_operation-Consistent_run : Consistent (add_operation init 21 operation true)
unfolding init find_key
add_operation-Consistent_run = add_operation-Consistent init 21 operation true refl init-Consistent

get_operation-kept_example :
    Consistent (get_operation (add_operation init 21 operation true) 21).1
    × Touched
        (add_operation init 21 operation true)
        21
        (get_operation (add_operation init 21 operation true) 21)
get_operation-kept_example =
    get_operation-kept (add_operation init 21 operation true) 21 add_operation-Consistent_run

remove_operation-Consistent_example :
    Consistent (remove_operation (add_operation init 21 operation true) 21).1
remove_operation-Consistent_example =
    remove_operation-Consistent (add_operation init 21 operation true) 21
      add_operation-Consistent_run

abbrev aids : Aids
aids = record { system = 1000; vpn = 1016; wifi = 1010; root = 0; bluetooth = 1002; user = 100000 }

is_granted_to-get_keystore_euid_example :
    is_granted_to false aids (get_keystore_euid false aids 1010) 1010 ≡ true
is_granted_to-get_keystore_euid_example = is_granted_to-get_keystore_euid false aids 1010

is_granted_to_iff_example :
    is_granted_to false aids 1000 1016
    ≡ ((1000 == 1000) || ((1000 == 1000) && ((1016 == 1016) || ((1016 == 1010) || (1016 == 0)))))
is_granted_to_iff_example = is_granted_to_iff aids 1000 1016
