-- ===== src/Permissions.antt =====
-- keystore/permissions.h and permissions.cpp, with the user numbers of keystore_utils.cpp: which uid
-- may do what. The system's user numbers and the check of the security policy are parameters, and so
-- is the build's choice GRANT_ROOT_ALL_PERMISSIONS.
pub mod Callers
use system_security.Base.{
  ℕ, ◌+◌, ◌-◌, ◌*◌, ◌/◌, ◌%◌, ◌^◌, Bool, true, false, ◌&&◌, ◌||◌, Option, none, some, List, [], ◌∷◌,
  ◌++◌, bit_and, bit_or, ltb, ◌==◌, if◌then◌else◌,
}

-- The user numbers of android_filesystem_config.h that the source names.
pub record Aids : Type 0 where
  pub system : ℕ
  pub vpn : ℕ
  pub wifi : ℕ
  pub root : ℕ
  pub bluetooth : ℕ
  pub user : ℕ

pub data Perm : Type 0 where
  get_state get insert delete exist list reset password lock unlock is_empty sign verify grant
        duplicate clear_uid add_auth user_changed gen_unique_id :
      Perm

-- The bit of a permission.
abbrev pub bit : Perm → ℕ
bit Perm.get_state = 2 ^ 0
bit Perm.get = 2 ^ 1
bit Perm.insert = 2 ^ 2
bit Perm.delete = 2 ^ 3
bit Perm.exist = 2 ^ 4
bit Perm.list = 2 ^ 5
bit Perm.reset = 2 ^ 6
bit Perm.password = 2 ^ 7
bit Perm.lock = 2 ^ 8
bit Perm.unlock = 2 ^ 9
bit Perm.is_empty = 2 ^ 10
bit Perm.sign = 2 ^ 11
bit Perm.verify = 2 ^ 12
bit Perm.grant = 2 ^ 13
bit Perm.duplicate = 2 ^ 14
bit Perm.clear_uid = 2 ^ 15
bit Perm.add_auth = 2 ^ 16
bit Perm.user_changed = 2 ^ 17
bit Perm.gen_unique_id = 2 ^ 18

-- The permissions of a list, as a word.
abbrev pub word : List Perm → ℕ
word [] = 0
word (p ∷ ps) = bit_or (bit p) (word ps)

abbrev pub all_perms : ℕ
all_perms = 2 ^ 32 - 1

-- DEFAULT_PERMS
unfoldable pub default_perms : ℕ
default_perms = word (
    Perm.get_state ∷ Perm.get ∷ Perm.insert ∷ Perm.delete ∷ Perm.exist ∷ Perm.list ∷ Perm.sign
    ∷ Perm.verify ∷ Perm.gen_unique_id ∷ [])

-- get_app_id
unfoldable pub get_app_id : Aids → ℕ → ℕ
get_app_id aids uid = uid % aids.user

-- get_user_id
unfoldable pub get_user_id : Aids → ℕ → ℕ
get_user_id aids uid = uid / aids.user

-- user_euids
unfoldable pub user_euids : Bool → Aids → List (ℕ × ℕ)
user_euids root_all aids =
    (aids.vpn, aids.system)
    ∷ (aids.wifi, aids.system)
    ∷ (aids.root, aids.system)
    ∷ (if root_all then (aids.wifi, aids.root) ∷ [] else [])

-- user_perms
unfoldable pub user_perms : Bool → Aids → List (ℕ × ℕ)
user_perms root_all aids =
    (aids.system, all_perms)
    ∷ (aids.vpn, word (Perm.get ∷ Perm.sign ∷ Perm.verify ∷ []))
    ∷ (aids.wifi, word (Perm.get ∷ Perm.sign ∷ Perm.verify ∷ []))
    ∷ (
      aids.bluetooth,
      word (Perm.get ∷ Perm.insert ∷ Perm.delete ∷ Perm.exist ∷ Perm.sign ∷ Perm.verify ∷ []),
    )
    ∷ (aids.root, if root_all then all_perms else word (Perm.get ∷ []))
    ∷ []

-- The first entry for a uid.
unfoldable pub first_entry : ℕ → List (ℕ × ℕ) → ℕ → ℕ
first_entry uid [] missing = missing
first_entry uid ((u, v) ∷ rest) missing = if u == uid then v else first_entry uid rest missing

-- get_keystore_euid
unfoldable pub get_keystore_euid : Bool → Aids → ℕ → ℕ
unfolding user_euids first_entry
get_keystore_euid root_all aids uid = first_entry uid (user_euids root_all aids) uid

-- The uid under which has_permission looks a caller up.
unfoldable pub acting_uid : Aids → ℕ → ℕ
unfolding get_app_id
acting_uid aids uid = if get_app_id aids uid == aids.system then aids.system else uid

-- has_permission; `allowed` is the check of the security policy for a uid, a permission and the
-- caller's process and security context.
unfoldable pub has_permission :
    Bool → Aids → (ℕ → Perm → ℕ → Option ℕ → Bool) → ℕ → Perm → ℕ → Option ℕ → Bool
unfolding acting_uid user_perms first_entry
has_permission root_all aids allowed uid perm spid sid =
    ltb 0 (
      bit_and (first_entry (acting_uid aids uid) (user_perms root_all aids) default_perms)
        (bit perm))
    && allowed (acting_uid aids uid) perm spid sid

unfoldable pub any_pair : ℕ → ℕ → List (ℕ × ℕ) → Bool
any_pair calling target [] = false
any_pair calling target ((u, e) ∷ rest) =
    if (e == calling) && (u == target) then true else any_pair calling target rest

-- is_granted_to
unfoldable pub is_granted_to : Bool → Aids → ℕ → ℕ → Bool
unfolding any_pair user_euids
is_granted_to root_all aids calling target =
    if calling == target then true else any_pair calling target (user_euids root_all aids)
