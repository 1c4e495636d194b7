-- ===== src/Permissions/Callers.antt =====
-- keystore/permissions.cpp: what the tables of users grant.
use system_security.Base.{ℕ, ◌≡◌, Bool, true, false, ◌&&◌, ◌||◌, arith, ◌==◌}
use system_security.Permissions.{
  Aids, user_euids, first_entry, get_keystore_euid, any_pair, is_granted_to,
}

-- The uid that a uid acts as may act in that uid's namespace.
pub is_granted_to-get_keystore_euid :
    (root_all : Bool) (aids : Aids) (uid : ℕ)
    → is_granted_to root_all aids (get_keystore_euid root_all aids uid) uid ≡ true
unfolding is_granted_to get_keystore_euid user_euids first_entry any_pair
is_granted_to-get_keystore_euid root_all aids uid = ground arith

-- In a build without GRANT_ROOT_ALL_PERMISSIONS, a uid may act in another one's namespace exactly if
-- it is the system's and the other is that of the VPN, of the wifi or of root.
pub is_granted_to_iff :
    (aids : Aids) (calling target : ℕ)
    → is_granted_to false aids calling target ≡ (
        (calling == target)
        || ((calling == aids.system)
            && ((target == aids.vpn) || ((target == aids.wifi) || (target == aids.root)))))
unfolding is_granted_to user_euids any_pair
is_granted_to_iff aids calling target = ground arith
