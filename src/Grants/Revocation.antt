-- ===== src/Grants/Revocation.antt =====
-- keystore/grant_store.cpp: what the three removals leave of the grants.
use system_security.Base.{
  ℕ, ◌≡◌, refl, subst, true, false, none, some, List, [], ◌∷◌, arith, ◌==◌, if◌then◌else◌, All, inl,
  inr, Bool-cases, Option-cases,
}
use system_security.Grants.{
  Grant, GrantStore, grants_of, find_number, get, is_for_key, erase_first, remove_all_grants_to_key,
  remove_all_grants_to_uid, parse_grant_alias,
}

-- At most one grant of the set is for the key.
abbrev pub OnceFor : ℕ → List ℕ → List Grant → Type 0
OnceFor granter_uid alias [] = Unit {0}
OnceFor granter_uid alias (g ∷ gs) =
    (is_for_key granter_uid alias g ≡ true → All (λ h. is_for_key granter_uid alias h ≡ false) gs)
    × OnceFor granter_uid alias gs

erase_first-none :
    (granter_uid : ℕ) (alias : List ℕ) (gs : List Grant)
    → OnceFor granter_uid alias gs
    → All (λ h. is_for_key granter_uid alias h ≡ false) (erase_first granter_uid alias gs)
unfolding erase_first
erase_first-none granter_uid alias [] o = tt
erase_first-none granter_uid alias (g ∷ gs) o = elim (Bool-cases (is_for_key granter_uid alias g)) [
  | inl b ↦ rw b (o.0 b)
  | inr b ↦ rw b (b, erase_first-none granter_uid alias gs o.1)
]

find_number-All :
    (P : Grant → Type 0) (n : ℕ) (gs : List Grant) (g : Grant)
    → All P gs
    → find_number n gs ≡ some g
    → P g
unfolding find_number
find_number-All P n [] g a h = cc
find_number-All P n (x ∷ gs) g a h = elim (Bool-cases (x.grant_no == n)) [
  | inl b ↦ subst P {x = x} (ground arith) a.0
  | inr b ↦ find_number-All P n gs g a.1 (ground arith)
]

grants_of-remove_all_grants_to_key :
    (granter_uid : ℕ) (alias : List ℕ) (uid : ℕ) (store : GrantStore)
    → grants_of uid (remove_all_grants_to_key granter_uid alias store)
      ≡ erase_first granter_uid alias (grants_of uid store)
unfolding grants_of remove_all_grants_to_key erase_first
grants_of-remove_all_grants_to_key granter_uid alias uid [] = refl
grants_of-remove_all_grants_to_key granter_uid alias uid ((u, gs) ∷ rest) =
    ground (arith, grants_of-remove_all_grants_to_key granter_uid alias uid rest)

get-find_number :
    (uid : ℕ) (name : List ℕ) (store : GrantStore) (g : Grant)
    → get uid name store ≡ some g
    → (n : ℕ) × (find_number n (grants_of uid store) ≡ some g)
unfolding get
get-find_number uid name store g h = elim (Option-cases (parse_grant_alias name)) [
  | inl k ↦ absurd (ground arith)
  | inr ((n, w), k) ↦ elim (Option-cases (find_number n (grants_of uid store))) [
    | inl f ↦ absurd (ground arith)
    | inr (x, f) ↦ (n, ground arith)
  ]
]

-- After removeAllGrantsToKey no alias leads a uid to the key, if the uid had one grant for it at most.
pub get-remove_all_grants_to_key :
    (granter_uid : ℕ) (alias : List ℕ) (store : GrantStore) (uid : ℕ) (name : List ℕ) (g : Grant)
    → OnceFor granter_uid alias (grants_of uid store)
    → get uid name (remove_all_grants_to_key granter_uid alias store) ≡ some g
    → is_for_key granter_uid alias g ≡ false
get-remove_all_grants_to_key granter_uid alias store uid name g o h =
    let (n, f) = get-find_number uid name _ g h in
    find_number-All (λ x. is_for_key granter_uid alias x ≡ false) n _ g
      (erase_first-none granter_uid alias (grants_of uid store) o)
      (rw grants_of-remove_all_grants_to_key at f)

grants_of-remove_all_grants_to_uid :
    (grantee_uid uid : ℕ) (store : GrantStore)
    → grants_of uid (remove_all_grants_to_uid grantee_uid store)
      ≡ (if uid == grantee_uid then [] else grants_of uid store)
unfolding grants_of remove_all_grants_to_uid
grants_of-remove_all_grants_to_uid grantee_uid uid [] = ground arith
grants_of-remove_all_grants_to_uid grantee_uid uid ((u, gs) ∷ rest) =
    ground (arith, grants_of-remove_all_grants_to_uid grantee_uid uid rest)

-- After removeAllGrantsToUid no alias leads the grantee to a key, and every alias leads the other uids
-- where it led before.
pub get-remove_all_grants_to_uid :
    (grantee_uid uid : ℕ) (name : List ℕ) (store : GrantStore)
    → get uid name (remove_all_grants_to_uid grantee_uid store)
      ≡ (if uid == grantee_uid then none else get uid name store)
unfolding get find_number
get-remove_all_grants_to_uid grantee_uid uid name store =
    ground (arith, grants_of-remove_all_grants_to_uid grantee_uid uid store)
