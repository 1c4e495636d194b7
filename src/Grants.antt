-- ===== src/Grants.antt =====
-- keystore/grant_store.h and grant_store.cpp: GrantStore. The set of a grantee is the list of its
-- grants in the order of their numbers; the map of the grantees is an association list. The numbers
-- that std::rand() returns are an argument.
pub mod Revocation
pub mod RoundTrip
use system_security.Base.{
  ℕ, ◌-◌, ◌^◌, Bool, true, false, not, ◌&&◌, Option, none, some, List, [], ◌∷◌, ◌++◌, ltb, ◌==◌,
  if◌then◌else◌,
}
use system_security.Text.{decimal, read_unsigned, split_last, text_eq}
use system_security.KeyBlob.{KeyBlobEntry, entry_eq}

pub record Grant : Type 0 where
  pub entry : KeyBlobEntry
  pub grant_no : ℕ

abbrev pub GrantStore : Type 0
GrantStore = List (ℕ × List Grant)

abbrev pub invalid_grant_no : ℕ
invalid_grant_no = 2 ^ 64 - 1

-- "_KEYSTOREGRANT_"
abbrev pub keystore_grant_infix : List ℕ
keystore_grant_infix =
    b'_' ∷ b'K' ∷ b'E' ∷ b'Y' ∷ b'S' ∷ b'T' ∷ b'O' ∷ b'R' ∷ b'E' ∷ b'G' ∷ b'R' ∷ b'A' ∷ b'N' ∷ b'T'
    ∷ b'_' ∷ []

-- parseGrantAlias; `none` is the pair with kInvalidGrantNo.
unfoldable pub parse_grant_alias : List ℕ → Option (ℕ × List ℕ)
parse_grant_alias grant_alias = elim (split_last keystore_grant_infix grant_alias) [
  | none ↦ none
  | some (wrapped_alias, rest) ↦ elim (read_unsigned (2 ^ 64) rest) [
    | none ↦ none
    | some grant_no ↦ if grant_no == invalid_grant_no then none else some (grant_no, wrapped_alias)
  ]
]

unfoldable pub grants_of : ℕ → GrantStore → List Grant
grants_of uid [] = []
grants_of uid ((u, gs) ∷ rest) = if u == uid then gs else grants_of uid rest

-- `grants_[uid] = gs`
unfoldable pub set_grants : ℕ → List Grant → GrantStore → GrantStore
set_grants uid gs [] = (uid, gs) ∷ []
set_grants uid gs ((u, hs) ∷ rest) =
    if u == uid then (u, gs) ∷ rest else (u, hs) ∷ set_grants uid gs rest

unfoldable pub find_entry : KeyBlobEntry → List Grant → Option Grant
find_entry e [] = none
find_entry e (g ∷ gs) = if entry_eq g.entry e then some g else find_entry e gs

unfoldable pub find_number : ℕ → List Grant → Option Grant
find_number n [] = none
find_number n (g ∷ gs) = if g.grant_no == n then some g else find_number n gs

-- `set::emplace`; `none` if the number is taken.
unfoldable pub emplace : Grant → List Grant → Option (List Grant)
emplace g [] = some (g ∷ [])
emplace g (h ∷ hs) =
    let rest : Option (List Grant) = elim (emplace g hs) [
      | none ↦ none
      | some gs ↦ some (h ∷ gs)
    ] in
    if ltb g.grant_no h.grant_no
    then some (g ∷ h ∷ hs)
    else if g.grant_no == h.grant_no
    then none
    else rest

-- The loop of `put`, over the numbers that std::rand() yields; `none` if they run out.
unfoldable pub draw : KeyBlobEntry → List ℕ → List Grant → Option (ℕ × List Grant)
draw e [] gs = none
draw e (n ∷ ns) gs = elim (emplace (record { entry = e; grant_no = n }) gs) [
  | some hs ↦ some (n, hs)
  | none ↦ draw e ns gs
]

abbrev pub grant_alias : KeyBlobEntry → ℕ → List ℕ
grant_alias e n = e.alias ++ (keystore_grant_infix ++ decimal n)

-- put: the alias of the grant, and the store.
unfoldable pub put : ℕ → KeyBlobEntry → List ℕ → GrantStore → Option (List ℕ × GrantStore)
put uid e rands store = elim (find_entry e (grants_of uid store)) [
  | some g ↦ some (grant_alias e g.grant_no, set_grants uid (grants_of uid store) store)
  | none ↦ elim (draw e rands (grants_of uid store)) [
    | none ↦ none
    | some (n, gs) ↦ some (grant_alias e n, set_grants uid gs store)
  ]
]

-- get
unfoldable pub get : ℕ → List ℕ → GrantStore → Option Grant
get uid alias store = elim (parse_grant_alias alias) [
  | none ↦ none
  | some (grant_no, wrapped_alias) ↦ elim (find_number grant_no (grants_of uid store)) [
    | none ↦ none
    | some g ↦ if text_eq g.entry.alias wrapped_alias then some g else none
  ]
]

unfoldable pub erase_entry : KeyBlobEntry → List Grant → Bool × List Grant
erase_entry e [] = (false, [])
erase_entry e (g ∷ gs) =
    let (found, rest) = erase_entry e gs in
    if entry_eq g.entry e then (true, gs) else (found, g ∷ rest)

-- removeByFileAlias
unfoldable pub remove_by_file_alias : ℕ → KeyBlobEntry → GrantStore → Bool × GrantStore
remove_by_file_alias grantee_uid e store =
    let (found, gs) = erase_entry e (grants_of grantee_uid store) in
    (found, set_grants grantee_uid gs store)

abbrev pub is_for_key : ℕ → List ℕ → Grant → Bool
is_for_key granter_uid alias g = text_eq g.entry.alias alias && g.entry.uid == granter_uid

-- The inner loop of removeAllGrantsToKey: it stops at the first grant that it erases.
unfoldable pub erase_first : ℕ → List ℕ → List Grant → List Grant
erase_first granter_uid alias [] = []
erase_first granter_uid alias (g ∷ gs) =
    if is_for_key granter_uid alias g then gs else g ∷ erase_first granter_uid alias gs

-- removeAllGrantsToKey
unfoldable pub remove_all_grants_to_key : ℕ → List ℕ → GrantStore → GrantStore
unfolding erase_first
remove_all_grants_to_key granter_uid alias [] = []
remove_all_grants_to_key granter_uid alias ((u, gs) ∷ rest) =
    (u, erase_first granter_uid alias gs) ∷ remove_all_grants_to_key granter_uid alias rest

-- removeAllGrantsToUid
unfoldable pub remove_all_grants_to_uid : ℕ → GrantStore → GrantStore
remove_all_grants_to_uid grantee_uid [] = []
remove_all_grants_to_uid grantee_uid ((u, gs) ∷ rest) =
    let others = remove_all_grants_to_uid grantee_uid rest in
    if u == grantee_uid then others else (u, gs) ∷ others
