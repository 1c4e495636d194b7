-- ===== src/AuthTokens/Bounds.antt =====
-- AuthTokenTable::AddAuthenticationToken: what the table holds after a token is added.
use system_security.Base.{ℕ, ◌≤◌, ◌≡◌, refl, List, [], ◌∷◌, arith, length, length-append}
use system_security.Keymaster.{HardwareAuthToken}
use system_security.AuthTokens.{
  Entry, AuthTokenTable, new_entry, remove_superseded, remove_entries_superseded_by, least_use,
  replace_first, replace_oldest, add_authentication_token,
}

length-remove_superseded :
    (n : Entry) (es : List Entry) → length (remove_superseded n es) ≤ length es
unfolding remove_superseded
length-remove_superseded n [] = omega arith
length-remove_superseded n (e ∷ es) = ground (arith, length-remove_superseded n es)

length-replace_first :
    (m : ℕ) (n : Entry) (es : List Entry) → length (replace_first m n es) ≡ length es
unfolding replace_first
length-replace_first m n [] = refl
length-replace_first m n (e ∷ es) = ground (arith, length-replace_first m n es)

length-replace_oldest : (n : Entry) (es : List Entry) → length (replace_oldest n es) ≡ length es
unfolding replace_oldest
length-replace_oldest n [] = refl
length-replace_oldest n (e ∷ es) = length-replace_first (least_use e.last_use es) n (e ∷ es)

-- The table keeps within its limit.
pub add_authentication_token-bounded :
    (t : AuthTokenTable) (token : HardwareAuthToken) (now : ℕ)
    → length t.entries ≤ t.max_entries
    → length (add_authentication_token t token now).entries ≤ t.max_entries
unfolding add_authentication_token remove_entries_superseded_by
add_authentication_token-bounded t token now h = ground (
  arith,
  length-remove_superseded (new_entry token now) t.entries,
  length-replace_oldest (new_entry token now) (remove_superseded (new_entry token now) t.entries),
  length-append (remove_superseded (new_entry token now) t.entries) (new_entry token now ∷ []),
)
