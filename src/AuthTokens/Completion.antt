-- ===== src/AuthTokens/Completion.antt =====
-- keystore/auth_token_table.cpp: MarkCompleted, and what a table holds right after a token is added.
use mathlib.Core.List.{append_assoc, append-nil}
use system_security.Base.{
  ℕ, ◌≤◌, ◌<◌, ◌≡◌, ◌≢◌, refl, sym, ◌∙◌, Bool, true, false, ◌⊎◌, inl, inr, none, List, [], ◌∷◌,
  ◌++◌, ◌&&◌, ◌||◌, arith, ltb, leb, ◌==◌, if◌then◌else◌, length, All, Any, All-append, All-map,
  Bool-cases,
}
use system_security.Keymaster.{HardwareAuthToken}
use system_security.AuthTokens.{
  Entry, AuthTokenTable, new_entry, is_newer_than, supersedes, remove_superseded,
  remove_entries_superseded_by, least_use, replace_first, replace_oldest, add_authentication_token,
  find_open, auth_token_not_found,
}
use system_security.AuthTokens.Find.{
  complete, mark_first, mark_completed, find_auth_per_op_authorization, fail,
}

abbrev pub Elsewhere : ℕ → List Entry → Type 0
Elsewhere op_handle es = All (λ x. x.token.challenge ≢ op_handle) es

find_open-append :
    (c : ℕ) (xs ys : List Entry) → Elsewhere c xs → find_open c (xs ++ ys) ≡ find_open c ys
unfolding find_open
find_open-append c [] ys h = refl
find_open-append c (x ∷ xs) ys h = ground (arith, find_open-append c xs ys h.1, h.0)

find_open-Elsewhere : (c : ℕ) (xs : List Entry) → Elsewhere c xs → find_open c xs ≡ none
unfolding find_open
find_open-Elsewhere c [] h = refl
find_open-Elsewhere c (x ∷ xs) h = ground (arith, find_open-Elsewhere c xs h.1, h.0)

mark_first-append :
    (c : ℕ) (seen xs : List Entry) (e : Entry) (ys : List Entry)
    → Elsewhere c xs
    → e.token.challenge ≡ c
    → mark_first c seen (xs ++ e ∷ ys)
      ≡ complete (seen ++ xs) (record e { operation_completed = true }) ys
unfolding mark_first
mark_first-append c seen [] e ys h k = ground (arith, append-nil seen)
mark_first-append c seen (x ∷ xs) e ys h k =
    ground (
      arith,
      mark_first-append c (seen ++ x ∷ []) xs e ys h.1 k,
      append_assoc seen (x ∷ []) xs,
      h.0,
    )

find_open-complete :
    (c : ℕ) (xs : List Entry) (e : Entry) (ys : List Entry)
    → Elsewhere c xs
    → Elsewhere c ys
    → find_open c (complete xs (record e { operation_completed = true }) ys) ≡ none
unfolding complete find_open
find_open-complete c xs e ys h k = ground (
  arith,
  find_open-append c xs ys h,
  find_open-append c xs (record e { operation_completed = true } ∷ ys) h,
  find_open-Elsewhere c ys k,
)

-- After MarkCompleted no token authorizes the operation any more, if one entry alone was for it.
pub mark_completed-not_found :
    (t : AuthTokenTable) (sids : List ℕ) (auth_type op_handle : ℕ) (xs : List Entry) (e : Entry)
    (ys : List Entry)
    → op_handle ≢ 0
    → t.entries ≡ xs ++ e ∷ ys
    → e.token.challenge ≡ op_handle
    → Elsewhere op_handle xs
    → Elsewhere op_handle ys
    → find_auth_per_op_authorization (mark_completed t op_handle) sids auth_type op_handle
      ≡ fail auth_token_not_found (mark_completed t op_handle)
unfolding mark_completed find_auth_per_op_authorization
mark_completed-not_found t sids auth_type op_handle xs e ys ne es k hx hy =
    ground (
      arith,
      mark_first-append op_handle [] xs e ys hx k,
      find_open-complete op_handle xs e ys hx hy,
    )

Any-append_one : (P : Entry → Type 0) (es : List Entry) (n : Entry) → P n → Any P (es ++ n ∷ [])
Any-append_one P [] n h = inl h
Any-append_one P (e ∷ es) n h = inr (Any-append_one P es n h)

replace_first-present :
    (m : ℕ) (n : Entry) (es : List Entry)
    → Any (λ x. x.last_use ≡ m) es
    → Any (λ x. x ≡ n) (replace_first m n es)
unfolding replace_first
replace_first-present m n [] h = absurd h
replace_first-present m n (e ∷ es) h = elim (Bool-cases (e.last_use == m)) [
  | inl b ↦ rw b (inl refl)
  | inr b ↦
      rw b (elim h [ inl p ↦ absurd (ground arith) | inr p ↦ inr (replace_first-present m n es p) ])
]

chosen : (b : Bool) (a m k : ℕ) → (if b then a else m) ≡ k → (m ≡ k) ⊎ (a ≡ k)
chosen true a m k h = inr h
chosen false a m k h = inl h

-- The least use is the start of the search or that of an entry.
least_use-attained :
    (m : ℕ) (es : List Entry) (k : ℕ) → least_use m es ≡ k → (m ≡ k) ⊎ Any (λ x. x.last_use ≡ k) es
unfolding least_use
least_use-attained m [] k h = inl h
least_use-attained m (e ∷ es) k h =
    elim (least_use-attained (if ltb e.last_use m then e.last_use else m) es k h) [
      | inr p ↦ inr (inr p)
      | inl p ↦ elim (chosen (ltb e.last_use m) e.last_use m k p) [
        | inl q ↦ inl q
        | inr q ↦ inr (inl q)
      ]
    ]

replace_oldest-present :
    (n : Entry) (es : List Entry) → 0 < length es → Any (λ x. x ≡ n) (replace_oldest n es)
unfolding replace_oldest
replace_oldest-present n [] h = absurd (omega arith)
replace_oldest-present n (e ∷ es) h =
    replace_first-present (least_use e.last_use es) n (e ∷ es)
      (least_use-attained e.last_use es _ refl)

-- A new token is in the table after it was added.
pub add_authentication_token-present :
    (t : AuthTokenTable) (token : HardwareAuthToken) (now : ℕ)
    → 0 < t.max_entries
    → Any (λ x. x ≡ new_entry token now) (add_authentication_token t token now).entries
unfolding add_authentication_token remove_entries_superseded_by
add_authentication_token-present t token now h =
    let n = new_entry token now in
    let es = remove_superseded n t.entries in
    elim (Bool-cases (leb t.max_entries (length es))) [
      | inl b ↦ rw b (replace_oldest-present n es (ground arith))
      | inr b ↦ rw b (Any-append_one _ es n refl)
    ]

remove_superseded-All :
    (n : Entry) (es : List Entry) → All (λ x. supersedes n x ≡ false) (remove_superseded n es)
unfolding remove_superseded
remove_superseded-All n [] = tt
remove_superseded-All n (e ∷ es) = elim (Bool-cases (supersedes n e)) [
  | inl b ↦ rw b (remove_superseded-All n es)
  | inr b ↦ rw b (b, remove_superseded-All n es)
]

supersedes_self : (n : Entry) → supersedes n n ≡ false
unfolding supersedes
supersedes_self n = ground arith

replace_first-All :
    (P : Entry → Type 0) (m : ℕ) (n : Entry) (es : List Entry)
    → P n
    → All P es
    → All P (replace_first m n es)
unfolding replace_first
replace_first-All P m n [] p h = tt
replace_first-All P m n (e ∷ es) p h = elim (Bool-cases (e.last_use == m)) [
  | inl b ↦ rw b (p, h.1)
  | inr b ↦ rw b (h.0, replace_first-All P m n es p h.1)
]

replace_oldest-All :
    (P : Entry → Type 0) (n : Entry) (es : List Entry)
    → P n
    → All P es
    → All P (replace_oldest n es)
unfolding replace_oldest
replace_oldest-All P n [] p h = tt
replace_oldest-All P n (e ∷ es) p h = replace_first-All P (least_use e.last_use es) n (e ∷ es) p h

-- What the new token, received now, supersedes: an entry whose operation is completed, for the same
-- user and authenticator, and older by the token's time, or of the same time and received before.
abbrev pub Superseded : HardwareAuthToken → ℕ → Entry → Type 0
Superseded token now e =
    (e.operation_completed ≡ true)
    × (token.user_id ≡ e.token.user_id)
    × (token.authenticator_type ≡ e.token.authenticator_type)
    × (token.authenticator_id ≡ e.token.authenticator_id)
    × ((e.token.timestamp < token.timestamp)
        ⊎ ((token.timestamp ≡ e.token.timestamp) × (e.time_received < now)))

new_entry-supersedes :
    (token : HardwareAuthToken) (now : ℕ) (e : Entry)
    → supersedes (new_entry token now) e ≡ (
        e.operation_completed
        && (token.user_id == e.token.user_id
            && (token.authenticator_type == e.token.authenticator_type
                && (token.authenticator_id == e.token.authenticator_id
                    && (ltb e.token.timestamp token.timestamp
                        || (token.timestamp == e.token.timestamp && ltb e.time_received now))))))
unfolding supersedes is_newer_than new_entry
new_entry-supersedes token now e = refl

kept-not_Superseded :
    (token : HardwareAuthToken) (now : ℕ) (e : Entry)
    → supersedes (new_entry token now) e ≡ false
    → ¬ Superseded token now e
kept-not_Superseded token now e h (c, u, t, a, inl o) =
    ground (arith, sym (new_entry-supersedes token now e) ∙ h, c, u, t, a, o)
kept-not_Superseded token now e h (c, u, t, a, inr o) =
    ground (arith, sym (new_entry-supersedes token now e) ∙ h, c, u, t, a, o.0, o.1)

removed-Superseded :
    (token : HardwareAuthToken) (now : ℕ) (e : Entry)
    → supersedes (new_entry token now) e ≡ true
    → Superseded token now e
removed-Superseded token now e h =
    let k = sym (new_entry-supersedes token now e) ∙ h in
    (ground (arith, k), ground (arith, k), ground (arith, k), ground (arith, k), ground (arith, k))

-- An entry that is in the list, or was superseded.
abbrev pub Accounted : HardwareAuthToken → ℕ → List Entry → Entry → Type 0
Accounted token now es e = Superseded token now e ⊎ Any (λ x. x ≡ e) es

weaken_by_one :
    (token : HardwareAuthToken) (now : ℕ) (x e : Entry) (es : List Entry)
    → Accounted token now es e
    → Accounted token now (x ∷ es) e
weaken_by_one token now x e es (inl h) = inl h
weaken_by_one token now x e es (inr h) = inr (inr h)

first_entry_kept :
    (token : HardwareAuthToken) (now : ℕ) (e : Entry) (es rest : List Entry) (b : Bool)
    → supersedes (new_entry token now) e ≡ b
    → All (Accounted token now rest) es
    → All (Accounted token now (if b then rest else e ∷ rest)) (e ∷ es)
first_entry_kept token now e es rest true h a = (inl (removed-Superseded token now e h), a)
first_entry_kept token now e es rest false h a =
    (inr (inl refl), All-map (λ x k. weaken_by_one token now e x rest k) es a)

remove_superseded-Accounted :
    (token : HardwareAuthToken) (now : ℕ) (es : List Entry)
    → All (Accounted token now (remove_superseded (new_entry token now) es)) es
unfolding remove_superseded
remove_superseded-Accounted token now [] = tt
remove_superseded-Accounted token now (e ∷ es) =
    first_entry_kept token now e es (remove_superseded (new_entry token now) es)
      (supersedes (new_entry token now) e) refl (remove_superseded-Accounted token now es)

Any-snoc : (e n : Entry) (es : List Entry) → Any (λ x. x ≡ e) es → Any (λ x. x ≡ e) (es ++ n ∷ [])
Any-snoc e n [] h = absurd h
Any-snoc e n (x ∷ es) (inl h) = inl h
Any-snoc e n (x ∷ es) (inr h) = inr (Any-snoc e n es h)

weaken_at_end :
    (token : HardwareAuthToken) (now : ℕ) (n e : Entry) (es : List Entry)
    → Accounted token now es e
    → Accounted token now (es ++ n ∷ []) e
weaken_at_end token now n e es (inl h) = inl h
weaken_at_end token now n e es (inr h) = inr (Any-snoc e n es h)

length-remove_superseded :
    (n : Entry) (es : List Entry) → length (remove_superseded n es) ≤ length es
unfolding remove_superseded
length-remove_superseded n [] = omega arith
length-remove_superseded n (e ∷ es) = ground (arith, length-remove_superseded n es)

-- No entry that the new token supersedes stays in the table; and if the table had room, every other
-- entry stays.
pub add_authentication_token-supersedes :
    (t : AuthTokenTable) (token : HardwareAuthToken) (now : ℕ)
    → (let after = add_authentication_token t token now in
        All (λ e. ¬ Superseded token now e) after.entries
        × (All (Accounted token now after.entries) t.entries ⊎ (t.max_entries ≤ length t.entries)))
unfolding add_authentication_token remove_entries_superseded_by
add_authentication_token-supersedes t token now =
    let n = new_entry token now in
    let es = remove_superseded n t.entries in
    let kept =
      All-map (λ e h. kept-not_Superseded token now e h) es (remove_superseded-All n t.entries) in
    let self = kept-not_Superseded token now n (supersedes_self n) in
    elim (Bool-cases (leb t.max_entries (length es))) [
      | inl b ↦ rw b (
        replace_oldest-All _ n es self kept,
        inr (ground (arith, length-remove_superseded n t.entries)),
      )
      | inr b ↦ rw b (
        All-append _ es _ kept (self, tt),
        inl (
            All-map (λ e h. weaken_at_end token now n e es h) t.entries
              (remove_superseded-Accounted token now t.entries)),
      )
    ]
