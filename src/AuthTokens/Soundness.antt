-- ===== src/AuthTokens/Soundness.antt =====
-- keystore/auth_token_table.cpp: what FindAuthorization returns, for a key with a timeout and for one
-- that asks for authentication at each operation.
use system_security.Base.{
  ℕ, ◌+◌, ◌≤◌, ◌≡◌, ◌≢◌, refl, Bool, true, false, not, ◌&&◌, ◌⊎◌, inl, inr, Option, none, some,
  List, [], ◌∷◌, arith, ltb, ◌==◌, if◌then◌else◌, ltb→lt, is_some, Any, Bool-cases, Option-cases,
  ltb,
}
use system_security.Keymaster.{HardwareAuthToken, Authorizations, KeyPurpose, Tag}
use system_security.AuthTokens.{
  ok, auth_token_expired, auth_token_not_found, Entry, AuthTokenTable, satisfies_auth, default_or,
  find_open, newest_match, update_last_use, Found,
}
use system_security.AuthTokens.Newest.{Authorizes, Newest, newest_match-Newest}
use system_security.AuthTokens.Find.{
  fail, find_auth_per_op_authorization, extract_sids, find_timed_authorization, key_auth_type,
}

-- An open entry is one for the challenge whose operation is not completed.
abbrev pub IsOpen : ℕ → Entry → Type 0
IsOpen c e = (e.token.challenge ≡ c) × (e.operation_completed ≡ false)

pub find_open_sound :
    (c : ℕ) (es : List Entry) (e : Entry)
    → find_open c es ≡ some e
    → Any (λ x. x ≡ e) es × IsOpen c e
unfolding find_open
find_open_sound c [] e h = cc
find_open_sound c (x ∷ es) e h =
    elim (Bool-cases (x.token.challenge == c && not x.operation_completed)) [
      | inl b ↦ (inl (ground arith), ground arith)
      | inr b ↦ let r = find_open_sound c es e (ground arith) in (inr r.0, r.1)
    ]

and_left : (a b : Bool) → (a && b) ≡ true → a ≡ true
and_left a b h = ground arith

pub per_op_ok :
    (t : AuthTokenTable) (sids : List ℕ) (auth_type op_handle : ℕ)
    → (find_auth_per_op_authorization t sids auth_type op_handle).0 ≡ ok
    → (e : Entry) × (find_open op_handle t.entries ≡ some e)
      × (satisfies_auth e sids auth_type ≡ true)
      × (op_handle ≢ 0)
      × ((find_auth_per_op_authorization t sids auth_type op_handle).1 ≡ e.token)
unfolding find_auth_per_op_authorization
per_op_ok t sids auth_type op_handle h = elim (Option-cases (find_open op_handle t.entries)) [
  | inl n ↦ absurd (ground arith)
  | inr (e, f) ↦ (e, f, ground arith, ground arith, ground arith)
]

module _ {Param : Type 0} (km : Authorizations Param) where
  abbrev pub timeout_of : List Param → ℕ
  timeout_of key_info = default_or (km.get_tag_value Tag.auth_timeout key_info) 0

  abbrev pub on_body_only : List Param → Bool
  on_body_only key_info = is_some (km.get_tag_value Tag.allow_while_on_body key_info)

  -- The entry is within the timeout of the key, and the device was not taken off the body since,
  -- where the key asks for that.
  abbrev pub IsFresh : AuthTokenTable → List Param → ℕ → Entry → Type 0
  IsFresh t key_info now e =
      (now ≤ e.time_received + timeout_of key_info)
      × (on_body_only key_info ≡ true → t.last_off_body ≤ e.time_received)

  -- What the timed lookup does with the newest match.
  abbrev pub TimedOutcome :
      AuthTokenTable → List ℕ → ℕ → List Param → ℕ → Option (ℕ × Entry) → Found → Type 0
  TimedOutcome t sids auth_type key_info now none r = r ≡ fail auth_token_not_found t
  TimedOutcome t sids auth_type key_info now (some (i, e)) r =
      (IsFresh t key_info now e × (r ≡ (ok, e.token, update_last_use t i e now)))
      ⊎ ((¬ IsFresh t key_info now e) × (r ≡ fail auth_token_expired t))

  choice :
      (t : AuthTokenTable) (key_info : List Param) (now i : ℕ) (e : Entry)
      → let r : Found =
          if ltb (e.time_received + timeout_of key_info) now
          then fail auth_token_expired t
          else if on_body_only key_info && ltb e.time_received t.last_off_body
          then fail auth_token_expired t
          else (ok, e.token, update_last_use t i e now) in
        (IsFresh t key_info now e × (r ≡ (ok, e.token, update_last_use t i e now)))
        ⊎ ((¬ IsFresh t key_info now e) × (r ≡ fail auth_token_expired t))
  choice t key_info now i e = elim (Bool-cases (ltb (e.time_received + timeout_of key_info) now)) [
    | inl a ↦ inr ((λ f. omega (arith, ltb→lt _ _ a, f.0)), rw a)
    | inr a ↦ elim (Bool-cases (on_body_only key_info && ltb e.time_received t.last_off_body)) [
      | inl b ↦ inr ((λ f. ground (arith, f.1 (and_left _ _ b))), rw (a, b))
      | inr b ↦ inl ((ground arith, λ o. ground arith), rw (a, b))
    ]
  ]

  timed_outcome :
      (t : AuthTokenTable) (sids : List ℕ) (auth_type : ℕ) (key_info : List Param) (now : ℕ)
      → TimedOutcome t sids auth_type key_info now
          (newest_match sids auth_type 0 t.entries none)
          (find_timed_authorization km t sids auth_type key_info now)
  unfolding find_timed_authorization
  timed_outcome t sids auth_type key_info now =
      elim (Option-cases (newest_match sids auth_type 0 t.entries none)) [
        | inl e ↦ rw (e, find_timed_authorization) refl
        | inr ((i, x), e) ↦ rw (e, find_timed_authorization) (choice t key_info now i x)
      ]

  -- FindTimedAuthorization, on every branch: it reports that no token was found exactly if no entry
  -- authorizes; otherwise it judges the newest entry that does, and returns its token, marked as used
  -- now, exactly if that entry is fresh.
  pub find_timed_authorization_lem :
      (t : AuthTokenTable) (sids : List ℕ) (auth_type : ℕ) (key_info : List Param) (now : ℕ)
      → (best : Option (ℕ × Entry)) × Newest sids auth_type t.entries best
        × TimedOutcome t sids auth_type key_info now best
            (find_timed_authorization km t sids auth_type key_info now)
  find_timed_authorization_lem t sids auth_type key_info now = (
    newest_match sids auth_type 0 t.entries none,
    newest_match-Newest sids auth_type t.entries,
    timed_outcome t sids auth_type key_info now,
  )

  abbrev pub HasTimeout : List Param → Type 0
  HasTimeout key_info = (i : ℕ) × (km.find Tag.auth_timeout key_info ≡ some i)

  -- What justifies a token for a key: an entry of the table that authorizes and is open for the
  -- operation if the key has no timeout, and fresh if it has one.
  abbrev pub Justified :
      AuthTokenTable → List Param → KeyPurpose → ℕ → ℕ → HardwareAuthToken → Type 0
  Justified t key_info purpose op_handle now token =
      (e : Entry) × Any (λ x. x ≡ e) t.entries
      × (token ≡ e.token)
      × Authorizes e (extract_sids km key_info) (key_auth_type km key_info)
      × (((km.find Tag.auth_timeout key_info ≡ none) × (op_handle ≢ 0) × IsOpen op_handle e)
          ⊎ (HasTimeout key_info × IsFresh t key_info now e))
