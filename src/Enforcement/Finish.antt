-- ===== src/Enforcement/Finish.antt =====
-- keystore/keymaster_enforcement.cpp: what AuthorizeUpdateOrFinish and AuthorizeOperation let through.
use system_security.Base.{
  ℕ, ◌<◌, ◌≡◌, ◌≢◌, ◌↔◌, refl, sym, subst, ◌∙◌, ◌||◌, if◌then◌else◌, Bool, true, false, ◌&&◌, ◌⊎◌,
  inl, inr, Option, none, some, List, [], ◌∷◌, arith, is_some, Bool-cases, Option-cases, All, Any,
  length, ltb, ◌==◌, bit_and,
}
use system_security.Keymaster.{HardwareAuthToken, Authorizations, Tag, ErrorCode}
use system_security.Enforcement.{Context}
use system_security.Enforcement.Begin.{auth_token_matches, value_at}
use system_security.Enforcement.Tags.{
  is_timeout, is_auth_type, is_no_auth, has, last_index, last_value, last_index-has, value_of_last,
  scan_lem,
}
use system_security.Enforcement.Operation.{
  match_ids, Scan, nothing_to_check, type_index, authorize_update_or_finish,
}

module _ {Param : Type 0} (km : Authorizations Param) where
  -- A token that counts for a secure id when an operation goes on: its signature is valid, its
  -- challenge is the operation's, it is for the id, and its type is one that the key accepts.
  pub record Vouches (c : Context) (auth_set : List Param) (token : HardwareAuthToken)
      (ix : Option ℕ) (op_handle sid : ℕ) : Type 0 where
    pub mac_given : 0 < length token.mac
    pub signature : c.validate_token_signature token ≡ true
    pub challenge : op_handle ≢ 0 → op_handle ≡ token.challenge
    pub secure_id : (sid ≡ token.user_id) ⊎ (sid ≡ token.authenticator_id)
    pub kind :
        (mask : ℕ) × (value_at km Tag.user_auth_type auth_set ix ≡ some mask)
        × (bit_and mask token.authenticator_type ≢ 0)

  matches-Vouches :
      (c : Context) (auth_set : List Param) (token : HardwareAuthToken) (ix : Option ℕ)
      (op_handle sid : ℕ)
      → (ltb 0 (length token.mac)
          && auth_token_matches km c auth_set token sid ix none op_handle false)
        ≡ true
      → Vouches c auth_set token ix op_handle sid
  unfolding auth_token_matches
  matches-Vouches c auth_set token ix op_handle sid h =
      elim (Option-cases (value_at km Tag.user_auth_type auth_set ix)) [
        | inl e ↦ absurd (ground arith)
        | inr (mask, e) ↦ record {
          mac_given = ground arith;
          signature = ground arith;
          challenge = λ ne. ground arith;
          secure_id = ground arith;
          kind = (mask, e, ground arith);
        }
      ]

  Vouches-matches :
      (c : Context) (auth_set : List Param) (token : HardwareAuthToken) (ix : Option ℕ)
      (op_handle sid : ℕ)
      → Vouches c auth_set token ix op_handle sid
      → (ltb 0 (length token.mac)
          && auth_token_matches km c auth_set token sid ix none op_handle false)
        ≡ true
  unfolding auth_token_matches
  Vouches-matches c auth_set token ix op_handle sid v =
      let (mask, e, k) = v.kind in
      elim (Bool-cases (op_handle == 0)) [
        | inl z ↦ ground (arith, v.mac_given, v.signature, v.secure_id, e, k)
        | inr z ↦
            ground
              (arith, v.mac_given, v.signature, v.secure_id, e, k, v.challenge (λ q. ground arith))
      ]

  -- A secure id of the list is vouched for.
  abbrev pub SomeVouched :
      Context → List Param → HardwareAuthToken → Option ℕ → ℕ → List Param → Type 0
  SomeVouched c auth_set token ix op_handle ps =
      Any
        (λ p.
          (sid : ℕ) × (km.authorization_value Tag.user_secure_id p ≡ some sid)
          × Vouches c auth_set token ix op_handle sid)
        ps

  abbrev pub NoSecureId : List Param → Type 0
  NoSecureId ps = All (λ p. km.authorization_value Tag.user_secure_id p ≡ none) ps

  match_ids_sound :
      (c : Context) (auth_set : List Param) (token : HardwareAuthToken) (ix : Option ℕ)
      (op_handle : ℕ) (ps : List Param) (required : Bool)
      → match_ids km c auth_set token ix op_handle ps required ≡ ErrorCode.ok
      → SomeVouched c auth_set token ix op_handle ps ⊎ ((required ≡ false) × NoSecureId ps)
  unfolding match_ids
  match_ids_sound c auth_set token ix op_handle [] required h = inr (ground arith, tt)
  match_ids_sound c auth_set token ix op_handle (p ∷ ps) required h =
      elim (Option-cases (km.authorization_value Tag.user_secure_id p)) [
        | inl e ↦ elim (match_ids_sound c auth_set token ix op_handle ps required (ground arith)) [
          | inl v ↦ inl (inr v)
          | inr n ↦ inr (n.0, (e, n.1))
        ]
        | inr (sid, e) ↦
            elim (Bool-cases (
              ltb 0 (length token.mac)
              && auth_token_matches km c auth_set token sid ix none op_handle false)) [
                | inl b ↦ inl (inl (sid, e, matches-Vouches c auth_set token ix op_handle sid b))
                | inr b ↦
                    elim (match_ids_sound c auth_set token ix op_handle ps true (ground arith)) [
                      | inl v ↦ inl (inr v)
                      | inr n ↦ cc
                    ]
              ]
      ]

  match_ids_complete :
      (c : Context) (auth_set : List Param) (token : HardwareAuthToken) (ix : Option ℕ)
      (op_handle : ℕ) (ps : List Param) (required : Bool)
      → SomeVouched c auth_set token ix op_handle ps ⊎ ((required ≡ false) × NoSecureId ps)
      → match_ids km c auth_set token ix op_handle ps required ≡ ErrorCode.ok
  unfolding match_ids
  match_ids_complete c auth_set token ix op_handle [] required (inl h) = absurd h
  match_ids_complete c auth_set token ix op_handle [] required (inr h) = ground arith
  match_ids_complete c auth_set token ix op_handle (p ∷ ps) required (inl (inl (sid, e, v))) =
      ground (arith, Vouches-matches c auth_set token ix op_handle sid v)
  match_ids_complete c auth_set token ix op_handle (p ∷ ps) required (inl (inr h)) = ground (
    arith,
    match_ids_complete c auth_set token ix op_handle ps required (inl h),
    match_ids_complete c auth_set token ix op_handle ps true (inl h),
  )
  match_ids_complete c auth_set token ix op_handle (p ∷ ps) required (inr h) = ground (
    arith,
    match_ids_complete c auth_set token ix op_handle ps required (inr (h.0, h.1.1)),
    h.1.0,
  )

  -- A parameter of the key is a secure id that the token vouches for: the token has a MAC, a valid
  -- signature and, where the operation has a handle, that handle as its challenge, it is for the secure
  -- id, and it is of a type that the key's last USER_AUTH_TYPE accepts.
  abbrev pub IdVouched : Context → List Param → HardwareAuthToken → ℕ → Param → Type 0
  IdVouched c auth_set token op_handle p =
      (sid : ℕ) × (km.authorization_value Tag.user_secure_id p ≡ some sid)
      × (0 < length token.mac)
      × (c.validate_token_signature token ≡ true)
      × ((op_handle ≡ 0) ⊎ (op_handle ≡ token.challenge))
      × ((sid ≡ token.user_id) ⊎ (sid ≡ token.authenticator_id))
      × ((mask : ℕ) × (last_value km is_auth_type Tag.user_auth_type auth_set none ≡ some mask)
          × (bit_and mask token.authenticator_type ≢ 0))

  auth_index : List Param → Option ℕ
  auth_index auth_set = last_index km is_auth_type 0 auth_set none

  Vouches→IdVouched :
      (c : Context) (auth_set : List Param) (token : HardwareAuthToken) (op_handle : ℕ) (p : Param)
      → (sid : ℕ) × (km.authorization_value Tag.user_secure_id p ≡ some sid)
        × Vouches c auth_set token (auth_index auth_set) op_handle sid
      → IdVouched c auth_set token op_handle p
  unfolding auth_index
  Vouches→IdVouched c auth_set token op_handle p (sid, e, v) =
      let (mask, k, ne) = v.kind in
      (
        sid,
        e,
        v.mac_given,
        v.signature,
        elim (Bool-cases (op_handle == 0)) [
          | inl z ↦ inl (ground (arith, z))
          | inr z ↦ inr (v.challenge (λ q. ground (arith, z, q)))
        ],
        v.secure_id,
        (mask, sym (value_of_last km is_auth_type Tag.user_auth_type auth_set) ∙ k, ne),
      )

  IdVouched→Vouches :
      (c : Context) (auth_set : List Param) (token : HardwareAuthToken) (op_handle : ℕ) (p : Param)
      → IdVouched c auth_set token op_handle p
      → (sid : ℕ) × (km.authorization_value Tag.user_secure_id p ≡ some sid)
        × Vouches c auth_set token (auth_index auth_set) op_handle sid
  unfolding auth_index
  IdVouched→Vouches c auth_set token op_handle p (sid, e, m, g, ch, w, (mask, k, ne)) = (
    sid,
    e,
    record {
      mac_given = m;
      signature = g;
      challenge = λ q. elim ch [ inl z ↦ absurd (q z) | inr h ↦ h ];
      secure_id = w;
      kind = (mask, value_of_last km is_auth_type Tag.user_auth_type auth_set ∙ k, ne);
    },
  )

  -- What lets an operation of the key go on.
  abbrev pub Allows : Context → List Param → HardwareAuthToken → ℕ → Type 0
  Allows c auth_set token op_handle =
      (has km is_no_auth auth_set ≡ true)
      ⊎ (has km is_timeout auth_set ≡ true)
      ⊎ Any (IdVouched c auth_set token op_handle) auth_set
      ⊎ ((has km is_auth_type auth_set ≡ false) × NoSecureId auth_set)

  Any-map :
      {P Q : Param → Type 0} → ((x : Param) → P x → Q x) → (ps : List Param) → Any P ps → Any Q ps
  Any-map f [] h = absurd h
  Any-map f (x ∷ ps) (inl h) = inl (f x h)
  Any-map f (x ∷ ps) (inr h) = inr (Any-map f ps h)

  index_has : (ps : List Param) → is_some (auth_index ps) ≡ has km is_auth_type ps
  unfolding auth_index
  index_has ps = last_index-has km is_auth_type 0 ps none ∙ ground arith

  checked_iff :
      (c : Context) (auth_set : List Param) (token : HardwareAuthToken) (op_handle : ℕ)
      → (match_ids km c auth_set token
            (auth_index auth_set)
            op_handle
            auth_set
            (is_some (auth_index auth_set))
          ≡ ErrorCode.ok)
        ↔ (Any (IdVouched c auth_set token op_handle) auth_set
            ⊎ ((has km is_auth_type auth_set ≡ false) × NoSecureId auth_set))
  checked_iff c auth_set token op_handle =
      let ix = auth_index auth_set in
      (
        (λ h. elim (match_ids_sound c auth_set token ix op_handle auth_set (is_some ix) h) [
          | inl v ↦ inl (Any-map (Vouches→IdVouched c auth_set token op_handle) auth_set v)
          | inr (n, k) ↦ inr (sym (index_has auth_set) ∙ n, k)
        ]),
        (λ h. match_ids_complete c auth_set token ix op_handle auth_set (is_some ix) (elim h [
          | inl v ↦ inl (Any-map (IdVouched→Vouches c auth_set token op_handle) auth_set v)
          | inr (n, k) ↦ inr (index_has auth_set ∙ n, k)
        ])),
      )

  abbrev answer_of : Context → List Param → HardwareAuthToken → ℕ → Scan → ErrorCode
  answer_of c auth_set token op_handle x = elim x [
    | nothing_to_check ↦ ErrorCode.ok
    | type_index ix ↦ match_ids km c auth_set token ix op_handle auth_set (is_some ix)
  ]

  allowed_iff :
      (c : Context) (auth_set : List Param) (token : HardwareAuthToken) (op_handle : ℕ) (a b : Bool)
      → has km is_no_auth auth_set ≡ a
      → has km is_timeout auth_set ≡ b
      → (answer_of c auth_set token op_handle
            (if a || b then nothing_to_check else type_index (auth_index auth_set))
          ≡ ErrorCode.ok)
        ↔ Allows c auth_set token op_handle
  allowed_iff c auth_set token op_handle true b e f = ((λ h. inl e), (λ h. refl))
  allowed_iff c auth_set token op_handle false true e f = ((λ h. inr (inl f)), (λ h. refl))
  allowed_iff c auth_set token op_handle false false e f =
      let k = checked_iff c auth_set token op_handle in
      (
        (λ h. inr (inr (k.0 h))),
        (λ h. elim h [ inl x ↦ cc | inr (inl x) ↦ cc | inr (inr v) ↦ k.1 v ]),
      )

  -- AuthorizeUpdateOrFinish returns OK exactly if the key has NO_AUTH_REQUIRED, or a timeout, or a
  -- secure id that the token vouches for, or neither an authenticator type nor a secure id.
  pub authorize_update_or_finish_iff :
      (c : Context) (auth_set : List Param) (token : HardwareAuthToken) (op_handle : ℕ)
      → (authorize_update_or_finish km c auth_set token op_handle ≡ ErrorCode.ok)
        ↔ Allows c auth_set token op_handle
  unfolding authorize_update_or_finish auth_index
  authorize_update_or_finish_iff c auth_set token op_handle =
      subst
        (λ x.
          (answer_of c auth_set token op_handle x ≡ ErrorCode.ok)
          ↔ Allows c auth_set token op_handle)
        (sym (scan_lem km 0 auth_set none))
        (allowed_iff c auth_set token op_handle (has km is_no_auth auth_set)
          (has km is_timeout auth_set) refl refl)
