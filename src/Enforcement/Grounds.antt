-- ===== src/Enforcement/Grounds.antt =====
-- keystore/keymaster_enforcement.cpp: what a request has met when AuthorizeBegin returns OK, by the
-- tags of the key and the fields of the token.
use system_security.Base.{
  ℕ, ◌≡◌, ◌≢◌, refl, sym, ap, ◌∙◌, Bool, true, false, not, ◌<◌, ◌≤◌, ◌+◌, ◌⊎◌, ◌&&◌, inl, inr,
  Option, none, some, List, [], ◌∷◌, arith, is_some, Bool-cases, Option-cases, All, Any, All-map,
  bit_and, if◌then◌else◌, ◌==◌,
}
use system_security.Keymaster.{
  HardwareAuthToken, Authorizations, KeyPurpose, encrypt, decrypt, sign, verify, wrap_key, Tag,
  ErrorCode,
}
use system_security.Enforcement.{KeymasterEnforcement}
use system_security.Enforcement.Maps.{key_access_count, last_key_access_time}
use system_security.Enforcement.Begin.{
  is_origination_purpose, is_usage_purpose, label, Request, allowed_when_locked, uint32_max,
  value_or, holds, authorize_begin, indices, token_matches, auth_token_matches, value_at, Label,
}
use system_security.Enforcement.Rounds.{
  mentions, is_secure_id, is_nonce_allowed, is_unlocked, any_match, last_user, user_for,
}
use system_security.Enforcement.Tags.{
  is_timeout, is_auth_type, is_no_auth, has, last_value, last_index-has, value_of_last, indices_lem,
}
use system_security.Enforcement.Admission.{Permits, authorize_begin-Accepted}

abbrev pub is_id : Tag → Bool
is_id Tag.user_secure_id = true
is_id _ = false

abbrev pub is_user : Tag → Bool
is_user Tag.user_id = true
is_user _ = false

abbrev pub is_nonce : Tag → Bool
is_nonce Tag.caller_nonce = true
is_nonce _ = false

abbrev pub is_for_unlocked : Tag → Bool
is_for_unlocked Tag.unlocked_device_required = true
is_for_unlocked _ = false

positive_test : (n : ℕ) → not (n == 0) ≡ true → n ≢ 0
positive_test n h = λ e. ground (arith, h, e)

negation_false : (b : Bool) → not b ≡ true → b ≡ false
negation_false true h = cc
negation_false false h = refl

module _ {Param : Type 0} (km : Authorizations Param) where
  -- What a parameter of the key asks of a request, by its tag.
  abbrev pub Asks : KeymasterEnforcement → Request Param → Param → Tag → Type 0
  Asks s r p Tag.active_datetime =
      (date : ℕ)
      → km.authorization_value Tag.active_datetime p ≡ some date
      → r.context.activation_date_valid date ≡ true
  Asks s r p Tag.origination_expire_datetime =
      (date : ℕ)
      → (r.purpose ≡ encrypt) ⊎ (r.purpose ≡ sign)
      → km.authorization_value Tag.origination_expire_datetime p ≡ some date
      → r.context.expiration_date_passed date ≡ false
  Asks s r p Tag.usage_expire_datetime =
      (date : ℕ)
      → (r.purpose ≡ decrypt) ⊎ (r.purpose ≡ verify)
      → km.authorization_value Tag.usage_expire_datetime p ≡ some date
      → r.context.expiration_date_passed date ≡ false
  Asks s r p Tag.min_seconds_between_ops =
      (min last : ℕ)
      → km.authorization_value Tag.min_seconds_between_ops p ≡ some min
      → last_key_access_time s.access_time_map r.keyid ≡ some last
      → min + last ≤ r.context.get_current_time
  Asks s r p Tag.max_uses_per_boot =
      (max_uses count : ℕ)
      → km.authorization_value Tag.max_uses_per_boot p ≡ some max_uses
      → key_access_count s.access_count_map r.keyid ≡ some count
      → count < max_uses
  Asks s r p Tag.user_secure_id = has km is_no_auth r.auth_set ≡ false
  Asks s r p Tag.invalid = ⊥
  Asks s r p Tag.root_of_trust = ⊥
  Asks s r p Tag.application_data = ⊥
  Asks s r p Tag.attestation_challenge = ⊥
  Asks s r p Tag.attestation_application_id = ⊥
  Asks s r p Tag.attestation_id_brand = ⊥
  Asks s r p Tag.attestation_id_device = ⊥
  Asks s r p Tag.attestation_id_product = ⊥
  Asks s r p Tag.attestation_id_serial = ⊥
  Asks s r p Tag.attestation_id_imei = ⊥
  Asks s r p Tag.attestation_id_meid = ⊥
  Asks s r p Tag.attestation_id_manufacturer = ⊥
  Asks s r p Tag.attestation_id_model = ⊥
  Asks s r p Tag.bootloader_only = ⊥
  Asks s r p _ = Unit {0}

  origination_of : (p : KeyPurpose) → (p ≡ encrypt) ⊎ (p ≡ sign) → is_origination_purpose p ≡ true
  unfolding is_origination_purpose
  origination_of p (inl e) = rw e refl
  origination_of p (inr e) = rw e refl

  usage_of : (p : KeyPurpose) → (p ≡ decrypt) ⊎ (p ≡ verify) → is_usage_purpose p ≡ true
  unfolding is_usage_purpose
  usage_of p (inl e) = rw e refl
  usage_of p (inr e) = rw e refl

  when_locked : (p : KeyPurpose) → allowed_when_locked p ≡ true → (p ≡ encrypt) ⊎ (p ≡ verify)
  unfolding allowed_when_locked
  when_locked encrypt h = inl refl
  when_locked verify h = inr refl
  when_locked _ h = cc

  no_auth_absent :
      (ps : List Param)
      → (indices km ps).no_auth_required_index ≡ none
      → has km is_no_auth ps ≡ false
  no_auth_absent ps h =
      let e = ap (λ x. is_some x.no_auth_required_index) (indices_lem km ps) in
      let f = last_index-has km is_no_auth 0 ps none in ground (arith, sym e, sym f, h)

  asked :
      (s : KeymasterEnforcement) (r : Request Param) (p : Param) (t : Tag)
      → Permits km s r p (label t)
      → Asks s r p t
  unfolding label
  asked s r p Tag.user_secure_id h = no_auth_absent r.auth_set h
  asked s r p Tag.origination_expire_datetime h = λ d o. h d (origination_of r.purpose o)
  asked s r p Tag.usage_expire_datetime h = λ d o. h d (usage_of r.purpose o)
  asked s r p _ h = h

  -- A secure id of the key is matched by the token: its signature is valid, it is for the id and of a
  -- type that the key's last USER_AUTH_TYPE accepts, and it is not older than the last timeout.
  abbrev pub IdMatched : Request Param → HardwareAuthToken → Param → Type 0
  IdMatched r token p =
      (km.tag p ≡ Tag.user_secure_id)
      × ((sid : ℕ) × (km.authorization_value Tag.user_secure_id p ≡ some sid)
          × (r.context.validate_token_signature token ≡ true)
          × ((sid ≡ token.user_id) ⊎ (sid ≡ token.authenticator_id))
          × ((mask : ℕ) × (last_value km is_auth_type Tag.user_auth_type r.auth_set none
                ≡ some mask)
              × (bit_and mask token.authenticator_type ≢ 0))
          × ((timeout : ℕ) × (last_value km is_timeout Tag.auth_timeout r.auth_set none
                ≡ some timeout)
              × (r.context.auth_token_timed_out token timeout ≡ false)))

  abbrev pub SomeMatched : Request Param → List Param → Type 0
  SomeMatched r ps =
      (token : HardwareAuthToken) × (r.auth_token ≡ some token) × Any (IdMatched r token) ps

  type_at :
      (ps : List Param)
      → value_at km Tag.user_auth_type ps (indices km ps).auth_type_index
        ≡ last_value km is_auth_type Tag.user_auth_type ps none
  type_at ps =
      ap (λ x. value_at km Tag.user_auth_type ps x.auth_type_index) (indices_lem km ps)
      ∙ value_of_last km is_auth_type Tag.user_auth_type ps

  timeout_at :
      (ps : List Param)
      → value_at km Tag.auth_timeout ps (indices km ps).auth_timeout_index
        ≡ last_value km is_timeout Tag.auth_timeout ps none
  timeout_at ps =
      ap (λ x. value_at km Tag.auth_timeout ps x.auth_timeout_index) (indices_lem km ps)
      ∙ value_of_last km is_timeout Tag.auth_timeout ps

  held :
      (v : Option ℕ) (test : ℕ → Bool)
      → holds v test ≡ true
      → (d : ℕ) × (v ≡ some d) × (test d ≡ true)
  held none test h = cc
  held (some d) test h = (d, refl, h)

  only_id : (t : Tag) → is_secure_id (label t) ≡ true → t ≡ Tag.user_secure_id
  unfolding label
  only_id Tag.user_secure_id h = refl
  only_id _ h = cc

  is_id_lem : (t : Tag) → is_secure_id (label t) ≡ is_id t
  unfolding label
  is_id_lem Tag.user_secure_id = refl
  is_id_lem _ = refl

  is_nonce_lem : (t : Tag) → is_nonce_allowed (label t) ≡ is_nonce t
  unfolding label
  is_nonce_lem Tag.caller_nonce = refl
  is_nonce_lem _ = refl

  is_unlocked_lem : (t : Tag) → is_unlocked (label t) ≡ is_for_unlocked t
  unfolding label
  is_unlocked_lem Tag.unlocked_device_required = refl
  is_unlocked_lem _ = refl

  mentions-has :
      (is : Label → Bool) (by : Tag → Bool)
      → ((t : Tag) → is (label t) ≡ by t)
      → (ps : List Param) → mentions km is ps ≡ has km by ps
  unfolding mentions has
  mentions-has is by f [] = refl
  mentions-has is by f (p ∷ ps) = ground (arith, f (km.tag p), mentions-has is by f ps)

  -- The user of the last parameter that gives one.
  unfoldable pub user_of : List Param → ℕ → ℕ
  user_of [] d = d
  user_of (p ∷ ps) d = user_of ps (
      if is_user (km.tag p)
      then value_or (km.authorization_value Tag.user_id p) km.null_value
      else d)

  user_tag :
      (p : Param) (t : Tag) (d : ℕ)
      → user_for km p (label t) d
        ≡ (if is_user t then value_or (km.authorization_value Tag.user_id p) km.null_value else d)
  unfolding label user_for
  user_tag p Tag.user_id d = refl
  user_tag p _ d = refl

  last_user-user_of : (ps : List Param) (d : ℕ) → last_user km ps d ≡ user_of ps d
  unfolding last_user user_of
  last_user-user_of [] d = refl
  last_user-user_of (p ∷ ps) d =
      last_user-user_of ps (user_for km p (label (km.tag p)) d)
      ∙ ap (user_of ps) (user_tag p (km.tag p) d)

  abbrev accepts_type : HardwareAuthToken → ℕ → Bool
  accepts_type token mask = not (bit_and mask token.authenticator_type == 0)

  abbrev in_time : Request Param → HardwareAuthToken → ℕ → Bool
  in_time r token timeout = not (r.context.auth_token_timed_out token timeout)

  matches_parts :
      (r : Request Param) (token : HardwareAuthToken) (sid : ℕ) (type_ix timeout_ix : Option ℕ)
      → is_some timeout_ix ≡ true
      → auth_token_matches km r.context r.auth_set token sid type_ix timeout_ix 0 true ≡ true
      → (r.context.validate_token_signature token ≡ true)
        × ((sid ≡ token.user_id) ⊎ (sid ≡ token.authenticator_id))
        × (holds (value_at km Tag.user_auth_type r.auth_set type_ix) (accepts_type token) ≡ true)
        × (holds (value_at km Tag.auth_timeout r.auth_set timeout_ix) (in_time r token) ≡ true)
  unfolding auth_token_matches
  matches_parts r token sid type_ix timeout_ix timed h =
      (ground (arith, h), ground (arith, h), ground (arith, h), ground (arith, h, timed))

  matches-IdMatched :
      (r : Request Param) (token : HardwareAuthToken) (p : Param) (sid : ℕ)
      → is_some (indices km r.auth_set).auth_timeout_index ≡ true
      → km.tag p ≡ Tag.user_secure_id
      → km.authorization_value Tag.user_secure_id p ≡ some sid
      → auth_token_matches km r.context r.auth_set token sid
          (indices km r.auth_set).auth_type_index
          (indices km r.auth_set).auth_timeout_index
          0
          true
        ≡ true
      → IdMatched r token p
  matches-IdMatched r token p sid timed t e h =
      let (signature, owner, typed, fresh) = matches_parts r token sid _ _ timed h in
      let (mask, at_type, accepted) = held _ _ typed in
      let (timeout, at_timeout, passed) = held _ _ fresh in
      (
        t,
        (
          sid,
          e,
          signature,
          owner,
          (mask, sym (type_at r.auth_set) ∙ at_type, positive_test _ accepted),
          (timeout, sym (timeout_at r.auth_set) ∙ at_timeout, negation_false _ passed),
        ),
      )

  any_match-SomeMatched :
      (r : Request Param) (ps : List Param)
      → is_some (indices km r.auth_set).auth_timeout_index ≡ true
      → any_match km r (indices km r.auth_set) ps ≡ true
      → SomeMatched r ps
  unfolding any_match token_matches
  any_match-SomeMatched r [] timed h = cc
  any_match-SomeMatched r (p ∷ ps) timed h =
      let ix = indices km r.auth_set in
      elim (Bool-cases (
        is_secure_id (label (km.tag p))
        && token_matches km r ix (km.authorization_value Tag.user_secure_id p))) [
          | inr b ↦
              let (token, k, m) = any_match-SomeMatched r ps timed (ground (arith, h, b)) in
              (token, k, inr m)
          | inl b ↦ elim (Option-cases (km.authorization_value Tag.user_secure_id p)) [
            | inl e ↦ absurd (ground (arith, b, e))
            | inr (sid, e) ↦ elim (Option-cases r.auth_token) [
              | inl n ↦ absurd (ground (arith, b, e, n))
              | inr (token, k) ↦ (
                token,
                k,
                inl (
                    matches-IdMatched r token p sid timed (only_id (km.tag p) (ground (arith, b))) e
                      (ground (arith, b, e, k))),
              )
            ]
          ]
        ]

  -- What a request has met: its purpose is one of the key's, every parameter of the key permits it, a
  -- key for unlocked devices is used to encrypt or verify or the device of its user is not locked, a key
  -- with secure ids and a timeout was given a token that matches one of them, and a nonce of the
  -- caller comes only with a key that allows it.
  pub record Admitted (s : KeymasterEnforcement) (r : Request Param) : Type 0 where
    pub purpose_given : (r.purpose ≢ wrap_key) × (km.contains_purpose r.purpose r.auth_set ≡ true)
    pub permitted : All (λ p. Asks s r p (km.tag p)) r.auth_set
    pub device :
        has km is_for_unlocked r.auth_set ≡ true
        → r.context.is_device_locked (user_of r.auth_set uint32_max) ≡ true
        → (r.purpose ≡ encrypt) ⊎ (r.purpose ≡ verify)
    pub authenticated :
        has km is_timeout r.auth_set ≡ true
        → has km is_id r.auth_set ≡ true
        → SomeMatched r r.auth_set
    pub nonce :
        (r.purpose ≡ encrypt) ⊎ (r.purpose ≡ sign)
        → km.contains Tag.nonce r.operation_params ≡ true
        → has km is_nonce r.auth_set ≡ true

  timed_some :
      (ps : List Param)
      → has km is_timeout ps ≡ true
      → is_some (indices km ps).auth_timeout_index ≡ true
  timed_some ps h =
      ap (λ x. is_some x.auth_timeout_index) (indices_lem km ps)
      ∙ last_index-has km is_timeout 0 ps none
      ∙ rw h refl

  -- AuthorizeBegin returns OK only for a request that is admitted.
  pub authorize_begin-Admitted :
      (s : KeymasterEnforcement) (r : Request Param)
      → (authorize_begin km s r).0 ≡ ErrorCode.ok
      → Admitted s r
  authorize_begin-Admitted s r h =
      let a = authorize_begin-Accepted km s r h in
      record {
        purpose_given = a.purpose_given;
        permitted = All-map (λ p k. asked s r p (km.tag p) k) r.auth_set a.permitted;
        device = λ m l. when_locked r.purpose (
            a.device (mentions-has is_unlocked is_for_unlocked is_unlocked_lem r.auth_set ∙ m)
              (ap r.context.is_device_locked (last_user-user_of r.auth_set uint32_max) ∙ l));
        authenticated = λ t m.
            let some_index = timed_some r.auth_set t in
            any_match-SomeMatched r r.auth_set some_index (
              a.authenticated some_index
                (mentions-has is_secure_id is_id is_id_lem r.auth_set ∙ m));
        nonce = λ o n.
            sym (mentions-has is_nonce_allowed is_nonce is_nonce_lem r.auth_set)
            ∙ a.nonce (origination_of r.purpose o) n;
      }
