-- ===== src/Enforcement/Admission.antt =====
-- keystore/keymaster_enforcement.cpp: what a request has met when AuthorizeBegin returns OK.
use system_security.Base.{
  ℕ, ◌≡◌, ◌≢◌, refl, sym, ap, ◌∙◌, Bool, true, false, ◌<◌, ◌≤◌, ◌+◌, inl, inr, Option, none, some,
  List, [], ◌∷◌, arith, is_some, Option-cases, All,
}
use system_security.Keymaster.{Authorizations, KeyPurpose, wrap_key, Tag, ErrorCode}
use system_security.Enforcement.{KeymasterEnforcement}
use system_security.Enforcement.Maps.{key_access_count, last_key_access_time}
use system_security.Enforcement.Begin.{
  is_origination_purpose, is_usage_purpose, min_time_between_ops_passed,
  max_uses_per_boot_not_exceeded, Label, activation, origination, usage, rate, uses, secure_id,
  forbidden, label, Locals, holds, Request, allowed_when_locked, start, uint32_max,
  authorized_purpose, after_purpose, authorize_begin, conclude, note_access, indices,
}
use system_security.Enforcement.Rounds.{
  refusal, refusal_for, first_refusal, first_refusal-ne-ok, mentions, is_secure_id,
  is_nonce_allowed, is_unlocked, any_match, last_user, described, rounds_lem,
}

not_held :
    (v : Option ℕ) (test : ℕ → Bool) → holds v test ≡ false → (d : ℕ) → v ≡ some d → test d ≡ false
not_held v test h d e = ground arith

module _ {Param : Type 0} (km : Authorizations Param) where
  after_purpose_ok :
      (s : KeymasterEnforcement) (r : Request Param) (e : ErrorCode)
      → (after_purpose km s r e).0 ≡ ErrorCode.ok
      → e ≡ ErrorCode.ok
  unfolding after_purpose
  after_purpose_ok s r ErrorCode.ok h = refl
  after_purpose_ok s r _ h = h

  authorized_purpose_ok :
      (p : KeyPurpose) (auth_set : List Param)
      → authorized_purpose km p auth_set ≡ ErrorCode.ok
      → (p ≢ wrap_key) × (km.contains_purpose p auth_set ≡ true)
  unfolding authorized_purpose
  authorized_purpose_ok wrap_key auth_set h = absurd (ground arith)
  authorized_purpose_ok _ auth_set h = ((λ e. cc), ground arith)

  -- The locals with which AuthorizeBegin leaves its loop.
  abbrev pub final_locals : Request Param → Locals
  final_locals r = described km r (indices km r.auth_set) r.auth_set start

  -- The three tests behind the loop.
  abbrev pub Passes : Request Param → Locals → Type 0
  Passes r l =
      ((l.unlocked_device_required ≡ true)
        → (r.context.is_device_locked l.user_id ≡ true)
        → allowed_when_locked r.purpose ≡ true)
      × ((l.authentication_required ≡ true) → l.auth_token_matched ≡ true)
      × ((is_origination_purpose r.purpose ≡ true)
          → (km.contains Tag.nonce r.operation_params ≡ true)
          → l.caller_nonce_authorized_by_key ≡ true)

  conclude_ok :
      (s : KeymasterEnforcement) (r : Request Param) (l : Locals)
      → (conclude km s r l).0 ≡ ErrorCode.ok
      → Passes r l × (conclude km s r l ≡ note_access km s r l)
  unfolding conclude
  conclude_ok s r l h =
      (((λ a b. ground arith), (λ a. ground arith), (λ a b. ground arith)), ground arith)

  pub after_rounds :
      (s : KeymasterEnforcement) (r : Request Param)
      → authorized_purpose km r.purpose r.auth_set ≡ ErrorCode.ok
      → first_refusal km s r (indices km r.auth_set) r.auth_set ≡ none
      → authorize_begin km s r ≡ conclude km s r (final_locals r)
  unfolding authorize_begin after_purpose
  after_rounds s r h n = ground (arith, rounds_lem km s r (indices km r.auth_set) r.auth_set start)

  pub refused :
      (s : KeymasterEnforcement) (r : Request Param) (e : ErrorCode)
      → authorized_purpose km r.purpose r.auth_set ≡ ErrorCode.ok
      → first_refusal km s r (indices km r.auth_set) r.auth_set ≡ some e
      → authorize_begin km s r ≡ (e, s)
  unfolding authorize_begin after_purpose
  refused s r e h n = ground (arith, rounds_lem km s r (indices km r.auth_set) r.auth_set start)

  purpose_ok :
      (s : KeymasterEnforcement) (r : Request Param)
      → (authorize_begin km s r).0 ≡ ErrorCode.ok
      → authorized_purpose km r.purpose r.auth_set ≡ ErrorCode.ok
  unfolding authorize_begin
  purpose_ok s r h = after_purpose_ok s r _ h

  no_refusal :
      (s : KeymasterEnforcement) (r : Request Param)
      → (authorize_begin km s r).0 ≡ ErrorCode.ok
      → first_refusal km s r (indices km r.auth_set) r.auth_set ≡ none
  no_refusal s r h = elim (Option-cases (first_refusal km s r (indices km r.auth_set) r.auth_set)) [
    | inl n ↦ n
    | inr (e, n) ↦ absurd (
        first_refusal-ne-ok km s r (indices km r.auth_set) r.auth_set (
          n
          ∙ ap some (
              sym (
                ap (λ (x : ErrorCode × KeymasterEnforcement). x.0)
                  (refused s r e (purpose_ok s r h) n))
              ∙ h)))
  ]

  pub begin_ok :
      (s : KeymasterEnforcement) (r : Request Param)
      → (authorize_begin km s r).0 ≡ ErrorCode.ok
      → Passes r (final_locals r) × (authorize_begin km s r ≡ note_access km s r (final_locals r))
  begin_ok s r h =
      let e = after_rounds s r (purpose_ok s r h) (no_refusal s r h) in
      let c = conclude_ok s r (final_locals r) (rw e at h) in (c.0, e ∙ c.1)

  -- What a parameter of the key asks of a request, by the label of its tag.
  abbrev pub Permits : KeymasterEnforcement → Request Param → Param → Label → Type 0
  Permits s r p activation =
      (date : ℕ)
      → km.authorization_value Tag.active_datetime p ≡ some date
      → r.context.activation_date_valid date ≡ true
  Permits s r p origination =
      (date : ℕ)
      → is_origination_purpose r.purpose ≡ true
      → km.authorization_value Tag.origination_expire_datetime p ≡ some date
      → r.context.expiration_date_passed date ≡ false
  Permits s r p usage =
      (date : ℕ)
      → is_usage_purpose r.purpose ≡ true
      → km.authorization_value Tag.usage_expire_datetime p ≡ some date
      → r.context.expiration_date_passed date ≡ false
  Permits s r p rate =
      (min last : ℕ)
      → km.authorization_value Tag.min_seconds_between_ops p ≡ some min
      → last_key_access_time s.access_time_map r.keyid ≡ some last
      → min + last ≤ r.context.get_current_time
  Permits s r p uses =
      (max_uses count : ℕ)
      → km.authorization_value Tag.max_uses_per_boot p ≡ some max_uses
      → key_access_count s.access_count_map r.keyid ≡ some count
      → count < max_uses
  Permits s r p secure_id = (indices km r.auth_set).no_auth_required_index ≡ none
  Permits s r p forbidden = ⊥
  Permits s r p _ = Unit {0}

  refusal-Permits :
      (s : KeymasterEnforcement) (r : Request Param) (p : Param) (b : Label)
      → refusal_for km s r (indices km r.auth_set) p b ≡ none
      → Permits s r p b
  unfolding refusal_for min_time_between_ops_passed max_uses_per_boot_not_exceeded
  refusal-Permits s r p activation h = λ d e. ground arith
  refusal-Permits s r p origination h = λ d o e. ground arith
  refusal-Permits s r p usage h = λ d o e. ground arith
  refusal-Permits s r p rate h = λ min last e f. ground arith
  refusal-Permits s r p uses h = λ max_uses count e f. ground arith
  refusal-Permits s r p secure_id h = ground arith
  refusal-Permits s r p forbidden h = cc
  refusal-Permits s r p _ h = tt

  refusals_absent :
      (s : KeymasterEnforcement) (r : Request Param) (ps : List Param)
      → first_refusal km s r (indices km r.auth_set) ps ≡ none
      → All (λ p. Permits s r p (label (km.tag p))) ps
  unfolding first_refusal refusal
  refusals_absent s r [] h = tt
  refusals_absent s r (p ∷ ps) h = (
    refusal-Permits s r p (label (km.tag p)) (ground arith),
    refusals_absent s r ps (
        ground
          (arith, Option-cases (refusal_for km s r (indices km r.auth_set) p (label (km.tag p))))),
  )

  -- What a request has met: its purpose is one of the key's, every parameter permits it, a key for
  -- unlocked devices is not used to sign, decrypt or wrap while the device of its user is locked, a
  -- key with secure ids and a timeout was given a token that matches one of them, and a nonce of the
  -- caller comes only with a key that allows it.
  pub record Accepted (s : KeymasterEnforcement) (r : Request Param) : Type 0 where
    pub purpose_given : (r.purpose ≢ wrap_key) × (km.contains_purpose r.purpose r.auth_set ≡ true)
    pub permitted : All (λ p. Permits s r p (label (km.tag p))) r.auth_set
    pub device :
        mentions km is_unlocked r.auth_set ≡ true
        → r.context.is_device_locked (last_user km r.auth_set uint32_max) ≡ true
        → allowed_when_locked r.purpose ≡ true
    pub authenticated :
        is_some (indices km r.auth_set).auth_timeout_index ≡ true
        → mentions km is_secure_id r.auth_set ≡ true
        → any_match km r (indices km r.auth_set) r.auth_set ≡ true
    pub nonce :
        is_origination_purpose r.purpose ≡ true
        → km.contains Tag.nonce r.operation_params ≡ true
        → mentions km is_nonce_allowed r.auth_set ≡ true

  -- AuthorizeBegin returns OK only for a request that is accepted.
  pub authorize_begin-Accepted :
      (s : KeymasterEnforcement) (r : Request Param)
      → (authorize_begin km s r).0 ≡ ErrorCode.ok
      → Accepted s r
  unfolding described
  authorize_begin-Accepted s r h =
      let b = begin_ok s r h in
      record {
        purpose_given = authorized_purpose_ok r.purpose r.auth_set (purpose_ok s r h);
        permitted = refusals_absent s r r.auth_set (no_refusal s r h);
        device = λ m l. b.0.0 (ground arith) l;
        authenticated = λ t m. ground (arith, b.0.1 (ground arith));
        nonce = λ o n. ground (arith, b.0.2 o n);
      }
