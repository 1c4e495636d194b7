-- ===== src/Enforcement/Rounds.antt =====
-- keystore/keymaster_enforcement.cpp: the loop of AuthorizeBegin, described without its locals: the
-- first parameter that refuses the request, and what the parameters say together.
use system_security.Base.{
  ℕ, ◌≡◌, ◌≢◌, sym, ap, Bool, true, false, not, ◌&&◌, ◌||◌, Option, none, some, List, [], ◌∷◌,
  arith, if◌then◌else◌, is_some,
}
use system_security.Keymaster.{Authorizations, Tag, ErrorCode}
use system_security.Enforcement.{KeymasterEnforcement}
use system_security.Enforcement.Begin.{
  is_origination_purpose, is_usage_purpose, min_time_between_ops_passed,
  max_uses_per_boot_not_exceeded, Indices, Label, activation, origination, usage, rate, uses,
  secure_id, user, nonce_allowed, unlocked, forbidden, label, Locals, Round, proceed, return, holds,
  value_or, Request, token_matches, secure_id_round, round, rounds,
}

abbrev pub is_uses : Label → Bool
is_uses uses = true
is_uses _ = false

abbrev pub is_secure_id : Label → Bool
is_secure_id secure_id = true
is_secure_id _ = false

abbrev pub is_nonce_allowed : Label → Bool
is_nonce_allowed nonce_allowed = true
is_nonce_allowed _ = false

abbrev pub is_unlocked : Label → Bool
is_unlocked unlocked = true
is_unlocked _ = false

abbrev refuse : Bool → ErrorCode → Option ErrorCode
refuse bad error = if bad then some error else none

module _ {Param : Type 0} (km : Authorizations Param) where
  -- The error of a parameter that refuses the request, by its label.
  unfoldable pub refusal_for :
      KeymasterEnforcement → Request Param → Indices → Param → Label → Option ErrorCode
  refusal_for s r ix p activation =
      refuse
        (holds (km.authorization_value Tag.active_datetime p)
          (λ date. not (r.context.activation_date_valid date)))
        ErrorCode.key_not_yet_valid
  refusal_for s r ix p origination =
      refuse
        (is_origination_purpose r.purpose
          && holds (km.authorization_value Tag.origination_expire_datetime p)
              r.context.expiration_date_passed)
        ErrorCode.key_expired
  refusal_for s r ix p usage =
      refuse
        (is_usage_purpose r.purpose
          && holds (km.authorization_value Tag.usage_expire_datetime p)
              r.context.expiration_date_passed)
        ErrorCode.key_expired
  refusal_for s r ix p rate =
      refuse
        (holds (km.authorization_value Tag.min_seconds_between_ops p)
          (λ min. not (min_time_between_ops_passed s r.context min r.keyid)))
        ErrorCode.key_rate_limit_exceeded
  refusal_for s r ix p uses =
      refuse
        (holds (km.authorization_value Tag.max_uses_per_boot p)
          (λ max_uses. not (max_uses_per_boot_not_exceeded s r.keyid max_uses)))
        ErrorCode.key_max_ops_exceeded
  refusal_for s r ix p secure_id =
      refuse (is_some ix.no_auth_required_index) ErrorCode.invalid_key_blob
  refusal_for s r ix p forbidden = some ErrorCode.invalid_key_blob
  refusal_for s r ix p _ = none

  unfoldable pub refusal : KeymasterEnforcement → Request Param → Indices → Param → Option ErrorCode
  unfolding refusal_for
  refusal s r ix p = refusal_for s r ix p (label (km.tag p))

  unfoldable pub first_refusal :
      KeymasterEnforcement → Request Param → Indices → List Param → Option ErrorCode
  first_refusal s r ix [] = none
  first_refusal s r ix (p ∷ ps) = elim (refusal s r ix p) [
    | some error ↦ some error
    | none ↦ first_refusal s r ix ps
  ]

  -- Whether a parameter of the list has a label.
  unfoldable pub mentions : (Label → Bool) → List Param → Bool
  mentions is [] = false
  mentions is (p ∷ ps) = is (label (km.tag p)) || mentions is ps

  -- Whether a secure id of the list is matched by the token of the request.
  unfoldable pub any_match : Request Param → Indices → List Param → Bool
  any_match r ix [] = false
  any_match r ix (p ∷ ps) =
      (is_secure_id (label (km.tag p))
        && token_matches km r ix (km.authorization_value Tag.user_secure_id p))
      || any_match r ix ps

  -- The user id of the last parameter that gives one.
  unfoldable pub user_for : Param → Label → ℕ → ℕ
  user_for p user d = value_or (km.authorization_value Tag.user_id p) km.null_value
  user_for p _ d = d

  unfoldable pub last_user : List Param → ℕ → ℕ
  unfolding user_for
  last_user [] d = d
  last_user (p ∷ ps) d = last_user ps (user_for p (label (km.tag p)) d)

  -- The locals after the loop, from those before it.
  unfoldable pub described : Request Param → Indices → List Param → Locals → Locals
  described r ix ps l = record {
    min_ops_timeout = l.min_ops_timeout;
    update_access_count = mentions is_uses ps || l.update_access_count;
    caller_nonce_authorized_by_key =
        mentions is_nonce_allowed ps || l.caller_nonce_authorized_by_key;
    authentication_required =
        (is_some ix.auth_timeout_index && mentions is_secure_id ps) || l.authentication_required;
    auth_token_matched =
        (is_some ix.auth_timeout_index && any_match r ix ps) || l.auth_token_matched;
    unlocked_device_required = mentions is_unlocked ps || l.unlocked_device_required;
    user_id = last_user ps l.user_id;
  }

  abbrev pub outcome : Option ErrorCode → Locals → Round
  outcome none l = proceed l
  outcome (some error) l = return error

  step_for : Request Param → Indices → Param → Locals → Label → Locals
  unfolding user_for
  step_for r ix p l b = record {
    min_ops_timeout = l.min_ops_timeout;
    update_access_count = is_uses b || l.update_access_count;
    caller_nonce_authorized_by_key = is_nonce_allowed b || l.caller_nonce_authorized_by_key;
    authentication_required =
        (is_some ix.auth_timeout_index && is_secure_id b) || l.authentication_required;
    auth_token_matched =
        (is_some ix.auth_timeout_index
          && (is_secure_id b
              && token_matches km r ix (km.authorization_value Tag.user_secure_id p)))
        || l.auth_token_matched;
    unlocked_device_required = is_unlocked b || l.unlocked_device_required;
    user_id = user_for p b l.user_id;
  }

  round_for :
      (s : KeymasterEnforcement) (r : Request Param) (ix : Indices) (p : Param) (l : Locals)
      (b : Label)
      → round km s r ix p l b ≡ outcome (refusal_for s r ix p b) (step_for r ix p l b)
  unfolding round refusal_for step_for secure_id_round
  round_for s r ix p l activation = ground arith
  round_for s r ix p l secure_id = ground arith
  round_for s r ix p l _ = ground arith

  round_lem :
      (s : KeymasterEnforcement) (r : Request Param) (ix : Indices) (p : Param) (l : Locals)
      → round km s r ix p l (label (km.tag p))
        ≡ outcome (refusal s r ix p) (step_for r ix p l (label (km.tag p)))
  unfolding refusal
  round_lem s r ix p l = round_for s r ix p l (label (km.tag p))

  or_shift : (a b c : Bool) → (b || (a || c)) ≡ ((a || b) || c)
  or_shift a b c = ground arith

  and_or_shift : (t a b c : Bool) → ((t && b) || ((t && a) || c)) ≡ ((t && (a || b)) || c)
  and_or_shift t a b c = ground arith

  described-step :
      (r : Request Param) (ix : Indices) (p : Param) (ps : List Param) (l : Locals)
      → described r ix ps (step_for r ix p l (label (km.tag p))) ≡ described r ix (p ∷ ps) l
  unfolding described step_for mentions any_match last_user
  described-step r ix p ps l =
      let b = label (km.tag p) in
      let t = is_some ix.auth_timeout_index in
      λ i. record {
        min_ops_timeout = l.min_ops_timeout;
        update_access_count = or_shift (is_uses b) (mentions is_uses ps) l.update_access_count i;
        caller_nonce_authorized_by_key =
            or_shift (is_nonce_allowed b) (mentions is_nonce_allowed ps)
              l.caller_nonce_authorized_by_key i;
        authentication_required =
            and_or_shift t (is_secure_id b) (mentions is_secure_id ps) l.authentication_required i;
        auth_token_matched =
            and_or_shift t
              (is_secure_id b
                && token_matches km r ix (km.authorization_value Tag.user_secure_id p))
              (any_match r ix ps) l.auth_token_matched i;
        unlocked_device_required =
            or_shift (is_unlocked b) (mentions is_unlocked ps) l.unlocked_device_required i;
        user_id = last_user ps (user_for p b l.user_id);
      }

  described-nil : (r : Request Param) (ix : Indices) (l : Locals) → described r ix [] l ≡ l
  unfolding described mentions any_match last_user
  described-nil r ix l = ground arith

  -- The loop of AuthorizeBegin returns the error of the first parameter that refuses the request; if
  -- there is none, its locals are those that the parameters describe, whatever their order, but for
  -- the user id, which the last parameter with one gives.
  pub rounds_lem :
      (s : KeymasterEnforcement) (r : Request Param) (ix : Indices) (ps : List Param) (l : Locals)
      → rounds km s r ix ps l ≡ outcome (first_refusal s r ix ps) (described r ix ps l)
  unfolding rounds first_refusal
  rounds_lem s r ix [] l = ap proceed (sym (described-nil r ix l))
  rounds_lem s r ix (p ∷ ps) l = ground (
    arith,
    round_lem s r ix p l,
    described-step r ix p ps l,
    rounds_lem s r ix ps (step_for r ix p l (label (km.tag p))),
  )

  refusal_for-ne-ok :
      (s : KeymasterEnforcement) (r : Request Param) (ix : Indices) (p : Param) (b : Label)
      → refusal_for s r ix p b ≢ some ErrorCode.ok
  unfolding refusal_for
  refusal_for-ne-ok s r ix p activation = ground arith
  refusal_for-ne-ok s r ix p _ = ground arith

  pub first_refusal-ne-ok :
      (s : KeymasterEnforcement) (r : Request Param) (ix : Indices) (ps : List Param)
      → first_refusal s r ix ps ≢ some ErrorCode.ok
  unfolding first_refusal refusal
  first_refusal-ne-ok s r ix [] = ground arith
  first_refusal-ne-ok s r ix (p ∷ ps) =
      ground (arith, refusal_for-ne-ok s r ix p (label (km.tag p)), first_refusal-ne-ok s r ix ps)
