-- ===== src/Enforcement/RateLimit.antt =====
-- keystore/keymaster_enforcement.cpp: MIN_SECONDS_BETWEEN_OPS. The case of the switch assigns the limit
-- to a variable of its own, so AuthorizeBegin never records when a key was used.
use system_security.Base.{
  ℕ, ◌≡◌, ◌≢◌, refl, ap, ◌∙◌, ◌⊎◌, inl, inr, some, List, [], ◌∷◌, arith, Option-cases, All,
}
use system_security.Keymaster.{Authorizations, KeyPurpose, wrap_key, ErrorCode}
use system_security.Enforcement.{KeymasterEnforcement, init}
use system_security.Enforcement.Maps.{AccessTimeMap, last_key_access_time}
use system_security.Enforcement.Begin.{
  Label, rate, activation, label, Locals, Request, authorize_begin, after_purpose,
  authorized_purpose, indices, uint32_max, conclude, note_access, count_use,
  min_time_between_ops_passed,
}
use system_security.Enforcement.Rounds.{refusal, refusal_for, first_refusal, described}
use system_security.Enforcement.Admission.{final_locals, after_rounds, refused}

module _ {Param : Type 0} (km : Authorizations Param) where
  purpose_cases :
      (s : KeymasterEnforcement) (r : Request Param) (e : ErrorCode)
      → (e ≡ ErrorCode.ok) ⊎ (after_purpose km s r e ≡ (e, s))
  unfolding after_purpose
  purpose_cases s r ErrorCode.ok = inl refl
  purpose_cases s r _ = inr refl

  -- The ways in which AuthorizeBegin ends.
  begin_cases :
      (s : KeymasterEnforcement) (r : Request Param)
      → (authorize_begin km s r ≡ (authorized_purpose km r.purpose r.auth_set, s))
        ⊎ ((e : ErrorCode) × (first_refusal km s r (indices km r.auth_set) r.auth_set ≡ some e)
            × (authorize_begin km s r ≡ (e, s)))
        ⊎ (authorize_begin km s r ≡ conclude km s r (final_locals km r))
  begin_cases s r = elim (purpose_cases s r (authorized_purpose km r.purpose r.auth_set)) [
    | inr q ↦ inl (unfold authorize_begin in q)
    | inl o ↦ elim (Option-cases (first_refusal km s r (indices km r.auth_set) r.auth_set)) [
      | inl n ↦ inr (inr (after_rounds km s r o n))
      | inr (e, n) ↦ inr (inl (e, n, refused km s r e o n))
    ]
  ]

  purpose_not_rate :
      (p : KeyPurpose) (auth_set : List Param)
      → authorized_purpose km p auth_set ≢ ErrorCode.key_rate_limit_exceeded
  unfolding authorized_purpose
  purpose_not_rate wrap_key auth_set = ground arith
  purpose_not_rate _ auth_set = ground arith

  refusal_not_rate :
      (s : KeymasterEnforcement) (r : Request Param) (p : Param) (b : Label)
      → s.access_time_map.last_access_list ≡ []
      → refusal_for km s r (indices km r.auth_set) p b ≢ some ErrorCode.key_rate_limit_exceeded
  unfolding refusal_for min_time_between_ops_passed last_key_access_time
  refusal_not_rate s r p rate e = ground arith
  refusal_not_rate s r p activation e = ground arith
  refusal_not_rate s r p _ e = ground arith

  first_not_rate :
      (s : KeymasterEnforcement) (r : Request Param) (ps : List Param)
      → s.access_time_map.last_access_list ≡ []
      → first_refusal km s r (indices km r.auth_set) ps ≢ some ErrorCode.key_rate_limit_exceeded
  unfolding first_refusal refusal
  first_not_rate s r [] e = ground arith
  first_not_rate s r (p ∷ ps) e =
      ground (arith, refusal_not_rate s r p (label (km.tag p)) e, first_not_rate s r ps e)

  conclude_not_rate :
      (s : KeymasterEnforcement) (r : Request Param) (l : Locals)
      → l.min_ops_timeout ≡ uint32_max
      → ((conclude km s r l).0 ≢ ErrorCode.key_rate_limit_exceeded)
        × ((conclude km s r l).1.access_time_map ≡ s.access_time_map)
  unfolding conclude note_access count_use
  conclude_not_rate s r l e = (ground arith, ground arith)

  final_timeout : (r : Request Param) → (final_locals km r).min_ops_timeout ≡ uint32_max
  unfolding described
  final_timeout r = refl

  -- A call of AuthorizeBegin leaves the times of use as they are, and does not answer that a key was
  -- used too soon if there are none.
  begin_not_rate :
      (s : KeymasterEnforcement) (r : Request Param)
      → s.access_time_map.last_access_list ≡ []
      → ((authorize_begin km s r).0 ≢ ErrorCode.key_rate_limit_exceeded)
        × ((authorize_begin km s r).1.access_time_map ≡ s.access_time_map)
  begin_not_rate s r e = elim (begin_cases s r) [
    | inl q ↦ rw q (purpose_not_rate r.purpose r.auth_set, refl)
    | inr (inl (x, f, q)) ↦ rw q ((λ h. first_not_rate s r r.auth_set e (f ∙ ap some h)), refl)
    | inr (inr q) ↦ rw q (conclude_not_rate s r (final_locals km r) (final_timeout r))
  ]

  -- The answers to calls made one after another.
  unfoldable pub answers : KeymasterEnforcement → List (Request Param) → List ErrorCode
  answers s [] = []
  answers s (r ∷ rs) = (authorize_begin km s r).0 ∷ answers (authorize_begin km s r).1 rs

  answers_not_rate :
      (s : KeymasterEnforcement) (rs : List (Request Param))
      → s.access_time_map.last_access_list ≡ []
      → All (λ e. e ≢ ErrorCode.key_rate_limit_exceeded) (answers s rs)
  unfolding answers
  answers_not_rate s [] e = tt
  answers_not_rate s (r ∷ rs) e =
      let b = begin_not_rate s r e in
      (
        b.0,
        answers_not_rate (authorize_begin km s r).1 rs
            (ap (λ (m : AccessTimeMap). m.last_access_list) b.1 ∙ e),
      )

  -- Whatever calls of AuthorizeBegin are made since the boot, at whatever times and for whatever keys,
  -- none is answered by KEY_RATE_LIMIT_EXCEEDED: MIN_SECONDS_BETWEEN_OPS is not enforced.
  pub rate_never_limited :
      (times counts : ℕ) (rs : List (Request Param))
      → All (λ e. e ≢ ErrorCode.key_rate_limit_exceeded) (answers (init times counts) rs)
  unfolding init
  rate_never_limited times counts rs = answers_not_rate (init times counts) rs refl
