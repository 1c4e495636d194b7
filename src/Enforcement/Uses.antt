-- ===== src/Enforcement/Uses.antt =====
-- keystore/keymaster_enforcement.cpp: MAX_USES_PER_BOOT over a history of AuthorizeBegin calls.
use system_security.Base.{
  ℕ, ◌+◌, ◌%◌, ◌^◌, ◌≡◌, ◌≢◌, ◌↔◌, refl, ap, subst, Bool, true, false, ◌&&◌, ◌<◌, ◌≤◌, ◌⊎◌, inl,
  inr, Option, none, some, List, [], ◌∷◌, arith, if◌then◌else◌, Bool-cases, Option-cases, All, Any,
  ◌==◌, ==_iff,
}
use system_security.Keymaster.{Authorizations, Tag, ErrorCode}
use system_security.Enforcement.{KeymasterEnforcement, init}
use system_security.Enforcement.Maps.{
  find_count, cut_count, key_access_count, update_key_access_time, increment_key_access_count,
}
use system_security.Enforcement.Maps.Laws.{next_count, increment_key_access_count-Incremented}
use system_security.Enforcement.Begin.{
  label, Locals, Request, authorize_begin, note_access, count_use, conclude, start, after_purpose,
  rounds, indices, return, proceed,
}
use system_security.Enforcement.Rounds.{mentions, is_uses, described}
use system_security.Enforcement.Admission.{Permits, authorize_begin-Accepted, begin_ok}

module _ {Param : Type 0} (km : Authorizations Param) where
  count_of : KeymasterEnforcement → ℕ → Option ℕ
  count_of s keyid = find_count keyid s.access_count_map.access_count_list

  -- The key is limited: a parameter of its authorizations holds the limit.
  abbrev pub IsLimited : ℕ → List Param → Type 0
  IsLimited limit auth_set =
      Any
        (λ p.
          (km.tag p ≡ Tag.max_uses_per_boot)
          × (km.authorization_value Tag.max_uses_per_boot p ≡ some limit))
        auth_set

  limited_mentions :
      (limit : ℕ) (ps : List Param) → IsLimited limit ps → mentions km is_uses ps ≡ true
  unfolding mentions label
  limited_mentions limit [] h = absurd h
  limited_mentions limit (p ∷ ps) (inl h) = ground arith
  limited_mentions limit (p ∷ ps) (inr h) = ground (arith, limited_mentions limit ps h)

  used : KeymasterEnforcement → ℕ → ℕ
  unfolding count_of
  used s keyid = elim (count_of s keyid) [ none ↦ 0 | some n ↦ n ]

  limited_used :
      (s : KeymasterEnforcement) (r : Request Param) (limit : ℕ) (ps : List Param)
      → used s r.keyid ≤ limit
      → 0 < limit
      → limit < 2 ^ 32
      → All (λ p. Permits km s r p (label (km.tag p))) ps
      → IsLimited limit ps
      → used s r.keyid < limit
  unfolding used count_of label key_access_count
  limited_used s r limit [] le pos small a h = absurd h
  limited_used s r limit (p ∷ ps) le pos small a (inr h) =
      limited_used s r limit ps le pos small a.1 h
  limited_used s r limit (p ∷ ps) le pos small a (inl (t, v)) =
      elim (Option-cases (find_count r.keyid s.access_count_map.access_count_list)) [
        | inl e ↦ ground arith
        | inr (n, e) ↦ ground (
          arith,
          (subst (λ (g : Tag). Permits km s r p (label g)) t a.0) limit (n % 2 ^ 32) v
              (ap cut_count e),
        )
      ]

  -- The counts after a call: as before, or raised for its key by a call that returned OK.
  abbrev Counts : KeymasterEnforcement → ℕ → ErrorCode × KeymasterEnforcement → Type 0
  Counts s keyid res =
      (res.1.access_count_map ≡ s.access_count_map)
      ⊎ ((res.0 ≡ ErrorCode.ok)
          × ((increment_key_access_count s.access_count_map keyid).0 ≡ true)
          × (res.1.access_count_map ≡ (increment_key_access_count s.access_count_map keyid).1))

  count_use-Counts :
      (s : KeymasterEnforcement) (keyid : ℕ) (l : Locals) → Counts s keyid (count_use km s keyid l)
  unfolding count_use
  count_use-Counts s keyid l =
      let i = increment_key_access_count-Incremented s.access_count_map keyid in
      elim (Bool-cases (increment_key_access_count s.access_count_map keyid).0) [
        | inl b ↦ ground arith
        | inr b ↦ inl (ground (arith, i.refused b))
      ]

  note_access-Counts :
      (s : KeymasterEnforcement) (r : Request Param) (l : Locals)
      → Counts s r.keyid (note_access km s r l)
  unfolding note_access
  note_access-Counts s r l =
      let times =
        (update_key_access_time s.access_time_map r.keyid r.context.get_current_time
          l.min_ops_timeout).1 in
      ground (
        arith,
        count_use-Counts s r.keyid l,
        count_use-Counts (record s { access_time_map = times }) r.keyid l,
      )

  conclude-Counts :
      (s : KeymasterEnforcement) (r : Request Param) (l : Locals)
      → Counts s r.keyid (conclude km s r l)
  unfolding conclude
  conclude-Counts s r l = ground (arith, note_access-Counts s r l)

  after_purpose-Counts :
      (s : KeymasterEnforcement) (r : Request Param) (e : ErrorCode)
      → Counts s r.keyid (after_purpose km s r e)
  unfolding after_purpose
  after_purpose-Counts s r ErrorCode.ok =
      elim (rounds km s r (indices km r.auth_set) r.auth_set start)
        as (λ x.
          Counts s r.keyid (elim x [ return error ↦ (error, s) | proceed l ↦ conclude km s r l ])) [
            | return error ↦ inl refl
            | proceed l ↦ conclude-Counts s r l
          ]
  after_purpose-Counts s r _ = inl refl

  begin-Counts :
      (s : KeymasterEnforcement) (r : Request Param) → Counts s r.keyid (authorize_begin km s r)
  unfolding authorize_begin
  begin-Counts s r = after_purpose-Counts s r _

  -- A call that returns OK for a limited key raises the count of the key.
  begin_raises :
      (s : KeymasterEnforcement) (r : Request Param)
      → mentions km is_uses r.auth_set ≡ true
      → (authorize_begin km s r).0 ≡ ErrorCode.ok
      → count_of (authorize_begin km s r).1 r.keyid ≡ some (next_count (count_of s r.keyid))
  unfolding count_of note_access count_use described
  begin_raises s r m h =
      let e = (begin_ok km s r h).1 in
      let i = increment_key_access_count-Incremented s.access_count_map r.keyid in
      rw e (elim (Bool-cases (increment_key_access_count s.access_count_map r.keyid).0) [
        | inl b ↦ ground (arith, i.counted b)
        | inr b ↦ ground (arith, ap (λ (x : ErrorCode × KeymasterEnforcement). x.0) e)
      ])

  others_keep :
      (s : KeymasterEnforcement) (r : Request Param) (keyid : ℕ)
      → keyid ≢ r.keyid
      → count_of (authorize_begin km s r).1 keyid ≡ count_of s keyid
  unfolding count_of
  others_keep s r keyid ne =
      let i = increment_key_access_count-Incremented s.access_count_map r.keyid in
      elim (begin-Counts s r) [ inl e ↦ rw e | inr (o, t, e) ↦ rw e (i.others keyid ne).0 ]

  failure_keeps :
      (s : KeymasterEnforcement) (r : Request Param) (keyid : ℕ)
      → (authorize_begin km s r).0 ≢ ErrorCode.ok
      → count_of (authorize_begin km s r).1 keyid ≡ count_of s keyid
  unfolding count_of
  failure_keeps s r keyid ne = elim (begin-Counts s r) [
    | inl e ↦ rw e
    | inr (o, t, e) ↦ absurd (ne o)
  ]

  abbrev pub is_ok : ErrorCode → Bool
  is_ok ErrorCode.ok = true
  is_ok _ = false

  is_ok_iff : (e : ErrorCode) → (is_ok e ≡ true) ↔ (e ≡ ErrorCode.ok)
  is_ok_iff ErrorCode.ok = ((λ h. refl), (λ h. refl))
  is_ok_iff _ = ((λ h. cc), (λ h. cc))

  -- How many of the calls, made one after another, return OK for the key.
  unfoldable pub successes : ℕ → KeymasterEnforcement → List (Request Param) → ℕ
  successes keyid s [] = 0
  successes keyid s (r ∷ rs) =
      (if r.keyid == keyid && is_ok (authorize_begin km s r).0 then 1 else 0)
      + successes keyid (authorize_begin km s r).1 rs

  -- One call adds what it counts.
  used_step :
      (s : KeymasterEnforcement) (r : Request Param) (keyid limit : ℕ)
      → (r.keyid ≡ keyid → IsLimited limit r.auth_set)
      → 0 < limit
      → limit < 2 ^ 32
      → used s keyid ≤ limit
      → let here : ℕ = if r.keyid == keyid && is_ok (authorize_begin km s r).0 then 1 else 0 in
        (used (authorize_begin km s r).1 keyid ≡ here + used s keyid)
        × (used (authorize_begin km s r).1 keyid ≤ limit)
  unfolding used count_of
  used_step s r keyid limit lim pos small le = elim (Bool-cases (r.keyid == keyid)) [
    | inr ne ↦
        let k = others_keep s r keyid (λ e. ground arith) in (ground (arith, k), ground (arith, k))
    | inl eq ↦ elim (Bool-cases (is_ok (authorize_begin km s r).0)) [
      | inr bad ↦
          let k = failure_keeps s r keyid (λ e. cc ((is_ok_iff _).1 e)) in
          (ground (arith, k), ground (arith, k))
      | inl good ↦
          let e : r.keyid ≡ keyid = (==_iff _ _).0 eq in
          let o = (is_ok_iff _).0 good in
          let k = begin_raises s r (limited_mentions limit r.auth_set (lim e)) o in
          let m =
            limited_used s r limit r.auth_set (rw e le) pos small
              (authorize_begin-Accepted km s r o).permitted (lim e) in
          (ground (arith, k, m), ground (arith, k, m))
    ]
  ]

  successes_bounded :
      (keyid limit : ℕ) (s : KeymasterEnforcement) (rs : List (Request Param))
      → All (λ r. r.keyid ≡ keyid → IsLimited limit r.auth_set) rs
      → 0 < limit
      → limit < 2 ^ 32
      → used s keyid ≤ limit
      → successes keyid s rs + used s keyid ≤ limit
  unfolding successes
  successes_bounded keyid limit s [] a pos small le = omega arith
  successes_bounded keyid limit s (r ∷ rs) a pos small le =
      let u = used_step s r keyid limit a.0 pos small le in
      omega (
        arith,
        u.0,
        u.1,
        successes_bounded keyid limit (authorize_begin km s r).1 rs a.1 pos small u.1,
      )

  -- Since the boot, at most as many calls return OK for a key as its MAX_USES_PER_BOOT of 32 bits says, if
  -- that is not 0, whatever calls are made, for this key and others, in any order.
  pub successes-le-limit :
      (keyid limit times counts : ℕ) (rs : List (Request Param))
      → All (λ r. r.keyid ≡ keyid → IsLimited limit r.auth_set) rs
      → 0 < limit
      → limit < 2 ^ 32
      → successes keyid (init times counts) rs ≤ limit
  unfolding init used count_of find_count
  successes-le-limit keyid limit times counts rs a pos small =
      omega (arith, successes_bounded keyid limit (init times counts) rs a pos small (omega arith))
