-- ===== src/AuthTokens/Newest.antt =====
-- keystore/auth_token_table.cpp: the loop that looks for the newest entry that satisfies a key, as in
-- FindTimedAuthorization and FindAuthorizationForCredstore.
use mathlib.Core.List.{append_assoc, append-nil}
use system_security.Base.{
  ℕ, ◌≤◌, ◌<◌, ◌≡◌, ◌≢◌, ◌↔◌, refl, true, false, ◌&&◌, ◌⊎◌, inl, inr, Option, none, some, List, [],
  ◌∷◌, ◌++◌, arith, if◌then◌else◌, length, length-append_one, get_elem?, All, Any, All-append,
  All-map, get_elem?-append, get_elem?-length, Bool-cases, bit_and,
}
use system_security.AuthTokens.{
  Entry, is_newer_than, satisfies_auth, satisfies_auth_sid, newest_match, newest_entry,
}

-- An entry is for one of the secure ids, and of an authenticator type that the key accepts.
abbrev pub Authorizes : Entry → List ℕ → ℕ → Type 0
Authorizes e sids auth_type =
    Any (λ sid. (sid ≡ e.token.user_id) ⊎ (sid ≡ e.token.authenticator_id)) sids
    × (bit_and auth_type e.token.authenticator_type ≢ 0)

satisfies_auth→Authorizes :
    (e : Entry) (sids : List ℕ) (auth_type : ℕ)
    → satisfies_auth e sids auth_type ≡ true
    → Authorizes e sids auth_type
unfolding satisfies_auth satisfies_auth_sid
satisfies_auth→Authorizes e [] auth_type h = cc
satisfies_auth→Authorizes e (sid ∷ sids) auth_type h =
    ground (arith, satisfies_auth→Authorizes e sids auth_type)

Authorizes→satisfies_auth :
    (e : Entry) (sids : List ℕ) (auth_type : ℕ)
    → Authorizes e sids auth_type
    → satisfies_auth e sids auth_type ≡ true
unfolding satisfies_auth satisfies_auth_sid
Authorizes→satisfies_auth e [] auth_type h = absurd h.0
Authorizes→satisfies_auth e (sid ∷ sids) auth_type (inl m, ne) = ground arith
Authorizes→satisfies_auth e (sid ∷ sids) auth_type (inr m, ne) =
    ground (arith, Authorizes→satisfies_auth e sids auth_type (m, ne))

-- The test of the code is that description.
pub satisfies_auth_iff :
    (e : Entry) (sids : List ℕ) (auth_type : ℕ)
    → ((satisfies_auth e sids auth_type ≡ true) ↔ Authorizes e sids auth_type)
satisfies_auth_iff e sids auth_type =
    (satisfies_auth→Authorizes e sids auth_type, Authorizes→satisfies_auth e sids auth_type)

-- The order of the tokens: by their own time, then by when they were received.
abbrev pub Older : Entry → Entry → Type 0
Older e x =
    (x.token.timestamp < e.token.timestamp)
    ⊎ ((x.token.timestamp ≡ e.token.timestamp) × (x.time_received ≤ e.time_received))

not_newer : (x e : Entry) → is_newer_than x (some e) ≡ false → Older e x
unfolding is_newer_than
not_newer x e h = ground arith

Older-refl : (e : Entry) → Older e e
Older-refl e = inr (refl, omega arith)

Older-trans : (x b e : Entry) → Older b x → is_newer_than e (some b) ≡ true → Older e x
unfolding is_newer_than
Older-trans x b e h k = ground arith

module _ (sids : List ℕ) (auth_type : ℕ) where
  -- No entry authorizes, or the entry at position i does and no other that does is newer.
  abbrev pub Newest : List Entry → Option (ℕ × Entry) → Type 0
  Newest es none = All (λ x. ¬ Authorizes x sids auth_type) es
  Newest es (some (i, e)) =
      (get_elem? es i ≡ some e)
      × Authorizes e sids auth_type
      × All (λ x. Authorizes x sids auth_type → Older e x) es

  not_authorized :
      (x : Entry) → satisfies_auth x sids auth_type ≡ false → ¬ Authorizes x sids auth_type
  not_authorized x h a = cc (h, Authorizes→satisfies_auth x sids auth_type a)

  kept :
      (es : List Entry) (x : Entry) (best : Option (ℕ × Entry))
      → (satisfies_auth x sids auth_type && is_newer_than x (newest_entry best)) ≡ false
      → Newest es best
      → Newest (es ++ x ∷ []) best
  unfolding newest_entry is_newer_than
  kept es x none h n = All-append _ es _ n (not_authorized x (ground arith), tt)
  kept es x (some (i, e)) h n = (
    get_elem?-append es _ i n.0,
    n.1,
    All-append _ es _ n.2 (
      (λ a.
          not_newer x e
            (unfold is_newer_than in ground (arith, Authorizes→satisfies_auth x sids auth_type a))),
      tt,
    ),
  )

  replaced :
      (es : List Entry) (x : Entry) (best : Option (ℕ × Entry))
      → (satisfies_auth x sids auth_type && is_newer_than x (newest_entry best)) ≡ true
      → Newest es best
      → Newest (es ++ x ∷ []) (some (length es, x))
  unfolding newest_entry
  replaced es x none h n = (
    get_elem?-length es [] x,
    satisfies_auth→Authorizes x sids auth_type (ground arith),
    All-append _ es _ (All-map (λ y na a. absurd (na a)) es n) ((λ a. Older-refl x), tt),
  )
  replaced es x (some (i, e)) h n = (
    get_elem?-length es [] x,
    satisfies_auth→Authorizes x sids auth_type (ground arith),
    All-append _ es _ (All-map (λ y old a. Older-trans y e x (old a) (ground arith)) es n.2)
        ((λ a. Older-refl x), tt),
  )

  step :
      (es : List Entry) (x : Entry) (best : Option (ℕ × Entry))
      → Newest es best
      → Newest (es ++ x ∷ []) (
          if satisfies_auth x sids auth_type && is_newer_than x (newest_entry best)
          then some (length es, x)
          else best)
  step es x best n =
      elim (Bool-cases (satisfies_auth x sids auth_type && is_newer_than x (newest_entry best))) [
        | inl e ↦ rw e (replaced es x best e n)
        | inr e ↦ rw e (kept es x best e n)
      ]

  newest_match_from :
      (seen es : List Entry) (best : Option (ℕ × Entry))
      → Newest seen best
      → Newest (seen ++ es) (newest_match sids auth_type (length seen) es best)
  unfolding newest_match
  newest_match_from seen [] best n = rw append-nil n
  newest_match_from seen (x ∷ es) best n =
      rw (append_assoc, length-append_one) at
        (newest_match_from (seen ++ x ∷ []) es _ (step seen x best n))

  -- The loop finds the newest entry that authorizes, and none only if there is none.
  pub newest_match-Newest : (es : List Entry) → Newest es (newest_match sids auth_type 0 es none)
  newest_match-Newest es = newest_match_from [] es none tt
