-- ===== src/AuthKeys/Selection.antt =====
-- identity/CredentialData.cpp: which authentication key selectAuthKey takes.
use system_security.Base.{
  ℕ, suc, ◌+◌, ◌≤◌, ◌<◌, ◌≡◌, ◌⊎◌, subst, Bool, true, false, not, ◌&&◌, Option, none, some, List,
  [], ◌∷◌, leb, if◌then◌else◌, get_elem?, set, All, All-map, inl, inr, Bool-cases, Option-cases,
  refl, sym, arith,
}
use mathlib.Core.Option.{some-injective}
use system_security.AuthKeys.{
  AuthKeyData, AuthKeys, is_certified, is_better, candidate_from, used, with_keys, select_candidate,
  select_auth_key,
}

-- The candidate before a round, or the key of the round.
abbrev pub next : ℕ → AuthKeyData → Option (ℕ × AuthKeyData) → Option (ℕ × AuthKeyData)
next n d c = if is_certified d && is_better d c then some (n, d) else c

-- A certified key that stands at the index, counted from `k`.
abbrev pub StandsAt : ℕ → List AuthKeyData → ℕ → AuthKeyData → Type 0
StandsAt k ds n d = (is_certified d ≡ true) × ((i : ℕ) × ((n ≡ k + i) × (get_elem? ds i ≡ some d)))

stands_later :
    (k n : ℕ) (e d : AuthKeyData) (ds : List AuthKeyData)
    → StandsAt (suc k) ds n d
    → StandsAt k (e ∷ ds) n d
stands_later k n e d ds h = (h.0, (suc h.1.0, (omega (arith, h.1.1.0), h.1.1.1)))

chosen_found :
    (b : Bool) (k n : ℕ) (e d : AuthKeyData) (ds : List AuthKeyData) (c : Option (ℕ × AuthKeyData))
    → (b ≡ true → is_certified e ≡ true)
    → (if b then some (k, e) else c) ≡ some (n, d)
    → (c ≡ some (n, d)) ⊎ StandsAt k (e ∷ ds) n d
chosen_found true k n e d ds c f h = inr (
    subst (λ (p : ℕ × AuthKeyData). StandsAt k (e ∷ ds) p.0 p.1) (some-injective _ _ h)
      (f refl, (0, (omega arith, refl))))
chosen_found false k n e d ds c f h = inl h

both : (a b : Bool) → (a && b) ≡ true → a ≡ true
both true b h = refl
both false b h = h

pub candidate_from-found :
    (k n : ℕ) (d : AuthKeyData) (ds : List AuthKeyData) (c : Option (ℕ × AuthKeyData))
    → candidate_from k ds c ≡ some (n, d)
    → (c ≡ some (n, d)) ⊎ StandsAt k ds n d
unfolding candidate_from
candidate_from-found k n d [] c h = inl h
candidate_from-found k n d (e ∷ ds) c h =
    elim (candidate_from-found (suc k) n d ds (next k e c) h) [
      | inl f ↦ chosen_found (is_certified e && is_better e c) k n e d ds c (both _ _) f
      | inr s ↦ inr (stands_later k n e d ds s)
    ]

-- A key is not certified, or was used at least so often.
abbrev pub NotBelow : ℕ → AuthKeyData → Type 0
NotBelow uses e = (is_certified e ≡ false) ⊎ (uses ≤ e.use_count)

abbrev pub CandidateNotBelow : ℕ → Option (ℕ × AuthKeyData) → Type 0
CandidateNotBelow uses none = Unit {0}
CandidateNotBelow uses (some (n, e)) = uses ≤ e.use_count

next-NotBelow :
    (uses k : ℕ) (e : AuthKeyData) (c : Option (ℕ × AuthKeyData))
    → CandidateNotBelow uses (next k e c)
    → NotBelow uses e × CandidateNotBelow uses c
unfolding is_better
next-NotBelow uses k e none h = ground arith
next-NotBelow uses k e (some (n, d)) h = ground arith

pub candidate_from-NotBelow :
    (k n : ℕ) (d : AuthKeyData) (ds : List AuthKeyData) (c : Option (ℕ × AuthKeyData))
    → candidate_from k ds c ≡ some (n, d)
    → CandidateNotBelow d.use_count c × All (NotBelow d.use_count) ds
unfolding candidate_from
candidate_from-NotBelow k n d [] none h = (tt, tt)
candidate_from-NotBelow k n d [] (some (m, e)) h = (
  subst (λ (p : ℕ × AuthKeyData). d.use_count ≤ p.1.use_count) (some-injective _ _ (sym h))
      (omega arith),
  tt,
)
candidate_from-NotBelow k n d (e ∷ ds) c h =
    let r = candidate_from-NotBelow (suc k) n d ds (next k e c) h in
    let s = next-NotBelow d.use_count k e c r.0 in (s.1, (s.0, r.1))

abbrev pub Uncertified : AuthKeyData → Type 0
Uncertified e = is_certified e ≡ false

candidate_from-none :
    (k : ℕ) (ds : List AuthKeyData) (c : Option (ℕ × AuthKeyData))
    → candidate_from k ds c ≡ none
    → (c ≡ none) × All Uncertified ds
unfolding candidate_from is_better
candidate_from-none k [] c h = (h, tt)
candidate_from-none k (e ∷ ds) c h =
    let r = candidate_from-none (suc k) ds (next k e c) h in
    (ground (arith, r.0), (ground (arith, r.0), r.1))

-- A key that may not be taken: it has no certificate, or is exhausted and that matters.
abbrev pub NotUsable : Bool → ℕ → AuthKeyData → Type 0
NotUsable allow uses e = (is_certified e ≡ false) ⊎ ((allow ≡ false) × (uses ≤ e.use_count))

-- The key at an index is certified, no certified key was used less, and it may be taken.
abbrev pub Usable : Bool → AuthKeys → ℕ → AuthKeyData → Type 0
Usable allow keys i d =
    (get_elem? keys.auth_key_datas i ≡ some d)
    × ((is_certified d ≡ true)
        × (All (NotBelow d.use_count) keys.auth_key_datas
            × ((allow ≡ true) ⊎ (d.use_count < keys.max_uses_per_key))))

abbrev pub Refused : Bool → AuthKeys → Type 0
Refused allow keys =
    (select_auth_key allow keys ≡ (none, keys))
    × All (NotUsable allow keys.max_uses_per_key) keys.auth_key_datas

abbrev pub Taken : Bool → AuthKeys → Type 0
Taken allow keys =
    (i : ℕ) × ((d : AuthKeyData) × (Usable allow keys i d
        × (select_auth_key allow keys
            ≡ (some i, with_keys (set keys.auth_key_datas i (used d)) keys))))

exhausted_all :
    (allow : Bool) (uses : ℕ) (d e : AuthKeyData)
    → allow ≡ false
    → uses ≤ d.use_count
    → NotBelow d.use_count e
    → NotUsable allow uses e
exhausted_all allow uses d e a b (inl u) = inl u
exhausted_all allow uses d e a b (inr l) = inr (a, omega arith)

located :
    (n : ℕ) (d : AuthKeyData) (ds : List AuthKeyData)
    → candidate_from 0 ds none ≡ some (n, d)
    → (is_certified d ≡ true) × (get_elem? ds n ≡ some d)
located n d ds h = elim (candidate_from-found 0 n d ds none h) [
  | inl f ↦ cc
  | inr s ↦ (s.0, subst (λ (i : ℕ). get_elem? ds i ≡ some d) (omega (arith, s.1.1.0)) s.1.1.1)
]

with_candidate :
    (allow : Bool) (keys : AuthKeys) (n : ℕ) (d : AuthKeyData)
    → candidate_from 0 keys.auth_key_datas none ≡ some (n, d)
    → Refused allow keys ⊎ Taken allow keys
unfolding select_auth_key select_candidate
with_candidate allow keys n d h =
    elim (Bool-cases (leb keys.max_uses_per_key d.use_count && not allow)) [
      | inl b ↦ inl (
        rw h (rw b refl),
        All-map
            (λ e.
              exhausted_all allow keys.max_uses_per_key d e (ground (arith, b)) (ground (arith, b)))
            keys.auth_key_datas (candidate_from-NotBelow 0 n d keys.auth_key_datas none h).1,
      )
      | inr b ↦ inr (
        n,
        (
          d,
          (
            (
              (located n d keys.auth_key_datas h).1,
              (
                (located n d keys.auth_key_datas h).0,
                ((candidate_from-NotBelow 0 n d keys.auth_key_datas none h).1, ground (arith, b)),
              ),
            ),
            rw h (rw b refl),
          ),
        ),
      )
    ]

-- selectAuthKey answers with a certified key that was used least of all certified keys, and that may
-- be taken, and raises its use count alone; it answers with none, and changes nothing, if no key may.
pub select_auth_key_lem : (allow : Bool) (keys : AuthKeys) → Refused allow keys ⊎ Taken allow keys
unfolding select_auth_key select_candidate
select_auth_key_lem allow keys = elim (Option-cases (candidate_from 0 keys.auth_key_datas none)) [
  | inl h ↦ inl (
    rw h refl,
    All-map (λ e u. inl u) keys.auth_key_datas (candidate_from-none 0 keys.auth_key_datas none h).1,
  )
  | inr c ↦ with_candidate allow keys c.0.0 c.0.1 c.1
]
