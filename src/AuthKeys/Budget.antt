-- ===== src/AuthKeys/Budget.antt =====
-- identity/CredentialData.cpp: how often the authentication keys of a credential are used, over any
-- sequence of operations that leaves the bound on the uses of a key as it is.
use system_security.Base.{
  ℕ, zero, suc, ◌+◌, ◌-◌, ◌*◌, ◌≤◌, ◌<◌, ◌≡◌, Bool, true, false, not, ◌&&◌, Option, none, some,
  List, [], ◌∷◌, if◌then◌else◌, get_elem?, set, inl, inr, Bool-cases, refl, sym, ap, subst, arith,
  is_some,
}
use mathlib.Core.Option.{some-injective}
use system_security.Text.{text_eq}
use system_security.AuthKeys.{
  AuthKeyData, AuthKeys, init, resize_keys, set_available_authentication_keys, is_certified, used,
  with_keys, select_auth_key, add_prepared, with_generated, needs_new_key, is_pending, prepare,
  prepare_keys, get_auth_keys_needing_certification, store_first, store_static_authentication_data,
}
use system_security.AuthKeys.Selection.{Usable, select_auth_key_lem}

-- selectAuthKey without exhausted keys, the certification of keys with the answers of the HAL,
-- the storing of a certified key, and a new number of keys.
pub data KeyOperation : Type 0 where
  select : KeyOperation
  certify : (ℕ → Option (List ℕ × List ℕ)) → KeyOperation
  store : List ℕ → List ℕ → KeyOperation
  set_count : ℕ → KeyOperation

unfoldable pub after : KeyOperation → AuthKeys → AuthKeys
after select keys = (select_auth_key false keys).1
after (certify hal) keys = (get_auth_keys_needing_certification hal keys).1
after (store key static_data) keys = (store_static_authentication_data key static_data keys).1
after (set_count n) keys = set_available_authentication_keys n keys.max_uses_per_key keys

-- What an operation counts as: a key that was taken, and a key that was stored.
abbrev pub one_if : Bool → ℕ
one_if true = 1
one_if false = 0

unfoldable pub taken : KeyOperation → AuthKeys → ℕ
taken select keys = one_if (is_some (select_auth_key false keys).0)
taken (certify hal) keys = 0
taken (store key static_data) keys = 0
taken (set_count n) keys = 0

unfoldable pub renewed : KeyOperation → AuthKeys → ℕ
renewed select keys = 0
renewed (certify hal) keys = 0
renewed (store key static_data) keys =
    one_if (store_static_authentication_data key static_data keys).0
renewed (set_count n) keys = 0

-- The sums over a sequence of operations.
unfoldable pub selections : List KeyOperation → AuthKeys → ℕ
unfolding after taken
selections [] keys = 0
selections (o ∷ os) keys = taken o keys + selections os (after o keys)

unfoldable pub stores : List KeyOperation → AuthKeys → ℕ
unfolding after renewed
stores [] keys = 0
stores (o ∷ os) keys = renewed o keys + stores os (after o keys)

-- How often the keys may still be taken.
abbrev pub room : ℕ → AuthKeyData → ℕ
room uses d = if is_certified d then uses - d.use_count else 0

unfoldable pub remaining : ℕ → List AuthKeyData → ℕ
remaining uses [] = 0
remaining uses (d ∷ ds) = room uses d + remaining uses ds

room_spent :
    (uses : ℕ) (d : AuthKeyData) (n : ℕ)
    → is_certified d ≡ true
    → d.use_count < uses
    → room uses (used d) + n + 1 ≤ room uses d + n
room_spent uses d n c l = ground (arith, c, l)

pub remaining-set :
    (uses i : ℕ) (d : AuthKeyData) (ds : List AuthKeyData)
    → get_elem? ds i ≡ some d
    → is_certified d ≡ true
    → d.use_count < uses
    → remaining uses (set ds i (used d)) + 1 ≤ remaining uses ds
unfolding remaining
remaining-set uses i d [] e c l = cc
remaining-set uses zero d (x ∷ ds) e c l =
    subst (λ (y : AuthKeyData). remaining uses (used d ∷ ds) + 1 ≤ remaining uses (y ∷ ds))
      (some-injective _ _ (sym e)) (room_spent uses d (remaining uses ds) c l)
remaining-set uses (suc i) d (x ∷ ds) e c l = omega (arith, remaining-set uses i d ds e c l)

remaining-resize_keys :
    (uses n : ℕ) (ds : List AuthKeyData) → remaining uses (resize_keys n ds) ≤ remaining uses ds
unfolding remaining resize_keys
remaining-resize_keys uses zero ds = omega arith
remaining-resize_keys uses (suc n) [] = omega (arith, remaining-resize_keys uses n [])
remaining-resize_keys uses (suc n) (d ∷ ds) = omega (arith, remaining-resize_keys uses n ds)

-- What a round of the certification leaves as it is.
abbrev Keeps : ℕ → AuthKeyData → Option (Bool × AuthKeyData) → Type 0
Keeps uses d none = Unit {0}
Keeps uses d (some (b, e)) = room uses e ≡ room uses d

with_generated-Keeps :
    (uses : ℕ) (d : AuthKeyData) (answer : Option (List ℕ × List ℕ))
    → Keeps uses d (with_generated d answer)
with_generated-Keeps uses d none = tt
with_generated-Keeps uses d (some (blob, certificate)) = refl

prepare-Keeps :
    (uses bound : ℕ) (d : AuthKeyData) (answer : Option (List ℕ × List ℕ))
    → Keeps uses d (prepare answer bound d)
unfolding prepare
prepare-Keeps uses bound d answer =
    elim (Bool-cases (needs_new_key bound d && not (is_pending d))) [
      | inl b ↦ rw b (with_generated-Keeps uses d answer)
      | inr b ↦ rw b refl
    ]

remaining-add_prepared :
    (uses : ℕ) (d : AuthKeyData) (ds : List AuthKeyData) (o : Option (Bool × AuthKeyData))
    (rest : Option (List (List ℕ)) × List AuthKeyData)
    → Keeps uses d o
    → remaining uses rest.1 ≡ remaining uses ds
    → remaining uses (add_prepared d ds o rest).1 ≡ remaining uses (d ∷ ds)
unfolding remaining
remaining-add_prepared uses d ds none rest k h = refl
remaining-add_prepared uses d ds (some (b, e)) rest k h = omega (arith, k, h)

remaining-prepare_keys :
    (hal : ℕ → Option (List ℕ × List ℕ)) (uses bound n : ℕ) (ds : List AuthKeyData)
    → remaining uses (prepare_keys hal bound n ds).1 ≡ remaining uses ds
unfolding remaining prepare_keys prepare
remaining-prepare_keys hal uses bound n [] = refl
remaining-prepare_keys hal uses bound n (d ∷ ds) =
    remaining-add_prepared uses d ds (prepare (hal n) bound d) _
      (prepare-Keeps uses bound d (hal n)) (remaining-prepare_keys hal uses bound (suc n) ds)

remaining-store_first :
    (key static_data : List ℕ) (uses : ℕ) (ds : List AuthKeyData)
    → remaining uses (store_first key static_data ds).1
      ≤ remaining uses ds + uses * one_if (store_first key static_data ds).0
unfolding remaining store_first
remaining-store_first key static_data uses [] = omega arith
remaining-store_first key static_data uses (d ∷ ds) =
    elim (Bool-cases (text_eq d.pending_certificate key)) [
      | inl b ↦ rw b (ground arith)
      | inr b ↦ rw b (omega (arith, remaining-store_first key static_data uses ds))
    ]

-- An operation keeps the bound and spends what it takes.
after-max :
    (o : KeyOperation) (keys : AuthKeys) → (after o keys).max_uses_per_key ≡ keys.max_uses_per_key
unfolding after get_auth_keys_needing_certification store_static_authentication_data
    set_available_authentication_keys
after-max select keys = elim (select_auth_key_lem false keys) [
  | inl r ↦ ap (λ (p : Option ℕ × AuthKeys). p.1.max_uses_per_key) r.0
  | inr t ↦ ap (λ (p : Option ℕ × AuthKeys). p.1.max_uses_per_key) t.1.1.1
]
after-max (certify hal) keys = refl
after-max (store key static_data) keys = refl
after-max (set_count n) keys = refl

-- What the keys may still be used after a selection, with what it took.
abbrev Spends : AuthKeys → Option ℕ × AuthKeys → Type 0
Spends keys p =
    one_if (is_some p.0) + remaining keys.max_uses_per_key p.1.auth_key_datas
    ≤ remaining keys.max_uses_per_key keys.auth_key_datas

set-Spends :
    (keys : AuthKeys) (i : ℕ) (d : AuthKeyData)
    → Usable false keys i d
    → Spends keys (some i, with_keys (set keys.auth_key_datas i (used d)) keys)
set-Spends keys i d (e, (c, (n, inl f))) = cc
set-Spends keys i d (e, (c, (n, inr l))) =
    omega (arith, remaining-set keys.max_uses_per_key i d keys.auth_key_datas e c l)

select-Spends : (keys : AuthKeys) → Spends keys (select_auth_key false keys)
select-Spends keys = elim (select_auth_key_lem false keys) [
  | inl r ↦ subst (Spends keys) (sym r.0) (omega arith)
  | inr (i, (d, (u, e))) ↦ subst (Spends keys) (sym e) (set-Spends keys i d u)
]

after-spends :
    (o : KeyOperation) (keys : AuthKeys)
    → taken o keys + remaining keys.max_uses_per_key (after o keys).auth_key_datas
      ≤ remaining keys.max_uses_per_key keys.auth_key_datas + keys.max_uses_per_key * renewed o keys
unfolding after taken renewed get_auth_keys_needing_certification store_static_authentication_data
    set_available_authentication_keys
after-spends select keys = omega (arith, select-Spends keys)
after-spends (certify hal) keys = omega (
  arith,
  remaining-prepare_keys hal keys.max_uses_per_key keys.max_uses_per_key 0 keys.auth_key_datas,
)
after-spends (store key static_data) keys =
    omega (arith, remaining-store_first key static_data keys.max_uses_per_key keys.auth_key_datas)
after-spends (set_count n) keys =
    omega (arith, remaining-resize_keys keys.max_uses_per_key n keys.auth_key_datas)

chained :
    (t s r r2 n m uses : ℕ) → t + r2 ≤ r + uses * n → s ≤ r2 + uses * m → t + s ≤ r + uses * (n + m)
chained t s r r2 n m uses a b = omega arith

spent :
    (os : List KeyOperation) (keys : AuthKeys)
    → selections os keys
      ≤ remaining keys.max_uses_per_key keys.auth_key_datas + keys.max_uses_per_key * stores os keys
unfolding selections stores
spent [] keys = omega arith
spent (o ∷ os) keys =
    chained (taken o keys) _ _ _ (renewed o keys) _ keys.max_uses_per_key (after-spends o keys) (
      subst
        (λ (uses : ℕ).
          selections os (after o keys)
          ≤ remaining uses (after o keys).auth_key_datas + uses * stores os (after o keys))
        (after-max o keys) (spent os (after o keys)))

-- Beginning with new keys, over any sequence of selections without exhausted keys, certifications,
-- storings and new numbers of keys, the keys are selected at most as often as the bound on the uses
-- of a key, for each certified key that was stored.
pub selections-le-stores :
    (os : List KeyOperation) (count uses : ℕ)
    → selections os (set_available_authentication_keys count uses init)
      ≤ uses * stores os (set_available_authentication_keys count uses init)
unfolding set_available_authentication_keys remaining
selections-le-stores os count uses = omega (
  arith,
  spent os (set_available_authentication_keys count uses init),
  remaining-resize_keys uses count [],
)
