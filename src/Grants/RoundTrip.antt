-- ===== src/Grants/RoundTrip.antt =====
-- keystore/grant_store.cpp: a key is found by the alias that `put` returned for it.
use mathlib.Core.List.{append-nil}
use mathlib.Core.Option.{some-injective}
use system_security.Base.{
  ℕ, ◌+◌, ◌^◌, ◌<◌, ◌≤◌, ◌≡◌, refl, sym, subst, ◌∙◌, true, Option, none, some, List, [], ◌∷◌, ◌++◌,
  arith, ltb, ◌==◌, if◌then◌else◌, All, Any, is_some, inl, inr, Bool-cases, Option-cases,
}
use system_security.Text.{decimal, split_last}
use system_security.Text.Decimal.{Digit, decimal-All, read_unsigned-decimal}
use system_security.Text.Search.{split_last-append, text_eq_iff}
use system_security.KeyBlob.{KeyBlobEntry, entry_eq}
use system_security.Grants.{
  Grant, GrantStore, invalid_grant_no, keystore_grant_infix, parse_grant_alias, grants_of,
  set_grants, find_entry, find_number, emplace, draw, grant_alias, put, get,
}

split_last-digits : (ds : List ℕ) → All Digit ds → split_last keystore_grant_infix ds ≡ none
unfolding split_last
split_last-digits [] h = refl
split_last-digits (d ∷ ds) h = ground (arith, split_last-digits ds h.1, h.0)

split_last-infix :
    (ds : List ℕ)
    → All Digit ds
    → split_last keystore_grant_infix (keystore_grant_infix ++ ds) ≡ some ([], ds)
unfolding split_last
split_last-infix [] h = refl
split_last-infix (d ∷ ds) h = ground (arith, split_last-digits (d ∷ ds) h, h.0)

-- The alias of a grant is parsed into its number and the alias of the key.
parse_grant_alias-grant_alias :
    (e : KeyBlobEntry) (n : ℕ)
    → n < invalid_grant_no
    → parse_grant_alias (grant_alias e n) ≡ some (n, e.alias)
unfolding parse_grant_alias
parse_grant_alias-grant_alias e n lt = ground (
  arith,
  split_last-append keystore_grant_infix e.alias _ [] (decimal n)
      (split_last-infix (decimal n) (decimal-All n)),
  append-nil e.alias,
  read_unsigned-decimal (2 ^ 64) n (omega arith),
)

grants_of-set_grants :
    (uid u : ℕ) (gs : List Grant) (store : GrantStore)
    → grants_of u (set_grants uid gs store) ≡ (if uid == u then gs else grants_of u store)
unfolding grants_of set_grants
grants_of-set_grants uid u gs [] = refl
grants_of-set_grants uid u gs ((v, hs) ∷ rest) = ground (arith, grants_of-set_grants uid u gs rest)

-- The numbers of a set: they rise, from a lower bound on, and can be parsed back.
abbrev pub Rising : ℕ → List Grant → Type 0
Rising n [] = Unit {0}
Rising n (g ∷ gs) = (n ≤ g.grant_no) × (g.grant_no < invalid_grant_no) × Rising (g.grant_no + 1) gs

Rising-le : (m n : ℕ) (gs : List Grant) → m ≤ n → Rising n gs → Rising m gs
Rising-le m n [] h r = tt
Rising-le m n (g ∷ gs) h r = (omega arith, r.1, r.2)

emplace-Rising :
    (n : ℕ) (g : Grant) (gs hs : List Grant)
    → n ≤ g.grant_no
    → g.grant_no < invalid_grant_no
    → Rising n gs
    → emplace g gs ≡ some hs
    → Rising n hs
unfolding emplace
emplace-Rising n g [] hs le lt r e = subst (Rising n) (some-injective _ _ e) (le, lt, tt)
emplace-Rising n g (x ∷ gs) hs le lt r e = elim (Option-cases (emplace g gs)) [
  | inl k ↦ ground arith
  | inr (ys, k) ↦ elim (Bool-cases (ltb g.grant_no x.grant_no)) [
    | inl b ↦ subst (Rising n) {x = g ∷ x ∷ gs} (ground arith) (le, lt, (ground arith, r.1, r.2))
    | inr b ↦ elim (Bool-cases (g.grant_no == x.grant_no)) [
      | inl q ↦ absurd (ground arith)
      | inr q ↦
          subst (Rising n) {x = x ∷ ys} (ground arith)
            (r.0, r.1, emplace-Rising (x.grant_no + 1) g gs ys (ground arith) lt r.2 k)
    ]
  ]
]

find_number-emplace :
    (g : Grant) (gs hs : List Grant) → emplace g gs ≡ some hs → find_number g.grant_no hs ≡ some g
unfolding find_number emplace
find_number-emplace g [] hs h = ground arith
find_number-emplace g (x ∷ gs) hs h = elim (Option-cases (emplace g gs)) [
  | inl k ↦ ground arith
  | inr (ys, k) ↦ ground (arith, find_number-emplace g gs ys k)
]

draw_sound :
    (e : KeyBlobEntry) (rands : List ℕ) (gs hs : List Grant) (n : ℕ)
    → All (λ r. r < invalid_grant_no) rands
    → Rising 0 gs
    → draw e rands gs ≡ some (n, hs)
    → (find_number n hs ≡ some (record { entry = e; grant_no = n }))
      × (n < invalid_grant_no)
      × Rising 0 hs
unfolding draw
draw_sound e [] gs hs n a r h = cc
draw_sound e (x ∷ rs) gs hs n a r h =
    elim (Option-cases (emplace (record { entry = e; grant_no = x }) gs)) [
      | inl k ↦ draw_sound e rs gs hs n a.1 r (ground arith)
      | inr (ys, k) ↦
          let p : x ≡ n = ground arith in
          let q : ys ≡ hs = ground arith in
          (
            ground (arith, find_number-emplace (record { entry = e; grant_no = x }) gs ys k),
            ground (arith, a.0),
            subst (Rising 0) q
                (emplace-Rising 0 (record { entry = e; grant_no = x }) gs ys (omega arith) a.0 r k),
          )
    ]

-- A grant of the set is found by its number.
find_number-find_entry :
    (n : ℕ) (e : KeyBlobEntry) (gs : List Grant) (g : Grant)
    → Rising n gs
    → find_entry e gs ≡ some g
    → (find_number g.grant_no gs ≡ some g)
      × (n ≤ g.grant_no)
      × (g.grant_no < invalid_grant_no)
      × (entry_eq g.entry e ≡ true)
unfolding find_entry find_number
find_number-find_entry n e [] g r h = cc
find_number-find_entry n e (x ∷ gs) g r h = elim (Bool-cases (entry_eq x.entry e)) [
  | inl b ↦ (ground arith, ground (arith, r.0), ground (arith, r.1), ground arith)
  | inr b ↦
      let k = find_number-find_entry (x.grant_no + 1) e gs g r.2 (ground arith) in
      (ground (arith, k), omega (arith, k.1, r.0), k.2, k.3)
]

-- What `put` promises: the grantee finds the key by the alias that it returned, and the numbers of the
-- grantee's set stay in order.
abbrev pub Granted : ℕ → KeyBlobEntry → List ℕ → GrantStore → Type 0
Granted uid e alias store =
    (g : Grant) × (get uid alias store ≡ some g)
    × (entry_eq g.entry e ≡ true)
    × Rising 0 (grants_of uid store)

entry_eq-alias : (a b : KeyBlobEntry) → entry_eq a b ≡ true → a.alias ≡ b.alias
unfolding entry_eq
entry_eq-alias a b h = (text_eq_iff a.alias b.alias).0 (ground arith)

entry_eq_refl : (a : KeyBlobEntry) → entry_eq a a ≡ true
unfolding entry_eq
entry_eq_refl a =
    ground (arith, (text_eq_iff a.alias a.alias).1 refl, (text_eq_iff a.user_dir a.user_dir).1 refl)

get-grant_alias :
    (uid : ℕ) (e : KeyBlobEntry) (g : Grant) (gs : List Grant) (store : GrantStore)
    → find_number g.grant_no gs ≡ some g
    → g.grant_no < invalid_grant_no
    → entry_eq g.entry e ≡ true
    → Rising 0 gs
    → Granted uid e (grant_alias e g.grant_no) (set_grants uid gs store)
unfolding get
get-grant_alias uid e g gs store f lt q r =
    let s : grants_of uid (set_grants uid gs store) ≡ gs =
      grants_of-set_grants uid uid gs store ∙ ground arith in
    (
      g,
      ground (
        arith,
        parse_grant_alias-grant_alias e g.grant_no lt,
        s,
        (text_eq_iff g.entry.alias e.alias).1 (entry_eq-alias g.entry e q),
      ),
      q,
      subst (Rising 0) (sym s) r,
    )

-- Whatever std::rand() yields, if it is below the invalid number, the grantee finds the key by the
-- alias that `put` returned for it, and the numbers of the grantee's set stay in order.
put-Granted :
    (uid : ℕ) (e : KeyBlobEntry) (rands : List ℕ) (store : GrantStore) (alias : List ℕ)
    (store' : GrantStore)
    → All (λ r. r < invalid_grant_no) rands
    → Rising 0 (grants_of uid store)
    → put uid e rands store ≡ some (alias, store')
    → Granted uid e alias store'
unfolding put
put-Granted uid e rands store alias store' a r h =
    let gs = grants_of uid store in
    elim (Option-cases (find_entry e gs)) [
      | inr (g, k) ↦
          let f = find_number-find_entry 0 e gs g r k in
          moved (grant_alias e g.grant_no) (set_grants uid gs store) (ground arith)
            (get-grant_alias uid e g gs store f.0 f.2 f.3 r)
      | inl k ↦ elim (Option-cases (draw e rands gs)) [
        | inl d ↦ absurd (ground arith)
        | inr ((n, hs), d) ↦
            let s = draw_sound e rands gs hs n a r d in
            moved (grant_alias e n) (set_grants uid hs store) (ground arith) (
              get-grant_alias uid e (record { entry = e; grant_no = n }) hs store s.0 s.1
                (entry_eq_refl e) s.2)
      ]
    ]
  where
    moved :
        (b : List ℕ) (t : GrantStore)
        → ◌≡◌ {A = Option (List ℕ × GrantStore)} (some (b, t)) (some (alias, store'))
        → Granted uid e b t
        → Granted uid e alias store'
    moved b t q = subst (λ (x : List ℕ × GrantStore). Granted uid e x.0 x.1) (some-injective _ _ q)

emplace-fresh :
    (g : Grant) (gs : List Grant) → find_number g.grant_no gs ≡ none → is_some (emplace g gs) ≡ true
unfolding emplace find_number
emplace-fresh g [] h = refl
emplace-fresh g (x ∷ gs) h = ground (arith, h, emplace-fresh g gs)

draw-fresh :
    (e : KeyBlobEntry) (rands : List ℕ) (gs : List Grant)
    → Any (λ n. find_number n gs ≡ none) rands
    → is_some (draw e rands gs) ≡ true
unfolding draw
draw-fresh e [] gs f = absurd f
draw-fresh e (n ∷ ns) gs (inl f) =
    ground (arith, emplace-fresh (record { entry = e; grant_no = n }) gs f)
draw-fresh e (n ∷ ns) gs (inr f) = ground (arith, draw-fresh e ns gs f)

put-fresh :
    (uid : ℕ) (e : KeyBlobEntry) (rands : List ℕ) (store : GrantStore)
    → Any (λ n. find_number n (grants_of uid store) ≡ none) rands
    → is_some (put uid e rands store) ≡ true
unfolding put
put-fresh uid e rands store f = ground (arith, draw-fresh e rands (grants_of uid store) f)

-- If std::rand() yields numbers below the invalid one, one of which no grant of the grantee has, and
-- the grantee's grants are in order, then `put` returns an alias by which the grantee finds the key,
-- and the grants are still in order.
pub put-found :
    (uid : ℕ) (e : KeyBlobEntry) (rands : List ℕ) (store : GrantStore)
    → All (λ r. r < invalid_grant_no) rands
    → Rising 0 (grants_of uid store)
    → Any (λ n. find_number n (grants_of uid store) ≡ none) rands
    → (alias : List ℕ) × (store' : GrantStore) × (put uid e rands store ≡ some (alias, store'))
      × Granted uid e alias store'
put-found uid e rands store a r f = elim (Option-cases (put uid e rands store)) [
  | inl n ↦ absurd (ground (arith, n, put-fresh uid e rands store f))
  | inr ((alias, store'), s) ↦ (alias, store', s, put-Granted uid e rands store alias store' a r s)
]
