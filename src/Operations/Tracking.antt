-- ===== src/Operations/Tracking.antt =====
-- keystore/operation.cpp: what the four containers of OperationMap say of one another.
use system_security.Base.{
  ℕ, ◌≤◌, ◌<◌, ◌≡◌, ◌≢◌, ◌⊎◌, refl, Bool, Option, none, some, List, [], ◌∷◌, ◌++◌, arith, ap, ◌==◌,
  if◌then◌else◌, inl, inr, Bool-cases, Option-cases,
}
use system_security.Base.Assoc.{
  find_key, erase_key, count, erase_one, find_key-put_key, find_key-erase_key, count-append,
  count-erase_one,
}
use system_security.Operations.{
  Operation, OperationMap, init, or_empty, emplace, add_operation, get_operation, update_lru,
  retrack, remove_operation_tracking, remove_operation, get_operations_for_token,
}

abbrev pub linked_as : Option (List ℕ) → ℕ
linked_as none = 0
linked_as (some ts) = 1

snoc-ne-nil : (xs : List ℕ) (x : ℕ) → xs ++ x ∷ [] ≢ []
snoc-ne-nil [] x = ground arith
snoc-ne-nil (y ∷ xs) x = ground arith

-- The first place of a number in a list, which `erase_one` takes out.
split_one :
    (t : ℕ) (xs : List ℕ)
    → (count t xs ≡ 0)
      ⊎ ((before : List ℕ) × (later : List ℕ) × (xs ≡ before ++ t ∷ later)
          × (erase_one t xs ≡ before ++ later)
          × (0 < count t xs))
unfolding count erase_one
split_one t [] = inl refl
split_one t (x ∷ xs) = elim (Bool-cases (x == t)) [
  | inl b ↦ inr ([], xs, ground (arith, b), ground (arith, b), ground (arith, b))
  | inr b ↦ elim (split_one t xs) [
    | inl z ↦ inl (ground (arith, b, z))
    | inr (before, later, w, k, c) ↦
        inr (x ∷ before, later, ap (◌∷◌ x) w, ground (arith, b, k), ground (arith, b, c))
  ]
]

module _ {Data : Type 0} where
  abbrev pub tracked_as : ℕ → Option (Operation Data) → ℕ
  tracked_as app none = 0
  tracked_as app (some op) = if op.app_token == app then 1 else 0

  abbrev pub present : Option (Operation Data) → ℕ
  present none = 0
  present (some op) = 1

  -- Every operation is tracked once, under its own application's token and no other; nothing else is
  -- tracked; the list of pruneable operations names an operation once at most; and the map listens
  -- to the death of the applications that have an operation, once each, and of no others.
  pub record Consistent (m : OperationMap Data) : Type 0 where
    pub tracked :
        (token app : ℕ)
        → count token (get_operations_for_token m app) ≡ tracked_as app (find_key token m.map)
    pub pruneable : (token : ℕ) → count token m.lru ≤ present (find_key token m.map)
    pub linked : (app : ℕ) → count app m.links ≡ linked_as (find_key app m.app_token_map)
    pub in_use : (app : ℕ) → find_key app m.app_token_map ≢ some []

  find_key-emplace :
      (token t : ℕ) (op : Operation Data) (m : List (ℕ × Operation Data))
      → find_key token m ≡ none
      → find_key t (emplace token op m) ≡ (if token == t then some op else find_key t m)
  unfolding emplace find_key
  find_key-emplace token t op m h = ground arith

  pub init-Consistent : Consistent init
  unfolding init get_operations_for_token find_key count
  init-Consistent = record {
    tracked = λ token app. refl;
    pruneable = λ token. omega arith;
    linked = λ app. refl;
    in_use = λ app. ground arith;
  }

  -- Adding an operation under a token that is new keeps the containers consistent.
  pub add_operation-Consistent :
      (m : OperationMap Data) (token : ℕ) (op : Operation Data) (pruneable : Bool)
      → find_key token m.map ≡ none
      → Consistent m
      → Consistent (add_operation m token op pruneable)
  unfolding add_operation get_operations_for_token count
  add_operation-Consistent m token op pruneable fresh c = record {
    tracked = λ t app. ground (
      arith,
      find_key-emplace token t op m.map fresh,
      find_key-put_key op.app_token app
          (or_empty (find_key op.app_token m.app_token_map) ++ token ∷ []) m.app_token_map,
      count-append t (or_empty (find_key op.app_token m.app_token_map)) (token ∷ []),
      c.tracked t app,
      c.tracked t op.app_token,
    );
    pruneable = λ t. ground (
      arith,
      find_key-emplace token t op m.map fresh,
      count-append t m.lru (token ∷ []),
      c.pruneable t,
    );
    linked = λ app. ground (
      arith,
      find_key-put_key op.app_token app
          (or_empty (find_key op.app_token m.app_token_map) ++ token ∷ []) m.app_token_map,
      c.linked app,
      c.linked op.app_token,
    );
    in_use = λ app. ground (
      arith,
      find_key-put_key op.app_token app
          (or_empty (find_key op.app_token m.app_token_map) ++ token ∷ []) m.app_token_map,
      snoc-ne-nil (or_empty (find_key op.app_token m.app_token_map)) token,
      c.in_use app,
    );
  }

  pub get_operation-Consistent :
      (m : OperationMap Data) (token : ℕ) → Consistent m → Consistent (get_operation m token).1
  unfolding get_operation get_operations_for_token count
  get_operation-Consistent m token c = elim (Option-cases (find_key token m.map)) [
    | inl e ↦ rw (e, get_operation) c
    | inr (op, e) ↦
        rw (e, get_operation)
          (record {
            tracked = λ t app. ground (arith, c.tracked t app);
            pruneable = λ t. ground (
              arith,
              c.pruneable t,
              count-append t (erase_one token m.lru) (token ∷ []),
              count-erase_one token t m.lru,
            );
            linked = λ app. ground (arith, c.linked app);
            in_use = λ app. ground (arith, c.in_use app);
          })
  ]

  -- The answer is the operation under the token; one that may be pruned is moved to the end of the
  -- order in which operations are pruned, which is else as it was, and nothing else changes.
  abbrev pub Touched : OperationMap Data → ℕ → Option (Operation Data) × OperationMap Data → Type 0
  Touched m token found =
      (found.0 ≡ find_key token m.map)
      × ((((find_key token m.map ≡ none) ⊎ (count token m.lru ≡ 0)) × (found.1 ≡ m))
          ⊎ ((before : List ℕ) × (later : List ℕ) × (m.lru ≡ before ++ token ∷ later)
              × (found.1 ≡ record m { lru = (before ++ later) ++ token ∷ [] })))

  get_operation-Touched :
      (m : OperationMap Data) (token : ℕ) → Touched m token (get_operation m token)
  unfolding get_operation update_lru
  get_operation-Touched m token = elim (Option-cases (find_key token m.map)) [
    | inl e ↦ rw (e, get_operation) (refl, inl (inl refl, refl))
    | inr (op, e) ↦ elim (split_one token m.lru) [
      | inl z ↦ (ground arith, inl (inr z, ground arith))
      | inr (before, later, w, k, c) ↦
          (ground arith, inr (before, later, w, ground (arith, k, c, e)))
    ]
  ]

  -- Getting an operation keeps the containers consistent; its answer is the operation under the token,
  -- and one that may be pruned is moved to the end of the order of pruning, which is else as it was.
  pub get_operation-kept :
      (m : OperationMap Data) (token : ℕ)
      → Consistent m
      → Consistent (get_operation m token).1 × Touched m token (get_operation m token)
  get_operation-kept m token c = (get_operation-Consistent m token c, get_operation-Touched m token)

  retrack-Consistent :
      (m : OperationMap Data) (token : ℕ) (op : Operation Data) (tokens left : List ℕ)
      → Consistent m
      → find_key token m.map ≡ some op
      → find_key op.app_token m.app_token_map ≡ some tokens
      → erase_one token tokens ≡ left
      → Consistent (
          retrack
            (record m { map = erase_key token m.map; lru = erase_one token m.lru })
            op.app_token
            left)
  unfolding retrack get_operations_for_token count
  retrack-Consistent m token op tokens [] c e f k = record {
    tracked = λ t app. ground (
      arith,
      e,
      f,
      k,
      find_key-erase_key op.app_token app m.app_token_map,
      find_key-erase_key token t m.map,
      count-erase_one token t tokens,
      ap (count t) k,
      c.tracked t app,
      c.tracked t op.app_token,
    );
    pruneable = λ t.
        ground
          (arith, c.pruneable t, count-erase_one token t m.lru, find_key-erase_key token t m.map);
    linked = λ app. ground (
      arith,
      f,
      find_key-erase_key op.app_token app m.app_token_map,
      count-erase_one op.app_token app m.links,
      c.linked app,
      c.linked op.app_token,
    );
    in_use =
        λ app. ground (arith, find_key-erase_key op.app_token app m.app_token_map, c.in_use app);
  }
  retrack-Consistent m token op tokens (x ∷ xs) c e f k = record {
    tracked = λ t app. ground (
      arith,
      e,
      f,
      k,
      find_key-put_key op.app_token app (x ∷ xs) m.app_token_map,
      find_key-erase_key token t m.map,
      count-erase_one token t tokens,
      ap (count t) k,
      c.tracked t app,
      c.tracked t op.app_token,
    );
    pruneable = λ t.
        ground
          (arith, c.pruneable t, count-erase_one token t m.lru, find_key-erase_key token t m.map);
    linked = λ app. ground (
      arith,
      f,
      find_key-put_key op.app_token app (x ∷ xs) m.app_token_map,
      c.linked app,
      c.linked op.app_token,
    );
    in_use = λ app.
        ground (arith, find_key-put_key op.app_token app (x ∷ xs) m.app_token_map, c.in_use app);
  }

  -- Removing an operation, there or not, keeps the containers consistent, the death links included.
  pub remove_operation-Consistent :
      (m : OperationMap Data) (token : ℕ) → Consistent m → Consistent (remove_operation m token).1
  unfolding remove_operation remove_operation_tracking get_operations_for_token count
  remove_operation-Consistent m token c = elim (Option-cases (find_key token m.map)) [
    | inl e ↦ rw (e, remove_operation) c
    | inr (op, e) ↦ elim (Option-cases (find_key op.app_token m.app_token_map)) [
      | inl f ↦ ground (arith, e, f, c.tracked token op.app_token)
      | inr (tokens, f) ↦
          rw (e, remove_operation, remove_operation_tracking, f)
            (retrack-Consistent m token op tokens (erase_one token tokens) c e f refl)
    ]
  ]
