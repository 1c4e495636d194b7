-- ===== src/Operations.antt =====
-- keystore/operation.h and operation.cpp: OperationMap. A binder is a number; the token of a new
-- operation is an argument. `links` are the application tokens whose death the map listens to, one
-- for each call of linkToDeath that was not undone. `Data` is what an operation carries besides.
pub mod Tracking
use system_security.Base.{
  ℕ, Bool, true, false, Option, none, some, List, [], ◌∷◌, ◌++◌, ltb, ◌==◌, if◌then◌else◌, is_some,
  length,
}
use system_security.Base.Assoc.{find_key, put_key, erase_key, count, erase_one}
use system_security.Keymaster.{KeyPurpose}

pub record Operation (Data : Type 0) : Type 0 where
  pub handle : ℕ
  pub keyid : ℕ
  pub purpose : KeyPurpose
  pub app_token : ℕ
  pub rest : Data

pub record OperationMap (Data : Type 0) : Type 0 where
  pub map : List (ℕ × Operation Data)
  pub lru : List ℕ
  pub app_token_map : List (ℕ × List ℕ)
  pub links : List ℕ

abbrev pub or_empty : Option (List ℕ) → List ℕ
or_empty none = []
or_empty (some ts) = ts

module _ {Data : Type 0} where
  unfoldable pub init : OperationMap Data
  init = record { map = []; lru = []; app_token_map = []; links = [] }

  -- `mMap.emplace` leaves an entry for the token as it is.
  unfoldable pub emplace :
      ℕ → Operation Data → List (ℕ × Operation Data) → List (ℕ × Operation Data)
  emplace token op m = elim (find_key token m) [ none ↦ (token, op) ∷ m | some old ↦ m ]

  -- addOperation
  unfoldable pub add_operation : OperationMap Data → ℕ → Operation Data → Bool → OperationMap Data
  unfolding emplace
  add_operation m token op pruneable = record {
    map = emplace token op m.map;
    lru = if pruneable then m.lru ++ token ∷ [] else m.lru;
    app_token_map =
        put_key op.app_token (or_empty (find_key op.app_token m.app_token_map) ++ token ∷ [])
          m.app_token_map;
    links =
        if is_some (find_key op.app_token m.app_token_map) then m.links else op.app_token ∷ m.links;
  }

  -- updateLru
  unfoldable pub update_lru : OperationMap Data → ℕ → OperationMap Data
  update_lru m token =
      if ltb 0 (count token m.lru)
      then record m { lru = erase_one token m.lru ++ token ∷ [] }
      else m

  -- getOperation
  unfoldable pub get_operation : OperationMap Data → ℕ → Option (Operation Data) × OperationMap Data
  unfolding update_lru
  get_operation m token = elim (find_key token m.map) [
    | none ↦ (none, m)
    | some op ↦ (some op, update_lru m token)
  ]

  -- What removeOperationTracking does with the tokens that stay for the application.
  unfoldable pub retrack : OperationMap Data → ℕ → List ℕ → OperationMap Data
  retrack m app_token [] = record m {
    app_token_map = erase_key app_token m.app_token_map;
    links = erase_one app_token m.links;
  }
  retrack m app_token (t ∷ ts) = record m {
    app_token_map = put_key app_token (t ∷ ts) m.app_token_map;
  }

  -- removeOperationTracking
  unfoldable pub remove_operation_tracking : OperationMap Data → ℕ → ℕ → OperationMap Data
  unfolding retrack
  remove_operation_tracking m token app_token = elim (find_key app_token m.app_token_map) [
    | none ↦ m
    | some tokens ↦ retrack m app_token (erase_one token tokens)
  ]

  -- removeOperation, without its log entry.
  unfoldable pub remove_operation :
      OperationMap Data → ℕ → Option (Operation Data) × OperationMap Data
  unfolding remove_operation_tracking
  remove_operation m token = elim (find_key token m.map) [
    | none ↦ (none, m)
    | some op ↦ (
      some op,
      remove_operation_tracking
          (record m { map = erase_key token m.map; lru = erase_one token m.lru }) token
          op.app_token,
    )
  ]

  -- getOldestPruneableOperation
  unfoldable pub get_oldest_pruneable_operation : OperationMap Data → Option ℕ
  get_oldest_pruneable_operation m = elim m.lru [ [] ↦ none | t ∷ ts ↦ some t ]

  -- getOperationsForToken
  unfoldable pub get_operations_for_token : OperationMap Data → ℕ → List ℕ
  get_operations_for_token m app_token = or_empty (find_key app_token m.app_token_map)

  unfoldable pub get_operation_count : OperationMap Data → ℕ
  get_operation_count m = length m.map
