-- ===== src/Base/Assoc.antt =====
-- Maps from numbers, as association lists, and lists of numbers counted.
use Prim.Native.Nat.{ℕ, ◌+◌, ◌-◌}
use mathlib.Core.Path.{◌≡◌, refl}
use mathlib.Core.List.{List, [], ◌∷◌, ◌++◌}
use mathlib.Core.Option.{Option, none, some}
use native.Mathlib.Omega.{arith}
use system_security.Base.Tests.{◌==◌, if◌then◌else◌}

module _ {ℓ} {A : Type ℓ} where
  unfoldable pub find_key : ℕ → List (ℕ × A) → Option A
  find_key k [] = none
  find_key k ((j, a) ∷ m) = if j == k then some a else find_key k m

  -- `m[k] = a`
  unfoldable pub put_key : ℕ → A → List (ℕ × A) → List (ℕ × A)
  put_key k a [] = (k, a) ∷ []
  put_key k a ((j, b) ∷ m) = if j == k then (j, a) ∷ m else (j, b) ∷ put_key k a m

  -- Every entry for the key goes; a map has one at most.
  unfoldable pub erase_key : ℕ → List (ℕ × A) → List (ℕ × A)
  erase_key k [] = []
  erase_key k ((j, b) ∷ m) = let rest = erase_key k m in if j == k then rest else (j, b) ∷ rest

  pub find_key-put_key :
      (k j : ℕ) (a : A) (m : List (ℕ × A))
      → find_key j (put_key k a m) ≡ (if k == j then some a else find_key j m)
  unfolding find_key put_key
  find_key-put_key k j a [] = refl
  find_key-put_key k j a ((i, b) ∷ m) = ground (arith, find_key-put_key k j a m)

  pub find_key-erase_key :
      (k j : ℕ) (m : List (ℕ × A))
      → find_key j (erase_key k m) ≡ (if k == j then none else find_key j m)
  unfolding find_key erase_key
  find_key-erase_key k j [] = ground arith
  find_key-erase_key k j ((i, b) ∷ m) = ground (arith, find_key-erase_key k j m)

unfoldable pub count : ℕ → List ℕ → ℕ
count x [] = 0
count x (y ∷ ys) = (if y == x then 1 else 0) + count x ys

-- `list.erase(find(list, x))`; nothing happens if x is not there.
unfoldable pub erase_one : ℕ → List ℕ → List ℕ
erase_one x [] = []
erase_one x (y ∷ ys) = if y == x then ys else y ∷ erase_one x ys

pub count-append : (x : ℕ) (xs ys : List ℕ) → count x (xs ++ ys) ≡ count x xs + count x ys
unfolding count
count-append x [] ys = omega arith
count-append x (z ∷ xs) ys = omega (arith, count-append x xs ys)

pub count-erase_one :
    (x y : ℕ) (ys : List ℕ) → count y (erase_one x ys) ≡ count y ys - (if x == y then 1 else 0)
unfolding count erase_one
count-erase_one x y [] = ground arith
count-erase_one x y (z ∷ ys) = ground (arith, count-erase_one x y ys)
