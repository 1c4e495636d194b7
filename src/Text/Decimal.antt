-- ===== src/Text/Decimal.antt =====
-- A number that is written in decimal is read back.
use system_security.Base.{
  ℕ, zero, suc, ◌+◌, ◌/◌, ◌%◌, ◌<◌, ◌≤◌, ◌≡◌, refl, sym, ap, subst, ◌∙◌, some, List, [], ◌∷◌, arith,
  ltb, All, inl, inr, Bool-cases,
}
use system_security.Text.{
  is_digit, digits, decimal, read_digits, starts_with_digit, skip_space, read_number, read_signed,
  read_unsigned, is_space,
}

abbrev pub Digit : ℕ → Type 0
Digit c = (48 ≤ c) × (c ≤ 57)

read_digits-digits :
    (fuel n : ℕ) (acc : List ℕ) → n < fuel → read_digits 0 (digits fuel n acc) ≡ read_digits n acc
unfolding digits read_digits
read_digits-digits zero n acc h = absurd (omega arith)
read_digits-digits (suc fuel) n acc h =
    ground (arith, read_digits-digits fuel (n / 10) ((48 + n % 10) ∷ acc))

digits-All : (fuel n : ℕ) (acc : List ℕ) → All Digit acc → All Digit (digits fuel n acc)
unfolding digits
digits-All zero n acc h = h
digits-All (suc fuel) n acc h = elim (Bool-cases (ltb n 10)) [
  | inl b ↦ rw b (ground arith, h)
  | inr b ↦ rw b (digits-All fuel (n / 10) ((48 + n % 10) ∷ acc) (omega arith, h))
]

pub decimal-All : (n : ℕ) → All Digit (decimal n)
unfolding decimal
decimal-All n = digits-All (suc n) n [] tt

digits-cons :
    (fuel n c : ℕ) (acc : List ℕ) → (d : ℕ) × (ds : List ℕ) × (digits fuel n (c ∷ acc) ≡ d ∷ ds)
unfolding digits
digits-cons zero n c acc = (c, acc, refl)
digits-cons (suc fuel) n c acc = elim (Bool-cases (ltb n 10)) [
  | inl b ↦ (48 + n, c ∷ acc, rw b)
  | inr b ↦ rw b (digits-cons fuel (n / 10) (48 + n % 10) (c ∷ acc))
]

pub decimal-cons : (n : ℕ) → (d : ℕ) × (ds : List ℕ) × (decimal n ≡ d ∷ ds)
unfolding decimal digits
decimal-cons n = elim (Bool-cases (ltb n 10)) [
  | inl b ↦ (48 + n, [], rw b)
  | inr b ↦ rw b (digits-cons n (n / 10) (48 + n % 10) [])
]

-- A stream that starts with a digit is read from there.
read_unsigned-Digit :
    (bound d : ℕ) (ds : List ℕ)
    → Digit d
    → read_digits 0 (d ∷ ds) < bound
    → read_unsigned bound (d ∷ ds) ≡ some (read_digits 0 (d ∷ ds))
unfolding read_unsigned read_number starts_with_digit skip_space read_signed is_digit is_space
read_unsigned-Digit bound d ds h lt = ground arith

pub read_unsigned-decimal : (bound n : ℕ) → n < bound → read_unsigned bound (decimal n) ≡ some n
read_unsigned-decimal bound n lt =
    let (d, ds, e) = decimal-cons n in
    let v : read_digits 0 (d ∷ ds) ≡ n =
      ap (read_digits 0) (sym e)
      ∙ unfold decimal read_digits in read_digits-digits (suc n) n [] (omega arith) in
    ap (read_unsigned bound) e
    ∙ read_unsigned-Digit bound d ds (subst (All Digit) e (decimal-All n)).0 (omega (arith, v))
    ∙ ap some v
