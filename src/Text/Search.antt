-- ===== src/Text/Search.antt =====
-- Searches in texts whose parts are known.
use system_security.Base.{ℕ, ◌≡◌, ◌≢◌, ◌↔◌, refl, true, none, some, List, [], ◌∷◌, ◌++◌, arith, All}
use system_security.Text.{split_first, after_last, split_last, text_eq}

pub split_first-append :
    (c : ℕ) (xs ys : List ℕ) → All (λ x. x ≢ c) xs → split_first c (xs ++ c ∷ ys) ≡ some (xs, ys)
unfolding split_first
split_first-append c [] ys h = ground arith
split_first-append c (x ∷ xs) ys h = ground (arith, h.0, split_first-append c xs ys h.1)

pub after_last-none : (c : ℕ) (xs : List ℕ) → All (λ x. x ≢ c) xs → after_last c xs ≡ none
unfolding after_last
after_last-none c [] h = refl
after_last-none c (x ∷ xs) h = ground (arith, h.0, after_last-none c xs h.1)

pub split_last-append :
    (pat xs ys before after : List ℕ)
    → split_last pat ys ≡ some (before, after)
    → split_last pat (xs ++ ys) ≡ some (xs ++ before, after)
unfolding split_last
split_last-append pat [] ys before after h = h
split_last-append pat (x ∷ xs) ys before after h =
    ground (arith, split_last-append pat xs ys before after h)

text_eq-eq : (xs ys : List ℕ) → text_eq xs ys ≡ true → xs ≡ ys
unfolding text_eq
text_eq-eq [] [] h = refl
text_eq-eq [] (y ∷ ys) h = cc
text_eq-eq (x ∷ xs) [] h = cc
text_eq-eq (x ∷ xs) (y ∷ ys) h = ground (arith, text_eq-eq xs ys)

text_eq_refl : (xs : List ℕ) → text_eq xs xs ≡ true
unfolding text_eq
text_eq_refl [] = refl
text_eq_refl (x ∷ xs) = ground (arith, text_eq_refl xs)

pub text_eq_iff : (xs ys : List ℕ) → (text_eq xs ys ≡ true) ↔ (xs ≡ ys)
text_eq_iff xs ys = (text_eq-eq xs ys, λ e. rw e (text_eq_refl ys))
