-- ===== src/Text/Trim.antt =====
-- Lemmas on trimming, searching and comparing strings.
use epoll_based_fault_diagno.Base.{
  ℕ, ◌≡◌, refl, ap, ap₂, true, false, [], ◌∷◌, ◌++◌, Bytes, none, some, length, get_or, ◌==◌, arith,
  ==→eq, eq→==, Bool-cases, inl, inr,
}
use epoll_based_fault_diagno.Text.{blank, strltrim, rtrim_to, strrtrim, strchr, same}

-- Neither end is blank.
unfoldable pub Trimmed : Bytes → Type 0
Trimmed [] = true ≡ true
Trimmed (c ∷ str) = (blank c ≡ false) × (blank (get_or (c ∷ str) (length str) 0) ≡ false)

-- No character of the string is `c`.
unfoldable pub Without : ℕ → Bytes → Type 0
Without c [] = true ≡ true
Without c (x ∷ str) = ((x == c) ≡ false) × Without c str

pub strchr-Without : (str : Bytes) (c : ℕ) → Without c str → strchr str c ≡ none
unfolding strchr Without
strchr-Without [] c w = refl
strchr-Without (x ∷ str) c (head, tail) = rw (head, strchr-Without str c tail) refl

pub strchr-found :
    (str rest : Bytes) (c : ℕ) → Without c str → strchr (str ++ (c ∷ rest)) c ≡ some (length str)
unfolding strchr Without
strchr-found [] rest c w = rw (eq→== c c refl) refl
strchr-found (x ∷ str) rest c (head, tail) = rw (head, strchr-found str rest c tail) refl

pub Without-append : (c : ℕ) (xs ys : Bytes) → Without c xs → Without c ys → Without c (xs ++ ys)
unfolding Without
Without-append c [] ys w v = v
Without-append c (x ∷ xs) ys (head, tail) v = (head, Without-append c xs ys tail v)

pub strltrim-Trimmed : (str : Bytes) → Trimmed str → strltrim str ≡ str
unfolding strltrim Trimmed
strltrim-Trimmed [] t = refl
strltrim-Trimmed (c ∷ str) (head, last) = rw head refl

pub strrtrim-Trimmed : (str : Bytes) → Trimmed str → strrtrim str ≡ str
unfolding strrtrim rtrim_to Trimmed
strrtrim-Trimmed [] t = refl
strrtrim-Trimmed (c ∷ str) (head, last) = rw last refl

pub strltrim-blank : (c : ℕ) (str : Bytes) → blank c ≡ true → strltrim (c ∷ str) ≡ strltrim str
unfolding strltrim
strltrim-blank c str b = rw b refl

pub same_refl : (xs : Bytes) → same xs xs ≡ true
unfolding same
same_refl [] = refl
same_refl (x ∷ xs) = rw (eq→== x x refl, same_refl xs) refl

pub same→eq : (xs ys : Bytes) → same xs ys ≡ true → xs ≡ ys
unfolding same
same→eq [] [] e = refl
same→eq [] (y ∷ ys) e = ground arith
same→eq (x ∷ xs) [] e = ground arith
same→eq (x ∷ xs) (y ∷ ys) e = elim (Bool-cases (x == y)) [
  | inl here ↦ ap₂ (λ a as'. a ∷ as') (==→eq x y here) (same→eq xs ys (rw here at e))
  | inr apart ↦ ground (arith, rw apart at e)
]

pub same_trans : (a b c : Bytes) → same a b ≡ true → same a c ≡ same b c
same_trans a b c e = ap (λ x. same x c) (same→eq a b e)

pub same-apart : (a b c : Bytes) → same a b ≡ false → same a c ≡ true → same b c ≡ false
same-apart a b c apart here = elim (Bool-cases (same b c)) [
  | inl e ↦ ground (arith, apart, here, ap (λ x. same a x) (same→eq b c e))
  | inr e ↦ e
]
