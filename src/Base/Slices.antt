-- ===== src/Base/Slices.antt =====
-- Laws of `take`, `drop` and `get_or`: windows of a list, and windows of windows.
use Prim.Native.Nat.{ℕ, zero, suc, ◌+◌, ◌<◌, ◌≤◌}
use mathlib.Core.Path.{◌≡◌, refl, ap, sym}
use mathlib.Core.List.{List, [], ◌∷◌, ◌++◌}
use native.Mathlib.Omega.{arith}
use epoll_based_fault_diagno.Base.Lists.{
  length, get_or, take, drop, length-append, length-take, length-drop,
}

module _ {ℓ} {A : Type ℓ} where
  pub take-append-drop : (n : ℕ) (xs : List A) → take n xs ++ drop n xs ≡ xs
  take-append-drop zero xs = refl
  take-append-drop (suc n) [] = refl
  take-append-drop (suc n) (x ∷ xs) = ap (◌∷◌ x) (take-append-drop n xs)

  pub take-all : (n : ℕ) (xs : List A) → length xs ≤ n → take n xs ≡ xs
  take-all zero [] h = refl
  take-all zero (x ∷ xs) h = absurd (omega arith)
  take-all (suc n) [] h = refl
  take-all (suc n) (x ∷ xs) h = ap (◌∷◌ x) (take-all n xs (omega arith))

  pub drop-all : (n : ℕ) (xs : List A) → length xs ≤ n → drop n xs ≡ []
  drop-all zero [] h = refl
  drop-all zero (x ∷ xs) h = absurd (omega arith)
  drop-all (suc n) [] h = refl
  drop-all (suc n) (x ∷ xs) h = drop-all n xs (omega arith)

  pub take-append : (n : ℕ) (xs ys : List A) → n ≡ length xs → take n (xs ++ ys) ≡ xs
  take-append zero [] ys h = refl
  take-append zero (x ∷ xs) ys h = absurd (omega arith)
  take-append (suc n) [] ys h = absurd (omega arith)
  take-append (suc n) (x ∷ xs) ys h = ap (◌∷◌ x) (take-append n xs ys (omega arith))

  pub drop-append : (n : ℕ) (xs ys : List A) → n ≡ length xs → drop n (xs ++ ys) ≡ ys
  drop-append zero [] ys h = refl
  drop-append zero (x ∷ xs) ys h = absurd (omega arith)
  drop-append (suc n) [] ys h = absurd (omega arith)
  drop-append (suc n) (x ∷ xs) ys h = drop-append n xs ys (omega arith)

  -- The sum is a variable with an equation: `m + n` is stuck where the numbers are variables.
  pub drop-drop : (m n k : ℕ) (xs : List A) → m + n ≡ k → drop n (drop m xs) ≡ drop k xs
  drop-drop zero n k xs h = ap (λ i. drop i xs) (omega arith)
  drop-drop (suc m) zero k [] h = nil k
    where
      nil : (k : ℕ) → [] ≡ drop {A = A} k []
      nil zero = refl
      nil (suc k) = refl
  drop-drop (suc m) (suc n) zero [] h = refl
  drop-drop (suc m) (suc n) (suc k) [] h = refl
  drop-drop (suc m) n zero (x ∷ xs) h = absurd (omega arith)
  drop-drop (suc m) n (suc k) (x ∷ xs) h = drop-drop m n k xs (omega arith)

  pub take-take : (m n : ℕ) (xs : List A) → m ≤ n → take m (take n xs) ≡ take m xs
  take-take zero n xs h = refl
  take-take (suc m) zero xs h = absurd (omega arith)
  take-take (suc m) (suc n) [] h = refl
  take-take (suc m) (suc n) (x ∷ xs) h = ap (◌∷◌ x) (take-take m n xs (omega arith))

  pub drop-take : (m n k : ℕ) (xs : List A) → n ≡ k + m → drop m (take n xs) ≡ take k (drop m xs)
  drop-take zero n k xs h = ap (λ i. take i xs) (omega arith)
  drop-take (suc m) zero k xs h = absurd (omega arith)
  drop-take (suc m) (suc n) zero [] h = refl
  drop-take (suc m) (suc n) (suc k) [] h = refl
  drop-take (suc m) (suc n) k (x ∷ xs) h = drop-take m n k xs (omega arith)

  pub get_or-take : (i n : ℕ) (xs : List A) (d : A) → i < n → get_or (take n xs) i d ≡ get_or xs i d
  get_or-take i zero xs d h = elim h [ ]
  get_or-take i (suc n) [] d h = refl
  get_or-take zero (suc n) (x ∷ xs) d h = refl
  get_or-take (suc i) (suc n) (x ∷ xs) d h = get_or-take i n xs d (omega arith)

  pub get_or-drop :
      (i n k : ℕ) (xs : List A) (d : A) → n + i ≡ k → get_or (drop n xs) i d ≡ get_or xs k d
  get_or-drop i zero k xs d h = ap (λ j. get_or xs j d) (omega arith)
  get_or-drop i (suc n) k [] d h = refl
  get_or-drop i (suc n) zero (x ∷ xs) d h = absurd (omega arith)
  get_or-drop i (suc n) (suc k) (x ∷ xs) d h = get_or-drop i n k xs d (omega arith)

  pub get_or-append :
      (i : ℕ) (xs ys : List A) (d : A) → i < length xs → get_or (xs ++ ys) i d ≡ get_or xs i d
  get_or-append i [] ys d h = elim h [ ]
  get_or-append zero (x ∷ xs) ys d h = refl
  get_or-append (suc i) (x ∷ xs) ys d h = get_or-append i xs ys d (omega arith)

  pub take-append-take :
      (n k m : ℕ) (xs : List A) → n + k ≡ m → take n xs ++ take k (drop n xs) ≡ take m xs
  take-append-take zero k m xs e = let e' : k ≡ m = omega arith in ap (λ i. take i xs) e'
  take-append-take (suc n) zero m [] e = sym (take-all m [] (omega arith))
  take-append-take (suc n) (suc k) m [] e = sym (take-all m [] (omega arith))
  take-append-take (suc n) k zero (x ∷ xs) e = absurd (omega arith)
  take-append-take (suc n) k (suc m) (x ∷ xs) e =
      ap (◌∷◌ x) (take-append-take n k m xs (omega arith))

  -- memcpy of `src` to offset `at`: the bytes before and behind stay.
  unfoldable pub splice : ℕ → List A → List A → List A
  splice at src dst = take at dst ++ (src ++ drop (at + length src) dst)

  pub length-splice :
      (at : ℕ) (src dst : List A)
      → at + length src ≤ length dst
      → length (splice at src dst) ≡ length dst
  unfolding splice
  length-splice at src dst h = omega (
    arith,
    length-append (take at dst) (src ++ drop (at + length src) dst),
    length-append src (drop (at + length src) dst),
    length-take at dst,
    length-drop (at + length src) dst,
  )

  -- Bytes copied to the front of a block are read back from there.
  pub take-splice_front :
      (n : ℕ) (src dst : List A) → n ≡ length src → take n (splice 0 src dst) ≡ src
  unfolding splice
  take-splice_front n src dst h = take-append n src (drop (0 + length src) dst) h
