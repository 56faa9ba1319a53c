-- ===== src/Base/Lists.antt =====
-- Lists measured and indexed by native numbers, under the library's names.
use Prim.Native.Nat.{ℕ, zero, suc, ◌+◌, ◌-◌, min}
use mathlib.Core.Path.{◌≡◌, refl, ap}
use mathlib.Core.List.{List, [], ◌∷◌, ◌++◌}
use mathlib.Core.Logic.{◌≢◌, ◌⊎◌, inl, inr}
use mathlib.Core.Option.{Option, none, some}
use mathlib.Core.Option
use native.Mathlib.Omega.{arith}

module _ {ℓ} {A : Type ℓ} where
  abbrev pub length : List A → ℕ
  length [] = 0
  length (x ∷ xs) = suc (length xs)

  -- The element at an index; the last argument is what stands beyond the end.
  abbrev pub get_or : List A → ℕ → A → A
  get_or [] i d = d
  get_or (x ∷ xs) zero d = x
  get_or (x ∷ xs) (suc i) d = get_or xs i d

  abbrev pub get_elem? : List A → ℕ → Option A
  get_elem? [] i = none
  get_elem? (x ∷ xs) zero = some x
  get_elem? (x ∷ xs) (suc i) = get_elem? xs i

  -- A write out of bounds changes nothing.
  abbrev pub set : List A → ℕ → A → List A
  set [] i v = []
  set (x ∷ xs) zero v = v ∷ xs
  set (x ∷ xs) (suc i) v = x ∷ set xs i v

  abbrev pub take : ℕ → List A → List A
  take zero xs = []
  take (suc n) [] = []
  take (suc n) (x ∷ xs) = x ∷ take n xs

  abbrev pub drop : ℕ → List A → List A
  drop zero xs = xs
  drop (suc n) [] = []
  drop (suc n) (x ∷ xs) = drop n xs

  abbrev pub replicate : ℕ → A → List A
  replicate zero a = []
  replicate (suc n) a = a ∷ replicate n a

  pub length-append : (xs ys : List A) → length (xs ++ ys) ≡ length xs + length ys
  length-append [] ys = omega arith
  length-append (x ∷ xs) ys = omega (arith, length-append xs ys)

  pub length-take : (n : ℕ) (xs : List A) → length (take n xs) ≡ min n (length xs)
  length-take zero xs = omega arith
  length-take (suc n) [] = omega arith
  length-take (suc n) (x ∷ xs) = omega (arith, length-take n xs)

  pub length-drop : (n : ℕ) (xs : List A) → length (drop n xs) ≡ length xs - n
  length-drop zero xs = omega arith
  length-drop (suc n) [] = omega arith
  length-drop (suc n) (x ∷ xs) = omega (arith, length-drop n xs)

  pub length-replicate : (n : ℕ) (a : A) → length (replicate n a) ≡ n
  length-replicate zero a = refl
  length-replicate (suc n) a = ap suc (length-replicate n a)

module _ {ℓ} {A : Type ℓ} where
  pub length-set : (xs : List A) (i : ℕ) (v : A) → length (set xs i v) ≡ length xs
  length-set [] i v = refl
  length-set (x ∷ xs) zero v = refl
  length-set (x ∷ xs) (suc i) v = ap suc (length-set xs i v)

  -- An appended element stands at the old length, and the elements before it stay.
  pub get_elem?-concat_end : (xs : List A) (v : A) → get_elem? (xs ++ (v ∷ [])) (length xs) ≡ some v
  get_elem?-concat_end [] v = refl
  get_elem?-concat_end (x ∷ xs) v = get_elem?-concat_end xs v

  pub get_elem?-concat :
      (xs : List A) (v : A) (i : ℕ) {a : A}
      → get_elem? xs i ≡ some a
      → get_elem? (xs ++ (v ∷ [])) i ≡ some a
  get_elem?-concat [] v i e = cc
  get_elem?-concat (x ∷ xs) v zero e = e
  get_elem?-concat (x ∷ xs) v (suc i) e = get_elem?-concat xs v i e

  -- A write leaves the other places alone.
  pub get_elem?-set :
      (xs : List A) (i j : ℕ) (v : A) → i ≢ j → get_elem? (set xs i v) j ≡ get_elem? xs j
  get_elem?-set [] i j v other = refl
  get_elem?-set (x ∷ xs) zero zero v other = absurd (other refl)
  get_elem?-set (x ∷ xs) zero (suc j) v other = refl
  get_elem?-set (x ∷ xs) (suc i) zero v other = refl
  get_elem?-set (x ∷ xs) (suc i) (suc j) v other =
      get_elem?-set xs i j v (λ same. other (ap suc same))

  pub get_or-set :
      (xs : List A) (i j : ℕ) (v d : A) → i ≢ j → get_or (set xs i v) j d ≡ get_or xs j d
  get_or-set [] i j v d other = refl
  get_or-set (x ∷ xs) zero zero v d other = absurd (other refl)
  get_or-set (x ∷ xs) zero (suc j) v d other = refl
  get_or-set (x ∷ xs) (suc i) zero v d other = refl
  get_or-set (x ∷ xs) (suc i) (suc j) v d other =
      get_or-set xs i j v d (λ same. other (ap suc same))

  pub get_elem?-concat_cases :
      (xs : List A) (v : A) (i : ℕ) (a : A)
      → get_elem? (xs ++ (v ∷ [])) i ≡ some a
      → (get_elem? xs i ≡ some a) ⊎ (v ≡ a)
  get_elem?-concat_cases [] v zero a at = inr (Option.some-injective v a at)
  get_elem?-concat_cases [] v (suc i) a at = inl at
  get_elem?-concat_cases (x ∷ xs) v zero a at = inl at
  get_elem?-concat_cases (x ∷ xs) v (suc i) a at = get_elem?-concat_cases xs v i a at
