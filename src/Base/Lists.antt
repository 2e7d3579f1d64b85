-- ===== src/Base/Lists.antt =====
-- Lists measured by native numbers, tests over lists, and predicates by recursion.
use Prim.Native.Nat.{ℕ, zero, suc, ◌+◌, ◌≤◌, min}
use mathlib.Core.Path.{◌≡◌, refl, ap}
use mathlib.Core.Bool.{Bool, true, false, ◌&&◌, ◌||◌}
use mathlib.Core.Logic.{◌⊎◌, inl, inr}
use mathlib.Core.List.{List, [], ◌∷◌, ◌++◌, map}
use native.Mathlib.Omega.{arith}
use nexus_rag.Base.Tests.{if◌then◌else◌, Bool-cases}

module _ {ℓ} {A : Type ℓ} where
  abbrev pub length : List A → ℕ
  length [] = 0
  length (x ∷ xs) = suc (length xs)

  abbrev pub take : ℕ → List A → List A
  take zero xs = []
  take (suc n) [] = []
  take (suc n) (x ∷ xs) = x ∷ take n xs

  abbrev pub drop : ℕ → List A → List A
  drop zero xs = xs
  drop (suc n) [] = []
  drop (suc n) (x ∷ xs) = drop n xs

  -- Python's `any(p(x) for x in xs)` and `all(p(x) for x in xs)`
  abbrev pub any : (A → Bool) → List A → Bool
  any p [] = false
  any p (x ∷ xs) = p x || any p xs

  abbrev pub all : (A → Bool) → List A → Bool
  all p [] = true
  all p (x ∷ xs) = p x && all p xs

  -- `[x for x in xs if p(x)]`
  abbrev pub filter : (A → Bool) → List A → List A
  filter p [] = []
  filter p (x ∷ xs) = let rest = filter p xs in if p x then x ∷ rest else rest

  abbrev pub is_empty : List A → Bool
  is_empty [] = true
  is_empty (x ∷ xs) = false

  -- Every element has the property.
  abbrev pub All {κ} : (A → Type κ) → List A → Type κ
  All P [] = Unit
  All P (x ∷ xs) = P x × All P xs

module _ {A : Type 0} where
  -- The value is an element, at a position that the proof names.
  abbrev pub In : A → List A → Type 0
  In a [] = ⊥
  In a (x ∷ xs) = (a ≡ x) ⊎ In a xs

module _ {ℓ} {A : Type ℓ} where
  pub length-append : (xs ys : List A) → length (xs ++ ys) ≡ length xs + length ys
  length-append [] ys = omega arith
  length-append (x ∷ xs) ys = omega (arith, length-append xs ys)

  pub length-take : (n : ℕ) (xs : List A) → length (take n xs) ≡ min n (length xs)
  length-take zero xs = omega arith
  length-take (suc n) [] = omega arith
  length-take (suc n) (x ∷ xs) = omega (arith, length-take n xs)

  pub take-append-drop : (n : ℕ) (xs : List A) → take n xs ++ drop n xs ≡ xs
  take-append-drop zero xs = refl
  take-append-drop (suc n) [] = refl
  take-append-drop (suc n) (x ∷ xs) = ap (λ (l : List A). x ∷ l) (take-append-drop n xs)

  length-filter-le : (p : A → Bool) (xs : List A) → length (filter p xs) ≤ length xs
  length-filter-le p [] = omega arith
  length-filter-le p (x ∷ xs) = ground (arith, length-filter-le p xs)

  pub All-append {κ} : (P : A → Type κ) (xs ys : List A) → All P xs → All P ys → All P (xs ++ ys)
  All-append P [] ys hx hy = hy
  All-append P (x ∷ xs) ys hx hy = (hx.0, All-append P xs ys hx.1 hy)

  all-true : (p : A → Bool) (xs : List A) → all p xs ≡ true → All (λ x. p x ≡ true) xs
  all-true p [] h = tt
  all-true p (x ∷ xs) h = ground (arith, all-true p xs)

module _ {A : Type 0} where
  pub take-In : (n : ℕ) (a : A) (xs : List A) → In a (take n xs) → In a xs
  take-In zero a xs i = absurd i
  take-In (suc n) a [] i = absurd i
  take-In (suc n) a (x ∷ xs) (inl e) = inl e
  take-In (suc n) a (x ∷ xs) (inr i) = inr (take-In n a xs i)

  -- What a filter keeps was in the list, and passes the test.
  pub filter-In : (p : A → Bool) (a : A) (xs : List A) → In a (filter p xs) → In a xs × (p a ≡ true)
  filter-In p a [] h = absurd h
  filter-In p a (x ∷ xs) h = ground (arith, filter-In p a xs)

  pub In-filter : (p : A → Bool) (a : A) (xs : List A) → In a xs → p a ≡ true → In a (filter p xs)
  In-filter p a [] h e = absurd h
  In-filter p a (x ∷ xs) h e = ground (arith, In-filter p a xs)

  pub All-In {κ} : (P : A → Type κ) (xs : List A) → All P xs → (a : A) → In a xs → P a
  All-In P [] h a i = absurd i
  All-In P (x ∷ xs) h a (inl e) = rw e h.0
  All-In P (x ∷ xs) h a (inr i) = All-In P xs h.1 a i

  pub In-All {κ} : (P : A → Type κ) (xs : List A) → ((a : A) → In a xs → P a) → All P xs
  In-All P [] f = tt
  In-All P (x ∷ xs) f = (f x (inl refl), In-All P xs (λ a i. f a (inr i)))

  pub any-In : (p : A → Bool) (xs : List A) → any p xs ≡ true → (a : A) × In a xs × (p a ≡ true)
  any-In p [] h = cc
  any-In p (x ∷ xs) h = elim (Bool-cases (p x)) [
    | inl e ↦ (x, inl refl, e)
    | inr e ↦ let (a, i, q) = any-In p xs (ground arith) in (a, inr i, q)
  ]

  pub In-any : (p : A → Bool) (a : A) (xs : List A) → In a xs → p a ≡ true → any p xs ≡ true
  In-any p a [] h e = absurd h
  In-any p a (x ∷ xs) h e = ground (arith, In-any p a xs)

  pub In-append : (a : A) (xs ys : List A) → In a (xs ++ ys) → In a xs ⊎ In a ys
  In-append a [] ys i = inr i
  In-append a (x ∷ xs) ys i = ground (arith, In-append a xs ys)

  pub append-In_left : (a : A) (xs ys : List A) → In a xs → In a (xs ++ ys)
  append-In_left a [] ys i = absurd i
  append-In_left a (x ∷ xs) ys i = ground (arith, append-In_left a xs ys)

  pub append-In_right : (a : A) (xs ys : List A) → In a ys → In a (xs ++ ys)
  append-In_right a [] ys i = i
  append-In_right a (x ∷ xs) ys i = inr (append-In_right a xs ys i)

  pub is_empty-In : (xs : List A) → is_empty xs ≡ true → (a : A) → ¬ In a xs
  is_empty-In [] e a i = i
  is_empty-In (x ∷ xs) e a i = cc

  pub nonempty-In : (xs : List A) → is_empty xs ≡ false → (a : A) × In a xs
  nonempty-In [] e = cc
  nonempty-In (x ∷ xs) e = (x, inl refl)

module _ {A B : Type 0} where
  pub map-In : (f : A → B) (b : B) (xs : List A) → In b (map f xs) → (a : A) × In a xs × (b ≡ f a)
  map-In f b [] i = absurd i
  map-In f b (x ∷ xs) (inl e) = (x, inl refl, e)
  map-In f b (x ∷ xs) (inr i) = let (a, j, e) = map-In f b xs i in (a, inr j, e)

  pub length-map : (f : A → B) (xs : List A) → length (map f xs) ≡ length xs
  length-map f [] = refl
  length-map f (x ∷ xs) = omega (arith, length-map f xs)

  pub In-map : (f : A → B) (a : A) (xs : List A) → In a xs → In (f a) (map f xs)
  In-map f a [] i = absurd i
  In-map f a (x ∷ xs) (inl e) = inl (ap f e)
  In-map f a (x ∷ xs) (inr i) = inr (In-map f a xs i)
