-- ===== src/Base/Sort.antt =====
-- Python's `sorted`: stable, with equal elements in the order in which they came.
use Prim.Native.Nat.{suc, ◌+◌}
use mathlib.Core.Path.{◌≡◌, refl}
use mathlib.Core.Bool.{Bool, true, false}
use mathlib.Core.Logic.{◌↔◌, ◌⊎◌, inl, inr}
use mathlib.Core.List.{List, [], ◌∷◌}
use native.Mathlib.Omega.{arith}
use nexus_rag.Base.Tests.{if◌then◌else◌, Bool-cases}
use nexus_rag.Base.Lists.{In, All, length}

module _ {A : Type 0} (comes_before : A → A → Bool) where
  -- the element goes in front of the first one that it comes before
  unfoldable pub insert_sorted : A → List A → List A
  insert_sorted x [] = x ∷ []
  insert_sorted x (y ∷ ys) =
      let rest = insert_sorted x ys in if comes_before x y then x ∷ y ∷ ys else y ∷ rest

  unfoldable pub sort_onto : List A → List A → List A
  unfolding insert_sorted
  sort_onto done [] = done
  sort_onto done (x ∷ xs) = sort_onto (insert_sorted x done) xs

  unfoldable pub sorted : List A → List A
  unfolding sort_onto
  sorted xs = sort_onto [] xs

  -- No element comes before one that stands in front of it.
  abbrev pub IsSorted : List A → Type 0
  IsSorted [] = Unit {0}
  IsSorted (x ∷ xs) = All (λ y. comes_before y x ≡ false) xs × IsSorted xs

  insert_sorted-In : (x a : A) (ys : List A) → In a (insert_sorted x ys) ↔ ((a ≡ x) ⊎ In a ys)
  unfolding insert_sorted
  insert_sorted-In x a [] = (λ i. i, λ i. i)
  insert_sorted-In x a (y ∷ ys) = elim (Bool-cases (comes_before x y)) [
    | inl e ↦ rw e (λ i. i, λ i. i)
    | inr e ↦ let (forth, back) = insert_sorted-In x a ys in rw e (pushed forth, pulled back)
  ]
    where
      pushed :
          (In a (insert_sorted x ys) → (a ≡ x) ⊎ In a ys)
          → (a ≡ y) ⊎ In a (insert_sorted x ys)
          → (a ≡ x) ⊎ (a ≡ y) ⊎ In a ys
      pushed f (inl e) = inr (inl e)
      pushed f (inr i) = elim (f i) [ inl e ↦ inl e | inr j ↦ inr (inr j) ]

      pulled :
          ((a ≡ x) ⊎ In a ys → In a (insert_sorted x ys))
          → (a ≡ x) ⊎ (a ≡ y) ⊎ In a ys
          → (a ≡ y) ⊎ In a (insert_sorted x ys)
      pulled g (inl e) = inr (g (inl e))
      pulled g (inr (inl e)) = inl e
      pulled g (inr (inr i)) = inr (g (inr i))

  sort_onto-In : (a : A) (done xs : List A) → In a (sort_onto done xs) ↔ (In a done ⊎ In a xs)
  unfolding sort_onto
  sort_onto-In a done [] = (inl, λ i. elim i [ inl j ↦ j | inr j ↦ absurd j ])
  sort_onto-In a done (x ∷ xs) =
      let (forth, back) = sort_onto-In a (insert_sorted x done) xs in
      let (f, b) = insert_sorted-In x a done in (λ i. pushed f (forth i), λ i. back (pulled b i))
    where
      pushed :
          (In a (insert_sorted x done) → (a ≡ x) ⊎ In a done)
          → In a (insert_sorted x done) ⊎ In a xs
          → In a done ⊎ ((a ≡ x) ⊎ In a xs)
      pushed f (inl i) = elim (f i) [ inl e ↦ inr (inl e) | inr j ↦ inl j ]
      pushed f (inr i) = inr (inr i)

      pulled :
          ((a ≡ x) ⊎ In a done → In a (insert_sorted x done))
          → In a done ⊎ ((a ≡ x) ⊎ In a xs)
          → In a (insert_sorted x done) ⊎ In a xs
      pulled g (inl i) = inl (g (inr i))
      pulled g (inr (inl e)) = inl (g (inl e))
      pulled g (inr (inr i)) = inr i

  -- Sorting keeps the elements.
  pub sorted-In : (a : A) (xs : List A) → In a (sorted xs) ↔ In a xs
  unfolding sorted
  sorted-In a xs =
      let (forth, back) = sort_onto-In a [] xs in
      (λ i. elim (forth i) [ inl j ↦ absurd j | inr j ↦ j ], λ i. back (inr i))

  -- An order: what does not come before `y`, which does not come before `x`, does not before `x`.
  abbrev pub IsOrder : Type 0
  IsOrder =
      ((x y : A) → comes_before x y ≡ true → comes_before y x ≡ false)
      × ((x y z : A)
          → comes_before z y ≡ false
          → comes_before y x ≡ false
          → comes_before z x ≡ false)

  All-impl : (P Q : A → Type 0) (xs : List A) → ((x : A) → P x → Q x) → All P xs → All Q xs
  All-impl P Q [] f h = tt
  All-impl P Q (x ∷ xs) f h = (f x h.0, All-impl P Q xs f h.1)

  insert_sorted-All :
      (P : A → Type 0) (x : A) (ys : List A) → P x → All P ys → All P (insert_sorted x ys)
  unfolding insert_sorted
  insert_sorted-All P x [] p h = (p, tt)
  insert_sorted-All P x (y ∷ ys) p h = elim (Bool-cases (comes_before x y)) [
    | inl e ↦ rw e (p, h)
    | inr e ↦ rw e (h.0, insert_sorted-All P x ys p h.1)
  ]

  insert_sorted-IsSorted :
      (x : A) (ys : List A) → IsOrder → IsSorted ys → IsSorted (insert_sorted x ys)
  unfolding insert_sorted
  insert_sorted-IsSorted x [] o h = (tt, tt)
  insert_sorted-IsSorted x (y ∷ ys) o h = elim (Bool-cases (comes_before x y)) [
    | inl e ↦
        let first = o.0 x y e in
        rw e (
          (
            first,
            All-impl (λ z. comes_before z y ≡ false) (λ z. comes_before z x ≡ false) ys
                (λ z k. o.1 x y z k first) h.0,
          ),
          h,
        )
    | inr e ↦ rw e (
      insert_sorted-All (λ z. comes_before z y ≡ false) x ys e h.0,
      insert_sorted-IsSorted x ys o h.1,
    )
  ]

  sort_onto-IsSorted : (done xs : List A) → IsOrder → IsSorted done → IsSorted (sort_onto done xs)
  unfolding sort_onto
  sort_onto-IsSorted done [] o h = h
  sort_onto-IsSorted done (x ∷ xs) o h =
      sort_onto-IsSorted (insert_sorted x done) xs o (insert_sorted-IsSorted x done o h)

  pub sorted-IsSorted : (xs : List A) → IsOrder → IsSorted (sorted xs)
  unfolding sorted
  sorted-IsSorted xs o = sort_onto-IsSorted [] xs o tt

  -- A relation that holds between any two elements, in either order, holds after sorting.
  module _ (R : A → A → Type 0) (swap : (x y : A) → R x y → R y x) where
    abbrev pub Pairwise : List A → Type 0
    Pairwise [] = Unit {0}
    Pairwise (x ∷ xs) = All (R x) xs × Pairwise xs

    insert_sorted-Pairwise :
        (x : A) (ys : List A) → All (R x) ys → Pairwise ys → Pairwise (insert_sorted x ys)
    unfolding insert_sorted
    insert_sorted-Pairwise x [] h p = (tt, tt)
    insert_sorted-Pairwise x (y ∷ ys) h p = elim (Bool-cases (comes_before x y)) [
      | inl e ↦ rw e (h, p)
      | inr e ↦
          rw e
            (insert_sorted-All (R y) x ys (swap x y h.0) p.0, insert_sorted-Pairwise x ys h.1 p.1)
    ]

    sort_onto-Pairwise :
        (done xs : List A)
        → Pairwise done
        → Pairwise xs
        → All (λ x. All (R x) done) xs
        → Pairwise (sort_onto done xs)
    unfolding sort_onto
    sort_onto-Pairwise done [] p q h = p
    sort_onto-Pairwise done (x ∷ xs) p q h =
        sort_onto-Pairwise (insert_sorted x done) xs (insert_sorted-Pairwise x done h.0 p) q.1
          (both xs q.0 h.1)
      where
        both :
            (zs : List A)
            → All (R x) zs
            → All (λ z. All (R z) done) zs
            → All (λ z. All (R z) (insert_sorted x done)) zs
        both [] a b = tt
        both (z ∷ zs) a b = (insert_sorted-All (R z) x done (swap x z a.0) b.0, both zs a.1 b.1)

    pub sorted-Pairwise : (xs : List A) → Pairwise xs → Pairwise (sorted xs)
    unfolding sorted
    sorted-Pairwise xs p = sort_onto-Pairwise [] xs tt p (trivial xs)
      where
        trivial : (zs : List A) → All (λ z. All (R z) []) zs
        trivial [] = tt
        trivial (z ∷ zs) = (tt, trivial zs)

  sort_onto-length : (done xs : List A) → length (sort_onto done xs) ≡ length done + length xs
  unfolding sort_onto insert_sorted
  sort_onto-length done [] = omega arith
  sort_onto-length done (x ∷ xs) =
      omega (arith, sort_onto-length (insert_sorted x done) xs, inserted done)
    where
      inserted : (ys : List A) → length (insert_sorted x ys) ≡ suc (length ys)
      inserted [] = refl
      inserted (y ∷ ys) = ground (arith, inserted ys)

  pub length-sorted : (xs : List A) → length (sorted xs) ≡ length xs
  unfolding sorted
  length-sorted xs = omega (arith, sort_onto-length [] xs)
