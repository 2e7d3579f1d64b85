-- ===== src/Retrieval/Fusion/Fused.antt =====
-- What the fusion of ranked lists returns.
use native.Mathlib.Nat.{le_of_mul-le-mul_right, mul-le-mul_right}
use nexus_rag.Base.{
  ℕ, zero, suc, ◌*◌, ◌≤◌, ◌<◌, ◌≡◌, ◌≢◌, sym, arith, inl, inr, true, false, List, [], ◌∷◌, map,
  take, All, All-In, In-All, Bool-cases, ◌==◌, ==_iff,
}
use nexus_rag.Base.Sort.{sorted, IsOrder, sorted-In, Pairwise}
use nexus_rag.Retrieval.Fusion.{
  Hit, Score, den, score_lt, Entry, fuse_hit, fuse_list, fuse_lists, scores_higher, fuse_ranked,
}

-- not (a < b) on scores is b ≤ a, crosswise
not-score_lt : (a b : Score) → score_lt a b ≡ false → b.num * den a ≤ a.num * den b
unfolding score_lt
not-score_lt a b h = ground arith

le-score_lt : (a b : Score) → b.num * den a ≤ a.num * den b → score_lt a b ≡ false
unfolding score_lt
le-score_lt a b h = ground arith

score_lt_asymm : (a b : Score) → score_lt a b ≡ true → score_lt b a ≡ false
unfolding score_lt
score_lt_asymm a b h = ground arith

cross : (an bn cn ad bd cd : ℕ) → 0 < bd → bn * ad ≤ an * bd → cn * bd ≤ bn * cd → cn * ad ≤ an * cd
cross an bn cn ad bd cd pos h k =
    le_of_mul-le-mul_right {k = bd} (grind (arith, mul-le-mul_right ad k, mul-le-mul_right cd h))
      pos

score_trans :
    (a b c : Score)
    → b.num * den a ≤ a.num * den b
    → c.num * den b ≤ b.num * den c
    → c.num * den a ≤ a.num * den c
score_trans a b c h k = cross a.num b.num c.num (den a) (den b) (den c) (omega arith) h k

pub scores_higher-IsOrder : IsOrder scores_higher
scores_higher-IsOrder = (
  λ x y h. score_lt_asymm y.1 x.1 h,
  λ x y z h k.
      le-score_lt x.1 z.1
        (score_trans x.1 y.1 z.1 (not-score_lt x.1 y.1 k) (not-score_lt y.1 z.1 h)),
)

-- Every entry's hit has the property that every hit has.
module _ (P : Hit → Type 0) where
  abbrev Holds : List Entry → Type 0
  Holds = All (λ e. P e.0)

  fuse_hit-Holds :
      (rank : ℕ) (hit : Hit) (entries : List Entry)
      → P hit
      → Holds entries
      → Holds (fuse_hit rank hit entries)
  unfolding fuse_hit
  fuse_hit-Holds rank hit [] p h = (p, tt)
  fuse_hit-Holds rank hit ((first, score) ∷ entries) p h = elim (Bool-cases (first.id == hit.id)) [
    | inl e ↦ simp e h
    | inr e ↦ simp e (h.0, fuse_hit-Holds rank hit entries p h.1)
  ]

  fuse_list-Holds :
      (rank : ℕ) (hits : List Hit) (entries : List Entry)
      → All P hits
      → Holds entries
      → Holds (fuse_list rank hits entries)
  unfolding fuse_list
  fuse_list-Holds rank [] entries p h = h
  fuse_list-Holds rank (hit ∷ hits) entries p h =
      fuse_list-Holds (suc rank) hits (fuse_hit rank hit entries) p.1
        (fuse_hit-Holds rank hit entries p.0 h)

  pub fuse_lists-Holds :
      (lists : List (List Hit)) (entries : List Entry)
      → All (All P) lists
      → Holds entries
      → Holds (fuse_lists lists entries)
  unfolding fuse_lists
  fuse_lists-Holds [] entries p h = h
  fuse_lists-Holds (hits ∷ lists) entries p h =
      fuse_lists-Holds lists (fuse_list 1 hits entries) p.1 (fuse_list-Holds 1 hits entries p.0 h)

  take-All : (n : ℕ) (es : List Entry) → Holds es → All P (map (λ (e : Entry). e.0) (take n es))
  take-All zero es h = tt
  take-All (suc n) [] h = tt
  take-All (suc n) (e ∷ es) h = (h.0, take-All n es h.1)

  -- What every hit of the lists is, every hit of the fusion is.
  pub fuse_ranked-All :
      (lists : List (List Hit)) (limit : ℕ) → All (All P) lists → All P (fuse_ranked lists limit)
  unfolding fuse_ranked
  fuse_ranked-All lists limit h =
      let found = fuse_lists-Holds lists [] h tt in
      take-All limit (sorted scores_higher (fuse_lists lists [])) (
        In-All (λ (e : Entry). P e.0) (sorted scores_higher (fuse_lists lists []))
          (λ e i.
            All-In (λ (x : Entry). P x.0) (fuse_lists lists []) found e
              ((sorted-In scores_higher e (fuse_lists lists [])).0 i)))

abbrev pub Apart : Entry → Entry → Type 0
Apart a b = a.0.id ≢ b.0.id

pub Apart-swap : (a b : Entry) → Apart a b → Apart b a
Apart-swap a b h e = h (sym e)

abbrev pub AllApart : List Entry → Type 0
AllApart = Pairwise scores_higher Apart Apart-swap

fuse_hit-others :
    (rank : ℕ) (hit : Hit) (e : Entry) (entries : List Entry)
    → e.0.id ≢ hit.id
    → All (Apart e) entries
    → All (Apart e) (fuse_hit rank hit entries)
unfolding fuse_hit
fuse_hit-others rank hit e [] ne h = (ne, tt)
fuse_hit-others rank hit e ((first, score) ∷ entries) ne h =
    elim (Bool-cases (first.id == hit.id)) [
      | inl q ↦ simp q h
      | inr q ↦ simp q (h.0, fuse_hit-others rank hit e entries ne h.1)
    ]

fuse_hit-AllApart :
    (rank : ℕ) (hit : Hit) (entries : List Entry)
    → AllApart entries
    → AllApart (fuse_hit rank hit entries)
unfolding fuse_hit
fuse_hit-AllApart rank hit [] h = (tt, tt)
fuse_hit-AllApart rank hit ((first, score) ∷ entries) h = elim (Bool-cases (first.id == hit.id)) [
  | inl q ↦ simp q h
  | inr q ↦ simp q (
    fuse_hit-others rank hit (first, score) entries (other q) h.0,
    fuse_hit-AllApart rank hit entries h.1,
  )
]
  where
    other : (first.id == hit.id) ≡ false → first.id ≢ hit.id
    other q e = ground (arith, ==_iff first.id hit.id)

fuse_list-AllApart :
    (rank : ℕ) (hits : List Hit) (entries : List Entry)
    → AllApart entries
    → AllApart (fuse_list rank hits entries)
unfolding fuse_list
fuse_list-AllApart rank [] entries h = h
fuse_list-AllApart rank (hit ∷ hits) entries h =
    fuse_list-AllApart (suc rank) hits (fuse_hit rank hit entries)
      (fuse_hit-AllApart rank hit entries h)

pub fuse_lists-AllApart :
    (lists : List (List Hit)) (entries : List Entry)
    → AllApart entries
    → AllApart (fuse_lists lists entries)
unfolding fuse_lists
fuse_lists-AllApart [] entries h = h
fuse_lists-AllApart (hits ∷ lists) entries h =
    fuse_lists-AllApart lists (fuse_list 1 hits entries) (fuse_list-AllApart 1 hits entries h)
