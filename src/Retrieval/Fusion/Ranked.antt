-- ===== src/Retrieval/Fusion/Ranked.antt =====
-- What the fusion returns, beside the sums that Reciprocal Rank Fusion is defined by.
use nexus_rag.Base.{
  ℕ, zero, suc, ◌*◌, ◌≤◌, ◌≡◌, refl, arith, false, List, [], ◌∷◌, map, take, length, In, All,
  All-In, In-All,
}
use nexus_rag.Base.Sort.{sorted, sorted-In, sorted-IsSorted, sorted-Pairwise, IsSorted}
use nexus_rag.Retrieval.Fusion.{
  Hit, den, zero_score, score_lt, Entry, fuse_lists, scores_higher, fuse_ranked,
}
use nexus_rag.Retrieval.Fusion.Fused.{
  Apart, Apart-swap, AllApart, fuse_lists-AllApart, fuse_lists-Holds, fuse_ranked-All,
  scores_higher-IsOrder,
}
use nexus_rag.Retrieval.Fusion.Summed.{rrf, fuse_lists-rrf, fuse_lists-Has}

-- No entry has a higher score than one in front of it.
abbrev pub Descends : List Entry → Type 0
Descends [] = Unit {0}
Descends (a ∷ entries) =
    All (λ (b : Entry). b.1.num * den a.1 ≤ a.1.num * den b.1) entries × Descends entries

sorted-Descends : (entries : List Entry) → IsSorted scores_higher entries → Descends entries
unfolding score_lt
sorted-Descends [] h = tt
sorted-Descends (a ∷ entries) h = (
  In-All (λ (b : Entry). b.1.num * den a.1 ≤ a.1.num * den b.1) entries
      (λ b i. least b (All-In (λ (y : Entry). scores_higher y a ≡ false) entries h.0 b i)),
  sorted-Descends entries h.1,
)
  where
    least : (b : Entry) → scores_higher b a ≡ false → b.1.num * den a.1 ≤ a.1.num * den b.1
    least b e = ground arith

-- A ranking of the hits, of which the fusion returns the first ones.
pub record IsRanking (lists : List (List Hit)) (limit : ℕ) (ranking : List Entry) : Type 0 where
  pub returned : fuse_ranked lists limit ≡ map (λ (e : Entry). e.0) (take limit ranking)
  pub found : (e : Entry) → In e ranking → (hits : List Hit) × In hits lists × In e.0 hits
  pub every :
      (hits : List Hit) (h : Hit)
      → In hits lists
      → In h hits
      → (e : Entry) × In e ranking × (e.0.id ≡ h.id)
  pub once : AllApart ranking
  pub summed : (e : Entry) → In e ranking → e.1 ≡ rrf lists e.0.id zero_score
  pub descending : Descends ranking

-- The fusion returns the first `limit` hits of a ranking of the hits in the lists: every id in them
-- has one entry, its score is the sum of 1 / (60 + rank) over its places in the lists, and no entry
-- has a higher score than one in front of it. Whatever every hit of the lists is, so is every hit of
-- the fusion.
pub fuse_ranked-IsRanking :
    (lists : List (List Hit)) (limit : ℕ)
    → ((ranking : List Entry) × IsRanking lists limit ranking)
      × (length (fuse_ranked lists limit) ≤ limit)
      × ((P : Hit → Type 0) → All (All P) lists → All P (fuse_ranked lists limit))
unfolding fuse_ranked
fuse_ranked-IsRanking lists limit = (
  (
    sorted scores_higher entries,
    record {
      returned = refl;
      found = λ e i. All-In (λ (x : Entry). Listed x.0) entries all_listed e (of_sorted e i);
      every = λ hits h i j.
          let (e, k, q) = fuse_lists-Has lists [] hits h i j in
          (e, (sorted-In scores_higher e entries).1 k, q);
      once =
          sorted-Pairwise scores_higher Apart Apart-swap entries (fuse_lists-AllApart lists [] tt);
      summed = λ e i. fuse_lists-rrf lists e (of_sorted e i);
      descending =
          sorted-Descends (sorted scores_higher entries)
            (sorted-IsSorted scores_higher entries scores_higher-IsOrder);
    },
  ),
  short limit (sorted scores_higher entries),
  λ P h. fuse_ranked-All P lists limit h,
)
  where
    entries : List Entry
    entries = fuse_lists lists []

    Listed : Hit → Type 0
    Listed h = (hits : List Hit) × In hits lists × In h hits

    all_listed : All (λ (e : Entry). Listed e.0) entries
    all_listed =
        fuse_lists-Holds Listed lists []
          (In-All (All Listed) lists (λ hits i. In-All Listed hits (λ h j. (hits, i, j)))) tt

    of_sorted : (e : Entry) → In e (sorted scores_higher entries) → In e entries
    of_sorted e i = (sorted-In scores_higher e entries).0 i

    short : (n : ℕ) (es : List Entry) → length (map (λ (e : Entry). e.0) (take n es)) ≤ n
    short zero es = omega arith
    short (suc n) [] = omega arith
    short (suc n) (e ∷ es) = omega (arith, short n es)
