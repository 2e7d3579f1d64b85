-- ===== src/Retrieval/Fusion/Summed.antt =====
-- Reciprocal Rank Fusion as a sum of fractions, and that the entries of the fusion have these sums.
use nexus_rag.Base.{
  ℕ, suc, ◌+◌, ◌-◌, ◌*◌, ◌≡◌, refl, sym, ◌∙◌, ap, subst, arith, inl, inr, true, false, List, [],
  ◌∷◌, In, All-In, Bool-cases, ◌==◌, ==_iff, ==_refl, if◌then◌else◌,
}
use nexus_rag.Document.{Uuid}
use nexus_rag.Retrieval.Fusion.{
  Hit, Score, den, zero_score, add_rank, Entry, fuse_hit, fuse_list, fuse_lists,
}
use nexus_rag.Retrieval.Fusion.Fused.{Apart, AllApart, fuse_lists-AllApart}

-- a/b + c/d
abbrev plus : Score → Score → Score
plus s t = record { num = s.num * den t + t.num * den s; below = den s * den t - 1 }

-- 1 / (60 + rank)
abbrev reciprocal : ℕ → Score
reciprocal rank = record { num = 1; below = 59 + rank }

-- what the hits of a list, the first of which has this rank, add to the score of an id
abbrev pub list_sum : ℕ → List Hit → Uuid → Score → Score
list_sum rank [] id s = s
list_sum rank (hit ∷ hits) id s =
    list_sum (suc rank) hits id (if hit.id == id then plus s (reciprocal rank) else s)

-- the sum of 1 / (60 + rank) over the places of an id in the lists
abbrev pub rrf : List (List Hit) → Uuid → Score → Score
rrf [] id s = s
rrf (hits ∷ lists) id s = rrf lists id (list_sum 1 hits id s)

add_rank-plus : (rank : ℕ) (s : Score) → add_rank rank s ≡ plus s (reciprocal rank)
unfolding add_rank
add_rank-plus rank s =
    let e : 60 + rank ≡ 59 + rank + 1 = omega arith in
    ap (λ n. made n ((s.below + 1) * (60 + rank) - 1))
      (ap (λ k. s.num * k + (s.below + 1)) e ∙ omega arith)
    ∙ ap (λ k. made (s.num * (59 + rank + 1) + 1 * (s.below + 1)) ((s.below + 1) * k - 1)) e
  where
    made : ℕ → ℕ → Score
    made n m = record { num = n; below = m }

-- The score that the entries have for an id, which is zero if they have none.
abbrev score_in : Uuid → List Entry → Score
score_in id [] = zero_score
score_in id ((hit, score) ∷ entries) =
    let rest = score_in id entries in if hit.id == id then score else rest

fuse_hit-score :
    (rank : ℕ) (hit : Hit) (id : Uuid) (entries : List Entry)
    → score_in id (fuse_hit rank hit entries)
      ≡ (if hit.id == id then plus (score_in id entries) (reciprocal rank) else score_in id entries)
unfolding fuse_hit
fuse_hit-score rank hit id [] = elim (Bool-cases (hit.id == id)) [
  | inl k ↦ rw k (add_rank-plus rank zero_score)
  | inr k ↦ rw k refl
]
fuse_hit-score rank hit id ((first, score) ∷ entries) = elim (Bool-cases (first.id == hit.id)) [
  | inl q ↦
      let own = ap (λ n. n == id) ((==_iff first.id hit.id).0 q) in
      elim (Bool-cases (hit.id == id)) [
        | inl k ↦ rw (q, own ∙ k, k) (add_rank-plus rank score)
        | inr k ↦ rw (q, own ∙ k, k) refl
      ]
  | inr q ↦ elim (Bool-cases (first.id == id)) [
    | inl k ↦ rw (q, k, other q k) refl
    | inr k ↦ rw (q, k) (fuse_hit-score rank hit id entries)
  ]
]
  where
    other : (first.id == hit.id) ≡ false → (first.id == id) ≡ true → (hit.id == id) ≡ false
    other q k = ground (arith, ==_iff first.id hit.id, ==_iff first.id id, ==_iff hit.id id)

fuse_list-score :
    (rank : ℕ) (hits : List Hit) (id : Uuid) (entries : List Entry)
    → score_in id (fuse_list rank hits entries) ≡ list_sum rank hits id (score_in id entries)
unfolding fuse_list
fuse_list-score rank [] id entries = refl
fuse_list-score rank (hit ∷ hits) id entries =
    fuse_list-score (suc rank) hits id (fuse_hit rank hit entries)
    ∙ ap (list_sum (suc rank) hits id) (fuse_hit-score rank hit id entries)

fuse_lists-score :
    (lists : List (List Hit)) (id : Uuid) (entries : List Entry)
    → score_in id (fuse_lists lists entries) ≡ rrf lists id (score_in id entries)
unfolding fuse_lists
fuse_lists-score [] id entries = refl
fuse_lists-score (hits ∷ lists) id entries =
    fuse_lists-score lists id (fuse_list 1 hits entries)
    ∙ ap (rrf lists id) (fuse_list-score 1 hits id entries)

score_in-entry :
    (entries : List Entry) (e : Entry)
    → AllApart entries
    → In e entries
    → e.1 ≡ score_in e.0.id entries
score_in-entry [] e h i = absurd i
score_in-entry (x ∷ entries) e h (inl q) =
    rw (ap (λ (y : Entry). x.0.id == y.0.id) q ∙ ==_refl x.0.id) (ap (λ (y : Entry). y.1) q)
score_in-entry (x ∷ entries) e h (inr i) = elim (Bool-cases (x.0.id == e.0.id)) [
  | inl q ↦ absurd (All-In (Apart x) entries h.0 e i ((==_iff x.0.id e.0.id).0 q))
  | inr q ↦ rw q (score_in-entry entries e h.1 i)
]

-- An entry's score is the sum of its hit's places.
pub fuse_lists-rrf :
    (lists : List (List Hit)) (e : Entry)
    → In e (fuse_lists lists [])
    → e.1 ≡ rrf lists e.0.id zero_score
fuse_lists-rrf lists e i =
    score_in-entry (fuse_lists lists []) e (fuse_lists-AllApart lists [] tt) i
    ∙ fuse_lists-score lists e.0.id []

-- some entry has the id
abbrev pub Has : Uuid → List Entry → Type 0
Has id entries = (e : Entry) × In e entries × (e.0.id ≡ id)

push : (id : Uuid) (x : Entry) (entries : List Entry) → Has id entries → Has id (x ∷ entries)
push id x entries (e, i, q) = (e, inr i, q)

fuse_hit-Has :
    (rank : ℕ) (hit : Hit) (entries : List Entry) → Has hit.id (fuse_hit rank hit entries)
unfolding fuse_hit
fuse_hit-Has rank hit [] = ((hit, add_rank rank zero_score), inl refl, refl)
fuse_hit-Has rank hit ((first, score) ∷ entries) = elim (Bool-cases (first.id == hit.id)) [
  | inl q ↦ rw q ((first, add_rank rank score), inl refl, (==_iff first.id hit.id).0 q)
  | inr q ↦
      rw q (push hit.id (first, score) (fuse_hit rank hit entries) (fuse_hit-Has rank hit entries))
]

fuse_hit-keeps :
    (rank : ℕ) (hit : Hit) (id : Uuid) (entries : List Entry)
    → Has id entries
    → Has id (fuse_hit rank hit entries)
unfolding fuse_hit
fuse_hit-keeps rank hit id [] (e, i, q) = absurd i
fuse_hit-keeps rank hit id ((first, score) ∷ entries) (e, inl p, q) =
    let named : first.id ≡ id = sym (ap (λ (x : Entry). x.0.id) p) ∙ q in
    elim (Bool-cases (first.id == hit.id)) [
      | inl k ↦ rw k ((first, add_rank rank score), inl refl, named)
      | inr k ↦ rw k ((first, score), inl refl, named)
    ]
fuse_hit-keeps rank hit id ((first, score) ∷ entries) (e, inr i, q) =
    elim (Bool-cases (first.id == hit.id)) [
      | inl k ↦ rw k (e, inr i, q)
      | inr k ↦ rw k (
          push id (first, score) (fuse_hit rank hit entries)
            (fuse_hit-keeps rank hit id entries (e, i, q)))
    ]

fuse_list-keeps :
    (rank : ℕ) (hits : List Hit) (id : Uuid) (entries : List Entry)
    → Has id entries
    → Has id (fuse_list rank hits entries)
unfolding fuse_list
fuse_list-keeps rank [] id entries h = h
fuse_list-keeps rank (hit ∷ hits) id entries h =
    fuse_list-keeps (suc rank) hits id (fuse_hit rank hit entries)
      (fuse_hit-keeps rank hit id entries h)

fuse_list-Has :
    (rank : ℕ) (hits : List Hit) (entries : List Entry) (h : Hit)
    → In h hits
    → Has h.id (fuse_list rank hits entries)
unfolding fuse_list
fuse_list-Has rank [] entries h i = absurd i
fuse_list-Has rank (hit ∷ hits) entries h (inl e) =
    fuse_list-keeps (suc rank) hits h.id (fuse_hit rank hit entries) (
      subst (λ (x : Hit). Has x.id (fuse_hit rank hit entries)) (sym e)
        (fuse_hit-Has rank hit entries))
fuse_list-Has rank (hit ∷ hits) entries h (inr i) =
    fuse_list-Has (suc rank) hits (fuse_hit rank hit entries) h i

fuse_lists-keeps :
    (lists : List (List Hit)) (id : Uuid) (entries : List Entry)
    → Has id entries
    → Has id (fuse_lists lists entries)
unfolding fuse_lists
fuse_lists-keeps [] id entries h = h
fuse_lists-keeps (hits ∷ lists) id entries h =
    fuse_lists-keeps lists id (fuse_list 1 hits entries) (fuse_list-keeps 1 hits id entries h)

-- Every hit of the lists has an entry.
pub fuse_lists-Has :
    (lists : List (List Hit)) (entries : List Entry) (hits : List Hit) (h : Hit)
    → In hits lists
    → In h hits
    → Has h.id (fuse_lists lists entries)
unfolding fuse_lists
fuse_lists-Has [] entries hits h i j = absurd i
fuse_lists-Has (l ∷ lists) entries hits h (inl e) j =
    fuse_lists-keeps lists h.id (fuse_list 1 l entries)
      (fuse_list-Has 1 l entries h (subst (λ k. In h k) e j))
fuse_lists-Has (l ∷ lists) entries hits h (inr i) j =
    fuse_lists-Has lists (fuse_list 1 l entries) hits h i j
