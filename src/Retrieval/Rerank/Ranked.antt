-- ===== src/Retrieval/Rerank/Ranked.antt =====
-- What a reranking returns.
use mathlib.Core.List.{append_assoc, append-nil}
use nexus_rag.Base.{
  ℕ, suc, ◌≤◌, ◌≡◌, refl, sym, subst, arith, ◌⊎◌, inl, inr, String, Bool, true, false, Option, none,
  some, List, [], ◌∷◌, ◌++◌, filter, filter-In, In-filter, ◌-◌, ◌*◌, length, All, In-All, All-In,
  In, is_empty, Bool-cases, any, ◌==◌,
}
use nexus_rag.Base.Int.{ℤ, pos, negsuc}
use nexus_rag.Base.Sort.{sorted, IsSorted, IsOrder, sorted-In, sorted-IsSorted}
use nexus_rag.Document.{Uuid}
use nexus_rag.Retrieval.Overlaps.{Candidate, collides, collapse_from, collapse_adjacent_overlaps}
use nexus_rag.Retrieval.Overlaps.Kept.{HasNoOverlap, collapse_adjacent_overlaps-IsCollapsed}
use nexus_rag.Retrieval.Rerank.{
  Response, http_error, by_index, by_id, RerankSettings, Note, no_candidates, fused_order, reranked,
  boosted_score, below, scores_above, reaches, chosen_boosts, rank_scored, rank_by, rank_response,
  rerank, scores_by_index, candidate_at, add_score, score_of, weight_of, scale,
}

below-IsOrder : (f : Candidate → Option ℤ) → IsOrder (λ a b. below (f b) (f a))
below-IsOrder f = (λ x y h. asymm (f x) (f y) h, λ x y z h k. trans (f x) (f y) (f z) h k)
  where
    asymm : (a b : Option ℤ) → below b a ≡ true → below a b ≡ false
    asymm none none h = refl
    asymm none (some b) h = cc
    asymm (some a) none h = refl
    asymm (some a) (some b) h = ground arith

    trans : (a b c : Option ℤ) → below b c ≡ false → below a b ≡ false → below a c ≡ false
    trans none none c h k = h
    trans none (some b) c h k = cc
    trans (some a) b none h k = refl
    trans (some a) none (some c) h k = cc
    trans (some a) (some b) (some c) h k = ground arith

module _ (above : Candidate → Candidate → Bool) where
  -- leaving elements out keeps the order
  filter-IsSorted :
      (p : Candidate → Bool) (xs : List Candidate)
      → IsSorted above xs
      → IsSorted above (filter p xs)
  filter-IsSorted p [] h = tt
  filter-IsSorted p (x ∷ xs) h = elim (Bool-cases (p x)) [
    | inl e ↦ rw e (
      In-All (λ y. above y x ≡ false) (filter p xs)
          (λ y i. All-In (λ z. above z x ≡ false) xs h.0 y (filter-In p y xs i).0),
      filter-IsSorted p xs h.1,
    )
    | inr e ↦ rw e (filter-IsSorted p xs h.1)
  ]

  drop_one :
      (xs ys : List Candidate) (c : Candidate)
      → IsSorted above (xs ++ c ∷ ys)
      → IsSorted above (xs ++ ys)
  drop_one [] ys c h = h.1
  drop_one (x ∷ xs) ys c h = (left_out xs h.0, drop_one xs ys c h.1)
    where
      left_out :
          (zs : List Candidate)
          → All (λ y. above y x ≡ false) (zs ++ c ∷ ys)
          → All (λ y. above y x ≡ false) (zs ++ ys)
      left_out [] k = k.1
      left_out (z ∷ zs) k = (k.0, left_out zs k.1)

  front : (xs ys : List Candidate) → IsSorted above (xs ++ ys) → IsSorted above xs
  front xs [] h = subst (λ l. IsSorted above l) (append-nil xs) h
  front xs (y ∷ ys) h = front xs ys (drop_one xs ys y h)

  collapse_from-IsSorted :
      (top_k : ℕ) (kept : List Candidate) (dropped : ℕ) (ranked : List Candidate)
      → IsSorted above (kept ++ ranked)
      → IsSorted above (collapse_from top_k kept dropped ranked).0
  unfolding collapse_from
  collapse_from-IsSorted top_k kept dropped [] h = front kept [] h
  collapse_from-IsSorted top_k kept dropped (c ∷ ranked) h =
      elim (Bool-cases (length kept == top_k)) [
        | inl full ↦ rw full (front kept (c ∷ ranked) h)
        | inr room ↦ elim (Bool-cases (any (collides c) kept)) [
          | inl hit ↦
              rw (room, hit)
                (collapse_from-IsSorted top_k kept (suc dropped) ranked (drop_one kept ranked c h))
          | inr free ↦
              rw (room, free)
                (collapse_from-IsSorted top_k (kept ++ c ∷ []) dropped ranked
                  (subst (λ l. IsSorted above l) (sym (append_assoc kept (c ∷ []) ranked)) h))
        ]
      ]

-- The scores are those of the rows, under the ids of the candidates that the rows count.
abbrev pub IsIndexed : List Candidate → List (ℕ × ℤ) → List (Uuid × ℤ) → Type 0
IsIndexed candidates [] [] = Unit {0}
IsIndexed candidates [] (entry ∷ scores) = ⊥
IsIndexed candidates (row ∷ rows) [] = ⊥
IsIndexed candidates ((i, x) ∷ rows) ((id, y) ∷ scores) =
    ((k : Candidate) × (candidate_at i candidates ≡ some k) × (k.id ≡ id))
    × (x ≡ y)
    × IsIndexed candidates rows scores

-- The scores are those that came back from the service.
abbrev pub IsServed : List Candidate → Response → List (Uuid × ℤ) → Type 0
IsServed candidates http_error scores = ⊥
IsServed candidates (by_index rows) scores = IsIndexed candidates rows scores
IsServed candidates (by_id rows) scores = rows ≡ scores

scores_by_index-IsIndexed :
    (candidates : List Candidate) (rows : List (ℕ × ℤ)) (scores : List (Uuid × ℤ))
    → scores_by_index candidates rows ≡ some scores
    → IsIndexed candidates rows scores
unfolding scores_by_index
scores_by_index-IsIndexed candidates [] [] e = tt
scores_by_index-IsIndexed candidates [] (x ∷ scores) e = cc
scores_by_index-IsIndexed candidates ((i, x) ∷ rows) scores e =
    added (candidate_at i candidates) refl (scores_by_index candidates rows)
      (λ l q. scores_by_index-IsIndexed candidates rows l q) scores e
  where
    added :
        (k : Option Candidate)
        → candidate_at i candidates ≡ k
        → (rest : Option (List (Uuid × ℤ)))
        → ((l : List (Uuid × ℤ)) → rest ≡ some l → IsIndexed candidates rows l)
        → (l : List (Uuid × ℤ)) → add_score k x rest ≡ some l
        → IsIndexed candidates ((i, x) ∷ rows) l
    added none a rest h l q = cc
    added (some k) a none h l q = cc
    added (some k) a (some rest) h l q =
        subst (IsIndexed candidates ((i, x) ∷ rows)) (same l q) ((k, a, refl), refl, h rest refl)
      where
        same : (m : List (Uuid × ℤ)) → some ((k.id, x) ∷ rest) ≡ some m → (k.id, x) ∷ rest ≡ m
        same m r = cc

-- The boosted score of a candidate is its score times the weight of its content type, and there is
-- none for one that the service left out.
pub record IsWeighed (boosts : List (String × ℕ)) (scores : List (Uuid × ℤ)) (x : Candidate)
    : Type 0 where
  pub left_out : score_of x.id scores ≡ none → boosted_score boosts scores x ≡ none
  pub up :
      (n : ℕ)
      → score_of x.id scores ≡ some (pos n)
      → boosted_score boosts scores x ≡ some (pos (n * weight_of x.payload.content_type boosts))
  pub down :
      (n w : ℕ)
      → score_of x.id scores ≡ some (negsuc n)
      → weight_of x.payload.content_type boosts ≡ suc w
      → boosted_score boosts scores x ≡ some (negsuc (suc n * suc w - 1))

boosted_score-IsWeighed :
    (boosts : List (String × ℕ)) (scores : List (Uuid × ℤ)) (x : Candidate)
    → IsWeighed boosts scores x
unfolding boosted_score scale
boosted_score-IsWeighed boosts scores x = record {
  left_out = λ e. rw e refl;
  up = λ n e. rw e refl;
  down = λ n w e k. rw (e, k) refl;
}

-- The kept candidates are ordered by their boosted scores, and each of them reaches the floor.
pub record IsScored (settings : RerankSettings) (boosts : List (String × ℕ))
    (candidates : List Candidate) (response : Response) (top_k : ℕ) (kept : List Candidate)
    : Type 0 where
  pub scores : List (Uuid × ℤ)
  pub served : IsServed candidates response scores
  pub descending : IsSorted (scores_above boosts scores) kept
  pub reach : All (λ c. reaches settings.score_floor (boosted_score boosts scores c) ≡ true) kept
  pub rest :
      (x : Candidate)
      → In x candidates
      → reaches settings.score_floor (boosted_score boosts scores x) ≡ true
      → In x kept ⊎ ((y : Candidate) × In y kept × (collides x y ≡ true)) ⊎ (length kept ≡ top_k)
  pub weighed : (x : Candidate) → IsWeighed boosts scores x

-- What an answer of the reranking is, with the note that says how it came about.
pub record IsReranked (settings : RerankSettings) (boosts : List (String × ℕ))
    (candidates : List Candidate) (response : Response) (top_k : ℕ) (kept : List Candidate)
    (note : Note) : Type 0 where
  pub bounded : length kept ≤ top_k
  pub apart : HasNoOverlap kept
  pub only : (x : Candidate) → In x kept → In x candidates
  pub scored :
      (floored collapsed : ℕ)
      → note ≡ reranked floored collapsed
      → IsScored settings boosts candidates response top_k kept

module _ (settings : RerankSettings) (boosts : List (String × ℕ)) (candidates : List Candidate)
    (top_k : ℕ) where
  fused-IsReranked :
      (response : Response) (note : Note)
      → ((m n : ℕ) → note ≡ reranked m n → ⊥)
      → IsReranked settings boosts candidates response top_k
          (collapse_adjacent_overlaps candidates top_k).0
          note
  fused-IsReranked response note other =
      let k = collapse_adjacent_overlaps-IsCollapsed candidates top_k in
      record {
        bounded = k.bounded;
        apart = k.apart;
        only = λ x i. elim (k.only x i) [ inl j ↦ absurd j | inr j ↦ j ];
        scored = λ m n e. absurd (other m n e);
      }

  scored-IsReranked :
      (response : Response) (scores : List (Uuid × ℤ))
      → IsServed candidates response scores
      → IsReranked settings boosts candidates response top_k
          (rank_scored settings boosts scores candidates top_k).0
          (rank_scored settings boosts scores candidates top_k).1
  unfolding rank_scored collapse_adjacent_overlaps
  scored-IsReranked response scores served =
      let above = scores_above boosts scores in
      let passes =
        λ (c : Candidate). reaches settings.score_floor (boosted_score boosts scores c) in
      let surviving = filter passes (sorted above candidates) in
      let k = collapse_adjacent_overlaps-IsCollapsed surviving top_k in
      let from = λ (x : Candidate) (i : In x (collapse_from top_k [] 0 surviving).0).
        filter-In passes x (sorted above candidates) (of_ranked surviving x (k.only x i)) in
      record {
        bounded = k.bounded;
        apart = k.apart;
        only = λ x i. (sorted-In above x candidates).0 (from x i).0;
        scored = λ m n e. record {
          scores = scores;
          served = served;
          descending = collapse_from-IsSorted above top_k [] 0 surviving (
              filter-IsSorted above passes (sorted above candidates)
                (sorted-IsSorted above candidates (below-IsOrder (boosted_score boosts scores))));
          reach =
              In-All (λ c. passes c ≡ true) (collapse_from top_k [] 0 surviving).0
                (λ x i. (from x i).1);
          rest = λ x i q.
              k.drops x (
                In-filter passes x (sorted above candidates) ((sorted-In above x candidates).1 i)
                  q);
          weighed = boosted_score-IsWeighed boosts scores;
        };
      }
    where
      of_ranked : (l : List Candidate) (x : Candidate) → (In x [] ⊎ In x l) → In x l
      of_ranked l x (inl i) = absurd i
      of_ranked l x (inr i) = i

  abbrev IsAnswer : Response → Option (List Candidate × Note) → Type 0
  IsAnswer response none = Unit {0}
  IsAnswer response (some (kept, note)) =
      IsReranked settings boosts candidates response top_k kept note

  response-IsAnswer :
      (response : Response)
      → IsAnswer response (rank_response settings boosts response candidates top_k)
  response-IsAnswer http_error =
      fused-IsReranked http_error (fused_order (collapse_adjacent_overlaps candidates top_k).1)
        (λ m n e. other (collapse_adjacent_overlaps candidates top_k).1 m n e)
    where
      other : (d m n : ℕ) → fused_order d ≡ reranked m n → ⊥
      other d m n e = cc
  response-IsAnswer (by_id rows) = scored-IsReranked (by_id rows) rows refl
  response-IsAnswer (by_index rows) =
      indexed (scores_by_index candidates rows)
        (λ l q. scores_by_index-IsIndexed candidates rows l q)
    where
      indexed :
          (r : Option (List (Uuid × ℤ)))
          → ((l : List (Uuid × ℤ)) → r ≡ some l → IsIndexed candidates rows l)
          → IsAnswer (by_index rows) (rank_by settings boosts r candidates top_k)
      indexed none h = tt
      indexed (some scores) h = scored-IsReranked (by_index rows) scores (h scores refl)

-- An answer of `rerank` has at most `top_k` candidates, all from those given and no two of them
-- neighbouring chunks of a document. If its note says that they were scored, they come in the order
-- of the scores that the service returned, each times the boost of its content type, each reaches the
-- floor, and any other candidate that does is a neighbour of one of them, or they are `top_k`.
pub rerank-IsReranked :
    (settings : RerankSettings) (boosts : Option (List (String × ℕ))) (response : Response)
    (candidates : List Candidate) (top_k : ℕ) (kept : List Candidate) (note : Note)
    → rerank settings boosts response candidates top_k ≡ some (kept, note)
    → IsReranked settings (chosen_boosts settings boosts) candidates response top_k kept note
unfolding rerank
rerank-IsReranked settings boosts response candidates top_k kept note e =
    elim (Bool-cases (is_empty candidates)) [
      | inl bare ↦ nothing (rw bare at e)
      | inr full ↦
          subst (λ r. IsAnswer settings (chosen_boosts settings boosts) candidates top_k response r)
            (rw full at e)
            (response-IsAnswer settings (chosen_boosts settings boosts) candidates top_k response)
    ]
  where
    parts :
        {k l : List Candidate} {m n : Note}
        → Path (Option (List Candidate × Note)) (some (k, m)) (some (l, n))
        → (k ≡ l) × (m ≡ n)
    parts q = (cc, cc)

    empty :
        IsReranked settings
          (chosen_boosts settings boosts)
          candidates
          response
          top_k
          []
          no_candidates
    empty = record {
      bounded = omega arith;
      apart = λ x y i j. absurd i;
      only = λ x i. absurd i;
      scored = λ m n q. absurd (other m n q);
    }
      where
        other : (m n : ℕ) → no_candidates ≡ reranked m n → ⊥
        other m n q = cc

    nothing :
        Path (Option (List Candidate × Note)) (some ([], no_candidates)) (some (kept, note))
        → IsReranked settings (chosen_boosts settings boosts) candidates response top_k kept note
    nothing q =
        subst
          (λ k.
            IsReranked settings (chosen_boosts settings boosts) candidates response top_k k note)
          (parts q).0
          (subst
            (λ n.
              IsReranked settings (chosen_boosts settings boosts) candidates response top_k [] n)
            (parts q).1 empty)
