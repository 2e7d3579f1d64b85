-- ===== src/Retrieval/Overlaps/Kept.antt =====
-- What the collapse keeps and what it may drop.
use mathlib.Core.Bool.{false≢true}
use nexus_rag.Document.{Uuid}
use nexus_rag.Base.{
  ap, ℕ, suc, ◌+◌, ◌≤◌, ◌≡◌, ◌≢◌, ◌⊎◌, inl, inr, refl, sym, ◌∙◌, arith, true, false, Option, none,
  some, List, [], ◌∷◌, ◌++◌, length, length-append, any, In, In-append, append-In_left,
  append-In_right, In-any, any-In, ◌==◌, ==_iff, Bool-cases,
}
use nexus_rag.Retrieval.Overlaps.{
  Candidate, collides, collides_of, collapse_from, collapse_adjacent_overlaps,
}

collides_of_sym :
    (d : Option Uuid) (i : Option ℕ) (e : Option Uuid) (j : Option ℕ)
    → collides_of d i e j ≡ collides_of e j d i
collides_of_sym none i none j = refl
collides_of_sym none i (some e) none = refl
collides_of_sym none i (some e) (some j) = refl
collides_of_sym (some d) none none j = refl
collides_of_sym (some d) none (some e) none = refl
collides_of_sym (some d) none (some e) (some j) = refl
collides_of_sym (some d) (some i) none j = refl
collides_of_sym (some d) (some i) (some e) none = refl
collides_of_sym (some d) (some i) (some e) (some j) = ground arith

collides_of_self : (d : Option Uuid) (i : Option ℕ) → collides_of d i d i ≡ false
collides_of_self none i = refl
collides_of_self (some d) none = refl
collides_of_self (some d) (some i) = ground arith

collides_sym : (x y : Candidate) → collides x y ≡ collides y x
collides_sym x y = collides_of_sym x.document_id x.chunk_index y.document_id y.chunk_index

-- No two candidates of the list overlap.
abbrev pub HasNoOverlap : List Candidate → Type 0
HasNoOverlap kept = (x y : Candidate) → In x kept → In y kept → collides x y ≡ false

-- The result of the collapse, from what was kept before and what is still to come.
pub record IsCollapsed (top_k : ℕ) (before ranked kept : List Candidate) : Type 0 where
  pub bounded : length kept ≤ top_k
  pub apart : HasNoOverlap kept
  pub keeps : (x : Candidate) → In x before → In x kept
  pub only : (x : Candidate) → In x kept → In x before ⊎ In x ranked
  pub drops :
      (x : Candidate)
      → In x ranked
      → In x kept ⊎ ((y : Candidate) × In y kept × (collides x y ≡ true)) ⊎ (length kept ≡ top_k)

no_any :
    (x : Candidate) (kept : List Candidate)
    → any (collides x) kept ≡ false
    → (y : Candidate) → In y kept
    → collides x y ≡ false
no_any x kept e y i = elim (Bool-cases (collides x y)) [
  | inl q ↦ absurd (false≢true (sym e ∙ In-any (collides x) y kept i q))
  | inr q ↦ q
]

added-HasNoOverlap :
    (kept : List Candidate) (c : Candidate)
    → HasNoOverlap kept
    → any (collides c) kept ≡ false
    → HasNoOverlap (kept ++ c ∷ [])
added-HasNoOverlap kept c h e x y i j = go (In-append x kept _ i) (In-append y kept _ j)
  where
    go : (In x kept ⊎ In x (c ∷ [])) → (In y kept ⊎ In y (c ∷ [])) → collides x y ≡ false
    go (inl a) (inl b) = h x y a b
    go (inl a) (inr (inl b)) = rw b (collides_sym x c ∙ no_any c kept e x a)
    go (inl a) (inr (inr b)) = absurd b
    go (inr (inl a)) (inl b) = rw a (no_any c kept e y b)
    go (inr (inl a)) (inr (inl b)) = rw (a, b) (collides_of_self c.document_id c.chunk_index)
    go (inr (inl a)) (inr (inr b)) = absurd b
    go (inr (inr a)) b = absurd a

-- what one more round does to a result for the rest
step-IsCollapsed :
    (top_k : ℕ) (before : List Candidate) (c : Candidate) (ranked kept : List Candidate)
    (dropped : ℕ)
    → any (collides c) before ≡ false
    → IsCollapsed top_k (before ++ c ∷ []) ranked kept
    → IsCollapsed top_k before (c ∷ ranked) kept
step-IsCollapsed top_k before c ranked kept dropped e h = record {
  bounded = h.bounded;
  apart = h.apart;
  keeps = λ x i. h.keeps x (append-In_left x before _ i);
  only = λ x i. elim (h.only x i) [
    | inl j ↦ elim (In-append x before _ j) [
      | inl k ↦ inl k
      | inr (inl k) ↦ inr (inl k)
      | inr (inr k) ↦ absurd k
    ]
    | inr j ↦ inr (inr j)
  ];
  drops = λ x i. elim i [
    | inl k ↦ inl (h.keeps x (append-In_right x before _ (inl k)))
    | inr k ↦ h.drops x k
  ];
}

skip-IsCollapsed :
    (top_k : ℕ) (before : List Candidate) (c : Candidate) (ranked kept : List Candidate)
    → any (collides c) before ≡ true
    → IsCollapsed top_k before ranked kept
    → IsCollapsed top_k before (c ∷ ranked) kept
skip-IsCollapsed top_k before c ranked kept e h = record {
  bounded = h.bounded;
  apart = h.apart;
  keeps = h.keeps;
  only = λ x i. elim (h.only x i) [ inl j ↦ inl j | inr j ↦ inr (inr j) ];
  drops = λ x i. elim i [
    | inl k ↦
        let (y, j, q) = any-In (collides c) before e in
        inr (inl (y, h.keeps y j, ap (λ z. collides z y) k ∙ q))
    | inr k ↦ h.drops x k
  ];
}

collapse_from-IsCollapsed :
    (top_k : ℕ) (kept : List Candidate) (dropped : ℕ) (ranked : List Candidate)
    → length kept ≤ top_k
    → HasNoOverlap kept
    → IsCollapsed top_k kept ranked (collapse_from top_k kept dropped ranked).0
unfolding collapse_from
collapse_from-IsCollapsed top_k kept dropped [] bound apart = record {
  bounded = bound;
  apart = apart;
  keeps = λ x i. i;
  only = λ x i. inl i;
  drops = λ x i. absurd i;
}
collapse_from-IsCollapsed top_k kept dropped (c ∷ ranked) bound apart =
    elim (Bool-cases (length kept == top_k)) [
      | inl full ↦ rw full (record {
        bounded = bound;
        apart = apart;
        keeps = λ x i. i;
        only = λ x i. inl i;
        drops = λ x i. inr (inr ((==_iff (length kept) top_k).0 full));
      })
      | inr room ↦ elim (Bool-cases (any (collides c) kept)) [
        | inl hit ↦
            rw (room, hit)
              (skip-IsCollapsed top_k kept c ranked _ hit
                (collapse_from-IsCollapsed top_k kept (suc dropped) ranked bound apart))
        | inr miss ↦
            rw (room, miss)
              (step-IsCollapsed top_k kept c ranked _ dropped miss (
                collapse_from-IsCollapsed top_k (kept ++ c ∷ []) dropped ranked
                  (longer (length-append kept (c ∷ []))
                    (λ q. false≢true (sym room ∙ (==_iff (length kept) top_k).1 q)))
                  (added-HasNoOverlap kept c apart miss)))
      ]
    ]
  where
    longer :
        length (kept ++ c ∷ []) ≡ length kept + 1
        → length kept ≢ top_k
        → length (kept ++ c ∷ []) ≤ top_k
    longer e ne = omega (arith, e, bound, ne)

-- The collapse keeps at most `top_k` candidates, all of them from the list, no two of which are
-- neighbouring chunks of one document. A candidate that it leaves out is a neighbour of a kept one,
-- or the result is full.
pub collapse_adjacent_overlaps-IsCollapsed :
    (ranked : List Candidate) (top_k : ℕ)
    → IsCollapsed top_k [] ranked (collapse_adjacent_overlaps ranked top_k).0
unfolding collapse_adjacent_overlaps
collapse_adjacent_overlaps-IsCollapsed ranked top_k =
    collapse_from-IsCollapsed top_k [] 0 ranked (omega arith) (λ x y i j. absurd i)
