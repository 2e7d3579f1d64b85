-- ===== src/Vector/Store/Sweep.antt =====
-- Destruction reaches every copy: after `delete_document_chunks` no collection holds a chunk of
-- the document.
use text.Mathlib.Text.{starts_with}
use mathlib.Core.Bool.{false≢true}
use mathlib.Core.Path.{subst₂}
use nexus_rag.Base.{
  ok, subst, String, ◌≡◌, ◌≢◌, ◌↔◌, ◌⊎◌, inl, inr, refl, Bool, true, false, ◌++◌, List, [], ◌∷◌,
  arith, In, append-In_left, append-In_right, sym, ◌∙◌, In-filter, contains, In-contains,
  Bool-cases, str_eq, str_eq_iff, ok, if◌then◌else◌,
}
use nexus_rag.Document.{Uuid}
use nexus_rag.Access.Payload.{Payload, passes}
use nexus_rag.Vector.Names.{qdrant_collection, collection_prefix}
use nexus_rag.Vector.Exec.{Returns, >>=-Returns, read-Returns, pure-Returns, Returns-state, read}
use nexus_rag.Vector.Client.{Client, ClientLaws, Point}
use nexus_rag.Vector.Store.{
  document_filter, existing_names, existing_classification_collections, delete_from_all,
  delete_document_chunks,
}

pub passes-document_filter :
    (d : Uuid) (p : Payload) → (passes (document_filter d) p ≡ true) ↔ (p.document_id ≡ d)
passes-document_filter d p = (λ h. ground arith, λ h. ground arith)

pub misses-document_filter :
    (d : Uuid) (p : Payload) → (passes (document_filter d) p ≡ false) ↔ (p.document_id ≢ d)
misses-document_filter d p = (λ h. ground arith, λ h. ground arith)

module _ (c : Client) where
  -- Every collection is a classification's, or the one without a suffix.
  abbrev pub IsNamespaced : c.State → Type 0
  IsNamespaced s =
      (n : String)
      → In n (c.collections s)
      → (starts_with n collection_prefix ≡ true) ⊎ (n ≡ qdrant_collection)

module _ (c : Client) (laws : ClientLaws c) where
  open c use {State, points, collections}

  -- one `client.delete` with the document's filter
  delete_effect :
      (s t : State) (n : String) (d : Uuid)
      → Returns (c.delete n (document_filter d)) s tt t
      → (m : String) (p : Point)
      → In p (points t m) ↔ (In p (points s m) × (m ≡ n → p.payload.document_id ≢ d))
  delete_effect s t n d h m p = elim (Bool-cases (str_eq m n)) [
    | inl same ↦ at_name ((str_eq_iff m n).0 same)
    | inr other ↦ elsewhere (λ q. false≢true (sym other ∙ (str_eq_iff m n).1 q))
  ]
    where
      effect : Type 0
      effect = In p (points t m) ↔ (In p (points s m) × (m ≡ n → p.payload.document_id ≢ d))

      at_name : m ≡ n → effect
      at_name e = rw e (
        λ i.
            let (j, q) = (laws.delete_ok s t n _ h p).0 i in
            (j, λ _. (misses-document_filter d p.payload).0 q),
        λ k.
            (laws.delete_ok s t n _ h p).1 (k.0, (misses-document_filter d p.payload).1 (k.1 refl)),
      )

      elsewhere : m ≢ n → effect
      elsewhere ne =
          rw
            (
              Returns-state (c.delete n (document_filter d)) s h,
              laws.delete_frame s n _ m (λ q. ne (sym q)),
            )
            (λ i. (i, λ q. absurd (ne q)), λ k. k.0)

  delete_from_all_effect :
      (s t : State) (names : List String) (d : Uuid)
      → Returns (delete_from_all c d names) s tt t
      → (m : String) (p : Point)
      → In p (points t m) ↔ (In p (points s m) × (In m names → p.payload.document_id ≢ d))
  unfolding delete_from_all
  delete_from_all_effect s t [] d h m p =
      rw (Returns-state (delete_from_all c d []) s h) (λ i. (i, λ k. absurd k), λ k. k.0)
  delete_from_all_effect s t (n ∷ names) d h m p =
      let (_, u, first, rest) = >>=-Returns (c.delete n (document_filter d)) _ s h in
      let ih = delete_from_all_effect u t names d rest m p in
      let step = delete_effect s u n d first m p in
      (
        λ i. (
          (step.0 (ih.0 i).0).0,
          λ k. elim k [ inl q ↦ (step.0 (ih.0 i).0).1 q | inr q ↦ (ih.0 i).1 q ],
        ),
        λ k. ih.1 (step.1 (k.0, λ q. k.1 (inl q)), λ q. k.1 (inr q)),
      )

  pub existing-Returns :
      (s t : State) (names : List String)
      → Returns (existing_classification_collections c) s names t
      → (names ≡ existing_names (collections s)) × (t ≡ s)
  unfolding existing_classification_collections
  existing-Returns s t names h =
      let (all_names, u, first, rest) = >>=-Returns (read c.get_collections) _ s h in
      let (e, same) = read-Returns c.get_collections s first in
      let (q, same') = pure-Returns (existing_names all_names) u rest in
      (rw (← laws.get_collections_ok s all_names e) q, same' ∙ same)

  -- the names that the sweep goes through
  swept-In :
      (s : State) (m : String) (bare : Bool)
      → IsNamespaced c s
      → bare ≡ contains qdrant_collection (collections s)
      → In m (collections s)
      → In m (
          if bare
          then existing_names (collections s) ++ qdrant_collection ∷ []
          else existing_names (collections s))
  swept-In s m true spaced e i = elim (spaced m i) [
    | inl pre ↦ append-In_left m _ _ (In-filter (λ n. starts_with n collection_prefix) m _ i pre)
    | inr q ↦ append-In_right m (existing_names (collections s)) _ (inl q)
  ]
  swept-In s m false spaced e i = elim (spaced m i) [
    | inl pre ↦ In-filter (λ n. starts_with n collection_prefix) m _ i pre
    | inr q ↦ absurd (
        false≢true (
          e
          ∙ In-contains qdrant_collection (collections s) (subst (λ n. In n (collections s)) q i)))
  ]

  -- When `delete_document_chunks` returns, whatever classification it was called with, the store
  -- holds exactly the chunks of the other documents that it held before, if every collection has
  -- the name of a classification's or of the one without a suffix.
  pub delete_document_chunks_effect :
      (s t : State) (d : Uuid) (classification : String)
      → IsNamespaced c s
      → Returns (delete_document_chunks c d classification) s tt t
      → (m : String) (p : Point)
      → In p (points t m) ↔ (In p (points s m) × (p.payload.document_id ≢ d))
  unfolding delete_document_chunks
  delete_document_chunks_effect s t d classification spaced h m p =
      let (names, s1, h1, r1) = >>=-Returns (existing_classification_collections c) _ s h in
      let (bare, s2, h2, r2) = >>=-Returns (read (c.collection_exists qdrant_collection)) _ s1 r1 in
      let (e, same) = existing-Returns s s1 names h1 in
      let (q, same') = read-Returns (c.collection_exists qdrant_collection) s1 h2 in
      let found : bare ≡ contains qdrant_collection (collections s) =
        laws.exists_ok s qdrant_collection bare
          (subst (λ u. c.collection_exists qdrant_collection u ≡ ok bare) same q) in
      let effect =
        delete_from_all_effect s t
          (if bare
            then existing_names (collections s) ++ qdrant_collection ∷ []
            else existing_names (collections s))
          d
          (subst₂
            (λ l u.
              Returns (delete_from_all c d (if bare then l ++ qdrant_collection ∷ [] else l)) u tt
                t)
            e (same' ∙ same) r2)
          m p in
      (
        λ i. (
          (effect.0 i).0,
          (effect.0 i).1 (swept-In s m bare spaced found (laws.stored s m p (effect.0 i).0)),
        ),
        λ k. effect.1 (k.0, λ _. k.1),
      )
