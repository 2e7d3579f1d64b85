-- ===== src/Vector/Store/Shrink.antt =====
-- However a sweep of a document's chunks ends, it brings no chunk into any collection.
use mathlib.Core.Bool.{false≢true}
use nexus_rag.Base.{
  ap, Result, ok, err, subst, String, ◌≡◌, inl, inr, refl, Bool, ◌++◌, List, [], ◌∷◌, In, sym, ◌∙◌,
  Bool-cases, str_eq, str_eq_iff, ok, if◌then◌else◌,
}
use nexus_rag.Document.{Uuid}
use nexus_rag.Vector.Names.{qdrant_collection}
use nexus_rag.Vector.Exec.{StoreError, continue, pure, ◌>>=◌, read}
use nexus_rag.Vector.Client.{Client, ClientLaws, Point}
use nexus_rag.Vector.Store.{
  document_filter, existing_names, existing_classification_collections, delete_from_all,
  delete_document_chunks,
}

module _ (c : Client) (laws : ClientLaws c) where
  open c use {State, points}

  delete_from_all-from :
      (s : State) (names : List String) (d : Uuid) (m : String) (p : Point)
      → In p (points (delete_from_all c d names s).1 m)
      → In p (points s m)
  unfolding delete_from_all
  delete_from_all-from s [] d m p i = i
  delete_from_all-from s (n ∷ names) d m p i =
      go (λ u. delete_from_all-from u names d m p) (c.delete n (document_filter d) s) refl i
    where
      deleted :
          (u : State)
          → u ≡ (c.delete n (document_filter d) s).1
          → In p (points u m)
          → In p (points s m)
      deleted u e j = elim (Bool-cases (str_eq m n)) [
        | inl here ↦
            let q = (str_eq_iff m n).0 here in
            subst (λ k. In p (points s k)) (sym q)
              (laws.delete_from s n (document_filter d) p
                (subst (λ v. In p (points v n)) e (subst (λ k. In p (points u k)) q j)))
        | inr there ↦
            subst (λ l. In p l)
              (laws.delete_frame s n (document_filter d) m
                (λ q. false≢true (sym there ∙ (str_eq_iff m n).1 (sym q))))
              (subst (λ v. In p (points v m)) e j)
      ]

      go :
          ((u : State) → In p (points (delete_from_all c d names u).1 m) → In p (points u m))
          → (r : Result StoreError (Unit {0}) × State) → c.delete n (document_filter d) s ≡ r
          → In p (points (continue r.0 (λ _. delete_from_all c d names) r.1).1 m)
          → In p (points s m)
      go ih (ok x, u) e j = deleted u (sym (ap (λ y. y.1) e)) (ih u j)
      go ih (err x, u) e j = deleted u (sym (ap (λ y. y.1) e)) j

  -- However the sweep ends, it brings no chunk in.
  pub delete_document_chunks-from :
      (s : State) (d : Uuid) (classification : String) (m : String) (p : Point)
      → In p (points (delete_document_chunks c d classification s).1 m)
      → In p (points s m)
  unfolding delete_document_chunks existing_classification_collections
  delete_document_chunks-from s d classification m p i = listed (c.get_collections s) i
    where
      found :
          (names : List String) (r : Result StoreError Bool)
          → In p (
              points
                (continue r
                  (λ bare.
                    delete_from_all c d (if bare then names ++ qdrant_collection ∷ [] else names))
                  s).1
                m)
          → In p (points s m)
      found names (ok bare) j = delete_from_all-from s _ d m p j
      found names (err x) j = j

      listed :
          (r : Result StoreError (List String))
          → In p (
              points
                (continue
                  (continue r (λ names. pure (existing_names names)) s).0
                  (λ names. read (c.collection_exists qdrant_collection) >>= λ bare.
                    delete_from_all c d (if bare then names ++ qdrant_collection ∷ [] else names))
                  (continue r (λ names. pure (existing_names names)) s).1).1
                m)
          → In p (points s m)
      listed (ok names) j = found (existing_names names) (c.collection_exists qdrant_collection s) j
      listed (err x) j = j
