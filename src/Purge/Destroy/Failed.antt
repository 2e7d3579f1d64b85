-- ===== src/Purge/Destroy/Failed.antt =====
-- What a purge that raises has changed.
use nexus_rag.Base.{
  ◌≡◌, refl, sym, ◌∙◌, ap, subst, inl, inr, ◌⊎◌, true, false, String, Option, none, some, is_truthy,
  In, Result, ok, err, Bool-cases,
}
use nexus_rag.Document.{Uuid, Document, purging, purged, status_eq}
use nexus_rag.Vector.Exec.{StoreError}
use nexus_rag.Vector.Client.{Client, ClientLaws, Point}
use nexus_rag.Vector.Store.{delete_document_chunks}
use nexus_rag.Vector.Store.Shrink.{delete_document_chunks-from}
use nexus_rag.Database.{Database, find_document, save_document}
use nexus_rag.Database.Rows.{find_document-id, find_document-put_document}
use nexus_rag.Purge.Stores.{
  ObjectStore, DeleteError, file_not_found, other_failure, Stores, PurgeError, Course,
}
use nexus_rag.Purge.Destroy.{
  Order, purging_row, bury, original_deleted, delete_original, chunks_deleted, destroy, purge_row,
  purge_document,
}

module _ (c : Client) (o : ObjectStore) where
  abbrev Step : Type 0
  Step = Result PurgeError Document × Stores c.State o.State

  -- the rows and the chunks are those that a step began with, if it raised
  abbrev Held : Stores c.State o.State → Step → Type 0
  Held w r = (x : PurgeError) → r.0 ≡ err x → (r.1.db ≡ w.db) × (r.1.chunks ≡ w.chunks)

  bury-Held :
      (m : Course) (order : Order) (doc : Document) (w : Stores c.State o.State)
      → Held w (bury c o m order doc w)
  bury-Held m order doc w = elim (Bool-cases m.last_commits) [
    | inl q ↦ rw q (λ x e. landed x e)
    | inr q ↦ rw q (λ x e. (refl, refl))
  ]
    where
      landed :
          (x : PurgeError) {d : Document} {A : Type 0}
          → Path (Result PurgeError Document) (ok d) (err x)
          → A
      landed x e = cc

  deleted-Held :
      (m : Course) (order : Order) (doc : Document) (w : Stores c.State o.State)
      (r : Result DeleteError (Unit {0}) × o.State)
      → Held w (original_deleted c o m order doc w r)
  deleted-Held m order doc w (ok tt, s) x e = bury-Held m order doc (record w { objects = s }) x e
  deleted-Held m order doc w (err file_not_found, s) x e =
      bury-Held m order doc (record w { objects = s }) x e
  deleted-Held m order doc w (err other_failure, s) x e = (refl, refl)

  original-Held :
      (m : Course) (order : Order) (doc : Document) (key : Option String)
      (w : Stores c.State o.State)
      → Held w (delete_original c o m order doc key w)
  original-Held m order doc none w = bury-Held m order doc w
  original-Held m order doc (some key) w = elim (Bool-cases (is_truthy key)) [
    | inl q ↦ rw q (deleted-Held m order doc w (o.delete key w.objects))
    | inr q ↦ rw q (bury-Held m order doc w)
  ]

  -- Where a purge that raised stopped: before it wrote anything, or with the row marked and no chunk
  -- that was not there before.
  pub record IsMarked (id : Uuid) (s t : Stores c.State o.State) : Type 0 where
    pub row : Document
    pub found : find_document id t.db.documents ≡ some row
    pub marked : row.status ≡ purging
    pub chunks : (n : String) (p : Point) → In p (c.points t.chunks n) → In p (c.points s.chunks n)

module _ (c : Client) (o : ObjectStore) (laws : ClientLaws c) where
  marked_at :
      (m : Course) (doc : Document) (s t : Stores c.State o.State) (u : c.State)
      → find_document doc.id s.db.documents ≡ some doc
      → u ≡ (delete_document_chunks c doc.id doc.classification s.chunks).1
      → t.db ≡ save_document (purging_row m.marked_at doc) s.db
      → t.chunks ≡ u
      → IsMarked c o doc.id s t
  marked_at m doc s t u row h rows chunks = record {
    row = purging_row m.marked_at doc;
    found =
        ap (λ (b : Database). find_document doc.id b.documents) rows
        ∙ find_document-put_document (purging_row m.marked_at doc) doc s.db.documents row;
    marked = refl;
    chunks = λ n p i.
        delete_document_chunks-from c laws s.chunks doc.id doc.classification n p
          (subst (λ v. In p (c.points v n)) (chunks ∙ h) i);
  }

  chunks-IsMarked :
      (m : Course) (order : Order) (doc : Document) (s t : Stores c.State o.State) (x : PurgeError)
      (r : Result StoreError (Unit {0}) × c.State)
      → find_document doc.id s.db.documents ≡ some doc
      → delete_document_chunks c doc.id doc.classification s.chunks ≡ r
      → chunks_deleted c o m order doc
          (record s { db = save_document (purging_row m.marked_at doc) s.db })
          r
        ≡ (err x, t)
      → IsMarked c o doc.id s t
  chunks-IsMarked m order doc s t x (ok tt, u) row h e =
      let (rows, chunks) =
        original-Held c o m order doc doc.original_object_key
          (record s { db = save_document (purging_row m.marked_at doc) s.db; chunks = u }) x
          (ap (λ y. y.0) e) in
      marked_at m doc s t u row (sym (ap (λ y. y.1) h)) (ap (λ y. y.1.db) (sym e) ∙ rows)
        (ap (λ y. y.1.chunks) (sym e) ∙ chunks)
  chunks-IsMarked m order doc s t x (err y, u) row h e =
      marked_at m doc s t u row (sym (ap (λ z. z.1) h)) (ap (λ z. z.1.db) (sym e))
        (ap (λ z. z.1.chunks) (sym e))

  row-IsMarked :
      (m : Course) (order : Order) (doc : Document) (s t : Stores c.State o.State) (x : PurgeError)
      → find_document doc.id s.db.documents ≡ some doc
      → purge_row c o m order (some doc) s ≡ (err x, t)
      → (t ≡ s) ⊎ IsMarked c o doc.id s t
  unfolding destroy
  row-IsMarked m order doc s t x row e = elim (Bool-cases (status_eq doc.status purged)) [
    | inl q ↦ answered (rw q at e)
    | inr q ↦ started (Bool-cases m.first_commits) (rw q at e)
  ]
    where
      answered :
          Path (Result PurgeError Document × Stores c.State o.State) (ok doc, s) (err x, t)
          → (t ≡ s) ⊎ IsMarked c o doc.id s t
      answered k = cc

      lost :
          Path
            (Result PurgeError Document × Stores c.State o.State)
            (err PurgeError.commit_failed, s)
            (err x, t)
          → t ≡ s
      lost k = cc

      started :
          ((m.first_commits ≡ true) ⊎ (m.first_commits ≡ false))
          → destroy c o m order doc s ≡ (err x, t)
          → (t ≡ s) ⊎ IsMarked c o doc.id s t
      started (inl q) k = inr (
          chunks-IsMarked m order doc s t x
            (delete_document_chunks c doc.id doc.classification s.chunks) row refl (rw q at k))
      started (inr q) k = inl (lost (rw q at k))

  -- A purge that raises has changed nothing, or has left the row of the document marked as `purging`.
  -- A chunk that is in a collection afterwards was there before, as it is, with the status that it
  -- had.
  pub purge_document-IsMarked :
      (m : Course) (order : Order) (id : Uuid) (s t : Stores c.State o.State) (x : PurgeError)
      → purge_document c o m order id s ≡ (err x, t)
      → (t ≡ s) ⊎ IsMarked c o id s t
  unfolding purge_document
  purge_document-IsMarked m order id s t x e = go (find_document id s.db.documents) refl e
    where
      missing :
          Path
            (Result PurgeError Document × Stores c.State o.State)
            (err PurgeError.document_not_found, s)
            (err x, t)
          → t ≡ s
      missing k = cc

      go :
          (r : Option Document)
          → find_document id s.db.documents ≡ r
          → purge_row c o m order r s ≡ (err x, t)
          → (t ≡ s) ⊎ IsMarked c o id s t
      go none h k = inl (missing k)
      go (some doc) h k =
          let own = find_document-id id s.db.documents doc h in
          subst (λ n. (t ≡ s) ⊎ IsMarked c o n s t) own
            (row-IsMarked m order doc s t x (ap (λ n. find_document n s.db.documents) own ∙ h) k)
