-- ===== src/Purge/Destroy/Destroyed.antt =====
-- A purge that is answered has destroyed every copy, and one that raises has exposed nothing.
use nexus_rag.Base.{
  String, ◌↔◌, ◌≡◌, ◌≢◌, refl, sym, ◌∙◌, ap, subst, inl, inr, ◌⊎◌, true, false, Option, none, some,
  is_truthy, [], ◌∷◌, ◌++◌, In, Result, ok, err, Bool-cases,
}
use nexus_rag.Document.{Uuid, Document, purged, status_eq, status_eq→eq}
use nexus_rag.Vector.Exec.{StoreError}
use nexus_rag.Vector.Client.{Client, ClientLaws, Point}
use nexus_rag.Vector.Store.{delete_document_chunks}
use nexus_rag.Vector.Store.Sweep.{IsNamespaced, delete_document_chunks_effect}
use nexus_rag.Database.{Database, find_document, put_document, save_document, add_entry}
use nexus_rag.Database.Rows.{find_document-id, find_document-put_document}
use nexus_rag.Purge.Stores.{
  ObjectStore, ObjectLaws, DeleteError, file_not_found, other_failure, Stores, PurgeError, Course,
}
use nexus_rag.Purge.Destroy.{
  Order, purging_row, tombstone, purge_record, bury, original_deleted, delete_original,
  chunks_deleted, destroy, purge_row, purge_document,
}

module _ (c : Client) (o : ObjectStore) where
  abbrev pub State : Type 0
  State = Stores c.State o.State

  -- What a purge of the document leaves: its tombstone, none of its chunks, every other chunk, not
  -- the original, and one entry in the audit log.
  pub record IsDestroyed (m : Course) (order : Order) (doc : Document) (s t : State) : Type 0 where
    pub row : find_document doc.id t.db.documents ≡ some (tombstone m.purged_at doc)
    pub chunks :
        (n : String) (p : Point)
        → In p (c.points t.chunks n)
          ↔ (In p (c.points s.chunks n) × (p.payload.document_id ≢ doc.id))
    pub original :
        (key : String)
        → doc.original_object_key ≡ some key
        → is_truthy key ≡ true
        → o.holds t.objects key ≡ false
    pub recorded : t.db.audit_log ≡ s.db.audit_log ++ purge_record order m.purged_at doc ∷ []

  -- the last commit
  abbrev buried : Course → Order → Document → Database → Database
  buried m order doc db =
      add_entry (purge_record order m.purged_at doc) (save_document (tombstone m.purged_at doc) db)

  bury-ok :
      (m : Course) (order : Order) (doc d : Document) (w t : State)
      → bury c o m order doc w ≡ (ok d, t)
      → (d ≡ tombstone m.purged_at doc)
        × (t.db ≡ buried m order doc w.db)
        × (t.chunks ≡ w.chunks)
        × (t.objects ≡ w.objects)
  bury-ok m order doc d w t e = elim (Bool-cases m.last_commits) [
    | inl q ↦ landed (rw q at e)
    | inr q ↦ absurd (lost (rw q at e))
  ]
    where
      landed :
          Path
            (Result PurgeError Document × State)
            (ok (tombstone m.purged_at doc), record w { db = buried m order doc w.db })
            (ok d, t)
          → (d ≡ tombstone m.purged_at doc)
            × (t.db ≡ buried m order doc w.db)
            × (t.chunks ≡ w.chunks)
            × (t.objects ≡ w.objects)
      landed k = (cc, cc, cc, cc)

      lost :
          Path (Result PurgeError Document × State) (err PurgeError.commit_failed, w) (ok d, t) → ⊥
      lost k = cc

module _ (c : Client) (o : ObjectStore) (laws : ObjectLaws o) where
  -- What the third step hands to the last one.
  abbrev Handed :
      Course → Order → Document → Document → Option String → State c o → State c o → Type 0
  Handed m order doc d key w t =
      (x : State c o) × (x.db ≡ w.db)
      × (x.chunks ≡ w.chunks)
      × ((k : String) → key ≡ some k → is_truthy k ≡ true → o.holds x.objects k ≡ false)
      × (bury c o m order doc x ≡ (ok d, t))

  deleted-Handed :
      (m : Course) (order : Order) (doc d : Document) (key : String) (w t : State c o)
      (r : Result DeleteError (Unit {0}) × o.State)
      → o.delete key w.objects ≡ r
      → original_deleted c o m order doc w r ≡ (ok d, t)
      → Handed m order doc d (some key) w t
  deleted-Handed m order doc d key w t (ok tt, s) h e = (
    record w { objects = s },
    refl,
    refl,
    λ k q z. rw (← some_eq key k q) (laws.deleted key w.objects s h),
    e,
  )
    where
      some_eq : (a b : String) → Path (Option String) (some a) (some b) → a ≡ b
      some_eq a b q = cc
  deleted-Handed m order doc d key w t (err file_not_found, s) h e = (
    record w { objects = s },
    refl,
    refl,
    λ k q z. rw (← some_eq key k q) (laws.not_found key w.objects s h),
    e,
  )
    where
      some_eq : (a b : String) → Path (Option String) (some a) (some b) → a ≡ b
      some_eq a b q = cc
  deleted-Handed m order doc d key w t (err other_failure, s) h e = cc

  delete_original-Handed :
      (m : Course) (order : Order) (doc d : Document) (key : Option String) (w t : State c o)
      → delete_original c o m order doc key w ≡ (ok d, t)
      → Handed m order doc d key w t
  delete_original-Handed m order doc d none w t e = (w, refl, refl, λ k q z. none_some k q, e)
    where
      none_some : (k : String) → Path (Option String) none (some k) → o.holds w.objects k ≡ false
      none_some k q = cc
  delete_original-Handed m order doc d (some key) w t e = elim (Bool-cases (is_truthy key)) [
    | inl q ↦ deleted-Handed m order doc d key w t (o.delete key w.objects) refl (rw q at e)
    | inr q ↦ (w, refl, refl, λ k z y. absurd (clash k z y q), rw q at e)
  ]
    where
      clash :
          (k : String)
          → Path (Option String) (some key) (some k)
          → is_truthy k ≡ true
          → is_truthy key ≡ false
          → ⊥
      clash k z y q = cc

module _ (c : Client) (o : ObjectStore) (laws : ClientLaws c) (object_laws : ObjectLaws o) where
  -- the rows after both commits
  buried_row :
      (m : Course) (order : Order) (doc : Document) (db : Database)
      → find_document doc.id db.documents ≡ some doc
      → find_document doc.id
          (buried c o m order doc (save_document (purging_row m.marked_at doc) db)).documents
        ≡ some (tombstone m.purged_at doc)
  unfolding tombstone
  buried_row m order doc db row =
      find_document-put_document (tombstone m.purged_at doc) (purging_row m.marked_at doc)
        (put_document (purging_row m.marked_at doc) db.documents)
        (find_document-put_document (purging_row m.marked_at doc) doc db.documents row)

  chunks_deleted-IsDestroyed :
      (m : Course) (order : Order) (doc d : Document) (s t : State c o)
      (r : Result StoreError (Unit {0}) × c.State)
      → find_document doc.id s.db.documents ≡ some doc
      → IsNamespaced c s.chunks
      → delete_document_chunks c doc.id doc.classification s.chunks ≡ r
      → chunks_deleted c o m order doc
          (record s { db = save_document (purging_row m.marked_at doc) s.db })
          r
        ≡ (ok d, t)
      → (d ≡ tombstone m.purged_at doc) × IsDestroyed c o m order doc s t
  chunks_deleted-IsDestroyed m order doc d s t (err x, u) row spaced h e = cc
  chunks_deleted-IsDestroyed m order doc d s t (ok tt, u) row spaced h e =
      let (x, rows, same, original, last) =
        delete_original-Handed c o object_laws m order doc d doc.original_object_key
          (record s { db = save_document (purging_row m.marked_at doc) s.db; chunks = u }) t e in
      let (answer, db, chunks, objects) = bury-ok c o m order doc d x t last in
      let all_db : t.db
          ≡ buried c o m order doc (save_document (purging_row m.marked_at doc) s.db) =
        db ∙ ap (buried c o m order doc) rows in
      (
        answer,
        record {
          row =
              ap (λ (b : Database). find_document doc.id b.documents) all_db
              ∙ buried_row m order doc s.db row;
          chunks = λ n p.
              subst
                (λ v.
                  In p (c.points v n)
                  ↔ (In p (c.points s.chunks n) × (p.payload.document_id ≢ doc.id)))
                (sym (chunks ∙ same))
                (delete_document_chunks_effect c laws s.chunks u doc.id doc.classification spaced h
                  n p);
          original = λ k q z. ap (λ v. o.holds v k) objects ∙ original k q z;
          recorded = ap (λ (b : Database). b.audit_log) all_db;
        },
      )

  row-IsDestroyed :
      (m : Course) (order : Order) (doc d : Document) (s t : State c o)
      → find_document doc.id s.db.documents ≡ some doc
      → doc.status ≢ purged
      → IsNamespaced c s.chunks
      → purge_row c o m order (some doc) s ≡ (ok d, t)
      → (d ≡ tombstone m.purged_at doc) × IsDestroyed c o m order doc s t
  unfolding destroy
  row-IsDestroyed m order doc d s t row live spaced e =
      elim (Bool-cases (status_eq doc.status purged)) [
        | inl q ↦ absurd (live (status_eq→eq doc.status purged q))
        | inr q ↦ started (Bool-cases m.first_commits) (rw q at e)
      ]
    where
      Answer : Type 0
      Answer = (d ≡ tombstone m.purged_at doc) × IsDestroyed c o m order doc s t

      lost :
          Path (Result PurgeError Document × State c o) (err PurgeError.commit_failed, s) (ok d, t)
          → Answer
      lost k = cc

      started :
          ((m.first_commits ≡ true) ⊎ (m.first_commits ≡ false))
          → destroy c o m order doc s ≡ (ok d, t)
          → Answer
      started (inl q) k =
          chunks_deleted-IsDestroyed m order doc d s t
            (delete_document_chunks c doc.id doc.classification s.chunks) row spaced refl
            (rw q at k)
      started (inr q) k = lost (rw q at k)

  -- When the purge of a document that was not yet purged answers, the row is its tombstone, no
  -- collection holds a chunk of it, every other chunk is where it was, its original is not held, and
  -- the audit log has one more entry, if every collection has the name of a classification's or of
  -- the one without a suffix.
  pub purge_document-IsDestroyed :
      (m : Course) (order : Order) (id : Uuid) (doc d : Document) (s t : State c o)
      → find_document id s.db.documents ≡ some doc
      → doc.status ≢ purged
      → IsNamespaced c s.chunks
      → purge_document c o m order id s ≡ (ok d, t)
      → (d ≡ tombstone m.purged_at doc) × IsDestroyed c o m order doc s t
  unfolding purge_document
  purge_document-IsDestroyed m order id doc d s t row live spaced e =
      row-IsDestroyed m order doc d s t
        (ap (λ n. find_document n s.db.documents) (find_document-id id s.db.documents doc row)
          ∙ row)
        live spaced (rw row at e)
