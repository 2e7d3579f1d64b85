-- ===== src/Purge/Destroy/Flagged.antt =====
-- The trigger for the chat plane outlives every curation decision.
use nexus_rag.Base.{
  ◌≡◌, ◌≢◌, refl, sym, ◌∙◌, ap, subst, inl, true, arith, Option, some, List, [], ◌∷◌, ◌++◌, In,
  append-In_right, ok,
}
use nexus_rag.Document.{Uuid, Time, Document, purged}
use nexus_rag.Vector.Client.{Client, ClientLaws}
use nexus_rag.Vector.Store.Sweep.{IsNamespaced}
use nexus_rag.Database.{Database, find_document, AuditLogEntry, Purged, purge_entry}
use nexus_rag.Database.Rows.{find_document-id}
use nexus_rag.Curation.World.{World}
use nexus_rag.Curation.Routes.{Call, run}
use nexus_rag.Curation.Routes.Dated.{run-RowsKept}
use nexus_rag.Purge.Stores.{ObjectStore, ObjectLaws, Stores, Course}
use nexus_rag.Purge.Destroy.{
  Order, purge_document, purge_record, chat_plane_action_required, retrievable_since,
}
use nexus_rag.Purge.Destroy.Destroyed.{purge_document-IsDestroyed}

-- The audit log tells operators to sweep for the document from a given time on.
pub record IsFlagged (db : Database) (id : Uuid) (since : Time) : Type 0 where
  pub entry : AuditLogEntry
  pub detail : Purged
  pub logged : In entry db.audit_log
  pub action : entry.action ≡ purge_entry detail
  pub target : entry.target_id ≡ id
  pub required : detail.chat_plane_action_required ≡ true
  pub window : detail.retrievable_since ≡ some since

dated-required :
    (doc : Document) (a : Time)
    → doc.first_approved_at ≡ some a
    → chat_plane_action_required doc ≡ true
unfolding chat_plane_action_required
dated-required doc a e = rw e (ground arith)

dated-since :
    (doc : Document) (a : Time) → doc.first_approved_at ≡ some a → retrievable_since doc ≡ some a
unfolding retrievable_since
dated-since doc a e = rw (dated-required doc a e, e)

module _ (c : Client) (o : ObjectStore) (laws : ClientLaws c) (object_laws : ObjectLaws o) where
  logged-IsFlagged :
      (m : Course) (order : Order) (doc : Document) (id : Uuid) (a : Time)
      (before : List AuditLogEntry) (db : Database)
      → doc.id ≡ id
      → doc.first_approved_at ≡ some a
      → db.audit_log ≡ before ++ purge_record order m.purged_at doc ∷ []
      → IsFlagged db id a
  unfolding purge_record
  logged-IsFlagged m order doc id a before db own dated log = record {
    entry = purge_record order m.purged_at doc;
    detail = _;
    logged =
        subst (λ l. In (purge_record order m.purged_at doc) l) (sym log)
          (append-In_right _ before _ (inl refl));
    action = refl;
    target = own;
    required = dated-required doc a dated;
    window = dated-since doc a dated;
  }

  -- A document whose row has the date of its first approval is flagged in the audit log when it is
  -- purged, from that date on, whatever curation requests came between, if every collection has the
  -- name of a classification's or of the one without a suffix.
  pub run-IsFlagged :
      (calls : List Call) (w : World c.State) (s t : Stores c.State o.State) (m : Course)
      (order : Order) (id : Uuid) (row doc d : Document) (a : Time)
      → find_document id w.db.documents ≡ some row
      → row.first_approved_at ≡ some a
      → s.db ≡ (run c calls w).db
      → find_document id s.db.documents ≡ some doc
      → doc.status ≢ purged
      → IsNamespaced c s.chunks
      → purge_document c o m order id s ≡ (ok d, t)
      → IsFlagged t.db id a
  run-IsFlagged calls w s t m order id row doc d a before dated same found live spaced e =
      let (late, there, keeps) = run-RowsKept c calls w id row before in
      let one : late ≡ doc =
        found_same late
          (sym there ∙ ap (λ (b : Database). find_document id b.documents) (sym same) ∙ found) in
      let (_, done) =
        purge_document-IsDestroyed c o laws object_laws m order id doc d s t found live spaced e in
      logged-IsFlagged m order doc id a s.db.audit_log t.db
        (find_document-id id s.db.documents doc found)
        (ap (λ (x : Document). x.first_approved_at) (sym one) ∙ keeps.date a dated) done.recorded
    where
      found_same : (x : Document) → Path (Option Document) (some x) (some doc) → x ≡ doc
      found_same x q = cc
