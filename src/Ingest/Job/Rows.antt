-- ===== src/Ingest/Job/Rows.antt =====
-- What a change of one row leaves in the table.
use nexus_rag.Base.{◌≡◌, ◌∙◌, ap, subst, some, List}
use nexus_rag.Document.{Uuid, Document}
use nexus_rag.Database.{Database, find_document, put_document, AuditLogEntry}
use nexus_rag.Database.Rows.{find_document-id, find_document-put_document}
use nexus_rag.Ingest.Writes.{change_row}

module _ (f : Document → Document) (entries : Document → List AuditLogEntry)
    (keeps : (row : Document) → (f row).id ≡ row.id) where
  pub change_row-found :
      (id : Uuid) (db : Database) (row : Document)
      → find_document id db.documents ≡ some row
      → find_document id (change_row f entries id db).documents ≡ some (f row)
  change_row-found id db row e =
      let own : (f row).id ≡ id = keeps row ∙ find_document-id id db.documents row e in
      rw e (
        subst (λ n. find_document n (put_document (f row) db.documents) ≡ some (f row)) own
          (find_document-put_document (f row) row db.documents
            (ap (λ n. find_document n db.documents) own ∙ e)))
