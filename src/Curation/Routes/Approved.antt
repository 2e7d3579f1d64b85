-- ===== src/Curation/Routes/Approved.antt =====
-- The rows that an approval writes keep the date of the first approval.
use nexus_rag.Base.{◌≡◌, ◌≢◌, refl, sym, ◌∙◌, ap, Option, some, none, List}
use nexus_rag.Document.{Uuid, Time, Document, pending_review, approved}
use nexus_rag.Access.Claims.{UserClaims}
use nexus_rag.Database.{Database, find_document, put_document, Corrections}
use nexus_rag.Database.Rows.{find_document-id, find_document-put_other}
use nexus_rag.Curation.Changes.{approved_row, approve_rows, superseded_old}
use nexus_rag.Curation.Decide.Checks.{correct_by, IsReplaceable, IsApprovable}
use nexus_rag.Curation.Routes.History.{
  Keeps, RowsKept, RowsKept-trans, put_document-RowsKept, approved_row-Keeps, superseded_old-Keeps,
}

correct_by-id :
    (k : Option Corrections) (d : Document)
    → ((correct_by k d).id ≡ d.id) × ((correct_by k d).first_approved_at ≡ d.first_approved_at)
correct_by-id none d = (refl, refl)
correct_by-id (some k) d = (refl, refl)

-- a row of another status has another id
other_id :
    (rows : List Document) (a b : Document)
    → find_document a.id rows ≡ some a
    → find_document b.id rows ≡ some b
    → a.status ≡ pending_review
    → b.status ≡ approved
    → a.id ≢ b.id
other_id rows a b x y p q e = differ (same (sym x ∙ ap (λ n. find_document n rows) e ∙ y))
  where
    same : Path (Option Document) (some a) (some b) → a ≡ b
    same k = cc

    differ : a ≡ b → ⊥
    differ k = kinds (sym p ∙ ap (λ (d : Document). d.status) k ∙ q)
      where
        kinds : pending_review ≡ approved → ⊥
        kinds z = cc

pub approve_rows-RowsKept :
    (db : Database) (user : UserClaims) (id : Uuid) (now : Time) (k : Option Corrections)
    (found doc : Document) (old_doc : Option Document)
    → IsApprovable db user id k found doc old_doc
    → RowsKept db.documents
        (approve_rows user now k old_doc (approved_row user now doc) db).documents
unfolding approve_rows approved_row
approve_rows-RowsKept db user id now k found doc old_doc h = go old_doc h.replaces
  where
    facts : (doc.id ≡ found.id) × (doc.first_approved_at ≡ found.first_approved_at)
    facts = rw h.corrected (correct_by-id k found)

    there : find_document doc.id db.documents ≡ some found
    there =
        ap (λ n. find_document n db.documents)
          (facts.0 ∙ find_document-id id db.documents found h.row)
        ∙ h.row

    found_there : find_document found.id db.documents ≡ some found
    found_there = ap (λ n. find_document n db.documents) (sym facts.0) ∙ there

    keeps : Keeps found (approved_row user now doc)
    keeps = approved_row-Keeps user now found doc facts.0 facts.1

    go :
        (o : Option Document)
        → IsReplaceable db user doc.supersedes_document_id o
        → RowsKept db.documents (approve_rows user now k o (approved_row user now doc) db).documents
    go none r = put_document-RowsKept db.documents found (approved_row user now doc) there keeps
    go (some o) (_, row, status, _) =
        let apart : doc.id ≢ o.id =
          λ e. other_id db.documents found o found_there row h.pending status (sym facts.0 ∙ e) in
        RowsKept-trans db.documents (put_document (superseded_old now o) db.documents) _
          (put_document-RowsKept db.documents o (superseded_old now o) row
            (superseded_old-Keeps now o status))
          (put_document-RowsKept (put_document (superseded_old now o) db.documents) found
            (approved_row user now doc)
            (find_document-put_other (superseded_old now o) doc.id db.documents apart ∙ there)
            keeps)
