-- ===== src/Ingest/Writes.antt =====
-- services/ingestion-worker/app/processing.py: the rows and the audit entries that a job writes.
use nexus_rag.Base.{ℕ, String, Bool, Option, none, some, List, [], ◌∷◌, length}
use Prim.Native.String.{◌++◌ as ◌+++◌}
use nexus_rag.Document.{Uuid, Time, Document, queued, embedded, pending_review, failed}
use nexus_rag.Database.{
  Database, find_document, save_document, add_entries, AuditLogEntry, embedded_entry, failed_entry,
}
use nexus_rag.Ingest.Prepare.{
  Raised, purged_marker, file_not_found, content_integrity_error, parsing_error, embedding_error,
  timeout_error, other,
}

-- The clock at each reading, whether each commit lands, and whether the task is cancelled while it
-- waits: before the points are written, and then or after it.
pub record Timeline : Type 0 where
  pub embedded_at : Time
  pub finished_at : Time
  pub failed_at : Time
  pub released_at : Time
  pub claim_commits : Bool
  pub embedded_commits : Bool
  pub final_commits : Bool
  pub failed_commits : Bool
  pub release_commits : Bool
  pub stopped_preparing : Bool
  pub stopped_storing : Bool

-- `True`, `False`, and an exception that leaves `process_document`
pub data Outcome : Type 0 where
  terminal transient escaped : Outcome

-- A flush updates the changed columns of the row as it is then; rows are not deleted.
abbrev pub change_found :
    (Document → Document) → (Document → List AuditLogEntry) → Option Document → Database → Database
change_found f entries none db = db
change_found f entries (some row) db = add_entries (entries (f row)) (save_document (f row) db)

abbrev pub change_row :
    (Document → Document) → (Document → List AuditLogEntry) → Uuid → Database → Database
change_row f entries id db = change_found f entries (find_document id db.documents) db

abbrev pub embedded_row : ℕ → Document → Document
embedded_row n row = record row { status = embedded; chunk_count = n }

abbrev pub review_row : Time → Document → Document
review_row now row = record row {
  status = pending_review;
  processing_started_at = none;
  updated_at = now;
}

abbrev pub failed_row : Time → String → Document → Document
failed_row now message row = record row {
  status = failed;
  processing_started_at = none;
  updated_at = now;
  processing_error = some message;
}

abbrev pub released_row : Time → Document → Document
released_row now row = record row {
  status = queued;
  processing_started_at = none;
  updated_at = now;
}

-- `processing_error` for the failures that are permanent, with PROCESSING_TIMEOUT_SECONDS at its
-- default; `none` for the others.
unfoldable pub failure_text : Raised → Option String
failure_text purged_marker = some "the original was purged and is no longer retrievable"
failure_text file_not_found = some "the uploaded original is no longer retrievable"
failure_text (content_integrity_error expected actual) =
    some
      "content integrity check failed: the object store's bytes no longer match the digest recorded at upload"
failure_text (parsing_error message) = some message
failure_text (embedding_error message) = some message
failure_text timeout_error = some "processing exceeded 240s"
failure_text other = none

-- `detail["error"]`: the message that the row has, or `str(exc)`
unfoldable pub failure_detail : Raised → String → String
failure_detail (content_integrity_error expected actual) message =
    "expected sha256 " +++ expected +++ ", got " +++ actual
failure_detail timeout_error message = ""
failure_detail e message = message

abbrev pub job_entry : Document → Time → AuditLogEntry
job_entry row now = record {
  actor_sub = row.uploader_sub;
  actor_username = row.uploader_username;
  action = embedded_entry row.filename row.chunk_count row.content_sha256;
  target_id = row.id;
  created_at = now;
}

abbrev pub failure_entry : String → Time → Document → AuditLogEntry
failure_entry detail now row = record {
  actor_sub = row.uploader_sub;
  actor_username = row.uploader_username;
  action = failed_entry detail;
  target_id = row.id;
  created_at = now;
}

-- `len(dense_vectors[0])`
abbrev pub first_size : List (List ℕ) → ℕ
first_size [] = 0
first_size (v ∷ vs) = length v
