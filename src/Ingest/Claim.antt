-- ===== src/Ingest/Claim.antt =====
-- services/ingestion-worker/app/processing.py: the claim of a document by a job.
pub mod Exclusive
use nexus_rag.Base.{
  ℕ, ◌+◌, Bool, true, false, not, ◌&&◌, ◌||◌, Option, none, some, List, leb, ltb, if◌then◌else◌,
}
use nexus_rag.Document.{Uuid, Time, Document, Status, queued, processing, embedded, status_eq}
use nexus_rag.Database.{find_document, put_document}

-- A delivery of a job: which one it is of its message, when, and ACK_WAIT_SECONDS.
pub record Delivery : Type 0 where
  pub attempt : ℕ
  pub now : Time
  pub ack_wait : Time

-- `(doc, False)`, and `(None, True)`
pub data Claimed : Type 0 where
  owned : Document → Claimed
  acknowledged : Claimed

unfoldable pub is_unfinished : Status → Bool
is_unfinished s = status_eq s queued || status_eq s processing || status_eq s embedded

-- `(now - started_at).total_seconds() < ACK_WAIT_SECONDS`, if there is a start
abbrev started_within : Time → Time → Option Time → Bool
started_within now ack_wait none = false
started_within now ack_wait (some started) = ltb now (started + ack_wait)

-- another job has the document and its lease is fresh
unfoldable pub is_leased : Delivery → Document → Bool
is_leased d doc =
    (status_eq doc.status processing || status_eq doc.status embedded)
    && leb d.attempt 1
    && started_within d.now d.ack_wait doc.processing_started_at

abbrev pub processing_row : Time → Document → Document
processing_row now doc = record doc {
  status = processing;
  processing_started_at = some now;
  updated_at = now;
}

abbrev pub claim_row : Delivery → Option Document → List Document → Claimed × List Document
claim_row d none rows = (acknowledged, rows)
claim_row d (some doc) rows =
    if not (is_unfinished doc.status)
    then (acknowledged, rows)
    else if is_leased d doc
    then (acknowledged, rows)
    else (owned (processing_row d.now doc), put_document (processing_row d.now doc) rows)

unfoldable pub claim_document : Delivery → Uuid → List Document → Claimed × List Document
claim_document d id rows = claim_row d (find_document id rows) rows
