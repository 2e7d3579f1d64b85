-- ===== src/Ingest/Job.antt =====
-- services/ingestion-worker/app/processing.py: `_process_document`, what it writes and how it ends.
pub mod Rows
pub mod Stored
pub mod Replaced
pub mod Settled
pub mod Hidden
use nexus_rag.Base.{
  ℕ, String, Bool, true, false, Option, none, some, List, [], ◌∷◌, ◌++◌, length, if◌then◌else◌,
  Result, ok, err,
}
use Prim.Native.String.{◌++◌ as ◌+++◌}
use nexus_rag.Document.{Uuid, Time, Document, queued, embedded, pending_review, failed}
use nexus_rag.Vector.Exec.{StoreError, Exec, pure, ◌>>=◌, ◌>>◌}
use nexus_rag.Vector.Client.{Client, Point}
use nexus_rag.Vector.Store.{ensure_collection}
use nexus_rag.Vector.Upsert.{upsert_chunks}
use nexus_rag.Database.{
  Database, find_document, save_document, add_entries, AuditLogEntry, embedded_entry, failed_entry,
}
use nexus_rag.Curation.World.{World}
use nexus_rag.Ingest.Claim.{Delivery, Claimed, owned, acknowledged, claim_document}
use nexus_rag.Ingest.Prepare.{
  Raised, purged_marker, file_not_found, content_integrity_error, parsing_error, embedding_error,
  timeout_error, other, Worker, Prepared, prepare, document_points,
}
use nexus_rag.Ingest.Writes.{
  Outcome, Timeline, change_found, change_row, embedded_row, escaped, failed_row, failure_detail,
  failure_entry, failure_text, first_size, job_entry, released_row, review_row, terminal, transient,
}

module _ (c : Client) where
  -- the last handler: the session is rolled back, and the claim released in a commit of its own
  unfoldable pub release : Timeline → Uuid → World c.State → Outcome × World c.State
  release t id s = (
    transient,
    (if t.release_commits
        then record s { db = change_row (released_row t.released_at) (λ row. []) id s.db }
        else s),
  )

  -- the handlers of the permanent failures; what was pending in the session is committed with them
  abbrev pub fail :
      Timeline
      → Uuid
      → List AuditLogEntry
      → Raised
      → Option String
      → World c.State
      → Outcome × World c.State
  fail t id pending e none s = release t id s
  fail t id pending e (some message) s =
      if t.failed_commits
      then (
        terminal,
        record s {
          db =
              change_row (failed_row t.failed_at message)
                (λ row. pending ++ failure_entry (failure_detail e message) t.failed_at row ∷ []) id
                s.db;
        },
      )
      else (escaped, s)

  -- the two commits after the chunks are written
  unfoldable pub finish :
      Timeline → Uuid → ℕ → List AuditLogEntry → World c.State → Outcome × World c.State
  unfolding release
  finish t id n pending s =
      let s' : World c.State = record s {
        db = change_row (embedded_row n) (λ row. pending) id s.db;
      } in
      if t.embedded_commits
      then if t.final_commits
        then (
          terminal,
          record s' {
            db =
                change_row (review_row t.finished_at) (λ row. job_entry row t.finished_at ∷ []) id
                  s'.db;
          },
        )
        else release t id s'
      else release t id s

  -- `store.ensure_ready` and `store.upsert`
  unfoldable pub store_points : String → ℕ → List Point → Exec c.State (Unit {0})
  unfolding ensure_collection upsert_chunks
  store_points classification size points = do
    ensure_collection c size classification
    upsert_chunks c points

  -- A cancellation finds no handler: what is pending in the session is lost with it.
  abbrev pub stored :
      Worker
      → Timeline
      → Document
      → List AuditLogEntry
      → Prepared
      → World c.State
      → Result StoreError (Unit {0}) × c.State
      → Outcome × World c.State
  stored w t doc pending p s (err e, u) =
      if t.stopped_storing
      then (escaped, record s { chunks = u })
      else release t doc.id (record s { chunks = u })
  stored w t doc pending p s (ok tt, u) =
      if t.stopped_storing
      then (escaped, record s { chunks = u })
      else finish t doc.id (length p.chunks)
          (pending ++ w.late_advisories doc p.sections p.dense_vectors) (record s { chunks = u })

  abbrev pub write_points :
      Worker
      → Timeline
      → Document
      → List AuditLogEntry
      → Prepared
      → Result Raised (List Point)
      → World c.State
      → Outcome × World c.State
  write_points w t doc pending p (err e) s = fail t doc.id pending e (failure_text e) s
  write_points w t doc pending p (ok points) s =
      stored w t doc pending p s
        (store_points doc.classification (first_size p.dense_vectors) points s.chunks)

  abbrev pub write_prepared :
      Worker
      → Timeline
      → Document
      → List AuditLogEntry × Result Raised Prepared
      → World c.State
      → Outcome × World c.State
  write_prepared w t doc (pending, err e) s = fail t doc.id pending e (failure_text e) s
  write_prepared w t doc (pending, ok p) s =
      write_points w t doc pending p
        (document_points w t.embedded_at doc p.chunks p.dense_vectors p.sparse_vectors) s

  -- What follows the claim: `doc` is the row as it was read then, and `s` the stores as they are
  -- when the job writes.
  unfoldable pub job : Worker → Timeline → Document → World c.State → Outcome × World c.State
  job w t doc s =
      if t.stopped_preparing then (escaped, s) else write_prepared w t doc (prepare w doc) s

  abbrev pub claimed_job :
      Worker → Timeline → World c.State → Claimed × List Document → Outcome × World c.State
  claimed_job w t s (acknowledged, rows) = (terminal, s)
  claimed_job w t s (owned doc, rows) =
      if t.claim_commits
      then job w t doc (record s { db = record s.db { documents = rows } })
      else (escaped, s)

  -- `process_document`, with nothing else running
  unfoldable pub process_document :
      Worker → Timeline → Delivery → Uuid → World c.State → Outcome × World c.State
  process_document w t d id s = claimed_job w t s (claim_document d id s.db.documents)
