-- ===== src/Ingest/Job/Stored.antt =====
-- What is in the store and in the row after a job that succeeds.
use nexus_rag.Base.{
  ℕ, String, ◌≡◌, ◌≢◌, refl, sym, ◌∙◌, ap, Bool, true, false, Option, none, some, List, [], ◌∷◌,
  ◌++◌, length, Result, ok, err, if◌then◌else◌,
}
use nexus_rag.Document.{Uuid, Document, pending_review}
use nexus_rag.Vector.Exec.{StoreError, Returns}
use nexus_rag.Vector.Client.{Client, Point}
use nexus_rag.Database.{find_document, AuditLogEntry}
use nexus_rag.Curation.World.{World}
use nexus_rag.Ingest.Prepare.{Raised, Worker, Prepared, prepare, document_points}
use nexus_rag.Ingest.Writes.{
  Timeline, Outcome, terminal, transient, escaped, change_row, embedded_row, review_row, failed_row,
  first_size, failure_text, failure_detail, failure_entry, job_entry,
}
use nexus_rag.Ingest.Job.{
  release, fail, finish, stored, store_points, write_points, write_prepared, job,
}
use nexus_rag.Ingest.Job.Settled.{Row}
use nexus_rag.Ingest.Job.Rows.{change_row-found}

module _ (c : Client) where
  -- The points of the document that were made, the state that writing them returned with, and the
  -- row that was committed over `row`.
  pub record IsEmbedded (w : Worker) (t : Timeline) (doc row : Document) (s s' : World c.State)
      : Type 0 where
    pub pending : List AuditLogEntry
    pub made : Prepared
    pub points : List Point
    pub prepared : prepare w doc ≡ (pending, ok made)
    pub pointed :
        document_points w t.embedded_at doc made.chunks made.dense_vectors made.sparse_vectors
        ≡ ok points
    pub written :
        Returns
          (store_points c doc.classification (first_size made.dense_vectors) points)
          s.chunks
          tt
          s'.chunks
    pub committed :
        find_document doc.id s'.db.documents
        ≡ some (review_row t.finished_at (embedded_row (length made.chunks) row))

  -- The job is acknowledged, and left the row in review.
  abbrev pub InReview : Uuid → Outcome × World c.State → Type 0
  InReview id (terminal, s) = Row (λ row. row.status ≡ pending_review) id s.db
  InReview id (transient, s) = ⊥
  InReview id (escaped, s) = ⊥

  release-InReview :
      (t : Timeline) (id : Uuid) (s : World c.State) → ¬ InReview id (release c t id s)
  unfolding release
  release-InReview t id s h = h

  -- A failed row is not in review.
  fail-InReview :
      (t : Timeline) (id : Uuid) (pending : List AuditLogEntry) (e : Raised) (text : Option String)
      (s : World c.State) (row : Document)
      → find_document id s.db.documents ≡ some row
      → ¬ InReview id (fail c t id pending e text s)
  fail-InReview t id pending e none s row h = release-InReview t id s
  fail-InReview t id pending e (some m) s row h = committed t.failed_commits
    where
      entries : Document → List AuditLogEntry
      entries x = pending ++ failure_entry (failure_detail e m) t.failed_at x ∷ []

      s' : World c.State
      s' = record s { db = change_row (failed_row t.failed_at m) entries id s.db }

      wrong :
          {b : Document}
          → Path (Option Document) (some (failed_row t.failed_at m row)) (some b)
          → b.status ≢ pending_review
      wrong k x = cc

      committed : (b : Bool) → ¬ InReview id (if b then (terminal, s') else (escaped, s))
      committed true (after, found, status) =
          wrong
            (sym (change_row-found (failed_row t.failed_at m) entries (λ x. refl) id s.db row h)
              ∙ found)
            status
      committed false x = x

  -- Both commits landed.
  finish-InReview :
      (t : Timeline) (id : Uuid) (n : ℕ) (pending : List AuditLogEntry) (s : World c.State)
      (row : Document)
      → find_document id s.db.documents ≡ some row
      → InReview id (finish c t id n pending s)
      → ((finish c t id n pending s).1.chunks ≡ s.chunks)
        × (find_document id (finish c t id n pending s).1.db.documents
            ≡ some (review_row t.finished_at (embedded_row n row)))
  unfolding finish
  finish-InReview t id n pending s row h = committed t.embedded_commits t.final_commits
    where
      s' : World c.State
      s' = record s { db = change_row (embedded_row n) (λ x. pending) id s.db }

      done : Outcome × World c.State
      done = (
        terminal,
        record s' {
          db = change_row (review_row t.finished_at) (λ x. job_entry x t.finished_at ∷ []) id s'.db;
        },
      )

      out : Bool → Bool → Outcome × World c.State
      out a b = if a then if b then done else release c t id s' else release c t id s

      committed :
          (a b : Bool)
          → InReview id (out a b)
          → ((out a b).1.chunks ≡ s.chunks)
            × (find_document id (out a b).1.db.documents
                ≡ some (review_row t.finished_at (embedded_row n row)))
      committed true true r = (
        refl,
        change_row-found (review_row t.finished_at) (λ x. job_entry x t.finished_at ∷ [])
            (λ x. refl) id s'.db (embedded_row n row)
            (change_row-found (embedded_row n) (λ x. pending) (λ x. refl) id s.db row h),
      )
      committed true false r = absurd (release-InReview t id s' r)
      committed false true r = absurd (release-InReview t id s r)
      committed false false r = absurd (release-InReview t id s r)

  module _ (w : Worker) (t : Timeline) (doc row : Document) (s : World c.State)
      (here : find_document doc.id s.db.documents ≡ some row) where
    stored-InReview :
        (pending : List AuditLogEntry) (p : Prepared) (points : List Point)
        (r : Result StoreError (Unit {0}) × c.State)
        → prepare w doc ≡ (pending, ok p)
        → document_points w t.embedded_at doc p.chunks p.dense_vectors p.sparse_vectors ≡ ok points
        → store_points c doc.classification (first_size p.dense_vectors) points s.chunks ≡ r
        → InReview doc.id (stored c w t doc pending p s r)
        → IsEmbedded w t doc row s (stored c w t doc pending p s r).1
    stored-InReview pending p points (ok tt, u) made pointed wrote h = finished t.stopped_storing h
      where
        done : Outcome × World c.State
        done =
            finish c t doc.id (length p.chunks)
              (pending ++ w.late_advisories doc p.sections p.dense_vectors)
              (record s { chunks = u })

        out : Bool → Outcome × World c.State
        out b = if b then (escaped, record s { chunks = u }) else done

        finished : (b : Bool) → InReview doc.id (out b) → IsEmbedded w t doc row s (out b).1
        finished true k = absurd k
        finished false k =
            let (chunks, found) =
              finish-InReview t doc.id (length p.chunks)
                (pending ++ w.late_advisories doc p.sections p.dense_vectors)
                (record s { chunks = u }) row here k in
            record {
              pending = pending;
              made = p;
              points = points;
              prepared = made;
              pointed = pointed;
              written = wrote ∙ ap (λ (v : c.State). (ok tt, v)) (sym chunks);
              committed = found;
            }
    stored-InReview pending p points (err e, u) made pointed wrote h =
        absurd (released t.stopped_storing h)
      where
        s' : World c.State
        s' = record s { chunks = u }

        released :
            (b : Bool) → ¬ InReview doc.id (if b then (escaped, s') else release c t doc.id s')
        released true k = k
        released false k = release-InReview t doc.id s' k

    points-InReview :
        (pending : List AuditLogEntry) (p : Prepared) (r : Result Raised (List Point))
        → prepare w doc ≡ (pending, ok p)
        → document_points w t.embedded_at doc p.chunks p.dense_vectors p.sparse_vectors ≡ r
        → InReview doc.id (write_points c w t doc pending p r s)
        → IsEmbedded w t doc row s (write_points c w t doc pending p r s).1
    points-InReview pending p (err e) made pointed h =
        absurd (fail-InReview t doc.id pending e (failure_text e) s row here h)
    points-InReview pending p (ok points) made pointed h =
        stored-InReview pending p points
          (store_points c doc.classification (first_size p.dense_vectors) points s.chunks) made
          pointed refl h

    prepared-InReview :
        (r : List AuditLogEntry × Result Raised Prepared)
        → prepare w doc ≡ r
        → InReview doc.id (write_prepared c w t doc r s)
        → IsEmbedded w t doc row s (write_prepared c w t doc r s).1
    prepared-InReview (pending, err e) made h =
        absurd (fail-InReview t doc.id pending e (failure_text e) s row here h)
    prepared-InReview (pending, ok p) made h =
        points-InReview pending p
          (document_points w t.embedded_at doc p.chunks p.dense_vectors p.sparse_vectors) made refl
          h

    pub job-IsEmbedded :
        InReview doc.id (job c w t doc s) → IsEmbedded w t doc row s (job c w t doc s).1
    unfolding job
    job-IsEmbedded h = begun t.stopped_preparing h
      where
        out : Bool → Outcome × World c.State
        out b = if b then (escaped, s) else write_prepared c w t doc (prepare w doc) s

        begun : (b : Bool) → InReview doc.id (out b) → IsEmbedded w t doc row s (out b).1
        begun true k = absurd k
        begun false k = prepared-InReview (prepare w doc) refl k
