-- ===== src/Ingest/Job/Settled.antt =====
-- How a job leaves the row of its document.
use nexus_rag.Base.{
  ℕ, String, ◌≡◌, refl, ◌⊎◌, inl, inr, true, false, Option, none, some, List, [], ◌∷◌, ◌++◌, Result,
  ok, err, Bool-cases, cases-if,
}
use nexus_rag.Document.{Uuid, Document, queued, pending_review, failed}
use nexus_rag.Vector.Exec.{StoreError}
use nexus_rag.Vector.Client.{Client, Point}
use nexus_rag.Database.{Database, find_document, AuditLogEntry}
use nexus_rag.Curation.World.{World}
use nexus_rag.Ingest.Prepare.{Raised, Worker, Prepared, prepare, document_points}
use nexus_rag.Ingest.Writes.{
  Timeline, Outcome, terminal, transient, escaped, change_row, embedded_row, review_row, failed_row,
  released_row, first_size, failure_text, failure_detail, failure_entry, job_entry,
}
use nexus_rag.Ingest.Job.{
  release, fail, finish, stored, store_points, write_points, write_prepared, job,
}
use nexus_rag.Ingest.Job.Rows.{change_row-found}

-- A job that is over left the row in review or failed, and without a lease.
pub record IsOver (row : Document) : Type 0 where
  pub over : (row.status ≡ pending_review) ⊎ (row.status ≡ failed)
  pub lease_cleared : row.processing_started_at ≡ none

pub record IsReleased (row : Document) : Type 0 where
  pub waiting : row.status ≡ queued
  pub lease_cleared : row.processing_started_at ≡ none

-- Left for redelivery: released, or as it was or at its checkpoint if the release did not commit.
abbrev pub IsWaiting : Timeline → Document → Document → Type 0
IsWaiting t before row =
    IsReleased row
    ⊎ ((t.release_commits ≡ false) × ((row ≡ before) ⊎ ((n : ℕ) × (row ≡ embedded_row n before))))

-- An exception leaves the job.
abbrev pub IsCut : Timeline → Type 0
IsCut t = (t.failed_commits ≡ false) ⊎ (t.stopped_preparing ≡ true) ⊎ (t.stopped_storing ≡ true)

abbrev pub Row : (Document → Type 0) → Uuid → Database → Type 0
Row P id db = (row : Document) × (find_document id db.documents ≡ some row) × P row

module _ (c : Client) where
  -- What each outcome says of the row, which was `row` when the job began.
  abbrev pub IsSettled : Timeline → Uuid → Document → Outcome × World c.State → Type 0
  IsSettled t id row (terminal, s) = Row IsOver id s.db
  IsSettled t id row (transient, s) = Row (IsWaiting t row) id s.db
  IsSettled t id row (escaped, s) = IsCut t × (find_document id s.db.documents ≡ some row)

  release-IsSettled :
      (t : Timeline) (id : Uuid) (s : World c.State) (before row : Document)
      → find_document id s.db.documents ≡ some row
      → (row ≡ before) ⊎ ((n : ℕ) × (row ≡ embedded_row n before))
      → IsSettled t id before (release c t id s)
  unfolding release
  release-IsSettled t id s before row e k = elim (Bool-cases t.release_commits) [
    | inl q ↦ rw q (
      released_row t.released_at row,
      change_row-found (released_row t.released_at) (λ r. []) (λ r. refl) id s.db row e,
      inl (record { waiting = refl; lease_cleared = refl }),
    )
    | inr q ↦ rw q (row, e, inr (refl, k))
  ]

  fail-IsSettled :
      (t : Timeline) (id : Uuid) (pending : List AuditLogEntry) (e : Raised) (text : Option String)
      (s : World c.State) (row : Document)
      → find_document id s.db.documents ≡ some row
      → IsSettled t id row (fail c t id pending e text s)
  fail-IsSettled t id pending e none s row h = release-IsSettled t id s row row h (inl refl)
  fail-IsSettled t id pending e (some message) s row h = elim (Bool-cases t.failed_commits) [
    | inl q ↦ rw q (
      failed_row t.failed_at message row,
      change_row-found (failed_row t.failed_at message)
          (λ x. pending ++ failure_entry (failure_detail e message) t.failed_at x ∷ []) (λ r. refl)
          id s.db row h,
      record { over = inr refl; lease_cleared = refl },
    )
    | inr q ↦ rw q (inl refl, h)
  ]

  finish-IsSettled :
      (t : Timeline) (id : Uuid) (n : ℕ) (pending : List AuditLogEntry) (s : World c.State)
      (row : Document)
      → find_document id s.db.documents ≡ some row
      → IsSettled t id row (finish c t id n pending s)
  unfolding finish
  finish-IsSettled t id n pending s row h =
      let marked = change_row-found (embedded_row n) (λ r. pending) (λ r. refl) id s.db row h in
      let s' : World c.State = record s {
        db = change_row (embedded_row n) (λ r. pending) id s.db;
      } in
      elim (Bool-cases t.embedded_commits) [
        | inr q ↦ rw q (release-IsSettled t id s row row h (inl refl))
        | inl q ↦ elim (Bool-cases t.final_commits) [
          | inr r ↦
              rw (q, r) (release-IsSettled t id s' row (embedded_row n row) marked (inr (n, refl)))
          | inl r ↦
              rw (q, r)
                (
                  review_row t.finished_at (embedded_row n row),
                  change_row-found (review_row t.finished_at) (λ x. job_entry x t.finished_at ∷ [])
                      (λ x. refl) id s'.db (embedded_row n row) marked,
                  record { over = inl refl; lease_cleared = refl },
                )
        ]
      ]

  points-IsSettled :
      (w : Worker) (t : Timeline) (doc : Document) (pending : List AuditLogEntry) (p : Prepared)
      (s : World c.State) (row : Document) (r : Result StoreError (Unit {0}) × c.State)
      → find_document doc.id s.db.documents ≡ some row
      → IsSettled t doc.id row (stored c w t doc pending p s r)
  points-IsSettled w t doc pending p s row (ok tt, u) h =
      cases-if (IsSettled t doc.id row) t.stopped_storing _ _ (λ q. (inr (inr q), h))
        (λ _. finish-IsSettled t doc.id _ _ (record s { chunks = u }) row h)
  points-IsSettled w t doc pending p s row (err e, u) h =
      cases-if (IsSettled t doc.id row) t.stopped_storing _ _ (λ q. (inr (inr q), h))
        (λ _. release-IsSettled t doc.id (record s { chunks = u }) row row h (inl refl))

  prepared-IsSettled :
      (w : Worker) (t : Timeline) (doc : Document) (r : List AuditLogEntry × Result Raised Prepared)
      (s : World c.State) (row : Document)
      → find_document doc.id s.db.documents ≡ some row
      → IsSettled t doc.id row (write_prepared c w t doc r s)
  prepared-IsSettled w t doc (pending, err e) s row h =
      fail-IsSettled t doc.id pending e (failure_text e) s row h
  prepared-IsSettled w t doc (pending, ok p) s row h =
      written (document_points w t.embedded_at doc p.chunks p.dense_vectors p.sparse_vectors)
    where
      written :
          (r : Result Raised (List Point))
          → IsSettled t doc.id row (write_points c w t doc pending p r s)
      written (ok points) =
          points-IsSettled w t doc pending p s row
            (store_points c doc.classification (first_size p.dense_vectors) points s.chunks) h
      written (err e) = fail-IsSettled t doc.id pending e (failure_text e) s row h

  -- However the body of a job ends, its document's row is there. Where the message is acknowledged,
  -- it is in review or failed, and without a lease. Where the message is left for redelivery, it is
  -- queued without a lease, or, if the release did not commit, as the job found it or at the
  -- checkpoint `embedded`. An exception leaves the job only where the commit of a permanent failure
  -- fails or the worker's task is cancelled, and the row is then as the job found it.
  pub job-IsSettled :
      (w : Worker) (t : Timeline) (doc row : Document) (s : World c.State)
      → find_document doc.id s.db.documents ≡ some row
      → IsSettled t doc.id row (job c w t doc s)
  unfolding job
  job-IsSettled w t doc row s h =
      cases-if (IsSettled t doc.id row) t.stopped_preparing _ _ (λ q. (inr (inl q), h))
        (λ _. prepared-IsSettled w t doc (prepare w doc) s row h)
