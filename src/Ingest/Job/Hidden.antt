-- ===== src/Ingest/Job/Hidden.antt =====
-- However a job ends, what it brought into the store is under review.
use nexus_rag.Base.{
  ℕ, String, ◌≡◌, refl, inl, Bool, true, false, Option, none, some, List, [], ◌∷◌, arith, subst,
  sym, All, Result, ok, err, if◌then◌else◌, cases-if,
}
use nexus_rag.Document.{Uuid, Document, pending_review}
use nexus_rag.Vector.Exec.{StoreError, >>=-keeps}
use nexus_rag.Vector.Client.{Client, ClientLaws, Point}
use nexus_rag.Vector.Store.{ensure_collection}
use nexus_rag.Vector.Upsert.{upsert_chunks}
use nexus_rag.Vector.Upsert.From.{IsFrom, upsert_chunks-IsFrom, ensure_collection-IsFrom}
use nexus_rag.Database.{AuditLogEntry}
use nexus_rag.Curation.World.{World}
use nexus_rag.Ingest.Claim.{Delivery, Claimed, owned, acknowledged, claim_document}
use nexus_rag.Ingest.Prepare.{Raised, Worker, Prepared, prepare, document_points}
use nexus_rag.Ingest.Prepare.Points.{IsUnderReview, document_points-IsUnderReview}
use nexus_rag.Ingest.Writes.{Timeline, Outcome, escaped, first_size, failure_text}
use nexus_rag.Ingest.Job.{
  release, fail, finish, stored, store_points, write_points, write_prepared, job, claimed_job,
  process_document,
}

abbrev IsWaiting : Point → Type 0
IsWaiting p = p.payload.status ≡ pending_review

waiting : (doc : Document) (ps : List Point) → All (IsUnderReview doc) ps → All IsWaiting ps
waiting doc [] h = tt
waiting doc (p ∷ ps) h = (h.0.waiting, waiting doc ps h.1)

module _ (c : Client) (laws : ClientLaws c) where
  open c use {State}

  abbrev pub Brings : State → State → Type 0
  Brings = IsFrom c laws IsWaiting

  pub same : (s : State) → Brings s s
  same s n p i = inl i

  release-chunks :
      (t : Timeline) (id : Uuid) (s : World State) → (release c t id s).1.chunks ≡ s.chunks
  unfolding release
  release-chunks t id s = ground arith

  fail-chunks :
      (t : Timeline) (id : Uuid) (pending : List AuditLogEntry) (e : Raised) (text : Option String)
      (s : World State)
      → (fail c t id pending e text s).1.chunks ≡ s.chunks
  fail-chunks t id pending e none s = release-chunks t id s
  fail-chunks t id pending e (some m) s = ground arith

  finish-chunks :
      (t : Timeline) (id : Uuid) (n : ℕ) (pending : List AuditLogEntry) (s : World State)
      → (finish c t id n pending s).1.chunks ≡ s.chunks
  unfolding finish release
  finish-chunks t id n pending s = ground arith

  store_points-Brings :
      (doc : Document) (size : ℕ) (ps : List Point) (s : State)
      → All (IsUnderReview doc) ps
      → Brings s (store_points c doc.classification size ps s).1
  unfolding store_points
  store_points-Brings doc size ps s h =
      >>=-keeps (Brings s) (ensure_collection c size doc.classification) (λ _. upsert_chunks c ps) s
        (ensure_collection-IsFrom c laws IsWaiting s s size doc.classification (same s))
        (λ name u f. upsert_chunks-IsFrom c laws IsWaiting s u ps (waiting doc ps h) f)

  kept : (s : State) (t : World State) → t.chunks ≡ s → Brings s t.chunks
  kept s t e = subst (λ u. Brings s u) (sym e) (same s)

  stored-Brings :
      (w : Worker) (t : Timeline) (doc : Document) (pending : List AuditLogEntry) (p : Prepared)
      (s : World State) (r : Result StoreError (Unit {0}) × State)
      → (stored c w t doc pending p s r).1.chunks ≡ r.1
  stored-Brings w t doc pending p s (err e, u) =
      cases-if (λ (o : Outcome × World State). o.1.chunks ≡ u) t.stopped_storing _ _ (λ _. refl)
        (λ _. release-chunks t doc.id (record s { chunks = u }))
  stored-Brings w t doc pending p s (ok tt, u) =
      cases-if (λ (o : Outcome × World State). o.1.chunks ≡ u) t.stopped_storing _ _ (λ _. refl)
        (λ _. finish-chunks t doc.id _ _ (record s { chunks = u }))

  prepared-Brings :
      (w : Worker) (t : Timeline) (doc : Document) (r : List AuditLogEntry × Result Raised Prepared)
      (s : World State)
      → Brings s.chunks (write_prepared c w t doc r s).1.chunks
  prepared-Brings w t doc (pending, err e) s =
      kept s.chunks (write_prepared c w t doc (pending, err e) s).1
        (fail-chunks t doc.id pending e (failure_text e) s)
  prepared-Brings w t doc (pending, ok p) s =
      written (document_points w t.embedded_at doc p.chunks p.dense_vectors p.sparse_vectors) refl
    where
      written :
          (r : Result Raised (List Point))
          → document_points w t.embedded_at doc p.chunks p.dense_vectors p.sparse_vectors ≡ r
          → Brings s.chunks (write_points c w t doc pending p r s).1.chunks
      written (err e) q =
          kept s.chunks (write_points c w t doc pending p (err e) s).1
            (fail-chunks t doc.id pending e (failure_text e) s)
      written (ok ps) q =
          subst (λ u. Brings s.chunks u)
            (sym (
              stored-Brings w t doc pending p s
                (store_points c doc.classification (first_size p.dense_vectors) ps s.chunks)))
            (store_points-Brings doc (first_size p.dense_vectors) ps s.chunks (
              document_points-IsUnderReview w t.embedded_at doc p.chunks p.dense_vectors
                p.sparse_vectors ps q))

  -- However the body of a job ends, every point of the store was there or is under review.
  job-Brings :
      (w : Worker) (t : Timeline) (doc : Document) (s : World State)
      → Brings s.chunks (job c w t doc s).1.chunks
  unfolding job
  job-Brings w t doc s =
      cases-if (λ (o : Outcome × World State). Brings s.chunks o.1.chunks) t.stopped_preparing _ _
        (λ _. same s.chunks) (λ _. prepared-Brings w t doc (prepare w doc) s)

  claimed-Brings :
      (w : Worker) (t : Timeline) (s : World State) (r : Claimed × List Document)
      → Brings s.chunks (claimed_job c w t s r).1.chunks
  claimed-Brings w t s (acknowledged, rows) = same s.chunks
  claimed-Brings w t s (owned doc, rows) = begun t.claim_commits
    where
      s' : World State
      s' = record s { db = record s.db { documents = rows } }

      begun : (b : Bool) → Brings s.chunks (if b then job c w t doc s' else (escaped, s)).1.chunks
      begun true = job-Brings w t doc s'
      begun false = same s.chunks

  pub process_document-Brings :
      (w : Worker) (t : Timeline) (d : Delivery) (id : Uuid) (s : World State)
      → Brings s.chunks (process_document c w t d id s).1.chunks
  unfolding process_document
  process_document-Brings w t d id s = claimed-Brings w t s (claim_document d id s.db.documents)
