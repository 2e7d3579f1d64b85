-- ===== src/Ingest/Messages/Unseen.antt =====
-- No message makes a chunk retrievable: that takes a curator's decision.
use nexus_rag.Base.{
  ℕ, String, ◌≡◌, ◌≢◌, ◌∙◌, sym, inl, inr, true, Option, none, some, List, In, Bool-cases, leb,
}
use nexus_rag.Document.{Uuid, approved, pending_review}
use nexus_rag.Access.Claims.{UserClaims}
use nexus_rag.Access.Payload.{passes}
use nexus_rag.Access.Filter.{build_access_filter}
use nexus_rag.Access.Filter.Visible.{build_access_filter_iff}
use nexus_rag.Vector.Client.{Client, ClientLaws, Point}
use nexus_rag.Curation.World.{World}
use nexus_rag.Ingest.Prepare.{Worker}
use nexus_rag.Ingest.Writes.{Outcome, terminal, transient, escaped}
use nexus_rag.Ingest.Job.{process_document}
use nexus_rag.Ingest.Job.Hidden.{Brings, same, process_document-Brings}
use nexus_rag.Ingest.Messages.{
  Round, delivery, answer, handle_message, mark_undeliverable, max_delivery_attempts,
}

module _ (c : Client) (laws : ClientLaws c) where
  answer-Brings :
      (r : Round) (attempt : ℕ) (id : Uuid) (s : c.State) (o : Outcome × World c.State)
      → Brings c laws s o.1.chunks
      → Brings c laws s (answer c r attempt id o).1.chunks
  unfolding mark_undeliverable
  answer-Brings r attempt id s (terminal, t) h = h
  answer-Brings r attempt id s (escaped, t) h = h
  answer-Brings r attempt id s (transient, t) h =
      elim (Bool-cases (leb max_delivery_attempts attempt)) [
        | inr q ↦ rw q h
        | inl q ↦ elim (Bool-cases r.mark_commits) [ inl k ↦ rw (q, k) h | inr k ↦ rw (q, k) h ]
      ]

  handle_message-Brings :
      (w : Worker) (r : Round) (attempt : ℕ) (id : Option Uuid) (s : World c.State)
      → Brings c laws s.chunks (handle_message c w r attempt id s).1.chunks
  unfolding handle_message
  handle_message-Brings w r attempt none s = same c laws s.chunks
  handle_message-Brings w r attempt (some id) s =
      answer-Brings r attempt id s.chunks
        (process_document c w r.timeline (delivery r attempt) id s)
        (process_document-Brings c laws w r.timeline (delivery r attempt) id s)

  -- Whatever message the worker handles and whatever fails in it, a chunk that a reader's filter
  -- passes afterwards was in the same collection before, as it is.
  pub handle_message-In :
      (w : Worker) (r : Round) (attempt : ℕ) (id : Option Uuid) (s : World c.State)
      (claims : UserClaims) (allowed : List String) (n : String) (p : Point)
      → In p (c.points (handle_message c w r attempt id s).1.chunks n)
      → passes (build_access_filter claims allowed) p.payload ≡ true
      → In p (c.points s.chunks n)
  handle_message-In w r attempt id s claims allowed n p i seen =
      elim (handle_message-Brings w r attempt id s n p i) [
        | inl old ↦ old
        | inr new ↦
            let shown = ((build_access_filter_iff claims allowed p.payload).0 seen).is_approved in
            absurd (distinct (sym new ∙ shown))
      ]
    where
      distinct : pending_review ≢ approved
      distinct q = cc
