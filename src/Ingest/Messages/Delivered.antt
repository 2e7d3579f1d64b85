-- ===== src/Ingest/Messages/Delivered.antt =====
-- No document is stranded: its message comes to an end within the deliveries that it has.
use nexus_rag.Base.{
  ℕ, ◌+◌, ◌≤◌, ◌<◌, ◌≡◌, refl, sym, ◌∙◌, ap, subst, arith, ◌⊎◌, inl, inr, true, false, Option, some,
  List, [], ◌∷◌, Bool, ◌&&◌, length, leb, cases-if,
}
use nexus_rag.Document.{Uuid, Document, queued, processing}
use nexus_rag.Vector.Client.{Client}
use nexus_rag.Database.{find_document, put_document}
use nexus_rag.Database.Rows.{find_document-id, find_document-put_document}
use nexus_rag.Curation.World.{World}
use nexus_rag.Ingest.Claim.{
  Claimed, owned, is_unfinished, is_leased, processing_row, claim_document,
}
use nexus_rag.Ingest.Prepare.{Worker}
use nexus_rag.Ingest.Writes.{Timeline, Outcome, terminal, transient, escaped, failed_row}
use nexus_rag.Ingest.Job.{job, claimed_job, process_document}
use nexus_rag.Ingest.Job.Rows.{change_row-found}
use nexus_rag.Ingest.Job.Settled.{Row, IsOver, IsWaiting, IsCut, IsSettled, job-IsSettled}
use nexus_rag.Ingest.Messages.{
  Round, Answer, acked, terminated, naked, unanswered, delivery, undeliverable_text,
  undeliverable_entry, mark_undeliverable, answer, answered, handle_message, handle_deliveries,
  max_delivery_attempts,
}

-- In a last delivery, the worker is not stopped, and the bookkeeping is committed.
pub record Lands (r : Round) : Type 0 where
  pub claims : r.timeline.claim_commits ≡ true
  pub fails : r.timeline.failed_commits ≡ true
  pub marks : r.mark_commits ≡ true
  pub prepares : r.timeline.stopped_preparing ≡ false
  pub stores : r.timeline.stopped_storing ≡ false

-- A delivery has others after it, or lands.
abbrev pub LastLands : ℕ → List Round → Type 0
LastLands attempt [] = Unit {0}
LastLands attempt (r ∷ rs) =
    ((attempt < max_delivery_attempts) ⊎ Lands r) × LastLands (attempt + 1) rs

-- A delivery with this number claims the row, whatever its lease is.
abbrev IsClaimable : ℕ → Document → Type 0
IsClaimable attempt row =
    (is_unfinished row.status ≡ true) × ((row.status ≡ queued) ⊎ (1 < attempt))

claim_document-owned :
    (r : Round) (attempt : ℕ) (id : Uuid) (rows : List Document) (row : Document)
    → find_document id rows ≡ some row
    → IsClaimable attempt row
    → claim_document (delivery r attempt) id rows
      ≡ (owned (processing_row r.now row), put_document (processing_row r.now row) rows)
unfolding claim_document is_leased
claim_document-owned r attempt id rows row h (open_row, k) = rw (h, open_row, unleased k)
  where
    later : 1 < attempt → leb attempt 1 ≡ false
    later late = ground arith

    stale : (a b : Bool) → (a && false && b) ≡ false
    stale true b = refl
    stale false b = refl

    unleased : (row.status ≡ queued) ⊎ (1 < attempt) → is_leased (delivery r attempt) row ≡ false
    unleased (inl q) = rw q refl
    unleased (inr late) = rw (later late) (stale _ _)

module _ (c : Client) where
  -- The document is unfinished, and there are deliveries to come.
  abbrev Again : ℕ → Uuid → World c.State → Type 0
  Again attempt id s =
      (attempt < max_delivery_attempts) × Row (λ row. is_unfinished row.status ≡ true) id s.db

  -- What a message leaves: an end, or an unfinished document and deliveries to come.
  abbrev IsAnswered : ℕ → Uuid → Answer × World c.State → Type 0
  IsAnswered attempt id (acked, s) = Row IsOver id s.db
  IsAnswered attempt id (terminated, s) = Row IsOver id s.db
  IsAnswered attempt id (naked, s) = Again attempt id s
  IsAnswered attempt id (unanswered, s) = Again attempt id s

  mark-IsOver :
      (r : Round) (id : Uuid) (attempts : ℕ) (s : World c.State) (row : Document)
      → r.mark_commits ≡ true
      → find_document id s.db.documents ≡ some row
      → Row IsOver id (mark_undeliverable c r id attempts s).db
  unfolding mark_undeliverable
  mark-IsOver r id attempts s row lands h = rw lands (
    failed_row r.marked_at (undeliverable_text attempts) row,
    change_row-found (failed_row r.marked_at (undeliverable_text attempts))
        (λ x. undeliverable_entry attempts r.marked_at x ∷ []) (λ x. refl) id s.db row h,
    record { over = inr refl; lease_cleared = refl },
  )

  unfinished :
      (t : Timeline) (before row : Document)
      → before.status ≡ processing
      → IsWaiting t before row
      → is_unfinished row.status ≡ true
  unfolding is_unfinished
  unfinished t before row p (inl released) = rw (released.waiting) refl
  unfinished t before row p (inr (_, inl same)) = rw (same, p) refl
  unfinished t before row p (inr (_, inr (n, same))) = rw same refl

  answer-IsAnswered :
      (r : Round) (attempt : ℕ) (id : Uuid) (before : Document) (o : Outcome × World c.State)
      → (attempt < max_delivery_attempts) ⊎ Lands r
      → before.status ≡ processing
      → IsSettled c r.timeline id before o
      → IsAnswered attempt id (answer c r attempt id o)
  unfolding is_unfinished
  answer-IsAnswered r attempt id before (terminal, s) l p h = h
  answer-IsAnswered r attempt id before (escaped, s) (inl below) p (cut, e) =
      (below, (before, e, working))
    where
      working : is_unfinished before.status ≡ true
      working = rw p refl
  answer-IsAnswered r attempt id before (escaped, s) (inr l) p (cut, e) = absurd (whole cut)
    where
      whole : ¬ IsCut r.timeline
      whole (inl q) = cc (l.fails)
      whole (inr (inl q)) = cc (l.prepares)
      whole (inr (inr q)) = cc (l.stores)
  answer-IsAnswered r attempt id before (transient, s) l p (row, e, h) =
      cases-if (IsAnswered attempt id) (leb max_delivery_attempts attempt) _ _
        (λ q. mark-IsOver r id attempt s row (marks q l) e)
        (λ q. (below q, (row, e, unfinished r.timeline before row p h)))
    where
      below : leb max_delivery_attempts attempt ≡ false → attempt < max_delivery_attempts
      below q = ground arith

      marks :
          leb max_delivery_attempts attempt ≡ true
          → (attempt < max_delivery_attempts) ⊎ Lands r
          → r.mark_commits ≡ true
      marks q (inl k) = absurd (ground arith)
      marks q (inr k) = k.marks

  handle-IsAnswered :
      (w : Worker) (r : Round) (attempt : ℕ) (id : Uuid) (s : World c.State) (row : Document)
      → (attempt < max_delivery_attempts) ⊎ Lands r
      → find_document id s.db.documents ≡ some row
      → IsClaimable attempt row
      → IsAnswered attempt id (handle_message c w r attempt (some id) s)
  unfolding handle_message process_document
  handle-IsAnswered w r attempt id s row l h claimable =
      subst Claims (sym (claim_document-owned r attempt id s.db.documents row h claimable)) (
        cases-if (λ (o : Outcome × World c.State). IsAnswered attempt id (answer c r attempt id o))
          r.timeline.claim_commits _ _ (λ _. worked) (λ q. unclaimed q l))
    where
      Claims : Claimed × List Document → Type 0
      Claims x = IsAnswered attempt id (answer c r attempt id (claimed_job c w r.timeline s x))

      mine : Document
      mine = processing_row r.now row

      s' : World c.State
      s' = record s { db = record s.db { documents = put_document mine s.db.documents } }

      own : row.id ≡ id
      own = find_document-id id s.db.documents row h

      here : find_document row.id (put_document mine s.db.documents) ≡ some mine
      here =
          find_document-put_document mine row s.db.documents
            (ap (λ n. find_document n s.db.documents) own ∙ h)

      worked : IsAnswered attempt id (answer c r attempt id (job c w r.timeline mine s'))
      worked = answer-IsAnswered r attempt id mine (job c w r.timeline mine s') l refl (
          subst (λ n. IsSettled c r.timeline n mine (job c w r.timeline mine s')) own
            (job-IsSettled c w r.timeline mine mine s' here))

      unclaimed :
          r.timeline.claim_commits ≡ false
          → (attempt < max_delivery_attempts) ⊎ Lands r
          → Again attempt id s
      unclaimed q (inl below) = (below, (row, h, claimable.0))
      unclaimed q (inr k) = cc (k.claims)

  answered-IsOver :
      (attempt : ℕ) (id : Uuid) (a : Answer × World c.State)
      (again : World c.State → Option (World c.State))
      → IsAnswered attempt id a
      → ((s : World c.State)
          → Again attempt id s
          → (t : World c.State) × (again s ≡ some t) × Row IsOver id t.db)
      → (t : World c.State) × (answered c again a ≡ some t) × Row IsOver id t.db
  answered-IsOver attempt id (acked, s) again h f = (s, refl, h)
  answered-IsOver attempt id (terminated, s) again h f = (s, refl, h)
  answered-IsOver attempt id (naked, s) again h f = f s h
  answered-IsOver attempt id (unanswered, s) again h f = f s h

  claimable-IsOver :
      (w : Worker) (rs : List Round) (attempt : ℕ) (id : Uuid) (s : World c.State) (row : Document)
      → LastLands attempt rs
      → 1 ≤ attempt
      → attempt ≤ max_delivery_attempts
      → max_delivery_attempts < attempt + length rs
      → find_document id s.db.documents ≡ some row
      → IsClaimable attempt row
      → (t : World c.State) × (handle_deliveries c w rs attempt (some id) s ≡ some t)
        × Row IsOver id t.db
  unfolding handle_deliveries
  claimable-IsOver w [] attempt id s row l first now long h k = absurd (omega arith)
  claimable-IsOver w (r ∷ rs) attempt id s row l first now long h k =
      answered-IsOver attempt id (handle_message c w r attempt (some id) s)
        (handle_deliveries c w rs (attempt + 1) (some id))
        (handle-IsAnswered w r attempt id s row l.0 h k)
        (λ s' (below, (row', e, open_row)).
          claimable-IsOver w rs (attempt + 1) id s' row' l.1 (omega arith) (omega arith)
            (omega arith) e (open_row, inr (omega arith)))

  -- The message of a queued document is answered for good within MAX_DELIVERY_ATTEMPTS deliveries,
  -- whatever fails in those before the last and wherever the worker is stopped in them. In the last,
  -- the worker must not be stopped, and the commits of the claim, of a failure and of the last mark
  -- must land. The document is then in review or failed, without a lease.
  pub handle_deliveries-IsOver :
      (w : Worker) (rs : List Round) (attempt : ℕ) (id : Uuid) (s : World c.State) (row : Document)
      → LastLands attempt rs
      → max_delivery_attempts < attempt + length rs
      → 1 ≤ attempt
      → attempt ≤ max_delivery_attempts
      → find_document id s.db.documents ≡ some row
      → row.status ≡ queued
      → (t : World c.State) × (handle_deliveries c w rs attempt (some id) s ≡ some t)
        × Row IsOver id t.db
  unfolding is_unfinished
  handle_deliveries-IsOver w rs attempt id s row l long first now h q =
      claimable-IsOver w rs attempt id s row l first now long h (rw q refl, inl q)
