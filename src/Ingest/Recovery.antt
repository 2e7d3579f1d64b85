-- ===== src/Ingest/Recovery.antt =====
-- services/ingestion-api/app/recovery.py: queued documents whose message was not acknowledged are
-- published again.
pub mod Keyed
pub mod Kept
pub mod Drained
use nexus_rag.Base.{
  ℕ, suc, Bool, true, false, not, ◌&&◌, Option, none, some, is_some, List, [], ◌∷◌, ◌++◌, map, take,
  filter, ltb, if◌then◌else◌,
}
use nexus_rag.Base.Sort.{sorted}
use nexus_rag.Document.{Uuid, Time, Document, queued, status_eq}
use nexus_rag.Database.{find_document, put_document}

-- The rows of the documents, and the ids in the messages that the stream has received.
pub record Queue : Type 0 where
  pub documents : List Document
  pub messages : List Uuid

-- How a publication ends: the acknowledgement comes back, it is lost, or the stream has nothing.
pub data Publication : Type 0 where
  acknowledged unacknowledged refused : Publication

-- What the publication of one document meets, the commit of `mark_published` and the clock included.
pub record Try : Type 0 where
  pub publication : Publication
  pub commits : Bool
  pub now : Time

abbrev pub published_row : Time → Document → Document
published_row at doc = record doc { queue_published_at = some at }

abbrev at_or_now : Option Time → Time → Time
at_or_now none now = now
at_or_now (some at) now = at

-- `True` or `False`, and `none` where the commit raises
abbrev mark_found : Bool → Time → List Document → Option Document → Option Bool × List Document
mark_found commits at rows none = (some false, rows)
mark_found commits at rows (some doc) =
    if not (status_eq doc.status queued)
    then (some false, rows)
    else if commits
    then (some true, put_document (published_row at doc) rows)
    else (none, rows)

unfoldable pub mark_published :
    Bool → Uuid → Option Time → Time → List Document → Option Bool × List Document
mark_published commits id published_at now rows =
    mark_found commits (at_or_now published_at now) rows (find_document id rows)

abbrev pub is_unpublished : Document → Bool
is_unpublished doc = status_eq doc.status queued && not (is_some doc.queue_published_at)

abbrev pub created_before : Document → Document → Bool
created_before a b = ltb a.created_at b.created_at

-- `_unpublished_batch`, by its rows
unfoldable pub unpublished_batch : ℕ → List Document → List Document
unpublished_batch limit rows = take limit (sorted created_before (filter is_unpublished rows))

abbrev pub send : Uuid → Queue → Queue
send id q = record q { messages = q.messages ++ id ∷ [] }

-- `publish_ingestion_job` and `mark_published`, and whether neither raises
abbrev pub publish_as : Publication → Bool → Time → Uuid → Queue → Bool × Queue
publish_as refused commits now id q = (false, q)
publish_as unacknowledged commits now id q = (false, send id q)
publish_as acknowledged commits now id q =
    let (marked, rows) = mark_published commits id none now q.documents in
    (is_some marked, record (send id q) { documents = rows })

unfoldable pub publish_document : Try → Uuid → Queue → Bool × Queue
publish_document t id q = publish_as t.publication t.commits t.now id q

-- `published += 1`, or `failed += 1`
abbrev pub counted : Bool → (ℕ × ℕ) × Queue → (ℕ × ℕ) × Queue
counted true ((published, failed), q) = ((suc published, failed), q)
counted false ((published, failed), q) = ((published, suc failed), q)

unfoldable pub publish_batch : (Uuid → Try) → List Uuid → Queue → (ℕ × ℕ) × Queue
unfolding publish_document
publish_batch tries [] q = ((0, 0), q)
publish_batch tries (id ∷ ids) q =
    let (fine, after) = publish_document (tries id) id q in
    counted fine (publish_batch tries ids after)

unfoldable pub reconcile_once : ℕ → (Uuid → Try) → Queue → (ℕ × ℕ) × Queue
unfolding unpublished_batch publish_batch
reconcile_once limit tries q =
    publish_batch tries (map (λ (doc : Document). doc.id) (unpublished_batch limit q.documents)) q

-- Passes of `reconcile_forever`, with nothing else running. A pass that raises, since the batch could
-- not be read, changes nothing and has no place in the list.
unfoldable pub reconcile_passes : ℕ → List (Uuid → Try) → Queue → Queue
unfolding reconcile_once
reconcile_passes limit [] q = q
reconcile_passes limit (tries ∷ passes) q =
    reconcile_passes limit passes (reconcile_once limit tries q).1
