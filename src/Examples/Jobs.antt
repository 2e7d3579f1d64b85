-- ===== src/Examples/Jobs.antt =====
-- One document through its job: it succeeds, fails for good, and is redelivered.
use nexus_rag.Base.{
  ℕ, ◌+◌, ◌*◌, String, ◌≡◌, inl, inr, refl, arith, Bool, true, false, none, some, [], ◌∷◌, map, In,
  ok,
}
use nexus_rag.Document.{queued, approved}
use nexus_rag.Access.Claims.{releasability}
use nexus_rag.Access.Metadata.{access_scope_values}
use nexus_rag.Access.Filter.{build_access_filter}
use nexus_rag.Access.Payload.{passes}
use nexus_rag.Vector.Names.{classification_collection_name}
use nexus_rag.Vector.Memory.{Memory, memory, unique}
use nexus_rag.Vector.Memory.Laws.{memory_laws}
use nexus_rag.Vector.Store.{ensure_collection}
use nexus_rag.Vector.Upsert.{upsert_chunks, group_points, upsert_groups}
use nexus_rag.Database.{find_document, put_document}
use nexus_rag.Curation.World.{World}
use nexus_rag.Ingest.Claim.{processing_row, claim_document, is_unfinished, is_leased}
use nexus_rag.Ingest.Chunking.{
  Section, Sizes, chunk_sections, chunk_from, section_texts, section_text, prose_texts, number_from,
}
use nexus_rag.Ingest.Words.{collapse_repeated_chars, split}
use nexus_rag.Ingest.Windows.{windows}
use nexus_rag.Ingest.Prepare.{Worker, prepare, document_points}
use nexus_rag.Ingest.Writes.{Timeline, embedded_row, review_row}
use nexus_rag.Ingest.Job.{process_document, job, store_points, finish, release}
use nexus_rag.Ingest.Job.Settled.{Row, IsOver, IsSettled, job-IsSettled}
use nexus_rag.Ingest.Job.Stored.{InReview}
use nexus_rag.Ingest.Job.Replaced.{IsReplaced, job-IsReplaced}
use nexus_rag.Ingest.Messages.{Round, handle_message, handle_deliveries}
use nexus_rag.Ingest.Messages.Delivered.{Lands, handle_deliveries-IsOver}
use nexus_rag.Ingest.Messages.Unseen.{handle_message-In}
use nexus_rag.Examples.Office.{document, database, world}
use nexus_rag.Examples.Access.{alice}
use nexus_rag.Examples.Vector.{cui_name, point}

abbrev section : Section
section = record { text = "a b c d"; heading = none; page_or_slide = some 1; content_type = "text" }

abbrev sizes : Sizes
sizes = record { target_words = 3; overlap = 1; table_max_words = 9 }

abbrev worker : Worker
worker = record {
  get = λ key. ok "bytes";
  sha256 = λ contents. "digest";
  parse_document = λ name contents. ok (section ∷ []);
  advisories = λ doc sections. [];
  captioning_enabled = false;
  caption_images = λ name contents. ok [];
  chunking_wait = ok tt;
  embed_texts = λ texts. ok (map (λ (t : String). 1 ∷ 2 ∷ []) texts);
  embed_sparse = λ texts. ok (map (λ (t : String). 3 ∷ []) texts);
  chunk_id = λ doc i. doc * 1000 + i;
  embedding_identity = some "bge-m3";
  sizes = sizes;
  late_advisories = λ doc sections vectors. [];
}

abbrev timeline : Bool → Timeline
timeline lands = record {
  embedded_at = 2001;
  finished_at = 2002;
  failed_at = 2003;
  released_at = 2004;
  claim_commits = true;
  embedded_commits = lands;
  final_commits = lands;
  failed_commits = true;
  release_commits = true;
  stopped_preparing = false;
  stopped_storing = false;
}

abbrev at_work : World Memory
at_work = record {
  db = record (database queued) { documents = processing_row 2000 (document queued) ∷ [] };
  chunks = record { names = []; stored = λ n. [] };
}

in_review :
    InReview memory 5
      (job memory worker (timeline true) (processing_row 2000 (document queued)) at_work)
unfolding job prepare document_points store_points finish release chunk_sections find_document
    put_document upsert_chunks group_points upsert_groups ensure_collection unique
    classification_collection_name chunk_from section_texts section_text collapse_repeated_chars
    prose_texts windows split number_from
in_review = (review_row 2002 (embedded_row 2 (processing_row 2000 (document queued))), refl, refl)

at_work_found : find_document 5 at_work.db.documents ≡ some (processing_row 2000 (document queued))
unfolding find_document
at_work_found = refl

distinct_ids : (i j : ℕ) → worker.chunk_id 5 i ≡ worker.chunk_id 5 j → i ≡ j
distinct_ids i j e = omega arith

job-IsReplaced_example :
    IsReplaced memory memory_laws worker
      (processing_row 2000 (document queued))
      at_work
      (job memory worker (timeline true) (processing_row 2000 (document queued)) at_work).1
job-IsReplaced_example =
    job-IsReplaced memory memory_laws worker (timeline true) (processing_row 2000 (document queued))
      (processing_row 2000 (document queued)) at_work distinct_ids (omega arith) at_work_found
      in_review

job-IsSettled_example :
    IsSettled memory
      (timeline false)
      5
      (processing_row 2000 (document queued))
      (job memory worker (timeline false) (processing_row 2000 (document queued)) at_work)
job-IsSettled_example =
    job-IsSettled memory worker (timeline false) (processing_row 2000 (document queued))
      (processing_row 2000 (document queued)) at_work at_work_found

abbrev round : Round
round = record { now = 2000; timeline = timeline false; marked_at = 2005; mark_commits = true }

-- the worker is stopped while it stores the points
abbrev stopped_round : Round
stopped_round = record round { timeline = record (timeline true) { stopped_storing = true } }

-- the claim of a released document is not committed
abbrev unclaimed_round : Round
unclaimed_round = record round { timeline = record (timeline true) { claim_commits = false } }

round-Lands : Lands round
round-Lands = record { claims = refl; fails = refl; marks = refl; prepares = refl; stores = refl }

queued_found : find_document 5 (world queued).db.documents ≡ some (document queued)
unfolding find_document
queued_found = refl

handle_deliveries-IsOver_example :
    (t : World Memory) × (handle_deliveries memory worker
        (round ∷ stopped_round ∷ unclaimed_round ∷ round ∷ round ∷ [])
        1
        (some 5)
        (world queued)
      ≡ some t)
    × Row IsOver 5 t.db
handle_deliveries-IsOver_example =
    handle_deliveries-IsOver memory worker
      (round ∷ stopped_round ∷ unclaimed_round ∷ round ∷ round ∷ []) 1 5 (world queued)
      (document queued)
      (
        inl (omega arith),
        (inl (omega arith), (inl (omega arith), (inl (omega arith), (inr round-Lands, tt)))),
      )
      (omega arith) (omega arith) (omega arith) queued_found refl

abbrev newcomer : World Memory
newcomer = record (world approved) {
  db = record (database queued) { documents = record (document queued) { id = 6 } ∷ [] };
}

still_there :
    In point
      (memory.points (handle_message memory worker round 1 (some 6) newcomer).1.chunks cui_name)
unfolding handle_message process_document claim_document is_unfinished is_leased job prepare
    document_points store_points finish release chunk_sections find_document put_document
    upsert_chunks group_points upsert_groups ensure_collection unique classification_collection_name
    chunk_from section_texts section_text collapse_repeated_chars prose_texts windows split
    number_from
still_there = inr (inr (inl refl))

visible_to_alice : passes (build_access_filter alice ("CUI" ∷ [])) point.payload ≡ true
unfolding build_access_filter releasability access_scope_values
visible_to_alice = refl

handle_message-In_example : In point (memory.points newcomer.chunks cui_name)
handle_message-In_example =
    handle_message-In memory memory_laws worker round 1 (some 6) newcomer alice ("CUI" ∷ [])
      cui_name point still_there visible_to_alice
