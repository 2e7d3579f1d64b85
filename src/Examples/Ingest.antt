-- ===== src/Examples/Ingest.antt =====
-- Cutting a short text and a small table, collapsing a small result, two jobs for a document, and
-- a submission that supersedes one.
use nexus_rag.Base.{ℕ, ◌≡◌, refl, arith, some, List, [], ◌∷◌, ok, ◌↔◌}
use nexus_rag.Ingest.Windows.{windows}
use nexus_rag.Ingest.Windows.Cover.{IsCover, windows-IsCover}
use nexus_rag.Ingest.Chunking.{Section, Chunk, Sizes, chunk_sections}
use nexus_rag.Ingest.Chunking.Numbered.{IsNumbered, chunk_sections-IsNumbered}
use nexus_rag.Retrieval.Overlaps.{Candidate, collapse_from, collapse_adjacent_overlaps}
use nexus_rag.Document.{queued, approved}
use nexus_rag.Access.Versioning.{validate_supersede_target}
use nexus_rag.Access.Versioning.Target.{IsTarget, validate_supersede_target_iff}
use nexus_rag.Database.{find_document, put_document}
use nexus_rag.Ingest.Claim.{
  Delivery, owned, acknowledged, processing_row, is_unfinished, is_leased, claim_document,
}
use nexus_rag.Ingest.Claim.Exclusive.{claim_document-exclusive}
use nexus_rag.Examples.Access.{chunk}
use nexus_rag.Examples.Office.{document}

abbrev numbers : List ℕ
numbers = 1 ∷ 2 ∷ 3 ∷ 4 ∷ 5 ∷ 6 ∷ 7 ∷ []

seven_by_three :
    windows 8 3 1 0 numbers ≡ some ((1 ∷ 2 ∷ 3 ∷ []) ∷ (3 ∷ 4 ∷ 5 ∷ []) ∷ (5 ∷ 6 ∷ 7 ∷ []) ∷ [])
unfolding windows
seven_by_three = refl

windows-IsCover_example :
    (ws : List (List ℕ)) × (windows 8 3 1 0 numbers ≡ some ws) × IsCover 3 1 0 numbers ws
windows-IsCover_example = windows-IsCover 3 1 numbers (omega arith)

abbrev sizes : Sizes
sizes = record { target_words = 3; overlap = 1; table_max_words = 9 }

abbrev section : Section
section = record {
  text = "one two three four ........ five";
  heading = some "Intro";
  page_or_slide = some 1;
  content_type = "text";
}

chunk_sections-IsNumbered_example :
    (chunks : List Chunk) × (chunk_sections sizes (section ∷ section ∷ []) ≡ some chunks)
    × IsNumbered 0 chunks
chunk_sections-IsNumbered_example =
    chunk_sections-IsNumbered sizes (section ∷ section ∷ []) (omega arith)

abbrev candidate : ℕ → ℕ → ℕ → Candidate
candidate id doc index = record {
  id = id;
  document_id = some doc;
  chunk_index = some index;
  payload = chunk;
}

abbrev ranked : List Candidate
ranked = candidate 1 5 3 ∷ candidate 2 5 4 ∷ candidate 3 6 4 ∷ candidate 4 5 1 ∷ []

neighbours :
    collapse_adjacent_overlaps ranked 3
    ≡ (candidate 1 5 3 ∷ candidate 3 6 4 ∷ candidate 4 5 1 ∷ [], 1)
unfolding collapse_adjacent_overlaps collapse_from
neighbours = refl

abbrev first_job : Delivery
first_job = record { attempt = 1; now = 2000; ack_wait = 60 }

abbrev second_job : Delivery
second_job = record { attempt = 1; now = 2030; ack_wait = 60 }

first_job_claims :
    claim_document first_job 5 (document queued ∷ [])
    ≡ (owned (processing_row 2000 (document queued)), processing_row 2000 (document queued) ∷ [])
unfolding claim_document find_document put_document is_unfinished is_leased
first_job_claims = refl

claim_document-exclusive_example :
    claim_document second_job 5 (processing_row 2000 (document queued) ∷ [])
    ≡ (acknowledged, processing_row 2000 (document queued) ∷ [])
claim_document-exclusive_example =
    claim_document-exclusive first_job second_job 5 (document queued ∷ [])
      (processing_row 2000 (document queued) ∷ []) (processing_row 2000 (document queued))
      first_job_claims (omega arith) (omega arith)

validate_supersede_target_iff_example :
    (validate_supersede_target (document approved) "hq" ("CUI" ∷ []) ("FVEY" ∷ []) ≡ ok tt)
    ↔ IsTarget (document approved) "hq" ("CUI" ∷ []) ("FVEY" ∷ [])
validate_supersede_target_iff_example =
    validate_supersede_target_iff (document approved) "hq" ("CUI" ∷ []) ("FVEY" ∷ [])
