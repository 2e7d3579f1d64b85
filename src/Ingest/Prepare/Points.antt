-- ===== src/Ingest/Prepare/Points.antt =====
-- What the points of a document are.
use nexus_rag.Base.{ℕ, some, ◌≡◌, refl, List, [], ◌∷◌, All, Result, ok, err}
use nexus_rag.Document.{Time, Document, pending_review}
use nexus_rag.Vector.Client.{Point, named}
use nexus_rag.Ingest.Chunking.{Chunk}
use nexus_rag.Ingest.Prepare.{Raised, Worker, chunk_point, add_point, document_points}

-- A chunk of the document under review, with its tags.
pub record IsUnderReview (doc : Document) (p : Point) : Type 0 where
  pub own : p.payload.document_id ≡ doc.id
  pub waiting : p.payload.status ≡ pending_review
  pub classification : p.payload.classification ≡ doc.classification
  pub releasability : p.payload.releasability ≡ doc.releasability
  pub access_scope : p.payload.access_scope ≡ doc.access_scope

chunk_point-IsUnderReview :
    (w : Worker) (now : Time) (doc : Document) (k : Chunk) (d : List ℕ)
    → IsUnderReview doc (chunk_point w now doc k d)
unfolding chunk_point
chunk_point-IsUnderReview w now doc k d = record {
  own = refl;
  waiting = refl;
  classification = refl;
  releasability = refl;
  access_scope = refl;
}

-- A point of the document carries the text of a chunk, with where it stands, and its dense vector.
pub record IsPoint (w : Worker) (doc : Document) (k : Chunk) (d : List ℕ) (p : Point) : Type 0 where
  pub id : p.id ≡ w.chunk_id doc.id k.chunk_index
  pub vector : p.vector ≡ named (some d)
  pub chunk_index : p.payload.chunk_index ≡ k.chunk_index
  pub text : p.payload.text ≡ k.text
  pub heading : p.payload.heading ≡ k.heading
  pub page_or_slide : p.payload.page_or_slide ≡ k.page_or_slide
  pub content_type : p.payload.content_type ≡ k.content_type
  pub embedding_model : p.payload.embedding_model ≡ w.embedding_identity
  pub filename : p.payload.filename ≡ doc.filename
  pub doc_type : p.payload.doc_type ≡ doc.doc_type
  pub source_originator : p.payload.source_originator ≡ doc.source_originator

-- One point for each chunk and its vector, in their order.
abbrev pub IsMade : Worker → Document → List Chunk → List (List ℕ) → List Point → Type 0
IsMade w doc [] [] [] = Unit {0}
IsMade w doc (k ∷ ks) (d ∷ ds) (p ∷ ps) = IsPoint w doc k d p × IsMade w doc ks ds ps
IsMade w doc _ _ _ = ⊥

chunk_point-IsPoint :
    (w : Worker) (now : Time) (doc : Document) (k : Chunk) (d : List ℕ)
    → IsPoint w doc k d (chunk_point w now doc k d)
unfolding chunk_point
chunk_point-IsPoint w now doc k d = record {
  id = refl;
  vector = refl;
  chunk_index = refl;
  text = refl;
  heading = refl;
  page_or_slide = refl;
  content_type = refl;
  embedding_model = refl;
  filename = refl;
  doc_type = refl;
  source_originator = refl;
}

pub add_point-ok :
    (p : Point) (r : Result Raised (List Point)) (ps : List Point)
    → add_point p r ≡ ok ps
    → (rest : List Point) × (r ≡ ok rest) × (ps ≡ p ∷ rest)
add_point-ok p (ok rest) ps e = (rest, refl, cc)
add_point-ok p (err x) ps e = cc

module _ (w : Worker) (now : Time) (doc : Document) where
  pub document_points-IsUnderReview :
      (ks : List Chunk) (ds ss : List (List ℕ)) (ps : List Point)
      → document_points w now doc ks ds ss ≡ ok ps
      → All (IsUnderReview doc) ps
  unfolding document_points
  document_points-IsUnderReview [] [] [] [] e = tt
  document_points-IsUnderReview [] [] [] (p ∷ ps) e = cc
  document_points-IsUnderReview (k ∷ ks) (d ∷ ds) (s ∷ ss) ps e =
      let (rest, tail, whole) = add_point-ok _ (document_points w now doc ks ds ss) ps e in
      rw whole
        (chunk_point-IsUnderReview w now doc k d, document_points-IsUnderReview ks ds ss rest tail)
  document_points-IsUnderReview [] [] (s ∷ ss) ps e = cc
  document_points-IsUnderReview [] (d ∷ ds) ss ps e = cc
  document_points-IsUnderReview (k ∷ ks) [] ss ps e = cc
  document_points-IsUnderReview (k ∷ ks) (d ∷ ds) [] ps e = cc

  pub document_points-IsMade :
      (ks : List Chunk) (ds ss : List (List ℕ)) (ps : List Point)
      → document_points w now doc ks ds ss ≡ ok ps
      → IsMade w doc ks ds ps
  unfolding document_points
  document_points-IsMade [] [] [] [] e = tt
  document_points-IsMade [] [] [] (p ∷ ps) e = cc
  document_points-IsMade (k ∷ ks) (d ∷ ds) (s ∷ ss) ps e =
      let (rest, tail, whole) = add_point-ok _ (document_points w now doc ks ds ss) ps e in
      rw whole (chunk_point-IsPoint w now doc k d, document_points-IsMade ks ds ss rest tail)
  document_points-IsMade [] [] (s ∷ ss) ps e = cc
  document_points-IsMade [] (d ∷ ds) ss ps e = cc
  document_points-IsMade (k ∷ ks) [] ss ps e = cc
  document_points-IsMade (k ∷ ks) (d ∷ ds) [] ps e = cc
