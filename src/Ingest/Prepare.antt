-- ===== src/Ingest/Prepare.antt =====
-- services/ingestion-worker/app/processing.py: what `_process_document` makes of a document before
-- it writes anything, from the fetch to the points.
pub mod Points
pub mod Chunked
use nexus_rag.Base.{
  ℕ, String, ◌++◌, Bool, true, false, not, Option, none, some, List, [], ◌∷◌, map, is_empty, str_eq,
  if◌then◌else◌, Result, ok, err, ◌>>=◌, ◌>>◌,
}
use Prim.Native.String.{◌++◌ as text_append}
use nexus_rag.Document.{Uuid, Time, Document, pending_review}
use nexus_rag.Access.Payload.{Payload}
use nexus_rag.Vector.Client.{Point, named}
use nexus_rag.Database.{AuditLogEntry}
use nexus_rag.Ingest.Chunking.{Section, Chunk, Sizes, chunk_sections}

-- What the body of the `try` raises, as its handlers tell it apart. `purged_marker` is the
-- FileNotFoundError that the code raises itself, with _PURGED_MARKER.
pub data Raised : Type 0 where
  purged_marker file_not_found : Raised
  content_integrity_error : String → String → Raised
  parsing_error embedding_error : String → Raised
  timeout_error other : Raised

-- What the worker calls: the object store, the hash, the parser, the models, and the advisories,
-- by the audit entries that they add. Any call that is awaited may raise the timeout.
pub record Worker : Type 0 where
  pub get : String → Result Raised String
  pub sha256 : String → String
  pub parse_document : String → String → Result Raised (List Section)
  pub advisories : Document → List Section → List AuditLogEntry
  pub captioning_enabled : Bool
  pub caption_images : String → String → Result Raised (List Section)
  pub chunking_wait : Result Raised (Unit {0})
  pub embed_texts : List String → Result Raised (List (List ℕ))
  pub embed_sparse : List String → Result Raised (List (List ℕ))
  pub chunk_id : Uuid → ℕ → Uuid
  pub embedding_identity : Option String
  pub sizes : Sizes
  pub late_advisories : Document → List Section → List (List ℕ) → List AuditLogEntry

pub record Prepared : Type 0 where
  pub sections : List Section
  pub chunks : List Chunk
  pub dense_vectors : List (List ℕ)
  pub sparse_vectors : List (List ℕ)

abbrev check_digest : Worker → String → Option String → Result Raised (Unit {0})
check_digest w contents none = ok tt
check_digest w contents (some digest) =
    if not (str_eq (w.sha256 contents) digest)
    then err (content_integrity_error digest (w.sha256 contents))
    else ok tt

abbrev fetch_original : Worker → Document → Option String → Result Raised String
fetch_original w doc none = err purged_marker
fetch_original w doc (some key) = do
  contents ← w.get key
  check_digest w contents doc.content_sha256
  ok contents

-- A loop that does not end runs into the timeout.
abbrev pub ended : Option (List Chunk) → Result Raised (List Chunk)
ended none = err timeout_error
ended (some chunks) = ok chunks

abbrev pub caption : Worker → Document → String → Result Raised (List Section)
caption w doc contents =
    if w.captioning_enabled then w.caption_images doc.filename contents else ok []

abbrev pub vectors_of : Worker → List Section → List Chunk → List (List ℕ) → Result Raised Prepared
vectors_of w sections chunks dense = do
  sparse ← w.embed_sparse (map (λ (k : Chunk). k.text) chunks)
  ok (record {
    sections = sections;
    chunks = chunks;
    dense_vectors = dense;
    sparse_vectors = sparse;
  })

abbrev pub embed_chunks : Worker → List Section → List Chunk → Result Raised Prepared
embed_chunks w sections chunks =
    if is_empty chunks then err (parsing_error "document contained no extractable text") else do
      dense ← w.embed_texts (map (λ (k : Chunk). k.text) chunks)
      vectors_of w sections chunks dense

unfoldable pub chunk_document : Worker → List Section → Result Raised Prepared
chunk_document w sections = do
  w.chunking_wait
  chunks ← ended (chunk_sections w.sizes sections)
  embed_chunks w sections chunks

-- captions, chunks and vectors
unfoldable pub embed_document : Worker → Document → String → List Section → Result Raised Prepared
unfolding chunk_document
embed_document w doc contents sections = do
  images ← caption w doc contents
  chunk_document w (sections ++ images)

abbrev pub parsed :
    Worker
    → Document
    → Result Raised (String × List Section)
    → List AuditLogEntry × Result Raised Prepared
parsed w doc (err e) = ([], err e)
parsed w doc (ok (contents, sections)) =
    (w.advisories doc sections, embed_document w doc contents sections)

-- The entries that are pending in the session, and how the timed part of the body ended.
unfoldable pub prepare : Worker → Document → List AuditLogEntry × Result Raised Prepared
unfolding embed_document
prepare w doc = parsed w doc (do
  contents ← fetch_original w doc doc.original_object_key
  sections ← w.parse_document doc.filename contents
  ok (contents, sections))

unfoldable pub chunk_point : Worker → Time → Document → Chunk → List ℕ → Point
chunk_point w now doc chunk dense = record {
  id = w.chunk_id doc.id chunk.chunk_index;
  vector = named (some dense);
  payload = record {
    document_id = doc.id;
    chunk_index = chunk.chunk_index;
    text = chunk.text;
    heading = chunk.heading;
    page_or_slide = chunk.page_or_slide;
    content_type = chunk.content_type;
    embedding_model = w.embedding_identity;
    embedded_at = now;
    filename = doc.filename;
    doc_type = doc.doc_type;
    source_originator = doc.source_originator;
    classification = doc.classification;
    releasability = doc.releasability;
    access_scope = doc.access_scope;
    status = pending_review;
  };
}

abbrev pub add_point : Point → Result Raised (List Point) → Result Raised (List Point)
add_point p (ok ps) = ok (p ∷ ps)
add_point p (err e) = err e

-- `zip(chunks, dense_vectors, sparse_vectors, strict=True)` raises where the lengths differ.
unfoldable pub document_points :
    Worker
    → Time
    → Document
    → List Chunk
    → List (List ℕ)
    → List (List ℕ)
    → Result Raised (List Point)
unfolding chunk_point
document_points w now doc [] [] [] = ok []
document_points w now doc (k ∷ ks) (d ∷ ds) (s ∷ ss) =
    add_point (chunk_point w now doc k d) (document_points w now doc ks ds ss)
document_points w now doc _ _ _ = err other
