-- ===== src/Access/Payload.antt =====
-- The payload of a stored chunk (services/ingestion-worker/app/processing.py), and the part of
-- qdrant_client's filters that the code builds.
use nexus_rag.Base.{ℕ, String, Bool, Option, List, [], ◌∷◌, any, all, contains, leb, ◌==◌}
use nexus_rag.Document.{Uuid, Time, Status, status_text}

pub record Payload : Type 0 where
  pub document_id : Uuid
  pub chunk_index : ℕ
  pub text : String
  pub heading : Option String
  pub page_or_slide : Option ℕ
  pub content_type : String
  pub embedding_model : Option String
  pub embedded_at : Time
  pub filename : String
  pub doc_type : String
  pub source_originator : String
  pub classification : String
  pub releasability : List String
  pub access_scope : List String
  pub status : Status

-- the keyword keys that filters name
pub data Key : Type 0 where
  status_key classification_key releasability_key access_scope_key : Key

abbrev key_values : Key → Payload → List String
key_values status_key p = status_text p.status ∷ []
key_values classification_key p = p.classification ∷ []
key_values releasability_key p = p.releasability
key_values access_scope_key p = p.access_scope

pub data FieldCondition : Type 0 where
  match_value : Key → String → FieldCondition
  match_any : Key → List String → FieldCondition
  match_document : Uuid → FieldCondition
  range_gte : ℕ → FieldCondition  -- `chunk_index`, Range(gte=n)

pub record Filter : Type 0 where
  pub must : List FieldCondition

-- The documented meaning of a condition: a value of the key, or one element of a list value, is
-- the value sought or among those sought.
abbrev pub holds : Payload → FieldCondition → Bool
holds p (match_value k v) = contains v (key_values k p)
holds p (match_any k vs) = any (λ v. contains v vs) (key_values k p)
holds p (match_document d) = d == p.document_id
holds p (range_gte n) = leb n p.chunk_index

-- A point passes a filter when it meets every condition under `must`.
abbrev pub passes : Filter → Payload → Bool
passes f p = all (holds p) f.must
