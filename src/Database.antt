-- ===== src/Database.antt =====
-- The tables that curation and purge read and write (services/common/common/models.py), as the
-- rows in the order in which a query returns them.
pub mod Rows
use nexus_rag.Base.{ℕ, String, Bool, Option, none, some, List, [], ◌∷◌, ◌++◌, ◌==◌, if◌then◌else◌}
use nexus_rag.Document.{Uuid, Time, Document, PurgeRequest, Status, Notification}
use nexus_rag.Access.Levels.{ClassificationLevel}

-- Corrections (services/ingestion-api/app/routes/curate.py): what an approval may change.
pub record Corrections : Type 0 where
  pub classification : Option String
  pub releasability : Option (List String)
  pub access_scope : Option (List String)

-- The fields of DocumentEdit, by name.
pub data Field : Type 0 where
  classification_field releasability_field access_scope_field source_originator_field : Field
  doc_type_field program_community_field effective_date_field : Field

-- The detail of `document.purged`.
pub record Purged : Type 0 where
  pub reason : String
  pub status_before_purge : Status
  pub chunks_destroyed : ℕ
  pub original_destroyed : Bool
  pub chat_plane_action_required : Bool
  pub retrievable_since : Option Time
  pub requested_by_sub : Option String
  pub requested_by_username : Option String

-- `action` with its `detail`, less the advisory that a decision copies from the row.
pub data Action : Type 0 where
  edit_entry : List Field → Bool → Action
  supersede_entry : Uuid → Action
  approve_entry : Option Corrections → Option String → Action
  reject_entry : String → Option String → Action
  suspend_entry : String → Option String → Action
  purge_request_entry : String → Uuid → Action
  purge_entry : Purged → Action
  embedded_entry : String → ℕ → Option String → Action
  failed_entry : String → Action
  exhausted_entry : String → ℕ → Action

pub record AuditLogEntry : Type 0 where
  pub actor_sub : String
  pub actor_username : String
  pub action : Action
  pub target_id : Uuid
  pub created_at : Time

pub record Database : Type 0 where
  pub documents : List Document
  pub purge_requests : List PurgeRequest
  pub notifications : List Notification
  pub audit_log : List AuditLogEntry
  pub classification_levels : List ClassificationLevel

-- `session.get(Document, id)`
unfoldable pub find_document : Uuid → List Document → Option Document
find_document id [] = none
find_document id (row ∷ rows) =
    let rest = find_document id rows in if row.id == id then some row else rest

-- What `session.add(doc)` writes at the commit: the row with that id.
unfoldable pub put_document : Document → List Document → List Document
put_document doc [] = []
put_document doc (row ∷ rows) =
    let rest = put_document doc rows in if row.id == doc.id then doc ∷ rest else row ∷ rest

-- `session.add(entry)` on the tables that only grow
abbrev pub add_entry : AuditLogEntry → Database → Database
add_entry e db = record db { audit_log = db.audit_log ++ e ∷ [] }

abbrev pub add_entries : List AuditLogEntry → Database → Database
add_entries es db = record db { audit_log = db.audit_log ++ es }

abbrev pub add_notification : Notification → Database → Database
add_notification n db = record db { notifications = db.notifications ++ n ∷ [] }

abbrev pub save_document : Document → Database → Database
save_document doc db = record db { documents = put_document doc db.documents }
