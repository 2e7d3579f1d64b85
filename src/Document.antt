-- ===== src/Document.antt =====
-- services/common/common/models.py: the rows of the system of record.
use nexus_rag.Base.{ℕ, String, Bool, true, false, ◌≡◌, refl, Option, List, arith, str_eq}

-- `uuid.UUID` is the number that it stands for, and `str(id)` is read as the id itself.
abbrev pub Uuid : Type 0
Uuid = ℕ

-- `datetime`: microseconds since the epoch, in UTC
abbrev pub Time : Type 0
Time = ℕ

-- the values of `Document.status`
pub data Status : Type 0 where
  queued processing embedded pending_review approved rejected superseded failed purging purged :
      Status

abbrev pub status_text : Status → String
status_text queued = "queued"
status_text processing = "processing"
status_text embedded = "embedded"
status_text pending_review = "pending_review"
status_text approved = "approved"
status_text rejected = "rejected"
status_text superseded = "superseded"
status_text failed = "failed"
status_text purging = "purging"
status_text purged = "purged"

-- `a == b` and `a != b` on statuses
abbrev pub status_eq : Status → Status → Bool
status_eq queued queued = true
status_eq processing processing = true
status_eq embedded embedded = true
status_eq pending_review pending_review = true
status_eq approved approved = true
status_eq rejected rejected = true
status_eq superseded superseded = true
status_eq failed failed = true
status_eq purging purging = true
status_eq purged purged = true
status_eq _ _ = false

pub status_eq→eq : (a b : Status) → status_eq a b ≡ true → a ≡ b
status_eq→eq a b h = ground arith

pub status_eq_refl : (a : Status) → status_eq a a ≡ true
status_eq_refl a = ground arith

-- A text that is the text of `approved` comes from that status alone.
pub status_text-approved : (s : Status) → str_eq "approved" (status_text s) ≡ true → s ≡ approved
status_text-approved queued h = ground arith
status_text-approved processing h = ground arith
status_text-approved embedded h = ground arith
status_text-approved pending_review h = ground arith
status_text-approved approved h = refl
status_text-approved rejected h = ground arith
status_text-approved superseded h = ground arith
status_text-approved failed h = ground arith
status_text-approved purging h = ground arith
status_text-approved purged h = ground arith

pub approved-status_text : (s : Status) → s ≡ approved → str_eq "approved" (status_text s) ≡ true
approved-status_text s e = rw e refl

pub record Document : Type 0 where
  pub id : Uuid
  pub filename : String
  pub uploader_sub : String
  pub uploader_username : String
  pub owner_org : String
  pub classification : String
  pub releasability : List String
  pub access_scope : List String
  pub source_originator : String
  pub doc_type : String
  pub program_community : Option String
  pub effective_date : Option String
  pub original_object_key : Option String
  pub content_sha256 : Option String
  pub last_verified_at : Option Time
  pub status : Status
  pub rejection_reason : Option String
  pub processing_error : Option String
  pub reviewed_by_sub : Option String
  pub reviewed_at : Option Time
  pub first_approved_at : Option Time
  pub chunk_count : ℕ
  pub queue_published_at : Option Time
  pub processing_started_at : Option Time
  pub supersedes_document_id : Option Uuid
  pub created_at : Time
  pub updated_at : Time

pub data PurgeStatus : Type 0 where
  pending confirmed : PurgeStatus

pub record PurgeRequest : Type 0 where
  pub id : Uuid
  pub document_id : Uuid
  pub reason : String
  pub requested_by_sub : String
  pub requested_by_username : String
  pub requested_at : Time
  pub expires_at : Time
  pub status : PurgeStatus
  pub confirmed_by_sub : Option String
  pub confirmed_by_username : Option String
  pub confirmed_at : Option Time

pub data Decision : Type 0 where
  was_approved was_rejected was_suspended : Decision

pub record Notification : Type 0 where
  pub recipient_sub : String
  pub document_id : Uuid
  pub decision : Decision
  pub message : String
  pub read : Bool
  pub created_at : Time
