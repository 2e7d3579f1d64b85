-- ===== src/Purge/Request.antt =====
-- services/common/common/purge.py: the two-person flow.
pub mod TwoPerson
use nexus_rag.Base.{
  ℕ, ◌+◌, String, Bool, true, false, not, ◌&&◌, Option, none, some, List, [], ◌∷◌, ◌++◌, any,
  filter, str_eq, ltb, leb, ◌==◌, Result, ok, err, if◌then◌else◌,
}
use nexus_rag.Document.{
  Uuid, Time, Document, Status, purged, status_eq, PurgeRequest, PurgeStatus, pending, confirmed,
}
use nexus_rag.Vector.Client.{Client}
use nexus_rag.Database.{Database, find_document, add_entry, AuditLogEntry, purge_request_entry}
use nexus_rag.Purge.Stores.{
  ObjectStore, Stores, PurgeError, document_not_found, already_purged, already_requested,
  request_not_found, request_expired, same_person, commit_failed, Course,
}
use nexus_rag.Purge.Destroy.{Order, purge_document}

abbrev is_pending : PurgeStatus → Bool
is_pending pending = true
is_pending confirmed = false

unfoldable pub purge_confirmation_authorized : String → String → Bool
purge_confirmation_authorized requested_by_sub confirming_sub =
    not (str_eq confirming_sub requested_by_sub)

-- Who asks, why, for how long, and the id that the row is given.
pub record Filing : Type 0 where
  pub actor_sub : String
  pub actor_username : String
  pub reason : String
  pub expiry : Time
  pub new_id : Uuid
  pub now : Time
  pub commits : Bool

-- a pending request for the document that has not expired
abbrev pub is_open : Uuid → Time → PurgeRequest → Bool
is_open id now r = r.document_id == id && is_pending r.status && ltb now r.expires_at

abbrev pub new_request : Filing → Uuid → PurgeRequest
new_request f id = record {
  id = f.new_id;
  document_id = id;
  reason = f.reason;
  requested_by_sub = f.actor_sub;
  requested_by_username = f.actor_username;
  requested_at = f.now;
  expires_at = f.now + f.expiry;
  status = pending;
  confirmed_by_sub = none;
  confirmed_by_username = none;
  confirmed_at = none;
}

abbrev pub filed_entry : Filing → Uuid → AuditLogEntry
filed_entry f id = record {
  actor_sub = f.actor_sub;
  actor_username = f.actor_username;
  action = purge_request_entry f.reason f.new_id;
  target_id = id;
  created_at = f.now;
}

abbrev pub file_request : Filing → Uuid → Database → Result PurgeError PurgeRequest × Database
file_request f id db =
    if any (is_open id f.now) db.purge_requests
    then (err already_requested, db)
    else if f.commits
    then (
      ok (new_request f id),
      add_entry (filed_entry f id)
          (record db { purge_requests = db.purge_requests ++ new_request f id ∷ [] }),
    )
    else (err commit_failed, db)

abbrev pub request_for :
    Filing → Uuid → Option Document → Database → Result PurgeError PurgeRequest × Database
request_for f id none db = (err document_not_found, db)
request_for f id (some doc) db =
    if status_eq doc.status purged then (err already_purged, db) else file_request f id db

unfoldable pub request_purge : Filing → Uuid → Database → Result PurgeError PurgeRequest × Database
request_purge f id db = request_for f id (find_document id db.documents) db

-- `session.get(PurgeRequest, id)` and the row that a commit writes
unfoldable pub find_request : Uuid → List PurgeRequest → Option PurgeRequest
find_request id [] = none
find_request id (row ∷ rows) =
    let rest = find_request id rows in if row.id == id then some row else rest

unfoldable pub put_request : PurgeRequest → List PurgeRequest → List PurgeRequest
put_request r [] = []
put_request r (row ∷ rows) =
    let rest = put_request r rows in if row.id == r.id then r ∷ rest else row ∷ rest

-- Who confirms, when, and whether the last commit lands.
pub record Confirmation : Type 0 where
  pub actor_sub : String
  pub actor_username : String
  pub now : Time
  pub confirmed_at : Time
  pub course : Course
  pub commits : Bool

abbrev pub confirmed_request : Confirmation → PurgeRequest → PurgeRequest
confirmed_request k r = record r {
  status = confirmed;
  confirmed_by_sub = some k.actor_sub;
  confirmed_by_username = some k.actor_username;
  confirmed_at = some k.confirmed_at;
}

abbrev pub confirmed_order : Confirmation → PurgeRequest → Order
confirmed_order k r = record {
  actor_sub = k.actor_sub;
  actor_username = k.actor_username;
  reason = r.reason;
  requested_by_sub = some r.requested_by_sub;
  requested_by_username = some r.requested_by_username;
}

abbrev document_or_error : Option Document → Result PurgeError Document
document_or_error none = err document_not_found
document_or_error (some doc) = ok doc

module _ (c : Client) (o : ObjectStore) where
  abbrev pub record_confirmation :
      Confirmation
      → PurgeRequest
      → Result PurgeError Document × Stores c.State o.State
      → Result PurgeError Document × Stores c.State o.State
  record_confirmation k r (ok doc, w) =
      if k.commits
      then (
        ok doc,
        record w {
          db = record w.db {
            purge_requests = put_request (confirmed_request k r) w.db.purge_requests;
          };
        },
      )
      else (err commit_failed, w)
  record_confirmation k r (err e, w) = (err e, w)

  abbrev pub confirm_request :
      Confirmation
      → Option PurgeRequest
      → Stores c.State o.State
      → Result PurgeError Document × Stores c.State o.State
  confirm_request k none w = (err request_not_found, w)
  confirm_request k (some r) w =
      if not (is_pending r.status)
      then (document_or_error (find_document r.document_id w.db.documents), w)
      else if leb r.expires_at k.now
      then (err request_expired, w)
      else if not (purge_confirmation_authorized r.requested_by_sub k.actor_sub)
      then (err same_person, w)
      else record_confirmation k r
          (purge_document c o k.course (confirmed_order k r) r.document_id w)

  unfoldable pub confirm_purge :
      Confirmation
      → Uuid
      → Stores c.State o.State
      → Result PurgeError Document × Stores c.State o.State
  confirm_purge k id w = confirm_request k (find_request id w.db.purge_requests) w
