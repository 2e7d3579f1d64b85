-- ===== src/Examples/Purge.antt =====
-- One document destroyed by two people, by one, and after a failure.
use nexus_rag.Base.{
  arith, String, ◌≡◌, ◌≢◌, ◌⊎◌, inl, inr, refl, Bool, true, false, none, some, List, [], ◌∷◌, ok,
  err,
}
use nexus_rag.Document.{Document, Status, approved, pending_review, purged}
use nexus_rag.Vector.Memory.{Memory, memory, unique}
use nexus_rag.Vector.Memory.Laws.{memory_laws}
use nexus_rag.Vector.Store.{delete_document_chunks, update_document_payload}
use nexus_rag.Vector.Store.Sweep.{IsNamespaced}
use nexus_rag.Database.{Database, find_document, put_document}
use nexus_rag.Access.Claims.{can_curate_org, clearance, curatable_orgs, releasability, role_values}
use nexus_rag.Access.Levels.{allowed_classifications, find_level}
use nexus_rag.Access.Metadata.{releasability_authorized, access_scope_authorized}
use nexus_rag.Curation.Authority.{load_pending, load_approved}
use nexus_rag.Curation.Changes.{suspended_row, suspend_rows}
use nexus_rag.Curation.Decide.{suspend}
use nexus_rag.Curation.Http.{require_curator, verify_csrf}
use nexus_rag.Vector.Names.{classification_collection_name}
use nexus_rag.Curation.World.{World, write_both}
use nexus_rag.Curation.Routes.{suspend_request, dispatch, handle, run}
use nexus_rag.Purge.Stores.{Stores, Course, commit_failed}
use nexus_rag.Purge.Destroy.{Order, tombstone, destroy, purge_document}
use nexus_rag.Purge.Destroy.Destroyed.{IsDestroyed, purge_document-IsDestroyed}
use nexus_rag.Purge.Destroy.Failed.{IsMarked, purge_document-IsMarked}
use nexus_rag.Purge.Destroy.Flagged.{IsFlagged, run-IsFlagged}
use nexus_rag.Purge.Request.{
  Filing, Confirmation, new_request, request_purge, find_request, confirm_purge,
  purge_confirmation_authorized,
}
use nexus_rag.Purge.Request.TwoPerson.{
  IsTwoPerson, confirm_purge-IsTwoPerson, IsFiled, request_purge-HasOneOpen,
}
use nexus_rag.Examples.Office.{document, database, chunk_store, call_of}
use nexus_rag.Examples.Directory.{directory, directory_laws}

abbrev stores : Status → Stores Memory (List String)
stores s = record {
  db = database s;
  chunks = chunk_store s;
  objects = "objects/5" ∷ "objects/6" ∷ [];
}

abbrev course : Bool → Course
course b = record { marked_at = 3000; purged_at = 3001; first_commits = true; last_commits = b }

abbrev order : Order
order = record {
  actor_sub = "u-3";
  actor_username = "carol";
  reason = "spill";
  requested_by_sub = none;
  requested_by_username = none;
}

live : approved ≢ purged
live e = cc

namespaced : (s : Status) → IsNamespaced memory (chunk_store s)
namespaced s n (inl e) = inl (rw e refl)
namespaced s n (inr i) = absurd i

here : find_document 5 (database approved).documents ≡ some (document approved)
unfolding find_document
here = refl

destroyed : purge_document memory directory (course true) order 5 (stores approved) ≡ (
  ok (tombstone 3001 (document approved)),
  (purge_document memory directory (course true) order 5 (stores approved)).1,
)
unfolding purge_document find_document destroy delete_document_chunks tombstone unique
destroyed = refl

purge_document-IsDestroyed_example :
    (tombstone 3001 (document approved) ≡ tombstone 3001 (document approved))
    × IsDestroyed memory directory
        (course true)
        order
        (document approved)
        (stores approved)
        (purge_document memory directory (course true) order 5 (stores approved)).1
purge_document-IsDestroyed_example =
    purge_document-IsDestroyed memory directory memory_laws directory_laws (course true) order 5
      (document approved) (tombstone 3001 (document approved)) (stores approved)
      (purge_document memory directory (course true) order 5 (stores approved)).1 here live
      (namespaced approved) destroyed

unfinished : purge_document memory directory (course false) order 5 (stores approved) ≡ (
  err commit_failed,
  (purge_document memory directory (course false) order 5 (stores approved)).1,
)
unfolding purge_document find_document destroy delete_document_chunks tombstone unique
unfinished = refl

purge_document-IsMarked_example :
    ((purge_document memory directory (course false) order 5 (stores approved)).1 ≡ stores approved)
    ⊎ IsMarked memory directory 5
        (stores approved)
        (purge_document memory directory (course false) order 5 (stores approved)).1
purge_document-IsMarked_example =
    purge_document-IsMarked memory directory memory_laws (course false) order 5 (stores approved)
      (purge_document memory directory (course false) order 5 (stores approved)).1 commit_failed
      unfinished

abbrev dated : Document
dated = record (document approved) { first_approved_at = some 1500 }

abbrev dated_database : Database
dated_database = record (database approved) { documents = dated ∷ [] }

abbrev dated_world : World Memory
dated_world = record { db = dated_database; chunks = chunk_store approved }

abbrev suspended_stores : Stores Memory (List String)
suspended_stores = record {
  db = (run memory (call_of (suspend_request 5 "wrong tags") ∷ []) dated_world).db;
  chunks = chunk_store pending_review;
  objects = [];
}

dated_here : find_document 5 dated_database.documents ≡ some dated
unfolding find_document
dated_here = refl

suspended_here : find_document 5 suspended_stores.db.documents ≡ some (suspended_row dated)
unfolding unique find_document run handle dispatch suspend require_curator curatable_orgs
    role_values verify_csrf load_pending load_approved can_curate_org allowed_classifications
    find_level clearance releasability_authorized releasability access_scope_authorized write_both
    update_document_payload classification_collection_name suspended_row suspend_rows put_document
suspended_here = refl

suspended_live : (suspended_row dated).status ≢ purged
unfolding suspended_row
suspended_live e = cc

suspended_destroyed : purge_document memory directory (course true) order 5 suspended_stores ≡ (
  ok (tombstone 3001 (suspended_row dated)),
  (purge_document memory directory (course true) order 5 suspended_stores).1,
)
unfolding purge_document find_document destroy delete_document_chunks tombstone unique run handle
    dispatch suspend require_curator curatable_orgs role_values verify_csrf load_pending
    load_approved can_curate_org allowed_classifications find_level clearance
    releasability_authorized releasability access_scope_authorized write_both
    update_document_payload classification_collection_name suspended_row suspend_rows put_document
suspended_destroyed = refl

run-IsFlagged_example :
    IsFlagged (purge_document memory directory (course true) order 5 suspended_stores).1.db 5 1500
run-IsFlagged_example =
    run-IsFlagged memory directory memory_laws directory_laws
      (call_of (suspend_request 5 "wrong tags") ∷ []) dated_world suspended_stores
      (purge_document memory directory (course true) order 5 suspended_stores).1 (course true) order
      5 dated (suspended_row dated) (tombstone 3001 (suspended_row dated)) 1500 dated_here refl refl
      suspended_here suspended_live (namespaced pending_review) suspended_destroyed

abbrev filing : Filing
filing = record {
  actor_sub = "u-2";
  actor_username = "bob";
  reason = "spill";
  expiry = 1000;
  new_id = 77;
  now = 2500;
  commits = true;
}

filed :
    request_purge filing 5 (database approved)
    ≡ (ok (new_request filing 5), (request_purge filing 5 (database approved)).1)
unfolding request_purge find_document
filed = refl

request_purge-HasOneOpen_example :
    IsFiled filing 5
      (database approved)
      (request_purge filing 5 (database approved)).1
      (new_request filing 5)
request_purge-HasOneOpen_example =
    request_purge-HasOneOpen filing 5 (database approved)
      (request_purge filing 5 (database approved)).1 (new_request filing 5) (omega arith) filed

abbrev requested : Stores Memory (List String)
requested = record (stores approved) {
  db = record (database approved) { purge_requests = new_request filing 5 ∷ [] };
}

abbrev confirmation : Confirmation
confirmation = record {
  actor_sub = "u-3";
  actor_username = "carol";
  now = 2900;
  confirmed_at = 3002;
  course = course true;
  commits = true;
}

requested_here : find_request 77 requested.db.purge_requests ≡ some (new_request filing 5)
unfolding find_request
requested_here = refl

confirmed : confirm_purge memory directory confirmation 77 requested ≡ (
  ok (tombstone 3001 (document approved)),
  (confirm_purge memory directory confirmation 77 requested).1,
)
unfolding confirm_purge find_request purge_confirmation_authorized purge_document find_document
    destroy delete_document_chunks tombstone unique
confirmed = refl

confirm_purge-IsTwoPerson_example :
    IsTwoPerson memory directory confirmation
      (new_request filing 5)
      (tombstone 3001 (document approved))
      requested
      (confirm_purge memory directory confirmation 77 requested).1
confirm_purge-IsTwoPerson_example =
    confirm_purge-IsTwoPerson memory directory confirmation 77 (new_request filing 5)
      (tombstone 3001 (document approved)) requested
      (confirm_purge memory directory confirmation 77 requested).1 requested_here refl confirmed
