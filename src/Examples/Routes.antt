-- ===== src/Examples/Routes.antt =====
-- A commit that fails, an edit, the queue, and requests in a row.
use nexus_rag.Base.{◌≡◌, ◌↔◌, inl, inr, refl, true, false, none, some, List, [], ◌∷◌, In, ok, err}
use nexus_rag.Document.{Document, pending_review, approved}
use nexus_rag.Access.Claims.{curatable_orgs, clearance, can_curate_org, releasability, role_values}
use nexus_rag.Access.Levels.{allowed_classifications, find_level}
use nexus_rag.Access.Metadata.{releasability_authorized, access_scope_authorized}
use nexus_rag.Vector.Store.{update_document_payload}
use nexus_rag.Vector.Names.{classification_collection_name}
use nexus_rag.Vector.Memory.{memory, unique}
use nexus_rag.Vector.Memory.Laws.{memory_laws}
use nexus_rag.Database.{find_document}
use nexus_rag.Curation.Http.{http, commit_failed, conflict_status, require_curator, verify_csrf}
use nexus_rag.Curation.World.{write_both}
use nexus_rag.Curation.Authority.{
  authorized_for_tags, check_curator_authority, list_queue, load_pending, load_approved,
}
use nexus_rag.Curation.Authority.Standing.{HasStanding, check_curator_authority_iff, load-hidden}
use nexus_rag.Curation.Authority.Queue.{IsKeyed, list_queue-load_pending}
use nexus_rag.Curation.Changes.{approve_checks, apply_corrections, approved_row}
use nexus_rag.Curation.Decide.{approve, suspend}
use nexus_rag.Curation.Decide.Reverted.{Unapproved, approve-Unapproved}
use nexus_rag.Curation.Edit.{
  DocumentEdit, edit_metadata, load_editable, is_editable, changed_qdrant, resulting_row,
}
use nexus_rag.Curation.Edit.Authority.{IsBacked, edit_metadata-IsBacked}
use nexus_rag.Curation.Routes.{Call, approve_request, suspend_request, dispatch, handle, run}
use nexus_rag.Curation.Routes.Refused.{HasFailed, refreshing, handle-IsRefused}
use nexus_rag.Curation.Routes.History.{RowsKept}
use nexus_rag.Curation.Routes.Dated.{run-RowsKept}
use nexus_rag.Examples.Access.{levels, alice}
use nexus_rag.Examples.Vector.{cui_name}
use nexus_rag.Examples.Office.{
  call_of, curator, document, database, chunk_store, world, moment, narrowed, chunk_store-IsHomed,
}
use nexus_rag.Examples.Curation.{found_pending}

approve_failed : approve memory (moment false) curator 5 (some narrowed) (world pending_review) ≡ (
  err commit_failed,
  (approve memory (moment false) curator 5 (some narrowed) (world pending_review)).1,
)
unfolding approve approve_checks apply_corrections approved_row load_pending load_approved
    find_document can_curate_org allowed_classifications find_level clearance
    releasability_authorized releasability access_scope_authorized write_both
    update_document_payload classification_collection_name unique
approve_failed = refl

approve-Unapproved_example :
    Unapproved memory
      (some narrowed)
      (document pending_review)
      (chunk_store pending_review)
      (approve memory (moment false) curator 5 (some narrowed) (world pending_review)).1.chunks
approve-Unapproved_example =
    approve-Unapproved memory memory_laws (moment false) curator 5 (some narrowed)
      (world pending_review)
      (approve memory (moment false) curator 5 (some narrowed) (world pending_review)).1
      (document pending_review) cui_name found_pending (chunk_store-IsHomed pending_review) refl
      approve_failed

refused_call :
    handle memory (call_of (suspend_request 5 "wrong tags")) (world pending_review)
    ≡ (err (http (conflict_status pending_review)), world pending_review)
unfolding handle dispatch suspend require_curator curatable_orgs role_values verify_csrf
    load_pending load_approved find_document can_curate_org allowed_classifications find_level
    clearance releasability_authorized releasability access_scope_authorized write_both
    update_document_payload classification_collection_name unique
refused_call = refl

handle-IsRefused_example :
    HasFailed memory
      (world pending_review)
      (http (conflict_status pending_review))
      (world pending_review)
      (handle memory
        (refreshing memory (call_of (suspend_request 5 "wrong tags")))
        (world pending_review))
handle-IsRefused_example =
    handle-IsRefused memory (call_of (suspend_request 5 "wrong tags")) (world pending_review)
      (world pending_review) (http (conflict_status pending_review)) refused_call

abbrev pub calls : List Call
calls = call_of (approve_request 5 none) ∷ call_of (suspend_request 5 "wrong tags") ∷ []

run-RowsKept_example :
    RowsKept
      (database pending_review).documents
      (run memory calls (world pending_review)).db.documents
run-RowsKept_example = run-RowsKept memory calls (world pending_review)

abbrev raised : DocumentEdit
raised = record {
  classification = some "SECRET";
  releasability = none;
  access_scope = none;
  source_originator = none;
  doc_type = none;
  program_community = none;
  effective_date = none;
}

edit_answered : edit_metadata memory (moment true) curator 5 raised (world approved) ≡ (
  ok (resulting_row (database approved) curator 2000 raised (document approved)),
  (edit_metadata memory (moment true) curator 5 raised (world approved)).1,
)
unfolding edit_metadata load_editable is_editable changed_qdrant authorized_for_tags resulting_row
    load_pending load_approved find_document can_curate_org allowed_classifications find_level
    clearance releasability_authorized releasability access_scope_authorized write_both
    update_document_payload classification_collection_name unique
edit_answered = refl

edit_approved :
    (resulting_row (database approved) curator 2000 raised (document approved)).status ≡ approved
unfolding resulting_row authorized_for_tags load_pending load_approved find_document can_curate_org
    allowed_classifications find_level clearance releasability_authorized releasability
    access_scope_authorized write_both update_document_payload classification_collection_name unique
edit_approved = refl

edit_metadata-IsBacked_example :
    (found : Document) × (find_document 5 (database approved).documents ≡ some found)
    × IsBacked
        (database approved)
        curator
        found
        (resulting_row (database approved) curator 2000 raised (document approved))
edit_metadata-IsBacked_example =
    edit_metadata-IsBacked memory (moment true) curator 5 raised (world approved)
      (edit_metadata memory (moment true) curator 5 raised (world approved)).1
      (resulting_row (database approved) curator 2000 raised (document approved)) edit_answered
      edit_approved

check_curator_authority_iff_example :
    (check_curator_authority curator (document pending_review) levels ≡ ok tt)
    ↔ HasStanding curator (document pending_review) levels
check_curator_authority_iff_example =
    check_curator_authority_iff curator (document pending_review) levels

keyed : IsKeyed (database pending_review).documents
unfolding find_document
keyed doc (inl e) = rw e refl
keyed doc (inr i) = absurd i

list_queue-load_pending_example :
    In (document pending_review) (list_queue (database pending_review) curator) ↔ (
      In (document pending_review) (database pending_review).documents
      × (load_pending (database pending_review) 5 curator ≡ ok (document pending_review)))
list_queue-load_pending_example =
    list_queue-load_pending (database pending_review) curator (document pending_review) keyed

alice_curates_nothing : ¬ In "hq" (curatable_orgs alice)
unfolding curatable_orgs role_values
alice_curates_nothing i = i

load-hidden_example :
    (load_pending (database pending_review) 5 alice
      ≡ load_pending (record (database pending_review) { documents = [] }) 5 alice)
    × (load_approved (database pending_review) 5 alice
        ≡ load_approved (record (database pending_review) { documents = [] }) 5 alice)
load-hidden_example =
    load-hidden (database pending_review) 5 alice (document pending_review) found_pending
      alice_curates_nothing
