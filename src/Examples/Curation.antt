-- ===== src/Examples/Curation.antt =====
-- One document and one curator: the decisions, an edit, and a commit that fails.
use nexus_rag.Base.{
  String, ◌≡◌, inl, inr, refl, ap, Bool, true, false, Option, none, some, [], ◌∷◌, In, contains,
  if◌then◌else◌, ok,
}
use nexus_rag.Document.{Status, pending_review, approved}
use nexus_rag.Access.Claims.{clearance, can_curate_org, releasability}
use nexus_rag.Access.Levels.{allowed_classifications, find_level}
use nexus_rag.Access.Metadata.{releasability_authorized, access_scope_authorized}
use nexus_rag.Vector.Store.{update_document_payload}
use nexus_rag.Vector.Names.{classification_collection_name}
use nexus_rag.Vector.Client.{Point}
use nexus_rag.Vector.Memory.{memory, points_of, unique-In, unique}
use nexus_rag.Vector.Memory.Laws.{memory_laws}
use nexus_rag.Vector.Store.Carry.{IsHomed}
use nexus_rag.Database.{find_document}
use nexus_rag.Curation.World.{write_both}
use nexus_rag.Curation.Authority.{load_pending, load_approved}
use nexus_rag.Curation.Changes.{approve_checks, apply_corrections, approved_row, suspended_row}
use nexus_rag.Curation.Decide.{approve, suspend}
use nexus_rag.Curation.Decide.Withdrawn.{IsHidden, suspend-IsHidden}
use nexus_rag.Curation.Decide.Released.{HasTags, Mirrors, IsSeparate}
use nexus_rag.Curation.Decide.Approved.{Approval, approve-Approval, approve-HasTags}
use nexus_rag.Examples.Access.{chunk}
use nexus_rag.Examples.Vector.{cui_name, point}
use nexus_rag.Examples.Office.{
  curator, document, database, chunk_store, world, moment, chunk_store-IsHomed,
  chunk_store-IsHomed_level,
}

suspend_answered : suspend memory (moment true) curator 5 "wrong tags" (world approved) ≡ (
  ok (suspended_row (document approved)),
  (suspend memory (moment true) curator 5 "wrong tags" (world approved)).1,
)
unfolding suspend suspended_row load_pending load_approved find_document can_curate_org
    allowed_classifications find_level clearance releasability_authorized releasability
    access_scope_authorized write_both update_document_payload classification_collection_name unique
suspend_answered = refl

suspend-IsHomed :
    IsHomed memory (chunk_store approved) (suspended_row (document approved)).id cui_name
unfolding suspended_row
suspend-IsHomed = chunk_store-IsHomed approved

suspend-IsHidden_example :
    IsHidden memory
      (suspend memory (moment true) curator 5 "wrong tags" (world approved)).1.chunks
      (suspended_row (document approved)).id
suspend-IsHidden_example =
    suspend-IsHidden memory memory_laws (moment true) curator 5 "wrong tags" (world approved)
      (suspend memory (moment true) curator 5 "wrong tags" (world approved)).1
      (suspended_row (document approved)) cui_name suspend-IsHomed suspend_answered

approve_answered : approve memory (moment true) curator 5 none (world pending_review) ≡ (
  ok (approved_row curator 2000 (document pending_review)),
  (approve memory (moment true) curator 5 none (world pending_review)).1,
)
unfolding approve approve_checks apply_corrections approved_row load_pending load_approved
    find_document can_curate_org allowed_classifications find_level clearance
    releasability_authorized releasability access_scope_authorized write_both
    update_document_payload classification_collection_name unique
approve_answered = refl

approve-Approval_example :
    Approval memory
      (moment true)
      curator
      5
      none
      (world pending_review)
      (approve memory (moment true) curator 5 none (world pending_review)).1
      (approved_row curator 2000 (document pending_review))
approve-Approval_example =
    approve-Approval memory (moment true) curator 5 none (world pending_review)
      (approve memory (moment true) curator 5 none (world pending_review)).1
      (approved_row curator 2000 (document pending_review)) approve_answered

pub found_pending :
    find_document 5 (database pending_review).documents ≡ some (document pending_review)
unfolding find_document
found_pending = refl

chunk_only :
    (p : Point) (s : Status) (n : String)
    → In p (points_of (chunk_store s) n)
    → p ≡ record point { payload = record chunk { status = s } }
chunk_only p s n i = go (contains n (cui_name ∷ [])) i
  where
    one :
        In p (record point { payload = record chunk { status = s } } ∷ [])
        → p ≡ record point { payload = record chunk { status = s } }
    one (inl e) = e
    one (inr j) = absurd j

    go :
        (b : Bool)
        → In p (if b then unique ((chunk_store s).stored n) else [])
        → p ≡ record point { payload = record chunk { status = s } }
    go true j = one (unique-In p ((chunk_store s).stored n) j)
    go false j = absurd j

mirrors : Mirrors memory (chunk_store pending_review) (document pending_review)
mirrors n p i own =
    let e = chunk_only p pending_review n i in
    (
      record {
        classification = ap (λ (x : Point). x.payload.classification) e;
        releasability = ap (λ (x : Point). x.payload.releasability) e;
        access_scope = ap (λ (x : Point). x.payload.access_scope) e;
      },
      ap (λ (x : Point). x.payload.status) e,
    )

no_move : IsSeparate none (document pending_review)
no_move new e = absurd (none_some new e)
  where
    none_some : (x : String) → Path (Option String) none (some x) → ⊥
    none_some x q = cc

abbrev shown : Point
shown = record point { payload = record chunk { status = approved } }

shown_there : In shown (
    points_of
      (approve memory (moment true) curator 5 none (world pending_review)).1.chunks
      cui_name)
unfolding approve approve_checks apply_corrections approved_row load_pending load_approved
    find_document can_curate_org allowed_classifications find_level clearance
    releasability_authorized releasability access_scope_authorized write_both
    update_document_payload classification_collection_name unique
shown_there = inl refl

approve-HasTags_example :
    HasTags shown.payload (approved_row curator 2000 (document pending_review))
approve-HasTags_example =
    approve-HasTags memory memory_laws (moment true) curator 5 none (world pending_review)
      (approve memory (moment true) curator 5 none (world pending_review)).1
      (document pending_review) (approved_row curator 2000 (document pending_review)) found_pending
      mirrors (chunk_store-IsHomed_level pending_review) no_move approve_answered cui_name shown
      shown_there refl refl
