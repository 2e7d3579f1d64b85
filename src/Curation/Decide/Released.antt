-- ===== src/Curation/Decide/Released.antt =====
-- What an approval puts within readers' reach.
use nexus_rag.Base.{
  ◌≡◌, ◌≢◌, sym, ◌∙◌, ap, subst, String, Option, none, some, In, Option-cases, inl, inr,
}
use nexus_rag.Document.{Document, pending_review, approved}
use nexus_rag.Access.Claims.{UserClaims}
use nexus_rag.Access.Payload.{Payload}
use nexus_rag.Vector.Names.{classification_collection_name}
use nexus_rag.Vector.Exec.{Returns, pure-Returns, Returns-state}
use nexus_rag.Vector.Client.{Client, ClientLaws, Point, set_point, or_keep}
use nexus_rag.Vector.Store.{update_document_payload, corrected, delete_document_chunks}
use nexus_rag.Vector.Store.Shrink.{delete_document_chunks-from}
use nexus_rag.Vector.Store.Carry.{IsHomed}
use nexus_rag.Vector.Store.Whole.{
  update_document_payload-IsUpdated, update_document_payload-HasMoved,
}
use nexus_rag.Database.{Corrections}
use nexus_rag.Curation.Changes.{approved_row, approve_fields, truthy}
use nexus_rag.Curation.Decide.{delete_old}
use nexus_rag.Curation.Decide.Checks.{correct_by}
use nexus_rag.Curation.Decide.Withdrawn.{updated_chunk}

-- The chunk carries the row's tags.
pub record HasTags (p : Payload) (doc : Document) : Type 0 where
  pub classification : p.classification ≡ doc.classification
  pub releasability : p.releasability ≡ doc.releasability
  pub access_scope : p.access_scope ≡ doc.access_scope

-- Every chunk of the document carries the row's tags and status.
abbrev pub Mirrors : (c : Client) → c.State → Document → Type 0
Mirrors c s doc =
    (n : String) (p : Point)
    → In p (c.points s n)
    → p.payload.document_id ≡ doc.id
    → HasTags p.payload doc × (p.payload.status ≡ doc.status)

-- A correction of the classification leads to another collection.
abbrev pub IsSeparate : Option Corrections → Document → Type 0
IsSeparate k found =
    (new : String)
    → corrected (approve_fields k).classification found.classification ≡ some new
    → classification_collection_name found.classification ≢ classification_collection_name new

-- the fields that an approval sets, on a chunk with the row's tags
approved-HasTags :
    (k : Option Corrections) (user : UserClaims) (now : _) (found : Document) (q : Point)
    → HasTags q.payload found
    → HasTags (set_point (approve_fields k) q).payload (approved_row user now (correct_by k found))
unfolding approved_row
approved-HasTags none user now found q h = record {
  classification = h.classification;
  releasability = h.releasability;
  access_scope = h.access_scope;
}
approved-HasTags (some k) user now found q h = record {
  classification = ap (or_keep (truthy k.classification)) h.classification;
  releasability = ap (or_keep k.releasability) h.releasability;
  access_scope = ap (or_keep k.access_scope) h.access_scope;
}

module _ (c : Client) (laws : ClientLaws c) where
  open c use {State, points}

  pub delete_old-from :
      (s t : State) (old_doc : Option Document)
      → Returns (delete_old c old_doc) s tt t
      → (n : String) (p : Point) → In p (points t n)
      → In p (points s n)
  delete_old-from s t none h n p i = subst (λ x. In p (points x n)) (pure-Returns tt s h).1 i
  delete_old-from s t (some d) h n p i =
      delete_document_chunks-from c laws s d.id d.classification n p (
        subst (λ x. In p (points x n))
          (Returns-state (delete_document_chunks c d.id d.classification) s h) i)

  -- the chunks after the first write of an approval
  pub written-HasTags :
      (k : Option Corrections) (user : UserClaims) (now : _) (s t : State) (found : Document)
      → found.status ≡ pending_review
      → Mirrors c s found
      → IsHomed c s found.id (classification_collection_name found.classification)
      → IsSeparate k found
      → Returns (update_document_payload c found.id found.classification (approve_fields k)) s tt t
      → (n : String) (p : Point) → In p (points t n)
      → p.payload.document_id ≡ found.id
      → p.payload.status ≡ approved
      → HasTags p.payload (approved_row user now (correct_by k found))
  written-HasTags k user now s t found pending mirrors homed separate sent n p i own shown =
      elim (Option-cases (corrected (approve_fields k).classification found.classification)) [
        | inl plain ↦
            let (q, j, mine, e) =
              updated_chunk c s t (approve_fields k) found.id n p
                (update_document_payload-IsUpdated c laws s t found.id found.classification
                  (approve_fields k) sent (classification_collection_name found.classification)
                  plain homed)
                i own in
            copy q n j mine e
        | inr (new, corrects) ↦
            let moved =
              update_document_payload-HasMoved c laws s t found.id found.classification
                (approve_fields k) sent new corrects (separate new corrects) homed in
            elim (moved.rest n p i own) [
              | inl (_, q, j, e) ↦
                  copy q _ j (sym (ap (λ (x : Point). x.payload.document_id) e) ∙ own) e
              | inr (_, j) ↦ absurd (differ (sym pending ∙ sym (mirrors _ p j own).1 ∙ shown))
            ]
      ]
    where
      copy :
          (q : Point) (m : String)
          → In q (points s m)
          → q.payload.document_id ≡ found.id
          → p ≡ set_point (approve_fields k) q
          → HasTags p.payload (approved_row user now (correct_by k found))
      copy q m j mine e =
          subst (λ (x : Point). HasTags x.payload (approved_row user now (correct_by k found)))
            (sym e) (approved-HasTags k user now found q (mirrors m q j mine).0)

      differ : pending_review ≡ approved → ⊥
      differ e = cc
