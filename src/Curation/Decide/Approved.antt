-- ===== src/Curation/Decide/Approved.antt =====
-- What an answered approval means: who could give it, which rows it wrote, which chunks can be
-- found, and by whom.
use nexus_rag.Base.{
  ◌≡◌, refl, sym, ◌∙◌, ap, subst, String, true, false, Option, none, some, Result, ok, err, In,
  is_empty, nonempty-In, All-In,
}
use nexus_rag.Document.{Uuid, Document, pending_review, approved}
use nexus_rag.Access.Claims.{UserClaims, clearance, releasability}
use nexus_rag.Access.Levels.{allowed_classifications}
use nexus_rag.Access.Metadata.{access_scope_authorized}
use nexus_rag.Access.Metadata.Authority.{releasability_authorized-All}
use nexus_rag.Access.Payload.{Payload, passes}
use nexus_rag.Access.Filter.{build_access_filter}
use nexus_rag.Access.Filter.Visible.{build_access_filter_iff}
use nexus_rag.Vector.Names.{classification_collection_name}
use nexus_rag.Vector.Exec.{Returns}
use nexus_rag.Vector.Client.{Client, ClientLaws, Point}
use nexus_rag.Vector.Store.{update_document_payload}
use nexus_rag.Vector.Store.Carry.{IsHomed}
use nexus_rag.Database.{find_document, Corrections}
use nexus_rag.Curation.Http.{HttpError}
use nexus_rag.Curation.World.{World, Moment}
use nexus_rag.Curation.World.Outcome.{write_both-ok}
use nexus_rag.Curation.Changes.{approve_checks, approve_rows, approved_row, approve_fields}
use nexus_rag.Curation.Decide.{approve, approve_writes, delete_old}
use nexus_rag.Curation.Decide.Checks.{correct_by, IsApprovable, approve_checks-IsApprovable}
use nexus_rag.Curation.Decide.Released.{
  HasTags, Mirrors, IsSeparate, delete_old-from, written-HasTags,
}

module _ (c : Client) where
  open c use {State, points}

  -- How an answered approval went.
  pub record Approval (m : Moment) (user : UserClaims) (id : Uuid) (k : Option Corrections)
      (w v : World State) (d : Document) : Type 0 where
    pub found : Document
    pub doc : Document
    pub old_doc : Option Document
    pub checked : IsApprovable w.db user id k found doc old_doc
    pub answer : d ≡ approved_row user m.now doc
    pub rows : v.db ≡ approve_rows user m.now k old_doc (approved_row user m.now doc) w.db
    pub written : State
    pub sent :
        Returns
          (update_document_payload c found.id found.classification (approve_fields k))
          w.chunks
          tt
          written
    pub swept : Returns (delete_old c old_doc) written tt v.chunks

  checks-Approval :
      (m : Moment) (user : UserClaims) (id : Uuid) (k : Option Corrections) (w v : World State)
      (d : Document) (r : Result HttpError (Document × Document × Option Document))
      → approve_checks w.db user id k ≡ r
      → approve_writes c m user k w r ≡ (ok d, v)
      → Approval m user id k w v d
  unfolding approved_row
  checks-Approval m user id k w v d (ok (found, doc, old_doc)) h e =
      let (answer, rows, _, u, sent, swept) = write_both-ok m.commits w v _ _ _ _ _ d e in
      let checked = approve_checks-IsApprovable w.db user id k found doc old_doc h in
      record {
        found = found;
        doc = doc;
        old_doc = old_doc;
        checked = checked;
        answer = answer;
        rows = rows;
        written = u;
        sent =
            subst
              (λ n.
                Returns (update_document_payload c n found.classification (approve_fields k))
                  w.chunks tt u)
              (ap (λ (x : Document). x.id) checked.corrected ∙ same_id k found) sent;
        swept = swept;
      }
    where
      same_id : (j : Option Corrections) (f : Document) → (correct_by j f).id ≡ f.id
      same_id none f = refl
      same_id (some j) f = refl
  checks-Approval m user id k w v d (err x) h e = cc

  -- An approval that is answered was given by a curator with authority over the pending row, before
  -- and after its corrections, and over the approved version that it replaces, if it replaces one;
  -- it wrote the corrected row as approved.
  pub approve-Approval :
      (m : Moment) (user : UserClaims) (id : Uuid) (k : Option Corrections) (w v : World State)
      (d : Document)
      → approve c m user id k w ≡ (ok d, v)
      → Approval m user id k w v d
  unfolding approve
  approve-Approval m user id k w v d e =
      checks-Approval m user id k w v d (approve_checks w.db user id k) refl e

  -- A chunk that is approved and carries the tags of the answered row can be retrieved by the
  -- curator who approved it, if the row has a releasability value.
  approve-passes :
      (m : Moment) (user : UserClaims) (id : Uuid) (k : Option Corrections) (w v : World State)
      (d : Document) (p : Payload)
      → approve c m user id k w ≡ (ok d, v)
      → is_empty d.releasability ≡ false
      → HasTags p d
      → p.status ≡ approved
      → passes
          (build_access_filter user
            (allowed_classifications w.db.classification_levels (clearance user)))
          p
        ≡ true
  unfolding approved_row
  approve-passes m user id k w v d p e some_value tags shown =
      let how = approve-Approval m user id k w v d e in
      let h = how.checked.corrected_standing in
      let (value, listed) = nonempty-In how.doc.releasability (rw how.answer at some_value) in
      (build_access_filter_iff user
          (allowed_classifications w.db.classification_levels (clearance user)) p).1
        (record {
          is_approved = shown;
          cleared =
              subst
                (λ x. In x (allowed_classifications w.db.classification_levels (clearance user)))
                (sym (tags.classification ∙ ap (λ (x : Document). x.classification) how.answer))
                h.cleared;
          released = record {
            value = value;
            listed =
                subst (In value)
                  (sym (tags.releasability ∙ ap (λ (x : Document). x.releasability) how.answer))
                  listed;
            releasable =
                All-In _ how.doc.releasability
                  ((releasability_authorized-All how.doc.releasability (releasability user)).0
                    h.released)
                  value listed;
          };
          in_scope =
              subst (λ l. access_scope_authorized l user.sub user.groups user.org ≡ true)
                (sym (tags.access_scope ∙ ap (λ (x : Document). x.access_scope) how.answer))
                (h.scoped
                  (pending_still k how.found how.doc how.checked.corrected how.checked.pending));
        })
    where
      pending_still :
          (j : Option Corrections) (f x : Document)
          → x ≡ correct_by j f
          → f.status ≡ pending_review
          → x.status ≡ pending_review
      pending_still none f x q s = ap (λ (y : Document). y.status) q ∙ s
      pending_still (some j) f x q s = ap (λ (y : Document). y.status) q ∙ s

module _ (c : Client) (laws : ClientLaws c) where
  open c use {State, points}

  -- When an approval answers, every chunk of the document that readers can find as approved carries
  -- the tags of the answered row, if before it they carried the tags and the status of the pending row
  -- and lived in its collection, and if a correction of the classification leads to another one.
  pub approve-HasTags :
      (m : Moment) (user : UserClaims) (id : Uuid) (k : Option Corrections) (w v : World State)
      (found d : Document)
      → find_document id w.db.documents ≡ some found
      → Mirrors c w.chunks found
      → IsHomed c w.chunks found.id (classification_collection_name found.classification)
      → IsSeparate k found
      → approve c m user id k w ≡ (ok d, v)
      → (n : String) (p : Point) → In p (points v.chunks n)
      → p.payload.document_id ≡ found.id
      → p.payload.status ≡ approved
      → HasTags p.payload d
  approve-HasTags m user id k w v found d row mirrors homed separate e n p i own shown =
      let how = approve-Approval c m user id k w v d e in
      let same : how.found ≡ found = found_same how.found (sym how.checked.row ∙ row) in
      let i' = delete_old-from c laws how.written v.chunks how.old_doc how.swept n p i in
      subst (λ x. HasTags p.payload x)
        (ap (λ x. approved_row user m.now (correct_by k x)) (sym same)
          ∙ ap (approved_row user m.now) (sym how.checked.corrected)
          ∙ sym how.answer)
        (written-HasTags c laws k user m.now w.chunks how.written found
          (ap (λ (x : Document). x.status) (sym same) ∙ how.checked.pending) mirrors homed separate
          (subst
            (λ (x : Document).
              Returns (update_document_payload c x.id x.classification (approve_fields k)) w.chunks
                tt how.written)
            same how.sent)
          n p i' own shown)
    where
      found_same : (a : Document) → Path (Option Document) (some a) (some found) → a ≡ found
      found_same a q = cc
