-- ===== src/Curation/Decide/Reverted.antt =====
-- An approval whose commit fails: what its revert leaves in the chunks.
use nexus_rag.Base.{
  Result-cases, inl, inr, ◌≡◌, refl, sym, ◌∙◌, ap, subst, String, Option, none, some, Result, ok,
  err, In,
}
use nexus_rag.Document.{Uuid, Time, Document, pending_review}
use nexus_rag.Access.Claims.{UserClaims}
use nexus_rag.Vector.Exec.{StoreError, Returns}
use nexus_rag.Vector.Client.{Client, ClientLaws, Point, set_point}
use nexus_rag.Vector.Store.{update_document_payload, corrected}
use nexus_rag.Vector.Store.Carry.{IsHomed, IsUpdated}
use nexus_rag.Vector.Store.Whole.{update_document_payload-IsUpdated}
use nexus_rag.Database.{find_document, Corrections}
use nexus_rag.Curation.Http.{HttpError, RouteError, http, commit_failed}
use nexus_rag.Curation.World.{World, Moment}
use nexus_rag.Curation.World.Outcome.{write_both-commit_failed}
use nexus_rag.Curation.Changes.{approve_checks, approve_fields, approved_row, status_fields}
use nexus_rag.Curation.Decide.{approve, approve_writes, delete_old}
use nexus_rag.Curation.Decide.Checks.{correct_by, IsApprovable, approve_checks-IsApprovable}
use nexus_rag.Curation.Decide.Withdrawn.{updated_chunk}
use nexus_rag.Curation.Decide.Released.{delete_old-from}

module _ (c : Client) where
  open c use {State, points}

  -- the revert of an approval
  abbrev pub revert : Document → Option Corrections → State → Result StoreError (Unit {0}) × State
  revert found k =
      update_document_payload c found.id (correct_by k found).classification
        (status_fields pending_review)

  -- Every chunk of the document has the corrected tags of the failed approval and is pending.
  abbrev IsReverted : State → State → Option Corrections → Document → Type 0
  IsReverted s t k found =
      (n : String) (p : Point)
      → In p (points t n)
      → p.payload.document_id ≡ found.id
      → (q : Point) × In q (points s n)
        × (p ≡ set_point (status_fields pending_review) (set_point (approve_fields k) q))

  -- The chunks are as the revert left them, and if it returned they are reverted.
  pub record Unapproved (k : Option Corrections) (found : Document) (s t : State) : Type 0 where
    pub reached : State
    pub reverted : t ≡ (revert found k reached).1
    pub chunks : Returns (revert found k) reached tt t → IsReverted s t k found

module _ (c : Client) (laws : ClientLaws c) where
  open c use {State, points}

  revert-IsReverted :
      (k : Option Corrections) (old_doc : Option Document) (found : Document) (s u y t : State)
      (home : String)
      → IsHomed c s found.id home
      → corrected (approve_fields k).classification found.classification ≡ none
      → Returns (update_document_payload c found.id found.classification (approve_fields k)) s tt u
      → Returns (delete_old c old_doc) u tt y
      → Returns (revert c found k) y tt t
      → IsReverted c s t k found
  revert-IsReverted k old_doc found s u y t home homed plain sent swept back n p i own =
      let (q1, j, mine, e) =
        updated_chunk c y t (status_fields pending_review) found.id n p second i own in
      let (q, j2, _, e2) = earlier n q1 j mine in
      (q, j2, e ∙ ap (set_point (status_fields pending_review)) e2)
    where
      first : IsUpdated c s u (approve_fields k) found.id
      first =
          update_document_payload-IsUpdated c laws s u found.id found.classification
            (approve_fields k) sent home plain homed

      earlier :
          (m : String) (r : Point)
          → In r (points y m)
          → r.payload.document_id ≡ found.id
          → (q : Point) × In q (points s m)
            × (q.payload.document_id ≡ found.id)
            × (r ≡ set_point (approve_fields k) q)
      earlier m r j mine =
          updated_chunk c s u (approve_fields k) found.id m r first
            (delete_old-from c laws u y old_doc swept m r j) mine

      still_homed : IsHomed c y found.id home
      still_homed = record {
        prefixed = homed.prefixed;
        only = λ m r j mine. let (q, j2, own2, _) = earlier m r j mine in homed.only m q j2 own2;
      }

      second : IsUpdated c y t (status_fields pending_review) found.id
      second =
          update_document_payload-IsUpdated c laws y t found.id (correct_by k found).classification
            (status_fields pending_review) back home refl still_homed

  -- the same, where the calls name the row that was written
  written-Unapproved :
      (k : Option Corrections) (old_doc : Option Document) (found : Document) (s u y t : State)
      (home : String) (n : Uuid) (level : String)
      → n ≡ found.id
      → level ≡ (correct_by k found).classification
      → IsHomed c s found.id home
      → corrected (approve_fields k).classification found.classification ≡ none
      → Returns (update_document_payload c n found.classification (approve_fields k)) s tt u
      → Returns (delete_old c old_doc) u tt y
      → t ≡ (update_document_payload c n level (status_fields pending_review) y).1
      → Unapproved c k found s t
  written-Unapproved k old_doc found s u y t home n level own same homed plain sent swept back =
      record {
        reached = y;
        reverted =
            back
            ∙ ap (λ i. (update_document_payload c i level (status_fields pending_review) y).1) own
            ∙ ap (λ l. (update_document_payload c found.id l (status_fields pending_review) y).1)
                same;
        chunks = λ returned.
            revert-IsReverted k old_doc found s u y t home homed plain
              (subst
                (λ i.
                  Returns (update_document_payload c i found.classification (approve_fields k)) s tt
                    u)
                own sent)
              swept returned;
      }

  kept :
      (user : UserClaims) (now : Time) (k : Option Corrections) (f doc : Document)
      → doc ≡ correct_by k f
      → ((approved_row user now doc).id ≡ f.id)
        × ((approved_row user now doc).classification ≡ (correct_by k f).classification)
  unfolding approved_row
  kept user now none f doc e =
      (ap (λ (x : Document). x.id) e, ap (λ (x : Document). x.classification) e)
  kept user now (some j) f doc e =
      (ap (λ (x : Document). x.id) e, ap (λ (x : Document). x.classification) e)

  some_same : (a b : Document) → Path (Option Document) (some a) (some b) → a ≡ b
  some_same a b q = cc

  checked-Unapproved :
      (m : Moment) (user : UserClaims) (id : Uuid) (k : Option Corrections) (w v : World State)
      (home : String) (f doc : Document) (old_doc : Option Document)
      → IsHomed c w.chunks f.id home
      → corrected (approve_fields k).classification f.classification ≡ none
      → IsApprovable w.db user id k f doc old_doc
      → approve_writes c m user k w (ok (f, doc, old_doc)) ≡ (err commit_failed, v)
      → Unapproved c k f w.chunks v.chunks
  checked-Unapproved m user id k w v home f doc old_doc homed plain checked e =
      let (u, y, sent, swept, back) = write_both-commit_failed m.commits w v _ _ _ _ _ e in
      let (own, level) = kept user m.now k f doc checked.corrected in
      written-Unapproved k old_doc f w.chunks u y v.chunks home (approved_row user m.now doc).id
        (approved_row user m.now doc).classification own level homed plain sent swept back

  refused :
      (m : Moment) (user : UserClaims) (k : Option Corrections) (w v : World State) (x : HttpError)
      → approve_writes c m user k w (err x) ≡ (err commit_failed, v)
      → ⊥
  refused m user k w v x e = kinds (ap (λ y. y.0) e)
    where
      kinds : Path (Result RouteError Document) (err (http x)) (err commit_failed) → ⊥
      kinds q = cc

  loaded-Unapproved :
      (m : Moment) (user : UserClaims) (id : Uuid) (k : Option Corrections) (w v : World State)
      (home : String) (found f doc : Document) (old_doc : Option Document)
      → find_document id w.db.documents ≡ some found
      → IsHomed c w.chunks found.id home
      → corrected (approve_fields k).classification found.classification ≡ none
      → IsApprovable w.db user id k f doc old_doc
      → approve_writes c m user k w (ok (f, doc, old_doc)) ≡ (err commit_failed, v)
      → Unapproved c k found w.chunks v.chunks
  loaded-Unapproved m user id k w v home found f doc old_doc row homed plain checked e =
      let same : found ≡ f = some_same found f (sym row ∙ checked.row) in
      subst (λ x. Unapproved c k x w.chunks v.chunks) (sym same)
        (checked-Unapproved m user id k w v home f doc old_doc
          (subst (λ (x : Document). IsHomed c w.chunks x.id home) same homed)
          (subst
            (λ (x : Document). corrected (approve_fields k).classification x.classification ≡ none)
            same plain)
          checked e)

  -- When the commit fails of an approval that does not correct the classification, the chunks are
  -- as its revert leaves them, and if the revert returns, every chunk of the document is pending
  -- but has the corrected releasability and access scope, if its chunks lived in one collection that
  -- has the name of a classification's.
  pub approve-Unapproved :
      (m : Moment) (user : UserClaims) (id : Uuid) (k : Option Corrections) (w v : World State)
      (found : Document) (home : String)
      → find_document id w.db.documents ≡ some found
      → IsHomed c w.chunks found.id home
      → corrected (approve_fields k).classification found.classification ≡ none
      → approve c m user id k w ≡ (err commit_failed, v)
      → Unapproved c k found w.chunks v.chunks
  unfolding approve
  approve-Unapproved m user id k w v found home row homed plain e =
      elim (Result-cases (approve_checks w.db user id k)) [
        | inl ((f, doc, old_doc), q) ↦
            loaded-Unapproved m user id k w v home found f doc old_doc row homed plain
              (approve_checks-IsApprovable w.db user id k f doc old_doc q)
              (subst (λ r. approve_writes c m user k w r ≡ (err commit_failed, v)) q e)
        | inr (x, q) ↦ absurd (
            refused m user k w v x
              (subst (λ r. approve_writes c m user k w r ≡ (err commit_failed, v)) q e))
      ]
