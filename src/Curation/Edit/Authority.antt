-- ===== src/Curation/Edit/Authority.antt =====
-- An edit puts no tags in force that its editor may not grant.
use nexus_rag.Base.{
  ◌≡◌, ◌⊎◌, inl, inr, refl, sym, ◌∙◌, ap, subst, arith, String, Bool, true, false, not, Option,
  none, some, is_some, Result, ok, err, List, Bool-cases,
}
use nexus_rag.Document.{Uuid, Time, Document, approved}
use nexus_rag.Access.Claims.{UserClaims}
use nexus_rag.Vector.Client.{Client}
use nexus_rag.Database.{Database, find_document}
use nexus_rag.Curation.Http.{HttpError}
use nexus_rag.Curation.Authority.{authorized_for_tags}
use nexus_rag.Curation.World.{World, Moment}
use nexus_rag.Curation.World.Outcome.{write_both-ok}
use nexus_rag.Curation.Edit.{
  DocumentEdit, changed_tags, tags_changed, edited_row, is_demoted, resulting_row, demote,
  changed_qdrant, is_nothing, edit_writes, edit_both, commit_only, edit_metadata, load_editable,
  edit_found,
}

-- Why a row is approved after an edit: it was before, and its tags are the same or are ones that
-- the editor is cleared for and holds.
pub record IsBacked (db : Database) (user : UserClaims) (found d : Document) : Type 0 where
  pub was_approved : found.status ≡ approved
  pub tags :
      ((d.classification ≡ found.classification) × (d.releasability ≡ found.releasability))
      ⊎ (authorized_for_tags user d.classification d.releasability db.classification_levels ≡ true)

same_tags :
    (body : DocumentEdit) (found : Document)
    → tags_changed body found ≡ false
    → ((edited_row body found).classification ≡ found.classification)
      × ((edited_row body found).releasability ≡ found.releasability)
unfolding tags_changed edited_row
same_tags body found e = ground (
  arith,
  cases (changed_tags body found).classification,
  cases_list (changed_tags body found).releasability,
)
  where
    cases : (o : Option String) → is_some o ≡ false → o ≡ none
    cases none q = refl
    cases (some a) q = cc

    cases_list : (o : Option (List String)) → is_some o ≡ false → o ≡ none
    cases_list none q = refl
    cases_list (some a) q = cc

edited_status :
    (body : DocumentEdit) (found : Document) → (edited_row body found).status ≡ found.status
unfolding edited_row
edited_status body found = refl

not_demoted :
    (db : Database) (user : UserClaims) (body : DocumentEdit) (found : Document)
    → found.status ≡ approved
    → is_demoted db user body found ≡ false
    → (tags_changed body found ≡ false)
      ⊎ (authorized_for_tags user
            (edited_row body found).classification
            (edited_row body found).releasability
            db.classification_levels
          ≡ true)
unfolding is_demoted
not_demoted db user body found was e = elim (Bool-cases (tags_changed body found)) [
  | inr q ↦ inl q
  | inl q ↦ inr (granted _ (rw (q, was) at e))
]
  where
    granted : (b : Bool) → not b ≡ false → b ≡ true
    granted true k = refl
    granted false k = cc

resulting_row-IsBacked :
    (db : Database) (user : UserClaims) (now : Time) (body : DocumentEdit) (found : Document)
    → (resulting_row db user now body found).status ≡ approved
    → IsBacked db user found (resulting_row db user now body found)
unfolding resulting_row
resulting_row-IsBacked db user now body found shown = go (is_demoted db user body found) refl shown
  where
    go :
        (b : Bool)
        → is_demoted db user body found ≡ b
        → (record (demote b (edited_row body found)) { updated_at = now }).status ≡ approved
        → IsBacked db user found (record (demote b (edited_row body found)) { updated_at = now })
    go true e s = cc
    go false e s =
        let was : found.status ≡ approved = sym (edited_status body found) ∙ s in
        record {
          was_approved = was;
          tags = elim (not_demoted db user body found was e) [
            | inl q ↦ inl (same_tags body found q)
            | inr q ↦ inr q
          ];
        }

module _ (c : Client) where
  open c use {State}

  written-IsBacked :
      (m : Moment) (user : UserClaims) (body : DocumentEdit) (w v : World State)
      (found d : Document)
      → edit_writes c m user body w (ok found) ≡ (ok d, v)
      → d.status ≡ approved
      → IsBacked w.db user found d
  written-IsBacked m user body w v found d e shown =
      let same = answer (Bool-cases (is_nothing (changed_qdrant w.db user body found))) in
      subst (IsBacked w.db user found) (sym same) (
        resulting_row-IsBacked w.db user m.now body found
          (sym (ap (λ (x : Document). x.status) same) ∙ shown))
    where
      only :
          (b : Bool) (x : Database) (doc : Document) → commit_only c b w x doc ≡ (ok d, v) → d ≡ doc
      only true x doc q = cc
      only false x doc q = cc

      both :
          edit_both c m user body w found ≡ (ok d, v) → d ≡ resulting_row w.db user m.now body found
      both q = let (a, _, _, _, _, _) = write_both-ok m.commits w v _ _ _ _ _ d q in a

      answer :
          ((is_nothing (changed_qdrant w.db user body found) ≡ true)
            ⊎ (is_nothing (changed_qdrant w.db user body found) ≡ false))
          → d ≡ resulting_row w.db user m.now body found
      answer (inl q) = only m.commits _ (resulting_row w.db user m.now body found) (rw q at e)
      answer (inr q) = both (rw q at e)

  found-IsBacked :
      (m : Moment) (user : UserClaims) (id : Uuid) (body : DocumentEdit) (w v : World State)
      (d : Document) (r : Result HttpError Document)
      → load_editable w.db id user ≡ r
      → edit_writes c m user body w r ≡ (ok d, v)
      → d.status ≡ approved
      → (found : Document) × (find_document id w.db.documents ≡ some found)
        × IsBacked w.db user found d
  unfolding load_editable
  found-IsBacked m user id body w v d (ok found) h e shown = (
    found,
    row (find_document id w.db.documents) h,
    written-IsBacked m user body w v found d e shown,
  )
    where
      row : (o : Option Document) → edit_found user o ≡ ok found → o ≡ some found
      row none q = cc
      row (some x) q = ground arith
  found-IsBacked m user id body w v d (err x) h e shown = cc

  -- A row that an edit answers as approved was approved before it, and its classification and
  -- releasability are those it had or ones that the editor is cleared for and holds.
  pub edit_metadata-IsBacked :
      (m : Moment) (user : UserClaims) (id : Uuid) (body : DocumentEdit) (w v : World State)
      (d : Document)
      → edit_metadata c m user id body w ≡ (ok d, v)
      → d.status ≡ approved
      → (found : Document) × (find_document id w.db.documents ≡ some found)
        × IsBacked w.db user found d
  unfolding edit_metadata
  edit_metadata-IsBacked m user id body w v d e shown =
      found-IsBacked m user id body w v d (load_editable w.db id user) refl e shown
