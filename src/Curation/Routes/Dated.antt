-- ===== src/Curation/Routes/Dated.antt =====
-- The date of the first approval through any sequence of curation requests.
use nexus_rag.Base.{
  ◌≡◌, refl, sym, ◌∙◌, ap, subst, arith, Bool, true, false, Option, some, none, Result, ok, err,
  ◌>>◌, Bool-cases, inl, inr, List, [], ◌∷◌,
}
use nexus_rag.Document.{Uuid, Document, Status, pending_review, approved}
use nexus_rag.Access.Claims.{UserClaims}
use nexus_rag.Vector.Client.{Client}
use nexus_rag.Database.{Database, find_document, put_document, Corrections}
use nexus_rag.Database.Rows.{find_document-id}
use nexus_rag.Curation.Http.{HttpError, RouteError, verify_csrf, require_curator}
use nexus_rag.Curation.World.{World, Moment, refreshed}
use nexus_rag.Curation.World.Outcome.{write_both-ok}
use nexus_rag.Curation.Authority.{load_pending, load_approved, load_row}
use nexus_rag.Curation.Authority.Standing.{load_row-ok}
use nexus_rag.Curation.Changes.{
  approve_checks, rejected_row, reject_rows, suspended_row, suspend_rows,
}
use nexus_rag.Curation.Decide.{approve, approve_writes, reject, suspend, status_writes}
use nexus_rag.Curation.Decide.Checks.{approve_checks-IsApprovable}
use nexus_rag.Curation.Edit.{
  DocumentEdit, edit_metadata, load_editable, edit_found, edit_writes, changed_qdrant, is_nothing,
  commit_only, edit_both, edit_rows, resulting_row, is_demoted,
}
use nexus_rag.Curation.Routes.{
  Request, approve_request, reject_request, suspend_request, edit_request, Call, dispatch, admitted,
  handle, run,
}
use nexus_rag.Curation.Routes.Refused.{refreshing, handle-IsRefused}
use nexus_rag.Curation.Routes.History.{
  Keeps, RowsKept, RowsKept-refl, RowsKept-trans, put_document-RowsKept, rejected_row-Keeps,
  suspended_row-Keeps, resulting_row-Keeps,
}
use nexus_rag.Curation.Routes.Approved.{approve_rows-RowsKept}

module _ (c : Client) where
  open c use {State}

  abbrev Later : World State → World State → Type 0
  Later w v = RowsKept w.db.documents v.db.documents

  approve-Later :
      (m : Moment) (user : UserClaims) (id : Uuid) (k : Option Corrections) (w v : World State)
      (d : Document) (r : Result HttpError (Document × Document × Option Document))
      → approve_checks w.db user id k ≡ r
      → approve_writes c m user k w r ≡ (ok d, v)
      → Later w v
  approve-Later m user id k w v d (ok (found, doc, old_doc)) h e =
      let (_, rows, _, _, _, _) = write_both-ok m.commits w v _ _ _ _ _ d e in
      subst (λ db. RowsKept w.db.documents db.documents) (sym rows)
        (approve_rows-RowsKept w.db user id m.now k found doc old_doc
          (approve_checks-IsApprovable w.db user id k found doc old_doc h))
  approve-Later m user id k w v d (err x) h e = cc

  status-Later :
      (m : Moment) (before : Status) (change : Document → Document)
      (rows : Document → Database → Database) (w v : World State) (d : Document)
      (r : Result HttpError Document)
      → ((found : Document)
          → r ≡ ok found
          → RowsKept w.db.documents (rows (change found) w.db).documents)
      → status_writes c m before change rows w r ≡ (ok d, v)
      → Later w v
  status-Later m before change rows w v d (ok found) h e =
      let (_, same, _, _, _, _) = write_both-ok m.commits w v _ _ _ _ _ d e in
      subst (λ db. RowsKept w.db.documents db.documents) (sym same) (h found refl)
  status-Later m before change rows w v d (err x) h e = cc

  loaded-RowsKept :
      (db : Database) (user : UserClaims) (id : Uuid) (status : Status)
      (change : Document → Document) (found : Document)
      → load_row (find_document id db.documents) user status db.classification_levels ≡ ok found
      → Keeps found (change found)
      → RowsKept db.documents (put_document (change found) db.documents)
  loaded-RowsKept db user id status change found e k =
      let (row, _, _) =
        load_row-ok (find_document id db.documents) user status db.classification_levels found e in
      put_document-RowsKept db.documents found (change found)
        (ap (λ n. find_document n db.documents)
            (k.same_id ∙ find_document-id id db.documents found row)
          ∙ row)
        k

  edit_found-row :
      (user : UserClaims) (row : Option Document) (found : Document)
      → edit_found user row ≡ ok found
      → row ≡ some found
  edit_found-row user none found e = cc
  edit_found-row user (some doc) found e = ground arith

  commit_only-Later :
      (commits : Bool) (w v : World State) (committed : Database) (doc d : Document)
      → RowsKept w.db.documents committed.documents
      → commit_only c commits w committed doc ≡ (ok d, v)
      → Later w v
  commit_only-Later true w v committed doc d k e =
      let same : committed ≡ v.db = ap (λ x. x.1.db) e in
      subst (λ db. RowsKept w.db.documents db.documents) same k
  commit_only-Later false w v committed doc d k e = cc

  edit_rows-RowsKept :
      (m : Moment) (user : UserClaims) (id : Uuid) (body : DocumentEdit) (demoted : Bool)
      (db : Database) (found : Document)
      → find_document id db.documents ≡ some found
      → RowsKept db.documents
          (edit_rows user m.now body demoted (resulting_row db user m.now body found) db).documents
  unfolding edit_rows
  edit_rows-RowsKept m user id body demoted db found row =
      let k = resulting_row-Keeps db user m.now body found in
      put_document-RowsKept db.documents found (resulting_row db user m.now body found)
        (ap (λ n. find_document n db.documents)
            (k.same_id ∙ find_document-id id db.documents found row)
          ∙ row)
        k

  edit-Later :
      (m : Moment) (user : UserClaims) (id : Uuid) (body : DocumentEdit) (w v : World State)
      (d : Document) (r : Result HttpError Document)
      → load_editable w.db id user ≡ r
      → edit_writes c m user body w r ≡ (ok d, v)
      → Later w v
  unfolding load_editable
  edit-Later m user id body w v d (ok found) h e =
      let row = edit_found-row user (find_document id w.db.documents) found h in
      elim (Bool-cases (is_nothing (changed_qdrant w.db user body found))) [
        | inl q ↦
            commit_only-Later m.commits w v _ _ d
              (edit_rows-RowsKept m user id body false w.db found row) (rw q at e)
        | inr q ↦ both row (rw q at e)
      ]
    where
      both :
          find_document id w.db.documents ≡ some found
          → edit_both c m user body w found ≡ (ok d, v)
          → Later w v
      both row q =
          let (_, same, _, _, _, _) = write_both-ok m.commits w v _ _ _ _ _ d q in
          subst (λ db. RowsKept w.db.documents db.documents) (sym same)
            (edit_rows-RowsKept m user id body (is_demoted w.db user body found) w.db found row)
  edit-Later m user id body w v d (err x) h e = cc

  dispatch-Later :
      (m : Moment) (user : UserClaims) (r : Request) (w v : World State) (d : Document)
      → dispatch c m user r w ≡ (ok d, v)
      → Later w v
  unfolding dispatch approve reject suspend edit_metadata load_pending load_approved reject_rows
      suspend_rows
  dispatch-Later m user (approve_request id k) w v d e = approve-Later m user id k w v d _ refl e
  dispatch-Later m user (reject_request id reason) w v d e =
      status-Later m pending_review (rejected_row user m.now reason) (reject_rows user m.now reason)
        w v d (load_pending w.db id user)
        (λ found q.
          loaded-RowsKept w.db user id pending_review (rejected_row user m.now reason) found q
            (rejected_row-Keeps user m.now reason found))
        e
  dispatch-Later m user (suspend_request id reason) w v d e =
      status-Later m approved suspended_row (suspend_rows user m.now reason) w v d
        (load_approved w.db id user)
        (λ found q.
          loaded-RowsKept w.db user id approved suspended_row found q (suspended_row-Keeps found))
        e
  dispatch-Later m user (edit_request id body) w v d e = edit-Later m user id body w v d _ refl e

  answered-Later :
      (call : Call) (w v : World State) (d : Document) (r : Result HttpError (Unit {0}))
      → admitted c call w r ≡ (ok d, v)
      → Later w v
  answered-Later call w v d (ok tt) e =
      dispatch-Later call.moment call.user call.request w v d
        (unrefreshed call.moment.refreshes (dispatch c call.moment call.user call.request w) e)
    where
      unrefreshed :
          (b : Bool) (r : Result RouteError Document × World State)
          → refreshed b r ≡ (ok d, v)
          → r ≡ (ok d, v)
      unrefreshed true r k = k
      unrefreshed false (ok x, u) k = cc
      unrefreshed false (err x, u) k = cc
  answered-Later call w v d (err x) e = cc

  handle-ok-Later :
      (call : Call) (w v : World State) (d : Document) → handle c call w ≡ (ok d, v) → Later w v
  unfolding handle
  handle-ok-Later call w v d e =
      answered-Later call w v d (require_curator call.user >> verify_csrf call.cookies) e

  handle-Later : (call : Call) (w : World State) → Later w (handle c call w).1
  handle-Later call w = go (handle c call w) refl
    where
      go : (r : Result RouteError Document × World State) → handle c call w ≡ r → Later w r.1
      go (ok d, v) e = handle-ok-Later call w v d e
      go (err x, v) e = elim (handle-IsRefused c call w v x e) [
        | inl same ↦
            subst (λ db. RowsKept w.db.documents db.documents) (sym same.0)
              (RowsKept-refl w.db.documents)
        | inr (_, d, fine) ↦ handle-ok-Later (refreshing c call) w v d fine
      ]

  -- Through any sequence of curation requests, by any callers and with any commits failing, every
  -- row stays under its id, the date of its first approval does not change once it is set, and a
  -- row that is approved or superseded at the end has the date if it did so, or was neither, at the
  -- start.
  pub run-RowsKept :
      (calls : List Call) (w : World State) → RowsKept w.db.documents (run c calls w).db.documents
  unfolding run
  run-RowsKept [] w = RowsKept-refl w.db.documents
  run-RowsKept (call ∷ calls) w =
      RowsKept-trans w.db.documents (handle c call w).1.db.documents _ (handle-Later call w)
        (run-RowsKept calls (handle c call w).1)
