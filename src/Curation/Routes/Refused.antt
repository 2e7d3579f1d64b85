-- ===== src/Curation/Routes/Refused.antt =====
-- A request that fails changes no row, and one that is refused changes nothing.
use nexus_rag.Base.{
  ◌≡◌, ◌⊎◌, Bool, true, false, Option, Result, ok, err, ◌>>◌, Bool-cases, inl, inr,
}
use nexus_rag.Document.{Document, Status, pending_review, approved}
use nexus_rag.Access.Claims.{UserClaims}
use nexus_rag.Vector.Client.{Client}
use nexus_rag.Database.{Database, Corrections}
use nexus_rag.Curation.Http.{
  RouteError, http, refresh_failed, HttpError, verify_csrf, require_curator,
}
use nexus_rag.Curation.World.{World, Moment, refuse, refreshed}
use nexus_rag.Curation.World.Outcome.{write_both-err}
use nexus_rag.Curation.Changes.{rejected_row, reject_rows, suspended_row, suspend_rows}
use nexus_rag.Curation.Decide.{approve, approve_writes, reject, suspend, status_writes}
use nexus_rag.Curation.Edit.{
  DocumentEdit, edit_metadata, edit_writes, changed_qdrant, is_nothing, commit_only, edit_both,
}
use nexus_rag.Curation.Routes.{
  Request, approve_request, reject_request, suspend_request, edit_request, Call, dispatch, admitted,
  handle,
}

module _ {S : Type 0} where
  abbrev pub IsRefused : World S → RouteError → World S → Type 0
  IsRefused w x v = (v.db ≡ w.db) × ((e : HttpError) → x ≡ http e → v ≡ w)

  refuse-IsRefused :
      (w v : World S) (e : HttpError) (x : RouteError)
      → refuse {A = Document} e w ≡ (err x, v)
      → IsRefused w x v
  refuse-IsRefused w v e x q = (cc, λ f k. cc)

module _ (c : Client) where
  open c use {State}

  approve-IsRefused :
      (m : Moment) (user : UserClaims) (k : Option Corrections) (w v : World State) (x : RouteError)
      (r : Result HttpError (Document × Document × Option Document))
      → approve_writes c m user k w r ≡ (err x, v)
      → IsRefused w x v
  approve-IsRefused m user k w v x (ok (found, corrected, old_doc)) e =
      write_both-err m.commits w v _ _ _ _ _ x e
  approve-IsRefused m user k w v x (err y) e = refuse-IsRefused w v y x e

  status-IsRefused :
      (m : Moment) (before : Status) (change : Document → Document)
      (rows : Document → Database → Database) (w v : World State) (x : RouteError)
      (r : Result HttpError Document)
      → status_writes c m before change rows w r ≡ (err x, v)
      → IsRefused w x v
  status-IsRefused m before change rows w v x (ok found) e =
      write_both-err m.commits w v _ _ _ _ _ x e
  status-IsRefused m before change rows w v x (err y) e = refuse-IsRefused w v y x e

  commit_only-IsRefused :
      (commits : Bool) (w v : World State) (committed : Database) (doc : Document) (x : RouteError)
      → commit_only c commits w committed doc ≡ (err x, v)
      → IsRefused w x v
  commit_only-IsRefused true w v committed doc x e = cc
  commit_only-IsRefused false w v committed doc x e = (cc, λ f k. cc)

  edit-IsRefused :
      (m : Moment) (user : UserClaims) (body : DocumentEdit) (w v : World State) (x : RouteError)
      (r : Result HttpError Document)
      → edit_writes c m user body w r ≡ (err x, v)
      → IsRefused w x v
  edit-IsRefused m user body w v x (ok found) e =
      elim (Bool-cases (is_nothing (changed_qdrant w.db user body found))) [
        | inl q ↦ commit_only-IsRefused m.commits w v _ _ x (rw q at e)
        | inr q ↦ both (rw q at e)
      ]
    where
      both : edit_both c m user body w found ≡ (err x, v) → IsRefused w x v
      both q = write_both-err m.commits w v _ _ _ _ _ x q
  edit-IsRefused m user body w v x (err y) e = refuse-IsRefused w v y x e

  dispatch-IsRefused :
      (m : Moment) (user : UserClaims) (r : Request) (w v : World State) (x : RouteError)
      → dispatch c m user r w ≡ (err x, v)
      → IsRefused w x v
  unfolding dispatch approve reject suspend edit_metadata
  dispatch-IsRefused m user (approve_request id k) w v x e = approve-IsRefused m user k w v x _ e
  dispatch-IsRefused m user (reject_request id reason) w v x e =
      status-IsRefused m pending_review (rejected_row user m.now reason)
        (reject_rows user m.now reason) w v x _ e
  dispatch-IsRefused m user (suspend_request id reason) w v x e =
      status-IsRefused m approved suspended_row (suspend_rows user m.now reason) w v x _ e
  dispatch-IsRefused m user (edit_request id body) w v x e = edit-IsRefused m user body w v x _ e

  abbrev pub refreshing : Call → Call
  refreshing call = record call { moment = record call.moment { refreshes = true } }

  -- What a request that raised left behind; `fine` is what it gives where the last read does not raise.
  abbrev pub HasFailed :
      World State → RouteError → World State → Result RouteError Document × World State → Type 0
  HasFailed w x v fine =
      IsRefused w x v ⊎ ((x ≡ refresh_failed) × (d : Document) × (fine ≡ (ok d, v)))

  refreshed-HasFailed :
      (b : Bool) (w v : World State) (x : RouteError) (r : Result RouteError Document × World State)
      → ((y : RouteError) (u : World State) → r ≡ (err y, u) → IsRefused w y u)
      → refreshed b r ≡ (err x, v)
      → HasFailed w x v r
  refreshed-HasFailed true w v x r h e = inl (h x v e)
  refreshed-HasFailed false w v x (ok d, u) h e = inr (cc, d, cc)
  refreshed-HasFailed false w v x (err y, u) h e = inl (h x v e)

  -- A request that raises leaves every row as it was, and one that is answered by an HTTP error
  -- leaves the chunks as they were too, whichever route it is for. The one exception is a request
  -- whose last read of its row raises, after the commit: it leaves what it leaves when it is answered.
  pub handle-IsRefused :
      (call : Call) (w v : World State) (x : RouteError)
      → handle c call w ≡ (err x, v)
      → HasFailed w x v (handle c (refreshing call) w)
  unfolding handle dispatch approve reject suspend edit_metadata
  handle-IsRefused call w v x e = go (require_curator call.user >> verify_csrf call.cookies) e
    where
      go :
          (r : Result HttpError (Unit {0}))
          → admitted c call w r ≡ (err x, v)
          → HasFailed w x v (admitted c (refreshing call) w r)
      go (ok tt) q =
          refreshed-HasFailed call.moment.refreshes w v x
            (dispatch c call.moment call.user call.request w)
            (λ y u k. dispatch-IsRefused call.moment call.user call.request w u y k) q
      go (err y) q = inl (refuse-IsRefused w v y x q)
