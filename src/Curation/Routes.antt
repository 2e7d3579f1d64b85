-- ===== src/Curation/Routes.antt =====
-- services/ingestion-api/app/routes/curate.py: the four routes that change a document, behind their
-- guards, and sequences of requests.
pub mod Refused
pub mod History
pub mod Approved
pub mod Dated
use nexus_rag.Base.{String, Option, List, [], ◌∷◌, Result, ok, err, ◌>>=◌, ◌>>◌}
use nexus_rag.Document.{Uuid, Document}
use nexus_rag.Access.Claims.{UserClaims}
use nexus_rag.Vector.Client.{Client}
use nexus_rag.Database.{Corrections}
use nexus_rag.Curation.Http.{HttpError, RouteError, Cookies, verify_csrf, require_curator}
use nexus_rag.Curation.World.{World, Moment, refuse, refreshed}
use nexus_rag.Curation.Decide.{approve, reject, suspend}
use nexus_rag.Curation.Edit.{DocumentEdit, edit_metadata}

pub data Request : Type 0 where
  approve_request : Uuid → Option Corrections → Request
  reject_request : Uuid → String → Request
  suspend_request : Uuid → String → Request
  edit_request : Uuid → DocumentEdit → Request

-- A request as it arrives: who sends it, with which cookies, and when.
pub record Call : Type 0 where
  pub moment : Moment
  pub user : UserClaims
  pub cookies : Cookies
  pub request : Request

module _ (c : Client) where
  open c use {State}

  -- the body of a route, up to the `session.refresh(doc)` that ends it
  unfoldable pub dispatch :
      Moment → UserClaims → Request → World State → Result RouteError Document × World State
  dispatch m user (approve_request id corrections) w = approve c m user id corrections w
  dispatch m user (reject_request id reason) w = reject c m user id reason w
  dispatch m user (suspend_request id reason) w = suspend c m user id reason w
  dispatch m user (edit_request id body) w = edit_metadata c m user id body w

  abbrev pub admitted :
      Call → World State → Result HttpError (Unit {0}) → Result RouteError Document × World State
  admitted call w (ok tt) =
      refreshed call.moment.refreshes (dispatch call.moment call.user call.request w)
  admitted call w (err e) = refuse e w

  -- `Depends(require_curator)` and `Depends(verify_csrf)` before the route's body
  unfoldable pub handle : Call → World State → Result RouteError Document × World State
  handle call w = admitted call w (require_curator call.user >> verify_csrf call.cookies)

  unfoldable pub run : List Call → World State → World State
  run [] w = w
  run (call ∷ calls) w = run calls (handle call w).1
