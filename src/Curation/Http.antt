-- ===== src/Curation/Http.antt =====
-- The answers of the routes that are not a result, and the guards of
-- services/ingestion-api/app/deps.py.
use Prim.Native.Char.{code}
use Prim.Native.String.{String}
use nexus_rag.Base.{
  Bool, true, false, ltb, err, ◌&&◌, not, ◌||◌, Option, none, some, List, is_empty, is_truthy,
  str_eq, Result, ok, require, if◌then◌else◌,
}
use nexus_rag.Document.{Status}
use nexus_rag.Access.Claims.{UserClaims, can_ingest, is_admin, can_purge, curatable_orgs}
use nexus_rag.Vector.Exec.{StoreError}

-- HTTPException, by its status code and the facts in its message.
pub data HttpError : Type 0 where
  not_found : HttpError  -- 404
  forbidden_role : String → HttpError  -- 403, the role that is missing
  forbidden_csrf : HttpError  -- 403
  internal_error : HttpError  -- 500, a TypeError
  forbidden_clearance : HttpError  -- 403
  forbidden_releasability : List String → HttpError  -- 403
  forbidden_scope : HttpError  -- 403
  conflict_status : Status → HttpError  -- 409
  conflict_superseded_missing : HttpError  -- 409
  conflict_superseded_status : Status → HttpError  -- 409

-- What a route raises.
pub data RouteError : Type 0 where
  http : HttpError → RouteError
  store_failed : StoreError → RouteError
  commit_failed refresh_failed : RouteError

-- The parts of a request that `verify_csrf` reads: `none` is a cookie or header that is not there.
pub record Cookies : Type 0 where
  pub session : Option String
  pub csrf : Option String
  pub header : Option String

abbrev text_of : Option String → String
text_of none = ""
text_of (some s) = s

abbrev is_ascii : String → Bool
is_ascii String.[] = true
is_ascii (String.◌∷◌ c s) = let rest = is_ascii s in if ltb (code c) 128 then rest else false

-- `secrets.compare_digest` takes texts of ASCII only
unfoldable pub verify_csrf : Cookies → Result HttpError (Unit {0})
verify_csrf request =
    if not (is_truthy (text_of request.session))
    then ok tt
    else if not (is_truthy (text_of request.csrf)) || not (is_truthy (text_of request.header))
    then err forbidden_csrf
    else if not (is_ascii (text_of request.csrf) && is_ascii (text_of request.header))
    then err internal_error
    else require (str_eq (text_of request.csrf) (text_of request.header)) forbidden_csrf

unfoldable require_ingest : UserClaims → Result HttpError (Unit {0})
require_ingest user = require (can_ingest user) (forbidden_role "rag-ingest")

unfoldable pub require_curator : UserClaims → Result HttpError (Unit {0})
require_curator user = require (not (is_empty (curatable_orgs user))) (forbidden_role "rag-curate")

unfoldable require_admin : UserClaims → Result HttpError (Unit {0})
require_admin user = require (is_admin user) (forbidden_role "rag-admin")

unfoldable require_purge : UserClaims → Result HttpError (Unit {0})
require_purge user = require (can_purge user) (forbidden_role "rag-purge")

unfoldable require_curator_or_purge : UserClaims → Result HttpError (Unit {0})
require_curator_or_purge user =
    require (not (is_empty (curatable_orgs user)) || can_purge user)
      (forbidden_role "rag-curate or rag-purge")
