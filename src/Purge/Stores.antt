-- ===== src/Purge/Stores.antt =====
-- The stores that a purge writes (services/common/common/object_store.py is the third), and what it
-- raises.
use nexus_rag.Base.{String, ◌≡◌, Bool, false, Result, ok, err}
use nexus_rag.Document.{Time}
use nexus_rag.Vector.Exec.{StoreError}
use nexus_rag.Database.{Database}

pub data DeleteError : Type 0 where
  file_not_found other_failure : DeleteError

-- The backend of `get_object_store()`: its `delete`, and which keys it holds.
pub record ObjectStore : Type 1 where
  pub State : Type 0
  pub holds : State → String → Bool
  pub delete : String → State → Result DeleteError (Unit {0}) × State

-- A key that was deleted, or was not found, is not held.
pub record ObjectLaws (o : ObjectStore) : Type 0 where
  pub deleted : (key : String) (s t : o.State) → o.delete key s ≡ (ok tt, t) → o.holds t key ≡ false
  pub not_found :
      (key : String) (s t : o.State)
      → o.delete key s ≡ (err file_not_found, t)
      → o.holds t key ≡ false

pub record Stores (S O : Type 0) : Type 0 where
  pub db : Database
  pub chunks : S
  pub objects : O

-- PurgeError and PurgeRequestError, by the facts in their messages, and a commit that raises.
pub data PurgeError : Type 0 where
  document_not_found : PurgeError
  chunks_failed : StoreError → PurgeError
  original_failed : PurgeError
  commit_failed : PurgeError
  already_purged : PurgeError
  already_requested : PurgeError
  request_not_found : PurgeError
  request_expired : PurgeError
  same_person : PurgeError

-- The clock at each reading, and whether each commit lands.
pub record Course : Type 0 where
  pub marked_at : Time
  pub purged_at : Time
  pub first_commits : Bool
  pub last_commits : Bool
