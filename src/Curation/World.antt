-- ===== src/Curation/World.antt =====
-- The two stores that a decision writes, and the order in which it writes them.
pub mod Outcome
use nexus_rag.Base.{Bool, true, false, Result, ok, err}
use nexus_rag.Document.{Document, Time}
use nexus_rag.Vector.Exec.{Exec, StoreError, swallow}
use nexus_rag.Database.{Database}
use nexus_rag.Curation.Http.{
  HttpError, http, RouteError, store_failed, commit_failed, refresh_failed,
}

-- Postgres as committed, and the chunks.
pub record World (S : Type 0) : Type 0 where
  pub db : Database
  pub chunks : S

-- What a request meets: the clock, and whether the commit and the read of the row after it succeed.
pub record Moment : Type 0 where
  pub now : Time
  pub commits : Bool
  pub refreshes : Bool

module _ {S : Type 0} where
  -- `try: body; session.commit()`, `except: try: revert except: log`, `raise`
  abbrev pub settle :
      Bool → Exec S (Unit {0}) → Result StoreError (Unit {0}) × S → Result RouteError (Unit {0}) × S
  settle true revert (ok tt, u) = (ok tt, u)
  settle false revert (ok tt, u) = (err commit_failed, (swallow revert u).1)
  settle commits revert (err e, u) = (err (store_failed e), (swallow revert u).1)

  -- The first write to the chunks stands before the `try`: when it raises, nothing is reverted.
  abbrev pub guarded :
      Bool
      → Exec S (Unit {0})
      → Exec S (Unit {0})
      → Result StoreError (Unit {0}) × S
      → Result RouteError (Unit {0}) × S
  guarded commits body revert (ok tt, u) = settle commits revert (body u)
  guarded commits body revert (err e, u) = (err (store_failed e), u)

  -- A transaction that did not commit is rolled back.
  abbrev pub conclude :
      World S
      → Database
      → Document
      → Result RouteError (Unit {0}) × S
      → Result RouteError Document × World S
  conclude w committed doc (ok tt, u) = (ok doc, record { db = committed; chunks = u })
  conclude w committed doc (err e, u) = (err e, record { db = w.db; chunks = u })

  -- A decision: the chunks are written, then the rest of the body, then the rows are committed.
  unfoldable pub write_both :
      Bool
      → World S
      → Exec S (Unit {0})
      → Exec S (Unit {0})
      → Exec S (Unit {0})
      → Database
      → Document
      → Result RouteError Document × World S
  write_both commits w write body revert committed doc =
      conclude w committed doc (guarded commits body revert (write w.chunks))

  -- `session.refresh(doc)`, which ends every route: when it raises, everything is written.
  abbrev pub refreshed :
      Bool → Result RouteError Document × World S → Result RouteError Document × World S
  refreshed true r = r
  refreshed false (ok doc, w) = (err refresh_failed, w)
  refreshed false (err e, w) = (err e, w)

  -- A guard that raises leaves everything as it was.
  abbrev pub refuse : {A : Type 0} → HttpError → World S → Result RouteError A × World S
  refuse e w = (err (http e), w)
