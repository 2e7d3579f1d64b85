-- ===== src/Curation/World/Outcome.antt =====
-- What an answer says of how the writes went.
use nexus_rag.Base.{◌≡◌, refl, Bool, true, false, Result, ok, err}
use nexus_rag.Document.{Document}
use nexus_rag.Vector.Exec.{Exec, StoreError, Returns}
use nexus_rag.Database.{Database}
use nexus_rag.Curation.Http.{RouteError, commit_failed, http, HttpError}
use nexus_rag.Curation.World.{World, settle, guarded, conclude, write_both}

module _ {S : Type 0} where
  conclude-ok :
      (w v : World S) (committed : Database) (doc d : Document)
      (r : Result RouteError (Unit {0}) × S)
      → conclude w committed doc r ≡ (ok d, v)
      → (d ≡ doc) × (v.db ≡ committed) × (r ≡ (ok tt, v.chunks))
  conclude-ok w v committed doc d (ok tt, u) e = (cc, cc, cc)
  conclude-ok w v committed doc d (err x, u) e = cc

  conclude-err :
      (w v : World S) (committed : Database) (doc : Document) (x : RouteError)
      (r : Result RouteError (Unit {0}) × S)
      → conclude w committed doc r ≡ (err x, v)
      → (v.db ≡ w.db) × (r ≡ (err x, v.chunks))
  conclude-err w v committed doc x (ok tt, u) e = cc
  conclude-err w v committed doc x (err y, u) e = (cc, cc)

  settle-ok :
      (commits : Bool) (revert : Exec S (Unit {0})) (r : Result StoreError (Unit {0}) × S) (u : S)
      → settle commits revert r ≡ (ok tt, u)
      → (commits ≡ true) × (r ≡ (ok tt, u))
  settle-ok true revert (ok tt, x) u e = (refl, cc)
  settle-ok false revert (ok tt, x) u e = cc
  settle-ok true revert (err y, x) u e = cc
  settle-ok false revert (err y, x) u e = cc

  guarded-ok :
      (commits : Bool) (body revert : Exec S (Unit {0})) (r : Result StoreError (Unit {0}) × S)
      (u : S)
      → guarded commits body revert r ≡ (ok tt, u)
      → (commits ≡ true) × (x : S) × (r ≡ (ok tt, x)) × (body x ≡ (ok tt, u))
  guarded-ok commits body revert (ok tt, x) u e =
      let (c, q) = settle-ok commits revert (body x) u e in (c, x, refl, q)
  guarded-ok commits body revert (err y, x) u e = cc

  settle-commit_failed :
      (commits : Bool) (revert : Exec S (Unit {0})) (r : Result StoreError (Unit {0}) × S) (u : S)
      → settle commits revert r ≡ (err commit_failed, u)
      → (x : S) × (r ≡ (ok tt, x)) × (u ≡ (revert x).1)
  settle-commit_failed true revert (ok tt, x) u e = cc
  settle-commit_failed false revert (ok tt, x) u e = (x, refl, cc)
  settle-commit_failed true revert (err y, x) u e = cc
  settle-commit_failed false revert (err y, x) u e = cc

  guarded-commit_failed :
      (commits : Bool) (body revert : Exec S (Unit {0})) (r : Result StoreError (Unit {0}) × S)
      (u : S)
      → guarded commits body revert r ≡ (err commit_failed, u)
      → (x : S) × (y : S) × (r ≡ (ok tt, x)) × (body x ≡ (ok tt, y)) × (u ≡ (revert y).1)
  guarded-commit_failed commits body revert (ok tt, x) u e =
      let (y, q, z) = settle-commit_failed commits revert (body x) u e in (x, y, refl, q, z)
  guarded-commit_failed commits body revert (err y, x) u e = cc

  settle-http :
      (commits : Bool) (revert : Exec S (Unit {0})) (r : Result StoreError (Unit {0}) × S)
      (x : HttpError) (u : S)
      → settle commits revert r ≡ (err (http x), u)
      → ⊥
  settle-http true revert (ok tt, y) x u e = cc
  settle-http false revert (ok tt, y) x u e = cc
  settle-http true revert (err z, y) x u e = cc
  settle-http false revert (err z, y) x u e = cc

  -- the writes themselves raise no HTTP error
  guarded-http :
      (commits : Bool) (body revert : Exec S (Unit {0})) (r : Result StoreError (Unit {0}) × S)
      (x : HttpError) (u : S)
      → guarded commits body revert r ≡ (err (http x), u)
      → ⊥
  guarded-http commits body revert (ok tt, y) x u e = settle-http commits revert (body y) x u e
  guarded-http commits body revert (err z, y) x u e = cc

  -- A decision that is answered has written the chunks and committed the rows.
  pub write_both-ok :
      (commits : Bool) (w v : World S) (write body revert : Exec S (Unit {0}))
      (committed : Database) (doc d : Document)
      → write_both commits w write body revert committed doc ≡ (ok d, v)
      → (d ≡ doc)
        × (v.db ≡ committed)
        × (commits ≡ true)
        × (u : S) × Returns write w.chunks tt u
        × Returns body u tt v.chunks
  unfolding write_both
  write_both-ok commits w v write body revert committed doc d e =
      let (same, rows, q) =
        conclude-ok w v committed doc d (guarded commits body revert (write w.chunks)) e in
      let (landed, u, first, second) = guarded-ok commits body revert (write w.chunks) v.chunks q in
      (same, rows, landed, u, first, second)

  -- One that raises leaves the rows, and raises no HTTP error.
  pub write_both-err :
      (commits : Bool) (w v : World S) (write body revert : Exec S (Unit {0}))
      (committed : Database) (doc : Document) (x : RouteError)
      → write_both commits w write body revert committed doc ≡ (err x, v)
      → (v.db ≡ w.db) × ((e : HttpError) → x ≡ http e → v ≡ w)
  unfolding write_both
  write_both-err commits w v write body revert committed doc x e =
      let (same, q) =
        conclude-err w v committed doc x (guarded commits body revert (write w.chunks)) e in
      (
        same,
        λ f k. absurd (guarded-http commits body revert (write w.chunks) f v.chunks (rw k at q)),
      )

  -- One whose commit fails has written the chunks and run the revert.
  pub write_both-commit_failed :
      (commits : Bool) (w v : World S) (write body revert : Exec S (Unit {0}))
      (committed : Database) (doc : Document)
      → write_both commits w write body revert committed doc ≡ (err commit_failed, v)
      → (u : S) × (y : S) × Returns write w.chunks tt u
        × Returns body u tt y
        × (v.chunks ≡ (revert y).1)
  unfolding write_both
  write_both-commit_failed commits w v write body revert committed doc e =
      let (same, q) =
        conclude-err w v committed doc commit_failed (guarded commits body revert (write w.chunks))
          e in
      guarded-commit_failed commits body revert (write w.chunks) v.chunks q
