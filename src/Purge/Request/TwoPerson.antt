-- ===== src/Purge/Request/TwoPerson.antt =====
-- No single person destroys a document through the two-person flow, and no two open requests for a
-- document stand side by side.
use nexus_rag.Base.{
  ==_refl, ◌<◌, ◌≡◌, ◌≢◌, refl, sym, ◌∙◌, ap, subst, inl, inr, ◌⊎◌, arith, true, false, Option,
  none, some, List, [], ◌∷◌, ◌++◌, In, any, In-any, In-append, Result, ok, err, Bool-cases, str_eq,
  str_eq_iff, leb,
}
use nexus_rag.Document.{Uuid, Time, Document, purged, status_eq, PurgeRequest, pending}
use nexus_rag.Vector.Client.{Client}
use nexus_rag.Database.{Database, find_document, AuditLogEntry, purge_request_entry}
use nexus_rag.Purge.Stores.{
  ObjectStore, Stores, PurgeError, already_requested, already_purged, request_expired, same_person,
}
use nexus_rag.Purge.Destroy.{purge_document}
use nexus_rag.Purge.Request.{
  purge_confirmation_authorized, Filing, is_open, new_request, filed_entry, file_request,
  request_for, request_purge, find_request, put_request, Confirmation, confirmed_request,
  confirmed_order, record_confirmation, confirm_request, confirm_purge,
}

module _ (c : Client) (o : ObjectStore) where
  abbrev State : Type 0
  State = Stores c.State o.State

  -- How an answered confirmation of a pending request went.
  pub record IsTwoPerson (k : Confirmation) (r : PurgeRequest) (d : Document) (s t : State)
      : Type 0 where
    pub other_person : k.actor_sub ≢ r.requested_by_sub
    pub in_time : k.now < r.expires_at
    pub purged_state : State
    pub purges :
        purge_document c o k.course (confirmed_order k r) r.document_id s ≡ (ok d, purged_state)
    pub requests :
        t.db.purge_requests ≡ put_request (confirmed_request k r) purged_state.db.purge_requests
    pub documents : t.db.documents ≡ purged_state.db.documents
    pub chunks : t.chunks ≡ purged_state.chunks
    pub objects : t.objects ≡ purged_state.objects

  -- the commit of the confirmation
  record-IsTwoPerson :
      (k : Confirmation) (r : PurgeRequest) (d : Document) (s t : State)
      (p : Result PurgeError Document × State)
      → k.actor_sub ≢ r.requested_by_sub
      → k.now < r.expires_at
      → purge_document c o k.course (confirmed_order k r) r.document_id s ≡ p
      → record_confirmation c o k r p ≡ (ok d, t)
      → IsTwoPerson k r d s t
  record-IsTwoPerson k r d s t (ok x, u) other in_time h e = elim (Bool-cases k.commits) [
    | inl q ↦
        let (same, rows) = landed (rw q at e) in
        record {
          other_person = other;
          in_time = in_time;
          purged_state = u;
          purges = h ∙ ap (λ y. (ok y, u)) (sym same);
          requests = ap (λ (y : State). y.db.purge_requests) rows;
          documents = ap (λ (y : State). y.db.documents) rows;
          chunks = ap (λ (y : State). y.chunks) rows;
          objects = ap (λ (y : State). y.objects) rows;
        }
    | inr q ↦ absurd (lost (rw q at e))
  ]
    where
      after : State
      after = record u {
        db = record u.db {
          purge_requests = put_request (confirmed_request k r) u.db.purge_requests;
        };
      }

      landed :
          Path (Result PurgeError Document × State) (ok x, after) (ok d, t) → (d ≡ x) × (t ≡ after)
      landed q = (cc, cc)

      lost :
          Path (Result PurgeError Document × State) (err PurgeError.commit_failed, u) (ok d, t) → ⊥
      lost q = cc
  record-IsTwoPerson k r d s t (err x, u) other in_time h e = cc

  request-IsTwoPerson :
      (k : Confirmation) (r : PurgeRequest) (d : Document) (s t : State)
      → r.status ≡ pending
      → confirm_request c o k (some r) s ≡ (ok d, t)
      → IsTwoPerson k r d s t
  unfolding purge_confirmation_authorized
  request-IsTwoPerson k r d s t opened e = elim (Bool-cases (leb r.expires_at k.now)) [
    | inl late ↦ absurd (expired (rw (opened, late) at e))
    | inr in_time ↦ elim (Bool-cases (str_eq k.actor_sub r.requested_by_sub)) [
      | inl same ↦ absurd (alone (rw (opened, in_time, same) at e))
      | inr other ↦
          record-IsTwoPerson k r d s t
            (purge_document c o k.course (confirmed_order k r) r.document_id s)
            (λ q. differs other q) (ground arith) refl (rw (opened, in_time, other) at e)
    ]
  ]
    where
      expired : Path (Result PurgeError Document × State) (err request_expired, s) (ok d, t) → ⊥
      expired q = cc

      alone : Path (Result PurgeError Document × State) (err same_person, s) (ok d, t) → ⊥
      alone q = cc

      differs : str_eq k.actor_sub r.requested_by_sub ≡ false → k.actor_sub ≡ r.requested_by_sub → ⊥
      differs x q = ground (arith, str_eq_iff k.actor_sub r.requested_by_sub)

  -- A confirmation of a pending request that is answered was sent by another person than the one who
  -- filed it, before it expired; it ran the purge of the document that the request names, and marked
  -- the request as confirmed after the purge had answered.
  pub confirm_purge-IsTwoPerson :
      (k : Confirmation) (id : Uuid) (r : PurgeRequest) (d : Document) (s t : State)
      → find_request id s.db.purge_requests ≡ some r
      → r.status ≡ pending
      → confirm_purge c o k id s ≡ (ok d, t)
      → IsTwoPerson k r d s t
  unfolding confirm_purge
  confirm_purge-IsTwoPerson k id r d s t row opened e =
      request-IsTwoPerson k r d s t opened (rw row at e)

-- No two of the document's requests are open at one time.
abbrev pub HasOneOpen : Uuid → Time → List PurgeRequest → Type 0
HasOneOpen id now rows =
    (r q : PurgeRequest)
    → In r rows
    → In q rows
    → is_open id now r ≡ true
    → is_open id now q ≡ true
    → r ≡ q

filed-HasOneOpen :
    (f : Filing) (id : Uuid) (rows : List PurgeRequest)
    → any (is_open id f.now) rows ≡ false
    → HasOneOpen id f.now (rows ++ new_request f id ∷ [])
filed-HasOneOpen f id rows none_open r q i j x y = go (In-append r rows _ i) (In-append q rows _ j)
  where
    shut : (z : PurgeRequest) → In z rows → is_open id f.now z ≡ true → ⊥
    shut z k opened = ground (arith, In-any (is_open id f.now) z rows k opened)

    go :
        (In r rows ⊎ In r (new_request f id ∷ []))
        → (In q rows ⊎ In q (new_request f id ∷ []))
        → r ≡ q
    go (inl a) b = absurd (shut r a x)
    go (inr a) (inl b) = absurd (shut q b y)
    go (inr (inl a)) (inr (inl b)) = a ∙ sym b
    go (inr (inl a)) (inr (inr b)) = absurd b
    go (inr (inr a)) (inr b) = absurd a

-- What filing a request did.
pub record IsFiled (f : Filing) (id : Uuid) (db after : Database) (r : PurgeRequest) : Type 0 where
  pub documents : after.documents ≡ db.documents
  pub requests : after.purge_requests ≡ db.purge_requests ++ r ∷ []
  pub entry : AuditLogEntry
  pub logged : after.audit_log ≡ db.audit_log ++ entry ∷ []
  pub by_filer : (entry.actor_sub ≡ f.actor_sub) × (r.requested_by_sub ≡ f.actor_sub)
  pub about : (entry.target_id ≡ id) × (entry.action ≡ purge_request_entry f.reason r.id)
  pub open_ : is_open id f.now r ≡ true
  pub only : HasOneOpen id f.now after.purge_requests

new_request-is_open :
    (f : Filing) (id : Uuid) → 0 < f.expiry → is_open id f.now (new_request f id) ≡ true
new_request-is_open f id h = ground (arith, ==_refl id)

-- A request that is filed destroys nothing: it adds itself to the requests, and to the audit log an
-- entry that names it, its document and its filer. It is open, and no other request for the document
-- is at that time, if requests are given any time at all.
pub request_purge-HasOneOpen :
    (f : Filing) (id : Uuid) (db after : Database) (r : PurgeRequest)
    → 0 < f.expiry
    → request_purge f id db ≡ (ok r, after)
    → IsFiled f id db after r
unfolding request_purge
request_purge-HasOneOpen f id db after r time e = go (find_document id db.documents) e
  where
    Answer : Type 0
    Answer = IsFiled f id db after r

    raised :
        (x : PurgeError)
        → Path (Result PurgeError PurgeRequest × Database) (err x, db) (ok r, after)
        → Answer
    raised x q = cc

    landed :
        (d : Database)
        → Path (Result PurgeError PurgeRequest × Database) (ok (new_request f id), d) (ok r, after)
        → (new_request f id ≡ r) × (d ≡ after)
    landed d q = (cc, cc)

    filed :
        any (is_open id f.now) db.purge_requests ≡ false
        → file_request f id db ≡ (ok r, after)
        → Answer
    filed shut q = elim (Bool-cases f.commits) [
      | inl lands ↦
          let (same, rows) = landed _ (rw (shut, lands) at q) in
          subst (λ x. IsFiled f id db after x) same
            (subst (λ b. IsFiled f id db b (new_request f id)) rows
              (record {
                documents = refl;
                requests = refl;
                entry = filed_entry f id;
                logged = refl;
                by_filer = (refl, refl);
                about = (refl, refl);
                open_ = new_request-is_open f id time;
                only = filed-HasOneOpen f id db.purge_requests shut;
              }))
      | inr fails ↦ raised PurgeError.commit_failed (rw (shut, fails) at q)
    ]

    decide : file_request f id db ≡ (ok r, after) → Answer
    decide q = elim (Bool-cases (any (is_open id f.now) db.purge_requests)) [
      | inl opened ↦ raised already_requested (rw opened at q)
      | inr shut ↦ filed shut q
    ]

    go : (o : Option Document) → request_for f id o db ≡ (ok r, after) → Answer
    go none q = raised PurgeError.document_not_found q
    go (some doc) q = elim (Bool-cases (status_eq doc.status purged)) [
      | inl gone ↦ raised already_purged (rw gone at q)
      | inr here ↦ decide (rw here at q)
    ]
