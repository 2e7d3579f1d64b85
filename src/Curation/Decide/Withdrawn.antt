-- ===== src/Curation/Decide/Withdrawn.antt =====
-- A rejected or suspended document is out of every reader's reach.
use nexus_rag.Base.{
  ◌≡◌, ◌≢◌, refl, sym, ◌∙◌, ap, subst, arith, String, false, Result, ok, err, List, In, Bool-cases,
  inl, inr, ◌==◌, ==_iff,
}
use nexus_rag.Document.{Uuid, Document, Status, pending_review, approved, rejected}
use nexus_rag.Access.Claims.{UserClaims}
use nexus_rag.Access.Payload.{Payload, passes}
use nexus_rag.Access.Filter.{build_access_filter}
use nexus_rag.Access.Filter.Visible.{build_access_filter_iff}
use nexus_rag.Vector.Exec.{pure-Returns}
use nexus_rag.Vector.Client.{Client, ClientLaws, Point, Fields, set_point}
use nexus_rag.Vector.Store.Carry.{IsHomed, IsUpdated, carry_own, carry_other}
use nexus_rag.Vector.Store.Whole.{update_document_payload-IsUpdated}
use nexus_rag.Database.{Database}
use nexus_rag.Curation.Http.{HttpError}
use nexus_rag.Curation.Authority.{load_pending, load_approved}
use nexus_rag.Curation.World.{World, Moment}
use nexus_rag.Curation.World.Outcome.{write_both-ok}
use nexus_rag.Curation.Changes.{
  status_fields, rejected_row, suspended_row, reject_rows, suspend_rows,
}
use nexus_rag.Curation.Decide.{status_writes, reject, suspend}

-- Whoever asks, the filter does not pass a chunk that is not approved.
unapproved-hidden :
    (p : Payload) (claims : UserClaims) (allowed : List String)
    → p.status ≢ approved
    → passes (build_access_filter claims allowed) p ≡ false
unapproved-hidden p claims allowed ne =
    elim (Bool-cases (passes (build_access_filter claims allowed) p)) [
      | inl q ↦ absurd (ne ((build_access_filter_iff claims allowed p).0 q).is_approved)
      | inr q ↦ q
    ]

-- No chunk of the document passes the filter of any reader.
abbrev pub IsHidden : (c : Client) → c.State → Uuid → Type 0
IsHidden c s d =
    (n : String) (p : Point) (claims : UserClaims) (allowed : List String)
    → In p (c.points s n)
    → p.payload.document_id ≡ d
    → passes (build_access_filter claims allowed) p.payload ≡ false

module _ (c : Client) where
  open c use {State, points}

  -- what an update made of a chunk of the document
  pub updated_chunk :
      (s t : State) (fields : Fields) (d : Uuid) (n : String) (p : Point)
      → IsUpdated c s t fields d
      → In p (points t n)
      → p.payload.document_id ≡ d
      → (q : Point) × In q (points s n) × (q.payload.document_id ≡ d) × (p ≡ set_point fields q)
  updated_chunk s t fields d n p updated i own =
      let (q, j, e) = (updated n p).0 i in
      elim (Bool-cases (q.payload.document_id == d)) [
        | inl hit ↦
            let mine = (==_iff q.payload.document_id d).0 hit in
            (q, j, mine, e ∙ carry_own fields d q mine)
        | inr miss ↦
            let same : p ≡ q = e ∙ carry_other fields d q (λ k. not_mine q miss k) in
            absurd (not_mine q miss (sym (ap (λ (x : Point). x.payload.document_id) same) ∙ own))
      ]
    where
      not_mine : (q : Point) → (q.payload.document_id == d) ≡ false → q.payload.document_id ≡ d → ⊥
      not_mine q m k = ground (arith, ==_iff q.payload.document_id d)

  updated_status :
      (s t : State) (st : Status) (d : Uuid) (n : String) (p : Point)
      → IsUpdated c s t (status_fields st) d
      → In p (points t n)
      → p.payload.document_id ≡ d
      → p.payload.status ≡ st
  updated_status s t st d n p updated i own =
      let (q, _, _, e) = updated_chunk s t (status_fields st) d n p updated i own in
      ap (λ (x : Point). x.payload.status) e

module _ (c : Client) (laws : ClientLaws c) where
  open c use {State, points}

  status_writes-IsHidden :
      (m : Moment) (before : Status) (change : Document → Document)
      (rows : Document → Database → Database) (w v : World State) (d : Document)
      (r : Result HttpError Document) (home : String)
      → ((doc : Document) → (change doc).status ≢ approved)
      → IsHomed c w.chunks d.id home
      → status_writes c m before change rows w r ≡ (ok d, v)
      → IsHidden c v.chunks d.id
  status_writes-IsHidden m before change rows w v d (ok found) home ne homed e n p claims allowed i
        own =
      let (answer, _, _, u, sent, done) = write_both-ok m.commits w v _ _ _ _ _ d e in
      let updated =
        update_document_payload-IsUpdated c laws w.chunks u (change found).id
          (change found).classification (status_fields (change found).status) sent home refl
          (subst (λ x. IsHomed c w.chunks x home) (ap (λ (x : Document). x.id) answer) homed) in
      let status =
        updated_status c w.chunks u (change found).status (change found).id n p updated
          (subst (λ x. In p (points x n)) (pure-Returns tt u done).1 i)
          (own ∙ ap (λ (x : Document). x.id) answer) in
      unapproved-hidden p.payload claims allowed (λ k. ne found (sym status ∙ k))
  status_writes-IsHidden m before change rows w v d (err x) home ne homed e n p claims allowed i
        own =
      cc

  -- When `suspend` answers, no chunk of the document passes any reader's filter, if its chunks lived
  -- in one collection and that has the name of a classification's.
  pub suspend-IsHidden :
      (m : Moment) (user : UserClaims) (id : Uuid) (reason : String) (w v : World State)
      (d : Document) (home : String)
      → IsHomed c w.chunks d.id home
      → suspend c m user id reason w ≡ (ok d, v)
      → IsHidden c v.chunks d.id
  unfolding suspend suspended_row
  suspend-IsHidden m user id reason w v d home homed e =
      status_writes-IsHidden m approved suspended_row (suspend_rows user m.now reason) w v d
        (load_approved w.db id user) home (λ doc k. pending_differs k) homed e
    where
      pending_differs : pending_review ≡ approved → ⊥
      pending_differs k = cc

  -- When `reject` answers, no chunk of the document passes any reader's filter, if its chunks lived
  -- in one collection and that has the name of a classification's.
  reject-IsHidden :
      (m : Moment) (user : UserClaims) (id : Uuid) (reason : String) (w v : World State)
      (d : Document) (home : String)
      → IsHomed c w.chunks d.id home
      → reject c m user id reason w ≡ (ok d, v)
      → IsHidden c v.chunks d.id
  unfolding reject rejected_row
  reject-IsHidden m user id reason w v d home homed e =
      status_writes-IsHidden m pending_review (rejected_row user m.now reason)
        (reject_rows user m.now reason) w v d (load_pending w.db id user) home
        (λ doc k. rejected_differs k) homed e
    where
      rejected_differs : rejected ≡ approved → ⊥
      rejected_differs k = cc
