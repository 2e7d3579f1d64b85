-- ===== src/Ingest/Recovery/Kept.antt =====
-- What the publication of a batch keeps, and that it drains the batch.
use nexus_rag.Base.{
  suc, ◌+◌, ◌≤◌, ◌≡◌, ◌≢◌, ◌⊎◌, refl, sym, ◌∙◌, ap, arith, inl, inr, Bool, true, false, some,
  is_some, List, [], ◌∷◌, ◌++◌, In, All, All-In, In-All, length, append-In_left, append-In_right,
}
use nexus_rag.Document.{Uuid, Time, Document, queued, status_eq}
use nexus_rag.Database.{find_document, put_document}
use nexus_rag.Database.Rows.{find_document-id, find_document-put_other}
use nexus_rag.Ingest.Recovery.{
  Queue, Publication, acknowledged, unacknowledged, refused, Try, published_row, is_unpublished,
  mark_published, publish_as, publish_document, publish_batch, send,
}
use nexus_rag.Ingest.Recovery.Keyed.{
  IsKeyed, unpublished, AllWait, put_document-All, put_document-IsKeyed, unpublished-put,
}

-- A row that says that its message was acknowledged is right.
abbrev pub IsHandedOff : Queue → Type 0
IsHandedOff q =
    All (λ (row : Document). is_some row.queue_published_at ≡ true → In row.id q.messages)
      q.documents

abbrev pub Lands : (Uuid → Try) → Type 0
Lands tries = (id : Uuid) → ((tries id).publication ≡ acknowledged) × ((tries id).commits ≡ true)

-- What a publication keeps.
pub record Kept (q after : Queue) : Type 0 where
  pub keyed : IsKeyed after.documents
  pub handed_off : IsHandedOff after
  pub no_more : unpublished after.documents ≤ unpublished q.documents

-- a message more
sent : (id : Uuid) (q : Queue) → IsHandedOff q → IsHandedOff (send id q)
sent id q h =
    In-All
      (λ (row : Document).
        is_some row.queue_published_at ≡ true → In row.id (q.messages ++ id ∷ []))
      q.documents
      (λ row i e. append-In_left row.id q.messages (id ∷ []) (
        All-In (λ (r : Document). is_some r.queue_published_at ≡ true → In r.id q.messages)
          q.documents h row i e))

-- what a mark leaves
abbrev marked : Time → Uuid → Document → Queue → Queue
marked now id row q = record (send id q) {
  documents = put_document (published_row now row) q.documents;
}

is_unpublished-queued :
    (row : Document) → is_unpublished row ≡ true → status_eq row.status queued ≡ true
is_unpublished-queued row w = ground arith

-- What a publication leaves, of a document that waits.
publish_as-cases :
    (p : Publication) (commits : Bool) (now : Time) (id : Uuid) (q : Queue) (row : Document)
    → find_document id q.documents ≡ some row
    → is_unpublished row ≡ true
    → (publish_as p commits now id q ≡ (false, q))
      ⊎ (publish_as p commits now id q ≡ (false, send id q))
      ⊎ (publish_as p commits now id q ≡ (true, marked now id row q))
unfolding mark_published
publish_as-cases refused commits now id q row e w = inl refl
publish_as-cases unacknowledged commits now id q row e w = inr (inl refl)
publish_as-cases acknowledged true now id q row e w =
    inr (inr (rw (e, is_unpublished-queued row w) refl))
publish_as-cases acknowledged false now id q row e w =
    inr (inl (rw (e, is_unpublished-queued row w) refl))

publish_as-lands :
    (p : Publication) (commits : Bool) (now : Time) (id : Uuid) (q : Queue) (row : Document)
    → p ≡ acknowledged
    → commits ≡ true
    → find_document id q.documents ≡ some row
    → is_unpublished row ≡ true
    → publish_as p commits now id q ≡ (true, marked now id row q)
unfolding mark_published
publish_as-lands p commits now id q row a c e w =
    rw (a, c) (rw (e, is_unpublished-queued row w) refl)

module _ (now : Time) (id : Uuid) (q : Queue) (row : Document)
    (e : find_document id q.documents ≡ some row) (w : is_unpublished row ≡ true) where
  marked-fewer :
      IsKeyed q.documents
      → suc (unpublished (marked now id row q).documents) ≡ unpublished q.documents
  marked-fewer h =
      unpublished-put now q.documents row h
        (ap (λ n. find_document n q.documents) (find_document-id id q.documents row e) ∙ e) w

  marked-Kept : IsKeyed q.documents → IsHandedOff q → Kept q (marked now id row q)
  marked-Kept h k = record {
    keyed = put_document-IsKeyed (published_row now row) q.documents h;
    handed_off =
        put_document-All
          (λ r. is_some r.queue_published_at ≡ true → In r.id (q.messages ++ id ∷ []))
          (published_row now row) q.documents
          (λ _.
            append-In_right row.id q.messages (id ∷ [])
              (inl (find_document-id id q.documents row e)))
          (sent id q k);
    no_more = omega (arith, marked-fewer h);
  }

  marked-AllWait :
      (ids : List Uuid)
      → All (λ n. id ≢ n) ids
      → AllWait q.documents ids
      → AllWait (marked now id row q).documents ids
  marked-AllWait [] a h = tt
  marked-AllWait (n ∷ ids) a ((r, found, open_), distinct, rest) = (
    (r, find_document-put_other (published_row now row) n q.documents other ∙ found, open_),
    distinct,
    marked-AllWait ids a.1 rest,
  )
    where
      other : n ≢ row.id
      other k = a.0 (sym (k ∙ find_document-id id q.documents row e))

pub Kept-refl : (q : Queue) → IsKeyed q.documents → IsHandedOff q → Kept q q
Kept-refl q h k = record { keyed = h; handed_off = k; no_more = omega arith }

pub publish_batch-Kept :
    (tries : Uuid → Try) (ids : List Uuid) (q : Queue)
    → IsKeyed q.documents
    → IsHandedOff q
    → AllWait q.documents ids
    → Kept q (publish_batch tries ids q).1
unfolding publish_batch publish_document
publish_batch-Kept tries [] q h k a = Kept-refl q h k
publish_batch-Kept tries (id ∷ ids) q h k ((row, e, w), distinct, a) =
    let t = tries id in
    elim (publish_as-cases t.publication t.commits t.now id q row e w) [
      | inl r ↦ rw r (publish_batch-Kept tries ids q h k a)
      | inr (inl r) ↦ rw r (from_sent (publish_batch-Kept tries ids (send id q) h (sent id q k) a))
      | inr (inr r) ↦
          let m = marked-Kept t.now id q row e w h k in
          rw r (
            from_marked m (
              publish_batch-Kept tries ids (marked t.now id row q) m.keyed m.handed_off
                (marked-AllWait t.now id q row e w ids distinct a)))
    ]
  where
    from_sent : {u : Queue} → Kept (send id q) u → Kept q u
    from_sent x = record { keyed = x.keyed; handed_off = x.handed_off; no_more = x.no_more }

    from_marked : {v u : Queue} → Kept q v → Kept v u → Kept q u
    from_marked m x = record {
      keyed = x.keyed;
      handed_off = x.handed_off;
      no_more = omega (arith, m.no_more, x.no_more);
    }

pub publish_batch-drains :
    (tries : Uuid → Try) (ids : List Uuid) (q : Queue)
    → Lands tries
    → IsKeyed q.documents
    → IsHandedOff q
    → AllWait q.documents ids
    → unpublished (publish_batch tries ids q).1.documents + length ids ≡ unpublished q.documents
unfolding publish_batch publish_document
publish_batch-drains tries [] q l h k a = omega arith
publish_batch-drains tries (id ∷ ids) q l h k ((row, e, w), distinct, a) =
    let t = tries id in
    let m = marked-Kept t.now id q row e w h k in
    rw (publish_as-lands t.publication t.commits t.now id q row (l id).0 (l id).1 e w) (
      omega (
        arith,
        marked-fewer t.now id q row e w h,
        publish_batch-drains tries ids (marked t.now id row q) l m.keyed m.handed_off
            (marked-AllWait t.now id q row e w ids distinct a),
      ))
