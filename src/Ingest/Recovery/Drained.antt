-- ===== src/Ingest/Recovery/Drained.antt =====
-- Every queued document gets its message, once the broker and the database answer again.
use native.Mathlib.Nat.{mul-suc}
use nexus_rag.Base.{
  ℕ, ◌-◌, ◌*◌, ◌≤◌, ◌≡◌, ◌⊎◌, refl, sym, subst, arith, inl, inr, true, false, is_some, List, [],
  ◌∷◌, ◌++◌, map, filter, In, All, All-In, In-All, length, length-map, In-filter, Bool-cases,
}
use nexus_rag.Document.{Uuid, Document, queued}
use nexus_rag.Ingest.Recovery.{
  Queue, Try, is_unpublished, unpublished_batch, reconcile_once, reconcile_passes,
}
use nexus_rag.Ingest.Recovery.Keyed.{
  IsKeyed, unpublished, unpublished_batch-AllWait, unpublished_batch-length,
}
use nexus_rag.Ingest.Recovery.Kept.{
  IsHandedOff, Lands, Kept, Kept-refl, publish_batch-Kept, publish_batch-drains,
}

reconcile_once-Kept :
    (limit : ℕ) (tries : Uuid → Try) (q : Queue)
    → IsKeyed q.documents
    → IsHandedOff q
    → Kept q (reconcile_once limit tries q).1
unfolding reconcile_once
reconcile_once-Kept limit tries q h k =
    publish_batch-Kept tries (map (λ (d : Document). d.id) (unpublished_batch limit q.documents)) q
      h k (unpublished_batch-AllWait limit q.documents h)

reconcile_once-drains :
    (limit : ℕ) (tries : Uuid → Try) (q : Queue)
    → Lands tries
    → IsKeyed q.documents
    → IsHandedOff q
    → unpublished (reconcile_once limit tries q).1.documents ≤ unpublished q.documents - limit
unfolding reconcile_once
reconcile_once-drains limit tries q l h k =
    let batch = unpublished_batch limit q.documents in
    omega (
      arith,
      publish_batch-drains tries (map (λ (d : Document). d.id) batch) q l h k
          (unpublished_batch-AllWait limit q.documents h),
      length-map (λ (d : Document). d.id) batch,
      unpublished_batch-length limit q.documents,
    )

reconcile_passes-Kept :
    (limit : ℕ) (passes : List (Uuid → Try)) (q : Queue)
    → IsKeyed q.documents
    → IsHandedOff q
    → Kept q (reconcile_passes limit passes q)
unfolding reconcile_passes
reconcile_passes-Kept limit [] q h k = Kept-refl q h k
reconcile_passes-Kept limit (tries ∷ passes) q h k =
    let one = reconcile_once-Kept limit tries q h k in
    let more =
      reconcile_passes-Kept limit passes (reconcile_once limit tries q).1 one.keyed
        one.handed_off in
    record {
      keyed = more.keyed;
      handed_off = more.handed_off;
      no_more = omega (arith, one.no_more, more.no_more);
    }

reconcile_passes-drains :
    (limit : ℕ) (passes : List (Uuid → Try)) (q : Queue)
    → All Lands passes
    → IsKeyed q.documents
    → IsHandedOff q
    → unpublished q.documents ≤ limit * length passes
    → unpublished (reconcile_passes limit passes q).documents ≡ 0
unfolding reconcile_passes
reconcile_passes-drains limit [] q l h k few = omega (arith, few)
reconcile_passes-drains limit (tries ∷ passes) q l h k few =
    let one = reconcile_once-Kept limit tries q h k in
    reconcile_passes-drains limit passes (reconcile_once limit tries q).1 l.1 one.keyed
      one.handed_off
      (omega
        (arith, few, mul-suc limit (length passes), reconcile_once-drains limit tries q l.0 h k))

reconcile_passes-append :
    (limit : ℕ) (first more : List (Uuid → Try)) (q : Queue)
    → reconcile_passes limit (first ++ more) q
      ≡ reconcile_passes limit more (reconcile_passes limit first q)
unfolding reconcile_passes
reconcile_passes-append limit [] more q = refl
reconcile_passes-append limit (tries ∷ first) more q =
    reconcile_passes-append limit first more (reconcile_once limit tries q).1

-- A queued document has its message in the stream.
abbrev pub AllSent : Queue → Type 0
AllSent q = All (λ (row : Document). row.status ≡ queued → In row.id q.messages) q.documents

none-AllSent : (q : Queue) → IsHandedOff q → unpublished q.documents ≡ 0 → AllSent q
none-AllSent q h z =
    In-All (λ (row : Document). row.status ≡ queued → In row.id q.messages) q.documents
      (λ row i s.
        All-In (λ (r : Document). is_some r.queue_published_at ≡ true → In r.id q.messages)
          q.documents h row i (said row i s (Bool-cases (is_some row.queue_published_at))))
  where
    empty-In : (ds : List Document) → length ds ≡ 0 → (d : Document) → In d ds → ⊥
    empty-In [] e a i = i
    empty-In (d ∷ ds) e a i = omega (arith, e)

    said :
        (row : Document)
        → In row q.documents
        → row.status ≡ queued
        → (is_some row.queue_published_at ≡ true) ⊎ (is_some row.queue_published_at ≡ false)
        → is_some row.queue_published_at ≡ true
    said row i s (inl e) = e
    said row i s (inr e) =
        let w : is_unpublished row ≡ true = rw (s, e) refl in
        absurd (
          empty-In (filter is_unpublished q.documents) z row
            (In-filter is_unpublished row q.documents i w))

-- Whatever fails in earlier passes, after as many passes in which the broker acknowledges and the
-- commits land as the batch size needs for the documents that wait, every queued document has its
-- message in the stream. The ids are a key of the rows, and a row that says that its message was
-- acknowledged is right at the start.
pub reconcile_passes-AllSent :
    (limit : ℕ) (failing good : List (Uuid → Try)) (q : Queue)
    → All Lands good
    → IsKeyed q.documents
    → IsHandedOff q
    → unpublished q.documents ≤ limit * length good
    → AllSent (reconcile_passes limit (failing ++ good) q)
reconcile_passes-AllSent limit failing good q l h k few =
    let first = reconcile_passes-Kept limit failing q h k in
    let middle = reconcile_passes limit failing q in
    let last = reconcile_passes-Kept limit good middle first.keyed first.handed_off in
    subst AllSent (sym (reconcile_passes-append limit failing good q)) (
      none-AllSent (reconcile_passes limit good middle) last.handed_off (
        reconcile_passes-drains limit good middle l first.keyed first.handed_off
          (omega (arith, few, first.no_more))))
