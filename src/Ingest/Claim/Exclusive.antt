-- ===== src/Ingest/Claim/Exclusive.antt =====
-- Which later messages get a document that a job has claimed.
use nexus_rag.Base.{
  ◌<◌, ◌⊎◌, ◌+◌, ◌≤◌, ◌<◌, ◌≡◌, refl, sym, ◌∙◌, ap, arith, Option, none, some, List, Bool-cases,
  inl, inr,
}
use nexus_rag.Document.{Uuid, Document}
use nexus_rag.Database.{find_document, put_document}
use nexus_rag.Database.Rows.{find_document-id, find_document-put_document}
use nexus_rag.Ingest.Claim.{
  Delivery, Claimed, owned, acknowledged, is_unfinished, is_leased, processing_row, claim_row,
  claim_document,
}

claim_row-owned :
    (d : Delivery) (row : Option Document) (rows after : List Document) (doc : Document)
    → claim_row d row rows ≡ (owned doc, after)
    → (old : Document) × (row ≡ some old)
      × (after ≡ put_document (processing_row d.now old) rows)
      × (processing_row d.now old ≡ doc)
claim_row-owned d none rows after doc e = cc
claim_row-owned d (some old) rows after doc e = elim (Bool-cases (is_unfinished old.status)) [
  | inr over ↦ absurd (dropped (rw over at e))
  | inl live ↦ elim (Bool-cases (is_leased d old)) [
    | inl busy ↦ absurd (dropped (rw (live, busy) at e))
    | inr free ↦ let (written, own) = taken (rw (live, free) at e) in (old, refl, written, own)
  ]
]
  where
    dropped : Path (Claimed × List Document) (acknowledged, rows) (owned doc, after) → ⊥
    dropped q = cc

    document_of : Claimed × List Document → Document
    document_of (owned x, r) = x
    document_of (acknowledged, r) = old

    claimed :
        Path
          (Claimed × List Document)
          (owned (processing_row d.now old), put_document (processing_row d.now old) rows)
          (owned doc, after)
        → processing_row d.now old ≡ doc
    claimed q = ap document_of q

    taken :
        Path
          (Claimed × List Document)
          (owned (processing_row d.now old), put_document (processing_row d.now old) rows)
          (owned doc, after)
        → (after ≡ put_document (processing_row d.now old) rows) × (processing_row d.now old ≡ doc)
    taken q = (cc, claimed q)

leased_row :
    (d e : Delivery) (old : Document) (rows : List Document)
    → e.attempt ≤ 1
    → e.now < d.now + e.ack_wait
    → claim_row e (some (processing_row d.now old)) rows ≡ (acknowledged, rows)
unfolding is_unfinished is_leased
leased_row d e old rows first fresh = ground arith

claimed_row :
    (d : Delivery) (id : Uuid) (rows after : List Document) (doc : Document)
    → claim_document d id rows ≡ (owned doc, after)
    → (old : Document) × (find_document id after ≡ some (processing_row d.now old))
      × (processing_row d.now old ≡ doc)
unfolding claim_document
claimed_row d id rows after doc claim =
    let (old, row, written, taken) =
      claim_row-owned d (find_document id rows) rows after doc claim in
    let own = find_document-id id rows old row in
    let here : find_document id after ≡ some (processing_row d.now old) =
      ap (find_document id) written
      ∙ ap (λ n. find_document n (put_document (processing_row d.now old) rows)) (sym own)
      ∙ find_document-put_document (processing_row d.now old) old rows
          (ap (λ n. find_document n rows) own ∙ row) in
    (old, here, taken)

-- After a job has claimed a document, and with the rows as that claim left them, the first
-- delivery of any message for it that comes before the lease of the claim runs out is acknowledged
-- and changes no row.
pub claim_document-exclusive :
    (d e : Delivery) (id : Uuid) (rows after : List Document) (doc : Document)
    → claim_document d id rows ≡ (owned doc, after)
    → e.attempt ≤ 1
    → e.now < d.now + e.ack_wait
    → claim_document e id after ≡ (acknowledged, after)
unfolding claim_document
claim_document-exclusive d e id rows after doc claim first fresh =
    let (old, here, taken) = claimed_row d id rows after doc claim in
    ap (λ r. claim_row e r after) here ∙ leased_row d e old after first fresh

free_row :
    (d e : Delivery) (old : Document) (rows : List Document)
    → (1 < e.attempt) ⊎ (d.now + e.ack_wait ≤ e.now)
    → (claim_row e (some (processing_row d.now old)) rows).0 ≡ owned (processing_row e.now old)
unfolding is_unfinished is_leased
free_row d e old rows (inl again) = ground arith
free_row d e old rows (inr late) = ground arith

-- After a job has claimed a document, and with the rows as that claim left them, a redelivery gets
-- the document, and so does any message that comes when the lease of the claim has run out.
claim_document-reclaimed :
    (d e : Delivery) (id : Uuid) (rows after : List Document) (doc : Document)
    → claim_document d id rows ≡ (owned doc, after)
    → (1 < e.attempt) ⊎ (d.now + e.ack_wait ≤ e.now)
    → (claim_document e id after).0 ≡ owned (processing_row e.now doc)
unfolding claim_document
claim_document-reclaimed d e id rows after doc claim free =
    let (old, here, taken) = claimed_row d id rows after doc claim in
    ap (λ r. (claim_row e r after).0) here
    ∙ free_row d e old after free
    ∙ ap (λ x. owned (processing_row e.now x)) taken
