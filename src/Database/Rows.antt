-- ===== src/Database/Rows.antt =====
-- Looking up the row that was written, and every other row.
use nexus_rag.Base.{
  ◌≡◌, ◌≢◌, refl, inl, inr, false, Option, some, List, [], ◌∷◌, arith, In, ◌==◌, ==_iff, ==_refl,
  Bool-cases, sym,
}
use nexus_rag.Document.{Uuid, Document}
use nexus_rag.Database.{find_document, put_document}

-- A row that is found has the id, and is in the table.
pub find_document-id :
    (id : Uuid) (rows : List Document) (doc : Document)
    → find_document id rows ≡ some doc
    → doc.id ≡ id
unfolding find_document
find_document-id id [] doc e = cc
find_document-id id (row ∷ rows) doc e =
    ground (arith, ==_iff row.id id, find_document-id id rows doc)

find_document-In :
    (id : Uuid) (rows : List Document) (doc : Document)
    → find_document id rows ≡ some doc
    → In doc rows
unfolding find_document
find_document-In id [] doc e = cc
find_document-In id (row ∷ rows) doc e = elim (Bool-cases (row.id == id)) [
  | inl hit ↦ inl (found row (rw hit at e))
  | inr miss ↦ inr (find_document-In id rows doc (rw miss at e))
]
  where
    found : (r : Document) → Path (Option Document) (some r) (some doc) → doc ≡ r
    found r k = cc

-- What is written is what is found, if the row was there.
pub find_document-put_document :
    (doc old : Document) (rows : List Document)
    → find_document doc.id rows ≡ some old
    → find_document doc.id (put_document doc rows) ≡ some doc
unfolding find_document put_document
find_document-put_document doc old [] e = cc
find_document-put_document doc old (row ∷ rows) e = elim (Bool-cases (row.id == doc.id)) [
  | inl hit ↦ rw (hit, ==_refl doc.id)
  | inr miss ↦ rw (miss, miss) (find_document-put_document doc old rows (rw miss at e))
]

pub find_document-put_other :
    (doc : Document) (id : Uuid) (rows : List Document)
    → id ≢ doc.id
    → find_document id (put_document doc rows) ≡ find_document id rows
unfolding find_document put_document
find_document-put_other doc id [] ne = refl
find_document-put_other doc id (row ∷ rows) ne =
    let ih = find_document-put_other doc id rows ne in
    elim (Bool-cases (row.id == doc.id)) [
      | inl hit ↦
          let own = (==_iff row.id doc.id).0 hit in
          rw (hit, own, miss_of doc.id (λ e. ne (sym e))) ih
      | inr miss ↦ rw (miss, ih)
    ]
  where
    miss_of : (n : Uuid) → n ≢ id → (n == id) ≡ false
    miss_of n k = ground (arith, ==_iff n id)
