-- ===== src/Ingest/Recovery/Keyed.antt =====
-- The rows under their primary key: what a mark changes, and what a batch has.
use nexus_rag.Base.{
  ℕ, zero, suc, ◌≡◌, ◌≢◌, refl, sym, ◌∙◌, ap, subst, arith, inl, inr, Bool, true, false, Option,
  some, List, [], ◌∷◌, map, take, filter, filter-In, In, All, All-In, In-All, ==_refl, min,
  length-take, take-In, length, ◌==◌, ==_iff, Bool-cases,
}
use nexus_rag.Base.Sort.{sorted, sorted-In, length-sorted, Pairwise, sorted-Pairwise}
use nexus_rag.Document.{Uuid, Time, Document}
use nexus_rag.Database.{find_document, put_document}
use nexus_rag.Ingest.Recovery.{published_row, is_unpublished, created_before, unpublished_batch}

abbrev pub Apart : Document → Document → Type 0
Apart a b = a.id ≢ b.id

pub Apart-swap : (a b : Document) → Apart a b → Apart b a
Apart-swap a b h e = h (sym e)

-- The ids are a primary key.
abbrev pub IsKeyed : List Document → Type 0
IsKeyed = Pairwise created_before Apart Apart-swap

-- How many documents wait for their message.
abbrev pub unpublished : List Document → ℕ
unpublished rows = length (filter is_unpublished rows)

-- Each id has a row that waits for its message, and no id comes twice.
abbrev pub AllWait : List Document → List Uuid → Type 0
AllWait rows [] = Unit {0}
AllWait rows (id ∷ ids) =
    ((row : Document) × (find_document id rows ≡ some row) × (is_unpublished row ≡ true))
    × All (λ n. id ≢ n) ids
    × AllWait rows ids

find-IsKeyed :
    (rows : List Document) (row : Document)
    → IsKeyed rows
    → In row rows
    → find_document row.id rows ≡ some row
unfolding find_document
find-IsKeyed [] row h i = absurd i
find-IsKeyed (r ∷ rows) row h (inl e) =
    rw (ap (λ (d : Document). r.id == d.id) e ∙ ==_refl r.id) (ap some (sym e))
find-IsKeyed (r ∷ rows) row h (inr i) = elim (Bool-cases (r.id == row.id)) [
  | inl hit ↦ absurd (All-In (Apart r) rows h.0 row i ((==_iff r.id row.id).0 hit))
  | inr miss ↦ rw miss (find-IsKeyed rows row h.1 i)
]

pub put_document-All :
    (P : Document → Type 0) (doc : Document) (rows : List Document)
    → P doc
    → All P rows
    → All P (put_document doc rows)
unfolding put_document
put_document-All P doc [] p h = tt
put_document-All P doc (r ∷ rows) p h = elim (Bool-cases (r.id == doc.id)) [
  | inl hit ↦ rw hit (p, put_document-All P doc rows p h.1)
  | inr miss ↦ rw miss (h.0, put_document-All P doc rows p h.1)
]

put_document-none :
    (doc : Document) (rows : List Document) → All (Apart doc) rows → put_document doc rows ≡ rows
unfolding put_document
put_document-none doc [] h = refl
put_document-none doc (r ∷ rows) h = elim (Bool-cases (r.id == doc.id)) [
  | inl hit ↦ absurd (h.0 (sym ((==_iff r.id doc.id).0 hit)))
  | inr miss ↦ rw miss (ap (λ (l : List Document). r ∷ l) (put_document-none doc rows h.1))
]

pub put_document-IsKeyed :
    (doc : Document) (rows : List Document) → IsKeyed rows → IsKeyed (put_document doc rows)
unfolding put_document
put_document-IsKeyed doc [] h = tt
put_document-IsKeyed doc (r ∷ rows) h = elim (Bool-cases (r.id == doc.id)) [
  | inl hit ↦
      let apart =
        subst (λ n. All (λ (d : Document). n ≢ d.id) rows) ((==_iff r.id doc.id).0 hit) h.0 in
      rw (hit, put_document-none doc rows apart) (apart, h.1)
  | inr miss ↦ rw miss (
    put_document-All (Apart r) doc rows (λ e. differs e miss) h.0,
    put_document-IsKeyed doc rows h.1,
  )
]
  where
    differs : r.id ≡ doc.id → (r.id == doc.id) ≡ false → ⊥
    differs e miss = ground (arith, ==_iff r.id doc.id)

-- A mark takes one document from those that wait.
pub unpublished-put :
    (at : Time) (rows : List Document) (row : Document)
    → IsKeyed rows
    → find_document row.id rows ≡ some row
    → is_unpublished row ≡ true
    → suc (unpublished (put_document (published_row at row) rows)) ≡ unpublished rows
unfolding find_document put_document
unpublished-put at [] row h e w = cc
unpublished-put at (r ∷ rows) row h e w = elim (Bool-cases (r.id == row.id)) [
  | inl hit ↦
      let apart =
        subst (λ n. All (λ (d : Document). n ≢ d.id) rows) ((==_iff r.id row.id).0 hit) h.0 in
      rw (hit, put_document-none (published_row at row) rows apart) (first (same (rw hit at e)))
  | inr miss ↦ rw miss (counts (unpublished-put at rows row h.1 (rw miss at e) w))
]
  where
    same : Path (Option Document) (some r) (some row) → row ≡ r
    same k = cc

    marked : is_unpublished (published_row at row) ≡ false
    marked = ground arith

    first : row ≡ r → suc (unpublished (published_row at row ∷ rows)) ≡ unpublished (r ∷ rows)
    first k =
        subst (λ x. suc (unpublished (published_row at row ∷ rows)) ≡ unpublished (x ∷ rows)) k
          (rw (marked, w) refl)

    counts :
        suc (unpublished (put_document (published_row at row) rows)) ≡ unpublished rows
        → suc (unpublished (r ∷ put_document (published_row at row) rows)) ≡ unpublished (r ∷ rows)
    counts k = ground arith

-- what is in the batch
waiting :
    (rows batch : List Document)
    → IsKeyed rows
    → IsKeyed batch
    → ((d : Document) → In d batch → In d rows × (is_unpublished d ≡ true))
    → AllWait rows (map (λ (d : Document). d.id) batch)
waiting rows [] h k f = tt
waiting rows (b ∷ batch) h k f =
    let (here, open_) = f b (inl refl) in
    (
      (b, find-IsKeyed rows b h here, open_),
      ids batch k.0,
      waiting rows batch h k.1 (λ d i. f d (inr i)),
    )
  where
    ids :
        (ds : List Document)
        → All (Apart b) ds
        → All (λ n. b.id ≢ n) (map (λ (d : Document). d.id) ds)
    ids [] a = tt
    ids (d ∷ ds) a = (a.0, ids ds a.1)

filter-IsKeyed :
    (p : Document → Bool) (rows : List Document) → IsKeyed rows → IsKeyed (filter p rows)
filter-IsKeyed p [] h = tt
filter-IsKeyed p (r ∷ rows) h = elim (Bool-cases (p r)) [
  | inl e ↦ rw e (
    In-All (Apart r) (filter p rows) (λ d i. All-In (Apart r) rows h.0 d (filter-In p d rows i).0),
    filter-IsKeyed p rows h.1,
  )
  | inr e ↦ rw e (filter-IsKeyed p rows h.1)
]

take-IsKeyed : (n : ℕ) (rows : List Document) → IsKeyed rows → IsKeyed (take n rows)
take-IsKeyed zero rows h = tt
take-IsKeyed (suc n) [] h = tt
take-IsKeyed (suc n) (r ∷ rows) h = (
  In-All (Apart r) (take n rows) (λ d i. All-In (Apart r) rows h.0 d (take-In n d rows i)),
  take-IsKeyed n rows h.1,
)

-- The documents of a batch all wait.
pub unpublished_batch-AllWait :
    (limit : ℕ) (rows : List Document)
    → IsKeyed rows
    → AllWait rows (map (λ (d : Document). d.id) (unpublished_batch limit rows))
unfolding unpublished_batch
unpublished_batch-AllWait limit rows h =
    let found = filter is_unpublished rows in
    waiting rows (take limit (sorted created_before found)) h
      (take-IsKeyed limit (sorted created_before found) (
        sorted-Pairwise created_before Apart Apart-swap found
          (filter-IsKeyed is_unpublished rows h)))
      (λ d i.
        filter-In is_unpublished d rows
          ((sorted-In created_before d found).0 (take-In limit d (sorted created_before found) i)))

-- It has as many as the limit allows.
pub unpublished_batch-length :
    (limit : ℕ) (rows : List Document)
    → length (unpublished_batch limit rows) ≡ min limit (unpublished rows)
unfolding unpublished_batch
unpublished_batch-length limit rows =
    length-take limit (sorted created_before (filter is_unpublished rows))
    ∙ ap (min limit) (length-sorted created_before (filter is_unpublished rows))
