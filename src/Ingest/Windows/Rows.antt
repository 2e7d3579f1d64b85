-- ===== src/Ingest/Windows/Rows.antt =====
-- A table that is split loses no row, and each group fits or is one row.
use nexus_rag.Base.{
  ℕ, ◌+◌, ◌≤◌, ◌≡◌, ◌⊎◌, inl, inr, refl, ◌∙◌, ap, arith, String, false, List, [], ◌∷◌, ◌++◌, All,
  length, Bool-cases,
}
use nexus_rag.Ingest.Windows.{word_count, is_full, group_rows}

abbrev concat : List (List String) → List String
concat [] = []
concat (g ∷ gs) = g ++ concat gs

abbrev rows_words : List String → ℕ
rows_words [] = 0
rows_words (row ∷ rows) = word_count row + rows_words rows

append_assoc : (xs ys zs : List String) → (xs ++ ys) ++ zs ≡ xs ++ (ys ++ zs)
append_assoc [] ys zs = refl
append_assoc (x ∷ xs) ys zs = ap (λ (l : List String). x ∷ l) (append_assoc xs ys zs)

append_nil : (xs : List String) → xs ++ [] ≡ xs
append_nil [] = refl
append_nil (x ∷ xs) = ap (λ (l : List String). x ∷ l) (append_nil xs)

rows_words-append : (xs ys : List String) → rows_words (xs ++ ys) ≡ rows_words xs + rows_words ys
rows_words-append [] ys = omega arith
rows_words-append (x ∷ xs) ys = omega (arith, rows_words-append xs ys)

-- The groups hold the rows in their order, each once.
group_rows-concat :
    (prefix max : ℕ) (current : List String) (n : ℕ) (rows : List String)
    → concat (group_rows prefix max current n rows) ≡ current ++ rows
unfolding group_rows
group_rows-concat prefix max [] n [] = refl
group_rows-concat prefix max (x ∷ xs) n [] = refl
group_rows-concat prefix max current n (row ∷ rows) =
    elim (Bool-cases (is_full max current n row)) [
      | inl full ↦ rw full (
          ap (λ (l : List String). current ++ l)
            (group_rows-concat prefix max (row ∷ []) (prefix + word_count row) rows))
      | inr room ↦ rw room (
          group_rows-concat prefix max (current ++ row ∷ []) (n + word_count row) rows
          ∙ append_assoc current (row ∷ []) rows)
    ]

-- A group has one row at most, or fits with the two lines that each group repeats.
abbrev Fits : ℕ → ℕ → List String → Type 0
Fits prefix max group = (length group ≤ 1) ⊎ (prefix + rows_words group ≤ max)

room-Fits :
    (prefix max : ℕ) (current : List String) (n : ℕ) (row : String)
    → n ≡ prefix + rows_words current
    → is_full max current n row ≡ false
    → Fits prefix max (current ++ row ∷ [])
room-Fits prefix max [] n row e room = inl (omega arith)
room-Fits prefix max (x ∷ xs) n row e room =
    inr (ground (arith, rows_words-append (x ∷ xs) (row ∷ [])))

group_rows-Fits :
    (prefix max : ℕ) (current : List String) (n : ℕ) (rows : List String)
    → n ≡ prefix + rows_words current
    → Fits prefix max current
    → All (Fits prefix max) (group_rows prefix max current n rows)
unfolding group_rows
group_rows-Fits prefix max [] n [] e fits = tt
group_rows-Fits prefix max (x ∷ xs) n [] e fits = (fits, tt)
group_rows-Fits prefix max current n (row ∷ rows) e fits =
    elim (Bool-cases (is_full max current n row)) [
      | inl full ↦ rw full (
        fits,
        group_rows-Fits prefix max (row ∷ []) (prefix + word_count row) rows (omega arith)
            (inl (omega arith)),
      )
      | inr room ↦ rw room (
          group_rows-Fits prefix max (current ++ row ∷ []) (n + word_count row) rows
            (omega (arith, e, rows_words-append current (row ∷ [])))
            (room-Fits prefix max current n row e room))
    ]

-- A split of the rows puts each of them, in order, into one group, and a group has one row or fits
-- with the lines that every group repeats.
group_rows-cover :
    (prefix max : ℕ) (rows : List String)
    → (concat (group_rows prefix max [] prefix rows) ≡ rows)
      × All (Fits prefix max) (group_rows prefix max [] prefix rows)
group_rows-cover prefix max rows = (
  group_rows-concat prefix max [] prefix rows,
  group_rows-Fits prefix max [] prefix rows (omega arith) (inl (omega arith)),
)
