-- ===== src/Ingest/Windows.antt =====
-- services/ingestion-worker/app/chunking.py: the sliding window of `chunk_sections`, on fuel, and
-- the row groups of `_split_table_rows`.
pub mod Cover
pub mod Rows
use nexus_rag.Base.{
  ℕ, zero, suc, ◌+◌, ◌-◌, min, String, Bool, true, false, not, ◌&&◌, Option, none, some, List, [],
  ◌∷◌, ◌++◌, length, take, drop, is_empty, ltb, ◌==◌, if◌then◌else◌,
}
use nexus_rag.Ingest.Words.{split}

module _ {A : Type 0} where
  -- `words[start:end]`
  abbrev pub slice : ℕ → ℕ → List A → List A
  slice start end words = take (end - start) (drop start words)

  abbrev cons_if : List A → Option (List (List A)) → Option (List (List A))
  cons_if w none = none
  cons_if w (some ws) = some (w ∷ ws)

  -- `while True`: the window from `start`, then the rest; `none` when the fuel runs out. With an
  -- overlap above the target `start` is negative in the code and 0 here; neither loop ends then, if
  -- there are more words than the target.
  unfoldable pub windows : ℕ → ℕ → ℕ → ℕ → List A → Option (List (List A))
  windows zero target overlap start words = none
  windows (suc fuel) target overlap start words =
      let end = min (start + target) (length words) in
      let rest = windows fuel target overlap (end - overlap) words in
      if end == length words
      then some (slice start end words ∷ [])
      else cons_if (slice start end words) rest

abbrev pub word_count : String → ℕ
word_count row = length (split row)

-- whether a row would make the group that it is added to too long
abbrev pub is_full : ℕ → List String → ℕ → String → Bool
is_full max_words current current_words row =
    not (is_empty current) && ltb max_words (current_words + word_count row)

-- The loop over the rows, with the group so far and its size.
unfoldable pub group_rows : ℕ → ℕ → List String → ℕ → List String → List (List String)
group_rows prefix_words max_words current current_words [] =
    if is_empty current then [] else current ∷ []
group_rows prefix_words max_words current current_words (row ∷ rows) =
    let full = is_full max_words current current_words row in
    let rest =
      group_rows prefix_words max_words (if full then row ∷ [] else current ++ row ∷ [])
        ((if full then prefix_words else current_words) + word_count row) rows in
    if full then current ∷ rest else rest
