-- ===== src/Ingest/Chunking.antt =====
-- services/ingestion-worker/app/chunking.py: `chunk_sections`.
pub mod Numbered
use nexus_rag.Base.{
  ℕ, suc, ◌+◌, String, Bool, true, false, not, ◌&&◌, ◌||◌, Option, none, some, List, [], ◌∷◌, ◌++◌,
  map, length, is_truthy, is_space, strip, str_eq, ltb, if◌then◌else◌,
}
use nexus_rag.Ingest.Words.{split, split_lines, join, collapse_repeated_chars}
use nexus_rag.Ingest.Windows.{windows, word_count, group_rows}

-- ParsedSection (services/ingestion-worker/app/parsing.py)
pub record Section : Type 0 where
  pub text : String
  pub heading : Option String
  pub page_or_slide : Option ℕ
  pub content_type : String

pub record Chunk : Type 0 where
  pub text : String
  pub chunk_index : ℕ
  pub heading : Option String
  pub page_or_slide : Option ℕ
  pub content_type : String

-- CHUNK_TARGET_WORDS, `int(target_words * overlap_ratio)` and CHUNK_TABLE_MAX_WORDS
pub record Sizes : Type 0 where
  pub target_words : ℕ
  pub overlap : ℕ
  pub table_max_words : ℕ

abbrev row_groups : ℕ → String → List String → List String
row_groups max_words text (header ∷ separator ∷ row ∷ rows) =
    map (λ group. join "\n" (header ∷ separator ∷ group))
      (group_rows (word_count header + word_count separator) max_words []
        (word_count header + word_count separator) (row ∷ rows))
row_groups max_words text _ = text ∷ []

unfoldable pub split_table_rows : String → ℕ → List String
split_table_rows text max_words = row_groups max_words text (split_lines text)

-- _ATOMIC_CONTENT_TYPES
abbrev pub is_atomic : String → Bool
is_atomic content_type = str_eq content_type "table" || str_eq content_type "image"

abbrev pub atomic_texts : Sizes → String → String → List String
atomic_texts sizes content_type text =
    if str_eq content_type "table" && ltb sizes.table_max_words (word_count text)
    then split_table_rows text sizes.table_max_words
    else text ∷ []

abbrev joined : Option (List (List String)) → Option (List String)
joined none = none
joined (some ws) = some (map (join " ") ws)

-- The text of a section as it is cut. A word is left behind by each window but the last, so one more
-- than the words is fuel enough.
unfoldable pub section_text : Section → String
unfolding strip is_space
section_text section = collapse_repeated_chars (strip is_space section.text)

unfoldable pub prose_texts : Sizes → String → Option (List String)
prose_texts sizes text =
    let words = split text in
    joined (windows (suc (length words)) sizes.target_words sizes.overlap 0 words)

unfoldable pub section_texts : Sizes → Section → Option (List String)
section_texts sizes section =
    let text = section_text section in
    if not (is_truthy text)
    then some []
    else if is_atomic section.content_type
    then some (atomic_texts sizes section.content_type text)
    else prose_texts sizes text

-- `chunk_index=len(chunks)` for each text in turn
unfoldable pub number_from : ℕ → Section → List String → List Chunk
number_from n section [] = []
number_from n section (text ∷ texts) =
    record {
      text = text;
      chunk_index = n;
      heading = section.heading;
      page_or_slide = section.page_or_slide;
      content_type = section.content_type;
    }
    ∷ number_from (suc n) section texts

abbrev pub appended : List Chunk → Option (List Chunk) → Option (List Chunk)
appended chunks none = none
appended chunks (some rest) = some (chunks ++ rest)

abbrev with_texts : Option (List String) → (List String → Option (List Chunk)) → Option (List Chunk)
with_texts none go = none
with_texts (some texts) go = go texts

-- the loop over the sections, with the number of chunks so far
unfoldable pub chunk_from : ℕ → Sizes → List Section → Option (List Chunk)
chunk_from n sizes [] = some []
chunk_from n sizes (section ∷ sections) =
    with_texts (section_texts sizes section) (λ texts.
      appended (number_from n section texts) (chunk_from (n + length texts) sizes sections))

unfoldable pub chunk_sections : Sizes → List Section → Option (List Chunk)
chunk_sections sizes sections = chunk_from 0 sizes sections
