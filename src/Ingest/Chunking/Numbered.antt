-- ===== src/Ingest/Chunking/Numbered.antt =====
-- Chunking ends, and its chunks are numbered from zero in their order.
use nexus_rag.Base.{
  ℕ, suc, ◌+◌, ◌<◌, ◌≡◌, refl, subst, arith, some, List, [], ◌∷◌, ◌++◌, map, length, is_truthy,
  Bool-cases, inl, inr, String,
}
use nexus_rag.Ingest.Words.{split, join}
use nexus_rag.Ingest.Windows.Cover.{windows-IsCover}
use nexus_rag.Ingest.Chunking.{
  Section, Chunk, Sizes, is_atomic, atomic_texts, section_text, prose_texts, section_texts,
  number_from, chunk_from, chunk_sections,
}

-- The chunks have the indices from `n` on, in their order.
abbrev pub IsNumbered : ℕ → List Chunk → Type 0
IsNumbered n [] = Unit {0}
IsNumbered n (chunk ∷ chunks) = (chunk.chunk_index ≡ n) × IsNumbered (suc n) chunks

number_from-IsNumbered :
    (n : ℕ) (section : Section) (texts : List String) (rest : List Chunk)
    → IsNumbered (n + length texts) rest
    → IsNumbered n (number_from n section texts ++ rest)
unfolding number_from
number_from-IsNumbered n section [] rest h = subst (λ k. IsNumbered k rest) (omega arith) h
number_from-IsNumbered n section (text ∷ texts) rest h = (
  refl,
  number_from-IsNumbered (suc n) section texts rest
      (subst (λ k. IsNumbered k rest) (omega arith) h),
)

prose-some :
    (sizes : Sizes) (text : String)
    → sizes.overlap < sizes.target_words
    → (texts : List String) × (prose_texts sizes text ≡ some texts)
unfolding prose_texts
prose-some sizes text small =
    let (ws, ends, _) = windows-IsCover sizes.target_words sizes.overlap (split text) small in
    (map (join " ") ws, rw ends)

section-some :
    (sizes : Sizes) (section : Section)
    → sizes.overlap < sizes.target_words
    → (texts : List String) × (section_texts sizes section ≡ some texts)
unfolding section_texts
section-some sizes section small = elim (Bool-cases (is_truthy (section_text section))) [
  | inr bare ↦ ([], rw bare)
  | inl full ↦ elim (Bool-cases (is_atomic section.content_type)) [
    | inl whole ↦ (atomic_texts sizes section.content_type (section_text section), rw (full, whole))
    | inr prose ↦
        let (texts, e) = prose-some sizes (section_text section) small in
        (texts, rw (full, prose, e))
  ]
]

chunk_from-IsNumbered :
    (n : ℕ) (sizes : Sizes) (sections : List Section)
    → sizes.overlap < sizes.target_words
    → (chunks : List Chunk) × (chunk_from n sizes sections ≡ some chunks) × IsNumbered n chunks
unfolding chunk_from
chunk_from-IsNumbered n sizes [] small = ([], refl, tt)
chunk_from-IsNumbered n sizes (section ∷ sections) small =
    let (texts, e) = section-some sizes section small in
    let (rest, ends, numbered) = chunk_from-IsNumbered (n + length texts) sizes sections small in
    (
      number_from n section texts ++ rest,
      rw (e, ends),
      number_from-IsNumbered n section texts rest numbered,
    )

-- With an overlap smaller than the target, chunking ends on every document, and the chunks have the
-- indices 0, 1, 2 and so on in their order.
pub chunk_sections-IsNumbered :
    (sizes : Sizes) (sections : List Section)
    → sizes.overlap < sizes.target_words
    → (chunks : List Chunk) × (chunk_sections sizes sections ≡ some chunks) × IsNumbered 0 chunks
unfolding chunk_sections
chunk_sections-IsNumbered sizes sections small = chunk_from-IsNumbered 0 sizes sections small
