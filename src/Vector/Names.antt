-- ===== src/Vector/Names.antt =====
-- services/common/common/qdrant_store.py: the collection that holds a classification's chunks.
use Prim.Native.Char.{Char, code}
use Prim.Native.String.{String, ◌++◌}
use nexus_rag.Base.{
  ℕ, ◌≡◌, refl, Bool, true, false, ◌&&◌, ◌||◌, List, [], ◌∷◌, leb, ◌==◌, if◌then◌else◌, is_truthy,
  is_space, strip,
}

-- QDRANT_COLLECTION, at its default
abbrev pub qdrant_collection : String
qdrant_collection = "nexus_rag_chunks"

abbrev pub collection_prefix : String
collection_prefix = "nexus_rag_chunks__"

abbrev lower_table : List (ℕ × Char)
lower_table =
    (65, "a")
    ∷ (66, "b")
    ∷ (67, "c")
    ∷ (68, "d")
    ∷ (69, "e")
    ∷ (70, "f")
    ∷ (71, "g")
    ∷ (72, "h")
    ∷ (73, "i")
    ∷ (74, "j")
    ∷ (75, "k")
    ∷ (76, "l")
    ∷ (77, "m")
    ∷ (78, "n")
    ∷ (79, "o")
    ∷ (80, "p")
    ∷ (81, "q")
    ∷ (82, "r")
    ∷ (83, "s")
    ∷ (84, "t")
    ∷ (85, "u")
    ∷ (86, "v")
    ∷ (87, "w")
    ∷ (88, "x")
    ∷ (89, "y")
    ∷ (90, "z")
    ∷ (8490, "k")
    ∷ []

abbrev lower_from : List (ℕ × Char) → Char → Char
lower_from [] c = c
lower_from ((n, d) ∷ table) c = let rest = lower_from table c in if n == code c then d else rest

-- `str.lower`. Of the characters that are not ASCII, U+212A gives `k` and U+0130 gives `i` and a
-- combining dot; what the others give is not ASCII either, and the slug drops it as it drops them.
unfoldable pub lower : String → String
lower String.[] = String.[]
lower (String.◌∷◌ c s) =
    let rest = lower s in
    if code c == 304 then "i̇" ++ rest else String.◌∷◌ (lower_from lower_table c) rest

-- [a-z0-9_-]
abbrev is_slug : ℕ → Bool
is_slug c = (leb b'a' c && leb c b'z') || (leb b'0' c && leb c b'9') || c == b'_' || c == b'-'

-- `_COLLECTION_SLUG_RE.sub("_", s)`: a run of other characters becomes one underscore. The flag
-- says that the run has its underscore.
unfoldable sub_runs : Bool → String → String
sub_runs in_run String.[] = String.[]
sub_runs in_run (String.◌∷◌ c s) =
    if is_slug (code c)
    then String.◌∷◌ c (sub_runs false s)
    else if in_run
    then sub_runs true s
    else String.◌∷◌ "_" (sub_runs true s)

unfoldable slug : String → String
unfolding strip is_space lower sub_runs
slug classification =
    strip (λ c. c == b'_') (sub_runs false (lower (strip is_space classification)))

unfoldable pub classification_collection_name : String → String
unfolding slug
classification_collection_name classification =
    let s = slug classification in collection_prefix ++ (if is_truthy s then s else "unspecified")

top_secret : classification_collection_name " Top Secret!" ≡ "nexus_rag_chunks__top_secret"
unfolding classification_collection_name
top_secret = refl

only_symbols : classification_collection_name "//" ≡ "nexus_rag_chunks__unspecified"
unfolding classification_collection_name
only_symbols = refl
