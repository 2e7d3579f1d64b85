-- ===== src/Ingest/Words.antt =====
-- Python's `str.split` and `str.join`, and `_collapse_repeated_chars` of
-- services/ingestion-worker/app/chunking.py.
use Prim.Native.Char.{code}
use Prim.Native.String.{String, ◌++◌}
use nexus_rag.Base.{
  ℕ, suc, ◌≡◌, refl, not, ◌&&◌, List, [], ◌∷◌, is_truthy, is_space, ltb, ◌==◌, if◌then◌else◌,
}

abbrev push : String → List String → List String
push w ws = if is_truthy w then w ∷ ws else ws

-- the word that the text begins with, if it does, and the words after it
unfoldable words_from : String → String × List String
unfolding is_space
words_from String.[] = ("", [])
words_from (String.◌∷◌ c s) =
    let rest = words_from s in
    if is_space (code c) then ("", push rest.0 rest.1) else (String.◌∷◌ c rest.0, rest.1)

-- `text.split()`
unfoldable pub split : String → List String
unfolding words_from
split s = push (words_from s).0 (words_from s).1

unfoldable lines_from : String → String × List String
lines_from String.[] = ("", [])
lines_from (String.◌∷◌ c s) =
    let rest = lines_from s in
    if code c == 10 then ("", rest.0 ∷ rest.1) else (String.◌∷◌ c rest.0, rest.1)

-- `text.split("\n")`
unfoldable pub split_lines : String → List String
unfolding lines_from
split_lines s = (lines_from s).0 ∷ (lines_from s).1

-- `sep.join(xs)`
unfoldable pub join : String → List String → String
join sep [] = ""
join sep (x ∷ []) = x
join sep (x ∷ y ∷ xs) = x ++ sep ++ join sep (y ∷ xs)

-- the length of the run that a character ends, after a run of `n` of the character `previous`
abbrev run_length : ℕ → ℕ → ℕ → ℕ
run_length previous n c = if c == previous && not (is_space c) then suc n else 1

-- A run of more than three of one character is cut to three; spaces are left.
unfoldable collapse_run : ℕ → ℕ → String → String
unfolding is_space
collapse_run previous n String.[] = String.[]
collapse_run previous n (String.◌∷◌ c s) =
    let m = run_length previous n (code c) in
    let rest = collapse_run (code c) m s in if ltb 3 m then rest else String.◌∷◌ c rest

unfoldable pub collapse_repeated_chars : String → String
unfolding collapse_run
collapse_repeated_chars s = collapse_run 0 0 s

dot_leaders : collapse_repeated_chars "Overview .......... 7" ≡ "Overview ... 7"
unfolding collapse_repeated_chars
dot_leaders = refl

two_words : split "  one\ttwo " ≡ "one" ∷ "two" ∷ []
unfolding split
two_words = refl
