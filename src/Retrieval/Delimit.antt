-- ===== src/Retrieval/Delimit.antt =====
-- services/orchestration-mcp/app/rag_search.py: `_delimit_untrusted_text`, on the code points of a
-- text.
pub mod Once
use Prim.Native.Char.{code}
use Prim.Native.String.{String}
use nexus_rag.Base.{
  ℕ, zero, suc, ◌+◌, ◌-◌, Bool, true, false, ◌&&◌, List, [], ◌∷◌, ◌++◌, length, leb, ◌==◌,
  if◌then◌else◌,
}

abbrev pub codes : String → List ℕ
codes String.[] = []
codes (String.◌∷◌ c s) = code c ∷ codes s

-- re.IGNORECASE against a lower-case letter, a sign or an underscore: `ſ` counts as `s`.
abbrev pub fold : ℕ → ℕ
fold c = if leb b'A' c && leb c b'Z' then c + 32 else if c == 383 then b's' else c

-- the expression matches at the head of the text
abbrev pub matches : List ℕ → List ℕ → Bool
matches [] xs = true
matches (t ∷ ts) [] = false
matches (t ∷ ts) (x ∷ xs) = t == fold x && matches ts xs

-- `re.sub` with a literal: the matches from the left, none of which overlap. The number counts the
-- characters of a match that are still to be left out.
unfoldable pub sub_from : List ℕ → List ℕ → ℕ → List ℕ → List ℕ
sub_from tag replacement k [] = []
sub_from tag replacement (suc k) (x ∷ xs) = sub_from tag replacement k xs
sub_from tag replacement zero (x ∷ xs) =
    let matched = replacement ++ sub_from tag replacement (length tag - 1) xs in
    let passed = x ∷ sub_from tag replacement 0 xs in
    if matches tag (x ∷ xs) then matched else passed

abbrev pub open_tag : List ℕ
open_tag = codes "<untrusted_document_content>"

abbrev pub close_tag : List ℕ
close_tag = codes "</untrusted_document_content>"

abbrev pub forged_open : List ℕ
forged_open = codes "(forged untrusted_document_content open tag)"

abbrev pub forged_close : List ℕ
forged_close = codes "(forged untrusted_document_content close tag)"

unfoldable pub neutralized : List ℕ → List ℕ
unfolding sub_from
neutralized text = sub_from open_tag forged_open 0 (sub_from close_tag forged_close 0 text)

abbrev pub newline : ℕ
newline = 10

unfoldable pub delimit_untrusted_text : List ℕ → List ℕ
unfolding neutralized
delimit_untrusted_text text = open_tag ++ (newline ∷ (neutralized text ++ (newline ∷ close_tag)))
