-- ===== src/Retrieval/Rerank.antt =====
-- services/orchestration-mcp/app/reranking.py: `rerank`. Scores and the floor are integers in one
-- unit, and weights are in thousandths of it, where the code has floats.
pub mod Ranked
pub mod Boosted
use nexus_rag.Base.{
  ℕ, zero, suc, ◌-◌, ◌*◌, String, Bool, true, false, not, Option, none, some, List, [], ◌∷◌, ◌++◌,
  filter, length, is_empty, ltb, ◌==◌, str_eq, if◌then◌else◌,
}
use nexus_rag.Base.Int.{ℤ, pos, negsuc, leb_ℤ, ltb_ℤ}
use nexus_rag.Base.Sort.{sorted}
use nexus_rag.Document.{Uuid}
use nexus_rag.Retrieval.Overlaps.{Candidate, collapse_adjacent_overlaps}

-- What came back from the service: httpx.HTTPError, the rows of "tei" and "cohere", by the index of
-- a candidate, or those of "internal", by its id.
pub data Response : Type 0 where
  http_error : Response
  by_index : List (ℕ × ℤ) → Response
  by_id : List (Uuid × ℤ) → Response

-- CONTENT_TYPE_BOOSTS and RERANK_SCORE_FLOOR
pub record RerankSettings : Type 0 where
  pub boosts : List (String × ℕ)
  pub score_floor : Option ℤ

-- The note of an answer, by the numbers in it.
pub data Note : Type 0 where
  no_candidates : Note
  fused_order : ℕ → Note
  reranked : ℕ → ℕ → Note

-- a number times a weight in thousandths, in thousandths
unfoldable pub scale : ℤ → ℕ → ℤ
scale (pos n) weight = pos (n * weight)
scale (negsuc n) zero = pos 0
scale (negsuc n) (suc w) = negsuc (suc n * suc w - 1)

abbrev candidate_at : ℕ → List Candidate → Option Candidate
candidate_at i [] = none
candidate_at zero (c ∷ cs) = some c
candidate_at (suc i) (c ∷ cs) = candidate_at i cs

abbrev add_score : Option Candidate → ℤ → Option (List (Uuid × ℤ)) → Option (List (Uuid × ℤ))
add_score none score rest = none
add_score (some c) score none = none
add_score (some c) score (some scores) = some ((c.id, score) ∷ scores)

-- `{candidates[row["index"]]["id"]: row["score"] for row in rows}`; `none` where an index is past
-- the end. Of two entries for one id the later one counts, so `score_of` reads from the end.
unfoldable pub scores_by_index : List Candidate → List (ℕ × ℤ) → Option (List (Uuid × ℤ))
scores_by_index candidates [] = some []
scores_by_index candidates ((i, score) ∷ rows) =
    add_score (candidate_at i candidates) score (scores_by_index candidates rows)

abbrev or_later : Option ℤ → Option ℤ → Option ℤ
or_later (some later) own = some later
or_later none own = own

-- `scores.get(id, float("-inf"))`, with `none` for the infinity
unfoldable pub score_of : Uuid → List (Uuid × ℤ) → Option ℤ
score_of id [] = none
score_of id ((key, score) ∷ scores) =
    or_later (score_of id scores) (if key == id then some score else none)

unfoldable pub weight_of : String → List (String × ℕ) → ℕ
weight_of content_type [] = 1000
weight_of content_type ((key, weight) ∷ boosts) =
    let rest = weight_of content_type boosts in if str_eq key content_type then weight else rest

abbrev weighted : Option ℤ → ℕ → Option ℤ
weighted none weight = none
weighted (some base) weight = some (scale base weight)

-- `_boosted_score`, in thousandths
unfoldable pub boosted_score : List (String × ℕ) → List (Uuid × ℤ) → Candidate → Option ℤ
unfolding score_of weight_of scale
boosted_score boosts scores candidate =
    weighted (score_of candidate.id scores) (weight_of candidate.payload.content_type boosts)

abbrev pub below : Option ℤ → Option ℤ → Bool
below none none = false
below none (some b) = true
below (some a) none = false
below (some a) (some b) = ltb_ℤ a b

-- a stands in front of b under `reverse=True`
abbrev pub scores_above : List (String × ℕ) → List (Uuid × ℤ) → Candidate → Candidate → Bool
scores_above boosts scores a b =
    below (boosted_score boosts scores b) (boosted_score boosts scores a)

-- `_boosted_score(c) >= RERANK_SCORE_FLOOR`, if there is a floor
abbrev pub reaches : Option ℤ → Option ℤ → Bool
reaches none score = true
reaches (some floor) none = false
reaches (some floor) (some score) = leb_ℤ (scale floor 1000) score

abbrev pub chosen_boosts : RerankSettings → Option (List (String × ℕ)) → List (String × ℕ)
chosen_boosts settings none = settings.boosts
chosen_boosts settings (some boosts) = boosts

unfoldable pub rank_scored :
    RerankSettings
    → List (String × ℕ)
    → List (Uuid × ℤ)
    → List Candidate
    → ℕ
    → List Candidate × Note
unfolding boosted_score
rank_scored settings boosts scores candidates top_k =
    let ranked = sorted (scores_above boosts scores) candidates in
    let surviving =
      filter (λ c. reaches settings.score_floor (boosted_score boosts scores c)) ranked in
    let (kept, collapsed) = collapse_adjacent_overlaps surviving top_k in
    (kept, reranked (length ranked - length surviving) collapsed)

abbrev pub rank_by :
    RerankSettings
    → List (String × ℕ)
    → Option (List (Uuid × ℤ))
    → List Candidate
    → ℕ
    → Option (List Candidate × Note)
rank_by settings boosts none candidates top_k = none
rank_by settings boosts (some scores) candidates top_k =
    some (rank_scored settings boosts scores candidates top_k)

abbrev pub rank_response :
    RerankSettings
    → List (String × ℕ)
    → Response
    → List Candidate
    → ℕ
    → Option (List Candidate × Note)
rank_response settings boosts http_error candidates top_k =
    let (kept, dropped) = collapse_adjacent_overlaps candidates top_k in
    some (kept, fused_order dropped)
rank_response settings boosts (by_index rows) candidates top_k =
    rank_by settings boosts (scores_by_index candidates rows) candidates top_k
rank_response settings boosts (by_id rows) candidates top_k =
    rank_by settings boosts (some rows) candidates top_k

-- `none` where the rows name a candidate that there is not, which raises.
unfoldable pub rerank :
    RerankSettings
    → Option (List (String × ℕ))
    → Response
    → List Candidate
    → ℕ
    → Option (List Candidate × Note)
unfolding rank_scored scores_by_index
rerank settings boosts response candidates top_k =
    if is_empty candidates
    then some ([], no_candidates)
    else rank_response settings (chosen_boosts settings boosts) response candidates top_k
