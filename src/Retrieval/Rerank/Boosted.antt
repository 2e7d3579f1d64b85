-- ===== src/Retrieval/Rerank/Boosted.antt =====
-- What a boost does to the order of the candidates.
use native.Mathlib.Nat.{mul-lt-mul_of_pos_left}
use nexus_rag.Base.{ℕ, zero, suc, ◌*◌, ◌<◌, ◌≡◌, arith, String, true, some, List}
use nexus_rag.Base.Int.{ℤ, pos, negsuc, ltb_ℤ, ◌<ℤ◌}
use nexus_rag.Document.{Uuid}
use nexus_rag.Retrieval.Overlaps.{Candidate}
use nexus_rag.Retrieval.Rerank.{scale, score_of, weight_of, boosted_score, scores_above}

scale-lt :
    (n weight : ℕ)
    → 1000 < weight
    → (scale (pos (suc n)) 1000 <ℤ scale (pos (suc n)) weight)
      × (scale (negsuc n) weight <ℤ scale (negsuc n) 1000)
unfolding scale
scale-lt n zero h = absurd (omega arith)
scale-lt n (suc w) h =
    let more : suc n * 1000 < suc n * suc w =
      mul-lt-mul_of_pos_left {m = 1000} {n = suc w} {k = suc n} h (omega arith) in
    (omega arith, omega arith)

<ℤ→ltb_ℤ : (a b : ℤ) → a <ℤ b → ltb_ℤ a b ≡ true
<ℤ→ltb_ℤ a b h = ground arith

-- Of two candidates with one score, of which only the first has a content type that is boosted by a
-- weight above one, the first stands in front where the score is above zero, and the second does
-- where it is below zero.
pub scores_above-boosted :
    (boosts : List (String × ℕ)) (scores : List (Uuid × ℤ)) (a b : Candidate) (n weight : ℕ)
    → weight_of a.payload.content_type boosts ≡ weight
    → weight_of b.payload.content_type boosts ≡ 1000
    → 1000 < weight
    → (score_of a.id scores ≡ some (pos (suc n))
        → score_of b.id scores ≡ some (pos (suc n))
        → scores_above boosts scores a b ≡ true)
      × (score_of a.id scores ≡ some (negsuc n)
          → score_of b.id scores ≡ some (negsuc n)
          → scores_above boosts scores b a ≡ true)
unfolding boosted_score
scores_above-boosted boosts scores a b n weight wa wb h =
    let (up, down) = scale-lt n weight h in
    (
      λ sa sb.
          rw (sa, sb, wa, wb) (<ℤ→ltb_ℤ (scale (pos (suc n)) 1000) (scale (pos (suc n)) weight) up),
      λ sa sb.
          rw (sa, sb, wa, wb) (<ℤ→ltb_ℤ (scale (negsuc n) weight) (scale (negsuc n) 1000) down),
    )
