-- ===== src/Retrieval/Fusion.antt =====
-- services/common/common/vector_store.py: `fuse_ranked`. A score is the sum of 1 / (k + rank) as a
-- fraction, where the code adds floats.
pub mod Fused
pub mod Summed
pub mod Ranked
use nexus_rag.Base.{
  ℕ, suc, ◌+◌, ◌-◌, ◌*◌, Bool, List, [], ◌∷◌, ◌++◌, map, take, ltb, ◌==◌, if◌then◌else◌,
}
use nexus_rag.Base.Sort.{sorted}
use nexus_rag.Document.{Uuid}
use nexus_rag.Access.Payload.{Payload}

-- A hit, less the score that the engine gave it, which is not read.
pub record Hit : Type 0 where
  pub id : Uuid
  pub payload : Payload

-- num / (below + 1)
pub record Score : Type 0 where
  pub num : ℕ
  pub below : ℕ

abbrev pub den : Score → ℕ
den s = s.below + 1

-- DEFAULT_RRF_K
abbrev default_rrf_k : ℕ
default_rrf_k = 60

abbrev zero_score : Score
zero_score = record { num = 0; below = 0 }

-- s + 1 / (k + rank)
unfoldable add_rank : ℕ → Score → Score
add_rank rank s = record {
  num = s.num * (default_rrf_k + rank) + den s;
  below = den s * (default_rrf_k + rank) - 1;
}

unfoldable pub score_lt : Score → Score → Bool
score_lt a b = ltb (a.num * den b) (b.num * den a)

-- An entry of `hits_by_id` with its entry of `scores`, in the order of their keys.
abbrev pub Entry : Type 0
Entry = Hit × Score

unfoldable pub fuse_hit : ℕ → Hit → List Entry → List Entry
unfolding add_rank
fuse_hit rank hit [] = (hit, add_rank rank zero_score) ∷ []
fuse_hit rank hit ((first, score) ∷ entries) =
    let rest = fuse_hit rank hit entries in
    if first.id == hit.id then (first, add_rank rank score) ∷ entries else (first, score) ∷ rest

unfoldable pub fuse_list : ℕ → List Hit → List Entry → List Entry
unfolding fuse_hit
fuse_list rank [] entries = entries
fuse_list rank (hit ∷ hits) entries = fuse_list (suc rank) hits (fuse_hit rank hit entries)

unfoldable pub fuse_lists : List (List Hit) → List Entry → List Entry
unfolding fuse_list
fuse_lists [] entries = entries
fuse_lists (hits ∷ lists) entries = fuse_lists lists (fuse_list 1 hits entries)

abbrev pub scores_higher : Entry → Entry → Bool
scores_higher a b = score_lt b.1 a.1

unfoldable pub fuse_ranked : List (List Hit) → ℕ → List Hit
unfolding fuse_lists score_lt
fuse_ranked lists limit =
    map (λ (e : Entry). e.0) (take limit (sorted scores_higher (fuse_lists lists [])))
