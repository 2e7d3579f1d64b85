-- ===== src/Vector/Upsert/Written.antt =====
-- Points of one classification go to its collection in one call.
use nexus_rag.Base.{
  inl, inr, Bool-cases, String, ◌≡◌, refl, ◌∙◌, ap, true, ◌++◌, List, [], ◌∷◌, is_truthy,
  str_eq_refl, All, Result, ok, err,
}
use mathlib.Core.List.{append_assoc, append-nil}
use nexus_rag.Vector.Names.{classification_collection_name}
use nexus_rag.Vector.Exec.{StoreError, continue, Returns}
use nexus_rag.Vector.Client.{Client, Point}
use nexus_rag.Vector.Upsert.{append_to, group_points, upsert_groups, upsert_chunks}

abbrev pub Under : String → Point → Type 0
Under classification p = p.payload.classification ≡ classification

group_points-one :
    (classification : String) (ps group : List Point)
    → is_truthy classification ≡ true
    → All (Under classification) ps
    → group_points ps ((classification, group) ∷ []) ≡ ok ((classification, group ++ ps) ∷ [])
unfolding group_points append_to
group_points-one classification [] group t h = rw (append-nil group)
group_points-one classification (p ∷ ps) group t h =
    simp (h.0, t, str_eq_refl classification)
      (group_points-one classification ps (group ++ p ∷ []) t h.1
        ∙ ap (λ (l : List Point). ok ((classification, l) ∷ [])) (append_assoc group (p ∷ []) ps))

group_points-All :
    (classification : String) (p : Point) (ps : List Point)
    → is_truthy classification ≡ true
    → All (Under classification) (p ∷ ps)
    → group_points (p ∷ ps) [] ≡ ok ((classification, p ∷ ps) ∷ [])
unfolding group_points append_to
group_points-All classification p ps t h =
    simp (h.0, t) (group_points-one classification ps (p ∷ []) t h.1)

module _ (c : Client) where
  last_call :
      (r : Result StoreError (Unit {0}) × c.State) → continue r.0 (λ _. upsert_groups c []) r.1 ≡ r
  unfolding upsert_groups
  last_call (ok tt, s) = refl
  last_call (err e, s) = refl

  -- Points of one classification are written by one call, to its collection.
  pub upsert_chunks-one :
      (classification : String) (p : Point) (ps : List Point) (s : c.State)
      → is_truthy classification ≡ true
      → All (Under classification) (p ∷ ps)
      → upsert_chunks c (p ∷ ps) s
        ≡ c.upsert (classification_collection_name classification) (p ∷ ps) s
  unfolding upsert_chunks upsert_groups
  upsert_chunks-one classification p ps s t h =
      rw (group_points-All classification p ps t h)
        (last_call (c.upsert (classification_collection_name classification) (p ∷ ps) s))

  -- A point without a classification raises.
  pub upsert_chunks-truthy :
      (p : Point) (ps : List Point) (s u : c.State)
      → Returns (upsert_chunks c (p ∷ ps)) s tt u
      → is_truthy p.payload.classification ≡ true
  unfolding upsert_chunks group_points
  upsert_chunks-truthy p ps s u h = elim (Bool-cases (is_truthy p.payload.classification)) [
    | inl t ↦ t
    | inr f ↦ absurd (raised (rw f at h))
  ]
    where
      raised :
          {e : StoreError} → Path (Result StoreError (Unit {0}) × c.State) (err e, s) (ok tt, u) → ⊥
      raised q = cc
