-- ===== src/Vector/Upsert.antt =====
-- services/common/common/qdrant_store.py: the writing of a document's new chunks.
pub mod Written
pub mod From
use nexus_rag.Base.{
  ℕ, String, Bool, true, false, not, ◌++◌, List, [], ◌∷◌, is_truthy, str_eq, if◌then◌else◌, Result,
  ok, err,
}
use nexus_rag.Vector.Names.{classification_collection_name}
use nexus_rag.Vector.Exec.{StoreError, value_error, Exec, pure, lift, ◌>>=◌, ◌>>◌}
use nexus_rag.Vector.Client.{Client, Point}

-- `by_classification`, in the order in which its keys came
abbrev pub Groups : Type 0
Groups = List (String × List Point)

-- `by_classification.setdefault(classification, []).append(point)`
unfoldable pub append_to : String → Point → Groups → Groups
append_to classification p [] = (classification, p ∷ []) ∷ []
append_to classification p ((key, group) ∷ groups) =
    let rest = append_to classification p groups in
    if str_eq key classification then (key, group ++ p ∷ []) ∷ groups else (key, group) ∷ rest

unfoldable pub group_points : List Point → Groups → Result StoreError Groups
unfolding append_to
group_points [] groups = ok groups
group_points (p ∷ ps) groups =
    let rest = group_points ps (append_to p.payload.classification p groups) in
    if not (is_truthy p.payload.classification) then err value_error else rest

module _ (c : Client) where
  open c use {State, upsert}

  unfoldable pub upsert_groups : Groups → Exec State (Unit {0})
  upsert_groups [] s = (ok tt, s)
  upsert_groups ((classification, group) ∷ groups) s =
      let rest = upsert_groups groups in
      (do upsert (classification_collection_name classification) group; rest) s

  unfoldable pub upsert_chunks : List Point → Exec State (Unit {0})
  unfolding group_points upsert_groups
  upsert_chunks points = do groups ← lift (group_points points []); upsert_groups groups
