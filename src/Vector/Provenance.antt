-- ===== src/Vector/Provenance.antt =====
-- services/common/common/qdrant_store.py: `any_collection_embedding_model`.
use nexus_rag.Base.{
  String, none, some, List, [], ◌∷◌, is_truthy, to_set, if◌then◌else◌, Result, ok, ◌>>=◌,
}
use nexus_rag.Vector.Exec.{StoreError}
use nexus_rag.Vector.Client.{Client, Point}
use nexus_rag.Vector.Store.{existing_names}

-- `None`, the one name, and "mixed:" with the names
pub data Provenance : Type 0 where
  unknown : Provenance
  built_by : String → Provenance
  mixed : List String → Provenance

-- the name on the first point, if it has one
abbrev stamp : List Point → List String → List String
stamp [] models = models
stamp (p ∷ ps) models = elim p.payload.embedding_model [
  | none ↦ models
  | some model ↦ if is_truthy model then model ∷ models else models
]

abbrev provenance_of : List String → Provenance
provenance_of [] = unknown
provenance_of (model ∷ []) = built_by model
provenance_of (model ∷ other ∷ models) = mixed (model ∷ other ∷ models)

module _ (c : Client) where
  open c use {State, scroll, get_collections}

  unfoldable collect_models : List String → State → Result StoreError (List String)
  collect_models [] s = ok []
  collect_models (name ∷ names) s = do
    points ← scroll name (record { must = [] }) s
    models ← collect_models names s
    ok (stamp points models)

  unfoldable pub any_collection_embedding_model : State → Result StoreError Provenance
  unfolding collect_models
  any_collection_embedding_model s = do
    names ← get_collections s
    models ← collect_models (existing_names names) s
    ok (provenance_of (to_set models))
