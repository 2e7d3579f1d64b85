-- ===== src/Vector/Store.antt =====
-- services/common/common/qdrant_store.py: the operations on one document's chunks, over the
-- collections that split the corpus by classification.
pub mod Sweep
pub mod Shrink
pub mod Carry
pub mod InPlace
pub mod Move
pub mod Moved
pub mod Update
pub mod Whole
use text.Mathlib.Text.{starts_with}
use nexus_rag.Base.{
  ℕ, String, Bool, true, false, not, ◌&&◌, ◌++◌, Option, none, some, List, [], ◌∷◌, map, filter,
  length, is_empty, is_truthy, str_eq, to_set, if◌then◌else◌, Result, ok, err,
}
use nexus_rag.Document.{Uuid, Status}
use nexus_rag.Access.Payload.{Payload, Filter, match_document, range_gte}
use nexus_rag.Vector.Names.{qdrant_collection, collection_prefix, classification_collection_name}
use nexus_rag.Vector.Exec.{
  StoreError, value_error, runtime_error, Exec, pure, lift, read, swallow, ◌>>=◌, ◌>>◌,
}
use nexus_rag.Vector.Client.{Client, Point, Vector, named, unnamed, Fields, set_point}

abbrev pub document_filter : Uuid → Filter
document_filter d = record { must = match_document d ∷ [] }

abbrev pub existing_names : List String → List String
existing_names = filter (λ n. starts_with n collection_prefix)

-- one round of the loop of `_migrate_document_classification`, on the vectors of a point
abbrev pub add_moved :
    Fields → Point → Vector → Result StoreError (List Point) → Result StoreError (List Point)
add_moved fields p unnamed rest = err runtime_error
add_moved fields p (named dense) (ok moved) = ok (set_point fields p ∷ moved)
add_moved fields p (named dense) (err e) = err e

-- The loop over the points read: a point without named vectors raises, and every other one takes
-- the new fields.
unfoldable pub moved_points : Fields → List Point → Result StoreError (List Point)
moved_points fields [] = ok []
moved_points fields (p ∷ ps) = add_moved fields p p.vector (moved_points fields ps)

abbrev dense_of : Vector → Option (List ℕ)
dense_of (named dense) = dense
dense_of unnamed = none

-- the size of the first dense vector met
unfoldable pub dense_size : List Point → Result StoreError ℕ
dense_size [] = err runtime_error
dense_size (p ∷ ps) =
    let rest = dense_size ps in elim (dense_of p.vector) [ none ↦ rest | some v ↦ ok (length v) ]

-- `if new_classification and new_classification != current_classification`
abbrev pub corrected : Option String → String → Option String
corrected none current = none
corrected (some new) current = if is_truthy new && not (str_eq new current) then some new else none

module _ (c : Client) where
  open c use {
    State, get_collections, collection_exists, scroll, create_collection, upsert, set_payload,
    delete,
  }

  unfoldable pub existing_classification_collections : Exec State (List String)
  existing_classification_collections = do names ← read get_collections; pure (existing_names names)

  unfoldable pub ensure_collection : ℕ → String → Exec State String
  ensure_collection size classification = do
    let name = classification_collection_name classification
    exists ← read (collection_exists name)
    (if exists then pure tt else create_collection name size)
    pure name

  -- the part of `_migrate_document_classification` after the points are read
  unfoldable pub move_points : Uuid → String → String → List Point → List Point → Exec State Bool
  unfolding ensure_collection dense_size
  move_points document_id current_collection new_classification points moved =
      if is_empty moved then pure false else do
        size ← lift (dense_size points)
        new_name ← ensure_collection size new_classification
        upsert new_name moved
        swallow (delete current_collection (document_filter document_id))
        pure true

  unfoldable pub migrate_document_classification : Uuid → String → String → Fields → Exec State Bool
  unfolding move_points moved_points
  migrate_document_classification document_id current_collection new_classification fields = do
    exists ← read (collection_exists current_collection)
    if not exists then pure false else do
      points ← read (scroll current_collection (document_filter document_id))
      moved ← lift (moved_points fields points)
      move_points document_id current_collection new_classification points moved

  unfoldable pub has_document_points : String → Uuid → Exec State Bool
  has_document_points name document_id = do
    exists ← read (collection_exists name)
    if not exists then pure false else do
      points ← read (scroll name (document_filter document_id))
      pure (not (is_empty points))

  unfoldable pub set_payload_if_present : Uuid → String → Fields → Exec State Bool
  unfolding has_document_points
  set_payload_if_present document_id name fields = do
    present ← has_document_points name document_id
    if not present
        then pure false
        else do set_payload name fields (document_filter document_id); pure true

  -- the last loop of `update_document_payload`
  unfoldable pub set_payload_elsewhere :
      Uuid → String → Fields → List String → Exec State (Unit {0})
  unfolding set_payload_if_present
  set_payload_elsewhere document_id current fields [] s = (ok tt, s)
  set_payload_elsewhere document_id current fields (name ∷ names) s =
      let rest = set_payload_elsewhere document_id current fields names in
      (if str_eq name current then rest else do
        found ← set_payload_if_present document_id name fields
        (if found then pure tt else rest))
        s

  -- the branch of `update_document_payload` that keeps the classification
  unfoldable pub update_in_place : Uuid → String → Fields → Exec State (Unit {0})
  unfolding set_payload_elsewhere existing_classification_collections
  update_in_place document_id current fields = do
    found ← set_payload_if_present document_id current fields
    if found then pure tt else do
      names ← existing_classification_collections
      set_payload_elsewhere document_id current fields names

  -- the branch that corrects it
  unfoldable pub update_by_move : Uuid → String → String → Fields → Exec State (Unit {0})
  unfolding migrate_document_classification set_payload_if_present
  update_by_move document_id current new_classification fields = do
    moved ← migrate_document_classification document_id current new_classification fields
    if moved then pure tt else do
      set_payload_if_present document_id (classification_collection_name new_classification) fields
      pure tt

  abbrev update_by : Option String → Uuid → String → Fields → Exec State (Unit {0})
  update_by none document_id name fields = update_in_place document_id name fields
  update_by (some new) document_id name fields = update_by_move document_id name new fields

  unfoldable pub update_document_payload : Uuid → String → Fields → Exec State (Unit {0})
  unfolding update_in_place update_by_move
  update_document_payload document_id current_classification fields =
      update_by (corrected fields.classification current_classification) document_id
        (classification_collection_name current_classification) fields

  unfoldable pub delete_from_all : Uuid → List String → Exec State (Unit {0})
  delete_from_all document_id [] s = (ok tt, s)
  delete_from_all document_id (name ∷ names) s =
      let rest = delete_from_all document_id names in
      (do delete name (document_filter document_id); rest) s

  -- The classification is not used: every collection is swept, and the bare one if it is there.
  unfoldable pub delete_document_chunks : Uuid → String → Exec State (Unit {0})
  unfolding delete_from_all existing_classification_collections
  delete_document_chunks document_id classification = do
    names ← existing_classification_collections
    bare ← read (collection_exists qdrant_collection)
    delete_from_all document_id (if bare then names ++ qdrant_collection ∷ [] else names)

  unfoldable replace_document_chunks : Uuid → String → List Point → Exec State (Unit {0})
  replace_document_chunks document_id classification points = do
    let name = classification_collection_name classification
    upsert name points
    delete name (record { must = match_document document_id ∷ range_gte (length points) ∷ [] })
