-- ===== src/Examples/Vector.antt =====
-- The store in memory, with one document's chunks beside another's, through updates and deletes.
use nexus_rag.Base.{
  String, ◌≡◌, ◌≢◌, ◌↔◌, inl, inr, refl, sym, subst, none, some, [], ◌∷◌, In, In-contains,
}
use nexus_rag.Document.{pending_review, approved}
use nexus_rag.Vector.Names.{classification_collection_name}
use nexus_rag.Vector.Exec.{Returns}
use nexus_rag.Vector.Client.{Point, Fields, named}
use nexus_rag.Vector.Memory.{Memory, memory, points_of, unique, stored_lem}
use nexus_rag.Vector.Memory.Laws.{memory_laws}
use nexus_rag.Vector.Store.{update_document_payload, delete_document_chunks}
use nexus_rag.Vector.Store.Carry.{IsHomed, IsAbsent, IsUpdated}
use nexus_rag.Vector.Store.Moved.{HasMoved, Deletes}
use nexus_rag.Vector.Store.Whole.{
  update_document_payload-IsUpdated, update_document_payload-HasMoved, update_document_payload-lost,
}
use nexus_rag.Vector.Store.Sweep.{IsNamespaced, delete_document_chunks_effect}
use nexus_rag.Examples.Access.{chunk, differ}

abbrev pub cui_name : String
cui_name = "nexus_rag_chunks__cui"

abbrev pub point : Point
point = record { id = 50; vector = named (some (1 ∷ 2 ∷ [])); payload = chunk }

abbrev pub other : Point
other = record {
  id = 51;
  vector = named (some (3 ∷ 4 ∷ []));
  payload = record chunk { document_id = 6 };
}

abbrev pub store : Memory
store = record { names = cui_name ∷ []; stored = λ n. point ∷ other ∷ [] }

abbrev pub suspended : Fields
suspended = record {
  classification = none;
  releasability = none;
  access_scope = none;
  status = some pending_review;
}

abbrev reclassified : String → Fields
reclassified level = record suspended { classification = some level; status = some approved }

pub cui_collection : classification_collection_name "CUI" ≡ cui_name
unfolding classification_collection_name
cui_collection = refl

homed : IsHomed memory store 5 cui_name
homed = record { prefixed = refl; only = λ m p i own. one_name m (stored_lem store m p i) }
  where
    one_name : (m : String) → In m store.names → m ≡ cui_name
    one_name m (inl e) = e
    one_name m (inr i) = absurd i

suspended-Returns :
    Returns
      (update_document_payload memory 5 "CUI" suspended)
      store
      tt
      (update_document_payload memory 5 "CUI" suspended store).1
unfolding update_document_payload classification_collection_name unique
suspended-Returns = refl

update_document_payload-IsUpdated_example :
    IsUpdated memory store (update_document_payload memory 5 "CUI" suspended store).1 suspended 5
update_document_payload-IsUpdated_example =
    update_document_payload-IsUpdated memory memory_laws store
      (update_document_payload memory 5 "CUI" suspended store).1 5 "CUI" suspended suspended-Returns
      cui_name refl homed

from_cui : IsHomed memory store 5 (classification_collection_name "CUI")
from_cui = subst (IsHomed memory store 5) (sym cui_collection) homed

moved-Returns :
    Returns
      (update_document_payload memory 5 "CUI" (reclassified "SECRET"))
      store
      tt
      (update_document_payload memory 5 "CUI" (reclassified "SECRET") store).1
unfolding update_document_payload classification_collection_name unique
moved-Returns = refl

two_collections : classification_collection_name "CUI" ≢ classification_collection_name "SECRET"
unfolding classification_collection_name
two_collections =
    differ (classification_collection_name "CUI") (classification_collection_name "SECRET") refl

update_document_payload-HasMoved_example :
    HasMoved memory store
      (update_document_payload memory 5 "CUI" (reclassified "SECRET") store).1
      5
      (classification_collection_name "CUI")
      (classification_collection_name "SECRET")
      (reclassified "SECRET")
update_document_payload-HasMoved_example =
    update_document_payload-HasMoved memory memory_laws store
      (update_document_payload memory 5 "CUI" (reclassified "SECRET") store).1 5 "CUI"
      (reclassified "SECRET") moved-Returns "SECRET" refl two_collections from_cui

one_collection : classification_collection_name "CUI" ≡ classification_collection_name "cui"
unfolding classification_collection_name
one_collection = refl

same_slug-Returns :
    Returns
      (update_document_payload memory 5 "CUI" (reclassified "cui"))
      store
      tt
      (update_document_payload memory 5 "CUI" (reclassified "cui") store).1
unfolding update_document_payload classification_collection_name unique
same_slug-Returns = refl

deletes : Deletes memory (classification_collection_name "CUI") 5
deletes u i = rw (In-contains (classification_collection_name "CUI") u.names i)

update_document_payload-lost_example :
    IsAbsent memory (update_document_payload memory 5 "CUI" (reclassified "cui") store).1 5 cui_name
update_document_payload-lost_example =
    update_document_payload-lost memory memory_laws store
      (update_document_payload memory 5 "CUI" (reclassified "cui") store).1 5 "CUI"
      (reclassified "cui") same_slug-Returns "cui" refl one_collection from_cui deletes cui_name

namespaced : IsNamespaced memory store
namespaced n (inl e) = inl (rw e refl)
namespaced n (inr i) = absurd i

swept-Returns :
    Returns
      (delete_document_chunks memory 5 "SECRET")
      store
      tt
      (delete_document_chunks memory 5 "SECRET" store).1
unfolding delete_document_chunks
swept-Returns = refl

delete_document_chunks_effect_example :
    In other (points_of (delete_document_chunks memory 5 "SECRET" store).1 cui_name)
    ↔ (In other (points_of store cui_name) × (other.payload.document_id ≢ 5))
delete_document_chunks_effect_example =
    delete_document_chunks_effect memory memory_laws store
      (delete_document_chunks memory 5 "SECRET" store).1 5 "SECRET" namespaced swept-Returns
      cui_name other
