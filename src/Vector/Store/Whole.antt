-- ===== src/Vector/Store/Whole.antt =====
-- `update_document_payload` as a whole: what the document's chunks are when it returns.
use nexus_rag.Base.{String, ◌≡◌, ◌≢◌, none, some}
use nexus_rag.Document.{Uuid}
use nexus_rag.Vector.Names.{classification_collection_name}
use nexus_rag.Vector.Exec.{Returns}
use nexus_rag.Vector.Client.{Client, ClientLaws, Fields}
use nexus_rag.Vector.Store.{corrected, update_document_payload}
use nexus_rag.Vector.Store.Carry.{IsHomed, IsAbsent, IsUpdated}
use nexus_rag.Vector.Store.InPlace.{update_in_place-IsUpdated}
use nexus_rag.Vector.Store.Moved.{HasMoved, Deletes}
use nexus_rag.Vector.Store.Update.{
  update_by_move-HasMoved, update_by_move-IsUpdated, update_by_move-lost,
}

module _ (c : Client) (laws : ClientLaws c) (s t : c.State) (d : Uuid) (current : String)
    (fields : Fields) (returned : Returns (update_document_payload c d current fields) s tt t) where
  -- An update that does not correct the classification, called with any classification at all,
  -- gives every chunk of the document the new fields in the collection where it lives and changes
  -- nothing else, if the call returns and the document's chunks live in one collection that has the
  -- name of a classification's.
  pub update_document_payload-IsUpdated :
      (home : String)
      → corrected fields.classification current ≡ none
      → IsHomed c s d home
      → IsUpdated c s t fields d
  unfolding update_document_payload
  update_document_payload-IsUpdated home plain homed =
      update_in_place-IsUpdated c laws s t d (classification_collection_name current) home fields
        homed (rw plain at returned)

  module _ (new : String) (corrects : corrected fields.classification current ≡ some new) where
    -- A correction to a level with another collection moves every chunk of the document there with
    -- its new fields, if the call returns and the chunks live in the collection of the
    -- classification that the call names. Any other point of the document that is left is an
    -- unchanged copy in the old collection.
    pub update_document_payload-HasMoved :
        classification_collection_name current ≢ classification_collection_name new
        → IsHomed c s d (classification_collection_name current)
        → HasMoved c s t d
            (classification_collection_name current)
            (classification_collection_name new)
            fields
    unfolding update_document_payload
    update_document_payload-HasMoved ne homed =
        update_by_move-HasMoved c laws s t d (classification_collection_name current) new fields ne
          homed (rw corrects at returned)

    -- The same correction called again after its chunks have moved, still with the old
    -- classification, gives them the new fields where they are and changes nothing else, if it
    -- returns.
    update_document_payload-retry :
        classification_collection_name current ≢ classification_collection_name new
        → IsHomed c s d (classification_collection_name new)
        → IsUpdated c s t fields d
    unfolding update_document_payload
    update_document_payload-retry ne homed =
        update_by_move-IsUpdated c laws s t d (classification_collection_name current) new fields ne
          homed (rw corrects at returned)

    -- A correction between two levels whose names give one collection destroys the document's
    -- chunks, if they all live in that collection: when the call returns, and a delete of that
    -- collection does not raise while it exists, no collection holds any of them.
    pub update_document_payload-lost :
        classification_collection_name current ≡ classification_collection_name new
        → IsHomed c s d (classification_collection_name current)
        → Deletes c (classification_collection_name current) d
        → (m : String) → IsAbsent c t d m
    unfolding update_document_payload
    update_document_payload-lost e homed deletes =
        update_by_move-lost c laws s t d (classification_collection_name current) new fields e homed
          deletes (rw corrects at returned)
