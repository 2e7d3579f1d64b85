-- ===== src/Vector/Client.antt =====
-- The Qdrant service as the code calls it: the client's methods, and what their documentation says.
use nexus_rag.Base.{
  ℕ, String, ◌≡◌, ◌≢◌, ◌↔◌, ◌⊎◌, Bool, true, false, Option, none, some, List, In, contains, Result,
  ok,
}
use nexus_rag.Document.{Uuid, Status}
use nexus_rag.Access.Payload.{Payload, Filter, passes}
use nexus_rag.Vector.Exec.{StoreError, Exec, Returns}

-- A point's vectors: the dense list under its name, if it is one, or no named vectors at all. A
-- float is the number that its bits stand for, since none is computed with. A dense vector stands for
-- its direction: a collection with the cosine distance stores it at length one.
pub data Vector : Type 0 where
  named : Option (List ℕ) → Vector
  unnamed : Vector

pub record Point : Type 0 where
  pub id : Uuid
  pub vector : Vector
  pub payload : Payload

-- The dictionary of payload fields that a call sets; `none` is a key that is absent.
pub record Fields : Type 0 where
  pub classification : Option String
  pub releasability : Option (List String)
  pub access_scope : Option (List String)
  pub status : Option Status

abbrev pub or_keep : {A : Type 0} → Option A → A → A
or_keep none a = a
or_keep (some b) a = b

-- `{**payload, **fields}`, and what `set_payload` makes of a payload
abbrev set_fields : Fields → Payload → Payload
set_fields f p = record p {
  classification = or_keep f.classification p.classification;
  releasability = or_keep f.releasability p.releasability;
  access_scope = or_keep f.access_scope p.access_scope;
  status = or_keep f.status p.status;
}

abbrev pub set_point : Fields → Point → Point
set_point f p = record p { payload = set_fields f p.payload }

-- Two points of the list with one id are one point.
abbrev pub Coherent : List Point → Type 0
Coherent ps = (p q : Point) → In p ps → In q ps → p.id ≡ q.id → p ≡ q

pub record Client : Type 1 where
  pub State : Type 0
  pub collections : State → List String
  pub points : State → String → List Point
  pub get_collections : State → Result StoreError (List String)
  pub collection_exists : String → State → Result StoreError Bool
  pub scroll : String → Filter → State → Result StoreError (List Point)
  pub create_collection : String → ℕ → Exec State (Unit {0})
  pub upsert : String → List Point → Exec State (Unit {0})
  pub set_payload : String → Fields → Filter → Exec State (Unit {0})
  pub delete : String → Filter → Exec State (Unit {0})

-- A call that raises may have done any part of its work.
pub record ClientLaws (c : Client) : Type 0 where
  pub stored : (s : c.State) (n : String) (p : Point) → In p (c.points s n) → In n (c.collections s)
  pub coherent : (s : c.State) (n : String) → Coherent (c.points s n)
  pub get_collections_ok :
      (s : c.State) (ns : List String) → c.get_collections s ≡ ok ns → ns ≡ c.collections s
  pub exists_ok :
      (s : c.State) (n : String) (b : Bool)
      → c.collection_exists n s ≡ ok b
      → b ≡ contains n (c.collections s)
  pub scroll_ok :
      (s : c.State) (n : String) (f : Filter) (ps : List Point)
      → c.scroll n f s ≡ ok ps
      → (p : Point) → In p ps ↔ (In p (c.points s n) × (passes f p.payload ≡ true))
  pub create_frame :
      (s : c.State) (n : String) (k : ℕ) (m : String)
      → c.points (c.create_collection n k s).1 m ≡ c.points s m
  pub upsert_frame :
      (s : c.State) (n : String) (ps : List Point) (m : String)
      → n ≢ m
      → c.points (c.upsert n ps s).1 m ≡ c.points s m
  pub upsert_from :
      (s : c.State) (n : String) (ps : List Point) (p : Point)
      → In p (c.points (c.upsert n ps s).1 n)
      → In p ps ⊎ In p (c.points s n)
  pub upsert_ok :
      (s t : c.State) (n : String) (ps : List Point)
      → Returns (c.upsert n ps) s tt t
      → Coherent ps
      → (p : Point)
      → In p (c.points t n)
        ↔ (In p ps ⊎ (In p (c.points s n) × ((q : Point) → In q ps → p.id ≢ q.id)))
  pub set_payload_frame :
      (s : c.State) (n : String) (fields : Fields) (f : Filter) (m : String)
      → n ≢ m
      → c.points (c.set_payload n fields f s).1 m ≡ c.points s m
  pub set_payload_from :
      (s : c.State) (n : String) (fields : Fields) (f : Filter) (p : Point)
      → In p (c.points (c.set_payload n fields f s).1 n)
      → In p (c.points s n)
        ⊎ ((q : Point) × In q (c.points s n)
            × (passes f q.payload ≡ true)
            × (p ≡ set_point fields q))
  pub set_payload_ok :
      (s t : c.State) (n : String) (fields : Fields) (f : Filter)
      → Returns (c.set_payload n fields f) s tt t
      → (p : Point)
      → In p (c.points t n) ↔ (
          (In p (c.points s n) × (passes f p.payload ≡ false))
          ⊎ ((q : Point) × In q (c.points s n)
              × (passes f q.payload ≡ true)
              × (p ≡ set_point fields q)))
  pub delete_frame :
      (s : c.State) (n : String) (f : Filter) (m : String)
      → n ≢ m
      → c.points (c.delete n f s).1 m ≡ c.points s m
  pub delete_from :
      (s : c.State) (n : String) (f : Filter) (p : Point)
      → In p (c.points (c.delete n f s).1 n)
      → In p (c.points s n)
  pub delete_ok :
      (s t : c.State) (n : String) (f : Filter)
      → Returns (c.delete n f) s tt t
      → (p : Point) → In p (c.points t n) ↔ (In p (c.points s n) × (passes f p.payload ≡ false))
