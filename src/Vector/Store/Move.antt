-- ===== src/Vector/Store/Move.antt =====
-- A correction of the classification: the chunks move to the target's collection with their new
-- fields, and what stays behind is at most an unchanged copy.
use mathlib.Core.Bool.{false≢true}
use nexus_rag.Base.{
  ℕ, String, ◌≡◌, ◌↔◌, ◌⊎◌, inl, inr, refl, ◌∙◌, ap, subst, Bool, true, false, not, List, [], ◌∷◌,
  In, map, contains, In-contains, Result, ok, err, if◌then◌else◌,
}
use nexus_rag.Document.{Uuid}
use nexus_rag.Vector.Names.{classification_collection_name}
use nexus_rag.Vector.Exec.{
  Exec, StoreError, pure, read, lift, ◌>>=◌, Returns, >>=-Returns, read->>=, lift->>=, pure-Returns,
  Returns-state,
}
use nexus_rag.Vector.Client.{Client, ClientLaws, Point, Vector, named, unnamed, Fields, set_point}
use nexus_rag.Vector.Store.{
  document_filter, add_moved, moved_points, dense_size, ensure_collection, move_points,
  migrate_document_classification,
}
use nexus_rag.Vector.Store.Sweep.{passes-document_filter}
use nexus_rag.Vector.Store.Carry.{IsAbsent}

add_moved-ok :
    (fields : Fields) (p : Point) (v : Vector) (r : Result StoreError (List Point))
    (moved : List Point)
    → add_moved fields p v r ≡ ok moved
    → (rest : List Point) × (r ≡ ok rest) × (moved ≡ set_point fields p ∷ rest)
add_moved-ok fields p unnamed r moved e = cc
add_moved-ok fields p (named dense) (ok rest) moved e = (rest, refl, cc)
add_moved-ok fields p (named dense) (err x) moved e = cc

-- The points that are written are the points that were read, with the new fields.
moved_points-map :
    (fields : Fields) (ps moved : List Point)
    → moved_points fields ps ≡ ok moved
    → moved ≡ map (set_point fields) ps
unfolding moved_points
moved_points-map fields [] moved e = cc
moved_points-map fields (p ∷ ps) moved e =
    let (rest, r, q) = add_moved-ok fields p p.vector (moved_points fields ps) moved e in
    q ∙ ap (λ (l : List Point). set_point fields p ∷ l) (moved_points-map fields ps rest r)

module _ (c : Client) (laws : ClientLaws c) where
  open c use {State, points, collections}

  pub ensure_collection-same :
      (s t : State) (size : ℕ) (classification name : String)
      → Returns (ensure_collection c size classification) s name t
      → (name ≡ classification_collection_name classification)
        × ((m : String) → points t m ≡ points s m)
  unfolding ensure_collection
  ensure_collection-same s t size classification name h =
      let (exists, e, rest) =
        read->>= (c.collection_exists (classification_collection_name classification)) _ s h in
      let (_, u, made, last) = >>=-Returns (make exists) _ s rest in
      let (named_so, ends) = pure-Returns (classification_collection_name classification) u last in
      (named_so, λ m. ap (λ v. points v m) ends ∙ make_same exists u made m)
    where
      make : Bool → Exec State (Unit {0})
      make exists =
          if exists
          then pure tt
          else c.create_collection (classification_collection_name classification) size

      make_same :
          (exists : Bool) (u : State)
          → Returns (make exists) s tt u
          → (m : String) → points u m ≡ points s m
      make_same true u r m = ap (λ v. points v m) (pure-Returns tt s r).1
      make_same false u r m =
          ap (λ v. points v m) (Returns-state (make false) s r)
          ∙ laws.create_frame s (classification_collection_name classification) size m

  -- How a move went: the document's points as they were read, and the states between the calls.
  pub record Moved (s t : State) (d : Uuid) (current target : String) (fields : Fields)
      : Type 0 where
    pub ready : State
    pub written : State
    pub same : (m : String) → points ready m ≡ points s m
    pub upserted :
        (found : List Point) × ((p : Point)
          → In p found ↔ (In p (points s current) × (p.payload.document_id ≡ d)))
        × Returns (c.upsert target (map (set_point fields) found)) ready tt written
    pub source : (p : Point) × In p (points s current) × (p.payload.document_id ≡ d)
    pub cleared : t ≡ (c.delete current (document_filter d) written).1

  -- The part of the move after the points are read.
  move_points-cases :
      (s t : State) (d : Uuid) (current new : String) (fields : Fields) (b : Bool)
      (found : List Point)
      → ((p : Point) → In p found ↔ (In p (points s current) × (p.payload.document_id ≡ d)))
      → Returns (move_points c d current new found (map (set_point fields) found)) s b t
      → ((b ≡ true) × Moved s t d current (classification_collection_name new) fields)
        ⊎ ((b ≡ false) × (t ≡ s) × IsAbsent c s d current)
  unfolding move_points
  move_points-cases s t d current new fields b [] law h =
      inr (cc, cc, λ p i own. absurd ((law p).1 (i, own)))
  move_points-cases s t d current new fields b (p ∷ ps) law h =
      let (size, _, first) = lift->>= (dense_size (p ∷ ps)) _ s h in
      let (name, ready, ensured, second) = >>=-Returns (ensure_collection c size new) _ s first in
      let (named_so, same) = ensure_collection-same s ready size new name ensured in
      let (_, written, sent, third) = >>=-Returns (c.upsert name moved) _ ready second in
      let (e, ends) =
        pure-Returns true (c.delete current (document_filter d) written).1 {b = b} {t = t} third in
      inl (
        e,
        record {
          ready = ready;
          written = written;
          same = same;
          upserted =
              (p ∷ ps, law, subst (λ n. Returns (c.upsert n moved) ready tt written) named_so sent);
          source = (p, ((law p).0 (inl refl)).0, ((law p).0 (inl refl)).1);
          cleared = ends;
        },
      )
    where
      moved : List Point
      moved = map (set_point fields) (p ∷ ps)

  pub migrate-cases :
      (s t : State) (d : Uuid) (current new : String) (fields : Fields) (b : Bool)
      → Returns (migrate_document_classification c d current new fields) s b t
      → ((b ≡ true) × Moved s t d current (classification_collection_name new) fields)
        ⊎ ((b ≡ false) × (t ≡ s) × IsAbsent c s d current)
  unfolding migrate_document_classification
  migrate-cases s t d current new fields b h =
      let (exists, e, rest) = read->>= (c.collection_exists current) continue_if s h in
      go exists (laws.exists_ok s current exists e) rest
    where
      continue_if : Bool → Exec State Bool
      continue_if exists =
          if not exists
          then pure false
          else read (c.scroll current (document_filter d)) >>= λ found.
              lift (moved_points fields found) >>= λ moved. move_points c d current new found moved

      go :
          (exists : Bool)
          → exists ≡ contains current (collections s)
          → Returns (continue_if exists) s b t
          → ((b ≡ true) × Moved s t d current (classification_collection_name new) fields)
            ⊎ ((b ≡ false) × (t ≡ s) × IsAbsent c s d current)
      go false e r = inr (
        cc,
        cc,
        λ p i _. false≢true (e ∙ In-contains current (collections s) (laws.stored s current p i)),
      )
      go true e r =
          let (found, scrolled, first) = read->>= (c.scroll current (document_filter d)) _ s r in
          let (moved, made, last) = lift->>= (moved_points fields found) _ s first in
          move_points-cases s t d current new fields b found
            (λ p.
              let law = laws.scroll_ok s current (document_filter d) found scrolled p in
              (
                λ i. ((law.0 i).0, (passes-document_filter d p.payload).0 (law.0 i).1),
                λ k. law.1 (k.0, (passes-document_filter d p.payload).1 k.1),
              ))
            (subst (λ l. Returns (move_points c d current new found l) s b t)
              (moved_points-map fields found moved made) last)
