-- ===== src/Vector/Store/Moved.antt =====
-- What is left of a document when a move of its chunks is done.
use mathlib.Core.Bool.{false≢true}
use nexus_rag.Base.{
  String, ◌≡◌, ◌≢◌, ◌↔◌, ◌⊎◌, inl, inr, sym, ◌∙◌, ap, subst, List, In, map, map-In, In-map,
  Bool-cases, str_eq, str_eq_iff,
}
use nexus_rag.Document.{Uuid}
use nexus_rag.Vector.Exec.{Returns, Returns-state}
use nexus_rag.Vector.Client.{Client, ClientLaws, Point, Fields, set_point, Coherent}
use nexus_rag.Vector.Store.{document_filter}
use nexus_rag.Vector.Store.Carry.{IsHomed}
use nexus_rag.Vector.Store.Move.{Moved}

module _ (c : Client) where
  open c use {State, points}

  -- What a move leaves: every chunk stands in the target with its new fields, and whatever else is
  -- left of the document is an unchanged copy in the old collection.
  pub record HasMoved (s t : State) (d : Uuid) (current target : String) (fields : Fields)
      : Type 0 where
    pub arrived :
        (q : Point)
        → In q (points s current)
        → q.payload.document_id ≡ d
        → In (set_point fields q) (points t target)
    pub rest :
        (m : String) (p : Point)
        → In p (points t m)
        → p.payload.document_id ≡ d
        → ((m ≡ target) × (q : Point) × In q (points s current) × (p ≡ set_point fields q))
          ⊎ ((m ≡ current) × In p (points s current))

  -- A delete of the document's chunks from a collection that is there does not raise.
  abbrev pub Deletes : String → Uuid → Type 0
  Deletes current d =
      (u : State)
      → In current (c.collections u)
      → Returns (c.delete current (document_filter d)) u tt
          (c.delete current (document_filter d) u).1

module _ (c : Client) (laws : ClientLaws c) where
  open c use {State, points}

  -- the points that a move writes have distinct ids, like those that it read
  map-Coherent :
      (fields : Fields) (ps : List Point) → Coherent ps → Coherent (map (set_point fields) ps)
  map-Coherent fields ps h p q i j e =
      let (a, ia, ea) = map-In (set_point fields) p ps i in
      let (b, ib, eb) = map-In (set_point fields) q ps j in
      ea
      ∙ ap (set_point fields)
          (h a b ia ib (ap (λ (x : Point). x.id) (sym ea) ∙ e ∙ ap (λ (x : Point). x.id) eb))
      ∙ sym eb

  found-Coherent :
      (s t : State) (d : Uuid) (current target : String) (fields : Fields)
      (moved : Moved c laws s t d current target fields)
      → Coherent moved.upserted.0
  found-Coherent s t d current target fields moved a b ia ib e =
      let (found, law, sent) = moved.upserted in
      laws.coherent s current a b ((law a).0 ia).0 ((law b).0 ib).0 e

  -- what the move read stands in the target once it is written
  pub Moved-written :
      (s t : State) (d : Uuid) (current : String) (fields : Fields)
      (moved : Moved c laws s t d current current fields)
      → In (set_point fields moved.source.0) (points moved.written current)
  Moved-written s t d current fields moved =
      let (found, law, sent) = moved.upserted in
      (laws.upsert_ok moved.ready moved.written current (map (set_point fields) found) sent
          (map-Coherent fields found (found-Coherent s t d current current fields moved)) _).1
        (inl (
          In-map (set_point fields) moved.source.0 found
            ((law moved.source.0).1 (moved.source.1, moved.source.2))))

  pub Moved-arrived :
      (s t : State) (d : Uuid) (current target : String) (fields : Fields)
      → current ≢ target
      → Moved c laws s t d current target fields
      → (q : Point) → In q (points s current)
      → q.payload.document_id ≡ d
      → In (set_point fields q) (points t target)
  Moved-arrived s t d current target fields ne m q i own =
      let (found, law, sent) = m.upserted in
      subst (λ l. In (set_point fields q) l) (sym untouched)
        ((laws.upsert_ok m.ready m.written target (map (set_point fields) found) sent
            (map-Coherent fields found (found-Coherent s t d current target fields m))
            (set_point fields q)).1
          (inl (In-map (set_point fields) q found ((law q).1 (i, own)))))
    where
      untouched : points t target ≡ points m.written target
      untouched =
          ap (λ v. points v target) m.cleared
          ∙ laws.delete_frame m.written current (document_filter d) target ne

  pub Moved-rest :
      (s t : State) (d : Uuid) (current target : String) (fields : Fields)
      → current ≢ target
      → IsHomed c s d current
      → Moved c laws s t d current target fields
      → (m : String) (p : Point) → In p (points t m)
      → p.payload.document_id ≡ d
      → ((m ≡ target) × (q : Point) × In q (points s current) × (p ≡ set_point fields q))
        ⊎ ((m ≡ current) × In p (points s current))
  Moved-rest s t d current target fields ne homed moved m p i own =
      elim (Bool-cases (str_eq m current)) [
        | inl here ↦
            let e = (str_eq_iff m current).0 here in
            inr (e, at_current (subst (λ n. In p (points t n)) e i))
        | inr there ↦ elsewhere (λ e. false≢true (sym there ∙ (str_eq_iff m current).1 e))
      ]
    where
      found : List Point
      found = moved.upserted.0

      law : (r : Point) → In r found ↔ (In r (points s current) × (r.payload.document_id ≡ d))
      law = moved.upserted.1

      sent : Returns (c.upsert target (map (set_point fields) found)) moved.ready tt moved.written
      sent = moved.upserted.2

      before : (n : String) → target ≢ n → points moved.written n ≡ points s n
      before n other =
          ap (λ v. points v n)
            (Returns-state (c.upsert target (map (set_point fields) found)) moved.ready sent)
          ∙ laws.upsert_frame moved.ready target (map (set_point fields) found) n other
          ∙ moved.same n

      at_current : In p (points t current) → In p (points s current)
      at_current j =
          subst (λ l. In p l) (before current (λ e. ne (sym e)))
            (laws.delete_from moved.written current (document_filter d) p
              (subst (λ v. In p (points v current)) moved.cleared j))

      Left : Type 0
      Left =
          ((m ≡ target) × (q : Point) × In q (points s current) × (p ≡ set_point fields q))
          ⊎ ((m ≡ current) × In p (points s current))

      at_target :
          m ≡ target → In p (map (set_point fields) found) ⊎ In p (points moved.ready target) → Left
      at_target e (inl j) =
          let (q, k, copy) = map-In (set_point fields) p found j in
          inl (e, q, ((law q).0 k).0, copy)
      at_target e (inr j) =
          absurd (ne (sym (homed.only target p (subst (λ l. In p l) (moved.same target) j) own)))

      elsewhere : m ≢ current → Left
      elsewhere far =
          let j : In p (points moved.written m) =
            subst (λ l. In p l)
              (ap (λ v. points v m) moved.cleared
                ∙ laws.delete_frame moved.written current (document_filter d) m (λ e. far (sym e)))
              i in
          elim (Bool-cases (str_eq m target)) [
            | inl at ↦
                let e = (str_eq_iff m target).0 at in
                at_target e (
                  laws.upsert_from moved.ready target (map (set_point fields) found) p (
                    subst (λ v. In p (points v target))
                      (Returns-state (c.upsert target (map (set_point fields) found)) moved.ready
                        sent)
                      (subst (λ n. In p (points moved.written n)) e j)))
            | inr off ↦ absurd (
                far (
                  homed.only m p
                    (subst (λ l. In p l)
                      (before m (λ e. false≢true (sym off ∙ (str_eq_iff m target).1 (sym e)))) j)
                    own))
          ]
