-- ===== src/Vector/Store/Carry.antt =====
-- What an update is to do to a document's chunks, and that one `set_payload` call does it.
use text.Mathlib.Text.{starts_with}
use mathlib.Core.Bool.{false≢true}
use nexus_rag.Base.{
  String, ◌≡◌, ◌≢◌, ◌↔◌, ◌⊎◌, inl, inr, sym, ◌∙◌, subst, true, false, In, Bool-cases, str_eq,
  str_eq_iff, ◌==◌, ==_iff, if◌then◌else◌,
}
use nexus_rag.Document.{Uuid}
use nexus_rag.Access.Payload.{passes}
use nexus_rag.Vector.Names.{collection_prefix}
use nexus_rag.Vector.Exec.{Returns, Returns-state}
use nexus_rag.Vector.Client.{Client, ClientLaws, Point, Fields, set_point}
use nexus_rag.Vector.Store.{document_filter}
use nexus_rag.Vector.Store.Sweep.{passes-document_filter, misses-document_filter}

-- what an update makes of a point: new fields on the document's own, nothing on the others
abbrev carry : Fields → Uuid → Point → Point
carry fields d p = if p.payload.document_id == d then set_point fields p else p

pub carry_own :
    (fields : Fields) (d : Uuid) (p : Point)
    → p.payload.document_id ≡ d
    → carry fields d p ≡ set_point fields p
carry_own fields d p e = rw ((==_iff p.payload.document_id d).1 e)

pub carry_other :
    (fields : Fields) (d : Uuid) (p : Point) → p.payload.document_id ≢ d → carry fields d p ≡ p
carry_other fields d p ne = elim (Bool-cases (p.payload.document_id == d)) [
  | inl e ↦ absurd (ne ((==_iff p.payload.document_id d).0 e))
  | inr e ↦ rw e
]

module _ (c : Client) where
  open c use {State, points}

  -- The document's chunks live in one collection, which has the prefix of a classification's: the
  -- collection without a suffix is none that an update looks in.
  pub record IsHomed (s : State) (d : Uuid) (n : String) : Type 0 where
    pub prefixed : starts_with n collection_prefix ≡ true
    pub only : (m : String) (p : Point) → In p (points s m) → p.payload.document_id ≡ d → m ≡ n

  abbrev pub IsAbsent : State → Uuid → String → Type 0
  IsAbsent s d m = (p : Point) → In p (points s m) → p.payload.document_id ≢ d

  -- Every chunk of the document has the new fields, in the collection where it was, and the store
  -- is otherwise the same.
  abbrev pub IsUpdated : State → State → Fields → Uuid → Type 0
  IsUpdated s t fields d =
      (m : String) (p : Point)
      → In p (points t m) ↔ ((q : Point) × In q (points s m) × (p ≡ carry fields d q))

module _ (c : Client) (laws : ClientLaws c) where
  open c use {State, points}

  -- where the document has no chunk, nothing is to change
  absent_same :
      (s : State) (d : Uuid) (fields : Fields) (m : String)
      → IsAbsent c s d m
      → (p : Point) → In p (points s m) ↔ ((q : Point) × In q (points s m) × (p ≡ carry fields d q))
  absent_same s d fields m absent p = (
    λ i. (p, i, sym (carry_other fields d p (absent p i))),
    λ (q, i, e). subst (λ r. In r (points s m)) (sym (e ∙ carry_other fields d q (absent q i))) i,
  )

  set_payload-carry :
      (s t : State) (d : Uuid) (n : String) (fields : Fields)
      → Returns (c.set_payload n fields (document_filter d)) s tt t
      → (p : Point) → In p (points t n) ↔ ((q : Point) × In q (points s n) × (p ≡ carry fields d q))
  set_payload-carry s t d n fields h p = (forth, back)
    where
      law :
          (r : Point)
          → In r (points t n) ↔ (
              (In r (points s n) × (passes (document_filter d) r.payload ≡ false))
              ⊎ ((q : Point) × In q (points s n)
                  × (passes (document_filter d) q.payload ≡ true)
                  × (r ≡ set_point fields q)))
      law = laws.set_payload_ok s t n fields (document_filter d) h

      forth : In p (points t n) → (q : Point) × In q (points s n) × (p ≡ carry fields d q)
      forth i = elim ((law p).0 i) [
        | inl (j, miss) ↦
            (p, j, sym (carry_other fields d p ((misses-document_filter d p.payload).0 miss)))
        | inr (q, j, hit, e) ↦
            (q, j, e ∙ sym (carry_own fields d q ((passes-document_filter d q.payload).0 hit)))
      ]

      back : ((q : Point) × In q (points s n) × (p ≡ carry fields d q)) → In p (points t n)
      back (q, j, e) = elim (Bool-cases (passes (document_filter d) q.payload)) [
        | inl hit ↦
            (law p).1 (
              inr
                (q, j, hit, e ∙ carry_own fields d q ((passes-document_filter d q.payload).0 hit)))
        | inr miss ↦
            subst (λ r. In r (points t n))
              (sym (e ∙ carry_other fields d q ((misses-document_filter d q.payload).0 miss)))
              ((law q).1 (inl (j, miss)))
      ]

  pub set_payload-IsUpdated :
      (s t : State) (d : Uuid) (n home : String) (fields : Fields)
      → IsHomed c s d home
      → n ≡ home
      → Returns (c.set_payload n fields (document_filter d)) s tt t
      → IsUpdated c s t fields d
  set_payload-IsUpdated s t d n home fields homed e h m p = elim (Bool-cases (str_eq m n)) [
    | inl same ↦ rw ((str_eq_iff m n).0 same) (set_payload-carry s t d n fields h p)
    | inr other ↦ elsewhere (λ q. false≢true (sym other ∙ (str_eq_iff m n).1 q))
  ]
    where
      elsewhere :
          m ≢ n → In p (points t m) ↔ ((q : Point) × In q (points s m) × (p ≡ carry fields d q))
      elsewhere ne =
          rw
            (
              Returns-state (c.set_payload n fields (document_filter d)) s h,
              laws.set_payload_frame s n fields (document_filter d) m (λ q. ne (sym q)),
            )
            (absent_same s d fields m (λ q i own. ne (homed.only m q i own ∙ sym e)) p)

  pub absent-IsUpdated :
      (s : State) (d : Uuid) (fields : Fields)
      → ((m : String) → IsAbsent c s d m)
      → IsUpdated c s s fields d
  absent-IsUpdated s d fields absent m p = absent_same s d fields m (absent m) p
