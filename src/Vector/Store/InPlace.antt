-- ===== src/Vector/Store/InPlace.antt =====
-- An update that keeps the classification reaches the document's chunks in whichever collection
-- they live.
use text.Mathlib.Text.{starts_with}
use mathlib.Core.Bool.{false≢true}
use mathlib.Core.Path.{subst₂}
use nexus_rag.Base.{
  String, ◌≡◌, ◌⊎◌, inl, inr, refl, sym, ◌∙◌, subst, Bool, true, false, not, List, [], ◌∷◌, arith,
  In, In-filter, is_empty-In, nonempty-In, is_empty, Bool-cases, contains, In-contains, str_eq,
  str_eq_iff, if◌then◌else◌,
}
use nexus_rag.Document.{Uuid}
use nexus_rag.Vector.Names.{collection_prefix}
use nexus_rag.Vector.Exec.{Exec, pure, read, ◌>>=◌, Returns, >>=-Returns, pure-Returns, read->>=}
use nexus_rag.Vector.Client.{Client, ClientLaws, Point, Fields}
use nexus_rag.Vector.Store.{
  document_filter, existing_names, existing_classification_collections, has_document_points,
  set_payload_if_present, set_payload_elsewhere, update_in_place,
}
use nexus_rag.Vector.Store.Carry.{
  IsHomed, IsAbsent, IsUpdated, absent-IsUpdated, set_payload-IsUpdated,
}
use nexus_rag.Vector.Store.Sweep.{passes-document_filter, existing-Returns}

module _ (c : Client) (laws : ClientLaws c) where
  open c use {State, points, collections}

  -- What `_has_document_points` says of a collection.
  record Presence (s t : State) (d : Uuid) (n : String) (b : Bool) : Type 0 where
    same : t ≡ s
    absent : b ≡ false → IsAbsent c s d n
    present : b ≡ true → (p : Point) × In p (points s n) × (p.payload.document_id ≡ d)

  look : Uuid → String → Bool → Exec State Bool
  look d n exists =
      if not exists
      then pure false
      else read (c.scroll n (document_filter d)) >>= λ ps. pure (not (is_empty ps))

  look-Presence :
      (s t : State) (d : Uuid) (n : String) (exists b : Bool)
      → exists ≡ contains n (collections s)
      → Returns (look d n exists) s b t
      → Presence s t d n b
  unfolding look
  look-Presence s t d n false b e r = record {
    same = cc;
    absent = λ _ p i _. false≢true (e ∙ In-contains n (collections s) (laws.stored s n p i));
    present = λ q. cc;
  }
  look-Presence s t d n true b e r =
      let (ps, scrolled, q) = read->>= (c.scroll n (document_filter d)) _ s r in
      let law = laws.scroll_ok s n (document_filter d) ps scrolled in
      record {
        same = cc;
        absent = λ nil p i own.
            is_empty-In ps (ground arith) p
              ((law p).1 (i, (passes-document_filter d p.payload).1 own));
        present = λ some_point.
            let (p, i) = nonempty-In ps (ground arith) in
            let (j, hit) = (law p).0 i in (p, j, (passes-document_filter d p.payload).0 hit);
      }

  has_document_points-Presence :
      (s t : State) (d : Uuid) (n : String) (b : Bool)
      → Returns (has_document_points c n d) s b t
      → Presence s t d n b
  unfolding has_document_points look
  has_document_points-Presence s t d n b h =
      let (exists, e, rest) = read->>= (c.collection_exists n) (look d n) s h in
      look-Presence s t d n exists b (laws.exists_ok s n exists e) rest

  -- What `_set_payload_if_present` did: it updated the document, or found nothing of it there.
  pub set_payload_if_present-cases :
      (s t : State) (d : Uuid) (n home : String) (fields : Fields) (b : Bool)
      → IsHomed c s d home
      → Returns (set_payload_if_present c d n fields) s b t
      → ((b ≡ true) × IsUpdated c s t fields d) ⊎ ((b ≡ false) × (t ≡ s) × IsAbsent c s d n)
  unfolding set_payload_if_present
  set_payload_if_present-cases s t d n home fields b homed h =
      let (present, u, first, rest) = >>=-Returns (has_document_points c n d) _ s h in
      let known = has_document_points-Presence s u d n present first in
      go present u known.same known.absent known.present rest
    where
      set_if : Bool → Exec State Bool
      set_if present =
          if not present
          then pure false
          else c.set_payload n fields (document_filter d) >>= λ _. pure true

      go :
          (present : Bool) (u : State)
          → u ≡ s
          → (present ≡ false → IsAbsent c s d n)
          → (present ≡ true → (p : Point) × In p (points s n) × (p.payload.document_id ≡ d))
          → Returns (set_if present) u b t
          → ((b ≡ true) × IsUpdated c s t fields d) ⊎ ((b ≡ false) × (t ≡ s) × IsAbsent c s d n)
      go false u same absent present r = inr (cc, cc, absent refl)
      go true u same absent present r =
          let (_, v, set, last) = >>=-Returns (c.set_payload n fields (document_filter d)) _ u r in
          let (p, i, own) = present refl in
          inl (
            cc,
            set_payload-IsUpdated c laws s t d n home fields homed (homed.only n p i own) (
                subst₂ (λ x y. Returns (c.set_payload n fields (document_filter d)) x tt y) same
                  (cc) set),
          )

  -- The search through the other collections: it updated the document, or it lives in none of them.
  set_payload_elsewhere-cases :
      (s t : State) (d : Uuid) (current home : String) (fields : Fields) (names : List String)
      → IsHomed c s d home
      → IsAbsent c s d current
      → Returns (set_payload_elsewhere c d current fields names) s tt t
      → IsUpdated c s t fields d ⊎ ((t ≡ s) × ((m : String) → In m names → IsAbsent c s d m))
  unfolding set_payload_elsewhere
  set_payload_elsewhere-cases s t d current home fields [] homed absent h =
      inr (cc, λ m i. absurd i)
  set_payload_elsewhere-cases s t d current home fields (n ∷ names) homed absent h =
      elim (Bool-cases (str_eq n current)) [
        | inl skip ↦
            with_head
              (λ p i. absent p (subst (λ l. In p (points s l)) ((str_eq_iff n current).0 skip) i))
              (set_payload_elsewhere-cases s t d current home fields names homed absent
                (rw skip at h))
        | inr try ↦
            let (found, u, first, rest) =
              >>=-Returns (set_payload_if_present c d n fields)
                (λ found. if found then pure tt else set_payload_elsewhere c d current fields names)
                s (rw try at h) in
            elim (set_payload_if_present-cases s u d n home fields found homed first) [
              | inl (hit, updated) ↦
                  inl (subst (λ v. IsUpdated c s v fields d) (ends hit rest) updated)
              | inr (miss, same, nothing) ↦ with_head nothing (
                  set_payload_elsewhere-cases s t d current home fields names homed absent
                    (goes_on miss same rest))
            ]
      ]
    where
      Found : Type 0
      Found =
          IsUpdated c s t fields d
          ⊎ ((t ≡ s) × ((m : String) → In m (n ∷ names) → IsAbsent c s d m))

      with_head :
          IsAbsent c s d n
          → IsUpdated c s t fields d ⊎ ((t ≡ s) × ((m : String) → In m names → IsAbsent c s d m))
          → Found
      with_head here (inl done) = inl done
      with_head here (inr (same, rest)) = inr (
        same,
        λ m i. elim i [ inl e ↦ subst (λ l. IsAbsent c s d l) (sym e) here | inr j ↦ rest m j ],
      )

      ends :
          {found : Bool} {u : State}
          → found ≡ true
          → Returns
              (if found then pure tt else set_payload_elsewhere c d current fields names)
              u
              tt
              t
          → u ≡ t
      ends {u = u} e r = sym (pure-Returns tt u (rw e at r)).1

      goes_on :
          {found : Bool} {u : State}
          → found ≡ false
          → u ≡ s
          → Returns
              (if found then pure tt else set_payload_elsewhere c d current fields names)
              u
              tt
              t
          → Returns (set_payload_elsewhere c d current fields names) s tt t
      goes_on e same r =
          subst (λ v. Returns (set_payload_elsewhere c d current fields names) v tt t) same
            (rw e at r)

  -- every collection of a classification is among those that are listed
  nowhere :
      (s : State) (d : Uuid) (home : String)
      → IsHomed c s d home
      → ((m : String) → In m (existing_names (collections s)) → IsAbsent c s d m)
      → (m : String) → IsAbsent c s d m
  nowhere s d home homed absent m p i own =
      absent m
        (In-filter (λ n. starts_with n collection_prefix) m (collections s) (laws.stored s m p i)
          (rw (homed.only m p i own) homed.prefixed))
        p i own

  -- An update that keeps the classification, called with any classification at all, gives every
  -- chunk of the document the new fields in the collection where it lives, and changes nothing
  -- else, when it returns.
  pub update_in_place-IsUpdated :
      (s t : State) (d : Uuid) (current home : String) (fields : Fields)
      → IsHomed c s d home
      → Returns (update_in_place c d current fields) s tt t
      → IsUpdated c s t fields d
  unfolding update_in_place
  update_in_place-IsUpdated s t d current home fields homed h =
      let (found, u, first, rest) = >>=-Returns (set_payload_if_present c d current fields) _ s h in
      elim (set_payload_if_present-cases s u d current home fields found homed first) [
        | inl (hit, updated) ↦
            subst (λ v. IsUpdated c s v fields d) (sym (pure-Returns tt u (rw hit at rest)).1)
              updated
        | inr (miss, same, absent) ↦
            search_rest absent (subst (λ v. Returns search_all v tt t) same (rw miss at rest))
      ]
    where
      search_all : Exec State (Unit {0})
      search_all =
          existing_classification_collections c >>= set_payload_elsewhere c d current fields

      search_rest : IsAbsent c s d current → Returns search_all s tt t → IsUpdated c s t fields d
      search_rest absent r =
          let (names, v, listed, last) =
            >>=-Returns (existing_classification_collections c) _ s r in
          let (e, same) = existing-Returns c laws s v names listed in
          elim (set_payload_elsewhere-cases s t d current home fields
            (existing_names (collections s)) homed absent
            (subst₂ (λ l w. Returns (set_payload_elsewhere c d current fields l) w tt t) e same
              last)) [
                | inl updated ↦ updated
                | inr (same', nothing) ↦
                    subst (λ w. IsUpdated c s w fields d) (sym same')
                      (absent-IsUpdated c laws s d fields (nowhere s d home homed nothing))
              ]
