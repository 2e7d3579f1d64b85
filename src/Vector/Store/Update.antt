-- ===== src/Vector/Store/Update.antt =====
-- `update_document_payload` as a whole: what the document's chunks are when it returns.
use mathlib.Core.Bool.{false≢true}
use nexus_rag.Base.{
  String, ◌≡◌, ◌≢◌, ◌⊎◌, inl, inr, sym, ◌∙◌, ap, subst, In, map, Bool-cases, str_eq, str_eq_iff,
}
use nexus_rag.Document.{Uuid}
use nexus_rag.Vector.Names.{classification_collection_name}
use nexus_rag.Vector.Exec.{pure, ◌>>◌, Returns, >>=-Returns, pure-Returns, Returns-state}
use nexus_rag.Vector.Client.{Client, ClientLaws, Point, Fields, set_point}
use nexus_rag.Vector.Store.{
  document_filter, migrate_document_classification, set_payload_if_present, update_by_move,
}
use nexus_rag.Vector.Store.Sweep.{misses-document_filter}
use nexus_rag.Vector.Store.Carry.{IsHomed, IsAbsent, IsUpdated, absent-IsUpdated, carry_other}
use nexus_rag.Vector.Store.InPlace.{set_payload_if_present-cases}
use nexus_rag.Vector.Store.Moved.{HasMoved, Deletes, Moved-written, Moved-arrived, Moved-rest}
use nexus_rag.Vector.Store.Move.{Moved, migrate-cases}

module _ (c : Client) (laws : ClientLaws c) where
  open c use {State, points}

  -- What the fallback of a move does when nothing was at the claimed source.
  fallback-cases :
      (s t : State) (d : Uuid) (target home : String) (fields : Fields)
      → IsHomed c s d home
      → Returns (set_payload_if_present c d target fields >> pure tt) s tt t
      → IsUpdated c s t fields d ⊎ ((t ≡ s) × IsAbsent c s d target)
  fallback-cases s t d target home fields homed h =
      let (found, u, first, rest) = >>=-Returns (set_payload_if_present c d target fields) _ s h in
      let ends : t ≡ u = (pure-Returns tt u rest).1 in
      elim (set_payload_if_present-cases c laws s u d target home fields found homed first) [
        | inl (_, updated) ↦ inl (subst (λ v. IsUpdated c s v fields d) (sym ends) updated)
        | inr (_, same, absent) ↦ inr (ends ∙ same, absent)
      ]

  -- A document without chunks still has none when its update is done.
  updated-IsAbsent :
      (s t : State) (d : Uuid) (fields : Fields)
      → IsUpdated c s t fields d
      → ((m : String) → IsAbsent c s d m)
      → (m : String) → IsAbsent c t d m
  updated-IsAbsent s t d fields updated absent m p i own =
      let (q, j, e) = (updated m p).0 i in
      let e' : p ≡ q = e ∙ carry_other fields d q (absent m q j) in
      absent m q j (ap (λ (x : Point). x.payload.document_id) (sym e') ∙ own)

  home-IsAbsent :
      (s : State) (d : Uuid) (home : String)
      → IsHomed c s d home
      → IsAbsent c s d home
      → (m : String) → IsAbsent c s d m
  home-IsAbsent s d home homed absent m p i own =
      absent p (subst (λ n. In p (points s n)) (homed.only m p i own) i) own

  absent-HasMoved :
      (s t : State) (d : Uuid) (current target : String) (fields : Fields)
      → ((m : String) → IsAbsent c s d m)
      → ((m : String) → IsAbsent c t d m)
      → HasMoved c s t d current target fields
  absent-HasMoved s t d current target fields before after = record {
    arrived = λ q i own. absurd (before current q i own);
    rest = λ m p i own. absurd (after m p i own);
  }

  pub update_by_move-HasMoved :
      (s t : State) (d : Uuid) (current new : String) (fields : Fields)
      → current ≢ classification_collection_name new
      → IsHomed c s d current
      → Returns (update_by_move c d current new fields) s tt t
      → HasMoved c s t d current (classification_collection_name new) fields
  unfolding update_by_move
  update_by_move-HasMoved s t d current new fields ne homed h =
      let (moved, u, first, rest) =
        >>=-Returns (migrate_document_classification c d current new fields) _ s h in
      elim (migrate-cases c laws s u d current new fields moved first) [
        | inl (hit, how) ↦
            let e = (pure-Returns tt u (rw hit at rest)).1 in
            subst (λ v. HasMoved c s v d current target fields) (sym e)
              (record {
                arrived = Moved-arrived c laws s u d current target fields ne how;
                rest = Moved-rest c laws s u d current target fields ne homed how;
              })
        | inr (miss, same, absent) ↦ nothing_there (home-IsAbsent s d current homed absent) (
            subst (λ v. Returns (set_payload_if_present c d target fields >> pure tt) v tt t) same
              (rw miss at rest))
      ]
    where
      target : String
      target = classification_collection_name new

      nothing_there :
          ((m : String) → IsAbsent c s d m)
          → Returns (set_payload_if_present c d target fields >> pure tt) s tt t
          → HasMoved c s t d current target fields
      nothing_there absent r = elim (fallback-cases s t d target current fields homed r) [
        | inl updated ↦
            absent-HasMoved s t d current target fields absent
              (updated-IsAbsent s t d fields updated absent)
        | inr (same, _) ↦
            absent-HasMoved s t d current target fields absent
              (subst (λ v. (m : String) → IsAbsent c v d m) (sym same) absent)
      ]

  -- A correction whose move is already done, called with the old classification.
  pub update_by_move-IsUpdated :
      (s t : State) (d : Uuid) (current new : String) (fields : Fields)
      → current ≢ classification_collection_name new
      → IsHomed c s d (classification_collection_name new)
      → Returns (update_by_move c d current new fields) s tt t
      → IsUpdated c s t fields d
  unfolding update_by_move
  update_by_move-IsUpdated s t d current new fields ne homed h =
      let (moved, u, first, rest) =
        >>=-Returns (migrate_document_classification c d current new fields) _ s h in
      elim (migrate-cases c laws s u d current new fields moved first) [
        | inl (hit, how) ↦ absurd (ne (homed.only current how.source.0 how.source.1 how.source.2))
        | inr (miss, same, absent) ↦ there (
            subst (λ v. Returns (set_payload_if_present c d target fields >> pure tt) v tt t) same
              (rw miss at rest))
      ]
    where
      target : String
      target = classification_collection_name new

      there :
          Returns (set_payload_if_present c d target fields >> pure tt) s tt t
          → IsUpdated c s t fields d
      there r = elim (fallback-cases s t d target target fields homed r) [
        | inl updated ↦ updated
        | inr (same, absent) ↦
            subst (λ v. IsUpdated c s v fields d) (sym same)
              (absent-IsUpdated c laws s d fields (home-IsAbsent s d target homed absent))
      ]

  -- The call of a move, whatever it found.
  lost_at :
      (s t : State) (d : Uuid) (current : String) (fields : Fields)
      → IsHomed c s d current
      → Deletes c current d
      → Moved c laws s t d current current fields
      → (m : String) → IsAbsent c t d m
  lost_at s t d current fields homed deletes moved m p i own =
      elim (Bool-cases (str_eq m current)) [
        | inl here ↦
            let e = (str_eq_iff m current).0 here in
            (misses-document_filter d p.payload).0
              ((laws.delete_ok moved.written t current (document_filter d)
                  (subst (λ v. Returns (c.delete current (document_filter d)) moved.written tt v)
                    (sym moved.cleared)
                    (deletes moved.written (
                      laws.stored moved.written current _
                        (Moved-written c laws s t d current fields moved))))
                  p).0
                (subst (λ n. In p (points t n)) e i)).1
              own
        | inr there ↦
            let far : m ≢ current = λ e. false≢true (sym there ∙ (str_eq_iff m current).1 e) in
            let (found, _, sent) = moved.upserted in
            far (
              homed.only m p
                (subst (λ l. In p l)
                  (ap (λ v. points v m) moved.cleared
                    ∙ laws.delete_frame moved.written current (document_filter d) m
                        (λ e. far (sym e))
                    ∙ ap (λ v. points v m)
                        (Returns-state (c.upsert current (map (set_point fields) found)) moved.ready
                          sent)
                    ∙ laws.upsert_frame moved.ready current (map (set_point fields) found) m
                        (λ e. far (sym e))
                    ∙ moved.same m)
                  i)
                own)
      ]

  pub update_by_move-lost :
      (s t : State) (d : Uuid) (current new : String) (fields : Fields)
      → current ≡ classification_collection_name new
      → IsHomed c s d current
      → Deletes c current d
      → Returns (update_by_move c d current new fields) s tt t
      → (m : String) → IsAbsent c t d m
  unfolding update_by_move
  update_by_move-lost s t d current new fields e homed deletes h =
      let (moved, u, first, rest) =
        >>=-Returns (migrate_document_classification c d current new fields) _ s h in
      elim (migrate-cases c laws s u d current new fields moved first) [
        | inl (hit, how) ↦
            subst (λ v. (m : String) → IsAbsent c v d m)
              (sym (pure-Returns tt u (rw hit at rest)).1)
              (lost_at s u d current fields homed deletes
                (subst (λ n. Moved c laws s u d current n fields) (sym e) how))
        | inr (miss, same, absent) ↦ nothing_there (home-IsAbsent s d current homed absent) (
            subst (λ v. Returns (set_payload_if_present c d target fields >> pure tt) v tt t) same
              (rw miss at rest))
      ]
    where
      target : String
      target = classification_collection_name new

      nothing_there :
          ((m : String) → IsAbsent c s d m)
          → Returns (set_payload_if_present c d target fields >> pure tt) s tt t
          → (m : String) → IsAbsent c t d m
      nothing_there absent r = elim (fallback-cases s t d target current fields homed r) [
        | inl updated ↦ updated-IsAbsent s t d fields updated absent
        | inr (same, _) ↦ subst (λ v. (m : String) → IsAbsent c v d m) (sym same) absent
      ]
