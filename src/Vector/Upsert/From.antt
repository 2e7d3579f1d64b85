-- ===== src/Vector/Upsert/From.antt =====
-- However a write of new points ends, the store has only points that it had and points written.
use mathlib.Core.Bool.{false≢true}
use nexus_rag.Base.{
  ℕ, ◌≡◌, refl, ◌⊎◌, inl, inr, sym, ◌∙◌, subst, String, Bool, true, false, List, [], ◌∷◌, All,
  All-In, All-append, In, Bool-cases, str_eq, str_eq_iff, is_truthy, Result, ok, err, if◌then◌else◌,
}
use nexus_rag.Vector.Names.{classification_collection_name}
use nexus_rag.Vector.Exec.{StoreError, Exec, continue, pure, read, ◌>>◌, >>=-keeps}
use nexus_rag.Vector.Client.{Client, ClientLaws, Point}
use nexus_rag.Vector.Store.{ensure_collection}
use nexus_rag.Vector.Upsert.{Groups, append_to, group_points, upsert_groups, upsert_chunks}

module _ (P : Point → Type 0) where
  abbrev AllGroups : Groups → Type 0
  AllGroups = All (λ g. All P g.1)

  append_to-All :
      (key : String) (p : Point) (groups : Groups)
      → P p
      → AllGroups groups
      → AllGroups (append_to key p groups)
  unfolding append_to
  append_to-All key p [] h hs = ((h, tt), tt)
  append_to-All key p ((k, group) ∷ groups) h hs = elim (Bool-cases (str_eq k key)) [
    | inl e ↦ rw e (All-append P group (p ∷ []) hs.0 (h, tt), hs.1)
    | inr e ↦ rw e (hs.0, append_to-All key p groups h hs.1)
  ]

  group_points-All :
      (ps : List Point) (groups found : Groups)
      → All P ps
      → AllGroups groups
      → group_points ps groups ≡ ok found
      → AllGroups found
  unfolding group_points
  group_points-All [] groups found h hs e = subst AllGroups (same e) hs
    where
      same : Path (Result StoreError Groups) (ok groups) (ok found) → groups ≡ found
      same q = cc
  group_points-All (p ∷ ps) groups found h hs e =
      elim (Bool-cases (is_truthy p.payload.classification)) [
        | inl t ↦
            group_points-All ps (append_to p.payload.classification p groups) found h.1
              (append_to-All p.payload.classification p groups h.0 hs) (rw t at e)
        | inr f ↦ absurd (raised (rw f at e))
      ]
    where
      raised : {e : StoreError} → Path (Result StoreError Groups) (err e) (ok found) → ⊥
      raised q = cc

module _ (c : Client) (laws : ClientLaws c) (P : Point → Type 0) where
  open c use {State, points}

  -- Every point of a state was there at the start, or is one that may be written.
  abbrev pub IsFrom : State → State → Type 0
  IsFrom s t = (n : String) (p : Point) → In p (points t n) → In p (points s n) ⊎ P p

  upsert-IsFrom :
      (s u : State) (m : String) (ps : List Point)
      → All P ps
      → IsFrom s u
      → IsFrom s (c.upsert m ps u).1
  upsert-IsFrom s u m ps h f n p i = elim (Bool-cases (str_eq n m)) [
    | inl here ↦
        let q = (str_eq_iff n m).0 here in
        elim (laws.upsert_from u m ps p (subst (λ k. In p (points (c.upsert m ps u).1 k)) q i)) [
          | inl new ↦ inr (All-In P ps h p new)
          | inr old ↦ f n p (subst (λ k. In p (points u k)) (sym q) old)
        ]
    | inr there ↦ f n p (
        subst (λ l. In p l)
          (laws.upsert_frame u m ps n (λ q. false≢true (sym there ∙ (str_eq_iff n m).1 (sym q)))) i)
  ]

  upsert_groups-IsFrom :
      (s u : State) (groups : Groups)
      → All (λ g. All P g.1) groups
      → IsFrom s u
      → IsFrom s (upsert_groups c groups u).1
  unfolding upsert_groups
  upsert_groups-IsFrom s u [] h f = f
  upsert_groups-IsFrom s u ((key, group) ∷ groups) h f =
      >>=-keeps (IsFrom s) (c.upsert (classification_collection_name key) group)
        (λ _. upsert_groups c groups) u
        (upsert-IsFrom s u (classification_collection_name key) group h.0 f)
        (λ a v g. upsert_groups-IsFrom s v groups h.1 g)

  pub upsert_chunks-IsFrom :
      (s u : State) (ps : List Point) → All P ps → IsFrom s u → IsFrom s (upsert_chunks c ps u).1
  unfolding upsert_chunks
  upsert_chunks-IsFrom s u ps h f = grouped (group_points ps []) refl
    where
      grouped :
          (r : Result StoreError Groups)
          → group_points ps [] ≡ r
          → IsFrom s (continue r (upsert_groups c) u).1
      grouped (ok groups) e =
          upsert_groups-IsFrom s u groups (group_points-All P ps [] groups h tt e) f
      grouped (err x) e = f

  pub ensure_collection-IsFrom :
      (s u : State) (size : ℕ) (classification : String)
      → IsFrom s u
      → IsFrom s (ensure_collection c size classification u).1
  unfolding ensure_collection
  ensure_collection-IsFrom s u size classification f =
      >>=-keeps (IsFrom s) (read (c.collection_exists name)) (made) u f (λ exists v g.
        >>=-keeps (IsFrom s) (create exists) (λ _. pure name) v (created exists v g) (λ a x k. k))
    where
      name : String
      name = classification_collection_name classification

      create : Bool → Exec State (Unit {0})
      create exists = if exists then pure tt else c.create_collection name size

      made : Bool → Exec State String
      made exists = create exists >> pure name

      created : (exists : Bool) (v : State) → IsFrom s v → IsFrom s (create exists v).1
      created true v g n p i = g n p i
      created false v g n p i = g n p (subst (λ l. In p l) (laws.create_frame v name size n) i)
