-- ===== src/Vector/Memory.antt =====
-- A vector store in memory that keeps what the client's documentation says: the instance at which
-- the theorems on the store are tried.
pub mod Laws
use nexus_rag.Base.{
  ℕ, String, ◌≡◌, ◌≢◌, ◌↔◌, ◌⊎◌, inl, inr, refl, sym, ◌∙◌, ap, subst, Bool, true, false, not, List,
  [], ◌∷◌, ◌++◌, arith, In, filter, map, filter-In, In-filter, map-In, In-map, In-append,
  append-In_left, append-In_right, contains, contains-In, In-contains, str_eq, str_eq_iff, ◌==◌,
  ==_iff, Bool-cases, any, In-any, any-In, if◌then◌else◌, Result, ok, err,
}
use nexus_rag.Document.{Uuid}
use nexus_rag.Access.Payload.{Payload, Filter, passes}
use nexus_rag.Vector.Exec.{Exec, StoreError, unexpected_response, Returns}
use nexus_rag.Vector.Client.{Client, ClientLaws, Point, Fields, set_point, Coherent}

-- the points of a collection, later ones first dropped when an id is taken
unfoldable pub unique : List Point → List Point
unique [] = []
unique (p ∷ ps) = p ∷ filter (λ q. not (q.id == p.id)) (unique ps)

pub unique-In : (p : Point) (ps : List Point) → In p (unique ps) → In p ps
unfolding unique
unique-In p [] i = i
unique-In p (q ∷ ps) (inl e) = inl e
unique-In p (q ∷ ps) (inr i) =
    inr (unique-In p ps (filter-In (λ r. not (r.id == q.id)) p (unique ps) i).0)

unique-Coherent : (ps : List Point) → Coherent (unique ps)
unfolding unique
unique-Coherent [] p q i j e = absurd i
unique-Coherent (r ∷ ps) p q (inl i) (inl j) e = i ∙ sym j
unique-Coherent (r ∷ ps) p q (inl i) (inr j) e = ground (
  arith,
  filter-In (λ x. not (x.id == r.id)) q (unique ps) j,
  ==_iff q.id r.id,
  ap (λ (x : Point). x.id) i,
)
unique-Coherent (r ∷ ps) p q (inr i) (inl j) e = ground (
  arith,
  filter-In (λ x. not (x.id == r.id)) p (unique ps) i,
  ==_iff p.id r.id,
  ap (λ (x : Point). x.id) j,
)
unique-Coherent (r ∷ ps) p q (inr i) (inr j) e =
    unique-Coherent ps p q (filter-In (λ x. not (x.id == r.id)) p (unique ps) i).0
      (filter-In (λ x. not (x.id == r.id)) q (unique ps) j).0 e

In-unique : (ps : List Point) → Coherent ps → (p : Point) → In p ps → In p (unique ps)
unfolding unique
In-unique [] h p i = i
In-unique (q ∷ ps) h p (inl e) = inl e
In-unique (q ∷ ps) h p (inr i) = elim (Bool-cases (p.id == q.id)) [
  | inl same ↦ inl (h p q (inr i) (inl refl) ((==_iff p.id q.id).0 same))
  | inr other ↦ inr (
      In-filter (λ r. not (r.id == q.id)) p (unique ps)
        (In-unique ps (λ a b ia ib. h a b (inr ia) (inr ib)) p i) (ap not other))
]

pub record Memory : Type 0 where
  pub names : List String
  pub stored : String → List Point

abbrev pub points_of : Memory → String → List Point
points_of s n = if contains n s.names then unique (s.stored n) else []

abbrev store_at : Memory → String → List Point → Memory
store_at s n ps = record s { stored = λ m. if str_eq m n then ps else s.stored m }

-- a call on a collection that is not there raises
abbrev pub on : String → (Memory → Memory) → Exec Memory (Unit {0})
on n f s = if contains n s.names then (ok tt, f s) else (err unexpected_response, s)

abbrev pub make : String → Exec Memory (Unit {0})
make n s =
    if contains n s.names
    then (err unexpected_response, s)
    else (ok tt, record (store_at s n []) { names = n ∷ s.names })

abbrev pub taken : List Point → Point → Bool
taken ps p = any (λ q. p.id == q.id) ps

abbrev pub set_if : Fields → Filter → Point → Point
set_if fields f p = if passes f p.payload then set_point fields p else p

abbrev pub memory : Client
memory = record {
  State = Memory;
  collections = λ s. s.names;
  points = points_of;
  get_collections = λ s. ok s.names;
  collection_exists = λ n s. ok (contains n s.names);
  scroll = λ n f s.
      if contains n s.names
      then ok (filter (λ p. passes f p.payload) (points_of s n))
      else err unexpected_response;
  create_collection = λ n k s. make n s;
  upsert = λ n ps. on n (λ s. store_at s n (ps ++ filter (λ p. not (taken ps p)) (points_of s n)));
  set_payload = λ n fields f. on n (λ s. store_at s n (map (set_if fields f) (points_of s n)));
  delete = λ n f. on n (λ s. store_at s n (filter (λ p. not (passes f p.payload)) (points_of s n)));
}

module _ (s : Memory) where
  pub stored_lem : (n : String) (p : Point) → In p (points_of s n) → In n s.names
  stored_lem n p i = ground (arith, contains-In n s.names)

  pub coherent_lem : (n : String) → Coherent (points_of s n)
  coherent_lem n = elim (Bool-cases (contains n s.names)) [
    | inl e ↦ rw e (unique-Coherent (s.stored n))
    | inr e ↦ rw e (λ p q i j k. absurd i)
  ]

  -- what a write to one collection leaves in the others
  store_frame :
      (n m : String) (ps : List Point) → n ≢ m → points_of (store_at s n ps) m ≡ points_of s m
  store_frame n m ps ne = elim (Bool-cases (str_eq m n)) [
    | inl e ↦ absurd (ne (sym ((str_eq_iff m n).0 e)))
    | inr e ↦ rw e
  ]

  store_here :
      (n : String) (ps : List Point)
      → contains n s.names ≡ true
      → points_of (store_at s n ps) n ≡ unique ps
  store_here n ps e = rw (e, (str_eq_iff n n).1 refl)

  pub on_frame :
      (n m : String) (f : Memory → List Point)
      → n ≢ m
      → points_of (on n (λ u. store_at u n (f u)) s).1 m ≡ points_of s m
  on_frame n m f ne = elim (Bool-cases (contains n s.names)) [
    | inl e ↦ rw e (store_frame n m (f s) ne)
    | inr e ↦ rw e
  ]

  -- what a write leaves in its own collection, when it raises and when it does not
  pub on_from :
      (n : String) (f : Memory → List Point) (p : Point)
      → In p (points_of (on n (λ u. store_at u n (f u)) s).1 n)
      → In p (f s) ⊎ In p (points_of s n)
  on_from n f p i = elim (Bool-cases (contains n s.names)) [
    | inl e ↦ inl (unique-In p (f s) (subst (λ l. In p l) (store_here n (f s) e) (rw e at i)))
    | inr e ↦ inr (rw e at i)
  ]

  pub on_ok :
      (n : String) (f : Memory → List Point) (t : Memory)
      → Coherent (f s)
      → Returns (on n (λ u. store_at u n (f u))) s tt t
      → (p : Point) → In p (points_of t n) ↔ In p (f s)
  on_ok n f t h r p = elim (Bool-cases (contains n s.names)) [
    | inl e ↦
        let q : t ≡ store_at s n (f s) = sym (ap (λ x. x.1) (rw e at r)) in
        (
          λ i.
              unique-In p (f s)
                (subst (λ l. In p l) (ap (λ u. points_of u n) q ∙ store_here n (f s) e) i),
          λ i.
              subst (λ l. In p l) (sym (ap (λ u. points_of u n) q ∙ store_here n (f s) e))
                (In-unique (f s) h p i),
        )
    | inr e ↦ absurd (raised (rw e at r))
  ]
    where
      raised :
          Path (Result StoreError (Unit {0}) × Memory) (err unexpected_response, s) (ok tt, t) → ⊥
      raised k = cc
