-- ===== src/Vector/Memory/Laws.antt =====
-- The store in memory keeps every law that the client's documentation gives.
use nexus_rag.Base.{
  String, ◌≡◌, ◌≢◌, ◌↔◌, ◌⊎◌, inl, inr, refl, sym, ◌∙◌, ap, subst, Bool, true, false, not, List,
  ◌++◌, arith, In, filter, map, filter-In, In-filter, map-In, In-map, In-append, append-In_left,
  append-In_right, contains, str_eq, str_eq_iff, ◌==◌, ==_iff, Bool-cases, In-any, any-In,
  if◌then◌else◌, Result, ok, err,
}
use nexus_rag.Access.Payload.{Filter, passes}
use nexus_rag.Vector.Exec.{StoreError, unexpected_response}
use nexus_rag.Vector.Client.{ClientLaws, Point, Fields, set_point, Coherent}
use nexus_rag.Vector.Memory.{
  Memory, memory, points_of, unique, make, taken, set_if, stored_lem, coherent_lem, on_frame,
  on_from, on_ok,
}

create_frame : (s : Memory) (n : String) (m : String) → points_of (make n s).1 m ≡ points_of s m
unfolding unique
create_frame s n m = elim (Bool-cases (contains n s.names)) [
  | inl e ↦ rw e
  | inr e ↦ elim (Bool-cases (str_eq m n)) [
    | inl q ↦ rw ((str_eq_iff m n).0 q, e, (str_eq_iff n n).1 refl)
    | inr q ↦ rw (e, q)
  ]
]

taken-false :
    (ps : List Point) (p : Point) → taken ps p ≡ false → (q : Point) → In q ps → p.id ≢ q.id
taken-false ps p e q i k = ground (arith, In-any (λ r. p.id == r.id) q ps i, ==_iff p.id q.id)

false-taken :
    (ps : List Point) (p : Point) → ((q : Point) → In q ps → p.id ≢ q.id) → taken ps p ≡ false
false-taken ps p h = elim (Bool-cases (taken ps p)) [
  | inl e ↦
      let (q, i, k) = any-In (λ r. p.id == r.id) ps e in absurd (h q i ((==_iff p.id q.id).0 k))
  | inr e ↦ e
]

abbrev added : String → List Point → Memory → List Point
added n ps s = ps ++ filter (λ p. not (taken ps p)) (points_of s n)

added_iff :
    (s : Memory) (n : String) (ps : List Point) (p : Point)
    → In p (added n ps s)
      ↔ (In p ps ⊎ (In p (points_of s n) × ((q : Point) → In q ps → p.id ≢ q.id)))
added_iff s n ps p = (forth, back)
  where
    forth :
        In p (added n ps s)
        → In p ps ⊎ (In p (points_of s n) × ((q : Point) → In q ps → p.id ≢ q.id))
    forth i = elim (In-append p ps _ i) [
      | inl j ↦ inl j
      | inr j ↦
          let (k, e) = filter-In (λ r. not (taken ps r)) p (points_of s n) j in
          inr (k, taken-false ps p (ground arith))
    ]

    back :
        In p ps ⊎ (In p (points_of s n) × ((q : Point) → In q ps → p.id ≢ q.id))
        → In p (added n ps s)
    back (inl j) = append-In_left p ps _ j
    back (inr (j, h)) =
        append-In_right p ps _
          (In-filter (λ r. not (taken ps r)) p (points_of s n) j (ap not (false-taken ps p h)))

added-Coherent : (s : Memory) (n : String) (ps : List Point) → Coherent ps → Coherent (added n ps s)
added-Coherent s n ps h p q i j e = go ((added_iff s n ps p).0 i) ((added_iff s n ps q).0 j)
  where
    Part : Point → Type 0
    Part r = In r ps ⊎ (In r (points_of s n) × ((x : Point) → In x ps → r.id ≢ x.id))

    go : Part p → Part q → p ≡ q
    go (inl a) (inl b) = h p q a b e
    go (inl a) (inr (b, far)) = absurd (far p a (sym e))
    go (inr (a, far)) (inl b) = absurd (far q b e)
    go (inr (a, _)) (inr (b, _)) = coherent_lem s n p q a b e

map-Coherent :
    (fields : Fields) (f : Filter) (ps : List Point)
    → Coherent ps
    → Coherent (map (set_if fields f) ps)
map-Coherent fields f ps h p q i j e =
    let (a, ia, ea) = map-In (set_if fields f) p ps i in
    let (b, ib, eb) = map-In (set_if fields f) q ps j in
    ea
    ∙ ap (set_if fields f) (
        h a b ia ib (
          sym (same_id a)
          ∙ ap (λ (x : Point). x.id) (sym ea)
          ∙ e
          ∙ ap (λ (x : Point). x.id) eb
          ∙ same_id b))
    ∙ sym eb
  where
    same_id : (r : Point) → (set_if fields f r).id ≡ r.id
    same_id r = elim (Bool-cases (passes f r.payload)) [ inl k ↦ rw k | inr k ↦ rw k ]

filter-Coherent : (k : Point → Bool) (ps : List Point) → Coherent ps → Coherent (filter k ps)
filter-Coherent k ps h p q i j = h p q (filter-In k p ps i).0 (filter-In k q ps j).0

abbrev Hit : Fields → Filter → List Point → Point → Type 0
Hit fields f ps p = (q : Point) × In q ps × (passes f q.payload ≡ true) × (p ≡ set_point fields q)

set_iff :
    (fields : Fields) (f : Filter) (ps : List Point) (p : Point)
    → In p (map (set_if fields f) ps)
      ↔ ((In p ps × (passes f p.payload ≡ false)) ⊎ Hit fields f ps p)
set_iff fields f ps p = (forth, back)
  where
    forth :
        In p (map (set_if fields f) ps)
        → (In p ps × (passes f p.payload ≡ false)) ⊎ Hit fields f ps p
    forth i =
        let (q, j, e) = map-In (set_if fields f) p ps i in
        elim (Bool-cases (passes f q.payload)) [
          | inl k ↦ inr (q, j, k, rw k at e)
          | inr k ↦
              let same : p ≡ q = rw k at e in
              inl
                (subst (λ r. In r ps) (sym same) j, ap (λ (r : Point). passes f r.payload) same ∙ k)
        ]

    back :
        (In p ps × (passes f p.payload ≡ false)) ⊎ Hit fields f ps p
        → In p (map (set_if fields f) ps)
    back (inl (i, k)) =
        subst (λ r. In r (map (set_if fields f) ps)) (rw k refl) (In-map (set_if fields f) p ps i)
    back (inr (q, i, k, e)) =
        subst (λ r. In r (map (set_if fields f) ps)) (sym (e ∙ rw k refl))
          (In-map (set_if fields f) q ps i)

kept_iff :
    (f : Filter) (ps : List Point) (p : Point)
    → In p (filter (λ q. not (passes f q.payload)) ps) ↔ (In p ps × (passes f p.payload ≡ false))
kept_iff f ps p = (
  λ i. let (j, e) = filter-In (λ q. not (passes f q.payload)) p ps i in (j, ground arith),
  λ k. In-filter (λ q. not (passes f q.payload)) p ps k.0 (ap not k.1),
)

only_ok :
    (b : Bool) (l ps : List Point) → (if b then ok l else err unexpected_response) ≡ ok ps → l ≡ ps
only_ok true l ps e = cc
only_ok false l ps e = cc

exists_lem : (b x : Bool) → Path (Result StoreError Bool) (ok x) (ok b) → b ≡ x
exists_lem b x e = cc

scroll_lem :
    (s : Memory) (n : String) (f : Filter) (ps : List Point)
    → memory.scroll n f s ≡ ok ps
    → (p : Point) → In p ps ↔ (In p (points_of s n) × (passes f p.payload ≡ true))
scroll_lem s n f ps e p =
    rw (← only_ok (contains n s.names) (filter (λ q. passes f q.payload) (points_of s n)) ps e) (
      filter-In (λ q. passes f q.payload) p (points_of s n),
      λ h. In-filter (λ q. passes f q.payload) p (points_of s n) h.0 h.1,
    )

pub memory_laws : ClientLaws memory
memory_laws = record {
  stored = stored_lem;
  coherent = coherent_lem;
  get_collections_ok = λ s ns e. cc;
  exists_ok = λ s n b e. exists_lem b (contains n s.names) e;
  scroll_ok = scroll_lem;
  create_frame = λ s n k m. create_frame s n m;
  upsert_frame = λ s n ps m ne. on_frame s n m (added n ps) ne;
  upsert_from = λ s n ps p i. elim (on_from s n (added n ps) p i) [
    | inl j ↦ elim ((added_iff s n ps p).0 j) [ inl k ↦ inl k | inr (k, _) ↦ inr k ]
    | inr j ↦ inr j
  ];
  upsert_ok = λ s t n ps h co p.
      let (a, b) = on_ok s n (added n ps) t (added-Coherent s n ps co) h p in
      let (c, d) = added_iff s n ps p in (λ i. c (a i), λ i. b (d i));
  set_payload_frame =
      λ s n fields f m ne. on_frame s n m (λ u. map (set_if fields f) (points_of u n)) ne;
  set_payload_from = λ s n fields f p i.
      elim (on_from s n (λ u. map (set_if fields f) (points_of u n)) p i) [
        | inl j ↦ elim ((set_iff fields f (points_of s n) p).0 j) [
          | inl (k, _) ↦ inl k
          | inr k ↦ inr k
        ]
        | inr j ↦ inl j
      ];
  set_payload_ok = λ s t n fields f h p.
      let (a, b) =
        on_ok s n (λ u. map (set_if fields f) (points_of u n)) t
          (map-Coherent fields f (points_of s n) (coherent_lem s n)) h p in
      let (c, d) = set_iff fields f (points_of s n) p in (λ i. c (a i), λ i. b (d i));
  delete_frame =
      λ s n f m ne. on_frame s n m (λ u. filter (λ p. not (passes f p.payload)) (points_of u n)) ne;
  delete_from = λ s n f p i.
      elim (on_from s n (λ u. filter (λ q. not (passes f q.payload)) (points_of u n)) p i) [
        | inl j ↦ (filter-In (λ q. not (passes f q.payload)) p (points_of s n) j).0
        | inr j ↦ j
      ];
  delete_ok = λ s t n f h p.
      let (a, b) =
        on_ok s n (λ u. filter (λ q. not (passes f q.payload)) (points_of u n)) t
          (filter-Coherent (λ q. not (passes f q.payload)) (points_of s n) (coherent_lem s n)) h
          p in
      let (c, d) = kept_iff f (points_of s n) p in (λ i. c (a i), λ i. b (d i));
}
