-- ===== src/Access/Levels/Cleared.antt =====
-- Which levels a clearance allows: exactly the active ones that rank at or below it.
use nexus_rag.Base.{
  String, true, ◌≡◌, refl, inl, inr, some, List, [], ◌∷◌, map, arith, In, filter-In, In-filter,
  Option-cases, ◌↔◌, &&_iff, ◌≢◌, Bool-cases, str_eq, str_eq_iff,
}
use nexus_rag.Base.Int.{ℤ, leb_ℤ, leb_ℤ_trans}
use nexus_rag.Access.Levels.{
  ClassificationLevel, find_level, is_allowed, allowed_classifications, upsert_classification,
  retire_classification,
}

In-map_value :
    (v : String) (rows : List ClassificationLevel)
    → In v (map (λ row. row.value) rows)
    → (row : ClassificationLevel) × In row rows × (v ≡ row.value)
In-map_value v [] h = absurd h
In-map_value v (row ∷ rows) (inl e) = (row, inl refl, e)
In-map_value v (row ∷ rows) (inr i) = let (r, j, e) = In-map_value v rows i in (r, inr j, e)

map_value-In :
    (row : ClassificationLevel) (rows : List ClassificationLevel)
    → In row rows
    → In row.value (map (λ r. r.value) rows)
map_value-In row [] h = absurd h
map_value-In row (r ∷ rows) (inl e) = inl (ap_value e)
  where
    ap_value : row ≡ r → row.value ≡ r.value
    ap_value e = cc
map_value-In row (r ∷ rows) (inr i) = inr (map_value-In row rows i)

-- The levels at or below a clearance: the active rows whose rank is at most that of the row that
-- the clearance names.
pub record IsCleared (rows : List ClassificationLevel) (clearance v : String) : Type 0 where
  pub user : ClassificationLevel
  pub row : ClassificationLevel
  pub named : find_level clearance rows ≡ some user
  pub listed : In row rows
  pub value : v ≡ row.value
  pub ranked : leb_ℤ row.rank user.rank ≡ true
  pub in_use : row.active ≡ true

allowed-IsCleared :
    (rows : List ClassificationLevel) (c v : String)
    → In v (allowed_classifications rows c)
    → IsCleared rows c v
unfolding allowed_classifications
allowed-IsCleared rows c v h = elim (Option-cases (find_level c rows)) [
  | inl e ↦ absurd (rw e at h)
  | inr (user, e) ↦
      let (row, i, q) = In-map_value v _ (rw e at h) in
      let (listed, passed) = filter-In (is_allowed user) row rows i in
      let (ranked, in_use) = (&&_iff _ _).0 passed in
      record {
        user = user;
        row = row;
        named = e;
        listed = listed;
        value = q;
        ranked = ranked;
        in_use = in_use;
      }
]

IsCleared-allowed :
    (rows : List ClassificationLevel) (c v : String)
    → IsCleared rows c v
    → In v (allowed_classifications rows c)
unfolding allowed_classifications
IsCleared-allowed rows c v k =
    rw (k.named, k.value)
      (map_value-In k.row _
        (In-filter (is_allowed k.user) k.row rows k.listed ((&&_iff _ _).1 (k.ranked, k.in_use))))

-- A level is allowed under a clearance exactly when it is the value of an active row that ranks at
-- or below the row that the clearance names. A clearance that no row names allows nothing.
pub allowed_classifications_iff :
    (rows : List ClassificationLevel) (c v : String)
    → In v (allowed_classifications rows c) ↔ IsCleared rows c v
allowed_classifications_iff rows c v = (allowed-IsCleared rows c v, IsCleared-allowed rows c v)

same_user :
    {rows : List ClassificationLevel} (c v : String) (low : ClassificationLevel)
    → find_level c rows ≡ some low
    → (k : IsCleared rows c v) → k.user ≡ low
same_user c v low p k = cc k.named

-- A clearance that ranks at least as high as another allows every level that the other allows.
allowed_classifications_mono :
    (rows : List ClassificationLevel) (c d v : String) (low high : ClassificationLevel)
    → find_level c rows ≡ some low
    → find_level d rows ≡ some high
    → leb_ℤ low.rank high.rank ≡ true
    → In v (allowed_classifications rows c)
    → In v (allowed_classifications rows d)
allowed_classifications_mono rows c d v low high p q h i =
    let k = allowed-IsCleared rows c v i in
    IsCleared-allowed rows d v (record {
      user = high;
      row = k.row;
      named = q;
      listed = k.listed;
      value = k.value;
      ranked = leb_ℤ_trans k.row.rank low.rank high.rank (ground (arith, same_user c v low p k)) h;
      in_use = k.in_use;
    })

-- No value stands in two rows (`unique=True` on the column).
abbrev HasOneRow : String → List ClassificationLevel → Type 0
HasOneRow v [] = Unit {0}
HasOneRow v (row ∷ rows) =
    (v ≡ row.value → (r : ClassificationLevel) → In r rows → v ≢ r.value) × HasOneRow v rows

retired_inactive :
    (v : String) (rows : List ClassificationLevel)
    → HasOneRow v rows
    → (r : ClassificationLevel) → In r (retire_classification v rows)
    → v ≡ r.value
    → r.active ≡ true
    → ⊥
unfolding retire_classification
retired_inactive v [] one r i e a = i
retired_inactive v (row ∷ rows) one r i e a = elim (Bool-cases (str_eq row.value v)) [
  | inl hit ↦
      ground (arith, str_eq_iff row.value v, one.0 (ground (arith, str_eq_iff row.value v)) r)
  | inr miss ↦ ground (arith, str_eq_iff row.value v, retired_inactive v rows one.1 r)
]

upsert_listed :
    (v : String) (r : ℤ) (rows : List ClassificationLevel)
    → (row : ClassificationLevel) × In row (upsert_classification v r rows)
      × (v ≡ row.value)
      × (row.rank ≡ r)
      × (row.active ≡ true)
unfolding upsert_classification
upsert_listed v r [] = (_, inl refl, refl, refl, refl)
upsert_listed v r (row ∷ rows) = elim (Bool-cases (str_eq row.value v)) [
  | inl hit ↦ rw hit (
    record row { rank = r; active = true },
    inl refl,
    ground (arith, str_eq_iff row.value v),
    refl,
    refl,
  )
  | inr miss ↦
      let (q, listed, value, rank, in_use) = upsert_listed v r rows in
      rw miss (q, inr listed, value, rank, in_use)
]

-- After a level is retired, no clearance allows it, if each value stands in one row.
retire_classification-allowed :
    (rows : List ClassificationLevel) (c v : String)
    → HasOneRow v rows
    → ¬ In v (allowed_classifications (retire_classification v rows) c)
retire_classification-allowed rows c v one h =
    let k = allowed-IsCleared (retire_classification v rows) c v h in
    retired_inactive v rows one k.row k.listed k.value k.in_use

-- After a level is added or given a rank, every clearance that names a level of at least that rank
-- allows it.
upsert_classification-allowed :
    (rows : List ClassificationLevel) (c v : String) (r : ℤ) (user : ClassificationLevel)
    → find_level c (upsert_classification v r rows) ≡ some user
    → leb_ℤ r user.rank ≡ true
    → In v (allowed_classifications (upsert_classification v r rows) c)
upsert_classification-allowed rows c v r user named h =
    let (row, listed, value, rank, in_use) = upsert_listed v r rows in
    IsCleared-allowed (upsert_classification v r rows) c v (record {
      user = user;
      row = row;
      named = named;
      listed = listed;
      value = value;
      ranked = ground (arith, h);
      in_use = in_use;
    })
