-- ===== src/Access/Levels.antt =====
-- services/common/common/classification.py and the classification routes of
-- services/ingestion-api/app/routes/admin.py: the ranked list of classification levels.
pub mod Cleared
use nexus_rag.Base.{
  String, Bool, true, false, ◌&&◌, ◌≡◌, ◌↔◌, refl, inl, inr, Option, none, some, List, [], ◌∷◌, map,
  arith, filter, In, filter-In, In-filter, Option-cases, str_eq, str_eq_iff, if◌then◌else◌,
}
use nexus_rag.Base.Int.{ℤ, ◌≤ℤ◌, leb_ℤ, leb_ℤ_trans}

-- A row of `classification_levels`. A lower rank is less sensitive.
pub record ClassificationLevel : Type 0 where
  pub value : String
  pub rank : ℤ
  pub active : Bool

-- `select(ClassificationLevel).where(value == clearance)`, `.first()`
unfoldable pub find_level : String → List ClassificationLevel → Option ClassificationLevel
find_level v [] = none
find_level v (row ∷ rows) =
    let rest = find_level v rows in if str_eq row.value v then some row else rest

abbrev pub is_allowed : ClassificationLevel → ClassificationLevel → Bool
is_allowed user row = leb_ℤ row.rank user.rank && row.active

-- the rest of `allowed_classifications`, once the user's own level is looked up
abbrev allowed_under : List ClassificationLevel → Option ClassificationLevel → List String
allowed_under rows none = []
allowed_under rows (some user) = map (λ row. row.value) (filter (is_allowed user) rows)

unfoldable pub allowed_classifications : List ClassificationLevel → String → List String
allowed_classifications rows clearance = allowed_under rows (find_level clearance rows)

-- POST /classifications: the existing row takes the new rank and is active again.
unfoldable pub upsert_classification :
    String → ℤ → List ClassificationLevel → List ClassificationLevel
upsert_classification value rank [] = record { value = value; rank = rank; active = true } ∷ []
upsert_classification value rank (row ∷ rows) =
    let rest = upsert_classification value rank rows in
    if str_eq row.value value then record row { rank = rank; active = true } ∷ rows else row ∷ rest

-- DELETE /classifications/{value}: the row stays, and is no longer active.
unfoldable pub retire_classification : String → List ClassificationLevel → List ClassificationLevel
retire_classification value [] = []
retire_classification value (row ∷ rows) =
    let rest = retire_classification value rows in
    if str_eq row.value value then record row { active = false } ∷ rows else row ∷ rest
