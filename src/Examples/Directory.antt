-- ===== src/Examples/Directory.antt =====
-- An object store that is a directory of files, and its laws.
use nexus_rag.Base.{
  String, ◌≡◌, inl, inr, refl, false, not, List, [], ◌∷◌, filter, contains, str_eq, Bool-cases,
  if◌then◌else◌, Result, ok, err,
}
use nexus_rag.Purge.Stores.{ObjectStore, ObjectLaws, DeleteError, file_not_found}

-- the keys of a directory
abbrev unlink : String → List String → Result DeleteError (Unit {0}) × List String
unlink key keys =
    if contains key keys
    then (ok tt, filter (λ k. not (str_eq key k)) keys)
    else (err file_not_found, keys)

abbrev pub directory : ObjectStore
directory = record { State = List String; holds = λ keys key. contains key keys; delete = unlink }

filtered :
    (key : String) (keys : List String)
    → contains key (filter (λ k. not (str_eq key k)) keys) ≡ false
filtered key [] = refl
filtered key (k ∷ keys) = elim (Bool-cases (str_eq key k)) [
  | inl e ↦ rw e (filtered key keys)
  | inr e ↦ rw (e, e) (filtered key keys)
]

gone :
    (key : String) (s t : List String)
    → Path
        (Result DeleteError (Unit {0}) × List String)
        (ok tt, filter (λ k. not (str_eq key k)) s)
        (ok tt, t)
    → filter (λ k. not (str_eq key k)) s ≡ t
gone key s t e = cc

missing :
    (key : String) (s t : List String)
    → Path (Result DeleteError (Unit {0}) × List String) (err file_not_found, s) (ok tt, t)
    → ⊥
missing key s t e = cc

deleted :
    (key : String) (s t : List String)
    → Path
        (Result DeleteError (Unit {0}) × List String)
        (ok tt, filter (λ k. not (str_eq key k)) s)
        (err file_not_found, t)
    → ⊥
deleted key s t e = cc

kept :
    (key : String) (s t : List String)
    → Path
        (Result DeleteError (Unit {0}) × List String)
        (err file_not_found, s)
        (err file_not_found, t)
    → s ≡ t
kept key s t e = cc

pub directory_laws : ObjectLaws directory
directory_laws = record {
  deleted = λ key s t e. elim (Bool-cases (contains key s)) [
    | inl q ↦ rw (← gone key s t (rw q at e)) (filtered key s)
    | inr q ↦ absurd (missing key s t (rw q at e))
  ];
  not_found = λ key s t e. elim (Bool-cases (contains key s)) [
    | inl q ↦ absurd (deleted key s t (rw q at e))
    | inr q ↦ rw (← kept key s t (rw q at e)) q
  ];
}
