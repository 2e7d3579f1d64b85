-- ===== src/Curation/Decide/Checks.antt =====
-- What an approval has checked by the time it writes.
use nexus_rag.Base.{
  ◌≡◌, refl, sym, ◌∙◌, ap, subst, Bool, true, false, Option, none, some, Result, ok, err, ◌>>=◌,
  require,
}
use nexus_rag.Document.{Uuid, Document, pending_review, approved, status_eq, status_eq→eq}
use nexus_rag.Access.Claims.{UserClaims}
use nexus_rag.Database.{Database, Corrections, find_document}
use nexus_rag.Database.Rows.{find_document-id}
use nexus_rag.Curation.Http.{HttpError, conflict_superseded_status}
use nexus_rag.Curation.Authority.{check_curator_authority, load_pending}
use nexus_rag.Curation.Authority.Standing.{
  HasStanding, check_curator_authority_iff, load_pending_iff,
}
use nexus_rag.Curation.Changes.{
  correct, apply_corrections, superseded_row, validate_supersede, old_version, approve_checks,
}

-- the row with its corrections
abbrev pub correct_by : Option Corrections → Document → Document
correct_by none doc = doc
correct_by (some k) doc = correct k doc

-- The version that an approval replaces: the row that is named, approved, and in the curator's
-- authority.
abbrev pub IsReplaceable : Database → UserClaims → Option Uuid → Option Document → Type 0
IsReplaceable db user target none = target ≡ none
IsReplaceable db user target (some old_doc) =
    (target ≡ some old_doc.id)
    × (find_document old_doc.id db.documents ≡ some old_doc)
    × (old_doc.status ≡ approved)
    × HasStanding user old_doc db.classification_levels

-- A pending document in the curator's authority before and after its corrections.
pub record IsApprovable (db : Database) (user : UserClaims) (id : Uuid) (k : Option Corrections)
    (found doc : Document) (old_doc : Option Document) : Type 0 where
  pub row : find_document id db.documents ≡ some found
  pub pending : found.status ≡ pending_review
  pub standing : HasStanding user found db.classification_levels
  pub corrected : doc ≡ correct_by k found
  pub corrected_standing : HasStanding user doc db.classification_levels
  pub replaces : IsReplaceable db user doc.supersedes_document_id old_doc

>>=-ok :
    {A B : Type 0} (r : Result HttpError A) (f : A → Result HttpError B) (b : B)
    → (r >>= f) ≡ ok b
    → (a : A) × (r ≡ ok a) × (f a ≡ ok b)
>>=-ok (ok a) f b e = (a, refl, e)
>>=-ok (err x) f b e = cc

apply_corrections-ok :
    (db : Database) (user : UserClaims) (k : Option Corrections) (found doc : Document)
    → HasStanding user found db.classification_levels
    → apply_corrections db user k found ≡ ok doc
    → (doc ≡ correct_by k found) × HasStanding user doc db.classification_levels
unfolding apply_corrections
apply_corrections-ok db user none found doc h e =
    let same : found ≡ doc = cc in
    (sym same, subst (λ d. HasStanding user d db.classification_levels) same h)
apply_corrections-ok db user (some k) found doc h e =
    let (_, checked, last) =
      >>=-ok (check_curator_authority user (correct k found) db.classification_levels) _ doc e in
    let same : correct k found ≡ doc = cc in
    (
      sym same,
      subst (λ d. HasStanding user d db.classification_levels) same
          ((check_curator_authority_iff user (correct k found) db.classification_levels).0 checked),
    )

superseded_row-ok :
    (db : Database) (user : UserClaims) (row : Option Document) (old_doc : Document)
    → superseded_row db user row ≡ ok old_doc
    → (row ≡ some old_doc)
      × (old_doc.status ≡ approved)
      × HasStanding user old_doc db.classification_levels
superseded_row-ok db user none old_doc e = cc
superseded_row-ok db user (some d) old_doc e =
    let (_, checked, next) =
      >>=-ok (check_curator_authority user d db.classification_levels) _ old_doc e in
    let (_, status, last) =
      >>=-ok (require (status_eq d.status approved) (conflict_superseded_status d.status)) _ old_doc
        next in
    let same : d ≡ old_doc = cc in
    (
      ap (λ x. some x) same,
      subst (λ x. x.status ≡ approved) same
          (status_eq→eq d.status approved (required (status_eq d.status approved) _ status)),
      subst (λ x. HasStanding user x db.classification_levels) same
          ((check_curator_authority_iff user d db.classification_levels).0 checked),
    )
  where
    required : (b : Bool) (x : HttpError) → require b x ≡ ok tt → b ≡ true
    required true x q = refl
    required false x q = cc

old_version-ok :
    (db : Database) (user : UserClaims) (target : Option Uuid) (old_doc : Option Document)
    → old_version db user target ≡ ok old_doc
    → IsReplaceable db user target old_doc
unfolding validate_supersede
old_version-ok db user none none e = refl
old_version-ok db user none (some d) e = cc
old_version-ok db user (some id) old_doc e =
    let (d, valid, last) = >>=-ok (validate_supersede db user id) _ old_doc e in
    let (row, status, standing) =
      superseded_row-ok db user (find_document id db.documents) d valid in
    let own = find_document-id id db.documents d row in
    let same : some d ≡ old_doc = cc in
    subst (IsReplaceable db user (some id)) same (
      ap (λ n. some n) (sym own),
      ap (λ n. find_document n db.documents) own ∙ row,
      status,
      standing,
    )

pub approve_checks-IsApprovable :
    (db : Database) (user : UserClaims) (id : Uuid) (k : Option Corrections) (found doc : Document)
    (old_doc : Option Document)
    → approve_checks db user id k ≡ ok (found, doc, old_doc)
    → IsApprovable db user id k found doc old_doc
unfolding approve_checks
approve_checks-IsApprovable db user id k found doc old_doc e =
    let (d, loads, e1) = >>=-ok (load_pending db id user) _ (found, doc, old_doc) e in
    let (x, corrects, e2) = >>=-ok (apply_corrections db user k d) _ (found, doc, old_doc) e1 in
    let (o, replaces, e3) =
      >>=-ok (old_version db user x.supersedes_document_id) _ (found, doc, old_doc) e2 in
    let (row, pending, standing) = (load_pending_iff db id user d).0 loads in
    let (corrected, corrected_standing) = apply_corrections-ok db user k d x standing corrects in
    subst (λ t. IsApprovable db user id k t.0 t.1 t.2) (answer d x o e3)
      (record {
        row = row;
        pending = pending;
        standing = standing;
        corrected = corrected;
        corrected_standing = corrected_standing;
        replaces = old_version-ok db user x.supersedes_document_id o replaces;
      })
  where
    answer :
        (d x : Document) (o : Option Document)
        → Path
            (Result HttpError (Document × Document × Option Document))
            (ok (d, x, o))
            (ok (found, doc, old_doc))
        → Path (Document × Document × Option Document) (d, x, o) (found, doc, old_doc)
    answer d x o q = cc
