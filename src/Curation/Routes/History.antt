-- ===== src/Curation/Routes/History.antt =====
-- What no sequence of curation requests loses: when a document first became retrievable.
use nexus_rag.Base.{
  ◌≡◌, refl, sym, ◌∙◌, ap, arith, Bool, true, false, ◌||◌, Option, some, none, is_some, subst,
  Bool-cases, inl, inr, List, ◌==◌, ==_iff,
}
use nexus_rag.Document.{Uuid, Time, Document, approved, superseded, status_eq}
use nexus_rag.Access.Claims.{UserClaims}
use nexus_rag.Database.{Database, find_document, put_document}
use nexus_rag.Database.Rows.{find_document-put_document, find_document-put_other}
use nexus_rag.Curation.Changes.{or_now, approved_row, rejected_row, suspended_row, superseded_old}
use nexus_rag.Curation.Edit.{DocumentEdit, is_demoted, edited_row, resulting_row, demote}

-- A row that is approved, or was, says when it first was.
abbrev IsDated : Document → Type 0
IsDated doc =
    (status_eq doc.status approved || status_eq doc.status superseded) ≡ true
    → is_some doc.first_approved_at ≡ true

-- From one state of a row to a later one: the date stays, and it is there once it is owed.
pub record Keeps (old new : Document) : Type 0 where
  pub same_id : new.id ≡ old.id
  pub date : (t : Time) → old.first_approved_at ≡ some t → new.first_approved_at ≡ some t
  pub dated : IsDated old → IsDated new

Keeps-refl : (d : Document) → Keeps d d
Keeps-refl d = record { same_id = refl; date = λ t e. e; dated = λ h. h }

Keeps-trans : (a b d : Document) → Keeps a b → Keeps b d → Keeps a d
Keeps-trans a b d x y = record {
  same_id = y.same_id ∙ x.same_id;
  date = λ t e. y.date t (x.date t e);
  dated = λ h. y.dated (x.dated h);
}

or_now-some : (o : Option Time) (now : Time) → is_some (or_now o now) ≡ true
or_now-some none now = refl
or_now-some (some t) now = refl

pub approved_row-Keeps :
    (user : UserClaims) (now : Time) (old doc : Document)
    → doc.id ≡ old.id
    → doc.first_approved_at ≡ old.first_approved_at
    → Keeps old (approved_row user now doc)
unfolding approved_row
approved_row-Keeps user now old doc e k = record {
  same_id = e;
  date = λ t q. rw (k, q) refl;
  dated = λ h s. or_now-some doc.first_approved_at now;
}

pub rejected_row-Keeps :
    (user : UserClaims) (now : Time) (reason : _) (doc : Document)
    → Keeps doc (rejected_row user now reason doc)
unfolding rejected_row
rejected_row-Keeps user now reason doc = record {
  same_id = refl;
  date = λ t e. e;
  dated = λ h s. ground arith;
}

pub suspended_row-Keeps : (doc : Document) → Keeps doc (suspended_row doc)
unfolding suspended_row
suspended_row-Keeps doc = record { same_id = refl; date = λ t e. e; dated = λ h s. ground arith }

pub superseded_old-Keeps :
    (now : Time) (doc : Document) → doc.status ≡ approved → Keeps doc (superseded_old now doc)
superseded_old-Keeps now doc e = record {
  same_id = refl;
  date = λ t q. q;
  dated = λ h s. h (rw e refl);
}

demote-Keeps :
    (b : Bool) (now : Time) (old doc : Document)
    → doc.id ≡ old.id
    → doc.first_approved_at ≡ old.first_approved_at
    → doc.status ≡ old.status
    → Keeps old (record (demote b doc) { updated_at = now })
demote-Keeps true now old doc e k s = record {
  same_id = e;
  date = λ t q. k ∙ q;
  dated = λ h x. ground arith;
}
demote-Keeps false now old doc e k s = record {
  same_id = e;
  date = λ t q. k ∙ q;
  dated = λ h x. rw k (h (rw (← s) x));
}

pub resulting_row-Keeps :
    (db : Database) (user : UserClaims) (now : Time) (body : DocumentEdit) (doc : Document)
    → Keeps doc (resulting_row db user now body doc)
unfolding resulting_row edited_row
resulting_row-Keeps db user now body doc =
    demote-Keeps (is_demoted db user body doc) now doc (edited_row body doc) refl refl refl

-- Every row of the earlier table has its later state in the later one.
abbrev pub RowsKept : List Document → List Document → Type 0
RowsKept rows later =
    (id : Uuid) (row : Document)
    → find_document id rows ≡ some row
    → (new : Document) × (find_document id later ≡ some new) × Keeps row new

pub RowsKept-refl : (rows : List Document) → RowsKept rows rows
RowsKept-refl rows id row e = (row, e, Keeps-refl row)

pub RowsKept-trans : (a b d : List Document) → RowsKept a b → RowsKept b d → RowsKept a d
RowsKept-trans a b d f g id row e =
    let (mid, found, k) = f id row e in
    let (last, there, l) = g id mid found in (last, there, Keeps-trans row mid last k l)

pub put_document-RowsKept :
    (rows : List Document) (old doc : Document)
    → find_document doc.id rows ≡ some old
    → Keeps old doc
    → RowsKept rows (put_document doc rows)
put_document-RowsKept rows old doc e k id row there = elim (Bool-cases (id == doc.id)) [
  | inl hit ↦
      let own = (==_iff id doc.id).0 hit in
      let same : old ≡ row = found (sym e ∙ ap (λ n. find_document n rows) (sym own) ∙ there) in
      (
        doc,
        ap (λ n. find_document n (put_document doc rows)) own
            ∙ find_document-put_document doc old rows e,
        subst (λ r. Keeps r doc) same k,
      )
  | inr miss ↦ (
    row,
    find_document-put_other doc id rows (λ q. absurd (differs miss q)) ∙ there,
    Keeps-refl row,
  )
]
  where
    found : Path (Option Document) (some old) (some row) → old ≡ row
    found q = cc

    differs : (id == doc.id) ≡ false → id ≡ doc.id → ⊥
    differs m q = ground (arith, ==_iff id doc.id)
