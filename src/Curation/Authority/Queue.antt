-- ===== src/Curation/Authority/Queue.antt =====
-- The queue lists what the decision routes accept.
use nexus_rag.Base.{
  ◌&&◌, ◌≡◌, ◌↔◌, some, List, arith, In, contains-In, In-contains, filter-In, In-filter, ok,
}
use nexus_rag.Document.{Document, pending_review, status_eq, status_eq→eq}
use nexus_rag.Access.Claims.{UserClaims, clearance, curatable_orgs}
use nexus_rag.Access.Levels.{allowed_classifications}
use nexus_rag.Database.{Database, find_document}
use nexus_rag.Curation.Authority.{
  visible_to_curator, listed, in_authority, list_queue, load_pending,
}
use nexus_rag.Curation.Authority.Standing.{HasStanding, load_pending_iff}

-- No id stands in two rows (the primary key): a row is the one that its id finds.
abbrev pub IsKeyed : List Document → Type 0
IsKeyed rows = (doc : Document) → In doc rows → find_document doc.id rows ≡ some doc

queue_standing :
    (db : Database) (user : UserClaims) (doc : Document)
    → In doc (list_queue db user)
    → In doc db.documents
      × (doc.status ≡ pending_review)
      × HasStanding user doc db.classification_levels
unfolding list_queue visible_to_curator
queue_standing db user doc i =
    let (j, shown) = filter-In (listed user) doc _ i in
    let (row, narrowed) =
      filter-In
        (λ d.
          status_eq d.status pending_review
          && in_authority user (allowed_classifications db.classification_levels (clearance user))
              d)
        doc db.documents j in
    let pending = status_eq→eq doc.status pending_review (ground arith) in
    (
      row,
      pending,
      record {
        of_org = contains-In doc.owner_org (curatable_orgs user) (ground arith);
        cleared =
            contains-In doc.classification
              (allowed_classifications db.classification_levels (clearance user)) (ground arith);
        released = ground arith;
        scoped = λ q. ground arith;
      },
    )

standing_queue :
    (db : Database) (user : UserClaims) (doc : Document)
    → In doc db.documents
    → doc.status ≡ pending_review
    → HasStanding user doc db.classification_levels
    → In doc (list_queue db user)
unfolding list_queue visible_to_curator
standing_queue db user doc row pending h =
    In-filter (listed user) doc _
      (In-filter _ doc db.documents row (
        rw (
          pending,
          In-contains doc.owner_org (curatable_orgs user) h.of_org,
          In-contains doc.classification
              (allowed_classifications db.classification_levels (clearance user)) h.cleared,
        )))
      (rw (pending, h.released, h.scoped pending))

-- The queue shows a curator exactly the documents that the decision routes would load for that
-- curator, if no two rows have one id.
pub list_queue-load_pending :
    (db : Database) (user : UserClaims) (doc : Document)
    → IsKeyed db.documents
    → In doc (list_queue db user) ↔ (In doc db.documents × (load_pending db doc.id user ≡ ok doc))
list_queue-load_pending db user doc keyed = (
  λ i.
      let (row, pending, h) = queue_standing db user doc i in
      (row, (load_pending_iff db doc.id user doc).1 (keyed doc row, pending, h)),
  λ (row, loads).
      let (_, pending, h) = (load_pending_iff db doc.id user doc).0 loads in
      standing_queue db user doc row pending h,
)
