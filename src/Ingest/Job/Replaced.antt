-- ===== src/Ingest/Job/Replaced.antt =====
-- After a job that succeeds, the document's new points are in its collection, and nothing else has
-- changed there but points with their ids.
use nexus_rag.Base.{
  ℕ, arith, ◌<◌, String, ◌≡◌, ◌≢◌, refl, sym, ◌∙◌, ap, subst, ◌↔◌, ◌⊎◌, true, false, some, List, [],
  ◌∷◌, All, In, length, is_empty, is_truthy,
}
use nexus_rag.Document.{Document, pending_review}
use nexus_rag.Vector.Names.{classification_collection_name}
use nexus_rag.Vector.Exec.{Returns, >>=-Returns, Returns-state}
use nexus_rag.Vector.Client.{Client, ClientLaws, Point, Coherent}
use nexus_rag.Vector.Store.{ensure_collection}
use nexus_rag.Vector.Store.Move.{ensure_collection-same}
use nexus_rag.Ingest.Chunking.{Chunk}
use nexus_rag.Vector.Upsert.{upsert_chunks}
use nexus_rag.Vector.Upsert.Written.{Under, upsert_chunks-one, upsert_chunks-truthy}
use nexus_rag.Database.{find_document}
use nexus_rag.Curation.World.{World}
use nexus_rag.Ingest.Prepare.{Worker, Prepared}
use nexus_rag.Ingest.Prepare.Points.{
  IsUnderReview, document_points-IsUnderReview, IsMade, document_points-IsMade,
}
use nexus_rag.Ingest.Prepare.Chunked.{
  IsChunked, IsSourced, prepare-IsChunked, IsChunked-IsNumbered, IsPlaced, document_points-IsPlaced,
  IsPlaced-Coherent,
}
use nexus_rag.Ingest.Writes.{Timeline, first_size}
use nexus_rag.Ingest.Job.{store_points, job}
use nexus_rag.Ingest.Job.Stored.{InReview, job-IsEmbedded}

classified :
    (doc : Document) (ps : List Point)
    → All (IsUnderReview doc) ps
    → All (Under doc.classification) ps
classified doc [] h = tt
classified doc (p ∷ ps) h = (h.0.classification, classified doc ps h.1)

module _ (c : Client) (laws : ClientLaws c) where
  open c use {State, points}

  -- What the store has after `ps` were written to the collection `name`.
  pub record HasWritten (name : String) (ps : List Point) (s u : State) : Type 0 where
    pub here :
        (p : Point)
        → In p (points u name)
          ↔ (In p ps ⊎ (In p (points s name) × ((q : Point) → In q ps → p.id ≢ q.id)))
    pub elsewhere : (n : String) → name ≢ n → points u n ≡ points s n

  upsert-HasWritten :
      (s u : State) (name : String) (ps : List Point)
      → Coherent ps
      → Returns (c.upsert name ps) s tt u
      → HasWritten name ps s u
  upsert-HasWritten s u name ps own h = record {
    here = laws.upsert_ok s u name ps h own;
    elsewhere = λ n ne.
        ap (λ v. points v n) (Returns-state (c.upsert name ps) s h)
        ∙ laws.upsert_frame s name ps n ne;
  }

  store_points-HasWritten :
      (doc : Document) (size : ℕ) (ps : List Point) (s u : State)
      → is_empty ps ≡ false
      → All (IsUnderReview doc) ps
      → Coherent ps
      → Returns (store_points c doc.classification size ps) s tt u
      → HasWritten (classification_collection_name doc.classification) ps s u
  unfolding store_points
  store_points-HasWritten doc size [] s u full tags own h = cc
  store_points-HasWritten doc size (p ∷ ps) s u full tags own h =
      let (name, ready, made, wrote) =
        >>=-Returns (ensure_collection c size doc.classification) (λ _. upsert_chunks c (p ∷ ps)) s
          h in
      let (_, same) = ensure_collection-same c laws s ready size doc.classification name made in
      let truthy =
        subst (λ k. is_truthy k ≡ true) tags.0.classification
          (upsert_chunks-truthy c p ps ready u wrote) in
      let one =
        upsert_chunks-one c doc.classification p ps ready truthy (classified doc (p ∷ ps) tags) in
      let done =
        upsert-HasWritten ready u (classification_collection_name doc.classification) (p ∷ ps) own
          (sym one ∙ wrote) in
      record {
        here = λ q.
            subst
              (λ l.
                In q (points u (classification_collection_name doc.classification))
                ↔ (In q (p ∷ ps) ⊎ (In q l × ((r : Point) → In r (p ∷ ps) → q.id ≢ r.id))))
              (same (classification_collection_name doc.classification)) (done.here q);
        elsewhere = λ n ne. done.elsewhere n ne ∙ same n;
      }

  -- The points of the document after a job, and its row.
  pub record IsReplaced (w : Worker) (doc : Document) (s s' : World State) : Type 0 where
    pub prepared : Prepared
    pub sourced : IsSourced w doc prepared
    pub chunked : IsChunked w prepared
    pub made : List Point
    pub pointed : IsMade w doc prepared.chunks prepared.dense_vectors made
    pub numbered : IsPlaced w doc 0 made
    pub under_review : All (IsUnderReview doc) made
    pub stored :
        HasWritten (classification_collection_name doc.classification) made s.chunks s'.chunks
    pub row : Document
    pub found : find_document doc.id s'.db.documents ≡ some row
    pub counted : row.chunk_count ≡ length made
    pub waiting : row.status ≡ pending_review

  -- Let the overlap of the windows be smaller than their target, and let chunks of different numbers
  -- have different ids. A job that leaves the document's row in review has then read the original
  -- under the row's key, which has the digest that the row recorded if it recorded one. It has cut
  -- chunks from the sections parsed from it, and from the captions of its images where these are
  -- wanted, and has embedded their texts. In the collection of the classification there is now one
  -- point for each chunk, in order and numbered from zero: with the chunk's text and dense vector,
  -- under review, and with the document's tags. Points there keep their place unless a new one has
  -- their id, no other collection changes, and the row counts the new points.
  pub job-IsReplaced :
      (w : Worker) (t : Timeline) (doc row : Document) (s : World State)
      → ((i j : ℕ) → w.chunk_id doc.id i ≡ w.chunk_id doc.id j → i ≡ j)
      → w.sizes.overlap < w.sizes.target_words
      → find_document doc.id s.db.documents ≡ some row
      → InReview c doc.id (job c w t doc s)
      → IsReplaced w doc s (job c w t doc s).1
  job-IsReplaced w t doc row s distinct small here h =
      let e = job-IsEmbedded c w t doc row s here h in
      let (k, source) = prepare-IsChunked w doc e.pending e.made e.prepared in
      let (placed, size) =
        document_points-IsPlaced w t.embedded_at doc 0 e.made.chunks e.made.dense_vectors
          e.made.sparse_vectors e.points (IsChunked-IsNumbered w e.made small k) e.pointed in
      let tags =
        document_points-IsUnderReview w t.embedded_at doc e.made.chunks e.made.dense_vectors
          e.made.sparse_vectors e.points e.pointed in
      record {
        prepared = e.made;
        sourced = source;
        chunked = k;
        made = e.points;
        pointed =
            document_points-IsMade w t.embedded_at doc e.made.chunks e.made.dense_vectors
              e.made.sparse_vectors e.points e.pointed;
        numbered = placed;
        under_review = tags;
        stored =
            store_points-HasWritten doc (first_size e.made.dense_vectors) e.points s.chunks
              (job c w t doc s).1.chunks (nonempty e.points e.made.chunks size k.some_text) tags
              (IsPlaced-Coherent w doc 0 e.points distinct placed) e.written;
        row = _;
        found = e.committed;
        counted = sym size;
        waiting = refl;
      }
    where
      nonempty :
          (ps : List Point) (ks : List Chunk)
          → length ps ≡ length ks
          → is_empty ks ≡ false
          → is_empty ps ≡ false
      nonempty [] [] e k = k
      nonempty [] (x ∷ ks) e k = absurd (omega arith)
      nonempty (p ∷ ps) ks e k = refl
