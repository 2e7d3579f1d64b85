-- ===== src/Ingest/Prepare/Chunked.antt =====
-- What a preparation that succeeded made: numbered chunks, and a point with an id of its own for
-- each.
use nexus_rag.Base.{
  ℕ, suc, ◌≤◌, ◌<◌, String, ◌≡◌, refl, sym, ◌∙◌, ap, subst, arith, true, false, str_eq, str_eq_iff,
  inl, inr, Option, none, some, List, [], ◌∷◌, ◌++◌, In, length, map, is_empty, Bool-cases, Result,
  ok, err, ◌>>=◌, >>=-ok,
}
use nexus_rag.Document.{Time, Document}
use nexus_rag.Vector.Client.{Point, Coherent}
use nexus_rag.Database.{AuditLogEntry}
use nexus_rag.Ingest.Chunking.{Section, Chunk, chunk_sections}
use nexus_rag.Ingest.Chunking.Numbered.{IsNumbered, chunk_sections-IsNumbered}
use nexus_rag.Ingest.Prepare.{
  Raised, Worker, Prepared, caption, vectors_of, embed_chunks, chunk_document, parsed, ended,
  embed_document, prepare, chunk_point, check_digest, fetch_original, content_integrity_error,
  document_points,
}
use nexus_rag.Ingest.Prepare.Points.{add_point-ok}

-- The chunks are those of the sections, there are some, and they were embedded.
pub record IsChunked (w : Worker) (p : Prepared) : Type 0 where
  pub cut : chunk_sections w.sizes p.sections ≡ some p.chunks
  pub some_text : is_empty p.chunks ≡ false
  pub embedded : w.embed_texts (map (λ (k : Chunk). k.text) p.chunks) ≡ ok p.dense_vectors

-- The sections are those of the original, with the captions of its images if they are wanted, and the
-- original has the digest that the row recorded, if it recorded one.
pub record IsSourced (w : Worker) (doc : Document) (p : Prepared) : Type 0 where
  pub key : String
  pub named : doc.original_object_key ≡ some key
  pub contents : String
  pub got : w.get key ≡ ok contents
  pub intact : (digest : String) → doc.content_sha256 ≡ some digest → w.sha256 contents ≡ digest
  pub text : List Section
  pub read : w.parse_document doc.filename contents ≡ ok text
  pub images : List Section
  pub captioned : w.captioning_enabled ≡ true → w.caption_images doc.filename contents ≡ ok images
  pub uncaptioned : w.captioning_enabled ≡ false → images ≡ []
  pub whole : p.sections ≡ text ++ images

ended-ok : (r : Option (List Chunk)) (ks : List Chunk) → ended r ≡ ok ks → r ≡ some ks
ended-ok none ks e = cc
ended-ok (some x) ks e = cc

vectors_of-IsChunked :
    (w : Worker) (sections : List Section) (ks : List Chunk) (dense : List (List ℕ)) (p : Prepared)
    → vectors_of w sections ks dense ≡ ok p
    → (p.sections ≡ sections) × (p.chunks ≡ ks) × (p.dense_vectors ≡ dense)
vectors_of-IsChunked w sections ks dense p e =
    let (sparse, _, q) =
      >>=-ok (w.embed_sparse (map (λ (k : Chunk). k.text) ks)) (λ sparse. made sparse) p e in
    (from sparse q)
  where
    made : List (List ℕ) → Result Raised Prepared
    made sparse = ok (record {
      sections = sections;
      chunks = ks;
      dense_vectors = dense;
      sparse_vectors = sparse;
    })

    from :
        (sparse : List (List ℕ))
        → made sparse ≡ ok p
        → (p.sections ≡ sections) × (p.chunks ≡ ks) × (p.dense_vectors ≡ dense)
    from sparse q = (cc, cc, cc)

chunk_document-IsChunked :
    (w : Worker) (sections : List Section) (p : Prepared)
    → chunk_document w sections ≡ ok p
    → IsChunked w p × (p.sections ≡ sections)
unfolding chunk_document
chunk_document-IsChunked w sections p e =
    let (_, _, q) = >>=-ok w.chunking_wait (λ _. rest) p e in
    let (ks, cut, r) =
      >>=-ok (ended (chunk_sections w.sizes sections)) (embed_chunks w sections) p q in
    chunked ks (ended-ok (chunk_sections w.sizes sections) ks cut) r
  where
    rest : Result Raised Prepared
    rest = ended (chunk_sections w.sizes sections) >>= embed_chunks w sections

    lost : {x : Raised} → Path (Result Raised Prepared) (err x) (ok p) → ⊥
    lost q = cc

    chunked :
        (ks : List Chunk)
        → chunk_sections w.sizes sections ≡ some ks
        → embed_chunks w sections ks ≡ ok p
        → IsChunked w p × (p.sections ≡ sections)
    chunked ks cut r = elim (Bool-cases (is_empty ks)) [
      | inl bare ↦ absurd (lost (rw bare at r))
      | inr full ↦
          let (dense, vectors, v) =
            >>=-ok (w.embed_texts (map (λ (k : Chunk). k.text) ks)) (vectors_of w sections ks) p
              (rw full at r) in
          let (same, chunks, d) = vectors_of-IsChunked w sections ks dense p v in
          (
            record {
              cut =
                  ap (chunk_sections w.sizes) same
                  ∙ cut
                  ∙ ap (λ (l : List Chunk). some l) (sym chunks);
              some_text = ap (λ (l : List Chunk). is_empty l) chunks ∙ full;
              embedded =
                  ap (λ (l : List Chunk). w.embed_texts (map (λ (k : Chunk). k.text) l)) chunks
                  ∙ vectors
                  ∙ ap (λ (l : List (List ℕ)). ok l) (sym d);
            },
            same,
          )
    ]

check_digest-intact :
    (w : Worker) (contents : String) (o : Option String)
    → check_digest w contents o ≡ ok tt
    → (digest : String) → o ≡ some digest
    → w.sha256 contents ≡ digest
check_digest-intact w contents none e digest q = cc
check_digest-intact w contents (some d) e digest q =
    elim (Bool-cases (str_eq (w.sha256 contents) d)) [
      | inl same ↦ (str_eq_iff (w.sha256 contents) d).0 same ∙ is_same q
      | inr other ↦ absurd (raised (rw other at e))
    ]
  where
    is_same : Path (Option String) (some d) (some digest) → d ≡ digest
    is_same k = cc

    raised :
        Path
          (Result Raised (Unit {0}))
          (err (content_integrity_error d (w.sha256 contents)))
          (ok tt)
        → ⊥
    raised k = cc

-- An original that was fetched is the one under the key, and intact.
fetch_original-ok :
    (w : Worker) (doc : Document) (o : Option String) (contents : String)
    → fetch_original w doc o ≡ ok contents
    → (key : String) × (o ≡ some key)
      × (w.get key ≡ ok contents)
      × ((digest : String) → doc.content_sha256 ≡ some digest → w.sha256 contents ≡ digest)
fetch_original-ok w doc none contents e = cc
fetch_original-ok w doc (some key) contents e =
    let (first, got, q) = >>=-ok (w.get key) checked contents e in
    let (_, intact, r) = >>=-ok (check_digest w first doc.content_sha256) (kept first) contents q in
    let same = is_same first r in
    (
      key,
      refl,
      got ∙ ap (λ (x : String). ok x) same,
      λ digest h.
          ap w.sha256 (sym same) ∙ check_digest-intact w first doc.content_sha256 intact digest h,
    )
  where
    kept : String → Unit {0} → Result Raised String
    kept x _ = ok x

    checked : String → Result Raised String
    checked x = check_digest w x doc.content_sha256 >>= kept x

    is_same : (x : String) → Path (Result Raised String) (ok x) (ok contents) → x ≡ contents
    is_same x k = cc

parsed-ok :
    (w : Worker) (doc : Document) (r : Result Raised (String × List Section))
    (pending : List AuditLogEntry) (p : Prepared)
    → parsed w doc r ≡ (pending, ok p)
    → (contents : String) × (sections : List Section) × (r ≡ ok (contents, sections))
      × (embed_document w doc contents sections ≡ ok p)
parsed-ok w doc (err e) pending p h = absurd (lost h)
  where
    lost : Path (List AuditLogEntry × Result Raised Prepared) ([], err e) (pending, ok p) → ⊥
    lost q = cc
parsed-ok w doc (ok (contents, sections)) pending p h = (contents, sections, refl, ap (λ x. x.1) h)

pub prepare-IsChunked :
    (w : Worker) (doc : Document) (pending : List AuditLogEntry) (p : Prepared)
    → prepare w doc ≡ (pending, ok p)
    → IsChunked w p × IsSourced w doc p
unfolding prepare embed_document
prepare-IsChunked w doc pending p h =
    let (contents, sections, e, made) = parsed-ok w doc _ pending p h in
    let (first, fetched, q) =
      >>=-ok (fetch_original w doc doc.original_object_key) text_of (contents, sections) e in
    let (text, read, r) =
      >>=-ok (w.parse_document doc.filename first) (paired first) (contents, sections) q in
    let (same, list) = parts first text r in
    let (key, named, got, intact) = fetch_original-ok w doc doc.original_object_key first fetched in
    let (images, captions, x) =
      >>=-ok (caption w doc contents) (λ l. chunk_document w (sections ++ l)) p made in
    let (chunked, whole) = chunk_document-IsChunked w (sections ++ images) p x in
    (
      chunked,
      record {
        key = key;
        named = named;
        contents = first;
        got = got;
        intact = intact;
        text = text;
        read = read;
        images = images;
        captioned = λ on. ap (λ n. w.caption_images doc.filename n) same ∙ rw on at captions;
        uncaptioned = λ off. bare images (rw off at captions);
        whole = whole ∙ ap (λ (l : List Section). l ++ images) (sym list);
      },
    )
  where
    paired : String → List Section → Result Raised (String × List Section)
    paired x l = ok (x, l)

    text_of : String → Result Raised (String × List Section)
    text_of x = w.parse_document doc.filename x >>= paired x

    parts :
        {b : String} {l : List Section} (x : String) (y : List Section)
        → Path (Result Raised (String × List Section)) (ok (x, y)) (ok (b, l))
        → (x ≡ b) × (y ≡ l)
    parts x y k = (cc, cc)

    bare : (l : List Section) → Path (Result Raised (List Section)) (ok []) (ok l) → l ≡ []
    bare l k = cc

-- With an overlap smaller than the target, the chunks are numbered from zero.
pub IsChunked-IsNumbered :
    (w : Worker) (p : Prepared)
    → w.sizes.overlap < w.sizes.target_words
    → IsChunked w p
    → IsNumbered 0 p.chunks
IsChunked-IsNumbered w p small h =
    let (ks, cut, numbered) = chunk_sections-IsNumbered w.sizes p.sections small in
    subst (λ l. IsNumbered 0 l) (same ks (sym cut ∙ h.cut)) numbered
  where
    same : (ks : List Chunk) → some ks ≡ some p.chunks → ks ≡ p.chunks
    same ks e = cc

module _ (w : Worker) (doc : Document) where
  -- The points have the numbers from `n` on, and the ids that these give.
  abbrev pub IsPlaced : ℕ → List Point → Type 0
  IsPlaced n [] = Unit {0}
  IsPlaced n (p ∷ ps) =
      (p.id ≡ w.chunk_id doc.id n) × (p.payload.chunk_index ≡ n) × IsPlaced (suc n) ps

  IsPlaced-In :
      (n : ℕ) (ps : List Point) (p : Point)
      → IsPlaced n ps
      → In p ps
      → (i : ℕ) × (n ≤ i) × (p.id ≡ w.chunk_id doc.id i)
  IsPlaced-In n [] p h i = absurd i
  IsPlaced-In n (q ∷ ps) p h (inl e) = (n, omega arith, ap (λ (x : Point). x.id) e ∙ h.0)
  IsPlaced-In n (q ∷ ps) p h (inr i) =
      let (k, le, e) = IsPlaced-In (suc n) ps p h.2 i in (k, omega arith, e)

  -- Ids that differ for different numbers keep the points apart.
  pub IsPlaced-Coherent :
      (n : ℕ) (ps : List Point)
      → ((i j : ℕ) → w.chunk_id doc.id i ≡ w.chunk_id doc.id j → i ≡ j)
      → IsPlaced n ps
      → Coherent ps
  IsPlaced-Coherent n [] inj h p q i j e = absurd i
  IsPlaced-Coherent n (x ∷ ps) inj h p q (inl i) (inl j) e = i ∙ sym j
  IsPlaced-Coherent n (x ∷ ps) inj h p q (inl i) (inr j) e =
      let (k, le, same) = IsPlaced-In (suc n) ps q h.2 j in
      absurd (apart k le (sym h.0 ∙ sym (ap (λ (y : Point). y.id) i) ∙ e ∙ same))
    where
      apart : (k : ℕ) → suc n ≤ k → w.chunk_id doc.id n ≡ w.chunk_id doc.id k → ⊥
      apart k le c = omega (arith, inj n k c)
  IsPlaced-Coherent n (x ∷ ps) inj h p q (inr i) (inl j) e =
      let (k, le, same) = IsPlaced-In (suc n) ps p h.2 i in
      absurd (apart k le (sym h.0 ∙ sym (ap (λ (y : Point). y.id) j) ∙ sym e ∙ same))
    where
      apart : (k : ℕ) → suc n ≤ k → w.chunk_id doc.id n ≡ w.chunk_id doc.id k → ⊥
      apart k le c = omega (arith, inj n k c)
  IsPlaced-Coherent n (x ∷ ps) inj h p q (inr i) (inr j) e =
      IsPlaced-Coherent (suc n) ps inj h.2 p q i j e

module _ (w : Worker) (now : Time) (doc : Document) where
  pub document_points-IsPlaced :
      (n : ℕ) (ks : List Chunk) (ds ss : List (List ℕ)) (ps : List Point)
      → IsNumbered n ks
      → document_points w now doc ks ds ss ≡ ok ps
      → IsPlaced w doc n ps × (length ps ≡ length ks)
  unfolding document_points chunk_point
  document_points-IsPlaced n [] [] [] [] h e = (tt, refl)
  document_points-IsPlaced n [] [] [] (p ∷ ps) h e = cc
  document_points-IsPlaced n (k ∷ ks) (d ∷ ds) (s ∷ ss) ps h e =
      let (rest, tail, whole) = add_point-ok _ (document_points w now doc ks ds ss) ps e in
      let (placed, size) = document_points-IsPlaced (suc n) ks ds ss rest h.1 tail in
      rw whole ((ap (w.chunk_id doc.id) h.0, h.0, placed), omega arith)
  document_points-IsPlaced n [] [] (s ∷ ss) ps h e = cc
  document_points-IsPlaced n [] (d ∷ ds) ss ps h e = cc
  document_points-IsPlaced n (k ∷ ks) [] ss ps h e = cc
  document_points-IsPlaced n (k ∷ ks) (d ∷ ds) [] ps h e = cc
