-- ===== src/Retrieval/Search/Shown.antt =====
-- What the results of a query show.
use nexus_rag.Base.{
  ℕ, suc, ◌≤◌, ◌≡◌, refl, sym, ap, subst, inl, inr, String, Bool, true, false, Option, none, some,
  List, [], ◌∷◌, map, length, All, All-In, In, map-In, Result, ok, err,
}
use nexus_rag.Access.Claims.{UserClaims}
use nexus_rag.Access.Payload.{passes}
use nexus_rag.Access.Filter.{build_access_filter}
use nexus_rag.Access.Filter.Visible.{IsVisible, build_access_filter_iff}
use nexus_rag.Vector.Exec.{StoreError, unexpected_response, value_error, runtime_error}
use nexus_rag.Vector.Client.{Client, Point}
use nexus_rag.Retrieval.Fusion.{Hit}
use nexus_rag.Retrieval.Overlaps.{Candidate}
use nexus_rag.Retrieval.Rerank.{Note, rerank, chosen_boosts}
use nexus_rag.Retrieval.Rerank.Ranked.{IsReranked, rerank-IsReranked}
use nexus_rag.Retrieval.Delimit.{codes, delimit_untrusted_text}
use nexus_rag.Retrieval.Reply.{
  Settings, Meeting, QueryEntry, query_made, Item, Answer, too_long, missing_role, model_mismatch,
  unavailable, no_match, below_floor, rejected_token, results, Reply, answered, candidate_of,
  item_of, entry_of, audit, reranked_reply, found_reply,
}
use nexus_rag.Retrieval.Search.Found.{IsStored}

-- An item shows a stored chunk that the caller may see, with its text delimited.
pub record IsShown (c : Client) (s : c.State) (claims : UserClaims) (allowed : List String)
    (i : Item) : Type 0 where
  pub collection : String
  pub point : Point
  pub stored : In point (c.points s collection)
  pub same_id : point.id ≡ i.id
  pub same_payload : point.payload ≡ i.payload
  pub visible : IsVisible claims allowed i.payload
  pub delimited : i.text ≡ delimit_untrusted_text (codes i.payload.text)

-- What the results of a reply are; other replies show no chunk.
abbrev pub Shows :
    (c : Client) → c.State → UserClaims → List String → ℕ → Reply × List QueryEntry → Type 0
Shows c s claims allowed top_k (answered (results items note), log) =
    (length items ≤ top_k) × All (IsShown c s claims allowed) items
Shows c s claims allowed top_k _ = Unit {0}

shown :
    (c : Client) (s : c.State) (claims : UserClaims) (allowed : List String) (h : Hit)
    → IsStored c s (build_access_filter claims allowed) h
    → IsShown c s claims allowed (item_of (candidate_of h))
shown c s claims allowed h k = record {
  collection = k.collection;
  point = k.point;
  stored = k.stored;
  same_id = k.same_id;
  same_payload = k.same_payload;
  visible =
      (build_access_filter_iff claims allowed h.payload).0
        (subst (λ p. passes (build_access_filter claims allowed) p ≡ true) k.same_payload k.passed);
  delimited = refl;
}

module _ (c : Client) (s : c.State) (m : Meeting) (claims : UserClaims) (allowed : List String)
    (query : String) (top_k : ℕ) (log : List QueryEntry) where
  pub audited-Shows :
      (commits : Bool) (entry : QueryEntry) (reply : Answer)
      → Shows c s claims allowed top_k (answered reply, log)
      → Shows c s claims allowed top_k (audit commits entry reply log)
  audited-Shows true entry too_long h = tt
  audited-Shows true entry missing_role h = tt
  audited-Shows true entry model_mismatch h = tt
  audited-Shows true entry unavailable h = tt
  audited-Shows true entry no_match h = tt
  audited-Shows true entry below_floor h = tt
  audited-Shows true entry (rejected_token e) h = tt
  audited-Shows true entry (results items note) h = h
  audited-Shows false entry reply h = tt

  items-Shown :
      (hits : List Hit) (kept : List Candidate)
      → All (IsStored c s (build_access_filter claims allowed)) hits
      → ((x : Candidate) → In x kept → In x (map candidate_of hits))
      → All (IsShown c s claims allowed) (map item_of kept)
  items-Shown hits [] stored only = tt
  items-Shown hits (k ∷ kept) stored only =
      let (h, i, e) = map-In candidate_of k hits (only k (inl refl)) in
      (
        subst (λ x. IsShown c s claims allowed (item_of x)) (sym e)
            (shown c s claims allowed h
              (All-In (IsStored c s (build_access_filter claims allowed)) hits stored h i)),
        items-Shown hits kept stored (λ x j. only x (inr j)),
      )

  length-items : (ks : List Candidate) → length (map item_of ks) ≡ length ks
  length-items [] = refl
  length-items (k ∷ ks) = ap suc (length-items ks)

  reranked-Shows :
      (z : Settings) (hits : List Hit) (r : Option (List Candidate × Note))
      → All (IsStored c s (build_access_filter claims allowed)) hits
      → ((kept : List Candidate) (note : Note)
          → r ≡ some (kept, note)
          → IsReranked z.rerank
              (chosen_boosts z.rerank m.boosts)
              (map candidate_of hits)
              (m.reranker (map candidate_of hits))
              top_k
              kept
              note)
      → Shows c s claims allowed top_k (reranked_reply m claims query r log)
  reranked-Shows z hits none stored f = tt
  reranked-Shows z hits (some ([], note)) stored f =
      audited-Shows m.audit_commits (entry_of claims query_made query []) below_floor tt
  reranked-Shows z hits (some (k ∷ kept, note)) stored f =
      let r = f (k ∷ kept) note refl in
      audited-Shows m.audit_commits _ (results (map item_of (k ∷ kept)) note) (
        subst (λ n. n ≤ top_k) (sym (length-items (k ∷ kept))) r.bounded,
        items-Shown hits (k ∷ kept) stored r.only,
      )

  pub found-Shows :
      (z : Settings) (hits : Result StoreError (List Hit))
      → ((hs : List Hit)
          → hits ≡ ok hs
          → All (IsStored c s (build_access_filter claims allowed)) hs)
      → Shows c s claims allowed top_k (found_reply z m claims query top_k hits log)
  found-Shows z (err unexpected_response) f =
      audited-Shows m.audit_commits (entry_of claims query_made query []) unavailable tt
  found-Shows z (err value_error) f = tt
  found-Shows z (err runtime_error) f = tt
  found-Shows z (ok []) f =
      audited-Shows m.audit_commits (entry_of claims query_made query []) no_match tt
  found-Shows z (ok (h ∷ hits)) f =
      let candidates = map candidate_of (h ∷ hits) in
      reranked-Shows z (h ∷ hits)
        (rerank z.rerank m.boosts (m.reranker candidates) candidates top_k) (f (h ∷ hits) refl)
        (λ kept note e.
          rerank-IsReranked z.rerank m.boosts (m.reranker candidates) candidates top_k kept note e)
