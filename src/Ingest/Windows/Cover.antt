-- ===== src/Ingest/Windows/Cover.antt =====
-- The sliding window ends, and its windows put together are the words.
use nexus_rag.Base.{
  ℕ, zero, suc, ◌+◌, ◌-◌, ◌≤◌, ◌<◌, min, ◌≡◌, ◌⊎◌, inl, inr, refl, sym, ◌∙◌, ap, arith, false, none,
  some, List, [], ◌∷◌, ◌++◌, All, length, length-take, take-append-drop, take, drop, ◌==◌, ==_iff,
  Bool-cases,
}
use nexus_rag.Ingest.Windows.{slice, windows}

module _ {A : Type 0} where
  length-drop : (n : ℕ) (xs : List A) → length (drop n xs) ≡ length xs - n
  length-drop zero xs = omega arith
  length-drop (suc n) [] = omega arith
  length-drop (suc n) (x ∷ xs) = omega (arith, length-drop n xs)

  drop-drop : (m n k : ℕ) (xs : List A) → k ≡ n + m → drop m (drop n xs) ≡ drop k xs
  drop-drop m zero k xs e = ap (λ j. drop j xs) (omega (arith, e))
  drop-drop m (suc n) zero xs e = absurd (omega (arith, e))
  drop-drop zero (suc n) (suc k) [] e = refl
  drop-drop (suc m) (suc n) (suc k) [] e = refl
  drop-drop m (suc n) (suc k) (x ∷ xs) e = drop-drop m n k xs (omega (arith, e))

  drop-append : (n : ℕ) (xs ys : List A) → n ≤ length xs → drop n (xs ++ ys) ≡ drop n xs ++ ys
  drop-append zero xs ys h = refl
  drop-append (suc n) [] ys h = absurd (omega (arith, h))
  drop-append (suc n) (x ∷ xs) ys h = drop-append n xs ys (omega (arith, h))

  take_all : (n : ℕ) (xs : List A) → length xs ≤ n → take n xs ≡ xs
  take_all zero [] h = refl
  take_all zero (x ∷ xs) h = absurd (omega (arith, h))
  take_all (suc n) [] h = refl
  take_all (suc n) (x ∷ xs) h = ap (λ (l : List A). x ∷ l) (take_all n xs (omega (arith, h)))

  append_nil : (xs : List A) → xs ++ [] ≡ xs
  append_nil [] = refl
  append_nil (x ∷ xs) = ap (λ (l : List A). x ∷ l) (append_nil xs)

  -- the windows after the first, each without what it shares with the one before
  abbrev tails : ℕ → List (List A) → List A
  tails overlap [] = []
  tails overlap (w ∷ ws) = drop overlap w ++ tails overlap ws

  -- The windows from a place on: none is longer than the target, the first one holds what it is to
  -- share, and put together they are the words from there.
  pub record IsCover (target overlap start : ℕ) (words : List A) (ws : List (List A)) : Type 0 where
    pub first : List A
    pub later : List (List A)
    pub parts : ws ≡ first ∷ later
    pub bounded : All (λ w. length w ≤ target) ws
    pub shares : overlap ≤ length first ⊎ (start ≡ 0)
    pub whole : first ++ tails overlap later ≡ drop start words

  last-IsCover :
      (target overlap start : ℕ) (words : List A)
      → (overlap + start ≤ length words) ⊎ (start ≡ 0)
      → start ≤ length words
      → length words ≤ start + target
      → IsCover target overlap start words (slice start (length words) words ∷ [])
  last-IsCover target overlap start words room inside near = record {
    first = slice start (length words) words;
    later = [];
    parts = refl;
    bounded = (
      omega (
        arith,
        near,
        length-take (length words - start) (drop start words),
        length-drop start words,
      ),
      tt,
    );
    shares = elim room [
      | inl r ↦ inl (
          omega (
            arith,
            r,
            length-take (length words - start) (drop start words),
            length-drop start words,
          ))
      | inr z ↦ inr z
    ];
    whole =
        append_nil (slice start (length words) words)
        ∙ take_all (length words - start) (drop start words)
            (omega (arith, length-drop start words));
  }

  append_assoc : (xs ys zs : List A) → (xs ++ ys) ++ zs ≡ xs ++ (ys ++ zs)
  append_assoc [] ys zs = refl
  append_assoc (x ∷ xs) ys zs = ap (λ (l : List A). x ∷ l) (append_assoc xs ys zs)

  next-IsCover :
      (target overlap start later_start : ℕ) (words : List A) (ws : List (List A))
      → overlap < target
      → start + target < length words
      → later_start + overlap ≡ start + target
      → IsCover target overlap later_start words ws
      → IsCover target overlap start words (slice start (start + target) words ∷ ws)
  next-IsCover target overlap start later_start words ws small inside next h = record {
    first = slice start (start + target) words;
    later = ws;
    parts = refl;
    bounded = (omega (arith, length-take (start + target - start) (drop start words)), h.bounded);
    shares = inl (
        omega (
          arith,
          small,
          inside,
          length-take (start + target - start) (drop start words),
          length-drop start words,
        ));
    whole =
        ap (λ l. slice start (start + target) words ++ tails overlap l) h.parts
        ∙ ap (λ (l : List A). slice start (start + target) words ++ l)
            (sym (drop-append overlap h.first (tails overlap h.later) shared)
              ∙ ap (drop overlap) h.whole
              ∙ drop-drop overlap later_start (start + target) words (omega (arith, next))
              ∙ sym (drop-drop (start + target - start) start (start + target) words (omega arith)))
        ∙ take-append-drop (start + target - start) (drop start words);
  }
    where
      shared : overlap ≤ length h.first
      shared = elim h.shares [ inl r ↦ r | inr z ↦ absurd (omega (arith, z, next, small)) ]

  windows_step :
      (fuel target overlap start : ℕ) (words : List A) (ws : List (List A))
      → (min (start + target) (length words) == length words) ≡ false
      → min (start + target) (length words) ≡ start + target
      → windows fuel target overlap (start + target - overlap) words ≡ some ws
      → windows (suc fuel) target overlap start words
        ≡ some (slice start (start + target) words ∷ ws)
  unfolding windows
  windows_step fuel target overlap start words ws more e ends = rw (more, e, ends)

  windows-IsCover_from :
      (fuel target overlap start : ℕ) (words : List A)
      → overlap < target
      → (overlap + start ≤ length words) ⊎ (start ≡ 0)
      → start ≤ length words
      → length words < fuel + start
      → (ws : List (List A)) × (windows fuel target overlap start words ≡ some ws)
        × IsCover target overlap start words ws
  unfolding windows
  windows-IsCover_from zero target overlap start words small room inside enough =
      absurd (omega (arith, inside, enough))
  windows-IsCover_from (suc fuel) target overlap start words small room inside enough =
      elim (Bool-cases (min (start + target) (length words) == length words)) [
        | inl last ↦
            let e : min (start + target) (length words) ≡ length words =
              (==_iff (min (start + target) (length words)) (length words)).0 last in
            (
              slice start (length words) words ∷ [],
              rw (last, e),
              last-IsCover target overlap start words room inside (omega (arith, e)),
            )
        | inr more ↦
            let e : min (start + target) (length words) ≡ start + target =
              omega (arith, far more) in
            let (ws, ends, cover) =
              windows-IsCover_from fuel target overlap (start + target - overlap) words small
                (inl (omega (arith, far more, small))) (omega (arith, far more))
                (omega (arith, small, enough)) in
            (
              slice start (start + target) words ∷ ws,
              windows_step fuel target overlap start words ws more e ends,
              next-IsCover target overlap start (start + target - overlap) words ws small (far more)
                  (omega (arith, small)) cover,
            )
      ]
    where
      far :
          (min (start + target) (length words) == length words) ≡ false
          → start + target < length words
      far more = ground (arith, ==_iff (min (start + target) (length words)) (length words))

  -- With an overlap smaller than the target the loop ends within one round more than there are
  -- words. No window is longer than the target, and the windows, each but the first without the
  -- overlap, put together are the words.
  pub windows-IsCover :
      (target overlap : ℕ) (words : List A)
      → overlap < target
      → (ws : List (List A)) × (windows (suc (length words)) target overlap 0 words ≡ some ws)
        × IsCover target overlap 0 words ws
  windows-IsCover target overlap words small =
      windows-IsCover_from (suc (length words)) target overlap 0 words small (inr refl)
        (omega arith) (omega arith)

  -- With an overlap as large as the target the loop does not end on a text of more words than the
  -- target: no fuel is enough.
  windows-endless :
      (fuel target start : ℕ) (words : List A)
      → start + target < length words
      → windows fuel target target start words ≡ none
  unfolding windows
  windows-endless zero target start words long = refl
  windows-endless (suc fuel) target start words long =
      let more : (min (start + target) (length words) == length words) ≡ false =
        ground (arith, ==_iff (min (start + target) (length words)) (length words), long) in
      let same : min (start + target) (length words) - target ≡ start = omega (arith, long) in
      rw (more, same, windows-endless fuel target start words long)
