-- ===== src/Retrieval/Delimit/Once.antt =====
-- A delimited text has the tags once, where they were put.
use nexus_rag.Base.{
  ℕ, zero, suc, ◌+◌, ◌-◌, ◌≤◌, ◌≡◌, refl, ◌∙◌, ap, arith, Bool, true, not, inl, inr, List, [], ◌∷◌,
  ◌++◌, length, all, ◌==◌, Bool-cases, if◌then◌else◌,
}
use nexus_rag.Retrieval.Delimit.{
  codes, fold, matches, sub_from, open_tag, close_tag, forged_open, forged_close, neutralized,
  newline, delimit_untrusted_text,
}

-- the positions at which the tag stands, in whatever case
abbrev pub occurrences : List ℕ → List ℕ → ℕ
occurrences tag [] = 0
occurrences tag (x ∷ xs) = (if matches tag (x ∷ xs) then 1 else 0) + occurrences tag xs

-- no character of the list is read as `c`
abbrev avoids : ℕ → List ℕ → Bool
avoids c = all (λ x. not (c == fold x))

-- the tag has no character that `r` is read as
abbrev lacks : ℕ → List ℕ → Bool
lacks r = all (λ t. not (t == fold r))

matches-append :
    (n : ℕ) (ts xs ys : List ℕ) → lacks n ts ≡ true → matches ts (xs ++ n ∷ ys) ≡ matches ts xs
matches-append n [] xs ys a = refl
matches-append n (t ∷ ts) [] ys a = ground arith
matches-append n (t ∷ ts) (x ∷ xs) ys a = ground (arith, matches-append n ts xs ys)

occurrences-append :
    (n c : ℕ) (ts xs ys : List ℕ)
    → lacks n (c ∷ ts) ≡ true
    → occurrences (c ∷ ts) (xs ++ n ∷ ys) ≡ occurrences (c ∷ ts) xs + occurrences (c ∷ ts) (n ∷ ys)
occurrences-append n c ts [] ys a = omega arith
occurrences-append n c ts (x ∷ xs) ys a =
    ground (arith, occurrences-append n c ts xs ys, matches-append n (c ∷ ts) (x ∷ xs) ys)

occurrences-avoids :
    (c : ℕ) (ts xs ys : List ℕ)
    → avoids c xs ≡ true
    → occurrences (c ∷ ts) (xs ++ ys) ≡ occurrences (c ∷ ts) ys
occurrences-avoids c ts [] ys a = refl
occurrences-avoids c ts (x ∷ xs) ys a = ground (arith, occurrences-avoids c ts xs ys)

module _ (tag rest : List ℕ) (r : ℕ) where
  -- A match in the output of a substitution is one in its input, if the replacement begins with a
  -- character that the match does not have.
  match_before :
      (ts xs : List ℕ)
      → lacks r ts ≡ true
      → matches ts (sub_from tag (r ∷ rest) 0 xs) ≡ true
      → matches ts xs ≡ true
  unfolding sub_from
  match_before [] xs a h = refl
  match_before (t ∷ ts) [] a h = h
  match_before (t ∷ ts) (x ∷ xs) a h = elim (Bool-cases (matches tag (x ∷ xs))) [
    | inl hit ↦ replaced (rw hit at h)
    | inr miss ↦ passed (match_before ts xs) (rw miss at h)
  ]
    where
      replaced :
          matches (t ∷ ts) (r ∷ (rest ++ sub_from tag (r ∷ rest) (length tag - 1) xs)) ≡ true
          → matches (t ∷ ts) (x ∷ xs) ≡ true
      replaced k = ground arith

      passed :
          (lacks r ts ≡ true
            → matches ts (sub_from tag (r ∷ rest) 0 xs) ≡ true
            → matches ts xs ≡ true)
          → matches (t ∷ ts) (x ∷ sub_from tag (r ∷ rest) 0 xs) ≡ true
          → matches (t ∷ ts) (x ∷ xs) ≡ true
      passed ih k = ground arith

  -- A substitution puts no tag into the text that was not there.
  occurrences-sub_from-le :
      (c : ℕ) (ts : List ℕ) (k : ℕ) (xs : List ℕ)
      → lacks r ts ≡ true
      → avoids c (r ∷ rest) ≡ true
      → occurrences (c ∷ ts) (sub_from tag (r ∷ rest) k xs) ≤ occurrences (c ∷ ts) xs
  unfolding sub_from
  occurrences-sub_from-le c ts k [] a v = omega arith
  occurrences-sub_from-le c ts (suc k) (x ∷ xs) a v =
      omega (arith, occurrences-sub_from-le c ts k xs a v)
  occurrences-sub_from-le c ts zero (x ∷ xs) a v = elim (Bool-cases (matches tag (x ∷ xs))) [
    | inl hit ↦ rw hit (
        omega (
          arith,
          occurrences-avoids c ts (r ∷ rest) (sub_from tag (r ∷ rest) (length tag - 1) xs) v,
          occurrences-sub_from-le c ts (length tag - 1) xs a v,
        ))
    | inr miss ↦
        rw miss (ground (arith, occurrences-sub_from-le c ts 0 xs a v, match_before ts xs a))
  ]

-- After its own substitution a tag is nowhere in the text.
occurrences-sub_from :
    (r c : ℕ) (rest ts : List ℕ) (k : ℕ) (xs : List ℕ)
    → lacks r ts ≡ true
    → avoids c (r ∷ rest) ≡ true
    → occurrences (c ∷ ts) (sub_from (c ∷ ts) (r ∷ rest) k xs) ≡ 0
unfolding sub_from
occurrences-sub_from r c rest ts k [] a v = refl
occurrences-sub_from r c rest ts (suc k) (x ∷ xs) a v = occurrences-sub_from r c rest ts k xs a v
occurrences-sub_from r c rest ts zero (x ∷ xs) a v = elim (Bool-cases (matches (c ∷ ts) (x ∷ xs))) [
  | inl hit ↦ rw hit (
      occurrences-avoids c ts (r ∷ rest) (sub_from (c ∷ ts) (r ∷ rest) (length (c ∷ ts) - 1) xs) v
      ∙ occurrences-sub_from r c rest ts (length (c ∷ ts) - 1) xs a v)
  | inr miss ↦ rw miss (
      ground
        (arith, occurrences-sub_from r c rest ts 0 xs a v, match_before (c ∷ ts) rest r ts xs a))
]

-- A text without the tag is left as it is.
sub_from-none :
    (c : ℕ) (ts replacement xs : List ℕ)
    → occurrences (c ∷ ts) xs ≡ 0
    → sub_from (c ∷ ts) replacement 0 xs ≡ xs
unfolding sub_from
sub_from-none c ts replacement [] h = refl
sub_from-none c ts replacement (x ∷ xs) h = elim (Bool-cases (matches (c ∷ ts) (x ∷ xs))) [
  | inl hit ↦ absurd (found (rw hit at h))
  | inr miss ↦ rw miss (
      ap (λ (l : List ℕ). x ∷ l)
        (sub_from-none c ts replacement xs (omega (arith, none_here (rw miss at h)))))
]
  where
    found : 1 + occurrences (c ∷ ts) xs ≡ 0 → ⊥
    found e = omega arith

    none_here : 0 + occurrences (c ∷ ts) xs ≡ 0 → occurrences (c ∷ ts) xs ≡ 0
    none_here e = omega arith

-- the tags and what is put for them, less the first character
abbrev open_rest : List ℕ
open_rest = codes "untrusted_document_content>"

abbrev close_rest : List ℕ
close_rest = codes "/untrusted_document_content>"

abbrev forged_open_rest : List ℕ
forged_open_rest = codes "forged untrusted_document_content open tag)"

abbrev forged_close_rest : List ℕ
forged_close_rest = codes "forged untrusted_document_content close tag)"

neutralized-none :
    (text : List ℕ)
    → (occurrences open_tag (neutralized text) ≡ 0) × (occurrences close_tag (neutralized text) ≡ 0)
unfolding neutralized
neutralized-none text =
    let first = sub_from close_tag forged_close 0 text in
    (
      occurrences-sub_from b'(' b'<' forged_open_rest open_rest 0 first refl refl,
      omega (
        arith,
        occurrences-sub_from-le open_tag forged_open_rest b'(' b'<' close_rest 0 first refl refl,
        occurrences-sub_from b'(' b'<' forged_close_rest close_rest 0 text refl refl,
      ),
    )

-- a tag in a text between two newlines, after an opening and before an ending without newlines
occurrences-framed :
    (c : ℕ) (ts front text back : List ℕ)
    → lacks newline (c ∷ ts) ≡ true
    → occurrences (c ∷ ts) text ≡ 0
    → occurrences (c ∷ ts) (front ++ newline ∷ (text ++ newline ∷ back))
      ≡ occurrences (c ∷ ts) front + occurrences (c ∷ ts) back
occurrences-framed c ts front text back a none = ground (
  arith,
  occurrences-append newline c ts front (text ++ newline ∷ back) a,
  occurrences-append newline c ts text back a,
)

-- A delimited text has the opening tag once and the closing tag once, in whatever case, and the
-- part between them has neither, whatever the retrieved text is. A text without the tags is left
-- between them as it is.
pub delimit_untrusted_text-once :
    (text : List ℕ)
    → (occurrences open_tag (delimit_untrusted_text text) ≡ 1)
      × (occurrences close_tag (delimit_untrusted_text text) ≡ 1)
      × (occurrences open_tag (neutralized text) ≡ 0)
      × (occurrences close_tag (neutralized text) ≡ 0)
      × (occurrences open_tag text ≡ 0 → occurrences close_tag text ≡ 0 → neutralized text ≡ text)
unfolding delimit_untrusted_text neutralized
delimit_untrusted_text-once text =
    let (no_open, no_close) = neutralized-none text in
    (
      occurrences-framed b'<' open_rest open_tag (neutralized text) close_tag refl no_open,
      occurrences-framed b'<' close_rest open_tag (neutralized text) close_tag refl no_close,
      no_open,
      no_close,
      λ o k.
          ap (sub_from open_tag forged_open 0) (sub_from-none b'<' close_rest forged_close text k)
          ∙ sub_from-none b'<' open_rest forged_open text o,
    )
