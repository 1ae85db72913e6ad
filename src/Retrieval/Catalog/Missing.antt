-- ===== src/Retrieval/Catalog/Missing.antt =====
-- Which titles are missing (packages/retrieval/src/anime_retrieval/catalog.py).
use mathlib.Core.Path.{subst}
use anime_recommendation_eng.Base.{
  ◌≡◌, refl, sym, ap, ◌∙◌, inl, inr, Bool, Bool-cases, true, false, ◌&&◌, ◌||◌, List, [], ◌∷◌, map,
  keep, is_empty, any, length, if◌then◌else◌, arith,
}
use anime_recommendation_eng.Base.Float.{FloatOps, IsOrdered, not_lt_trans}
use anime_recommendation_eng.Base.Text.{Text, Unicode, text_eq, eq_of_text_eq}
use anime_recommendation_eng.Retrieval.Catalog.{
  Matcher, has_text, normalise, content_tokens, extract_named_titles, max_f, max_from, max_of,
  containment, similarity, best_match, missing_titles,
}

-- `all(p(x) for x in xs)`
abbrev pub all : {A : Type 0} → (A → Bool) → List A → Bool
all p [] = true
all p (x ∷ xs) = p x && all p xs

all-both :
    {A : Type 0} (p q : A → Bool) (xs : List A) → (all p xs && all q xs) ≡ all (λ x. p x && q x) xs
all-both p q [] = refl
all-both p q (x ∷ xs) = rw (sym (all-both p q xs)) (ground arith)

or-all :
    {A : Type 0} (b : Bool) (p : A → Bool) (xs : List A) → (b || all p xs) ≡ all (λ x. b || p x) xs
or-all true p [] = refl
or-all true p (x ∷ xs) = or-all true p xs
or-all false p [] = refl
or-all false p (x ∷ xs) = ap (λ b. p x && b) (or-all false p xs)

keep-same :
    {A : Type 0} (p q : A → Bool) → ((x : A) → p x ≡ q x) → (xs : List A) → keep p xs ≡ keep q xs
keep-same p q h [] = refl
keep-same p q h (x ∷ xs) = rw (h x, keep-same p q h xs) refl

module _ (u : Unicode) (f : FloatOps) (m : Matcher f.F) where
  -- The title of the catalogue is not the named one: neither the whole nor the words are alike enough.
  abbrev pub is_other : List Text → Text → Text → Bool
  is_other tokens normalised t =
      f.lt (similarity u f m normalised t) m.cutoff
      && (is_empty tokens || f.lt (containment u f m tokens t) m.cutoff)

  -- Every title of the catalogue is another one; a name that nothing is left of is no title.
  abbrev pub is_unlike : List Text → Text → Bool
  is_unlike names n =
      is_empty (normalise u f m n)
      || all (is_other (content_tokens u f m n) (normalise u f m n)) names

  module _ (o : IsOrdered f) (positive : f.lt f.zero_f m.cutoff ≡ true) where
    lt-max_f : (a b c : f.F) → f.lt (max_f u f m a b) c ≡ (f.lt a c && f.lt b c)
    lt-max_f a b c = elim (Bool-cases (f.lt a b)) [
      | inl below ↦ rw below (elim (Bool-cases (f.lt b c)) [
        | inl less ↦ rw (less, o.lt_trans a b c below less) refl
        | inr more ↦ rw more (ground arith)
      ])
      | inr above ↦ rw above (elim (Bool-cases (f.lt b c)) [
        | inl less ↦ rw less (ground arith)
        | inr more ↦ rw (more, not_lt_trans f o a b c above more) refl
      ])
    ]

    lt-max_from :
        (best c : f.F) (xs : List f.F)
        → f.lt (max_from u f m best xs) c ≡ (f.lt best c && all (λ x. f.lt x c) xs)
    lt-max_from best c [] = ground arith
    lt-max_from best c (x ∷ xs) =
        lt-max_from (max_f u f m best x) c xs ∙ rw (lt-max_f best x c) (ground arith)

    all-map :
        {A : Type 0} (p : f.F → Bool) (g : A → f.F) (xs : List A)
        → all p (map g xs) ≡ all (λ x. p (g x)) xs
    all-map p g [] = refl
    all-map p g (x ∷ xs) = ap (λ b. p (g x) && b) (all-map p g xs)

    lt-max_of :
        {A : Type 0} (g : A → f.F) (xs : List A)
        → f.lt (max_of u f m (map g xs)) m.cutoff ≡ all (λ x. f.lt (g x) m.cutoff) xs
    lt-max_of g [] = positive
    lt-max_of g (x ∷ xs) =
        lt-max_from (g x) m.cutoff (map g xs)
        ∙ ap (λ b. f.lt (g x) m.cutoff && b) (all-map (λ y. f.lt y m.cutoff) g xs)

    -- The branches of `best_match`, over any values.
    lt-branches :
        (nothing wordless : Bool) (best contained : f.F)
        → f.lt
            (if nothing then f.zero_f else (if wordless then best else max_f u f m best contained))
            m.cutoff
          ≡ (nothing || (f.lt best m.cutoff && (wordless || f.lt contained m.cutoff)))
    lt-branches true wordless best contained = positive
    lt-branches false true best contained = ground arith
    lt-branches false false best contained = lt-max_f best contained m.cutoff

    best_match-is_unlike :
        (names : List Text) (n : Text)
        → f.lt (best_match u f m names n) m.cutoff ≡ is_unlike names n
    unfolding best_match
    best_match-is_unlike names n =
        let tokens = content_tokens u f m n in
        let normalised = normalise u f m n in
        let whole : Text → Bool = λ t. f.lt (similarity u f m normalised t) m.cutoff in
        let words : Text → Bool = λ t. f.lt (containment u f m tokens t) m.cutoff in
        lt-branches (is_empty normalised) (is_empty tokens)
          (max_of u f m (map (similarity u f m normalised) names))
          (max_of u f m (map (containment u f m tokens) names))
        ∙ ap (λ b. is_empty normalised || b)
            (rw
              (
                lt-max_of (similarity u f m normalised) names,
                lt-max_of (containment u f m tokens) names,
                or-all (is_empty tokens) words names,
              )
              (all-both whole (λ t. is_empty tokens || words t) names))

    -- With an order without NaN and a positive cutoff: the missing titles are those that the query
    -- names, in their order, and to which every title of the catalogue is another one. A catalogue
    -- without titles misses none.
    pub missing_titles-is_unlike :
        (names : List Text) (query : Text)
        → missing_titles u f m names query ≡ (
            if is_empty names
            then []
            else keep (is_unlike names) (extract_named_titles u f m query))
    unfolding missing_titles
    missing_titles-is_unlike names query =
        ap (λ ts. if is_empty names then [] else ts)
          (keep-same (λ n. f.lt (best_match u f m names n) m.cutoff) (is_unlike names)
            (best_match-is_unlike names) (extract_named_titles u f m query))

    not_missing :
        (names : List Text) (n : Text) (ns : List Text)
        → is_unlike names n ≡ false
        → any (text_eq n) (keep (is_unlike names) ns) ≡ false
    not_missing names n [] h = refl
    not_missing names n (x ∷ ns) h = elim (Bool-cases (text_eq n x)) [
      | inl same ↦
          let gone : is_unlike names x ≡ false =
            subst (λ y. is_unlike names y ≡ false) (eq_of_text_eq n x same) h in
          rw gone (not_missing names n ns h)
      | inr other ↦ elim (Bool-cases (is_unlike names x)) [
        | inl kept ↦ rw kept (rw other (not_missing names n ns h))
        | inr gone ↦ rw gone (not_missing names n ns h)
      ]
    ]

    all-found :
        (p : Text → Bool) (t : Text) (ts : List Text)
        → any (text_eq t) ts ≡ true
        → p t ≡ false
        → all p ts ≡ false
    all-found p t (x ∷ ts) h out = elim (Bool-cases (text_eq t x)) [
      | inl same ↦
          let miss : p x ≡ false = subst (λ y. p y ≡ false) (eq_of_text_eq t x same) out in
          rw miss refl
      | inr other ↦
          let later : any (text_eq t) ts ≡ true =
            subst (λ b. (b || any (text_eq t) ts) ≡ true) other h in
          rw (all-found p t ts later out) (ground arith)
    ]
    all-found p t [] h out = cc

    whole_contained :
        (n t : Text)
        → keep (λ w. has_text w (content_tokens u f m t)) (content_tokens u f m n)
          ≡ content_tokens u f m n
        → f.lt
            (m.quotient (length (content_tokens u f m n)) (length (content_tokens u f m n)))
            m.cutoff
          ≡ false
        → f.lt (containment u f m (content_tokens u f m n) t) m.cutoff ≡ false
    unfolding containment
    whole_contained n t within whole =
        ap (λ ws. f.lt (m.quotient (length ws) (length (content_tokens u f m n))) m.cutoff) within
        ∙ whole

    -- A name whose words are all words of some title of the catalogue is never missing: the quotient
    -- of equal counts is not below the cutoff. This needs a name with a word that is no stopword.
    pub missing_titles-contained :
        (names : List Text) (query n t : Text)
        → any (text_eq t) names ≡ true
        → is_empty (normalise u f m n) ≡ false
        → is_empty (content_tokens u f m n) ≡ false
        → keep (λ w. has_text w (content_tokens u f m t)) (content_tokens u f m n)
          ≡ content_tokens u f m n
        → f.lt
            (m.quotient (length (content_tokens u f m n)) (length (content_tokens u f m n)))
            m.cutoff
          ≡ false
        → any (text_eq n) (missing_titles u f m names query) ≡ false
    missing_titles-contained names query n t here some_text some_word within whole =
        let tokens = content_tokens u f m n in
        let alike : f.lt (containment u f m tokens t) m.cutoff ≡ false =
          whole_contained n t within whole in
        let same : is_other tokens (normalise u f m n) t ≡ false =
          rw (alike, some_word) (ground arith) in
        let found = all-found (is_other tokens (normalise u f m n)) t names here same in
        let known : is_unlike names n ≡ false = rw (some_text, found) refl in
        rw (missing_titles-is_unlike names query) (elim (Bool-cases (is_empty names)) [
          | inl no_names ↦ rw no_names refl
          | inr some_names ↦
              rw some_names (not_missing names n (extract_named_titles u f m query) known)
        ])
