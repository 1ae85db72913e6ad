-- ===== src/Ingestion/Bounds.antt =====
-- The size of the packed chunks (packages/ingestion/src/anime_ingestion/chunker.py).
use anime_recommendation_eng.Base.{
  ℕ, ◌+◌, ◌≤◌, ◌≡◌, refl, inl, inr, true, List, [], ◌∷◌, ◌++◌, reverse, arith, length,
  length-append, ltb, is_empty, Bool-cases, All, All-append,
}
use anime_recommendation_eng.Base.Text.{Text, codes, join}
use anime_recommendation_eng.Ingestion.{
  target_chars, overlap_chars, Packing, overlap_of, joined, append_to, add_sentence, add_all, flush,
  pack_sentences,
}

-- The characters of the sentences, and one for each.
pub weight : List Text → ℕ
weight [] = 0
weight (t ∷ ts) = length t + 1 + weight ts

weight-append : (xs ys : List Text) → weight (xs ++ ys) ≡ weight xs + weight ys
unfolding weight
weight-append [] ys = omega arith
weight-append (x ∷ xs) ys = omega (arith, weight-append xs ys)

length-joined : (buf : List Text) → length (joined buf) ≤ weight buf
unfolding weight join
length-joined [] = omega arith
length-joined (t ∷ []) = omega arith
length-joined (t ∷ t' ∷ ts) =
    omega (arith, length-joined (t' ∷ ts), length-append t (codes " " ++ joined (t' ∷ ts)))

overlap_of-weight :
    (rs overlap : List Text) (osize : ℕ)
    → weight overlap ≡ osize
    → osize ≤ overlap_chars
    → (weight (overlap_of rs overlap osize).0 ≡ (overlap_of rs overlap osize).1)
      × ((overlap_of rs overlap osize).1 ≤ overlap_chars)
unfolding overlap_of weight
overlap_of-weight [] overlap osize h k = (h, k)
overlap_of-weight (t ∷ ts) overlap osize h k =
    elim (Bool-cases (ltb overlap_chars (osize + length t + 1))) [
      | inl full ↦ rw full (h, k)
      | inr room ↦ rw room (
          overlap_of-weight ts (t ∷ overlap) (osize + length t + 1) (omega (arith, h))
            (ground (arith, room)))
    ]

-- No chunk above the bound, and a buffer below it, whose size is the recorded one.
record IsBounded (p : Packing) : Type 0 where
  chunks : All (λ c. length c ≤ target_chars + overlap_chars) p.chunks
  size : weight p.buf ≡ p.size
  buf : weight p.buf ≤ target_chars + overlap_chars

abbrev Fits : Text → Type 0
Fits c = length c ≤ target_chars + overlap_chars

append_to-IsBounded :
    (chunks : List Text) (s : Text) (q : List Text × ℕ)
    → All Fits chunks
    → weight q.0 ≡ q.1
    → q.1 + length s + 1 ≤ target_chars + overlap_chars
    → IsBounded (append_to chunks s q)
unfolding weight
append_to-IsBounded chunks s (buf, size) below same room = record {
  chunks = below;
  size = omega (arith, weight-append buf (s ∷ []), same);
  buf = omega (arith, weight-append buf (s ∷ []), same, room);
}

weight-empty : (buf : List Text) → is_empty buf ≡ true → weight buf ≡ 0
unfolding weight
weight-empty [] h = refl
weight-empty (t ∷ ts) h = cc

flushed-Fits : (p : Packing) → IsBounded p → All Fits (p.chunks ++ joined p.buf ∷ [])
flushed-Fits p b =
    All-append Fits p.chunks (joined p.buf ∷ []) b.chunks
      (omega (arith, length-joined p.buf, b.buf), tt)

add_sentence-IsBounded :
    (p : Packing) (s : Text)
    → length s + 1 ≤ target_chars
    → IsBounded p
    → IsBounded (add_sentence p s)
unfolding add_sentence weight
add_sentence-IsBounded p s short b = elim (Bool-cases (ltb target_chars (p.size + length s + 1))) [
  | inl over ↦ elim (Bool-cases (is_empty p.buf)) [
    | inl empty ↦
        rw (over, empty)
          (append_to-IsBounded p.chunks s (p.buf, p.size) b.chunks b.size
            (omega (arith, b.size, weight-empty p.buf empty)))
    | inr full ↦
        let (same, small) = overlap_of-weight (reverse p.buf) [] 0 refl (omega arith) in
        rw (over, full)
          (append_to-IsBounded _ s (overlap_of (reverse p.buf) [] 0) (flushed-Fits p b) same
            (omega (arith, small, short)))
  ]
  | inr fits ↦
      rw fits
        (append_to-IsBounded p.chunks s (p.buf, p.size) b.chunks b.size (ground (arith, fits)))
]

add_all-IsBounded :
    (p : Packing) (ss : List Text)
    → All (λ s. length s + 1 ≤ target_chars) ss
    → IsBounded p
    → IsBounded (add_all p ss)
unfolding add_all
add_all-IsBounded p [] short b = b
add_all-IsBounded p (s ∷ ss) short b =
    add_all-IsBounded (add_sentence p s) ss short.1 (add_sentence-IsBounded p s short.0 b)

flush-Fits : (p : Packing) → IsBounded p → All Fits (flush p)
flush-Fits p b = elim (Bool-cases (is_empty p.buf)) [
  | inl empty ↦ rw empty b.chunks
  | inr full ↦ rw full (flushed-Fits p b)
]

-- Where no sentence with its space is longer than the target of 2000 characters, no chunk is longer
-- than the target and the overlap together, 2300 characters: a sentence that follows an overlap is
-- not held against the target again.
pub pack_sentences-bounded :
    (sentences : List Text)
    → All (λ s. length s + 1 ≤ target_chars) sentences
    → All (λ c. length c ≤ target_chars + overlap_chars) (pack_sentences sentences)
unfolding pack_sentences weight
pack_sentences-bounded sentences short = flush-Fits _ (
    add_all-IsBounded (record { chunks = []; buf = []; size = 0 }) sentences short
      (record { chunks = tt; size = refl; buf = omega arith }))
