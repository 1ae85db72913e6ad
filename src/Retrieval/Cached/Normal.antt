-- ===== src/Retrieval/Cached/Normal.antt =====
-- The keys of the response cache (packages/core/src/anime_core/caches.py).
use anime_recommendation_eng.Base.{
  ℕ, ◌≡◌, refl, ap, inl, inr, Bool, true, false, [], ◌∷◌, Bool-cases, if◌then◌else◌,
}
use anime_recommendation_eng.Base.Text.{Text}
use anime_recommendation_eng.Retrieval.Cached.{Codec, punct_to_space, one_space}

module _ (o : Codec) where
  -- The characters of the words of a text, with one space for each gap between or round them; `gap`
  -- says that the text stands behind a gap.
  unfoldable pub words : Bool → Text → Text
  words gap [] = []
  words gap (c ∷ t) =
      if o.is_word c then c ∷ words false t else (if gap then words true t else b' ' ∷ words true t)

  module _ (space : o.unicode.is_space b' ' ≡ true)
      (apart : (c : ℕ) → o.is_word c ≡ true → o.unicode.is_space c ≡ false) where
    -- Replacing the punctuation and then joining the white space leaves the words alone, with one
    -- space for each gap between them.
    pub one_space-words :
        (gap : Bool) (t : Text) → one_space o gap (punct_to_space o t) ≡ words gap t
    unfolding one_space punct_to_space words
    one_space-words gap [] = refl
    one_space-words gap (c ∷ t) = elim (Bool-cases (o.is_word c)) [
      | inl word ↦ rw (word, apart c word) (ap (◌∷◌ c) (one_space-words false t))
      | inr other ↦ elim (Bool-cases (o.unicode.is_space c)) [
        | inl blank ↦
            rw (other, blank)
              (rw blank (ap (λ x. if gap then x else b' ' ∷ x) (one_space-words true t)))
        | inr punct ↦
            rw (other, punct)
              (rw space (ap (λ x. if gap then x else b' ' ∷ x) (one_space-words true t)))
      ]
    ]
