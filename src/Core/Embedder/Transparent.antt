-- ===== src/Core/Embedder/Transparent.antt =====
-- The cache of embeddings is transparent.
use anime_recommendation_eng.Base.{
  ◌≡◌, refl, sym, ap, inl, inr, true, Bool-cases, Option, none, some, List, [], ◌∷◌, map, is_empty,
}
use anime_recommendation_eng.Base.Raises.{Yields, proceed-Yields}
use mathlib.Core.Path.{ap₂, subst}
use anime_recommendation_eng.Base.Text.{Text}
use anime_recommendation_eng.Core.Embedder.{
  CachingEmbedder, get, set, look_up, misses, fill, present, embed_misses, embed,
}

module _ {W V : Type 0} (e : CachingEmbedder W V) (vector : Text → V) where
  -- What was found for each text is its vector, or nothing.
  abbrev pub Sound : List Text → List (Option V) → Type 0
  Sound [] [] = Unit
  Sound [] (_ ∷ _) = ⊥
  Sound (_ ∷ _) [] = ⊥
  Sound (t ∷ ts) (none ∷ vs) = Sound ts vs
  Sound (t ∷ ts) (some v ∷ vs) = (v ≡ vector t) × Sound ts vs

  abbrev pub SoundOne : Text → Option V → Type 0
  SoundOne t none = Unit
  SoundOne t (some v) = v ≡ vector t

  Sound-cons :
      (t : Text) (ts : List Text) (v : Option V) (vs : List (Option V))
      → SoundOne t v
      → Sound ts vs
      → Sound (t ∷ ts) (v ∷ vs)
  Sound-cons t ts none vs h k = k
  Sound-cons t ts (some v) vs h k = (h, k)

  misses-present :
      (ts : List Text) (cached : List (Option V))
      → Sound ts cached
      → is_empty (misses e ts cached) ≡ true
      → present e cached ≡ map vector ts
  unfolding misses present
  misses-present [] [] h k = refl
  misses-present [] (_ ∷ _) h k = absurd h
  misses-present (t ∷ ts) [] h k = absurd h
  misses-present (t ∷ ts) (some v ∷ vs) h k = ap₂ ◌∷◌ h.0 (misses-present ts vs h.1 k)
  misses-present (t ∷ ts) (none ∷ vs) h k = cc

  module _ (kept : (t : Text) (w : W) → Yields (SoundOne t) (get e t w))
      (stored : (t : Text) (v : V) (w : W) → Yields (λ _. Unit) (set e t v w))
      (embeds : (ts : List Text) (w : W)
        → Yields (λ r. r.embeddings ≡ map vector ts) (e.inner ts w)) where
    look_up-Sound : (ts : List Text) (w : W) → Yields (Sound ts) (look_up e ts w)
    unfolding look_up
    look_up-Sound [] w = tt
    look_up-Sound (t ∷ ts) w =
        proceed-Yields (SoundOne t) (Sound (t ∷ ts)) _ (get e t w) (kept t w) λ v w1 h.
          proceed-Yields (Sound ts) (Sound (t ∷ ts)) _ (look_up e ts w1) (look_up-Sound ts w1)
            λ vs w2 k. Sound-cons t ts v vs h k

    fill-vectors :
        (ts : List Text) (cached : List (Option V)) (w : W)
        → Sound ts cached
        → Yields (λ vs. vs ≡ map vector ts) (fill e ts cached (map vector (misses e ts cached)) w)
    unfolding fill misses
    fill-vectors [] [] w h = refl
    fill-vectors [] (_ ∷ _) w h = absurd h
    fill-vectors (t ∷ ts) [] w h = absurd h
    fill-vectors (t ∷ ts) (some v ∷ vs) w h =
        proceed-Yields (λ rest. rest ≡ map vector ts) (λ rest. rest ≡ vector t ∷ map vector ts) _
          (fill e ts vs (map vector (misses e ts vs)) w) (fill-vectors ts vs w h.1)
          λ rest w1 k. ap₂ ◌∷◌ h.0 k
    fill-vectors (t ∷ ts) (none ∷ vs) w h =
        proceed-Yields (λ _. Unit) (λ rest. rest ≡ vector t ∷ map vector ts) _
          (set e t (vector t) w) (stored t (vector t) w)
          λ _ w1 _.
            proceed-Yields (λ rest. rest ≡ map vector ts) (λ rest. rest ≡ vector t ∷ map vector ts)
              _ (fill e ts vs (map vector (misses e ts vs)) w1) (fill-vectors ts vs w1 h)
              λ rest w2 k. ap (◌∷◌ (vector t)) k

    fill-found :
        (ts : List Text) (cached : List (Option V)) (found : List V) (w : W)
        → Sound ts cached
        → found ≡ map vector (misses e ts cached)
        → Yields (λ vs. vs ≡ map vector ts) (fill e ts cached found w)
    fill-found ts cached found w h same =
        subst (λ l. Yields (λ vs. vs ≡ map vector ts) (fill e ts cached l w)) (sym same)
          (fill-vectors ts cached w h)

    embed_misses-vectors :
        (ts : List Text) (cached : List (Option V)) (w : W)
        → Sound ts cached
        → Yields (λ r. r.embeddings ≡ map vector ts) (embed_misses e ts cached w)
    unfolding embed_misses
    embed_misses-vectors ts cached w h = elim (Bool-cases (is_empty (misses e ts cached))) [
      | inl all ↦ rw all (misses-present ts cached h all)
      | inr some_left ↦ rw some_left (
          proceed-Yields (λ r. r.embeddings ≡ map vector (misses e ts cached))
            (λ r. r.embeddings ≡ map vector ts) _ (e.inner (misses e ts cached) w)
            (embeds (misses e ts cached) w)
            λ r w1 same.
              proceed-Yields (λ vs. vs ≡ map vector ts) (λ r. r.embeddings ≡ map vector ts) _
                (fill e ts cached r.embeddings w1) (fill-found ts cached r.embeddings w1 h same)
                λ vs w2 k. k)
    ]

    -- Where the inner embedder gives each text its vector, in order, and the cache gives a text its
    -- vector or nothing and raises nothing, the caching embedder raises nothing and gives each text
    -- its vector, in the order of the texts, whichever of them were cached.
    pub embed-vectors :
        (texts : List Text) (w : W)
        → Yields (λ r. r.embeddings ≡ map vector texts) (embed e texts w)
    unfolding embed
    embed-vectors texts w =
        proceed-Yields (Sound texts) (λ r. r.embeddings ≡ map vector texts) _ (look_up e texts w)
          (look_up-Sound texts w) λ cached w1 h. embed_misses-vectors texts cached w1 h
