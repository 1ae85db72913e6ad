-- ===== src/Base/Sort.antt =====
-- `xs.sort(key=score, reverse=True)`: Python's sort is stable, also in reverse. Any stable sort gives
-- the same list, so insertion stands for it.
use mathlib.Core.Path.{◌≡◌}
use mathlib.Core.Logic.{inl, inr}
use mathlib.Core.Bool.{false}
use mathlib.Core.List.{List, [], ◌∷◌, Perm}
use mathlib.Core.List.Perm
use anime_recommendation_eng.Base.Bools.{Bool-cases, if◌then◌else◌}
use anime_recommendation_eng.Base.Lists.{All}
use anime_recommendation_eng.Base.Float.{FloatOps, IsOrdered, lt_asymm, not_lt_trans}

module _ (f : FloatOps) {A : Type 0} (score : A → f.F) where
  unfoldable pub insert : A → List A → List A
  insert x [] = x ∷ []
  insert x (y ∷ ys) = if f.lt (score x) (score y) then y ∷ insert x ys else x ∷ y ∷ ys

  unfoldable pub sort_desc : List A → List A
  unfolding insert
  sort_desc [] = []
  sort_desc (x ∷ xs) = insert x (sort_desc xs)

  abbrev pub AtMost : A → A → Type 0
  AtMost x y = f.lt (score x) (score y) ≡ false

  -- Each element scores at least as high as all that follow it.
  abbrev pub IsDescending : List A → Type 0
  IsDescending [] = Unit
  IsDescending (x ∷ xs) = All (AtMost x) xs × IsDescending xs

  pub All-insert {κ} : (P : A → Type κ) (x : A) (ys : List A) → P x → All P ys → All P (insert x ys)
  unfolding insert
  All-insert P x [] p h = (p, tt)
  All-insert P x (y ∷ ys) p h = elim (Bool-cases (f.lt (score x) (score y))) [
    | inl below ↦ rw below (h.0, All-insert P x ys p h.1)
    | inr fits ↦ rw fits (p, (h.0, h.1))
  ]

  pub All-sort_desc {κ} : (P : A → Type κ) (xs : List A) → All P xs → All P (sort_desc xs)
  unfolding sort_desc
  All-sort_desc P [] h = tt
  All-sort_desc P (x ∷ xs) h = All-insert P x (sort_desc xs) h.0 (All-sort_desc P xs h.1)

  insert-perm : (x : A) (ys : List A) → Perm (insert x ys) (x ∷ ys)
  unfolding insert
  insert-perm x [] = Perm.refl (x ∷ [])
  insert-perm x (y ∷ ys) = elim (Bool-cases (f.lt (score x) (score y))) [
    | inl below ↦ rw below (Perm.trans (Perm.cons y (insert-perm x ys)) (Perm.swap x y ys))
    | inr fits ↦ rw fits (Perm.refl (x ∷ y ∷ ys))
  ]

  pub sort_desc-perm : (xs : List A) → Perm (sort_desc xs) xs
  unfolding sort_desc
  sort_desc-perm [] = Perm.refl []
  sort_desc-perm (x ∷ xs) =
      Perm.trans (insert-perm x (sort_desc xs)) (Perm.cons x (sort_desc-perm xs))

  module _ (o : IsOrdered f) where
    All-weaken : (x y : A) (zs : List A) → AtMost x y → All (AtMost y) zs → All (AtMost x) zs
    All-weaken x y [] h a = tt
    All-weaken x y (z ∷ zs) h a =
        (not_lt_trans f o (score x) (score y) (score z) h a.0, All-weaken x y zs h a.1)

    insert-IsDescending : (x : A) (ys : List A) → IsDescending ys → IsDescending (insert x ys)
    unfolding insert
    insert-IsDescending x [] d = (tt, tt)
    insert-IsDescending x (y ∷ ys) d = elim (Bool-cases (f.lt (score x) (score y))) [
      | inl below ↦
          rw below
            (All-insert (AtMost y) x ys (lt_asymm f o _ _ below) d.0, insert-IsDescending x ys d.1)
      | inr fits ↦ rw fits ((fits, All-weaken x y ys fits d.0), d)
    ]

    pub sort_desc-IsDescending : (xs : List A) → IsDescending (sort_desc xs)
    unfolding sort_desc
    sort_desc-IsDescending [] = tt
    sort_desc-IsDescending (x ∷ xs) =
        insert-IsDescending x (sort_desc xs) (sort_desc-IsDescending xs)
