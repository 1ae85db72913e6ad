-- ===== src/Eval/Compare/Rows.antt =====
-- The rows of the comparison (packages/eval/src/anime_eval/compare.py), one name at a time.
use mathlib.Core.Path.{subst}
use anime_recommendation_eng.Base.{
  ◌≡◌, refl, inl, inr, Bool, true, false, not, ◌&&◌, Option, none, some, List, [], ◌∷◌, ◌++◌, keep,
  is_empty, if◌then◌else◌, Bool-cases, All, arith,
}
use anime_recommendation_eng.Base.Float.{FloatOps}
use anime_recommendation_eng.Base.Text.{Text}
use anime_recommendation_eng.Eval.Dict.{lookup, prepend_row, collect, of_both}
use anime_recommendation_eng.Eval.Compare.{
  Ratio, MetricDelta, LiftCheck, relative_of, delta_of, row_of, lift_of, lift_ok,
}

module _ {A : Type 0} where
  pub All-keep_none :
      (p : A → Bool) (xs : List A) → is_empty (keep p xs) ≡ true → All (λ x. p x ≡ false) xs
  All-keep_none p [] h = tt
  All-keep_none p (x ∷ xs) h = elim (Bool-cases (p x)) [
    | inl hit ↦ cc (subst (λ b. is_empty (if b then x ∷ keep p xs else keep p xs) ≡ true) hit h)
    | inr miss ↦ (
      miss,
      All-keep_none p xs
          (subst (λ b. is_empty (if b then x ∷ keep p xs else keep p xs) ≡ true) miss h),
    )
  ]

  pub keep_none-All :
      (p : A → Bool) (xs : List A) → All (λ x. p x ≡ false) xs → is_empty (keep p xs) ≡ true
  keep_none-All p [] h = refl
  keep_none-All p (x ∷ xs) h = rw h.0 (keep_none-All p xs h.1)

  pub All-left {κ} : (P : A → Type κ) (xs ys : List A) → All P (xs ++ ys) → All P xs
  All-left P [] ys h = tt
  All-left P (x ∷ xs) ys h = (h.0, All-left P xs ys h.1)

module _ {A B : Type 0} (P : B → Type 0) (g : A → Option B) where
  -- What P says of the row of x, if x has one.
  abbrev pub OfRow : A → Type 0
  OfRow x = (y : B) → g x ≡ some y → P y

  add_row :
      (o : Option B) (rows : List B)
      → ((y : B) → o ≡ some y → P y)
      → All P rows
      → All P (prepend_row o rows)
  add_row none rows h rest = rest
  add_row (some y) rows h rest = (h y refl, rest)

  without_row :
      (o : Option B) (rows : List B)
      → All P (prepend_row o rows)
      → ((y : B) → o ≡ some y → P y) × All P rows
  without_row none rows h = (λ y e. cc, h)
  without_row (some z) rows h = (λ y e. let same : z ≡ y = cc in subst P same h.0, h.1)

  pub All-collect : (xs : List A) → All OfRow xs → All P (collect g xs)
  All-collect [] h = tt
  All-collect (x ∷ xs) h = add_row (g x) (collect g xs) h.0 (All-collect xs h.1)

  pub collect-All : (xs : List A) → All P (collect g xs) → All OfRow xs
  collect-All [] h = tt
  collect-All (x ∷ xs) h =
      let parts = without_row (g x) (collect g xs) h in (parts.0, collect-All xs parts.1)

-- The row of two values holds what P says, where both are there.
of_both-Row :
    {F B : Type 0} (P : B → Type 0) (k : F → F → B) (o o' : Option F)
    → ((b c : F) → o ≡ some b → o' ≡ some c → P (k b c))
    → (y : B) → of_both k o o' ≡ some y
    → P y
of_both-Row P k none o' h y e = cc
of_both-Row P k (some b) none h y e = cc
of_both-Row P k (some b) (some c) h y e =
    let same : k b c ≡ y = cc in subst P same (h b c refl refl)

Row-of_both :
    {F B : Type 0} (P : B → Type 0) (k : F → F → B) (o o' : Option F)
    → ((y : B) → of_both k o o' ≡ some y → P y)
    → (b c : F) → o ≡ some b
    → o' ≡ some c
    → P (k b c)
Row-of_both P k o o' h b c e e' = h (k b c) (rw (e, e') refl)

module _ (f : FloatOps) (g : Ratio f) (threshold floor : f.F) where
  -- The drop of a metric from b to c stays within the floor or within the threshold.
  abbrev pub Within : f.F → f.F → Type 0
  Within b c =
      (f.lt (f.sub c b) (g.neg floor) && f.lt (relative_of f g (f.sub c b) b) (g.neg threshold))
      ≡ false

module _ (f : FloatOps) (g : Ratio f) (threshold floor : f.F)
    (baseline candidate : List (Text × f.F)) where
  -- The metric, where both reports have it, has not dropped by more.
  abbrev pub Holds : Text → Type 0
  Holds n =
      (b c : f.F)
      → lookup n baseline ≡ some b
      → lookup n candidate ≡ some c
      → Within f g threshold floor b c

  abbrev pub Fine : MetricDelta f.F → Type 0
  Fine d = d.is_regression ≡ false

  pub row_of-Fine :
      (is_gated : Bool) (n : Text)
      → Holds n
      → OfRow Fine (row_of f g threshold floor baseline candidate is_gated) n
  unfolding row_of delta_of
  row_of-Fine is_gated n h =
      of_both-Row Fine (delta_of f g threshold floor is_gated n) (lookup n baseline)
        (lookup n candidate) (λ b c e e'. rw (h b c e e') (ground arith))

  pub row_of-Holds :
      (n : Text) → OfRow Fine (row_of f g threshold floor baseline candidate true) n → Holds n
  unfolding row_of delta_of
  row_of-Holds n h =
      Row-of_both Fine (delta_of f g threshold floor true n) (lookup n baseline)
        (lookup n candidate) h

  pub row_of-ungated :
      (n : Text) → OfRow Fine (row_of f g threshold floor baseline candidate false) n
  unfolding row_of delta_of
  row_of-ungated n =
      of_both-Row Fine (delta_of f g threshold floor false n) (lookup n baseline)
        (lookup n candidate) (λ b c e e'. refl)

module _ (f : FloatOps) (g : Ratio f) (min_lift : f.F) (naive candidate : List (Text × f.F)) where
  -- The metric, where the report has it for both, is ahead of the naive one by the least lift.
  abbrev pub Lifts : Text → Type 0
  Lifts n =
      (v a : f.F)
      → lookup n naive ≡ some v
      → lookup n candidate ≡ some a
      → f.le min_lift (f.sub a v) ≡ true

  abbrev pub Ahead : LiftCheck f.F → Type 0
  Ahead x = not (lift_ok f g x) ≡ false

  pub lift_of-Ahead : (n : Text) → Lifts n → OfRow Ahead (lift_of f g min_lift naive candidate) n
  unfolding lift_of
  lift_of-Ahead n h =
      of_both-Row Ahead (λ v a. record { name = n; naive = v; advanced = a; min_lift = min_lift })
        (lookup n naive) (lookup n candidate) (λ v a e e'. rw (h v a e e') refl)

  pub lift_of-Lifts : (n : Text) → OfRow Ahead (lift_of f g min_lift naive candidate) n → Lifts n
  unfolding lift_of
  lift_of-Lifts n h v a e e' =
      let kept =
        Row-of_both Ahead (λ v a. record { name = n; naive = v; advanced = a; min_lift = min_lift })
          (lookup n naive) (lookup n candidate) h v a e e' in
      ground (arith, kept)
