-- ===== src/Base/Float.antt =====
-- Python floats: the language's numbers are not those of the checker, so a model that compares or
-- adds scores takes their type and operations as an argument.
use mathlib.Core.Path.{◌≡◌, refl, sym, ◌∙◌}
use mathlib.Core.Logic.{inl, inr}
use mathlib.Core.Bool.{Bool, true, false, not}
use Prim.Native.Nat.{ℕ, ◌+◌, ◌-◌, ◌*◌, ◌/◌}
use native.Mathlib.Omega.{arith}
use anime_recommendation_eng.Base.Bools.{Bool-cases, ltb, leb}

pub record FloatOps : Type 1 where
  pub F : Type 0
  pub zero_f : F
  pub one_f : F
  pub neg_inf : F
  pub add : F → F → F
  pub sub : F → F → F
  pub mul : F → F → F
  pub reciprocal : ℕ → F
  pub lt : F → F → Bool
  pub le : F → F → Bool

-- What holds of the order of the floats that are not NaN.
pub record IsOrdered (f : FloatOps) : Type 0 where
  pub lt_irrefl : (a : f.F) → f.lt a a ≡ false
  pub lt_trans : (a b c : f.F) → f.lt a b ≡ true → f.lt b c ≡ true → f.lt a c ≡ true
  pub le-not_lt : (a b : f.F) → f.le a b ≡ not (f.lt b a)
  pub le_trans : (a b c : f.F) → f.le a b ≡ true → f.le b c ≡ true → f.le a c ≡ true

not-true : (b : Bool) → not b ≡ true → b ≡ false
not-true true h = cc
not-true false h = refl

module _ (f : FloatOps) (o : IsOrdered f) where
  pub lt_asymm : (a b : f.F) → f.lt a b ≡ true → f.lt b a ≡ false
  lt_asymm a b h = elim (Bool-cases (f.lt b a)) [
    | inl back ↦ cc (o.lt_trans a b a h back, o.lt_irrefl a)
    | inr fine ↦ fine
  ]

  pub le_of_not_lt : (a b : f.F) → f.lt a b ≡ false → f.le b a ≡ true
  le_of_not_lt a b h = rw (o.le-not_lt b a, h)

  pub not_lt_of_le : (a b : f.F) → f.le b a ≡ true → f.lt a b ≡ false
  not_lt_of_le a b h = not-true (f.lt a b) (sym (o.le-not_lt b a) ∙ h)

  pub not_lt_trans : (a b c : f.F) → f.lt a b ≡ false → f.lt b c ≡ false → f.lt a c ≡ false
  not_lt_trans a b c h k =
      not_lt_of_le a c (o.le_trans c b a (le_of_not_lt b c k) (le_of_not_lt a b h))

-- Millionths, from zero up: a carrier at which the order laws hold and programs run.
abbrev pub millionths : FloatOps
millionths = record {
  F = ℕ;
  zero_f = 0;
  one_f = 1_000_000;
  neg_inf = 0;
  add = ◌+◌;
  sub = ◌-◌;
  mul = λ a b. a * b / 1_000_000;
  reciprocal = λ n. 1_000_000 / n;
  lt = ltb;
  le = leb;
}

pub millionths-IsOrdered : IsOrdered millionths
millionths-IsOrdered = record {
  lt_irrefl = λ a. ground arith;
  lt_trans = λ a b c h k. ground arith;
  le-not_lt = λ a b. ground arith;
  le_trans = λ a b c h k. ground arith;
}
