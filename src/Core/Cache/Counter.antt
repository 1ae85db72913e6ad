-- ===== src/Core/Cache/Counter.antt =====
-- The cache as a dict and as a counter.
use anime_recommendation_eng.Base.{
  ℕ, zero, suc, ◌+◌, ◌/◌, ◌%◌, ◌≤◌, ◌<◌, ◌≡◌, ◌≢◌, refl, sym, ap, ◌∙◌, inl, inr, false, Option,
  none, some, List, [], ◌∷◌, arith, ltb, Bool-cases,
}
use mathlib.Core.Path.{subst}
use anime_recommendation_eng.Base.Text.{Text, text_eq, text_eq_self, decimal, digits_of}
use anime_recommendation_eng.Core.Cache.Memory.{
  read_item, count_on, expiry_of, incr_or_start, InMemoryCache, dict_get, dict_set, digits_value,
  int_of, get, incr_with_ttl,
}

-- `int(str(n)) == n`
digits_value-digits_of :
    (fuel n : ℕ) (rest : Text)
    → n < fuel
    → digits_value 0 (digits_of fuel n rest) ≡ digits_value n rest
unfolding digits_value
digits_value-digits_of zero n rest h = absurd (omega arith)
digits_value-digits_of (suc fuel) n rest h = elim (Bool-cases (ltb n 10)) [
  | inl small ↦ rw small (ground arith)
  | inr large ↦
      rw large (
        digits_value-digits_of fuel (n / 10) ((b'0' + n % 10) ∷ rest) (ground arith) ∙ ground arith)
]

int_of_value : (t : Text) (n : ℕ) → digits_value 0 t ≡ some n → t ≢ [] → int_of t ≡ some n
unfolding int_of
int_of_value [] n h k = absurd (k refl)
int_of_value (c ∷ s) n h k = h

cons_not_nil : (c : ℕ) (s : Text) → (c ∷ s) ≢ []
cons_not_nil c s h = cc

digits_of-nonempty : (fuel n : ℕ) (rest : Text) → rest ≢ [] → digits_of fuel n rest ≢ []
digits_of-nonempty zero n rest h = h
digits_of-nonempty (suc fuel) n rest h = elim (Bool-cases (ltb n 10)) [
  | inl small ↦ rw small (cons_not_nil _ _)
  | inr large ↦ rw large (digits_of-nonempty fuel (n / 10) _ (cons_not_nil _ _))
]

decimal-nonempty : (n : ℕ) → decimal n ≢ []
unfolding decimal
decimal-nonempty n = elim (Bool-cases (ltb n 10)) [
  | inl small ↦ rw small (cons_not_nil _ _)
  | inr large ↦ rw large (digits_of-nonempty n (n / 10) _ (cons_not_nil _ _))
]

pub int_of-decimal : (n : ℕ) → int_of (decimal n) ≡ some n
int_of-decimal n =
    int_of_value (decimal n) n
      (unfold decimal in
        (digits_value-digits_of (suc n) n [] (omega arith) ∙ unfold digits_value in refl))
      (decimal-nonempty n)

module _ {A : Type 0} where
  pub dict_get-set :
      (key : Text) (a : A) (d : List (Text × A)) → dict_get key (dict_set key a d) ≡ some a
  unfolding dict_get dict_set
  dict_get-set key a [] = rw (text_eq_self key) refl
  dict_get-set key a ((k, b) ∷ d) = elim (Bool-cases (text_eq k key)) [
    | inl here ↦ rw here (rw here refl)
    | inr other ↦ rw other (rw other (dict_get-set key a d))
  ]

-- The entry of a counter at `n`, which expires after `t`.
abbrev pub Holds : Text → ℕ → ℕ → InMemoryCache → Type 0
Holds key n t m = dict_get key m.kv ≡ some (record { value = decimal n; expiry = some t })

get-Holds :
    (now : ℕ) (key : Text) (n t : ℕ) (m : InMemoryCache)
    → Holds key n t m
    → now ≤ t
    → get now key m ≡ (some (decimal n), m)
unfolding get
get-Holds now key n t m h alive =
    let live : ltb t now ≡ false = ground arith in
    ap (read_item now key m) h ∙ unfold read_item in rw live refl

-- While a counter has not expired, an increment adds one to it and keeps the time at which it
-- expires, whatever lifetime is asked for.
pub incr_with_ttl-counts :
    (now : ℕ) (key : Text) (ttl n t : ℕ) (m : InMemoryCache)
    → Holds key n t m
    → now ≤ t
    → ((incr_with_ttl now key ttl m).0 ≡ some (n + 1))
      × Holds key (n + 1) t (incr_with_ttl now key ttl m).1
unfolding incr_with_ttl
incr_with_ttl-counts now key ttl n t m h alive =
    let reads : incr_with_ttl now key ttl m ≡ count_on key m (some n) =
      ap (incr_or_start now key ttl) (get-Holds now key n t m h alive)
      ∙ unfold incr_or_start in ap (count_on key m) (int_of-decimal n) in
    (
      ap (λ p. p.0) reads ∙ unfold count_on in refl,
      subst (λ p. Holds key (n + 1) t p.1) (sym reads)
          (unfold count_on in
            (dict_get-set key _ m.kv
              ∙ ap (λ (x : Option ℕ). some (record { value = decimal (n + 1); expiry = x }))
                  (ap expiry_of h))),
    )

-- The first increment starts the counter at one, with the lifetime asked for.
pub incr_with_ttl-starts :
    (now : ℕ) (key : Text) (ttl : ℕ) (m : InMemoryCache)
    → dict_get key m.kv ≡ none
    → ((incr_with_ttl now key ttl m).0 ≡ some 1)
      × Holds key 1 (now + ttl) (incr_with_ttl now key ttl m).1
unfolding incr_with_ttl get
incr_with_ttl-starts now key ttl m h =
    let reads : incr_with_ttl now key ttl m ≡ incr_or_start now key ttl (none, m) =
      ap (λ o. incr_or_start now key ttl (read_item now key m o)) h ∙ unfold read_item in refl in
    (
      ap (λ p. p.0) reads ∙ unfold incr_or_start in refl,
      subst (λ p. Holds key 1 (now + ttl) p.1) (sym reads)
          (unfold incr_or_start in dict_get-set key _ m.kv),
    )
