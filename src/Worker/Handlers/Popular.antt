-- ===== src/Worker/Handlers/Popular.antt =====
-- The tally of the thumbs-up has the count of every id
-- (apps/worker/src/anime_worker/handlers/housekeeping.py).
use anime_recommendation_eng.Base.{
  ℕ, suc, ◌<◌, ◌≡◌, refl, ◌⊎◌, inl, inr, Bool, true, false, ◌||◌, ◌==◌, List, [], ◌∷◌, any,
  if◌then◌else◌, Bool-cases, All, arith,
}
use anime_recommendation_eng.Worker.Handlers.{Tally, count_one, tally}

-- How often an id is in the list.
abbrev pub count : ℕ → List ℕ → ℕ
count a [] = 0
count a (b ∷ ids) = if b == a then suc (count a ids) else count a ids

abbrev pub with_id : ℕ → ℕ × ℕ → Bool
with_id a e = e.0 == a

abbrev Fresh : ℕ → Tally → Type 0
Fresh a = All (λ e. e.0 == a ≡ false)

-- No id has two entries.
abbrev Distinct : Tally → Type 0
Distinct [] = Unit
Distinct (e ∷ t) = Fresh e.0 t × Distinct t

count_one-Fresh : (a b : ℕ) (t : Tally) → Fresh b t → a == b ≡ false → Fresh b (count_one a t)
unfolding count_one
count_one-Fresh a b [] h apart = (apart, tt)
count_one-Fresh a b ((c, n) ∷ t) h apart = elim (Bool-cases (c == a)) [
  | inl same ↦ rw same h
  | inr other ↦ rw other (h.0, count_one-Fresh a b t h.1 apart)
]

count_one-Distinct : (a : ℕ) (t : Tally) → Distinct t → Distinct (count_one a t)
unfolding count_one
count_one-Distinct a [] h = (tt, tt)
count_one-Distinct a ((c, n) ∷ t) h = elim (Bool-cases (c == a)) [
  | inl same ↦ rw same h
  | inr other ↦
      rw other (count_one-Fresh a c t h.0 (ground (arith, other)), count_one-Distinct a t h.1)
]

tally-Distinct : (ids : List ℕ) → Distinct (tally ids)
unfolding tally
tally-Distinct [] = tt
tally-Distinct (a ∷ ids) = count_one-Distinct a (tally ids) (tally-Distinct ids)

-- An entry is right: it has the count of its id, which is positive.
abbrev pub IsCount : List ℕ → ℕ × ℕ → Type 0
IsCount ids e = (e.1 ≡ count e.0 ids) × (0 < e.1)

-- Entries of other ids stay right.
Fresh-IsCount :
    (a : ℕ) (ids : List ℕ) (t : Tally) → Fresh a t → All (IsCount ids) t → All (IsCount (a ∷ ids)) t
Fresh-IsCount a ids [] f h = tt
Fresh-IsCount a ids ((c, n) ∷ t) f h =
    let apart : a == c ≡ false = ground (arith, f.0) in
    ((rw apart h.0.0, h.0.1), Fresh-IsCount a ids t f.1 h.1)

Fresh-any : (a : ℕ) (t : Tally) → any (with_id a) t ≡ false → Fresh a t
Fresh-any a [] h = tt
Fresh-any a ((c, n) ∷ t) h = (ground (arith, h), Fresh-any a t (ground (arith, h)))

count_one-IsCount :
    (a : ℕ) (ids : List ℕ) (t : Tally)
    → Distinct t
    → All (IsCount ids) t
    → (any (with_id a) t ≡ true) ⊎ (count a ids ≡ 0)
    → All (IsCount (a ∷ ids)) (count_one a t)
unfolding count_one
count_one-IsCount a ids [] d h (inl found) = cc
count_one-IsCount a ids [] d h (inr none_yet) = ((ground (arith, none_yet), omega arith), tt)
count_one-IsCount a ids ((c, n) ∷ t) d h found = elim (Bool-cases (c == a)) [
  | inl same ↦
      let e : c ≡ a = ground (arith, same) in
      rw same ((ground (arith, h.0.0), omega arith), Fresh-IsCount a ids t (rw (← e) d.0) h.1)
  | inr other ↦
      let apart : a == c ≡ false = ground (arith, other) in
      let later : (any (with_id a) t ≡ true) ⊎ (count a ids ≡ 0) = elim found [
        | inl there ↦ inl (rw other at there)
        | inr nothing ↦ inr nothing
      ] in
      rw other ((rw apart h.0.0, h.0.1), count_one-IsCount a ids t d.1 h.1 later)
]

any-count_one :
    (a b : ℕ) (t : Tally) → any (with_id b) (count_one a t) ≡ (a == b || any (with_id b) t)
unfolding count_one
any-count_one a b [] = ground arith
any-count_one a b ((c, n) ∷ t) = ground (arith, any-count_one a b t)

-- An id is in the tally, or nowhere.
pub tally-found : (a : ℕ) (ids : List ℕ) → (any (with_id a) (tally ids) ≡ true) ⊎ (count a ids ≡ 0)
unfolding tally
tally-found a [] = inr refl
tally-found a (b ∷ ids) = elim (Bool-cases (b == a)) [
  | inl same ↦ inl (rw (any-count_one b a (tally ids), same) refl)
  | inr other ↦ elim (tally-found a ids) [
    | inl there ↦ inl (rw (any-count_one b a (tally ids), other) there)
    | inr nothing ↦ inr (rw other nothing)
  ]
]

pub tally-IsCount : (ids : List ℕ) → All (IsCount ids) (tally ids)
unfolding tally
tally-IsCount [] = tt
tally-IsCount (a ∷ ids) =
    count_one-IsCount a ids (tally ids) (tally-Distinct ids) (tally-IsCount ids) (tally-found a ids)
