-- ===== src/Api/Repository/Laws.antt =====
-- What the statements of the repository do to the rows that are read back
-- (apps/api/src/anime_api/repository.py).
use anime_recommendation_eng.Base.{
  ℕ, ◌≡◌, refl, ap, inl, inr, Bool, true, false, Option, none, some, List, [], ◌∷◌, ◌++◌, keep, ltb,
  if◌then◌else◌, Bool-cases, All, arith,
}
use anime_recommendation_eng.Base.Text.{Text, text_eq, text_eq_self, eq_of_text_eq}
use anime_recommendation_eng.Core.CostMeter.{DecimalOps}
use anime_recommendation_eng.Api.Repository.{
  UserRow, HistoryRow, UsageRow, user_exists, upsert_user, insert_newest, newest_first, same_key,
  add_usage, upsert_usage,
}

-- The mirrored user satisfies the foreign keys.
pub user_exists-upsert :
    (id : Text) (email : Option Text) (users : List UserRow)
    → user_exists (some id) (upsert_user id email users) ≡ true
unfolding upsert_user
user_exists-upsert id email [] = rw (text_eq_self id) refl
user_exists-upsert id email (r ∷ rs) = elim (Bool-cases (text_eq r.id id)) [
  | inl same ↦ rw same (rw same refl)
  | inr apart ↦ rw apart (rw apart (user_exists-upsert id email rs))
]

-- The row is older than the moment.
abbrev pub Before : ℕ → HistoryRow → Type 0
Before now r = ltb r.created_at now ≡ true

pub newest_first-append :
    (rows : List HistoryRow) (new : HistoryRow)
    → All (Before new.created_at) rows
    → newest_first (rows ++ new ∷ []) ≡ new ∷ newest_first rows
unfolding newest_first insert_newest
newest_first-append [] new h = refl
newest_first-append (r ∷ rs) new h = rw (newest_first-append rs new h.1, h.0) refl

module _ {A : Type 0} (p : A → Bool) where
  pub keep-append : (xs ys : List A) → keep p (xs ++ ys) ≡ keep p xs ++ keep p ys
  keep-append [] ys = refl
  keep-append (x ∷ xs) ys = elim (Bool-cases (p x)) [
    | inl hit ↦ rw hit (ap (λ t. x ∷ t) (keep-append xs ys))
    | inr miss ↦ rw miss (keep-append xs ys)
  ]

  pub All-keep : (P : A → Type 0) (xs : List A) → All P xs → All P (keep p xs)
  All-keep P [] h = tt
  All-keep P (x ∷ xs) h = elim (Bool-cases (p x)) [
    | inl hit ↦ rw hit (h.0, All-keep P xs h.1)
    | inr miss ↦ rw miss (All-keep P xs h.1)
  ]

module _ (d : DecimalOps) (to_column : d.D → d.D) where
  -- The row of a user and a day.
  abbrev pub usage_at : Text → ℕ → List (UsageRow d.D) → Option (UsageRow d.D)
  usage_at user_id day [] = none
  usage_at user_id day (r ∷ rs) =
      if same_key d to_column user_id day r then some r else usage_at user_id day rs

  -- What a row is after one more record of its key.
  abbrev pub added_to : UsageRow d.D → Option (UsageRow d.D) → Option (UsageRow d.D)
  added_to new none = some new
  added_to new (some old) = some (add_usage d to_column old new)

  pub usage_at-upsert :
      (new : UsageRow d.D) (rows : List (UsageRow d.D))
      → usage_at new.user_id new.day (upsert_usage d to_column new rows)
        ≡ added_to new (usage_at new.user_id new.day rows)
  unfolding upsert_usage
  usage_at-upsert new [] = rw (text_eq_self new.user_id) (ground arith)
  usage_at-upsert new (r ∷ rs) = elim (Bool-cases (same_key d to_column new.user_id new.day r)) [
    | inl hit ↦ rw hit (rw hit refl)
    | inr miss ↦ rw miss (rw miss (usage_at-upsert new rs))
  ]

  -- Another user's or another day's row is left alone.
  pub usage_at-upsert_other :
      (new : UsageRow d.D) (user_id : Text) (day : ℕ) (rows : List (UsageRow d.D))
      → same_key d to_column user_id day new ≡ false
      → usage_at user_id day (upsert_usage d to_column new rows) ≡ usage_at user_id day rows
  unfolding upsert_usage
  usage_at-upsert_other new user_id day [] h = rw h refl
  usage_at-upsert_other new user_id day (r ∷ rs) h =
      elim (Bool-cases (same_key d to_column new.user_id new.day r)) [
        | inl hit ↦
            let apart : same_key d to_column user_id day r ≡ false =
              ground (arith, eq_of_text_eq r.user_id new.user_id) in
            rw hit (rw apart refl)
        | inr miss ↦ rw miss (elim (Bool-cases (same_key d to_column user_id day r)) [
          | inl own ↦ rw own refl
          | inr foreign ↦ rw foreign (usage_at-upsert_other new user_id day rs h)
        ])
      ]
