-- ===== src/Retrieval/Fusion/Table.antt =====
-- The table of accumulators: one entry for each key, and what an update does to each key's score.
use anime_recommendation_eng.Base.{
  ℕ, ◌+◌, ◌≡◌, refl, true, Option, none, some, List, [], ◌∷◌, arith, if◌then◌else◌, All, map,
}
use mathlib.Core.HLevel.{⊥_prop}
use mathlib.Core.Logic.Or
use mathlib.Core.List.{Mem, Nodup, Nodup-nil, Nodup-cons, not-mem-nil, eq-or-mem_of_mem-cons}
use anime_recommendation_eng.Base.Float.{FloatOps}
use anime_recommendation_eng.Base.Text.{Text}
use anime_recommendation_eng.Retrieval.{Key, key_eq, Hit, hit_key}
use anime_recommendation_eng.Retrieval.Fusion.{
  Accumulator, Table, new_accumulator, upsert, add_dense, add_sparse, absorb, fused_table,
}

pub eq_of_key_eq : (a b : Key) → key_eq a b ≡ true → a ≡ b
eq_of_key_eq a b h = ground arith

pub key_eq_self : (a : Key) → key_eq a a ≡ true
key_eq_self a = ground arith

module _ (f : FloatOps) where
  open f use {F}

  abbrev pub lookup : Key → Table f → Option (Accumulator F)
  lookup key [] = none
  lookup key ((k, e) ∷ acc) = if key_eq k key then some e else lookup key acc

  abbrev pub Distinct : Table f → Type 0
  Distinct [] = Unit
  Distinct ((k, e) ∷ acc) = (lookup k acc ≡ none) × Distinct acc

  -- The score that stands for a key, zero where it has no entry.
  abbrev pub score_of : Option (Accumulator F) → F
  score_of none = f.zero_f
  score_of (some e) = e.rrf

  abbrev pub updated :
      Text → (Accumulator F → Accumulator F) → Option (Accumulator F) → Accumulator F
  updated text g none = g (new_accumulator f text)
  updated text g (some e) = g e

  pub lookup-upsert :
      (j k : Key) (text : Text) (g : Accumulator F → Accumulator F) (acc : Table f)
      → lookup j (upsert f k text g acc)
        ≡ (if key_eq k j then some (updated text g (lookup k acc)) else lookup j acc)
  unfolding upsert
  lookup-upsert j k text g [] = refl
  lookup-upsert j k text g ((i, e) ∷ acc) = ground (arith, lookup-upsert j k text g acc)

  upsert-Distinct :
      (k : Key) (text : Text) (g : Accumulator F → Accumulator F) (acc : Table f)
      → Distinct acc
      → Distinct (upsert f k text g acc)
  unfolding upsert
  upsert-Distinct k text g [] d = (refl, tt)
  upsert-Distinct k text g ((i, e) ∷ acc) d =
      ground (arith, lookup-upsert i k text g acc, upsert-Distinct k text g acc d.1)

  absorb-Distinct :
      (change : ℕ → Hit F → Accumulator F → Accumulator F) (k_rrf rank : ℕ) (hits : List (Hit F))
      (acc : Table f)
      → Distinct acc
      → Distinct (absorb f change k_rrf rank hits acc)
  unfolding absorb
  absorb-Distinct change k_rrf rank [] acc d = d
  absorb-Distinct change k_rrf rank (hit ∷ hits) acc d =
      absorb-Distinct change k_rrf (rank + 1) hits _
        (upsert-Distinct (hit_key hit) hit.text (change (k_rrf + rank + 1) hit) acc d)

  pub fused_table-Distinct :
      (dense sparse : List (Hit F)) (k_rrf : ℕ) → Distinct (fused_table f dense sparse k_rrf)
  unfolding fused_table
  fused_table-Distinct dense sparse k_rrf =
      absorb-Distinct (add_sparse f) k_rrf 0 sparse _
        (absorb-Distinct (add_dense f) k_rrf 0 dense [] tt)

  -- What holds of the entry that each key looks up holds of every entry.
  pub All-of_lookup {κ} :
      (P : Key × Accumulator F → Type κ) (acc : Table f)
      → Distinct acc
      → ((k : Key) (e : Accumulator F) → lookup k acc ≡ some e → P (k, e))
      → All P acc
  All-of_lookup P [] d h = tt
  All-of_lookup P ((k, e) ∷ acc) d h =
      (h k e (rw (key_eq_self k)), All-of_lookup P acc d.1 (λ j x found. h j x (later j x found)))
    where
      later :
          (j : Key) (x : Accumulator F) → lookup j acc ≡ some x → lookup j ((k, e) ∷ acc) ≡ some x
      later j x found = ground (arith, d.0, eq_of_key_eq k j)

  not-mem_of_none : (k : Key) (acc : Table f) → lookup k acc ≡ none → ¬ Mem k (map (λ p. p.0) acc)
  not-mem_of_none k [] h = not-mem-nil
  not-mem_of_none k ((i, e) ∷ acc) h = λ m.
      Or.elim ⊥_prop (eq-or-mem_of_mem-cons m) (λ here. ground (arith, key_eq_self i))
        (not-mem_of_none k acc (ground arith))

  pub keys-Nodup : (acc : Table f) → Distinct acc → Nodup (map (λ p. p.0) acc)
  keys-Nodup [] d = Nodup-nil
  keys-Nodup ((k, e) ∷ acc) d = Nodup-cons.1 (not-mem_of_none k acc d.0, keys-Nodup acc d.1)
