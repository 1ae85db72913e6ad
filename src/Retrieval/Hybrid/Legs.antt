-- ===== src/Retrieval/Hybrid/Legs.antt =====
-- Degradation: one leg may fail, and the failure of both has one exception.
use anime_recommendation_eng.Base.{
  ℕ, ◌≡◌, refl, ◌∙◌, inl, inr, Bool, false, not, ◌&&◌, Option, none, some, List, [], Bool-cases,
}
use anime_recommendation_eng.Base.Action.{
  Action, Slot, Exc, Outcome, ok, raised, cancelled, pure, ◌>>=◌,
}
use anime_recommendation_eng.Base.Float.{FloatOps}
use anime_recommendation_eng.Base.Raises.{
  Raises, Never, proceed-Raises, resume-Raises, Raises-of_Never,
}
use anime_recommendation_eng.Base.Text.{Text}
use anime_recommendation_eng.Core.Breaker.{
  Breaker, guarded, call, settle, read_state, on_success, on_failure, new_breaker, is_open,
}
use anime_recommendation_eng.Retrieval.{Hit}
use anime_recommendation_eng.Retrieval.Fusion.{reciprocal_rank_fusion}
use anime_recommendation_eng.Retrieval.Hybrid.{
  HybridRetriever, unavailable, run_hook, recover, after_leg, dense_leg, sparse_leg, fuse, retrieve,
}

run_hook-Never :
    {W : Type 0} (hook : Option (Action W (Unit {0}))) (w : W) → Raises Never (run_hook hook w)
run_hook-Never none w = tt
run_hook-Never (some h) w = resume-Raises Never _ (h w) (λ e w'. tt)

module _ {W V : Type 0} (f : FloatOps) (r : HybridRetriever W V f.F) where
  open f use {F}

  after_leg-Never : (p : Outcome (List (Hit F)) × W) → Raises Never (after_leg f r p)
  unfolding after_leg recover
  after_leg-Never (ok hits, w) = tt
  after_leg-Never (raised x, w) =
      proceed-Raises Never (λ _. pure ([], false)) _ (run_hook-Never r.on_leg_failure w)
        (λ _ w'. tt)
  after_leg-Never (cancelled, w) = tt

  abbrev pub IsUnavailable : Exc → Type 0
  IsUnavailable e = e ≡ unavailable

  fuse-Raises :
      (k : ℕ) (dense sparse : List (Hit F) × Bool) (w : W)
      → Raises IsUnavailable (fuse f r k dense sparse w)
  unfolding fuse
  fuse-Raises k (dense_hits, dense_ok) (sparse_hits, sparse_ok) w =
      elim (Bool-cases (not dense_ok && not sparse_ok)) [
        | inl both ↦ rw both refl
        | inr one ↦ rw one tt
      ]

  -- With the query's embedding at hand, retrieval raises nothing but `RetrievalUnavailableError`:
  -- an exception of an index, a timeout, an open breaker or a failing recovery hook is absorbed.
  pub retrieve-Raises :
      (query : Text) (k : ℕ) (v : V) (w : W)
      → Raises IsUnavailable (retrieve f r query k (some v) w)
  unfolding retrieve dense_leg sparse_leg
  retrieve-Raises query k v w =
      proceed-Raises IsUnavailable
        (λ dense. sparse_leg f r query k >>= λ sparse. fuse f r k dense sparse)
        (dense_leg f r v k w) (Raises-of_Never IsUnavailable _ (after_leg-Never _))
        λ dense w'.
          proceed-Raises IsUnavailable (λ sparse. fuse f r k dense sparse)
            (sparse_leg f r query k w') (Raises-of_Never IsUnavailable _ (after_leg-Never _))
            (λ sparse w''. fuse-Raises k dense sparse w'')

  module _ (query : Text) (k : ℕ) (v : V) (w w1 w2 w3 : W) (exc : Exc) where
    -- A failed dense leg: the recovery hook runs before anything else uses the session, and the
    -- sparse hits alone are fused.
    pub retrieve-sparse_only :
        (hook : Action W (Unit {0})) (hits : List (Hit F))
        → r.on_leg_failure ≡ some hook
        → guarded r.clock r.dense_breaker r.timeout (r.search_dense v k) w ≡ (raised exc, w1)
        → hook w1 ≡ (ok tt, w2)
        → guarded r.clock r.sparse_breaker r.timeout (r.search_sparse query k) w2 ≡ (ok hits, w3)
        → retrieve f r query k (some v) w ≡ (ok (reciprocal_rank_fusion f [] hits r.rrf_k k), w3)
    unfolding retrieve dense_leg sparse_leg after_leg recover fuse
    retrieve-sparse_only hook hits h d rb s = rw (d, h) (rw rb (rw s))

    -- A failed sparse leg, after a dense leg that succeeded: the dense hits alone are fused.
    pub retrieve-dense_only :
        (hook : Action W (Unit {0})) (hits : List (Hit F))
        → r.on_leg_failure ≡ some hook
        → guarded r.clock r.dense_breaker r.timeout (r.search_dense v k) w ≡ (ok hits, w1)
        → guarded r.clock r.sparse_breaker r.timeout (r.search_sparse query k) w1 ≡ (raised exc, w2)
        → hook w2 ≡ (ok tt, w3)
        → retrieve f r query k (some v) w ≡ (ok (reciprocal_rank_fusion f hits [] r.rrf_k k), w3)
    unfolding retrieve dense_leg sparse_leg after_leg recover fuse
    retrieve-dense_only hook hits h d s rb = rw d (rw (s, h) (rw rb))

read-fresh :
    (name : Text) (now : ℕ) → read_state now (new_breaker name 5 30) ≡ new_breaker name 5 30
unfolding read_state new_breaker
read-fresh name now = refl

-- A retriever is made for each request, with new breakers, and makes one call through each. Whatever
-- that call does, short of changing the breaker itself, the breaker is not open after it: it never
-- fast-fails a later request.
module _ {W A : Type 0} (clock : W → ℕ) (slot : Slot W Breaker) (name : Text) where
  settle-never_trips :
      (p : Outcome A × W)
      → slot.read p.1 ≡ new_breaker name 5 30
      → is_open (slot.read (settle clock slot p).1).state ≡ false
  unfolding settle on_success on_failure new_breaker
  settle-never_trips (ok a, w) e = rw slot.read-write refl
  settle-never_trips (raised x, w) e = rw (slot.read-write, e) refl
  settle-never_trips (cancelled, w) e = rw e refl

  -- A new breaker with the default limit of five failures admits its first call, and is not open
  -- after it, if the call leaves the breaker alone.
  pub call-never_trips :
      (func : Action W A) (w : W)
      → slot.read w ≡ new_breaker name 5 30
      → slot.read (func w).1 ≡ slot.read w
      → (call clock slot func w ≡ settle clock slot (func w))
        × (is_open (slot.read (call clock slot func w).1).state ≡ false)
  unfolding call
  call-never_trips func w fresh alone =
      let shut : is_open (new_breaker name 5 30).state ≡ false = unfold new_breaker in refl in
      let same : read_state (clock w) (slot.read w) ≡ slot.read w =
        rw fresh (read-fresh name (clock w)) in
      let shut' : is_open (slot.read w).state ≡ false = rw fresh shut in
      let runs : call clock slot func w ≡ settle clock slot (func w) =
        simp (same, shut', slot.write-read) in
      (runs, rw runs (settle-never_trips (func w) (alone ∙ fresh)))
