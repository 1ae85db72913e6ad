-- ===== src/Core/Breaker/Calls.antt =====
-- The behaviour of one guarded call, on each branch.
use anime_recommendation_eng.Base.{ℕ, ◌+◌, ◌-◌, ◌≤◌, ◌<◌, ◌≡◌, refl, arith, true, false, leb, ap}
use anime_recommendation_eng.Base.Action.{Action, Slot, Outcome, ok, raised, cancelled}
use anime_recommendation_eng.Core.Breaker.{
  Breaker, closed, open_state, half_open, read_state, on_success, on_failure, is_open,
  circuit_error, settle, call, guarded, timeout_exc,
}
use anime_recommendation_eng.Core.Breaker.Invariant.{IsValid, on_failure-full}

read_state-early :
    (now : ℕ) (b : Breaker)
    → b.state ≡ open_state
    → now - b.opened_at < b.reset_timeout
    → (read_state now b ≡ b) × (is_open b.state ≡ true)
unfolding read_state
read_state-early now b s early = (ground arith, ground arith)

read_state-due :
    (now : ℕ) (b : Breaker)
    → b.state ≡ open_state
    → b.reset_timeout ≤ now - b.opened_at
    → ((read_state now b).state ≡ half_open)
      × ((read_state now b).failures ≡ b.failures)
      × ((read_state now b).fail_max ≡ b.fail_max)
unfolding read_state
read_state-due now b s due = ground arith

IsValid-full : (b : Breaker) → IsValid b → b.state ≡ open_state → b.fail_max ≤ b.failures
IsValid-full b v s = let c = v.counted in rw s at c

read_state-closed : (now : ℕ) (b : Breaker) → b.state ≡ closed → read_state now b ≡ b
unfolding read_state
read_state-closed now b s = ground arith

module _ {W A : Type 0} (clock : W → ℕ) (slot : Slot W Breaker) where
  -- While the breaker is open and its reset timeout has not passed, a call raises
  -- `CircuitBreakerError` at once and leaves the world as it was: the function is not run.
  pub call-fast_fail :
      (func : Action W A) (w : W)
      → (slot.read w).state ≡ open_state
      → clock w - (slot.read w).opened_at < (slot.read w).reset_timeout
      → call clock slot func w ≡ (raised (circuit_error (slot.read w)), w)
  unfolding call
  call-fast_fail func w s early =
      let (same, opened) = read_state-early (clock w) (slot.read w) s early in
      simp (same, opened, slot.write-read)

  -- How a trial call ends: with the outcome of the function, and with the breaker closed and its
  -- count cleared, open from the time of the failure, or still half-open.
  abbrev pub Trial : Outcome A × W → Outcome A × W → Type 0
  Trial (ok a, w) (r, w') =
      (r ≡ ok a) × ((slot.read w').state ≡ closed) × ((slot.read w').failures ≡ 0)
  Trial (raised e, w) (r, w') =
      (r ≡ raised e) × ((slot.read w').state ≡ open_state) × ((slot.read w').opened_at ≡ clock w)
  Trial (cancelled, w) (r, w') = (r ≡ cancelled) × ((slot.read w').state ≡ half_open)

  settle-Trial :
      (p : Outcome A × W) (b : Breaker)
      → slot.read p.1 ≡ b
      → b.state ≡ half_open
      → b.fail_max ≤ b.failures
      → Trial p (settle clock slot p)
  unfolding settle on_success on_failure
  settle-Trial (ok a, w) b e s full = (refl, rw slot.read-write, rw slot.read-write)
  settle-Trial (raised x, w) b e s full =
      let opens : leb (slot.read w).fail_max ((slot.read w).failures + 1) ≡ true = ground arith in
      (refl, rw (slot.read-write, opens), rw (slot.read-write, opens))
  settle-Trial (cancelled, w) b e s full = (refl, rw e s)

  -- A trial: once the reset timeout has passed, an open breaker runs the function as half-open.
  -- If the function leaves the breaker alone, a success closes it with no failures counted, one
  -- failure opens it again from the time at which the function failed, and a cancelled trial
  -- leaves it half-open.
  pub call-Trial :
      (func : Action W A) (w : W)
      → IsValid (slot.read w)
      → (slot.read w).state ≡ open_state
      → (slot.read w).reset_timeout ≤ clock w - (slot.read w).opened_at
      → let half = read_state (clock w) (slot.read w) in
        let w' = slot.write half w in
        slot.read (func w').1 ≡ half → Trial (func w') (call clock slot func w)
  unfolding call
  call-Trial func w v s due alone =
      let b = slot.read w in
      let (half, failures, limit) = read_state-due (clock w) b s due in
      let full : (read_state (clock w) b).fail_max ≤ (read_state (clock w) b).failures =
        omega (arith, IsValid-full b v s) in
      let shut : is_open (read_state (clock w) b).state ≡ false = ap is_open half in
      rw shut (
        settle-Trial (func (slot.write (read_state (clock w) b) w)) (read_state (clock w) b) alone
          half full)

  -- A call that outlives its deadline counts as a failure of the dependency: with the breaker
  -- closed one short of its limit and untouched by the function, `guarded` raises `TimeoutError`
  -- and leaves the breaker open, even where the function itself would have returned.
  pub guarded-timeout :
      (func : Action W A) (w : W) (seconds : ℕ)
      → (slot.read w).state ≡ closed
      → (slot.read w).failures + 1 ≡ (slot.read w).fail_max
      → slot.read (func w).1 ≡ slot.read w
      → clock w + seconds < clock (func w).1
      → let (r, w') = guarded clock slot seconds func w in
        (r ≡ raised timeout_exc) × ((slot.read w').state ≡ open_state)
  unfolding guarded
  guarded-timeout func w seconds s one_short alone late =
      let b = slot.read w in
      let same : read_state (clock w) b ≡ b = read_state-closed (clock w) b s in
      let shut : is_open b.state ≡ false = ap is_open s in
      let over : leb (clock (func w).1) (clock w + seconds) ≡ false = ground arith in
      simp (same, shut, slot.write-read, over)
        (refl, rw slot.read-write (on_failure-full _ _ (ground arith)).0)
