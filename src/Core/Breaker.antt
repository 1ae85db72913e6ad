-- ===== src/Core/Breaker.antt =====
-- `AsyncCircuitBreaker`, `with_timeout` and `guarded` (packages/core/src/anime_core/resilience.py).
-- The breaker is an object in a slot of the world; the clock is a field of the world. The states
-- that `record_circuit_transition` is called with are kept in `transitions`, the latest first.
pub mod Invariant
pub mod Calls
mod Tests
use anime_recommendation_eng.Base.{
  ℕ, ◌+◌, ◌-◌, Bool, true, false, ◌&&◌, List, [], ◌∷◌, ◌++◌, leb, if◌then◌else◌,
}
use anime_recommendation_eng.Base.Action.{
  Action, Slot, Exc, Kind, Outcome, ok, raised, cancelled, timeout_error, circuit_breaker_error,
}
use anime_recommendation_eng.Base.Text.{Text, codes}

pub data CircuitState : Type 0 where
  closed open_state half_open : CircuitState

pub record Breaker : Type 0 where
  pub name : Text
  pub fail_max : ℕ
  pub reset_timeout : ℕ
  pub failures : ℕ
  pub state : CircuitState
  pub opened_at : ℕ
  pub transitions : List CircuitState

-- `AsyncCircuitBreaker(name=…, fail_max=…, reset_timeout=…)`
unfoldable pub new_breaker : Text → ℕ → ℕ → Breaker
new_breaker name fail_max reset_timeout = record {
  name = name;
  fail_max = fail_max;
  reset_timeout = reset_timeout;
  failures = 0;
  state = closed;
  opened_at = 0;
  transitions = [];
}

abbrev pub is_open : CircuitState → Bool
is_open open_state = true
is_open _ = false

abbrev pub is_closed : CircuitState → Bool
is_closed closed = true
is_closed _ = false

-- The property `state`: reading it at the time `now` may move the breaker to half-open.
unfoldable pub read_state : ℕ → Breaker → Breaker
read_state now b =
    if is_open b.state && leb b.reset_timeout (now - b.opened_at)
    then record b { state = half_open; transitions = half_open ∷ b.transitions }
    else b

-- `_on_success`
unfoldable pub on_success : Breaker → Breaker
on_success b = record b {
  failures = 0;
  state = closed;
  transitions = if is_closed b.state then b.transitions else closed ∷ b.transitions;
}

-- `_on_failure`, at the time `now`
unfoldable pub on_failure : ℕ → Breaker → Breaker
on_failure now b =
    if leb b.fail_max (b.failures + 1)
    then record b {
      failures = b.failures + 1;
      state = open_state;
      opened_at = now;
      transitions = if is_open b.state then b.transitions else open_state ∷ b.transitions;
    }
    else record b { failures = b.failures + 1 }

abbrev pub circuit_error : Breaker → Exc
circuit_error b = record {
  kind = circuit_breaker_error;
  message = b.name ++ codes " circuit is open";
}

abbrev pub timeout_exc : Exc
timeout_exc = record { kind = timeout_error; message = [] }

module _ {W A : Type 0} (clock : W → ℕ) where
  -- What `call` does when the awaited function has ended.
  unfoldable pub settle : Slot W Breaker → Outcome A × W → Outcome A × W
  settle slot (ok a, w) = (ok a, slot.write (on_success (slot.read w)) w)
  settle slot (raised e, w) = (raised e, slot.write (on_failure (clock w) (slot.read w)) w)
  settle slot (cancelled, w) = (cancelled, w)

  -- `AsyncCircuitBreaker.call`
  unfoldable pub call : Slot W Breaker → Action W A → Action W A
  unfolding settle
  call slot func w =
      let b = read_state (clock w) (slot.read w) in
      let w' = slot.write b w in
      if is_open b.state then (raised (circuit_error b), w') else settle slot (func w')

  -- `with_timeout`: a call that would end after the deadline raises `TimeoutError` instead.
  unfoldable pub with_timeout : ℕ → Action W A → Action W A
  with_timeout seconds func w =
      let (r, w') = func w in
      if leb (clock w') (clock w + seconds) then (r, w') else (raised timeout_exc, w')

  -- `guarded`: the breaker outermost, around the bounded call.
  unfoldable pub guarded : Slot W Breaker → ℕ → Action W A → Action W A
  unfolding call with_timeout
  guarded slot timeout_seconds func = call slot (with_timeout timeout_seconds func)
