-- ===== src/Core/Breaker/Invariant.antt =====
-- What holds of a breaker under any interleaving of calls: a task may be anywhere between the
-- check of the state and the end of its call while others go through the same object.
use anime_recommendation_eng.Base.{
  ℕ, ◌+◌, ◌-◌, ◌≤◌, ◌<◌, ◌≡◌, refl, Bool-cases, inl, inr, Bool, ◌&&◌, true, false, leb, leb→le,
  length, map, ap, ◌∙◌, if◌then◌else◌, List, [], ◌∷◌, arith,
}
use anime_recommendation_eng.Base.Text.{Text}
use anime_recommendation_eng.Core.Breaker.{
  Breaker, CircuitState, closed, open_state, half_open, new_breaker, read_state, on_success,
  on_failure, is_open, is_closed,
}

-- The edges of the state graph. A call that entered before the breaker opened may still succeed,
-- so an open breaker can close with no trial.
pub data Edge : CircuitState → CircuitState → Type 0 where
  trip : Edge closed open_state
  retrip : Edge half_open open_state
  trial : Edge open_state half_open
  recover : Edge half_open closed
  late : Edge open_state closed

-- The recorded transitions, latest first, are a path of the graph from `closed` to the state.
pub data IsPath : List CircuitState → CircuitState → Type 0 where
  start : IsPath [] closed
  step : {l : List CircuitState} {s t : CircuitState} → IsPath l s → Edge s t → IsPath (t ∷ l) t

-- Away from `closed` the count has reached the limit; in `closed` it is below it.
abbrev Counted : CircuitState → ℕ → ℕ → Type 0
Counted closed failures fail_max = failures < fail_max
Counted _ failures fail_max = fail_max ≤ failures

pub record IsValid (b : Breaker) : Type 0 where
  pub counted : Counted b.state b.failures b.fail_max
  pub path : IsPath b.transitions b.state

-- One event at a breaker: a task reads the state at a time, or ends its call.
pub data Event : Type 0 where
  enter : ℕ → Event
  succeed : Event
  fail : ℕ → Event

unfoldable pub handle : Event → Breaker → Breaker
handle (enter now) = read_state now
handle succeed = on_success
handle (fail now) = on_failure now

unfoldable pub run : List Event → Breaker → Breaker
run [] b = b
run (e ∷ es) b = run es (handle e b)

IsPath-open :
    {l : List CircuitState} {s : CircuitState}
    → IsPath l s
    → IsPath (if is_open s then l else open_state ∷ l) open_state
IsPath-open {s = closed} p = step p trip
IsPath-open {s = open_state} p = p
IsPath-open {s = half_open} p = step p retrip

IsPath-closed :
    {l : List CircuitState} {s : CircuitState}
    → IsPath l s
    → IsPath (if is_closed s then l else closed ∷ l) closed
IsPath-closed {s = closed} p = p
IsPath-closed {s = open_state} p = step p late
IsPath-closed {s = half_open} p = step p recover

IsPath-half :
    {l : List CircuitState} {s : CircuitState}
    → is_open s ≡ true
    → IsPath l s
    → IsPath (half_open ∷ l) half_open
IsPath-half {s = closed} h p = cc
IsPath-half {s = open_state} h p = step p trial
IsPath-half {s = half_open} h p = cc

Counted-half :
    (s : CircuitState) (f m : ℕ) → is_open s ≡ true → Counted s f m → Counted half_open f m
Counted-half closed f m h c = cc
Counted-half open_state f m h c = c
Counted-half half_open f m h c = cc

Counted-more :
    (s : CircuitState) (f m : ℕ) → leb m (f + 1) ≡ false → Counted s f m → Counted s (f + 1) m
Counted-more closed f m h c = ground arith
Counted-more open_state f m h c = omega arith
Counted-more half_open f m h c = omega arith

&&-left : (a b : Bool) → (a && b) ≡ true → a ≡ true
&&-left true b h = refl
&&-left false b h = h

read_state-IsValid : (now : ℕ) (b : Breaker) → IsValid b → IsValid (read_state now b)
unfolding read_state
read_state-IsValid now b v =
    elim (Bool-cases (is_open b.state && leb b.reset_timeout (now - b.opened_at))) [
      | inl due ↦
          let opened = &&-left (is_open b.state) _ due in
          rw due (record {
            counted = Counted-half b.state b.failures b.fail_max opened v.counted;
            path = IsPath-half opened v.path;
          })
      | inr not_due ↦ rw not_due v
    ]

on_success-IsValid : (b : Breaker) → 0 < b.fail_max → IsValid b → IsValid (on_success b)
unfolding on_success
on_success-IsValid b pos v = record { counted = pos; path = IsPath-closed v.path }

on_failure-IsValid : (now : ℕ) (b : Breaker) → IsValid b → IsValid (on_failure now b)
unfolding on_failure
on_failure-IsValid now b v = elim (Bool-cases (leb b.fail_max (b.failures + 1))) [
  | inl full ↦ rw full (record { counted = leb→le _ _ full; path = IsPath-open v.path })
  | inr below ↦ rw below (record {
    counted = Counted-more b.state b.failures b.fail_max below v.counted;
    path = v.path;
  })
]

handle-fail_max : (e : Event) (b : Breaker) → (handle e b).fail_max ≡ b.fail_max
unfolding handle read_state on_success on_failure
handle-fail_max (enter now) b = ground arith
handle-fail_max succeed b = refl
handle-fail_max (fail now) b = ground arith

handle-IsValid : (e : Event) (b : Breaker) → 0 < b.fail_max → IsValid b → IsValid (handle e b)
unfolding handle
handle-IsValid (enter now) b pos v = read_state-IsValid now b v
handle-IsValid succeed b pos v = on_success-IsValid b pos v
handle-IsValid (fail now) b pos v = on_failure-IsValid now b v

run-from_IsValid : (es : List Event) (b : Breaker) → 0 < b.fail_max → IsValid b → IsValid (run es b)
unfolding run
run-from_IsValid [] b pos v = v
run-from_IsValid (e ∷ es) b pos v =
    run-from_IsValid es (handle e b) (rw (handle-fail_max e b) pos) (handle-IsValid e b pos v)

-- Whatever order tasks enter and end their calls in, a breaker that starts with a positive
-- `fail_max` keeps its count below the limit exactly while it is closed, and the transitions that
-- it records form a path of the state graph that ends in its current state.
pub run-IsValid :
    (es : List Event) (name : Text) (fail_max reset_timeout : ℕ)
    → 0 < fail_max
    → IsValid (run es (new_breaker name fail_max reset_timeout))
unfolding new_breaker
run-IsValid es name fail_max reset_timeout pos =
    run-from_IsValid es _ pos (record { counted = pos; path = start })

-- The state after a number of failing calls, with no success between them.
unfoldable pub fail_times : List ℕ → Breaker → Breaker
fail_times [] b = b
fail_times (now ∷ ts) b = fail_times ts (on_failure now b)

fail_times-open :
    (ts : List ℕ) (b : Breaker)
    → b.state ≡ open_state
    → b.fail_max ≤ b.failures
    → (fail_times ts b).state ≡ open_state
unfolding fail_times on_failure
fail_times-open [] b s full = s
fail_times-open (now ∷ ts) b s full =
    fail_times-open ts (on_failure now b) (ground arith) (ground arith)

-- A failure that brings the count to the limit opens the breaker; one that does not only counts.
pub on_failure-full :
    (now : ℕ) (b : Breaker)
    → leb b.fail_max (b.failures + 1) ≡ true
    → ((on_failure now b).state ≡ open_state)
      × ((on_failure now b).fail_max ≤ (on_failure now b).failures)
unfolding on_failure
on_failure-full now b full = ground arith

pub on_failure-below :
    (now : ℕ) (b : Breaker)
    → leb b.fail_max (b.failures + 1) ≡ false
    → on_failure now b ≡ record b { failures = b.failures + 1 }
unfolding on_failure
on_failure-below now b below = rw below

-- A closed breaker that meets nothing but failures is open after them exactly when they bring its
-- count up to `fail_max`: it trips at that failure and not before.
pub fail_times-IsOpen :
    (ts : List ℕ) (b : Breaker)
    → b.state ≡ closed
    → b.failures < b.fail_max
    → is_open (fail_times ts b).state ≡ leb b.fail_max (b.failures + length ts)
unfolding fail_times
fail_times-IsOpen [] b s below = ground arith
fail_times-IsOpen (now ∷ ts) b s below = elim (Bool-cases (leb b.fail_max (b.failures + 1))) [
  | inl full ↦
      let (opened, stays) = on_failure-full now b full in
      rw (fail_times-open ts (on_failure now b) opened stays) (ground arith)
  | inr more ↦
      ap (λ c. is_open (fail_times ts c).state) (on_failure-below now b more)
      ∙ (fail_times-IsOpen ts (record b { failures = b.failures + 1 }) s (ground arith)
          ∙ ap (leb b.fail_max) (omega arith))
]

-- A half-open breaker admits every call until one of them ends: reading the state leaves it
-- half-open, so the number of trial calls in flight has no bound.
pub half_open-admits_all :
    (nows : List ℕ) (b : Breaker) → b.state ≡ half_open → run (map enter nows) b ≡ b
unfolding run handle read_state
half_open-admits_all [] b s = refl
half_open-admits_all (now ∷ nows) b s =
    let same : read_state now b ≡ b = ground arith in
    ap (run (map enter nows)) same ∙ half_open-admits_all nows b s
