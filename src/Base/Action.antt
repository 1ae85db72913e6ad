-- ===== src/Base/Action.antt =====
-- Calls as actions on a world: the outcome of a call, and the state that it leaves behind.
-- A coroutine returns, raises an `Exception`, or is cancelled; `except Exception` catches only the
-- second of these.
use Prim.Native.Nat.{ℕ}
use mathlib.Core.Path.{◌≡◌}
use mathlib.Core.Bool.{Bool}
use anime_recommendation_eng.Base.Bools.{if◌then◌else◌}
use anime_recommendation_eng.Base.Text.{Text}

pub data Kind : Type 0 where
  circuit_breaker_error timeout_error retrieval_unavailable budget_exceeded : Kind
  value_error runtime_error validation_error jwt_error httpx_error clerk_api_error : Kind
  integrity_error unknown_model pricing_config file_not_found other_error : Kind
  http_exception : ℕ → Kind

-- An exception object: its class, and what `str` gives of it. That of an `HTTPException` has its status.
pub record Exc : Type 0 where
  pub kind : Kind
  pub message : Text

pub data Outcome (A : Type 0) : Type 0 where
  ok : A → Outcome A
  raised : Exc → Outcome A
  cancelled : Outcome A

abbrev pub Action : Type 0 → Type 0 → Type 0
Action W A = W → Outcome A × W

module _ {W : Type 0} where
  abbrev pub pure : {A : Type 0} → A → Action W A
  pure a w = (ok a, w)

  abbrev pub raise : {A : Type 0} → Exc → Action W A
  raise e w = (raised e, w)

  -- What follows a call that has ended: the next call, or nothing after an exception.
  abbrev pub proceed : {A B : Type 0} → (A → Action W B) → Outcome A × W → Outcome B × W
  proceed f (ok a, w) = f a w
  proceed f (raised e, w) = (raised e, w)
  proceed f (cancelled, w) = (cancelled, w)

  infixl 5 ◌>>=◌ ◌>>◌
  abbrev pub ◌>>=◌ : {A B : Type 0} → Action W A → (A → Action W B) → Action W B
  ◌>>=◌ m f w = proceed f (m w)

  abbrev pub ◌>>◌ : {A B : Type 0} → Action W A → Action W B → Action W B
  m >> k = m >>= λ _. k

  -- The handler of an `Exception`, at the end of the call that it guards.
  abbrev pub resume : {A : Type 0} → (Exc → Action W A) → Outcome A × W → Outcome A × W
  resume h (ok a, w) = (ok a, w)
  resume h (raised e, w) = h e w
  resume h (cancelled, w) = (cancelled, w)

  -- `try: m; except Exception as exc: h(exc)`
  abbrev pub catch : {A : Type 0} → Action W A → (Exc → Action W A) → Action W A
  catch m h w = resume h (m w)

  -- `try: m; except C as exc: h(exc)`, where the test says which exceptions are of the class C.
  abbrev pub catch_if : {A : Type 0} → (Kind → Bool) → Action W A → (Exc → Action W A) → Action W A
  catch_if is_c m h = catch m (λ e. if is_c e.kind then h e else raise e)

  -- A plain change of the state.
  abbrev pub modify : (W → W) → Action W (Unit {0})
  modify f w = (ok tt, f w)

  abbrev pub gets : {A : Type 0} → (W → A) → Action W A
  gets f w = (ok (f w), w)

-- An object of type S that lives in the world.
pub record Slot (W S : Type 0) : Type 0 where
  pub read : W → S
  pub write : S → W → W
  pub read-write : (s : S) (w : W) → read (write s w) ≡ s
  pub write-read : (w : W) → write (read w) w ≡ w
  pub write-write : (s t : S) (w : W) → write t (write s w) ≡ write t w
