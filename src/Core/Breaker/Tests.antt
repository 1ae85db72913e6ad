-- ===== src/Core/Breaker/Tests.antt =====
-- Tests of the circuit breaker, over a world that is a clock and one breaker.
use anime_recommendation_eng.Base.{ℕ, ◌+◌, ◌≡◌, refl, arith, [], ◌∷◌, leb, map}
use anime_recommendation_eng.Base.Action.{Action, Slot, ok, raised}
use anime_recommendation_eng.Base.Text.{codes}
use anime_recommendation_eng.Core.Breaker.{
  Breaker, closed, open_state, half_open, new_breaker, read_state, on_success, on_failure, is_open,
  circuit_error, timeout_exc, call, guarded,
}
use anime_recommendation_eng.Core.Breaker.Invariant.{
  enter, succeed, fail, run, handle, IsValid, run-IsValid, fail_times, fail_times-IsOpen,
  half_open-admits_all,
}
use anime_recommendation_eng.Core.Breaker.Calls.{call-fast_fail, Trial, call-Trial, guarded-timeout}

abbrev World : Type 0
World = ℕ × Breaker

abbrev clock : World → ℕ
clock w = w.0

abbrev slot : Slot World Breaker
slot = record {
  read = λ w. w.1;
  write = λ b w. (w.0, b);
  read-write = λ b w. refl;
  write-read = λ w. refl;
  write-write = λ b c w. refl;
}

abbrev fresh : Breaker
fresh = new_breaker (codes "groq") 2 30

abbrev failed : Breaker
failed = record {
  name = codes "groq";
  fail_max = 2;
  reset_timeout = 30;
  failures = 2;
  state = open_state;
  opened_at = 100;
  transitions = open_state ∷ [];
}

-- A function that takes five seconds and returns 7.
abbrev slow : Action World ℕ
slow w = (ok 7, (w.0 + 5, w.1))

abbrev broken : Action World ℕ
broken w = (raised timeout_exc, (w.0 + 5, w.1))

trips : run (fail 90 ∷ fail 100 ∷ []) fresh ≡ failed
unfolding run handle on_failure new_breaker
trips = refl

recovers : call clock slot slow (200, failed) ≡ (
  ok 7,
  (
    205,
    record failed {
      failures = 0;
      state = closed;
      transitions = closed ∷ half_open ∷ open_state ∷ [];
    },
  ),
)
unfolding call read_state on_success
recovers = refl

failed-IsValid : IsValid failed
unfolding run handle on_failure new_breaker
failed-IsValid = run-IsValid (fail 90 ∷ fail 100 ∷ []) (codes "groq") 2 30 (omega arith)

run-IsValid_example :
    IsValid (run (fail 1 ∷ enter 2 ∷ succeed ∷ fail 3 ∷ []) (new_breaker (codes "groq") 2 30))
run-IsValid_example =
    run-IsValid (fail 1 ∷ enter 2 ∷ succeed ∷ fail 3 ∷ []) (codes "groq") 2 30 (omega arith)

fail_times-IsOpen_test : is_open (fail_times (90 ∷ 100 ∷ []) fresh).state ≡ leb 2 (0 + 2)
unfolding new_breaker
fail_times-IsOpen_test = fail_times-IsOpen (90 ∷ 100 ∷ []) fresh refl (omega arith)

abbrev trying : Breaker
trying = record failed { state = half_open }

half_open-admits_all_test : run (map enter (131 ∷ 132 ∷ 133 ∷ [])) trying ≡ trying
half_open-admits_all_test = half_open-admits_all (131 ∷ 132 ∷ 133 ∷ []) trying refl

call-fast_fail_test :
    call clock slot slow (110, failed) ≡ (raised (circuit_error failed), (110, failed))
call-fast_fail_test = call-fast_fail clock slot slow (110, failed) refl (omega arith)

call-Trial_test :
    Trial clock slot (slow (200, read_state 200 failed)) (call clock slot slow (200, failed))
call-Trial_test = call-Trial clock slot slow (200, failed) failed-IsValid refl (omega arith) refl

abbrev shaky : Breaker
shaky = record failed { failures = 1; state = closed; transitions = [] }

guarded-timeout_test :
    let (r, w') = guarded clock slot 3 slow (110, shaky) in
    (r ≡ raised timeout_exc) × (w'.1.state ≡ open_state)
guarded-timeout_test = guarded-timeout clock slot slow (110, shaky) 3 refl refl refl (omega arith)
