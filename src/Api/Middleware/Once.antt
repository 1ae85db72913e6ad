-- ===== src/Api/Middleware/Once.antt =====
-- How often a request is counted (apps/api/src/anime_api/middleware.py, `MetricsMiddleware`).
use mathlib.Core.Path.{subst}
use anime_recommendation_eng.Base.{
  ℕ, ◌+◌, ◌≤◌, ◌≡◌, refl, ap, ◌∙◌, Bool, true, false, ◌||◌, Option, List, [], ◌∷◌, ◌++◌, any,
  length, length-append, if◌then◌else◌, Bool-cases, inl, inr, arith,
}
use anime_recommendation_eng.Base.Action.{
  Outcome, ok, raised, cancelled, proceed, resume, raise, ◌>>◌,
}
use anime_recommendation_eng.Base.Text.{Text, text_eq}
use anime_recommendation_eng.Api.Middleware.{
  Message, response_start, other_message, Scope, Send, App, excluded_paths, send_all, end_with,
  run_app, Metered, put_world, outside, request_at, record_once, send_recording, metrics_call,
}

abbrev is_start : Message → Bool
is_start (response_start status headers) = true
is_start (other_message type) = false

abbrev one_if : Bool → ℕ
one_if b = if b then 1 else 0

or_swap : (a b c : Bool) → (a || (b || c)) ≡ ((b || a) || c)
or_swap a b c = ground arith

module _ {W : Type 0} (route_of : W → Option Text) (method : Text) (send : Send W) (base : ℕ) where
  -- Since the call began, one request is recorded if `recorded` says so, and none otherwise.
  abbrev Counts : Metered W → Type 0
  Counts s = length s.requests ≡ base + one_if s.recorded

  abbrev Ended : Bool → Outcome (Unit {0}) × Metered W → Type 0
  Ended r (ok a, s) = Counts s × (s.recorded ≡ r)
  Ended r (raised e, s) = Counts s
  Ended r (cancelled, s) = Counts s

  put_world-Ended :
      (s : Metered W) (x : Outcome (Unit {0}) × W) → Counts s → Ended s.recorded (put_world s x)
  put_world-Ended s (ok a, w) h = (h, refl)
  put_world-Ended s (raised e, w) h = h
  put_world-Ended s (cancelled, w) h = h

  outside-Ended :
      (m : Message) (s : Metered W) (r : Bool)
      → Counts s
      → s.recorded ≡ r
      → Ended r (outside (send m) s)
  outside-Ended m s r h e =
      subst (λ b. Ended b (outside (send m) s)) e (put_world-Ended s (send m s.world) h)

  send_recording-Ended :
      (m : Message) (s : Metered W)
      → Counts s
      → Ended (is_start m || s.recorded) (send_recording route_of method send m s)
  unfolding send_recording
  send_recording-Ended (other_message type) s h =
      outside-Ended (other_message type) s s.recorded h refl
  send_recording-Ended (response_start status headers) s h = elim (Bool-cases s.recorded) [
    | inl done ↦
        let s' = record s { recorded = true } in
        let counted : Counts s' = h ∙ rw done refl in
        rw done (outside-Ended (response_start status headers) s' true counted refl)
    | inr fresh ↦
        let x = request_at route_of method status s.world in
        let s' = record s { requests = s.requests ++ x ∷ []; recorded = true } in
        let unchanged : length s.requests ≡ base + 0 = h ∙ rw fresh refl in
        let counted : Counts s' = omega (arith, length-append s.requests (x ∷ []), unchanged) in
        rw fresh (outside-Ended (response_start status headers) s' true counted refl)
  ]

  -- The rest of the messages, after the first one has been sent.
  proceed-Ended :
      (ms : List Message) (r r' : Bool) (x : Outcome (Unit {0}) × Metered W)
      → Ended r x
      → ((s : Metered W)
          → Counts s
          → s.recorded ≡ r
          → Ended r' (send_all (send_recording route_of method send) ms s))
      → Ended r' (proceed (λ _. send_all (send_recording route_of method send) ms) x)
  proceed-Ended ms r r' (ok a, s) h k = k s h.0 h.1
  proceed-Ended ms r r' (raised e, s) h k = h
  proceed-Ended ms r r' (cancelled, s) h k = h

  send_all-Ended :
      (ms : List Message) (s : Metered W)
      → Counts s
      → Ended (any is_start ms || s.recorded) (send_all (send_recording route_of method send) ms s)
  unfolding send_all
  send_all-Ended [] s h = (h, refl)
  send_all-Ended (m ∷ ms) s h =
      proceed-Ended ms (is_start m || s.recorded) ((is_start m || any is_start ms) || s.recorded)
        (send_recording route_of method send m s) (send_recording-Ended m s h)
        (λ s' h' e.
          subst (λ b. Ended b (send_all (send_recording route_of method send) ms s'))
            (ap (λ b. any is_start ms || b) e ∙ or_swap (any is_start ms) (is_start m) s.recorded)
            (send_all-Ended ms s' h'))

-- How many requests are recorded, by the way in which the call ends.
abbrev pub Counted : {W : Type 0} → ℕ → App → Outcome (Unit {0}) × Metered W → Type 0
Counted n app (ok a, s) = length s.requests ≡ n + one_if (any is_start app.messages)
Counted n app (raised e, s) = length s.requests ≡ n + 1
Counted n app (cancelled, s) = length s.requests ≤ n + 1

module _ {W : Type 0} (route_of : W → Option Text) (send : Send W) where
  end_with-Ended :
      (method : Text) (n : ℕ) (r : Bool) (o : Outcome (Unit {0}))
      (x : Outcome (Unit {0}) × Metered W)
      → Ended route_of method send n r x
      → Ended route_of method send n r (proceed (λ _. end_with o) x)
  end_with-Ended method n r (ok a) (ok b, s) h = h
  end_with-Ended method n r (raised e) (ok b, s) h = h.0
  end_with-Ended method n r cancelled (ok b, s) h = h.0
  end_with-Ended method n r o (raised e, s) h = h
  end_with-Ended method n r o (cancelled, s) h = h

  -- The handler of the exception, and the end of a call that raised nothing.
  resume-Counted :
      (method : Text) (n : ℕ) (app : App) (x : Outcome (Unit {0}) × Metered W)
      → Ended route_of method send n (any is_start app.messages || false) x
      → Counted n app (resume (λ e. record_once route_of method 500 >> raise e) x)
  resume-Counted method n app (ok a, s) h = rw (h.0, h.1) (ground arith)
  resume-Counted method n app (raised e, s) h = elim (Bool-cases s.recorded) [
    | inl done ↦ rw done (let counted : length s.requests ≡ n + 1 = h ∙ rw done refl in counted)
    | inr fresh ↦
        let x = request_at route_of method 500 s.world in
        let unchanged : length s.requests ≡ n + 0 = h ∙ rw fresh refl in
        let counted : length (s.requests ++ x ∷ []) ≡ n + 1 =
          omega (arith, length-append s.requests (x ∷ []), unchanged) in
        rw fresh counted
  ]
  resume-Counted method n app (cancelled, s) h = elim (Bool-cases s.recorded) [
    | inl done ↦
        let counted : length s.requests ≡ n + 1 = h ∙ rw done refl in omega (arith, counted)
    | inr fresh ↦
        let counted : length s.requests ≡ n + 0 = h ∙ rw fresh refl in omega (arith, counted)
  ]

  -- A request over HTTP to a path that is not excluded is counted exactly once when the application
  -- raises, whether it had begun its answer or not. When the call returns it is counted once if a
  -- response was started, however often, and not otherwise. A cancelled call is counted at most once.
  -- The server may refuse any message.
  pub metrics_call-Counted :
      (scope : Scope) (app : App) (s : Metered W)
      → scope.is_http ≡ true
      → any (text_eq scope.path) excluded_paths ≡ false
      → Counted (length s.requests) app (metrics_call route_of scope app send s)
  unfolding metrics_call run_app
  metrics_call-Counted scope app s http counted =
      let fresh = record s { recorded = false } in
      let sent =
        send_all-Ended route_of scope.method send (length s.requests) app.messages fresh
          (omega arith) in
      rw (http, counted)
        (resume-Counted scope.method (length s.requests) app
          (run_app app (send_recording route_of scope.method send) fresh)
          (end_with-Ended scope.method (length s.requests) (any is_start app.messages || false)
            app.ending (send_all (send_recording route_of scope.method send) app.messages fresh)
            sent))
