-- ===== src/Core/KillSwitch.antt =====
-- `LlmKillSwitch` (packages/core/src/anime_core/killswitch.py). The cache's `get` and the value of the
-- environment variable LLM_ENABLED are arguments.
mod Tests
use anime_recommendation_eng.Base.{
  ◌≡◌, ◌≢◌, refl, Bool, true, false, not, Option, none, some, List, [], ◌∷◌, any, if◌then◌else◌,
}
use anime_recommendation_eng.Base.Action.{
  Action, Exc, Outcome, ok, raised, cancelled, pure, resume, proceed, ◌>>=◌, catch,
}
use anime_recommendation_eng.Base.Text.{Text, Unicode, codes, text_eq, strip}

-- `_OFF_VALUES`
abbrev pub off_values : List Text
off_values = codes "off" ∷ codes "false" ∷ codes "0" ∷ codes "disabled" ∷ []

abbrev pub kill_switch_key : Text
kill_switch_key = codes "killswitch:llm"

module _ (u : Unicode) where
  -- `llm_enabled_from_env`, the default being "true"
  unfoldable pub llm_enabled_from_env : Option Text → Bool
  llm_enabled_from_env none = true
  llm_enabled_from_env (some value) = not (text_eq (u.lower (strip u value)) (codes "false"))

  -- The answer to a value that was read, `None` where the key is absent.
  unfoldable pub enabled_by : Option Text → Option Text → Bool
  unfolding llm_enabled_from_env
  enabled_by env none = llm_enabled_from_env env
  enabled_by env (some value) = not (any (λ off. text_eq (u.lower (strip u value)) off) off_values)

  module _ {W : Type 0} (get : Text → Action W (Option Text)) (env : Option Text) where
    -- How `llm_enabled` goes on from the end of the cache's `get`.
    unfoldable pub after_get : Outcome (Option Text) × W → Outcome Bool × W
    unfolding enabled_by
    after_get (ok value, w) = (ok (enabled_by env value), w)
    after_get (raised exc, w) = (ok (llm_enabled_from_env env), w)
    after_get (cancelled, w) = (cancelled, w)

    -- `LlmKillSwitch.llm_enabled`
    unfoldable pub llm_enabled : Action W Bool
    unfolding after_get
    llm_enabled w = after_get (get kill_switch_key w)

    -- What the caller is told, by how the read ended: the stored value decides if there is one; an
    -- absent key and an unreadable cache both fall back to the environment's answer.
    abbrev pub Decides : Outcome (Option Text) × W → Outcome Bool × W → Type 0
    Decides (ok (some value), w) got =
        got ≡ (ok (not (any (λ off. text_eq (u.lower (strip u value)) off) off_values)), w)
    Decides (ok none, w) got = got ≡ (ok (llm_enabled_from_env env), w)
    Decides (raised exc, w) got = got ≡ (ok (llm_enabled_from_env env), w)
    Decides (cancelled, w) got = got ≡ (cancelled, w)

    after_get-Decides : (p : Outcome (Option Text) × W) → Decides p (after_get p)
    unfolding after_get
    after_get-Decides (ok (some value), w) = refl
    after_get-Decides (ok none, w) = refl
    after_get-Decides (raised exc, w) = refl
    after_get-Decides (cancelled, w) = refl

    -- The switch is decided by one read of its key. It never raises: a stored "off", "false", "0"
    -- or "disabled", in any case and with spaces round it, disables and any other stored value
    -- enables; with no value stored, or with the cache unreadable, the answer is the environment's.
    pub llm_enabled-Decides : (w : W) → Decides (get kill_switch_key w) (llm_enabled w)
    unfolding llm_enabled
    llm_enabled-Decides w = after_get-Decides (get kill_switch_key w)
