-- ===== src/Core/Session.antt =====
-- The session of a request or a job (session_scope of packages/core/src/anime_core/db/engine.py). A
-- commit that fails is not modelled.
use anime_recommendation_eng.Base.Action.{Action, Slot, Outcome, ok, raised, cancelled}

module _ {W A S : Type 0} (db : Slot W S) where
  -- What the body wrote stays where it returned, and is rolled back where it raised. The session of a
  -- body that is cancelled is closed without a commit.
  abbrev pub end_session : W → Outcome A × W → Outcome A × W
  end_session w (ok a, w') = (ok a, w')
  end_session w (raised e, w') = (raised e, db.write (db.read w) w')
  end_session w (cancelled, w') = (cancelled, db.write (db.read w) w')

  -- `session_scope`
  unfoldable pub session_scope : Action W A → Action W A
  session_scope body w = end_session w (body w)
