-- ===== src/Core/KillSwitch/Tests.antt =====
-- Tests of the kill switch, over a world that is the stored value.
use anime_recommendation_eng.Base.{◌≡◌, false, Option, none, some}
use anime_recommendation_eng.Base.Action.{Action, ok}
use anime_recommendation_eng.Base.Text.{Text, codes, latin}
use anime_recommendation_eng.Core.KillSwitch.{llm_enabled, llm_enabled-Decides}

abbrev stored : Text → Action (Option Text) (Option Text)
stored key w = (ok w, w)

llm_enabled-Decides_test :
    llm_enabled latin stored none (some (codes " OFF ")) ≡ (ok false, some (codes " OFF "))
llm_enabled-Decides_test = llm_enabled-Decides latin stored none (some (codes " OFF "))
