-- ===== src/Core/Redaction/Tests.antt =====
-- Tests of the redaction.
use anime_recommendation_eng.Base.{◌≡◌, ◌↔◌, refl, [], ◌∷◌}
use anime_recommendation_eng.Base.Text.{codes, latin}
use anime_recommendation_eng.Core.Redaction.{
  Value, text, number, list, dict, nil, cons, end, field, redacted, deny_keys, is_denied,
  redact_inner, redact, redact_processor,
}
use anime_recommendation_eng.Core.Redaction.Masked.{IsMasked, redact_processor-IsMasked}

abbrev event : Value
event = dict (field (codes "Email") (text (codes "a@b")) (field (codes "category") (number 3) end))

-- The key is compared whole, and in any case.
masks :
    redact_processor latin event
    ≡ dict (field (codes "Email") (text redacted) (field (codes "category") (number 3) end))
unfolding redact_processor redact_inner is_denied
masks = refl

nested :
    redact latin (codes "CVV" ∷ []) (list (cons (dict (field (codes "cvv") (number 3) end)) nil))
    ≡ list (cons (dict (field (codes "cvv") (text redacted) end)) nil)
unfolding redact redact_inner is_denied
nested = refl

redact_processor-IsMasked_example :
    IsMasked latin deny_keys (redact_processor latin event)
    × ((redact_processor latin event ≡ event) ↔ IsMasked latin deny_keys event)
redact_processor-IsMasked_example = redact_processor-IsMasked latin event
