-- ===== src/Core/Redaction.antt =====
-- Log redaction (packages/core/src/anime_core/observability/redaction.py). A value is a tree of dicts,
-- lists and tuples; a key stands for its `str`.
pub mod Masked
mod Tests
use anime_recommendation_eng.Base.{
  ℕ, Bool, true, false, ◌||◌, List, [], ◌∷◌, any, map, if◌then◌else◌,
}
use anime_recommendation_eng.Base.Text.{Text, Unicode, codes, text_eq}

mutual
  pub data Value : Type 0 where
    text : Text → Value
    number : ℕ → Value
    none : Value
    list : Items → Value
    tuple : Items → Value
    dict : Fields → Value

  pub data Items : Type 0 where
    nil : Items
    cons : Value → Items → Items

  pub data Fields : Type 0 where
    end : Fields
    field : Text → Value → Fields → Fields

-- `REDACTED`
abbrev pub redacted : Text
redacted = codes "[REDACTED]"

-- `DENY_KEYS`
abbrev pub deny_keys : List Text
deny_keys =
    codes "email"
    ∷ codes "query"
    ∷ codes "password"
    ∷ codes "authorization"
    ∷ codes "api_key"
    ∷ codes "apikey"
    ∷ codes "client_ip"
    ∷ codes "ip"
    ∷ codes "secret"
    ∷ codes "token"
    ∷ codes "access_token"
    ∷ codes "refresh_token"
    ∷ []

module _ (u : Unicode) (denied : List Text) where
  -- `_is_denied`
  unfoldable pub is_denied : Text → Bool
  is_denied key = any (text_eq (u.lower key)) denied

  abbrev pub mask : Text → Value → Value
  mask key value = if is_denied key then text redacted else value

  -- `_redact_inner`
  unfoldable mutual
    pub redact_inner : Value → Value
    redact_inner (text t) = text t
    redact_inner (number n) = number n
    redact_inner none = none
    redact_inner (list xs) = list (redact_items xs)
    redact_inner (tuple xs) = tuple (redact_items xs)
    redact_inner (dict fs) = dict (redact_fields fs)

    pub redact_items : Items → Items
    redact_items nil = nil
    redact_items (cons x xs) = cons (redact_inner x) (redact_items xs)

    pub redact_fields : Fields → Fields
    redact_fields end = end
    redact_fields (field key value fs) =
        field key (mask key (redact_inner value)) (redact_fields fs)

-- `redact`
unfoldable pub redact : Unicode → List Text → Value → Value
redact u denied value = redact_inner u (map u.lower denied) value

-- `redact_processor`
unfoldable pub redact_processor : Unicode → Value → Value
redact_processor u event_dict = redact_inner u deny_keys event_dict
