-- ===== src/Core/Redaction/Masked.antt =====
-- No sensitive value is left (packages/core/src/anime_core/observability/redaction.py).
use mathlib.Core.Path.{subst}
use anime_recommendation_eng.Base.{◌≡◌, refl, ap, ◌⊎◌, ◌↔◌, inl, inr, false, List, Bool-cases}
use anime_recommendation_eng.Base.Text.{Text, Unicode}
use anime_recommendation_eng.Core.Redaction.{
  Value, text, number, none, list, tuple, dict, Items, nil, cons, Fields, end, field, redacted,
  deny_keys, is_denied, redact_inner, redact_items, redact_fields, redact_processor,
}

module _ (u : Unicode) (denied : List Text) where
  -- Every denied key, at any depth, has the mask for its value.
  abbrev mutual
    pub IsMasked : Value → Type 0
    IsMasked (text t) = Unit
    IsMasked (number n) = Unit
    IsMasked none = Unit
    IsMasked (list xs) = AreMasked xs
    IsMasked (tuple xs) = AreMasked xs
    IsMasked (dict fs) = FieldsMasked fs

    pub AreMasked : Items → Type 0
    AreMasked nil = Unit
    AreMasked (cons x xs) = IsMasked x × AreMasked xs

    pub FieldsMasked : Fields → Type 0
    FieldsMasked end = Unit
    FieldsMasked (field key value fs) =
        ((is_denied u denied key ≡ false) ⊎ (value ≡ text redacted))
        × IsMasked value
        × FieldsMasked fs

  mutual
    unfolding redact_inner

    redact_inner-IsMasked : (v : Value) → IsMasked (redact_inner u denied v)
    redact_inner-IsMasked (text t) = tt
    redact_inner-IsMasked (number n) = tt
    redact_inner-IsMasked none = tt
    redact_inner-IsMasked (list xs) = redact_items-AreMasked xs
    redact_inner-IsMasked (tuple xs) = redact_items-AreMasked xs
    redact_inner-IsMasked (dict fs) = redact_fields-FieldsMasked fs

    redact_items-AreMasked : (xs : Items) → AreMasked (redact_items u denied xs)
    redact_items-AreMasked nil = tt
    redact_items-AreMasked (cons x xs) = (redact_inner-IsMasked x, redact_items-AreMasked xs)

    redact_fields-FieldsMasked : (fs : Fields) → FieldsMasked (redact_fields u denied fs)
    redact_fields-FieldsMasked end = tt
    redact_fields-FieldsMasked (field key value fs) =
        let inner = redact_inner-IsMasked value in
        let rest = redact_fields-FieldsMasked fs in
        elim (Bool-cases (is_denied u denied key)) [
          | inl hit ↦ rw hit (inr refl, tt, rest)
          | inr miss ↦ rw miss (inl refl, inner, rest)
        ]

  mutual
    unfolding redact_inner

    redact_inner-same : (v : Value) → IsMasked v → redact_inner u denied v ≡ v
    redact_inner-same (text t) h = refl
    redact_inner-same (number n) h = refl
    redact_inner-same none h = refl
    redact_inner-same (list xs) h = ap list (redact_items-same xs h)
    redact_inner-same (tuple xs) h = ap tuple (redact_items-same xs h)
    redact_inner-same (dict fs) h = ap dict (redact_fields-same fs h)

    redact_items-same : (xs : Items) → AreMasked xs → redact_items u denied xs ≡ xs
    redact_items-same nil h = refl
    redact_items-same (cons x xs) h = cc (redact_inner-same x h.0, redact_items-same xs h.1)

    redact_fields-same : (fs : Fields) → FieldsMasked fs → redact_fields u denied fs ≡ fs
    redact_fields-same end h = refl
    redact_fields-same (field key value fs) h =
        let inner = redact_inner-same value h.1 in
        let rest = redact_fields-same fs h.2 in
        elim (Bool-cases (is_denied u denied key)) [
          | inl hit ↦ elim h.0 [
            | inl free ↦ cc (hit, free)
            | inr masked ↦ rw hit (rw (masked, rest) refl)
          ]
          | inr miss ↦ rw miss (rw (inner, rest) refl)
        ]

-- Behind the processor every key of the deny list, in any case of its letters and at any depth of
-- dicts, lists and tuples, has the mask for its value. The processor changes an event exactly where
-- that does not hold already, so running it twice is running it once.
pub redact_processor-IsMasked :
    (u : Unicode) (event_dict : Value)
    → IsMasked u deny_keys (redact_processor u event_dict)
      × ((redact_processor u event_dict ≡ event_dict) ↔ IsMasked u deny_keys event_dict)
unfolding redact_processor
redact_processor-IsMasked u event_dict =
    let masked = redact_inner-IsMasked u deny_keys event_dict in
    (
      masked,
      (λ same. subst (IsMasked u deny_keys) same masked, redact_inner-same u deny_keys event_dict),
    )
