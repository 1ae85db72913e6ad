-- ===== src/Core/CostMeter.antt =====
-- The cost meter (packages/core/src/anime_core/cost_meter.py). Python's decimals, JSON and the
-- environment's texts are arguments; the price table is read anew at each call, where the code keeps
-- the first one that is valid.
pub mod Pricing
mod Tests
use anime_recommendation_eng.Base.{
  ℕ, Bool, true, false, ◌||◌, Option, none, some, List, [], ◌∷◌, ◌++◌, map, is_empty, if◌then◌else◌,
}
use anime_recommendation_eng.Base.Action.{
  Action, Exc, Kind, Outcome, ok, pricing_config, unknown_model, pure, raise, ◌>>=◌, ◌>>◌,
}
use anime_recommendation_eng.Base.Text.{Text, Unicode, codes, strip}
use anime_recommendation_eng.Core.Cache.Memory.{dict_get, dict_set}

-- `Decimal`: the parts of it that money needs. `parse` is the constructor, `none` where it raises
-- `InvalidOperation`; `is_negative` is `d < 0`, which raises on NaN.
pub record DecimalOps : Type 1 where
  pub D : Type 0
  pub zero_d : D
  pub parse : Text → Option D
  pub is_negative : D → Outcome Bool
  pub of_nat : ℕ → D
  pub add : D → D → D
  pub mul : D → D → D
  pub div : D → D → D

-- `TokenUsage`
pub record TokenUsage : Type 0 where
  pub model : Text
  pub input_tokens : ℕ
  pub output_tokens : ℕ

-- The dollars for a million tokens.
pub record Price (D : Type 0) : Type 0 where
  pub in_rate : D
  pub out_rate : D

-- A JSON value, as far as `parse_pricing` looks into it: an object, with what `str` gives of each
-- element of a member that is a list.
pub data Rates : Type 0 where
  rate_list : List Text → Rates
  other_value : Rates

pub data PricingJson : Type 0 where
  object : List (Text × Rates) → PricingJson
  not_object : PricingJson

abbrev pub config_error : Text → Exc
config_error message = record { kind = pricing_config; message = message }

module _ (d : DecimalOps) where
  -- `dict[str, tuple[Decimal, Decimal]]`
  abbrev pub Table : Type 0
  Table = List (Text × Price d.D)

  -- `_self_hosted_zero_rate`, of the value of LLM_VENUE_MODEL, which is empty where it is not set
  unfoldable pub self_hosted_zero_rate : Unicode → Text → Table
  self_hosted_zero_rate u venue_model =
      if is_empty (strip u venue_model)
      then []
      else (strip u venue_model, record { in_rate = d.zero_d; out_rate = d.zero_d }) ∷ []

  -- `{**a, **b}`
  unfoldable pub merge : Table → Table → Table
  unfolding dict_set
  merge a [] = a
  merge a ((model, rates) ∷ b) = merge (dict_set model rates a) b

  module _ {W : Type 0} where
    abbrev pub negative : d.D → Action W Bool
    negative rate w = (d.is_negative rate, w)

    -- `in_rate < 0 or out_rate < 0`
    abbrev pub any_negative : d.D → d.D → Action W Bool
    any_negative in_rate out_rate =
        negative in_rate >>= λ low. if low then pure true else negative out_rate

    abbrev pub add_priced : Text → d.D → d.D → Table → Action W Table
    add_priced model in_rate out_rate table = any_negative in_rate out_rate >>= λ low.
        if low
        then raise (config_error (codes "a model has a negative rate"))
        else pure (dict_set model (record { in_rate = in_rate; out_rate = out_rate }) table)

    abbrev pub add_parsed : Text → Option d.D → Option d.D → Table → Action W Table
    add_parsed model (some in_rate) (some out_rate) table = add_priced model in_rate out_rate table
    add_parsed model (some in_rate) none table =
        raise (config_error (codes "a model has a non-numeric rate"))
    add_parsed model none out_rate table =
        raise (config_error (codes "a model has a non-numeric rate"))

    -- One round of the loop.
    unfoldable pub add_model : Text → Rates → Table → Action W Table
    unfolding dict_set
    add_model model (rate_list (a ∷ b ∷ [])) table = add_parsed model (d.parse a) (d.parse b) table
    add_model model (rate_list []) table =
        raise (config_error (codes "a model must have [input_per_1m, output_per_1m]"))
    add_model model (rate_list (a ∷ [])) table =
        raise (config_error (codes "a model must have [input_per_1m, output_per_1m]"))
    add_model model (rate_list (a ∷ b ∷ c ∷ more)) table =
        raise (config_error (codes "a model must have [input_per_1m, output_per_1m]"))
    add_model model other_value table =
        raise (config_error (codes "a model must have [input_per_1m, output_per_1m]"))

    unfoldable pub add_models : List (Text × Rates) → Table → Action W Table
    unfolding add_model
    add_models [] table = pure table
    add_models ((model, rates) ∷ more) table = add_model model rates table >>= add_models more

    abbrev pub of_json : Option PricingJson → Action W Table
    of_json none = raise (config_error (codes "LLM_PRICING is not valid JSON"))
    of_json (some not_object) =
        raise (config_error (codes "LLM_PRICING must be a non-empty JSON object"))
    of_json (some (object [])) =
        raise (config_error (codes "LLM_PRICING must be a non-empty JSON object"))
    of_json (some (object (entry ∷ entries))) = add_models (entry ∷ entries) []

    -- `parse_pricing`, where `loads` is `json.loads`, `none` where it raises
    unfoldable pub parse_pricing : Unicode → (Text → Option PricingJson) → Text → Action W Table
    unfolding add_models
    parse_pricing u loads raw =
        if is_empty (strip u raw)
        then raise (config_error (codes "LLM_PRICING is empty"))
        else of_json (loads raw)

    -- `get_pricing`
    unfoldable pub get_pricing :
        Unicode → (Text → Option PricingJson) → Text → Text → Action W Table
    unfolding self_hosted_zero_rate merge parse_pricing
    get_pricing u loads venue_model raw = parse_pricing u loads raw >>= λ table.
        pure (merge (self_hosted_zero_rate u venue_model) table)

    abbrev pub priced : ℕ → ℕ → Option (Price d.D) → Action W d.D
    priced input_tokens output_tokens none =
        raise (record { kind = unknown_model; message = codes "no pricing entry" })
    priced input_tokens output_tokens (some p) = pure (
        d.div
          (d.add (d.mul (d.of_nat input_tokens) p.in_rate)
            (d.mul (d.of_nat output_tokens) p.out_rate))
          (d.of_nat 1_000_000))

    -- `CostMeter.cost_for`
    unfoldable pub cost_for : Table → TokenUsage → Action W d.D
    unfolding dict_get
    cost_for pricing usage =
        priced usage.input_tokens usage.output_tokens (dict_get usage.model pricing)
