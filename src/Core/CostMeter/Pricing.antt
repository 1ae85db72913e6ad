-- ===== src/Core/CostMeter/Pricing.antt =====
-- The price table (packages/core/src/anime_core/cost_meter.py): what is accepted, and what is found.
use anime_recommendation_eng.Base.{◌≡◌, ◌⊎◌, true, false, some, is_empty, All}
use anime_recommendation_eng.Base.Action.{ok}
use anime_recommendation_eng.Base.Text.{Text, Unicode, strip}
use anime_recommendation_eng.Core.Cache.Memory.{dict_get}
use anime_recommendation_eng.Core.CostMeter.{DecimalOps, Price, Table}

module _ (d : DecimalOps) where
  -- Both rates compare, and are not below zero.
  abbrev pub IsPrice : Price d.D → Type 0
  IsPrice p = (d.is_negative p.in_rate ≡ ok false) × (d.is_negative p.out_rate ≡ ok false)

  abbrev pub IsPricing : Table d → Type 0
  IsPricing = All (λ e. IsPrice e.1)

  -- The table has a price for the model.
  abbrev pub Priced : Text → Table d → Type 0
  Priced model table = (p : Price d.D) × (dict_get model table ≡ some p)

  -- A table that can be used: every rate compares and is not below zero, and the model of the venue,
  -- where one is named, has a price.
  abbrev pub IsUsable : Unicode → Text → Table d → Type 0
  IsUsable u venue_model table =
      IsPricing table
      × ((is_empty (strip u venue_model) ≡ true) ⊎ Priced (strip u venue_model) table)
