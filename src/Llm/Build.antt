-- ===== src/Llm/Build.antt =====
-- The production composition of the clients (packages/core/src/anime_core/llm_client.py): the budget
-- over the venue routing, if it is on, over the tiers, over one breaker and timeout for each
-- provider. The providers and what the environment configures are arguments.
use anime_recommendation_eng.Base.{ℕ, Bool, Option, none, some, if◌then◌else◌}
use anime_recommendation_eng.Base.Action.{Slot}
use anime_recommendation_eng.Base.Text.{Unicode}
use anime_recommendation_eng.Core.Breaker.{Breaker}
use anime_recommendation_eng.Llm.{LlmClient}
use anime_recommendation_eng.Llm.Budget.{budgeted}
use anime_recommendation_eng.Llm.Tiered.{Tiers, default_should_escalate, resilient, tiered}
use anime_recommendation_eng.Llm.Venue.{Routes, venue_routed}

pub record Config (W : Type 0) : Type 0 where
  pub clock : W → ℕ
  pub groq_timeout : ℕ
  pub openai_timeout : ℕ
  pub escalation_word_threshold : ℕ
  pub groq_is_primary : Bool
  pub groq_default : LlmClient W
  pub groq_default_breaker : Slot W Breaker
  pub groq_escalation : LlmClient W
  pub groq_escalation_breaker : Slot W Breaker
  pub openai : LlmClient W
  pub openai_breaker : Slot W Breaker
  pub max_input_tokens : ℕ
  pub max_output_tokens : ℕ

module _ {W : Type 0} (u : Unicode) (c : Config W) where
  open c use {clock}

  -- `build_default_tiered_client`: the three objects, and their order.
  unfoldable pub default_tiers : Tiers W
  unfolding resilient
  default_tiers =
      let groq = resilient clock 0 c.groq_default_breaker c.groq_timeout c.groq_default in
      let big = resilient clock 1 c.groq_escalation_breaker c.groq_timeout c.groq_escalation in
      let openai = resilient clock 2 c.openai_breaker c.openai_timeout c.openai in
      let escalates = default_should_escalate u c.escalation_word_threshold in
      if c.groq_is_primary
      then record {
        default = groq;
        escalation = big;
        fallback = openai;
        should_escalate = escalates;
      }
      else record {
        default = openai;
        escalation = openai;
        fallback = groq;
        should_escalate = escalates;
      }

  -- `build_default_llm_client`; the routes are given the tiered client as their hosted leg, and
  -- `none` stands for the flag being off.
  unfoldable pub default_client : Option (LlmClient W → Routes W) → LlmClient W
  unfolding default_tiers
  default_client routes =
      let hosted = tiered u 3 default_tiers in
      let inner : LlmClient W = elim routes [
        | none ↦ hosted
        | some build ↦ venue_routed 4 (build hosted)
      ] in
      budgeted u 5 (record {
        inner = inner;
        max_input_tokens = c.max_input_tokens;
        max_output_tokens = c.max_output_tokens;
      })
