-- ===== src/Worker.antt =====
-- The worker (apps/worker/src/anime_worker/worker.py and registry.py) and its job contract
-- (packages/core/src/anime_core/jobs.py). The parser of a message's body, the handlers and the calls
-- of SQS are arguments; the logs and metrics are left out.
pub mod Delivery
pub mod Loop
pub mod Payload
pub mod Handlers
mod Tests
use anime_recommendation_eng.Base.{
  ℕ, ◌*◌, Bool, true, false, Option, none, some, List, [], ◌∷◌, ◌++◌, is_empty, if◌then◌else◌,
}
use anime_recommendation_eng.Base.Action.{
  Action, Exc, Outcome, ok, raised, cancelled, pure, proceed, resume, ◌>>=◌, ◌>>◌, catch,
}
use anime_recommendation_eng.Base.Text.{Text, codes}
use anime_recommendation_eng.Core.Cache.{Cache}

pub data JobType : Type 0 where
  feedback_recorded reembed_corpus popular_precompute gdpr_delete : JobType

pub data QueueCategory : Type 0 where
  feedback ingestion housekeeping : QueueCategory

-- `JOB_QUEUE`
unfoldable pub job_queue : JobType → QueueCategory
job_queue feedback_recorded = feedback
job_queue reembed_corpus = ingestion
job_queue popular_precompute = housekeeping
job_queue gdpr_delete = housekeeping

-- `JobMessage`, over the type of the payloads; `created_at` is not read.
pub record JobMessage (P : Type 0) : Type 0 where
  pub id : Text
  pub type : JobType
  pub payload : P
  pub idempotency_key : Text

-- `model_post_init`
unfoldable pub post_init : {P : Type 0} → JobMessage P → JobMessage P
post_init m = if is_empty m.idempotency_key then record m { idempotency_key = m.id } else m

abbrev pub seen_ttl_seconds : ℕ
seen_ttl_seconds = 7 * 24 * 3600

abbrev pub seen_key : {P : Type 0} → JobMessage P → Text
seen_key m = codes "seen:" ++ m.idempotency_key

pub data ProcessResult : Type 0 where
  processed duplicate failed poison : ProcessResult

-- What the consumer is given: the parser of `JobMessage.model_validate_json`, `none` where it raises
-- `ValidationError`; the cache; and the registry, with the context of the handlers inside.
pub record Consumer (W P : Type 0) : Type 0 where
  pub parse : Text → Option (JobMessage P)
  pub cache : Cache W
  pub registry : JobType → Option (P → Action W (Unit {0}))

module _ {W P : Type 0} (c : Consumer W P) where
  -- The `try` of the handler: any exception clears the marker and is a failure.
  unfoldable pub after_handler : JobMessage P → Outcome (Unit {0}) × W → Outcome ProcessResult × W
  after_handler m (ok done, w) = (ok processed, w)
  after_handler m (raised exc, w) = (c.cache.delete (seen_key m) >> pure failed) w
  after_handler m (cancelled, w) = (cancelled, w)

  unfoldable pub dispatch : JobMessage P → Option (P → Action W (Unit {0})) → Action W ProcessResult
  unfolding after_handler
  dispatch m none w = (ok poison, w)
  dispatch m (some handler) w = after_handler m (handler m.payload w)

  abbrev pub if_new : JobMessage P → Bool → Action W ProcessResult
  if_new m true = dispatch m (c.registry m.type)
  if_new m false = pure duplicate

  unfoldable pub process_parsed : Option (JobMessage P) → Action W ProcessResult
  unfolding dispatch
  process_parsed none = pure poison
  process_parsed (some m) = c.cache.set_nx (seen_key m) (codes "1") seen_ttl_seconds >>= if_new m

  -- `JobMessage.model_validate_json`: what is parsed passes `model_post_init`.
  unfoldable pub validated : Option (JobMessage P) → Option (JobMessage P)
  unfolding post_init
  validated none = none
  validated (some m) = some (post_init m)

  abbrev pub validate : Text → Option (JobMessage P)
  validate raw_body = validated (c.parse raw_body)

  -- `process_message`
  unfoldable pub process_message : Text → Action W ProcessResult
  unfolding process_parsed validated
  process_message raw_body = process_parsed (validate raw_body)

pub record SqsMessage : Type 0 where
  pub body : Text
  pub receipt_handle : Text

-- The calls of the SQS client.
pub record Sqs (W : Type 0) : Type 0 where
  pub receive_message : Action W (List SqsMessage)
  pub send_to_dlq : Text → Action W (Unit {0})
  pub delete_message : Text → Action W (Unit {0})

module _ {W P : Type 0} (c : Consumer W P) (sqs : Sqs W) where
  unfoldable pub settle : SqsMessage → ProcessResult → Action W (Unit {0})
  settle msg poison = sqs.send_to_dlq msg.body >> sqs.delete_message msg.receipt_handle
  settle msg processed = sqs.delete_message msg.receipt_handle
  settle msg duplicate = sqs.delete_message msg.receipt_handle
  settle msg failed = pure tt

  -- The body of the `for` loop: any exception is logged, and the message left.
  unfoldable pub handle : SqsMessage → Action W (Unit {0})
  unfolding process_message settle
  handle msg = catch (process_message c msg.body >>= settle msg) (λ _. pure tt)

  unfoldable pub handle_all : List SqsMessage → Action W (Unit {0})
  unfolding handle
  handle_all [] = pure tt
  handle_all (msg ∷ msgs) = handle msg >> handle_all msgs

  -- `run_worker`, for the rounds that pass before the stop event is set.
  unfoldable pub run_worker : ℕ → Action W (Unit {0})
  unfolding handle_all
  run_worker ℕ.zero = pure tt
  run_worker (ℕ.suc rounds) = sqs.receive_message >>= handle_all >> run_worker rounds
