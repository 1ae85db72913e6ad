-- ===== src/Lib.antt =====
-- The anime recommendation engine: a request for a recommendation is answered by retrieving
-- candidates, asking a language model, and grounding its answer in the candidates.
--
-- The parts, and how a request passes through them:
--   - The middlewares of apps/api (Api/Middleware: middleware.py) count the request and echo its id.
--     The gate (Api/Auth: auth.py) takes the user from a verified token, and the daily quota
--     (Core/Quota: quotas.py of packages/core and apps/api/src/anime_api/quota.py) counts in the string
--     cache (Core/Cache: cache.py).
--   - The routes (Api/Routes: routes/recommend.py, routes/history.py, routes/feedback.py, schemas.py)
--     call the service and keep its results, their usage and cost, and the feedback in the tables of
--     Api/Repository (repository.py, db/models.py of packages/core), in the session of Core/Session
--     (db/engine.py). Core/CostMeter (cost_meter.py) prices the tokens. The stream of the service goes
--     out as server-sent events (Api/Sse: streaming.py).
--   - The cached service (Retrieval/Cached: cached_service.py of packages/retrieval, caches.py of
--     packages/core) looks the normalized query up, and stores what is not degraded.
--   - The recommendation service (Retrieval/Service: service.py) asks the kill switch
--     (Core/KillSwitch: killswitch.py), the check for absent titles (Retrieval/Catalog: catalog.py is
--     what the application gives it), the retriever and the model, and
--     degrades to the static fallback (Core/Schemas: schemas.py, fallback.py). Retrieval/Grounding is
--     its `ground_recommendations`.
--   - The retriever is the pipeline (Retrieval/Pipeline: pipeline.py): the hybrid retriever
--     (Retrieval/Hybrid: hybrid.py) with the rank fusion (Retrieval/Fusion), deduplication, reranking,
--     and the MMR selection (Retrieval/Mmr: mmr.py).
--   - Retrieval/Engine is the service with the pipeline and the kill switch in place, as `get_service`
--     of apps/api/src/anime_api/dependencies.py builds it.
--   - The model is a composition of clients (Llm: llm_client.py, venue.py of packages/core): the budget
--     (Llm/Budget) over the venue routing (Llm/Venue) over the tiers (Llm/Tiered), each provider behind
--     a circuit breaker and a timeout (Core/Breaker: resilience.py). Llm/Build composes them.
--   - The worker (Worker: worker.py of apps/worker, jobs.py of packages/core) takes jobs from a queue,
--     with a marker in the cache for each job, and Worker/Handlers is what it does for each
--     type of job (handlers/, registry.py).
--   - Beside the requests: the caching embedder (Core/Embedder: embedder.py) is the one that the
--     pipeline is given. The corpus is read by Ingestion/Loader (loader.py of packages/ingestion), cut
--     into the texts that are retrieved by the chunker (Ingestion: chunker.py), and written by
--     Ingestion/Indexer (indexer.py). Account is the deletion of a user's rows (rtbf.py of
--     packages/core), which Api/DeleteAccount (routes/account.py) asks for together with Api/Clerk
--     (clerk.py). Core/Redaction (observability/redaction.py) masks the log records. Eval/Metrics
--     (metrics.py of packages/eval) scores a retriever, and Eval/Compare
--     (compare.py of packages/eval) is the gate that compares two evaluation reports, from the reading
--     of the files to the exit code.
--
-- How code corresponds to definitions. A call that may raise, be cancelled or change state is an
-- `Action W A` (Base/Action): a function of the world W to an outcome and the world it leaves. W is a
-- parameter: each theorem holds for any world. An object that code mutates (a breaker, the counters
-- of the venue, the published confidence) is a `Slot` of the world, a lens with its three laws. An
-- exception is an `Exc`, a class and a text; `except Exception` does not catch a cancellation, which
-- is an outcome of its own. A method becomes a function of its name; the part of it behind a `try` or
-- an `await` is a helper `after_...` by clauses on how the awaited call ended. A stream is read to its
-- end: the tokens that it yields and how it ends. Text is a list of code points (Base/Text), with the
-- Unicode tables as an argument. Floats are an argument too (Base/Float), a carrier with its
-- operations; the theorems that compare scores ask for the laws of an order, which hold of floats
-- that are no NaN, and the tests run in millionths.
--
-- What is a parameter: the providers behind the LangChain clients, the two indexes, the embedder, the
-- cross-encoder, numpy's vectors, redis-py, the queue, JSON and digest functions, strftime, and the
-- environment's settings, the verification of a token, HTTP, decimal arithmetic, pandas, regular
-- expressions and difflib. Theorems name what they ask of them as hypotheses.
--
-- Bounds and fuel. The MMR loop has fuel for its rounds; the number of candidates is enough, since
-- each round removes one. The digits of a number have fuel n + 1. `run_worker` has the number of
-- rounds that pass before the stop event. All other recursion is structural.
--
-- A statement of SQL is the function on the lists of rows that it stands for. The rows that a rolled-back
-- session wrote are taken back by writing the tables that it found.
--
-- What is not modelled: metrics, logs and traces beyond the count of the requests; the SQL of the
-- indexes; the server-timing middleware and the health routes; the runners of the
-- evaluation; the command lines other than the comparison; the scripts; the web client. Concurrency is
-- modelled only where calls of a shared breaker interleave, as a sequence of its events
-- (Core/Breaker/Invariant).
pub mod Account
pub mod Api
pub mod Base
pub mod Core
pub mod Eval
pub mod Ingestion
pub mod Llm
pub mod Retrieval
pub mod Worker
