-- ===== src/Worker/Tests.antt =====
-- Tests of the worker: the world is the list of the markers that are set, and what was deleted from
-- the queue.
use anime_recommendation_eng.Base.{
  ℕ, ◌≡◌, refl, inl, inr, Bool, true, false, not, Option, none, some, List, [], ◌∷◌, any, keep,
  if◌then◌else◌, Bool-cases,
}
use anime_recommendation_eng.Base.Action.{Action, Exc, ok, raised, cancelled, other_error}
use anime_recommendation_eng.Base.Raises.{Raises, Never}
use anime_recommendation_eng.Base.Text.{Text, codes, text_eq, text_eq_self}
use anime_recommendation_eng.Core.Cache.{Cache, null_cache}
use anime_recommendation_eng.Worker.{
  JobMessage, JobType, feedback_recorded, reembed_corpus, popular_precompute, gdpr_delete, Consumer,
  SqsMessage, Sqs, duplicate, failed, poison, process_message, process_parsed, validated, post_init,
  dispatch, after_handler, handle,
}
use anime_recommendation_eng.Worker.Delivery.{
  IsMarker, process_message-Never, process_message-retried, process_message-unregistered,
}
use anime_recommendation_eng.Worker.Loop.{handle-kept, handle-poison_kept}

-- The markers, and the receipts that were deleted.
abbrev World : Type 0
World = List Text × List Text

abbrev seen : Text → World → Bool
seen key w = any (λ k. text_eq key k) w.0

abbrev mark : Text → World → World
mark key w = (key ∷ w.0, w.1)

abbrev clear : Text → World → World
clear key w = (keep (λ k. not (text_eq key k)) w.0, w.1)

-- A cache of markers; the worker uses no other operation.
abbrev markers : Cache World
markers = record (null_cache {W = World}) {
  set_nx = λ key value ttl w. if seen key w then (ok false, w) else (ok true, mark key w);
  delete = λ key w. (ok tt, clear key w);
}

any-keep-not :
    (key : Text) (l : List Text)
    → any (λ k. text_eq key k) (keep (λ k. not (text_eq key k)) l) ≡ false
any-keep-not key [] = refl
any-keep-not key (k ∷ l) = elim (Bool-cases (text_eq key k)) [
  | inl same ↦ rw same (any-keep-not key l)
  | inr other ↦ rw other (rw other (any-keep-not key l))
]

abbrev outage : Exc
outage = record { kind = other_error; message = codes "503" }

-- The handlers of the four types: one that succeeds, one that raises, one that is cancelled, none.
abbrev handler_of : JobType → Option (Text → Action World (Unit {0}))
handler_of feedback_recorded = some (λ payload w. (ok tt, w))
handler_of reembed_corpus = some (λ payload w. (raised outage, w))
handler_of gdpr_delete = some (λ payload w. (cancelled, w))
handler_of popular_precompute = none

abbrev job : JobType → JobMessage Text
job type = record { id = codes "1"; type = type; payload = []; idempotency_key = codes "k" }

abbrev consumer : JobType → Consumer World Text
consumer type = record {
  parse = λ raw. if text_eq raw (codes "?") then none else some (job type);
  cache = markers;
  registry = handler_of;
}

markers-IsMarker : (type : JobType) → IsMarker (consumer type) seen mark clear
unfolding null_cache
markers-IsMarker type = record {
  set_nx_new = λ key value ttl w fresh. rw fresh refl;
  set_nx_old = λ key value ttl w old. rw old refl;
  delete_clears = λ key w. refl;
  seen_mark = λ key w. rw (text_eq_self key) refl;
  seen_clear = λ key w. any-keep-not key w.0;
}

set_nx-Never :
    (key value : Text) (ttl : ℕ) (w : World) → Raises Never (markers.set_nx key value ttl w)
unfolding null_cache
set_nx-Never key value ttl w = elim (Bool-cases (seen key w)) [
  | inl old ↦ rw old tt
  | inr new ↦ rw new tt
]

delete-Never : (key : Text) (w : World) → Raises Never (markers.delete key w)
unfolding null_cache
delete-Never key w = tt

abbrev empty : World
empty = ([], [])

abbrev k : Text
k = codes "seen:k"

process_message-Never_test :
    Raises Never (process_message (consumer reembed_corpus) (codes "{}") empty)
process_message-Never_test =
    process_message-Never (consumer reembed_corpus) set_nx-Never delete-Never (codes "{}") empty

process_message-retried_test :
    (process_message (consumer reembed_corpus) (codes "{}") empty ≡ (ok failed, empty))
    × (process_message (consumer reembed_corpus) (codes "{}") empty
        ≡ after_handler
            (consumer reembed_corpus)
            (job reembed_corpus)
            (raised outage, (k ∷ [], [])))
unfolding validated post_init
process_message-retried_test =
    process_message-retried (consumer reembed_corpus) seen mark clear
      (markers-IsMarker reembed_corpus) (codes "{}") (job reembed_corpus) refl
      (λ payload w. (raised outage, w)) refl empty (k ∷ [], []) outage refl refl

process_message-unregistered_test :
    (process_message (consumer popular_precompute) (codes "{}") empty ≡ (ok poison, (k ∷ [], [])))
    × (process_message (consumer popular_precompute) (codes "{}") (k ∷ [], [])
        ≡ (ok duplicate, (k ∷ [], [])))
unfolding validated post_init
process_message-unregistered_test =
    process_message-unregistered (consumer popular_precompute) seen mark clear
      (markers-IsMarker popular_precompute) (codes "{}") (job popular_precompute) refl empty refl
      refl

abbrev garbage : SqsMessage
garbage = record { body = codes "?"; receipt_handle = codes "r" }

abbrev request : SqsMessage
request = record { body = codes "{}"; receipt_handle = codes "r" }

-- A queue whose dead-letter queue cannot be reached.
abbrev queue : Sqs World
queue = record {
  receive_message = λ w. (ok (garbage ∷ request ∷ []), w);
  send_to_dlq = λ body w. (raised outage, w);
  delete_message = λ receipt w. (ok tt, (w.0, receipt ∷ w.1));
}

fails : process_message (consumer reembed_corpus) (codes "{}") empty ≡ (ok failed, empty)
unfolding process_message process_parsed validated post_init dispatch after_handler null_cache
fails = refl

handle-kept_test : handle (consumer reembed_corpus) queue request empty ≡ (ok tt, empty)
handle-kept_test =
    handle-kept (consumer reembed_corpus) queue request empty empty outage (inl fails)

handle-poison_kept_test : handle (consumer reembed_corpus) queue garbage empty ≡ (ok tt, empty)
unfolding process_message process_parsed validated
handle-poison_kept_test =
    handle-poison_kept (consumer reembed_corpus) queue garbage empty empty empty outage refl refl
