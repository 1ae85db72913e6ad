-- ===== src/Worker/Handlers/Tests.antt =====
-- Tests of the handlers: the world is an account database and an in-memory cache.
use anime_recommendation_eng.Base.{ℕ, ◌≡◌, refl, none, some, [], ◌∷◌, map}
use anime_recommendation_eng.Base.Int.{pos, negsuc}
use anime_recommendation_eng.Base.Action.{Slot, ok, raised, pure}
use anime_recommendation_eng.Base.Text.{codes}
use anime_recommendation_eng.Core.Cache.Memory.{InMemoryCache, incr, new_cache}
use anime_recommendation_eng.Core.Cache.Object.{memory_cache}
use anime_recommendation_eng.Account.{Db}
use anime_recommendation_eng.Account.Rows.{IsErased}
use anime_recommendation_eng.Api.Repository.{Tables}
use anime_recommendation_eng.Worker.Payload.{Payload, int, text}
use anime_recommendation_eng.Worker.Handlers.{
  HandlerContext, handle_feedback_recorded, handle_gdpr_delete, most_counted, ids_since,
  window_start, feedback_count_key, value_error_of,
}
use anime_recommendation_eng.Worker.Handlers.Effects.{
  queue_of, reviewed, handle_gdpr_delete-Erases, handle_feedback_recorded-Queue,
}

pub record World : Type 0 where
  pub db : Db
  pub tables : Tables ℕ
  pub memory : InMemoryCache

abbrev accounts : Slot World Db
accounts = record {
  read = λ w. w.db;
  write = λ s w. record w { db = s };
  read-write = λ s w. refl;
  write-read = λ w. refl;
  write-write = λ s t w. refl;
}

abbrev tables : Slot World (Tables ℕ)
tables = record {
  read = λ w. w.tables;
  write = λ s w. record w { tables = s };
  read-write = λ s w. refl;
  write-read = λ w. refl;
  write-write = λ s t w. refl;
}

abbrev memory : Slot World InMemoryCache
memory = record {
  read = λ w. w.memory;
  write = λ s w. record w { memory = s };
  read-write = λ s w. refl;
  write-read = λ w. refl;
  write-write = λ s t w. refl;
}

abbrev context : HandlerContext World ℕ
context = record {
  cache = memory_cache memory 0;
  accounts = accounts;
  tables = tables;
  now = 1_000_000_000_000;
  parse_int = λ t. none;
  dumps_member = λ query_history_id mal_id. codes "member";
  dumps_ids = λ ids. ids;
  ingest = λ path. pure tt;
}

abbrev before : World
before = record {
  db = record {
    feedback = [];
    query_history = record { id = 1; user_id = some (codes "ann"); query = codes "q" } ∷ [];
    usage_daily = [];
    users = record { id = codes "ann"; email = none } ∷ [];
    account_deletions = [];
  };
  tables = record {
    users = [];
    query_history = [];
    feedback =
        record {
          id = 1;
          user_id = none;
          query_history_id = none;
          mal_id = 19;
          rating = pos 1;
          created_at = 999_000_000_000;
        }
        ∷ record {
          id = 2;
          user_id = none;
          query_history_id = none;
          mal_id = 1;
          rating = negsuc 0;
          created_at = 999_000_000_000;
        }
        ∷ [];
    usage_daily = [];
    next_history = 1;
    next_feedback = 3;
  };
  memory = new_cache;
}

abbrev thumbs_down : Payload
thumbs_down = (codes "mal_id", int (pos 19)) ∷ (codes "rating", int (negsuc 0)) ∷ []

abbrev names_ann : Payload
names_ann = (codes "user_id", text (codes "ann")) ∷ []

-- Only the thumbs-up of the window count.
window : ids_since (window_start 1_000_000_000_000 (pos 7)) before.tables.feedback ≡ 19 ∷ []
unfolding window_start
window = refl

ranked : map (λ e. e.0) (most_counted 2 (5 ∷ 7 ∷ 7 ∷ 3 ∷ 5 ∷ 7 ∷ [])) ≡ 7 ∷ 5 ∷ []
unfolding most_counted
ranked = refl

nameless : handle_gdpr_delete context [] before ≡ (
  raised (value_error_of (codes "gdpr.delete_user requires a 'user_id' in the payload")),
  before,
)
unfolding handle_gdpr_delete
nameless = refl

handle_gdpr_delete-Erases_test :
    let p = handle_gdpr_delete context names_ann before in
    (p.0 ≡ ok tt)
    × IsErased (codes "ann") p.1.db
    × (handle_gdpr_delete context names_ann p.1 ≡ (ok tt, p.1))
handle_gdpr_delete-Erases_test =
    handle_gdpr_delete-Erases (codes "ann") context names_ann before refl refl

counted_once : incr 0 feedback_count_key new_cache ≡ (
  some 1,
  record {
    kv = (feedback_count_key, record { value = codes "1"; expiry = none }) ∷ [];
    lists = [];
  },
)
unfolding incr
counted_once = refl

handle_feedback_recorded-Queue_test :
    let p = handle_feedback_recorded context thumbs_down before in
    (p.0 ≡ ok tt)
    × (queue_of p.1.memory ≡ reviewed context memory 0 thumbs_down (negsuc 0) (queue_of new_cache))
    × (p.1.memory.kv ≡ (feedback_count_key, record { value = codes "1"; expiry = none }) ∷ [])
handle_feedback_recorded-Queue_test =
    handle_feedback_recorded-Queue context memory 0 thumbs_down (negsuc 0) before 1
      (record {
        kv = (feedback_count_key, record { value = codes "1"; expiry = none }) ∷ [];
        lists = [];
      })
      refl refl counted_once
