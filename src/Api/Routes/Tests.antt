-- ===== src/Api/Routes/Tests.antt =====
-- Tests of the routes: the world is the tables, and a rate is a number of whole dollars.
use anime_recommendation_eng.Base.{ℕ, ◌+◌, ◌*◌, ◌/◌, ◌≡◌, refl, false, none, some, [], ◌∷◌, min}
use anime_recommendation_eng.Base.Int.{pos, negsuc}
use anime_recommendation_eng.Base.Action.{Slot, Exc, ok, raised, raise, pure, other_error}
use anime_recommendation_eng.Base.Text.{codes}
use anime_recommendation_eng.Core.Schemas.{RecommendationResult}
use anime_recommendation_eng.Core.CostMeter.{DecimalOps, Table}
use anime_recommendation_eng.Core.Quota.{too_many_requests}
use anime_recommendation_eng.Api.Auth.{AuthedUser, http_error}
use anime_recommendation_eng.Api.Repository.{Tables}
use anime_recommendation_eng.Api.Repository.Laws.{usage_at}
use anime_recommendation_eng.Api.Routes.{
  App, recommend, recommend_request, submit_feedback, list_history,
}
use anime_recommendation_eng.Api.Routes.History.{history_of, recommend-history}

abbrev dollars : DecimalOps
dollars = record {
  D = ℕ;
  zero_d = 0;
  parse = λ _. none;
  is_negative = λ _. ok false;
  of_nat = λ n. n;
  add = ◌+◌;
  mul = ◌*◌;
  div = ◌/◌;
}

abbrev column : ℕ → ℕ
column n = n

abbrev tables : Slot (Tables ℕ) (Tables ℕ)
tables = record {
  read = λ w. w;
  write = λ s w. s;
  read-write = λ s w. refl;
  write-read = λ w. refl;
  write-write = λ s t w. refl;
}

abbrev result : RecommendationResult
result = record {
  items =
      record { mal_id = 19; title = codes "Monster"; summary = codes "s"; why_match = codes "w" }
      ∷ [];
  refusal = none;
  degraded = false;
  notice = none;
}

-- The model that answered has no price.
abbrev app : App (Tables ℕ) ℕ
app = record {
  service = record {
    recommend = λ query tenant. pure result;
    astream = λ query tenant w. ([], ok tt, w);
  };
  last_usage = λ _. some (record { model = codes "new"; input_tokens = 90; output_tokens = 10 });
  started = 7;
  today = 1;
}

abbrev ann : AuthedUser
ann = record { id = codes "ann"; email = none }

abbrev bob : AuthedUser
bob = record { id = codes "bob"; email = none }

abbrev no_prices : Table dollars
no_prices = []

abbrev before : Tables ℕ
before = record {
  users = [];
  query_history =
      record {
        id = 3;
        user_id = some (codes "bob");
        query = codes "q";
        response = result;
        created_at = 5;
      }
      ∷ [];
  feedback = [];
  usage_daily =
      record {
        user_id = codes "ann";
        day = 1;
        query_count = 2;
        input_tokens = 5;
        output_tokens = 5;
        cost_usd = 3;
      }
      ∷ [];
  next_history = 4;
  next_feedback = 1;
}

-- The third query of the day: the tokens are counted, and the cost stays.
counts :
    usage_at dollars column
      (codes "ann")
      1
      (recommend dollars column tables app no_prices ann (codes "q2") before).1.usage_daily
    ≡ some (record {
      user_id = codes "ann";
      day = 1;
      query_count = 3;
      input_tokens = 95;
      output_tokens = 15;
      cost_usd = 3;
    })
unfolding recommend
counts = refl

-- Over the quota nothing is asked or written.
over_quota :
    recommend_request dollars column tables app no_prices
      (pure ann)
      (λ id. pure (too_many_requests (codes "quota") 60))
      (codes "q2")
      before
    ≡ (raised (http_error 429 (codes "quota")), before)
unfolding recommend_request
over_quota = refl

-- A rating is up or down, and an answer that is not there cannot be rated.
rejects :
    submit_feedback dollars column tables none
      (codes "id")
      7
      ann
      (record { query_history_id = none; mal_id = 19; rating = pos 0 })
      before
    ≡ (raised (http_error 422 (codes "rating must be 1 (up) or -1 (down)")), before)
unfolding submit_feedback
rejects = refl

abbrev failing : Exc
failing = record { kind = other_error; message = codes "queue" }

-- A queue that fails does not fail the request.
rates :
    (submit_feedback dollars column tables
      (some (λ job. raise failing))
      (codes "id")
      7
      ann
      (record { query_history_id = some 3; mal_id = 19; rating = negsuc 0 })
      before).0
    ≡ ok 1
unfolding submit_feedback
rates = refl

recommend-history_example :
    let after = (recommend dollars column tables app no_prices ann (codes "q2") before).1 in
    (list_history dollars column tables 3 ann 3 0 after ≡ (
      ok (
          record { id = 4; query = codes "q2"; recommendations = result.items; created_at = 7 }
          ∷ history_of dollars column tables app no_prices ann.id 2 0 before),
      after,
    ))
    × (list_history dollars column tables 2 bob 5 0 after
        ≡ (ok (history_of dollars column tables app no_prices bob.id (min 5 2) 0 before), after))
recommend-history_example =
    recommend-history dollars column tables app no_prices ann bob (codes "q2") result 2 5 0 before
      before (λ t v. refl) refl (refl, tt) refl
