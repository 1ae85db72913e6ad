-- ===== src/Worker/Handlers/Effects.antt =====
-- What the handlers of feedback and of deletion leave (apps/worker/src/anime_worker/handlers).
use anime_recommendation_eng.Base.{
  ℕ, ◌≡◌, refl, sym, ap, ◌∙◌, inl, inr, Bool, false, Option, none, some, List, [], ◌∷◌, map, keep,
  take, is_empty, if◌then◌else◌, Bool-cases, Option-cases,
}
use anime_recommendation_eng.Base.Int.{ℤ, is_negative}
use anime_recommendation_eng.Base.Action.{Slot, ok}
use anime_recommendation_eng.Base.Text.{Text, codes}
use anime_recommendation_eng.Core.Cache.Memory
use anime_recommendation_eng.Core.Cache.Memory.{InMemoryCache, Entry}
use anime_recommendation_eng.Core.Cache.Counter.{dict_get-set}
use anime_recommendation_eng.Core.Cache.Object.{memory_cache}
use anime_recommendation_eng.Core.Session.{session_scope}
use anime_recommendation_eng.Account.{
  Db, FeedbackRow, HistoryRow, owned, delete_where, feedback_of, history_of, usage_of, user_of,
  refers_to, unlink, unlink_history, unlink_feedback,
}
use anime_recommendation_eng.Account.Rows.{
  Clean, IsErased, delete-Clean, unlink-history, unlink-feedback,
}
use anime_recommendation_eng.Worker.Payload.{Payload, int, text, get}
use anime_recommendation_eng.Worker.Handlers.{
  HandlerContext, review_queue_key, feedback_count_key, int_of_value, handle_feedback_recorded,
  erase, delete_named, handle_gdpr_delete,
}

-- A clean table is not changed by a deletion.
delete_where-idle :
    {R : Type 0} (p : R → Bool) (rows : List R) → Clean p rows → delete_where p rows ≡ rows
delete_where-idle p [] h = refl
delete_where-idle p (r ∷ rs) h = rw h.0 (ap (λ t. r ∷ t) (delete_where-idle p rs h.1))

keep-Clean_nil : {R : Type 0} (p : R → Bool) (rows : List R) → Clean p rows → keep p rows ≡ []
keep-Clean_nil p [] h = refl
keep-Clean_nil p (r ∷ rs) h = rw h.0 (keep-Clean_nil p rs h.1)

module _ (uid : Text) where
  refers_to-nil : (r : FeedbackRow) → refers_to uid [] r ≡ false
  refers_to-nil r = elim (Option-cases r.query_history_id) [
    | inl missing ↦ rw missing refl
    | inr (id, there) ↦ rw there refl
  ]

  nothing_refers : (rows : List FeedbackRow) → delete_where (refers_to uid []) rows ≡ rows
  nothing_refers [] = refl
  nothing_refers (r ∷ rs) = rw (refers_to-nil r) (ap (λ t. r ∷ t) (nothing_refers rs))

  unlink-idle : (owner : Option Text) → owned uid owner ≡ false → unlink uid owner ≡ owner
  unlink-idle owner h = rw h refl

  unlink_history-idle :
      (rows : List HistoryRow) → Clean (history_of uid) rows → map (unlink_history uid) rows ≡ rows
  unlink_history-idle [] h = refl
  unlink_history-idle (r ∷ rs) h =
      rw (unlink-idle r.user_id h.0) (ap (λ t. r ∷ t) (unlink_history-idle rs h.1))

  unlink_feedback-idle :
      (rows : List FeedbackRow)
      → Clean (feedback_of uid) rows
      → map (unlink_feedback uid) rows ≡ rows
  unlink_feedback-idle [] h = refl
  unlink_feedback-idle (r ∷ rs) h =
      rw (unlink-idle r.user_id h.0) (ap (λ t. r ∷ t) (unlink_feedback-idle rs h.1))

  module _ {W D : Type 0} (ctx : HandlerContext W D) where
    erase-IsErased : (db : Db) → IsErased uid (erase ctx uid db)
    unfolding erase
    erase-IsErased db = record {
      feedback = unlink-feedback uid _;
      query_history = unlink-history uid _;
      usage_daily = delete-Clean (usage_of uid) _;
      users = delete-Clean (user_of uid) _;
    }

    erase-idle : (db : Db) → IsErased uid db → erase ctx uid db ≡ db
    unfolding erase
    erase-idle db e =
        let f = delete_where-idle (feedback_of uid) db.feedback e.feedback in
        let h = delete_where-idle (history_of uid) db.query_history e.query_history in
        let k = keep-Clean_nil (history_of uid) db.query_history e.query_history in
        let u = delete_where-idle (usage_of uid) db.usage_daily e.usage_daily in
        let s = delete_where-idle (user_of uid) db.users e.users in
        simp (
          f,
          h,
          k,
          u,
          s,
          nothing_refers,
          unlink_history-idle db.query_history e.query_history,
          unlink_feedback-idle db.feedback e.feedback,
        )

    -- The job that names a user leaves no row of the user in the four tables, whatever they held, and a
    -- second delivery of it succeeds and changes nothing.
    pub handle_gdpr_delete-Erases :
        (payload : Payload) (w : W)
        → get (codes "user_id") payload ≡ some (text uid)
        → is_empty uid ≡ false
        → let p = handle_gdpr_delete ctx payload w in
          (p.0 ≡ ok tt)
          × IsErased uid (ctx.accounts.read p.1)
          × (handle_gdpr_delete ctx payload p.1 ≡ (ok tt, p.1))
    unfolding handle_gdpr_delete delete_named session_scope
    handle_gdpr_delete-Erases payload w names there =
        let gone = erase-IsErased (ctx.accounts.read w) in
        rw (names, there, ctx.accounts.read-write)
          (refl, gone, rw (erase-idle _ gone, ctx.accounts.write-write) refl)

-- A count leaves the lists alone.
module _ (now : ℕ) (key : Text) where
  read_item-lists :
      (m : InMemoryCache) (item : Option Entry)
      → (Memory.read_item now key m item).1.lists ≡ m.lists
  unfolding Memory.read_item
  read_item-lists m none = refl
  read_item-lists m (some e) = elim (Bool-cases (Memory.expired now e)) [
    | inl old ↦ rw old refl
    | inr fresh ↦ rw fresh refl
  ]

  count_on-lists : (m : InMemoryCache) (n : Option ℕ) → (Memory.count_on key m n).1.lists ≡ m.lists
  unfolding Memory.count_on
  count_on-lists m none = refl
  count_on-lists m (some n) = refl

  incr_value-lists :
      (p : Option Text × InMemoryCache) → (Memory.incr_value key p).1.lists ≡ p.1.lists
  unfolding Memory.incr_value
  incr_value-lists (none, m) = count_on-lists m (some 0)
  incr_value-lists (some t, m) = count_on-lists m (Memory.int_of t)

  incr-lists : (m : InMemoryCache) → (Memory.incr now key m).1.lists ≡ m.lists
  unfolding Memory.incr Memory.get
  incr-lists m =
      incr_value-lists (Memory.read_item now key m (Memory.dict_get key m.kv))
      ∙ read_item-lists m (Memory.dict_get key m.kv)

-- The review queue, newest first.
abbrev pub queue_of : InMemoryCache → List Text
queue_of m = Memory.list_range review_queue_key 0 none m

push_capped-queue :
    (member : Text) (n : ℕ) (m : InMemoryCache)
    → queue_of (Memory.push_capped review_queue_key member n m) ≡ take n (member ∷ queue_of m)
unfolding Memory.list_range Memory.push_capped
push_capped-queue member n m =
    ap (λ (l : Option (List Text)). elim l [ none ↦ [] | some queue ↦ queue ])
      (dict_get-set review_queue_key (take n (member ∷ Memory.list_at review_queue_key m)) m.lists)

queue_of-lists : (m m' : InMemoryCache) → m.lists ≡ m'.lists → queue_of m ≡ queue_of m'
unfolding Memory.list_range
queue_of-lists m m' h = rw h refl

module _ {W D : Type 0} (ctx : HandlerContext W D) (mem : Slot W InMemoryCache) (now : ℕ) where
  -- What a job of feedback puts into the queue.
  abbrev pub reviewed : Payload → ℤ → List Text → List Text
  reviewed payload rating queue =
      if is_negative rating
      then take 500 (
          ctx.dumps_member (get (codes "query_history_id") payload) (get (codes "mal_id") payload)
          ∷ queue)
      else queue

  -- On the in-memory cache, a thumbs-down puts its answer at the head of the review queue, which keeps
  -- the 500 newest, and a thumbs-up leaves the queue alone. Both are counted once. The counter is
  -- asked to hold a number.
  pub handle_feedback_recorded-Queue :
      (payload : Payload) (rating : ℤ) (w : W) (n : ℕ) (m : InMemoryCache)
      → ctx.cache ≡ memory_cache mem now
      → get (codes "rating") payload ≡ some (int rating)
      → Memory.incr now feedback_count_key (mem.read w) ≡ (some n, m)
      → let p = handle_feedback_recorded ctx payload w in
        (p.0 ≡ ok tt)
        × (queue_of (mem.read p.1) ≡ reviewed payload rating (queue_of (mem.read w)))
        × ((mem.read p.1).kv ≡ m.kv)
  unfolding handle_feedback_recorded int_of_value
  handle_feedback_recorded-Queue payload rating w n m same rated counts =
      let kept : queue_of m ≡ queue_of (mem.read w) = queue_of-lists m (mem.read w) (
        sym (ap (λ (q : Option ℕ × InMemoryCache). q.1.lists) counts)
        ∙ incr-lists now feedback_count_key (mem.read w)) in
      rw (same, rated, counts)
        (elim (Bool-cases (is_negative rating)) [
          | inl down ↦
              rw (down, mem.read-write, mem.read-write)
                (refl, push_capped-queue _ 500 m ∙ rw kept refl, unfold Memory.push_capped in refl)
          | inr up ↦ rw (up, mem.read-write) (refl, kept, refl)
        ])
