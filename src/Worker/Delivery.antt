-- ===== src/Worker/Delivery.antt =====
-- Delivery at least once, with the marker in the cache (apps/worker/src/anime_worker/worker.py).
use anime_recommendation_eng.Base.{ℕ, ◌≡◌, refl, ap, ◌∙◌, Bool, true, false, Option, none, some}
use anime_recommendation_eng.Base.Action.{
  Action, Exc, Outcome, ok, raised, cancelled, pure, proceed,
}
use anime_recommendation_eng.Base.Raises.{Raises, Never, proceed-Raises}
use anime_recommendation_eng.Base.Text.{Text, codes}
use anime_recommendation_eng.Worker.{
  JobMessage, duplicate, failed, poison, Consumer, seen_key, seen_ttl_seconds, after_handler,
  dispatch, if_new, validate, process_parsed, process_message,
}

module _ {W P : Type 0} (c : Consumer W P) where
  module _
      (marks : (key value : Text) (ttl : ℕ) (w : W) → Raises Never (c.cache.set_nx key value ttl w))
      (clears : (key : Text) (w : W) → Raises Never (c.cache.delete key w)) where
    after_handler-Never :
        (m : JobMessage P) (p : Outcome (Unit {0}) × W) → Raises Never (after_handler c m p)
    unfolding after_handler
    after_handler-Never m (ok done, w) = tt
    after_handler-Never m (raised e, w) =
        proceed-Raises Never _ (c.cache.delete (seen_key m) w) (clears (seen_key m) w) (λ a w'. tt)
    after_handler-Never m (cancelled, w) = tt

    dispatch-Never :
        (m : JobMessage P) (handler : Option (P → Action W (Unit {0}))) (w : W)
        → Raises Never (dispatch c m handler w)
    unfolding dispatch
    dispatch-Never m none w = tt
    dispatch-Never m (some handler) w = after_handler-Never m (handler m.payload w)

    if_new-Never : (m : JobMessage P) (new : Bool) (w : W) → Raises Never (if_new c m new w)
    if_new-Never m true w = dispatch-Never m (c.registry m.type) w
    if_new-Never m false w = tt

    process_parsed-Never :
        (parsed : Option (JobMessage P)) (w : W) → Raises Never (process_parsed c parsed w)
    unfolding process_parsed
    process_parsed-Never none w = tt
    process_parsed-Never (some m) w =
        proceed-Raises Never _ (c.cache.set_nx (seen_key m) (codes "1") seen_ttl_seconds w)
          (marks (seen_key m) (codes "1") seen_ttl_seconds w) (if_new-Never m)

    -- Over a cache that raises nothing, as both caches of production, `process_message` raises
    -- nothing: not for a body that does not parse, nor a type with no handler, nor a handler that
    -- raises.
    pub process_message-Never :
        (raw_body : Text) (w : W) → Raises Never (process_message c raw_body w)
    unfolding process_message
    process_message-Never raw_body w = process_parsed-Never (validate c raw_body) w

  -- What the marker's cache promises, `seen key w` saying that the key is set: the atomic
  -- `set_nx`, and `delete`.
  pub record IsMarker (seen : Text → W → Bool) (mark clear : Text → W → W) : Type 0 where
    pub set_nx_new :
        (key value : Text) (ttl : ℕ) (w : W)
        → seen key w ≡ false
        → c.cache.set_nx key value ttl w ≡ (ok true, mark key w)
    pub set_nx_old :
        (key value : Text) (ttl : ℕ) (w : W)
        → seen key w ≡ true
        → c.cache.set_nx key value ttl w ≡ (ok false, w)
    pub delete_clears : (key : Text) (w : W) → c.cache.delete key w ≡ (ok tt, clear key w)
    pub seen_mark : (key : Text) (w : W) → seen key (mark key w) ≡ true
    pub seen_clear : (key : Text) (w : W) → seen key (clear key w) ≡ false

  module _ (seen : Text → W → Bool) (mark clear : Text → W → W) (law : IsMarker seen mark clear)
      (raw_body : Text) (m : JobMessage P) (parsed : validate c raw_body ≡ some m) where
    process_new :
        (w : W)
        → seen (seen_key m) w ≡ false
        → process_message c raw_body w ≡ dispatch c m (c.registry m.type) (mark (seen_key m) w)
    unfolding process_message
    process_new w fresh =
        ap (λ o. process_parsed c o w) parsed
        ∙ unfold process_parsed in
          ap (proceed (if_new c m))
            (law.set_nx_new (seen_key m) (codes "1") seen_ttl_seconds w fresh)

    process_old :
        (w : W) → seen (seen_key m) w ≡ true → process_message c raw_body w ≡ (ok duplicate, w)
    unfolding process_message
    process_old w old =
        ap (λ o. process_parsed c o w) parsed
        ∙ unfold process_parsed in
          ap (proceed (if_new c m)) (law.set_nx_old (seen_key m) (codes "1") seen_ttl_seconds w old)

    module _ (handler : P → Action W (Unit {0}))
        (registered : c.registry m.type ≡ some handler) where
      run_handler :
          (w : W)
          → seen (seen_key m) w ≡ false
          → process_message c raw_body w
            ≡ after_handler c m (handler m.payload (mark (seen_key m) w))
      run_handler w fresh =
          process_new w fresh
          ∙ ap (λ h. dispatch c m h (mark (seen_key m) w)) registered
          ∙ unfold dispatch in refl

      -- A job whose handler raised has failed, and its next delivery runs the handler again.
      pub process_message-retried :
          (w w' : W) (exc : Exc)
          → seen (seen_key m) w ≡ false
          → handler m.payload (mark (seen_key m) w) ≡ (raised exc, w')
          → let w'' = clear (seen_key m) w' in
            (process_message c raw_body w ≡ (ok failed, w''))
            × (process_message c raw_body w''
                ≡ after_handler c m (handler m.payload (mark (seen_key m) w'')))
      process_message-retried w w' exc fresh runs = (
        run_handler w fresh
            ∙ ap (after_handler c m) runs
            ∙ unfold after_handler in
              ap (proceed (λ _. pure failed)) (law.delete_clears (seen_key m) w'),
        run_handler (clear (seen_key m) w') (law.seen_clear (seen_key m) w'),
      )

    -- A job of a type with no handler is poison, and leaves its marker: delivered again, it is a
    -- duplicate.
    pub process_message-unregistered :
        (w : W)
        → c.registry m.type ≡ none
        → seen (seen_key m) w ≡ false
        → let w' = mark (seen_key m) w in
          (process_message c raw_body w ≡ (ok poison, w'))
          × (process_message c raw_body w' ≡ (ok duplicate, w'))
    process_message-unregistered w unregistered fresh = (
      process_new w fresh
          ∙ ap (λ h. dispatch c m h (mark (seen_key m) w)) unregistered
          ∙ unfold dispatch in refl,
      process_old (mark (seen_key m) w) (law.seen_mark (seen_key m) w),
    )
