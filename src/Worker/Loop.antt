-- ===== src/Worker/Loop.antt =====
-- The receive loop (`run_worker`, apps/worker/src/anime_worker/worker.py).
use anime_recommendation_eng.Base.{◌≡◌, refl, ap, ◌∙◌, ◌⊎◌, inl, inr}
use anime_recommendation_eng.Base.Action.{Exc, ok, raised, pure, proceed, resume}
use anime_recommendation_eng.Base.Raises.{Raises}
use anime_recommendation_eng.Worker.{
  Consumer, Sqs, SqsMessage, failed, poison, process_message, settle, handle,
}

module _ {W P : Type 0} (c : Consumer W P) (sqs : Sqs W) where
  -- A message that failed, or whose processing raised, stays on the queue: nothing is done after
  -- the attempt, and the loop goes on.
  pub handle-kept :
      (msg : SqsMessage) (w w' : W) (exc : Exc)
      → (process_message c msg.body w ≡ (ok failed, w'))
        ⊎ (process_message c msg.body w ≡ (raised exc, w'))
      → handle c sqs msg w ≡ (ok tt, w')
  unfolding handle
  handle-kept msg w w' exc (inl e) =
      ap (λ p. resume (λ _. pure tt) (proceed (settle c sqs msg) p)) e ∙ unfold settle in refl
  handle-kept msg w w' exc (inr e) =
      ap (λ p. resume (λ _. pure tt) (proceed (settle c sqs msg) p)) e

  -- Poison is deleted only behind its copy on the dead-letter queue: if the copy cannot be sent, the
  -- message is left.
  pub handle-poison_kept :
      (msg : SqsMessage) (w w1 w2 : W) (exc : Exc)
      → process_message c msg.body w ≡ (ok poison, w1)
      → sqs.send_to_dlq msg.body w1 ≡ (raised exc, w2)
      → handle c sqs msg w ≡ (ok tt, w2)
  unfolding handle
  handle-poison_kept msg w w1 w2 exc e sends =
      ap (λ p. resume (λ _. pure tt) (proceed (settle c sqs msg) p)) e
      ∙ unfold settle in
        ap (λ p. resume (λ _. pure tt) (proceed (λ _. sqs.delete_message msg.receipt_handle) p))
          sends
