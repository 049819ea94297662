-- ===== src/System/Methods.antt =====
-- The saga's handlers, the event handlers and whole runs of the service along a trail.
use nestjs_cqrs_saga.Prelude.{
  ℕ, String, ◌≡◌, refl, Bool, Option, none, some, List, [], ◌∷◌, ◌++◌, is_truthy, truthy_or, All,
  arith,
}
use nestjs_cqrs_saga.Outcome.{message_of}
use nestjs_cqrs_saga.Entity.{
  EventStore, EventData, SagaInstance, SagaStatus, BusEvent, order_created, order_cancelled,
  order_confirmed, order_status_changed, payment_processed, payment_failed, payment_refunded,
  OrderCreatedEvent, PaymentProcessedEvent, PaymentFailedEvent, ProcessPaymentCommand,
  PaymentMethod,
}
use nestjs_cqrs_saga.Message.{event}
use nestjs_cqrs_saga.World.{
  World, Platform, Action, ◌>>=◌, ◌>>◌, pure, Task, publish_all, publish_message, settle_payment,
}
use nestjs_cqrs_saga.Kafka.{publish}
use nestjs_cqrs_saga.Order.{execute_cancel}
use nestjs_cqrs_saga.Store.{save_event, save_saga}
use nestjs_cqrs_saga.Saga.{
  complete_saga, start_saga, execute_saga_step, handle_saga_failure, find_saga_by_correlation_id,
}
use nestjs_cqrs_saga.Processing.{
  pay, confirm, cancel, execute_payment_step, execute_order_confirmation_step,
  execute_order_cancellation_step, find_order_saga, handle_order_created, handle_payment_processed,
  handle_payment_failed,
}
use nestjs_cqrs_saga.Processing.Creation.{data_of}
use nestjs_cqrs_saga.Processing.Cancellation.{cancellation}
use nestjs_cqrs_saga.Handlers.{
  handlers, store_and_publish, on_order_created, on_order_cancelled, on_order_confirmed,
  on_order_status_changed, on_payment_processed, on_payment_failed, on_payment_refunded,
  saga_on_payment_processed, saga_on_payment_failed,
}
use nestjs_cqrs_saga.System.Cleanup.{cleanup_pending_orders-Keeps}
use nestjs_cqrs_saga.System.{run_task, run_handlers, Step, Run}
use nestjs_cqrs_saga.Payment.{execute_process}
use nestjs_cqrs_saga.Order.Announced.{promised-append}
use nestjs_cqrs_saga.Payment.Pending.{settles-append}
use nestjs_cqrs_saga.System.Frame.{publish-Same, complete_saga-Same, handle_saga_failure-Same}
use nestjs_cqrs_saga.System.Trail.{
  Trail, charged_by, KeepsFor, bind_first-Keeps, Keeps, Same-Keeps, bind-Keeps, catch-Keeps,
  option-Keeps, if-Keeps, still, start_saga-Keeps, execute_saga_step-Keeps,
}

module _ (p : Platform) (t : Trail p) where
  pay-Keeps : (s : SagaInstance) (e : OrderCreatedEvent) → KeepsFor p t (some e) (pay p s e)
  unfolding pay
  pay-Keeps s e =
      let command : ProcessPaymentCommand = record {
        order_id = e.order_id;
        user_id = e.user_id;
        amount = e.total_amount;
        method = PaymentMethod.credit_card;
        correlation_id = some s.correlation_id;
      } in
      bind_first-Keeps p t (execute_process p command) (λ a. pure tt)
        (λ w. t.processes e command w (refl, refl, refl)) (λ a. still p t)

  handle_order_created-Keeps :
      (e : OrderCreatedEvent) → KeepsFor p t (some e) (handle_order_created p e)
  unfolding handle_order_created execute_payment_step
  handle_order_created-Keeps e =
      let start =
        start_saga p "OrderProcessingSaga" (truthy_or e.correlation_id "") (data_of e) [] in
      let step : SagaInstance → Action (Unit {0}) =
        λ (s : SagaInstance). execute_saga_step p s.id "payment_processing" (pay p s e) in
      if-Keeps p t (is_truthy e.correlation_id) (start >>= step) (pure tt)
        (bind-Keeps p t start step
          (start_saga-Keeps p t "OrderProcessingSaga" (truthy_or e.correlation_id "") (data_of e)
            [])
          (λ s. execute_saga_step-Keeps p t s.id "payment_processing" (pay p s e) (pay-Keeps s e)))
        (still p t)

  find_order_saga-Keeps : (c : Option String) → Keeps p t (find_order_saga p c)
  unfolding find_order_saga find_saga_by_correlation_id
  find_order_saga-Keeps none = still p t
  find_order_saga-Keeps (some c) = still p t

  confirm-Keeps : (s : SagaInstance) (e : PaymentProcessedEvent) → Keeps p t (confirm p s e)
  unfolding confirm
  confirm-Keeps s e = t.confirms (record {
    order_id = e.order_id;
    payment_id = e.payment_id;
    correlation_id = some s.correlation_id;
  })

  handle_payment_processed-Keeps :
      (e : PaymentProcessedEvent) → Keeps p t (handle_payment_processed p e)
  unfolding handle_payment_processed execute_order_confirmation_step
  handle_payment_processed-Keeps e =
      let step : SagaInstance → Action (Unit {0}) =
        λ (s : SagaInstance). execute_saga_step p s.id "order_confirmation" (confirm p s e) in
      option-Keeps p t (find_order_saga p e.correlation_id) (pure tt)
        (λ s. step s >> complete_saga p s.id) (find_order_saga-Keeps e.correlation_id) (still p t)
        (λ s.
          bind-Keeps p t (step s) (λ u. complete_saga p s.id)
            (execute_saga_step-Keeps p t s.id "order_confirmation" (confirm p s e)
              (confirm-Keeps s e))
            (λ u. Same-Keeps p t (complete_saga p s.id) (complete_saga-Same p s.id)))

  cancel-Keeps : (s : SagaInstance) (e : PaymentFailedEvent) → Keeps p t (cancel p s e)
  unfolding cancel
  cancel-Keeps s e =
      let mark : Action (Unit {0}) = do
        save_saga p (record s {
          status = SagaStatus.compensated;
          compensation_steps = s.compensation_steps ++ "order_cancelled" ∷ [];
          current_step = some "compensated";
        })
        pure tt
      in bind-Keeps p t (execute_cancel p (cancellation s e)) (λ u. mark)
        (t.cancels (cancellation s e)) (λ u. Same-Keeps p t mark (λ w. ground arith))

  handle_payment_failed-Keeps : (e : PaymentFailedEvent) → Keeps p t (handle_payment_failed p e)
  unfolding handle_payment_failed execute_order_cancellation_step
  handle_payment_failed-Keeps e =
      option-Keeps p t (find_order_saga p e.correlation_id) (pure tt)
        (λ s. execute_order_cancellation_step p s e) (find_order_saga-Keeps e.correlation_id)
        (still p t)
        (λ s.
          catch-Keeps p t (cancel p s e)
            (λ x. handle_saga_failure p s "order_cancellation" (message_of x)) (cancel-Keeps s e)
            (λ x.
              Same-Keeps p t (handle_saga_failure p s "order_cancellation" (message_of x))
                (handle_saga_failure-Same p s "order_cancellation" (message_of x))))

  store_and_publish-Keeps :
      (i ty n : String) (d : EventData) (c : Option String) (at : ℕ) (topic : String) (e : BusEvent)
      → Keeps p t (store_and_publish p i ty n d c at topic e)
  unfolding store_and_publish
  store_and_publish-Keeps i ty n d c at topic e =
      let row : World → EventStore = λ (w : World). record {
        id = p.event_store.generate w.event_store;
        aggregate_id = i;
        aggregate_type = ty;
        event_type = n;
        event_data = d;
        version = 1;
        occurred_at = at;
        correlation_id = c;
      } in
      bind-Keeps p t (λ w. save_event p (row w) w) (λ r. publish p topic (event e))
        (λ w. t.logs (row w) w refl)
        (λ r. Same-Keeps p t (publish p topic (event e)) (publish-Same p topic (event e)))

  abbrev log_created : OrderCreatedEvent → Action (Unit {0})
  log_created e =
      store_and_publish p e.order_id "Order" "OrderCreated"
        (EventData.created e.order_id e.user_id e.total_amount e.items e.shipping_address)
        e.correlation_id e.occurred_at "order-events" (order_created e)

  run_handlers-Keeps :
      (hs : List (Action (Unit {0})))
      → All (Keeps p t) hs
      → (w : World) → t.rel none w (run_handlers hs w)
  unfolding run_handlers
  run_handlers-Keeps [] all w = still p t w
  run_handlers-Keeps (h ∷ hs) all w =
      t.leads none w (h w).1 (run_handlers hs (h w).1) (all.0 w)
        (run_handlers-Keeps hs all.1 (h w).1)

  -- The handlers of an event may charge the order whose creation it tells, once.
  handlers-Keeps :
      (e : BusEvent) (w : World) → t.rel (charged_by e) w (run_handlers (handlers p e) w)
  unfolding run_handlers handlers on_order_created on_order_cancelled on_order_confirmed
      on_order_status_changed on_payment_processed on_payment_failed on_payment_refunded
      saga_on_payment_processed saga_on_payment_failed
  handlers-Keeps (order_created e) w =
      bind-Keeps p t (log_created e) (λ u. handle_order_created p e)
        (store_and_publish-Keeps _ _ _ _ _ _ _ _) (λ u. handle_order_created-Keeps e) w
  handlers-Keeps (order_cancelled e) w = store_and_publish-Keeps _ _ _ _ _ _ _ _ w
  handlers-Keeps (order_confirmed e) w = store_and_publish-Keeps _ _ _ _ _ _ _ _ w
  handlers-Keeps (order_status_changed e) w = store_and_publish-Keeps _ _ _ _ _ _ _ _ w
  handlers-Keeps (payment_processed e) w =
      run_handlers-Keeps (handlers p (payment_processed e))
        (store_and_publish-Keeps _ _ _ _ _ _ _ _, (handle_payment_processed-Keeps e, tt)) w
  handlers-Keeps (payment_failed e) w =
      run_handlers-Keeps (handlers p (payment_failed e))
        (store_and_publish-Keeps _ _ _ _ _ _ _ _, (handle_payment_failed-Keeps e, tt)) w
  handlers-Keeps (payment_refunded e) w = store_and_publish-Keeps _ _ _ _ _ _ _ _ w

  -- A callback is taken from those that are deferred, and runs.
  run_task-Keeps :
      (b : Bool) (x : Task) (before after : List Task) (v : World)
      → v.deferred ≡ before ++ x ∷ after
      → t.rel none v (run_task p b x (record v { deferred = before ++ after })).1
  unfolding run_task
  run_task-Keeps b (publish_all es) before after v e = t.announces es before after v e
  run_task-Keeps b (publish_message topic body) before after v e =
      let u : World = record v { deferred = before ++ after } in
      t.leads none v u (publish p topic body u).1
        (t.frame v u (
          refl,
          refl,
          refl,
          rw (
            e,
            settles-append before after,
            settles-append before (publish_message topic body ∷ after),
          ),
          refl,
          rw (
            e,
            promised-append before after,
            promised-append before (publish_message topic body ∷ after),
          ),
        ))
        (t.frame u (publish p topic body u).1 (publish-Same p topic body u))
  run_task-Keeps b (settle_payment payment c) before after v e = t.ends b payment c before after v e

  step-Keeps : (v w : World) → Step p v w → t.rel none v w
  step-Keeps v _ (Step.create c) = t.creates c v
  step-Keeps v _ (Step.cancel c) = t.cancels c v
  step-Keeps v _ (Step.confirm c) = t.confirms c v
  step-Keeps v _ Step.cleanup = cleanup_pending_orders-Keeps p t v
  step-Keeps v _ (Step.refund c) = t.refunds c v
  step-Keeps v _ (Step.run b x before after e) = run_task-Keeps b x before after v e
  step-Keeps v _ (Step.deliver e before after h) =
      let u : World = record v { bus = before ++ after } in
      t.delivers e before after v (run_handlers (handlers p e) u) h (handlers-Keeps e u)

  -- A run of the service goes along every trail.
  pub Run-Keeps : (v w : World) → Run p v w → t.rel none v w
  Run-Keeps v _ Run.done = still p t v
  Run-Keeps u w (Run.next {v = v} s r) = t.leads none u v w (step-Keeps u v s) (Run-Keeps v w r)
