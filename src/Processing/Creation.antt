-- ===== src/Processing/Creation.antt =====
-- `handleOrderCreated` of src/saga/order-processing.saga.ts: what the event of a new order does
-- to sagas and payments.
use nestjs_cqrs_saga.Prelude.{
  String, ◌≡◌, true, false, some, List, [], ◌∷◌, ◌++◌, arith, ◌==◌, any, is_truthy, truthy_or-some,
}
use nestjs_cqrs_saga.Outcome.{ok}
use nestjs_cqrs_saga.Entity.{
  Payment, PaymentMethod, ProcessPaymentCommand, SagaInstance, SagaData, OrderCreatedEvent,
}
use nestjs_cqrs_saga.Message.{saga_step_completed}
use nestjs_cqrs_saga.World.{World, Platform, SagasUp, settle_payment, publish_message}
use nestjs_cqrs_saga.Payment.Outcomes.{new_payment, execute_process-stores}
use nestjs_cqrs_saga.Saga.{start_saga}
use nestjs_cqrs_saga.Saga.Steps.{
  saga_by, locked, HasLock, entered, execute_saga_step-runs, execute_saga_step-once,
}
use nestjs_cqrs_saga.Processing.{handle_order_created, execute_payment_step, pay}

abbrev pub payment_step : String
payment_step = "payment_processing"

-- The saga's data of an event.
abbrev pub data_of : OrderCreatedEvent → SagaData
data_of e = record {
  order_id = e.order_id;
  user_id = e.user_id;
  total_amount = e.total_amount;
  items = e.items;
  shipping_address = e.shipping_address;
}

-- The payment command of an event.
abbrev pub payment_of : SagaInstance → OrderCreatedEvent → ProcessPaymentCommand
payment_of saga e = record {
  order_id = e.order_id;
  user_id = e.user_id;
  amount = e.total_amount;
  method = PaymentMethod.credit_card;
  correlation_id = some saga.correlation_id;
}

-- An event without a correlation id starts nothing.
pub handle_order_created-ignores :
    (p : Platform) (e : OrderCreatedEvent) (w : World)
    → is_truthy e.correlation_id ≡ false
    → handle_order_created p e w ≡ (ok tt, w)
unfolding handle_order_created
handle_order_created-ignores p e w h = ground arith

module _ (p : Platform) (e : OrderCreatedEvent) (k : String) (w v : World)
    (saga stored : SagaInstance) (key : e.correlation_id ≡ some k)
    (truthy : is_truthy (some k) ≡ true)
    (starts : start_saga p "OrderProcessingSaga" k (data_of e) [] w ≡ (ok saga, v))
    (lock : HasLock p saga.id payment_step v)
    (there : saga_by saga.id (locked p saga.id payment_step v) ≡ some stored) where
  handled : handle_order_created p e w ≡ execute_payment_step p saga e v
  unfolding handle_order_created
  handled = ground (arith, truthy_or-some k "" truthy)

  -- A delivery of the event of a new order, with a correlation id, for which a saga is started or
  -- found that has noted its payment step when the step has its lock, returns and makes no second
  -- payment: from then on no order, payment or saga is written and nothing is deferred.
  pub handle_order_created-once :
      any (λ s. s == payment_step) stored.completed_steps ≡ true
      → let (r, w') = handle_order_created p e w in
        let w₁ = locked p saga.id payment_step v in
        (r ≡ ok tt)
        × (w'.sagas ≡ w₁.sagas)
        × (w'.payments ≡ w₁.payments)
        × (w'.orders ≡ w₁.orders)
        × (w'.deferred ≡ w₁.deferred)
  unfolding execute_payment_step
  handle_order_created-once done = ground (
    arith,
    handled,
    execute_saga_step-once p saga.id payment_step (pay p saga e) v lock stored there done,
  )

  -- A delivery of the event of a new order, with a correlation id, for which a saga is started or
  -- found that has not noted its payment step when the step has its lock, stores one payment of the
  -- order's amount by its user, in processing, if the database accepts it and the saga, and defers
  -- its simulation under the saga's correlation id and then the step's announcement; the saga notes
  -- the step, and the orders are as before.
  pub handle_order_created-pays :
      (r : Payment) (t : List Payment)
      → SagasUp p
      → any (λ s. s == payment_step) stored.completed_steps ≡ false
      → p.payments.save
          (new_payment p (payment_of saga e) (locked p saga.id payment_step v))
          (locked p saga.id payment_step v).payments
        ≡ ok (r, t)
      → let (x, w') = handle_order_created p e w in
        let w₁ = locked p saga.id payment_step v in
        let n = new_payment p (payment_of saga e) w₁ in
        (x ≡ ok tt)
        × (w'.payments ≡ w₁.payments ++ n ∷ [])
        × (saga_by saga.id w'
            ≡ some (record stored {
              current_step = some payment_step;
              completed_steps = stored.completed_steps ++ payment_step ∷ [];
            }))
        × (w'.deferred
            ≡ (w₁.deferred ++ settle_payment n (some saga.correlation_id) ∷ [])
              ++ publish_message "saga-events" (
                  saga_step_completed saga.id payment_step
                    (stored.completed_steps ++ payment_step ∷ []))
                ∷ [])
        × (w'.orders ≡ w₁.orders)
  unfolding execute_payment_step pay
  handle_order_created-pays r t up new saved =
      let w₁ = entered p saga.id payment_step (pay p saga e) v lock stored there in
      let stores = execute_process-stores p (payment_of saga e) w₁ r t saved in
      let ran =
        execute_saga_step-runs p saga.id payment_step (pay p saga e) v lock stored there up new
          (ground (arith, stores)) in
      ground (arith, handled, stores, ran)
