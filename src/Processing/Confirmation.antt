-- ===== src/Processing/Confirmation.antt =====
-- `handlePaymentProcessed` of src/saga/order-processing.saga.ts: what a processed payment does to
-- the order and to the saga.
use nestjs_cqrs_saga.Prelude.{
  String, ◌≡◌, ◌≢◌, ap, ◌∙◌, false, Option, some, List, [], ◌∷◌, ◌++◌, arith, ◌==◌, any,
}
use nestjs_cqrs_saga.Outcome.{ok, err, Error, message_of}
use nestjs_cqrs_saga.Table.{lookup, lookup-upsert_self}
use nestjs_cqrs_saga.Entity.{Order, OrderStatus, SagaInstance, SagaStatus, PaymentProcessedEvent}
use nestjs_cqrs_saga.World.{World, Platform, SagasUp, BrokerUp}
use nestjs_cqrs_saga.Lock.Scope.{release_lock-keys}
use nestjs_cqrs_saga.Order.Transitions.{order_by}
use nestjs_cqrs_saga.Order.Effects.{
  execute_confirm-pays, execute_confirm-ignores, execute_confirm_atomic,
}
use nestjs_cqrs_saga.Saga.{execute_saga_step}
use nestjs_cqrs_saga.Saga.Steps.{saga_by, locked, HasLock, stepped, entered, execute_saga_step-runs}
use nestjs_cqrs_saga.Saga.Complete.{complete_saga-completes, completed_saga}
use nestjs_cqrs_saga.Saga.Failure.{execute_saga_step-Compensates, failed_at}
use nestjs_cqrs_saga.Processing.{
  handle_payment_processed, execute_order_confirmation_step, confirm, find_order_saga,
}

abbrev pub confirmation : String
confirmation = "order_confirmation"

-- The saga that a handler finds; the query changes nothing.
abbrev pub Finds : Platform → Option String → World → SagaInstance → Type 0
Finds p c w saga = find_order_saga p c w ≡ (ok (some saga), w)

module _ (p : Platform) (e : PaymentProcessedEvent) (saga : SagaInstance) (w : World)
    (up : SagasUp p) (lock : HasLock p saga.id confirmation w)
    (stored : saga_by saga.id (locked p saga.id confirmation w) ≡ some saga)
    (new : any (λ s. s == confirmation) saga.completed_steps ≡ false)
    (open_saga : saga.status ≢ SagaStatus.completed) where
  -- The state in which the order is confirmed.
  abbrev confirming : World
  confirming = entered p saga.id confirmation (confirm p saga e) w lock saga stored

  step_completes :
      (confirm p saga e confirming).0 ≡ ok tt
      → let (r, w') = execute_order_confirmation_step p saga e w in
        (r ≡ ok tt)
        × (saga_by saga.id w'
            ≡ some (
                completed_saga
                  (record saga { completed_steps = saga.completed_steps ++ confirmation ∷ [] })))
        × (w'.orders ≡ (confirm p saga e confirming).1.orders)
  unfolding execute_order_confirmation_step
  step_completes done =
      let s' = stepped p saga.id confirmation (confirm p saga e) w lock saga stored in
      let ran =
        execute_saga_step-runs p saga.id confirmation (confirm p saga e) w lock saga stored up new
          done in
      let ends =
        complete_saga-completes p s' saga.id
          (execute_saga_step p saga.id confirmation (confirm p saga e) w).1 up ran.1 open_saga in
      ground (arith, ran, ends)

  handled :
      Finds p e.correlation_id w saga
      → handle_payment_processed p e w ≡ execute_order_confirmation_step p saga e w
  unfolding handle_payment_processed
  handled found = ground arith

  -- The payment's saga is found, is not completed, and is stored as found when the confirmation step,
  -- which it has not noted yet, has its lock; the sagas' table accepts every write. Then a
  -- processed payment whose order is pending, if the database accepts the order, ends with the order
  -- paid by that payment and the saga completed, its confirmation step noted.
  pub handle_payment_processed-pays :
      (o r : Order) (t : List Order)
      → Finds p e.correlation_id w saga
      → order_by e.order_id (locked p saga.id confirmation w) ≡ some o
      → o.status ≡ OrderStatus.pending
      → p.orders.save
          (record o { status = OrderStatus.paid; payment_id = some e.payment_id })
          (locked p saga.id confirmation w).orders
        ≡ ok (r, t)
      → let (x, w') = handle_payment_processed p e w in
        (x ≡ ok tt)
        × (order_by e.order_id w'
            ≡ some (record o { status = OrderStatus.paid; payment_id = some e.payment_id }))
        × (saga_by saga.id w'
            ≡ some (
                completed_saga
                  (record saga { completed_steps = saga.completed_steps ++ confirmation ∷ [] })))
  unfolding confirm
  handle_payment_processed-pays o r t found there pending saved =
      let paid =
        execute_confirm-pays p confirming o r t
          (record {
            order_id = e.order_id;
            payment_id = e.payment_id;
            correlation_id = some saga.correlation_id;
          })
          there pending saved in
      let done = step_completes (ground (arith, paid)) in
      ground (arith, handled found, done, ap (lookup (λ (r : Order). r.id) e.order_id) done.2, paid)

  -- The payment's saga is found, is not completed, and is stored as found when the confirmation step,
  -- which it has not noted yet, has its lock; the sagas' table accepts every write. Then an
  -- order that is not pending any more, a cancelled one for example, is left as it is, and yet the
  -- saga of its processed payment is stored as completed, its confirmation step noted as done.
  pub handle_payment_processed-ignores :
      (o : Order)
      → Finds p e.correlation_id w saga
      → order_by e.order_id (locked p saga.id confirmation w) ≡ some o
      → o.status ≢ OrderStatus.pending
      → let (x, w') = handle_payment_processed p e w in
        (x ≡ ok tt)
        × (order_by e.order_id w' ≡ some o)
        × (saga_by saga.id w'
            ≡ some (
                completed_saga
                  (record saga { completed_steps = saga.completed_steps ++ confirmation ∷ [] })))
  unfolding confirm
  handle_payment_processed-ignores o found there busy =
      let same =
        execute_confirm-ignores p
          (record {
            order_id = e.order_id;
            payment_id = e.payment_id;
            correlation_id = some saga.correlation_id;
          })
          o confirming there busy in
      let done = step_completes (ground (arith, same)) in
      ground (arith, handled found, done, ap (lookup (λ (r : Order). r.id) e.order_id) done.2, same)

  -- The payment's saga is found, is not completed, and is stored as found when the confirmation step,
  -- which it has not noted yet, has its lock; the sagas' table accepts every write. Then a
  -- confirmation that throws compensates the saga, if transactions work and the broker is up, but the
  -- handler stores it as completed afterwards, with the error's message still in it; the orders are
  -- as before.
  pub handle_payment_processed-loses_failure :
      (x : Error)
      → BrokerUp p
      → Finds p e.correlation_id w saga
      → (confirm p saga e confirming).0 ≡ err x
      → let (r, w') = handle_payment_processed p e w in
        (r ≡ ok tt)
        × (saga_by saga.id w'
            ≡ some (
                completed_saga (
                  failed_at
                    (record saga { current_step = some confirmation })
                    confirmation
                    (message_of x))))
        × (w'.orders ≡ (locked p saga.id confirmation w).orders)
  unfolding confirm execute_order_confirmation_step
  handle_payment_processed-loses_failure x broker found thrown =
      let same =
        execute_confirm_atomic p
          (record {
            order_id = e.order_id;
            payment_id = e.payment_id;
            correlation_id = some saga.correlation_id;
          })
          x confirming thrown in
      let s' : SagaInstance = record saga { current_step = some confirmation } in
      let kept =
        execute_saga_step-Compensates p up broker saga.id confirmation (confirm p saga e) w lock
          saga s' x stored new thrown
          (ap (saga_by saga.id) same
            ∙ lookup-upsert_self (λ (r : SagaInstance). r.id) s'
                (locked p saga.id confirmation w).sagas) in
      let ends =
        complete_saga-completes p (failed_at s' confirmation (message_of x)) saga.id
          (execute_saga_step p saga.id confirmation (confirm p saga e) w).1 up kept.1
          (ground arith) in
      ground (arith, handled found, kept, ends, same, release_lock-keys p lock.0 confirming)
