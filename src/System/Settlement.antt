-- ===== src/System/Settlement.antt =====
-- From a deferred payment to a paid order: the callback of
-- src/payment/commands/handlers/payment.handlers.ts, the event of the bus, and its handlers.
use nestjs_cqrs_saga.Prelude.{
  String, ◌≡◌, ◌≢◌, refl, ap, subst, true, false, Option, some, List, [], ◌∷◌, ◌++◌, ◌<+>◌, ◌==◌,
  any, arith,
}
use nestjs_cqrs_saga.Outcome.{ok}
use nestjs_cqrs_saga.Entity.{
  Order, OrderStatus, Payment, SagaInstance, SagaStatus, EventStore, PaymentProcessedEvent,
  payment_processed,
}
use nestjs_cqrs_saga.World.{World, Platform, Task, settle_payment, SagasUp, BrokerUp}
use nestjs_cqrs_saga.Payment.{settle, complete_payment, paid}
use nestjs_cqrs_saga.Order.Transitions.{order_by}
use nestjs_cqrs_saga.Saga.Steps.{saga_by, locked, HasLock}
use nestjs_cqrs_saga.Saga.Complete.{completed_saga}
use nestjs_cqrs_saga.Processing.{handle_payment_processed}
use nestjs_cqrs_saga.Processing.Confirmation.{confirmation, Finds, handle_payment_processed-pays}
use nestjs_cqrs_saga.Handlers.{handlers, saga_on_payment_processed}
use nestjs_cqrs_saga.Handlers.Log.{entry, logged, first_handler-logs}
use nestjs_cqrs_saga.System.{Step, Run, run_task, run_handlers}

module _ (p : Platform) (a : Payment) (c : Option String) (w : World)
    (before after : List Task) where
  -- The state in which the callback runs.
  abbrev pub called : World
  called = record w { deferred = before ++ after }

  -- The event of a payment that succeeds.
  abbrev pub success : PaymentProcessedEvent
  success = record {
    payment_id = a.id;
    order_id = a.order_id;
    user_id = a.user_id;
    amount = a.amount;
    external_transaction_id = "ext_tx_" <+> p.uuid 0 called;
    correlation_id = c;
    occurred_at = called.now;
  }

  -- The payment is stored and its event is on the bus.
  abbrev pub settled : List Payment → World
  settled payments = record called {
    payments = payments;
    bus = w.bus ++ payment_processed success ∷ [];
  }

  -- The event has been taken from the bus.
  abbrev pub taken : List Payment → World
  taken payments = record (settled payments) { bus = w.bus ++ [] }

  -- The event has been logged.
  abbrev pub told : List Payment → World
  told payments = logged p (taken payments) (payment_processed success)

  settles :
      (x : Payment) (payments : List Payment)
      → p.payments.save (paid p a called) w.payments ≡ ok (x, payments)
      → (run_task p true (settle_payment a c) called).1 ≡ settled payments
  unfolding run_task settle complete_payment
  settles x payments saved = ground (arith, saved)

  delivers :
      (payments : List Payment) (x : EventStore) (t : List EventStore)
      → BrokerUp p
      → p.event_store.save
          (entry (p.event_store.generate w.event_store) (payment_processed success))
          w.event_store
        ≡ ok (x, t)
      → run_handlers (handlers p (payment_processed success)) (taken payments)
        ≡ (handle_payment_processed p success (told payments)).1
  unfolding run_handlers handlers saga_on_payment_processed
  delivers payments x t up saved =
      let log = first_handler-logs p (taken payments) x t (payment_processed success) up saved in
      ap (λ m. (handle_payment_processed p success m.1).1) log

  -- A payment that waits to be settled can bring its order to an end: if it is a success, the
  -- tables and the broker accept the writes, the payment's saga is found, open and stored as found when
  -- its confirmation step, which it has not noted yet, has its lock, and the order is pending, then some
  -- run of the service leads to a state in which the order is paid by this payment and the saga is
  -- completed, its confirmation step noted.
  pub settle_payment-pays :
      (x : Payment) (payments : List Payment) (y : EventStore) (events : List EventStore)
      (saga : SagaInstance) (o r : Order) (orders : List Order)
      → w.deferred ≡ before ++ settle_payment a c ∷ after
      → p.payments.save (paid p a called) w.payments ≡ ok (x, payments)
      → BrokerUp p
      → SagasUp p
      → p.event_store.save
          (entry (p.event_store.generate w.event_store) (payment_processed success))
          w.event_store
        ≡ ok (y, events)
      → Finds p c (told payments) saga
      → HasLock p saga.id confirmation (told payments)
      → saga_by saga.id (locked p saga.id confirmation (told payments)) ≡ some saga
      → any (λ s. s == confirmation) saga.completed_steps ≡ false
      → saga.status ≢ SagaStatus.completed
      → order_by a.order_id (locked p saga.id confirmation (told payments)) ≡ some o
      → o.status ≡ OrderStatus.pending
      → p.orders.save
          (record o { status = OrderStatus.paid; payment_id = some a.id })
          (locked p saga.id confirmation (told payments)).orders
        ≡ ok (r, orders)
      → (v : World) × Run p w v
        × (order_by a.order_id v
            ≡ some (record o { status = OrderStatus.paid; payment_id = some a.id }))
        × (saga_by saga.id v
            ≡ some (
                completed_saga
                  (record saga { completed_steps = saga.completed_steps ++ confirmation ∷ [] })))
  settle_payment-pays x payments y events saga o r orders waits saved broker up logs found lock
        stored new open_saga there pending accepted =
      let u = told payments in
      let v = (handle_payment_processed p success u).1 in
      let ends =
        handle_payment_processed-pays p success saga u up lock stored new open_saga o r orders found
          there pending accepted in
      let first : Step p w (settled payments) =
        subst (Step p w) (settles x payments saved)
          (Step.run true (settle_payment a c) before after waits) in
      let second : Step p (settled payments) v =
        subst (Step p (settled payments)) (delivers payments y events broker logs)
          (Step.deliver (payment_processed success) w.bus [] refl) in
      (v, Run.next first (Run.next second Run.done), ends.1, ends.2)
