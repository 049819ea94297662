-- ===== src/Processing/Cancellation.antt =====
-- `handlePaymentFailed` of src/saga/order-processing.saga.ts: what a failed payment does to the
-- order and to the saga.
use nestjs_cqrs_saga.Prelude.{◌≡◌, ◌≢◌, ◌&&◌, some, List, [], ◌∷◌, ◌++◌, arith, ◌==◌, ◌<+>◌}
use nestjs_cqrs_saga.Outcome.{ok, err, Error, message_of}
use nestjs_cqrs_saga.Table.{lookup-upsert_self}
use nestjs_cqrs_saga.Entity.{
  Order, OrderStatus, SagaInstance, SagaStatus, PaymentFailedEvent, CancelOrderCommand,
}
use nestjs_cqrs_saga.World.{World, Platform, SagasUp, BrokerUp}
use nestjs_cqrs_saga.Order.{execute_cancel}
use nestjs_cqrs_saga.Order.Transitions.{order_by}
use nestjs_cqrs_saga.Order.Effects.{execute_cancel-cancels, execute_cancel_atomic}
use nestjs_cqrs_saga.Saga.Steps.{saga_by}
use nestjs_cqrs_saga.Saga.Compensation.{handle_saga_failure-compensates}
use nestjs_cqrs_saga.Saga.Failure.{Compensates}
use nestjs_cqrs_saga.Processing.{handle_payment_failed, execute_order_cancellation_step, cancel}
use nestjs_cqrs_saga.Processing.Confirmation.{Finds}

-- The command that cancels the order of a failed payment.
abbrev pub cancellation : SagaInstance → PaymentFailedEvent → CancelOrderCommand
cancellation saga e = record {
  order_id = e.order_id;
  user_id = e.user_id;
  reason = some ("Payment failed: " <+> e.failure_reason);
  correlation_id = some saga.correlation_id;
}

module _ (p : Platform) (e : PaymentFailedEvent) (saga : SagaInstance) (w : World) (up : SagasUp p)
    (found : Finds p e.correlation_id w saga) where
  -- A failed payment whose saga is found, of an order of its payer that is neither cancelled nor
  -- delivered, ends with the order cancelled and the saga compensated, the cancellation noted as its
  -- compensation. The database accepts the order, and the sagas' table every write.
  pub handle_payment_failed-cancels :
      (o r : Order) (t : List Order)
      → p.orders.find_one (λ r. r.id == e.order_id && r.user_id == e.user_id) w.orders ≡ some o
      → o.status ≢ OrderStatus.cancelled
      → o.status ≢ OrderStatus.delivered
      → p.orders.save (record o { status = OrderStatus.cancelled }) w.orders ≡ ok (r, t)
      → let (x, w') = handle_payment_failed p e w in
        (x ≡ ok tt)
        × (order_by e.order_id w' ≡ some (record o { status = OrderStatus.cancelled }))
        × (saga_by saga.id w'
            ≡ some (record saga {
              status = SagaStatus.compensated;
              compensation_steps = saga.compensation_steps ++ "order_cancelled" ∷ [];
              current_step = some "compensated";
            }))
  unfolding handle_payment_failed execute_order_cancellation_step cancel
  handle_payment_failed-cancels o r t there a b saved =
      let s' : SagaInstance = record saga {
        status = SagaStatus.compensated;
        compensation_steps = saga.compensation_steps ++ "order_cancelled" ∷ [];
        current_step = some "compensated";
      } in
      let done = execute_cancel-cancels p w o r t (cancellation saga e) there a b saved in
      let v = (execute_cancel p (cancellation saga e) w).1 in
      ground (
        arith,
        found,
        done,
        up.saves s' v.sagas,
        lookup-upsert_self (λ (r : SagaInstance). r.id) s' v.sagas,
      )

  -- If the cancellation throws, for whatever reason, and the saga that was found is stored, the handler
  -- does not throw: the orders are as before, and the failure is compensated like that of a step. The
  -- sagas' table accepts every write, transactions work and the broker is up.
  pub handle_payment_failed-Compensates :
      (x : Error) (s : SagaInstance)
      → BrokerUp p
      → (execute_cancel p (cancellation saga e) w).0 ≡ err x
      → saga_by saga.id w ≡ some s
      → Compensates p saga.id "order_cancellation" (message_of x) s w (handle_payment_failed p e w)
  unfolding handle_payment_failed execute_order_cancellation_step cancel
  handle_payment_failed-Compensates x s broker thrown stored =
      let same = execute_cancel_atomic p (cancellation saga e) x w thrown in
      ground (
        arith,
        found,
        thrown,
        same,
        handle_saga_failure-compensates p up broker saga s "order_cancellation" (message_of x) w
            stored,
      )
