-- ===== src/Processing.antt =====
-- src/saga/order-processing.saga.ts: the saga that takes an order through payment to its
-- confirmation or cancellation.
pub mod Confirmation
pub mod Cancellation
pub mod Creation
use nestjs_cqrs_saga.Prelude.{
  String, Bool, true, false, Option, none, some, [], ◌∷◌, ◌++◌, if◌then◌else◌, ◌<+>◌, is_truthy,
  truthy_or, ◌==◌,
}
use nestjs_cqrs_saga.Outcome.{ok, err, Error, message_of}
use nestjs_cqrs_saga.Entity.{
  SagaInstance, SagaStatus, OrderCreatedEvent, PaymentProcessedEvent, PaymentFailedEvent,
  PaymentMethod,
}
use nestjs_cqrs_saga.World.{World, Platform, Action, pure, throw, ◌>>=◌, ◌>>◌, catch}
use nestjs_cqrs_saga.Store.{find_saga, save_saga}
use nestjs_cqrs_saga.Order.{execute_cancel, execute_confirm}
use nestjs_cqrs_saga.Payment.{execute_process}
use nestjs_cqrs_saga.Saga.{
  start_saga, execute_saga_step, complete_saga, handle_saga_failure, find_saga_by_correlation_id,
}

-- The step function of `executePaymentStep`.
unfoldable pub pay : Platform → SagaInstance → OrderCreatedEvent → Action (Unit {0})
pay p saga e =
    execute_process p (record {
      order_id = e.order_id;
      user_id = e.user_id;
      amount = e.total_amount;
      method = PaymentMethod.credit_card;
      correlation_id = some saga.correlation_id;
    })
    >> pure tt

-- `executePaymentStep`
unfoldable pub execute_payment_step :
    Platform → SagaInstance → OrderCreatedEvent → Action (Unit {0})
execute_payment_step p saga e = execute_saga_step p saga.id "payment_processing" (pay p saga e)

-- `handleOrderCreated`
unfoldable pub handle_order_created : Platform → OrderCreatedEvent → Action (Unit {0})
handle_order_created p e =
    if is_truthy e.correlation_id
    then (start_saga p "OrderProcessingSaga" (truthy_or e.correlation_id "")
          (record {
            order_id = e.order_id;
            user_id = e.user_id;
            total_amount = e.total_amount;
            items = e.items;
            shipping_address = e.shipping_address;
          })
          []
        >>= λ saga. execute_payment_step p saga e)
    else pure tt

-- The step function of `executeOrderConfirmationStep`.
unfoldable pub confirm : Platform → SagaInstance → PaymentProcessedEvent → Action (Unit {0})
confirm p saga e = execute_confirm p (record {
  order_id = e.order_id;
  payment_id = e.payment_id;
  correlation_id = some saga.correlation_id;
})

-- `executeOrderConfirmationStep`
unfoldable pub execute_order_confirmation_step :
    Platform → SagaInstance → PaymentProcessedEvent → Action (Unit {0})
execute_order_confirmation_step p saga e =
    execute_saga_step p saga.id "order_confirmation" (confirm p saga e) >> complete_saga p saga.id

-- The query of both payment handlers. An event's correlation id that is missing matches any saga of
-- the type, since TypeORM drops an undefined condition.
unfoldable pub find_order_saga : Platform → Option String → Action (Option SagaInstance)
find_order_saga p (some c) = find_saga_by_correlation_id p c (some "OrderProcessingSaga")
find_order_saga p none = find_saga p (λ r. r.saga_type == "OrderProcessingSaga")

-- `handlePaymentProcessed`
unfoldable pub handle_payment_processed : Platform → PaymentProcessedEvent → Action (Unit {0})
handle_payment_processed p e = do
  found ← find_order_saga p e.correlation_id
  elim found [ none ↦ pure tt | some saga ↦ execute_order_confirmation_step p saga e ]

-- The `try` of `executeOrderCancellationStep`, on the saga that was found before.
unfoldable pub cancel : Platform → SagaInstance → PaymentFailedEvent → Action (Unit {0})
cancel p saga e = do
  execute_cancel p (record {
    order_id = e.order_id;
    user_id = e.user_id;
    reason = some ("Payment failed: " <+> e.failure_reason);
    correlation_id = some saga.correlation_id;
  })
  save_saga p (record saga {
    status = SagaStatus.compensated;
    compensation_steps = saga.compensation_steps ++ "order_cancelled" ∷ [];
    current_step = some "compensated";
  })
  pure tt

-- `executeOrderCancellationStep`; of the saga object the `catch` block reads only the identity.
unfoldable pub execute_order_cancellation_step :
    Platform → SagaInstance → PaymentFailedEvent → Action (Unit {0})
execute_order_cancellation_step p saga e =
    catch (cancel p saga e) (λ x. handle_saga_failure p saga "order_cancellation" (message_of x))

-- `handlePaymentFailed`
unfoldable pub handle_payment_failed : Platform → PaymentFailedEvent → Action (Unit {0})
handle_payment_failed p e = do
  found ← find_order_saga p e.correlation_id
  elim found [ none ↦ pure tt | some saga ↦ execute_order_cancellation_step p saga e ]
