-- ===== src/Examples/Flows.antt =====
-- The theorems on the order-processing saga on the services in memory.
use nestjs_cqrs_saga.Prelude.{◌≡◌, refl, some, none, [], ◌∷◌}
use nestjs_cqrs_saga.Outcome.{ok, http, not_found, message_of}
use nestjs_cqrs_saga.Entity.{
  Order, OrderStatus, Payment, PaymentStatus, PaymentMethod, OrderCreatedEvent,
  PaymentProcessedEvent, PaymentFailedEvent,
}
use nestjs_cqrs_saga.World.{World}
use nestjs_cqrs_saga.Lock.{AcquiredLock, acquire_lock, release_lock, with_lock}
use nestjs_cqrs_saga.Order.{execute_cancel, execute_confirm}
use nestjs_cqrs_saga.Order.Transitions.{order_by}
use nestjs_cqrs_saga.Saga.{find_saga_by_correlation_id, start_saga, create_saga}
use nestjs_cqrs_saga.Saga.Steps.{HasLock}
use nestjs_cqrs_saga.Saga.Failure.{Compensates}
use nestjs_cqrs_saga.Processing.{
  handle_payment_processed, handle_payment_failed, handle_order_created, find_order_saga, confirm,
}
use nestjs_cqrs_saga.Processing.Confirmation.{
  Finds, handle_payment_processed-pays, handle_payment_processed-ignores,
  handle_payment_processed-loses_failure,
}
use nestjs_cqrs_saga.Processing.Cancellation.{
  handle_payment_failed-cancels, handle_payment_failed-Compensates,
}
use nestjs_cqrs_saga.Processing.Creation.{handle_order_created-pays}
use nestjs_cqrs_saga.Examples.Services.{
  services, services-SagasUp, services-BrokerUp, waiting, started_saga, pending_order, book, lamp,
}

abbrev processed : PaymentProcessedEvent
processed = record {
  payment_id = "p1";
  order_id = "o1";
  user_id = "u1";
  amount = 50;
  external_transaction_id = "ext_tx_1";
  correlation_id = some "k1";
  occurred_at = 7;
}

abbrev step_lock : AcquiredLock
step_lock = record {
  key = "lock:saga_step:s1:order_confirmation";
  token = "11111110-token";
  ttl = 60000;
  acquired_at = 7;
}

waiting-HasLock : HasLock services "s1" "order_confirmation" waiting
unfolding services acquire_lock
waiting-HasLock = (step_lock, refl)

abbrev paid : Order
paid = record pending_order { status = OrderStatus.paid; payment_id = some "p1" }

finds : Finds services (some "k1") waiting started_saga
unfolding services find_order_saga find_saga_by_correlation_id
finds = refl

handle_payment_processed-pays_example :
    order_by "o1" (handle_payment_processed services processed waiting).1 ≡ some paid
unfolding services acquire_lock
handle_payment_processed-pays_example =
    (handle_payment_processed-pays services processed started_saga waiting services-SagasUp
      waiting-HasLock refl refl (λ e. cc) pending_order paid (paid ∷ []) finds refl refl refl).1

-- The order was cancelled while its payment was under way.
abbrev cancelled : Order
cancelled = record pending_order { status = OrderStatus.cancelled }

abbrev withdrawn : World
withdrawn = record waiting { orders = cancelled ∷ [] }

withdrawn-HasLock : HasLock services "s1" "order_confirmation" withdrawn
unfolding services acquire_lock
withdrawn-HasLock = (step_lock, refl)

withdrawn-Finds : Finds services (some "k1") withdrawn started_saga
unfolding services find_order_saga find_saga_by_correlation_id
withdrawn-Finds = refl

handle_payment_processed-ignores_example :
    order_by "o1" (handle_payment_processed services processed withdrawn).1 ≡ some cancelled
unfolding services acquire_lock
handle_payment_processed-ignores_example =
    (handle_payment_processed-ignores services processed started_saga withdrawn services-SagasUp
      withdrawn-HasLock refl refl (λ e. cc) cancelled withdrawn-Finds refl (λ e. cc)).1

-- The order is not there.
abbrev orphaned : World
orphaned = record waiting { orders = [] }

orphaned-HasLock : HasLock services "s1" "order_confirmation" orphaned
unfolding services acquire_lock
orphaned-HasLock = (step_lock, refl)

orphaned-Finds : Finds services (some "k1") orphaned started_saga
unfolding services find_order_saga find_saga_by_correlation_id
orphaned-Finds = refl

handle_payment_processed-loses_failure_example :
    (handle_payment_processed services processed orphaned).0 ≡ ok tt
unfolding services acquire_lock confirm execute_confirm
handle_payment_processed-loses_failure_example =
    (handle_payment_processed-loses_failure services processed started_saga orphaned
      services-SagasUp orphaned-HasLock refl refl (λ e. cc) (http not_found "Order not found")
      services-BrokerUp orphaned-Finds refl).0

abbrev declined : PaymentFailedEvent
declined = record {
  payment_id = "p1";
  order_id = "o1";
  user_id = "u1";
  amount = 50;
  failure_reason = "Insufficient funds or card declined";
  correlation_id = some "k1";
  occurred_at = 7;
}

handle_payment_failed-cancels_example :
    order_by "o1" (handle_payment_failed services declined waiting).1 ≡ some cancelled
unfolding services
handle_payment_failed-cancels_example =
    (handle_payment_failed-cancels services declined started_saga waiting services-SagasUp finds
      pending_order cancelled (cancelled ∷ []) refl (λ e. cc) (λ e. cc) refl).1

handle_payment_failed-Compensates_example :
    Compensates services "s1" "order_cancellation" "Order not found" started_saga orphaned
      (handle_payment_failed services declined orphaned)
unfolding services execute_cancel message_of
handle_payment_failed-Compensates_example =
    handle_payment_failed-Compensates services declined started_saga orphaned services-SagasUp
      orphaned-Finds (http not_found "Order not found") started_saga services-BrokerUp refl refl

abbrev created : OrderCreatedEvent
created = record {
  order_id = "o1";
  user_id = "u1";
  total_amount = 50;
  items = book ∷ lamp ∷ [];
  shipping_address = "Seoul";
  correlation_id = some "k1";
  occurred_at = 7;
}

abbrev payment_lock : AcquiredLock
payment_lock = record step_lock { key = "lock:saga_step:s1:payment_processing" }

abbrev new_world : World
new_world = record waiting {
  payments = [];
  sagas = record started_saga { completed_steps = [] } ∷ [];
}

abbrev charged : Payment
charged = record {
  id = "i";
  order_id = "o1";
  user_id = "u1";
  amount = 50;
  method = PaymentMethod.credit_card;
  status = PaymentStatus.processing;
  external_transaction_id = none;
  failure_reason = none;
}

handle_order_created-pays_example :
    (handle_order_created services created new_world).1.payments ≡ charged ∷ []
unfolding services acquire_lock start_saga create_saga with_lock release_lock
handle_order_created-pays_example =
    (handle_order_created-pays services created "k1" new_world new_world
      (record started_saga { completed_steps = [] }) (record started_saga { completed_steps = [] })
      refl refl refl (payment_lock, refl) refl charged (charged ∷ []) services-SagasUp refl refl).1
