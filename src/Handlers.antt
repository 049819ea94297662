-- ===== src/Handlers.antt =====
-- The event handlers: src/order/events/handlers/order.handlers.ts,
-- src/payment/events/handlers/payment.handlers.ts, and the two handlers at the end of
-- src/saga/order-processing.saga.ts.
pub mod Log
use nestjs_cqrs_saga.Prelude.{ℕ, String, Option, List, [], ◌∷◌}
use nestjs_cqrs_saga.Entity.{
  EventStore, EventData, BusEvent, OrderCreatedEvent, OrderCancelledEvent, OrderConfirmedEvent,
  OrderStatusChangedEvent, PaymentProcessedEvent, PaymentFailedEvent, PaymentRefundedEvent,
  order_created, order_cancelled, order_confirmed, order_status_changed, payment_processed,
  payment_failed, payment_refunded,
}
use nestjs_cqrs_saga.Message.{event}
use nestjs_cqrs_saga.World.{World, Platform, Action, gets, ◌>>=◌, ◌>>◌}
use nestjs_cqrs_saga.Store.{save_event}
use nestjs_cqrs_saga.Kafka.{publish}
use nestjs_cqrs_saga.Processing.{
  handle_order_created, handle_payment_processed, handle_payment_failed,
}

-- `eventStoreRepository.create` and `save`, then `kafkaService.publish`; the version is the
-- column's default.
unfoldable pub store_and_publish :
    Platform
    → (aggregate_id aggregate_type event_type : String) → EventData
    → Option String
    → ℕ
    → (topic : String) → BusEvent
    → Action (Unit {0})
store_and_publish p aggregate_id aggregate_type event_type event_data correlation_id occurred_at
      topic e =
    do
      i ← gets (λ w. p.event_store.generate w.event_store)
      save_event p (record {
        id = i;
        aggregate_id = aggregate_id;
        aggregate_type = aggregate_type;
        event_type = event_type;
        event_data = event_data;
        version = 1;
        occurred_at = occurred_at;
        correlation_id = correlation_id;
      })
      publish p topic (event e)

-- `OrderCreatedHandler.handle`
unfoldable pub on_order_created : Platform → OrderCreatedEvent → Action (Unit {0})
on_order_created p e =
    store_and_publish p e.order_id "Order" "OrderCreated"
      (EventData.created e.order_id e.user_id e.total_amount e.items e.shipping_address)
      e.correlation_id e.occurred_at "order-events" (order_created e)
    >> handle_order_created p e

-- `OrderCancelledHandler.handle`
unfoldable pub on_order_cancelled : Platform → OrderCancelledEvent → Action (Unit {0})
on_order_cancelled p e =
    store_and_publish p e.order_id "Order" "OrderCancelled"
      (EventData.cancelled e.order_id e.user_id e.reason) e.correlation_id e.occurred_at
      "order-events" (order_cancelled e)

-- `OrderConfirmedHandler.handle`
unfoldable pub on_order_confirmed : Platform → OrderConfirmedEvent → Action (Unit {0})
on_order_confirmed p e =
    store_and_publish p e.order_id "Order" "OrderConfirmed"
      (EventData.confirmed e.order_id e.payment_id e.total_amount) e.correlation_id e.occurred_at
      "order-events" (order_confirmed e)

-- `OrderStatusChangedHandler.handle`
unfoldable pub on_order_status_changed : Platform → OrderStatusChangedEvent → Action (Unit {0})
on_order_status_changed p e =
    store_and_publish p e.order_id "Order" "OrderStatusChanged"
      (EventData.status_changed e.order_id e.previous_status e.new_status) e.correlation_id
      e.occurred_at "order-events" (order_status_changed e)

-- `PaymentProcessedHandler.handle`
unfoldable pub on_payment_processed : Platform → PaymentProcessedEvent → Action (Unit {0})
on_payment_processed p e =
    store_and_publish p e.payment_id "Payment" "PaymentProcessed"
      (EventData.processed e.payment_id e.order_id e.user_id e.amount e.external_transaction_id)
      e.correlation_id e.occurred_at "payment-events" (payment_processed e)

-- `PaymentFailedHandler.handle`
unfoldable pub on_payment_failed : Platform → PaymentFailedEvent → Action (Unit {0})
on_payment_failed p e =
    store_and_publish p e.payment_id "Payment" "PaymentFailed"
      (EventData.payment_failed e.payment_id e.order_id e.user_id e.amount e.failure_reason)
      e.correlation_id e.occurred_at "payment-events" (payment_failed e)

-- `PaymentRefundedHandler.handle`
unfoldable pub on_payment_refunded : Platform → PaymentRefundedEvent → Action (Unit {0})
on_payment_refunded p e =
    store_and_publish p e.payment_id "Payment" "PaymentRefunded"
      (EventData.refunded e.payment_id e.order_id e.refund_amount e.reason) e.correlation_id
      e.occurred_at "payment-events" (payment_refunded e)

-- `PaymentProcessedSagaHandler.handle`
unfoldable pub saga_on_payment_processed : Platform → PaymentProcessedEvent → Action (Unit {0})
saga_on_payment_processed p e = handle_payment_processed p e

-- `PaymentFailedSagaHandler.handle`
unfoldable pub saga_on_payment_failed : Platform → PaymentFailedEvent → Action (Unit {0})
saga_on_payment_failed p e = handle_payment_failed p e

-- The handlers that `@EventsHandler` registers for an event. The bus calls each of them, and an
-- exception in one stops no other.
unfoldable pub handlers : Platform → BusEvent → List (Action (Unit {0}))
unfolding on_order_created on_order_cancelled on_order_confirmed on_order_status_changed
    on_payment_processed on_payment_failed on_payment_refunded saga_on_payment_processed
    saga_on_payment_failed
handlers p (order_created e) = on_order_created p e ∷ []
handlers p (order_cancelled e) = on_order_cancelled p e ∷ []
handlers p (order_confirmed e) = on_order_confirmed p e ∷ []
handlers p (order_status_changed e) = on_order_status_changed p e ∷ []
handlers p (payment_processed e) = on_payment_processed p e ∷ saga_on_payment_processed p e ∷ []
handlers p (payment_failed e) = on_payment_failed p e ∷ saga_on_payment_failed p e ∷ []
handlers p (payment_refunded e) = on_payment_refunded p e ∷ []
