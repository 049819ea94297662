-- ===== src/Entity/Events.antt =====
-- The events that pass over the CQRS event bus, and src/event-store/entities/event-store.entity.ts.
-- `metadata` and `causationId` are never written and are left out.
use nestjs_cqrs_saga.Prelude.{ℕ, String, Option, List}
use nestjs_cqrs_saga.Entity.Orders.{
  OrderItem, OrderStatus, OrderCreatedEvent, OrderCancelledEvent, OrderConfirmedEvent,
  OrderStatusChangedEvent,
}
use nestjs_cqrs_saga.Entity.Payments.{
  PaymentProcessedEvent, PaymentFailedEvent, PaymentRefundedEvent,
}

pub data BusEvent : Type 0 where
  order_created : OrderCreatedEvent → BusEvent
  order_cancelled : OrderCancelledEvent → BusEvent
  order_confirmed : OrderConfirmedEvent → BusEvent
  order_status_changed : OrderStatusChangedEvent → BusEvent
  payment_processed : PaymentProcessedEvent → BusEvent
  payment_failed : PaymentFailedEvent → BusEvent
  payment_refunded : PaymentRefundedEvent → BusEvent

-- The `eventData` objects, a constructor for each shape.
pub data EventData : Type 0 where
  created :
      (order_id user_id : String) (total_amount : ℕ) (items : List OrderItem)
      (shipping_address : String)
      → EventData
  cancelled : (order_id user_id : String) (reason : Option String) → EventData
  confirmed : (order_id payment_id : String) (total_amount : ℕ) → EventData
  status_changed : (order_id : String) (previous_status new_status : OrderStatus) → EventData
  processed :
      (payment_id order_id user_id : String) (amount : ℕ) (external_transaction_id : String)
      → EventData
  payment_failed :
      (payment_id order_id user_id : String) (amount : ℕ) (failure_reason : String) → EventData
  refunded : (payment_id order_id : String) (refund_amount : ℕ) (reason : String) → EventData

pub record EventStore : Type 0 where
  pub id : String
  pub aggregate_id : String
  pub aggregate_type : String
  pub event_type : String
  pub event_data : EventData
  pub version : ℕ
  pub occurred_at : ℕ
  pub correlation_id : Option String
