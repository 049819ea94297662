-- ===== src/Entity/Orders.antt =====
-- src/order/entities/order.entity.ts, src/order/commands/order.commands.ts and
-- src/order/events/order.events.ts. Prices and amounts are counted in whole minor units. The
-- columns that the database fills and no modelled operation reads are left out (`createdAt`,
-- `updatedAt`, `metadata`, `nodeId`), and so is the joined `user`.
use nestjs_cqrs_saga.Prelude.{ℕ, String, Option, List}

pub data OrderStatus : Type 0 where
  pending processing paid shipped delivered cancelled failed : OrderStatus

pub OrderStatus-discrete : Discrete OrderStatus
OrderStatus-discrete = hlevel

pub record OrderItem : Type 0 where
  pub product_id : String
  pub product_name : String
  pub quantity : ℕ
  pub price : ℕ

pub record Order : Type 0 where
  pub id : String
  pub user_id : String
  pub total_amount : ℕ
  pub status : OrderStatus
  pub items : List OrderItem
  pub payment_id : Option String
  pub shipping_address : String
  pub idempotency_key : Option String

pub record CreateOrderCommand : Type 0 where
  pub user_id : String
  pub items : List OrderItem
  pub shipping_address : String
  pub correlation_id : Option String

pub record CancelOrderCommand : Type 0 where
  pub order_id : String
  pub user_id : String
  pub reason : Option String
  pub correlation_id : Option String

pub record ConfirmOrderCommand : Type 0 where
  pub order_id : String
  pub payment_id : String
  pub correlation_id : Option String

pub record OrderCreatedEvent : Type 0 where
  pub order_id : String
  pub user_id : String
  pub total_amount : ℕ
  pub items : List OrderItem
  pub shipping_address : String
  pub correlation_id : Option String
  pub occurred_at : ℕ

pub record OrderCancelledEvent : Type 0 where
  pub order_id : String
  pub user_id : String
  pub reason : Option String
  pub correlation_id : Option String
  pub occurred_at : ℕ

pub record OrderConfirmedEvent : Type 0 where
  pub order_id : String
  pub payment_id : String
  pub total_amount : ℕ
  pub correlation_id : Option String
  pub occurred_at : ℕ

pub record OrderStatusChangedEvent : Type 0 where
  pub order_id : String
  pub previous_status : OrderStatus
  pub new_status : OrderStatus
  pub correlation_id : Option String
  pub occurred_at : ℕ
