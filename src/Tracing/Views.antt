-- ===== src/Tracing/Views.antt =====
-- The objects in the answers of src/tracing/tracing.controller.ts.
use nestjs_cqrs_saga.Prelude.{ℕ, String, Bool, Option, List, ℤ}
use nestjs_cqrs_saga.Entity.{
  Order, OrderItem, OrderStatus, Payment, PaymentStatus, PaymentMethod, SagaInstance, SagaStatus,
  EventStore, EventData,
}

pub record SagaTrace : Type 0 where
  pub id : String
  pub saga_type : String
  pub status : SagaStatus
  pub current_step : Option String
  pub completed_steps : List String
  pub compensation_steps : List String
  pub error_message : Option String

abbrev pub saga_trace : SagaInstance → SagaTrace
saga_trace saga = record {
  id = saga.id;
  saga_type = saga.saga_type;
  status = saga.status;
  current_step = saga.current_step;
  completed_steps = saga.completed_steps;
  compensation_steps = saga.compensation_steps;
  error_message = saga.error_message;
}

pub record OrderTrace : Type 0 where
  pub id : String
  pub status : OrderStatus
  pub total_amount : ℕ
  pub items : List OrderItem
  pub payment_id : Option String

abbrev pub order_trace : Order → OrderTrace
order_trace order = record {
  id = order.id;
  status = order.status;
  total_amount = order.total_amount;
  items = order.items;
  payment_id = order.payment_id;
}

pub record PaymentTrace : Type 0 where
  pub id : String
  pub status : PaymentStatus
  pub amount : ℕ
  pub method : PaymentMethod
  pub external_transaction_id : Option String
  pub failure_reason : Option String

abbrev pub payment_trace : Payment → PaymentTrace
payment_trace payment = record {
  id = payment.id;
  status = payment.status;
  amount = payment.amount;
  method = payment.method;
  external_transaction_id = payment.external_transaction_id;
  failure_reason = payment.failure_reason;
}

pub record TimelineEntry : Type 0 where
  pub timestamp : ℕ
  pub event_type : String
  pub aggregate_type : String
  pub aggregate_id : String
  pub event_data : EventData

abbrev pub timeline_entry : EventStore → TimelineEntry
timeline_entry event = record {
  timestamp = event.occurred_at;
  event_type = event.event_type;
  aggregate_type = event.aggregate_type;
  aggregate_id = event.aggregate_id;
  event_data = event.event_data;
}

-- The answer of `traceByCorrelationId`, its summary included.
pub record Trace : Type 0 where
  pub correlation_id : String
  pub saga : SagaTrace
  pub order : Option OrderTrace
  pub payment : Option PaymentTrace
  pub timeline : List TimelineEntry
  pub total_events : ℕ
  pub saga_status : SagaStatus
  pub order_status : Option OrderStatus
  pub payment_status : Option PaymentStatus
  pub duration : ℤ
  pub is_successful : Bool

pub record CorrelatedSaga : Type 0 where
  pub id : String
  pub correlation_id : String
  pub status : SagaStatus
  pub current_step : Option String
  pub completed_steps : List String
  pub compensation_steps : List String
  pub error_message : Option String

abbrev pub correlated_saga : SagaInstance → CorrelatedSaga
correlated_saga saga = record {
  id = saga.id;
  correlation_id = saga.correlation_id;
  status = saga.status;
  current_step = saga.current_step;
  completed_steps = saga.completed_steps;
  compensation_steps = saga.compensation_steps;
  error_message = saga.error_message;
}

-- An event of the flow of an order.
pub record CorrelatedEvent : Type 0 where
  pub timestamp : ℕ
  pub event_type : String
  pub aggregate_type : String
  pub aggregate_id : String
  pub event_data : EventData
  pub correlation_id : Option String

abbrev pub correlated_event : EventStore → CorrelatedEvent
correlated_event event = record {
  timestamp = event.occurred_at;
  event_type = event.event_type;
  aggregate_type = event.aggregate_type;
  aggregate_id = event.aggregate_id;
  event_data = event.event_data;
  correlation_id = event.correlation_id;
}

-- An event of the stream of all events.
pub record EventView : Type 0 where
  pub id : String
  pub timestamp : ℕ
  pub event_type : String
  pub aggregate_type : String
  pub aggregate_id : String
  pub event_data : EventData
  pub correlation_id : Option String

abbrev pub event_view : EventStore → EventView
event_view event = record {
  id = event.id;
  timestamp = event.occurred_at;
  event_type = event.event_type;
  aggregate_type = event.aggregate_type;
  aggregate_id = event.aggregate_id;
  event_data = event.event_data;
  correlation_id = event.correlation_id;
}

-- The answer of `traceByOrderId`, its summary included.
pub record OrderFlow : Type 0 where
  pub order_id : String
  pub order : OrderTrace
  pub user_id : String
  pub sagas : List CorrelatedSaga
  pub payment : Option PaymentTrace
  pub events : List CorrelatedEvent
  pub total_events : ℕ
  pub total_sagas : ℕ
  pub has_payment : Bool
  pub order_status : OrderStatus
  pub payment_status : Option PaymentStatus
  pub saga_status : Option SagaStatus

pub record EventStream : Type 0 where
  pub events : List EventView
  pub total_returned : ℕ
  pub event_type_distribution : List (String × ℕ)

pub record FlowSaga : Type 0 where
  pub id : String
  pub status : SagaStatus
  pub current_step : Option String
  pub completed_steps : List String
  pub error_message : Option String
  pub duration : ℤ

pub record FlowOrder : Type 0 where
  pub id : String
  pub status : OrderStatus
  pub total_amount : ℕ

abbrev pub flow_order : Order → FlowOrder
flow_order order = record {
  id = order.id;
  status = order.status;
  total_amount = order.total_amount;
}

pub record FlowPayment : Type 0 where
  pub id : String
  pub status : PaymentStatus
  pub failure_reason : Option String

abbrev pub flow_payment : Payment → FlowPayment
flow_payment payment = record {
  id = payment.id;
  status = payment.status;
  failure_reason = payment.failure_reason;
}

pub record RecentEvent : Type 0 where
  pub event_type : String
  pub timestamp : ℕ

abbrev pub recent_event : EventStore → RecentEvent
recent_event event = record { event_type = event.event_type; timestamp = event.occurred_at }

pub record Flow : Type 0 where
  pub correlation_id : String
  pub saga : FlowSaga
  pub order : Option FlowOrder
  pub payment : Option FlowPayment
  pub recent_events : List RecentEvent
  pub is_stuck : Bool

pub record ActiveFlows : Type 0 where
  pub total_active_flows : ℕ
  pub stuck_flows : ℕ
  pub flows : List Flow
