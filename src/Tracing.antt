-- ===== src/Tracing.antt =====
-- src/tracing/tracing.controller.ts. What its answers show of dates that the database fills is left
-- out, but for the durations and what is stuck, which the code computes from them.
pub mod Views
pub mod Timeline
pub mod Flows
use mathlib.Core.Option
use nestjs_cqrs_saga.Prelude.{
  ℕ, ◌+◌, String, Bool, true, false, ◌&&◌, ◌||◌, Option, none, some, List, [], ◌∷◌, map, take,
  filter, length, ltb, leb, ◌==◌, if◌then◌else◌, is_truthy, truthy_or, opt_eq, value_or, ℤ, minus,
}
use nestjs_cqrs_saga.Outcome.{ok}
use nestjs_cqrs_saga.Entity.{
  Order, OrderStatus, Payment, PaymentStatus, SagaInstance, SagaStatus, EventStore, EventData,
  created, cancelled, confirmed, status_changed, processed, payment_failed, refunded,
}
use nestjs_cqrs_saga.World.{World, Platform, Action, pure, throw, gets, ◌>>=◌, ◌>>◌}
use nestjs_cqrs_saga.Tracing.Views.{
  OrderTrace, PaymentTrace, SagaTrace, TimelineEntry, Trace, OrderFlow, CorrelatedSaga, EventView,
  EventStream, FlowSaga, FlowOrder, FlowPayment, RecentEvent, Flow, ActiveFlows, order_trace,
  payment_trace, saga_trace, timeline_entry, correlated_saga, correlated_event, event_view,
  flow_order, flow_payment, recent_event,
}

-- `where: { correlationId }` of events.
abbrev pub has_correlation_id : String → EventStore → Bool
has_correlation_id c event = opt_eq event.correlation_id (some c)

pub data TraceAnswer : Type 0 where
  found : Trace → TraceAnswer
  missing : (asked message : String) → TraceAnswer

abbrev pub is_completed : SagaStatus → Bool
is_completed SagaStatus.completed = true
is_completed _ = false

-- What `traceByCorrelationId` answers for a saga that is found.
unfoldable pub trace_of : Platform → (correlation_id : String) → SagaInstance → World → Trace
trace_of p correlation_id saga w =
    let order = p.orders.find_one (λ r. r.id == saga.saga_data.order_id) w.orders in
    let payment = p.payments.find_one (λ r. r.order_id == saga.saga_data.order_id) w.payments in
    let events = p.events_oldest (has_correlation_id correlation_id) w.event_store in
    record {
      correlation_id = correlation_id;
      saga = saga_trace saga;
      order = Option.map order_trace order;
      payment = Option.map payment_trace payment;
      timeline = map timeline_entry events;
      total_events = length events;
      saga_status = saga.status;
      order_status = Option.map (λ r. r.status) order;
      payment_status = Option.map (λ r. r.status) payment;
      duration = minus (p.saga_updated_at saga.id w) (p.saga_created_at saga.id w);
      is_successful = is_completed saga.status;
    }

-- `traceByCorrelationId`
unfoldable pub trace_by_correlation_id : Platform → (correlation_id : String) → Action TraceAnswer
trace_by_correlation_id p correlation_id w =
    elim (p.sagas.find_one (λ r. r.correlation_id == correlation_id) w.sagas) [
      | none ↦ (ok (missing correlation_id "No saga found with this correlation ID"), w)
      | some saga ↦ (ok (found (trace_of p correlation_id saga w)), w)
    ]

-- `eventData->>'orderId'`
abbrev pub order_id_of : EventData → String
order_id_of (created order_id user_id total_amount items shipping_address) = order_id
order_id_of (cancelled order_id user_id reason) = order_id
order_id_of (confirmed order_id payment_id total_amount) = order_id
order_id_of (status_changed order_id previous_status new_status) = order_id
order_id_of (processed payment_id order_id user_id amount external_transaction_id) = order_id
order_id_of (payment_failed payment_id order_id user_id amount failure_reason) = order_id
order_id_of (refunded payment_id order_id refund_amount reason) = order_id

-- `eventData->>'orderId' = :orderId OR aggregateId = :orderId`
abbrev pub concerns_order : String → EventStore → Bool
concerns_order order_id event =
    order_id_of event.event_data == order_id || event.aggregate_id == order_id

pub data OrderAnswer : Type 0 where
  flow_found : OrderFlow → OrderAnswer
  flow_missing : (asked message : String) → OrderAnswer

-- `sagas[0]?.status`
abbrev pub first_status : List SagaInstance → Option SagaStatus
first_status [] = none
first_status (saga ∷ sagas) = some saga.status

abbrev pub is_found : {A : Type 0} → Option A → Bool
is_found none = false
is_found (some a) = true

-- What `traceByOrderId` answers for an order that is found.
unfoldable pub flow_of : Platform → (order_id : String) → Order → World → OrderFlow
flow_of p order_id order w =
    let sagas = p.sagas.find (λ r. r.saga_data.order_id == order_id) w.sagas in
    let payment = p.payments.find_one (λ r. r.order_id == order_id) w.payments in
    let events = p.events_oldest (concerns_order order_id) w.event_store in
    record {
      order_id = order_id;
      order = order_trace order;
      user_id = order.user_id;
      sagas = map correlated_saga sagas;
      payment = Option.map payment_trace payment;
      events = map correlated_event events;
      total_events = length events;
      total_sagas = length sagas;
      has_payment = is_found payment;
      order_status = order.status;
      payment_status = Option.map (λ r. r.status) payment;
      saga_status = first_status sagas;
    }

-- `traceByOrderId`
unfoldable pub trace_by_order_id : Platform → (order_id : String) → Action OrderAnswer
trace_by_order_id p order_id w = elim (p.orders.find_one (λ r. r.id == order_id) w.orders) [
  | none ↦ (ok (flow_missing order_id "Order not found"), w)
  | some order ↦ (ok (flow_found (flow_of p order_id order w)), w)
]

-- The condition on the type, if one is given.
abbrev pub has_type : Option String → EventStore → Bool
has_type event_type event =
    if is_truthy event_type then event.event_type == truthy_or event_type "" else true

-- `Math.min`
abbrev pub min : ℕ → ℕ → ℕ
min m n = if leb m n then m else n

-- `getAllEvents`
unfoldable pub get_all_events :
    Platform → (limit : Option ℕ) → (event_type : Option String) → Action EventStream
get_all_events p limit event_type w =
    let events = p.events_limit (has_type event_type) (min (value_or limit 50) 100) w.event_store in
    (
      ok (record {
        events = map event_view events;
        total_returned = length events;
        event_type_distribution = p.event_types w.event_store;
      }),
      w,
    )

abbrev pub is_active_saga : SagaStatus → Bool
is_active_saga SagaStatus.started = true
is_active_saga SagaStatus.compensating = true
is_active_saga _ = false

-- `Date.now() - saga.updatedAt.getTime() > 60000`
abbrev pub is_stuck : Platform → World → SagaInstance → Bool
is_stuck p w saga = ltb (p.saga_updated_at saga.id w + 60000) w.now

-- The body of the loop of `getActiveFlows`.
unfoldable pub flow : Platform → World → SagaInstance → Flow
flow p w saga = record {
  correlation_id = saga.correlation_id;
  saga = record {
    id = saga.id;
    status = saga.status;
    current_step = saga.current_step;
    completed_steps = saga.completed_steps;
    error_message = saga.error_message;
    duration = minus w.now (p.saga_created_at saga.id w);
  };
  order = Option.map flow_order (p.orders.find_one (λ r. r.id == saga.saga_data.order_id) w.orders);
  payment =
      Option.map flow_payment
        (p.payments.find_one (λ r. r.order_id == saga.saga_data.order_id) w.payments);
  recent_events =
      map recent_event
        (take 3 (p.events_newest (has_correlation_id saga.correlation_id) w.event_store));
  is_stuck = is_stuck p w saga;
}

-- `getActiveFlows`
unfoldable pub get_active_flows : Platform → Action ActiveFlows
get_active_flows p w =
    let flows = map (flow p w) (p.sagas.newest (λ r. is_active_saga r.status) w.sagas) in
    (
      ok (record {
        total_active_flows = length flows;
        stuck_flows = length (filter (λ f. f.is_stuck) flows);
        flows = flows;
      }),
      w,
    )
