-- ===== src/Message.antt =====
-- What `KafkaService.publish` (src/kafka/kafka.service.ts) is given and sends. A body keeps the
-- fields of the object that the caller builds; its `timestamp` is that of the record sent.
use nestjs_cqrs_saga.Prelude.{ℕ, String, Option, none, some, List, []}
use nestjs_cqrs_saga.Entity.{
  SagaData, OrderItem, BusEvent, order_created, order_cancelled, order_confirmed,
  order_status_changed, payment_processed, payment_failed, payment_refunded,
}

pub data Body : Type 0 where
  saga_started : (saga_id saga_type correlation_id : String) (saga_data : SagaData) → Body
  saga_step_completed : (saga_id step_name : String) (completed_steps : List String) → Body
  saga_completed : (saga_id correlation_id : String) (completed_steps : List String) → Body
  saga_failed : (saga_id correlation_id failed_step error_message : String) → Body
  saga_compensated : (saga_id correlation_id : String) (compensation_steps : List String) → Body
  saga_compensation_failed : (saga_id correlation_id : String) (error : Option String) → Body
  saga_step_compensated : (saga_id step_name : String) → Body
  event : BusEvent → Body
  test : (message : String) → Body

pub record Message : Type 0 where
  pub topic : String
  pub key : String
  pub value : Body
  pub timestamp : ℕ

event_correlation_id : BusEvent → Option String
event_correlation_id (order_created e) = e.correlation_id
event_correlation_id (order_cancelled e) = e.correlation_id
event_correlation_id (order_confirmed e) = e.correlation_id
event_correlation_id (order_status_changed e) = e.correlation_id
event_correlation_id (payment_processed e) = e.correlation_id
event_correlation_id (payment_failed e) = e.correlation_id
event_correlation_id (payment_refunded e) = e.correlation_id

event_order_id : BusEvent → String
event_order_id (order_created e) = e.order_id
event_order_id (order_cancelled e) = e.order_id
event_order_id (order_confirmed e) = e.order_id
event_order_id (order_status_changed e) = e.order_id
event_order_id (payment_processed e) = e.order_id
event_order_id (payment_failed e) = e.order_id
event_order_id (payment_refunded e) = e.order_id

-- `message.correlationId`
unfoldable pub correlation_id : Body → Option String
unfolding event_correlation_id
correlation_id (saga_started i t c d) = some c
correlation_id (saga_step_completed i s cs) = none
correlation_id (saga_completed i c cs) = some c
correlation_id (saga_failed i c s m) = some c
correlation_id (saga_compensated i c cs) = some c
correlation_id (saga_compensation_failed i c e) = some c
correlation_id (saga_step_compensated i s) = none
correlation_id (event e) = event_correlation_id e
correlation_id (test m) = none

-- `message.sagaId`
unfoldable pub saga_id : Body → Option String
saga_id (saga_started i t c d) = some i
saga_id (saga_step_completed i s cs) = some i
saga_id (saga_completed i c cs) = some i
saga_id (saga_failed i c s m) = some i
saga_id (saga_compensated i c cs) = some i
saga_id (saga_compensation_failed i c e) = some i
saga_id (saga_step_compensated i s) = some i
saga_id (event e) = none
saga_id (test m) = none

-- `message.orderId`
unfoldable pub order_id : Body → Option String
unfolding event_order_id
order_id (event e) = some (event_order_id e)
order_id _ = none

-- `message.items`
unfoldable pub items : Body → List OrderItem
items (event (order_created e)) = e.items
items _ = []
