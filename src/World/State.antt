-- ===== src/World/State.antt =====
-- The database's tables, the keys held in Redis, the messages that Kafka has accepted, the events
-- on the bus, and the callbacks that `setImmediate` has deferred.
use nestjs_cqrs_saga.Prelude.{ℕ, String, Option, List}
use nestjs_cqrs_saga.Entity.{Order, Payment, SagaInstance, EventStore, BusEvent, User}
use nestjs_cqrs_saga.Message.{Body, Message}

-- A callback given to `setImmediate`: `eventBus.publish` or `publishAll`, a Kafka publication, or
-- the payment simulation with the payment and the correlation id that it has captured.
pub data Task : Type 0 where
  publish_all : List BusEvent → Task
  publish_message : (topic : String) → Body → Task
  settle_payment : Payment → Option String → Task

pub record World : Type 0 where
  pub now : ℕ
  pub orders : List Order
  pub payments : List Payment
  pub users : List User
  pub sagas : List SagaInstance
  pub event_store : List EventStore
  pub keys : List (String × String)
  pub sent : List Message
  pub bus : List BusEvent
  pub deferred : List Task
