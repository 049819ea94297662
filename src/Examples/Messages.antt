-- ===== src/Examples/Messages.antt =====
-- The theorems on topics and on the event log on the services in memory.
use nestjs_cqrs_saga.Prelude.{◌≡◌, refl, some, [], ◌∷◌}
use nestjs_cqrs_saga.Outcome.{ok}
use nestjs_cqrs_saga.Entity.{BusEvent, PaymentProcessedEvent, order_created, payment_processed}
use nestjs_cqrs_saga.Message.{saga_step_completed}
use nestjs_cqrs_saga.Kafka.{kafka_record}
use nestjs_cqrs_saga.Kafka.Routing.{saga_route}
use nestjs_cqrs_saga.Handlers.Log.{first_handler-logs, first_handler, logged, entry}
use nestjs_cqrs_saga.Examples.Services.{services, services-BrokerUp, waiting, book}

abbrev processed_event : PaymentProcessedEvent
processed_event = record {
  payment_id = "p1";
  order_id = "o1";
  user_id = "u1";
  amount = 50;
  external_transaction_id = "ext_tx_1";
  correlation_id = some "k1";
  occurred_at = 7;
}

abbrev created : BusEvent
created = order_created (record {
  order_id = "o1";
  user_id = "u1";
  total_amount = 20;
  items = book ∷ [];
  shipping_address = "Seoul";
  correlation_id = some "k1";
  occurred_at = 7;
})

saga_route_example :
    (kafka_record services "saga-events" (saga_step_completed "s1" "payment_processing" []) 7).topic
    ≡ "saga-events"
saga_route_example = saga_route services (saga_step_completed "s1" "payment_processing" []) 7 tt

first_handler-logs_example :
    first_handler services (payment_processed processed_event) waiting
    ≡ (ok tt, logged services waiting (payment_processed processed_event))
unfolding services
first_handler-logs_example =
    first_handler-logs services waiting
      (entry (services.event_store.generate []) (payment_processed processed_event))
      (entry (services.event_store.generate []) (payment_processed processed_event) ∷ [])
      (payment_processed processed_event) services-BrokerUp refl
