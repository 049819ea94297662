-- ===== src/Handlers/Log.antt =====
-- What the event handlers write to the event store and send to Kafka.
use nestjs_cqrs_saga.Prelude.{ℕ, String, ◌≡◌, ◌∙◌, refl, Option, List, [], ◌∷◌, ◌++◌, arith}
use nestjs_cqrs_saga.Outcome.{ok}
use nestjs_cqrs_saga.Table.{upsert_fresh}
use nestjs_cqrs_saga.Entity.{
  EventStore, EventData, BusEvent, order_created, order_cancelled, order_confirmed,
  order_status_changed, payment_processed, payment_failed, payment_refunded,
}
use nestjs_cqrs_saga.Message.{event}
use nestjs_cqrs_saga.World.{World, Platform, Action, BrokerUp}
use nestjs_cqrs_saga.Kafka.{publish_sends, kafka_record}
use nestjs_cqrs_saga.Kafka.Routing.{base_topic}
use nestjs_cqrs_saga.Processing.{handle_order_created}
use nestjs_cqrs_saga.Handlers.{
  handlers, store_and_publish, on_order_created, on_order_cancelled, on_order_confirmed,
  on_order_status_changed, on_payment_processed, on_payment_failed, on_payment_refunded,
}

-- The row that tells of an event.
abbrev pub entry : String → BusEvent → EventStore
entry i (order_created e) = record {
  id = i;
  aggregate_id = e.order_id;
  aggregate_type = "Order";
  event_type = "OrderCreated";
  event_data = EventData.created e.order_id e.user_id e.total_amount e.items e.shipping_address;
  version = 1;
  occurred_at = e.occurred_at;
  correlation_id = e.correlation_id;
}
entry i (order_cancelled e) = record {
  id = i;
  aggregate_id = e.order_id;
  aggregate_type = "Order";
  event_type = "OrderCancelled";
  event_data = EventData.cancelled e.order_id e.user_id e.reason;
  version = 1;
  occurred_at = e.occurred_at;
  correlation_id = e.correlation_id;
}
entry i (order_confirmed e) = record {
  id = i;
  aggregate_id = e.order_id;
  aggregate_type = "Order";
  event_type = "OrderConfirmed";
  event_data = EventData.confirmed e.order_id e.payment_id e.total_amount;
  version = 1;
  occurred_at = e.occurred_at;
  correlation_id = e.correlation_id;
}
entry i (order_status_changed e) = record {
  id = i;
  aggregate_id = e.order_id;
  aggregate_type = "Order";
  event_type = "OrderStatusChanged";
  event_data = EventData.status_changed e.order_id e.previous_status e.new_status;
  version = 1;
  occurred_at = e.occurred_at;
  correlation_id = e.correlation_id;
}
entry i (payment_processed e) = record {
  id = i;
  aggregate_id = e.payment_id;
  aggregate_type = "Payment";
  event_type = "PaymentProcessed";
  event_data =
      EventData.processed e.payment_id e.order_id e.user_id e.amount e.external_transaction_id;
  version = 1;
  occurred_at = e.occurred_at;
  correlation_id = e.correlation_id;
}
entry i (payment_failed e) = record {
  id = i;
  aggregate_id = e.payment_id;
  aggregate_type = "Payment";
  event_type = "PaymentFailed";
  event_data = EventData.payment_failed e.payment_id e.order_id e.user_id e.amount e.failure_reason;
  version = 1;
  occurred_at = e.occurred_at;
  correlation_id = e.correlation_id;
}
entry i (payment_refunded e) = record {
  id = i;
  aggregate_id = e.payment_id;
  aggregate_type = "Payment";
  event_type = "PaymentRefunded";
  event_data = EventData.refunded e.payment_id e.order_id e.refund_amount e.reason;
  version = 1;
  occurred_at = e.occurred_at;
  correlation_id = e.correlation_id;
}

-- The handler of an event that its module registers first, which is the one that logs it.
abbrev pub first_handler : Platform → BusEvent → Action (Unit {0})
first_handler p e = elim (handlers p e) [ [] ↦ λ w. (ok tt, w) | h ∷ hs ↦ h ]

abbrev pub logged : Platform → World → BusEvent → World
logged p w e = record w {
  event_store = w.event_store ++ entry (p.event_store.generate w.event_store) e ∷ [];
  sent = w.sent ++ kafka_record p (base_topic e) (event e) w.now ∷ [];
}

-- What follows on the log: the saga of a new order, and nothing else.
abbrev pub follow_up : Platform → BusEvent → Action (Unit {0})
follow_up p (order_created e) = handle_order_created p e
follow_up p _ = λ w. (ok tt, w)

stored_lem :
    (p : Platform) (x r : EventStore) (t t' : List EventStore)
    → x.id ≡ p.event_store.generate t
    → p.event_store.save x t ≡ ok (r, t')
    → t' ≡ t ++ x ∷ []
stored_lem p x r t t' same saved =
    (p.event_store.save_ok x r t t' saved).1
    ∙ upsert_fresh (λ (r : EventStore). r.id) x t (rw same (p.event_store.generate_fresh t))

-- What the seven handlers share: the row is stored behind the others, and the event is sent.
store_and_publish_lem :
    (p : Platform) (aggregate_id aggregate_type event_type : String) (d : EventData)
    (c : Option String) (at : ℕ) (e : BusEvent) (w : World) (r : EventStore) (t : List EventStore)
    → BrokerUp p
    → let x : EventStore = record {
      id = p.event_store.generate w.event_store;
      aggregate_id = aggregate_id;
      aggregate_type = aggregate_type;
      event_type = event_type;
      event_data = d;
      version = 1;
      occurred_at = at;
      correlation_id = c;
    } in
      p.event_store.save x w.event_store ≡ ok (r, t)
      → store_and_publish p aggregate_id aggregate_type event_type d c at (base_topic e) e w ≡ (
        ok tt,
        record w {
          event_store = w.event_store ++ x ∷ [];
          sent = w.sent ++ kafka_record p (base_topic e) (event e) w.now ∷ [];
        },
      )
unfolding store_and_publish
store_and_publish_lem p aggregate_id aggregate_type event_type d c at e w r t up saved =
    let x : EventStore = record {
      id = p.event_store.generate w.event_store;
      aggregate_id = aggregate_id;
      aggregate_type = aggregate_type;
      event_type = event_type;
      event_data = d;
      version = 1;
      occurred_at = at;
      correlation_id = c;
    } in
    let v : World = record w { event_store = w.event_store ++ x ∷ [] } in
    ground (
      arith,
      stored_lem p x r w.event_store t refl saved,
      publish_sends p (base_topic e) (event e) v up,
    )

-- The first handler of any event, if the event store accepts its row and the broker every message,
-- stores one row with the event's aggregate, name, data and correlation id and then sends the event
-- once on its topic; the handler of a new order goes on with the saga from there, and the other six
-- are done.
pub first_handler-logs :
    (p : Platform) (w : World) (r : EventStore) (t : List EventStore) (e : BusEvent)
    → BrokerUp p
    → p.event_store.save (entry (p.event_store.generate w.event_store) e) w.event_store ≡ ok (r, t)
    → first_handler p e w ≡ follow_up p e (logged p w e)
unfolding handlers on_order_created on_order_cancelled on_order_confirmed on_order_status_changed
    on_payment_processed on_payment_failed on_payment_refunded
first_handler-logs p w r t (order_created e) up saved =
    let event_data =
      EventData.created e.order_id e.user_id e.total_amount e.items e.shipping_address in
    let logs =
      store_and_publish_lem p e.order_id "Order" "OrderCreated" event_data e.correlation_id
        e.occurred_at (order_created e) w r t up saved in
    ground (arith, logs)
first_handler-logs p w r t (order_cancelled e) up saved =
    store_and_publish_lem p _ _ _ _ _ _ (order_cancelled e) w r t up saved
first_handler-logs p w r t (order_confirmed e) up saved =
    store_and_publish_lem p _ _ _ _ _ _ (order_confirmed e) w r t up saved
first_handler-logs p w r t (order_status_changed e) up saved =
    store_and_publish_lem p _ _ _ _ _ _ (order_status_changed e) w r t up saved
first_handler-logs p w r t (payment_processed e) up saved =
    store_and_publish_lem p _ _ _ _ _ _ (payment_processed e) w r t up saved
first_handler-logs p w r t (payment_failed e) up saved =
    store_and_publish_lem p _ _ _ _ _ _ (payment_failed e) w r t up saved
first_handler-logs p w r t (payment_refunded e) up saved =
    store_and_publish_lem p _ _ _ _ _ _ (payment_refunded e) w r t up saved
