-- ===== src/Examples/Brokers.antt =====
-- Kafka's client in memory, and the life of the service's connections on it.
use nestjs_cqrs_saga.Prelude.{
  ℕ, String, ◌≡◌, refl, includes, Bool, false, not, none, some, List, [], ◌∷◌, arith, any, filter,
  nat_eq, length,
}
use nestjs_cqrs_saga.Outcome.{ok, err, plain}
use nestjs_cqrs_saga.World.{Action, throw}
use nestjs_cqrs_saga.Message.{saga_started}
use nestjs_cqrs_saga.Kafka.{kafka_record}
use nestjs_cqrs_saga.Kafka.Library.{KafkaJs, return, pattern_of, exact}
use nestjs_cqrs_saga.Kafka.Client.{
  KafkaService, each_message, on_module_init, on_module_destroy, subscribe, subscription_of,
  kafka_config,
}
use nestjs_cqrs_saga.Kafka.Startup.{publish-created_at_start, created_at_start}
use nestjs_cqrs_saga.Kafka.Shutdown.{subscribe-on_module_destroy, consumer_of, Stopped}
use nestjs_cqrs_saga.Examples.Services.{services, waiting, started_saga}

-- The consumers that run, each by its number.
abbrev running : ℕ → List ℕ → Bool
running c b = any (λ d. nat_eq c d) b

abbrev without : ℕ → List ℕ → List ℕ
without c b = filter (λ d. not (nat_eq c d)) b

without-stops : (c : ℕ) (b : List ℕ) → running c (without c b) ≡ false
without-stops c [] = refl
without-stops c (d ∷ b) = ground (arith, without-stops c b)

without-starts_none : (c e : ℕ) (b : List ℕ) → running e b ≡ false → running e (without c b) ≡ false
without-starts_none c e [] h = refl
without-starts_none c e (d ∷ b) h = ground (arith, without-starts_none c e b)

abbrev kafka_in_memory : KafkaJs
kafka_in_memory = record {
  Broker = List ℕ;
  Consumer = ℕ;
  connect_producer = return tt;
  disconnect_producer = return tt;
  connect_admin = return tt;
  disconnect_admin = return tt;
  create_topics = λ topics b. (err (plain "Topic with this name already exists"), b);
  consumer = λ options b. (ok (length b), b);
  subscribe = λ c from_beginning s. return tt;
  run = λ c b. (ok tt, c ∷ b);
  disconnect = λ c b. (ok tt, without c b);
  is_running = running;
  disconnect_stops = λ c b h. without-stops c b;
  disconnect_starts_none = λ c d b h. without-starts_none c d b h;
}

-- A service that has one consumer already, the handler of which fails.
abbrev fails : String → Action (Unit {0})
fails s = throw (plain "handler")

abbrev service : KafkaService kafka_in_memory String
service = record { broker = 0 ∷ []; consumers = ("old-g", 0) ∷ []; message_handlers = [] }

order_topics : subscription_of "order-events-*" ≡ pattern_of "order-events-.*"
unfolding subscription_of includes
order_topics = refl

one_topic : subscription_of "order-events" ≡ exact "order-events"
unfolding subscription_of includes
one_topic = refl

-- An error of the handler does not leave the callback.
handler_error : each_message {Json = String} (λ s. ok s) fails none waiting ≡ (ok tt, waiting)
unfolding each_message
handler_error = refl

-- Topics that are there already do not stop the start.
topics_there :
    (on_module_init kafka_in_memory {Json = String} (kafka_config none) service).0 ≡ ok tt
unfolding on_module_init
topics_there = refl

both_stopped :
    (on_module_destroy kafka_in_memory
      (subscribe kafka_in_memory "order-events-*" "g" fails service).1).1.broker
    ≡ []
unfolding on_module_destroy subscribe
both_stopped = refl

subscribe-on_module_destroy_example :
    let s' = (subscribe kafka_in_memory "order-events-*" "g" fails service).1 in
    (consumer_of kafka_in_memory "order-events-*-g" s'.consumers ≡ some 1)
    × Stopped kafka_in_memory (on_module_destroy kafka_in_memory s').1.broker s'.consumers
unfolding on_module_destroy subscribe
subscribe-on_module_destroy_example =
    subscribe-on_module_destroy kafka_in_memory "order-events-*" "g" fails service 1 refl refl refl

publish-created_at_start_example :
    created_at_start none
      (kafka_record services "saga-events"
        (saga_started "s1" "OrderProcessingSaga" "k1" started_saga.saga_data)
        7).topic
    ≡ false
publish-created_at_start_example =
    publish-created_at_start services none
      (saga_started "s1" "OrderProcessingSaga" "k1" started_saga.saga_data) 7
