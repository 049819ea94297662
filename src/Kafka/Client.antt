-- ===== src/Kafka/Client.antt =====
-- src/kafka/kafka.service.ts and src/config/kafka.config.ts: the life of the service's connections.
-- `Json` is what JSON.parse returns, and a handler is any action on the application's state.
use Prim.Native.Char.{code}
use nestjs_cqrs_saga.Prelude.{
  String, false, Option, ◌||◌, List, [], ◌∷◌, map, ◌<+>◌, ◌==◌, if◌then◌else◌, includes, nat_eq,
  truthy_or,
}
use nestjs_cqrs_saga.Outcome.{Outcome, ok}
use nestjs_cqrs_saga.World
use nestjs_cqrs_saga.World.{Action}
use nestjs_cqrs_saga.Kafka.Library.{
  Call, ◌>>=◌, ◌>>◌, return, catch, finally, Subscription, exact, pattern_of, TopicConfig,
  ConsumerConfig, KafkaJs,
}

pub record Topics : Type 0 where
  pub order_events : String
  pub payment_events : String
  pub saga_events : String
  pub user_events : String

pub record KafkaConfig : Type 0 where
  pub broker : String
  pub client_id : String
  pub consumer_group_id : String
  pub topics : Topics

-- `kafkaConfig`; `kafka_broker` is the variable KAFKA_BROKER of the process.
unfoldable pub kafka_config : (kafka_broker : Option String) → KafkaConfig
kafka_config kafka_broker = record {
  broker = truthy_or kafka_broker "localhost:9092";
  client_id = "nestjs-cqrs-saga";
  consumer_group_id = "nestjs-saga-consumer";
  topics = record {
    order_events = "order-events";
    payment_events = "payment-events";
    saga_events = "saga-events";
    user_events = "user-events";
  };
}

-- The topics of `onModuleInit`.
unfoldable pub startup_topics : KafkaConfig → List String
startup_topics c = c.topics.order_events ∷ c.topics.payment_events ∷ c.topics.saga_events ∷ []

abbrev pub topic_config : String → TopicConfig
topic_config topic = record { topic = topic; num_partitions = 3; replication_factor = 1 }

-- `topicPattern.replace('*', '.*')`, which replaces the first star only.
unfoldable pub replace_star : String → String
replace_star String.[] = ""
replace_star (String.◌∷◌ c s) =
    if nat_eq (code c) b'*' then ".*" <+> s else String.◌∷◌ c (replace_star s)

-- What `subscribe` subscribes to.
unfoldable pub subscription_of : String → Subscription
unfolding replace_star
subscription_of topic_pattern =
    if includes topic_pattern "*" || includes topic_pattern "."
    then pattern_of (replace_star topic_pattern)
    else exact topic_pattern

abbrev pub consumer_config : String → ConsumerConfig
consumer_config group_id = record {
  group_id = group_id;
  max_wait_time_in_ms = 3000;
  session_timeout = 30000;
  heartbeat_interval = 3000;
}

-- `Map.set`: the entry of a key that is there keeps its place.
unfoldable pub set_entry {ℓ} : {V : Type ℓ} → String → V → List (String × V) → List (String × V)
set_entry k v [] = (k, v) ∷ []
set_entry k v ((j, u) ∷ m) = if j == k then (k, v) ∷ m else (j, u) ∷ set_entry k v m

-- `eachMessage`: the message's text is parsed, and no error leaves the callback.
unfoldable pub each_message :
    {Json : Type 0}
    → (parse : String → Outcome Json) → (handler : Json → Action (Unit {0}))
    → (value : Option String) → Action (Unit {0})
each_message {Json} parse handler value =
    World.catch (World.◌>>=◌ {A = Json} (λ w. (parse (truthy_or value "{}"), w)) handler)
      (λ e. World.pure tt)

-- The service: what kafkajs holds, and its two maps.
pub record KafkaService (k : KafkaJs) (Json : Type 0) : Type 0 where
  pub broker : k.Broker
  pub consumers : List (String × k.Consumer)
  pub message_handlers : List (String × (Json → Action (Unit {0})))

module _ (k : KafkaJs) where
  -- `createTopics`
  unfoldable pub create_topics : List String → Call k.Broker (Unit {0})
  create_topics topics = do
    k.connect_admin
    finally (catch (k.create_topics (map topic_config topics)) (λ e. return tt)) k.disconnect_admin

  -- The loop of `onModuleDestroy`.
  unfoldable pub disconnect_all : List (String × k.Consumer) → Call k.Broker (Unit {0})
  disconnect_all [] = return tt
  disconnect_all ((group_id, consumer) ∷ rest) = k.disconnect consumer >> disconnect_all rest

module _ (k : KafkaJs) {Json : Type 0} where
  -- A call of kafkajs by the service.
  abbrev pub on_broker : {A : Type 0} → Call k.Broker A → Call (KafkaService k Json) A
  on_broker m s = let (r, b) = m s.broker in (r, record s { broker = b })

  -- `onModuleInit`
  unfoldable pub on_module_init : KafkaConfig → Call (KafkaService k Json) (Unit {0})
  unfolding create_topics startup_topics
  on_module_init c = on_broker (k.connect_producer >> create_topics k (startup_topics c))

  -- `onModuleDestroy`
  unfoldable pub on_module_destroy : Call (KafkaService k Json) (Unit {0})
  unfolding disconnect_all
  on_module_destroy s = on_broker (k.disconnect_producer >> disconnect_all k s.consumers) s

  -- The `set`s of both maps.
  unfoldable pub register :
      String → k.Consumer → (Json → Action (Unit {0})) → Call (KafkaService k Json) (Unit {0})
  unfolding set_entry
  register name consumer handler s = (
    ok tt,
    record s {
      consumers = set_entry name consumer s.consumers;
      message_handlers = set_entry name handler s.message_handlers;
    },
  )

  -- `subscribe`, whose `catch` throws again; the consumer runs `each_message` with the handler.
  unfoldable pub subscribe :
      (topic_pattern group_id : String)
      → (Json → Action (Unit {0}))
      → Call (KafkaService k Json) (Unit {0})
  unfolding register subscription_of
  subscribe topic_pattern group_id handler = do
    consumer ← on_broker (k.consumer (consumer_config group_id))
    on_broker (k.subscribe consumer false (subscription_of topic_pattern))
    on_broker (k.run consumer)
    register (topic_pattern <+> "-" <+> group_id) consumer handler
