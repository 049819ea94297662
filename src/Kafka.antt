-- ===== src/Kafka.antt =====
-- src/kafka/kafka.service.ts: the choice of a topic, and `publish`. The connection, `subscribe` and
-- `createTopics` only configure the client library.
pub mod Routing
pub mod Library
pub mod Client
pub mod Startup
pub mod Shutdown
use Prim.Native.Char.{code}
use Prim.Native.String
use nestjs_cqrs_saga.Prelude.{
  ℕ, String, Bool, true, false, ◌&&◌, ◌||◌, ◌+◌, Option, some, List, [], ◌∷◌, ◌++◌, ◌≡◌, arith,
  if◌then◌else◌, ◌<+>◌, is_truthy, truthy_or, or_text, includes, leb, nat_eq,
}
use nestjs_cqrs_saga.Outcome.{ok, err, Error}
use nestjs_cqrs_saga.Entity.{OrderItem}
use nestjs_cqrs_saga.Message.{Body, Message, correlation_id, saga_id, order_id, items}
use nestjs_cqrs_saga.World.{World, Platform, Action, BrokerUp}

-- The first eight digits of a digest.
unfoldable pub short_hash : Platform → String → String
short_hash p s = String.slice (p.md5 s) 0 8

-- `generateTopicForProduct`
unfoldable pub generate_topic_for_product : Platform → String → List OrderItem → String
unfolding short_hash
generate_topic_for_product p base [] = base
generate_topic_for_product p base (i ∷ is) =
    base
    <+> "-product-"
    <+> short_hash p (truthy_or (some i.product_id) (truthy_or (some i.product_name) "unknown"))

unfoldable pub saga_topic : Platform → Option String → String
unfolding short_hash
saga_topic p c =
    if is_truthy c then "saga-events-" <+> short_hash p (truthy_or c "") else "saga-events"

-- The code points of `s.toLowerCase()`, as far as ASCII letters go; no other character has one of
-- the letters of "saga" as its small letter.
unfoldable pub lower_codes : String → List ℕ
lower_codes String.[] = []
lower_codes (String.◌∷◌ c s) =
    (if leb b'A' (code c) && leb (code c) b'Z' then code c + 32 else code c) ∷ lower_codes s

unfoldable pub is_prefix : List ℕ → List ℕ → Bool
is_prefix [] t = true
is_prefix (c ∷ s) [] = false
is_prefix (c ∷ s) (d ∷ t) = nat_eq c d && is_prefix s t

unfoldable pub includes_codes : List ℕ → List ℕ → Bool
unfolding is_prefix
includes_codes [] s = is_prefix s []
includes_codes (c ∷ t) s = is_prefix s (c ∷ t) || includes_codes t s

-- `selectTopic`
unfoldable pub select_topic : Platform → String → Body → String
unfolding generate_topic_for_product saga_topic lower_codes includes_codes
select_topic p event_type b =
    if includes event_type "Order" || includes event_type "order"
    then generate_topic_for_product p "order-events" (items b)
    else if includes event_type "Payment" || includes event_type "payment"
    then generate_topic_for_product p "payment-events" (items b)
    else if includes event_type "Saga" || includes event_type "saga"
    then saga_topic p (correlation_id b)
    else if includes_codes (lower_codes event_type) (lower_codes "saga")
    then "saga-events"
    else "order-events"

unfoldable pub message_key : Platform → Body → ℕ → String
message_key p b now =
    truthy_or (or_text (correlation_id b) (or_text (saga_id b) (order_id b))) (p.show_time now)

-- The record that is sent.
unfoldable pub kafka_record : Platform → String → Body → ℕ → Message
unfolding select_topic message_key
kafka_record p topic b now = record {
  topic = select_topic p topic b;
  key = message_key p b now;
  value = b;
  timestamp = now;
}

-- `publish`
unfoldable pub publish : Platform → String → Body → Action (Unit {0})
publish p topic b w = elim (p.send (kafka_record p topic b w.now) w.sent) [
  | ok ms ↦ (ok tt, record w { sent = ms })
  | err e ↦ (err e, w)
]

-- If the broker accepts a message, it is sent, and nothing else changes.
pub publish_sends :
    (p : Platform) (topic : String) (b : Body) (w : World)
    → BrokerUp p
    → publish p topic b w ≡ (ok tt, record w { sent = w.sent ++ kafka_record p topic b w.now ∷ [] })
unfolding publish
publish_sends p topic b w up = ground (arith, up (kafka_record p topic b w.now) w.sent)

-- If the broker takes this message, it is sent; if it does not, its error comes out.
pub publish_taken :
    (p : Platform) (topic : String) (b : Body) (w : World)
    → p.send (kafka_record p topic b w.now) w.sent
      ≡ ok (w.sent ++ kafka_record p topic b w.now ∷ [])
    → publish p topic b w ≡ (ok tt, record w { sent = w.sent ++ kafka_record p topic b w.now ∷ [] })
unfolding publish
publish_taken p topic b w taken = ground (arith, taken)

pub publish_refused :
    (p : Platform) (topic : String) (b : Body) (w : World) (e : Error)
    → p.send (kafka_record p topic b w.now) w.sent ≡ err e
    → publish p topic b w ≡ (err e, w)
unfolding publish
publish_refused p topic b w e refused = ground (arith, refused)

-- Whatever the broker says, a publication changes nothing but the messages.
pub publish-sent :
    (p : Platform) (topic : String) (b : Body) (w : World)
    → (publish p topic b w).1 ≡ record w { sent = (publish p topic b w).1.sent }
unfolding publish
publish-sent p topic b w = ground arith
