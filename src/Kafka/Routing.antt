-- ===== src/Kafka/Routing.antt =====
-- Where the messages of src/kafka/kafka.service.ts go.
use nestjs_cqrs_saga.Prelude.{
  ℕ, String, ◌≡◌, refl, Option, none, some, List, [], ◌∷◌, arith, ◌<+>◌, is_truthy, truthy_or,
  truthy_or-some, if◌then◌else◌, Bool-cases, inl, inr, includes,
}
use nestjs_cqrs_saga.Entity.{
  BusEvent, OrderItem, order_created, order_cancelled, order_confirmed, order_status_changed,
  payment_processed, payment_failed, payment_refunded,
}
use nestjs_cqrs_saga.Message.{
  Body, correlation_id, items, saga_started, saga_step_completed, saga_completed, saga_failed,
  saga_compensated, saga_compensation_failed, saga_step_compensated, event, test,
}
use nestjs_cqrs_saga.World.{Platform}
use nestjs_cqrs_saga.Kafka.{
  kafka_record, select_topic, saga_topic, short_hash, generate_topic_for_product,
}

-- The saga whose progress a body reports, by the correlation id that it carries, if it does.
abbrev pub saga_correlation : Body → Option String
saga_correlation (saga_started i t c d) = some c
saga_correlation (saga_completed i c s) = some c
saga_correlation (saga_failed i c s m) = some c
saga_correlation (saga_compensated i c s) = some c
saga_correlation (saga_compensation_failed i c e) = some c
saga_correlation _ = none

-- The topic that the messages of one saga share, by its correlation id.
abbrev pub topic_of_saga : Platform → Option String → String
topic_of_saga p none = "saga-events"
topic_of_saga p (some c) =
    if is_truthy (some c) then "saga-events-" <+> short_hash p c else "saga-events"

-- The first product of an order.
abbrev pub product_of : OrderItem → String
product_of i = truthy_or (some i.product_id) (truthy_or (some i.product_name) "unknown")

-- The topic of an event of an order or a payment: only the creation of an order with items has one
-- of its product's own.
abbrev pub topic_of_event : Platform → BusEvent → String
topic_of_event p (order_created e) = elim e.items [
  | [] ↦ "order-events"
  | i ∷ is ↦ "order-events" <+> "-product-" <+> short_hash p (product_of i)
]
topic_of_event p (order_cancelled e) = "order-events"
topic_of_event p (order_confirmed e) = "order-events"
topic_of_event p (order_status_changed e) = "order-events"
topic_of_event p (payment_processed e) = "payment-events"
topic_of_event p (payment_failed e) = "payment-events"
topic_of_event p (payment_refunded e) = "payment-events"

abbrev pub base_topic : BusEvent → String
base_topic (payment_processed e) = "payment-events"
base_topic (payment_failed e) = "payment-events"
base_topic (payment_refunded e) = "payment-events"
base_topic _ = "order-events"

saga_topic_lem : (p : Platform) (c : Option String) → saga_topic p c ≡ topic_of_saga p c
unfolding saga_topic
saga_topic_lem p none = refl
saga_topic_lem p (some c) = elim (Bool-cases (is_truthy (some c))) [
  | inl e ↦ ground (arith, truthy_or-some c "" e)
  | inr e ↦ ground arith
]

-- The messages about sagas; the others are events of orders and payments.
abbrev pub IsSagaBody : Body → Type 0
IsSagaBody (event e) = ⊥
IsSagaBody (test m) = ⊥
IsSagaBody _ = Unit {0}

-- A saga's messages go to the topic of its correlation id, if that is not empty, and otherwise to the
-- common one; those about a single step carry no correlation id and go to the common topic.
pub saga_route :
    (p : Platform) (b : Body) (now : ℕ)
    → IsSagaBody b
    → (kafka_record p "saga-events" b now).topic ≡ topic_of_saga p (saga_correlation b)
unfolding kafka_record select_topic includes correlation_id
saga_route p (saga_started i t c d) now h = saga_topic_lem p (some c)
saga_route p (saga_completed i c s) now h = saga_topic_lem p (some c)
saga_route p (saga_failed i c s m) now h = saga_topic_lem p (some c)
saga_route p (saga_compensated i c s) now h = saga_topic_lem p (some c)
saga_route p (saga_compensation_failed i c e) now h = saga_topic_lem p (some c)
saga_route p (saga_step_completed i s cs) now h = saga_topic_lem p none
saga_route p (saga_step_compensated i s) now h = saga_topic_lem p none
saga_route p (event e) now h = absurd h
saga_route p (test m) now h = absurd h

created_route :
    (p : Platform) (is : List OrderItem)
    → generate_topic_for_product p "order-events" is ≡ elim is [
      | [] ↦ "order-events"
      | i ∷ rest ↦ "order-events" <+> "-product-" <+> short_hash p (product_of i)
    ]
unfolding generate_topic_for_product
created_route p [] = refl
created_route p (i ∷ is) = refl

-- An event of an order or a payment goes to the topic of its kind, but for the creation of an order
-- with items, whose topic depends on its first product alone.
pub event_route :
    (p : Platform) (e : BusEvent) (now : ℕ)
    → (kafka_record p (base_topic e) (event e) now).topic ≡ topic_of_event p e
unfolding kafka_record select_topic includes items generate_topic_for_product
event_route p (order_created e) now = created_route p e.items
event_route p (order_cancelled e) now = refl
event_route p (order_confirmed e) now = refl
event_route p (order_status_changed e) now = refl
event_route p (payment_processed e) now = refl
event_route p (payment_failed e) now = refl
event_route p (payment_refunded e) now = refl
