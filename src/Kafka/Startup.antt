-- ===== src/Kafka/Startup.antt =====
-- The topics that src/kafka/kafka.service.ts creates at the start, and those of its messages.
use text.Mathlib.TextLemmas.{append_assoc}
use text.Mathlib.TextPositions.{starts_with-append}
use text.Mathlib.Text.{starts_with}
use nestjs_cqrs_saga.Prelude.{
  ℕ, String, ◌≡◌, refl, includes, Bool, true, false, not, Option, none, some, List, [], ◌∷◌, any,
  ◌==◌, is_truthy, eq_iff, ◌<+>◌, Bool-cases, inl, inr, subst, sym,
}
use nestjs_cqrs_saga.Entity.{
  BusEvent, OrderItem, order_created, order_cancelled, order_confirmed, order_status_changed,
  payment_processed, payment_failed, payment_refunded,
}
use nestjs_cqrs_saga.Message.{Body, event, test}
use nestjs_cqrs_saga.World.{Platform}
use nestjs_cqrs_saga.Kafka.{kafka_record, short_hash, select_topic}
use nestjs_cqrs_saga.Kafka.Routing.{
  saga_correlation, topic_of_saga, topic_of_event, base_topic, IsSagaBody, product_of, saga_route,
  event_route,
}
use nestjs_cqrs_saga.Kafka.Client.{kafka_config, startup_topics}

-- A topic is created at the start.
abbrev pub created_at_start : Option String → String → Bool
created_at_start b topic = any (λ t. t == topic) (startup_topics (kafka_config b))

-- The messages that have a topic of their product's or their saga's own: those about the creation of
-- an order with items, and those about a saga that carry its correlation id.
abbrev pub has_own_topic : Body → Bool
has_own_topic (event (order_created e)) = elim e.items [ [] ↦ false | i ∷ is ↦ true ]
has_own_topic (event e) = false
has_own_topic b = is_truthy (saga_correlation b)

-- The topic that the service's code names when it publishes a body.
abbrev pub named_topic : Body → String
named_topic (event e) = base_topic e
named_topic (test m) = "test-topic"
named_topic b = "saga-events"

-- A text that does not start with a prefix is no extension of it.
==-append_of_not_prefix : (s t h : String) → starts_with s t ≡ false → (s == (t <+> h)) ≡ false
==-append_of_not_prefix s t h e = elim (Bool-cases (s == (t <+> h))) [
  | inl same ↦
      let starts : starts_with s t ≡ true =
        subst (λ x. starts_with x t ≡ true) (sym ((eq_iff s (t <+> h)).0 same))
          (starts_with-append t h) in
      cc
  | inr other ↦ other
]

own_order_topic :
    (b : Option String) (h : String)
    → created_at_start b ("order-events" <+> "-product-" <+> h) ≡ false
unfolding kafka_config startup_topics
own_order_topic b h = rw (sym (append_assoc "order-events" "-product-" h)) (
    rw
      (
        ==-append_of_not_prefix "order-events" "order-events-product-" h refl,
        ==-append_of_not_prefix "payment-events" "order-events-product-" h refl,
        ==-append_of_not_prefix "saga-events" "order-events-product-" h refl,
      )
      refl)

own_saga_topic :
    (b : Option String) (h : String) → created_at_start b ("saga-events-" <+> h) ≡ false
unfolding kafka_config startup_topics
own_saga_topic b h =
    rw
      (
        ==-append_of_not_prefix "order-events" "saga-events-" h refl,
        ==-append_of_not_prefix "payment-events" "saga-events-" h refl,
        ==-append_of_not_prefix "saga-events" "saga-events-" h refl,
      )
      refl

saga_created :
    (p : Platform) (b c : Option String)
    → created_at_start b (topic_of_saga p c) ≡ not (is_truthy c)
unfolding kafka_config startup_topics
saga_created p b none = refl
saga_created p b (some c) = elim (Bool-cases (is_truthy (some c))) [
  | inl e ↦ rw e (own_saga_topic b (short_hash p c))
  | inr e ↦ rw e
]

event_created :
    (p : Platform) (b : Option String) (e : BusEvent)
    → created_at_start b (topic_of_event p e) ≡ not (has_own_topic (event e))
unfolding kafka_config startup_topics
event_created p b (order_created e) = items_created e.items
  where
    items_created :
        (is : List OrderItem)
        → created_at_start b (elim is [
          | [] ↦ "order-events"
          | i ∷ rest ↦ "order-events" <+> "-product-" <+> short_hash p (product_of i)
        ])
          ≡ not (elim is [ [] ↦ false | i ∷ rest ↦ true ])
    items_created [] = refl
    items_created (i ∷ rest) = own_order_topic b (short_hash p (product_of i))
event_created p b (order_cancelled e) = refl
event_created p b (order_confirmed e) = refl
event_created p b (order_status_changed e) = refl
event_created p b (payment_processed e) = refl
event_created p b (payment_failed e) = refl
event_created p b (payment_refunded e) = refl

saga_body_created :
    (p : Platform) (b : Option String) (x : Body) (now : ℕ)
    → IsSagaBody x
    → created_at_start b (kafka_record p "saga-events" x now).topic
      ≡ not (is_truthy (saga_correlation x))
saga_body_created p b x now h = rw (saga_route p x now h) (saga_created p b (saga_correlation x))

-- The topic to which a message is sent is one that the service creates at its start exactly if the
-- message is neither that of an order created with items nor one about a saga with a correlation id
-- that is not empty: those topics are left to the broker.
pub publish-created_at_start :
    (p : Platform) (b : Option String) (x : Body) (now : ℕ)
    → created_at_start b (kafka_record p (named_topic x) x now).topic ≡ not (has_own_topic x)
unfolding kafka_record select_topic includes startup_topics kafka_config
publish-created_at_start p b (event e) now = rw (event_route p e now) (event_created p b e)
publish-created_at_start p b (test m) now = refl
publish-created_at_start p b x now = saga_body_created p b x now tt
