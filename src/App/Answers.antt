-- ===== src/App/Answers.antt =====
-- What the endpoints of src/app.controller.ts answer and change.
use nestjs_cqrs_saga.Prelude.{◌≡◌, refl, ◌⊎◌, inl, inr, [], ◌∷◌, ◌++◌, arith}
use nestjs_cqrs_saga.Outcome.{ok, err, Error, message_of, Outcome-cases}
use nestjs_cqrs_saga.Message.{Message, test, correlation_id, saga_id, order_id}
use nestjs_cqrs_saga.World.{World, Platform}
use nestjs_cqrs_saga.Kafka.{publish, kafka_record, message_key, select_topic}
use nestjs_cqrs_saga.Prelude.{includes}
use nestjs_cqrs_saga.App.{test_kafka, TestAnswer, sent}

-- The record that the test of Kafka sends.
abbrev pub test_record : Platform → World → Message
test_record p w = record {
  topic = "order-events";
  key = p.show_time w.now;
  value = test "Hello Kafka!";
  timestamp = w.now;
}

test_record_lem :
    (p : Platform) (w : World)
    → kafka_record p "test-topic" (test "Hello Kafka!") w.now ≡ test_record p w
unfolding kafka_record select_topic includes message_key correlation_id saga_id order_id
test_record_lem p w = refl

-- The test of Kafka never throws: it answers that the message was sent, and then the broker has one
-- more message, on the topic of the order events under the time as its key; or it answers with the
-- broker's error and nothing has changed.
pub test_kafka-answers :
    (p : Platform) (w : World)
    → (((test_kafka p w).0 ≡ ok (sent "Kafka test message sent"))
        × ((test_kafka p w).1 ≡ record w { sent = w.sent ++ test_record p w ∷ [] }))
      ⊎ ((e : Error) × (p.send (test_record p w) w.sent ≡ err e)
          × ((test_kafka p w).0
              ≡ ok (TestAnswer.failed "Failed to send Kafka message" (message_of e)))
          × ((test_kafka p w).1 ≡ w))
unfolding test_kafka publish
test_kafka-answers p w = elim (Outcome-cases (p.send (test_record p w) w.sent)) [
  | inl (ms, h) ↦
      let law = p.send_ok (test_record p w) w.sent ms h in
      inl (ground (arith, test_record_lem p w), ground (arith, test_record_lem p w))
  | inr (e, h) ↦
      inr (e, h, ground (arith, test_record_lem p w), ground (arith, test_record_lem p w))
]
