-- ===== src/Examples/App.antt =====
-- The endpoints of the application on the services in memory.
use nestjs_cqrs_saga.Prelude.{◌≡◌, refl, ◌⊎◌, true, none, some, [], ◌∷◌, ◌++◌}
use nestjs_cqrs_saga.Outcome.{ok, err, Error, message_of}
use nestjs_cqrs_saga.App.{
  Connection, get_database_pool_status, success, PoolAnswer, parse_int, test_kafka, TestAnswer,
  sent, test_database, connected,
}
use nestjs_cqrs_saga.App.Answers.{test_kafka-answers, test_record}
use nestjs_cqrs_saga.Examples.Services.{services, waiting}

abbrev database : Connection
database = record {
  active_connections = λ w. ok ("12" ∷ []);
  current_time = λ w. ok (w.now ∷ []);
  is_connected = λ w. true;
  database_name = "nestjs_cqrs";
}

abbrev empty_answer : Connection
empty_answer = record database { active_connections = λ w. ok []; current_time = λ w. ok [] }

pool : (get_database_pool_status database waiting).0 ≡ ok (success (some 12) 20 true)
unfolding get_database_pool_status
pool = refl

no_row :
    (get_database_pool_status empty_answer waiting).0
    ≡ ok (
        PoolAnswer.failed "Failed to check database pool"
          "Cannot read properties of undefined (reading 'active_connections')")
unfolding get_database_pool_status message_of
no_row = refl

digits_first : parse_int "20 rows" ≡ some 20
unfolding parse_int
digits_first = refl

no_digits : parse_int "rows" ≡ none
unfolding parse_int
no_digits = refl

clock :
    (test_database database waiting).0 ≡ ok (connected "Database connection successful" (some 7))
unfolding test_database
clock = refl

test_kafka-answers_example :
    (((test_kafka services waiting).0 ≡ ok (sent "Kafka test message sent"))
      × ((test_kafka services waiting).1
          ≡ record waiting { sent = waiting.sent ++ test_record services waiting ∷ [] }))
    ⊎ ((e : Error) × (services.send (test_record services waiting) waiting.sent ≡ err e)
        × ((test_kafka services waiting).0
            ≡ ok (TestAnswer.failed "Failed to send Kafka message" (message_of e)))
        × ((test_kafka services waiting).1 ≡ waiting))
test_kafka-answers_example = test_kafka-answers services waiting
