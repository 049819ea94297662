-- ===== src/Examples/Sagas.antt =====
-- The theorems on the saga manager on the services in memory.
use nestjs_cqrs_saga.Prelude.{
  if◌then◌else◌, Bool, true, false, ◌≡◌, refl, some, List, [], ◌∷◌, ◌++◌, arith,
}
use nestjs_cqrs_saga.Outcome.{Outcome, ok, err, plain, message_of}
use nestjs_cqrs_saga.Message.{Message, Body, saga_step_compensated}
use nestjs_cqrs_saga.Kafka.{kafka_record}
use nestjs_cqrs_saga.Entity.{SagaInstance}
use nestjs_cqrs_saga.World.{World, Action, SagasUp}
use nestjs_cqrs_saga.Lock.{AcquiredLock, acquire_lock}
use nestjs_cqrs_saga.Saga.{start_saga, execute_saga_step, handle_saga_failure, start_compensation}
use nestjs_cqrs_saga.Saga.Steps.{saga_by, HasLock, execute_saga_step-runs, execute_saga_step-once}
use nestjs_cqrs_saga.Saga.Start.{start_saga-one, sagas_for}
use nestjs_cqrs_saga.Saga.Compensation.{handle_saga_failure-compensates}
use nestjs_cqrs_saga.Saga.Failure.{
  execute_saga_step-Compensates, execute_saga_step-contended, start_compensation-masks, failed_at,
}
use nestjs_cqrs_saga.World.{Platform}
use nestjs_cqrs_saga.Examples.Services.{
  services, services-SagasUp, services-BrokerUp, empty_world, waiting, started_saga,
}

abbrev creation : AcquiredLock
creation = record {
  key = "lock:saga_creation:OrderProcessingSaga:k1";
  token = "11111110-token";
  ttl = 30000;
  acquired_at = 7;
}

start_saga-one_example :
    sagas_for services "OrderProcessingSaga" "k1"
      (start_saga services "OrderProcessingSaga" "k1" started_saga.saga_data [] empty_world).1
    ≡ 1
unfolding services acquire_lock
start_saga-one_example =
    start_saga-one services "OrderProcessingSaga" "k1" started_saga.saga_data [] empty_world
      creation refl services-SagasUp (omega arith)

abbrev step_lock : AcquiredLock
step_lock = record {
  key = "lock:saga_step:s1:order_confirmation";
  token = "11111110-token";
  ttl = 60000;
  acquired_at = 7;
}

waiting-HasLock : HasLock services "s1" "order_confirmation" waiting
unfolding services acquire_lock
waiting-HasLock = (step_lock, refl)

abbrev succeeds : Action (Unit {0})
succeeds w = (ok tt, w)

abbrev breaks : Action (Unit {0})
breaks w = (err (plain "broken"), w)

execute_saga_step-runs_example :
    (execute_saga_step services "s1" "order_confirmation" succeeds waiting).0 ≡ ok tt
unfolding services acquire_lock
execute_saga_step-runs_example =
    (execute_saga_step-runs services "s1" "order_confirmation" succeeds waiting waiting-HasLock
      started_saga refl services-SagasUp refl refl).0

abbrev payment_lock : AcquiredLock
payment_lock = record step_lock { key = "lock:saga_step:s1:payment_processing" }

execute_saga_step-once_example :
    (execute_saga_step services "s1" "payment_processing" breaks waiting).0 ≡ ok tt
unfolding services acquire_lock
execute_saga_step-once_example =
    (execute_saga_step-once services "s1" "payment_processing" breaks waiting (payment_lock, refl)
      started_saga refl refl).0

abbrev entered_saga : SagaInstance
entered_saga = record started_saga { current_step = some "order_confirmation" }

execute_saga_step-Compensates_example :
    saga_by "s1" (execute_saga_step services "s1" "order_confirmation" breaks waiting).1
    ≡ some (failed_at entered_saga "order_confirmation" "broken")
unfolding services acquire_lock message_of
execute_saga_step-Compensates_example =
    (execute_saga_step-Compensates services services-SagasUp services-BrokerUp "s1"
      "order_confirmation" breaks waiting waiting-HasLock started_saga entered_saga (plain "broken")
      refl refl refl refl).1

abbrev contended : World
contended = record waiting { keys = ("lock:saga_step:s1:order_confirmation", "other") ∷ [] }

execute_saga_step-contended_example :
    (execute_saga_step services "s1" "order_confirmation" succeeds contended).0 ≡ ok tt
unfolding services acquire_lock
execute_saga_step-contended_example =
    (execute_saga_step-contended services services-SagasUp services-BrokerUp "s1"
      "order_confirmation" succeeds contended started_saga refl refl).0

handle_saga_failure-compensates_example :
    saga_by "s1" (handle_saga_failure services started_saga "order_confirmation" "broken" waiting).1
    ≡ some (failed_at started_saga "order_confirmation" "broken")
handle_saga_failure-compensates_example =
    (handle_saga_failure-compensates services services-SagasUp services-BrokerUp started_saga
      started_saga "order_confirmation" "broken" waiting refl).1

-- The services with a broker that fails before the end of a compensation.
unfoldable takes : Body → Bool
takes (saga_step_compensated i s) = true
takes _ = false

unfoldable send_step : Message → List Message → Outcome (List Message)
send_step m ms = if takes m.value then ok (ms ++ m ∷ []) else err (plain "no leader")

send_step_ok : (m : Message) (ms ms' : List Message) → send_step m ms ≡ ok ms' → ms' ≡ ms ++ m ∷ []
unfolding send_step
send_step_ok m ms ms' h = ground arith

abbrev cut_off : Platform
cut_off = record services { send = send_step; send_ok = send_step_ok }

cut_off-SagasUp : SagasUp cut_off
unfolding services
cut_off-SagasUp = record {
  saves = services-SagasUp.saves;
  begins = services-SagasUp.begins;
  commits = services-SagasUp.commits;
}

-- A saga that failed after two steps.
abbrev half_done : SagaInstance
half_done = record started_saga { completed_steps = "a" ∷ "b" ∷ [] }

abbrev halted : World
halted = record waiting { sagas = half_done ∷ [] }

start_compensation-masks_example :
    (start_compensation cut_off half_done halted).0 ≡ err (plain "Transaction is not started yet")
unfolding services takes send_step kafka_record
start_compensation-masks_example =
    (start_compensation-masks cut_off half_done half_done (plain "no leader")
      (plain "Transaction is not started yet") halted cut_off-SagasUp (λ s w ms. refl)
      (λ steps w ms. refl) (λ v. refl) refl).0
