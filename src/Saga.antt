-- ===== src/Saga.antt =====
-- src/saga/saga-manager.service.ts: the saga manager. Sagas are saved, locked and compensated here.
pub mod Start
pub mod Complete
pub mod Steps
pub mod Compensation
pub mod Failure
use nestjs_cqrs_saga.Prelude.{
  ℕ, String, Bool, true, false, ◌&&◌, ◌||◌, Option, none, some, List, [], ◌∷◌, ◌++◌, reverse, ◌==◌,
  if◌then◌else◌, ◌<+>◌, is_truthy, truthy_or, any,
}
use nestjs_cqrs_saga.Outcome.{Outcome, ok, err, Error, plain, message_of}
use nestjs_cqrs_saga.Entity.{SagaInstance, SagaData, SagaStatus}
use nestjs_cqrs_saga.Message.{
  Body, saga_started, saga_step_completed, saga_completed, saga_failed, saga_compensated,
  saga_compensation_failed, saga_step_compensated,
}
use nestjs_cqrs_saga.World.{
  World, Platform, Action, pure, throw, gets, ◌>>=◌, ◌>>◌, catch, defer, publish_message,
}
use nestjs_cqrs_saga.Kafka.{publish}
use nestjs_cqrs_saga.Lock.{LockOptions, with_lock}
use nestjs_cqrs_saga.Store.{find_saga, save_saga}

-- The name of the first step, as `steps[0]?.name || 'initial'`; a step's functions are not read.
unfoldable pub first_step : List String → String
first_step [] = "initial"
first_step (s ∷ steps) = truthy_or (some s) "initial"

abbrev pub has_correlation : String → String → SagaInstance → Bool
has_correlation saga_type c r = r.correlation_id == c && r.saga_type == saga_type

-- What `startSaga` runs under its lock.
unfoldable pub create_saga :
    Platform → String → String → SagaData → List String → Action SagaInstance
unfolding first_step
create_saga p saga_type c d steps = do
  found ← find_saga p (has_correlation saga_type c)
  let create : Action SagaInstance = do
    i ← gets (λ w. p.sagas.generate w.sagas)
    saved ← save_saga p (record {
      id = i;
      saga_type = saga_type;
      correlation_id = c;
      status = SagaStatus.started;
      saga_data = d;
      completed_steps = [];
      compensation_steps = [];
      current_step = some (first_step steps);
      error_message = none;
    })
    defer (publish_message "saga-events" (saga_started saved.id saga_type c d))
    pure saved
  elim found [ some existing ↦ pure existing | none ↦ create ]

abbrev pub start_options : LockOptions
start_options = record { ttl = 30000; retry_count = 3; retry_delay = 100 }

-- `startSaga`
unfoldable pub start_saga :
    Platform → String → String → SagaData → List String → Action SagaInstance
start_saga p saga_type c d steps =
    with_lock p ("saga_creation:" <+> saga_type <+> ":" <+> c) (create_saga p saga_type c d steps)
      start_options

-- `try { m } catch (e) { await queryRunner.rollbackTransaction(); … }`: what `m` returned or threw.
-- A rollback puts the table back as long as the transaction is active; if it throws, that error
-- goes on instead.
abbrev pub in_transaction :
    {A : Type 0} → Platform → (active : Bool) → Action A → Action (Outcome A)
in_transaction p active m w =
    let (r, w') = m w in
    elim r [
      | ok a ↦ (ok (ok a), w')
      | err e ↦
          let back : World = if active then record w' { sagas = w.sagas } else w' in
          elim (p.rollback active back) [ ok u ↦ (ok (err e), back) | err e' ↦ (err e', back) ]
    ]

abbrev pub run : (World → Outcome (Unit {0})) → Action (Unit {0})
run f w = (f w, w)

-- `markSagaAsFinalFailure`
unfoldable pub mark_saga_as_final_failure : Platform → SagaInstance → String → Action (Unit {0})
mark_saga_as_final_failure p saga error_message = do
  run p.begin
  let stored : Action (Option String) = do
    fresh ← find_saga p (λ r. r.id == saga.id)
    let mark : SagaInstance → Action (Option String) = λ (f : SagaInstance). do
      saved ← save_saga p (record f {
        status = SagaStatus.failed;
        error_message = some ("Compensation failed: " <+> error_message);
      })
      run p.commit
      pure saved.error_message
    elim fresh [ some f ↦ mark f | none ↦ run p.commit >> pure none ]
  r ← in_transaction p true stored
  let announce : Option String → Action (Unit {0}) = λ (m : Option String).
      in_transaction p false
        (publish p "saga-events" (saga_compensation_failed saga.id saga.correlation_id m))
      >> pure tt
  elim r [ ok m ↦ announce m | err e ↦ pure tt ]

-- `compensateStep`: the saga object with the step pushed.
unfoldable pub compensate_step : Platform → SagaInstance → String → Action SagaInstance
compensate_step p saga step_name = do
  publish p "saga-events" (saga_step_compensated saga.id ("compensate_" <+> step_name))
  pure (record saga {
    compensation_steps = saga.compensation_steps ++ ("compensate_" <+> step_name) ∷ [];
  })

-- The loop of `startCompensation`.
unfoldable pub compensate_steps : Platform → SagaInstance → List String → Action SagaInstance
compensate_steps p saga [] = pure saga
compensate_steps p saga (s ∷ steps) =
    compensate_step p saga s >>= λ saga'. compensate_steps p saga' steps

-- The transaction of `startCompensation`.
unfoldable pub compensate : Platform → SagaInstance → Action SagaInstance
compensate p saga = do
  saga' ← compensate_steps p saga (reverse saga.completed_steps)
  fresh ← find_saga p (λ r. r.id == saga.id)
  elim fresh [
    | some f ↦ save_saga p (record f { status = SagaStatus.compensated }) >> pure tt
    | none ↦ pure tt
  ]
  run p.commit
  pure saga'

-- `startCompensation`
unfoldable pub start_compensation : Platform → SagaInstance → Action (Unit {0})
start_compensation p saga = do
  run p.begin
  r ← in_transaction p true (compensate p saga)
  let announce : SagaInstance → Action (Unit {0}) = λ (s : SagaInstance). do
    r' ←
        in_transaction p false
          (publish p "saga-events" (saga_compensated s.id s.correlation_id s.compensation_steps))
    elim r' [ ok u ↦ pure tt | err e ↦ mark_saga_as_final_failure p saga (message_of e) ]
  elim r [ ok s ↦ announce s | err e ↦ mark_saga_as_final_failure p saga (message_of e) ]

-- The transaction of `handleSagaFailure`.
unfoldable pub fail_saga : Platform → SagaInstance → String → String → Action SagaInstance
fail_saga p saga failed_step error_message = do
  fresh ← find_saga p (λ r. r.id == saga.id)
  let mark : SagaInstance → Action SagaInstance = λ (f : SagaInstance). do
    saved ← save_saga p (record f {
      status = SagaStatus.compensating;
      current_step = some failed_step;
      error_message = some error_message;
    })
    run p.commit
    pure saved
  elim fresh [ some f ↦ mark f | none ↦ throw (plain ("Saga not found: " <+> saga.id)) ]

-- `handleSagaFailure`
unfoldable pub handle_saga_failure : Platform → SagaInstance → String → String → Action (Unit {0})
handle_saga_failure p saga failed_step error_message = do
  run p.begin
  r ← in_transaction p true (fail_saga p saga failed_step error_message)
  let go_on : SagaInstance → Action (Unit {0}) = λ (f : SagaInstance). do
    r' ← in_transaction p false (
        publish p "saga-events" (saga_failed f.id f.correlation_id failed_step error_message)
        >> start_compensation p f)
    elim r' [ ok u ↦ pure tt | err e ↦ throw e ]
  elim r [ ok f ↦ go_on f | err e ↦ throw e ]

-- What `executeSagaStep` runs under its lock.
unfoldable pub run_saga_step : Platform → String → String → Action (Unit {0}) → Action (Unit {0})
run_saga_step p saga_id step_name execute_step = do
  found ← find_saga p (λ r. r.id == saga_id)
  let execute : SagaInstance → Action (Unit {0}) = λ (saga : SagaInstance). do
    entered ← save_saga p (record saga { current_step = some step_name })
    execute_step
    left ←
        save_saga p (record entered { completed_steps = entered.completed_steps ++ step_name ∷ [] })
    defer
        (publish_message "saga-events" (saga_step_completed saga_id step_name left.completed_steps))
  elim found [
    | none ↦ throw (plain ("Saga not found: " <+> saga_id))
    | some saga ↦ if any (λ s. s == step_name) saga.completed_steps then pure tt else execute saga
  ]

abbrev pub step_options : LockOptions
step_options = record { ttl = 60000; retry_count = 2; retry_delay = 200 }

-- The `catch` of `executeSagaStep`.
unfoldable pub on_step_error : Platform → String → String → Error → Action (Unit {0})
on_step_error p saga_id step_name e = do
  found ← find_saga p (λ r. r.id == saga_id)
  elim found [ some saga ↦ handle_saga_failure p saga step_name (message_of e) | none ↦ pure tt ]

-- `executeSagaStep`
unfoldable pub execute_saga_step :
    Platform → String → String → Action (Unit {0}) → Action (Unit {0})
execute_saga_step p saga_id step_name execute_step =
    catch
      (with_lock p ("saga_step:" <+> saga_id <+> ":" <+> step_name)
        (run_saga_step p saga_id step_name execute_step) step_options)
      (on_step_error p saga_id step_name)

unfoldable pub complete_by_status : SagaStatus → Platform → SagaInstance → Action (Unit {0})
complete_by_status SagaStatus.completed p saga = pure tt
complete_by_status _ p saga = do
  saved ←
      save_saga p (record saga { status = SagaStatus.completed; current_step = some "completed" })
  defer (
      publish_message "saga-events"
        (saga_completed saga.id saved.correlation_id saved.completed_steps))

-- `completeSaga`
unfoldable pub complete_saga : Platform → String → Action (Unit {0})
unfolding complete_by_status
complete_saga p saga_id = do
  found ← find_saga p (λ r. r.id == saga_id)
  elim found [
    | none ↦ throw (plain ("Saga not found: " <+> saga_id))
    | some saga ↦ complete_by_status saga.status p saga
  ]

-- `findSagaByCorrelationId`; without a type only the correlation id counts.
unfoldable pub find_saga_by_correlation_id :
    Platform → String → Option String → Action (Option SagaInstance)
find_saga_by_correlation_id p c saga_type = find_saga p (λ r.
    r.correlation_id == c
    && (if is_truthy saga_type then r.saga_type == truthy_or saga_type "" else true))
