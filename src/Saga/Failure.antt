-- ===== src/Saga/Failure.antt =====
-- How `executeSagaStep` and `startCompensation` of src/saga/saga-manager.service.ts end when a
-- step, the lock or the compensation fails.
use nestjs_cqrs_saga.Prelude.{
  String, ◌≡◌, true, false, none, some, ◌++◌, arith, ◌==◌, ◌<+>◌, any, List, map, reverse,
}
use nestjs_cqrs_saga.Outcome.{Outcome, ok, err, Error, plain, message_of}
use nestjs_cqrs_saga.Table.{upsert, lookup-upsert_at, key-lookup}
use nestjs_cqrs_saga.Entity.{SagaInstance, SagaStatus}
use nestjs_cqrs_saga.Message.{Message, saga_compensated, saga_compensation_failed}
use nestjs_cqrs_saga.World.{World, Platform, Action, SagasUp, BrokerUp}
use nestjs_cqrs_saga.Kafka.{publish-sent, publish_refused}
use nestjs_cqrs_saga.Lock.{acquire_lock, release_lock, with_lock}
use nestjs_cqrs_saga.Lock.Scope.{release_lock-keys}
use nestjs_cqrs_saga.Saga.{
  execute_saga_step, run_saga_step, on_step_error, step_options, start_compensation, compensate,
  mark_saga_as_final_failure,
}
use nestjs_cqrs_saga.Saga.Steps.{saga_by, locked, HasLock, entered}
use nestjs_cqrs_saga.Saga.Compensation.{
  handle_saga_failure-compensates, failure_messages, TakesSteps, announced, announcements,
  compensation_of, after_compensation, compensated, compensate_lem,
}

-- The saga as a failure leaves it.
abbrev pub failed_at : SagaInstance → String → String → SagaInstance
failed_at s step m = record s {
  status = SagaStatus.compensated;
  current_step = some step;
  error_message = some m;
}

-- What a caught error comes to in the state `w`, where the saga is stored as `s`.
abbrev pub Compensates :
    Platform → String → String → String → SagaInstance → World → Outcome (Unit {0}) × World → Type 0
Compensates p i step m s w (r, w') =
    (r ≡ ok tt)
    × (saga_by i w' ≡ some (failed_at s step m))
    × (w'.sent ≡ w.sent ++ failure_messages p w s step m)
    × (w' ≡ record w { sagas = w'.sagas; sent = w'.sent })

module _ (p : Platform) (up : SagasUp p) (broker : BrokerUp p) (i step : String) where
  on_step_error-Compensates :
      (e : Error) (s : SagaInstance) (w : World)
      → saga_by i w ≡ some s
      → Compensates p i step (message_of e) s w (on_step_error p i step e w)
  unfolding on_step_error
  on_step_error-Compensates e s w found =
      let same = key-lookup (λ (r : SagaInstance). r.id) i w.sagas s found in
      ground (
        arith,
        p.sagas.find_one-key i w.sagas,
        handle_saga_failure-compensates p up broker s s step (message_of e) w,
      )

  module _ (fn : Action (Unit {0})) (w : World) where
    -- A step that is not noted yet, that gets its lock and whose function throws, while the saga is
    -- still stored, does not throw itself: from the state after the lock's release the saga ends
    -- compensated with the step and the error's message, and the failure, one message for each
    -- completed step, last step first, and the end of the compensation are sent; nothing else
    -- changes. The sagas' table accepts every write, transactions work and the broker is up.
    pub execute_saga_step-Compensates :
        (lock : HasLock p i step w) (saga s : SagaInstance) (e : Error)
        (found : saga_by i (locked p i step w) ≡ some saga)
        → any (λ s. s == step) saga.completed_steps ≡ false
        → (fn (entered p i step fn w lock saga found)).0 ≡ err e
        → saga_by i (fn (entered p i step fn w lock saga found)).1 ≡ some s
        → Compensates p i step
            (message_of e)
            s
            (release_lock p lock.0 (fn (entered p i step fn w lock saga found)).1).1
            (execute_saga_step p i step fn w)
    unfolding execute_saga_step run_saga_step with_lock
    execute_saga_step-Compensates lock saga s e found new thrown kept =
        let w' = (fn (entered p i step fn w lock saga found)).1 in
        ground (
          arith,
          lock.1,
          p.sagas.find_one-key i (locked p i step w).sagas,
          up.saves (record saga { current_step = some step }) (locked p i step w).sagas,
          release_lock-keys p lock.0 w',
          on_step_error-Compensates e s (release_lock p lock.0 w').1,
        )

    -- A step of a stored saga that does not get its lock returns without its function having changed
    -- anything, and compensates the saga all the same, with the lock's message as the error. The
    -- sagas' table accepts every write, transactions work and the broker is up.
    pub execute_saga_step-contended :
        (s : SagaInstance)
        → (acquire_lock p ("saga_step:" <+> i <+> ":" <+> step) step_options w).0 ≡ ok none
        → saga_by i (locked p i step w) ≡ some s
        → Compensates p i step
            ("Failed to acquire lock: " <+> "saga_step:" <+> i <+> ":" <+> step)
            s
            (locked p i step w)
            (execute_saga_step p i step fn w)
    unfolding execute_saga_step with_lock message_of
    execute_saga_step-contended s refused found = ground (
      arith,
      on_step_error-Compensates
          (plain ("Failed to acquire lock: " <+> "saga_step:" <+> i <+> ":" <+> step)) s
          (locked p i step w) found,
    )

-- A compensation of a stored saga that throws, for whatever reason, ends with the saga as it was
-- stored before, but failed with that reason, also if the failure cannot be announced. The rollback
-- works, the sagas' table accepts every write and transactions open and commit.
pub start_compensation-fails :
    (p : Platform) (s stored : SagaInstance) (e : Error) (w w' : World)
    → SagasUp p
    → saga_by s.id w ≡ some stored
    → compensate p s w ≡ (err e, w')
    → p.rollback true (record w' { sagas = w.sagas }) ≡ ok tt
    → saga_by s.id (start_compensation p s w).1
      ≡ some (record stored {
        status = SagaStatus.failed;
        error_message = some ("Compensation failed: " <+> message_of e);
      })
unfolding start_compensation mark_saga_as_final_failure
start_compensation-fails p s stored e w w' up found thrown back =
    let w₁ : World = record w' { sagas = w.sagas } in
    let marked : SagaInstance = record stored {
      status = SagaStatus.failed;
      error_message = some ("Compensation failed: " <+> message_of e);
    } in
    let w₂ : World = record w₁ { sagas = upsert (λ r. r.id) marked w.sagas } in
    ground (
      arith,
      thrown,
      up.begins w,
      up.begins w₁,
      p.sagas.find_one-key s.id w.sagas,
      up.saves marked w.sagas,
      up.commits w₂,
      publish-sent p "saga-events"
          (saga_compensation_failed s.id s.correlation_id marked.error_message) w₂,
      lookup-upsert_at (λ (r : SagaInstance). r.id) s.id marked w.sagas
          (key-lookup (λ (r : SagaInstance). r.id) s.id w.sagas stored found),
    )

-- A compensation of a stored saga of which the broker takes the message on every step, but not the
-- one on the end, throws, as rolling back without an active transaction does in TypeORM: the
-- broker's error is lost, and the saga is not marked as failed but stays stored as compensated. The
-- messages sent are one for each completed step, last step first, and nothing else changes. The
-- sagas' table accepts every write, and transactions open and commit.
pub start_compensation-masks :
    (p : Platform) (s stored : SagaInstance) (x e : Error) (w : World)
    → SagasUp p
    → TakesSteps p s.id
    → ((steps : List String) (v : World) (ms : List Message)
        → p.send (announced p v (saga_compensated s.id s.correlation_id steps)) ms ≡ err x)
    → ((v : World) → p.rollback false v ≡ err e)
    → saga_by s.id w ≡ some stored
    → let (r, w') = start_compensation p s w in
      (r ≡ err e)
      × (saga_by s.id w' ≡ some (record stored { status = SagaStatus.compensated }))
      × (w'.sent ≡ w.sent ++ announcements p w s.id (reverse s.completed_steps))
      × (w' ≡ record w { sagas = w'.sagas; sent = w'.sent })
unfolding start_compensation
start_compensation-masks p s stored x e w up takes refuses inactive found =
    let steps = s.compensation_steps ++ map compensation_of (reverse s.completed_steps) in
    let w' = after_compensation p up s stored w in
    ground (
      arith,
      up.begins w,
      compensate_lem p up s stored w takes found,
      publish_refused p "saga-events" (saga_compensated s.id s.correlation_id steps) w' x
          (refuses steps w' w'.sent),
      inactive w',
      lookup-upsert_at (λ (r : SagaInstance). r.id) s.id (compensated p up stored) w.sagas
          (key-lookup (λ (r : SagaInstance). r.id) s.id w.sagas stored found),
    )
