-- ===== src/Saga/Compensation.antt =====
-- `handleSagaFailure` and `startCompensation` of src/saga/saga-manager.service.ts.
use nestjs_cqrs_saga.Prelude.{
  String, ◌≡◌, refl, some, List, [], ◌∷◌, ◌++◌, map, reverse, arith, ◌<+>◌, append_assoc,
  append-nil,
}
use nestjs_cqrs_saga.Outcome.{ok}
use nestjs_cqrs_saga.Table.{upsert, lookup-upsert_at, key-lookup}
use nestjs_cqrs_saga.Entity.{SagaInstance, SagaStatus}
use nestjs_cqrs_saga.Message.{Message, Body, saga_step_compensated, saga_failed, saga_compensated}
use nestjs_cqrs_saga.World.{World, Platform, SagasUp, BrokerUp}
use nestjs_cqrs_saga.Kafka.{publish_sends, publish_taken, kafka_record}
use nestjs_cqrs_saga.Saga.{
  handle_saga_failure, fail_saga, start_compensation, compensate, compensate_steps, compensate_step,
}
use nestjs_cqrs_saga.Saga.Steps.{saga_by}

-- `compensate_${stepName}`
abbrev pub compensation_of : String → String
compensation_of s = "compensate_" <+> s

-- A saga event as it is sent.
abbrev pub announced : Platform → World → Body → Message
announced p w b = kafka_record p "saga-events" b w.now

abbrev pub announcements : Platform → World → String → List String → List Message
announcements p w i = map (λ s. announced p w (saga_step_compensated i (compensation_of s)))

-- The broker takes the messages on the steps of a saga that are compensated.
abbrev pub TakesSteps : Platform → String → Type 0
TakesSteps p i =
    (s : String) (w : World) (ms : List Message)
    → let m = announced p w (saga_step_compensated i (compensation_of s)) in
      p.send m ms ≡ ok (ms ++ m ∷ [])

-- The loop of the compensation, while the broker accepts: a message and a name for each step.
compensate_steps_lem :
    (p : Platform) (saga : SagaInstance) (steps : List String) (w : World)
    → TakesSteps p saga.id
    → compensate_steps p saga steps w ≡ (
      ok (record saga {
        compensation_steps = saga.compensation_steps ++ map compensation_of steps;
      }),
      record w { sent = w.sent ++ announcements p w saga.id steps },
    )
unfolding compensate_steps compensate_step
compensate_steps_lem p saga [] w up = simp append-nil
compensate_steps_lem p saga (s ∷ steps) w up =
    let saga' = record saga {
      compensation_steps = saga.compensation_steps ++ compensation_of s ∷ [];
    } in
    let w' = record w {
      sent = w.sent ++ announced p w (saga_step_compensated saga.id (compensation_of s)) ∷ [];
    } in
    ground (
      arith,
      publish_taken p "saga-events" (saga_step_compensated saga.id (compensation_of s)) w
          (up s w w.sent),
      compensate_steps_lem p saga' steps w' up,
      append_assoc saga.compensation_steps (compensation_of s ∷ []) (map compensation_of steps),
      append_assoc w.sent (announced p w (saga_step_compensated saga.id (compensation_of s)) ∷ [])
          (announcements p w saga.id steps),
    )

-- The messages of a failure that is compensated, in the order in which they are sent.
abbrev pub failure_messages : Platform → World → SagaInstance → String → String → List Message
failure_messages p w s failed_step error_message =
    announced p w (saga_failed s.id s.correlation_id failed_step error_message)
      ∷ announcements p w s.id (reverse s.completed_steps)
    ++ announced p w (
        saga_compensated s.id s.correlation_id
          (s.compensation_steps ++ map compensation_of (reverse s.completed_steps)))
      ∷ []

module _ (p : Platform) (up : SagasUp p) where
  abbrev key : SagaInstance → String
  key r = r.id

  abbrev pub compensated : SagaInstance → SagaInstance
  compensated s = record s { status = SagaStatus.compensated }

  -- The state after the transaction of `startCompensation`.
  abbrev pub after_compensation : SagaInstance → SagaInstance → World → World
  after_compensation s stored w = record w {
    sagas = upsert key (compensated stored) w.sagas;
    sent = w.sent ++ announcements p w s.id (reverse s.completed_steps);
  }

  pub compensate_lem :
      (s stored : SagaInstance) (w : World)
      → TakesSteps p s.id
      → saga_by s.id w ≡ some stored
      → compensate p s w ≡ (
        ok (record s {
          compensation_steps =
              s.compensation_steps ++ map compensation_of (reverse s.completed_steps);
        }),
        after_compensation s stored w,
      )
  unfolding compensate
  compensate_lem s stored w takes found =
      let sent = w.sent ++ announcements p w s.id (reverse s.completed_steps) in
      ground (
        arith,
        compensate_steps_lem p s (reverse s.completed_steps) w takes,
        p.sagas.find_one-key s.id w.sagas,
        up.saves (compensated stored) w.sagas,
        up.commits (after_compensation s stored w),
      )

  start_compensation_lem :
      (s stored : SagaInstance) (w : World)
      → BrokerUp p
      → saga_by s.id w ≡ some stored
      → start_compensation p s w ≡ (
        ok tt,
        record w {
          sagas = upsert key (compensated stored) w.sagas;
          sent =
              w.sent
              ++ announcements p w s.id (reverse s.completed_steps)
              ++ announced p w (
                  saga_compensated s.id s.correlation_id
                    (s.compensation_steps ++ map compensation_of (reverse s.completed_steps)))
                ∷ [];
        },
      )
  unfolding start_compensation
  start_compensation_lem s stored w broker found =
      let s' : SagaInstance = record s {
        compensation_steps =
            s.compensation_steps ++ map compensation_of (reverse s.completed_steps);
      } in
      ground (
        arith,
        up.begins w,
        compensate_lem s stored w (λ x v ms. broker _ ms) found,
        publish_sends p "saga-events" (saga_compensated s.id s.correlation_id s'.compensation_steps)
            (after_compensation s stored w) broker,
      )

  -- A failed step of a stored saga, where the sagas' table accepts every write, transactions open and
  -- commit and the broker is up, ends compensated: the stored saga has the failed step and the error,
  -- and its completed steps and recorded compensations are as before; the messages are the failure,
  -- one for each completed step, last step first, and the end of the compensation. No other table,
  -- callback or event changes.
  pub handle_saga_failure-compensates :
      (broker : BrokerUp p) (saga s : SagaInstance) (failed_step error_message : String) (w : World)
      → saga_by saga.id w ≡ some s
      → let (r, w') = handle_saga_failure p saga failed_step error_message w in
        (r ≡ ok tt)
        × (saga_by saga.id w'
            ≡ some (record s {
              status = SagaStatus.compensated;
              current_step = some failed_step;
              error_message = some error_message;
            }))
        × (w'.sent ≡ w.sent ++ failure_messages p w s failed_step error_message)
        × (w' ≡ record w { sagas = w'.sagas; sent = w'.sent })
  unfolding handle_saga_failure fail_saga
  handle_saga_failure-compensates broker saga s failed_step error_message w found =
      let failed : SagaInstance = record s {
        status = SagaStatus.compensating;
        current_step = some failed_step;
        error_message = some error_message;
      } in
      let w₁ : World = record w { sagas = upsert key failed w.sagas } in
      let m = announced p w (saga_failed s.id s.correlation_id failed_step error_message) in
      let w₂ : World = record w₁ { sent = w.sent ++ m ∷ [] } in
      let same = key-lookup key saga.id w.sagas s found in
      ground (
        arith,
        up.begins w,
        p.sagas.find_one-key saga.id w.sagas,
        up.saves failed w.sagas,
        up.commits w₁,
        publish_sends p "saga-events" (saga_failed s.id s.correlation_id failed_step error_message)
            w₁ broker,
        start_compensation_lem failed failed w₂ broker
            (lookup-upsert_at key s.id failed w.sagas refl),
        lookup-upsert_at key saga.id (compensated failed) (upsert key failed w.sagas) same,
        append_assoc w.sent (m ∷ []) (announcements p w s.id (reverse s.completed_steps)),
        append_assoc w.sent (m ∷ announcements p w s.id (reverse s.completed_steps)) (
            announced p w (
              saga_compensated s.id s.correlation_id
                (s.compensation_steps ++ map compensation_of (reverse s.completed_steps)))
            ∷ []),
      )
