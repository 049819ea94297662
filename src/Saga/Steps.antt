-- ===== src/Saga/Steps.antt =====
-- `executeSagaStep` of src/saga/saga-manager.service.ts: when a step runs, and what it leaves.
use nestjs_cqrs_saga.Prelude.{
  String, ◌≡◌, true, false, Option, some, [], ◌∷◌, ◌++◌, arith, ◌==◌, any, ◌<+>◌,
}
use nestjs_cqrs_saga.Outcome.{ok}
use nestjs_cqrs_saga.Table.{lookup, upsert, lookup-upsert_at, key-lookup}
use nestjs_cqrs_saga.Entity.{SagaInstance}
use nestjs_cqrs_saga.Message.{saga_step_completed}
use nestjs_cqrs_saga.World.{World, Platform, Action, SagasUp, publish_message}
use nestjs_cqrs_saga.Lock.{AcquiredLock, acquire_lock, with_lock}
use nestjs_cqrs_saga.Lock.Scope.{release_lock-keys}
use nestjs_cqrs_saga.Saga.{run_saga_step, execute_saga_step, step_options}

-- The saga under an identifier.
abbrev pub saga_by : String → World → Option SagaInstance
saga_by i w = lookup (λ r. r.id) i w.sagas

-- The state in which the body of a step runs: that in which its lock was taken.
abbrev pub locked : Platform → String → String → World → World
locked p i step w = (acquire_lock p ("saga_step:" <+> i <+> ":" <+> step) step_options w).1

abbrev pub HasLock : Platform → String → String → World → Type 0
HasLock p i step w =
    (l : AcquiredLock) × ((acquire_lock p ("saga_step:" <+> i <+> ":" <+> step) step_options w).0
      ≡ ok (some l))

module _ (p : Platform) (i step : String) (fn : Action (Unit {0})) (w : World)
    (h : HasLock p i step w) (saga : SagaInstance)
    (found : saga_by i (locked p i step w) ≡ some saga) where
  -- A step that the found saga notes as completed does not run again: under its lock the call
  -- returns, and no saga, payment or order is written and nothing is deferred by it.
  pub execute_saga_step-once :
      any (λ s. s == step) saga.completed_steps ≡ true
      → ((execute_saga_step p i step fn w).0 ≡ ok tt)
        × ((execute_saga_step p i step fn w).1.sagas ≡ (locked p i step w).sagas)
        × ((execute_saga_step p i step fn w).1.payments ≡ (locked p i step w).payments)
        × ((execute_saga_step p i step fn w).1.orders ≡ (locked p i step w).orders)
        × ((execute_saga_step p i step fn w).1.deferred ≡ (locked p i step w).deferred)
  unfolding execute_saga_step run_saga_step with_lock
  execute_saga_step-once e = ground (
    arith,
    h.1,
    p.sagas.find_one-key i (locked p i step w).sagas,
    release_lock-keys p h.0 (locked p i step w),
  )

  -- The saga as the step leaves it.
  abbrev pub stepped : SagaInstance
  stepped = record saga {
    current_step = some step;
    completed_steps = saga.completed_steps ++ step ∷ [];
  }

  -- The state in which the step's function runs.
  abbrev pub entered : World
  entered = record (locked p i step w) {
    sagas = upsert (λ r. r.id) (record saga { current_step = some step }) (locked p i step w).sagas;
  }

  -- A step that is not noted yet runs once its lock is taken: where its function returns, the saga
  -- under the identifier is the one that was found with the step as its current one and noted as
  -- completed, payments and orders are as the function left them, and after what it deferred comes
  -- the announcement of the step. The sagas' table accepts every write.
  pub execute_saga_step-runs :
      SagasUp p
      → any (λ s. s == step) saga.completed_steps ≡ false
      → (fn entered).0 ≡ ok tt
      → ((execute_saga_step p i step fn w).0 ≡ ok tt)
        × (saga_by i (execute_saga_step p i step fn w).1 ≡ some stepped)
        × ((execute_saga_step p i step fn w).1.payments ≡ (fn entered).1.payments)
        × ((execute_saga_step p i step fn w).1.orders ≡ (fn entered).1.orders)
        × ((execute_saga_step p i step fn w).1.deferred
            ≡ (fn entered).1.deferred
              ++ publish_message "saga-events" (saga_step_completed i step stepped.completed_steps)
                ∷ [])
  unfolding execute_saga_step run_saga_step with_lock
  execute_saga_step-runs up e done = ground (
    arith,
    h.1,
    p.sagas.find_one-key i (locked p i step w).sagas,
    up.saves (record saga { current_step = some step }) (locked p i step w).sagas,
    up.saves stepped (fn entered).1.sagas,
    lookup-upsert_at (λ (r : SagaInstance). r.id) i stepped (fn entered).1.sagas
        (key-lookup (λ (r : SagaInstance). r.id) i (locked p i step w).sagas saga found),
    release_lock-keys p h.0 (record (fn entered).1 {
      sagas = upsert (λ r. r.id) stepped (fn entered).1.sagas;
      deferred =
          (fn entered).1.deferred
          ++ publish_message "saga-events" (saga_step_completed i step stepped.completed_steps)
            ∷ [];
    }),
  )
