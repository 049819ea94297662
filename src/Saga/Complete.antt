-- ===== src/Saga/Complete.antt =====
-- `completeSaga` of src/saga/saga-manager.service.ts on each status of the saga.
use nestjs_cqrs_saga.Prelude.{String, ◌≡◌, ◌≢◌, refl, some, [], ◌∷◌, ◌++◌, arith}
use nestjs_cqrs_saga.Outcome.{ok}
use nestjs_cqrs_saga.Table.{lookup, upsert, lookup-upsert_at, key-lookup}
use nestjs_cqrs_saga.Entity.{SagaInstance, SagaStatus}
use nestjs_cqrs_saga.Message.{saga_completed}
use nestjs_cqrs_saga.World.{World, Platform, SagasUp, publish_message}
use nestjs_cqrs_saga.Saga.{complete_saga, complete_by_status}

-- The saga as its completion leaves it.
abbrev pub completed_saga : SagaInstance → SagaInstance
completed_saga s = record s { status = SagaStatus.completed; current_step = some "completed" }

by_status :
    (k : SagaStatus) (p : Platform) (s : SagaInstance) (w : World)
    → SagasUp p
    → k ≢ SagaStatus.completed
    → complete_by_status k p s w ≡ (
      ok tt,
      record w {
        sagas = upsert (λ r. r.id) (completed_saga s) w.sagas;
        deferred =
            w.deferred
            ++ publish_message "saga-events"
                (saga_completed s.id s.correlation_id s.completed_steps)
              ∷ [];
      },
    )
unfolding complete_by_status
by_status SagaStatus.completed p s w up h = absurd (h refl)
by_status _ p s w up h = ground (arith, up.saves (completed_saga s) w.sagas)

-- A stored saga of any status but `completed`, compensated and failed ones too, is stored as
-- completed, and its completion is announced later; nothing else changes. The sagas' table accepts
-- every write.
pub complete_saga-completes :
    (p : Platform) (s : SagaInstance) (i : String) (w : World)
    → SagasUp p
    → lookup (λ r. r.id) i w.sagas ≡ some s
    → s.status ≢ SagaStatus.completed
    → let (r, w') = complete_saga p i w in
      (r ≡ ok tt)
      × (lookup (λ r. r.id) i w'.sagas ≡ some (completed_saga s))
      × (w'.deferred
          ≡ w.deferred
            ++ publish_message "saga-events" (saga_completed i s.correlation_id s.completed_steps)
              ∷ [])
      × (w' ≡ record w { sagas = w'.sagas; deferred = w'.deferred })
unfolding complete_saga
complete_saga-completes p s i w up found open_saga = ground (
  arith,
  p.sagas.find_one-key i w.sagas,
  by_status s.status p s w up open_saga,
  key-lookup (λ (r : SagaInstance). r.id) i w.sagas s found,
  lookup-upsert_at (λ (r : SagaInstance). r.id) i (completed_saga s) w.sagas
      (key-lookup (λ (r : SagaInstance). r.id) i w.sagas s found),
)
