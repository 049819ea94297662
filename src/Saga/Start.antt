-- ===== src/Saga/Start.antt =====
-- `startSaga` of src/saga/saga-manager.service.ts: the sagas of a type and a correlation id.
use nestjs_cqrs_saga.Prelude.{
  ℕ, ◌≤◌, String, ◌≡◌, Option, none, some, List, [], ◌∷◌, ◌++◌, arith, eq_refl, ◌<+>◌, count,
  count-append, Option-cases, inl, inr,
}
use nestjs_cqrs_saga.Outcome.{Outcome, ok}
use nestjs_cqrs_saga.Table.{upsert, upsert_fresh, count-false, count-Holds}
use nestjs_cqrs_saga.Entity.{SagaInstance, SagaStatus, SagaData}
use nestjs_cqrs_saga.Message.{saga_started}
use nestjs_cqrs_saga.World.{World, Platform, SagasUp, publish_message}
use nestjs_cqrs_saga.Lock.{AcquiredLock, acquire_lock, with_lock}
use nestjs_cqrs_saga.Lock.Scope.{release_lock-keys}
use nestjs_cqrs_saga.Saga.{start_saga, create_saga, has_correlation, start_options, first_step}

module _ (p : Platform) (saga_type c : String) where
  abbrev pub creation_lock : World → Outcome (Option AcquiredLock) × World
  creation_lock w = acquire_lock p ("saga_creation:" <+> saga_type <+> ":" <+> c) start_options w

  -- The state in which the body runs.
  abbrev pub creating : World → World
  creating w = (creation_lock w).1

  -- The sagas of the type and the correlation id.
  abbrev pub sagas_for : World → ℕ
  sagas_for w = count (has_correlation saga_type c) w.sagas

  abbrev pub new_saga : SagaData → List String → World → SagaInstance
  new_saga d steps w = record {
    id = p.sagas.generate w.sagas;
    saga_type = saga_type;
    correlation_id = c;
    status = SagaStatus.started;
    saga_data = d;
    completed_steps = [];
    compensation_steps = [];
    current_step = some (first_step steps);
    error_message = none;
  }

  module _ (d : SagaData) (steps : List String) (w : World) (l : AcquiredLock)
      (lock : (creation_lock w).0 ≡ ok (some l)) where
    -- A saga of the type and the correlation id that is there already is returned, and nothing is
    -- written or announced.
    pub start_saga-existing :
        (s : SagaInstance)
        → p.sagas.find_one (has_correlation saga_type c) (creating w).sagas ≡ some s
        → let (r, w') = start_saga p saga_type c d steps w in
          (r ≡ ok s) × (w' ≡ record (creating w) { keys = w'.keys })
    unfolding start_saga create_saga with_lock
    start_saga-existing s found = ground (arith, lock, release_lock-keys p l (creating w))

    -- Where the lock is taken and no saga of the type and the correlation id is there, a new one is
    -- stored behind the others and returned, in `started`, and its start is announced.
    pub start_saga-creates :
        SagasUp p
        → p.sagas.find_one (has_correlation saga_type c) (creating w).sagas ≡ none
        → let (r, w') = start_saga p saga_type c d steps w in
          (r ≡ ok (new_saga d steps (creating w)))
          × (w'.sagas ≡ (creating w).sagas ++ new_saga d steps (creating w) ∷ [])
          × (w'.deferred
              ≡ (creating w).deferred
                ++ publish_message "saga-events"
                    (saga_started (p.sagas.generate (creating w).sagas) saga_type c d)
                  ∷ [])
    unfolding start_saga create_saga with_lock
    start_saga-creates up missing =
        let s = new_saga d steps (creating w) in
        let w₁ : World = record (creating w) {
          sagas = upsert (λ r. r.id) s (creating w).sagas;
          deferred =
              (creating w).deferred
              ++ publish_message "saga-events" (saga_started s.id saga_type c d) ∷ [];
        } in
        ground (
          arith,
          lock,
          up.saves s (creating w).sagas,
          upsert_fresh (λ (r : SagaInstance). r.id) s (creating w).sagas
              (p.sagas.generate_fresh (creating w).sagas),
          release_lock-keys p l w₁,
        )

    -- Where the lock is taken and at most one saga of the type and the correlation id is stored then,
    -- exactly one is stored after the call, whether it was there or not. The sagas' table accepts
    -- every write.
    pub start_saga-one :
        SagasUp p
        → sagas_for (creating w) ≤ 1
        → sagas_for (start_saga p saga_type c d steps w).1 ≡ 1
    start_saga-one up most =
        elim (Option-cases (p.sagas.find_one (has_correlation saga_type c) (creating w).sagas)) [
          | inl e ↦ ground (
            arith,
            start_saga-creates up e,
            count-false (has_correlation saga_type c) (creating w).sagas
                (p.sagas.find_one_complete _ _ e),
            count-append (has_correlation saga_type c) (creating w).sagas
                (new_saga d steps (creating w) ∷ []),
            eq_refl c,
            eq_refl saga_type,
          )
          | inr (s, e) ↦ ground (
            arith,
            start_saga-existing s e,
            count-Holds (has_correlation saga_type c) s (creating w).sagas
                (p.sagas.find_one_sound _ _ s e).1 (p.sagas.find_one_sound _ _ s e).0,
          )
        ]
