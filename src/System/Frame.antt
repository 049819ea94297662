-- ===== src/System/Frame.antt =====
-- What the saga manager's own writes, locks, publications and payments do not touch.
use nestjs_cqrs_saga.Prelude.{
  ℕ, String, ◌≡◌, refl, inl, inr, Bool, Option, List, [], ◌∷◌, ◌++◌, ◌<+>◌, ◌==◌, Option-cases,
  reverse, arith,
}
use nestjs_cqrs_saga.Outcome.{Error, message_of, Outcome-cases}
use nestjs_cqrs_saga.Entity.{
  Order, SagaInstance, SagaData, Payment, ProcessPaymentCommand, RefundPaymentCommand,
}
use nestjs_cqrs_saga.Message.{Body, saga_step_compensated, saga_compensated}
use nestjs_cqrs_saga.World.{World, Platform}
use nestjs_cqrs_saga.Kafka.{publish, kafka_record}
use nestjs_cqrs_saga.Lock.{AcquiredLock, release_lock, attempt}
use nestjs_cqrs_saga.Lock.Scope.{release_lock-keys, attempt-keys}
use nestjs_cqrs_saga.Payment.{
  execute_process, settle, complete_payment, fail_payment, execute_refund, refund_by_status,
}
use nestjs_cqrs_saga.Order.Announced.{promised, promised-message}
use nestjs_cqrs_saga.Payment.Pending.{settles, settles-message}
use nestjs_cqrs_saga.Maintenance.{compensate_saga_of}
use nestjs_cqrs_saga.Saga.{
  complete_saga, complete_by_status, compensate_step, compensate_steps, compensate,
  start_compensation, mark_saga_as_final_failure, fail_saga, handle_saga_failure, on_step_error,
  create_saga,
}

-- The orders and the event store are as they were.
abbrev pub SameBooks : World → World → Type 0
SameBooks v w = (w.orders ≡ v.orders) × (w.event_store ≡ v.event_store)

-- And so are the bus, the payments, those that deferred callbacks have captured, and the orders that
-- such callbacks will announce.
abbrev pub Same : World → World → Type 0
Same v w =
    (w.orders ≡ v.orders)
    × (w.event_store ≡ v.event_store)
    × (w.payments ≡ v.payments)
    × (settles w.deferred ≡ settles v.deferred)
    × (w.bus ≡ v.bus)
    × (promised w.deferred ≡ promised v.deferred)

module _ (p : Platform) where
  pub publish-Same : (topic : String) (b : Body) (w : World) → Same w (publish p topic b w).1
  unfolding publish
  publish-Same topic b w = ground arith

  pub release_lock-Same : (l : AcquiredLock) (w : World) → Same w (release_lock p l w).1
  release_lock-Same l w = ground (arith, release_lock-keys p l w)

  pub attempt-Same : (k t : String) (ttl : ℕ) (w : World) → Same w (attempt p k t ttl w).1
  attempt-Same k t ttl w = ground (arith, attempt-keys p k t ttl w)

  pub complete_saga-Same : (i : String) (w : World) → Same w (complete_saga p i w).1
  unfolding complete_saga complete_by_status
  complete_saga-Same i w = grind (arith, settles-message, promised-message)

  mark_saga_as_final_failure-Same :
      (s : SagaInstance) (m : String) (w : World) → Same w (mark_saga_as_final_failure p s m w).1
  unfolding mark_saga_as_final_failure publish
  mark_saga_as_final_failure-Same s m w = ground arith

  compensate_steps-Same :
      (s : SagaInstance) (steps : List String) (w : World) → Same w (compensate_steps p s steps w).1
  unfolding compensate_steps compensate_step
  compensate_steps-Same s [] w = (refl, refl, refl, refl, refl, refl)
  compensate_steps-Same s (x ∷ steps) w =
      let s' : SagaInstance = record s {
        compensation_steps = s.compensation_steps ++ ("compensate_" <+> x) ∷ [];
      } in
      let w' = (publish p "saga-events" (saga_step_compensated s.id ("compensate_" <+> x)) w).1 in
      ground (
        arith,
        publish-Same "saga-events" (saga_step_compensated s.id ("compensate_" <+> x)) w,
        compensate_steps-Same s' steps w',
      )

  compensate-Same : (s : SagaInstance) (w : World) → Same w (compensate p s w).1
  unfolding compensate
  compensate-Same s w = ground (arith, compensate_steps-Same s (reverse s.completed_steps) w)

  start_compensation-Same : (s : SagaInstance) (w : World) → Same w (start_compensation p s w).1
  unfolding start_compensation publish
  start_compensation-Same s w =
      let v = (compensate p s w).1 in
      elim (Outcome-cases (compensate p s w).0) [
        | inl (s', h) ↦
            elim (Outcome-cases (
              p.send
                (kafka_record p "saga-events"
                  (saga_compensated s'.id s'.correlation_id s'.compensation_steps) v.now)
                v.sent)) [
                  | inl (ms, h') ↦ ground (arith, compensate-Same s w)
                  | inr (e, h') ↦ ground (
                    arith,
                    compensate-Same s w,
                    mark_saga_as_final_failure-Same s (message_of e) v,
                  )
                ]
        | inr (e, h) ↦ ground (
          arith,
          compensate-Same s w,
          mark_saga_as_final_failure-Same s (message_of e) (record v { sagas = w.sagas }),
        )
      ]

  pub handle_saga_failure-Same :
      (s : SagaInstance) (step m : String) (w : World) → Same w (handle_saga_failure p s step m w).1
  unfolding handle_saga_failure fail_saga publish
  handle_saga_failure-Same s step m w = grind (arith, start_compensation-Same)

  pub on_step_error-Same :
      (i step : String) (e : Error) (w : World) → Same w (on_step_error p i step e w).1
  unfolding on_step_error
  on_step_error-Same i step e w = elim (Option-cases (p.sagas.find_one (λ r. r.id == i) w.sagas)) [
    | inl h ↦ ground arith
    | inr (s, h) ↦ ground (arith, handle_saga_failure-Same s step (message_of e) w)
  ]

  pub create_saga-Same :
      (ty c : String) (d : SagaData) (steps : List String) (w : World)
      → Same w (create_saga p ty c d steps w).1
  unfolding create_saga
  create_saga-Same ty c d steps w = grind (arith, settles-message, promised-message)

  pub execute_process-SameBooks :
      (c : ProcessPaymentCommand) (w : World) → SameBooks w (execute_process p c w).1
  unfolding execute_process
  execute_process-SameBooks c w = ground arith

  pub settle-SameBooks :
      (a : Payment) (c : Option String) (b : Bool) (w : World) → SameBooks w (settle p a c b w).1
  unfolding settle complete_payment fail_payment
  settle-SameBooks a c b w = ground arith

  pub execute_refund-SameBooks :
      (c : RefundPaymentCommand) (w : World) → SameBooks w (execute_refund p c w).1
  unfolding execute_refund refund_by_status
  execute_refund-SameBooks c w = ground arith

  pub compensate_saga_of-Same : (o : Order) (w : World) → Same w (compensate_saga_of p o w).1
  unfolding compensate_saga_of
  compensate_saga_of-Same o w = ground arith
