-- ===== src/System/Trail.antt =====
-- What every method call keeps: relations between the states before and after it, and the methods
-- of src/saga/*.ts and of the event handlers as a composition of calls that keep them.
use nestjs_cqrs_saga.Prelude.{
  ℕ, zero, suc, String, ◌≡◌, refl, Bool, true, false, Option, none, some, List, [], ◌∷◌, ◌++◌, ◌==◌,
  ◌<+>◌, any, if◌then◌else◌, arith,
}
use nestjs_cqrs_saga.Outcome.{Outcome, ok, err, Error, plain}
use nestjs_cqrs_saga.Entity.{
  CreateOrderCommand, CancelOrderCommand, ConfirmOrderCommand, EventStore, SagaInstance, SagaData,
  Payment, ProcessPaymentCommand, RefundPaymentCommand, BusEvent, OrderCreatedEvent, order_created,
}
use nestjs_cqrs_saga.Message.{saga_step_completed}
use nestjs_cqrs_saga.World.{
  World, Platform, Action, ◌>>=◌, ◌>>◌, catch, pure, throw, defer, publish_message, publish_all,
  Task, settle_payment,
}
use nestjs_cqrs_saga.Lock.{
  generate_token, LockOptions, AcquiredLock, attempt, attempts, acquire_lock, release_lock,
  with_lock,
}
use nestjs_cqrs_saga.Order.{execute_create, execute_cancel, execute_confirm}
use nestjs_cqrs_saga.Store.{save_event, find_saga, save_saga}
use nestjs_cqrs_saga.Saga.{
  start_saga, create_saga, start_options, run_saga_step, step_options, on_step_error,
  execute_saga_step,
}
use nestjs_cqrs_saga.Payment.{execute_process, execute_refund, settle}
use nestjs_cqrs_saga.Order.Announced.{promised-message}
use nestjs_cqrs_saga.Payment.Pending.{settles-message}
use nestjs_cqrs_saga.System.Frame.{
  Same, release_lock-Same, attempt-Same, on_step_error-Same, create_saga-Same,
}

-- A command charges an order as the event of its creation tells.
abbrev pub ChargeFor : OrderCreatedEvent → ProcessPaymentCommand → Type 0
ChargeFor e c = (c.order_id ≡ e.order_id) × (c.user_id ≡ e.user_id) × (c.amount ≡ e.total_amount)

-- The creation of an order for which it may be charged while an event is handled.
abbrev pub charged_by : BusEvent → Option OrderCreatedEvent
charged_by (order_created e) = some e
charged_by _ = none

-- A relation on states that the commands on orders and payments, the callbacks of the payment
-- simulation, new rows of the event store and the other clients respect, and that depends on nothing
-- else but the orders, the event store, the payments and those that wait for their end, and the
-- creations that are announced. Its index is a creation for which an order may be charged once on the
-- way; with none it is a preorder.
pub record Trail (p : Platform) : Type 1 where
  pub rel : Option OrderCreatedEvent → World → World → Type 0
  pub leads : (b : Option OrderCreatedEvent) (u v w : World) → rel none u v → rel b v w → rel b u w
  pub ends_with :
      (b : Option OrderCreatedEvent) (u v w : World) → rel b u v → rel none v w → rel b u w
  pub allows : (b : Option OrderCreatedEvent) (v w : World) → rel none v w → rel b v w
  pub frame : (v w : World) → Same v w → rel none v w
  pub creates : (c : CreateOrderCommand) (w : World) → rel none w (execute_create p c w).1
  pub cancels : (c : CancelOrderCommand) (w : World) → rel none w (execute_cancel p c w).1
  pub confirms : (c : ConfirmOrderCommand) (w : World) → rel none w (execute_confirm p c w).1
  pub processes :
      (e : OrderCreatedEvent) (c : ProcessPaymentCommand) (w : World)
      → ChargeFor e c
      → rel (some e) w (execute_process p c w).1
  pub refunds : (c : RefundPaymentCommand) (w : World) → rel none w (execute_refund p c w).1
  -- A callback is taken from those that are deferred, and runs.
  pub ends :
      (b : Bool) (a : Payment) (c : Option String) (before after : List Task) (w : World)
      → w.deferred ≡ before ++ settle_payment a c ∷ after
      → rel none w (settle p a c b (record w { deferred = before ++ after })).1
  -- Events are announced on the bus, and one of the bus is delivered.
  pub announces :
      (es : List BusEvent) (before after : List Task) (w : World)
      → w.deferred ≡ before ++ publish_all es ∷ after
      → rel none w (record w { deferred = before ++ after; bus = w.bus ++ es })
  pub delivers :
      (e : BusEvent) (before after : List BusEvent) (v w : World)
      → v.bus ≡ before ++ e ∷ after
      → rel (charged_by e) (record v { bus = before ++ after }) w
      → rel none v w
  pub logs :
      (r : EventStore) (w : World)
      → r.id ≡ p.event_store.generate w.event_store
      → rel none w (save_event p r w).1
  pub elapses : (n : ℕ) (w : World) → rel none w (p.elapse n w)

module _ (p : Platform) (t : Trail p) where
  -- Every call of a method goes along the trail, whether it returns or throws.
  abbrev pub KeepsFor : {A : Type 0} → Option OrderCreatedEvent → Action A → Type 0
  KeepsFor b m = (w : World) → t.rel b w (m w).1

  abbrev pub Keeps : {A : Type 0} → Action A → Type 0
  Keeps m = (w : World) → t.rel none w (m w).1

  pub Same-Keeps : {A : Type 0} (m : Action A) → ((w : World) → Same w (m w).1) → Keeps m
  Same-Keeps m h w = t.frame w (m w).1 (h w)

  pub bind-Keeps :
      {b : Option OrderCreatedEvent} {A B : Type 0} (m : Action A) (f : A → Action B)
      → Keeps m
      → ((a : A) → KeepsFor b (f a))
      → KeepsFor b (m >>= f)
  bind-Keeps {b = b} {A = A} {B = B} m f hm hf w = after (m w) (hm w)
    where
      after :
          (r : Outcome A × World)
          → t.rel none w r.1
          → t.rel b w
              (elim r.0 as (λ x. Outcome B × World) [ ok a ↦ f a r.1 | err e ↦ (err e, r.1) ]).1
      after (ok a, v) h = t.leads b w v (f a v).1 h (hf a v)
      after (err e, v) h = t.allows b w v h

  pub bind_first-Keeps :
      {b : Option OrderCreatedEvent} {A B : Type 0} (m : Action A) (f : A → Action B)
      → KeepsFor b m
      → ((a : A) → Keeps (f a))
      → KeepsFor b (m >>= f)
  bind_first-Keeps {b = b} {A = A} {B = B} m f hm hf w = after (m w) (hm w)
    where
      after :
          (r : Outcome A × World)
          → t.rel b w r.1
          → t.rel b w
              (elim r.0 as (λ x. Outcome B × World) [ ok a ↦ f a r.1 | err e ↦ (err e, r.1) ]).1
      after (ok a, v) h = t.ends_with b w v (f a v).1 h (hf a v)
      after (err e, v) h = h

  pub catch-Keeps :
      {b : Option OrderCreatedEvent} {A : Type 0} (m : Action A) (f : Error → Action A)
      → KeepsFor b m
      → ((e : Error) → Keeps (f e))
      → KeepsFor b (catch m f)
  catch-Keeps {b = b} {A = A} m f hm hf w = after (m w) (hm w)
    where
      after :
          (r : Outcome A × World)
          → t.rel b w r.1
          → t.rel b w
              (elim r.0 as (λ x. Outcome A × World) [ ok a ↦ (ok a, r.1) | err e ↦ f e r.1 ]).1
      after (ok a, v) h = h
      after (err e, v) h = t.ends_with b w v (f e v).1 h (hf e v)

  -- A query whose answer decides what follows.
  pub option-Keeps :
      {b : Option OrderCreatedEvent} {A B : Type 0} (m : Action (Option A)) (z : Action B)
      (f : A → Action B)
      → Keeps m
      → KeepsFor b z
      → ((a : A) → KeepsFor b (f a))
      → KeepsFor b (m >>= λ o. elim o [ none ↦ z | some a ↦ f a ])
  option-Keeps {b = b} {A = A} {B = B} m z f hm hz hf =
      bind-Keeps {b = b} m (λ o. elim o as (λ x. Action B) [ none ↦ z | some a ↦ f a ]) hm cases
    where
      cases : (o : Option A) → KeepsFor b (elim o as (λ x. Action B) [ none ↦ z | some a ↦ f a ])
      cases none = hz
      cases (some a) = hf a

  pub if-Keeps :
      {b : Option OrderCreatedEvent} {A : Type 0} (x : Bool) (m k : Action A)
      → KeepsFor b m
      → KeepsFor b k
      → KeepsFor b (if x then m else k)
  if-Keeps true m k hm hk = hm
  if-Keeps false m k hm hk = hk

  pub still : {b : Option OrderCreatedEvent} (w : World) → t.rel b w w
  still {b = b} w = t.allows b w w (t.frame w w (refl, refl, refl, refl, refl, refl))

  attempts-Keeps : (k token : String) (ttl delay n : ℕ) → Keeps (attempts p k token ttl delay n)
  unfolding attempts
  attempts-Keeps k token ttl delay zero =
      Same-Keeps (attempt p k token ttl) (attempt-Same p k token ttl)
  attempts-Keeps k token ttl delay (suc n) =
      let again : Action (Option AcquiredLock) =
        λ w. attempts p k token ttl delay n (p.elapse delay w) in
      option-Keeps (attempt p k token ttl) again (λ l. pure (some l))
        (Same-Keeps (attempt p k token ttl) (attempt-Same p k token ttl))
        (λ w.
          t.leads none w (p.elapse delay w) (again w).1 (t.elapses delay w)
            (attempts-Keeps k token ttl delay n (p.elapse delay w)))
        (λ l. still)

  acquire_lock-Keeps : (k : String) (o : LockOptions) → Keeps (acquire_lock p k o)
  unfolding acquire_lock
  acquire_lock-Keeps k o w =
      attempts-Keeps ("lock:" <+> k) (generate_token p w) o.ttl o.retry_delay o.retry_count w

  pub with_lock-Keeps :
      {b : Option OrderCreatedEvent} {A : Type 0} (k : String) (fn : Action A) (o : LockOptions)
      → KeepsFor b fn
      → KeepsFor b (with_lock p k fn o)
  unfolding with_lock
  with_lock-Keeps {b = b} {A = A} k fn o h =
      let used : AcquiredLock → Action A =
        λ (l : AcquiredLock). λ w. ((fn w).0, (release_lock p l (fn w).1).1) in
      option-Keeps (acquire_lock p k o) (throw (plain ("Failed to acquire lock: " <+> k))) used
        (acquire_lock-Keeps k o) still
        (λ l. λ w.
          t.ends_with b w (fn w).1 (used l w).1 (h w)
            (t.frame (fn w).1 (used l w).1 (release_lock-Same p l (fn w).1)))

  save_saga-Same : (r : SagaInstance) (w : World) → Same w (save_saga p r w).1
  save_saga-Same r w = ground arith

  pub start_saga-Keeps :
      (ty c : String) (d : SagaData) (steps : List String) → Keeps (start_saga p ty c d steps)
  unfolding start_saga
  start_saga-Keeps ty c d steps =
      with_lock-Keeps ("saga_creation:" <+> ty <+> ":" <+> c) (create_saga p ty c d steps)
        start_options (Same-Keeps (create_saga p ty c d steps) (create_saga-Same p ty c d steps))

  run_saga_step-Keeps :
      {b : Option OrderCreatedEvent} (i step : String) (fn : Action (Unit {0}))
      → KeepsFor b fn
      → KeepsFor b (run_saga_step p i step fn)
  unfolding run_saga_step
  run_saga_step-Keeps {b = b} i step fn h =
      let leave : SagaInstance → Action (Unit {0}) = λ (entered : SagaInstance). do
        left ←
            save_saga p (record entered { completed_steps = entered.completed_steps ++ step ∷ [] })
        defer (publish_message "saga-events" (saga_step_completed i step left.completed_steps))
      in let execute : SagaInstance → Action (Unit {0}) = λ (saga : SagaInstance). do
        entered ← save_saga p (record saga { current_step = some step })
        fn >> leave entered
        in let leaves : (s : SagaInstance) → Keeps (leave s) =
            λ s. Same-Keeps (leave s) (λ w. grind (arith, settles-message, promised-message)) in
          let executes : (s : SagaInstance) → KeepsFor b (execute s) = λ s.
            bind-Keeps (save_saga p (record s { current_step = some step })) (λ s'. fn >> leave s')
              (Same-Keeps (save_saga p (record s { current_step = some step }))
                (save_saga-Same (record s { current_step = some step })))
              (λ s'. bind_first-Keeps fn (λ u. leave s') h (λ u. leaves s')) in
          option-Keeps (find_saga p (λ r. r.id == i)) (throw (plain ("Saga not found: " <+> i)))
            (λ saga. if any (λ s. s == step) saga.completed_steps then pure tt else execute saga)
            still still
            (λ saga.
              if-Keeps (any (λ s. s == step) saga.completed_steps) (pure tt) (execute saga) still
                (executes saga))

  pub execute_saga_step-Keeps :
      {b : Option OrderCreatedEvent} (i step : String) (fn : Action (Unit {0}))
      → KeepsFor b fn
      → KeepsFor b (execute_saga_step p i step fn)
  unfolding execute_saga_step
  execute_saga_step-Keeps i step fn h =
      let k = "saga_step:" <+> i <+> ":" <+> step in
      catch-Keeps (with_lock p k (run_saga_step p i step fn) step_options) (on_step_error p i step)
        (with_lock-Keeps k (run_saga_step p i step fn) step_options
          (run_saga_step-Keeps i step fn h))
        (λ e. Same-Keeps (on_step_error p i step e) (on_step_error-Same p i step e))
