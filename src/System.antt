-- ===== src/System.antt =====
-- The running service: requests, callbacks of `setImmediate` and events of the bus in any order, as
-- steps on the shared state.
pub mod Frame
pub mod Trail
pub mod Cleanup
pub mod Methods
pub mod Orders
pub mod Log
pub mod Settlement
pub mod Payments
pub mod Charges
pub mod Bills
use nestjs_cqrs_saga.Prelude.{String, ◌≡◌, Bool, List, [], ◌∷◌, ◌++◌}
use nestjs_cqrs_saga.Entity.{BusEvent, CreateOrderCommand, CancelOrderCommand, ConfirmOrderCommand}
use nestjs_cqrs_saga.Entity.{RefundPaymentCommand}
use nestjs_cqrs_saga.World.{
  World, Platform, Action, Task, publish_all, publish_message, settle_payment, modify,
}
use nestjs_cqrs_saga.Kafka.{publish}
use nestjs_cqrs_saga.Order.{execute_create, execute_cancel, execute_confirm}
use nestjs_cqrs_saga.Payment.{execute_refund, settle}
use nestjs_cqrs_saga.Handlers.{handlers}
use nestjs_cqrs_saga.Maintenance.{cleanup_pending_orders}

-- A callback of `setImmediate`; `is_success` is the payment simulation's random choice.
unfoldable pub run_task : Platform → (is_success : Bool) → Task → Action (Unit {0})
run_task p b (publish_all es) = modify (λ w. record w { bus = w.bus ++ es })
run_task p b (publish_message topic body) = publish p topic body
run_task p b (settle_payment payment c) = settle p payment c b

-- The handlers of one event, one after the other; an exception in one stops no other.
unfoldable pub run_handlers : List (Action (Unit {0})) → World → World
run_handlers [] w = w
run_handlers (h ∷ hs) w = run_handlers hs (h w).1

-- One step: a command of a request or the clean-up, whether it returns or throws; a callback that was deferred, in
-- any order; or an event of the bus, in any order, which is gone afterwards.
pub data Step (p : Platform) : World → World → Type 0 where
  create : {w : World} → (c : CreateOrderCommand) → Step p w (execute_create p c w).1
  cancel : {w : World} → (c : CancelOrderCommand) → Step p w (execute_cancel p c w).1
  confirm : {w : World} → (c : ConfirmOrderCommand) → Step p w (execute_confirm p c w).1
  cleanup : {w : World} → Step p w (cleanup_pending_orders p w).1
  refund : {w : World} → (c : RefundPaymentCommand) → Step p w (execute_refund p c w).1
  run :
      {w : World}
      → (is_success : Bool) (t : Task) (before after : List Task) → w.deferred ≡ before ++ t ∷ after
      → Step p w (run_task p is_success t (record w { deferred = before ++ after })).1
  deliver :
      {w : World}
      → (e : BusEvent) (before after : List BusEvent) → w.bus ≡ before ++ e ∷ after
      → Step p w (run_handlers (handlers p e) (record w { bus = before ++ after }))

-- A run of the service.
pub data Run (p : Platform) : World → World → Type 0 where
  done : {w : World} → Run p w w
  next : {u v w : World} → Step p u v → Run p v w → Run p u w
