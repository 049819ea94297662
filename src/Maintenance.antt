-- ===== src/Maintenance.antt =====
-- src/saga/saga-maintenance.controller.ts: the clean-up of orders that wait without a payment.
pub mod Cleanup
pub mod Settled
pub mod Health
use nestjs_cqrs_saga.Prelude.{
  ℕ, String, Bool, true, false, not, Option, none, some, List, [], ◌∷◌, ◌++◌, ◌<◌, ◌==◌, ◌<+>◌,
  length, if◌then◌else◌,
}
use nestjs_cqrs_saga.Outcome.{ok, Error, message_of}
use nestjs_cqrs_saga.Entity.{Order, OrderStatus, Payment, PaymentStatus, SagaInstance, SagaStatus}
use nestjs_cqrs_saga.World.{World, Platform, Action, pure, ◌>>=◌, ◌>>◌, catch}
use nestjs_cqrs_saga.Store.{find_payment, save_saga}
use nestjs_cqrs_saga.Order.{execute_cancel}

-- An entry of the report.
pub record CleanupResult : Type 0 where
  pub order_id : String
  pub action : String
  pub reason : String

-- `order.status === OrderStatus.PENDING`
abbrev pub is_pending : OrderStatus → Bool
is_pending OrderStatus.pending = true
is_pending _ = false

-- A template prints a missing reason as `null`.
abbrev pub show_reason : Option String → String
show_reason none = "null"
show_reason (some r) = r

-- The cancel command of the clean-up.
unfoldable pub cancel_pending : Platform → Order → (reason : String) → Action (Unit {0})
cancel_pending p order reason = execute_cancel p (record {
  order_id = order.id;
  user_id = order.user_id;
  reason = some reason;
  correlation_id = none;
})

-- What follows on the cancellation of an order whose payment failed.
unfoldable pub compensate_saga_of : Platform → Order → Action (Unit {0})
compensate_saga_of p order w = elim (p.find_saga_of_order order.id w.sagas) [
  | none ↦ (ok tt, w)
  | some saga ↦
      (save_saga p (record saga {
        status = SagaStatus.compensated;
        compensation_steps = saga.compensation_steps ++ "order_cancelled_cleanup" ∷ [];
      })
          >> pure tt)
        w
]

-- The branch of a payment that is found.
unfoldable pub cleanup_paid :
    PaymentStatus → Platform → Order → Payment → Action (List CleanupResult)
cleanup_paid PaymentStatus.failed p order payment = do
  cancel_pending p order ("Cleanup: Payment failed - " <+> show_reason payment.failure_reason)
  compensate_saga_of p order
  pure (record { order_id = order.id; action = "cancelled"; reason = "Payment failed" } ∷ [])
cleanup_paid _ p order payment = pure []

-- The branch of no payment.
unfoldable pub cleanup_unpaid : Platform → Order → Action (List CleanupResult)
cleanup_unpaid p order = do
  cancel_pending p order "Cleanup: No payment record found"
  pure (record { order_id = order.id; action = "cancelled"; reason = "No payment record" } ∷ [])

-- The body of the loop, an error included.
unfoldable pub cleanup_order : Platform → Order → Action (List CleanupResult)
cleanup_order p order =
    catch
      (find_payment p (λ r. r.order_id == order.id) >>= λ found. elim found [
        | none ↦ cleanup_unpaid p order
        | some payment ↦ cleanup_paid payment.status p order payment
      ])
      (λ e. pure (record { order_id = order.id; action = "error"; reason = message_of e } ∷ []))

-- The loop, by the orders that are left.
unfoldable pub cleanup_orders : Platform → List Order → Action (List CleanupResult)
cleanup_orders p [] = pure []
cleanup_orders p (o ∷ os) = do
  results ← cleanup_order p o
  rest ← cleanup_orders p os
  pure (results ++ rest)

pub record CleanupReport : Type 0 where
  pub processed : ℕ
  pub results : List CleanupResult

-- `cleanupPendingOrders`
unfoldable pub cleanup_pending_orders : Platform → Action CleanupReport
cleanup_pending_orders p w =
    (cleanup_orders p (p.orders.find (λ r. is_pending r.status) w.orders) >>= λ results.
    pure (record { processed = length results; results = results }))
      w
