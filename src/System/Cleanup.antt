-- ===== src/System/Cleanup.antt =====
-- The clean-up of src/saga/saga-maintenance.controller.ts along a trail.
use nestjs_cqrs_saga.Prelude.{◌<+>◌, length, ◌==◌, String, none, some, List, [], ◌∷◌, ◌++◌}
use nestjs_cqrs_saga.Outcome.{message_of}
use nestjs_cqrs_saga.Entity.{Order, Payment, PaymentStatus, CancelOrderCommand}
use nestjs_cqrs_saga.World.{Platform, Action, ◌>>=◌, ◌>>◌, pure}
use nestjs_cqrs_saga.Order.{execute_cancel}
use nestjs_cqrs_saga.Store.{find_payment}
use nestjs_cqrs_saga.Maintenance.{
  CleanupResult, cancel_pending, compensate_saga_of, cleanup_paid, cleanup_unpaid, cleanup_order,
  cleanup_orders, cleanup_pending_orders, is_pending, show_reason,
}
use nestjs_cqrs_saga.System.Frame.{compensate_saga_of-Same}
use nestjs_cqrs_saga.System.Trail.{
  Trail, Keeps, Same-Keeps, bind-Keeps, catch-Keeps, option-Keeps, still,
}

module _ (p : Platform) (t : Trail p) where
  cleanup_paid-Keeps :
      (k : PaymentStatus) (o : Order) (payment : Payment) → Keeps p t (cleanup_paid k p o payment)
  unfolding cleanup_paid cancel_pending
  cleanup_paid-Keeps PaymentStatus.failed o payment =
      let command : CancelOrderCommand = record {
        order_id = o.id;
        user_id = o.user_id;
        reason = some ("Cleanup: Payment failed - " <+> show_reason payment.failure_reason);
        correlation_id = none;
      } in
      let report : Action (List CleanupResult) =
        pure (record { order_id = o.id; action = "cancelled"; reason = "Payment failed" } ∷ []) in
      bind-Keeps p t (execute_cancel p command) (λ u. compensate_saga_of p o >> report)
        (t.cancels command)
        (λ u.
          bind-Keeps p t (compensate_saga_of p o) (λ v. report)
            (Same-Keeps p t (compensate_saga_of p o) (compensate_saga_of-Same p o))
            (λ v. still p t))
  cleanup_paid-Keeps _ o payment = still p t

  cleanup_order-Keeps : (o : Order) → Keeps p t (cleanup_order p o)
  unfolding cleanup_order cleanup_unpaid cancel_pending
  cleanup_order-Keeps o =
      let command : String → CancelOrderCommand = λ (reason : String). record {
        order_id = o.id;
        user_id = o.user_id;
        reason = some reason;
        correlation_id = none;
      } in
      let report : String → Action (List CleanupResult) = λ (reason : String).
        pure (record { order_id = o.id; action = "cancelled"; reason = reason } ∷ []) in
      let find = find_payment p (λ r. r.order_id == o.id) in
      catch-Keeps p t
        (find >>= λ found. elim found [
          | none ↦ cleanup_unpaid p o
          | some payment ↦ cleanup_paid payment.status p o payment
        ])
        (λ e. pure (record { order_id = o.id; action = "error"; reason = message_of e } ∷ []))
        (option-Keeps p t find (cleanup_unpaid p o)
          (λ payment. cleanup_paid payment.status p o payment) (still p t)
          (bind-Keeps p t (execute_cancel p (command "Cleanup: No payment record found"))
            (λ u. report "No payment record")
            (t.cancels (command "Cleanup: No payment record found")) (λ u. still p t))
          (λ payment. cleanup_paid-Keeps payment.status o payment))
        (λ e. still p t)

  cleanup_orders-Keeps : (os : List Order) → Keeps p t (cleanup_orders p os)
  unfolding cleanup_orders
  cleanup_orders-Keeps [] = still p t
  cleanup_orders-Keeps (o ∷ os) =
      bind-Keeps p t (cleanup_order p o) (λ rs. cleanup_orders p os >>= λ rest. pure (rs ++ rest))
        (cleanup_order-Keeps o)
        (λ rs.
          bind-Keeps p t (cleanup_orders p os) (λ rest. pure (rs ++ rest)) (cleanup_orders-Keeps os)
            (λ rest. still p t))

  pub cleanup_pending_orders-Keeps : Keeps p t (cleanup_pending_orders p)
  unfolding cleanup_pending_orders
  cleanup_pending_orders-Keeps w =
      let os = p.orders.find (λ r. is_pending r.status) w.orders in
      bind-Keeps p t (cleanup_orders p os)
        (λ rs. pure (record { processed = length rs; results = rs })) (cleanup_orders-Keeps os)
        (λ rs. still p t) w
