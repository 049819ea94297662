-- ===== src/Maintenance/Cleanup.antt =====
-- `cleanupPendingOrders` of src/saga/saga-maintenance.controller.ts: the report, and the
-- orders that are paid or being paid.
use nestjs_cqrs_saga.Prelude.{
  length, String, ◌≡◌, ◌≢◌, refl, ◌∙◌, ap, inl, inr, Option, none, some, List, [], ◌∷◌, ◌++◌, ◌==◌,
  ◌&&◌, ◌<+>◌, arith, Option-cases, Bool-cases, eq_iff,
}
use nestjs_cqrs_saga.Outcome.{Outcome, ok, err, Error, Outcome-cases}
use nestjs_cqrs_saga.Table.{lookup-upsert}
use nestjs_cqrs_saga.Entity.{Order, OrderStatus, Payment, PaymentStatus, CancelOrderCommand}
use nestjs_cqrs_saga.World.{World, Platform}
use nestjs_cqrs_saga.Order.{execute_cancel, cancel_by_status, cancel_order}
use nestjs_cqrs_saga.Order.Transitions.{order_by}
use nestjs_cqrs_saga.Maintenance.{
  CleanupResult, CleanupReport, cancel_pending, compensate_saga_of, cleanup_paid, cleanup_unpaid,
  cleanup_order, cleanup_orders, cleanup_pending_orders, is_pending, show_reason,
}

-- A `try` whose `catch` returns a value returns.
catch_total :
    {A : Type 0} (r : Outcome A × World) (f : Error → A)
    → (a : A) × ((elim r.0 as (λ x. Outcome A × World) [
      | ok a ↦ (ok a, r.1)
      | err e ↦ (ok (f e), r.1)
    ]).0
        ≡ ok a)
catch_total (ok a, w) f = (a, refl)
catch_total (err e, w) f = (f e, refl)

-- The payment that the clean-up finds for an order.
abbrev pub payment_for : Platform → String → World → Option Payment
payment_for p i w = p.payments.find_one (λ r. r.order_id == i) w.payments

module _ (p : Platform) where
  pub cleanup_order_total :
      (o : Order) (w : World) → (r : List CleanupResult) × ((cleanup_order p o w).0 ≡ ok r)
  unfolding cleanup_order
  cleanup_order_total o w = catch_total _ _

  pub cleanup_orders_total :
      (os : List Order) (w : World) → (r : List CleanupResult) × ((cleanup_orders p os w).0 ≡ ok r)
  unfolding cleanup_orders
  cleanup_orders_total [] w = ([], refl)
  cleanup_orders_total (o ∷ os) w =
      let (r, e) = cleanup_order_total o w in
      let (rs, es) = cleanup_orders_total os (cleanup_order p o w).1 in
      (r ++ rs, ground (arith, e, es))

  -- A cancellation leaves the orders under other identifiers, and all payments, as they are.
  execute_cancel-others :
      (c : CancelOrderCommand) (i : String) (w : World)
      → c.order_id ≢ i
      → (order_by i (execute_cancel p c w).1 ≡ order_by i w)
        × ((execute_cancel p c w).1.payments ≡ w.payments)
  unfolding execute_cancel cancel_by_status cancel_order
  execute_cancel-others c i w other =
      elim (Option-cases
        (p.orders.find_one (λ r. r.id == c.order_id && r.user_id == c.user_id) w.orders)) [
          | inl e ↦ ground arith
          | inr (r, e) ↦
              let r' : Order = record r { status = OrderStatus.cancelled } in
              let matches = (p.orders.find_one_sound _ w.orders r e).0 in
              elim (Outcome-cases (p.orders.save r' w.orders)) [
                | inl ((x, t), h) ↦ ground (
                  arith,
                  matches,
                  eq_iff r.id c.order_id,
                  eq_iff r.id i,
                  p.orders.save_ok r' x w.orders t h,
                  lookup-upsert (λ (r : Order). r.id) i r' w.orders,
                )
                | inr (x, h) ↦ ground arith
              ]
        ]

  execute_cancel-payments :
      (c : CancelOrderCommand) (w : World) → (execute_cancel p c w).1.payments ≡ w.payments
  unfolding execute_cancel cancel_by_status cancel_order
  execute_cancel-payments c w = ground arith

  pub compensate_saga_of-sagas :
      (o : Order) (w : World)
      → (compensate_saga_of p o w).1 ≡ record w { sagas = (compensate_saga_of p o w).1.sagas }
  unfolding compensate_saga_of
  compensate_saga_of-sagas o w = ground arith

  -- The command by which the clean-up cancels an order.
  abbrev pub cleanup_command : Order → String → CancelOrderCommand
  cleanup_command o reason = record {
    order_id = o.id;
    user_id = o.user_id;
    reason = some reason;
    correlation_id = none;
  }

  -- The clean-up of one order leaves the payments, and the orders under other identifiers.
  pub cleanup_order-others :
      (o : Order) (i : String) (w : World)
      → o.id ≢ i
      → ((cleanup_order p o w).1.payments ≡ w.payments)
        × (order_by i (cleanup_order p o w).1 ≡ order_by i w)
  unfolding cleanup_order cleanup_paid cleanup_unpaid cancel_pending
  cleanup_order-others o i w other = elim (Option-cases (payment_for p o.id w)) [
    | inl e ↦ ground (
      arith,
      execute_cancel-others (cleanup_command o "Cleanup: No payment record found") i w other,
    )
    | inr (pay, e) ↦
        let c =
          cleanup_command o ("Cleanup: Payment failed - " <+> show_reason pay.failure_reason) in
        ground (
          arith,
          execute_cancel-others c i w other,
          compensate_saga_of-sagas o (execute_cancel p c w).1,
        )
  ]

  pub cleanup_order-payments :
      (o : Order) (w : World) → (cleanup_order p o w).1.payments ≡ w.payments
  unfolding cleanup_order cleanup_paid cleanup_unpaid cancel_pending
  cleanup_order-payments o w = elim (Option-cases (payment_for p o.id w)) [
    | inl e ↦
        ground
          (arith, execute_cancel-payments (cleanup_command o "Cleanup: No payment record found") w)
    | inr (pay, e) ↦
        let c =
          cleanup_command o ("Cleanup: Payment failed - " <+> show_reason pay.failure_reason) in
        ground
          (arith, execute_cancel-payments c w, compensate_saga_of-sagas o (execute_cancel p c w).1)
  ]

  -- An order whose payment has not failed is left.
  pub cleanup_order-same :
      (o : Order) (pay : Payment) (w : World)
      → payment_for p o.id w ≡ some pay
      → pay.status ≢ PaymentStatus.failed
      → (cleanup_order p o w).1 ≡ w
  unfolding cleanup_order cleanup_paid
  cleanup_order-same o pay w e open_payment = ground arith

  spares :
      (os : List Order) (i : String) (pay : Payment) (w : World)
      → payment_for p i w ≡ some pay
      → pay.status ≢ PaymentStatus.failed
      → order_by i (cleanup_orders p os w).1 ≡ order_by i w
  unfolding cleanup_orders
  spares [] i pay w e open_payment = refl
  spares (o ∷ os) i pay w e open_payment =
      let v = (cleanup_order p o w).1 in
      elim (Bool-cases (o.id == i)) [
        | inl same ↦ ground (
          arith,
          cleanup_order_total o w,
          cleanup_orders_total os v,
          eq_iff o.id i,
          cleanup_order-same o pay w (rw ((eq_iff o.id i).0 same) e) open_payment,
          spares os i pay w e open_payment,
        )
        | inr differ ↦
            let kept = cleanup_order-others o i w (λ h. ground (arith, eq_iff o.id i)) in
            ground (
              arith,
              cleanup_order_total o w,
              cleanup_orders_total os v,
              kept,
              spares os i pay v (ap (p.payments.find_one (λ r. r.order_id == i)) kept.0 ∙ e)
                  open_payment,
            )
      ]

  -- The clean-up always returns a report, whatever fails on the way, and an order for which a payment
  -- is found that has not failed is the same afterwards.
  pub cleanup_pending_orders-spares :
      (i : String) (pay : Payment) (w : World)
      → payment_for p i w ≡ some pay
      → pay.status ≢ PaymentStatus.failed
      → ((report : CleanupReport) × ((cleanup_pending_orders p w).0 ≡ ok report))
        × (order_by i (cleanup_pending_orders p w).1 ≡ order_by i w)
  unfolding cleanup_pending_orders
  cleanup_pending_orders-spares i pay w e open_payment =
      let os = p.orders.find (λ r. is_pending r.status) w.orders in
      let (rs, h) = cleanup_orders_total os w in
      (
        (record { processed = length rs; results = rs }, ground (arith, h)),
        ground (arith, h, spares os i pay w e open_payment),
      )
