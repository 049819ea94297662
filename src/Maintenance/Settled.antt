-- ===== src/Maintenance/Settled.antt =====
-- `cleanupPendingOrders` of src/saga/saga-maintenance.controller.ts: the pending orders
-- whose payment failed or was not made.
use nestjs_cqrs_saga.Prelude.{
  String, ◌≡◌, ◌≢◌, refl, sym, ◌∙◌, ap, subst, ◌⊎◌, inl, inr, Option, none, some, List, [], ◌∷◌,
  ◌==◌, ◌&&◌, ◌<+>◌, arith, Option-cases, Bool-cases, eq_iff,
}
use nestjs_cqrs_saga.Outcome.{ok}
use nestjs_cqrs_saga.Table.{
  lookup, upsert, Holds, IsKeyed, lookup-Holds, false-Holds, lookup-upsert_at, key-lookup,
}
use nestjs_cqrs_saga.Entity.{
  Order, OrderStatus, Payment, PaymentStatus, PaymentStatus-discrete, CancelOrderCommand,
}
use nestjs_cqrs_saga.World.{World, Platform}
use nestjs_cqrs_saga.Order.{execute_cancel, cancel_by_status, cancel_order}
use nestjs_cqrs_saga.Order.Transitions.{order_by, execute_cancel-OrdersMove}
use nestjs_cqrs_saga.Maintenance.{
  cancel_pending, cleanup_paid, cleanup_unpaid, cleanup_order, cleanup_orders,
  cleanup_pending_orders, is_pending, show_reason,
}
use nestjs_cqrs_saga.Maintenance.Cleanup.{
  payment_for, cleanup_command, cleanup_order_total, cleanup_orders_total, cleanup_order-payments,
  cleanup_order-same, cleanup_order-others, compensate_saga_of-sagas,
}

-- The database accepts every order.
abbrev pub OrdersUp : Platform → Type 0
OrdersUp p = (r : Order) (t : List Order) → p.orders.save r t ≡ ok (r, upsert (λ x. x.id) r t)

-- No payment is found, or one that has failed.
abbrev pub IsUnpaid : Option Payment → Type 0
IsUnpaid none = Unit {0}
IsUnpaid (some pay) = pay.status ≡ PaymentStatus.failed

Holds-lookup :
    (i : String) (r : Order) (t : List Order) → lookup (λ x. x.id) i t ≡ some r → Holds r t
Holds-lookup i r [] e = cc
Holds-lookup i r (x ∷ t) e = elim (Bool-cases (x.id == i)) [
  | inl h ↦ inl (ground arith)
  | inr h ↦ inr (Holds-lookup i r t (ground arith))
]

module _ (p : Platform) (up : OrdersUp p) where
  -- The query of a cancellation finds the order that it is about, if it is its user's.
  finds_order :
      (i u : String) (o : Order) (w : World)
      → IsKeyed (λ r. r.id) w.orders
      → order_by i w ≡ some o
      → o.user_id ≡ u
      → p.orders.find_one (λ r. r.id == i && r.user_id == u) w.orders ≡ some o
  finds_order i u o w keyed e mine =
      let same = key-lookup (λ (r : Order). r.id) i w.orders o e in
      elim (Option-cases (p.orders.find_one (λ r. r.id == i && r.user_id == u) w.orders)) [
        | inl h ↦
            let no =
              false-Holds (λ r. r.id == i && r.user_id == u) o w.orders
                (p.orders.find_one_complete _ w.orders h) (Holds-lookup i o w.orders e) in
            absurd (ground (arith, no, eq_iff o.id i, eq_iff o.user_id u))
        | inr (r, h) ↦
            let found = p.orders.find_one_sound _ w.orders r h in
            let there = lookup-Holds (λ (r : Order). r.id) r w.orders keyed found.1 in
            ground (arith, found.0, eq_iff r.id i, there, e)
      ]

  abbrev cancelled : Order → Order
  cancelled o = record o { status = OrderStatus.cancelled }

  execute_cancel-settles :
      (c : CancelOrderCommand) (o : Order) (w : World)
      → IsKeyed (λ r. r.id) w.orders
      → order_by c.order_id w ≡ some o
      → o.user_id ≡ c.user_id
      → (o.status ≡ OrderStatus.pending) ⊎ (o.status ≡ OrderStatus.cancelled)
      → ((execute_cancel p c w).0 ≡ ok tt)
        × (order_by c.order_id (execute_cancel p c w).1 ≡ some (cancelled o))
  unfolding execute_cancel cancel_by_status cancel_order
  execute_cancel-settles c o w keyed e mine before = ground (
    arith,
    finds_order c.order_id c.user_id o w keyed e mine,
    up (cancelled o) w.orders,
    lookup-upsert_at (λ (r : Order). r.id) c.order_id (cancelled o) w.orders
        (key-lookup (λ (r : Order). r.id) c.order_id w.orders o e),
  )

  -- What the clean-up of an order makes of the orders.
  cleanup_order-orders :
      (o : Order) (w : World)
      → IsUnpaid (payment_for p o.id w)
      → (reason : String) × ((cleanup_order p o w).1.orders
          ≡ (execute_cancel p (cleanup_command p o reason) w).1.orders)
  unfolding cleanup_order cleanup_paid cleanup_unpaid cancel_pending
  cleanup_order-orders o w unpaid = elim (Option-cases (payment_for p o.id w)) [
    | inl e ↦ ("Cleanup: No payment record found", ground arith)
    | inr (pay, e) ↦
        let reason = "Cleanup: Payment failed - " <+> show_reason pay.failure_reason in
        let failed : pay.status ≡ PaymentStatus.failed = rw e at unpaid in
        (
          reason,
          ground (
            arith,
            failed,
            compensate_saga_of-sagas p o (execute_cancel p (cleanup_command p o reason) w).1,
          ),
        )
  ]

  cleanup_order-settles :
      (o x : Order) (w : World)
      → IsKeyed (λ r. r.id) w.orders
      → order_by o.id w ≡ some x
      → x.user_id ≡ o.user_id
      → (x.status ≡ OrderStatus.pending) ⊎ (x.status ≡ OrderStatus.cancelled)
      → IsUnpaid (payment_for p o.id w)
      → order_by o.id (cleanup_order p o w).1 ≡ some (cancelled x)
  cleanup_order-settles o x w keyed e mine before unpaid =
      let (reason, same) = cleanup_order-orders o w unpaid in
      ap (lookup (λ r. r.id) o.id) same
      ∙ (execute_cancel-settles (cleanup_command p o reason) x w keyed e mine before).1

  paid_or_not :
      (o : Option Payment)
      → IsUnpaid o ⊎ ((pay : Payment) × (o ≡ some pay) × (pay.status ≢ PaymentStatus.failed))
  paid_or_not none = inl tt
  paid_or_not (some pay) = elim (PaymentStatus-discrete pay.status PaymentStatus.failed) [
    | yes e ↦ inl e
    | no n ↦ inr (pay, refl, n)
  ]

  cleanup_order-IsKeyed :
      (o : Order) (w : World)
      → IsKeyed (λ r. r.id) w.orders
      → IsKeyed (λ r. r.id) (cleanup_order p o w).1.orders
  cleanup_order-IsKeyed o w keyed = elim (paid_or_not (payment_for p o.id w)) [
    | inl unpaid ↦
        let (reason, same) = cleanup_order-orders o w unpaid in
        subst (IsKeyed (λ r. r.id)) (sym same)
          ((execute_cancel-OrdersMove p (cleanup_command p o reason) w keyed).1 keyed)
    | inr (pay, e, n) ↦
        subst (λ v. IsKeyed (λ r. r.id) v.orders) (sym (cleanup_order-same p o pay w e n)) keyed
  ]

  -- The loop, about the order under one identifier.
  settles :
      (os : List Order) (i : String) (x : Order) (w : World)
      → IsKeyed (λ r. r.id) w.orders
      → order_by i w ≡ some x
      → IsUnpaid (payment_for p i w)
      → ((o : Order) → Holds o os → o.id ≡ i → x.user_id ≡ o.user_id)
      → (x.status ≡ OrderStatus.cancelled)
        ⊎ ((x.status ≡ OrderStatus.pending) × ((o : Order) × Holds o os × (o.id ≡ i)))
      → order_by i (cleanup_orders p os w).1 ≡ some (cancelled x)
  unfolding cleanup_orders
  settles [] i x w keyed e unpaid mine (inl c) = ground (arith, e, c)
  settles [] i x w keyed e unpaid mine (inr (_, (o, h, _))) = absurd h
  settles (o ∷ os) i x w keyed e unpaid mine todo =
      let v = (cleanup_order p o w).1 in
      let r = cleanup_order_total p o w in
      let rs = cleanup_orders_total p os v in
      let same_payment : payment_for p i v ≡ payment_for p i w =
        ap (p.payments.find_one (λ r. r.order_id == i)) (cleanup_order-payments p o w) in
      let still_unpaid = subst IsUnpaid (sym same_payment) unpaid in
      let still_keyed = cleanup_order-IsKeyed o w keyed in
      elim (Bool-cases (o.id == i)) [
        | inl h ↦
            let same = (eq_iff o.id i).0 h in
            let now =
              cleanup_order-settles o x w keyed (rw same e) (mine o (inl refl) same) (either x todo)
                (rw same unpaid) in
            let rest =
              settles os i (cancelled x) v still_keyed (rw (← same) now) still_unpaid
                (λ o h. mine o (inr h)) (inl refl) in
            ground (arith, r, rs, rest)
        | inr h ↦
            let other : o.id ≢ i = λ s. ground (arith, eq_iff o.id i) in
            let rest =
              settles os i x v still_keyed ((cleanup_order-others p o i w other).1 ∙ e) still_unpaid
                (λ o h. mine o (inr h)) (later x o todo other) in
            ground (arith, r, rs, rest)
      ]
    where
      either :
          (x : Order)
          → (x.status ≡ OrderStatus.cancelled)
            ⊎ ((x.status ≡ OrderStatus.pending) × ((z : Order) × Holds z (o ∷ os) × (z.id ≡ i)))
          → (x.status ≡ OrderStatus.pending) ⊎ (x.status ≡ OrderStatus.cancelled)
      either x (inl c) = inr c
      either x (inr (c, _)) = inl c

      later :
          (x y : Order)
          → (x.status ≡ OrderStatus.cancelled)
            ⊎ ((x.status ≡ OrderStatus.pending) × ((z : Order) × Holds z (y ∷ os) × (z.id ≡ i)))
          → y.id ≢ i
          → (x.status ≡ OrderStatus.cancelled)
            ⊎ ((x.status ≡ OrderStatus.pending) × ((z : Order) × Holds z os × (z.id ≡ i)))
      later x y (inl c) n = inl c
      later x y (inr (c, (z, inl s, e))) n = absurd (n (ap (λ r. r.id) (sym s) ∙ e))
      later x y (inr (c, (z, inr h, e))) n = inr (c, (z, h, e))

  -- Where primary keys are unique and the database accepts every order, the clean-up ends with every
  -- pending order cancelled for which no payment is found or one that has failed, and with nothing
  -- else of the order changed.
  pub cleanup_pending_orders-settles :
      (i : String) (o : Order) (w : World)
      → IsKeyed (λ r. r.id) w.orders
      → order_by i w ≡ some o
      → o.status ≡ OrderStatus.pending
      → IsUnpaid (payment_for p i w)
      → order_by i (cleanup_pending_orders p w).1
        ≡ some (record o { status = OrderStatus.cancelled })
  unfolding cleanup_pending_orders
  cleanup_pending_orders-settles i o w keyed e pending unpaid =
      let os = p.orders.find (λ r. is_pending r.status) w.orders in
      let same = key-lookup (λ (r : Order). r.id) i w.orders o e in
      let there =
        p.orders.find_complete (λ r. is_pending r.status) w.orders o (Holds-lookup i o w.orders e)
          (ground (arith, pending)) in
      let mine : (z : Order) → Holds z os → z.id ≡ i → o.user_id ≡ z.user_id = λ z h s.
        let found =
          lookup-Holds (λ (r : Order). r.id) z w.orders keyed
            (p.orders.find_sound (λ r. is_pending r.status) w.orders z h).1 in
        ground (arith, found, e, s) in
      let all = settles os i o w keyed e unpaid mine (inr (pending, (o, there, same))) in
      ground (arith, cleanup_orders_total p os w, all)
