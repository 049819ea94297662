-- ===== src/Order/Transitions.antt =====
-- The life of an order under the commands of src/order/commands/handlers/order.handlers.ts.
use nestjs_cqrs_saga.Prelude.{
  String, ◌≡◌, ◌≢◌, refl, sym, ◌⊎◌, inl, inr, Bool, Option, none, some, List, arith, ◌==◌, ◌&&◌,
  Option-cases, Bool-cases, subst, if◌then◌else◌, eq_iff,
}
use nestjs_cqrs_saga.Outcome.{Outcome-cases}
use nestjs_cqrs_saga.Table.{lookup, upsert, lookup-upsert, IsKeyed, lookup-Holds, upsert-IsKeyed}
use nestjs_cqrs_saga.Entity.{
  Order, OrderStatus, CancelOrderCommand, ConfirmOrderCommand, CreateOrderCommand,
}
use nestjs_cqrs_saga.World.{World, Platform}
use nestjs_cqrs_saga.Store.{save_order}
use nestjs_cqrs_saga.Order.{
  execute_cancel, execute_confirm, execute_create, reduce_items, cancel_order, confirm_order,
  cancel_by_status, confirm_by_status, create_order, try_create, on_create_error,
}

-- The steps of an order's status that the program makes.
pub data StatusMove : OrderStatus → OrderStatus → Type 0 where
  stay : {s : OrderStatus} → StatusMove s s
  pay : {s t : OrderStatus} → s ≡ OrderStatus.pending → t ≡ OrderStatus.paid → StatusMove s t
  cancel :
      {s t : OrderStatus}
      → s ≢ OrderStatus.cancelled
      → s ≢ OrderStatus.delivered
      → t ≡ OrderStatus.cancelled
      → StatusMove s t

-- What may become of the row under one identifier: nothing; a new pending order; or a step of its
-- status, by which a payment may be noted and nothing else changes.
abbrev pub Moves : Option Order → Option Order → Type 0
Moves none none = Unit {0}
Moves none (some s) = s.status ≡ OrderStatus.pending
Moves (some r) none = ⊥
Moves (some r) (some s) =
    StatusMove r.status s.status
    × (s.id ≡ r.id)
    × (s.user_id ≡ r.user_id)
    × (s.total_amount ≡ r.total_amount)
    × (s.items ≡ r.items)
    × (s.shipping_address ≡ r.shipping_address)
    × (s.idempotency_key ≡ r.idempotency_key)

Moves-refl : (o : Option Order) → Moves o o
Moves-refl none = tt
Moves-refl (some r) = (stay, refl, refl, refl, refl, refl, refl)

-- The order under an identifier.
abbrev pub order_by : String → World → Option Order
order_by i w = lookup (λ r. r.id) i w.orders

-- What may become of the table: every row moves, and identifiers stay unique.
abbrev pub OrdersMove : List Order → List Order → Type 0
OrdersMove t t' =
    ((i : String) → Moves (lookup (λ r. r.id) i t) (lookup (λ r. r.id) i t'))
    × (IsKeyed (λ r. r.id) t → IsKeyed (λ r. r.id) t')

OrdersMove-refl : (t : List Order) → OrdersMove t t
OrdersMove-refl t = (λ i. Moves-refl (lookup (λ r. r.id) i t), λ h. h)

-- What a write does to the rows, in terms of a reflexive relation on the row under an identifier.
module _ (R : Option Order → Option Order → Type 0) (R-refl : (o : Option Order) → R o o) where
  abbrev pub RowsMove : List Order → List Order → Type 0
  RowsMove t t' =
      ((i : String) → R (lookup (λ r. r.id) i t) (lookup (λ r. r.id) i t'))
      × (IsKeyed (λ r. r.id) t → IsKeyed (λ r. r.id) t')

  pub RowsMove-refl : (t : List Order) → RowsMove t t
  RowsMove-refl t = (λ i. R-refl (lookup (λ r. r.id) i t), λ h. h)

  upsert-RowsMove :
      (r : Order) (t : List Order)
      → R (lookup (λ x. x.id) r.id t) (some r)
      → RowsMove t (upsert (λ x. x.id) r t)
  upsert-RowsMove r t m =
      (λ i. rw (lookup-upsert (λ (x : Order). x.id) i r t) (at i), upsert-IsKeyed (λ x. x.id) r t)
    where
      at :
          (i : String)
          → R (lookup (λ x. x.id) i t) (if r.id == i then some r else lookup (λ x. x.id) i t)
      at i = elim (Bool-cases (r.id == i)) [
        | inl e ↦ rw e (subst (λ j. R (lookup (λ x. x.id) j t) (some r)) ((eq_iff r.id i).0 e) m)
        | inr e ↦ rw e (R-refl (lookup (λ x. x.id) i t))
      ]

  pub save_order-RowsMove :
      (p : Platform) (r : Order) (w : World)
      → R (order_by r.id w) (some r)
      → RowsMove w.orders (save_order p r w).1.orders
  save_order-RowsMove p r w m = elim (Outcome-cases (p.orders.save r w.orders)) [
    | inl ((r', t'), e) ↦
        let same : (save_order p r w).1.orders ≡ upsert (λ x. x.id) r w.orders =
          ground (arith, p.orders.save_ok r r' w.orders t' e) in
        subst (RowsMove w.orders) (sym same) (upsert-RowsMove r w.orders m)
    | inr (x, e) ↦
        let same : (save_order p r w).1.orders ≡ w.orders = ground arith in
        subst (RowsMove w.orders) (sym same) (RowsMove-refl w.orders)
  ]

module _ (p : Platform) where
  save_order-OrdersMove :
      (r : Order) (w : World)
      → Moves (order_by r.id w) (some r)
      → OrdersMove w.orders (save_order p r w).1.orders
  save_order-OrdersMove = save_order-RowsMove Moves Moves-refl p

  -- The order that a query finds is the one under its identifier.
  pub found-order_by :
      (test : Order → Bool) (r : Order) (w : World)
      → IsKeyed (λ r. r.id) w.orders
      → p.orders.find_one test w.orders ≡ some r
      → order_by r.id w ≡ some r
  found-order_by test r w keyed e =
      lookup-Holds (λ (r : Order). r.id) r w.orders keyed
        (p.orders.find_one_sound test w.orders r e).1

  confirm_by_status-OrdersMove :
      (k : OrderStatus) (c : ConfirmOrderCommand) (r : Order) (w : World)
      → r.status ≡ k
      → order_by r.id w ≡ some r
      → OrdersMove w.orders (confirm_by_status k p c r w).1.orders
  unfolding confirm_by_status confirm_order
  confirm_by_status-OrdersMove OrderStatus.pending c r w k e =
      let r' = record r { status = OrderStatus.paid; payment_id = some c.payment_id } in
      let m = save_order-OrdersMove r' w (rw e (pay k refl, refl, refl, refl, refl, refl, refl)) in
      let same : (confirm_by_status OrderStatus.pending p c r w).1.orders
          ≡ (save_order p r' w).1.orders =
        ground arith in
      subst (OrdersMove w.orders) (sym same) m
  confirm_by_status-OrdersMove _ c r w k e = OrdersMove-refl w.orders

  cancel_order-OrdersMove :
      (c : CancelOrderCommand) (r : Order) (w : World)
      → r.status ≢ OrderStatus.cancelled
      → r.status ≢ OrderStatus.delivered
      → order_by r.id w ≡ some r
      → OrdersMove w.orders (cancel_order p c r w).1.orders
  unfolding cancel_order
  cancel_order-OrdersMove c r w a b e =
      let r' = record r { status = OrderStatus.cancelled } in
      let m =
        save_order-OrdersMove r' w (rw e (cancel a b refl, refl, refl, refl, refl, refl, refl)) in
      let same : (cancel_order p c r w).1.orders ≡ (save_order p r' w).1.orders = ground arith in
      subst (OrdersMove w.orders) (sym same) m

  cancel_by_status-OrdersMove :
      (k : OrderStatus) (c : CancelOrderCommand) (r : Order) (w : World)
      → r.status ≡ k
      → order_by r.id w ≡ some r
      → OrdersMove w.orders (cancel_by_status k p c r w).1.orders
  unfolding cancel_by_status
  cancel_by_status-OrdersMove OrderStatus.cancelled c r w k e = OrdersMove-refl w.orders
  cancel_by_status-OrdersMove OrderStatus.delivered c r w k e = OrdersMove-refl w.orders
  cancel_by_status-OrdersMove _ c r w k e =
      cancel_order-OrdersMove c r w (ground arith) (ground arith) e

  -- Confirming an order, on every branch, at most takes one pending order to `paid`.
  pub execute_confirm-OrdersMove :
      (c : ConfirmOrderCommand) (w : World)
      → IsKeyed (λ r. r.id) w.orders
      → OrdersMove w.orders (execute_confirm p c w).1.orders
  unfolding execute_confirm
  execute_confirm-OrdersMove c w keyed =
      elim (Option-cases (p.orders.find_one (λ r. r.id == c.order_id) w.orders)) [
        | inl e ↦ rw e (OrdersMove-refl w.orders)
        | inr (r, e) ↦
            rw e (confirm_by_status-OrdersMove r.status c r w refl (found-order_by _ r w keyed e))
      ]

  -- Cancelling an order, on every branch, at most takes one order that is neither cancelled nor
  -- delivered to `cancelled`.
  pub execute_cancel-OrdersMove :
      (c : CancelOrderCommand) (w : World)
      → IsKeyed (λ r. r.id) w.orders
      → OrdersMove w.orders (execute_cancel p c w).1.orders
  unfolding execute_cancel
  execute_cancel-OrdersMove c w keyed =
      elim (Option-cases
        (p.orders.find_one (λ r. r.id == c.order_id && r.user_id == c.user_id) w.orders)) [
          | inl e ↦ rw e (OrdersMove-refl w.orders)
          | inr (r, e) ↦
              rw e (cancel_by_status-OrdersMove r.status c r w refl (found-order_by _ r w keyed e))
        ]

  pub create_order-OrdersMove :
      (c : CreateOrderCommand) (w : World) → OrdersMove w.orders (create_order p c w).1.orders
  unfolding create_order
  create_order-OrdersMove c w =
      let n : Order = record {
        id = p.orders.generate w.orders;
        user_id = c.user_id;
        total_amount = reduce_items 0 c.items;
        status = OrderStatus.pending;
        items = c.items;
        payment_id = none;
        shipping_address = c.shipping_address;
        idempotency_key = c.correlation_id;
      } in
      let m = save_order-OrdersMove n w (rw (p.orders.generate_fresh w.orders)) in
      let same : (create_order p c w).1.orders ≡ (save_order p n w).1.orders = ground arith in
      subst (OrdersMove w.orders) (sym same) m

  created_or_same :
      (c : CreateOrderCommand) (w : World)
      → ((execute_create p c w).1.orders ≡ w.orders)
        ⊎ ((execute_create p c w).1.orders ≡ (create_order p c w).1.orders)
  unfolding execute_create try_create on_create_error
  created_or_same c w = ground arith

  -- Creating an order, on every branch, at most adds one pending order under a new identifier.
  pub execute_create-OrdersMove :
      (c : CreateOrderCommand) (w : World) → OrdersMove w.orders (execute_create p c w).1.orders
  execute_create-OrdersMove c w = elim (created_or_same c w) [
    | inl e ↦ subst (OrdersMove w.orders) (sym e) (OrdersMove-refl w.orders)
    | inr e ↦ subst (OrdersMove w.orders) (sym e) (create_order-OrdersMove c w)
  ]
