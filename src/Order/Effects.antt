-- ===== src/Order/Effects.antt =====
-- What the cancel and confirm commands of src/order/commands/handlers/order.handlers.ts store and
-- announce.
use nestjs_cqrs_saga.Prelude.{
  String, ◌≡◌, ◌≢◌, refl, Option, some, List, [], ◌∷◌, ◌++◌, arith, ◌==◌, ◌&&◌, eq_iff,
}
use nestjs_cqrs_saga.Outcome.{ok, err, Error}
use nestjs_cqrs_saga.Table.{lookup-upsert_at, lookup-upsert_self, key-lookup}
use nestjs_cqrs_saga.Entity.{
  Order, OrderStatus, CancelOrderCommand, ConfirmOrderCommand, BusEvent, order_confirmed,
  order_cancelled, order_status_changed,
}
use nestjs_cqrs_saga.World.{World, Platform, publish_all}
use nestjs_cqrs_saga.Order.{
  execute_cancel, execute_confirm, cancel_order, confirm_order, cancel_by_status, confirm_by_status,
  correlation_or_new,
}
use nestjs_cqrs_saga.Order.Transitions.{order_by}

-- The events of a change of status, which `correlationId || uuidv4()` labels one by one.
abbrev pub status_event :
    Platform → World → String → Option String → OrderStatus → OrderStatus → BusEvent
status_event p w i c s t = order_status_changed (record {
  order_id = i;
  previous_status = s;
  new_status = t;
  correlation_id = correlation_or_new p 1 c w;
  occurred_at = w.now;
})

module _ (p : Platform) (w : World) (o r' : Order) (t : List Order) where
  -- A pending order that is confirmed is stored as paid with the payment's identifier, if the
  -- database accepts that, and the confirmation and the change of status are announced later
  -- together; nothing else changes.
  pub execute_confirm-pays :
      (c : ConfirmOrderCommand)
      → order_by c.order_id w ≡ some o
      → o.status ≡ OrderStatus.pending
      → p.orders.save
          (record o { status = OrderStatus.paid; payment_id = some c.payment_id })
          w.orders
        ≡ ok (r', t)
      → let (r, w') = execute_confirm p c w in
        let v : World = record w { orders = w'.orders } in
        (r ≡ ok tt)
        × (order_by c.order_id w'
            ≡ some (record o { status = OrderStatus.paid; payment_id = some c.payment_id }))
        × (w'.deferred
            ≡ w.deferred
              ++ publish_all (
                  order_confirmed (record {
                    order_id = c.order_id;
                    payment_id = c.payment_id;
                    total_amount = o.total_amount;
                    correlation_id = correlation_or_new p 0 c.correlation_id v;
                    occurred_at = w.now;
                  })
                  ∷ status_event p v c.order_id c.correlation_id OrderStatus.pending
                      OrderStatus.paid
                  ∷ [])
                ∷ [])
        × (w' ≡ record w { orders = w'.orders; deferred = w'.deferred })
  unfolding execute_confirm confirm_by_status confirm_order
  execute_confirm-pays c found pending saved =
      let o' : Order = record o { status = OrderStatus.paid; payment_id = some c.payment_id } in
      ground (
        arith,
        p.orders.find_one-key c.order_id w.orders,
        p.orders.save_ok o' r' w.orders t saved,
        lookup-upsert_at (λ (r : Order). r.id) c.order_id o' w.orders
            (key-lookup (λ (r : Order). r.id) c.order_id w.orders o found),
      )

  abbrev cancelled : Order
  cancelled = record o { status = OrderStatus.cancelled }

  cancel_by_status_lem :
      (k : OrderStatus) (c : CancelOrderCommand)
      → k ≢ OrderStatus.cancelled
      → k ≢ OrderStatus.delivered
      → cancel_by_status k p c o w ≡ cancel_order p c o w
  unfolding cancel_by_status
  cancel_by_status_lem OrderStatus.cancelled c a b = absurd (a refl)
  cancel_by_status_lem OrderStatus.delivered c a b = absurd (b refl)
  cancel_by_status_lem _ c a b = refl

  -- An order that the query by its identifier and its user finds, neither cancelled nor delivered, is
  -- stored as cancelled, if the database accepts that; it is the user's own, and the cancellation and
  -- the change from its former status are announced later together; nothing else changes.
  pub execute_cancel-cancels :
      (c : CancelOrderCommand)
      → p.orders.find_one (λ r. r.id == c.order_id && r.user_id == c.user_id) w.orders ≡ some o
      → o.status ≢ OrderStatus.cancelled
      → o.status ≢ OrderStatus.delivered
      → p.orders.save (record o { status = OrderStatus.cancelled }) w.orders ≡ ok (r', t)
      → let (r, w') = execute_cancel p c w in
        let v : World = record w { orders = w'.orders } in
        (r ≡ ok tt)
        × (o.user_id ≡ c.user_id)
        × (order_by c.order_id w' ≡ some (record o { status = OrderStatus.cancelled }))
        × (w'.deferred
            ≡ w.deferred
              ++ publish_all (
                  order_cancelled (record {
                    order_id = c.order_id;
                    user_id = c.user_id;
                    reason = c.reason;
                    correlation_id = correlation_or_new p 0 c.correlation_id v;
                    occurred_at = w.now;
                  })
                  ∷ status_event p v c.order_id c.correlation_id o.status OrderStatus.cancelled
                  ∷ [])
                ∷ [])
        × (w' ≡ record w { orders = w'.orders; deferred = w'.deferred })
  unfolding execute_cancel cancel_order
  execute_cancel-cancels c found a b saved =
      let matches = (p.orders.find_one_sound _ w.orders o found).0 in
      ground (
        arith,
        matches,
        eq_iff o.id c.order_id,
        eq_iff o.user_id c.user_id,
        cancel_by_status_lem o.status c a b,
        p.orders.save_ok cancelled r' w.orders t saved,
        lookup-upsert_self (λ (r : Order). r.id) cancelled w.orders,
      )

-- A cancellation that throws, for whatever reason, has changed nothing.
pub execute_cancel_atomic :
    (p : Platform) (c : CancelOrderCommand) (e : Error) (w : World)
    → (execute_cancel p c w).0 ≡ err e
    → (execute_cancel p c w).1 ≡ w
unfolding execute_cancel cancel_by_status cancel_order
execute_cancel_atomic p c e w h = ground arith

-- A confirmation that throws, for whatever reason, has changed nothing.
pub execute_confirm_atomic :
    (p : Platform) (c : ConfirmOrderCommand) (e : Error) (w : World)
    → (execute_confirm p c w).0 ≡ err e
    → (execute_confirm p c w).1 ≡ w
unfolding execute_confirm confirm_by_status confirm_order
execute_confirm_atomic p c e w h = ground arith

-- Confirming an order that is not pending returns as if it had succeeded, and changes nothing.
pub execute_confirm-ignores :
    (p : Platform) (c : ConfirmOrderCommand) (o : Order) (w : World)
    → order_by c.order_id w ≡ some o
    → o.status ≢ OrderStatus.pending
    → execute_confirm p c w ≡ (ok tt, w)
unfolding execute_confirm confirm_by_status
execute_confirm-ignores p c o w found busy =
    ground (arith, p.orders.find_one-key c.order_id w.orders)
