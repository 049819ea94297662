-- ===== src/Order/Races.antt =====
-- Races between the handlers of src/order/commands/handlers/order.handlers.ts, each of which reads
-- before the other one writes.
use nestjs_cqrs_saga.Prelude.{
  String, ◌≡◌, true, none, some, List, [], ◌∷◌, ◌++◌, arith, is_truthy, truthy_or-some, eq_refl,
  count, count-append, subst,
}
use nestjs_cqrs_saga.Outcome.{ok, err, Error, duplicate_order}
use nestjs_cqrs_saga.Table.{upsert, upsert_fresh, lookup, lookup-upsert_self, count-false}
use nestjs_cqrs_saga.Entity.{
  Order, OrderStatus, CreateOrderCommand, CancelOrderCommand, ConfirmOrderCommand,
}
use nestjs_cqrs_saga.World.{World, Platform, catch}
use nestjs_cqrs_saga.Order.{
  has_key, create_order, on_create_error, is_key_violation, execute_cancel, cancel_by_status,
  cancel_order, confirm_by_status, confirm_order,
}
use nestjs_cqrs_saga.Order.Create.{new_order, create_order_lem, find_appended, reduce_items-eq-sum}
use nestjs_cqrs_saga.Order.Transitions.{order_by}
use nestjs_cqrs_saga.Order.Interleaved.{
  Command, Call, creating, cancelling, confirming, to_create, to_cancel, to_confirm, read, finish,
  Step, Steps,
}

module _ (p : Platform) where
  -- Two handlers that both read before the first one ends.
  crossed :
      (w : World) (c d : Command) (x y : Call)
      → read p c w ≡ some x
      → read p d w ≡ some y
      → Steps p w [] (finish p y (finish p x w)) []
  crossed w c d x y first second = Steps.next (Step.reads c x first) (
      Steps.next (Step.reads d y second)
        (Steps.next (Step.ends (y ∷ []) x []) (Steps.next (Step.ends [] y []) Steps.done)))

  create_order_refused :
      (c : CreateOrderCommand) (w : World) (e : Error)
      → p.orders.save (new_order p c w) w.orders ≡ err e
      → create_order p c w ≡ (err e, w)
  unfolding create_order
  create_order_refused c w e refused = ground (arith, reduce_items-eq-sum 0 c.items, refused)

  lookup-append_fresh :
      (n : Order) (t : List Order)
      → lookup (λ x. x.id) n.id t ≡ none
      → lookup (λ x. x.id) n.id (t ++ n ∷ []) ≡ some n
  lookup-append_fresh n t fresh =
      rw (← upsert_fresh (λ (x : Order). x.id) n t fresh)
        (lookup-upsert_self (λ (x : Order). x.id) n t)

  -- A cancellation that is lost: where a pending order is confirmed and cancelled at once, the
  -- confirmation reading it before the cancellation writes it and writing it afterwards, the
  -- cancellation returns with the order stored as cancelled, the confirmation returns as well, and
  -- the order ends as paid with the payment. The orders' table accepts every write.
  pub confirm-overwrites_cancel :
      (c : CancelOrderCommand) (d : ConfirmOrderCommand) (o : Order) (w : World)
      → ((r : Order) (t : List Order) → p.orders.save r t ≡ ok (r, upsert (λ x. x.id) r t))
      → read p (to_cancel c) w ≡ some (cancelling c o)
      → read p (to_confirm d) w ≡ some (confirming d o)
      → o.status ≡ OrderStatus.pending
      → let v = (execute_cancel p c w).1 in
        let u = finish p (confirming d o) v in
        ((execute_cancel p c w).0 ≡ ok tt)
        × (order_by o.id v ≡ some (record o { status = OrderStatus.cancelled }))
        × ((confirm_by_status o.status p d o v).0 ≡ ok tt)
        × (order_by o.id u
            ≡ some (record o { status = OrderStatus.paid; payment_id = some d.payment_id }))
        × Steps p w [] u []
  unfolding execute_cancel cancel_by_status cancel_order confirm_by_status confirm_order read finish
  confirm-overwrites_cancel c d o w saves found there pending =
      let v = (execute_cancel p c w).1 in
      let cancelled = record o { status = OrderStatus.cancelled } in
      let paid = record o { status = OrderStatus.paid; payment_id = some d.payment_id } in
      let written : v ≡ finish p (cancelling c o) w = ground (arith, found) in
      let stored : v.orders ≡ upsert (λ x. x.id) cancelled w.orders =
        ground (arith, found, pending, saves cancelled w.orders) in
      (
        ground (arith, found, pending, saves cancelled w.orders),
        ground (arith, stored, lookup-upsert_self (λ (x : Order). x.id) cancelled w.orders),
        ground (arith, pending, saves paid v.orders),
        ground (
          arith,
          pending,
          saves paid v.orders,
          lookup-upsert_self (λ (x : Order). x.id) paid v.orders,
        ),
        rw written
            (crossed w (to_cancel c) (to_confirm d) (cancelling c o) (confirming d o) found there),
      )

  -- A creation that loses the race: where two commands with the same key that is not empty and that
  -- no order has are executed at once, both finding no order, the first one stores its order, and
  -- the database refuses the second one's for the key, the second one is refused with the identifier
  -- of the first one's order, changes nothing, and one order has the key.
  pub create-loses :
      (c d : CreateOrderCommand) (k : String) (w : World) (r : Order) (t : List Order) (e : Error)
      → is_truthy (some k) ≡ true
      → c.correlation_id ≡ some k
      → d.correlation_id ≡ some k
      → p.orders.find_one (has_key k) w.orders ≡ none
      → p.orders.save (new_order p c w) w.orders ≡ ok (r, t)
      → let v = finish p (creating c) w in
        p.orders.save (new_order p d v) v.orders ≡ err e
        → is_key_violation e ≡ true
        → (catch (create_order p d) (on_create_error p d) v
            ≡ (err (duplicate_order (new_order p c w).id k), v))
          × (order_by (new_order p c w).id v ≡ some (new_order p c w))
          × (count (has_key k) v.orders ≡ 1)
          × Steps p w [] v []
  unfolding finish on_create_error read
  create-loses c d k w r t e truthy ck dk missing saved refused violation =
      let n = new_order p c w in
      let v = finish p (creating c) w in
      let created = create_order_lem p c w r t saved in
      let stored : v.orders ≡ w.orders ++ n ∷ [] = ground (arith, created) in
      let has : has_key k n ≡ true = ground (arith, ck, eq_refl k) in
      let found : p.orders.find_one (has_key k) v.orders ≡ some n =
        rw stored (find_appended p k n w.orders has missing) in
      let none_before =
        count-false (has_key k) w.orders
          (p.orders.find_one_complete (has_key k) w.orders missing) in
      let key_of = truthy_or-some k "" truthy in
      let lost : catch (create_order p d) (on_create_error p d) v
          ≡ (err (duplicate_order n.id k), v) =
        ground (arith, create_order_refused d v e refused, dk, violation, found) in
      let read_c : read p (to_create c) w ≡ some (creating c) =
        ground (arith, ck, key_of, missing) in
      let read_d : read p (to_create d) w ≡ some (creating d) =
        ground (arith, dk, key_of, missing) in
      let same : finish p (creating d) v ≡ v = ground (arith, lost) in
      (
        lost,
        rw stored (lookup-append_fresh n w.orders (p.orders.generate_fresh w.orders)),
        ground (arith, stored, count-append (has_key k) w.orders (n ∷ []), none_before, has),
        subst (λ u. Steps p w [] u []) same
            (crossed w (to_create c) (to_create d) (creating c) (creating d) read_c read_d),
      )
