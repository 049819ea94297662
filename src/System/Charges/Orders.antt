-- ===== src/System/Charges/Orders.antt =====
-- The commands on orders and what they announce.
use nestjs_cqrs_saga.Prelude.{
  [], if◌then◌else◌, ℕ, ◌+◌, ◌≤◌, String, ◌≡◌, refl, sym, subst, ap, inl, inr, ◌⊎◌, none, some,
  List, ◌∷◌, ◌++◌, arith, count, ◌==◌, eq_iff, Bool-cases,
}
use nestjs_cqrs_saga.Outcome.{err, Error, Outcome-cases}
use nestjs_cqrs_saga.Table.{lookup, lookup-upsert, upsert_fresh}
use nestjs_cqrs_saga.Entity.{
  Order, CreateOrderCommand, CancelOrderCommand, ConfirmOrderCommand, order_created,
}
use nestjs_cqrs_saga.World.{World, Platform, publish_all}
use nestjs_cqrs_saga.Order.{
  execute_create, execute_cancel, execute_confirm, try_create, create_order, on_create_error,
  cancel_by_status, cancel_order, confirm_by_status, confirm_order,
}
use nestjs_cqrs_saga.Order.Create.{new_order, created_event, create_order_lem, reduce_items-eq-sum}
use nestjs_cqrs_saga.Order.Announced.{promised, promised-append, promised-events}
use nestjs_cqrs_saga.Order.Transitions.{
  OrdersMove, order_by, execute_create-OrdersMove, execute_cancel-OrdersMove,
  execute_confirm-OrdersMove,
}
use nestjs_cqrs_saga.Payment.Charges.{tells_of, charges, stored_order}
use nestjs_cqrs_saga.System.Payments.Moves.{
  Pays, execute_create-Pays, execute_cancel-Pays, execute_confirm-Pays,
}
use nestjs_cqrs_saga.System.Charges.Relation.{Owes, announced-charges, stored-Moves}

-- An order under a free identifier is one more.
pub stored_fresh :
    (n : Order) (t : List Order) (i : String)
    → lookup (λ r. r.id) n.id t ≡ none
    → elim (lookup (λ r. r.id) i t) as (λ x. ℕ) [ none ↦ 0 | some o ↦ 1 ]
        + (if n.id == i then 1 else 0)
      ≤ elim (lookup (λ r. r.id) i (t ++ n ∷ [])) as (λ x. ℕ) [ none ↦ 0 | some o ↦ 1 ]
stored_fresh n t i free =
    rw
      (sym (upsert_fresh (λ (r : Order). r.id) n t free), lookup-upsert (λ (r : Order). r.id) i n t)
      (elim (Bool-cases (n.id == i)) [
        | inl e ↦
            let absent : lookup (λ r. r.id) i t ≡ none =
              subst (λ j. lookup (λ r. r.id) j t ≡ none) ((eq_iff n.id i).0 e) free in
            rw (e, absent) (ground arith)
        | inr e ↦ rw e (ground arith)
      ])

module _ (p : Platform) where
  pub create_or_nothing :
      (c : CreateOrderCommand) (w : World)
      → ((execute_create p c w).1 ≡ w) ⊎ ((execute_create p c w).1 ≡ (create_order p c w).1)
  unfolding execute_create try_create on_create_error
  create_or_nothing c w = ground arith

  pub create_order_unchanged :
      (c : CreateOrderCommand) (w : World) (e : Error)
      → p.orders.save (new_order p c w) w.orders ≡ err e
      → (create_order p c w).1 ≡ w
  unfolding create_order
  create_order_unchanged c w e h = ground (arith, h, reduce_items-eq-sum 0 c.items)

  -- A new order is stored and announced once; one that is not stored is not announced.
  pub create_order-charges :
      (c : CreateOrderCommand) (w : World) (i : String)
      → let w' = (create_order p c w).1 in
        charges i w' + stored_order i w ≤ charges i w + stored_order i w'
  create_order-charges c w i =
      let n = new_order p c w in
      elim (Outcome-cases (p.orders.save n w.orders)) [
        | inl ((r, t), e) ↦
            let v : World = record w {
              orders = w.orders ++ n ∷ [];
              deferred = w.deferred ++ publish_all (order_created (created_event c w n) ∷ []) ∷ [];
            } in
            let total : charges i v ≡ charges i w + count (tells_of i) (created_event c w n ∷ []) =
              announced-charges w v (created_event c w n ∷ []) i refl refl (
                promised-append w.deferred
                  (publish_all (order_created (created_event c w n) ∷ []) ∷ [])) in
            let stored : stored_order i w + (if n.id == i then 1 else 0) ≤ stored_order i v =
              stored_fresh n w.orders i (p.orders.generate_fresh w.orders) in
            let one : count (tells_of i) (created_event c w n ∷ []) ≡ (if n.id == i then 1 else 0) =
              ground arith in
            subst (λ u. charges i u + stored_order i w ≤ charges i w + stored_order i u)
              (sym (ap (λ m. m.1) (create_order_lem p c w r t e)))
              (omega (arith, total, stored, one))
        | inr (x, e) ↦
            let same : (create_order p c w).1 ≡ w = create_order_unchanged c w x e in
            rw same (omega arith)
      ]

  pub execute_create-Owes :
      (c : CreateOrderCommand) (w : World) → Owes none w (execute_create p c w).1
  execute_create-Owes c w h =
      let v = (execute_create p c w).1 in
      let le : (i : String) → charges i v + stored_order i w ≤ charges i w + stored_order i v = λ i.
        elim (create_or_nothing c w) [
          | inl e ↦ rw e (omega arith)
          | inr e ↦ rw e (create_order-charges c w i)
        ] in
      (
        ((execute_create-Pays p c w h.0).1, (execute_create-OrdersMove p c w).1 h.1),
        λ i. omega (arith, le i),
      )

  -- A command that announces no new order.
  pub quiet-Owes :
      (v w : World)
      → OrdersMove v.orders w.orders
      → Pays v w
      → w.payments ≡ v.payments
      → w.bus ≡ v.bus
      → promised w.deferred ≡ promised v.deferred
      → Owes none v w
  quiet-Owes v w m q a b d h = (
    ((q h.0).1, m.1 h.1),
    λ i.
        let same : charges i w ≡ charges i v = rw (a, b, d) refl in
        omega (arith, same, stored-Moves (order_by i v) (order_by i w) (m.0 i)),
  )

  pub execute_cancel-Owes :
      (c : CancelOrderCommand) (w : World) → Owes none w (execute_cancel p c w).1
  unfolding execute_cancel cancel_by_status cancel_order
  execute_cancel-Owes c w h =
      quiet-Owes w (execute_cancel p c w).1 (execute_cancel-OrdersMove p c w h.1)
        (execute_cancel-Pays p c w) (ground arith) (ground arith) (grind (arith, promised-events)) h

  pub execute_confirm-Owes :
      (c : ConfirmOrderCommand) (w : World) → Owes none w (execute_confirm p c w).1
  unfolding execute_confirm confirm_by_status confirm_order
  execute_confirm-Owes c w h =
      quiet-Owes w (execute_confirm p c w).1 (execute_confirm-OrdersMove p c w h.1)
        (execute_confirm-Pays p c w) (ground arith) (ground arith) (grind (arith, promised-events))
        h
