-- ===== src/System/Bills/Orders.antt =====
-- The commands on orders, beside the announcements that they make.
use nestjs_cqrs_saga.Prelude.{
  String, ◌≡◌, refl, sym, subst, ap, inl, inr, none, some, [], ◌∷◌, ◌++◌, All, All-append, arith,
}
use nestjs_cqrs_saga.Outcome.{Outcome-cases}
use nestjs_cqrs_saga.Table.{lookup, lookup-upsert_self, upsert_fresh}
use nestjs_cqrs_saga.Entity.{
  Order, CreateOrderCommand, CancelOrderCommand, ConfirmOrderCommand, order_created,
}
use nestjs_cqrs_saga.World.{World, Platform, publish_all}
use nestjs_cqrs_saga.Order.{
  execute_create, execute_cancel, execute_confirm, cancel_by_status, cancel_order,
  confirm_by_status, confirm_order, create_order,
}
use nestjs_cqrs_saga.Order.Create.{new_order, created_event, create_order_lem}
use nestjs_cqrs_saga.Order.Announced.{created_orders, promised, promised-append, promised-events}
use nestjs_cqrs_saga.Order.Transitions.{
  order_by, execute_create-OrdersMove, execute_cancel-OrdersMove, execute_confirm-OrdersMove,
}
use nestjs_cqrs_saga.System.Orders.{Evolves, OrdersMove-OrdersEvolve}
use nestjs_cqrs_saga.System.Payments.Moves.{
  execute_create-Pays, execute_cancel-Pays, execute_confirm-Pays,
}
use nestjs_cqrs_saga.System.Charges.Orders.{create_or_nothing, create_order_unchanged}
use nestjs_cqrs_saga.System.Bills.Relation.{
  Told, IsHonest, StaysHonest, Charged-Evolves, Told-Evolves, StaysHonest-intro, same-StaysHonest,
}

module _ (p : Platform) where
  -- A new order is announced as it is stored.
  create_order-IsHonest :
      (c : CreateOrderCommand) (w : World)
      → IsHonest w
      → ((i : String) → Evolves (order_by i w) (order_by i (create_order p c w).1))
      → IsHonest (create_order p c w).1
  create_order-IsHonest c w honest m =
      let n = new_order p c w in
      elim (Outcome-cases (p.orders.save n w.orders)) [
        | inl ((r, t), e) ↦
            let v : World = record w {
              orders = w.orders ++ n ∷ [];
              deferred = w.deferred ++ publish_all (order_created (created_event c w n) ∷ []) ∷ [];
            } in
            let created : (create_order p c w).1 ≡ v =
              ap (λ x. x.1) (create_order_lem p c w r t e) in
            let m' : (i : String) → Evolves (order_by i w) (order_by i v) =
              subst (λ u. (i : String) → Evolves (order_by i w) (order_by i u)) created m in
            let there : order_by n.id v ≡ some n =
              subst (λ l. lookup (λ x. x.id) n.id l ≡ some n)
                (upsert_fresh (λ (x : Order). x.id) n w.orders (p.orders.generate_fresh w.orders))
                (lookup-upsert_self (λ (x : Order). x.id) n w.orders) in
            let waiting : All (Told v) (promised w.deferred ++ created_event c w n ∷ []) =
              All-append (Told v) (promised w.deferred) (created_event c w n ∷ [])
                (Told-Evolves w v m' (promised w.deferred) honest.2) ((n, there, refl, refl), tt) in
            let new : IsHonest v = (
              Charged-Evolves w v m' w.payments honest.0,
              Told-Evolves w v m' (created_orders w.bus) honest.1,
              subst (All (Told v))
                  (sym (
                    promised-append w.deferred
                      (publish_all (order_created (created_event c w n) ∷ []) ∷ [])))
                  waiting,
            ) in
            subst IsHonest (sym created) new
        | inr (x, e) ↦ subst IsHonest (sym (create_order_unchanged p c w x e)) honest
      ]

  pub execute_create-StaysHonest :
      (c : CreateOrderCommand) (w : World) → StaysHonest none w (execute_create p c w).1
  execute_create-StaysHonest c w =
      let v = (execute_create p c w).1 in
      StaysHonest-intro none w v
        (OrdersMove-OrdersEvolve w v (λ keyed. execute_create-OrdersMove p c w))
        (execute_create-Pays p c w)
        (λ consistent honest told m. elim (create_or_nothing p c w) [
          | inl e ↦ subst IsHonest (sym e) honest
          | inr e ↦ subst IsHonest (sym e) (
              create_order-IsHonest c w honest
                (subst (λ u. (i : String) → Evolves (order_by i w) (order_by i u)) e m))
        ])

  pub execute_cancel-StaysHonest :
      (c : CancelOrderCommand) (w : World) → StaysHonest none w (execute_cancel p c w).1
  unfolding execute_cancel cancel_by_status cancel_order
  execute_cancel-StaysHonest c w =
      let v = (execute_cancel p c w).1 in
      same-StaysHonest w v
        (OrdersMove-OrdersEvolve w v (λ keyed. execute_cancel-OrdersMove p c w keyed))
        (execute_cancel-Pays p c w) (ground arith) (ground arith) (grind (arith, promised-events))

  pub execute_confirm-StaysHonest :
      (c : ConfirmOrderCommand) (w : World) → StaysHonest none w (execute_confirm p c w).1
  unfolding execute_confirm confirm_by_status confirm_order
  execute_confirm-StaysHonest c w =
      let v = (execute_confirm p c w).1 in
      same-StaysHonest w v
        (OrdersMove-OrdersEvolve w v (λ keyed. execute_confirm-OrdersMove p c w keyed))
        (execute_confirm-Pays p c w) (ground arith) (ground arith) (grind (arith, promised-events))
