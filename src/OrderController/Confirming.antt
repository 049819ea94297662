-- ===== src/OrderController/Confirming.antt =====
-- `confirmOrder` of src/order/order.controller.ts, which asks neither for the account nor for a payment.
use nestjs_cqrs_saga.Prelude.{String, ◌≡◌, none, some, List, arith, ap, ◌==◌}
use nestjs_cqrs_saga.Outcome.{ok}
use nestjs_cqrs_saga.Entity.{Order, OrderStatus, ConfirmOrderCommand}
use nestjs_cqrs_saga.World.{World, Platform}
use nestjs_cqrs_saga.Order.Transitions.{order_by}
use nestjs_cqrs_saga.Order.Effects.{execute_confirm-pays}
use nestjs_cqrs_saga.Order.{execute_confirm}
use nestjs_cqrs_saga.OrderController.{confirm_order_endpoint}

-- A pending order can be confirmed without a payment: for an identifier that no stored payment has, and
-- whoever asks, the endpoint answers that the order is confirmed and, if the database accepts the order,
-- leaves it as paid by that identifier; no payment has been stored or changed.
pub confirm_order_endpoint-unpaid :
    (p : Platform) (w : World) (id payment_id : String) (o r : Order) (t : List Order)
    → order_by id w ≡ some o
    → o.status ≡ OrderStatus.pending
    → p.payments.find_one (λ x. x.id == payment_id) w.payments ≡ none
    → p.orders.save (record o { status = OrderStatus.paid; payment_id = some payment_id }) w.orders
      ≡ ok (r, t)
    → let (x, w') = confirm_order_endpoint p id payment_id w in
      (x ≡ ok (record { message = "주문이 확인되었습니다."; order_id = id; payment_id = payment_id }))
      × (order_by id w'
          ≡ some (record o { status = OrderStatus.paid; payment_id = some payment_id }))
      × (w'.payments ≡ w.payments)
      × (p.payments.find_one (λ x. x.id == payment_id) w'.payments ≡ none)
unfolding confirm_order_endpoint
confirm_order_endpoint-unpaid p w id payment_id o r t there pending unknown saved =
    let c : ConfirmOrderCommand = record {
      order_id = id;
      payment_id = payment_id;
      correlation_id = none;
    } in
    let paid = execute_confirm-pays p w o r t c there pending saved in
    let kept : (execute_confirm p c w).1.payments ≡ w.payments = ap (λ x. x.payments) paid.3 in
    ground (arith, paid, kept, unknown)
