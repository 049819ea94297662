-- ===== src/Examples/Orders.antt =====
-- The theorems on the order commands on the services in memory.
use nestjs_cqrs_saga.OrderController.{confirm_order_endpoint}
use nestjs_cqrs_saga.OrderController.Confirming.{confirm_order_endpoint-unpaid}
use nestjs_cqrs_saga.Order.Transitions.{order_by}
use nestjs_cqrs_saga.Prelude.{none, ◌==◌, ◌≡◌, refl, some, [], ◌∷◌}
use nestjs_cqrs_saga.Outcome.{ok}
use nestjs_cqrs_saga.Entity.{Order, OrderStatus}
use nestjs_cqrs_saga.Examples.Services.{services, waiting, pending_order}

abbrev bought : Order
bought = record pending_order { id = "i" }

abbrev paid_by_nobody : Order
paid_by_nobody = record pending_order { status = OrderStatus.paid; payment_id = some "p9" }

confirm_order_endpoint-unpaid_example :
    let (r, w) = confirm_order_endpoint services "o1" "p9" waiting in
    (r ≡ ok (record { message = "주문이 확인되었습니다."; order_id = "o1"; payment_id = "p9" }))
    × (order_by "o1" w ≡ some paid_by_nobody)
    × (w.payments ≡ waiting.payments)
    × (services.payments.find_one (λ x. x.id == "p9") w.payments ≡ none)
unfolding services
confirm_order_endpoint-unpaid_example =
    confirm_order_endpoint-unpaid services waiting "o1" "p9" pending_order paid_by_nobody
      (paid_by_nobody ∷ []) refl refl refl refl
