-- ===== src/Examples/Cleanup.antt =====
-- The clean-up on the services in memory.
use nestjs_cqrs_saga.Prelude.{◌≡◌, refl, some, []}
use nestjs_cqrs_saga.Entity.{OrderStatus}
use nestjs_cqrs_saga.World.{World}
use nestjs_cqrs_saga.Order.Transitions.{order_by}
use nestjs_cqrs_saga.Maintenance.{cleanup_pending_orders}
use nestjs_cqrs_saga.Maintenance.Settled.{OrdersUp, cleanup_pending_orders-settles}
use nestjs_cqrs_saga.Examples.Services.{services, waiting, pending_order}

services-OrdersUp : OrdersUp services
unfolding services
services-OrdersUp r t = refl

-- An order whose payment was never made.
abbrev unpaid : World
unpaid = record waiting { payments = [] }

cleanup_pending_orders-settles_example :
    order_by "o1" (cleanup_pending_orders services unpaid).1
    ≡ some (record pending_order { status = OrderStatus.cancelled })
unfolding services
cleanup_pending_orders-settles_example =
    cleanup_pending_orders-settles services services-OrdersUp "o1" pending_order unpaid (refl, tt)
      refl refl tt
