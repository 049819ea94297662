-- ===== src/Examples/Runs.antt =====
-- A run of the services in memory: an order is requested, announced, and taken up by its saga.
use mathlib.Core.List.Perm
use nestjs_cqrs_saga.OrderController.{CreateOrderDto}
use nestjs_cqrs_saga.Prelude.{none, ℕ, refl, true, some, [], ◌∷◌}
use nestjs_cqrs_saga.Entity.{
  Order, OrderStatus, OrderCreatedEvent, CreateOrderCommand, ConfirmOrderCommand, order_created,
}
use nestjs_cqrs_saga.World.{World, publish_all}
use nestjs_cqrs_saga.Order.{execute_create, try_create, create_order, reduce_items}
use nestjs_cqrs_saga.Order.Create.{created_event}
use nestjs_cqrs_saga.Handlers.{handlers}
use nestjs_cqrs_saga.System.{Step, Run, run_task, run_handlers}
use nestjs_cqrs_saga.System.Log.{LogGrows, same-LogGrows, Run-LogGrows}
use nestjs_cqrs_saga.Examples.Services.{services, empty_world, waiting, pending_order, book, lamp}

abbrev pub request : CreateOrderCommand
request = record {
  user_id = "u1";
  items = book ∷ lamp ∷ [];
  shipping_address = "Seoul";
  correlation_id = some "k1";
}

abbrev pub announcement : OrderCreatedEvent
announcement = created_event request empty_world (record pending_order { id = "i" })

abbrev pub requested : World
requested = (execute_create services request empty_world).1

abbrev pub announced : World
announced =
    (run_task services true (publish_all (order_created announcement ∷ []))
      (record requested { deferred = [] })).1

abbrev pub taken_up : World
taken_up =
    run_handlers (handlers services (order_created announcement)) (record announced { bus = [] })

pub take_up : Run services empty_world taken_up
unfolding services execute_create try_create create_order reduce_items run_task
take_up = Run.next (Step.create request) (
    Run.next (Step.run true (publish_all (order_created announcement ∷ [])) [] [] refl)
      (Run.next (Step.deliver (order_created announcement) [] [] refl) Run.done))

alone-LogGrows : (n : ℕ) (w : World) → LogGrows w (services.elapse n w)
unfolding services
alone-LogGrows n w = same-LogGrows w w refl

Run-LogGrows_example : LogGrows empty_world taken_up
Run-LogGrows_example = Run-LogGrows services alone-LogGrows empty_world taken_up take_up

abbrev withdrawn_order : Order
withdrawn_order = record pending_order { status = OrderStatus.cancelled }

abbrev withdrawn : World
withdrawn = record waiting { orders = withdrawn_order ∷ [] }

abbrev late_confirmation : ConfirmOrderCommand
late_confirmation = record { order_id = "o1"; payment_id = "p1"; correlation_id = some "k1" }

-- An order of two products, which its cart has named the other way round.
abbrev sold : Order
sold = record withdrawn_order { id = "o1"; idempotency_key = some "SOLDOUT:book|lamp-sha256" }

abbrev sold_world : World
sold_world = record waiting { orders = sold ∷ [] }

abbrev cart : CreateOrderDto
cart = record { items = lamp ∷ book ∷ []; shipping_address = "Busan"; idempotency_key = none }
