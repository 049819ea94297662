-- ===== src/Examples/Reports.antt =====
-- The theorems on what the endpoints show, on the services in memory.
use nestjs_cqrs_saga.Prelude.{
  ◌+◌, ◌-◌, ◌*◌, ◌≤◌, ◌<◌, ◌≡◌, refl, none, some, [], ◌∷◌, count, Perm, All, arith, ℕ, zero, suc,
  nat_eq, ◌&&◌,
}
use nestjs_cqrs_saga.Table.{Holds}
use nestjs_cqrs_saga.Examples.Memory.{memory, place}
use nestjs_cqrs_saga.Entity.{Order, OrderStatus, SagaInstance, EventStore, created, cancelled}
use nestjs_cqrs_saga.World.{World}
use nestjs_cqrs_saga.OrderController.{
  OrderPage, order_response_of, get_my_orders, execute_orders_of_user, get_order_by_id,
  execute_get_order,
}
use nestjs_cqrs_saga.OrderController.Views.{
  is_asked, shown, get_my_orders-cover, get_my_orders-bounds, views-own,
}
use nestjs_cqrs_saga.Tracing.{trace_of, trace_by_correlation_id}
use nestjs_cqrs_saga.Tracing.Views.{Trace, timeline_entry, saga_trace}
use nestjs_cqrs_saga.Tracing.Timeline.{IsChronological, trace_by_correlation_id_complete}
use nestjs_cqrs_saga.Examples.Services.{services, waiting, pending_order, started_saga}

abbrev foreign_order : Order
foreign_order = record pending_order { id = "o2"; user_id = "u2" }

abbrev paid_order : Order
paid_order = record pending_order { id = "o3"; status = OrderStatus.paid }

-- Two orders of one user and one of another.
abbrev three : World
three = record waiting { orders = pending_order ∷ foreign_order ∷ paid_order ∷ [] }

abbrev first_page : OrderPage
first_page = record {
  orders = order_response_of paid_order ∷ [];
  total = 2;
  page = 1;
  limit = 1;
  total_pages = some 2;
}

apart :
    (k : ℕ)
    → count
        (λ r. is_asked services "u1" none r && nat_eq (services.orders.created_at three.orders r) k)
        three.orders
      ≤ 1
unfolding services memory place
apart zero = omega arith
apart (suc zero) = omega arith
apart (suc (suc zero)) = omega arith
apart (suc (suc (suc k))) = grind arith

get_my_orders-cover_example :
    Perm
      (order_response_of paid_order ∷ order_response_of pending_order ∷ [])
      (order_response_of pending_order ∷ order_response_of paid_order ∷ [])
unfolding services memory place get_my_orders execute_orders_of_user
get_my_orders-cover_example =
    get_my_orders-cover services "u1" none three 0 first_page 2 apart refl refl

get_my_orders-bounds_example :
    (1 ≤ 1)
    × (1 ≤ 2 - 0 * 1)
    × (first_page.total ≡ count (is_asked services "u1" none) three.orders)
    × (2 ≤ 2 * 1)
    × (2 * 1 < 2 + 1)
unfolding services get_my_orders execute_orders_of_user
get_my_orders-bounds_example =
    get_my_orders-bounds services "u1" none three 0 0 first_page 2 refl refl

views-own_example :
    ((pending_order.id ≡ "o1") × (pending_order.user_id ≡ "u1"))
    × All (λ r. r.user_id ≡ "u1") (shown services "u1" none three 1 2)
    × ((get_order_by_id services "o1" "u1" three).1 ≡ three)
    × ((get_my_orders services "u1" (some 2) (some 1) none three).1 ≡ three)
unfolding services get_order_by_id execute_get_order
views-own_example = views-own services "u1" "o1" none 0 1 three refl

abbrev late_event : EventStore
late_event = record {
  id = "e1";
  aggregate_id = "o1";
  aggregate_type = "Order";
  event_type = "OrderCancelled";
  event_data = cancelled "o1" "u1" none;
  version = 1;
  occurred_at = 9;
  correlation_id = some "k1";
}

abbrev early_event : EventStore
early_event = record late_event {
  id = "e2";
  event_type = "OrderCreated";
  event_data = created "o1" "u1" 50 [] "Seoul";
  occurred_at = 3;
}

abbrev logged : World
logged = record waiting { event_store = late_event ∷ early_event ∷ [] }

abbrev waiting_trace : Trace
waiting_trace = trace_of services "k1" started_saga logged

trace_by_correlation_id_complete_example :
    ((saga : SagaInstance) × (saga.correlation_id ≡ "k1")
      × Holds saga logged.sagas
      × (saga_trace started_saga ≡ saga_trace saga))
    × Perm
        (timeline_entry early_event ∷ timeline_entry late_event ∷ [])
        (timeline_entry late_event ∷ timeline_entry early_event ∷ [])
    × IsChronological (timeline_entry early_event ∷ timeline_entry late_event ∷ [])
    × (waiting_trace.total_events ≡ 2)
unfolding services trace_of trace_by_correlation_id
trace_by_correlation_id_complete_example =
    trace_by_correlation_id_complete services "k1" logged waiting_trace refl
