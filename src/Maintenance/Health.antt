-- ===== src/Maintenance/Health.antt =====
-- The reports of src/saga/saga-maintenance.controller.ts: pending orders with what belongs to them, and
-- the numbers of sagas and orders by status.
use mathlib.Core.List.Perm
use mathlib.Core.Option
use nestjs_cqrs_saga.Prelude.{
  ℕ, ◌+◌, ◌≤◌, ◌<◌, String, ◌≡◌, ◌↔◌, refl, ap, ◌∙◌, true, false, Bool, Option, List, [], ◌∷◌, map,
  arith, Perm, filter, count, length, ltb, ◌==◌,
}
use nestjs_cqrs_saga.Outcome.{ok}
use nestjs_cqrs_saga.Entity.{
  Order, OrderStatus, OrderStatus-discrete, Payment, PaymentStatus, SagaInstance, SagaStatus,
}
use nestjs_cqrs_saga.World.{World, Platform, Action}
use nestjs_cqrs_saga.Pages.Rows.{length-perm, length-filter}
use nestjs_cqrs_saga.Pages.Cover.{length-map}
use nestjs_cqrs_saga.SagaController.{saga_has_status}
use nestjs_cqrs_saga.SagaController.Views.{count_statuses}
use nestjs_cqrs_saga.Maintenance.{is_pending}

pub record OrderSummary : Type 0 where
  pub id : String
  pub status : OrderStatus
  pub total_amount : ℕ

pub record SagaSummary : Type 0 where
  pub id : String
  pub status : SagaStatus
  pub current_step : Option String
  pub completed_steps : List String
  pub error_message : Option String

pub record PaymentSummary : Type 0 where
  pub id : String
  pub status : PaymentStatus
  pub failure_reason : Option String

pub record PendingOrder : Type 0 where
  pub order : OrderSummary
  pub saga : Option SagaSummary
  pub payment : Option PaymentSummary

pub record PendingOrders : Type 0 where
  pub count : ℕ
  pub orders : List PendingOrder

abbrev pub order_summary : Order → OrderSummary
order_summary order = record {
  id = order.id;
  status = order.status;
  total_amount = order.total_amount;
}

abbrev pub saga_summary : SagaInstance → SagaSummary
saga_summary saga = record {
  id = saga.id;
  status = saga.status;
  current_step = saga.current_step;
  completed_steps = saga.completed_steps;
  error_message = saga.error_message;
}

abbrev pub payment_summary : Payment → PaymentSummary
payment_summary payment = record {
  id = payment.id;
  status = payment.status;
  failure_reason = payment.failure_reason;
}

-- The body of the loop of `getPendingOrders`.
unfoldable pub pending_order : Platform → World → Order → PendingOrder
pending_order p w order = record {
  order = order_summary order;
  saga = Option.map saga_summary (p.find_saga_of_order order.id w.sagas);
  payment =
      Option.map payment_summary (p.payments.find_one (λ r. r.order_id == order.id) w.payments);
}

-- `getPendingOrders`
unfoldable pub get_pending_orders : Platform → Action PendingOrders
get_pending_orders p w =
    let result = map (pending_order p w) (p.orders.newest (λ r. is_pending r.status) w.orders) in
    (ok (record { count = length result; orders = result }), w)

pub record SagaCounts : Type 0 where
  pub total : ℕ
  pub started : ℕ
  pub completed : ℕ
  pub failed : ℕ
  pub compensated : ℕ

pub record OrderCounts : Type 0 where
  pub total : ℕ
  pub pending : ℕ
  pub paid : ℕ
  pub cancelled : ℕ

pub record SagaHealth : Type 0 where
  pub sagas : SagaCounts
  pub orders : OrderCounts
  pub orphaned_pending_orders : Bool
  pub stuck_sagas : ℕ

abbrev pub order_has : OrderStatus → Order → Bool
order_has status order = elim (OrderStatus-discrete order.status status) [
  | yes e ↦ true
  | no e ↦ false
]

-- `getSagaHealth`
unfoldable pub get_saga_health : Platform → Action SagaHealth
get_saga_health p w =
    let sagas_of = λ (status : SagaStatus). p.sagas.count_rows (saga_has_status status) w.sagas in
    let orders_of = λ (status : OrderStatus). p.orders.count_rows (order_has status) w.orders in
    (
      ok (record {
        sagas = record {
          total = p.sagas.count_rows (λ r. true) w.sagas;
          started = sagas_of SagaStatus.started;
          completed = sagas_of SagaStatus.completed;
          failed = sagas_of SagaStatus.failed;
          compensated = sagas_of SagaStatus.compensated;
        };
        orders = record {
          total = p.orders.count_rows (λ r. true) w.orders;
          pending = orders_of OrderStatus.pending;
          paid = orders_of OrderStatus.paid;
          cancelled = orders_of OrderStatus.cancelled;
        };
        orphaned_pending_orders = ltb (sagas_of SagaStatus.started) (orders_of OrderStatus.pending);
        stuck_sagas = sagas_of SagaStatus.started;
      }),
      w,
    )

-- An order is counted under one status at most.
count_orders :
    (orders : List Order)
    → count (order_has OrderStatus.pending) orders
        + count (order_has OrderStatus.paid) orders
        + count (order_has OrderStatus.cancelled) orders
      ≤ count (λ r. true) orders
count_orders [] = omega arith
count_orders (x ∷ orders) = ground (arith, count_orders orders)

module _ (p : Platform) (w : World) where
  -- The health report is consistent: the sagas it counts by status and those that are being
  -- compensated, which it does not show, add up to its total, the orders it counts by status are no
  -- more than theirs, and it tells of orphans exactly if more orders are pending than the sagas that
  -- it shows as started.
  pub get_saga_health-adds_up :
      (h : SagaHealth)
      → (get_saga_health p w).0 ≡ ok h
      → (h.sagas.total
          ≡ h.sagas.started
            + h.sagas.completed
            + h.sagas.failed
            + h.sagas.compensated
            + count (saga_has_status SagaStatus.compensating) w.sagas)
        × (h.orders.pending + h.orders.paid + h.orders.cancelled ≤ h.orders.total)
        × ((h.orphaned_pending_orders ≡ true) ↔ (h.sagas.started < h.orders.pending))
  unfolding get_saga_health
  get_saga_health-adds_up h done = ground (
    arith,
    done,
    count_statuses w.sagas,
    count_orders w.orders,
    p.sagas.count_rows_lem (λ r. true) w.sagas,
    p.sagas.count_rows_lem (saga_has_status SagaStatus.started) w.sagas,
    p.sagas.count_rows_lem (saga_has_status SagaStatus.completed) w.sagas,
    p.sagas.count_rows_lem (saga_has_status SagaStatus.failed) w.sagas,
    p.sagas.count_rows_lem (saga_has_status SagaStatus.compensated) w.sagas,
    p.orders.count_rows_lem (λ r. true) w.orders,
    p.orders.count_rows_lem (order_has OrderStatus.pending) w.orders,
    p.orders.count_rows_lem (order_has OrderStatus.paid) w.orders,
    p.orders.count_rows_lem (order_has OrderStatus.cancelled) w.orders,
  )

  map_summaries :
      (orders : List Order)
      → map (λ e. e.order) (map (pending_order p w) orders) ≡ map order_summary orders
  unfolding pending_order
  map_summaries [] = refl
  map_summaries (o ∷ orders) = ap (◌∷◌ (order_summary o)) (map_summaries orders)

  -- The report of the pending orders lists each pending order exactly once, and no other, and counts
  -- them.
  pub get_pending_orders-lists :
      (result : PendingOrders)
      → (get_pending_orders p w).0 ≡ ok result
      → Perm
          (map (λ e. e.order) result.orders)
          (map order_summary (filter (λ r. is_pending r.status) w.orders))
        × (result.count ≡ count (λ r. is_pending r.status) w.orders)
  unfolding get_pending_orders
  get_pending_orders-lists result done =
      let rows = p.orders.newest (λ r. is_pending r.status) w.orders in
      let listed : result.orders ≡ map (pending_order p w) rows = ground (arith, done) in
      let counted : result.count ≡ length (map (pending_order p w) rows) = ground (arith, done) in
      (
        rw (listed, map_summaries rows)
            (Perm.map order_summary (p.orders.newest_perm (λ r. is_pending r.status) w.orders)),
        counted
            ∙ length-map (pending_order p w) rows
            ∙ length-perm (p.orders.newest_perm (λ r. is_pending r.status) w.orders)
            ∙ length-filter (λ r. is_pending r.status) w.orders,
      )
