-- ===== src/Payment/Charges.antt =====
-- How often an order is charged or is still to be: its payments, and the events of its creation on
-- the way to src/saga/order-processing.saga.ts.
use nestjs_cqrs_saga.Prelude.{
  ℕ, ◌+◌, String, ◌≡◌, Bool, Option, none, some, List, [], ◌∷◌, count, arith, ◌==◌, if◌then◌else◌,
}
use nestjs_cqrs_saga.Table.{lookup, upsert}
use nestjs_cqrs_saga.Entity.{Payment, OrderCreatedEvent}
use nestjs_cqrs_saga.World.{World}
use nestjs_cqrs_saga.Order.Announced.{created_orders, promised}
use nestjs_cqrs_saga.Order.Transitions.{order_by}

module _ {Row : Type 0} (key : Row → String) (test : Row → Bool) where
  -- A new row counts, and one that is rewritten counts as before.
  pub count-upsert_fresh :
      (r : Row) (t : List Row)
      → lookup key (key r) t ≡ none
      → count test (upsert key r t) ≡ count test t + (if test r then 1 else 0)
  count-upsert_fresh r [] h = ground arith
  count-upsert_fresh r (x ∷ t) h = ground (arith, count-upsert_fresh r t)

  pub count-upsert_found :
      (r x : Row) (t : List Row)
      → lookup key (key r) t ≡ some x
      → test r ≡ test x
      → count test (upsert key r t) ≡ count test t
  count-upsert_found r x [] h e = cc
  count-upsert_found r x (y ∷ t) h e = ground (arith, count-upsert_found r x t)

-- An event tells of the creation of an order.
abbrev pub tells_of : String → OrderCreatedEvent → Bool
tells_of i e = e.order_id == i

-- The payments of an order, and the announcements of its creation that are still to be handled.
abbrev pub charges : String → World → ℕ
charges i w =
    count (λ (a : Payment). a.order_id == i) w.payments
    + count (tells_of i) (created_orders w.bus)
    + count (tells_of i) (promised w.deferred)

-- Whether an order is stored, as a number.
abbrev pub stored_order : String → World → ℕ
stored_order i w = elim (order_by i w) [ none ↦ 0 | some o ↦ 1 ]

-- Whether an order is the one that may be charged for its creation, as a number.
abbrev pub allowance : Option OrderCreatedEvent → String → ℕ
allowance none i = 0
allowance (some e) i = if e.order_id == i then 1 else 0
