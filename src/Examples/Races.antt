-- ===== src/Examples/Races.antt =====
-- The theorems on interleaved handlers, on services in memory.
use nestjs_cqrs_saga.Prelude.{
  String, ◌≡◌, refl, Bool, none, some, List, [], ◌∷◌, arith, ◌==◌, ◌&&◌, if◌then◌else◌, is_truthy,
  includes, not, any, opt_eq, count,
}
use nestjs_cqrs_saga.Outcome.{Outcome, ok, err, database}
use nestjs_cqrs_saga.Table.{upsert, IsKeyed}
use nestjs_cqrs_saga.Entity.{
  Order, OrderStatus, CreateOrderCommand, CancelOrderCommand, ConfirmOrderCommand,
}
use nestjs_cqrs_saga.World.{World, Platform}
use nestjs_cqrs_saga.Order.{has_key, create_order, is_key_violation, reduce_items, execute_cancel}
use nestjs_cqrs_saga.Order.Create.{new_order}
use nestjs_cqrs_saga.Order.Transitions.{order_by}
use nestjs_cqrs_saga.Order.Interleaved.{
  creating, cancelling, confirming, to_cancel, to_confirm, read, finish, Step, Steps,
}
use nestjs_cqrs_saga.Order.Interleaved.Rows.{Lasts, Rewrites}
use nestjs_cqrs_saga.Order.Interleaved.Evolution.{Steps-Rewrites}
use nestjs_cqrs_saga.Order.Races.{confirm-overwrites_cancel, create-loses}
use nestjs_cqrs_saga.Examples.Memory.{memory, first}
use nestjs_cqrs_saga.Examples.Services.{services, empty_world, waiting, pending_order, book, lamp}

abbrev withdrawal : CancelOrderCommand
withdrawal = record { order_id = "o1"; user_id = "u1"; reason = none; correlation_id = some "k1" }

abbrev confirmation : ConfirmOrderCommand
confirmation = record { order_id = "o1"; payment_id = "p1"; correlation_id = some "k1" }

abbrev cancelled_world : World
cancelled_world = finish services (cancelling withdrawal pending_order) waiting

abbrev overwritten : World
overwritten = finish services (confirming confirmation pending_order) cancelled_world

both_read : Steps services waiting [] cancelled_world (confirming confirmation pending_order ∷ [])
unfolding services read first
both_read =
    Steps.next (Step.reads (to_cancel withdrawal) (cancelling withdrawal pending_order) refl) (
      Steps.next (Step.reads (to_confirm confirmation) (confirming confirmation pending_order) refl)
        (Steps.next
          (Step.ends (confirming confirmation pending_order ∷ [])
            (cancelling withdrawal pending_order) [])
          Steps.done))

Steps-Rewrites_example :
    ((i : String) → Lasts (order_by i waiting) (order_by i overwritten))
    × ((i : String) → Rewrites (order_by i cancelled_world) (order_by i overwritten))
    × IsKeyed (λ r. r.id) overwritten.orders
Steps-Rewrites_example =
    Steps-Rewrites services waiting cancelled_world overwritten
      (confirming confirmation pending_order ∷ []) [] (refl, tt) both_read
      (Step.ends [] (confirming confirmation pending_order) [])

confirm-overwrites_cancel_example :
    order_by "o1" overwritten
    ≡ some (record pending_order { status = OrderStatus.paid; payment_id = some "p1" })
unfolding services read first finish execute_cancel
confirm-overwrites_cancel_example =
    (confirm-overwrites_cancel services withdrawal confirmation pending_order waiting (λ r t. refl)
      refl refl refl).3

-- The services with a database that refuses a key that another order has.
abbrev is_taken_by : Order → Order → Bool
is_taken_by r x =
    not (x.id == r.id) && is_truthy r.idempotency_key && opt_eq x.idempotency_key r.idempotency_key

unfoldable save_unique : Order → List Order → Outcome (Order × List Order)
save_unique r t =
    if any (is_taken_by r) t
    then err (database "23505" (some "Key (\"idempotencyKey\") already exists.") "duplicate key")
    else ok (r, upsert (λ x. x.id) r t)

save_unique_ok :
    (r r' : Order) (t t' : List Order)
    → save_unique r t ≡ ok (r', t')
    → (r' ≡ r) × (t' ≡ upsert (λ x. x.id) r t)
unfolding save_unique
save_unique_ok r r' t t' h = ground arith

abbrev constrained : Platform
constrained = record services {
  orders = record (memory (λ (r : Order). r.id)) { save = save_unique; save_ok = save_unique_ok };
}

abbrev request : CreateOrderCommand
request = record {
  user_id = "u1";
  items = book ∷ lamp ∷ [];
  shipping_address = "Seoul";
  correlation_id = some "k1";
}

abbrev stored : World
stored = finish constrained (creating request) empty_world

create-loses_example : count (has_key "k1") stored.orders ≡ 1
unfolding services memory first save_unique finish create_order reduce_items is_key_violation
    includes
create-loses_example =
    (create-loses constrained request (record request { shipping_address = "Busan" }) "k1"
      empty_world (new_order constrained request empty_world)
      (new_order constrained request empty_world ∷ [])
      (database "23505" (some "Key (\"idempotencyKey\") already exists.") "duplicate key") refl refl
      refl refl refl refl refl).2
