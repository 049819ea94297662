-- ===== src/Order.antt =====
-- src/order/commands/handlers/order.handlers.ts: the handlers of the order commands. Their
-- try/catch blocks that only log and throw again are left out.
pub mod Create
pub mod Transitions
pub mod Effects
pub mod Announced
pub mod Interleaved
pub mod Races
use nestjs_cqrs_saga.Prelude.{
  ℕ, ◌+◌, ◌*◌, String, Bool, true, false, ◌&&◌, Option, none, some, List, [], ◌∷◌, ◌==◌,
  if◌then◌else◌, is_truthy, truthy_or, includes, opt_eq,
}
use nestjs_cqrs_saga.Outcome.{
  Outcome, ok, err, Error, http, duplicate_order, database, not_found, conflict,
}
use nestjs_cqrs_saga.Entity.{
  Order, OrderItem, OrderStatus, CreateOrderCommand, CancelOrderCommand, ConfirmOrderCommand,
  order_created, order_cancelled, order_confirmed, order_status_changed,
}
use nestjs_cqrs_saga.World.{
  World, Platform, Action, pure, throw, gets, ◌>>=◌, ◌>>◌, catch, defer, publish_all,
}
use nestjs_cqrs_saga.Store.{find_order, save_order}

-- `items.reduce((sum, item) => sum + item.price * item.quantity, sum)`
unfoldable pub reduce_items : ℕ → List OrderItem → ℕ
reduce_items sum [] = sum
reduce_items sum (item ∷ items) = reduce_items (sum + item.price * item.quantity) items

-- The body of the `try` in `CreateOrderHandler.execute`, once no order has the key.
unfoldable pub create_order : Platform → CreateOrderCommand → Action Order
create_order p c = do
  i ← gets (λ w. p.orders.generate w.orders)
  saved ← save_order p (record {
    id = i;
    user_id = c.user_id;
    total_amount = reduce_items 0 c.items;
    status = OrderStatus.pending;
    items = c.items;
    payment_id = none;
    shipping_address = c.shipping_address;
    idempotency_key = c.correlation_id;
  })
  now ← gets (λ w. w.now)
  defer (
      publish_all (
        order_created (record {
          order_id = saved.id;
          user_id = saved.user_id;
          total_amount = saved.total_amount;
          items = saved.items;
          shipping_address = saved.shipping_address;
          correlation_id = c.correlation_id;
          occurred_at = now;
        })
        ∷ []))
  pure saved

-- `where: { idempotencyKey: correlationId }`
abbrev pub has_key : String → Order → Bool
has_key k r = opt_eq r.idempotency_key (some k)

-- The `try` of `CreateOrderHandler.execute`.
unfoldable pub try_create : Platform → CreateOrderCommand → Action Order
try_create p c =
    if is_truthy c.correlation_id
    then (find_order p (has_key (truthy_or c.correlation_id "")) >>= λ o. elim o [
      | some existing ↦ throw (duplicate_order existing.id (truthy_or c.correlation_id ""))
      | none ↦ create_order p c
    ])
    else create_order p c

-- `error.code === '23505' && error.detail?.includes('idempotencyKey')`
unfoldable pub is_key_violation : Error → Bool
is_key_violation (database code (some detail) m) =
    code == "23505" && includes detail "idempotencyKey"
is_key_violation _ = false

-- The `catch` of `CreateOrderHandler.execute`. Without a key TypeORM drops the undefined condition,
-- and any order may be found.
unfoldable pub on_create_error : Platform → CreateOrderCommand → Error → Action Order
on_create_error p c e =
    if is_key_violation e
    then (find_order p (elim c.correlation_id [ some k ↦ has_key k | none ↦ λ r. true ]) >>= λ o.
        elim o [
          | some existing ↦
              throw (duplicate_order existing.id (elim c.correlation_id [ some k ↦ k | none ↦ "" ]))
          | none ↦ throw e
        ])
    else throw e

-- `CreateOrderHandler.execute`
unfoldable pub execute_create : Platform → CreateOrderCommand → Action Order
execute_create p c = catch (try_create p c) (on_create_error p c)

-- `correlationId || uuidv4()`, where it is the method's `n`-th new identifier.
abbrev pub correlation_or_new : Platform → ℕ → Option String → World → Option String
correlation_or_new p n c w = some (truthy_or c (p.uuid n w))

-- What `CancelOrderHandler.execute` does with an order that it may cancel.
unfoldable pub cancel_order : Platform → CancelOrderCommand → Order → Action (Unit {0})
cancel_order p c order = do
  save_order p (record order { status = OrderStatus.cancelled })
  w ← gets (λ w. w)
  defer (
      publish_all (
        order_cancelled (record {
          order_id = c.order_id;
          user_id = c.user_id;
          reason = c.reason;
          correlation_id = correlation_or_new p 0 c.correlation_id w;
          occurred_at = w.now;
        })
        ∷ order_status_changed (record {
          order_id = c.order_id;
          previous_status = order.status;
          new_status = OrderStatus.cancelled;
          correlation_id = correlation_or_new p 1 c.correlation_id w;
          occurred_at = w.now;
        })
        ∷ []))

-- The tests of the order's status, in the order of the source.
unfoldable pub cancel_by_status :
    OrderStatus → Platform → CancelOrderCommand → Order → Action (Unit {0})
cancel_by_status OrderStatus.cancelled p c order = pure tt
cancel_by_status OrderStatus.delivered p c order =
    throw (http conflict "Cannot cancel delivered order")
cancel_by_status _ p c order = cancel_order p c order

-- `CancelOrderHandler.execute`
unfoldable pub execute_cancel : Platform → CancelOrderCommand → Action (Unit {0})
execute_cancel p c = do
  found ← find_order p (λ r. r.id == c.order_id && r.user_id == c.user_id)
  elim found [
    | none ↦ throw (http not_found "Order not found")
    | some order ↦ cancel_by_status order.status p c order
  ]

-- What `ConfirmOrderHandler.execute` does with a pending order.
unfoldable pub confirm_order : Platform → ConfirmOrderCommand → Order → Action (Unit {0})
confirm_order p c order = do
  save_order p (record order { status = OrderStatus.paid; payment_id = some c.payment_id })
  w ← gets (λ w. w)
  defer (
      publish_all (
        order_confirmed (record {
          order_id = c.order_id;
          payment_id = c.payment_id;
          total_amount = order.total_amount;
          correlation_id = correlation_or_new p 0 c.correlation_id w;
          occurred_at = w.now;
        })
        ∷ order_status_changed (record {
          order_id = c.order_id;
          previous_status = order.status;
          new_status = OrderStatus.paid;
          correlation_id = correlation_or_new p 1 c.correlation_id w;
          occurred_at = w.now;
        })
        ∷ []))

unfoldable pub confirm_by_status :
    OrderStatus → Platform → ConfirmOrderCommand → Order → Action (Unit {0})
confirm_by_status OrderStatus.pending p c order = confirm_order p c order
confirm_by_status _ p c order = pure tt

-- `ConfirmOrderHandler.execute`
unfoldable pub execute_confirm : Platform → ConfirmOrderCommand → Action (Unit {0})
execute_confirm p c = do
  found ← find_order p (λ r. r.id == c.order_id)
  elim found [
    | none ↦ throw (http not_found "Order not found")
    | some order ↦ confirm_by_status order.status p c order
  ]
