-- ===== src/Order/Interleaved.antt =====
-- The commands of src/order/commands/handlers/order.handlers.ts as the event loop interleaves them:
-- each handler awaits its `findOne` first and its `save` later, and anything may happen in between.
pub mod Rows
pub mod Evolution
use nestjs_cqrs_saga.Prelude.{
  ℕ, String, ◌≡◌, ◌⊎◌, refl, sym, ◌∙◌, subst, inl, inr, Option, none, some, List, [], ◌∷◌, ◌++◌,
  arith, All, ◌==◌, ◌&&◌, if◌then◌else◌, is_truthy, truthy_or, Option-cases, Bool,
}
use nestjs_cqrs_saga.Table.{IsKeyed, lookup}
use nestjs_cqrs_saga.Table.Unique.{All-middle}
use nestjs_cqrs_saga.Entity.{
  Order, OrderStatus, CreateOrderCommand, CancelOrderCommand, ConfirmOrderCommand,
}
use nestjs_cqrs_saga.World.{World, Platform, catch}
use nestjs_cqrs_saga.Store.{save_order}
use nestjs_cqrs_saga.Order.{
  has_key, create_order, try_create, on_create_error, is_key_violation, cancel_by_status,
  cancel_order, confirm_by_status, confirm_order, execute_create, execute_cancel, execute_confirm,
}
use nestjs_cqrs_saga.Order.Transitions.{
  Moves, StatusMove, RowsMove, RowsMove-refl, save_order-RowsMove, order_by, found-order_by,
  create_order-OrdersMove,
}

pub data Command : Type 0 where
  to_create : CreateOrderCommand → Command
  to_cancel : CancelOrderCommand → Command
  to_confirm : ConfirmOrderCommand → Command

-- A handler that has read what it decides on and has its tests and its write to come, with the order
-- object that it holds.
pub data Call : Type 0 where
  creating : CreateOrderCommand → Call
  cancelling : CancelOrderCommand → Order → Call
  confirming : ConfirmOrderCommand → Order → Call

module _ (p : Platform) where
  -- A handler up to its query, unless it throws there.
  unfoldable pub read : Command → World → Option Call
  read (to_create c) w =
      if is_truthy c.correlation_id
      then elim (p.orders.find_one (has_key (truthy_or c.correlation_id "")) w.orders) [
        | some existing ↦ none
        | none ↦ some (creating c)
      ]
      else some (creating c)
  read (to_cancel c) w =
      elim (p.orders.find_one (λ r. r.id == c.order_id && r.user_id == c.user_id) w.orders) [
        | some order ↦ some (cancelling c order)
        | none ↦ none
      ]
  read (to_confirm c) w = elim (p.orders.find_one (λ r. r.id == c.order_id) w.orders) [
    | some order ↦ some (confirming c order)
    | none ↦ none
  ]

  -- The rest of a handler.
  unfoldable pub finish : Call → World → World
  finish (creating c) w = (catch (create_order p c) (on_create_error p c) w).1
  finish (cancelling c order) w = (cancel_by_status order.status p c order w).1
  finish (confirming c order) w = (confirm_by_status order.status p c order w).1

  abbrev pub execute : Command → World → World
  execute (to_create c) w = (execute_create p c w).1
  execute (to_cancel c) w = (execute_cancel p c w).1
  execute (to_confirm c) w = (execute_confirm p c w).1

  -- A handler that nothing interrupts is its two parts.
  pub execute-finish :
      (c : Command) (w : World) → execute c w ≡ elim (read c w) [ some x ↦ finish x w | none ↦ w ]
  unfolding read finish execute_create try_create on_create_error is_key_violation execute_cancel
      execute_confirm
  execute-finish (to_create c) w = ground arith
  execute-finish (to_cancel c) w = ground arith
  execute-finish (to_confirm c) w = ground arith

  -- One step, with the handlers under way: one reads, or one of them runs to its end, in whichever
  -- order, or something that does not concern the orders happens.
  pub data Step : World → List Call → World → List Call → Type 0 where
    reads :
        {w : World} {xs : List Call} (c : Command) (x : Call)
        → read c w ≡ some x
        → Step w xs w (x ∷ xs)
    ends :
        {w : World} (before : List Call) (x : Call) (after : List Call)
        → Step w (before ++ x ∷ after) (finish x w) (before ++ after)
    else_where : {v w : World} {xs : List Call} → w.orders ≡ v.orders → Step v xs w xs

  pub data Steps : World → List Call → World → List Call → Type 0 where
    done : {w : World} {xs : List Call} → Steps w xs w xs
    next :
        {u v w : World} {xs ys zs : List Call} → Step u xs v ys → Steps v ys w zs → Steps u xs w zs
