-- ===== src/Order/Interleaved/Evolution.antt =====
-- The orders over every interleaving of the handlers of
-- src/order/commands/handlers/order.handlers.ts.
use nestjs_cqrs_saga.Prelude.{
  String, ◌≡◌, ◌⊎◌, refl, sym, subst, inl, inr, some, List, [], ◌++◌, arith, All, ◌==◌, ◌&&◌, Bool,
}
use nestjs_cqrs_saga.Table.{IsKeyed}
use nestjs_cqrs_saga.Table.Unique.{All-middle}
use nestjs_cqrs_saga.Entity.{
  Order, OrderStatus, CreateOrderCommand, CancelOrderCommand, ConfirmOrderCommand,
}
use nestjs_cqrs_saga.World.{World, Platform}
use nestjs_cqrs_saga.Store.{save_order}
use nestjs_cqrs_saga.Order.{
  create_order, on_create_error, cancel_by_status, cancel_order, confirm_by_status, confirm_order,
}
use nestjs_cqrs_saga.Order.Transitions.{
  RowsMove-refl, save_order-RowsMove, order_by, found-order_by, create_order-OrdersMove,
}
use nestjs_cqrs_saga.Order.Interleaved.{
  Call, creating, cancelling, confirming, Command, to_create, to_cancel, to_confirm, read, finish,
  Step, Steps,
}
use nestjs_cqrs_saga.Order.Interleaved.Rows.{
  SameOrder, Rewrites, Rewrites-refl, Lasts, Lasts-refl, Rewrites-Lasts, Lasts-trans,
  Moves-Rewrites, RowsRewrite, Kept, IsCurrent, rewritten-IsCurrent,
}

module _ (p : Platform) where
  -- A save of the object that a handler holds, with another status.
  save-RowsRewrite :
      (o r : Order) (w : World)
      → (r.status ≡ OrderStatus.paid) ⊎ (r.status ≡ OrderStatus.cancelled)
      → SameOrder o r
      → Kept o w.orders
      → RowsRewrite w.orders (save_order p r w).1.orders
  save-RowsRewrite o r w status same (s, e, kept) =
      let found : order_by r.id w ≡ some s = subst (λ i. order_by i w ≡ some s) (sym same.0) e in
      save_order-RowsMove Rewrites Rewrites-refl p r w
        (subst (λ x. Rewrites x (some r)) (sym found) (inr status, ground (arith, same, kept)))

  cancelled_or_same :
      (c : CancelOrderCommand) (o : Order) (k : OrderStatus) (w : World)
      → ((cancel_by_status k p c o w).1.orders ≡ w.orders)
        ⊎ ((cancel_by_status k p c o w).1.orders
            ≡ (save_order p (record o { status = OrderStatus.cancelled }) w).1.orders)
  unfolding cancel_by_status cancel_order
  cancelled_or_same c o k w = ground arith

  confirmed_or_same :
      (c : ConfirmOrderCommand) (o : Order) (k : OrderStatus) (w : World)
      → let r = record o { status = OrderStatus.paid; payment_id = some c.payment_id } in
        ((confirm_by_status k p c o w).1.orders ≡ w.orders)
        ⊎ ((confirm_by_status k p c o w).1.orders ≡ (save_order p r w).1.orders)
  unfolding confirm_by_status confirm_order
  confirmed_or_same c o k w = ground arith

  created_alike :
      (c : CreateOrderCommand) (w : World)
      → (finish p (creating c) w).orders ≡ (create_order p c w).1.orders
  unfolding finish on_create_error create_order
  created_alike c w = ground arith

  same-RowsRewrite : (t t' : List Order) → t' ≡ t → RowsRewrite t t'
  same-RowsRewrite t t' e = subst (RowsRewrite t) (sym e) (RowsMove-refl Rewrites Rewrites-refl t)

  finish-RowsRewrite :
      (x : Call) (w : World) → IsCurrent w.orders x → RowsRewrite w.orders (finish p x w).orders
  unfolding finish
  finish-RowsRewrite (creating c) w h =
      let m = create_order-OrdersMove p c w in
      let v = (create_order p c w).1 in
      subst (RowsRewrite w.orders) (sym (created_alike c w))
        (λ i. Moves-Rewrites (order_by i w) (order_by i v) (m.0 i), m.1)
  finish-RowsRewrite (cancelling c o) w h =
      let r = record o { status = OrderStatus.cancelled } in
      elim (cancelled_or_same c o o.status w) [
        | inl e ↦ same-RowsRewrite w.orders _ e
        | inr e ↦
            subst (RowsRewrite w.orders) (sym e)
              (save-RowsRewrite o r w (inr refl) (refl, refl, refl, refl, refl, refl) h)
      ]
  finish-RowsRewrite (confirming c o) w h =
      let r = record o { status = OrderStatus.paid; payment_id = some c.payment_id } in
      elim (confirmed_or_same c o o.status w) [
        | inl e ↦ same-RowsRewrite w.orders _ e
        | inr e ↦
            subst (RowsRewrite w.orders) (sym e)
              (save-RowsRewrite o r w (inl refl) (refl, refl, refl, refl, refl, refl) h)
      ]

  found-Kept :
      (test : Order → Bool) (r : Order) (w : World)
      → IsKeyed (λ r. r.id) w.orders
      → p.orders.find_one test w.orders ≡ some r
      → Kept r w.orders
  found-Kept test r w keyed e =
      (r, found-order_by p test r w keyed e, (refl, refl, refl, refl, refl, refl))

  read-IsCurrent :
      (c : Command) (x : Call) (w : World)
      → IsKeyed (λ r. r.id) w.orders
      → read p c w ≡ some x
      → IsCurrent w.orders x
  unfolding read
  read-IsCurrent (to_create c) (creating d) w keyed e = tt
  read-IsCurrent (to_create c) (cancelling d o) w keyed e = absurd (ground arith)
  read-IsCurrent (to_create c) (confirming d o) w keyed e = absurd (ground arith)
  read-IsCurrent (to_cancel c) (creating d) w keyed e = tt
  read-IsCurrent (to_cancel c) (cancelling d o) w keyed e =
      found-Kept (λ r. r.id == c.order_id && r.user_id == c.user_id) o w keyed (ground (arith, e))
  read-IsCurrent (to_cancel c) (confirming d o) w keyed e = absurd (ground arith)
  read-IsCurrent (to_confirm c) (creating d) w keyed e = tt
  read-IsCurrent (to_confirm c) (cancelling d o) w keyed e = absurd (ground arith)
  read-IsCurrent (to_confirm c) (confirming d o) w keyed e =
      found-Kept (λ r. r.id == c.order_id) o w keyed (ground (arith, e))

  -- Identifiers are unique, and the objects held are current.
  abbrev Sound : World → List Call → Type 0
  Sound w xs = IsKeyed (λ r. r.id) w.orders × All (IsCurrent w.orders) xs

  Step-Rewrites :
      (v w : World) (xs ys : List Call)
      → Step p v xs w ys
      → Sound v xs
      → RowsRewrite v.orders w.orders × Sound w ys
  Step-Rewrites v _ xs _ (Step.reads c x e) h =
      (RowsMove-refl Rewrites Rewrites-refl v.orders, (h.0, (read-IsCurrent c x v h.0 e, h.1)))
  Step-Rewrites v _ _ _ (Step.ends before x after) h =
      let held = All-middle (IsCurrent v.orders) x before after h.1 in
      let m = finish-RowsRewrite x v held.0 in
      (m, (m.1 h.0, rewritten-IsCurrent v.orders (finish p x v).orders (before ++ after) m held.1))
  Step-Rewrites v w xs _ (Step.else_where e) h =
      let m = same-RowsRewrite v.orders w.orders e in
      (m, (m.1 h.0, rewritten-IsCurrent v.orders w.orders xs m h.1))

  Steps-Lasts :
      (v w : World) (xs ys : List Call)
      → Steps p v xs w ys
      → Sound v xs
      → ((i : String) → Lasts (order_by i v) (order_by i w)) × Sound w ys
  Steps-Lasts v _ xs _ Steps.done h = (λ i. Lasts-refl (order_by i v), h)
  Steps-Lasts v w xs zs (Steps.next {v = u} {ys = ys} s rest) h =
      let first = Step-Rewrites v u xs ys s h in
      let later = Steps-Lasts u w ys zs rest first.1 in
      (
        λ i.
            Lasts-trans (order_by i v) (order_by i u) (order_by i w)
              (Rewrites-Lasts (order_by i v) (order_by i u) (first.0.0 i)) (later.0 i),
        later.1,
      )

  -- However the event loop interleaves the handlers of the order commands between their reads and
  -- their writes, from a state with unique primary keys in which none of them is under way: no order
  -- is removed, every order keeps its user, lines, total, address and key, a status only becomes paid
  -- or cancelled, so that it never goes back to pending, an order that any further step adds is
  -- pending, and primary keys stay unique.
  pub Steps-Rewrites :
      (v w u : World) (xs ys : List Call)
      → IsKeyed (λ r. r.id) v.orders
      → Steps p v [] w xs
      → Step p w xs u ys
      → ((i : String) → Lasts (order_by i v) (order_by i u))
        × ((i : String) → Rewrites (order_by i w) (order_by i u))
        × IsKeyed (λ r. r.id) u.orders
  Steps-Rewrites v w u xs ys keyed steps step =
      let first = Steps-Lasts v w [] xs steps (keyed, tt) in
      let later = Step-Rewrites w u xs ys step first.1 in
      (
        λ i.
            Lasts-trans (order_by i v) (order_by i w) (order_by i u) (first.0 i)
              (Rewrites-Lasts (order_by i w) (order_by i u) (later.0.0 i)),
        later.0.0,
        later.1.0,
      )
