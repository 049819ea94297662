-- ===== src/System/Bills/Bus.antt =====
-- Announcements on their way from a callback over the bus to the handlers, beside the orders.
use nestjs_cqrs_saga.Prelude.{◌≡◌, refl, sym, subst, none, List, ◌∷◌, ◌++◌, All, All-append}
use nestjs_cqrs_saga.Entity.{
  BusEvent, order_created, order_cancelled, order_confirmed, order_status_changed,
  payment_processed, payment_failed, payment_refunded,
}
use nestjs_cqrs_saga.World.{World, Task, publish_all}
use nestjs_cqrs_saga.Order.Announced.{
  created_orders, promised, created_orders-append, promised-append,
}
use nestjs_cqrs_saga.Payment.Pending.{settles-append}
use nestjs_cqrs_saga.System.Trail.{charged_by}
use nestjs_cqrs_saga.System.Orders.{same-OrdersEvolve}
use nestjs_cqrs_saga.System.Payments.Moves.{same-Pays}
use nestjs_cqrs_saga.System.Bills.Relation.{
  Told, IndexTold, StaysHonest, StaysHonest-intro, All-append_left, All-append_right,
}

-- Events go from a callback to the bus.
pub announces-StaysHonest :
    (es : List BusEvent) (before after : List Task) (w : World)
    → w.deferred ≡ before ++ publish_all es ∷ after
    → StaysHonest none w (record w { deferred = before ++ after; bus = w.bus ++ es })
announces-StaysHonest es before after w e =
    let v : World = record w { deferred = before ++ after; bus = w.bus ++ es } in
    let had : promised w.deferred ≡ promised before ++ (created_orders es ++ promised after) =
      rw e (promised-append before (publish_all es ∷ after)) in
    StaysHonest-intro none w v (same-OrdersEvolve w v refl)
      (same-Pays w v refl
        (rw (e, settles-append before after, settles-append before (publish_all es ∷ after))))
      (λ consistent honest told m.
        let all = subst (All (Told w)) had honest.2 in
        let rest =
          All-append_right (Told w) (promised before) (created_orders es ++ promised after) all in
        (
          honest.0,
          subst (All (Told w)) (sym (created_orders-append w.bus es)) (
              All-append (Told w) (created_orders w.bus) (created_orders es) honest.1
                (All-append_left (Told w) (created_orders es) (promised after) rest)),
          subst (All (Told w)) (sym (promised-append before after)) (
              All-append (Told w) (promised before) (promised after)
                (All-append_left (Told w) (promised before) (created_orders es ++ promised after)
                  all)
                (All-append_right (Told w) (created_orders es) (promised after) rest)),
        ))

first-Told :
    (v : World) (bus : List BusEvent) (e : BusEvent) (after : List BusEvent)
    → All (Told v) (created_orders (e ∷ after))
    → IndexTold (charged_by e) (record v { bus = bus }) × All (Told v) (created_orders after)
first-Told v bus (order_created e) after h = h
first-Told v bus (order_cancelled e) after h = (tt, h)
first-Told v bus (order_confirmed e) after h = (tt, h)
first-Told v bus (order_status_changed e) after h = (tt, h)
first-Told v bus (payment_processed e) after h = (tt, h)
first-Told v bus (payment_failed e) after h = (tt, h)
first-Told v bus (payment_refunded e) after h = (tt, h)

-- An event that is taken from the bus is told to its handlers.
pub delivers-StaysHonest :
    (e : BusEvent) (before after : List BusEvent) (v w : World)
    → v.bus ≡ before ++ e ∷ after
    → StaysHonest (charged_by e) (record v { bus = before ++ after }) w
    → StaysHonest none v w
delivers-StaysHonest e before after v w h k consistent honest told =
    let had : created_orders v.bus ≡ created_orders before ++ created_orders (e ∷ after) =
      rw h (created_orders-append before (e ∷ after)) in
    let all = subst (All (Told v)) had honest.1 in
    let first =
      first-Told v (before ++ after) e after
        (All-append_right (Told v) (created_orders before) (created_orders (e ∷ after)) all) in
    let rest : All (Told v) (created_orders (before ++ after)) =
      subst (All (Told v)) (sym (created_orders-append before after)) (
        All-append (Told v) (created_orders before) (created_orders after)
          (All-append_left (Told v) (created_orders before) (created_orders (e ∷ after)) all)
          first.1) in
    k consistent (honest.0, rest, honest.2) first.0
