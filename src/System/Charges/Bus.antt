-- ===== src/System/Charges/Bus.antt =====
-- Announcements on their way from a callback over the bus to the handlers.
use nestjs_cqrs_saga.Prelude.{
  ◌+◌, String, ◌≡◌, refl, none, List, ◌∷◌, ◌++◌, arith, count, count-append,
}
use nestjs_cqrs_saga.Entity.{
  BusEvent, order_created, order_cancelled, order_confirmed, order_status_changed,
  payment_processed, payment_failed, payment_refunded,
}
use nestjs_cqrs_saga.World.{World, Task, publish_all}
use nestjs_cqrs_saga.Order.Announced.{
  created_orders, promised, created_orders-append, promised-append,
}
use nestjs_cqrs_saga.Payment.Pending.{settles-append}
use nestjs_cqrs_saga.Payment.Charges.{tells_of, allowance}
use nestjs_cqrs_saga.System.Trail.{charged_by}
use nestjs_cqrs_saga.System.Charges.Relation.{Owes, same-Owes}

-- Events that go from a callback to the bus are announced as often as before.
pub announces-Owes :
    (es : List BusEvent) (before after : List Task) (w : World)
    → w.deferred ≡ before ++ publish_all es ∷ after
    → Owes none w (record w { deferred = before ++ after; bus = w.bus ++ es })
announces-Owes es before after w e =
    let v : World = record w { deferred = before ++ after; bus = w.bus ++ es } in
    same-Owes w v refl refl
      (rw (e, settles-append before after, settles-append before (publish_all es ∷ after)))
      (λ i.
        let test = tells_of i in
        let on_bus : count test (created_orders v.bus)
            ≡ count test (created_orders w.bus) + count test (created_orders es) =
          rw (created_orders-append w.bus es)
            (count-append test (created_orders w.bus) (created_orders es)) in
        let waits : count test (promised w.deferred)
            ≡ count test (promised before)
              + (count test (created_orders es) + count test (promised after)) =
          rw (e, promised-append before (publish_all es ∷ after))
            (omega (
              arith,
              count-append test (promised before) (created_orders es ++ promised after),
              count-append test (created_orders es) (promised after),
            )) in
        let waits_after : count test (promised v.deferred)
            ≡ count test (promised before) + count test (promised after) =
          rw (promised-append before after)
            (count-append test (promised before) (promised after)) in
        omega (arith, on_bus, waits, waits_after))

pub announced_first :
    (e : BusEvent) (after : List BusEvent) (i : String)
    → count (tells_of i) (created_orders (e ∷ after))
      ≡ count (tells_of i) (created_orders after) + allowance (charged_by e) i
announced_first (order_created e) after i = ground arith
announced_first (order_cancelled e) after i = omega arith
announced_first (order_confirmed e) after i = omega arith
announced_first (order_status_changed e) after i = omega arith
announced_first (payment_processed e) after i = omega arith
announced_first (payment_failed e) after i = omega arith
announced_first (payment_refunded e) after i = omega arith

pub announced_middle :
    (e : BusEvent) (before after : List BusEvent) (i : String)
    → count (tells_of i) (created_orders (before ++ e ∷ after))
      ≡ count (tells_of i) (created_orders (before ++ after)) + allowance (charged_by e) i
announced_middle e before after i =
    let test = tells_of i in
    rw (created_orders-append before (e ∷ after), created_orders-append before after)
      (omega (
        arith,
        count-append test (created_orders before) (created_orders (e ∷ after)),
        count-append test (created_orders before) (created_orders after),
        announced_first e after i,
      ))

-- An event that is taken from the bus pays for the charge that its handlers may make.
pub delivers-Owes :
    (e : BusEvent) (before after : List BusEvent) (v w : World)
    → v.bus ≡ before ++ e ∷ after
    → Owes (charged_by e) (record v { bus = before ++ after }) w
    → Owes none v w
delivers-Owes e before after v w h k c =
    let r = k c in
    (
      r.0,
      λ i.
          let taken : count (tells_of i) (created_orders v.bus)
              ≡ count (tells_of i) (created_orders (before ++ after)) + allowance (charged_by e) i =
            rw h (announced_middle e before after i) in
          omega (arith, r.1 i, taken),
    )
