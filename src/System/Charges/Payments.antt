-- ===== src/System/Charges/Payments.antt =====
-- The commands on payments and the simulation's end, by the orders that they charge.
use nestjs_cqrs_saga.Prelude.{
  if◌then◌else◌, ◌+◌, ◌≤◌, String, ◌≡◌, refl, sym, subst, ap, append-nil, inl, inr, Bool, Option,
  none, some, List, ◌∷◌, ◌++◌, arith, count, ◌==◌, All,
}
use nestjs_cqrs_saga.Outcome.{Outcome-cases}
use nestjs_cqrs_saga.Table.{lookup, IsKeyed}
use nestjs_cqrs_saga.Table.Unique.{All-middle}
use nestjs_cqrs_saga.Entity.{
  OrderCreatedEvent, Payment, PaymentStatus, ProcessPaymentCommand, RefundPaymentCommand,
}
use nestjs_cqrs_saga.World.{World, Platform, Task, settle_payment}
use nestjs_cqrs_saga.Order.Announced.{
  created_orders, promised, created_orders-append, promised-append, promised-settlement,
}
use nestjs_cqrs_saga.Payment.{
  execute_process, execute_refund, refund_by_status, settle, complete_payment, fail_payment,
}
use nestjs_cqrs_saga.Payment.Outcomes.{new_payment}
use nestjs_cqrs_saga.Payment.Pending.{settles, settles-append}
use nestjs_cqrs_saga.Payment.Charges.{tells_of, stored_order, allowance, count-upsert_fresh}
use nestjs_cqrs_saga.System.Trail.{ChargeFor}
use nestjs_cqrs_saga.System.Frame.{execute_refund-SameBooks, settle-SameBooks}
use nestjs_cqrs_saga.System.Payments.Moves.{
  Pays, execute_process-Pays, execute_refund-Pays, execute_refund-rewrites, execute_refund-deferred,
  settle-Pays, settle-WritesOnce, settle-deferred,
}
use nestjs_cqrs_saga.System.Charges.Relation.{IsConsistent, Owes, payments_of, rewritten_charges}

module _ (p : Platform) where
  -- A command on payments, or the end of the simulation.
  pub payments-Owes :
      (b : Option OrderCreatedEvent) (v w : World)
      → w.orders ≡ v.orders
      → Pays v w
      → created_orders w.bus ≡ created_orders v.bus
      → promised w.deferred ≡ promised v.deferred
      → ((i : String) → payments_of i w ≤ payments_of i v + allowance b i)
      → Owes b v w
  payments-Owes b v w o q a d le h = (
    ((q h.0).1, subst (IsKeyed (λ r. r.id)) (sym o) h.1),
    λ i.
        let stored : stored_order i w ≡ stored_order i v = rw o refl in
        let announced : count (tells_of i) (created_orders w.bus)
            ≡ count (tells_of i) (created_orders v.bus) =
          rw a refl in
        let waiting : count (tells_of i) (promised w.deferred)
            ≡ count (tells_of i) (promised v.deferred) =
          rw d refl in
        omega (arith, le i, stored, announced, waiting),
  )

  pub execute_process-payments :
      (c : ProcessPaymentCommand) (w : World) (i : String)
      → payments_of i (execute_process p c w).1
        ≤ payments_of i w + (if c.order_id == i then 1 else 0)
  unfolding execute_process
  execute_process-payments c w i =
      let a = new_payment p c w in
      elim (Outcome-cases (p.payments.save a w.payments)) [
        | inl ((r, t), e) ↦ ground (
          arith,
          p.payments.save_ok a r w.payments t e,
          count-upsert_fresh (λ (x : Payment). x.id) (λ x. x.order_id == i) a w.payments
              (p.payments.generate_fresh w.payments),
        )
        | inr (x, e) ↦ ground arith
      ]

  pub execute_process-Owes :
      (e : OrderCreatedEvent) (c : ProcessPaymentCommand) (w : World)
      → ChargeFor e c
      → Owes (some e) w (execute_process p c w).1
  unfolding execute_process
  execute_process-Owes e c w h =
      let le : (i : String)
          → payments_of i (execute_process p c w).1 ≤ payments_of i w + allowance (some e) i =
        λ i.
          subst
            (λ j.
              payments_of i (execute_process p c w).1 ≤ payments_of i w + (if j == i then 1 else 0))
            h.0 (execute_process-payments c w i) in
      payments-Owes (some e) w (execute_process p c w).1 (ground arith) (execute_process-Pays p c w)
        (ground arith) (grind (arith, promised-settlement)) le

  pub execute_refund-bus :
      (c : RefundPaymentCommand) (w : World)
      → created_orders (execute_refund p c w).1.bus ≡ created_orders w.bus
  unfolding execute_refund refund_by_status
  execute_refund-bus c w = grind (arith, created_orders-append, append-nil)

  pub execute_refund-Owes :
      (c : RefundPaymentCommand) (w : World) → Owes none w (execute_refund p c w).1
  execute_refund-Owes c w =
      let v = (execute_refund p c w).1 in
      let le : (i : String) → payments_of i v ≤ payments_of i w + 0 = λ i.
        elim (execute_refund-rewrites p c w) [
          | inl e ↦ rw e (omega arith)
          | inr (a, found, done, e) ↦ rw e (
              omega (
                arith,
                rewritten_charges a (record a { status = PaymentStatus.refunded }) w.payments i
                    found refl,
              ))
        ] in
      payments-Owes none w v (execute_refund-SameBooks p c w).0 (execute_refund-Pays p c w)
        (execute_refund-bus c w) (ap promised (execute_refund-deferred p c w)) le

  pub settle-bus :
      (a : Payment) (c : Option String) (b : Bool) (w : World)
      → created_orders (settle p a c b w).1.bus ≡ created_orders w.bus
  unfolding settle complete_payment fail_payment
  settle-bus a c b w = grind (arith, created_orders-append, append-nil)

  -- The payment that a callback has captured is stored.
  pub settling_found :
      (a : Payment) (c : Option String) (before after : List Task) (w : World)
      → w.deferred ≡ before ++ settle_payment a c ∷ after
      → IsConsistent w
      → lookup (λ r. r.id) a.id w.payments ≡ some a
  settling_found a c before after w e h =
      let had : settles w.deferred ≡ settles before ++ a ∷ settles after =
        rw e (settles-append before (settle_payment a c ∷ after)) in
      (All-middle
        (λ x. (lookup (λ r. r.id) x.id w.payments ≡ some x) × (x.status ≡ PaymentStatus.processing))
        a (settles before) (settles after)
        (subst
          (All (λ x.
            (lookup (λ r. r.id) x.id w.payments ≡ some x) × (x.status ≡ PaymentStatus.processing)))
          had h.0.stored)).0.0

  pub settle-promised :
      (b : Bool) (a : Payment) (c : Option String) (before after : List Task) (w : World)
      → w.deferred ≡ before ++ settle_payment a c ∷ after
      → promised (settle p a c b (record w { deferred = before ++ after })).1.deferred
        ≡ promised w.deferred
  settle-promised b a c before after w e = rw (
    settle-deferred p a c b (record w { deferred = before ++ after }),
    e,
    promised-append before after,
    promised-append before (settle_payment a c ∷ after),
  )

  pub settle-Owes :
      (b : Bool) (a : Payment) (c : Option String) (before after : List Task) (w : World)
      → w.deferred ≡ before ++ settle_payment a c ∷ after
      → Owes none w (settle p a c b (record w { deferred = before ++ after })).1
  settle-Owes b a c before after w e h =
      let u : World = record w { deferred = before ++ after } in
      let v = (settle p a c b u).1 in
      let found = settling_found a c before after w e h in
      let le : (i : String) → payments_of i v ≤ payments_of i w + 0 = λ i.
        elim (settle-WritesOnce p a c b u) [
          | inl same ↦ rw same (omega arith)
          | inr (x, same, ended, written) ↦
              let at : lookup (λ r. r.id) x.id w.payments ≡ some a =
                subst (λ j. lookup (λ r. r.id) j w.payments ≡ some a) (sym same.0) found in
              rw written (omega (arith, rewritten_charges a x w.payments i at same.1))
        ] in
      payments-Owes none w v (settle-SameBooks p a c b u).0 (settle-Pays p b a c before after w e)
        (settle-bus a c b u) (settle-promised b a c before after w e) le h
