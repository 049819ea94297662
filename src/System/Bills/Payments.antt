-- ===== src/System/Bills/Payments.antt =====
-- The commands on payments and the simulation's end, beside the orders that they charge.
use nestjs_cqrs_saga.Prelude.{
  String, ◌≡◌, refl, sym, subst, ap, inl, inr, ◌⊎◌, Bool, Option, none, some, List, ◌∷◌, ◌++◌, All,
  arith,
}
use nestjs_cqrs_saga.Outcome.{Outcome-cases}
use nestjs_cqrs_saga.Table.{upsert}
use nestjs_cqrs_saga.Entity.{
  Payment, PaymentStatus, OrderCreatedEvent, ProcessPaymentCommand, RefundPaymentCommand,
}
use nestjs_cqrs_saga.World.{World, Platform, Task, settle_payment}
use nestjs_cqrs_saga.Order.Announced.{created_orders, promised, promised-settlement}
use nestjs_cqrs_saga.Order.Transitions.{order_by}
use nestjs_cqrs_saga.Payment.{execute_process, execute_refund, settle}
use nestjs_cqrs_saga.Payment.Outcomes.{new_payment, SamePurchase}
use nestjs_cqrs_saga.System.Trail.{ChargeFor}
use nestjs_cqrs_saga.System.Frame.{
  execute_process-SameBooks, execute_refund-SameBooks, settle-SameBooks,
}
use nestjs_cqrs_saga.System.Orders.{same-OrdersEvolve}
use nestjs_cqrs_saga.System.Payments.Moves.{
  Pays, execute_process-Pays, execute_refund-Pays, execute_refund-rewrites, execute_refund-deferred,
  settle-Pays, settle-WritesOnce,
}
use nestjs_cqrs_saga.System.Charges.Relation.{IsConsistent}
use nestjs_cqrs_saga.System.Charges.Payments.{
  execute_refund-bus, settle-bus, settling_found, settle-promised,
}
use nestjs_cqrs_saga.System.Bills.Relation.{
  Charged, Told, IsHonest, IndexTold, StaysHonest, Charged-Evolves, Told-Evolves, StaysHonest-intro,
  All-upsert, All-lookup,
}

-- A payment that is written again for the same purchase charges what it did.
SamePurchase-Charged : (w : World) (a x : Payment) → SamePurchase a x → Charged w a → Charged w x
SamePurchase-Charged w a x same (o, e, b, c) = (
  o,
  subst (λ i. order_by i w ≡ some o) (sym same.1) e,
  ground (arith, same, b),
  ground (arith, same, c),
)

-- A command that charges as an event tells makes a payment that agrees with the order.
ChargeFor-Charged :
    (p : Platform) (e : OrderCreatedEvent) (c : ProcessPaymentCommand) (w : World)
    → ChargeFor e c
    → Told w e
    → Charged w (new_payment p c w)
ChargeFor-Charged p e c w same (o, there, a, b) = (
  o,
  subst (λ i. order_by i w ≡ some o) (sym same.0) there,
  ground (arith, same, a),
  ground (arith, same, b),
)

module _ (p : Platform) where
  -- A command on payments, or the end of the simulation, whose payments agree with the orders.
  payments-StaysHonest :
      (b : Option OrderCreatedEvent) (v w : World)
      → w.orders ≡ v.orders
      → Pays v w
      → created_orders w.bus ≡ created_orders v.bus
      → promised w.deferred ≡ promised v.deferred
      → (IsConsistent v → IsHonest v → IndexTold b v → All (Charged v) w.payments)
      → StaysHonest b v w
  payments-StaysHonest b v w o q d x f =
      StaysHonest-intro b v w (same-OrdersEvolve v w o) q (λ c honest told m. (
        Charged-Evolves v w m w.payments (f c honest told),
        subst (All (Told w)) (sym d) (Told-Evolves v w m (created_orders v.bus) honest.1),
        subst (All (Told w)) (sym x) (Told-Evolves v w m (promised v.deferred) honest.2),
      ))

  execute_process-payments :
      (c : ProcessPaymentCommand) (w : World)
      → ((execute_process p c w).1.payments ≡ w.payments)
        ⊎ ((execute_process p c w).1.payments ≡ upsert (λ r. r.id) (new_payment p c w) w.payments)
  unfolding execute_process
  execute_process-payments c w =
      elim (Outcome-cases (p.payments.save (new_payment p c w) w.payments)) [
        | inl ((r, t), e) ↦
            inr (ground (arith, p.payments.save_ok (new_payment p c w) r w.payments t e))
        | inr (x, e) ↦ inl (ground arith)
      ]

  pub execute_process-StaysHonest :
      (e : OrderCreatedEvent) (c : ProcessPaymentCommand) (w : World)
      → ChargeFor e c
      → StaysHonest (some e) w (execute_process p c w).1
  unfolding execute_process
  execute_process-StaysHonest e c w same =
      let v = (execute_process p c w).1 in
      payments-StaysHonest (some e) w v (execute_process-SameBooks p c w).0
        (execute_process-Pays p c w) (ground arith) (grind (arith, promised-settlement))
        (λ consistent honest told. elim (execute_process-payments c w) [
          | inl h ↦ subst (All (Charged w)) (sym h) honest.0
          | inr h ↦ subst (All (Charged w)) (sym h) (
              All-upsert (Charged w) (λ r. r.id) (new_payment p c w) w.payments
                (ChargeFor-Charged p e c w same told) honest.0)
        ])

  pub execute_refund-StaysHonest :
      (c : RefundPaymentCommand) (w : World) → StaysHonest none w (execute_refund p c w).1
  execute_refund-StaysHonest c w =
      let v = (execute_refund p c w).1 in
      payments-StaysHonest none w v (execute_refund-SameBooks p c w).0 (execute_refund-Pays p c w)
        (execute_refund-bus p c w) (ap promised (execute_refund-deferred p c w))
        (λ consistent honest told. elim (execute_refund-rewrites p c w) [
          | inl h ↦ subst (λ u. All (Charged w) u.payments) (sym h) honest.0
          | inr (a, found, done, h) ↦
              let b : Payment = record a { status = PaymentStatus.refunded } in
              let old = All-lookup (Charged w) (λ r. r.id) a.id a w.payments found honest.0 in
              subst (All (Charged w)) (sym h) (
                All-upsert (Charged w) (λ r. r.id) b w.payments
                  (SamePurchase-Charged w a b (refl, refl, refl, refl, refl) old) honest.0)
        ])

  pub settle-StaysHonest :
      (b : Bool) (a : Payment) (c : Option String) (before after : List Task) (w : World)
      → w.deferred ≡ before ++ settle_payment a c ∷ after
      → StaysHonest none w (settle p a c b (record w { deferred = before ++ after })).1
  settle-StaysHonest b a c before after w e =
      let u : World = record w { deferred = before ++ after } in
      let v = (settle p a c b u).1 in
      payments-StaysHonest none w v (settle-SameBooks p a c b u).0
        (settle-Pays p b a c before after w e) (settle-bus p a c b u)
        (settle-promised p b a c before after w e)
        (λ consistent honest told. elim (settle-WritesOnce p a c b u) [
          | inl h ↦ subst (All (Charged w)) (sym h) honest.0
          | inr (x, same, ended, h) ↦
              let found = settling_found p a c before after w e consistent in
              let old = All-lookup (Charged w) (λ r. r.id) a.id a w.payments found honest.0 in
              subst (All (Charged w)) (sym h) (
                All-upsert (Charged w) (λ r. r.id) x w.payments
                  (SamePurchase-Charged w a x same old) honest.0)
        ])
