-- ===== src/Payment/Refund.antt =====
-- `RefundPaymentHandler` of src/payment/commands/handlers/payment.handlers.ts.
use nestjs_cqrs_saga.Prelude.{
  ◌≡◌, ◌≢◌, ap, Option-cases, ◌⊎◌, inl, inr, some, List, [], ◌∷◌, ◌++◌, arith,
}
use nestjs_cqrs_saga.Outcome.{Outcome, ok, err, Error, plain, Outcome-cases}
use nestjs_cqrs_saga.Table.{lookup-upsert_at, key-lookup}
use nestjs_cqrs_saga.Entity.{
  Payment, PaymentStatus, PaymentStatus-discrete, RefundPaymentCommand, payment_refunded,
}
use nestjs_cqrs_saga.World.{World, Platform}
use nestjs_cqrs_saga.Payment.{execute_refund, refund_by_status}
use nestjs_cqrs_saga.Payment.Outcomes.{payment_by}

-- A refund of a payment that is stored as completed, if the database accepts it, stores it as
-- refunded with the rest of it unchanged, and publishes the refund of the whole amount; nothing else
-- changes.
pub execute_refund-refunds :
    (p : Platform) (c : RefundPaymentCommand) (a r : Payment) (t : List Payment) (w : World)
    → payment_by c.payment_id w ≡ some a
    → a.status ≡ PaymentStatus.completed
    → p.payments.save (record a { status = PaymentStatus.refunded }) w.payments ≡ ok (r, t)
    → let (x, w') = execute_refund p c w in
      (x ≡ ok tt)
      × (payment_by c.payment_id w' ≡ some (record a { status = PaymentStatus.refunded }))
      × (w'.bus
          ≡ w.bus
            ++ payment_refunded (record {
              payment_id = c.payment_id;
              order_id = a.order_id;
              refund_amount = a.amount;
              reason = c.reason;
              correlation_id = c.correlation_id;
              occurred_at = w.now;
            })
              ∷ [])
      × (w' ≡ record w { payments = w'.payments; bus = w'.bus })
unfolding execute_refund refund_by_status
execute_refund-refunds p c a r t w found done saved =
    let b : Payment = record a { status = PaymentStatus.refunded } in
    ground (
      arith,
      p.payments.find_one-key c.payment_id w.payments,
      p.payments.save_ok b r w.payments t saved,
      lookup-upsert_at (λ (x : Payment). x.id) c.payment_id b w.payments
          (key-lookup (λ (x : Payment). x.id) c.payment_id w.payments a found),
    )

-- A refund of a stored payment in any status but `completed` changes nothing and throws.
pub execute_refund-refuses :
    (p : Platform) (c : RefundPaymentCommand) (a : Payment) (w : World)
    → payment_by c.payment_id w ≡ some a
    → a.status ≢ PaymentStatus.completed
    → execute_refund p c w ≡ (err (plain "Payment not found or cannot be refunded"), w)
unfolding execute_refund refund_by_status
execute_refund-refuses p c a w found open_payment =
    ground (arith, p.payments.find_one-key c.payment_id w.payments)

-- The two ways in which a refund may end.
abbrev pub Refunds : RefundPaymentCommand → World → Outcome (Unit {0}) × World → Type 0
Refunds c w m =
    ((a : Payment) × (payment_by c.payment_id w ≡ some a)
      × (a.status ≡ PaymentStatus.completed)
      × (m.0 ≡ ok tt)
      × (payment_by c.payment_id m.1 ≡ some (record a { status = PaymentStatus.refunded }))
      × (m.1.bus
          ≡ w.bus
            ++ payment_refunded (record {
              payment_id = c.payment_id;
              order_id = a.order_id;
              refund_amount = a.amount;
              reason = c.reason;
              correlation_id = c.correlation_id;
              occurred_at = w.now;
            })
              ∷ []))
    ⊎ ((e : Error) × (m.0 ≡ err e) × (m.1 ≡ w))

-- A refund, whatever the database does, either was of a payment that is stored as completed, returns,
-- and leaves it stored as refunded with one event of the whole amount behind the others; or it throws
-- and has changed nothing.
pub execute_refund-Refunds :
    (p : Platform) (c : RefundPaymentCommand) (w : World) → Refunds c w (execute_refund p c w)
unfolding execute_refund refund_by_status
execute_refund-Refunds p c w = elim (Option-cases (payment_by c.payment_id w)) [
  | inl e ↦ inr (
    plain "Payment not found or cannot be refunded",
    ground (arith, p.payments.find_one-key c.payment_id w.payments),
    ground (arith, p.payments.find_one-key c.payment_id w.payments),
  )
  | inr (a, e) ↦ elim (PaymentStatus-discrete a.status PaymentStatus.completed) [
    | no n ↦
        let refused = execute_refund-refuses p c a w e n in
        inr (
          plain "Payment not found or cannot be refunded",
          ap (λ r. r.0) refused,
          ap (λ r. r.1) refused,
        )
    | yes done ↦
        let b : Payment = record a { status = PaymentStatus.refunded } in
        elim (Outcome-cases (p.payments.save b w.payments)) [
          | inl ((r, t), h) ↦
              let refunds = execute_refund-refunds p c a r t w e done h in
              inl (a, e, done, refunds.0, refunds.1, refunds.2)
          | inr (x, h) ↦ inr (
            x,
            ground (arith, p.payments.find_one-key c.payment_id w.payments, h),
            ground (arith, p.payments.find_one-key c.payment_id w.payments, h),
          )
        ]
  ]
]
