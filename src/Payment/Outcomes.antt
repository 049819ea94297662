-- ===== src/Payment/Outcomes.antt =====
-- What the payment commands of src/payment/commands/handlers/payment.handlers.ts store and announce.
use nestjs_cqrs_saga.Prelude.{
  String, ◌≡◌, refl, ◌⊎◌, inl, inr, Bool, true, false, Option, none, some, List, [], ◌∷◌, ◌++◌,
  arith, ◌<+>◌,
}
use nestjs_cqrs_saga.Outcome.{Outcome, ok, err, Error, Outcome-cases}
use nestjs_cqrs_saga.Table.{lookup, upsert_fresh, lookup-upsert_self, lookup-upsert_at}
use nestjs_cqrs_saga.Entity.{
  Payment, PaymentStatus, ProcessPaymentCommand, PaymentProcessedEvent, PaymentFailedEvent,
  payment_processed, payment_failed,
}
use nestjs_cqrs_saga.World.{World, Platform, settle_payment}
use nestjs_cqrs_saga.Payment.{execute_process, settle, complete_payment, fail_payment, paid}

abbrev pub payment_by : String → World → Option Payment
payment_by i w = lookup (λ r. r.id) i w.payments

-- The payment that a command describes, under the identifier that the database gives it.
abbrev pub new_payment : Platform → ProcessPaymentCommand → World → Payment
new_payment p c w = record {
  id = p.payments.generate w.payments;
  order_id = c.order_id;
  user_id = c.user_id;
  amount = c.amount;
  method = c.method;
  status = PaymentStatus.processing;
  external_transaction_id = none;
  failure_reason = none;
}

-- If the database accepts it, a command stores one new payment in processing, returns it, and
-- defers its simulation with the command's correlation id.
pub execute_process-stores :
    (p : Platform) (c : ProcessPaymentCommand) (w : World) (r : Payment) (t : List Payment)
    → p.payments.save (new_payment p c w) w.payments ≡ ok (r, t)
    → execute_process p c w ≡ (
      ok (new_payment p c w),
      record w {
        payments = w.payments ++ new_payment p c w ∷ [];
        deferred = w.deferred ++ settle_payment (new_payment p c w) c.correlation_id ∷ [];
      },
    )
unfolding execute_process
execute_process-stores p c w r t saved = ground (
  arith,
  p.payments.save_ok (new_payment p c w) r w.payments t saved,
  upsert_fresh (λ (r : Payment). r.id) (new_payment p c w) w.payments
      (p.payments.generate_fresh w.payments),
)

-- The payment, its order, its payer, its amount and its method.
abbrev pub SamePurchase : Payment → Payment → Type 0
SamePurchase a b =
    (b.id ≡ a.id)
    × (b.order_id ≡ a.order_id)
    × (b.user_id ≡ a.user_id)
    × (b.amount ≡ a.amount)
    × (b.method ≡ a.method)

-- The simulation's end, if it is stored: the payment, and the one event that tells the same.
pub data Settled (a : Payment) (c : Option String) (w w' : World) : Type 0 where
  processed :
      (b : Payment) (e : PaymentProcessedEvent)
      → payment_by a.id w' ≡ some b
      → SamePurchase a b
      → b.status ≡ PaymentStatus.completed
      → b.external_transaction_id ≡ some e.external_transaction_id
      → (e.payment_id ≡ a.id)
        × (e.order_id ≡ a.order_id)
        × (e.user_id ≡ a.user_id)
        × (e.amount ≡ a.amount)
        × (e.correlation_id ≡ c)
      → w'.bus ≡ w.bus ++ payment_processed e ∷ []
      → Settled a c w w'
  failed :
      (b : Payment) (e : PaymentFailedEvent)
      → payment_by a.id w' ≡ some b
      → SamePurchase a b
      → b.status ≡ PaymentStatus.failed
      → b.failure_reason ≡ some e.failure_reason
      → (e.payment_id ≡ a.id)
        × (e.order_id ≡ a.order_id)
        × (e.user_id ≡ a.user_id)
        × (e.amount ≡ a.amount)
        × (e.correlation_id ≡ c)
      → w'.bus ≡ w.bus ++ payment_failed e ∷ []
      → Settled a c w w'

module _ (p : Platform) (a : Payment) (c : Option String) where
  failure : World → String → PaymentFailedEvent
  failure w reason = record {
    payment_id = a.id;
    order_id = a.order_id;
    user_id = a.user_id;
    amount = a.amount;
    failure_reason = reason;
    correlation_id = c;
    occurred_at = w.now;
  }

  abbrev pub Ends : World → Outcome (Unit {0}) × World → Type 0
  Ends w m = ((m.0 ≡ ok tt) × Settled a c w m.1) ⊎ ((e : Error) × (m.0 ≡ err e) × (m.1 ≡ w))

  -- `payment` is the object as the `try` block has left it.
  fail_payment-Ends :
      (payment : Payment) (reason : String) (w : World)
      → SamePurchase a payment
      → Ends w (fail_payment p payment c reason w)
  unfolding fail_payment failure
  fail_payment-Ends payment reason w same =
      let b : Payment = record payment {
        status = PaymentStatus.failed;
        failure_reason = some reason;
      } in
      elim (Outcome-cases (p.payments.save b w.payments)) [
        | inl ((r, t), e) ↦
            let law = p.payments.save_ok b r w.payments t e in
            inl (
              ground arith,
              failed b (failure w reason)
                  (ground
                    (arith, law, lookup-upsert_at (λ (x : Payment). x.id) a.id b w.payments same.0))
                  same refl refl (refl, refl, refl, refl, refl) (ground (arith, same)),
            )
        | inr (x, e) ↦ inr (x, ground arith, ground arith)
      ]

  complete_payment-Ends :
      (w : World)
      → Ends w (complete_payment p a c w)
        × ((e : Error) → (complete_payment p a c w).0 ≡ err e → (complete_payment p a c w).1 ≡ w)
  unfolding complete_payment
  complete_payment-Ends w =
      let b = paid p a w in
      (
        elim (Outcome-cases (p.payments.save b w.payments)) [
          | inl ((r, t), e) ↦
              let law = p.payments.save_ok b r w.payments t e in
              inl (
                ground arith,
                processed b
                    (record {
                      payment_id = a.id;
                      order_id = a.order_id;
                      user_id = a.user_id;
                      amount = a.amount;
                      external_transaction_id = "ext_tx_" <+> p.uuid 0 w;
                      correlation_id = c;
                      occurred_at = w.now;
                    })
                    (ground (arith, law, lookup-upsert_self (λ (x : Payment). x.id) b w.payments))
                    (refl, refl, refl, refl, refl) refl refl (refl, refl, refl, refl, refl)
                    (ground arith),
              )
          | inr (x, e) ↦ inr (x, ground arith, ground arith)
        ],
        λ e thrown. ground arith,
      )

  or_fails :
      (m : Outcome (Unit {0}) × World) (payment : Payment) (w : World)
      → Ends w m
      → SamePurchase a payment
      → Ends w (elim m.0 [
        | ok u ↦ (ok u, m.1)
        | err e ↦ fail_payment p payment c "Payment processing error" m.1
      ])
  or_fails (ok u, w') payment w (inl (r, s)) same = inl (refl, s)
  or_fails (ok u, w') payment w (inr (e, r, s)) same = cc
  or_fails (err x, w') payment w (inl (r, s)) same = cc
  or_fails (err x, w') payment w (inr (e, r, s)) same =
      rw s (fail_payment-Ends payment "Payment processing error" w same)

  -- However the simulation comes out, and whatever the database does: either the payment is stored
  -- as completed or as failed, the purchase unchanged, and exactly one event follows, which tells of
  -- this payment and the same outcome; or the callback throws, and nothing is stored or announced.
  pub settle-Ends : (is_success : Bool) (w : World) → Ends w (settle p a c is_success w)
  unfolding settle
  settle-Ends true w =
      or_fails (complete_payment p a c w) (paid p a w) w (complete_payment-Ends w).0
        (refl, refl, refl, refl, refl)
  settle-Ends false w =
      or_fails (fail_payment p a c "Insufficient funds or card declined" w) a w
        (fail_payment-Ends a "Insufficient funds or card declined" w (refl, refl, refl, refl, refl))
        (refl, refl, refl, refl, refl)
