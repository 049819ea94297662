-- ===== src/System/Payments/Moves.antt =====
-- What the methods of the service do to the payments and to the callbacks that wait to end them.
use nestjs_cqrs_saga.Prelude.{
  [], String, ◌≡◌, ◌≢◌, refl, sym, subst, ap, inl, inr, ◌⊎◌, Bool, true, false, Option, none, some,
  List, ◌∷◌, ◌++◌, arith, Option-cases,
}
use nestjs_cqrs_saga.Outcome.{Outcome, ok, err, Error, Outcome-cases}
use nestjs_cqrs_saga.Table.{upsert, upsert_fresh, key-lookup}
use nestjs_cqrs_saga.Entity.{
  Payment, PaymentStatus, PaymentStatus-discrete, ProcessPaymentCommand, RefundPaymentCommand,
  CreateOrderCommand, CancelOrderCommand, ConfirmOrderCommand,
}
use nestjs_cqrs_saga.World.{World, Platform, Task, settle_payment}
use nestjs_cqrs_saga.Order.{
  execute_create, execute_cancel, execute_confirm, try_create, create_order, on_create_error,
  cancel_by_status, cancel_order, confirm_by_status, confirm_order,
}
use nestjs_cqrs_saga.Payment.{
  execute_process, execute_refund, refund_by_status, settle, complete_payment, fail_payment, paid,
}
use nestjs_cqrs_saga.Payment.Outcomes.{SamePurchase, payment_by, new_payment}
use nestjs_cqrs_saga.Payment.Refund.{execute_refund-refuses}
use nestjs_cqrs_saga.Payment.Pending.{
  PaymentEvolves-refl, PaymentEvolves-trans, settles, settles-append, settles-events, PaymentsMove,
  process-PaymentsMove, drop-PaymentsMove, end-PaymentsMove, refund-PaymentsMove,
}

-- The payments of two states of a run, with those whose end is to come.
abbrev pub Pays : World → World → Type 0
Pays v w = PaymentsMove v.payments (settles v.deferred) w.payments (settles w.deferred)

moved-Pays :
    (v w : World) (payments waiting : List Payment)
    → PaymentsMove v.payments (settles v.deferred) payments waiting
    → w.payments ≡ payments
    → settles w.deferred ≡ waiting
    → Pays v w
moved-Pays v w payments waiting m e q =
    subst (λ t. PaymentsMove v.payments (settles v.deferred) t (settles w.deferred)) (sym e)
      (subst (PaymentsMove v.payments (settles v.deferred) payments) (sym q) m)

pub same-Pays :
    (v w : World) → w.payments ≡ v.payments → settles w.deferred ≡ settles v.deferred → Pays v w
same-Pays v w =
    moved-Pays v w v.payments (settles v.deferred)
      (λ h. (λ i. PaymentEvolves-refl (payment_by i v), h))

pub Pays-trans : (u v w : World) → Pays u v → Pays v w → Pays u w
Pays-trans u v w h k pending =
    let first = h pending in
    let second = k first.1 in
    (
      λ i.
          PaymentEvolves-trans (payment_by i u) (payment_by i v) (payment_by i w) (first.0 i)
            (second.0 i),
      second.1,
    )

-- What a command that makes a payment has done in the state `v`: the payment that it returns is a
-- new row in processing, with one callback; where it throws, it has done neither.
abbrev pub Starts : World → Outcome Payment × World → Type 0
Starts v (ok a, w) =
    (w.payments ≡ v.payments ++ a ∷ [])
    × (payment_by a.id v ≡ none)
    × (a.status ≡ PaymentStatus.processing)
    × (settles w.deferred ≡ settles v.deferred ++ a ∷ [])
Starts v (err e, w) = (w.payments ≡ v.payments) × (settles w.deferred ≡ settles v.deferred)

module _ (p : Platform) where
  pub execute_create-Pays : (c : CreateOrderCommand) (w : World) → Pays w (execute_create p c w).1
  unfolding execute_create try_create create_order on_create_error
  execute_create-Pays c w =
      same-Pays w (execute_create p c w).1 (ground arith) (grind (arith, settles-events))

  pub execute_cancel-Pays : (c : CancelOrderCommand) (w : World) → Pays w (execute_cancel p c w).1
  unfolding execute_cancel cancel_by_status cancel_order
  execute_cancel-Pays c w =
      same-Pays w (execute_cancel p c w).1 (ground arith) (grind (arith, settles-events))

  pub execute_confirm-Pays :
      (c : ConfirmOrderCommand) (w : World) → Pays w (execute_confirm p c w).1
  unfolding execute_confirm confirm_by_status confirm_order
  execute_confirm-Pays c w =
      same-Pays w (execute_confirm p c w).1 (ground arith) (grind (arith, settles-events))

  pub execute_process-Pays :
      (c : ProcessPaymentCommand) (w : World) → Pays w (execute_process p c w).1
  unfolding execute_process
  execute_process-Pays c w =
      let a = new_payment p c w in
      elim (Outcome-cases (p.payments.save a w.payments)) [
        | inl ((r, t), e) ↦
            let law = p.payments.save_ok a r w.payments t e in
            moved-Pays w (execute_process p c w).1 (upsert (λ x. x.id) a w.payments)
              (settles w.deferred ++ a ∷ [])
              (process-PaymentsMove a w.payments (settles w.deferred) refl
                (p.payments.generate_fresh w.payments))
              (ground (arith, law))
              (ground
                (arith, law, settles-append w.deferred (settle_payment a c.correlation_id ∷ [])))
        | inr (x, e) ↦ same-Pays w (execute_process p c w).1 (ground arith) (ground arith)
      ]

  pub execute_process-Starts :
      (c : ProcessPaymentCommand) (w : World) → Starts w (execute_process p c w)
  unfolding execute_process
  execute_process-Starts c w =
      let a = new_payment p c w in
      elim (Outcome-cases (p.payments.save a w.payments)) [
        | inl ((r, t), e) ↦
            let law = p.payments.save_ok a r w.payments t e in
            let fresh = p.payments.generate_fresh w.payments in
            let same = upsert_fresh (λ (x : Payment). x.id) a w.payments fresh in
            let new : (execute_process p c w).1.payments ≡ w.payments ++ a ∷ [] =
              ground (arith, law, same) in
            let back : settles (execute_process p c w).1.deferred ≡ settles w.deferred ++ a ∷ [] =
              ground
                (arith, law, settles-append w.deferred (settle_payment a c.correlation_id ∷ [])) in
            let returned : execute_process p c w ≡ (ok a, (execute_process p c w).1) =
              ground (arith, law) in
            subst (Starts w) (sym returned) (new, fresh, refl, back)
        | inr (x, e) ↦
            let thrown : execute_process p c w ≡ (err x, (execute_process p c w).1) =
              ground arith in
            subst (Starts w) (sym thrown) (ground arith, ground arith)
      ]

  -- A refund changes nothing, or writes one stored and completed payment as refunded.
  pub execute_refund-rewrites :
      (c : RefundPaymentCommand) (w : World)
      → ((execute_refund p c w).1 ≡ w)
        ⊎ ((a : Payment) × (payment_by a.id w ≡ some a)
            × (a.status ≡ PaymentStatus.completed)
            × ((execute_refund p c w).1.payments
                ≡ upsert (λ x. x.id) (record a { status = PaymentStatus.refunded }) w.payments))
  unfolding execute_refund refund_by_status
  execute_refund-rewrites c w = elim (Option-cases (payment_by c.payment_id w)) [
    | inl e ↦ inl (ground (arith, p.payments.find_one-key c.payment_id w.payments))
    | inr (a, e) ↦ elim (PaymentStatus-discrete a.status PaymentStatus.completed) [
      | no n ↦ inl (ap (λ r. r.1) (execute_refund-refuses p c a w e n))
      | yes done ↦
          let b : Payment = record a { status = PaymentStatus.refunded } in
          let found = p.payments.find_one-key c.payment_id w.payments in
          elim (Outcome-cases (p.payments.save b w.payments)) [
            | inl ((r, t), h) ↦
                let law = p.payments.save_ok b r w.payments t h in
                inr (
                  a,
                  subst (λ i. payment_by i w ≡ some a)
                      (sym (key-lookup (λ (x : Payment). x.id) c.payment_id w.payments a e)) e,
                  done,
                  ground (arith, law, found),
                )
            | inr (x, h) ↦ inl (ground (arith, found))
          ]
    ]
  ]

  pub execute_refund-deferred :
      (c : RefundPaymentCommand) (w : World) → (execute_refund p c w).1.deferred ≡ w.deferred
  unfolding execute_refund refund_by_status
  execute_refund-deferred c w = ground arith

  pub execute_refund-Pays : (c : RefundPaymentCommand) (w : World) → Pays w (execute_refund p c w).1
  execute_refund-Pays c w =
      let v = (execute_refund p c w).1 in
      let waiting : settles v.deferred ≡ settles w.deferred =
        ap settles (execute_refund-deferred c w) in
      elim (execute_refund-rewrites c w) [
        | inl e ↦ same-Pays w v (ap (λ u. u.payments) e) waiting
        | inr (a, found, done, e) ↦
            moved-Pays w v
              (upsert (λ x. x.id) (record a { status = PaymentStatus.refunded }) w.payments)
              (settles w.deferred)
              (refund-PaymentsMove a w.payments (settles w.deferred) found done) e waiting
      ]

  -- What a call of the simulation's end writes: nothing, or its payment once, as completed or failed.
  abbrev pub WritesOnce : Payment → World → World → Type 0
  WritesOnce a w v =
      (v.payments ≡ w.payments)
      ⊎ ((x : Payment) × SamePurchase a x
          × (x.status ≢ PaymentStatus.pending)
          × (v.payments ≡ upsert (λ r. r.id) x w.payments))

  fail_payment-WritesOnce :
      (a payment : Payment) (c : Option String) (reason : String) (w : World)
      → SamePurchase a payment
      → WritesOnce a w (fail_payment p payment c reason w).1
  unfolding fail_payment
  fail_payment-WritesOnce a payment c reason w same =
      let b : Payment = record payment {
        status = PaymentStatus.failed;
        failure_reason = some reason;
      } in
      elim (Outcome-cases (p.payments.save b w.payments)) [
        | inl ((r, t), e) ↦
            let law = p.payments.save_ok b r w.payments t e in
            inr (b, same, λ x. ground arith, ground (arith, law))
        | inr (x, e) ↦ inl (ground arith)
      ]

  fail_payment_unchanged :
      (payment : Payment) (c : Option String) (reason : String) (w : World) (e : Error)
      → (fail_payment p payment c reason w).0 ≡ err e
      → (fail_payment p payment c reason w).1 ≡ w
  unfolding fail_payment
  fail_payment_unchanged payment c reason w e h = ground arith

  pub settle-WritesOnce :
      (a : Payment) (c : Option String) (b : Bool) (w : World) → WritesOnce a w (settle p a c b w).1
  unfolding settle complete_payment
  settle-WritesOnce a c true w = elim (Outcome-cases (p.payments.save (paid p a w) w.payments)) [
    | inl ((r, t), e) ↦
        let law = p.payments.save_ok (paid p a w) r w.payments t e in
        inr (paid p a w, (refl, refl, refl, refl, refl), λ x. ground arith, ground (arith, law))
    | inr (x, e) ↦
        let fails =
          fail_payment-WritesOnce a (paid p a w) c "Payment processing error" w
            (refl, refl, refl, refl, refl) in
        let same : (settle p a c true w).1
            ≡ (fail_payment p (paid p a w) c "Payment processing error" w).1 =
          ground arith in
        subst (WritesOnce a w) (sym same) fails
  ]
  settle-WritesOnce a c false w =
      let reason : String = "Insufficient funds or card declined" in
      elim (Outcome-cases (fail_payment p a c reason w).0) [
        | inl (u, e) ↦
            let same : (settle p a c false w).1 ≡ (fail_payment p a c reason w).1 = ground arith in
            subst (WritesOnce a w) (sym same)
              (fail_payment-WritesOnce a a c reason w (refl, refl, refl, refl, refl))
        | inr (x, e) ↦
            let same : (settle p a c false w).1
                ≡ (fail_payment p a c "Payment processing error" w).1 =
              ground (arith, fail_payment_unchanged a c reason w x e) in
            subst (WritesOnce a w) (sym same) (
              fail_payment-WritesOnce a a c "Payment processing error" w
                (refl, refl, refl, refl, refl))
      ]

  pub settle-deferred :
      (a : Payment) (c : Option String) (b : Bool) (w : World)
      → (settle p a c b w).1.deferred ≡ w.deferred
  unfolding settle complete_payment fail_payment
  settle-deferred a c b w = ground arith

  pub settle-Pays :
      (b : Bool) (a : Payment) (c : Option String) (before after : List Task) (w : World)
      → w.deferred ≡ before ++ settle_payment a c ∷ after
      → Pays w (settle p a c b (record w { deferred = before ++ after })).1
  settle-Pays b a c before after w e =
      let u : World = record w { deferred = before ++ after } in
      let v = (settle p a c b u).1 in
      let had : settles w.deferred ≡ settles before ++ a ∷ settles after =
        rw e (settles-append before (settle_payment a c ∷ after)) in
      let has : settles v.deferred ≡ settles before ++ settles after =
        rw (settle-deferred a c b u) (settles-append before after) in
      elim (settle-WritesOnce a c b u) [
        | inl none_written ↦
            moved-Pays w v w.payments (settles before ++ settles after)
              (subst (λ q. PaymentsMove w.payments q w.payments (settles before ++ settles after))
                (sym had) (drop-PaymentsMove a w.payments (settles before) (settles after)))
              none_written has
        | inr (x, same, ended, written) ↦
            moved-Pays w v (upsert (λ r. r.id) x w.payments) (settles before ++ settles after)
              (subst
                (λ q.
                  PaymentsMove w.payments q (upsert (λ r. r.id) x w.payments)
                    (settles before ++ settles after))
                (sym had)
                (end-PaymentsMove a x w.payments (settles before) (settles after) same ended))
              written has
      ]
