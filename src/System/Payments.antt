-- ===== src/System/Payments.antt =====
-- The payments over whole runs of the service.
pub mod Moves
use nestjs_cqrs_saga.Prelude.{
  ℕ, ◌≡◌, refl, sym, subst, inl, inr, Option, none, some, ◌∷◌, ◌++◌, arith,
}
use nestjs_cqrs_saga.Outcome.{ok, err, plain}
use nestjs_cqrs_saga.Entity.{Payment, PaymentStatus, RefundPaymentCommand}
use nestjs_cqrs_saga.World.{World, Platform, publish_all}
use nestjs_cqrs_saga.Store.{save_event}
use nestjs_cqrs_saga.Payment.{execute_refund}
use nestjs_cqrs_saga.Payment.Outcomes.{payment_by}
use nestjs_cqrs_saga.Payment.Refund.{execute_refund-refuses, execute_refund-Refunds}
use nestjs_cqrs_saga.Payment.Pending.{
  PaymentMove, PaymentEvolves, settles, settles-append, HasPending,
}
use nestjs_cqrs_saga.System.{Run}
use nestjs_cqrs_saga.System.Trail.{Trail}
use nestjs_cqrs_saga.System.Methods.{Run-Keeps}
use nestjs_cqrs_saga.System.Payments.Moves.{
  Pays, same-Pays, Pays-trans, execute_create-Pays, execute_cancel-Pays, execute_confirm-Pays,
  execute_process-Pays, execute_refund-Pays, settle-Pays,
}

stays_refunded :
    (a : Payment) (o : Option Payment)
    → a.status ≡ PaymentStatus.refunded
    → PaymentEvolves (some a) o
    → (s : Payment) × (o ≡ some s) × (s.status ≡ PaymentStatus.refunded)
stays_refunded a none e m = absurd m
stays_refunded a (some s) e m = (s, refl, subst (λ k. PaymentMove k s.status) e m.0)

module _ (p : Platform) (others : (n : ℕ) (w : World) → Pays w (p.elapse n w)) where
  payments_trail : Trail p
  payments_trail = record {
    rel = λ b. Pays;
    leads = λ b. Pays-trans;
    ends_with = λ b. Pays-trans;
    allows = λ b v w h. h;
    frame = λ v w h. same-Pays v w h.2 h.3;
    creates = execute_create-Pays p;
    cancels = execute_cancel-Pays p;
    confirms = execute_confirm-Pays p;
    processes = λ e c w h. execute_process-Pays p c w;
    refunds = execute_refund-Pays p;
    ends = settle-Pays p;
    announces = λ es before after w e.
        same-Pays w (record w { deferred = before ++ after; bus = w.bus ++ es }) refl
          (rw (e, settles-append before after, settles-append before (publish_all es ∷ after)));
    delivers = λ e before after v w h m.
        let u : World = record v { bus = before ++ after } in
        Pays-trans v u w (same-Pays v u refl refl) m;
    logs = λ r w h. same-Pays w (save_event p r w).1 (ground arith) (ground arith);
    elapses = others;
  }

  -- A payment is refunded once: after a refund that has returned, under the same conditions, every
  -- later refund of this payment throws and changes nothing, however the service has run in between.
  pub Run-refunds_once :
      (c d : RefundPaymentCommand) (u w : World)
      → HasPending u.payments (settles u.deferred)
      → (execute_refund p c u).0 ≡ ok tt
      → d.payment_id ≡ c.payment_id
      → Run p (execute_refund p c u).1 w
      → execute_refund p d w ≡ (err (plain "Payment not found or cannot be refunded"), w)
  unfolding payments_trail
  Run-refunds_once c d u w pending returned same run = elim (execute_refund-Refunds p c u) [
    | inl (a, found, done, r, stored, bus) ↦
        let v = (execute_refund p c u).1 in
        let evolves =
          (Run-Keeps p payments_trail v w run (execute_refund-Pays p c u pending).1).0
            d.payment_id in
        let before : payment_by d.payment_id v
            ≡ some (record a { status = PaymentStatus.refunded }) =
          subst (λ i. payment_by i v ≡ some (record a { status = PaymentStatus.refunded }))
            (sym same) stored in
        let (s, there, still) =
          stays_refunded (record a { status = PaymentStatus.refunded }) (payment_by d.payment_id w)
            refl (subst (λ o. PaymentEvolves o (payment_by d.payment_id w)) before evolves) in
        execute_refund-refuses p d s w there (λ x. ground arith)
    | inr (e, r, unchanged) ↦ absurd (ground (arith, returned, r))
  ]
