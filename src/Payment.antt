-- ===== src/Payment.antt =====
-- src/payment/commands/handlers/payment.handlers.ts: the handlers of the payment commands.
pub mod Outcomes
pub mod Refund
pub mod Pending
pub mod Charges
use nestjs_cqrs_saga.Prelude.{
  String, Bool, true, false, Option, none, some, [], ◌∷◌, ◌++◌, ◌==◌, ◌<+>◌, if◌then◌else◌,
}
use nestjs_cqrs_saga.Outcome.{Outcome, ok, err, Error, plain}
use nestjs_cqrs_saga.Entity.{
  Payment, PaymentStatus, ProcessPaymentCommand, RefundPaymentCommand, payment_processed,
  payment_failed, payment_refunded, BusEvent,
}
use nestjs_cqrs_saga.World.{
  World, Platform, Action, pure, throw, gets, modify, ◌>>=◌, ◌>>◌, catch, defer, settle_payment,
}
use nestjs_cqrs_saga.Store.{find_payment, save_payment}

-- `ProcessPaymentHandler.execute`: the payment is stored and its simulation deferred.
unfoldable pub execute_process : Platform → ProcessPaymentCommand → Action Payment
execute_process p c = do
  i ← gets (λ w. p.payments.generate w.payments)
  saved ← save_payment p (record {
    id = i;
    order_id = c.order_id;
    user_id = c.user_id;
    amount = c.amount;
    method = c.method;
    status = PaymentStatus.processing;
    external_transaction_id = none;
    failure_reason = none;
  })
  defer (settle_payment saved c.correlation_id)
  pure saved

-- `eventBus.publish(event)`
abbrev pub emit : BusEvent → Action (Unit {0})
emit e = modify (λ w. record w { bus = w.bus ++ e ∷ [] })

-- The failure branch and the `catch` branch, which differ in the reason.
unfoldable pub fail_payment : Platform → Payment → Option String → String → Action (Unit {0})
fail_payment p payment c reason = do
  save_payment p (record payment { status = PaymentStatus.failed; failure_reason = some reason })
  now ← gets (λ w. w.now)
  emit (
      payment_failed (record {
        payment_id = payment.id;
        order_id = payment.order_id;
        user_id = payment.user_id;
        amount = payment.amount;
        failure_reason = reason;
        correlation_id = c;
        occurred_at = now;
      }))

-- The success branch; the payment object as its assignments leave it.
abbrev pub paid : Platform → Payment → World → Payment
paid p payment w = record payment {
  status = PaymentStatus.completed;
  external_transaction_id = some ("ext_tx_" <+> p.uuid 0 w);
}

unfoldable pub complete_payment : Platform → Payment → Option String → Action (Unit {0})
complete_payment p payment c = do
  w ← gets (λ w. w)
  save_payment p (paid p payment w)
  emit (
      payment_processed (record {
        payment_id = payment.id;
        order_id = payment.order_id;
        user_id = payment.user_id;
        amount = payment.amount;
        external_transaction_id = "ext_tx_" <+> p.uuid 0 w;
        correlation_id = c;
        occurred_at = w.now;
      }))

-- The callback of `simulateExternalPaymentProcessing` after its delay; `is_success` is the random
-- choice. The objects that the `catch` block sees are those that the `try` block has assigned to.
unfoldable pub settle : Platform → Payment → Option String → (is_success : Bool) → Action (Unit {0})
settle p payment c true w =
    catch (complete_payment p payment c)
      (λ e. fail_payment p (paid p payment w) c "Payment processing error") w
settle p payment c false w =
    catch (fail_payment p payment c "Insufficient funds or card declined")
      (λ e. fail_payment p payment c "Payment processing error") w

unfoldable pub refund_by_status :
    PaymentStatus → Platform → RefundPaymentCommand → Payment → Action (Unit {0})
refund_by_status PaymentStatus.completed p c payment = do
  save_payment p (record payment { status = PaymentStatus.refunded })
  now ← gets (λ w. w.now)
  emit (
      payment_refunded (record {
        payment_id = c.payment_id;
        order_id = payment.order_id;
        refund_amount = payment.amount;
        reason = c.reason;
        correlation_id = c.correlation_id;
        occurred_at = now;
      }))
refund_by_status _ p c payment = throw (plain "Payment not found or cannot be refunded")

-- `RefundPaymentHandler.execute`
unfoldable pub execute_refund : Platform → RefundPaymentCommand → Action (Unit {0})
execute_refund p c = do
  found ← find_payment p (λ r. r.id == c.payment_id)
  elim found [
    | none ↦ throw (plain "Payment not found or cannot be refunded")
    | some payment ↦ refund_by_status payment.status p c payment
  ]
