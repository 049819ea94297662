-- ===== src/Examples/Ledger.antt =====
-- The theorems on payments over runs, on the services in memory.
use nestjs_cqrs_saga.Prelude.{ℕ, ◌≡◌, refl, true, none, some, [], ◌∷◌}
use nestjs_cqrs_saga.Outcome.{err, plain}
use nestjs_cqrs_saga.Entity.{
  PaymentMethod, ProcessPaymentCommand, ConfirmOrderCommand, Payment, PaymentStatus,
  RefundPaymentCommand,
}
use nestjs_cqrs_saga.World.{World, settle_payment}
use nestjs_cqrs_saga.Order.{execute_confirm}
use nestjs_cqrs_saga.Payment.{execute_refund, refund_by_status}
use nestjs_cqrs_saga.Payment.Outcomes.{payment_by}
use nestjs_cqrs_saga.Payment.Pending.{PaymentEvolves-refl}
use nestjs_cqrs_saga.System.{Step, Run, run_task}
use nestjs_cqrs_saga.System.Payments.Moves.{Pays}
use nestjs_cqrs_saga.System.Payments.{Run-refunds_once}
use nestjs_cqrs_saga.Examples.Services.{services, waiting, paid_payment}

alone : (n : ℕ) (w : World) → Pays w (services.elapse n w)
unfolding services
alone n w h = (λ i. PaymentEvolves-refl (payment_by i w), h)

abbrev open_payment : Payment
open_payment = record paid_payment {
  status = PaymentStatus.processing;
  external_transaction_id = none;
}

-- One payment whose simulated end is to come.
abbrev charged : World
charged = record waiting {
  payments = open_payment ∷ [];
  deferred = settle_payment open_payment (some "k1") ∷ [];
}

abbrev ended : World
ended =
    (run_task services true (settle_payment open_payment (some "k1"))
      (record charged { deferred = [] })).1

abbrev charge : ProcessPaymentCommand
charge = record {
  order_id = "o2";
  user_id = "u2";
  amount = 30;
  method = PaymentMethod.credit_card;
  correlation_id = some "k2";
}

abbrev refund : RefundPaymentCommand
refund = record { payment_id = "p1"; reason = "returned"; correlation_id = some "k1" }

abbrev refunded : World
refunded = (execute_refund services refund waiting).1

abbrev late_confirmation : ConfirmOrderCommand
late_confirmation = record { order_id = "o1"; payment_id = "p1"; correlation_id = some "k1" }

abbrev confirmed : World
confirmed = (execute_confirm services late_confirmation refunded).1

Run-refunds_once_example :
    execute_refund services (record refund { reason = "again" }) confirmed
    ≡ (err (plain "Payment not found or cannot be refunded"), confirmed)
unfolding services execute_refund refund_by_status
Run-refunds_once_example =
    Run-refunds_once services alone refund (record refund { reason = "again" }) waiting confirmed
      (record { keyed = (refl, tt); once = tt; stored = tt }) refl refl
      (Run.next (Step.confirm late_confirmation) Run.done)
