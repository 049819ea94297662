-- ===== src/Examples/Payments.antt =====
-- The theorems on the payment commands on the services in memory.
use nestjs_cqrs_saga.Prelude.{false, some, none}
use nestjs_cqrs_saga.Entity.{Payment, PaymentStatus, RefundPaymentCommand}
use nestjs_cqrs_saga.Payment.{settle}
use nestjs_cqrs_saga.Payment.Outcomes.{Ends, settle-Ends}
use nestjs_cqrs_saga.Examples.Services.{services, empty_world, paid_payment}

abbrev charged : Payment
charged = record paid_payment {
  id = "i";
  status = PaymentStatus.processing;
  external_transaction_id = none;
}

settle-Ends_example :
    Ends services charged
      (some "k1")
      empty_world
      (settle services charged (some "k1") false empty_world)
settle-Ends_example = settle-Ends services charged (some "k1") false empty_world

abbrev refund : RefundPaymentCommand
refund = record { payment_id = "p1"; reason = "returned"; correlation_id = some "k1" }

abbrev refunded : Payment
refunded = record paid_payment { status = PaymentStatus.refunded }
