-- ===== src/Entity/Payments.antt =====
-- src/payment/entities/payment.entity.ts, src/payment/commands/payment.commands.ts and
-- src/payment/events/payment.events.ts, without the columns that only the database fills.
use nestjs_cqrs_saga.Prelude.{ℕ, String, Option}

pub data PaymentStatus : Type 0 where
  pending processing completed failed refunded : PaymentStatus

pub PaymentStatus-discrete : Discrete PaymentStatus
PaymentStatus-discrete = hlevel

pub data PaymentMethod : Type 0 where
  credit_card debit_card bank_transfer digital_wallet : PaymentMethod

pub record Payment : Type 0 where
  pub id : String
  pub order_id : String
  pub user_id : String
  pub amount : ℕ
  pub method : PaymentMethod
  pub status : PaymentStatus
  pub external_transaction_id : Option String
  pub failure_reason : Option String

pub record ProcessPaymentCommand : Type 0 where
  pub order_id : String
  pub user_id : String
  pub amount : ℕ
  pub method : PaymentMethod
  pub correlation_id : Option String

pub record RefundPaymentCommand : Type 0 where
  pub payment_id : String
  pub reason : String
  pub correlation_id : Option String

pub record PaymentProcessedEvent : Type 0 where
  pub payment_id : String
  pub order_id : String
  pub user_id : String
  pub amount : ℕ
  pub external_transaction_id : String
  pub correlation_id : Option String
  pub occurred_at : ℕ

pub record PaymentFailedEvent : Type 0 where
  pub payment_id : String
  pub order_id : String
  pub user_id : String
  pub amount : ℕ
  pub failure_reason : String
  pub correlation_id : Option String
  pub occurred_at : ℕ

pub record PaymentRefundedEvent : Type 0 where
  pub payment_id : String
  pub order_id : String
  pub refund_amount : ℕ
  pub reason : String
  pub correlation_id : Option String
  pub occurred_at : ℕ
