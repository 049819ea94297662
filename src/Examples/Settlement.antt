-- ===== src/Examples/Settlement.antt =====
-- A payment that waits to be settled, on the services in memory.
use nestjs_cqrs_saga.Prelude.{◌≡◌, refl, some, none, [], ◌∷◌}
use nestjs_cqrs_saga.Entity.{Order, OrderStatus, Payment, PaymentStatus}
use nestjs_cqrs_saga.World.{World, settle_payment}
use nestjs_cqrs_saga.Lock.{AcquiredLock, acquire_lock}
use nestjs_cqrs_saga.Saga.{find_saga_by_correlation_id}
use nestjs_cqrs_saga.Processing.{find_order_saga}
use nestjs_cqrs_saga.Order.Transitions.{order_by}
use nestjs_cqrs_saga.Saga.Steps.{saga_by}
use nestjs_cqrs_saga.Saga.Complete.{completed_saga}
use nestjs_cqrs_saga.Payment.{paid}
use nestjs_cqrs_saga.Handlers.Log.{entry}
use nestjs_cqrs_saga.System.{Run}
use nestjs_cqrs_saga.System.Settlement.{called, success, settle_payment-pays}
use nestjs_cqrs_saga.Entity.{payment_processed}
use nestjs_cqrs_saga.Examples.Services.{
  services, services-SagasUp, services-BrokerUp, waiting, started_saga, pending_order, paid_payment,
}

abbrev charged : Payment
charged = record paid_payment { status = PaymentStatus.processing; external_transaction_id = none }

abbrev charging : World
charging = record waiting {
  payments = charged ∷ [];
  deferred = settle_payment charged (some "k1") ∷ [];
}

abbrev settled_payment : Payment
settled_payment = paid services charged (called services charged (some "k1") charging [] [])

abbrev step_lock : AcquiredLock
step_lock = record {
  key = "lock:saga_step:s1:order_confirmation";
  token = "11111110-token";
  ttl = 60000;
  acquired_at = 7;
}

abbrev bought : Order
bought = record pending_order { status = OrderStatus.paid; payment_id = some "p1" }

settle_payment-pays_example :
    (v : World) × Run services charging v
    × (order_by "o1" v ≡ some bought)
    × (saga_by "s1" v
        ≡ some (
            completed_saga (record started_saga {
              completed_steps = "payment_processing" ∷ "order_confirmation" ∷ [];
            })))
unfolding services acquire_lock find_order_saga find_saga_by_correlation_id
settle_payment-pays_example =
    settle_payment-pays services charged (some "k1") charging [] [] settled_payment
      (settled_payment ∷ [])
      (entry (services.event_store.generate [])
        (payment_processed (success services charged (some "k1") charging [] [])))
      (entry (services.event_store.generate [])
          (payment_processed (success services charged (some "k1") charging [] []))
        ∷ [])
      started_saga pending_order bought (bought ∷ []) refl refl services-BrokerUp services-SagasUp
      refl refl (step_lock, refl) refl refl (λ e. cc) refl refl refl
