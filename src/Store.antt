-- ===== src/Store.antt =====
-- The repository calls of the services, as actions on the world.
use nestjs_cqrs_saga.Prelude.{Bool, Option, String}
use nestjs_cqrs_saga.Outcome.{ok, err}
use nestjs_cqrs_saga.Entity.{Order, Payment, SagaInstance, EventStore, User}
use nestjs_cqrs_saga.World.{Platform, Action, write}

module _ (p : Platform) where
  abbrev pub find_order : (Order → Bool) → Action (Option Order)
  find_order test w = (ok (p.orders.find_one test w.orders), w)

  abbrev pub find_payment : (Payment → Bool) → Action (Option Payment)
  find_payment test w = (ok (p.payments.find_one test w.payments), w)

  abbrev pub find_saga : (SagaInstance → Bool) → Action (Option SagaInstance)
  find_saga test w = (ok (p.sagas.find_one test w.sagas), w)

  -- `save` of the order repository.
  abbrev pub save_order : Order → Action Order
  save_order r = write (λ w. p.orders.save r w.orders) (λ t w. record w { orders = t })

  abbrev pub save_payment : Payment → Action Payment
  save_payment r = write (λ w. p.payments.save r w.payments) (λ t w. record w { payments = t })

  abbrev pub save_saga : SagaInstance → Action SagaInstance
  save_saga r = write (λ w. p.sagas.save r w.sagas) (λ t w. record w { sagas = t })

  abbrev pub save_event : EventStore → Action EventStore
  save_event r =
      write (λ w. p.event_store.save r w.event_store) (λ t w. record w { event_store = t })

  abbrev pub find_user : (User → Bool) → Action (Option User)
  find_user test w = (ok (p.users.find_one test w.users), w)

  abbrev pub save_user : User → Action User
  save_user r = write (λ w. p.users.save r w.users) (λ t w. record w { users = t })

  -- `update` of the user repository.
  abbrev pub update_user : String → (User → User) → Action (Unit {0})
  update_user i f w = elim (p.users.update i f w.users) [
    | ok t ↦ (ok tt, record w { users = t })
    | err e ↦ (err e, w)
  ]
