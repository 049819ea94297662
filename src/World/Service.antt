-- ===== src/World/Service.antt =====
-- When the database and the broker answer: the hypotheses of the theorems about what succeeds.
use nestjs_cqrs_saga.Prelude.{◌≡◌, List, [], ◌∷◌, ◌++◌}
use nestjs_cqrs_saga.Outcome.{ok}
use nestjs_cqrs_saga.Table.{upsert}
use nestjs_cqrs_saga.Entity.{Payment, SagaInstance}
use nestjs_cqrs_saga.Message.{Message}
use nestjs_cqrs_saga.World.State.{World}
use nestjs_cqrs_saga.World.External.{Platform}

-- The saga table accepts every write, and transactions open and commit.
pub record SagasUp (p : Platform) : Type 0 where
  pub saves :
      (r : SagaInstance) (t : List SagaInstance) → p.sagas.save r t ≡ ok (r, upsert (λ x. x.id) r t)
  pub begins : (w : World) → p.begin w ≡ ok tt
  pub commits : (w : World) → p.commit w ≡ ok tt

-- The broker accepts every message.
abbrev pub BrokerUp : Platform → Type 0
BrokerUp p = (m : Message) (ms : List Message) → p.send m ms ≡ ok (ms ++ m ∷ [])

abbrev pub PaymentsUp : Platform → Type 0
PaymentsUp p =
    (r : Payment) (t : List Payment) → p.payments.save r t ≡ ok (r, upsert (λ x. x.id) r t)
