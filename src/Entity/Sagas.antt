-- ===== src/Entity/Sagas.antt =====
-- src/saga/entities/saga-instance.entity.ts. `data` is the object that `handleOrderCreated`
-- builds, the only caller that starts a saga. The columns that only the database fills are left out.
use nestjs_cqrs_saga.Prelude.{ℕ, String, Option, List}
use nestjs_cqrs_saga.Entity.Orders.{OrderItem}

pub data SagaStatus : Type 0 where
  started completed failed compensating compensated : SagaStatus

pub SagaStatus-discrete : Discrete SagaStatus
SagaStatus-discrete = hlevel

pub record SagaData : Type 0 where
  pub order_id : String
  pub user_id : String
  pub total_amount : ℕ
  pub items : List OrderItem
  pub shipping_address : String

pub record SagaInstance : Type 0 where
  pub id : String
  pub saga_type : String
  pub correlation_id : String
  pub status : SagaStatus
  pub saga_data : SagaData
  pub completed_steps : List String
  pub compensation_steps : List String
  pub current_step : Option String
  pub error_message : Option String
