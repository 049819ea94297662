-- ===== src/SagaController.antt =====
-- src/saga/saga.controller.ts, and the queries that it calls: `findSagaById`, `getAllSagas` and
-- `getSagasByStatus` of src/saga/saga-manager.service.ts, `getSagaStatus` and `getAllOrderSagas` of
-- src/saga/order-processing.saga.ts. Dates that the database fills are left out of what is shown.
pub mod Views
use nestjs_cqrs_saga.Prelude.{
  ℕ, String, Bool, true, false, Option, none, some, List, map, length, ◌==◌, value_or,
}
use nestjs_cqrs_saga.Outcome.{ok}
use nestjs_cqrs_saga.Entity.{SagaInstance, SagaStatus, SagaStatus-discrete, SagaData}
use nestjs_cqrs_saga.World.{World, Platform, Action, pure, ◌>>=◌}
use nestjs_cqrs_saga.Store.{find_saga}
use nestjs_cqrs_saga.Saga.{find_saga_by_correlation_id}
use nestjs_cqrs_saga.Pages.{find_and_count, total_pages}

-- `findSagaById`
unfoldable pub find_saga_by_id : Platform → (saga_id : String) → Action (Option SagaInstance)
find_saga_by_id p saga_id = find_saga p (λ r. r.id == saga_id)

-- `getAllSagas`
unfoldable pub get_all_sagas : Platform → (page limit : ℕ) → Action (List SagaInstance × ℕ)
get_all_sagas p page limit w =
    (find_and_count p.sagas p.negative_offset (λ r. true) page limit w.sagas, w)

abbrev pub saga_has_status : SagaStatus → SagaInstance → Bool
saga_has_status status saga = elim (SagaStatus-discrete saga.status status) [
  | yes e ↦ true
  | no e ↦ false
]

-- `getSagasByStatus`
unfoldable pub get_sagas_by_status : Platform → SagaStatus → Action (List SagaInstance)
get_sagas_by_status p status w = (ok (p.sagas.newest (saga_has_status status) w.sagas), w)

-- `getSagaStatus`
unfoldable pub get_saga_status : Platform → (correlation_id : String) → Action (Option SagaInstance)
get_saga_status p correlation_id =
    find_saga_by_correlation_id p correlation_id (some "OrderProcessingSaga")

-- `getAllOrderSagas`
unfoldable pub get_all_order_sagas : Platform → Action (List SagaInstance)
get_all_order_sagas p w =
    (ok (p.sagas.newest (λ r. r.saga_type == "OrderProcessingSaga") w.sagas), w)

-- The object for a saga that most endpoints answer with.
pub record SagaView : Type 0 where
  pub id : String
  pub saga_type : String
  pub correlation_id : String
  pub status : SagaStatus
  pub current_step : Option String
  pub completed_steps : List String
  pub compensation_steps : List String
  pub saga_data : SagaData
  pub error_message : Option String

abbrev pub view_of : SagaInstance → SagaView
view_of saga = record {
  id = saga.id;
  saga_type = saga.saga_type;
  correlation_id = saga.correlation_id;
  status = saga.status;
  current_step = saga.current_step;
  completed_steps = saga.completed_steps;
  compensation_steps = saga.compensation_steps;
  saga_data = saga.saga_data;
  error_message = saga.error_message;
}

pub record SagaPage : Type 0 where
  pub sagas : List SagaView
  pub total : ℕ
  pub page : ℕ
  pub limit : ℕ
  pub total_pages : Option ℕ

-- The endpoint `getAllSagas`.
unfoldable pub all_sagas_endpoint : Platform → (page limit : Option ℕ) → Action SagaPage
all_sagas_endpoint p page limit = do
  let n = value_or page 1
  let k = value_or limit 10
  result ← get_all_sagas p n k
  pure (record {
    sagas = map view_of result.0;
    total = result.1;
    page = n;
    limit = k;
    total_pages = total_pages result.1 k;
  })

-- The object for a saga of a status.
pub record StatusView : Type 0 where
  pub id : String
  pub saga_type : String
  pub correlation_id : String
  pub current_step : Option String
  pub saga_data : SagaData
  pub error_message : Option String

abbrev pub status_view_of : SagaInstance → StatusView
status_view_of saga = record {
  id = saga.id;
  saga_type = saga.saga_type;
  correlation_id = saga.correlation_id;
  current_step = saga.current_step;
  saga_data = saga.saga_data;
  error_message = saga.error_message;
}

pub record StatusPage : Type 0 where
  pub status : SagaStatus
  pub count : ℕ
  pub sagas : List StatusView

-- The endpoint `getSagasByStatus`.
unfoldable pub sagas_by_status_endpoint : Platform → SagaStatus → Action StatusPage
sagas_by_status_endpoint p status = do
  sagas ← get_sagas_by_status p status
  pure (record { status = status; count = length sagas; sagas = map status_view_of sagas })

-- A saga, or the message that there is none, with the identifier asked for.
pub data SagaAnswer : Type 0 where
  found : SagaView → SagaAnswer
  missing : (message asked : String) → SagaAnswer

abbrev pub answer_of : String → Option SagaInstance → SagaAnswer
answer_of asked none = missing "Saga not found" asked
answer_of asked (some saga) = found (view_of saga)

-- The endpoint `getSagaByCorrelationId`.
unfoldable pub saga_by_correlation_id_endpoint :
    Platform → (correlation_id : String) → Action SagaAnswer
saga_by_correlation_id_endpoint p correlation_id = do
  saga ← find_saga_by_correlation_id p correlation_id none
  pure (answer_of correlation_id saga)

-- The endpoint `getSagaById`.
unfoldable pub saga_by_id_endpoint : Platform → (id : String) → Action SagaAnswer
saga_by_id_endpoint p id = do saga ← find_saga_by_id p id; pure (answer_of id saga)

-- The object for a saga of an order.
pub record OrderSagaView : Type 0 where
  pub id : String
  pub correlation_id : String
  pub status : SagaStatus
  pub current_step : Option String
  pub order_id : String
  pub user_id : String
  pub total_amount : ℕ
  pub completed_steps : List String
  pub compensation_steps : List String
  pub error_message : Option String

abbrev pub order_saga_view_of : SagaInstance → OrderSagaView
order_saga_view_of saga = record {
  id = saga.id;
  correlation_id = saga.correlation_id;
  status = saga.status;
  current_step = saga.current_step;
  order_id = saga.saga_data.order_id;
  user_id = saga.saga_data.user_id;
  total_amount = saga.saga_data.total_amount;
  completed_steps = saga.completed_steps;
  compensation_steps = saga.compensation_steps;
  error_message = saga.error_message;
}

pub record OrderSagas : Type 0 where
  pub saga_type : String
  pub count : ℕ
  pub sagas : List OrderSagaView

-- `getOrderProcessingSagas`
unfoldable pub get_order_processing_sagas : Platform → Action OrderSagas
get_order_processing_sagas p = do
  sagas ← get_all_order_sagas p
  pure (record {
    saga_type = "OrderProcessingSaga";
    count = length sagas;
    sagas = map order_saga_view_of sagas;
  })
