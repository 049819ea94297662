-- ===== src/SagaController/Views.antt =====
-- What src/saga/saga.controller.ts shows of the sagas.
use nestjs_cqrs_saga.Prelude.{
  ℕ, ◌+◌, ◌≡◌, refl, true, some, List, [], ◌∷◌, arith, filter, count, ◌∙◌, ap,
}
use nestjs_cqrs_saga.Outcome.{ok, err}
use nestjs_cqrs_saga.Entity.{SagaInstance, SagaStatus}
use nestjs_cqrs_saga.World.{World, Platform}
use nestjs_cqrs_saga.Pages.Rows.{length-perm, length-filter}
use nestjs_cqrs_saga.SagaController.{
  SagaPage, saga_has_status, get_all_sagas, all_sagas_endpoint, get_sagas_by_status,
  sagas_by_status_endpoint,
}

filter_all : {A : Type 0} (xs : List A) → filter (λ x. true) xs ≡ xs
filter_all [] = refl
filter_all (x ∷ xs) = ap (◌∷◌ x) (filter_all xs)

-- Every saga has one of the five statuses.
abbrev IsSharedOut : List SagaInstance → Type 0
IsSharedOut sagas =
    count (λ r. true) sagas
    ≡ count (saga_has_status SagaStatus.started) sagas
      + count (saga_has_status SagaStatus.completed) sagas
      + count (saga_has_status SagaStatus.failed) sagas
      + count (saga_has_status SagaStatus.compensating) sagas
      + count (saga_has_status SagaStatus.compensated) sagas

add_saga :
    (x : SagaInstance) (sagas : List SagaInstance) (s : SagaStatus)
    → x.status ≡ s
    → IsSharedOut sagas
    → IsSharedOut (x ∷ sagas)
add_saga x sagas SagaStatus.started e h = ground (arith, e, h)
add_saga x sagas SagaStatus.completed e h = ground (arith, e, h)
add_saga x sagas SagaStatus.failed e h = ground (arith, e, h)
add_saga x sagas SagaStatus.compensating e h = ground (arith, e, h)
add_saga x sagas SagaStatus.compensated e h = ground (arith, e, h)

pub count_statuses : (sagas : List SagaInstance) → IsSharedOut sagas
count_statuses [] = omega arith
count_statuses (x ∷ sagas) = add_saga x sagas x.status refl (count_statuses sagas)

module _ (p : Platform) (w : World) where
  -- The number that a list by status tells.
  abbrev pub told : SagaStatus → ℕ
  told status = elim (sagas_by_status_endpoint p status w).0 [
    | ok result ↦ result.count
    | err e ↦ 0
  ]

  told_lem : (status : SagaStatus) → told status ≡ count (saga_has_status status) w.sagas
  unfolding sagas_by_status_endpoint get_sagas_by_status
  told_lem status =
      length-perm (p.sagas.newest_perm (saga_has_status status) w.sagas)
      ∙ length-filter (saga_has_status status) w.sagas

  -- The lists by status share the sagas out: the numbers that the five statuses tell add up to the
  -- total that a page of all sagas tells.
  pub sagas_by_status_endpoint-total :
      (n k : ℕ) (result : SagaPage)
      → (all_sagas_endpoint p (some k) (some n) w).0 ≡ ok result
      → result.total
        ≡ told SagaStatus.started
          + told SagaStatus.completed
          + told SagaStatus.failed
          + told SagaStatus.compensating
          + told SagaStatus.compensated
  unfolding all_sagas_endpoint get_all_sagas
  sagas_by_status_endpoint-total n k result done =
      let total : result.total ≡ p.sagas.count_rows (λ r. true) w.sagas = ground (arith, done) in
      omega (
        arith,
        total,
        p.sagas.count_rows_lem (λ r. true) w.sagas,
        count_statuses w.sagas,
        told_lem SagaStatus.started,
        told_lem SagaStatus.completed,
        told_lem SagaStatus.failed,
        told_lem SagaStatus.compensating,
        told_lem SagaStatus.compensated,
      )
