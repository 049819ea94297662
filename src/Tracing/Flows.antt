-- ===== src/Tracing/Flows.antt =====
-- The active flows of src/tracing/tracing.controller.ts.
use mathlib.Core.List.Perm
use nestjs_cqrs_saga.Prelude.{
  ◌≤◌, ◌≡◌, refl, ap, ◌∙◌, ◌&&◌, Bool, List, [], ◌∷◌, map, arith, Perm, filter, count, length, take,
  All,
}
use nestjs_cqrs_saga.Outcome.{ok}
use nestjs_cqrs_saga.Entity.{SagaInstance}
use nestjs_cqrs_saga.World.{World, Platform}
use nestjs_cqrs_saga.Pages.Cover.{length-map, length-take}
use nestjs_cqrs_saga.Pages.Rows.{length-perm, length-filter, count-perm, count-filter, count-map}
use nestjs_cqrs_saga.Tracing.Views.{ActiveFlows, recent_event}
use nestjs_cqrs_saga.Tracing.{has_correlation_id, is_active_saga, is_stuck, flow, get_active_flows}

module _ (p : Platform) (w : World) where
  flow_ids :
      (sagas : List SagaInstance)
      → map (λ f. f.saga.id) (map (flow p w) sagas) ≡ map (λ s. s.id) sagas
  unfolding flow
  flow_ids [] = refl
  flow_ids (s ∷ sagas) = ap (◌∷◌ s.id) (flow_ids sagas)

  recent_few :
      (sagas : List SagaInstance) → All (λ f. length f.recent_events ≤ 3) (map (flow p w) sagas)
  unfolding flow
  recent_few [] = tt
  recent_few (s ∷ sagas) =
      let events = p.events_newest (has_correlation_id s.correlation_id) w.event_store in
      (
        omega (arith, length-map recent_event (take 3 events), length-take 3 events),
        recent_few sagas,
      )

  count_le :
      (q r : SagaInstance → Bool) (sagas : List SagaInstance)
      → count (λ s. q s && r s) sagas ≤ count q sagas
  count_le q r [] = omega arith
  count_le q r (s ∷ sagas) = ground (arith, count_le q r sagas)

  -- The active flows are those of the sagas that are started or being compensated, each of them once;
  -- they are counted, the stuck ones among them are the active sagas that were written last more than a
  -- minute ago, and each flow shows three events at most.
  pub get_active_flows-lists :
      (result : ActiveFlows)
      → (get_active_flows p w).0 ≡ ok result
      → Perm
          (map (λ f. f.saga.id) result.flows)
          (map (λ s. s.id) (filter (λ s. is_active_saga s.status) w.sagas))
        × (result.total_active_flows ≡ count (λ s. is_active_saga s.status) w.sagas)
        × (result.stuck_flows ≡ count (λ s. is_active_saga s.status && is_stuck p w s) w.sagas)
        × (result.stuck_flows ≤ result.total_active_flows)
        × All (λ f. length f.recent_events ≤ 3) result.flows
  unfolding get_active_flows flow
  get_active_flows-lists result done =
      let active : SagaInstance → Bool = λ s. is_active_saga s.status in
      let rows = p.sagas.newest active w.sagas in
      let perm = p.sagas.newest_perm active w.sagas in
      let flows : result.flows ≡ map (flow p w) rows = ground (arith, done) in
      let total : result.total_active_flows ≡ length (map (flow p w) rows) = ground (arith, done) in
      let stuck : result.stuck_flows ≡ length (filter (λ f. f.is_stuck) (map (flow p w) rows)) =
        ground (arith, done) in
      let total' : result.total_active_flows ≡ count active w.sagas =
        total ∙ length-map (flow p w) rows ∙ length-perm perm ∙ length-filter active w.sagas in
      let stuck' : result.stuck_flows ≡ count (λ s. active s && is_stuck p w s) w.sagas =
        stuck
        ∙ length-filter (λ f. f.is_stuck) (map (flow p w) rows)
        ∙ count-map (flow p w) (λ f. f.is_stuck) rows
        ∙ count-perm (is_stuck p w) perm
        ∙ count-filter (is_stuck p w) active w.sagas in
      (
        rw (flows, flow_ids rows) (Perm.map (λ (s : SagaInstance). s.id) perm),
        total',
        stuck',
        omega (arith, total', stuck', count_le active (is_stuck p w) w.sagas),
        rw flows (recent_few rows),
      )
