-- ===== src/Tracing/Timeline.antt =====
-- The timelines and streams of events of src/tracing/tracing.controller.ts.
use mathlib.Core.List.Perm
use nestjs_cqrs_saga.Prelude.{
  ℕ, suc, ◌≤◌, ◌≢◌, String, ◌≡◌, ap, ◌∙◌, sym, true, Option, some, List, [], ◌∷◌, map, arith, Perm,
  filter, count, length, All, Option-cases, inl, inr, ◌==◌, eq_iff, count-append,
}
use nestjs_cqrs_saga.Outcome.{ok}
use nestjs_cqrs_saga.Table.{Holds}
use nestjs_cqrs_saga.Entity.{SagaInstance, EventStore}
use nestjs_cqrs_saga.World.{World, Platform, Ascends}
use nestjs_cqrs_saga.Pages.Cover.{length-map, length-take}
use nestjs_cqrs_saga.Pages.Rows.{length-perm, length-filter, take_matches}
use nestjs_cqrs_saga.System.{Run}
use nestjs_cqrs_saga.System.Log.{LogGrows, Run-LogGrows}
use nestjs_cqrs_saga.Tracing.Views.{
  Trace, TimelineEntry, timeline_entry, saga_trace, EventStream, event_view,
}
use nestjs_cqrs_saga.Tracing.{
  found, has_correlation_id, trace_of, trace_by_correlation_id, has_type, min, get_all_events,
  has_type,
}

-- Each entry is no later than the next.
abbrev pub IsChronological : List TimelineEntry → Type 0
IsChronological [] = Unit
IsChronological (e ∷ []) = Unit
IsChronological (e ∷ f ∷ es) = (e.timestamp ≤ f.timestamp) × IsChronological (f ∷ es)

timeline-IsChronological :
    (es : List EventStore) → Ascends es → IsChronological (map timeline_entry es)
timeline-IsChronological [] h = tt
timeline-IsChronological (e ∷ []) h = tt
timeline-IsChronological (e ∷ f ∷ es) h = (h.0, timeline-IsChronological (f ∷ es) h.1)

module _ (p : Platform) (c : String) where
  trace_lem :
      (w : World) (t : Trace)
      → (trace_by_correlation_id p c w).0 ≡ ok (found t)
      → (saga : SagaInstance) × (p.sagas.find_one (λ r. r.correlation_id == c) w.sagas ≡ some saga)
        × (t ≡ trace_of p c saga w)
  unfolding trace_by_correlation_id
  trace_lem w t h = elim (Option-cases (p.sagas.find_one (λ r. r.correlation_id == c) w.sagas)) [
    | inl e ↦ absurd (ground (arith, h, e))
    | inr (saga, e) ↦ (saga, e, ground (arith, h, e))
  ]

  traced_events :
      (w : World) (t : Trace)
      → (trace_by_correlation_id p c w).0 ≡ ok (found t)
      → t.total_events ≡ count (has_correlation_id c) w.event_store
  unfolding trace_of
  traced_events w t h =
      let l = trace_lem w t h in
      ap (λ x. x.total_events) l.2
      ∙ length-perm (p.events_oldest_perm (has_correlation_id c) w.event_store)
      ∙ length-filter (has_correlation_id c) w.event_store

  -- The trace of a correlation identifier that is found belongs to a saga of the table with that
  -- identifier, its timeline shows exactly the stored events with it, each once, in the order of
  -- time, and its summary counts them.
  pub trace_by_correlation_id_complete :
      (w : World) (t : Trace)
      → (trace_by_correlation_id p c w).0 ≡ ok (found t)
      → ((saga : SagaInstance) × (saga.correlation_id ≡ c)
          × Holds saga w.sagas
          × (t.saga ≡ saga_trace saga))
        × Perm t.timeline (map timeline_entry (filter (has_correlation_id c) w.event_store))
        × IsChronological t.timeline
        × (t.total_events ≡ count (has_correlation_id c) w.event_store)
  unfolding trace_of
  trace_by_correlation_id_complete w t h =
      let l = trace_lem w t h in
      let s = p.sagas.find_one_sound (λ r. r.correlation_id == c) w.sagas l.0 l.1 in
      (
        (l.0, (eq_iff l.0.correlation_id c).0 s.0, s.1, ap (λ x. x.saga) l.2),
        rw (l.2)
            (Perm.map timeline_entry (p.events_oldest_perm (has_correlation_id c) w.event_store)),
        rw (l.2) (
            timeline-IsChronological (p.events_oldest (has_correlation_id c) w.event_store)
              (p.events_oldest_ascends (has_correlation_id c) w.event_store)),
        traced_events w t h,
      )

  -- Over every run of the service, while the other clients only append to the event store, a trace
  -- never loses an event: a later trace of the same identifier counts no fewer.
  pub Run-trace_by_correlation_id :
      ((n : ℕ) (w : World) → LogGrows w (p.elapse n w))
      → (v w : World) (t u : Trace) → Run p v w
      → (trace_by_correlation_id p c v).0 ≡ ok (found t)
      → (trace_by_correlation_id p c w).0 ≡ ok (found u)
      → t.total_events ≤ u.total_events
  Run-trace_by_correlation_id others v w t u run h k =
      let grown = Run-LogGrows p others v w run in
      omega (
        arith,
        traced_events v t h,
        traced_events w u k,
        ap (count (has_correlation_id c)) grown.1,
        count-append (has_correlation_id c) v.event_store grown.0,
      )

-- The stream of events shows, for a limit that is not 0, no more of them than the limit and no more
-- than 100, only ones of the type asked for, if one is, and says how many it shows.
pub get_all_events-bounds :
    (p : Platform) (n : ℕ) (event_type : Option String) (w : World) (result : EventStream)
    → (get_all_events p (some (suc n)) event_type w).0 ≡ ok result
    → (length result.events ≤ suc n)
      × (length result.events ≤ 100)
      × (result.total_returned ≡ length result.events)
      × ((es : List EventStore) × (result.events ≡ map event_view es)
          × All (λ e. has_type event_type e ≡ true) es)
unfolding get_all_events
get_all_events-bounds p n event_type w result done =
    let k = min (suc n) 100 in
    let es = p.events_limit (has_type event_type) k w.event_store in
    let bound : (k ≤ suc n) × (k ≤ 100) × (k ≢ 0) = ground arith in
    let cut = p.events_limit_lem (has_type event_type) k w.event_store bound.2 in
    let shown : result.events ≡ map event_view es = ground (arith, done) in
    let told : result.total_returned ≡ length es = ground (arith, done) in
    let size = length-take k (p.events_newest (has_type event_type) w.event_store) in
    let long : length result.events ≡ length es = ap length shown ∙ length-map event_view es in
    (
      omega (arith, long, ap length cut, size, bound.0),
      omega (arith, long, ap length cut, size, bound.1),
      told ∙ sym long,
      (
        es,
        shown,
        rw cut (
            take_matches (has_type event_type) k 0 w.event_store
              (p.events_newest_perm (has_type event_type) w.event_store)),
      ),
    )
