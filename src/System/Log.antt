-- ===== src/System/Log.antt =====
-- The event store over whole runs of the service.
use nestjs_cqrs_saga.Prelude.{
  ℕ, ◌≡◌, refl, sym, ◌∙◌, ap, inl, inr, List, [], ◌∷◌, ◌++◌, append-nil, append_assoc, arith,
}
use nestjs_cqrs_saga.Outcome.{Outcome-cases}
use nestjs_cqrs_saga.Table.{upsert_fresh}
use nestjs_cqrs_saga.Entity.{
  EventStore, CreateOrderCommand, CancelOrderCommand, ConfirmOrderCommand,
}
use nestjs_cqrs_saga.World.{World, Platform}
use nestjs_cqrs_saga.Store.{save_event}
use nestjs_cqrs_saga.Order.{
  execute_create, execute_cancel, execute_confirm, try_create, create_order, on_create_error,
  cancel_by_status, cancel_order, confirm_by_status, confirm_order,
}
use nestjs_cqrs_saga.Payment.{execute_process, execute_refund, settle}
use nestjs_cqrs_saga.System.{Run}
use nestjs_cqrs_saga.System.Frame.{
  execute_process-SameBooks, execute_refund-SameBooks, settle-SameBooks,
}
use nestjs_cqrs_saga.System.Trail.{Trail}
use nestjs_cqrs_saga.System.Methods.{Run-Keeps}

-- The second state's event store is that of the first one with rows behind it.
abbrev pub LogGrows : World → World → Type 0
LogGrows v w = (rows : List EventStore) × (w.event_store ≡ v.event_store ++ rows)

pub same-LogGrows : (v w : World) → w.event_store ≡ v.event_store → LogGrows v w
same-LogGrows v w e = ([], e ∙ sym (append-nil v.event_store))

module _ (p : Platform) where
  execute_create-event_store :
      (c : CreateOrderCommand) (w : World) → (execute_create p c w).1.event_store ≡ w.event_store
  unfolding execute_create try_create create_order on_create_error
  execute_create-event_store c w = ground arith

  execute_cancel-event_store :
      (c : CancelOrderCommand) (w : World) → (execute_cancel p c w).1.event_store ≡ w.event_store
  unfolding execute_cancel cancel_by_status cancel_order
  execute_cancel-event_store c w = ground arith

  execute_confirm-event_store :
      (c : ConfirmOrderCommand) (w : World) → (execute_confirm p c w).1.event_store ≡ w.event_store
  unfolding execute_confirm confirm_by_status confirm_order
  execute_confirm-event_store c w = ground arith

  save_event-LogGrows :
      (r : EventStore) (w : World)
      → r.id ≡ p.event_store.generate w.event_store
      → LogGrows w (save_event p r w).1
  save_event-LogGrows r w e = elim (Outcome-cases (p.event_store.save r w.event_store)) [
    | inl ((x, t), h) ↦ (
      r ∷ [],
      ground (
        arith,
        p.event_store.save_ok r x w.event_store t h,
        upsert_fresh (λ (r : EventStore). r.id) r w.event_store
            (rw e (p.event_store.generate_fresh w.event_store)),
      ),
    )
    | inr (x, h) ↦ same-LogGrows w (save_event p r w).1 (ground arith)
  ]

LogGrows-trans : (u v w : World) → LogGrows u v → LogGrows v w → LogGrows u w
LogGrows-trans u v w h k =
    (h.0 ++ k.0, k.1 ∙ ap (λ t. t ++ k.0) h.1 ∙ append_assoc u.event_store h.0 k.0)

module _ (p : Platform) (others : (n : ℕ) (w : World) → LogGrows w (p.elapse n w)) where
  log_trail : Trail p
  log_trail = record {
    rel = λ b. LogGrows;
    leads = λ b. LogGrows-trans;
    ends_with = λ b. LogGrows-trans;
    allows = λ b v w h. h;
    frame = λ v w h. same-LogGrows v w h.1;
    creates = λ c w. same-LogGrows w (execute_create p c w).1 (execute_create-event_store p c w);
    cancels = λ c w. same-LogGrows w (execute_cancel p c w).1 (execute_cancel-event_store p c w);
    confirms = λ c w. same-LogGrows w (execute_confirm p c w).1 (execute_confirm-event_store p c w);
    processes =
        λ e c w h. same-LogGrows w (execute_process p c w).1 (execute_process-SameBooks p c w).1;
    refunds = λ c w. same-LogGrows w (execute_refund p c w).1 (execute_refund-SameBooks p c w).1;
    ends = λ b a c before after w e.
        let u : World = record w { deferred = before ++ after } in
        same-LogGrows w (settle p a c b u).1 (settle-SameBooks p a c b u).1;
    announces = λ es before after w e.
        same-LogGrows w (record w { deferred = before ++ after; bus = w.bus ++ es }) refl;
    delivers = λ e before after v w h m.
        let u : World = record v { bus = before ++ after } in
        LogGrows-trans v u w (same-LogGrows v u refl) m;
    logs = λ r w e. save_event-LogGrows p r w e;
    elapses = others;
  }

  -- Over every run of the service, whatever fails and in whichever order requests, callbacks and
  -- events come, if the other clients only append to it during the waits of locks, the event store
  -- only grows at its end: no row that is stored is ever changed, moved or removed.
  pub Run-LogGrows : (v w : World) → Run p v w → LogGrows v w
  unfolding log_trail
  Run-LogGrows v w run = Run-Keeps p log_trail v w run
