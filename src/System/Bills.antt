-- ===== src/System/Bills.antt =====
-- What the payments charge, and the announcements tell, over whole runs of the service.
pub mod Relation
pub mod Orders
pub mod Payments
pub mod Bus
use nestjs_cqrs_saga.Prelude.{ℕ, none, refl, arith}
use nestjs_cqrs_saga.World.{World, Platform}
use nestjs_cqrs_saga.Store.{save_event}
use nestjs_cqrs_saga.System.Trail.{Trail}
use nestjs_cqrs_saga.System.Orders.{same-OrdersEvolve}
use nestjs_cqrs_saga.System.Payments.Moves.{same-Pays}
use nestjs_cqrs_saga.System.Bills.Relation.{
  StaysHonest, StaysHonest-leads, StaysHonest-ends_with, same-StaysHonest,
}
use nestjs_cqrs_saga.System.Bills.Orders.{
  execute_create-StaysHonest, execute_cancel-StaysHonest, execute_confirm-StaysHonest,
}
use nestjs_cqrs_saga.System.Bills.Payments.{
  execute_process-StaysHonest, execute_refund-StaysHonest, settle-StaysHonest,
}
use nestjs_cqrs_saga.System.Bills.Bus.{announces-StaysHonest, delivers-StaysHonest}

module _ (p : Platform) (others : (n : ℕ) (w : World) → StaysHonest none w (p.elapse n w)) where
  bills_trail : Trail p
  bills_trail = record {
    rel = StaysHonest;
    leads = StaysHonest-leads;
    ends_with = StaysHonest-ends_with;
    allows = λ b v w h consistent honest told. h consistent honest tt;
    frame = λ v w h.
        same-StaysHonest v w (same-OrdersEvolve v w h.0) (same-Pays v w h.2 h.3) h.2 (rw (h.4) refl)
          h.5;
    creates = execute_create-StaysHonest p;
    cancels = execute_cancel-StaysHonest p;
    confirms = execute_confirm-StaysHonest p;
    processes = execute_process-StaysHonest p;
    refunds = execute_refund-StaysHonest p;
    ends = settle-StaysHonest p;
    announces = announces-StaysHonest;
    delivers = delivers-StaysHonest;
    logs = λ r w h.
        let v = (save_event p r w).1 in
        same-StaysHonest w v (same-OrdersEvolve w v (ground arith))
          (same-Pays w v (ground arith) (ground arith)) (ground arith) (ground arith)
          (ground arith);
    elapses = others;
  }
