-- ===== src/System/Charges.antt =====
-- How often the orders are charged over whole runs of the service.
pub mod Relation
pub mod Orders
pub mod Payments
pub mod Bus
use nestjs_cqrs_saga.Prelude.{ℕ, none, arith}
use nestjs_cqrs_saga.World.{World, Platform}
use nestjs_cqrs_saga.Store.{save_event}
use nestjs_cqrs_saga.System.Trail.{Trail}
use nestjs_cqrs_saga.System.Charges.Relation.{
  Owes, Owes-allows, Owes-ends_with, Owes-leads, same-Owes, same_charges,
}
use nestjs_cqrs_saga.System.Charges.Orders.{
  execute_cancel-Owes, execute_confirm-Owes, execute_create-Owes,
}
use nestjs_cqrs_saga.System.Charges.Payments.{
  execute_process-Owes, execute_refund-Owes, settle-Owes,
}
use nestjs_cqrs_saga.System.Charges.Bus.{announces-Owes, delivers-Owes}

module _ (p : Platform) (others : (n : ℕ) (w : World) → Owes none w (p.elapse n w)) where
  charges_trail : Trail p
  charges_trail = record {
    rel = Owes;
    leads = Owes-leads;
    ends_with = Owes-ends_with;
    allows = Owes-allows;
    frame = λ v w h. same-Owes v w h.0 h.2 h.3 (λ i. same_charges v w i h.2 h.4 h.5);
    creates = execute_create-Owes p;
    cancels = execute_cancel-Owes p;
    confirms = execute_confirm-Owes p;
    processes = execute_process-Owes p;
    refunds = execute_refund-Owes p;
    ends = settle-Owes p;
    announces = announces-Owes;
    delivers = delivers-Owes;
    logs = λ r w h.
        let v = (save_event p r w).1 in
        same-Owes w v (ground arith) (ground arith) (ground arith)
          (λ i. same_charges w v i (ground arith) (ground arith) (ground arith));
    elapses = others;
  }
