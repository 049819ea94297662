-- ===== src/System/Orders.antt =====
-- The orders over whole runs of the service.
use nestjs_cqrs_saga.Prelude.{ℕ, String, ◌≡◌, refl, sym, subst, Option, none, some, ◌++◌, arith}
use nestjs_cqrs_saga.Table.{lookup, IsKeyed}
use nestjs_cqrs_saga.Entity.{Order, OrderStatus}
use nestjs_cqrs_saga.World.{World, Platform}
use nestjs_cqrs_saga.Store.{save_event}
use nestjs_cqrs_saga.Order.Transitions.{
  StatusMove, Moves, OrdersMove, order_by, execute_create-OrdersMove, execute_cancel-OrdersMove,
  execute_confirm-OrdersMove,
}
use nestjs_cqrs_saga.Order.{execute_create, execute_cancel, execute_confirm}
use nestjs_cqrs_saga.Payment.{execute_process, execute_refund, settle}
use nestjs_cqrs_saga.System.{Run}
use nestjs_cqrs_saga.System.Frame.{
  execute_process-SameBooks, execute_refund-SameBooks, settle-SameBooks,
}
use nestjs_cqrs_saga.System.Trail.{Trail}
use nestjs_cqrs_saga.System.Methods.{Run-Keeps}

StatusMove-trans : (s t u : OrderStatus) → StatusMove s t → StatusMove t u → StatusMove s u
StatusMove-trans s _ u StatusMove.stay m = m
StatusMove-trans s t _ (StatusMove.pay a b) StatusMove.stay = StatusMove.pay a b
StatusMove-trans s t u (StatusMove.pay a b) (StatusMove.pay c d) = StatusMove.pay a d
StatusMove-trans s t u (StatusMove.pay a b) (StatusMove.cancel c d e) =
    StatusMove.cancel (ground arith) (ground arith) e
StatusMove-trans s t _ (StatusMove.cancel a b c) StatusMove.stay = StatusMove.cancel a b c
StatusMove-trans s t u (StatusMove.cancel a b c) (StatusMove.pay d e) = absurd (ground arith)
StatusMove-trans s t u (StatusMove.cancel a b c) (StatusMove.cancel d e f) = absurd (d c)

-- How the row under one identifier may change: it stays, with its user, its lines, its total, its
-- address and its key, or it is a new one, whose status whole methods have moved from pending.
abbrev pub Evolves : Option Order → Option Order → Type 0
Evolves none none = Unit {0}
Evolves none (some s) = StatusMove OrderStatus.pending s.status
Evolves (some r) o = Moves (some r) o

Moves-Evolves : (a b : Option Order) → Moves a b → Evolves a b
Moves-Evolves none none m = tt
Moves-Evolves none (some s) m = subst (StatusMove OrderStatus.pending) (sym m) StatusMove.stay
Moves-Evolves (some r) b m = m

Evolves-trans : (a b c : Option Order) → Evolves a b → Evolves b c → Evolves a c
Evolves-trans none none c h k = k
Evolves-trans none (some s) none h k = absurd k
Evolves-trans none (some s) (some u) h k =
    StatusMove-trans OrderStatus.pending s.status u.status h k.0
Evolves-trans (some r) none c h k = absurd h
Evolves-trans (some r) (some s) none h k = absurd k
Evolves-trans (some r) (some s) (some u) h k = (
  StatusMove-trans r.status s.status u.status h.0 k.0,
  ground (arith, h, k),
  ground (arith, h, k),
  ground (arith, h, k),
  ground (arith, h, k),
  ground (arith, h, k),
  ground (arith, h, k),
)

-- The orders of two states of a run; primary keys stay unique.
abbrev pub OrdersEvolve : World → World → Type 0
OrdersEvolve v w =
    IsKeyed (λ r. r.id) v.orders
    → ((i : String) → Evolves (order_by i v) (order_by i w)) × IsKeyed (λ r. r.id) w.orders

pub OrdersMove-OrdersEvolve :
    (v w : World) → (IsKeyed (λ r. r.id) v.orders → OrdersMove v.orders w.orders) → OrdersEvolve v w
OrdersMove-OrdersEvolve v w m keyed =
    (λ i. Moves-Evolves (order_by i v) (order_by i w) ((m keyed).0 i), (m keyed).1 keyed)

Evolves-refl : (o : Option Order) → Evolves o o
Evolves-refl none = tt
Evolves-refl (some r) = (StatusMove.stay, refl, refl, refl, refl, refl, refl)

pub same-OrdersEvolve : (v w : World) → w.orders ≡ v.orders → OrdersEvolve v w
same-OrdersEvolve v w e keyed = (
  λ i.
      subst (λ t. Evolves (order_by i v) (lookup (λ r. r.id) i t)) (sym e)
        (Evolves-refl (order_by i v)),
  subst (IsKeyed (λ r. r.id)) (sym e) keyed,
)

pub OrdersEvolve-trans : (u v w : World) → OrdersEvolve u v → OrdersEvolve v w → OrdersEvolve u w
OrdersEvolve-trans u v w h k keyed =
    let first = h keyed in
    let second = k first.1 in
    (
      λ i. Evolves-trans (order_by i u) (order_by i v) (order_by i w) (first.0 i) (second.0 i),
      second.1,
    )

module _ (p : Platform) (others : (n : ℕ) (w : World) → OrdersEvolve w (p.elapse n w)) where
  orders_trail : Trail p
  orders_trail = record {
    rel = λ b. OrdersEvolve;
    leads = λ b. OrdersEvolve-trans;
    ends_with = λ b. OrdersEvolve-trans;
    allows = λ b v w h. h;
    frame = λ v w h. same-OrdersEvolve v w h.0;
    creates = λ c w.
        OrdersMove-OrdersEvolve w (execute_create p c w).1
          (λ keyed. execute_create-OrdersMove p c w);
    cancels = λ c w.
        OrdersMove-OrdersEvolve w (execute_cancel p c w).1
          (λ keyed. execute_cancel-OrdersMove p c w keyed);
    confirms = λ c w.
        OrdersMove-OrdersEvolve w (execute_confirm p c w).1
          (λ keyed. execute_confirm-OrdersMove p c w keyed);
    processes = λ e c w h.
        same-OrdersEvolve w (execute_process p c w).1 (execute_process-SameBooks p c w).0;
    refunds =
        λ c w. same-OrdersEvolve w (execute_refund p c w).1 (execute_refund-SameBooks p c w).0;
    ends = λ b a c before after w e.
        let u : World = record w { deferred = before ++ after } in
        same-OrdersEvolve w (settle p a c b u).1 (settle-SameBooks p a c b u).0;
    announces = λ es before after w e.
        same-OrdersEvolve w (record w { deferred = before ++ after; bus = w.bus ++ es }) refl;
    delivers = λ e before after v w h m.
        let u : World = record v { bus = before ++ after } in
        OrdersEvolve-trans v u w (same-OrdersEvolve v u refl) m;
    logs = λ r w h. same-OrdersEvolve w (save_event p r w).1 (ground arith);
    elapses = others;
  }

  -- Over every run of the service, in which a method is one step, whatever fails and in whichever
  -- order requests, callbacks and events come, if primary keys are unique at its start and the other
  -- clients do the same during the waits of locks: no order is removed, every order keeps its user,
  -- lines, total, address and key, its status moves as whole methods move it, and primary keys stay
  -- unique. `Order.Interleaved` has the handlers in parts.
  pub Run-Evolves :
      (v w : World)
      → IsKeyed (λ r. r.id) v.orders
      → Run p v w
      → ((i : String) → Evolves (order_by i v) (order_by i w)) × IsKeyed (λ r. r.id) w.orders
  unfolding orders_trail
  Run-Evolves v w keyed run = Run-Keeps p orders_trail v w run keyed
