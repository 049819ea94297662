-- ===== src/System/Charges/Relation.antt =====
-- How the charges of orders, paid and announced, may change from one state of the service to another.
use nestjs_cqrs_saga.Prelude.{
  ℕ, ◌+◌, ◌≤◌, String, ◌≡◌, refl, sym, subst, Option, none, some, List, ◌++◌, arith, count,
  count-append, ◌==◌,
}
use nestjs_cqrs_saga.Table.{lookup, upsert, IsKeyed}
use nestjs_cqrs_saga.Entity.{OrderCreatedEvent, Order, Payment}
use nestjs_cqrs_saga.World.{World}
use nestjs_cqrs_saga.Order.Announced.{promised}
use nestjs_cqrs_saga.Order.Transitions.{Moves}
use nestjs_cqrs_saga.Payment.Pending.{settles, HasPending}
use nestjs_cqrs_saga.Payment.Charges.{
  tells_of, charges, stored_order, allowance, count-upsert_found,
}
use nestjs_cqrs_saga.System.Payments.Moves.{same-Pays}

-- The payments that wait for their end are stored, and primary keys are unique.
abbrev pub IsConsistent : World → Type 0
IsConsistent w = HasPending w.payments (settles w.deferred) × IsKeyed (λ r. r.id) w.orders

-- No order comes nearer to being charged than by being stored, or by the allowance.
abbrev pub Owes : Option OrderCreatedEvent → World → World → Type 0
Owes b v w =
    IsConsistent v
    → IsConsistent w
      × ((i : String)
          → charges i w + stored_order i v ≤ charges i v + stored_order i w + allowance b i)

pub Owes-leads :
    (b : Option OrderCreatedEvent) (u v w : World) → Owes none u v → Owes b v w → Owes b u w
Owes-leads b u v w h k c =
    let first = h c in
    let second = k first.0 in (second.0, λ i. omega (arith, first.1 i, second.1 i))

pub Owes-ends_with :
    (b : Option OrderCreatedEvent) (u v w : World) → Owes b u v → Owes none v w → Owes b u w
Owes-ends_with b u v w h k c =
    let first = h c in
    let second = k first.0 in (second.0, λ i. omega (arith, first.1 i, second.1 i))

pub Owes-allows : (b : Option OrderCreatedEvent) (v w : World) → Owes none v w → Owes b v w
Owes-allows b v w h c = let r = h c in (r.0, λ i. omega (arith, r.1 i))

pub stored-Moves :
    (a b : Option Order)
    → Moves a b
    → elim a as (λ x. ℕ) [ none ↦ 0 | some o ↦ 1 ] ≤ elim b as (λ x. ℕ) [ none ↦ 0 | some o ↦ 1 ]
stored-Moves none none m = omega arith
stored-Moves none (some s) m = omega arith
stored-Moves (some r) none m = absurd m
stored-Moves (some r) (some s) m = omega arith

pub stored_order-le : (o : Option Order) → elim o as (λ x. ℕ) [ none ↦ 0 | some r ↦ 1 ] ≤ 1
stored_order-le none = omega arith
stored_order-le (some o) = omega arith

-- What is announced and charged stays, and so do the orders.
pub same-Owes :
    (v w : World)
    → w.orders ≡ v.orders
    → w.payments ≡ v.payments
    → settles w.deferred ≡ settles v.deferred
    → ((i : String) → charges i w ≤ charges i v)
    → Owes none v w
same-Owes v w o a q le c = (
  ((same-Pays v w a q c.0).1, subst (IsKeyed (λ r. r.id)) (sym o) c.1),
  λ i. let stored : stored_order i w ≡ stored_order i v = rw o refl in omega (arith, le i, stored),
)

-- Announcements that are added count, each for its order.
pub announced-charges :
    (v w : World) (js : List OrderCreatedEvent) (i : String)
    → w.payments ≡ v.payments
    → w.bus ≡ v.bus
    → promised w.deferred ≡ promised v.deferred ++ js
    → charges i w ≡ charges i v + count (tells_of i) js
announced-charges v w js i a b d =
    rw (a, b, d) (omega (arith, count-append (tells_of i) (promised v.deferred) js))

abbrev pub payments_of : String → World → ℕ
payments_of i w = count (λ (a : Payment). a.order_id == i) w.payments

pub same_charges :
    (v w : World) (i : String)
    → w.payments ≡ v.payments
    → w.bus ≡ v.bus
    → promised w.deferred ≡ promised v.deferred
    → charges i w ≤ charges i v
same_charges v w i a b d = rw (a, b, d) (omega arith)

-- A stored payment is written again for the same order.
pub rewritten_charges :
    (a x : Payment) (t : List Payment) (i : String)
    → lookup (λ r. r.id) x.id t ≡ some a
    → x.order_id ≡ a.order_id
    → count (λ (r : Payment). r.order_id == i) (upsert (λ r. r.id) x t)
      ≡ count (λ (r : Payment). r.order_id == i) t
rewritten_charges a x t i found same =
    count-upsert_found (λ (r : Payment). r.id) (λ r. r.order_id == i) x a t found (rw same)
