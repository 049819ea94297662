-- ===== src/System/Bills/Relation.antt =====
-- The payments and the announced creations that agree with the stored orders.
use nestjs_cqrs_saga.Prelude.{
  ℕ, String, ◌≡◌, refl, sym, subst, ◌∙◌, Option, none, some, List, [], ◌∷◌, ◌++◌, All, Bool-cases,
  inl, inr, ◌==◌, arith,
}
use nestjs_cqrs_saga.Table.{lookup, upsert}
use nestjs_cqrs_saga.Entity.{Order, Payment, OrderCreatedEvent}
use nestjs_cqrs_saga.World.{World}
use nestjs_cqrs_saga.Order.Announced.{created_orders, promised}
use nestjs_cqrs_saga.Order.Transitions.{order_by}
use nestjs_cqrs_saga.System.Orders.{Evolves, OrdersEvolve, OrdersEvolve-trans}
use nestjs_cqrs_saga.System.Payments.Moves.{Pays}
use nestjs_cqrs_saga.System.Charges.Relation.{IsConsistent}

-- An order is stored for a user and with a total.
abbrev pub Bills : String → String → ℕ → World → Type 0
Bills i user total w =
    (o : Order) × (order_by i w ≡ some o) × (o.user_id ≡ user) × (o.total_amount ≡ total)

-- A payment charges the user of its order with the order's total, and an event of a creation tells
-- them.
abbrev pub Charged : World → Payment → Type 0
Charged w a = Bills a.order_id a.user_id a.amount w

abbrev pub Told : World → OrderCreatedEvent → Type 0
Told w e = Bills e.order_id e.user_id e.total_amount w

-- So do all of them.
abbrev pub IsHonest : World → Type 0
IsHonest w =
    All (Charged w) w.payments
    × All (Told w) (created_orders w.bus)
    × All (Told w) (promised w.deferred)

abbrev pub IndexTold : Option OrderCreatedEvent → World → Type 0
IndexTold none w = Unit {0}
IndexTold (some e) w = Told w e

abbrev pub StaysHonest : Option OrderCreatedEvent → World → World → Type 0
StaysHonest b v w =
    IsConsistent v → IsHonest v → IndexTold b v → OrdersEvolve v w × IsConsistent w × IsHonest w

module _ (v w : World) (m : (i : String) → Evolves (order_by i v) (order_by i w)) where
  kept_order :
      (o : Order) (x : Option Order) (user : String) (total : ℕ)
      → Evolves (some o) x
      → o.user_id ≡ user
      → o.total_amount ≡ total
      → (s : Order) × (x ≡ some s) × (s.user_id ≡ user) × (s.total_amount ≡ total)
  kept_order o none user total h a b = absurd h
  kept_order o (some s) user total h a b = (s, refl, h.2 ∙ a, h.3 ∙ b)

  pub Bills-Evolves : (i user : String) (total : ℕ) → Bills i user total v → Bills i user total w
  Bills-Evolves i user total (o, e, a, b) =
      kept_order o (order_by i w) user total (subst (λ x. Evolves x (order_by i w)) e (m i)) a b

  pub Charged-Evolves : (t : List Payment) → All (Charged v) t → All (Charged w) t
  Charged-Evolves [] h = tt
  Charged-Evolves (a ∷ t) h =
      (Bills-Evolves a.order_id a.user_id a.amount h.0, Charged-Evolves t h.1)

  pub Told-Evolves : (t : List OrderCreatedEvent) → All (Told v) t → All (Told w) t
  Told-Evolves [] h = tt
  Told-Evolves (e ∷ t) h =
      (Bills-Evolves e.order_id e.user_id e.total_amount h.0, Told-Evolves t h.1)

  pub IndexTold-Evolves : (b : Option OrderCreatedEvent) → IndexTold b v → IndexTold b w
  IndexTold-Evolves none h = tt
  IndexTold-Evolves (some e) h = Bills-Evolves e.order_id e.user_id e.total_amount h

pub StaysHonest-leads :
    (b : Option OrderCreatedEvent) (u v w : World)
    → StaysHonest none u v
    → StaysHonest b v w
    → StaysHonest b u w
StaysHonest-leads b u v w h k c honest told =
    let first = h c honest tt in
    let evolves = (first.0 c.1).0 in
    let second = k first.1 first.2 (IndexTold-Evolves u v evolves b told) in
    (OrdersEvolve-trans u v w first.0 second.0, second.1, second.2)

pub StaysHonest-ends_with :
    (b : Option OrderCreatedEvent) (u v w : World)
    → StaysHonest b u v
    → StaysHonest none v w
    → StaysHonest b u w
StaysHonest-ends_with b u v w h k c honest told =
    let first = h c honest told in
    let second = k first.1 first.2 tt in
    (OrdersEvolve-trans u v w first.0 second.0, second.1, second.2)

-- What a step has to show beside the moves of the orders and the payments: that what it adds agrees
-- with the orders that it leaves.
pub StaysHonest-intro :
    (b : Option OrderCreatedEvent) (v w : World)
    → OrdersEvolve v w
    → Pays v w
    → (IsConsistent v
        → IsHonest v
        → IndexTold b v
        → ((i : String) → Evolves (order_by i v) (order_by i w))
        → IsHonest w)
    → StaysHonest b v w
StaysHonest-intro b v w o q f c honest told =
    let moved = o c.1 in (o, ((q c.0).1, moved.1), f c honest told moved.0)

-- Nothing is added.
pub same-StaysHonest :
    (v w : World)
    → OrdersEvolve v w
    → Pays v w
    → w.payments ≡ v.payments
    → created_orders w.bus ≡ created_orders v.bus
    → promised w.deferred ≡ promised v.deferred
    → StaysHonest none v w
same-StaysHonest v w o q a d x = StaysHonest-intro none v w o q (λ c honest told m. (
  subst (All (Charged w)) (sym a) (Charged-Evolves v w m v.payments honest.0),
  subst (All (Told w)) (sym d) (Told-Evolves v w m (created_orders v.bus) honest.1),
  subst (All (Told w)) (sym x) (Told-Evolves v w m (promised v.deferred) honest.2),
))

module _ {A : Type 0} (P : A → Type 0) where
  pub All-append_left : (xs ys : List A) → All P (xs ++ ys) → All P xs
  All-append_left [] ys h = tt
  All-append_left (x ∷ xs) ys h = (h.0, All-append_left xs ys h.1)

  pub All-append_right : (xs ys : List A) → All P (xs ++ ys) → All P ys
  All-append_right [] ys h = h
  All-append_right (x ∷ xs) ys h = All-append_right xs ys h.1

  module _ (key : A → String) where
    pub All-upsert : (r : A) (t : List A) → P r → All P t → All P (upsert key r t)
    All-upsert r [] p h = (p, tt)
    All-upsert r (x ∷ t) p h = elim (Bool-cases (key x == key r)) [
      | inl e ↦ rw e (p, h.1)
      | inr e ↦ rw e (h.0, All-upsert r t p h.1)
    ]

    pub All-lookup : (i : String) (a : A) (t : List A) → lookup key i t ≡ some a → All P t → P a
    All-lookup i a [] e h = cc
    All-lookup i a (x ∷ t) e h = elim (Bool-cases (key x == i)) [
      | inl k ↦ let same : x ≡ a = ground arith in subst P same h.0
      | inr k ↦ All-lookup i a t (ground arith) h.1
    ]
