-- ===== src/Order/Interleaved/Rows.antt =====
-- What the interleaved handlers of src/order/commands/handlers/order.handlers.ts do to the orders
-- and to the order objects that they hold.
use nestjs_cqrs_saga.Prelude.{
  ◌≡◌, ◌⊎◌, refl, sym, subst, inl, inr, Option, none, some, List, [], ◌∷◌, arith, All,
}
use nestjs_cqrs_saga.Table.{lookup}
use nestjs_cqrs_saga.Entity.{Order, OrderStatus}
use nestjs_cqrs_saga.Order.Transitions.{Moves, StatusMove, RowsMove}
use nestjs_cqrs_saga.Order.Interleaved.{Call, creating, cancelling, confirming}

-- The columns that no handler changes.
abbrev pub SameOrder : Order → Order → Type 0
SameOrder r s =
    (s.id ≡ r.id)
    × (s.user_id ≡ r.user_id)
    × (s.total_amount ≡ r.total_amount)
    × (s.items ≡ r.items)
    × (s.shipping_address ≡ r.shipping_address)
    × (s.idempotency_key ≡ r.idempotency_key)

SameOrder-trans : (a b c : Order) → SameOrder a b → SameOrder b c → SameOrder a c
SameOrder-trans a b c h k = ground arith

-- A status that stays or is written by a handler.
abbrev pub Written : OrderStatus → OrderStatus → Type 0
Written s t = (t ≡ s) ⊎ ((t ≡ OrderStatus.paid) ⊎ (t ≡ OrderStatus.cancelled))

Written-trans : (s t u : OrderStatus) → Written s t → Written t u → Written s u
Written-trans s t u h (inr k) = inr k
Written-trans s t u h (inl e) = subst (Written s) (sym e) h

-- What one step does to the row under an identifier: it keeps the row and its columns, or it is a new
-- one, which is pending.
abbrev pub Rewrites : Option Order → Option Order → Type 0
Rewrites none none = Unit {0}
Rewrites none (some s) = s.status ≡ OrderStatus.pending
Rewrites (some r) none = ⊥
Rewrites (some r) (some s) = Written r.status s.status × SameOrder r s

pub Rewrites-refl : (o : Option Order) → Rewrites o o
Rewrites-refl none = tt
Rewrites-refl (some r) = (inl refl, (refl, refl, refl, refl, refl, refl))

-- What steps do to it together.
abbrev pub Lasts : Option Order → Option Order → Type 0
Lasts none none = Unit {0}
Lasts none (some s) = Written OrderStatus.pending s.status
Lasts (some r) o = Rewrites (some r) o

pub Lasts-refl : (o : Option Order) → Lasts o o
Lasts-refl none = tt
Lasts-refl (some r) = Rewrites-refl (some r)

pub Rewrites-Lasts : (a b : Option Order) → Rewrites a b → Lasts a b
Rewrites-Lasts none none h = tt
Rewrites-Lasts none (some s) h = inl h
Rewrites-Lasts (some r) b h = h

pub Lasts-trans : (a b c : Option Order) → Lasts a b → Lasts b c → Lasts a c
Lasts-trans none none c h k = k
Lasts-trans none (some s) none h k = absurd k
Lasts-trans none (some s) (some u) h k = Written-trans OrderStatus.pending s.status u.status h k.0
Lasts-trans (some r) none c h k = absurd h
Lasts-trans (some r) (some s) none h k = absurd k
Lasts-trans (some r) (some s) (some u) h k =
    (Written-trans r.status s.status u.status h.0 k.0, SameOrder-trans r s u h.1 k.1)

pub Moves-Rewrites : (a b : Option Order) → Moves a b → Rewrites a b
Moves-Rewrites none none m = tt
Moves-Rewrites none (some s) m = m
Moves-Rewrites (some r) none m = absurd m
Moves-Rewrites (some r) (some s) m = (written r.status s.status m.0, (m.1, m.2, m.3, m.4, m.5, m.6))
  where
    written : (k l : OrderStatus) → StatusMove k l → Written k l
    written k _ StatusMove.stay = inl refl
    written k l (StatusMove.pay a b) = inr (inl b)
    written k l (StatusMove.cancel a b c) = inr (inr c)

abbrev pub RowsRewrite : List Order → List Order → Type 0
RowsRewrite = RowsMove Rewrites Rewrites-refl

-- The order object that a handler holds is still stored, but for its status and payment.
abbrev pub Kept : Order → List Order → Type 0
Kept o t = (s : Order) × (lookup (λ r. r.id) o.id t ≡ some s) × SameOrder o s

abbrev pub IsCurrent : List Order → Call → Type 0
IsCurrent t (creating c) = Unit {0}
IsCurrent t (cancelling c o) = Kept o t
IsCurrent t (confirming c o) = Kept o t

rewritten :
    (s : Order) (o : Option Order)
    → Rewrites (some s) o
    → (u : Order) × (o ≡ some u) × SameOrder s u
rewritten s none m = absurd m
rewritten s (some u) m = (u, refl, m.1)

rewritten-Kept : (o : Order) (t t' : List Order) → RowsRewrite t t' → Kept o t → Kept o t'
rewritten-Kept o t t' m (s, e, same) =
    let (u, there, still) =
      rewritten s (lookup (λ r. r.id) o.id t')
        (subst (λ x. Rewrites x (lookup (λ r. r.id) o.id t')) e (m.0 o.id)) in
    (u, there, SameOrder-trans o s u same still)

pub rewritten-IsCurrent :
    (t t' : List Order) (xs : List Call)
    → RowsRewrite t t'
    → All (IsCurrent t) xs
    → All (IsCurrent t') xs
rewritten-IsCurrent t t' [] m h = tt
rewritten-IsCurrent t t' (creating c ∷ xs) m h = (tt, rewritten-IsCurrent t t' xs m h.1)
rewritten-IsCurrent t t' (cancelling c o ∷ xs) m h =
    (rewritten-Kept o t t' m h.0, rewritten-IsCurrent t t' xs m h.1)
rewritten-IsCurrent t t' (confirming c o ∷ xs) m h =
    (rewritten-Kept o t t' m h.0, rewritten-IsCurrent t t' xs m h.1)
