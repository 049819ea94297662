-- ===== src/Order/Create.antt =====
-- `CreateOrderHandler` of src/order/commands/handlers/order.handlers.ts: the total, the order
-- that is stored, and the idempotency key.
use nestjs_cqrs_saga.Prelude.{
  ℕ, ◌+◌, ◌*◌, String, ◌≡◌, ◌⊎◌, inl, inr, true, false, none, some, List, [], ◌∷◌, ◌++◌, map, arith,
  eq_refl, is_truthy, truthy_or, truthy_or-some, Option-cases,
}
use nestjs_cqrs_saga.Outcome.{ok, err, Error, duplicate_order}
use nestjs_cqrs_saga.Table.{upsert_fresh, Holds-append, Holds-last, false-Holds}
use nestjs_cqrs_saga.Entity.{
  Order, OrderItem, OrderStatus, CreateOrderCommand, order_created, OrderCreatedEvent,
}
use nestjs_cqrs_saga.World.{World, Platform, publish_all}
use nestjs_cqrs_saga.Order.{
  reduce_items, create_order, has_key, is_key_violation, try_create, on_create_error,
  execute_create,
}

-- The price of a line, and the sum of the lines.
abbrev pub line_total : OrderItem → ℕ
line_total i = i.price * i.quantity

abbrev pub sum : List ℕ → ℕ
sum [] = 0
sum (n ∷ ns) = n + sum ns

pub reduce_items-eq-sum :
    (acc : ℕ) (is : List OrderItem) → reduce_items acc is ≡ acc + sum (map line_total is)
unfolding reduce_items
reduce_items-eq-sum acc [] = omega arith
reduce_items-eq-sum acc (i ∷ is) = omega (arith, reduce_items-eq-sum (acc + line_total i) is)

-- The order that a command describes, under the identifier that the database gives it.
abbrev pub new_order : Platform → CreateOrderCommand → World → Order
new_order p c w = record {
  id = p.orders.generate w.orders;
  user_id = c.user_id;
  total_amount = sum (map line_total c.items);
  status = OrderStatus.pending;
  items = c.items;
  payment_id = none;
  shipping_address = c.shipping_address;
  idempotency_key = c.correlation_id;
}

abbrev pub created_event : CreateOrderCommand → World → Order → OrderCreatedEvent
created_event c w r = record {
  order_id = r.id;
  user_id = r.user_id;
  total_amount = r.total_amount;
  items = r.items;
  shipping_address = r.shipping_address;
  correlation_id = c.correlation_id;
  occurred_at = w.now;
}

module _ (p : Platform) (c : CreateOrderCommand) (w : World) where
  pub create_order_lem :
      (r : Order) (t : List Order)
      → p.orders.save (new_order p c w) w.orders ≡ ok (r, t)
      → create_order p c w ≡ (
        ok (new_order p c w),
        record w {
          orders = w.orders ++ new_order p c w ∷ [];
          deferred =
              w.deferred
              ++ publish_all (order_created (created_event c w (new_order p c w)) ∷ []) ∷ [];
        },
      )
  unfolding create_order
  create_order_lem r t saved = ground (
    arith,
    reduce_items-eq-sum 0 c.items,
    p.orders.save_ok (new_order p c w) r w.orders t saved,
    upsert_fresh (λ (r : Order). r.id) (new_order p c w) w.orders
        (p.orders.generate_fresh w.orders),
  )

  -- A command whose key no order has yet, or that has no key, stores one new pending order with the
  -- sum of price times quantity over its lines as the total, if the database accepts it, returns it,
  -- and announces it later by one event; nothing else changes.
  pub execute_create-stores :
      (r : Order) (t : List Order)
      → (is_truthy c.correlation_id ≡ false)
        ⊎ (p.orders.find_one (has_key (truthy_or c.correlation_id "")) w.orders ≡ none)
      → p.orders.save (new_order p c w) w.orders ≡ ok (r, t)
      → execute_create p c w ≡ (
        ok (new_order p c w),
        record w {
          orders = w.orders ++ new_order p c w ∷ [];
          deferred =
              w.deferred
              ++ publish_all (order_created (created_event c w (new_order p c w)) ∷ []) ∷ [];
        },
      )
  unfolding execute_create try_create
  execute_create-stores r t fresh saved = ground (arith, create_order_lem r t saved)

  -- The creation of an order that throws, for whatever reason, has written and announced nothing.
  pub execute_create_atomic :
      (e : Error) → (execute_create p c w).0 ≡ err e → (execute_create p c w).1 ≡ w
  unfolding execute_create try_create create_order on_create_error
  execute_create_atomic e h = ground arith

-- A query by key finds the order that was appended, if none had the key before.
pub find_appended :
    (p : Platform) (k : String) (n : Order) (t : List Order)
    → has_key k n ≡ true
    → p.orders.find_one (has_key k) t ≡ none
    → p.orders.find_one (has_key k) (t ++ n ∷ []) ≡ some n
find_appended p k n t has missing =
    elim (Option-cases (p.orders.find_one (has_key k) (t ++ n ∷ []))) [
      | inl e ↦
          let f =
            false-Holds (has_key k) n (t ++ n ∷ []) (p.orders.find_one_complete _ _ e)
              (Holds-last (λ (r : Order). r.id) n t) in
          ground (arith, f)
      | inr (x, e) ↦
          let s = p.orders.find_one_sound _ _ x e in
          elim (Holds-append (λ (r : Order). r.id) x n t s.1) [
            | inl old ↦
                let f = false-Holds (has_key k) x t (p.orders.find_one_complete _ _ missing) old in
                ground (arith, f, s.0)
            | inr new ↦ rw (e, new)
          ]
    ]

-- Once a command with a key that is not empty and that no order had has stored its order, any command
-- with that key, in any state with the same orders, is refused with the order's identifier and
-- changes nothing.
pub execute_create-twice :
    (p : Platform) (c d : CreateOrderCommand) (k : String) (w v : World) (r : Order)
    (t : List Order)
    → is_truthy (some k) ≡ true
    → c.correlation_id ≡ some k
    → d.correlation_id ≡ some k
    → p.orders.find_one (has_key k) w.orders ≡ none
    → p.orders.save (new_order p c w) w.orders ≡ ok (r, t)
    → v.orders ≡ (execute_create p c w).1.orders
    → execute_create p d v ≡ (err (duplicate_order (new_order p c w).id k), v)
unfolding execute_create try_create on_create_error is_key_violation
execute_create-twice p c d k w v r t truthy ck dk missing saved same =
    let n = new_order p c w in
    let key_of = truthy_or-some k "" truthy in
    let stored = execute_create-stores p c w r t (inr (ground (arith, key_of))) saved in
    let found = find_appended p k n w.orders (ground (arith, eq_refl k)) missing in
    ground (arith, key_of, stored, found)
