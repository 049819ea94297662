-- ===== src/OrderController/Keys.antt =====
-- The idempotency keys of src/order/order.controller.ts: orders for products that are sold out.
use nestjs_cqrs_saga.Prelude.{
  String, ◌≡◌, refl, ap, ◌∙◌, sym, true, false, none, some, List, map, arith, Perm, is_truthy,
  truthy_or, ◌<+>◌, Option,
}
use nestjs_cqrs_saga.Outcome.{Outcome, ok, err, duplicate_order}
use nestjs_cqrs_saga.Entity.{Order, OrderItem, CreateOrderCommand}
use nestjs_cqrs_saga.World.{World, Platform}
use nestjs_cqrs_saga.Order.{has_key}
use nestjs_cqrs_saga.Order.Create.{new_order, execute_create-twice}
use nestjs_cqrs_saga.OrderController.Texts.{sort-perm}
use nestjs_cqrs_saga.OrderController.{
  CreateOrderDto, OrderResponseDto, product_of, join, product_key, idempotency_key_of,
  create_order_endpoint, create_test_order,
}

-- Carts of the same products, each as often, have one key: the order of the lines, the quantities, the
-- prices and the names of products that have identifiers play no part in it.
pub product_key-perm :
    (p : Platform) (xs ys : List OrderItem)
    → Perm (map product_of xs) (map product_of ys)
    → product_key p xs ≡ product_key p ys
unfolding product_key
product_key-perm p xs ys same = ap (λ ts. p.sha256 ("SOLDOUT:" <+> join ts)) (sort-perm same)

module _ (p : Platform) where
  -- The command of a request.
  abbrev pub command_of : CreateOrderDto → String → CreateOrderCommand
  command_of dto user_id = record {
    user_id = user_id;
    items = dto.items;
    shipping_address = dto.shipping_address;
    correlation_id = some (idempotency_key_of p dto);
  }

  -- Without a key of its own, a request has the key of its products.
  pub key_of_products :
      (dto : CreateOrderDto)
      → is_truthy dto.idempotency_key ≡ false
      → idempotency_key_of p dto ≡ product_key p dto.items
  key_of_products dto h = by_key dto.idempotency_key h
    where
      by_key :
          (o : Option String)
          → is_truthy o ≡ false
          → truthy_or o (product_key p dto.items) ≡ product_key p dto.items
      by_key none h = refl
      by_key (some String.[]) h = refl
      by_key (some (String.◌∷◌ c s)) h = cc

  -- Once an order has been stored for a request without a key of its own, and as long as the orders
  -- stay as that left them, a request of any user for the same products, in any order and in any
  -- quantities, without a key of its own, is refused at both endpoints with the identifier of that
  -- order, and changes nothing.
  pub create_order_endpoint-sold_out :
      (dto dto' : CreateOrderDto) (user_id user_id' : String) (w v : World) (r : Order)
      (t : List Order)
      → is_truthy dto.idempotency_key ≡ false
      → is_truthy dto'.idempotency_key ≡ false
      → Perm (map product_of dto.items) (map product_of dto'.items)
      → p.orders.find_one (has_key (product_key p dto.items)) w.orders ≡ none
      → p.orders.save (new_order p (command_of dto user_id) w) w.orders ≡ ok (r, t)
      → v.orders ≡ (create_order_endpoint p dto user_id w).1.orders
      → let refusal : Outcome OrderResponseDto × World = (
        err (duplicate_order (new_order p (command_of dto user_id) w).id (product_key p dto.items)),
        v,
      ) in
        (create_order_endpoint p dto' user_id' v ≡ refusal)
        × (create_test_order p dto' user_id' v ≡ refusal)
  unfolding create_order_endpoint create_test_order product_key
  create_order_endpoint-sold_out dto dto' user_id user_id' w v r t bare bare' same missing saved
        orders =
      let k = product_key p dto.items in
      let twice =
        execute_create-twice p (command_of dto user_id) (command_of dto' user_id') k w v r t
          (truthy k refl) (ap some (key_of_products dto bare))
          (ap some
            (key_of_products dto' bare' ∙ sym (product_key-perm p dto.items dto'.items same)))
          missing saved (orders ∙ ground arith) in
      (ground (arith, twice), ground (arith, twice))
    where
      truthy : (k : String) → k ≡ product_key p dto.items → is_truthy (some k) ≡ true
      truthy k e = rw e (p.sha256_filled _)
