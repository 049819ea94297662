-- ===== src/OrderController.antt =====
-- src/order/order.controller.ts and the query handlers of
-- src/order/queries/handlers/order.handlers.ts. The guard has put the account into the request, of
-- which the endpoints read the identifier. What is only logged is left out.
pub mod Texts
pub mod Keys
pub mod SoldOut
pub mod Confirming
pub mod Views
use nestjs_cqrs_saga.Prelude.{
  ℕ, String, Bool, true, false, ◌&&◌, not, Option, none, some, List, [], ◌∷◌, map, ◌==◌, ◌<+>◌,
  if◌then◌else◌, is_truthy, truthy_or, value_or,
}
use nestjs_cqrs_saga.Outcome.{Outcome, ok, err, http, not_found, forbidden}
use nestjs_cqrs_saga.Entity.{
  Order, OrderItem, OrderStatus, OrderStatus-discrete, CreateOrderCommand, CancelOrderCommand,
  ConfirmOrderCommand,
}
use nestjs_cqrs_saga.World.{World, Platform, Action, pure, throw, ◌>>=◌, ◌>>◌}
use nestjs_cqrs_saga.Store.{find_order}
use nestjs_cqrs_saga.Order.{execute_create, execute_cancel, execute_confirm}
use nestjs_cqrs_saga.Pages.{find_and_count, total_pages}
use nestjs_cqrs_saga.OrderController.Texts.{sort}

pub record CreateOrderDto : Type 0 where
  pub items : List OrderItem
  pub shipping_address : String
  pub idempotency_key : Option String

pub record OrderResponseDto : Type 0 where
  pub id : String
  pub user_id : String
  pub total_amount : ℕ
  pub status : OrderStatus
  pub items : List OrderItem
  pub shipping_address : String

abbrev pub order_response_of : Order → OrderResponseDto
order_response_of order = record {
  id = order.id;
  user_id = order.user_id;
  total_amount = order.total_amount;
  status = order.status;
  items = order.items;
  shipping_address = order.shipping_address;
}

-- `item.productId || item.productName`
abbrev pub product_of : OrderItem → String
product_of item = truthy_or (some item.product_id) item.product_name

-- `join('|')`
unfoldable pub join : List String → String
join [] = ""
join (t ∷ []) = t
join (t ∷ u ∷ ts) = t <+> "|" <+> join (u ∷ ts)

-- The `idempotencyKey` that both endpoints compute from the products of a cart.
unfoldable pub product_key : Platform → List OrderItem → String
product_key p items = p.sha256 ("SOLDOUT:" <+> join (sort (map product_of items)))

-- `createOrderDto.idempotencyKey`, or the key of the products.
abbrev pub idempotency_key_of : Platform → CreateOrderDto → String
idempotency_key_of p dto = truthy_or dto.idempotency_key (product_key p dto.items)

-- `createOrder`
unfoldable pub create_order_endpoint :
    Platform → CreateOrderDto → (user_id : String) → Action OrderResponseDto
create_order_endpoint p dto user_id = do
  order ← execute_create p (record {
    user_id = user_id;
    items = dto.items;
    shipping_address = dto.shipping_address;
    correlation_id = some (idempotency_key_of p dto);
  })
  pure (order_response_of order)

-- `createTestOrder`, which is the same code.
unfoldable pub create_test_order :
    Platform → CreateOrderDto → (user_id : String) → Action OrderResponseDto
create_test_order p dto user_id = do
  order ← execute_create p (record {
    user_id = user_id;
    items = dto.items;
    shipping_address = dto.shipping_address;
    correlation_id = some (idempotency_key_of p dto);
  })
  pure (order_response_of order)

pub record CancelResponse : Type 0 where
  pub message : String
  pub order_id : String

-- `cancelOrder`
unfoldable pub cancel_order_endpoint :
    Platform → (id user_id : String) → (reason : Option String) → Action CancelResponse
cancel_order_endpoint p id user_id reason = do
  execute_cancel p
      (record { order_id = id; user_id = user_id; reason = reason; correlation_id = none })
  pure (record { message = "주문이 취소되었습니다."; order_id = id })

pub record ConfirmResponse : Type 0 where
  pub message : String
  pub order_id : String
  pub payment_id : String

-- `confirmOrder`
unfoldable pub confirm_order_endpoint : Platform → (id payment_id : String) → Action ConfirmResponse
confirm_order_endpoint p id payment_id = do
  execute_confirm p (record { order_id = id; payment_id = payment_id; correlation_id = none })
  pure (record { message = "주문이 확인되었습니다."; order_id = id; payment_id = payment_id })

-- `GetOrderByIdHandler.execute`
unfoldable pub execute_get_order :
    Platform → (order_id : String) → (user_id : Option String) → Action Order
execute_get_order p order_id user_id = do
  found ← find_order p (λ r. r.id == order_id)
  elim found [
    | none ↦ throw (http not_found "Order not found")
    | some order ↦
        if is_truthy user_id && not (order.user_id == truthy_or user_id "")
        then throw (http forbidden "Access denied")
        else pure order
  ]

-- `getOrderById`
unfoldable pub get_order_by_id : Platform → (id user_id : String) → Action OrderResponseDto
get_order_by_id p id user_id = do
  order ← execute_get_order p id (some user_id)
  pure (order_response_of order)

-- The condition on the status, if there is one.
abbrev pub order_has_status : Option OrderStatus → Order → Bool
order_has_status none order = true
order_has_status (some status) order = elim (OrderStatus-discrete order.status status) [
  | yes e ↦ true
  | no e ↦ false
]

-- `GetOrdersByUserIdHandler.execute`
unfoldable pub execute_orders_of_user :
    Platform → (user_id : String) → (page limit : ℕ) → Option OrderStatus → Action (List Order × ℕ)
execute_orders_of_user p user_id page limit status w = (
  find_and_count p.orders p.negative_offset (λ r. r.user_id == user_id && order_has_status status r)
      page limit w.orders,
  w,
)

-- `GetOrdersHandler.execute`
unfoldable pub execute_orders :
    Platform
    → (page limit : ℕ) → Option OrderStatus
    → (user_id : Option String) → Action (List Order × ℕ)
execute_orders p page limit status user_id w = (
  find_and_count p.orders p.negative_offset
      (λ r.
        order_has_status status r
        && (if is_truthy user_id then r.user_id == truthy_or user_id "" else true))
      page limit w.orders,
  w,
)

pub record OrderPage : Type 0 where
  pub orders : List OrderResponseDto
  pub total : ℕ
  pub page : ℕ
  pub limit : ℕ
  pub total_pages : Option ℕ

-- `getMyOrders`, with the values that the parameters have by default.
unfoldable pub get_my_orders :
    Platform → (user_id : String) → (page limit : Option ℕ) → Option OrderStatus → Action OrderPage
get_my_orders p user_id page limit status = do
  let n = value_or page 1
  let k = value_or limit 10
  result ← execute_orders_of_user p user_id n k status
  pure (record {
    orders = map order_response_of result.0;
    total = result.1;
    page = n;
    limit = k;
    total_pages = total_pages result.1 k;
  })
