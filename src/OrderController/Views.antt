-- ===== src/OrderController/Views.antt =====
-- What src/order/order.controller.ts shows of the orders, and to whom.
use mathlib.Core.List.Perm
use nestjs_cqrs_saga.Prelude.{
  ℕ, suc, ◌+◌, ◌-◌, ◌<◌, ◌*◌, ◌/◌, ◌≤◌, String, ◌≡◌, refl, ◌∙◌, true, ◌&&◌, some, List, [], ◌∷◌,
  map, arith, Perm, is_truthy, truthy_or-some, eq_iff, ◌==◌, Option, filter, count, length, Bool,
  nat_eq, All, Option-cases, inl, inr,
}
use nestjs_cqrs_saga.Outcome.{Outcome, ok, err}
use nestjs_cqrs_saga.Entity.{Order, OrderStatus}
use nestjs_cqrs_saga.World.{World, Platform}
use nestjs_cqrs_saga.Pages.Cover.{join_from, join_from-map, length-map, total_pages-enough}
use nestjs_cqrs_saga.Pages.Rows.{pages_lem, page_length, page, page_matches}
use nestjs_cqrs_saga.OrderController.{
  OrderResponseDto, OrderPage, order_response_of, execute_get_order, get_order_by_id,
  order_has_status, execute_orders_of_user, get_my_orders,
}

module _ (p : Platform) (user_id : String) where
  -- The condition of a user's query.
  abbrev pub is_asked : Option OrderStatus → Order → Bool
  is_asked status r = r.user_id == user_id && order_has_status status r

  -- What a request for the page `k` shows.
  abbrev pub shown : Option OrderStatus → World → (limit k : ℕ) → List OrderResponseDto
  shown status w limit k = elim (get_my_orders p user_id (some k) (some limit) status w).0 [
    | ok result ↦ result.orders
    | err e ↦ []
  ]

  module _ (status : Option OrderStatus) (w : World) (n : ℕ) where
    shown_lem :
        (k : ℕ)
        → shown status w (suc n) (suc k)
          ≡ map order_response_of
              (page p.orders p.negative_offset (is_asked status) w.orders (suc n) (suc k))
    unfolding get_my_orders execute_orders_of_user
    shown_lem k = refl

    -- The requests of a user for the pages from the first to the last of which the first one tells, with
    -- a limit that is not 0, while the orders do not change and where no two of those asked for were
    -- created at one time, show each order of the user, of the status asked for if one is, exactly
    -- once.
    pub get_my_orders-cover :
        (result : OrderPage) (m : ℕ)
        → ((k : ℕ)
            → count (λ r. is_asked status r && nat_eq (p.orders.created_at w.orders r) k) w.orders
              ≤ 1)
        → (get_my_orders p user_id (some 1) (some (suc n)) status w).0 ≡ ok result
        → result.total_pages ≡ some m
        → Perm
            (join_from (shown status w (suc n)) 1 m)
            (map order_response_of (filter (is_asked status) w.orders))
    unfolding get_my_orders execute_orders_of_user
    get_my_orders-cover result m apart done pages =
        let total = p.orders.count_rows (is_asked status) w.orders in
        let last : (total + n) / suc n ≡ m = ground (arith, done, pages) in
        rw
          (
            ← last,
            join_from-map order_response_of
                (page p.orders p.negative_offset (is_asked status) w.orders (suc n))
                (shown status w (suc n)) 0 ((total + n) / suc n) shown_lem,
            pages_lem p.orders p.negative_offset (is_asked status) w.orders n apart,
          )
          (Perm.map order_response_of (p.orders.newest_perm (is_asked status) w.orders))

  module _ (status : Option OrderStatus) (w : World) (n i : ℕ) where
    -- What a request for a page, with a limit that is not 0, returns: no more orders than the limit, and
    -- no more than the pages before leave; as the total the number of the user's orders of the status
    -- asked for, if one is; and as the number of pages the least that hold so many.
    pub get_my_orders-bounds :
        (result : OrderPage) (m : ℕ)
        → (get_my_orders p user_id (some (suc i)) (some (suc n)) status w).0 ≡ ok result
        → result.total_pages ≡ some m
        → (length result.orders ≤ suc n)
          × (length result.orders ≤ result.total - i * suc n)
          × (result.total ≡ count (is_asked status) w.orders)
          × (result.total ≤ m * suc n)
          × (m * suc n < result.total + suc n)
    unfolding get_my_orders execute_orders_of_user
    get_my_orders-bounds result m done pages =
        let rows = page p.orders p.negative_offset (is_asked status) w.orders (suc n) (suc i) in
        let size = page_length p.orders p.negative_offset (is_asked status) w.orders n i in
        let shown : length result.orders ≡ length rows =
          ground (arith, done, length-map order_response_of rows) in
        let total : result.total ≡ p.orders.count_rows (is_asked status) w.orders =
          ground (arith, done) in
        let same : (result.total + n) / suc n ≡ m = ground (arith, done, pages) in
        let enough = total_pages-enough result.total n in
        (
          omega (arith, shown, size.0),
          omega (arith, shown, size.1, total),
          total ∙ p.orders.count_rows_lem (is_asked status) w.orders,
          rw same at enough.0,
          omega (arith, rw same at enough.1),
        )

  -- An order that is shown on its own is the one asked for, and the account's own.
  abbrev pub ShowsOwn : String → Outcome OrderResponseDto → Type 0
  ShowsOwn id (ok response) = (response.id ≡ id) × (response.user_id ≡ user_id)
  ShowsOwn id (err e) = Unit {0}

  all_own :
      (status : Option OrderStatus) (rows : List Order)
      → All (λ r. is_asked status r ≡ true) rows
      → All (λ r. r.user_id ≡ user_id) (map order_response_of rows)
  all_own status [] h = tt
  all_own status (r ∷ rows) h =
      (ground (arith, h.0, eq_iff r.user_id user_id), all_own status rows h.1)

  -- An account whose identifier is not empty sees only its own orders: whatever identifier it asks
  -- for, an order that it is shown has that identifier and is its own; whether or not it has any
  -- orders, every order on a page with a limit that is not 0 is its own; and asking changes nothing.
  pub views-own :
      (id : String) (status : Option OrderStatus) (n i : ℕ) (w : World)
      → is_truthy (some user_id) ≡ true
      → ShowsOwn id (get_order_by_id p id user_id w).0
        × All (λ r. r.user_id ≡ user_id) (shown status w (suc n) (suc i))
        × ((get_order_by_id p id user_id w).1 ≡ w)
        × ((get_my_orders p user_id (some (suc i)) (some (suc n)) status w).1 ≡ w)
  unfolding get_order_by_id execute_get_order get_my_orders execute_orders_of_user
  views-own id status n i w known = (
    elim (Option-cases (p.orders.find_one (λ r. r.id == id) w.orders)) [
      | inl e ↦ rw e tt
      | inr (r, e) ↦ ground (
        arith,
        known,
        truthy_or-some user_id "" known,
        (p.orders.find_one_sound (λ r. r.id == id) w.orders r e).0,
        eq_iff r.id id,
        eq_iff r.user_id user_id,
        e,
      )
    ],
    all_own status (page p.orders p.negative_offset (is_asked status) w.orders (suc n) (suc i))
        (page_matches p.orders p.negative_offset (is_asked status) w.orders n i),
    ground arith,
    refl,
  )
