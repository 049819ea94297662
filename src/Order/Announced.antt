-- ===== src/Order/Announced.antt =====
-- The creations of orders that are on the event bus or wait to be published there.
use nestjs_cqrs_saga.Prelude.{
  String, ◌≡◌, refl, Option, List, [], ◌∷◌, ◌++◌, arith, append-nil, append_assoc, ◌∙◌,
}
use nestjs_cqrs_saga.Entity.{
  BusEvent, OrderCreatedEvent, Payment, order_created, order_cancelled, order_confirmed,
  order_status_changed, payment_processed, payment_failed, payment_refunded,
}
use nestjs_cqrs_saga.Message.{Body}
use nestjs_cqrs_saga.World.{Task, publish_all, publish_message, settle_payment}

-- The creations of orders among some events.
abbrev pub created_orders : List BusEvent → List OrderCreatedEvent
created_orders [] = []
created_orders (order_created e ∷ es) = e ∷ created_orders es
created_orders (order_cancelled e ∷ es) = created_orders es
created_orders (order_confirmed e ∷ es) = created_orders es
created_orders (order_status_changed e ∷ es) = created_orders es
created_orders (payment_processed e ∷ es) = created_orders es
created_orders (payment_failed e ∷ es) = created_orders es
created_orders (payment_refunded e ∷ es) = created_orders es

-- Those that deferred callbacks will announce.
abbrev pub promised : List Task → List OrderCreatedEvent
promised [] = []
promised (publish_all es ∷ ts) = created_orders es ++ promised ts
promised (publish_message topic b ∷ ts) = promised ts
promised (settle_payment a c ∷ ts) = promised ts

pub created_orders-append :
    (es fs : List BusEvent) → created_orders (es ++ fs) ≡ created_orders es ++ created_orders fs
created_orders-append [] fs = refl
created_orders-append (order_created e ∷ es) fs = ground (arith, created_orders-append es fs)
created_orders-append (order_cancelled e ∷ es) fs = created_orders-append es fs
created_orders-append (order_confirmed e ∷ es) fs = created_orders-append es fs
created_orders-append (order_status_changed e ∷ es) fs = created_orders-append es fs
created_orders-append (payment_processed e ∷ es) fs = created_orders-append es fs
created_orders-append (payment_failed e ∷ es) fs = created_orders-append es fs
created_orders-append (payment_refunded e ∷ es) fs = created_orders-append es fs

pub promised-append : (ts us : List Task) → promised (ts ++ us) ≡ promised ts ++ promised us
promised-append [] us = refl
promised-append (publish_all es ∷ ts) us = simp (promised-append ts us, append_assoc)
promised-append (publish_message topic b ∷ ts) us = promised-append ts us
promised-append (settle_payment a c ∷ ts) us = promised-append ts us

-- A publication that is deferred announces none.
pub promised-message :
    (topic : String) (b : Body) (ts : List Task)
    → promised (ts ++ publish_message topic b ∷ []) ≡ promised ts
promised-message topic b ts =
    promised-append ts (publish_message topic b ∷ []) ∙ append-nil (promised ts)

pub promised-settlement :
    (a : Payment) (c : Option String) (ts : List Task)
    → promised (ts ++ settle_payment a c ∷ []) ≡ promised ts
promised-settlement a c ts = promised-append ts (settle_payment a c ∷ []) ∙ append-nil (promised ts)

-- Nor do events that tell of no creation.
pub promised-events :
    (es : List BusEvent) (ts : List Task)
    → created_orders es ≡ []
    → promised (ts ++ publish_all es ∷ []) ≡ promised ts
promised-events es ts h = promised-append ts (publish_all es ∷ []) ∙ simp (h, append-nil)
