-- ===== src/Outcome.antt =====
-- What a call that may throw returns, and the exceptions that the code throws or tests for.
use nestjs_cqrs_saga.Prelude.{String, Option, ◌≡◌, refl, ◌⊎◌, inl, inr}

-- `http` is a Nest exception by its class; `duplicate_order` is `DuplicateOrderException`;
-- `database` carries the fields that `CreateOrderHandler` reads of a driver's error.
pub data Exception : Type 0 where
  not_found conflict forbidden unauthorized : Exception

pub data Error : Type 0 where
  plain : String → Error
  http : Exception → String → Error
  duplicate_order : (existing_order_id idempotency_key : String) → Error
  database : (code : String) (detail : Option String) (message : String) → Error

-- `error.message`
unfoldable pub message_of : Error → String
message_of (plain m) = m
message_of (http x m) = m
message_of (duplicate_order i k) = "Order with this product combination already exists"
message_of (database c d m) = m

pub data Outcome {ℓ} (A : Type ℓ) : Type ℓ where
  ok : A → Outcome A
  err : Error → Outcome A

pub Outcome-cases :
    {A : Type 0} (o : Outcome A) → ((a : A) × (o ≡ ok a)) ⊎ ((e : Error) × (o ≡ err e))
Outcome-cases (ok a) = inl (a, refl)
Outcome-cases (err e) = inr (e, refl)
