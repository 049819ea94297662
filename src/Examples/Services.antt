-- ===== src/Examples/Services.antt =====
-- A platform in memory on which every service answers, and the sample data of the examples.
use Prim.Native.String
use text.Mathlib.TextLemmas.{length-append}
use mathlib.Core.List.Perm
use nestjs_cqrs_saga.Examples.Sorting.{by_time, by_time_perm, by_time-Ascends, reversed-Ascends}
use nestjs_cqrs_saga.Prelude.{
  ℕ, zero, suc, String, ◌≡◌, refl, Bool, true, false, none, some, List, [], ◌∷◌, ◌++◌, ◌<+>◌, ◌==◌,
  arith, is_truthy, ◌<◌, filter, reverse, reverse_perm, take,
}
use nestjs_cqrs_saga.Outcome.{Outcome, ok, err, plain, database}
use nestjs_cqrs_saga.Entity.{
  Order, OrderItem, OrderStatus, Payment, PaymentStatus, PaymentMethod, SagaInstance, SagaStatus,
}
use nestjs_cqrs_saga.Message.{Message}
use nestjs_cqrs_saga.World.{World, Platform, SagasUp, BrokerUp}
use nestjs_cqrs_saga.Examples.Memory.{memory, memory_redis, first}

unfoldable pub send : Message → List Message → Outcome (List Message)
send m ms = ok (ms ++ m ∷ [])

pub sends_ok : (m : Message) (ms ms' : List Message) → send m ms ≡ ok ms' → ms' ≡ ms ++ m ∷ []
unfolding send
sends_ok m ms ms' h = ground arith

unfoldable pub roll : Bool → World → Outcome (Unit {0})
roll true w = ok tt
roll false w = err (plain "Transaction is not started yet")

unfoldable pub show : ℕ → String
show zero = "0"
show (suc n) = "1" <+> show n

filled_of_pos : (s : String) → 0 < String.count s → is_truthy (some s) ≡ true
filled_of_pos String.[] h = absurd (omega arith)
filled_of_pos (String.◌∷◌ c s) h = refl

pub filled : (s : String) → is_truthy (some (s <+> "-sha256")) ≡ true
filled s = filled_of_pos (s <+> "-sha256") (omega (arith, length-append s "-sha256"))

unfoldable pub services : Platform
unfolding memory memory_redis first send roll show by_time
services = record {
  orders = memory (λ r. r.id);
  payments = memory (λ r. r.id);
  users = memory (λ r. r.id);
  sagas = memory (λ r. r.id);
  event_store = memory (λ r. r.id);
  redis = memory_redis;
  find_saga_of_order = λ i t. first (λ (r : SagaInstance). r.id) (λ r. r.saga_data.order_id == i) t;
  events_oldest = λ test t. by_time (filter test t);
  events_newest = λ test t. reverse (by_time (filter test t));
  events_limit = λ test n t. take n (reverse (by_time (filter test t)));
  events_oldest_perm = λ test t. by_time_perm (filter test t);
  events_oldest_ascends = λ test t. by_time-Ascends (filter test t);
  events_newest_perm =
      λ test t. Perm.trans (reverse_perm (by_time (filter test t))) (by_time_perm (filter test t));
  events_newest_ascends = λ test t. reversed-Ascends (filter test t);
  events_limit_lem = λ test n t h. refl;
  event_types = λ t. [];
  saga_created_at = λ i w. 1;
  saga_updated_at = λ i w. 5;
  send = send;
  send_ok = sends_ok;
  negative_offset = database "2201X" none "OFFSET must not be negative";
  begin = λ w. ok tt;
  commit = λ w. ok tt;
  rollback = roll;
  md5 = λ s. s <+> "-md5-digest";
  sha256 = λ s. s <+> "-sha256";
  sha256_filled = filled;
  uuid = λ n w. show n;
  random_text = λ w. "token";
  elapse = λ n w. w;
  show_time = show;
}

pub services-SagasUp : SagasUp services
unfolding services
services-SagasUp = record { saves = λ r t. refl; begins = λ w. refl; commits = λ w. refl }

pub services-BrokerUp : BrokerUp services
unfolding services
services-BrokerUp m ms = refl

abbrev pub book : OrderItem
book = record { product_id = "book"; product_name = "Book"; quantity = 2; price = 10 }

abbrev pub lamp : OrderItem
lamp = record { product_id = "lamp"; product_name = "Lamp"; quantity = 1; price = 30 }

abbrev pub pending_order : Order
pending_order = record {
  id = "o1";
  user_id = "u1";
  total_amount = 50;
  status = OrderStatus.pending;
  items = book ∷ lamp ∷ [];
  payment_id = none;
  shipping_address = "Seoul";
  idempotency_key = some "k1";
}

abbrev pub paid_payment : Payment
paid_payment = record {
  id = "p1";
  order_id = "o1";
  user_id = "u1";
  amount = 50;
  method = PaymentMethod.credit_card;
  status = PaymentStatus.completed;
  external_transaction_id = some "ext_tx_1";
  failure_reason = none;
}

abbrev pub started_saga : SagaInstance
started_saga = record {
  id = "s1";
  saga_type = "OrderProcessingSaga";
  correlation_id = "k1";
  status = SagaStatus.started;
  saga_data = record {
    order_id = "o1";
    user_id = "u1";
    total_amount = 50;
    items = book ∷ lamp ∷ [];
    shipping_address = "Seoul";
  };
  completed_steps = "payment_processing" ∷ [];
  compensation_steps = [];
  current_step = some "payment_processing";
  error_message = none;
}

abbrev pub empty_world : World
empty_world = record {
  now = 7;
  orders = [];
  payments = [];
  users = [];
  sagas = [];
  event_store = [];
  keys = [];
  sent = [];
  bus = [];
  deferred = [];
}

-- One order that waits for its payment's confirmation.
abbrev pub waiting : World
waiting = record empty_world {
  orders = pending_order ∷ [];
  payments = paid_payment ∷ [];
  sagas = started_saga ∷ [];
}
