-- ===== src/World/External.antt =====
-- What the code relies on of the software that it calls.
use nestjs_cqrs_saga.Prelude.{
  ℕ, String, ◌≡◌, ◌≢◌, Bool, true, false, Option, none, some, List, [], ◌∷◌, ◌++◌, ◌==◌,
  if◌then◌else◌, is_truthy, Perm, filter, take, reverse, ◌≤◌,
}
use nestjs_cqrs_saga.Outcome.{Outcome, ok, Error}
use nestjs_cqrs_saga.Table.{Repository}
use nestjs_cqrs_saga.Entity.{Order, Payment, SagaInstance, EventStore, User}
use nestjs_cqrs_saga.Message.{Message}
use nestjs_cqrs_saga.World.State.{World}

-- The Redis commands that the lock service sends, over the keys that have not expired. Only
-- `set_nx_px` (SET key value PX ttl NX) and a script as a whole may fail.
pub record Redis : Type 0 where
  pub get : String → List (String × String) → Option String
  pub set_nx_px :
      String → String → ℕ → List (String × String) → Outcome Bool × List (String × String)
  pub del : String → List (String × String) → ℕ × List (String × String)
  pub pexpire : String → ℕ → List (String × String) → ℕ × List (String × String)
  -- The error of a script's or an EXISTS call, if the connection is down.
  pub eval_error : List (String × String) → Option Error
  -- An answer `true` (OK) means that the key was free and now holds the value; others are untouched.
  pub set_nx_px_free :
      (k v : String) (ttl : ℕ) (ks : List (String × String))
      → (set_nx_px k v ttl ks).0 ≡ ok true
      → get k ks ≡ none
  pub get-set_nx_px :
      (k j v : String) (ttl : ℕ) (ks : List (String × String))
      → (set_nx_px k v ttl ks).0 ≡ ok true
      → get j (set_nx_px k v ttl ks).1 ≡ (if k == j then some v else get j ks)
  -- An answer `false` (nil) means that the key is taken, and nothing has changed.
  pub set_nx_px_taken :
      (k v : String) (ttl : ℕ) (ks : List (String × String))
      → (set_nx_px k v ttl ks).0 ≡ ok false
      → (get k ks ≢ none) × ((set_nx_px k v ttl ks).1 ≡ ks)
  -- Whatever the answer, a key that is taken keeps its value.
  pub set_nx_px_keeps :
      (k v held : String) (ttl : ℕ) (ks : List (String × String))
      → get k ks ≡ some held
      → get k (set_nx_px k v ttl ks).1 ≡ some held
  pub del_found :
      (k v : String) (ks : List (String × String)) → get k ks ≡ some v → (del k ks).0 ≡ 1
  pub get-del :
      (k j : String) (ks : List (String × String))
      → get j (del k ks).1 ≡ (if k == j then none else get j ks)
  pub pexpire_found :
      (k v : String) (ttl : ℕ) (ks : List (String × String))
      → get k ks ≡ some v
      → (pexpire k ttl ks).0 ≡ 1
  pub get-pexpire :
      (k j : String) (ttl : ℕ) (ks : List (String × String)) → get j (pexpire k ttl ks).1 ≡ get j ks

-- Each event is no later than the next.
abbrev pub Ascends : List EventStore → Type 0
Ascends [] = Unit
Ascends (e ∷ []) = Unit
Ascends (e ∷ f ∷ es) = (e.occurred_at ≤ f.occurred_at) × Ascends (f ∷ es)

pub record Platform : Type 0 where
  pub orders : Repository {Row = Order} (λ r. r.id)
  pub payments : Repository {Row = Payment} (λ r. r.id)
  pub users : Repository {Row = User} (λ r. r.id)
  pub sagas : Repository {Row = SagaInstance} (λ r. r.id)
  pub event_store : Repository {Row = EventStore} (λ r. r.id)
  pub redis : Redis
  -- The query of a saga of type OrderProcessingSaga whose JSON column `data` matches an order's
  -- identifier, in whichever way TypeORM and the database compare JSON.
  pub find_saga_of_order : String → List SagaInstance → Option SagaInstance
  -- The events that match, ordered by `occurredAt`, the oldest or the newest first, and the first of
  -- the latter up to a LIMIT that is not 0.
  pub events_oldest : (EventStore → Bool) → List EventStore → List EventStore
  pub events_newest : (EventStore → Bool) → List EventStore → List EventStore
  pub events_limit : (EventStore → Bool) → ℕ → List EventStore → List EventStore
  pub events_oldest_perm :
      (test : EventStore → Bool) (t : List EventStore) → Perm (events_oldest test t) (filter test t)
  pub events_oldest_ascends :
      (test : EventStore → Bool) (t : List EventStore) → Ascends (events_oldest test t)
  pub events_newest_perm :
      (test : EventStore → Bool) (t : List EventStore) → Perm (events_newest test t) (filter test t)
  pub events_newest_ascends :
      (test : EventStore → Bool) (t : List EventStore) → Ascends (reverse (events_newest test t))
  pub events_limit_lem :
      (test : EventStore → Bool) (n : ℕ) (t : List EventStore)
      → n ≢ 0
      → events_limit test n t ≡ take n (events_newest test t)
  -- `GROUP BY` of the events' types with their numbers.
  pub event_types : List EventStore → List (String × ℕ)
  -- The columns of a saga under its identifier that the database fills: when it was stored first and
  -- when it was written last.
  pub saga_created_at : String → World → ℕ
  pub saga_updated_at : String → World → ℕ
  -- `producer.send`: the messages that the broker has, or the error thrown.
  pub send : Message → List Message → Outcome (List Message)
  pub send_ok : (m : Message) (ms ms' : List Message) → send m ms ≡ ok ms' → ms' ≡ ms ++ m ∷ []
  -- What the database throws for a negative OFFSET.
  pub negative_offset : Error
  -- `QueryRunner`: connect and startTransaction, commitTransaction, and rollbackTransaction, which
  -- is told whether the transaction is still active.
  pub begin : World → Outcome (Unit {0})
  pub commit : World → Outcome (Unit {0})
  pub rollback : Bool → World → Outcome (Unit {0})
  -- Hexadecimal digests of `createHash`.
  pub md5 : String → String
  pub sha256 : String → String
  pub sha256_filled : (s : String) → is_truthy (some (sha256 s)) ≡ true
  -- The `n`-th call of `uuidv4()` from a state, and `Math.random().toString(36).substr(2, 9)`.
  pub uuid : ℕ → World → String
  pub random_text : World → String
  -- What the other clients and the expiry of keys do during a wait of some milliseconds.
  pub elapse : ℕ → World → World
  -- `Date.now().toString()`
  pub show_time : ℕ → String
