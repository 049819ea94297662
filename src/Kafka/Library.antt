-- ===== src/Kafka/Library.antt =====
-- What src/kafka/kafka.service.ts calls of kafkajs, as a parameter, and calls that may throw over a
-- state of their own.
use nestjs_cqrs_saga.Prelude.{ℕ, String, Bool, false, ◌≡◌, List, arith}
use nestjs_cqrs_saga.Outcome.{Outcome, ok, err, Error}

-- A call: what it did before a throw stays done.
abbrev pub Call : Type 0 → Type 0 → Type 0
Call S A = S → Outcome A × S

infixl 5 ◌>>=◌ ◌>>◌
abbrev pub ◌>>=◌ : {S A B : Type 0} → Call S A → (A → Call S B) → Call S B
◌>>=◌ m f s = let (r, s') = m s in elim r [ ok a ↦ f a s' | err e ↦ (err e, s') ]

abbrev pub ◌>>◌ : {S A B : Type 0} → Call S A → Call S B → Call S B
m >> k = m >>= λ _. k

abbrev pub return : {S A : Type 0} → A → Call S A
return a s = (ok a, s)

-- `try { m } catch (e) { f(e) }`
abbrev pub catch : {S A : Type 0} → Call S A → (Error → Call S A) → Call S A
catch m f s = let (r, s') = m s in elim r [ ok a ↦ (ok a, s') | err e ↦ f e s' ]

-- `try { m } finally { last }`: what `last` throws replaces the result of `m`.
abbrev pub finally : {S A : Type 0} → Call S A → Call S (Unit {0}) → Call S A
finally m last s =
    let (r, s') = m s in let (x, s'') = last s' in elim x [ ok u ↦ (r, s'') | err e ↦ (err e, s'') ]

module _ {S A B : Type 0} (m : Call S A) (n : Call S B) (s : S) where
  pub >>-ok : (a : A) → (m s).0 ≡ ok a → (m >> n) s ≡ n (m s).1
  >>-ok a h = ground arith

  pub >>-err : (e : Error) → (m s).0 ≡ err e → (m >> n) s ≡ (err e, (m s).1)
  >>-err e h = ground arith

-- What a consumer subscribes to: a topic by its name, or those that a regular expression matches.
pub data Subscription : Type 0 where
  exact : String → Subscription
  pattern_of : String → Subscription

pub record TopicConfig : Type 0 where
  pub topic : String
  pub num_partitions : ℕ
  pub replication_factor : ℕ

pub record ConsumerConfig : Type 0 where
  pub group_id : String
  pub max_wait_time_in_ms : ℕ
  pub session_timeout : ℕ
  pub heartbeat_interval : ℕ

-- `Kafka`, `Producer`, `Admin` and `Consumer`. `is_running` tells whether a consumer receives messages.
pub record KafkaJs : Type 1 where
  pub Broker : Type 0
  pub Consumer : Type 0
  pub connect_producer : Call Broker (Unit {0})
  pub disconnect_producer : Call Broker (Unit {0})
  pub connect_admin : Call Broker (Unit {0})
  pub disconnect_admin : Call Broker (Unit {0})
  pub create_topics : List TopicConfig → Call Broker (Unit {0})
  pub consumer : ConsumerConfig → Call Broker Consumer
  pub subscribe : Consumer → (from_beginning : Bool) → Subscription → Call Broker (Unit {0})
  pub run : Consumer → Call Broker (Unit {0})
  pub disconnect : Consumer → Call Broker (Unit {0})
  pub is_running : Consumer → Broker → Bool
  -- A consumer whose disconnection returns receives nothing any more, and a disconnection starts none.
  pub disconnect_stops :
      (c : Consumer) (b : Broker)
      → (disconnect c b).0 ≡ ok tt
      → is_running c (disconnect c b).1 ≡ false
  pub disconnect_starts_none :
      (c d : Consumer) (b : Broker)
      → is_running d b ≡ false
      → is_running d (disconnect c b).1 ≡ false
