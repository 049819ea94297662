-- ===== src/App.antt =====
-- src/app.controller.ts and src/app.service.ts. The guard of the protected endpoint has put the
-- account into the request; the two queries of the connection are a parameter.
pub mod Answers
use Prim.Native.Char.{code}
use Prim.Native.String
use nestjs_cqrs_saga.Prelude.{
  ℕ, String, Bool, true, false, Option, none, some, List, [], ◌∷◌, ◌+◌, ◌*◌, ◌-◌, ◌&&◌, leb, ltb,
  if◌then◌else◌,
}
use nestjs_cqrs_saga.Outcome.{Outcome, ok, err, Error, plain, message_of}
use nestjs_cqrs_saga.Entity.{User, UserRole}
use nestjs_cqrs_saga.Message.{test}
use nestjs_cqrs_saga.World.{World, Platform, Action, pure, gets, ◌>>=◌, ◌>>◌, catch}
use nestjs_cqrs_saga.Kafka.{publish}

-- `Connection` of TypeORM: the column `active_connections` of the rows of the query of
-- pg_stat_activity, and the times of the rows of `SELECT NOW()`.
pub record Connection : Type 0 where
  pub active_connections : World → Outcome (List String)
  pub current_time : World → Outcome (List ℕ)
  pub is_connected : World → Bool
  pub database_name : String

-- `AppService.getHello`
unfoldable pub get_hello : String
get_hello = "Hello! NestJS CQRS Saga 프로젝트에 오신 것을 환영합니다! 🚀"

-- The digits at the start of a text, after those read so far; `none` is NaN.
unfoldable pub leading_digits : Option ℕ → String → Option ℕ
leading_digits n String.[] = n
leading_digits n (String.◌∷◌ c s) =
    let shift : Option ℕ → ℕ = λ (m : Option ℕ). elim m [ none ↦ 0 | some k ↦ k * 10 ] in
    let rest = leading_digits (some (shift n + (code c - b'0'))) s in
    if leb b'0' (code c) && leb (code c) b'9' then rest else n

-- `parseInt(s)` of a text that starts with no space, sign or 0x, such as PostgreSQL prints a count.
unfoldable pub parse_int : String → Option ℕ
unfolding leading_digits
parse_int s = leading_digits none s

pub data PoolAnswer : Type 0 where
  success : (active_connections : Option ℕ) (max_connections : ℕ) (is_healthy : Bool) → PoolAnswer
  failed : (message error : String) → PoolAnswer

-- `n < 15`, which is false for NaN.
abbrev pub is_healthy : Option ℕ → Bool
is_healthy none = false
is_healthy (some n) = ltb n 15

-- `result[0].active_connections`
abbrev pub first_count : List String → Outcome String
first_count [] = err (plain "Cannot read properties of undefined (reading 'active_connections')")
first_count (s ∷ rows) = ok s

-- `getDatabasePoolStatus`
unfoldable pub get_database_pool_status : Connection → Action PoolAnswer
unfolding parse_int
get_database_pool_status db =
    catch
      (do
        rows ← (λ (w : World). (db.active_connections w, w))
        count ← (λ (w : World). (first_count rows, w))
        pure (success (parse_int count) 20 (is_healthy (parse_int count))))
      (λ e. pure (failed "Failed to check database pool" (message_of e)))

pub data TestAnswer : Type 0 where
  sent : (message : String) → TestAnswer
  failed : (message error : String) → TestAnswer

-- `testKafka`
unfoldable pub test_kafka : Platform → Action TestAnswer
test_kafka p =
    catch (do publish p "test-topic" (test "Hello Kafka!"); pure (sent "Kafka test message sent"))
      (λ e. pure (TestAnswer.failed "Failed to send Kafka message" (message_of e)))

pub record Health : Type 0 where
  pub status : String
  pub timestamp : ℕ
  pub environment : Option String
  pub connected : Bool
  pub name : String

-- `getHealth`; `node_env` is the variable NODE_ENV of the process.
unfoldable pub get_health : Connection → (node_env : Option String) → Action Health
get_health db node_env w = (
  ok (record {
    status = "ok";
    timestamp = w.now;
    environment = node_env;
    connected = db.is_connected w;
    name = db.database_name;
  }),
  w,
)

pub data DatabaseAnswer : Type 0 where
  connected : (message : String) (row : Option ℕ) → DatabaseAnswer
  failed : (message error : String) → DatabaseAnswer

-- `result[0]`
abbrev pub first_row : List ℕ → Option ℕ
first_row [] = none
first_row (t ∷ rows) = some t

-- `testDatabase`
unfoldable pub test_database : Connection → Action DatabaseAnswer
test_database db =
    catch
      (do
        rows ← (λ (w : World). (db.current_time w, w))
        pure (connected "Database connection successful" (first_row rows)))
      (λ e. pure (DatabaseAnswer.failed "Database connection failed" (message_of e)))

pub record ProtectedAnswer : Type 0 where
  pub message : String
  pub id : String
  pub email : String
  pub role : UserRole
  pub timestamp : ℕ

-- `getProtected`
unfoldable pub get_protected : User → Action ProtectedAnswer
get_protected user = gets (λ w. record {
  message = "인증된 사용자만 볼 수 있는 데이터입니다! 🔒";
  id = user.id;
  email = user.email;
  role = user.role;
  timestamp = w.now;
})
