-- ===== src/LockTest.antt =====
-- src/redis/redis-test.controller.ts. Dates in the answers stand as the times that they print.
pub mod Answers
use nestjs_cqrs_saga.Prelude.{ℕ, String, Bool, true, Option, none, some, ◌<+>◌, ℤ, minus, value_or}
use nestjs_cqrs_saga.Outcome.{ok, message_of}
use nestjs_cqrs_saga.World.{World, Platform, Action, pure, gets, ◌>>=◌, ◌>>◌, catch}
use nestjs_cqrs_saga.Lock.{
  LockOptions, AcquiredLock, default_options, acquire_lock, release_lock, renew_lock, is_locked,
  with_lock,
}

-- `new Promise(resolve => setTimeout(resolve, ms))`
abbrev pub wait : Platform → (ms : ℕ) → Action (Unit {0})
wait p ms w = (ok tt, p.elapse ms w)

pub record WorkResult : Type 0 where
  pub node_id : String
  pub message : String
  pub work_duration : ℕ
  pub executed_at : ℕ

pub data LockAnswer : Type 0 where
  done : (result : WorkResult) (total_time : ℤ) (message : String) → LockAnswer
  refused : (error : String) (total_time : ℤ) (node_id message : String) → LockAnswer

-- The function under the lock of `testDistributedLock`.
abbrev pub work : Platform → (node_id : String) → (duration : ℕ) → Action WorkResult
work p node_id duration = do
  wait p duration
  now ← gets (λ w. w.now)
  pure (record {
    node_id = node_id;
    message = "Critical section executed by " <+> node_id;
    work_duration = duration;
    executed_at = now;
  })

abbrev pub work_options : LockOptions
work_options = record { ttl = 30000; retry_count = 5; retry_delay = 500 }

-- `testDistributedLock`
unfoldable pub test_distributed_lock :
    Platform
    → (key : String) → (duration : Option ℕ) → (node_id : Option String) → Action LockAnswer
test_distributed_lock p key duration node_id = do
  let node = value_or node_id "node-1"
  start_time ← gets (λ w. w.now)
  catch
      (with_lock p key (work p node (value_or duration 5000)) work_options >>= λ result. λ w. (
        ok (
            done result (minus w.now start_time)
              ("Lock acquired and released successfully by " <+> node)),
        w,
      ))
      (λ e w. (
        ok (
            refused (message_of e) (minus w.now start_time) node
              ("Failed to acquire lock for " <+> key)),
        w,
      ))

pub record CreatedSaga : Type 0 where
  pub saga_id : String
  pub correlation_id : String
  pub created_by : String
  pub created_at : ℕ

pub data CreationAnswer : Type 0 where
  protected_by_lock : (result : CreatedSaga) (message : String) → CreationAnswer
  failed : (error node_id correlation_id : String) → CreationAnswer

-- The function under the lock of `testSagaCreation`; `random` is
-- `Math.random().toString(36).substr(2, 9)`.
abbrev pub simulate_creation :
    Platform → (random : World → String) → (correlation_id node_id : String) → Action CreatedSaga
simulate_creation p random correlation_id node_id = do
  wait p 2000
  w ← gets (λ w. w)
  pure (record {
    saga_id = "saga_" <+> p.show_time w.now <+> "_" <+> random w;
    correlation_id = correlation_id;
    created_by = node_id;
    created_at = w.now;
  })

abbrev pub creation_options : LockOptions
creation_options = record { ttl = 30000; retry_count = 3; retry_delay = 100 }

-- `testSagaCreation`
unfoldable pub test_saga_creation :
    Platform
    → (random : World → String) → (correlation_id : String) → (node_id : Option String)
    → Action CreationAnswer
test_saga_creation p random correlation_id node_id = do
  let node = value_or node_id "node-1"
  catch
      (with_lock p ("saga_creation:OrderProcessingSaga:" <+> correlation_id)
          (simulate_creation p random correlation_id node) creation_options
        >>= λ result. pure (protected_by_lock result "Saga creation protected by distributed lock"))
      (λ e. pure (failed (message_of e) node correlation_id))

pub record LockStatus : Type 0 where
  pub key : String
  pub is_locked : Bool
  pub checked_at : ℕ

-- `checkLockStatus`
unfoldable pub check_lock_status : Platform → (key : String) → Action LockStatus
check_lock_status p key = do
  locked ← is_locked p key
  now ← gets (λ w. w.now)
  pure (record { key = key; is_locked = locked; checked_at = now })

pub data ManualAnswer : Type 0 where
  taken : (message : String) → ManualAnswer
  operated : (lock_info : AcquiredLock) (acquired renewed released : Bool) → ManualAnswer

abbrev pub manual_options : LockOptions
manual_options = record default_options { ttl = 10000; retry_count = 2 }

-- `manualLockTest`: `renewLock` writes the new ttl into the lock object, which the answer shows.
unfoldable pub manual_lock_test : Platform → (key : String) → Action ManualAnswer
manual_lock_test p key = do
  lock ← acquire_lock p key manual_options
  let operate : AcquiredLock → Action ManualAnswer = λ l.
      (wait p 5000 >> renew_lock p l 15000) >>= λ renewed.
      (wait p 3000 >> release_lock p renewed.1) >>= λ released.
      pure (operated renewed.1 true renewed.0 released)
  elim lock [ none ↦ pure (taken "Failed to acquire lock") | some l ↦ operate l ]
