-- ===== src/Lock.antt =====
-- src/redis/redis-lock.service.ts: the distributed lock. A Lua script runs as one step of Redis.
pub mod Exclusion
pub mod Scope
pub mod Waiting
use nestjs_cqrs_saga.Prelude.{
  ℕ, zero, suc, String, Bool, true, false, Option, none, some, ◌==◌, if◌then◌else◌, ◌<+>◌,
}
use nestjs_cqrs_saga.Outcome.{Outcome, ok, err, Error, plain}
use nestjs_cqrs_saga.World.{World, Platform, Redis, Action, pure, throw, ◌>>=◌, modify}

pub record LockOptions : Type 0 where
  pub ttl : ℕ
  pub retry_count : ℕ
  pub retry_delay : ℕ

-- The defaults that `acquireLock` takes where an option is not given.
abbrev pub default_options : LockOptions
default_options = record { ttl = 30000; retry_count = 3; retry_delay = 100 }

pub record AcquiredLock : Type 0 where
  pub key : String
  pub token : String
  pub ttl : ℕ
  pub acquired_at : ℕ

-- One SET … NX of the loop; an exception is caught and counts as a failed attempt.
pub attempt : Platform → String → String → ℕ → Action (Option AcquiredLock)
attempt p lock_key token ttl w =
    let (r, ks) = p.redis.set_nx_px lock_key token ttl w.keys in
    elim r [
      | ok true ↦ (
        ok (some (record { key = lock_key; token = token; ttl = ttl; acquired_at = w.now })),
        record w { keys = ks },
      )
      | _ ↦ (ok none, record w { keys = ks })
    ]

-- The `for` loop, by the retries that are left; between two attempts the others go on.
unfoldable pub attempts : Platform → String → String → ℕ → ℕ → ℕ → Action (Option AcquiredLock)
unfolding attempt
attempts p lock_key token ttl delay zero = attempt p lock_key token ttl
attempts p lock_key token ttl delay (suc left) = do
  r ← attempt p lock_key token ttl
  let again : Action (Option AcquiredLock) =
      λ w. attempts p lock_key token ttl delay left (p.elapse delay w)
  elim r [ some l ↦ pure (some l) | none ↦ again ]

-- `generateToken`
unfoldable pub generate_token : Platform → World → String
generate_token p w = p.show_time w.now <+> "-" <+> p.random_text w

-- `acquireLock`
unfoldable pub acquire_lock : Platform → String → LockOptions → Action (Option AcquiredLock)
unfolding attempts generate_token
acquire_lock p key o w =
    attempts p ("lock:" <+> key) (generate_token p w) o.ttl o.retry_delay o.retry_count w

-- `unlockScript`
unlock_script : Redis → String → String → Action ℕ
unlock_script r key token w = elim (r.get key w.keys) [
  | some v ↦
      if v == token
      then (ok (r.del key w.keys).0, record w { keys = (r.del key w.keys).1 })
      else (ok 0, w)
  | none ↦ (ok 0, w)
]

-- `renewScript`
renew_script : Redis → String → String → ℕ → Action ℕ
renew_script r key token ttl w = elim (r.get key w.keys) [
  | some v ↦
      if v == token
      then (ok (r.pexpire key ttl w.keys).0, record w { keys = (r.pexpire key ttl w.keys).1 })
      else (ok 0, w)
  | none ↦ (ok 0, w)
]

-- A script's result under `try`, with what the caller makes of 1; an exception is caught.
run_script : {A : Type 0} → Platform → Action ℕ → A → A → Action A
run_script p script yes_value no_value w = elim (p.redis.eval_error w.keys) [
  | some e ↦ (ok no_value, w)
  | none ↦
      let (r, w') = script w in
      elim r [
        | ok n ↦ elim n [ suc zero ↦ (ok yes_value, w') | _ ↦ (ok no_value, w') ]
        | err e ↦ (ok no_value, w')
      ]
]

-- `releaseLock`
unfoldable pub release_lock : Platform → AcquiredLock → Action Bool
unfolding unlock_script run_script
release_lock p l = run_script p (unlock_script p.redis l.key l.token) true false

-- `renewLock`: the answer, and the lock object with the ttl that it has afterwards.
unfoldable pub renew_lock : Platform → AcquiredLock → ℕ → Action (Bool × AcquiredLock)
unfolding renew_script run_script
renew_lock p l ttl =
    run_script p (renew_script p.redis l.key l.token ttl) (true, record l { ttl = ttl }) (false, l)

-- `isLocked`
unfoldable pub is_locked : Platform → String → Action Bool
is_locked p key w = elim (p.redis.eval_error w.keys) [
  | some e ↦ (ok false, w)
  | none ↦ elim (p.redis.get ("lock:" <+> key) w.keys) [
    | some v ↦ (ok true, w)
    | none ↦ (ok false, w)
  ]
]

-- `withLock`: the lock is released whether the function returns or throws.
unfoldable pub with_lock : {A : Type 0} → Platform → String → Action A → LockOptions → Action A
with_lock p key fn o = do
  lock ← acquire_lock p key o
  elim lock [
    | none ↦ throw (plain ("Failed to acquire lock: " <+> key))
    | some l ↦ λ w. let (r, w') = fn w in (r, (release_lock p l w').1)
  ]
