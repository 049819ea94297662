-- ===== src/Lock/Scope.antt =====
-- `withLock` of src/redis/redis-lock.service.ts: calls under the lock, and what a lock
-- operation touches.
use nestjs_cqrs_saga.Prelude.{
  ℕ, String, ◌≡◌, none, some, arith, ◌==◌, eq_refl, if◌then◌else◌, ◌<+>◌,
}
use nestjs_cqrs_saga.Outcome.{ok, err, plain}
use nestjs_cqrs_saga.World.{World, Platform, Action}
use nestjs_cqrs_saga.Lock.{
  attempt, LockOptions, AcquiredLock, acquire_lock, release_lock, with_lock, unlock_script,
  run_script,
}
use nestjs_cqrs_saga.Lock.Exclusion.{acquire_lock-holds, acquire_lock-excludes, holder}

-- Without the lock the function does not run: the call throws in the state that the attempts left.
pub with_lock-refused :
    {A : Type 0} (p : Platform) (key : String) (fn : Action A) (o : LockOptions) (w : World)
    → (acquire_lock p key o w).0 ≡ ok none
    → with_lock p key fn o w
      ≡ (err (plain ("Failed to acquire lock: " <+> key)), (acquire_lock p key o w).1)
unfolding with_lock
with_lock-refused p key fn o w h = ground arith

-- With the lock the call has the function's result, also if it threw. If the lock is still its own
-- when the function ends and Redis answers, the key is free afterwards, and every other key and the
-- rest of the state are as the function left them.
pub with_lock-releases :
    {A : Type 0} (p : Platform) (key : String) (fn : Action A) (o : LockOptions) (w : World)
    (l : AcquiredLock) (j : String)
    → (acquire_lock p key o w).0 ≡ ok (some l)
    → let w' = (fn (acquire_lock p key o w).1).1 in
      p.redis.eval_error w'.keys ≡ none
      → holder p l.key w' ≡ some l.token
      → ((with_lock p key fn o w).0 ≡ (fn (acquire_lock p key o w).1).0)
        × (holder p j (with_lock p key fn o w).1 ≡ (if l.key == j then none else holder p j w'))
        × ((with_lock p key fn o w).1 ≡ record w' { keys = (with_lock p key fn o w).1.keys })
unfolding with_lock release_lock unlock_script run_script
with_lock-releases p key fn o w l j h up held =
    let w' = (fn (acquire_lock p key o w).1).1 in
    ground (
      arith,
      eq_refl l.token,
      p.redis.del_found l.key l.token w'.keys,
      p.redis.get-del l.key j w'.keys,
    )

-- However the release goes, it touches nothing but the keys.
pub release_lock-keys :
    (p : Platform) (l : AcquiredLock) (w : World)
    → (release_lock p l w).1 ≡ record w { keys = (release_lock p l w).1.keys }
unfolding release_lock unlock_script run_script
release_lock-keys p l w = ground arith

-- An attempt touches nothing but the keys.
pub attempt-keys :
    (p : Platform) (k t : String) (ttl : ℕ) (w : World)
    → (attempt p k t ttl w).1 ≡ record w { keys = (attempt p k t ttl w).1.keys }
unfolding attempt
attempt-keys p k t ttl w = ground arith

-- While a lock that was acquired is not lost by waiting, a second call under the same name, with any
-- function and any options, throws without its function having changed anything, and the lock is
-- still held by its holder.
pub with_lock-excludes :
    {A : Type 0} (p : Platform) (key : String) (fn : Action A) (o o' : LockOptions) (w : World)
    (l : AcquiredLock)
    → ((n : ℕ) (v : World)
        → holder p ("lock:" <+> key) v ≡ some l.token
        → holder p ("lock:" <+> key) (p.elapse n v) ≡ some l.token)
    → (acquire_lock p key o w).0 ≡ ok (some l)
    → let w' = (acquire_lock p key o w).1 in
      (with_lock p key fn o' w'
        ≡ (err (plain ("Failed to acquire lock: " <+> key)), (acquire_lock p key o' w').1))
      × (holder p l.key (with_lock p key fn o' w').1 ≡ some l.token)
with_lock-excludes p key fn o o' w l waits h =
    let w' = (acquire_lock p key o w).1 in
    let held = acquire_lock-holds p key o w l h in
    let kept = acquire_lock-excludes p key l.token o' w' waits (ground (arith, held)) in
    let refused = with_lock-refused p key fn o' w' kept.0 in
    (refused, ground (arith, refused, held, kept))
