-- ===== src/LockTest/Answers.antt =====
-- The answers of src/redis/redis-test.controller.ts.
use nestjs_cqrs_saga.Prelude.{
  ℕ, String, ◌≡◌, true, Option, none, some, List, arith, ◌<+>◌, eq_refl, inl, inr, value_or, ℤ,
  minus,
}
use nestjs_cqrs_saga.Outcome.{ok, message_of}
use nestjs_cqrs_saga.World.{World, Platform}
use nestjs_cqrs_saga.Lock.{LockOptions, AcquiredLock, acquire_lock, renew_lock, with_lock}
use nestjs_cqrs_saga.Lock.Exclusion.{
  holder, acquire_lock-holds, renew_lock-holder, release_lock-own,
}
use nestjs_cqrs_saga.Lock.Scope.{with_lock-excludes}
use nestjs_cqrs_saga.LockTest.{
  refused, work, work_options, test_distributed_lock, operated, manual_options, manual_lock_test,
}

module _ (p : Platform) (key : String) (w : World) (l : AcquiredLock) where
  -- Where Redis answers scripts and a lock that is held is not lost by waiting, the manual test that
  -- gets the lock renews it and releases it, shows the new time to live, and leaves the key free.
  pub manual_lock_test-frees :
      ((ks : List (String × String)) → p.redis.eval_error ks ≡ none)
      → ((n : ℕ) (v : World)
          → holder p l.key v ≡ some l.token
          → holder p l.key (p.elapse n v) ≡ some l.token)
      → (acquire_lock p key manual_options w).0 ≡ ok (some l)
      → ((manual_lock_test p key w).0 ≡ ok (operated (record l { ttl = 15000 }) true true true))
        × (holder p l.key (manual_lock_test p key w).1 ≡ none)
  unfolding manual_lock_test
  manual_lock_test-frees up waits got =
      let held = acquire_lock-holds p key manual_options w l got in
      let v = p.elapse 5000 (acquire_lock p key manual_options w).1 in
      let still = waits 5000 (acquire_lock p key manual_options w).1 held.2 in
      let renewal = renew_lock-holder p l 15000 v l.key (up v.keys) in
      let u = p.elapse 3000 (renew_lock p l 15000 v).1 in
      let kept : holder p l.key u ≡ some l.token =
        waits 3000 (renew_lock p l 15000 v).1 (ground (arith, renewal.0, still)) in
      let release = release_lock-own p (record l { ttl = 15000 }) u l.key (up u.keys) kept in
      elim renewal.1 [
        | inl r ↦ ground (arith, got, r.1, release, eq_refl l.key)
        | inr r ↦ absurd (r.0 still)
      ]

  -- A test under a lock that another holds, which is not lost by waiting, answers without an exception
  -- that the lock was not acquired, and the other still holds it.
  pub test_distributed_lock-refused :
      (o : LockOptions) (duration : Option ℕ) (node_id : Option String)
      → ((n : ℕ) (v : World)
          → holder p ("lock:" <+> key) v ≡ some l.token
          → holder p ("lock:" <+> key) (p.elapse n v) ≡ some l.token)
      → (acquire_lock p key o w).0 ≡ ok (some l)
      → let w' = (acquire_lock p key o w).1 in
        ((t : ℤ) × ((test_distributed_lock p key duration node_id w').0
            ≡ ok (
                refused
                  ("Failed to acquire lock: " <+> key)
                  t
                  (value_or node_id "node-1")
                  ("Failed to acquire lock for " <+> key))))
        × (holder p l.key (test_distributed_lock p key duration node_id w').1 ≡ some l.token)
  unfolding test_distributed_lock message_of
  test_distributed_lock-refused o duration node_id waits got =
      let w' = (acquire_lock p key o w).1 in
      let fn = work p (value_or node_id "node-1") (value_or duration 5000) in
      let out = with_lock-excludes p key fn o work_options w l waits got in
      (
        (minus (with_lock p key fn work_options w').1.now w'.now, ground (arith, out.0)),
        ground (arith, out),
      )
