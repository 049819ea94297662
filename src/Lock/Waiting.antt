-- ===== src/Lock/Waiting.antt =====
-- How long `acquireLock` of src/redis/redis-lock.service.ts tries.
use nestjs_cqrs_saga.Prelude.{
  ℕ, zero, suc, ◌+◌, ◌*◌, ◌≤◌, String, ◌≡◌, none, some, arith, ◌⊎◌, inl, inr, Bool-cases, ◌<+>◌,
}
use nestjs_cqrs_saga.Outcome.{ok, Outcome-cases}
use nestjs_cqrs_saga.World.{World, Platform}
use nestjs_cqrs_saga.Lock.{
  generate_token, attempt, attempts, LockOptions, AcquiredLock, acquire_lock,
}

module _ (p : Platform) (ticks : (n : ℕ) (v : World) → (p.elapse n v).now ≡ v.now + n) where
  attempt-now : (k t : String) (ttl : ℕ) (w : World) → (attempt p k t ttl w).1.now ≡ w.now
  unfolding attempt
  attempt-now k t ttl w = ground arith

  attempt_returns :
      (k t : String) (ttl : ℕ) (w : World)
      → ((attempt p k t ttl w).0 ≡ ok none)
        ⊎ ((l : AcquiredLock) × ((attempt p k t ttl w).0 ≡ ok (some l)))
  unfolding attempt
  attempt_returns k t ttl w = elim (Outcome-cases (p.redis.set_nx_px k t ttl w.keys).0) [
    | inr (x, e) ↦ inl (ground (arith, e))
    | inl (b, e) ↦ elim (Bool-cases b) [
      | inl yes_ ↦
          inr
            (record { key = k; token = t; ttl = ttl; acquired_at = w.now }, ground (arith, e, yes_))
      | inr no_ ↦ inl (ground (arith, e, no_))
    ]
  ]

  attempts-now :
      (k t : String) (ttl delay n : ℕ) (w : World)
      → let (r, w') = attempts p k t ttl delay n w in
        ((r ≡ ok none) × (w'.now ≡ w.now + n * delay))
        ⊎ ((l : AcquiredLock) × (r ≡ ok (some l)) × (w.now ≤ w'.now) × (w'.now ≤ w.now + n * delay))
  unfolding attempts
  attempts-now k t ttl delay zero w = elim (attempt_returns k t ttl w) [
    | inl e ↦ inl (e, omega (arith, attempt-now k t ttl w))
    | inr (l, e) ↦
        inr (l, e, omega (arith, attempt-now k t ttl w), omega (arith, attempt-now k t ttl w))
  ]
  attempts-now k t ttl delay (suc n) w = elim (attempt_returns k t ttl w) [
    | inr (l, e) ↦ inr (
      l,
      ground (arith, e),
      ground (arith, e, attempt-now k t ttl w),
      ground (arith, e, attempt-now k t ttl w),
    )
    | inl e ↦
        let u = (attempt p k t ttl w).1 in
        let v = p.elapse delay u in
        let rest = attempts-now k t ttl delay n v in
        let start : v.now ≡ w.now + delay = omega (arith, ticks delay u, attempt-now k t ttl w) in
        let same : attempts p k t ttl delay (suc n) w ≡ attempts p k t ttl delay n v =
          ground (arith, e) in
        rw same (elim rest [
          | inl (r, h) ↦ inl (r, omega (arith, h, start))
          | inr (l, r, h, h') ↦ inr (l, r, omega (arith, h, start), omega (arith, h', start))
        ])
  ]

  -- If time passes by exactly as long as the call waits, a call of `acquireLock` comes to an end: it
  -- returns a lock after at most its retries times its delay, or it returns none after exactly that
  -- time; it never throws.
  pub acquire_lock-waits :
      (key : String) (o : LockOptions) (w : World)
      → let (r, w') = acquire_lock p key o w in
        ((r ≡ ok none) × (w'.now ≡ w.now + o.retry_count * o.retry_delay))
        ⊎ ((l : AcquiredLock) × (r ≡ ok (some l))
            × (w.now ≤ w'.now)
            × (w'.now ≤ w.now + o.retry_count * o.retry_delay))
  unfolding acquire_lock
  acquire_lock-waits key o w =
      attempts-now ("lock:" <+> key) (generate_token p w) o.ttl o.retry_delay o.retry_count w
