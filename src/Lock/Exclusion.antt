-- ===== src/Lock/Exclusion.antt =====
-- Mutual exclusion of src/redis/redis-lock.service.ts: who holds a key, and who may free it.
use nestjs_cqrs_saga.Prelude.{
  ℕ, zero, suc, String, ◌≡◌, ◌≢◌, ◌⊎◌, inl, inr, true, false, Option, none, some, arith, ◌==◌,
  eq_iff, eq_refl, if◌then◌else◌, ◌<+>◌, Option-cases, Bool-cases,
}
use nestjs_cqrs_saga.Outcome.{ok}
use nestjs_cqrs_saga.World.{World, Platform}
use nestjs_cqrs_saga.Lock.{
  generate_token, LockOptions, AcquiredLock, attempt, attempts, acquire_lock, unlock_script,
  renew_script, run_script, release_lock, renew_lock,
}

-- The token that Redis holds under a key.
abbrev pub holder : Platform → String → World → Option String
holder p k w = p.redis.get k w.keys

attempt-holds :
    (p : Platform) (k t : String) (ttl : ℕ) (w : World) (l : AcquiredLock)
    → (attempt p k t ttl w).0 ≡ ok (some l)
    → (l.key ≡ k) × (l.token ≡ t) × (holder p k (attempt p k t ttl w).1 ≡ some t)
unfolding attempt
attempt-holds p k t ttl w l h = ground (arith, p.redis.get-set_nx_px k k t ttl w.keys, eq_refl k)

attempts-holds :
    (p : Platform) (k t : String) (ttl delay n : ℕ) (w : World) (l : AcquiredLock)
    → (attempts p k t ttl delay n w).0 ≡ ok (some l)
    → (l.key ≡ k) × (l.token ≡ t) × (holder p k (attempts p k t ttl delay n w).1 ≡ some t)
unfolding attempts
attempts-holds p k t ttl delay zero w l h = attempt-holds p k t ttl w l h
attempts-holds p k t ttl delay (suc n) w l h = ground (
  arith,
  attempt-holds p k t ttl w l,
  p.redis.get-set_nx_px k k t ttl w.keys,
  eq_refl k,
  attempts-holds p k t ttl delay n (p.elapse delay (attempt p k t ttl w).1) l,
)

-- A lock that is returned is held: Redis has its token under its key, which is `lock:` and the name.
pub acquire_lock-holds :
    (p : Platform) (key : String) (o : LockOptions) (w : World) (l : AcquiredLock)
    → (acquire_lock p key o w).0 ≡ ok (some l)
    → (l.key ≡ "lock:" <+> key)
      × (l.token ≡ generate_token p w)
      × (holder p l.key (acquire_lock p key o w).1 ≡ some l.token)
unfolding acquire_lock
acquire_lock-holds p key o w l h = ground (
  arith,
  attempts-holds p ("lock:" <+> key) (generate_token p w) o.ttl o.retry_delay o.retry_count w l h,
)

-- A release under another token than the holder's frees nothing and answers false.
pub release_lock-foreign :
    (p : Platform) (l : AcquiredLock) (w : World)
    → holder p l.key w ≢ some l.token
    → release_lock p l w ≡ (ok false, w)
unfolding release_lock unlock_script run_script
release_lock-foreign p l w h = elim (Option-cases (p.redis.get l.key w.keys)) [
  | inl e ↦ ground arith
  | inr (v, e) ↦ ground (arith, eq_iff v l.token)
]

-- A release by the holder frees the key and answers true, if Redis answers, and no other key changes
-- its holder.
pub release_lock-own :
    (p : Platform) (l : AcquiredLock) (w : World) (j : String)
    → p.redis.eval_error w.keys ≡ none
    → holder p l.key w ≡ some l.token
    → ((release_lock p l w).0 ≡ ok true)
      × (holder p j (release_lock p l w).1 ≡ (if l.key == j then none else holder p j w))
unfolding release_lock unlock_script run_script
release_lock-own p l w j up h =
    ground (
      arith,
      eq_refl l.token,
      p.redis.del_found l.key l.token w.keys,
      p.redis.get-del l.key j w.keys,
    )

-- A renewal never changes who holds any key. If Redis answers, it succeeds for the holder alone, and
-- only then the lock object takes the new ttl.
pub renew_lock-holder :
    (p : Platform) (l : AcquiredLock) (ttl : ℕ) (w : World) (j : String)
    → p.redis.eval_error w.keys ≡ none
    → (holder p j (renew_lock p l ttl w).1 ≡ holder p j w)
      × (((holder p l.key w ≡ some l.token)
            × ((renew_lock p l ttl w).0 ≡ ok (true, record l { ttl = ttl })))
          ⊎ ((holder p l.key w ≢ some l.token) × ((renew_lock p l ttl w).0 ≡ ok (false, l))))
unfolding renew_lock renew_script run_script
renew_lock-holder p l ttl w j up = elim (Option-cases (p.redis.get l.key w.keys)) [
  | inl e ↦ (ground arith, inr (λ h. ground arith, ground arith))
  | inr (v, e) ↦ elim (Bool-cases (v == l.token)) [
    | inl same ↦ (
      ground (arith, p.redis.get-pexpire l.key j ttl w.keys),
      inl (
        ground (arith, eq_iff v l.token),
        ground (arith, eq_iff v l.token, p.redis.pexpire_found l.key v ttl w.keys),
      ),
    )
    | inr other ↦ (
      ground arith,
      inr (λ h. ground (arith, eq_iff v l.token), ground (arith, eq_iff v l.token)),
    )
  ]
]

-- An attempt on a key that somebody holds does not take it.
attempt-held :
    (p : Platform) (k t v : String) (ttl : ℕ) (w : World)
    → holder p k w ≡ some v
    → (attempt p k t ttl w).0 ≡ ok none
unfolding attempt
attempt-held p k t v ttl w h = ground (arith, p.redis.set_nx_px_free k t ttl w.keys)

module _ (p : Platform) (k v : String)
    (waits : (n : ℕ) (w : World) → holder p k w ≡ some v → holder p k (p.elapse n w) ≡ some v) where
  attempt-kept :
      (t : String) (ttl : ℕ) (w : World)
      → holder p k w ≡ some v
      → holder p k (attempt p k t ttl w).1 ≡ some v
  unfolding attempt
  attempt-kept t ttl w h = ground (arith, p.redis.set_nx_px_keeps k t v ttl w.keys h)

  attempts-held :
      (t : String) (ttl delay n : ℕ) (w : World)
      → holder p k w ≡ some v
      → ((attempts p k t ttl delay n w).0 ≡ ok none)
        × (holder p k (attempts p k t ttl delay n w).1 ≡ some v)
  unfolding attempts
  attempts-held t ttl delay zero w h = (attempt-held p k t v ttl w h, attempt-kept t ttl w h)
  attempts-held t ttl delay (suc n) w h = ground (
    arith,
    attempt-held p k t v ttl w h,
    p.redis.set_nx_px_free k t ttl w.keys,
    attempts-held t ttl delay n (p.elapse delay (attempt p k t ttl w).1)
        (waits delay (attempt p k t ttl w).1 (attempt-kept t ttl w h)),
  )

-- A lock that somebody holds, and that no wait of any length takes from them, is acquired by nobody
-- else: through all retries the call fails to get it, answers none, and the holder is still the
-- same, whatever the options.
pub acquire_lock-excludes :
    (p : Platform) (key v : String) (o : LockOptions) (w : World)
    → ((n : ℕ) (w : World)
        → holder p ("lock:" <+> key) w ≡ some v
        → holder p ("lock:" <+> key) (p.elapse n w) ≡ some v)
    → holder p ("lock:" <+> key) w ≡ some v
    → ((acquire_lock p key o w).0 ≡ ok none)
      × (holder p ("lock:" <+> key) (acquire_lock p key o w).1 ≡ some v)
unfolding acquire_lock
acquire_lock-excludes p key v o w waits h =
    attempts-held p ("lock:" <+> key) v waits (generate_token p w) o.ttl o.retry_delay o.retry_count
      w h
