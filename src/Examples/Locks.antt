-- ===== src/Examples/Locks.antt =====
-- The lock theorems on the services in memory.
use nestjs_cqrs_saga.Lock.Waiting.{acquire_lock-waits}
use nestjs_cqrs_saga.Prelude.{◌⊎◌, ◌≤◌, ◌+◌, ◌*◌, ℕ, ◌≡◌, refl, none, some, [], ◌∷◌}
use nestjs_cqrs_saga.Outcome.{ok, err, plain}
use nestjs_cqrs_saga.World.{World, Action, Platform}
use nestjs_cqrs_saga.Lock.{AcquiredLock, default_options, acquire_lock, with_lock}
use nestjs_cqrs_saga.Lock.Exclusion.{holder}
use nestjs_cqrs_saga.Lock.Scope.{with_lock-excludes}
use nestjs_cqrs_saga.Examples.Services.{services, empty_world}

abbrev report_lock : AcquiredLock
report_lock = record { key = "lock:report"; token = "11111110-token"; ttl = 30000; acquired_at = 7 }

abbrev held_by_us : World
held_by_us = record empty_world { keys = ("lock:report", "11111110-token") ∷ [] }

-- A function that throws.
abbrev breaks : Action (Unit {0})
breaks w = (err (plain "broken"), w)

waits_hold_ours :
    (n : ℕ) (w : World)
    → holder services "lock:report" w ≡ some "11111110-token"
    → holder services "lock:report" (services.elapse n w) ≡ some "11111110-token"
unfolding services
waits_hold_ours n w h = h

with_lock-excludes_example :
    (with_lock services "report" breaks default_options held_by_us
      ≡ (err (plain "Failed to acquire lock: report"), held_by_us))
    × (holder services "lock:report"
          (with_lock services "report" breaks default_options held_by_us).1
        ≡ some "11111110-token")
unfolding acquire_lock services
with_lock-excludes_example =
    with_lock-excludes services "report" breaks default_options default_options empty_world
      report_lock waits_hold_ours refl

-- The services with a clock that goes on while they wait.
abbrev ticking : Platform
ticking = record services { elapse = λ n w. record w { now = w.now + n } }

abbrev held_by_other : World
held_by_other = record empty_world { keys = ("lock:report", "other") ∷ [] }

acquire_lock-waits_example :
    let (r, w) = acquire_lock ticking "report" default_options held_by_other in
    ((r ≡ ok none) × (w.now ≡ 7 + 3 * 100))
    ⊎ ((l : AcquiredLock) × (r ≡ ok (some l)) × (7 ≤ w.now) × (w.now ≤ 7 + 3 * 100))
acquire_lock-waits_example =
    acquire_lock-waits ticking (λ n v. refl) "report" default_options held_by_other
