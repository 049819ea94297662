-- ===== src/World/Invariant.antt =====
-- Predicates on the state that a method call leaves true, whether it returns or throws.
use nestjs_cqrs_saga.Prelude.{Bool, true, false, Option, none, some, if◌then◌else◌}
use nestjs_cqrs_saga.Outcome.{Outcome, ok, err}
use nestjs_cqrs_saga.World.State.{World}
use nestjs_cqrs_saga.World.Monad.{Action, ◌>>=◌}

module _ (I : World → Type 0) where
  abbrev pub Preserves : {A : Type 0} → Action A → Type 0
  Preserves m = (w : World) → I w → I (m w).1

  pub bind-Preserves :
      {A B : Type 0} (m : Action A) (f : A → Action B)
      → Preserves m
      → ((a : A) → Preserves (f a))
      → Preserves (m >>= f)
  bind-Preserves {A = A} {B = B} m f hm hf w i = after (m w) (hm w i)
    where
      after :
          (r : Outcome A × World)
          → I r.1
          → I (elim r.0 as (λ x. Outcome B × World) [ ok a ↦ f a r.1 | err e ↦ (err e, r.1) ]).1
      after (ok a, v) h = hf a v h
      after (err e, v) h = h

  pub option-Preserves :
      {A B : Type 0} (m : Action (Option A)) (z : Action B) (f : A → Action B)
      → Preserves m
      → Preserves z
      → ((a : A) → Preserves (f a))
      → Preserves (m >>= λ o. elim o [ none ↦ z | some a ↦ f a ])
  option-Preserves {A = A} {B = B} m z f hm hz hf =
      bind-Preserves m (λ o. elim o as (λ x. Action B) [ none ↦ z | some a ↦ f a ]) hm cases
    where
      cases : (o : Option A) → Preserves (elim o as (λ x. Action B) [ none ↦ z | some a ↦ f a ])
      cases none = hz
      cases (some a) = hf a

  pub if-Preserves :
      {A : Type 0} (b : Bool) (m k : Action A)
      → Preserves m
      → Preserves k
      → Preserves (if b then m else k)
  if-Preserves true m k hm hk = hm
  if-Preserves false m k hm hk = hk
