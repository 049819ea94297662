-- ===== src/World/Monad.antt =====
-- A method call: it returns or throws, and what it wrote before a throw stays written.
use nestjs_cqrs_saga.Prelude.{[], ◌∷◌, ◌++◌}
use nestjs_cqrs_saga.Outcome.{Outcome, ok, err, Error}
use nestjs_cqrs_saga.World.State.{World, Task}

abbrev pub Action : Type 0 → Type 0
Action A = World → Outcome A × World

module _ {A : Type 0} where
  abbrev pub pure : A → Action A
  pure a w = (ok a, w)

  abbrev pub throw : Error → Action A
  throw e w = (err e, w)

  abbrev pub gets : (World → A) → Action A
  gets f w = (ok (f w), w)

infixl 5 ◌>>=◌ ◌>>◌
abbrev pub ◌>>=◌ : {A B : Type 0} → Action A → (A → Action B) → Action B
◌>>=◌ m f w = let (r, w') = m w in elim r [ ok a ↦ f a w' | err e ↦ (err e, w') ]

abbrev pub ◌>>◌ : {A B : Type 0} → Action A → Action B → Action B
m >> k = m >>= λ _. k

-- `try { m } catch (e) { f(e) }`
abbrev pub catch : {A : Type 0} → Action A → (Error → Action A) → Action A
catch m f w = let (r, w') = m w in elim r [ ok a ↦ (ok a, w') | err e ↦ f e w' ]

abbrev pub modify : (World → World) → Action (Unit {0})
modify f w = (ok tt, f w)

-- `setImmediate(task)`: the callback runs later.
abbrev pub defer : Task → Action (Unit {0})
defer t w = (ok tt, record w { deferred = w.deferred ++ t ∷ [] })

-- A `save`: its result is the row, and the table is put back into the world.
abbrev pub write : {R T : Type 0} → (World → Outcome (R × T)) → (T → World → World) → Action R
write f put w = elim (f w) [ ok (r, t) ↦ (ok r, put t w) | err e ↦ (err e, w) ]
