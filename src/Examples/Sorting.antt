-- ===== src/Examples/Sorting.antt =====
-- Events in the order of time, in memory.
use mathlib.Core.List.{reverse-reverse}
use mathlib.Core.List.Perm
use nestjs_cqrs_saga.Prelude.{
  Bool, true, false, List, [], ◌∷◌, Perm, reverse, leb, if◌then◌else◌, arith,
}
use nestjs_cqrs_saga.Entity.{EventStore}
use nestjs_cqrs_saga.World.{Ascends}

unfoldable pub place : EventStore → List EventStore → List EventStore
place x [] = x ∷ []
place x (y ∷ ys) =
    let rest = place x ys in if leb x.occurred_at y.occurred_at then x ∷ y ∷ ys else y ∷ rest

unfoldable pub by_time : List EventStore → List EventStore
unfolding place
by_time [] = []
by_time (x ∷ xs) = place x (by_time xs)

place_perm : (x : EventStore) (ys : List EventStore) → Perm (place x ys) (x ∷ ys)
unfolding place
place_perm x [] = Perm.rfl
place_perm x (y ∷ ys) = placed (leb x.occurred_at y.occurred_at) (place_perm x ys)
  where
    placed :
        (b : Bool)
        → Perm (place x ys) (x ∷ ys)
        → Perm (if b then x ∷ y ∷ ys else y ∷ place x ys) (x ∷ y ∷ ys)
    placed true h = Perm.rfl
    placed false h = Perm.trans (Perm.cons y h) (Perm.swap x y ys)

pub by_time_perm : (xs : List EventStore) → Perm (by_time xs) xs
unfolding by_time
by_time_perm [] = Perm.rfl
by_time_perm (x ∷ xs) = Perm.trans (place_perm x (by_time xs)) (Perm.cons x (by_time_perm xs))

place-Ascends : (x : EventStore) (ys : List EventStore) → Ascends ys → Ascends (place x ys)
unfolding place
place-Ascends x [] h = tt
place-Ascends x (y ∷ []) h = ground arith
place-Ascends x (y ∷ z ∷ zs) h = ground (arith, place-Ascends x (z ∷ zs))

pub by_time-Ascends : (xs : List EventStore) → Ascends (by_time xs)
unfolding by_time
by_time-Ascends [] = tt
by_time-Ascends (x ∷ xs) = place-Ascends x (by_time xs) (by_time-Ascends xs)

pub reversed-Ascends : (xs : List EventStore) → Ascends (reverse (reverse (by_time xs)))
reversed-Ascends xs = rw reverse-reverse (by_time-Ascends xs)
