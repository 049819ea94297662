-- ===== src/Table/Unique.antt =====
-- Tables in which a column has each value once, and what changes of rows do to them.
use nestjs_cqrs_saga.Prelude.{
  String, ◌≡◌, refl, inl, inr, Bool, true, false, none, some, List, [], ◌∷◌, ◌++◌, arith, ◌==◌,
  eq_iff, eq_refl, if◌then◌else◌, All, Option-cases,
}
use nestjs_cqrs_saga.Table.{
  lookup, modify_at, Holds, IsKeyed, Repository, false-Holds, lookup-Holds,
}

module _ {Row : Type 0} (key : Row → String) where
  pub lookup_missing :
      (j : String) (t : List Row) → All (λ r. (key r == j) ≡ false) t → lookup key j t ≡ none
  lookup_missing j [] h = refl
  lookup_missing j (x ∷ t) h = ground (arith, lookup_missing j t h.1)

  pub append-IsKeyed :
      (r : Row) (t : List Row)
      → IsKeyed key t
      → lookup key (key r) t ≡ none
      → IsKeyed key (t ++ r ∷ [])
  append-IsKeyed r [] h missing = (refl, tt)
  append-IsKeyed r (x ∷ t) h missing = ground (
    arith,
    append-IsKeyed r t h.1,
    lookup-append (key x) r t,
    eq_iff (key x) (key r),
    eq_iff (key r) (key x),
  )
    where
      lookup-append :
          (j : String) (r : Row) (t : List Row)
          → lookup key j t ≡ none
          → lookup key j (t ++ r ∷ []) ≡ (if key r == j then some r else none)
      lookup-append j r [] h = refl
      lookup-append j r (y ∷ t) h = ground (arith, lookup-append j r t)

  module _ (id : Row → String) (i : String) (f : Row → Row) where
    lookup-modify_at_missing :
        ((r : Row) → key (f r) ≡ key r)
        → (j : String) (t : List Row) → lookup key j t ≡ none
        → lookup key j (modify_at id i f t) ≡ none
    lookup-modify_at_missing same j [] h = refl
    lookup-modify_at_missing same j (x ∷ t) h =
        ground (arith, same x, lookup-modify_at_missing same j t)

    -- A change that leaves a column alone leaves its values different.
    pub modify_at-IsKeyed :
        ((r : Row) → key (f r) ≡ key r)
        → (t : List Row) → IsKeyed key t
        → IsKeyed key (modify_at id i f t)
    modify_at-IsKeyed same [] h = tt
    modify_at-IsKeyed same (x ∷ t) h =
        ground
          (arith, same x, lookup-modify_at_missing same (key x) t h.0, modify_at-IsKeyed same t h.1)

  pub lookup-modify_at :
      (i j : String) (f : Row → Row) (t : List Row)
      → ((r : Row) → key (f r) ≡ key r)
      → lookup key j (modify_at key i f t)
        ≡ (elim (lookup key j t) [ none ↦ none | some r ↦ if i == j then some (f r) else some r ])
  lookup-modify_at i j f [] same = refl
  lookup-modify_at i j f (x ∷ t) same =
      ground (
        arith,
        same x,
        eq_iff (key x) i,
        eq_iff (key x) j,
        eq_iff i j,
        lookup-modify_at i j f t same,
      )

  pub modify_at_last :
      (f : Row → Row) (r : Row) (t : List Row)
      → lookup key (key r) t ≡ none
      → modify_at key (key r) f (t ++ r ∷ []) ≡ t ++ f r ∷ []
  modify_at_last f r [] h = ground (arith, eq_refl (key r))
  modify_at_last f r (x ∷ t) h = ground (arith, modify_at_last f r t)

  -- A row of the table whose key nobody shares is what every query for it finds.
  pub find_one_unique :
      {id : Row → String} (repository : Repository id) (p : Row → Bool) (x : Row) (t : List Row)
      → IsKeyed key t
      → Holds x t
      → p x ≡ true
      → ((r : Row) → p r ≡ true → key r ≡ key x)
      → repository.find_one p t ≡ some x
  find_one_unique repository p x t keyed holds e only =
      elim (Option-cases (repository.find_one p t)) [
        | inl h ↦
            absurd (ground (arith, e, false-Holds p x t (repository.find_one_complete p t h) holds))
        | inr (r, h) ↦
            let found = repository.find_one_sound p t r h in
            ground (
              arith,
              h,
              lookup-Holds key r t keyed found.1,
              lookup-Holds key x t keyed holds,
              only r found.0,
            )
      ]

-- A row in the middle of a table.
module _ {Row : Type 0} (key : Row → String) (x : Row) where
  lookup_middle_missing :
      (i : String) (s t : List Row)
      → lookup key i (s ++ x ∷ t) ≡ none
      → ((key x == i) ≡ false) × (lookup key i (s ++ t) ≡ none)
  lookup_middle_missing i [] t h = (ground arith, ground arith)
  lookup_middle_missing i (y ∷ s) t h =
      (ground (arith, lookup_middle_missing i s t), ground (arith, lookup_middle_missing i s t))

  -- Without it no other row has its key, and the rest stays unique.
  pub middle-IsKeyed :
      (s t : List Row)
      → IsKeyed key (s ++ x ∷ t)
      → (lookup key (key x) (s ++ t) ≡ none) × IsKeyed key (s ++ t)
  middle-IsKeyed [] t h = h
  middle-IsKeyed (y ∷ s) t h =
      let rest = middle-IsKeyed s t h.1 in
      let other = lookup_middle_missing (key y) s t h.0 in
      (ground (arith, eq_iff (key x) (key y), eq_iff (key y) (key x)), (other.1, rest.1))

pub All-middle :
    {Row : Type 0} (P : Row → Type 0) (x : Row) (s t : List Row)
    → All P (s ++ x ∷ t)
    → P x × All P (s ++ t)
All-middle P x [] t h = h
All-middle P x (y ∷ s) t h = let rest = All-middle P x s t h.1 in (rest.0, (h.0, rest.1))
