-- ===== src/Table.antt =====
-- A table as the list of its rows, and what the code relies on of TypeORM's `Repository`.
pub mod Unique
use nestjs_cqrs_saga.Prelude.{
  String, ◌≡◌, refl, ◌≤◌, ◌⊎◌, inl, inr, Bool, true, false, Option, none, some, List, [], ◌∷◌, ◌++◌,
  count, arith, ◌==◌, eq_iff, eq_refl, if◌then◌else◌, All, ◌≢◌, ℕ, take, drop, filter, Perm, ◌&&◌,
  nat_eq,
}
use nestjs_cqrs_saga.Outcome.{Outcome, ok}

module _ {Row : Type 0} (key : Row → String) where
  -- The row under a primary key.
  abbrev pub lookup : String → List Row → Option Row
  lookup i [] = none
  lookup i (r ∷ t) = if key r == i then some r else lookup i t

  -- A change of the row under a key, if there is one.
  abbrev pub modify_at : String → (Row → Row) → List Row → List Row
  modify_at i f [] = []
  modify_at i f (r ∷ t) = if key r == i then f r ∷ t else r ∷ modify_at i f t

  -- A row written under its key: in place of the old one, or as a new one.
  abbrev pub upsert : Row → List Row → List Row
  upsert r [] = r ∷ []
  upsert r (x ∷ t) = if key x == key r then r ∷ t else x ∷ upsert r t

  pub lookup-upsert :
      (i : String) (r : Row) (t : List Row)
      → lookup i (upsert r t) ≡ (if key r == i then some r else lookup i t)
  lookup-upsert i r [] = refl
  lookup-upsert i r (x ∷ t) =
      ground
        (arith, eq_iff (key x) (key r), eq_iff (key x) i, eq_iff (key r) i, lookup-upsert i r t)

  pub lookup-upsert_self : (r : Row) (t : List Row) → lookup (key r) (upsert r t) ≡ some r
  lookup-upsert_self r t = ground (arith, lookup-upsert (key r) r t, eq_refl (key r))

  pub key-lookup : (i : String) (t : List Row) (r : Row) → lookup i t ≡ some r → key r ≡ i
  key-lookup i [] r h = cc
  key-lookup i (x ∷ t) r h = ground (arith, eq_iff (key x) i, key-lookup i t r)

  pub lookup-upsert_at :
      (i : String) (r : Row) (t : List Row) → key r ≡ i → lookup i (upsert r t) ≡ some r
  lookup-upsert_at i r t e = rw (← e) (lookup-upsert_self r t)

  pub upsert_fresh : (r : Row) (t : List Row) → lookup (key r) t ≡ none → upsert r t ≡ t ++ r ∷ []
  upsert_fresh r [] h = refl
  upsert_fresh r (x ∷ t) h = ground (arith, upsert_fresh r t)

-- A row is in the table.
abbrev pub Holds : {Row : Type 0} → Row → List Row → Type 0
Holds r [] = ⊥
Holds r (x ∷ t) = (r ≡ x) ⊎ Holds r t

module _ {Row : Type 0} (key : Row → String) where
  -- No two rows share a primary key.
  abbrev pub IsKeyed : List Row → Type 0
  IsKeyed [] = Unit {0}
  IsKeyed (r ∷ t) = (lookup key (key r) t ≡ none) × IsKeyed t

  pub upsert-IsKeyed : (r : Row) (t : List Row) → IsKeyed t → IsKeyed (upsert key r t)
  upsert-IsKeyed r [] h = (refl, tt)
  upsert-IsKeyed r (x ∷ t) h = ground (
    arith,
    upsert-IsKeyed r t h.1,
    lookup-upsert key (key x) r t,
    eq_iff (key x) (key r),
    eq_iff (key r) (key x),
  )

  pub lookup-Holds :
      (r : Row) (t : List Row) → IsKeyed t → Holds r t → lookup key (key r) t ≡ some r
  lookup-Holds r [] h m = absurd m
  lookup-Holds r (x ∷ t) h (inl e) = ground (arith, e, eq_refl (key x))
  lookup-Holds r (x ∷ t) h (inr m) = ground (arith, lookup-Holds r t h.1 m, eq_iff (key x) (key r))

  pub Holds-append : (r x : Row) (t : List Row) → Holds r (t ++ x ∷ []) → Holds r t ⊎ (r ≡ x)
  Holds-append r x [] (inl e) = inr e
  Holds-append r x [] (inr m) = absurd m
  Holds-append r x (y ∷ t) (inl e) = inl (inl e)
  Holds-append r x (y ∷ t) (inr m) = elim (Holds-append r x t m) [
    | inl h ↦ inl (inr h)
    | inr e ↦ inr e
  ]

  pub Holds-last : (x : Row) (t : List Row) → Holds x (t ++ x ∷ [])
  Holds-last x [] = inl refl
  Holds-last x (y ∷ t) = inr (Holds-last x t)

pub false-Holds :
    {Row : Type 0} (p : Row → Bool) (r : Row) (t : List Row)
    → All (λ r. p r ≡ false) t
    → Holds r t
    → p r ≡ false
false-Holds p r [] h m = absurd m
false-Holds p r (x ∷ t) h (inl e) = rw e h.0
false-Holds p r (x ∷ t) h (inr m) = false-Holds p r t h.1 m

pub count-false :
    {Row : Type 0} (p : Row → Bool) (t : List Row) → All (λ r. p r ≡ false) t → count p t ≡ 0
count-false p [] h = refl
count-false p (x ∷ t) h = ground (arith, count-false p t h.1)

pub count-Holds :
    {Row : Type 0} (p : Row → Bool) (r : Row) (t : List Row)
    → Holds r t
    → p r ≡ true
    → 1 ≤ count p t
count-Holds p r [] h e = absurd h
count-Holds p r (x ∷ t) (inl same) e = ground (arith, rw same at e)
count-Holds p r (x ∷ t) (inr h) e = ground (arith, count-Holds p r t h e)

-- The documented behaviour of `Repository`: a query answers with some row that matches, if there
-- is one, by primary key with the row of that key, and with all rows that match where all are asked
-- for; a `save` writes the whole row or throws and writes nothing; a generated primary key is not
-- in use.
pub record Repository {Row : Type 0} (key : Row → String) : Type 0 where
  pub find_one : (Row → Bool) → List Row → Option Row
  -- All rows that match, in the database's order.
  pub find : (Row → Bool) → List Row → List Row
  pub save : Row → List Row → Outcome (Row × List Row)
  pub generate : List Row → String
  pub find_one-key : (i : String) (t : List Row) → find_one (λ r. key r == i) t ≡ lookup key i t
  pub find_one_sound :
      (p : Row → Bool) (t : List Row) (r : Row) → find_one p t ≡ some r → (p r ≡ true) × Holds r t
  pub find_one_complete :
      (p : Row → Bool) (t : List Row) → find_one p t ≡ none → All (λ r. p r ≡ false) t
  pub save_ok :
      (r r' : Row) (t t' : List Row) → save r t ≡ ok (r', t') → (r' ≡ r) × (t' ≡ upsert key r t)
  pub generate_fresh : (t : List Row) → lookup key (generate t) t ≡ none
  -- The matching rows by `createdAt`, the newest first; a part of them, by a number of rows to skip
  -- and a number to take that is not 0; and how many match. Rows of one `createdAt` may come in
  -- another order for every query, so that each part is one of its own `arrangement` of the rows.
  pub newest : (Row → Bool) → List Row → List Row
  pub find_page : (Row → Bool) → (skip_rows take_rows : ℕ) → List Row → List Row
  pub arrangement : (Row → Bool) → (skip_rows take_rows : ℕ) → List Row → List Row
  pub count_rows : (Row → Bool) → List Row → ℕ
  -- The column `createdAt` of a row of the table.
  pub created_at : List Row → Row → ℕ
  -- `update(id, {...})`, of columns other than the primary key.
  pub update : String → (Row → Row) → List Row → Outcome (List Row)
  pub newest_perm : (p : Row → Bool) (t : List Row) → Perm (newest p t) (filter p t)
  pub find_page_lem :
      (p : Row → Bool) (skip_rows take_rows : ℕ) (t : List Row)
      → take_rows ≢ 0
      → find_page p skip_rows take_rows t
        ≡ take take_rows (drop skip_rows (arrangement p skip_rows take_rows t))
  pub arrangement_perm :
      (p : Row → Bool) (skip_rows take_rows : ℕ) (t : List Row)
      → Perm (arrangement p skip_rows take_rows t) (filter p t)
  -- Where no two of the rows have one `createdAt`, it determines their order.
  pub arrangement_fixed :
      (p : Row → Bool) (skip_rows take_rows : ℕ) (t : List Row)
      → ((n : ℕ) → count (λ r. p r && nat_eq (created_at t r) n) t ≤ 1)
      → arrangement p skip_rows take_rows t ≡ newest p t
  pub count_rows_lem : (p : Row → Bool) (t : List Row) → count_rows p t ≡ count p t
  pub update_ok :
      (i : String) (f : Row → Row) (t t' : List Row)
      → update i f t ≡ ok t'
      → t' ≡ modify_at key i f t
  pub find_sound :
      (p : Row → Bool) (t : List Row) (r : Row) → Holds r (find p t) → (p r ≡ true) × Holds r t
  pub find_complete :
      (p : Row → Bool) (t : List Row) (r : Row) → Holds r t → p r ≡ true → Holds r (find p t)
