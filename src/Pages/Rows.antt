-- ===== src/Pages/Rows.antt =====
-- The pages of the rows that match a condition.
use mathlib.Core.List.{foldr}
use mathlib.Core.List.Perm
use nestjs_cqrs_saga.Prelude.{
  ℕ, zero, suc, ◌+◌, ◌-◌, ◌*◌, ◌/◌, ◌≤◌, String, ◌≡◌, refl, true, ◌&&◌, All, sym, ap, ◌∙◌, Bool,
  List, [], ◌∷◌, take, drop, map, length, filter, count, Perm, arith, if◌then◌else◌, nat_eq,
}
use nestjs_cqrs_saga.Outcome.{ok, err, Error}
use nestjs_cqrs_saga.Table.{Repository}
use nestjs_cqrs_saga.Pages.{find_and_count}
use nestjs_cqrs_saga.Pages.Cover.{
  join_from, join_from_lem, total_pages-enough, length-take, length-take_le, length-drop,
}

module _ {A : Type 0} where
  length-foldr : (xs : List A) → foldr (λ x n. suc n) 0 xs ≡ length xs
  length-foldr [] = refl
  length-foldr (x ∷ xs) = ap suc (length-foldr xs)

  pub length-perm : {xs ys : List A} → Perm xs ys → length xs ≡ length ys
  length-perm {xs} {ys} p =
      sym (length-foldr xs)
      ∙ Perm.foldr-eq (hlevel) (λ (x : A) (n : ℕ). suc n) (λ a b n. refl) p 0
      ∙ length-foldr ys

  pub length-filter : (test : A → Bool) (xs : List A) → length (filter test xs) ≡ count test xs
  length-filter test [] = refl
  length-filter test (x ∷ xs) = ground (arith, length-filter test xs)

module _ {A : Type 0} (test : A → Bool) where
  every : List A → Bool
  every xs = foldr (λ x b. test x && b) true xs

  every-perm : {xs ys : List A} → Perm xs ys → every xs ≡ every ys
  unfolding every
  every-perm p =
      Perm.foldr-eq (hlevel) (λ (x : A) (b : Bool). test x && b) (λ a b x. ground arith) p true

  every-filter : (xs : List A) → every (filter test xs) ≡ true
  unfolding every
  every-filter [] = refl
  every-filter (x ∷ xs) = ground (arith, every-filter xs)

  every-drop : (n : ℕ) (xs : List A) → every xs ≡ true → every (drop n xs) ≡ true
  unfolding every
  every-drop zero xs h = h
  every-drop (suc n) [] h = refl
  every-drop (suc n) (x ∷ xs) h = every-drop n xs (ground (arith, h))

  every-take : (n : ℕ) (xs : List A) → every xs ≡ true → All (λ x. test x ≡ true) (take n xs)
  unfolding every
  every-take zero xs h = tt
  every-take (suc n) [] h = tt
  every-take (suc n) (x ∷ xs) h = (ground (arith, h), every-take n xs (ground (arith, h)))

  -- Any part of a rearrangement of the items that pass passes.
  pub take_matches :
      (n m : ℕ) {xs : List A} (t : List A)
      → Perm xs (filter test t)
      → All (λ x. test x ≡ true) (take n (drop m xs))
  take_matches n m {xs} t p =
      every-take n (drop m xs) (every-drop m xs (every-perm p ∙ every-filter t))

  count-foldr : (xs : List A) → foldr (λ x n. if test x then suc n else n) 0 xs ≡ count test xs
  count-foldr [] = refl
  count-foldr (x ∷ xs) = ground (arith, count-foldr xs)

  count_comm :
      (a b : A) (n : ℕ)
      → ◌≡◌ {A = ℕ}
          (if test a then suc (if test b then suc n else n) else if test b then suc n else n)
          (if test b then suc (if test a then suc n else n) else if test a then suc n else n)
  count_comm a b n = ground arith

  pub count-perm : {xs ys : List A} → Perm xs ys → count test xs ≡ count test ys
  count-perm {xs} {ys} p =
      sym (count-foldr xs)
      ∙ Perm.foldr-eq (hlevel) (λ (x : A) (n : ℕ). if test x then suc n else n) count_comm p 0
      ∙ count-foldr ys

  pub count-filter :
      (other : A → Bool) (xs : List A)
      → count test (filter other xs) ≡ count (λ x. other x && test x) xs
  count-filter other [] = refl
  count-filter other (x ∷ xs) = ground (arith, count-filter other xs)

module _ {A B : Type 0} (f : A → B) (test : B → Bool) where
  pub count-map : (xs : List A) → count test (map f xs) ≡ count (λ x. test (f x)) xs
  count-map [] = refl
  count-map (x ∷ xs) = ground (arith, count-map xs)

module _ {Row : Type 0} {key : Row → String} (repository : Repository key) (e : Error)
    (test : Row → Bool) (t : List Row) where
  -- The rows of a page.
  abbrev pub page : (limit page : ℕ) → List Row
  page limit k = elim (find_and_count repository e test k limit t) [
    | ok (rows, total) ↦ rows
    | err x ↦ []
  ]

  -- The rows in the order in which the query of a page has them.
  arranged : (n i : ℕ) → List Row
  arranged n i = repository.arrangement test (i * suc n) (suc n) t

  page_lem : (n i : ℕ) → page (suc n) (suc i) ≡ take (suc n) (drop (i * suc n) (arranged n i))
  unfolding arranged
  page_lem n i =
      repository.find_page_lem test (i * suc n) (suc n) t (λ h. absurd (omega (arith, h)))

  arranged_perm : (n i : ℕ) → Perm (arranged n i) (filter test t)
  unfolding arranged
  arranged_perm n i = repository.arrangement_perm test (i * suc n) (suc n) t

  length-arranged : (n i : ℕ) → length (arranged n i) ≡ repository.count_rows test t
  length-arranged n i =
      length-perm (arranged_perm n i)
      ∙ length-filter test t
      ∙ sym (repository.count_rows_lem test t)

  -- All pages one behind the other are the rows that match, the newest first, if no two of them have
  -- one `createdAt`.
  pub pages_lem :
      (n : ℕ)
      → ((k : ℕ) → count (λ r. test r && nat_eq (repository.created_at t r) k) t ≤ 1)
      → join_from (page (suc n)) 1 ((repository.count_rows test t + n) / suc n)
        ≡ repository.newest test t
  unfolding arranged
  pages_lem n apart =
      let total = repository.count_rows test t in
      let fixed : (i : ℕ) → arranged n i ≡ repository.newest test t =
        λ i. repository.arrangement_fixed test (i * suc n) (suc n) t apart in
      join_from_lem (page (suc n)) (suc n) ((total + n) / suc n) (repository.newest test t)
        (λ i. page_lem n i ∙ ap (λ rows. take (suc n) (drop (i * suc n) rows)) (fixed i))
        (omega (
          arith,
          (total_pages-enough total n).0,
          ap (λ rows. length rows) (fixed 0),
          length-arranged n 0,
        ))

  -- A page has no more rows than the limit and than the rows that are left.
  pub page_length :
      (n i : ℕ)
      → (length (page (suc n) (suc i)) ≤ suc n)
        × (length (page (suc n) (suc i)) ≤ repository.count_rows test t - i * suc n)
  page_length n i =
      let rows = arranged n i in
      rw (page_lem n i) (
        length-take (suc n) (drop (i * suc n) rows),
        omega (
          arith,
          length-take_le (suc n) (drop (i * suc n) rows),
          length-drop (i * suc n) rows,
          length-arranged n i,
        ),
      )

  -- A page shows only rows that match.
  pub page_matches : (n i : ℕ) → All (λ r. test r ≡ true) (page (suc n) (suc i))
  page_matches n i = rw (page_lem n i) (take_matches test (suc n) (i * suc n) t (arranged_perm n i))
