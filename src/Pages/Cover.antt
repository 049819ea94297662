-- ===== src/Pages/Cover.antt =====
-- That the pages cover what they page through.
use Prim.Native.Nat.{◌%◌}
use native.Mathlib.Nat.{div-add-mod', mod-lt}
use nestjs_cqrs_saga.Prelude.{
  ℕ, zero, suc, ◌+◌, ◌-◌, ◌*◌, ◌/◌, ◌≤◌, ◌<◌, ◌≡◌, refl, ap, ◌∙◌, List, [], ◌∷◌, ◌++◌, take, drop,
  length, arith, map,
}

module _ {ℓ} {A : Type ℓ} where
  -- The first `n` chunks of `k` items, one behind the other.
  abbrev pub chunks : (k n : ℕ) → List A → List A
  chunks k zero xs = []
  chunks k (suc n) xs = take k xs ++ chunks k n (drop k xs)

  pub take-append-drop : (n : ℕ) (xs : List A) → take n xs ++ drop n xs ≡ xs
  take-append-drop zero xs = refl
  take-append-drop (suc n) [] = refl
  take-append-drop (suc n) (x ∷ xs) = ap (◌∷◌ x) (take-append-drop n xs)

  pub length-drop : (n : ℕ) (xs : List A) → length (drop n xs) ≡ length xs - n
  length-drop zero xs = omega arith
  length-drop (suc n) [] = omega arith
  length-drop (suc n) (x ∷ xs) = omega (arith, length-drop n xs)

  pub length-take : (n : ℕ) (xs : List A) → length (take n xs) ≤ n
  length-take zero xs = omega arith
  length-take (suc n) [] = omega arith
  length-take (suc n) (x ∷ xs) = omega (arith, length-take n xs)

  pub length-take_le : (n : ℕ) (xs : List A) → length (take n xs) ≤ length xs
  length-take_le zero xs = omega arith
  length-take_le (suc n) [] = omega arith
  length-take_le (suc n) (x ∷ xs) = omega (arith, length-take_le n xs)

  drop_nil : (n : ℕ) → ◌≡◌ {A = List A} [] (drop n [])
  drop_nil zero = refl
  drop_nil (suc n) = refl

  pub drop-drop : (m n : ℕ) (xs : List A) → drop m (drop n xs) ≡ drop (n + m) xs
  drop-drop m zero xs = ap (λ n. drop n xs) (omega arith)
  drop-drop zero (suc n) [] = drop_nil (suc n + 0)
  drop-drop (suc m) (suc n) [] = drop_nil (suc n + suc m)
  drop-drop m (suc n) (x ∷ xs) = drop-drop m n xs ∙ next
    where
      same : suc (n + m) ≡ suc n + m
      same = omega arith

      next : drop (n + m) xs ≡ drop (suc n + m) (x ∷ xs)
      next = ap (λ k. drop k (x ∷ xs)) same

  -- Chunks that are enough for the list make it up.
  pub chunks_lem : (k n : ℕ) (xs : List A) → length xs ≤ n * k → chunks k n xs ≡ xs
  chunks_lem k zero [] h = refl
  chunks_lem k zero (x ∷ xs) h = absurd (omega arith)
  chunks_lem k (suc n) xs h =
      ap (◌++◌ (take k xs)) (chunks_lem k n (drop k xs) (omega (arith, length-drop k xs)))
      ∙ take-append-drop k xs

  -- `n` pages from the page `k` on, one behind the other.
  abbrev pub join_from : (pages : ℕ → List A) (k n : ℕ) → List A
  join_from pages k zero = []
  join_from pages k (suc n) = pages k ++ join_from pages (suc k) n

  join_from-chunks :
      (pages : ℕ → List A) (limit k n : ℕ) (xs : List A)
      → ((i : ℕ) → pages (suc i) ≡ take limit (drop (i * limit) xs))
      → join_from pages (suc k) n ≡ chunks limit n (drop (k * limit) xs)
  join_from-chunks pages limit k zero xs h = refl
  join_from-chunks pages limit k (suc n) xs h =
      rw (h k, join_from-chunks pages limit (suc k) n xs h, drop-drop limit (k * limit) xs, next)
        refl
    where
      next : suc k * limit ≡ k * limit + limit
      next = omega arith

  -- Pages from the first on that are enough for the list make it up.
  pub join_from_lem :
      (pages : ℕ → List A) (limit n : ℕ) (xs : List A)
      → ((i : ℕ) → pages (suc i) ≡ take limit (drop (i * limit) xs))
      → length xs ≤ n * limit
      → join_from pages 1 n ≡ xs
  join_from_lem pages limit n xs h enough =
      join_from-chunks pages limit 0 n xs h
      ∙ ap (λ m. chunks limit n (drop m xs)) none_skipped
      ∙ chunks_lem limit n xs enough
    where
      none_skipped : 0 * limit ≡ 0
      none_skipped = omega arith

-- The pages that are counted are enough, and one fewer would not be.
pub total_pages-enough :
    (total n : ℕ)
    → (total ≤ (total + n) / suc n * suc n) × ((total + n) / suc n * suc n ≤ total + n)
total_pages-enough total n =
    let bound : (total + n) % suc n < suc n = mod-lt (total + n) {m = suc n} (omega arith) in
    (
      omega (arith, div-add-mod' (total + n) (suc n), bound),
      omega (arith, div-add-mod' (total + n) (suc n)),
    )

module _ {ℓ κ} {A : Type ℓ} {B : Type κ} (f : A → B) where
  map-append : (xs ys : List A) → map f (xs ++ ys) ≡ map f xs ++ map f ys
  map-append [] ys = refl
  map-append (x ∷ xs) ys = ap (◌∷◌ (f x)) (map-append xs ys)

  pub length-map : (xs : List A) → length (map f xs) ≡ length xs
  length-map [] = refl
  length-map (x ∷ xs) = omega (arith, length-map xs)

  -- Pages of what is shown of the items.
  pub join_from-map :
      (pages : ℕ → List A) (shown : ℕ → List B) (k n : ℕ)
      → ((i : ℕ) → shown (suc i) ≡ map f (pages (suc i)))
      → join_from shown (suc k) n ≡ map f (join_from pages (suc k) n)
  join_from-map pages shown k zero h = refl
  join_from-map pages shown k (suc n) h =
      rw
        (
          h k,
          join_from-map pages shown (suc k) n h,
          map-append (pages (suc k)) (join_from pages (suc (suc k)) n),
        )
        refl
