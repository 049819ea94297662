-- ===== src/OrderController/Texts.antt =====
-- JavaScript's order of texts, by UTF-16 code units, and `sort()` on them. A pair of surrogates,
-- which stands for a code point from 0x10000 on, is above the units below 0xD800 and below those from
-- 0xE000 on.
use Prim.Native.Char.{code}
use mathlib.Core.HLevel.{hedberg}
use mathlib.Core.List.{foldr}
use mathlib.Core.List
use mathlib.Core.List.Perm
use text.Mathlib.TextEquality.{Char-path}
use nestjs_cqrs_saga.Prelude.{
  ℕ, String, ◌≡◌, refl, Bool, true, false, List, [], ◌∷◌, arith, if◌then◌else◌, ltb, nat_eq, Perm,
  Bool-cases, inl, inr, ◌==◌, eq_iff,
}

-- Where the units of a code point stand.
abbrev pub plane : ℕ → ℕ
plane n = if ltb n 57344 then 0 else if ltb n 65536 then 2 else 1

abbrev pub code_before : ℕ → ℕ → Bool
code_before m n = if nat_eq (plane m) (plane n) then ltb m n else ltb (plane m) (plane n)

code_before_total : (m n : ℕ) → code_before m n ≡ false → code_before n m ≡ false → m ≡ n
code_before_total m n h k = ground arith

code_before_asym : (m n : ℕ) → code_before m n ≡ true → code_before n m ≡ false
code_before_asym m n h = ground arith

code_before_trans :
    (m n k : ℕ) → code_before m n ≡ true → code_before n k ≡ true → code_before m k ≡ true
code_before_trans m n k h h' = ground arith

-- `s < t` of two texts.
unfoldable pub before : String → String → Bool
before s String.[] = false
before String.[] (String.◌∷◌ d t) = true
before (String.◌∷◌ c s) (String.◌∷◌ d t) =
    let rest = before s t in
    if code_before (code c) (code d)
    then true
    else if code_before (code d) (code c)
    then false
    else rest

-- Texts of which neither is before the other are equal.
before_total : (s t : String) → before s t ≡ false → before t s ≡ false → s ≡ t
unfolding before
before_total String.[] String.[] h k = refl
before_total String.[] (String.◌∷◌ d t) h k = cc
before_total (String.◌∷◌ c s) String.[] h k = cc
before_total (String.◌∷◌ c s) (String.◌∷◌ d t) h k =
    let same : c ≡ d =
      Char-path c d (code_before_total (code c) (code d) (ground (arith, h)) (ground (arith, k))) in
    ground (arith, h, k, same, before_total s t)

before_asym : (s t : String) → before s t ≡ true → before t s ≡ false
unfolding before
before_asym String.[] t h = refl
before_asym (String.◌∷◌ c s) String.[] h = cc
before_asym (String.◌∷◌ c s) (String.◌∷◌ d t) h = ground (
  arith,
  h,
  code_before_asym (code c) (code d),
  code_before_asym (code d) (code c),
  before_asym s t,
)

before_trans : (s t u : String) → before s t ≡ true → before t u ≡ true → before s u ≡ true
unfolding before
before_trans s String.[] u h k = cc
before_trans s (String.◌∷◌ d t) String.[] h k = cc
before_trans String.[] (String.◌∷◌ d t) (String.◌∷◌ e u) h k = refl
before_trans (String.◌∷◌ c s) (String.◌∷◌ d t) (String.◌∷◌ e u) h k = ground (
  arith,
  h,
  k,
  before_trans s t u,
  code_before_trans (code c) (code d) (code e),
  code_before_asym (code c) (code e),
  code_before_asym (code c) (code d),
  code_before_asym (code d) (code e),
  code_before_total (code c) (code d),
  code_before_total (code d) (code e),
)

-- A text into an ascending list.
unfoldable pub insert : String → List String → List String
insert x [] = x ∷ []
insert x (y ∷ ys) = let rest = insert x ys in if before y x then y ∷ rest else x ∷ y ∷ ys

-- `sort()`
unfoldable pub sort : List String → List String
sort = foldr insert []

insert_comm : (x y : String) (ts : List String) → insert x (insert y ts) ≡ insert y (insert x ts)
unfolding insert
insert_comm x y [] = ground (arith, before_asym x y, before_asym y x, before_total x y)
insert_comm x y (t ∷ ts) = ground (
  arith,
  insert_comm x y ts,
  before_asym x y,
  before_total x y,
  before_asym t y,
  before_asym t x,
  before_total t y,
  before_total t x,
  before_trans t x y,
  before_trans t y x,
  before_trans x t y,
  before_trans y t x,
  before_trans x y t,
  before_trans y x t,
)

String-discrete : Discrete String
String-discrete s t = elim (Bool-cases (s == t)) [
  | inl e ↦ yes ((eq_iff s t).0 e)
  | inr e ↦ no (λ h. ground (arith, e, (eq_iff s t).1 h))
]

-- Sorting forgets the order.
pub sort-perm : {xs ys : List String} → Perm xs ys → sort xs ≡ sort ys
unfolding sort
sort-perm p = Perm.foldr-eq (List.is_set (hedberg String-discrete)) insert insert_comm p []
