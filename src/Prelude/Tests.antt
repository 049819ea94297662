-- ===== src/Prelude/Tests.antt =====
-- Boolean tests and case splits on computed values.
use Prim.Native.Nat.{ℕ, compare, Ordering}
use Prim.Native.String
use Prim.Native.String.{String}
use mathlib.Core.Path.{◌≡◌, refl}
use mathlib.Core.Logic.{◌⊎◌, inl, inr}
use mathlib.Core.Bool.{Bool, true, false}
use mathlib.Core.Option.{Option, none, some}
use text.Mathlib.Text.{◌==◌, find?}

infix 1 if◌then◌else◌
abbrev pub if◌then◌else◌ {ℓ} : {A : Type ℓ} → Bool → A → A → A
if true then x else y = x
if false then x else y = y

abbrev pub ltb : ℕ → ℕ → Bool
ltb a b = elim (compare a b) [ Ordering.lt ↦ true | _ ↦ false ]

abbrev pub leb : ℕ → ℕ → Bool
leb a b = elim (compare a b) [ Ordering.gt ↦ false | _ ↦ true ]

abbrev pub nat_eq : ℕ → ℕ → Bool
nat_eq a b = elim (compare a b) [ Ordering.eq ↦ true | _ ↦ false ]

infixr 66 ◌<+>◌
-- `${s}${t}`
abbrev pub ◌<+>◌ : String → String → String
s <+> t = String.◌++◌ s t

-- JavaScript's truth of an optional text: `undefined` and the empty text are false.
abbrev pub is_truthy : Option String → Bool
is_truthy none = false
is_truthy (some String.[]) = false
is_truthy (some (String.◌∷◌ c s)) = true

-- `x || d` for an optional text.
abbrev pub truthy_or : Option String → String → String
truthy_or none d = d
truthy_or (some String.[]) d = d
truthy_or (some (String.◌∷◌ c s)) d = String.◌∷◌ c s

pub truthy_or-some : (s d : String) → is_truthy (some s) ≡ true → truthy_or (some s) d ≡ s
truthy_or-some String.[] d h = cc
truthy_or-some (String.◌∷◌ c s) d h = refl

-- `x || y` for two optional texts.
abbrev pub or_text : Option String → Option String → Option String
or_text x y = if is_truthy x then x else y

-- `x === y` for optional texts.
abbrev pub opt_eq : Option String → Option String → Bool
opt_eq none none = true
opt_eq none (some t) = false
opt_eq (some s) none = false
opt_eq (some s) (some t) = s == t

-- The default of a parameter.
abbrev pub value_or {ℓ} : {A : Type ℓ} → Option A → A → A
value_or none d = d
value_or (some a) d = a

-- `s.includes(t)`
unfoldable pub includes : String → String → Bool
includes s t = elim (find? s t) [ none ↦ false | some i ↦ true ]

pub Bool-cases : (b : Bool) → (b ≡ true) ⊎ (b ≡ false)
Bool-cases true = inl refl
Bool-cases false = inr refl

pub Option-cases {ℓ} : {A : Type ℓ} (o : Option A) → (o ≡ none) ⊎ ((a : A) × (o ≡ some a))
Option-cases none = inl refl
Option-cases (some a) = inr (a, refl)
