-- ===== src/Base/Lists.antt =====
-- Lists measured, indexed and searched by native numbers, and finite maps as functions.
use Prim.Native.Nat.{ℕ, zero, suc, ◌+◌}
use mathlib.Core.Path.{ap, ◌≡◌, refl}
use mathlib.Core.Logic.{◌≢◌, inl, inr}
use mathlib.Core.Bool.{Bool, true, false, ◌||◌}
use mathlib.Core.List.{List, [], ◌∷◌, ◌++◌}
use mathlib.Core.Option.{Option, none, some}
use native.Mathlib.Omega.{arith}
use spring_os.Base.Tests.{◌==◌, Bool-cases, if◌then◌else◌}

module _ {ℓ} {A : Type ℓ} where
  abbrev pub length : List A → ℕ
  length [] = 0
  length (x ∷ xs) = suc (length xs)

  abbrev pub get_elem? : List A → ℕ → Option A
  get_elem? [] i = none
  get_elem? (x ∷ xs) zero = some x
  get_elem? (x ∷ xs) (suc i) = get_elem? xs i

  pub length-append : (xs ys : List A) → length (xs ++ ys) ≡ length xs + length ys
  length-append [] ys = omega arith
  length-append (x ∷ xs) ys = omega (arith, length-append xs ys)

  -- A finite map as a function, with one entry replaced.
  abbrev pub update : (ℕ → A) → ℕ → A → ℕ → A
  update f i a j = if j == i then a else f j

-- Whether a number stands in a list.
abbrev pub has : ℕ → List ℕ → Bool
has a [] = false
has a (x ∷ xs) = (a == x) || has a xs

-- The list without the first occurrence of a number.
abbrev pub erase : ℕ → List ℕ → List ℕ
erase a [] = []
erase a (x ∷ xs) = if a == x then xs else x ∷ erase a xs

-- No number stands twice.
abbrev pub Distinct : List ℕ → Type 0
Distinct [] = Unit
Distinct (x ∷ xs) = (has x xs ≡ false) × Distinct xs

pub has-append : (a : ℕ) (xs ys : List ℕ) → has a (xs ++ ys) ≡ (has a xs || has a ys)
has-append a [] ys = refl
has-append a (x ∷ xs) ys = ground (arith, has-append a xs ys)

pub has-erase_ne : (a b : ℕ) (xs : List ℕ) → a ≢ b → has a (erase b xs) ≡ has a xs
has-erase_ne a b [] h = refl
has-erase_ne a b (x ∷ xs) h = ground (arith, has-erase_ne a b xs)

pub has-erase_self : (a : ℕ) (xs : List ℕ) → Distinct xs → has a (erase a xs) ≡ false
has-erase_self a [] d = refl
has-erase_self a (x ∷ xs) d = ground (arith, has-erase_self a xs d.1)

pub Distinct-erase : (b : ℕ) (xs : List ℕ) → Distinct xs → Distinct (erase b xs)
Distinct-erase b [] d = tt
Distinct-erase b (x ∷ xs) d = elim (Bool-cases (b == x)) [
  | inl same ↦ rw same d.1
  | inr other ↦ rw other (ground (arith, has-erase_ne x b xs), Distinct-erase b xs d.1)
]

pub Distinct-snoc : (b : ℕ) (xs : List ℕ) → Distinct xs → has b xs ≡ false → Distinct (xs ++ b ∷ [])
Distinct-snoc b [] d h = (refl, tt)
Distinct-snoc b (x ∷ xs) d h =
    (ground (arith, has-append x xs (b ∷ [])), Distinct-snoc b xs d.1 (ground arith))

pub erase-snoc : (b : ℕ) (xs : List ℕ) → has b xs ≡ false → erase b (xs ++ b ∷ []) ≡ xs
erase-snoc b [] h = ground arith
erase-snoc b (x ∷ xs) h = ground (arith, erase-snoc b xs)

pub length-erase : (b : ℕ) (xs : List ℕ) → has b xs ≡ true → length xs ≡ suc (length (erase b xs))
length-erase b [] h = ground arith
length-erase b (x ∷ xs) h = ground (arith, length-erase b xs)

pub append-nil : (xs : List ℕ) → xs ++ [] ≡ xs
append-nil [] = refl
append-nil (x ∷ xs) = ap (λ l. x ∷ l) (append-nil xs)
