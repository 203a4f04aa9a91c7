-- ===== src/Base/Members.antt =====
-- Whether an address stands in a list of addresses.
use Prim.Native.Nat.{ℕ}
use mathlib.Core.Path.{◌≡◌, refl, ap}
use mathlib.Core.Bool.{Bool, true, false, ◌||◌}
use mathlib.Core.List.{List, [], ◌∷◌, ◌++◌}
use native.Mathlib.Omega.{arith}
use vrtos.Base.Tests.{◌==◌, ==-eq, Bool-cases}
use vrtos.Base.Lists.{All}
use mathlib.Core.Logic.{inl, inr}

abbrev pub elem : ℕ → List ℕ → Bool
elem t [] = false
elem t (x ∷ xs) = t == x || elem t xs

pub elem-append : (t : ℕ) (xs ys : List ℕ) → elem t (xs ++ ys) ≡ (elem t xs || elem t ys)
elem-append t [] ys = refl
elem-append t (x ∷ xs) ys = ground (arith, elem-append t xs ys)

-- What stands in a part stands in the whole.
pub elem-left : (t : ℕ) (xs ys : List ℕ) → elem t xs ≡ true → elem t (xs ++ ys) ≡ true
elem-left t xs ys h = ground (arith, elem-append t xs ys)

pub elem-last : (t : ℕ) (xs : List ℕ) → elem t (xs ++ t ∷ []) ≡ true
elem-last t xs = ground (arith, elem-append t xs (t ∷ []))

pub elem-inserted :
    (t x : ℕ) (xs ys : List ℕ) → elem x (xs ++ ys) ≡ true → elem x (xs ++ t ∷ ys) ≡ true
elem-inserted t x xs ys h = ground (arith, elem-append x xs ys, elem-append x xs (t ∷ ys))

pub elem-middle : (t : ℕ) (xs ys : List ℕ) → elem t (xs ++ t ∷ ys) ≡ true
elem-middle t xs ys = ground (arith, elem-append t xs (t ∷ ys))

pub elem_removed :
    (t x : ℕ) (xs ys : List ℕ)
    → (x == t) ≡ false
    → elem x (xs ++ t ∷ ys) ≡ true
    → elem x (xs ++ ys) ≡ true
elem_removed t x xs ys ne h = ground (arith, elem-append x xs ys, elem-append x xs (t ∷ ys))

pub elem-nil : (t : ℕ) (xs : List ℕ) → xs ≡ [] → elem t xs ≡ true → ⊥
elem-nil t [] e h = cc
elem-nil t (x ∷ xs) e h = cc

-- The list around an address that stands in it.
pub elem-split :
    (t : ℕ) (xs : List ℕ)
    → elem t xs ≡ true
    → (before : List ℕ) × (after : List ℕ) × (xs ≡ before ++ t ∷ after)
elem-split t [] h = cc
elem-split t (x ∷ xs) h = elim (Bool-cases (t == x)) [
  | inl e ↦ ([], xs, rw (==-eq t x e) refl)
  | inr e ↦
      let (before, after, eq) = elem-split t xs (ground arith) in
      (x ∷ before, after, ap (λ ys. x ∷ ys) eq)
]

-- What holds of all holds of each.
pub All-elem {κ} : (P : ℕ → Type κ) (t : ℕ) (xs : List ℕ) → All P xs → elem t xs ≡ true → P t
All-elem P t [] a h = cc
All-elem P t (x ∷ xs) a h = elim (Bool-cases (t == x)) [
  | inl e ↦ rw (==-eq t x e) a.0
  | inr e ↦ All-elem P t xs a.1 (ground arith)
]
