-- ===== src/Base/Sorted.antt =====
-- Lists in the order of a relation, and insertion at the place that a scan finds.
use Prim.Native.Nat.{ℕ}
use mathlib.Core.Path.{◌≡◌}
use mathlib.Core.Logic.{inl, inr}
use mathlib.Core.Bool.{Bool, true, false}
use mathlib.Core.List.{List, [], ◌∷◌, ◌++◌}
use native.Mathlib.Omega.{arith}
use vrtos.Base.Tests.{Bool-cases}
use vrtos.Base.Lists.{All, All-map, All-append, All-left, All-right, take_while, drop_while}

-- Every element is related to all that stand behind it.
abbrev pub IsSorted : (ℕ → ℕ → Type 0) → List ℕ → Type 0
IsSorted R [] = Unit
IsSorted R (x ∷ xs) = All (R x) xs × IsSorted R xs

-- The order by a value that two functions agree on.
pub IsSorted-agree :
    (R : ℕ → ℕ → Type 0) (f g : ℕ → ℕ) (xs : List ℕ)
    → All (λ x. f x ≡ g x) xs
    → IsSorted (λ x y. R (g x) (g y)) xs
    → IsSorted (λ x y. R (f x) (f y)) xs
IsSorted-agree R f g [] e s = tt
IsSorted-agree R f g (x ∷ xs) e s = (agree xs e.1 s.0, IsSorted-agree R f g xs e.1 s.1)
  where
    agree :
        (ys : List ℕ)
        → All (λ y. f y ≡ g y) ys
        → All (λ y. R (g x) (g y)) ys
        → All (λ y. R (f x) (f y)) ys
    agree [] a b = tt
    agree (y ∷ ys) a b = (rw (e.0, a.0) b.0, agree ys a.1 b.1)

pub take_while-All : (go : ℕ → Bool) (xs : List ℕ) → All (λ x. go x ≡ true) (take_while go xs)
take_while-All go [] = tt
take_while-All go (x ∷ xs) = elim (Bool-cases (go x)) [
  | inl e ↦ rw e (e, take_while-All go xs)
  | inr e ↦ rw e tt
]

module _ (P : ℕ → Type 0) (go : ℕ → Bool) where
  pub All-take_while : (xs : List ℕ) → All P xs → All P (take_while go xs)
  All-take_while [] a = tt
  All-take_while (x ∷ xs) a = elim (Bool-cases (go x)) [
    | inl e ↦ rw e (a.0, All-take_while xs a.1)
    | inr e ↦ rw e tt
  ]

  pub All-drop_while : (xs : List ℕ) → All P xs → All P (drop_while go xs)
  All-drop_while [] a = tt
  All-drop_while (x ∷ xs) a = elim (Bool-cases (go x)) [
    | inl e ↦ rw e (All-drop_while xs a.1)
    | inr e ↦ rw e a
  ]

module _ (R : ℕ → ℕ → Type 0) where
  pub IsSorted-middle :
      (t : ℕ) (xs ys : List ℕ)
      → IsSorted R (xs ++ ys)
      → All (λ x. R x t) xs
      → All (R t) ys
      → IsSorted R (xs ++ t ∷ ys)
  IsSorted-middle t [] ys s a b = (b, s)
  IsSorted-middle t (x ∷ xs) ys s a b = (
    All-append (R x) xs (t ∷ ys) (All-left (R x) xs ys s.0) (a.0, All-right (R x) xs ys s.0),
    IsSorted-middle t xs ys s.1 a.1 b,
  )

  pub IsSorted-remove : (t : ℕ) (xs ys : List ℕ) → IsSorted R (xs ++ t ∷ ys) → IsSorted R (xs ++ ys)
  IsSorted-remove t [] ys s = s.1
  IsSorted-remove t (x ∷ xs) ys s = (
    All-append (R x) xs ys (All-left (R x) xs (t ∷ ys) s.0) (All-right (R x) xs (t ∷ ys) s.0).1,
    IsSorted-remove t xs ys s.1,
  )

  -- The scan passes what may stand before `t` and stops at what must stand behind it.
  module _ (t : ℕ) (go : ℕ → Bool) (stop : (c : ℕ) → go c ≡ false → R t c)
      (trans : (c d : ℕ) → R t c → R c d → R t d) where
    drop_while-behind : (xs : List ℕ) → IsSorted R xs → All (R t) (drop_while go xs)
    drop_while-behind [] s = tt
    drop_while-behind (x ∷ xs) s = elim (Bool-cases (go x)) [
      | inl e ↦ rw e (drop_while-behind xs s.1)
      | inr e ↦ rw e (stop x e, All-map (R x) (R t) xs (λ d r. trans x d (stop x e) r) s.0)
    ]

    pub IsSorted-insert :
        (xs : List ℕ)
        → ((c : ℕ) → go c ≡ true → R c t)
        → IsSorted R (take_while go xs ++ drop_while go xs)
        → IsSorted R xs
        → IsSorted R (take_while go xs ++ t ∷ drop_while go xs)
    IsSorted-insert xs pass parts s =
        IsSorted-middle t (take_while go xs) (drop_while go xs) parts
          (All-map (λ x. go x ≡ true) (λ x. R x t) (take_while go xs) pass (take_while-All go xs))
          (drop_while-behind xs s)

-- Two tests that agree on a list find the same place in it.
pub take_while-agree :
    (go go' : ℕ → Bool) (xs : List ℕ)
    → All (λ x. go x ≡ go' x) xs
    → (take_while go xs ≡ take_while go' xs) × (drop_while go xs ≡ drop_while go' xs)
take_while-agree go go' [] a = ground arith
take_while-agree go go' (x ∷ xs) a = ground (arith, a.0, take_while-agree go go' xs a.1)
