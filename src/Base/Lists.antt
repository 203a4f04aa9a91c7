-- ===== src/Base/Lists.antt =====
-- Lists of addresses: length, membership, distinctness, and the bound on distinct small addresses.
use Prim.Native.Nat.{ℕ, zero, suc, ◌+◌, ◌≤◌, ◌<◌}
use mathlib.Core.Path.{◌≡◌, refl}
use mathlib.Core.Logic.{◌≢◌, inl, inr}
use mathlib.Core.Bool.{Bool, true, false}
use mathlib.Core.Option.{Option, none, some}
use mathlib.Core.List.{List, [], ◌∷◌, ◌++◌}
use native.Mathlib.Omega.{arith}
use vrtos.Base.Tests.{◌==◌, if◌then◌else◌, Bool-cases}

module _ {ℓ} {A : Type ℓ} where
  abbrev pub length : List A → ℕ
  length [] = 0
  length (_ ∷ xs) = suc (length xs)

  pub length-append : (xs ys : List A) → length (xs ++ ys) ≡ length xs + length ys
  length-append [] ys = omega arith
  length-append (x ∷ xs) ys = omega (arith, length-append xs ys)

  -- The first of a list, and its last element or the address before the list.
  abbrev pub first : List A → Option A
  first [] = none
  first (x ∷ _) = some x

  abbrev pub last_or : Option A → List A → Option A
  last_or p [] = p
  last_or p (x ∷ xs) = last_or (some x) xs

  abbrev pub take_while : (A → Bool) → List A → List A
  take_while p [] = []
  take_while p (x ∷ xs) = if p x then x ∷ take_while p xs else []

  abbrev pub drop_while : (A → Bool) → List A → List A
  drop_while p [] = []
  drop_while p (x ∷ xs) = if p x then drop_while p xs else x ∷ xs

  pub take_while-drop_while : (p : A → Bool) (xs : List A) → take_while p xs ++ drop_while p xs ≡ xs
  take_while-drop_while p [] = refl
  take_while-drop_while p (x ∷ xs) = ground (arith, take_while-drop_while p xs)

abbrev pub All {ℓ κ} : {A : Type ℓ} → (A → Type κ) → List A → Type κ
All P [] = Unit
All P (x ∷ xs) = P x × All P xs

module _ {ℓ κ} {A : Type ℓ} (P : A → Type κ) where
  pub All-append : (xs ys : List A) → All P xs → All P ys → All P (xs ++ ys)
  All-append [] ys hx hy = hy
  All-append (x ∷ xs) ys hx hy = (hx.0, All-append xs ys hx.1 hy)

  pub All-left : (xs ys : List A) → All P (xs ++ ys) → All P xs
  All-left [] ys h = tt
  All-left (x ∷ xs) ys h = (h.0, All-left xs ys h.1)

  pub All-right : (xs ys : List A) → All P (xs ++ ys) → All P ys
  All-right [] ys h = h
  All-right (x ∷ xs) ys h = All-right xs ys h.1

pub All-map {ℓ κ μ} :
    {A : Type ℓ} (P : A → Type κ) (Q : A → Type μ) (xs : List A)
    → ((x : A) → P x → Q x)
    → All P xs
    → All Q xs
All-map P Q [] f h = tt
All-map P Q (x ∷ xs) f h = (f x h.0, All-map P Q xs f h.1)

-- `t` does not stand in the list; no address stands in it twice.
abbrev pub NotIn : ℕ → List ℕ → Type 0
NotIn t xs = All (λ x. x ≢ t) xs

abbrev pub IsDistinct : List ℕ → Type 0
IsDistinct [] = Unit
IsDistinct (x ∷ xs) = NotIn x xs × IsDistinct xs

pub IsDistinct-left : (xs ys : List ℕ) → IsDistinct (xs ++ ys) → IsDistinct xs
IsDistinct-left [] ys d = tt
IsDistinct-left (x ∷ xs) ys d = (All-left (λ y. y ≢ x) xs ys d.0, IsDistinct-left xs ys d.1)

pub IsDistinct-right : (xs ys : List ℕ) → IsDistinct (xs ++ ys) → IsDistinct ys
IsDistinct-right [] ys d = d
IsDistinct-right (x ∷ xs) ys d = IsDistinct-right xs ys d.1

pub IsDistinct-insert :
    (t : ℕ) (xs ys : List ℕ)
    → NotIn t (xs ++ ys)
    → IsDistinct (xs ++ ys)
    → IsDistinct (xs ++ t ∷ ys)
IsDistinct-insert t [] ys n d = (n, d)
IsDistinct-insert t (x ∷ xs) ys n d = (
  All-append (λ y. y ≢ x) xs (t ∷ ys) (All-left (λ y. y ≢ x) xs ys d.0)
      ((λ e. n.0 (λ i. e₂ e i)), All-right (λ y. y ≢ x) xs ys d.0),
  IsDistinct-insert t xs ys n.1 d.1,
)
  where
    e₂ : t ≡ x → x ≡ t
    e₂ e = omega arith

pub IsDistinct-remove :
    (t : ℕ) (xs ys : List ℕ)
    → IsDistinct (xs ++ t ∷ ys)
    → NotIn t (xs ++ ys) × IsDistinct (xs ++ ys)
IsDistinct-remove t [] ys d = d
IsDistinct-remove t (x ∷ xs) ys d =
    let rest = IsDistinct-remove t xs ys d.1 in
    let far = All-right (λ y. y ≢ x) xs (t ∷ ys) d.0 in
    (
      ((λ e. far.0 (omega arith)), rest.0),
      (All-append (λ y. y ≢ x) xs ys (All-left (λ y. y ≢ x) xs (t ∷ ys) d.0) far.1, rest.1),
    )

-- Distinct addresses below `n` are at most `n`.
erase : ℕ → List ℕ → List ℕ
erase t [] = []
erase t (x ∷ xs) = if x == t then xs else x ∷ erase t xs

length-erase : (t : ℕ) (xs : List ℕ) → length xs ≤ suc (length (erase t xs))
unfolding erase
length-erase t [] = omega arith
length-erase t (x ∷ xs) = ground (arith, length-erase t xs)

erase-All {κ} : (P : ℕ → Type κ) (t : ℕ) (xs : List ℕ) → All P xs → All P (erase t xs)
unfolding erase
erase-All P t [] h = tt
erase-All P t (x ∷ xs) h = elim (x == t) as (λ b. All P (if b then xs else x ∷ erase t xs)) [
  | true ↦ h.1
  | false ↦ (h.0, erase-All P t xs h.1)
]

erase-IsDistinct : (t : ℕ) (xs : List ℕ) → IsDistinct xs → IsDistinct (erase t xs)
unfolding erase
erase-IsDistinct t [] h = tt
erase-IsDistinct t (x ∷ xs) h =
    elim (x == t) as (λ b. IsDistinct (if b then xs else x ∷ erase t xs)) [
      | true ↦ h.1
      | false ↦ (erase-All (λ y. y ≢ x) t xs h.0, erase-IsDistinct t xs h.1)
    ]

erase-below :
    (n : ℕ) (xs : List ℕ) → All (λ x. x < suc n) xs → IsDistinct xs → All (λ x. x < n) (erase n xs)
unfolding erase
erase-below n [] h d = tt
erase-below n (x ∷ xs) h d = elim (Bool-cases (x == n)) [
  | inl e ↦ rw e (below_rest n x xs (ground arith) h.1 d.0)
  | inr e ↦ rw e ((ground arith), erase-below n xs h.1 d.1)
]
  where
    below_rest :
        (n x : ℕ) (ys : List ℕ) → x ≡ n → All (λ y. y < suc n) ys → NotIn x ys → All (λ y. y < n) ys
    below_rest n x [] e h d = tt
    below_rest n x (y ∷ ys) e h d = (omega arith, below_rest n x ys e h.1 d.1)

pub length-le_of_distinct :
    (n : ℕ) (xs : List ℕ) → All (λ x. x < n) xs → IsDistinct xs → length xs ≤ n
length-le_of_distinct zero [] h d = omega arith
length-le_of_distinct zero (x ∷ xs) h d = absurd (omega arith)
length-le_of_distinct (suc n) xs h d = omega (
  arith,
  length-erase n xs,
  length-le_of_distinct n (erase n xs) (erase-below n xs h d) (erase-IsDistinct n xs d),
)
