-- ===== src/Base/Chains.antt =====
-- Linked lists through a link field, `nx`: an address is mapped to the link that it holds.
-- `Seg nx p xs q` says that from `p` the links go through the addresses `xs` and come to `q`;
-- `Back pv p xs` that the reverse links of `xs` go back, the first one to `p`.
use Prim.Native.Nat.{ℕ}
use mathlib.Core.Path.{◌≡◌, refl, ◌∙◌}
use mathlib.Core.Bool.{false}
use mathlib.Core.Option.{Option, none, some}
use mathlib.Core.List.{List, [], ◌∷◌, ◌++◌}
use vrtos.Base.Tests.{update, update_ne, is_null}
use vrtos.Base.Lists.{first, last_or, All, NotIn}

abbrev pub Seg : (ℕ → Option ℕ) → Option ℕ → List ℕ → Option ℕ → Type 0
Seg nx p [] q = p ≡ q
Seg nx p (x ∷ xs) q = (p ≡ some x) × Seg nx (nx x) xs q

abbrev pub Back : (ℕ → Option ℕ) → Option ℕ → List ℕ → Type 0
Back pv p [] = Unit
Back pv p (x ∷ xs) = (pv x ≡ p) × Back pv (some x) xs

-- A list that ends in NULL.
abbrev pub Chain : (ℕ → Option ℕ) → Option ℕ → List ℕ → Type 0
Chain nx p xs = Seg nx p xs none

pub Seg-frame :
    (nx nx' : ℕ → Option ℕ) (p q : Option ℕ) (xs : List ℕ)
    → All (λ x. nx' x ≡ nx x) xs
    → Seg nx p xs q
    → Seg nx' p xs q
Seg-frame nx nx' p q [] a s = s
Seg-frame nx nx' p q (x ∷ xs) a s = (s.0, rw a.0 (Seg-frame nx nx' (nx x) q xs a.1 s.1))

pub Back-frame :
    (pv pv' : ℕ → Option ℕ) (p : Option ℕ) (xs : List ℕ)
    → All (λ x. pv' x ≡ pv x) xs
    → Back pv p xs
    → Back pv' p xs
Back-frame pv pv' p [] a s = tt
Back-frame pv pv' p (x ∷ xs) a s = (a.0 ∙ s.0, Back-frame pv pv' (some x) xs a.1 s.1)

-- A write outside the list leaves it.
pub update-All :
    {A : Type 0} (f : ℕ → A) (t : ℕ) (v : A) (xs : List ℕ)
    → NotIn t xs
    → All (λ x. update f t v x ≡ f x) xs
update-All f t v [] n = tt
update-All f t v (x ∷ xs) n = (update_ne f t x v n.0, update-All f t v xs n.1)

pub Seg-update :
    (nx : ℕ → Option ℕ) (t : ℕ) (v p q : Option ℕ) (xs : List ℕ)
    → NotIn t xs
    → Seg nx p xs q
    → Seg (update nx t v) p xs q
Seg-update nx t v p q xs n = Seg-frame nx (update nx t v) p q xs (update-All nx t v xs n)

pub Back-update :
    (pv : ℕ → Option ℕ) (t : ℕ) (v p : Option ℕ) (xs : List ℕ)
    → NotIn t xs
    → Back pv p xs
    → Back (update pv t v) p xs
Back-update pv t v p xs n = Back-frame pv (update pv t v) p xs (update-All pv t v xs n)

pub Seg-append :
    (nx : ℕ → Option ℕ) (p q r : Option ℕ) (xs ys : List ℕ)
    → Seg nx p xs q
    → Seg nx q ys r
    → Seg nx p (xs ++ ys) r
Seg-append nx p q r [] ys s t = rw s t
Seg-append nx p q r (x ∷ xs) ys s t = (s.0, Seg-append nx (nx x) q r xs ys s.1 t)

-- Where a list splits, its first part ends at the head of the second.
pub Chain-split :
    (nx : ℕ → Option ℕ) (p : Option ℕ) (xs ys : List ℕ)
    → Chain nx p (xs ++ ys)
    → Seg nx p xs (first ys) × Chain nx (first ys) ys
Chain-split nx p [] [] s = (s, refl)
Chain-split nx p [] (y ∷ ys) s = (s.0, (refl, s.1))
Chain-split nx p (x ∷ xs) ys s =
    let rest = Chain-split nx (nx x) xs ys s.1 in ((s.0, rest.0), rest.1)

pub Back-split :
    (pv : ℕ → Option ℕ) (p : Option ℕ) (xs ys : List ℕ)
    → Back pv p (xs ++ ys)
    → Back pv p xs × Back pv (last_or p xs) ys
Back-split pv p [] ys s = (tt, s)
Back-split pv p (x ∷ xs) ys s =
    let rest = Back-split pv (some x) xs ys s.1 in ((s.0, rest.0), rest.1)

pub Back-append :
    (pv : ℕ → Option ℕ) (p : Option ℕ) (xs ys : List ℕ)
    → Back pv p xs
    → Back pv (last_or p xs) ys
    → Back pv p (xs ++ ys)
Back-append pv p [] ys s t = t
Back-append pv p (x ∷ xs) ys s t = (s.0, Back-append pv (some x) xs ys s.1 t)

-- The head of a chain.
pub Chain-head : (nx : ℕ → Option ℕ) (p : Option ℕ) (xs : List ℕ) → Chain nx p xs → p ≡ first xs
Chain-head nx p [] s = s
Chain-head nx p (x ∷ xs) s = s.0

-- What a member's own links hold.
pub Chain-next :
    (nx : ℕ → Option ℕ) (p : Option ℕ) (t : ℕ) (xs ys : List ℕ)
    → Chain nx p (xs ++ t ∷ ys)
    → nx t ≡ first ys
Chain-next nx p t xs ys c = Chain-head nx (nx t) ys (Chain-split nx p xs (t ∷ ys) c).1.1

pub Back-prev :
    (pv : ℕ → Option ℕ) (t : ℕ) (xs ys : List ℕ)
    → Back pv none (xs ++ t ∷ ys)
    → pv t ≡ last_or none xs
Back-prev pv t xs ys b = (Back-split pv none xs (t ∷ ys) b).1.0

pub last_or-some : (x : ℕ) (xs : List ℕ) → is_null (last_or (some x) xs) ≡ false
last_or-some x [] = refl
last_or-some x (y ∷ ys) = last_or-some y ys
