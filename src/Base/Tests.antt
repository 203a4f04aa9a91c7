-- ===== src/Base/Tests.antt =====
-- Boolean tests on native numbers, on pointers (`none` is NULL), and the conditional.
use Prim.Native.Nat.{ℕ, ◌≤◌, ◌<◌, compare, Ordering}
use mathlib.Core.Path.{◌≡◌, refl, sym, ap, fun_ext}
use mathlib.Core.Logic.{◌≢◌, ◌⊎◌, inl, inr}
use mathlib.Core.Bool.{Bool, true, false}
use mathlib.Core.Option.{Option, none, some}
use native.Mathlib.Omega.{arith}

abbrev pub ltb : ℕ → ℕ → Bool
ltb a b = elim (compare a b) [ Ordering.lt ↦ true | _ ↦ false ]

abbrev pub leb : ℕ → ℕ → Bool
leb a b = elim (compare a b) [ Ordering.gt ↦ false | _ ↦ true ]

infix 50 ◌==◌
abbrev pub ◌==◌ : ℕ → ℕ → Bool
a == b = elim (compare a b) [ Ordering.eq ↦ true | _ ↦ false ]

infix 1 if◌then◌else◌
abbrev pub if◌then◌else◌ {ℓ} : {A : Type ℓ} → Bool → A → A → A
if true then x else y = x
if false then x else y = y

-- `p == t` for a pointer that may be NULL and an address.
infix 50 ◌==?◌
abbrev pub ◌==?◌ : Option ℕ → ℕ → Bool
none ==? t = false
some n ==? t = n == t

abbrev pub is_null {ℓ} : {A : Type ℓ} → Option A → Bool
is_null none = true
is_null (some _) = false

-- `f(x)` followed by `g(x)`: the state goes through the calls in order.
infixl 5 ◌▷◌
abbrev pub ◌▷◌ {ℓ κ} : {A : Type ℓ} {B : Type κ} → A → (A → B) → B
a ▷ f = f a

-- `p->field = v` for one field of a pool of structures, which maps addresses to values.
abbrev pub update {ℓ} : {A : Type ℓ} → (ℕ → A) → ℕ → A → ℕ → A
update f i v j = if j == i then v else f j

-- The same through a pointer that is skipped when it is NULL.
abbrev pub update? {ℓ} : {A : Type ℓ} → (ℕ → A) → Option ℕ → A → ℕ → A
update? f none v = f
update? f (some i) v = update f i v

pub update_self {ℓ} : {A : Type ℓ} (f : ℕ → A) (i : ℕ) (v : A) → update f i v i ≡ v
update_self f i v = ground arith

pub update_ne {ℓ} : {A : Type ℓ} (f : ℕ → A) (i j : ℕ) (v : A) → j ≢ i → update f i v j ≡ f j
update_ne f i j v h = ground arith

pub ==-eq : (a b : ℕ) → (a == b) ≡ true → a ≡ b
==-eq a b h = ground arith

pub ==_self : (a : ℕ) → (a == a) ≡ true
==_self a = ground arith

pub ==_ne : (a b : ℕ) → a ≢ b → (a == b) ≡ false
==_ne a b h = ground arith

pub leb→le : (a b : ℕ) → leb a b ≡ true → a ≤ b
leb→le a b h = ground arith

pub lt_of_leb : (a b : ℕ) → leb a b ≡ false → b < a
lt_of_leb a b h = ground arith

pub Bool-cases : (b : Bool) → (b ≡ true) ⊎ (b ≡ false)
Bool-cases true = inl refl
Bool-cases false = inr refl

pub Option-cases {ℓ} : {A : Type ℓ} (o : Option A) → (o ≡ none) ⊎ ((a : A) × (o ≡ some a))
Option-cases none = inl refl
Option-cases (some a) = inr (a, refl)

-- A property of two pools that are written at the same address.
pub update-both {ℓ κ μ} :
    {A : Type ℓ} {B : Type κ} (P : ℕ → A → B → Type μ) (f : ℕ → A) (g : ℕ → B) (i j : ℕ) (a : A)
    (b : B)
    → P i a b
    → (j ≢ i → P j (f j) (g j))
    → P j (update f i a j) (update g i b j)
update-both P f g i j a b at elsewhere = elim (Bool-cases (j == i)) [
  | inl e ↦ rw e (rw (==-eq j i e) at)
  | inr e ↦ rw e (elsewhere (λ eq. differ eq e))
]
  where
    differ : j ≡ i → (j == i) ≡ false → ⊥
    differ eq e = ground arith

-- A second write to the same field replaces the first.
pub update-update {ℓ} :
    {A : Type ℓ} (f : ℕ → A) (i : ℕ) (a b : A) → update (update f i a) i b ≡ update f i b
update-update f i a b = fun_ext (λ j. ground arith)

pub update-get {ℓ} : {A : Type ℓ} (f : ℕ → A) (i : ℕ) → update f i (f i) ≡ f
update-get f i = fun_ext (λ j. kept j (Bool-cases (j == i)))
  where
    kept : (j : ℕ) → ((j == i) ≡ true) ⊎ ((j == i) ≡ false) → update f i (f i) j ≡ f j
    kept j (inl e) = rw e (ap f (sym (==-eq j i e)))
    kept j (inr e) = rw e

pub update_same {ℓ} : {A : Type ℓ} (f : ℕ → A) (i : ℕ) (v : A) → f i ≡ v → update f i v ≡ f
update_same f i v e = rw (← e) (update-get f i)
