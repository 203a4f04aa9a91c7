-- ===== src/Base/Loops.antt =====
-- The three loops that walk a linked list. Each takes fuel for the rounds; the lemmas say what the
-- loop finds on a list that is no longer than the fuel.
use Prim.Native.Nat.{ℕ, zero, suc, ◌≤◌}
use mathlib.Core.Path.{◌≡◌, refl}
use mathlib.Core.Logic.{inl, inr}
use mathlib.Core.Bool.{Bool, true, false, not}
use mathlib.Core.Option.{Option, none, some}
use mathlib.Core.List.{List, [], ◌∷◌}
use native.Mathlib.Omega.{arith}
use vrtos.Base.Tests.{◌==◌, if◌then◌else◌, ==_self, ==_ne, Bool-cases}
use vrtos.Base.Lists.{length, first, last_or, take_while, drop_while, NotIn}
use vrtos.Base.Chains.{Seg, Chain}

-- `while (current != NULL && go(current)) { prev = current; current = current->next; }`
unfoldable pub walk : (ℕ → Bool) → (ℕ → Option ℕ) → ℕ → Option ℕ → Option ℕ → Option ℕ × Option ℕ
walk go nx zero prev current = (prev, current)
walk go nx (suc f) prev none = (prev, none)
walk go nx (suc f) prev (some c) =
    let rest = walk go nx f (some c) (nx c) in if go c then rest else (prev, some c)

-- `while (current->next != NULL) { current = current->next; }`
unfoldable pub find_tail : (ℕ → Option ℕ) → ℕ → ℕ → ℕ
find_tail nx zero c = c
find_tail nx (suc f) c = elim (nx c) [ none ↦ c | some n ↦ find_tail nx f n ]

-- `while (current->next != NULL && !stop(current->next)) { current = current->next; }`
unfoldable pub find_before : (ℕ → Bool) → (ℕ → Option ℕ) → ℕ → ℕ → ℕ
find_before stop nx zero c = c
find_before stop nx (suc f) c = elim (nx c) [
  | none ↦ c
  | some n ↦ elim (stop n) [ true ↦ c | false ↦ find_before stop nx f n ]
]

module _ (nx : ℕ → Option ℕ) where
  pub walk_lem :
      (go : ℕ → Bool) (f : ℕ) (prev p : Option ℕ) (xs : List ℕ)
      → length xs ≤ f
      → Chain nx p xs
      → walk go nx f prev p ≡ (last_or prev (take_while go xs), first (drop_while go xs))
  unfolding walk
  walk_lem go zero prev p [] h s = rw s
  walk_lem go zero prev p (x ∷ xs) h s = absurd (omega arith)
  walk_lem go (suc f) prev p [] h s = rw s
  walk_lem go (suc f) prev p (x ∷ xs) h s = elim (Bool-cases (go x)) [
    | inl e ↦ rw (s.0, e) (walk_lem go f (some x) (nx x) xs (omega arith) s.1)
    | inr e ↦ rw (s.0, e)
  ]

  pub find_tail_lem :
      (f c : ℕ) (xs : List ℕ)
      → length xs ≤ f
      → Chain nx (nx c) xs
      → some (find_tail nx f c) ≡ last_or (some c) xs
  unfolding find_tail
  find_tail_lem zero c [] h s = refl
  find_tail_lem zero c (x ∷ xs) h s = absurd (omega arith)
  find_tail_lem (suc f) c [] h s = rw (s, find_tail)
  find_tail_lem (suc f) c (x ∷ xs) h s =
      rw (s.0, find_tail) (find_tail_lem f x xs (omega arith) s.1)

  -- The node before `t`, where `t` stands behind `xs`.
  pub find_before-member :
      (f c t : ℕ) (xs : List ℕ)
      → length xs ≤ f
      → NotIn t xs
      → Seg nx (nx c) xs (some t)
      → some (find_before (λ n. n == t) nx (suc f) c) ≡ last_or (some c) xs
  unfolding find_before
  find_before-member f c t [] h n s = rw (s, find_before, ==_self t)
  find_before-member zero c t (x ∷ xs) h n s = absurd (omega arith)
  find_before-member (suc f) c t (x ∷ xs) h n s =
      rw (s.0, find_before, ==_ne x t n.0) (find_before-member f x t xs (omega arith) n.1 s.1)

  -- The node behind which a scan from `c` stops, and what stands behind it.
  pub find_before_lem :
      (stop go : ℕ → Bool) (f c : ℕ) (xs : List ℕ)
      → ((x : ℕ) → stop x ≡ not (go x))
      → length xs ≤ f
      → Chain nx (nx c) xs
      → (some (find_before stop nx f c) ≡ last_or (some c) (take_while go xs))
        × (nx (find_before stop nx f c) ≡ first (drop_while go xs))
  unfolding find_before
  find_before_lem stop go zero c [] opposite h s = (refl, s)
  find_before_lem stop go zero c (x ∷ xs) opposite h s = absurd (omega arith)
  find_before_lem stop go (suc f) c [] opposite h s = rw (s, find_before) (refl, s)
  find_before_lem stop go (suc f) c (x ∷ xs) opposite h s = elim (Bool-cases (go x)) [
    | inl e ↦
        rw (s.0, find_before, opposite x, e)
          (find_before_lem stop go f x xs opposite (omega arith) s.1)
    | inr e ↦ rw (s.0, find_before, opposite x, e) (refl, s.0)
  ]
