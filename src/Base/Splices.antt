-- ===== src/Base/Splices.antt =====
-- A node put into a linked list, or taken out of it, in the words of Base/Chains.antt.
use Prim.Native.Nat.{ℕ}
use mathlib.Core.Path.{◌≡◌, refl, sym, ◌∙◌}
use mathlib.Core.Logic.{◌≢◌}
use mathlib.Core.Option.{Option, none, some}
use mathlib.Core.List.{List, [], ◌∷◌, ◌++◌}
use vrtos.Base.Tests.{if◌then◌else◌, update, update?, update_self, update_ne, is_null}
use vrtos.Base.Lists.{
  first, last_or, All, All-map, NotIn, IsDistinct, All-left, All-right, IsDistinct-left,
  IsDistinct-right, IsDistinct-remove,
}
use vrtos.Base.Chains.{
  Seg, Back, Chain, Seg-frame, Back-frame, Seg-update, Back-update, Seg-append, Chain-split,
  Back-split, Back-append, last_or-some,
}

-- The head pointer of a list after its last link is redirected to `v`: the link of the last node
-- of `xs`, or the head itself when `xs` is empty.
abbrev pub head_to : List ℕ → Option ℕ → Option ℕ → Option ℕ
head_to [] h v = v
head_to (_ ∷ _) h v = h

-- `x` is not the address that the pointer holds.
abbrev pub Other : Option ℕ → ℕ → Type 0
Other none x = Unit
Other (some n) x = x ≢ n

-- A write through the last link of a list does not reach what stands elsewhere.
pub update?_last :
    {A : Type 0} (f : ℕ → A) (p : Option ℕ) (xs : List ℕ) (v : A) (t : ℕ)
    → Other p t
    → NotIn t xs
    → update? f (last_or p xs) v t ≡ f t
update?_last f none [] v t o n = refl
update?_last f (some i) [] v t o n = update_ne f i t v o
update?_last f p (x ∷ xs) v t o n = update?_last f (some x) xs v t (λ e. n.0 (sym e)) n.1

update?_right :
    {A : Type 0} (f : ℕ → A) (p : Option ℕ) (xs ys : List ℕ) (v : A)
    → All (Other p) ys
    → IsDistinct (xs ++ ys)
    → All (λ y. update? f (last_or p xs) v y ≡ f y) ys
update?_right f none [] ys v o d = All-map (Other none) (λ y. f y ≡ f y) ys (λ y _. refl) o
update?_right f (some i) [] ys v o d =
    All-map (Other (some i)) (λ y. update f i v y ≡ f y) ys (λ y. update_ne f i y v) o
update?_right f p (x ∷ xs) ys v o d =
    update?_right f (some x) xs ys v (All-right (λ y. y ≢ x) xs ys d.0) d.1

All-Other-none : (ys : List ℕ) → All (Other none) ys
All-Other-none [] = tt
All-Other-none (y ∷ ys) = (tt, All-Other-none ys)

-- Redirecting the link at the end of a segment.
Seg-redirect :
    (nx : ℕ → Option ℕ) (p q v : Option ℕ) (xs : List ℕ)
    → IsDistinct xs
    → Seg nx p xs q
    → Seg (update? nx (last_or none xs) v) (head_to xs p v) xs v
Seg-redirect nx p q v [] d s = refl
Seg-redirect nx p q v (x ∷ xs) d s = (s.0, go x xs d.0 d.1 s.1)
  where
    go :
        (x : ℕ) (xs : List ℕ)
        → NotIn x xs
        → IsDistinct xs
        → Seg nx (nx x) xs q
        → Seg (update? nx (last_or (some x) xs) v) (update? nx (last_or (some x) xs) v x) xs v
    go x [] n d s = update_self nx x v
    go x (y ∷ ys) n d s =
        (update?_last nx (some y) ys v x (λ e. n.0 (sym e)) n.1 ∙ s.0, go y ys d.0 d.1 s.1)

-- Linking `t` in between `xs` and `ys`: first its own link, then the one before it.
pub Chain-insert :
    (nx : ℕ → Option ℕ) (p : Option ℕ) (t : ℕ) (xs ys : List ℕ)
    → NotIn t (xs ++ ys)
    → IsDistinct (xs ++ ys)
    → Chain nx p (xs ++ ys)
    → Chain
        (update? (update nx t (first ys)) (last_or none xs) (some t))
        (head_to xs p (some t))
        (xs ++ t ∷ ys)
Chain-insert nx p t xs ys n d c =
    Seg-append nx₂ (head_to xs p (some t)) (some t) none xs (t ∷ ys) before (refl, after)
  where
    nx₁ : ℕ → Option ℕ
    nx₁ = update nx t (first ys)

    nx₂ : ℕ → Option ℕ
    nx₂ = update? nx₁ (last_or none xs) (some t)

    halves : Seg nx p xs (first ys) × Chain nx (first ys) ys
    halves = Chain-split nx p xs ys c

    before : Seg nx₂ (head_to xs p (some t)) xs (some t)
    before =
        Seg-redirect nx₁ p (first ys) (some t) xs (IsDistinct-left xs ys d)
          (Seg-update nx t (first ys) p (first ys) xs (All-left (λ x. x ≢ t) xs ys n) halves.0)

    link : nx₂ t ≡ first ys
    link =
        update?_last nx₁ none xs (some t) t tt (All-left (λ x. x ≢ t) xs ys n)
        ∙ update_self nx t (first ys)

    after : Seg nx₂ (nx₂ t) ys none
    after = rw link (
        Seg-frame nx₁ nx₂ (first ys) none ys
          (update?_right nx₁ none xs ys (some t) (All-Other-none ys) d)
          (Seg-update nx t (first ys) (first ys) none ys (All-right (λ x. x ≢ t) xs ys n) halves.1))

-- Unlinking `t`: the link before it takes over its own.
pub Chain-remove :
    (nx : ℕ → Option ℕ) (p : Option ℕ) (t : ℕ) (xs ys : List ℕ)
    → IsDistinct (xs ++ t ∷ ys)
    → Chain nx p (xs ++ t ∷ ys)
    → Chain (update? nx (last_or none xs) (nx t)) (head_to xs p (nx t)) (xs ++ ys)
Chain-remove nx p t xs ys d c =
    Seg-append nx₁ (head_to xs p (nx t)) (nx t) none xs ys
      (Seg-redirect nx p (some t) (nx t) xs (IsDistinct-left xs (t ∷ ys) d) halves.0)
      (Seg-frame nx nx₁ (nx t) none ys
        (update?_right nx none xs (t ∷ ys) (nx t) (All-Other-none (t ∷ ys)) d).1 halves.1.1)
  where
    nx₁ : ℕ → Option ℕ
    nx₁ = update? nx (last_or none xs) (nx t)

    halves : Seg nx p xs (some t) × Chain nx (some t) (t ∷ ys)
    halves = Chain-split nx p xs (t ∷ ys) c

update?-first :
    {A : Type 0} (f : ℕ → A) (xs ys : List ℕ) (v : A)
    → IsDistinct (xs ++ ys)
    → All (λ x. update? f (first ys) v x ≡ f x) xs
update?-first f [] ys v d = tt
update?-first f (x ∷ xs) [] v d = (refl, update?-first f xs [] v d.1)
update?-first f (x ∷ xs) (y ∷ ys) v d = (
  update_ne f y x v (λ e. (All-right (λ z. z ≢ x) xs (y ∷ ys) d.0).0 (sym e)),
  update?-first f xs (y ∷ ys) v d.1,
)

-- The reverse links: `t` goes back to the last of `xs`, and the first of `ys` to `t`.
Back-redirect :
    (pv : ℕ → Option ℕ) (p v : Option ℕ) (ys : List ℕ)
    → IsDistinct ys
    → Back pv p ys
    → Back (update? pv (first ys) v) v ys
Back-redirect pv p v [] d b = tt
Back-redirect pv p v (y ∷ ys) d b = (update_self pv y v, Back-update pv y v (some y) ys d.0 b.1)

pub Back-insert :
    (pv : ℕ → Option ℕ) (t : ℕ) (xs ys : List ℕ)
    → NotIn t (xs ++ ys)
    → IsDistinct (xs ++ ys)
    → Back pv none (xs ++ ys)
    → Back (update? (update pv t (last_or none xs)) (first ys) (some t)) none (xs ++ t ∷ ys)
Back-insert pv t xs ys n d b =
    Back-append pv₂ none xs (t ∷ ys)
      (Back-frame pv₁ pv₂ none xs (update?-first pv₁ xs ys (some t) d)
        (Back-update pv t (last_or none xs) none xs (All-left (λ x. x ≢ t) xs ys n) halves.0))
      (
        link ys (All-right (λ x. x ≢ t) xs ys n),
        Back-redirect pv₁ (last_or none xs) (some t) ys (IsDistinct-right xs ys d) (
            Back-update pv t (last_or none xs) (last_or none xs) ys (All-right (λ x. x ≢ t) xs ys n)
              halves.1),
      )
  where
    pv₁ : ℕ → Option ℕ
    pv₁ = update pv t (last_or none xs)

    pv₂ : ℕ → Option ℕ
    pv₂ = update? pv₁ (first ys) (some t)

    halves : Back pv none xs × Back pv (last_or none xs) ys
    halves = Back-split pv none xs ys b

    link : (zs : List ℕ) → NotIn t zs → update? pv₁ (first zs) (some t) t ≡ last_or none xs
    link [] n = update_self pv t (last_or none xs)
    link (z ∷ zs) n =
        update_ne pv₁ z t (some t) (λ e. n.0 (sym e)) ∙ update_self pv t (last_or none xs)

pub Back-remove :
    (pv : ℕ → Option ℕ) (t : ℕ) (xs ys : List ℕ)
    → IsDistinct (xs ++ t ∷ ys)
    → Back pv none (xs ++ t ∷ ys)
    → Back (update? pv (first ys) (last_or none xs)) none (xs ++ ys)
Back-remove pv t xs ys d b =
    Back-append pv₁ none xs ys
      (Back-frame pv pv₁ none xs
        (update?-first pv xs ys (last_or none xs) (IsDistinct-remove t xs ys d).1) halves.0)
      (Back-redirect pv (some t) (last_or none xs) ys (IsDistinct-right xs (t ∷ ys) d).1 halves.1.1)
  where
    pv₁ : ℕ → Option ℕ
    pv₁ = update? pv (first ys) (last_or none xs)

    halves : Back pv none xs × Back pv (last_or none xs) (t ∷ ys)
    halves = Back-split pv none xs (t ∷ ys) b

-- The code asks whether there is a node before: the list head moves exactly when there is none.
pub head_to-last_or :
    (xs : List ℕ) (h v : Option ℕ) → (if is_null (last_or none xs) then v else h) ≡ head_to xs h v
head_to-last_or [] h v = refl
head_to-last_or (x ∷ xs) h v = rw (last_or-some x xs)
