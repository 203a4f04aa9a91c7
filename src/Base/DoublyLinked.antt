-- ===== src/Base/DoublyLinked.antt =====
-- Doubly linked lists through the fields `next` and `prev`, and lists of one pool that stay apart.
use Prim.Native.Nat.{ℕ, ◌<◌, ◌≤◌}
use mathlib.Core.Path.{◌≡◌, refl, sym, ◌∙◌}
use mathlib.Core.Logic.{◌≢◌}
use mathlib.Core.Option.{Option, none, some}
use mathlib.Core.List.{List, [], ◌∷◌, ◌++◌, append-nil}
use vrtos.Base.Tests.{if◌then◌else◌, update, update?, update_ne, is_null}
use vrtos.Base.Lists.{
  first, last_or, All, NotIn, IsDistinct, All-left, All-right, All-append, IsDistinct-insert,
  IsDistinct-remove, length, length-le_of_distinct,
}
use vrtos.Base.Chains.{
  Chain, Back, Seg-frame, Back-frame, Seg-update, Back-update, Chain-next, Back-prev,
}
use vrtos.Base.Splices.{
  Chain-insert, Back-insert, Chain-remove, Back-remove, head_to, head_to-last_or, update?_last,
}

-- From `head` the list holds `xs`, both ways; the addresses are distinct and below `n`.
pub record Dll (n : ℕ) (nx pv : ℕ → Option ℕ) (head : Option ℕ) (xs : List ℕ) : Type 0 where
  pub chain : Chain nx head xs
  pub back : Back pv none xs
  pub distinct : IsDistinct xs
  pub small : All (λ x. x < n) xs

-- No address of `zs` stands in `xs`.
abbrev pub Apart : List ℕ → List ℕ → Type 0
Apart xs zs = All (λ z. NotIn z xs) zs

-- What lies at different places is apart.
pub NotIn-place :
    {P : Type 0} (place : ℕ → P) (a : P) (z : ℕ) (xs : List ℕ)
    → All (λ x. place x ≡ a) xs
    → place z ≢ a
    → NotIn z xs
NotIn-place place a z [] h ne = tt
NotIn-place place a z (x ∷ xs) h ne = ((λ e. ne (rw (← e) h.0)), NotIn-place place a z xs h.1 ne)

pub Apart-place :
    {P : Type 0} (place : ℕ → P) (a b : P) (xs zs : List ℕ)
    → All (λ x. place x ≡ a) xs
    → All (λ z. place z ≡ b) zs
    → b ≢ a
    → Apart xs zs
Apart-place place a b xs [] h k ne = tt
Apart-place place a b xs (z ∷ zs) h k ne =
    (NotIn-place place a z xs h (λ e. ne (sym k.0 ∙ e)), Apart-place place a b xs zs h k.1 ne)

pub Apart-nil : (zs : List ℕ) → Apart [] zs
Apart-nil [] = tt
Apart-nil (z ∷ zs) = (tt, Apart-nil zs)

-- Moving an address that stands elsewhere leaves the places of a list.
pub All-place_update :
    {P : Type 0} (place : ℕ → P) (t : ℕ) (a b : P) (xs : List ℕ)
    → NotIn t xs
    → All (λ x. place x ≡ a) xs
    → All (λ x. update place t b x ≡ a) xs
All-place_update place t a b [] n h = tt
All-place_update place t a b (x ∷ xs) n h =
    (update_ne place t x b n.0 ∙ h.0, All-place_update place t a b xs n.1 h.1)

module _ (n : ℕ) (nx pv : ℕ → Option ℕ) where
  pub Dll-length : (h : Option ℕ) (xs : List ℕ) → Dll n nx pv h xs → length xs ≤ n
  Dll-length h xs d = length-le_of_distinct n xs d.small d.distinct

  pub Dll-frame :
      (nx' pv' : ℕ → Option ℕ) (h : Option ℕ) (xs : List ℕ)
      → All (λ x. nx' x ≡ nx x) xs
      → All (λ x. pv' x ≡ pv x) xs
      → Dll n nx pv h xs
      → Dll n nx' pv' h xs
  Dll-frame nx' pv' h xs a b d = record {
    chain = Seg-frame nx nx' h none xs a d.chain;
    back = Back-frame pv pv' none xs b d.back;
    distinct = d.distinct;
    small = d.small;
  }

  -- Writes to the links of an address outside the list.
  pub Dll-update :
      (t : ℕ) (v w h : Option ℕ) (xs : List ℕ)
      → NotIn t xs
      → Dll n nx pv h xs
      → Dll n (update nx t v) (update pv t w) h xs
  Dll-update t v w h xs o d = record {
    chain = Seg-update nx t v h none xs o d.chain;
    back = Back-update pv t w none xs o d.back;
    distinct = d.distinct;
    small = d.small;
  }

  module _ (h : Option ℕ) (t : ℕ) (xs ys : List ℕ) where
    pub Dll-insert :
        NotIn t (xs ++ ys)
        → t < n
        → Dll n nx pv h (xs ++ ys)
        → Dll n
            (update? (update nx t (first ys)) (last_or none xs) (some t))
            (update? (update pv t (last_or none xs)) (first ys) (some t))
            (head_to xs h (some t))
            (xs ++ t ∷ ys)
    Dll-insert o lt d = record {
      chain = Chain-insert nx h t xs ys o d.distinct d.chain;
      back = Back-insert pv t xs ys o d.distinct d.back;
      distinct = IsDistinct-insert t xs ys o d.distinct;
      small =
          All-append (λ x. x < n) xs (t ∷ ys) (All-left (λ x. x < n) xs ys d.small)
            (lt, All-right (λ x. x < n) xs ys d.small);
    }

    -- `t`'s own links say how to unlink it, and are cleared last.
    pub Dll-remove :
        Dll n nx pv h (xs ++ t ∷ ys)
        → Dll n
            (update (update? nx (pv t) (nx t)) t none)
            (update (update? pv (nx t) (pv t)) t none)
            (if is_null (pv t) then nx t else h)
            (xs ++ ys)
    Dll-remove d =
        rw (Back-prev pv t xs ys d.back, Chain-next nx h t xs ys d.chain)
          (rw (head_to-last_or xs h (first ys)) (record {
            chain =
                Seg-update (update? nx (last_or none xs) (first ys)) t none
                  (head_to xs h (first ys)) none (xs ++ ys) others.0
                  (rw (Chain-next nx h t xs ys d.chain) at
                    (Chain-remove nx h t xs ys d.distinct d.chain));
            back =
                Back-update (update? pv (first ys) (last_or none xs)) t none none (xs ++ ys)
                  others.0 (Back-remove pv t xs ys d.distinct d.back);
            distinct = others.1;
            small =
                All-append (λ x. x < n) xs ys (All-left (λ x. x < n) xs (t ∷ ys) d.small)
                  (All-right (λ x. x < n) xs (t ∷ ys) d.small).1;
          }))
      where
        others : NotIn t (xs ++ ys) × IsDistinct (xs ++ ys)
        others = IsDistinct-remove t xs ys d.distinct

  -- The same at the end of the list.
  pub Dll-append :
      (h : Option ℕ) (t : ℕ) (xs : List ℕ)
      → NotIn t xs
      → t < n
      → Dll n nx pv h xs
      → Dll n
          (update? (update nx t none) (last_or none xs) (some t))
          (update pv t (last_or none xs))
          (head_to xs h (some t))
          (xs ++ t ∷ [])
  Dll-append h t xs o lt d = Dll-insert h t xs [] (rw append-nil o) lt (rw append-nil d)

-- A list that shares no address with the one that changes is left as it is.
update?_outside :
    {A : Type 0} (f : ℕ → A) (xs zs : List ℕ) (v : A)
    → Apart xs zs
    → All (λ z. update? f (last_or none xs) v z ≡ f z) zs
update?_outside f xs [] v a = tt
update?_outside f xs (z ∷ zs) v a =
    (update?_last f none xs v z tt a.0, update?_outside f xs zs v a.1)

update?_outside_first :
    {A : Type 0} (f : ℕ → A) (ys zs : List ℕ) (v : A)
    → Apart ys zs
    → All (λ z. update? f (first ys) v z ≡ f z) zs
update?_outside_first f ys [] v a = tt
update?_outside_first f [] (z ∷ zs) v a = (refl, update?_outside_first f [] zs v a.1)
update?_outside_first f (y ∷ ys) (z ∷ zs) v a =
    (update_ne f y z v (λ e. a.0.0 (sym e)), update?_outside_first f (y ∷ ys) zs v a.1)

All-trans :
    {A : Type 0} (f g h : ℕ → A) (zs : List ℕ)
    → All (λ z. f z ≡ g z) zs
    → All (λ z. g z ≡ h z) zs
    → All (λ z. f z ≡ h z) zs
All-trans f g h [] a b = tt
All-trans f g h (z ∷ zs) a b = (a.0 ∙ b.0, All-trans f g h zs a.1 b.1)

outside_update :
    {A : Type 0} (f : ℕ → A) (t : ℕ) (v : A) (zs : List ℕ)
    → NotIn t zs
    → All (λ z. update f t v z ≡ f z) zs
outside_update f t v [] o = tt
outside_update f t v (z ∷ zs) o = (update_ne f t z v o.0, outside_update f t v zs o.1)

module _ (n : ℕ) (nx pv : ℕ → Option ℕ) (k : Option ℕ) (t : ℕ) (xs ys zs : List ℕ)
    (ax : Apart xs zs) (ay : Apart ys zs) (o : NotIn t zs) (d : Dll n nx pv k zs) where
  pub Dll-insert_frame :
      Dll n
        (update? (update nx t (first ys)) (last_or none xs) (some t))
        (update? (update pv t (last_or none xs)) (first ys) (some t))
        k
        zs
  Dll-insert_frame =
      Dll-frame n nx pv _ _ k zs
        (All-trans _ (update nx t (first ys)) nx zs (update?_outside _ xs zs (some t) ax)
          (outside_update nx t (first ys) zs o))
        (All-trans _ (update pv t (last_or none xs)) pv zs
          (update?_outside_first _ ys zs (some t) ay) (outside_update pv t (last_or none xs) zs o))
        d

  pub Dll-remove_frame :
      nx t ≡ first ys
      → pv t ≡ last_or none xs
      → Dll n
          (update (update? nx (pv t) (nx t)) t none)
          (update (update? pv (nx t) (pv t)) t none)
          k
          zs
  Dll-remove_frame e₁ e₂ =
      rw (e₁, e₂)
        (Dll-update n (update? nx (last_or none xs) (first ys))
          (update? pv (first ys) (last_or none xs)) t none none k zs o
          (Dll-frame n nx pv _ _ k zs (update?_outside nx xs zs (first ys) ax)
            (update?_outside_first pv ys zs (last_or none xs) ay) d))
