-- ===== src/Kernel/Tracking.antt =====
-- Where the tasks of src/core/kernel.c stand by their states: what the kernel keeps in agreement with the
-- links of the scheduler's lists.
use vrtos.Base.{
  ℕ, ◌≡◌, ◌≢◌, refl, sym, ◌∙◌, true, false, Option, List, [], ◌∷◌, ◌++◌, inl, inr, ◌==◌, is_null,
  update, update_self, Bool-cases, ==-eq, subst, elem, elem-left, elem-last, elem-inserted,
  elem-middle, elem_removed,
}
use vrtos.State.{TaskState, ready, running, blocked}
use vrtos.Scheduler.Places.{Place, nowhere, in_ready, in_delayed}

-- A READY task is in the ready list of its priority, a BLOCKED one in the delayed list, and any other in
-- no list.
abbrev pub Agree : Place → TaskState → ℕ → Type 0
Agree nowhere st p = (st ≢ ready) × (st ≢ blocked)
Agree (in_ready q) st p = (st ≡ ready) × (q ≡ p)
Agree in_delayed st p = st ≡ blocked

-- The same for every task, and each list holds all the tasks that are to be in it. An entry of the pool
-- that is no task is in no list.
pub record Tracked (function : ℕ → Option ℕ) (priority : ℕ → ℕ) (state : ℕ → TaskState)
    (place : ℕ → Place) (lists : ℕ → List ℕ) (delayed : List ℕ) : Type 0 where
  pub agrees : (t : ℕ) → is_null (function t) ≡ false → Agree (place t) (state t) (priority t)
  pub free : (t : ℕ) → is_null (function t) ≡ true → place t ≡ nowhere
  pub in_its_list : (t p : ℕ) → place t ≡ in_ready p → elem t (lists p) ≡ true
  pub in_the_delayed : (t : ℕ) → place t ≡ in_delayed → elem t delayed ≡ true

pub Tracked-fields :
    {place : ℕ → Place} {lists : ℕ → List ℕ} {delayed : List ℕ} (f f' : ℕ → Option ℕ) (p p' : ℕ → ℕ)
    (st st' : ℕ → TaskState)
    → f' ≡ f
    → p' ≡ p
    → st' ≡ st
    → Tracked f p st place lists delayed
    → Tracked f' p' st' place lists delayed
Tracked-fields {place} {lists} {delayed} f f' p p' st st' ef ep es h =
    subst (λ f. Tracked f p' st' place lists delayed) (sym ef)
      (subst (λ p. Tracked f p st' place lists delayed) (sym ep)
        (subst (λ st. Tracked f p st place lists delayed) (sym es) h))

-- A task that has gone to a place which is not the delayed list leaves the others delayed.
pub elsewhere :
    (place : ℕ → Place) (t x : ℕ) (pl : Place)
    → pl ≢ in_delayed
    → update place t pl x ≡ in_delayed
    → place x ≡ in_delayed
elsewhere place t x pl ne at = elim (Bool-cases (x == t)) [
  | inl e ↦ absurd (ne (rw e at at))
  | inr e ↦ rw e at at
]

module _ {function : ℕ → Option ℕ} {priority : ℕ → ℕ} {state : ℕ → TaskState} {place : ℕ → Place}
    {lists : ℕ → List ℕ} {delayed : List ℕ} (t : ℕ) (is : is_null (function t) ≡ false)
    (h : Tracked function priority state place lists delayed) where
  -- A task gets a new state and a new place; the lists keep the others.
  pub move-Tracked :
      (st : TaskState) (pl : Place) (lists' : ℕ → List ℕ) (delayed' : List ℕ)
      → Agree pl st (priority t)
      → ((p : ℕ) → pl ≡ in_ready p → elem t (lists' p) ≡ true)
      → (pl ≡ in_delayed → elem t delayed' ≡ true)
      → ((x p : ℕ) → (x == t) ≡ false → elem x (lists p) ≡ true → elem x (lists' p) ≡ true)
      → ((x : ℕ) → (x == t) ≡ false → elem x delayed ≡ true → elem x delayed' ≡ true)
      → Tracked function priority (update state t st) (update place t pl) lists' delayed'
  move-Tracked st pl lists' delayed' fits here here_delayed kept kept_delayed = record {
    agrees = λ x task. elim (Bool-cases (x == t)) [
      | inl e ↦ rw e (rw (==-eq x t e) fits)
      | inr e ↦ rw e (h.agrees x task)
    ];
    free = λ x null. elim (Bool-cases (x == t)) [
      | inl e ↦ absurd (clash x e null)
      | inr e ↦ rw e (h.free x null)
    ];
    in_its_list = λ x p at. elim (Bool-cases (x == t)) [
      | inl e ↦ rw (==-eq x t e) (here p (rw e at at))
      | inr e ↦ kept x p e (h.in_its_list x p (rw e at at))
    ];
    in_the_delayed = λ x at. elim (Bool-cases (x == t)) [
      | inl e ↦ rw (==-eq x t e) (here_delayed (rw e at at))
      | inr e ↦ kept_delayed x e (h.in_the_delayed x (rw e at at))
    ];
  }
    where
      true_ne : true ≡ false → ⊥
      true_ne e = cc

      clash : (x : ℕ) → (x == t) ≡ true → is_null (function x) ≡ true → ⊥
      clash x e null =
          true_ne (sym null ∙ subst (λ y. is_null (function y) ≡ false) (sym (==-eq x t e)) is)

  at_end :
      (x p : ℕ)
      → elem x (lists p) ≡ true
      → let q = priority t in elem x (update lists q (lists q ++ t ∷ []) p) ≡ true
  at_end x p at = elim (Bool-cases (p == priority t)) [
    | inl e ↦ rw e (elem-left x (lists (priority t)) (t ∷ []) (rw (← ==-eq p (priority t) e) at))
    | inr e ↦ rw e at
  ]

  its_end :
      (p : ℕ)
      → in_ready (priority t) ≡ in_ready p
      → let q = priority t in elem t (update lists q (lists q ++ t ∷ []) p) ≡ true
  its_end p e =
      let same : priority t ≡ p = cc in
      rw (← same) (
        rw (update_self lists (priority t) (lists (priority t) ++ t ∷ []))
          (elem-last t (lists (priority t))))

  -- It becomes READY and goes to the end of its list; `delayed'` is what stays delayed.
  pub ready-Tracked :
      (delayed' : List ℕ)
      → ((x : ℕ) → (x == t) ≡ false → elem x delayed ≡ true → elem x delayed' ≡ true)
      → let p = priority t in
        Tracked function priority
          (update state t ready)
          (update place t (in_ready p))
          (update lists p (lists p ++ t ∷ []))
          delayed'
  ready-Tracked delayed' others =
      move-Tracked ready (in_ready (priority t)) _ delayed' (refl, refl) its_end (λ e. cc)
        (λ x p ne at. at_end x p at) others

  -- The first of a list runs, and is in no list.
  pub run-Tracked :
      (p : ℕ) (rest : List ℕ)
      → lists p ≡ t ∷ rest
      → Tracked function priority
          (update state t running)
          (update place t nowhere)
          (update lists p rest)
          delayed
  run-Tracked p rest is_first =
      move-Tracked running nowhere (update lists p rest) delayed ((λ e. cc), (λ e. cc)) (λ p e. cc)
        (λ e. cc) kept (λ x ne at. at)
    where
      kept :
          (x q : ℕ)
          → (x == t) ≡ false
          → elem x (lists q) ≡ true
          → elem x (update lists p rest q) ≡ true
      kept x q ne at = elim (Bool-cases (q == p)) [
        | inl e ↦ rw e (
            elem_removed t x [] rest ne
              (subst (λ xs. elem x xs ≡ true) is_first (rw (← ==-eq q p e) at)))
        | inr e ↦ rw e at
      ]

  -- It is BLOCKED, at its place in the delayed list.
  pub block-Tracked :
      (xs ys : List ℕ)
      → xs ++ ys ≡ delayed
      → Tracked function priority
          (update state t blocked)
          (update place t in_delayed)
          lists
          (xs ++ t ∷ ys)
  block-Tracked xs ys whole =
      move-Tracked blocked in_delayed lists (xs ++ t ∷ ys) refl (λ p e. cc)
        (λ e. elem-middle t xs ys) (λ x p ne at. at)
        (λ x ne at. elem-inserted t x xs ys (rw whole at))

module _ {function : ℕ → Option ℕ} {priority : ℕ → ℕ} {state : ℕ → TaskState} {place : ℕ → Place}
    {lists : ℕ → List ℕ} {delayed : List ℕ} (t : ℕ)
    (h : Tracked function priority state place lists delayed)
    (is : is_null (function t) ≡ false) where
  -- A READY task is in the list of its priority.
  pub ready_stands : state t ≡ ready → elem t (lists (priority t)) ≡ true
  ready_stands st = go (place t) refl (h.agrees t is)
    where
      apart : ready ≡ blocked → ⊥
      apart e = cc

      go :
          (pl : Place)
          → place t ≡ pl
          → Agree pl (state t) (priority t)
          → elem t (lists (priority t)) ≡ true
      go nowhere at fits = absurd (fits.0 st)
      go (in_ready q) at fits = subst (λ p. elem t (lists p) ≡ true) fits.1 (h.in_its_list t q at)
      go in_delayed at fits = absurd (apart (sym st ∙ fits))

  -- One that is neither READY nor BLOCKED is in no list.
  pub other_apart : state t ≢ ready → state t ≢ blocked → place t ≡ nowhere
  other_apart not_ready not_blocked = go (place t) refl (h.agrees t is)
    where
      go : (pl : Place) → place t ≡ pl → Agree pl (state t) (priority t) → place t ≡ nowhere
      go nowhere at fits = at
      go (in_ready q) at fits = absurd (not_ready fits.0)
      go in_delayed at fits = absurd (not_blocked fits)

  -- A BLOCKED one is in the delayed list.
  pub blocked_stands : state t ≡ blocked → place t ≡ in_delayed
  blocked_stands st = go (place t) refl (h.agrees t is)
    where
      apart : ready ≡ blocked → ⊥
      apart e = cc

      go : (pl : Place) → place t ≡ pl → Agree pl (state t) (priority t) → place t ≡ in_delayed
      go nowhere at fits = absurd (fits.1 st)
      go (in_ready q) at fits = absurd (apart (sym fits.0 ∙ st))
      go in_delayed at fits = at
