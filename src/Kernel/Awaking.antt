-- ===== src/Kernel/Awaking.antt =====
-- The tasks that a tick wakes, in the bookkeeping of Kernel/Tracking.antt.
use vrtos.Base.{
  ℕ, ◌<◌, ◌≡◌, ◌⊎◌, inl, inr, refl, sym, subst, ◌∙◌, arith, Bool, true, false, Option, List, [],
  ◌∷◌, ◌++◌, ◌==◌, is_null, leb, update, Bool-cases, ==-eq, elem, elem_removed, All, All-elem,
  take_while, drop_while, IsSorted,
}
use vrtos.State.{TaskState, ready, running}
use vrtos.Scheduler.Places.{Place, in_ready}
use vrtos.Scheduler.PreemptiveSp.Wakeups.{enqueue, settle, make_ready}
use vrtos.Kernel.Tracking.{Tracked, ready-Tracked}

-- The first of the delayed tasks are woken in their order.
pub settle-Tracked :
    {function : ℕ → Option ℕ} {priority : ℕ → ℕ} (state : ℕ → TaskState) (place : ℕ → Place)
    (lists : ℕ → List ℕ) (ws rest : List ℕ)
    → All (λ t. is_null (function t) ≡ false) ws
    → Tracked function priority state place lists (ws ++ rest)
    → Tracked function priority
        (make_ready ws state)
        (settle priority ws place)
        (enqueue priority ws lists)
        rest
settle-Tracked state place lists [] rest tasks h = h
settle-Tracked {priority} state place lists (w ∷ ws) rest tasks h =
    settle-Tracked (update state w ready) (update place w (in_ready (priority w)))
      (update lists (priority w) (lists (priority w) ++ w ∷ [])) ws rest tasks.1
      (ready-Tracked w tasks.0 h (ws ++ rest) (λ x ne at. elem_removed w x [] (ws ++ rest) ne at))

-- No task is made to run, and none that is READY or RUNNING is held up.
pub make_ready-running :
    (ws : List ℕ) (state : ℕ → TaskState) (t : ℕ)
    → make_ready ws state t ≡ running
    → state t ≡ running
make_ready-running [] state t h = h
make_ready-running (w ∷ ws) state t h =
    before (Bool-cases (t == w)) (make_ready-running ws (update state w ready) t h)
  where
    before :
        ((t == w) ≡ true) ⊎ ((t == w) ≡ false)
        → update state w ready t ≡ running
        → state t ≡ running
    before (inl e) r = cc (rw e at r)
    before (inr e) r = rw e at r

pub make_ready-awake :
    (ws : List ℕ) (state : ℕ → TaskState) (t : ℕ)
    → (state t ≡ ready) ⊎ (state t ≡ running)
    → (make_ready ws state t ≡ ready) ⊎ (make_ready ws state t ≡ running)
make_ready-awake [] state t h = h
make_ready-awake (w ∷ ws) state t h =
    make_ready-awake ws (update state w ready) t
      (elim (Bool-cases (t == w)) [ inl e ↦ inl (rw e refl) | inr e ↦ rw e h ])

-- A task that is woken is READY; one that is not keeps its state.
make_ready-ready :
    (ws : List ℕ) (state : ℕ → TaskState) (t : ℕ) → state t ≡ ready → make_ready ws state t ≡ ready
make_ready-ready [] state t h = h
make_ready-ready (w ∷ ws) state t h =
    make_ready-ready ws (update state w ready) t
      (elim (Bool-cases (t == w)) [ inl e ↦ rw e refl | inr e ↦ rw e h ])

pub make_ready-woken :
    (ws : List ℕ) (state : ℕ → TaskState) (t : ℕ) → elem t ws ≡ true → make_ready ws state t ≡ ready
make_ready-woken [] state t h = cc
make_ready-woken (w ∷ ws) state t h = elim (Bool-cases (t == w)) [
  | inl e ↦ make_ready-ready ws (update state w ready) t (rw e refl)
  | inr e ↦ make_ready-woken ws (update state w ready) t (ground arith)
]

pub make_ready-other :
    (ws : List ℕ) (state : ℕ → TaskState) (t : ℕ)
    → elem t ws ≡ false
    → make_ready ws state t ≡ state t
make_ready-other [] state t h = refl
make_ready-other (w ∷ ws) state t h =
    let apart : (t == w) ≡ false = ground arith in
    make_ready-other ws (update state w ready) t (ground arith) ∙ rw apart refl

-- The tail of a sorted list, and what stands in which part of one that is split.
pub IsSorted-drop_while :
    (R : ℕ → ℕ → Type 0) (go : ℕ → Bool) (xs : List ℕ)
    → IsSorted R xs
    → IsSorted R (drop_while go xs)
IsSorted-drop_while R go [] h = tt
IsSorted-drop_while R go (x ∷ xs) h = elim (Bool-cases (go x)) [
  | inl e ↦ rw e (IsSorted-drop_while R go xs h.1)
  | inr e ↦ rw e h
]

-- A delayed task is among the first ones, those that are due, exactly when it is due.
pub take_while-due :
    (due : ℕ → ℕ) (now t : ℕ) (xs : List ℕ)
    → elem t xs ≡ true
    → All (λ x. now < due x) (drop_while (λ x. leb (due x) now) xs)
    → elem t (take_while (λ x. leb (due x) now) xs) ≡ leb (due t) now
take_while-due due now t [] there later = cc
take_while-due due now t (x ∷ xs) there later = elim (Bool-cases (leb (due x) now)) [
  | inl e ↦ rw e (elim (Bool-cases (t == x)) [
    | inl same ↦ rw same (sym (subst (λ y. leb (due y) now ≡ true) (sym (==-eq t x same)) e))
    | inr differ ↦ rw differ (take_while-due due now t xs (rw differ at there) (rw e at later))
  ])
  | inr e ↦
      let behind : now < due t = All-elem (λ y. now < due y) t (x ∷ xs) (rw e at later) there in
      rw e (ground arith)
]
