-- ===== src/Scheduler/PreemptiveSp/Choice.antt =====
-- Which task preemptive_sp.c runs next.
use vrtos.Base.{
  ℕ, zero, suc, ◌<◌, ◌≡◌, refl, sym, ◌∙◌, inl, inr, true, false, not, Option, none, some, List, [],
  ◌∷◌, arith, ◌==◌, first, Chain-head, has_bit, has_bit-zero, Bool-cases, ==-eq,
}
use vrtos.State.{Sys, max_task_priorities}
use vrtos.Scheduler.PreemptiveSp.{scan_priorities, get_next_task}
use vrtos.Scheduler.PreemptiveSp.Lists.{Place, is_nil, Holds}

-- The first task of the highest priority below `n` that has one, or none at all.
pub data Chosen (ready : ℕ → List ℕ) (n : ℕ) (next : Option ℕ) : Type 0 where
  idle : next ≡ none → ((q : ℕ) → q < n → ready q ≡ []) → Chosen ready n next
  pick :
      (p t : ℕ) (rest : List ℕ)
      → next ≡ some t
      → p < n
      → ready p ≡ t ∷ rest
      → ((q : ℕ) → p < q → q < n → ready q ≡ [])
      → Chosen ready n next

is_nil-eq : (xs : List ℕ) → not (is_nil xs) ≡ false → xs ≡ []
is_nil-eq [] e = refl
is_nil-eq (x ∷ xs) e = cc

is_nil-ne : (xs : List ℕ) → not (is_nil xs) ≡ true → (t : ℕ) × (rest : List ℕ) × (xs ≡ t ∷ rest)
is_nil-ne [] e = cc
is_nil-ne (x ∷ xs) e = (x, xs, refl)

extend_empty :
    (ready : ℕ → List ℕ) (n q : ℕ)
    → ready n ≡ []
    → (q < n → ready q ≡ [])
    → q < suc n
    → ready q ≡ []
extend_empty ready n q e below lt = elim (Bool-cases (q == n)) [
  | inl eq ↦ rw (==-eq q n eq) e
  | inr ne ↦ below (ground arith)
]

-- An empty list at the top of the range changes nothing.
Chosen-suc :
    (ready : ℕ → List ℕ) (n : ℕ) (next : Option ℕ)
    → ready n ≡ []
    → Chosen ready n next
    → Chosen ready (suc n) next
Chosen-suc ready n next e (idle none_next all) =
    idle none_next (λ q lt. extend_empty ready n q e (all q) lt)
Chosen-suc ready n next e (pick p t rest got lt is above) =
    pick p t rest got (omega arith) is (λ q over lt'. extend_empty ready n q e (above q over) lt')

scan_priorities-Chosen :
    (n : ℕ) (s : Sys) (ready : ℕ → List ℕ)
    → ((p : ℕ)
        → p < n
        → (has_bit s.preemptive.ready_priorities p ≡ not (is_nil (ready p)))
          × (s.preemptive.ready_lists p ≡ first (ready p)))
    → Chosen ready n (scan_priorities n s)
unfolding scan_priorities
scan_priorities-Chosen zero s ready h = idle refl (λ q lt. absurd (omega arith))
scan_priorities-Chosen (suc n) s ready h =
    elim (Bool-cases (has_bit s.preemptive.ready_priorities n)) [
      | inl e ↦
          let (t, rest, is) = is_nil-ne (ready n) (sym (h n (omega arith)).0 ∙ e) in
          rw e (
            pick n t rest ((h n (omega arith)).1 ∙ rw is) (omega arith) is
              (λ q over lt. absurd (omega arith)))
      | inr e ↦ rw e (
          Chosen-suc ready n (scan_priorities n s)
            (is_nil-eq (ready n) (sym (h n (omega arith)).0 ∙ e))
            (scan_priorities-Chosen n s ready (λ p lt. h p (omega arith))))
    ]

-- With the lists and the map in order, the scheduler chooses the first task of the highest
-- priority that has a ready task, and none exactly when no priority has one.
pub get_next_task-Chosen :
    (s : Sys) (place : ℕ → Place) (ready : ℕ → List ℕ) (delayed : List ℕ)
    → Holds s place ready delayed
    → Chosen ready max_task_priorities (get_next_task s)
unfolding get_next_task
get_next_task-Chosen s place ready delayed h =
    elim (Bool-cases (s.preemptive.ready_priorities == 0)) [
      | inl zero_map ↦ rw zero_map (
          idle refl (λ q lt.
            is_nil-eq (ready q) (sym (h.map q lt) ∙ rw (==-eq _ 0 zero_map) (has_bit-zero q lt))))
      | inr some_bit ↦ rw some_bit (
          scan_priorities-Chosen max_task_priorities s ready
            (λ p lt. (h.map p lt, Chain-head s.pool.next _ (ready p) (h.ready_list p lt).chain)))
    ]
