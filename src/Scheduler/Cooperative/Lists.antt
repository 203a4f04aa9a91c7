-- ===== src/Scheduler/Cooperative/Lists.antt =====
-- What the two lists of cooperative.c hold, and what putting a task into the ready list, taking one out and
-- the rotation do to them.
use vrtos.Base.{
  ℕ, ◌+◌, ◌%◌, ◌<◌, ◌≡◌, ◌≢◌, refl, sym, ap, ◌∙◌, true, false, none, some, List, [], ◌∷◌, ◌++◌,
  arith, is_null, update, update?, update-update, update_ne, Seg-update, find_tail, find_tail_lem,
  update_self, first, last_or, head_to, All, All-append, All-left, All-right, NotIn,
  IsDistinct-remove, Dll, Dll-append, Dll-remove, Dll-insert_frame, Dll-remove_frame, Dll-length,
  NotIn-place, Apart-place, Apart-nil, All-place_update, length, length-append, Chain-head,
  Chain-next, Back-prev,
}
use vrtos.State.{Sys, ready, max_tasks}
use vrtos.Scheduler.Places.{Place, nowhere, in_ready, in_delayed}
use vrtos.Scheduler.Cooperative.{
  count_down, append_ready, add_to_ready_list, remove_from_ready_list, task_completed, is_ready,
}

-- The ready list holds `waiting` and the delayed list `delayed`; the counters are their
-- lengths; `place` says where each task is linked, so that no task is in both.
pub record InLine (s : Sys) (place : ℕ → Place) (waiting delayed : List ℕ) : Type 0 where
  pub ready_list : Dll max_tasks s.pool.next s.pool.prev s.coop.ready_list waiting
  pub ready_count : s.coop.ready_count ≡ length waiting
  pub delayed_list : Dll max_tasks s.pool.next s.pool.prev s.coop.delayed_list delayed
  pub delayed_count : s.coop.delayed_count ≡ length delayed
  pub ready_place : All (λ x. place x ≡ in_ready 0) waiting
  pub delayed_place : All (λ x. place x ≡ in_delayed) delayed

-- The state after a task is put behind the tasks `xs`.
abbrev appended : ℕ → List ℕ → Sys → Sys
appended t xs s = record s {
  pool = record s.pool {
    next = update? (update s.pool.next t none) (last_or none xs) (some t);
    prev = update s.pool.prev t (last_or none xs);
  };
  coop = record s.coop {
    ready_list = head_to xs s.coop.ready_list (some t);
    ready_count = (s.coop.ready_count + 1) % 256;
  };
}

add_as_appended :
    (t : ℕ) (xs : List ℕ) (s : Sys)
    → NotIn t xs
    → Dll max_tasks s.pool.next s.pool.prev s.coop.ready_list xs
    → add_to_ready_list t s ≡ appended t xs s
unfolding add_to_ready_list append_ready
add_as_appended t [] s o d = rw d.chain refl
add_as_appended t (x ∷ xs) s o d = rw d.chain.0 (
    rw
      (← tail, update-update s.pool.prev t none (some (find_tail (update next t none) max_tasks x)))
      refl)
  where
    open s.pool use {next}

    tail : some (find_tail (update next t none) max_tasks x) ≡ last_or (some x) xs
    tail =
        find_tail_lem (update next t none) max_tasks x xs
          (omega (arith, Dll-length max_tasks next s.pool.prev _ (x ∷ xs) d))
          (rw (update_ne next t x none o.0) (Seg-update next t none (next x) none xs o.1 d.chain.1))

-- With the cooperative lists and counters in order, a task that is in no list, its index in range,
-- goes to the end of the ready list, and they stay in order.
pub add_to_ready_list-InLine :
    (t : ℕ) (s : Sys) (place : ℕ → Place) (waiting delayed : List ℕ)
    → InLine s place waiting delayed
    → t < max_tasks
    → place t ≡ nowhere
    → InLine (add_to_ready_list t s) (update place t (in_ready 0)) (waiting ++ t ∷ []) delayed
add_to_ready_list-InLine t s place waiting delayed h small away =
    rw (add_as_appended t waiting s o h.ready_list) (record {
      ready_list = Dll-append max_tasks next prev _ t waiting o small h.ready_list;
      ready_count = counted;
      delayed_list =
          Dll-insert_frame max_tasks next prev _ t waiting [] delayed
            (Apart-place place (in_ready 0) in_delayed waiting delayed h.ready_place h.delayed_place
              (λ e. cc))
            (Apart-nil delayed) (outside in_delayed delayed h.delayed_place (λ e. cc))
            h.delayed_list;
      delayed_count = h.delayed_count;
      ready_place =
          All-append (λ x. update place t (in_ready 0) x ≡ in_ready 0) waiting (t ∷ [])
            (All-place_update place t _ _ waiting o h.ready_place)
            (update_self place t (in_ready 0), tt);
      delayed_place =
          All-place_update place t _ _ delayed
            (outside in_delayed delayed h.delayed_place (λ e. cc)) h.delayed_place;
    })
  where
    open s.pool use {next, prev}

    outside : (a : Place) (xs : List ℕ) → All (λ x. place x ≡ a) xs → a ≢ nowhere → NotIn t xs
    outside a xs at ne = NotIn-place place a t xs at (λ e. ne (sym e ∙ away))

    o : NotIn t waiting
    o = outside (in_ready 0) waiting h.ready_place (λ e. cc)

    counted : (s.coop.ready_count + 1) % 256 ≡ length (waiting ++ t ∷ [])
    counted = omega (
      arith,
      h.ready_count,
      length-append waiting (t ∷ []),
      Dll-length max_tasks next prev _ waiting h.ready_list,
    )

-- With the cooperative lists and counters in order, a task of the ready list is taken out of
-- wherever it stands; the others keep their order, and the lists and counters stay in order.
pub remove_from_ready_list-InLine :
    (t : ℕ) (xs ys : List ℕ) (s : Sys) (place : ℕ → Place) (delayed : List ℕ)
    → InLine s place (xs ++ t ∷ ys) delayed
    → InLine (remove_from_ready_list t s) (update place t nowhere) (xs ++ ys) delayed
unfolding remove_from_ready_list
remove_from_ready_list-InLine t xs ys s place delayed h = rw not_empty (record {
  ready_list = Dll-remove max_tasks next prev s.coop.ready_list t xs ys h.ready_list;
  ready_count = counted;
  delayed_list =
      Dll-remove_frame max_tasks next prev s.coop.delayed_list t xs ys delayed
        (Apart-place place (in_ready 0) in_delayed xs delayed (All-left _ xs (t ∷ ys) h.ready_place)
          h.delayed_place (λ e. cc))
        (Apart-place place (in_ready 0) in_delayed ys delayed
          (All-right _ xs (t ∷ ys) h.ready_place).1 h.delayed_place (λ e. cc))
        away h.delayed_list (Chain-next next s.coop.ready_list t xs ys h.ready_list.chain)
        (Back-prev prev t xs ys h.ready_list.back);
  delayed_count = h.delayed_count;
  ready_place = All-place_update place t _ _ (xs ++ ys) others (
      All-append (λ x. place x ≡ in_ready 0) xs ys (All-left _ xs (t ∷ ys) h.ready_place)
        (All-right _ xs (t ∷ ys) h.ready_place).1);
  delayed_place = All-place_update place t _ _ delayed away h.delayed_place;
})
  where
    open s.pool use {next, prev}

    some_first : (xs : List ℕ) → is_null (first (xs ++ t ∷ ys)) ≡ false
    some_first [] = refl
    some_first (x ∷ xs) = refl

    differ : in_delayed ≢ in_ready 0
    differ e = cc

    not_empty : is_null s.coop.ready_list ≡ false
    not_empty =
        ap is_null (Chain-head next s.coop.ready_list (xs ++ t ∷ ys) h.ready_list.chain)
        ∙ some_first xs

    others : NotIn t (xs ++ ys)
    others = (IsDistinct-remove t xs ys h.ready_list.distinct).0

    away : NotIn t delayed
    away =
        NotIn-place place in_delayed t delayed h.delayed_place
          (λ e. differ (sym e ∙ (All-right _ xs (t ∷ ys) h.ready_place).0))

    counted : count_down s.coop.ready_count ≡ length (xs ++ ys)
    counted = ground (arith, h.ready_count, length-append xs (t ∷ ys), length-append xs ys)

-- With the cooperative lists and counters in order, when a READY task of the ready list gives the
-- processor up, it goes to the end of that list, the others keep their order, and the lists and
-- counters stay in order.
pub task_completed-InLine :
    (t : ℕ) (xs ys : List ℕ) (s : Sys) (place : ℕ → Place) (delayed : List ℕ)
    → InLine s place (xs ++ t ∷ ys) delayed
    → s.pool.state t ≡ ready
    → t < max_tasks
    → InLine
        (task_completed t s)
        (update (update place t nowhere) t (in_ready 0))
        ((xs ++ ys) ++ t ∷ [])
        delayed
unfolding task_completed is_ready
task_completed-InLine t xs ys s place delayed h is small = rw turn_over (record {
  ready_list = moved.ready_list;
  ready_count = moved.ready_count;
  delayed_list = moved.delayed_list;
  delayed_count = moved.delayed_count;
  ready_place = moved.ready_place;
  delayed_place = moved.delayed_place;
})
  where
    turn_over : is_ready (s.pool.state t) ≡ true
    turn_over = ap is_ready is

    moved :
        InLine
          (add_to_ready_list t (remove_from_ready_list t s))
          (update (update place t nowhere) t (in_ready 0))
          ((xs ++ ys) ++ t ∷ [])
          delayed
    moved =
        add_to_ready_list-InLine t (remove_from_ready_list t s) (update place t nowhere) (xs ++ ys)
          delayed (remove_from_ready_list-InLine t xs ys s place delayed h) small
          (update_self place t nowhere)
