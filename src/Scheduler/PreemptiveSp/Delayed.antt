-- ===== src/Scheduler/PreemptiveSp/Delayed.antt =====
-- The delayed list of preemptive_sp.c: insertion in the order of the wake-up times, and removal.
use vrtos.Base.{
  ℕ, ◌<◌, ◌≡◌, ◌≢◌, sym, ◌∙◌, Bool, false, ◌&&◌, none, some, List, [], ◌∷◌, ◌++◌, ◌==?◌,
  if◌then◌else◌, is_null, update, update?, update_self, update-update, update_same, walk, walk_lem,
  first, last_or, head_to, head_to-last_or, All, NotIn, Dll, Dll-insert, Dll-insert_frame,
  Dll-update, Dll-length, Dll-remove, Dll-remove_frame, Chain-next, Back-prev, Chain-head,
  Apart-place, NotIn-place, All-place_update, All-append, All-left, All-right, IsDistinct-remove,
  last_or-some, ==_self, ==_ne, take_while, drop_while, take_while-drop_while, signed_le, add32,
}
use vrtos.State.{Sys, max_tasks}
use vrtos.Scheduler.PreemptiveSp.{add_to_delayed_list, remove_from_delayed_list}
use vrtos.Scheduler.PreemptiveSp.Lists.{Place, nowhere, in_ready, in_delayed, Holds}

-- The state after a task is put between `xs` and `ys` in the delayed list.
abbrev pub inserted : ℕ → ℕ → List ℕ → List ℕ → Sys → Sys
inserted t due xs ys s = record s {
  pool = record s.pool {
    delay_until = update s.pool.delay_until t due;
    next = update? (update s.pool.next t (first ys)) (last_or none xs) (some t);
    prev = update? (update s.pool.prev t (last_or none xs)) (first ys) (some t);
  };
  preemptive = record s.preemptive { delayed_list = head_to xs s.preemptive.delayed_list (some t) };
}

-- The tasks that are due no later than `due` come first.
abbrev pub due_by : (ℕ → ℕ) → ℕ → ℕ → Bool
due_by delay_until due c = signed_le (delay_until c) due

module _ (t ticks : ℕ) (s : Sys) (delayed : List ℕ) where
  abbrev pub due : ℕ
  due = add32 s.kernel.tick_count ticks

  abbrev pub earlier : List ℕ
  earlier = take_while (due_by (update s.pool.delay_until t due) due) delayed

  abbrev pub later : List ℕ
  later = drop_while (due_by (update s.pool.delay_until t due) due) delayed

  pub add_as_inserted :
      NotIn t delayed
      → Dll max_tasks s.pool.next s.pool.prev s.preemptive.delayed_list delayed
      → add_to_delayed_list t ticks s ≡ inserted t due earlier later s
  unfolding add_to_delayed_list
  add_as_inserted o d = rw found (
      rw (
        update-update s.pool.next t none (first later),
        update-update s.pool.prev t none (last_or none earlier),
        head_to-last_or earlier s.preemptive.delayed_list (some t),
      ))
    where
      d' :
          Dll max_tasks
            (update s.pool.next t none)
            (update s.pool.prev t none)
            s.preemptive.delayed_list
            delayed
      d' = Dll-update max_tasks s.pool.next s.pool.prev t none none _ delayed o d

      found :
          walk
            (due_by (update s.pool.delay_until t due) due)
            (update s.pool.next t none)
            max_tasks
            none
            s.preemptive.delayed_list
          ≡ (last_or none earlier, first later)
      found =
          walk_lem (update s.pool.next t none) _ max_tasks none s.preemptive.delayed_list delayed
            (Dll-length max_tasks _ _ _ delayed d') d'.chain

-- With the lists in order, delaying a task that is in no list, its index in range, puts it into
-- the delayed list, behind the leading tasks whose wake-up time is, by the signed comparison, no
-- later than its own, and before the rest, and leaves every ready list as it was.
pub add_to_delayed_list-Holds :
    (t ticks : ℕ) (s : Sys) (place : ℕ → Place) (ready : ℕ → List ℕ) (delayed : List ℕ)
    → Holds s place ready delayed
    → t < max_tasks
    → place t ≡ nowhere
    → Holds
        (add_to_delayed_list t ticks s)
        (update place t in_delayed)
        ready
        (earlier t ticks s delayed ++ t ∷ later t ticks s delayed)
add_to_delayed_list-Holds t ticks s place ready delayed h small away =
    rw
      (add_as_inserted t ticks s delayed (outside _ delayed h.delayed_place (λ e. cc))
        h.delayed_list)
      (record {
        ready_list = λ q lt.
            Dll-insert_frame max_tasks next prev _ t xs ys (ready q)
              (Apart-place place in_delayed (in_ready q) xs (ready q) at.0 (h.ready_place q)
                (λ e. cc))
              (Apart-place place in_delayed (in_ready q) ys (ready q) at.1 (h.ready_place q)
                (λ e. cc))
              (outside _ (ready q) (h.ready_place q) (λ e. cc)) (h.ready_list q lt);
        delayed_list =
            Dll-insert max_tasks next prev s.preemptive.delayed_list t xs ys
              (rw whole (outside _ delayed h.delayed_place (λ e. cc))) small
              (rw whole h.delayed_list);
        ready_place = λ q.
            All-place_update place t _ _ (ready q) (outside _ (ready q) (h.ready_place q) (λ e. cc))
              (h.ready_place q);
        delayed_place =
            All-append (λ x. place' x ≡ in_delayed) xs (t ∷ ys) (moved xs at.0)
              (update_self place t in_delayed, moved ys at.1);
        ready_priority = h.ready_priority;
        map_small = h.map_small;
        map = h.map;
      })
  where
    open s.pool use {next, prev}

    xs : List ℕ
    xs = earlier t ticks s delayed

    ys : List ℕ
    ys = later t ticks s delayed

    whole : xs ++ ys ≡ delayed
    whole =
        take_while-drop_while
          (due_by (update s.pool.delay_until t (due t ticks s delayed)) (due t ticks s delayed))
          delayed

    place' : ℕ → Place
    place' = update place t in_delayed

    at : All (λ x. place x ≡ in_delayed) xs × All (λ x. place x ≡ in_delayed) ys
    at =
        let a : All (λ x. place x ≡ in_delayed) (xs ++ ys) = rw whole h.delayed_place in
        (All-left _ xs ys a, All-right _ xs ys a)

    outside : (a : Place) (zs : List ℕ) → All (λ x. place x ≡ a) zs → a ≢ nowhere → NotIn t zs
    outside a zs at ne = NotIn-place place a t zs at (λ e. ne (sym e ∙ away))

    moved : (zs : List ℕ) → All (λ x. place x ≡ in_delayed) zs → All (λ x. place' x ≡ in_delayed) zs
    moved zs a = All-place_update place t _ _ zs (outside _ zs a (λ e. cc)) a

-- With the lists in order, taking out a task that stands in the delayed list leaves the others in
-- their order, and every ready list as it was.
pub remove_from_delayed_list-Holds :
    (t : ℕ) (xs ys : List ℕ) (s : Sys) (place : ℕ → Place) (ready : ℕ → List ℕ)
    → Holds s place ready (xs ++ t ∷ ys)
    → Holds (remove_from_delayed_list t s) (update place t nowhere) ready (xs ++ ys)
unfolding remove_from_delayed_list
remove_from_delayed_list-Holds t xs ys s place ready h = record {
  ready_list = λ q lt.
      Dll-remove_frame max_tasks next prev _ t xs ys (ready q)
        (Apart-place place in_delayed (in_ready q) xs (ready q)
          (All-left _ xs (t ∷ ys) h.delayed_place) (h.ready_place q) (λ e. cc))
        (Apart-place place in_delayed (in_ready q) ys (ready q) behind.1 (h.ready_place q)
          (λ e. cc))
        (outside (in_ready q) (ready q) (h.ready_place q) (λ e. cc)) (h.ready_list q lt)
        (Chain-next next _ t xs ys h.delayed_list.chain)
        (Back-prev prev t xs ys h.delayed_list.back);
  delayed_list = rw head (Dll-remove max_tasks next prev _ t xs ys h.delayed_list);
  ready_place = λ q.
      All-place_update place t _ _ (ready q)
        (outside (in_ready q) (ready q) (h.ready_place q) (λ e. cc)) (h.ready_place q);
  delayed_place =
      All-place_update place t _ _ (xs ++ ys) (IsDistinct-remove t xs ys h.delayed_list.distinct).0
        (All-append _ xs ys (All-left _ xs (t ∷ ys) h.delayed_place) behind.1);
  ready_priority = h.ready_priority;
  map_small = h.map_small;
  map = h.map;
}
  where
    open s.pool use {next, prev}

    behind : All (λ x. place x ≡ in_delayed) (t ∷ ys)
    behind = All-right (λ x. place x ≡ in_delayed) xs (t ∷ ys) h.delayed_place

    outside : (a : Place) (zs : List ℕ) → All (λ x. place x ≡ a) zs → a ≢ in_delayed → NotIn t zs
    outside a zs at ne = NotIn-place place a t zs at (λ e. ne (sym e ∙ behind.0))

    -- The code also asks whether the head is the task: it is, when no node stands before it.
    head :
        (if is_null (prev t) && s.preemptive.delayed_list ==? t
          then next t
          else s.preemptive.delayed_list)
        ≡ (if is_null (prev t) then next t else s.preemptive.delayed_list)
    head =
        rw (Back-prev prev t xs ys h.delayed_list.back)
          (at_head xs (Chain-head next _ (xs ++ t ∷ ys) h.delayed_list.chain))
      where
        at_head :
            (ls : List ℕ)
            → s.preemptive.delayed_list ≡ first (ls ++ t ∷ ys)
            → (if is_null (last_or none ls) && s.preemptive.delayed_list ==? t
                then next t
                else s.preemptive.delayed_list)
              ≡ (if is_null (last_or none ls) then next t else s.preemptive.delayed_list)
        at_head [] e = rw (e, ==_self t)
        at_head (a ∷ ls) e = rw (last_or-some a ls)

-- With the lists in order, taking a task that is in no list and whose links are NULL out of the
-- delayed list changes nothing.
pub remove_from_delayed_list-absent :
    (t : ℕ) (s : Sys) (place : ℕ → Place) (ready : ℕ → List ℕ) (delayed : List ℕ)
    → Holds s place ready delayed
    → place t ≡ nowhere
    → s.pool.next t ≡ none
    → s.pool.prev t ≡ none
    → remove_from_delayed_list t s ≡ s
unfolding remove_from_delayed_list
remove_from_delayed_list-absent t s place ready delayed h away e₁ e₂ = rw (
  e₁,
  e₂,
  update_same s.pool.next t none e₁,
  update_same s.pool.prev t none e₂,
  other_head delayed h.delayed_place (Chain-head _ _ delayed h.delayed_list.chain),
)
  where
    linked : in_delayed ≢ nowhere
    linked e = cc

    other_head :
        (ds : List ℕ)
        → All (λ x. place x ≡ in_delayed) ds
        → s.preemptive.delayed_list ≡ first ds
        → (s.preemptive.delayed_list ==? t) ≡ false
    other_head [] a e = rw e
    other_head (d ∷ ds) a e = rw e (==_ne d t (λ eq. linked (sym (rw eq at a.0) ∙ away)))
