-- ===== src/Scheduler/PreemptiveSp/Ready.antt =====
-- The ready lists of preemptive_sp.c: adding and removing a task.
use vrtos.Base.{
  ℕ, ◌<◌, ◌≡◌, ◌≢◌, refl, sym, ◌∙◌, false, not, Option, none, some, List, [], ◌∷◌, ◌++◌, arith, leb,
  ◌==◌, if◌then◌else◌, update, update?, update-both, update-update, update-get, find_tail,
  find_tail_lem, last_or, head_to, All, NotIn, Dll, Seg-update, update_ne, Dll-append, Dll-length,
  Dll-insert_frame, NotIn-place, Apart-nil, update_self, Apart-place, All-place_update, All-append,
  has_bit, set_bit, has_bit-set_bit, Bool-cases, inl, inr, ==-eq,
}
use vrtos.State.{Sys, max_tasks, max_task_priorities}
use vrtos.Scheduler.PreemptiveSp.{append_ready, add_to_ready_list}
use vrtos.Scheduler.PreemptiveSp.Lists.{Place, nowhere, in_ready, in_delayed, is_nil, Holds}

-- The state after a task is put behind the tasks `xs` of its priority.
abbrev appended : ℕ → ℕ → List ℕ → Sys → Sys
appended t p xs s = record s {
  pool = record s.pool {
    next = update? (update s.pool.next t none) (last_or none xs) (some t);
    prev = update s.pool.prev t (last_or none xs);
  };
  preemptive = record s.preemptive {
    ready_lists =
        update s.preemptive.ready_lists p (head_to xs (s.preemptive.ready_lists p) (some t));
    ready_priorities =
        if is_nil xs
        then set_bit s.preemptive.ready_priorities p
        else s.preemptive.ready_priorities;
  };
}

add_as_appended :
    (t : ℕ) (xs : List ℕ) (s : Sys)
    → s.pool.priority t < max_task_priorities
    → NotIn t xs
    → Dll max_tasks s.pool.next s.pool.prev (s.preemptive.ready_lists (s.pool.priority t)) xs
    → add_to_ready_list t s ≡ appended t (s.pool.priority t) xs s
unfolding add_to_ready_list
add_as_appended t [] s lt o d =
    let in_range : leb max_task_priorities (s.pool.priority t) ≡ false = ground arith in
    rw (in_range, d.chain, append_ready)
add_as_appended t (x ∷ xs) s lt o d =
    let in_range : leb max_task_priorities (s.pool.priority t) ≡ false = ground arith in
    rw (in_range, d.chain.0, append_ready) (rw (← tail, same, twice))
  where
    open s.pool use {next, priority}

    tail : some (find_tail (update next t none) max_tasks x) ≡ last_or (some x) xs
    tail =
        find_tail_lem (update next t none) max_tasks x xs
          (omega (arith, Dll-length max_tasks next s.pool.prev _ (x ∷ xs) d))
          (rw (update_ne next t x none o.0) (Seg-update next t none (next x) none xs o.1 d.chain.1))

    twice :
        update (update s.pool.prev t none) t (some (find_tail (update next t none) max_tasks x))
        ≡ update s.pool.prev t (some (find_tail (update next t none) max_tasks x))
    twice = update-update s.pool.prev t none (some (find_tail (update next t none) max_tasks x))

    same : update s.preemptive.ready_lists (priority t) (some x) ≡ s.preemptive.ready_lists
    same = rw (← d.chain.0) (update-get s.preemptive.ready_lists (priority t))

pub is_nil-append : (xs : List ℕ) (t : ℕ) → is_nil (xs ++ t ∷ []) ≡ false
is_nil-append [] t = refl
is_nil-append (x ∷ xs) t = refl

-- The map after an addition at priority `p`.
map_appended :
    (t m : ℕ) (ready : ℕ → List ℕ) (p q : ℕ)
    → m < 256
    → p < max_task_priorities
    → q < max_task_priorities
    → has_bit m p ≡ not (is_nil (ready p))
    → has_bit m q ≡ not (is_nil (ready q))
    → let m' = if is_nil (ready p) then set_bit m p else m in
      (m' < 256) × (has_bit m' q ≡ not (is_nil (update ready p (ready p ++ t ∷ []) q)))
map_appended t m ready p q hm hp hq bp bq = elim (Bool-cases (q == p)) [
  | inl e ↦
      rw (e, is_nil-append (ready p) t)
        (rw (==-eq q p e) (ground (arith, has_bit-set_bit m p p hm hp hp)))
  | inr e ↦ rw e (ground (arith, has_bit-set_bit m p q hm hp hq))
]

-- With the lists in order, adding a task that is in no list, its index and its priority in range,
-- puts it at the end of the list of its priority, sets the bit of that priority, and leaves every
-- other list as it was.
pub add_to_ready_list-Holds :
    (t : ℕ) (s : Sys) (place : ℕ → Place) (ready : ℕ → List ℕ) (delayed : List ℕ)
    → Holds s place ready delayed
    → t < max_tasks
    → s.pool.priority t < max_task_priorities
    → place t ≡ nowhere
    → let p = s.pool.priority t in
      Holds
        (add_to_ready_list t s)
        (update place t (in_ready p))
        (update ready p (ready p ++ t ∷ []))
        delayed
add_to_ready_list-Holds t s place ready delayed h small in_range away =
    rw (add_as_appended t (ready p) s in_range o (h.ready_list p in_range)) (record {
      ready_list = λ q lt.
          update-both (λ q a xs. q < max_task_priorities → Dll max_tasks next' prev' a xs)
            s.preemptive.ready_lists ready p q (head_to (ready p) _ (some t)) (ready p ++ t ∷ [])
            (λ _. Dll-append max_tasks next prev _ t (ready p) o small (h.ready_list p in_range))
            (λ ne lt.
              framed _ (ready q) (in_ready q) (h.ready_place q) (λ e. ground arith)
                (λ e. ground arith) (h.ready_list q lt))
            lt;
      delayed_list = framed _ delayed in_delayed h.delayed_place (λ e. cc) (λ e. cc) h.delayed_list;
      ready_place = λ q.
          update-both (λ q (_ : Unit {0}) xs. All (λ x. place' x ≡ in_ready q) xs) (λ _. tt) ready p
            q tt (ready p ++ t ∷ [])
            (All-append (λ x. place' x ≡ in_ready p) (ready p) (t ∷ [])
              (All-place_update place t _ _ (ready p) o (h.ready_place p))
              (update_self place t (in_ready p), tt))
            (λ ne.
              All-place_update place t _ _ (ready q)
                (outside _ (ready q) (h.ready_place q) (λ e. cc)) (h.ready_place q));
      delayed_place =
          All-place_update place t _ _ delayed (outside _ delayed h.delayed_place (λ e. cc))
            h.delayed_place;
      ready_priority = λ q.
          update-both (λ q (_ : Unit {0}) xs. All (λ x. s.pool.priority x ≡ q) xs) (λ _. tt) ready p
            q tt (ready p ++ t ∷ [])
            (All-append (λ x. s.pool.priority x ≡ p) (ready p) (t ∷ []) (h.ready_priority p)
              (refl, tt))
            (λ ne. h.ready_priority q);
      map_small =
          (map_appended t map ready p p h.map_small in_range in_range (h.map p in_range)
            (h.map p in_range)).0;
      map = λ q lt.
          (map_appended t map ready p q h.map_small in_range lt (h.map p in_range) (h.map q lt)).1;
    })
  where
    open s.pool use {next, prev}
    open s.preemptive use {ready_priorities as map}

    p : ℕ
    p = s.pool.priority t

    place' : ℕ → Place
    place' = update place t (in_ready p)

    next' : ℕ → Option ℕ
    next' = update? (update next t none) (last_or none (ready p)) (some t)

    prev' : ℕ → Option ℕ
    prev' = update prev t (last_or none (ready p))

    outside : (a : Place) (xs : List ℕ) → All (λ x. place x ≡ a) xs → a ≢ nowhere → NotIn t xs
    outside a xs at ne = NotIn-place place a t xs at (λ e. ne (sym e ∙ away))

    o : NotIn t (ready p)
    o = outside (in_ready p) (ready p) (h.ready_place p) (λ e. cc)

    framed :
        (k : Option ℕ) (zs : List ℕ) (a : Place)
        → All (λ x. place x ≡ a) zs
        → a ≢ in_ready p
        → a ≢ nowhere
        → Dll max_tasks next prev k zs
        → Dll max_tasks next' prev' k zs
    framed k zs a at ne nw d =
        Dll-insert_frame max_tasks next prev k t (ready p) [] zs
          (Apart-place place (in_ready p) a (ready p) zs (h.ready_place p) at ne) (Apart-nil zs)
          (outside a zs at nw) d
