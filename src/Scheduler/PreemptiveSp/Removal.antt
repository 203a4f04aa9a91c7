-- ===== src/Scheduler/PreemptiveSp/Removal.antt =====
-- The ready lists of preemptive_sp.c: taking a task out, and what becomes of a list when the task
-- that is taken out is not in it.
use vrtos.Base.{
  ==_self, ℕ, ◌<◌, ◌≡◌, ◌≢◌, refl, sym, ◌∙◌, true, false, not, Option, none, List, [], ◌∷◌, ◌++◌,
  inl, inr, arith, leb, ◌==◌, if◌then◌else◌, is_null, update, update?, update-both, update_self,
  first, All, NotIn, IsDistinct, Dll, Dll-remove, Dll-remove_frame, Chain-next, Back-prev,
  Chain-head, Apart-place, NotIn-place, All-place_update, All-append, All-left, All-right,
  IsDistinct-remove, has_bit, clear_bit, has_bit-clear_bit, Bool-cases, ==-eq,
}
use vrtos.State.{Sys, max_tasks, max_task_priorities}
use vrtos.Scheduler.PreemptiveSp.{remove_from_ready_list}
use vrtos.Scheduler.PreemptiveSp.Lists.{Place, nowhere, in_ready, in_delayed, is_nil, Holds}

is_null-first : (xs : List ℕ) → is_null (first xs) ≡ is_nil xs
is_null-first [] = refl
is_null-first (x ∷ xs) = refl

not-is_nil-middle : (xs ys : List ℕ) (t : ℕ) → is_nil (xs ++ t ∷ ys) ≡ false
not-is_nil-middle [] ys t = refl
not-is_nil-middle (x ∷ xs) ys t = refl

-- The map after a removal at priority `p` leaves `rest`.
map_removed :
    (m : ℕ) (ready : ℕ → List ℕ) (p q : ℕ) (head : Option ℕ) (rest : List ℕ)
    → head ≡ first rest
    → m < 256
    → p < max_task_priorities
    → q < max_task_priorities
    → has_bit m p ≡ true
    → has_bit m q ≡ not (is_nil (ready q))
    → let m' = if is_null head then clear_bit m p else m in
      (m' < 256) × (has_bit m' q ≡ not (is_nil (update ready p rest q)))
map_removed m ready p q head rest eh hm hp hq bp bq = elim (Bool-cases (q == p)) [
  | inl e ↦
      rw (e, eh, is_null-first rest)
        (rw (==-eq q p e) (ground (arith, has_bit-clear_bit m p p hm hp hp)))
  | inr e ↦ rw (e, eh, is_null-first rest) (ground (arith, has_bit-clear_bit m p q hm hp hq))
]

-- With the lists in order, taking out a task that stands in the list of its priority, which is in
-- range, leaves the others of that list in their order, clears the bit of the priority when none
-- is left, and leaves every other list as it was.
pub remove_from_ready_list-Holds :
    (t : ℕ) (xs ys : List ℕ) (s : Sys) (place : ℕ → Place) (ready : ℕ → List ℕ) (delayed : List ℕ)
    → Holds s place ready delayed
    → s.pool.priority t < max_task_priorities
    → ready (s.pool.priority t) ≡ xs ++ t ∷ ys
    → let p = s.pool.priority t in
      Holds
        (remove_from_ready_list t s)
        (update place t nowhere)
        (update ready p (xs ++ ys))
        delayed
unfolding remove_from_ready_list
remove_from_ready_list-Holds t xs ys s place ready delayed h in_range split =
    let stays : leb max_task_priorities p ≡ false = ground arith in
    rw stays (record {
      ready_list = λ q lt.
          update-both (λ q a xs. q < max_task_priorities → Dll max_tasks next' prev' a xs)
            s.preemptive.ready_lists ready p q _ (xs ++ ys) (λ _. removed)
            (λ ne lt.
              framed _ (ready q) (in_ready q) (h.ready_place q) (λ e. ground arith)
                (h.ready_list q lt))
            lt;
      delayed_list = framed _ delayed in_delayed h.delayed_place (λ e. cc) h.delayed_list;
      ready_place = λ q.
          update-both (λ q (_ : Unit {0}) xs. All (λ x. place' x ≡ in_ready q) xs) (λ _. tt) ready p
            q tt (xs ++ ys)
            (All-place_update place t _ _ (xs ++ ys) others.0
              (rest (λ x. place x ≡ in_ready p) (h.ready_place p)))
            (λ ne.
              All-place_update place t _ _ (ready q)
                (outside _ (ready q) (h.ready_place q) (λ e. ground arith)) (h.ready_place q));
      delayed_place =
          All-place_update place t _ _ delayed (outside _ delayed h.delayed_place (λ e. cc))
            h.delayed_place;
      ready_priority = λ q.
          update-both (λ q (_ : Unit {0}) xs. All (λ x. s.pool.priority x ≡ q) xs) (λ _. tt) ready p
            q tt (xs ++ ys) (rest (λ x. s.pool.priority x ≡ p) (h.ready_priority p))
            (λ ne. h.ready_priority q);
      map_small = (bits p in_range).0;
      map = λ q lt. (bits q lt).1;
    })
  where
    open s.pool use {next, prev}
    open s.preemptive use {ready_priorities as map, ready_lists}

    p : ℕ
    p = s.pool.priority t

    place' : ℕ → Place
    place' = update place t nowhere

    next' : ℕ → Option ℕ
    next' = update (update? next (prev t) (next t)) t none

    prev' : ℕ → Option ℕ
    prev' = update (update? prev (next t) (prev t)) t none

    head : Option ℕ
    head = if is_null (prev t) then next t else ready_lists p

    old : Dll max_tasks next prev (ready_lists p) (xs ++ t ∷ ys)
    old = rw (← split) (h.ready_list p in_range)

    removed : Dll max_tasks next' prev' head (xs ++ ys)
    removed = Dll-remove max_tasks next prev (ready_lists p) t xs ys old

    others : NotIn t (xs ++ ys) × IsDistinct (xs ++ ys)
    others = IsDistinct-remove t xs ys old.distinct

    rest : (P : ℕ → Type 0) → All P (ready p) → All P (xs ++ ys)
    rest P a =
        let a' : All P (xs ++ t ∷ ys) = rw (← split) a in
        All-append P xs ys (All-left P xs (t ∷ ys) a') (All-right P xs (t ∷ ys) a').1

    here : place t ≡ in_ready p
    here =
        let a : All (λ x. place x ≡ in_ready p) (xs ++ t ∷ ys) = rw (← split) (h.ready_place p) in
        (All-right (λ x. place x ≡ in_ready p) xs (t ∷ ys) a).0

    outside : (a : Place) (zs : List ℕ) → All (λ x. place x ≡ a) zs → a ≢ in_ready p → NotIn t zs
    outside a zs at ne = NotIn-place place a t zs at (λ e. ne (sym e ∙ here))

    framed :
        (k : Option ℕ) (zs : List ℕ) (a : Place)
        → All (λ x. place x ≡ a) zs
        → a ≢ in_ready p
        → Dll max_tasks next prev k zs
        → Dll max_tasks next' prev' k zs
    framed k zs a at ne d =
        Dll-remove_frame max_tasks next prev k t xs ys zs
          (Apart-place place (in_ready p) a xs zs
            (All-left _ xs (t ∷ ys) (rw (← split) (h.ready_place p))) at ne)
          (Apart-place place (in_ready p) a ys zs
            (All-right _ xs (t ∷ ys) (rw (← split) (h.ready_place p))).1 at ne)
          (outside a zs at ne) d (Chain-next next (ready_lists p) t xs ys old.chain)
          (Back-prev prev t xs ys old.back)

    bits :
        (q : ℕ)
        → q < max_task_priorities
        → let m' = if is_null head then clear_bit map p else map in
          (m' < 256) × (has_bit m' q ≡ not (is_nil (update ready p (xs ++ ys) q)))
    bits q lt =
        map_removed map ready p q head (xs ++ ys) (Chain-head next' head (xs ++ ys) removed.chain)
          h.map_small in_range lt (h.map p in_range ∙ rw (split, not-is_nil-middle xs ys t))
          (h.map q lt)

-- Taking out a task whose links are NULL, its priority in range, leaves the ready list of that
-- priority empty and the bit of the priority clear, whatever the list held.
pub remove_from_ready_list-unlinked :
    (t : ℕ) (s : Sys)
    → s.pool.priority t < max_task_priorities
    → s.preemptive.ready_priorities < 256
    → s.pool.next t ≡ none
    → s.pool.prev t ≡ none
    → let p = s.pool.priority t in
      let s' = remove_from_ready_list t s in
      (s'.preemptive.ready_lists p ≡ none) × (has_bit s'.preemptive.ready_priorities p ≡ false)
unfolding remove_from_ready_list
remove_from_ready_list-unlinked t s lt small e₁ e₂ =
    let p = s.pool.priority t in
    let stays : leb max_task_priorities p ≡ false = ground arith in
    rw (stays, e₁, e₂)
      (
        update_self s.preemptive.ready_lists p none,
        ground (arith, has_bit-clear_bit s.preemptive.ready_priorities p p small lt lt),
      )

-- A task that is taken out has no links any more.
pub remove_from_ready_list-links :
    (t : ℕ) (s : Sys)
    → s.pool.priority t < max_task_priorities
    → let s' = remove_from_ready_list t s in (s'.pool.next t ≡ none) × (s'.pool.prev t ≡ none)
unfolding remove_from_ready_list
remove_from_ready_list-links t s lt =
    let stays : leb max_task_priorities (s.pool.priority t) ≡ false = ground arith in
    rw (stays, ==_self t) (refl, refl)
