-- ===== src/Sync/WaitList/Laws.antt =====
-- The operations of a waiting list against the list of the tasks that wait.
use vrtos.Base.{
  ℕ, ◌<◌, ◌≤◌, ◌≡◌, refl, ◌∙◌, Bool, false, Option, none, some, List, [], ◌∷◌, ◌++◌, inl, inr,
  arith, leb→le, lt_of_leb, ◌==◌, is_null, update, update?, update_self, update_ne, walk, walk_lem,
  first, last_or, last_or-some, head_to, length, All, All-append, NotIn, IsDistinct,
  IsDistinct-insert, Chain, Seg-update, Chain-insert, Chain-head, length-le_of_distinct, IsSorted,
  IsSorted-insert, All-take_while, All-drop_while, take_while, drop_while, take_while-drop_while,
  Bool-cases,
}
use vrtos.Scheduler.Frame.{View, view}
use vrtos.State.{
  TaskState, PreemptiveData, Instance, Sys, Mutexes, Semaphores, EventGroups, Queues, Object,
  SyncType, max_tasks,
}
use vrtos.Sync.WaitList.{
  clear_wait, start_wait, stays_before, link_waiter, insert, unlink_waiter, remove, remove_from,
  pop,
}

-- The tasks `xs` wait for `object`, from `head` on, the highest priority first.
pub record Waits (next_waiting : ℕ → Option ℕ) (priority : ℕ → ℕ) (blocked_on : ℕ → Option Object)
    (blocked_on_type : ℕ → SyncType) (object : Object) (type : SyncType) (head : Option ℕ)
    (xs : List ℕ) : Type 0 where
  pub chain : Chain next_waiting head xs
  pub distinct : IsDistinct xs
  pub small : All (λ x. x < max_tasks) xs
  pub sorted : IsSorted (λ x y. priority y ≤ priority x) xs
  pub object_is : All (λ x. blocked_on x ≡ some object) xs
  pub type_is : All (λ x. blocked_on_type x ≡ type) xs

abbrev pub WaitsIn : View → Object → SyncType → Option ℕ → List ℕ → Type 0
WaitsIn v = Waits v.next_waiting v.priority v.blocked_on v.blocked_on_type

abbrev pub Waiting : Sys → Object → SyncType → Option ℕ → List ℕ → Type 0
Waiting s = WaitsIn (view s)

pub small_length :
    (xs : List ℕ) → All (λ x. x < max_tasks) xs → IsDistinct xs → length xs ≤ max_tasks
small_length xs small distinct = length-le_of_distinct max_tasks xs small distinct

All-update :
    {A : Type 0} (f : ℕ → A) (t : ℕ) (v a : A) (xs : List ℕ)
    → NotIn t xs
    → All (λ x. f x ≡ a) xs
    → All (λ x. update f t v x ≡ a) xs
All-update f t v a [] n h = tt
All-update f t v a (x ∷ xs) n h = (update_ne f t x v n.0 ∙ h.0, All-update f t v a xs n.1 h.1)

-- What a task's own wait fields hold is of no concern to a list that it is not in.
pub Waiting-clear_wait :
    (t : ℕ) (s : Sys) (o : Object) (type : SyncType) (h : Option ℕ) (xs : List ℕ)
    → NotIn t xs
    → Waiting s o type h xs
    → Waiting (clear_wait t s) o type h xs
Waiting-clear_wait t s o type h xs n w = record {
  chain = Seg-update s.pool.next_waiting t none h none xs n w.chain;
  distinct = w.distinct;
  small = w.small;
  sorted = w.sorted;
  object_is = All-update s.pool.blocked_on t _ _ xs n w.object_is;
  type_is = All-update s.pool.blocked_on_type t _ _ xs n w.type_is;
}

-- The place of a new waiter: behind all of its priority or higher.
abbrev pub before_waiter : Sys → ℕ → List ℕ → List ℕ
before_waiter s t xs = take_while (stays_before s (s.pool.priority t)) xs

abbrev pub after_waiter : Sys → ℕ → List ℕ → List ℕ
after_waiter s t xs = drop_while (stays_before s (s.pool.priority t)) xs

link_waiter-links :
    (head : Option ℕ) (t : ℕ) (s : Sys) (xs ys : List ℕ)
    → head ≡ first (xs ++ ys)
    → let (s', head') = link_waiter head t (last_or none xs, first ys) s in
      (s' ≡ record s {
        pool = record s.pool {
          next_waiting =
              update? (update s.pool.next_waiting t (first ys)) (last_or none xs) (some t);
        };
      })
      × (head' ≡ head_to xs head (some t))
unfolding link_waiter
link_waiter-links head t s [] ys e = rw e (refl, refl)
link_waiter-links head t s (x ∷ xs) ys e = go (last_or (some x) xs) (last_or-some x xs)
  where
    go :
        (before : Option ℕ)
        → is_null before ≡ false
        → let (s', head') = link_waiter head t (before, first ys) s in
          (s' ≡ record s {
            pool = record s.pool {
              next_waiting = update? (update s.pool.next_waiting t (first ys)) before (some t);
            };
          })
          × (head' ≡ head)
    go none e = cc
    go (some b) e = (refl, refl)

-- A task outside the list, its index in range, goes behind the leading waiters of its priority or
-- a higher one, and before the rest: the list stays in the order of the priorities, first come
-- first served within one.
pub insert-Waiting :
    (t : ℕ) (s : Sys) (o : Object) (type : SyncType) (head : Option ℕ) (xs : List ℕ)
    → Waiting s o type head xs
    → t < max_tasks
    → NotIn t xs
    → let (s', head') = insert head t (start_wait o type t s) in
      Waiting s' o type head' (before_waiter s t xs ++ t ∷ after_waiter s t xs)
unfolding insert
insert-Waiting t s o type head xs w small n =
    let links = link_waiter-links head t s₁ ls bs (rw whole (Chain-head _ head xs w.chain)) in
    rw found (
      rw (links.0, links.1)
        (record {
          chain =
              Chain-insert s₁.pool.next_waiting head t ls bs (rw whole n) (rw whole w.distinct)
                (rw whole chain₁);
          distinct = IsDistinct-insert t ls bs (rw whole n) (rw whole w.distinct);
          small =
              All-append (λ x. x < max_tasks) ls (t ∷ bs) (All-take_while _ go xs w.small)
                (small, All-drop_while _ go xs w.small);
          sorted =
              IsSorted-insert (λ x y. s.pool.priority y ≤ s.pool.priority x) t go
                (λ c e. omega (arith, lt_of_leb _ _ e)) (λ c d p q. omega arith) xs
                (λ c e. leb→le _ _ e) (rw whole w.sorted) w.sorted;
          object_is =
              All-append _ ls (t ∷ bs) (All-take_while _ go xs objects)
                (update_self s.pool.blocked_on t _, All-drop_while _ go xs objects);
          type_is =
              All-append _ ls (t ∷ bs) (All-take_while _ go xs types)
                (update_self s.pool.blocked_on_type t _, All-drop_while _ go xs types);
        }))
  where
    go : ℕ → Bool
    go = stays_before s (s.pool.priority t)

    ls : List ℕ
    ls = before_waiter s t xs

    bs : List ℕ
    bs = after_waiter s t xs

    whole : ls ++ bs ≡ xs
    whole = take_while-drop_while go xs

    s₁ : Sys
    s₁ = start_wait o type t s

    chain₁ : Chain s₁.pool.next_waiting head xs
    chain₁ = Seg-update s.pool.next_waiting t none head none xs n w.chain

    found :
        walk (stays_before s₁ (s.pool.priority t)) s₁.pool.next_waiting max_tasks none head
        ≡ (last_or none ls, first bs)
    found =
        walk_lem s₁.pool.next_waiting go max_tasks none head xs (small_length _ w.small w.distinct)
          chain₁

    objects : All (λ x. s₁.pool.blocked_on x ≡ some o) xs
    objects = All-update s.pool.blocked_on t _ _ xs n w.object_is

    types : All (λ x. s₁.pool.blocked_on_type x ≡ type) xs
    types = All-update s.pool.blocked_on_type t _ _ xs n w.type_is

-- With the waiters in order, the first is taken out and waits for nothing any more; the others
-- keep their order, and none of them has a higher priority.
pub pop-Waiting :
    (x : ℕ) (s : Sys) (o : Object) (type : SyncType) (head : Option ℕ) (xs : List ℕ)
    → Waiting s o type head (x ∷ xs)
    → let (s', head', popped) = pop head s in
      (popped ≡ some x)
      × Waiting s' o type head' xs
      × (s'.pool.blocked_on x ≡ none)
      × All (λ y. s.pool.priority y ≤ s.pool.priority x) xs
unfolding pop
pop-Waiting x s o type head xs w = rw w.chain.0 (
  refl,
  Waiting-clear_wait x s o type (s.pool.next_waiting x) xs w.distinct.0 (record {
    chain = w.chain.1;
    distinct = w.distinct.1;
    small = w.small.1;
    sorted = w.sorted.1;
    object_is = w.object_is.1;
    type_is = w.type_is.1;
  }),
  update_self s.pool.blocked_on x none,
  w.sorted.0,
)

-- The objects besides the tasks, and the priorities of the tasks.
abbrev pub objects : Sys → Mutexes × Semaphores × EventGroups × Queues × (ℕ → ℕ)
objects s = (s.mutexes, s.semaphores, s.event_groups, s.queues, s.pool.priority)

pub insert-objects : (head : Option ℕ) (t : ℕ) (s : Sys) → objects (insert head t s).0 ≡ objects s
unfolding insert link_waiter
insert-objects head t s =
    go (walk (stays_before s (s.pool.priority t)) s.pool.next_waiting max_tasks none head)
  where
    go : (place : Option ℕ × Option ℕ) → objects (link_waiter head t place s).0 ≡ objects s
    go (none, after) = refl
    go (some b, after) = refl

pub remove-objects : (head : Option ℕ) (t : ℕ) (s : Sys) → objects (remove head t s).0 ≡ objects s
unfolding remove remove_from unlink_waiter
remove-objects none t s = refl
remove-objects (some h) t s = elim (Bool-cases (h == t)) [ inl e ↦ rw e refl | inr e ↦ rw e refl ]

-- What the scheduler reads of the tasks, and its own data.
abbrev pub scheduled :
    Sys → (ℕ → Option ℕ) × (ℕ → Option ℕ) × (ℕ → ℕ) × (ℕ → TaskState) × PreemptiveData × Instance
scheduled s = (s.pool.next, s.pool.prev, s.pool.priority, s.pool.state, s.preemptive, s.scheduler)

pub insert-scheduled :
    (head : Option ℕ) (t : ℕ) (s : Sys) → scheduled (insert head t s).0 ≡ scheduled s
unfolding insert link_waiter
insert-scheduled head t s =
    go (walk (stays_before s (s.pool.priority t)) s.pool.next_waiting max_tasks none head)
  where
    go : (place : Option ℕ × Option ℕ) → scheduled (link_waiter head t place s).0 ≡ scheduled s
    go (none, after) = refl
    go (some b, after) = refl
