-- ===== src/Sync/EventGroup/Scan.antt =====
-- The scan of an event group's waiting list against the list of the tasks that wait.
use vrtos.Base.{
  ℕ, zero, suc, ◌≤◌, ◌<◌, ◌≡◌, ◌≢◌, update?_last, refl, sym, ap, ◌∙◌, Bool, Option, none, some,
  List, [], ◌∷◌, ◌++◌, inl, inr, arith, if◌then◌else◌, is_null, update, update?, update_self,
  update_ne, first, last_or, head_to-last_or, length, All, All-map, All-append, All-left, All-right,
  NotIn, IsDistinct, IsDistinct-remove, Chain, Seg-update, Chain-remove, Chain-next,
  IsSorted-remove, append_assoc, Bool-cases, bit_or, Seg-frame,
}
use vrtos.State.{Sys, event_group, sync_none, sync_event_group, max_tasks}
use vrtos.Sync.WaitList.Laws.{Waiting}
use vrtos.Sync.EventGroup.{condition_met, take_out, Found, found, scan}

-- The tasks that stay, and those that leave, the last of them first and before those of `ws`.
abbrev pub kept : (ℕ → Bool) → List ℕ → List ℕ
kept met [] = []
kept met (x ∷ xs) = if met x then kept met xs else x ∷ kept met xs

abbrev pub woken : (ℕ → Bool) → List ℕ → List ℕ → List ℕ
woken met ws [] = ws
woken met ws (x ∷ xs) = if met x then woken met (x ∷ ws) xs else woken met ws xs

-- The bits of those that leave and ask for a clear on exit, on top of `b`.
abbrev pub asked : (ℕ → Bool) → (ℕ → Bool) → (ℕ → ℕ) → ℕ → List ℕ → ℕ
asked met clears bits_of b [] = b
asked met clears bits_of b (x ∷ xs) =
    if met x
    then asked met clears bits_of (if clears x then bit_or b (bits_of x) else b) xs
    else asked met clears bits_of b xs

-- Whether the condition of a task that waits for `wait x` is met.
abbrev pub met_by : ℕ → (ℕ → Bool) → (ℕ → ℕ) → ℕ → Bool
met_by bits wait_all wait x = condition_met bits (wait x) (wait_all x)

-- In the middle of the scan: `xs` are on the waiting list, `rest` of them with their first bits, and
-- `ws` on the list of those to be woken.
pub record Scanning (e : ℕ) (wait : ℕ → ℕ) (s : Sys) (w : Found) (xs rest ws : List ℕ)
    : Type 0 where
  pub waiting : Waiting s (event_group e) sync_event_group (s.event_groups.waiting_list e) xs
  pub wakes : Chain s.pool.next_waiting w.wake_list ws
  pub apart : All (λ t. NotIn t xs) ws
  pub distinct : IsDistinct ws
  pub small : All (λ t. t < max_tasks) ws
  pub asks : All (λ x. s.pool.event_wait_bits x ≡ wait x) rest
  pub freed : All (λ t. s.pool.blocked_on t ≡ none) ws
  pub snapshots : All (λ t. s.pool.event_wait_bits t ≡ s.event_groups.bits e) ws

All-skip {κ} : (P : ℕ → Type κ) (c : ℕ) (ls cs : List ℕ) → All P (ls ++ c ∷ cs) → All P (ls ++ cs)
All-skip P c ls cs a = All-append P ls cs (All-left P ls (c ∷ cs) a) (All-right P ls (c ∷ cs) a).1

-- A write at `t` and the values of others.
All-update_of :
    {A : Type 0} (f g : ℕ → A) (t : ℕ) (v : A) (xs : List ℕ)
    → NotIn t xs
    → All (λ x. f x ≡ g x) xs
    → All (λ x. update f t v x ≡ g x) xs
All-update_of f g t v [] n h = tt
All-update_of f g t v (x ∷ xs) n h = (update_ne f t x v n.0 ∙ h.0, All-update_of f g t v xs n.1 h.1)

take_out-Scanning :
    (e c : ℕ) (wait : ℕ → ℕ) (s : Sys) (w : Found) (ls cs ws : List ℕ)
    → Scanning e wait s w (ls ++ c ∷ cs) (c ∷ cs) ws
    → Scanning e wait
        (take_out e (last_or none ls) c w.wake_list s)
        (found c s w)
        (ls ++ cs)
        cs
        (c ∷ ws)
unfolding take_out found
take_out-Scanning e c wait s w ls cs ws r = record {
  waiting = record {
    chain =
        rw (update_self s.event_groups.waiting_list e head, head_to-last_or ls old (nx c))
          (Seg-update links c w.wake_list _ none (ls ++ cs) others.0
            (Chain-remove nx old c ls cs r.waiting.distinct r.waiting.chain));
    distinct = others.1;
    small = All-skip _ c ls cs r.waiting.small;
    sorted =
        IsSorted-remove (λ x y. s.pool.priority y ≤ s.pool.priority x) c ls cs r.waiting.sorted;
    object_is =
        All-update_of s.pool.blocked_on (λ _. some (event_group e)) c none (ls ++ cs) others.0
          (All-skip _ c ls cs r.waiting.object_is);
    type_is =
        All-update_of s.pool.blocked_on_type (λ _. sync_event_group) c sync_none (ls ++ cs) others.0
          (All-skip _ c ls cs r.waiting.type_is);
  };
  wakes = (
    refl,
    rw (update_self links c w.wake_list)
        (Seg-update links c w.wake_list w.wake_list none ws apart_from past),
  );
  apart = (others.0, All-map _ _ ws (λ t n. All-skip (λ x. x ≢ t) c ls cs n) r.apart);
  distinct = (apart_from, r.distinct);
  small = ((All-right (λ x. x < max_tasks) ls (c ∷ cs) r.waiting.small).0, r.small);
  asks =
      All-update_of s.pool.event_wait_bits wait c _ cs (All-right (λ x. x ≢ c) ls cs others.0)
        r.asks.1;
  freed = (
    update_self s.pool.blocked_on c none,
    All-update_of s.pool.blocked_on (λ _. none) c none ws apart_from r.freed,
  );
  snapshots = (
    update_self s.pool.event_wait_bits c _,
    All-update_of s.pool.event_wait_bits (λ _. s.event_groups.bits e) c _ ws apart_from r.snapshots,
  );
}
  where
    nx : ℕ → Option ℕ
    nx = s.pool.next_waiting

    old : Option ℕ
    old = s.event_groups.waiting_list e

    head : Option ℕ
    head = if is_null (last_or none ls) then nx c else old

    links : ℕ → Option ℕ
    links = update? nx (last_or none ls) (nx c)

    others : NotIn c (ls ++ cs) × IsDistinct (ls ++ cs)
    others = IsDistinct-remove c ls cs r.waiting.distinct

    apart_from : NotIn c ws
    apart_from =
        All-map _ (λ t. t ≢ c) ws (λ t n e. (All-right (λ x. x ≢ t) ls (c ∷ cs) n).0 (sym e))
          r.apart

    past : Chain links w.wake_list ws
    past =
        Seg-frame nx links w.wake_list none ws
          (All-map _ (λ t. links t ≡ nx t) ws
            (λ t n. update?_last nx none ls (nx c) t tt (All-left (λ x. x ≢ t) ls (c ∷ cs) n))
            r.apart)
          r.wakes

last_or-append : (c : ℕ) (p : Option ℕ) (ls : List ℕ) → last_or p (ls ++ c ∷ []) ≡ some c
last_or-append c p [] = refl
last_or-append c p (x ∷ xs) = last_or-append c (some x) xs

-- All of the state but what the scan writes to.
abbrev pub Framed : Sys → Sys → Type 0
Framed s s' = s' ≡ record s {
  pool = record s.pool {
    event_wait_bits = s'.pool.event_wait_bits;
    next_waiting = s'.pool.next_waiting;
    blocked_on = s'.pool.blocked_on;
    blocked_on_type = s'.pool.blocked_on_type;
  };
  event_groups = record s.event_groups { waiting_list = s'.event_groups.waiting_list };
}

-- The end of a scan that began in `s`: `xs` stay, `ws` are to be woken, and `to_clear` is to be cleared.
abbrev pub Ended : ℕ → (ℕ → ℕ) → Sys → List ℕ → List ℕ → ℕ → Sys × Found → Type 0
Ended e wait s xs ws to_clear (s', w') =
    Scanning e wait s' w' xs [] ws × (w'.bits_to_clear ≡ to_clear) × Framed s s'

Ended-place :
    (e : ℕ) (wait : ℕ → ℕ) (s : Sys) (xs xs' ws : List ℕ) (b : ℕ)
    (go : Option ℕ → Option ℕ → Sys × Found) (p p' n n' : Option ℕ)
    → xs ≡ xs'
    → p ≡ p'
    → n ≡ n'
    → Ended e wait s xs ws b (go p n)
    → Ended e wait s xs' ws b (go p' n')
Ended-place e wait s xs xs' ws b go p p' n n' ex ep en h = rw (sym ex, sym ep, sym en) h

-- The scan passes over those that stay, and moves the others to the list of those to be woken.
pub scan-Ended :
    (f e : ℕ) (wait : ℕ → ℕ) (s : Sys) (w : Found) (ls rest ws : List ℕ)
    → length rest ≤ f
    → Scanning e wait s w (ls ++ rest) rest ws
    → let met = met_by (s.event_groups.bits e) s.pool.event_wait_all wait in
      Ended e wait s
        (ls ++ kept met rest)
        (woken met ws rest)
        (asked met s.pool.event_clear_on_exit wait w.bits_to_clear rest)
        (scan f e (last_or none ls) (first rest) w s)
unfolding scan take_out found
scan-Ended zero e wait s w ls [] ws l r = (r, refl, refl)
scan-Ended zero e wait s w ls (c ∷ cs) ws l r = absurd (omega arith)
scan-Ended (suc f) e wait s w ls [] ws l r = (r, refl, refl)
scan-Ended (suc f) e wait s w ls (c ∷ cs) ws l r =
    let taken =
      scan-Ended f e wait out (found c s w) ls cs (c ∷ ws) (omega arith)
        (take_out-Scanning e c wait s w ls cs ws r) in
    let passed = scan-Ended f e wait s w (ls ++ c ∷ []) cs ws (omega arith) moved in
    elim (Bool-cases (met c)) [
      | inl y ↦
          rw (found_met ∙ y, y)
            (Ended-place e wait s (ls ++ kept met cs) (ls ++ kept met cs) (woken met (c ∷ ws) cs)
              (asked met s.pool.event_clear_on_exit wait asked_too cs)
              (λ p n. scan f e p n (found c s w) out) _ _ _ _ refl refl (sym next)
              (taken.0, taken.1 ∙ bits, taken.2))
      | inr n ↦
          rw (found_met ∙ n, n)
            (Ended-place e wait s ((ls ++ c ∷ []) ++ kept met cs) (ls ++ c ∷ kept met cs)
              (woken met ws cs) (asked met s.pool.event_clear_on_exit wait w.bits_to_clear cs)
              (λ p n. scan f e p n w s) _ _ _ _ (behind (kept met cs)) (last_or-append c none ls)
              (sym next) passed)
    ]
  where
    met : ℕ → Bool
    met = met_by (s.event_groups.bits e) s.pool.event_wait_all wait

    found_met :
        condition_met (s.event_groups.bits e) (s.pool.event_wait_bits c) (s.pool.event_wait_all c)
        ≡ met c
    found_met = ap (λ v. condition_met (s.event_groups.bits e) v (s.pool.event_wait_all c)) r.asks.0

    next : s.pool.next_waiting c ≡ first cs
    next = Chain-next s.pool.next_waiting _ c ls cs r.waiting.chain

    out : Sys
    out = take_out e (last_or none ls) c w.wake_list s

    asked_too : ℕ
    asked_too =
        if s.pool.event_clear_on_exit c then bit_or w.bits_to_clear (wait c) else w.bits_to_clear

    bits :
        asked met s.pool.event_clear_on_exit wait (found c s w).bits_to_clear cs
        ≡ asked met s.pool.event_clear_on_exit wait asked_too cs
    bits =
        ap
          (λ v.
            asked met s.pool.event_clear_on_exit wait
              (if s.pool.event_clear_on_exit c then bit_or w.bits_to_clear v else w.bits_to_clear)
              cs)
          r.asks.0

    behind : (xs : List ℕ) → (ls ++ c ∷ []) ++ xs ≡ ls ++ c ∷ xs
    behind xs = append_assoc ls (c ∷ []) xs

    moved : Scanning e wait s w ((ls ++ c ∷ []) ++ cs) cs ws
    moved = rw (behind cs) (record {
      waiting = r.waiting;
      wakes = r.wakes;
      apart = r.apart;
      distinct = r.distinct;
      small = r.small;
      asks = r.asks.1;
      freed = r.freed;
      snapshots = r.snapshots;
    })
