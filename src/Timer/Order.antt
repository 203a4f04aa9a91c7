-- ===== src/Timer/Order.antt =====
-- The list of the active timers, on a clock that does not wrap: `due x` is the time of which the
-- timer's `expiry_time` holds the low 32 bits.
use vrtos.Base.{
  ℕ, ◌+◌, ◌%◌, ◌^◌, ◌≤◌, ◌<◌, ◌≡◌, refl, ◌∙◌, ap, ap₂, Bool, true, false, not, none, some, List, [],
  ◌∷◌, ◌++◌, inl, inr, arith, leb, leb→le, lt_of_leb, update, update?, find_before, find_before_lem,
  first, last_or, head_to, length, length-append, All, All-append, All-take_while, All-drop_while,
  NotIn, IsDistinct, IsDistinct-insert, Chain, Chain-insert, IsSorted, IsSorted-insert, take_while,
  drop_while, take_while-drop_while, take_while-agree, Bool-cases, signed_lt_of_near,
}
use vrtos.State.{Sys, Timers}
use vrtos.Timer.{max_timers, insert_from, expires_before, timer_insert_active_list}

-- The timers `xs` are active, in the order of their times, all of which lie in the 2^31 ticks from
-- `low` on.
pub record ActiveTimers (v : Timers) (due : ℕ → ℕ) (low : ℕ) (xs : List ℕ) : Type 0 where
  pub chain : Chain v.next v.active_timers xs
  pub distinct : IsDistinct xs
  pub short : length xs ≤ max_timers
  pub times : All (λ x. v.expiry_time x ≡ due x % 2 ^ 32) xs
  pub sorted : IsSorted (λ x y. due x ≤ due y) xs
  pub window : All (λ x. (low ≤ due x) × (due x < low + 2 ^ 31)) xs

-- The timers that expire no later than the time `d`, and the later ones.
abbrev pub up_to : (ℕ → ℕ) → ℕ → List ℕ → List ℕ
up_to due d xs = take_while (λ x. leb (due x) d) xs

abbrev pub later_than : (ℕ → ℕ) → ℕ → List ℕ → List ℕ
later_than due d xs = drop_while (λ x. leb (due x) d) xs

not-not : (b : Bool) → b ≡ not (not b)
not-not true = refl
not-not false = refl

insert-links :
    (t : ℕ) (s : Sys) (xs : List ℕ)
    → Chain s.timers.next s.timers.active_timers xs
    → length xs ≤ max_timers
    → let go : ℕ → Bool = λ x. not (expires_before s t x) in
      timer_insert_active_list t s ≡ record s {
        timers = record s.timers {
          next =
              update?
                (update s.timers.next t (first (drop_while go xs)))
                (last_or none (take_while go xs))
                (some t);
          active_timers = head_to (take_while go xs) s.timers.active_timers (some t);
        };
      }
unfolding timer_insert_active_list insert_from
insert-links t s [] c short = ap (λ h. insert_from t h s) c
insert-links t s (x ∷ xs) c short =
    ap (λ h. insert_from t h s) c.0 ∙ elim (Bool-cases (expires_before s t x)) [
      | inl e ↦ rw e refl
      | inr e ↦ rw e (
          ap₂
            (λ n l. record s {
              timers = record s.timers { next = update? (update s.timers.next t n) l (some t) };
            })
            found.1 found.0)
    ]
  where
    go : ℕ → Bool
    go y = not (expires_before s t y)

    found :
        (some (find_before (expires_before s t) s.timers.next max_timers x)
          ≡ last_or (some x) (take_while go xs))
        × (s.timers.next (find_before (expires_before s t) s.timers.next max_timers x)
            ≡ first (drop_while go xs))
    found =
        find_before_lem s.timers.next (expires_before s t) go max_timers x xs
          (λ y. not-not (expires_before s t y)) (omega (arith, short)) c.1

-- On the clock that does not wrap, the comparison of the expiry times is the one of the times.
agree_of_near :
    (t : ℕ) (due : ℕ → ℕ) (low : ℕ) (s : Sys) (xs : List ℕ)
    → s.timers.expiry_time t ≡ due t % 2 ^ 32
    → low ≤ due t
    → due t < low + 2 ^ 31
    → All (λ x. s.timers.expiry_time x ≡ due x % 2 ^ 32) xs
    → All (λ x. (low ≤ due x) × (due x < low + 2 ^ 31)) xs
    → All (λ x. not (expires_before s t x) ≡ leb (due x) (due t)) xs
agree_of_near t due low s [] e above below times window = tt
agree_of_near t due low s (x ∷ xs) e above below times window = (
  rw
      (
        e,
        times.0,
        signed_lt_of_near (due t) (due x) (omega (arith, below, window.0))
            (omega (arith, above, window.0)),
      )
      (ground arith),
  agree_of_near t due low s xs e above below times.1 window.1,
)

-- With the active timers in order, one that is not among them, its time in the same 2^31 ticks, goes
-- behind those that expire no later and before the others.
pub insert-ActiveTimers :
    (t : ℕ) (due : ℕ → ℕ) (low : ℕ) (s : Sys) (xs : List ℕ)
    → ActiveTimers s.timers due low xs
    → NotIn t xs
    → length xs < max_timers
    → s.timers.expiry_time t ≡ due t % 2 ^ 32
    → low ≤ due t
    → due t < low + 2 ^ 31
    → ActiveTimers
        (timer_insert_active_list t s).timers
        due
        low
        (up_to due (due t) xs ++ t ∷ later_than due (due t) xs)
insert-ActiveTimers t due low s xs a away room e above below =
    rw (insert-links t s xs a.chain a.short, agree.0, agree.1)
      (record {
        chain =
            Chain-insert s.timers.next s.timers.active_timers t ls bs (rw whole away)
              (rw whole a.distinct) (rw whole a.chain);
        distinct = IsDistinct-insert t ls bs (rw whole away) (rw whole a.distinct);
        short = longer;
        times = placed _ e a.times;
        sorted =
            IsSorted-insert (λ x y. due x ≤ due y) t go (λ c n. omega (arith, lt_of_leb _ _ n))
              (λ c d p q. omega arith) xs (λ c y. leb→le _ _ y) (rw whole a.sorted) a.sorted;
        window = placed _ (above, below) a.window;
      })
  where
    go : ℕ → Bool
    go x = leb (due x) (due t)

    ls : List ℕ
    ls = up_to due (due t) xs

    bs : List ℕ
    bs = later_than due (due t) xs

    whole : ls ++ bs ≡ xs
    whole = take_while-drop_while go xs

    agree :
        (take_while (λ x. not (expires_before s t x)) xs ≡ ls)
        × (drop_while (λ x. not (expires_before s t x)) xs ≡ bs)
    agree = take_while-agree _ go xs (agree_of_near t due low s xs e above below a.times a.window)

    placed : (P : ℕ → Type 0) → P t → All P xs → All P (ls ++ t ∷ bs)
    placed P p h = All-append P ls (t ∷ bs) (All-take_while P go xs h) (p, All-drop_while P go xs h)

    longer : length (ls ++ t ∷ bs) ≤ max_timers
    longer = omega (arith, length-append ls (t ∷ bs), length-append ls bs, ap length whole, room)
