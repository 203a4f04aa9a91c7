-- ===== src/Profiling/Summary.antt =====
-- What a statistic of src/profiling/profiling.c says of the measurements that went into it.
use vrtos.Base.{
  ℕ, ◌+◌, ◌*◌, ◌/◌, ◌%◌, ◌^◌, ◌≤◌, ◌<◌, ◌≡◌, ◌⊎◌, inl, inr, refl, sym, subst, arith, true, false,
  Option, some, List, [], ◌∷◌, length, ltb, ◌==◌, if◌then◌else◌, Bool-cases, elem, All,
}
use native.Mathlib.Nat.{mul-zero, mul-suc, suc-mul, le-div_iff_mul-le, div-le_of_le-mul}
use vrtos.Profiling.{Stat, Snapshot, empty_stat, reset_stat, with_cycles, record_cycles, snapshot}

-- The measurements go in one after the other.
abbrev pub record_all : List ℕ → Option Stat → Option Stat
record_all [] stat = stat
record_all (x ∷ xs) stat = record_all xs (record_cycles x stat)

abbrev pub sum : List ℕ → ℕ
sum [] = 0
sum (x ∷ xs) = x + sum xs

-- From the statistic `s` on.
record Extends (s s' : Stat) (xs : List ℕ) : Type 0 where
  low : s'.min_cycles ≤ s.min_cycles
  high : s.max_cycles ≤ s'.max_cycles
  lowest : All (λ x. s'.min_cycles ≤ x) xs
  highest : All (λ x. x ≤ s'.max_cycles) xs
  low_is : (s'.min_cycles ≡ s.min_cycles) ⊎ (elem s'.min_cycles xs ≡ true)
  high_is : (s'.max_cycles ≡ s.max_cycles) ⊎ (elem s'.max_cycles xs ≡ true)
  total : s'.total_cycles ≡ (s.total_cycles + sum xs) % 2 ^ 32
  counted : s'.count ≡ (s.count + length xs) % 2 ^ 32

lower :
    (x m m' : ℕ) (xs : List ℕ)
    → (m' ≡ (if ltb x m then x else m)) ⊎ (elem m' xs ≡ true)
    → (m' ≡ m) ⊎ (elem m' (x ∷ xs) ≡ true)
lower x m m' xs (inl e) = elim (Bool-cases (ltb x m)) [
  | inl lt ↦ inr (let same : m' ≡ x = rw lt at e in ground (arith, same))
  | inr ge ↦ inl (rw ge at e)
]
lower x m m' xs (inr h) = inr (ground (arith, h))

higher :
    (x m m' : ℕ) (xs : List ℕ)
    → (m' ≡ (if ltb m x then x else m)) ⊎ (elem m' xs ≡ true)
    → (m' ≡ m) ⊎ (elem m' (x ∷ xs) ≡ true)
higher x m m' xs (inl e) = elim (Bool-cases (ltb m x)) [
  | inl lt ↦ inr (let same : m' ≡ x = rw lt at e in ground (arith, same))
  | inr ge ↦ inl (rw ge at e)
]
higher x m m' xs (inr h) = inr (ground (arith, h))

record_all-Extends :
    (xs : List ℕ) (s : Stat)
    → s.total_cycles < 2 ^ 32
    → s.count < 2 ^ 32
    → (s' : Stat) × (record_all xs (some s) ≡ some s') × Extends s s' xs
unfolding record_cycles
record_all-Extends [] s small few = (
  s,
  refl,
  record {
    low = omega arith;
    high = omega arith;
    lowest = tt;
    highest = tt;
    low_is = inl refl;
    high_is = inl refl;
    total = omega (arith, small);
    counted = omega (arith, few);
  },
)
record_all-Extends (x ∷ xs) s small few =
    let (s', eq, e) = record_all-Extends xs (with_cycles x s) (omega arith) (omega arith) in
    (
      s',
      eq,
      record {
        low = ground (arith, e.low);
        high = ground (arith, e.high);
        lowest = (ground (arith, e.low), e.lowest);
        highest = (ground (arith, e.high), e.highest);
        low_is = lower x s.min_cycles s'.min_cycles xs e.low_is;
        high_is = higher x s.max_cycles s'.max_cycles xs e.high_is;
        total = omega (arith, e.total);
        counted = omega (arith, e.counted);
      },
    )

-- After a reset and at least one measurement, each below 2^32: the minimum and the maximum are measurements,
-- and no measurement is below the one or above the other; the total and the count are those of the
-- measurements, modulo 2^32.
pub record_all-Summary :
    (name : Option ℕ) (stat : Stat) (x : ℕ) (xs : List ℕ)
    → All (λ y. y < 2 ^ 32) (x ∷ xs)
    → (s : Stat) × (record_all (x ∷ xs) (reset_stat name (some stat)) ≡ some s)
      × All (λ y. s.min_cycles ≤ y) (x ∷ xs)
      × (elem s.min_cycles (x ∷ xs) ≡ true)
      × All (λ y. y ≤ s.max_cycles) (x ∷ xs)
      × (elem s.max_cycles (x ∷ xs) ≡ true)
      × (s.total_cycles ≡ sum (x ∷ xs) % 2 ^ 32)
      × (s.count ≡ length (x ∷ xs) % 2 ^ 32)
unfolding reset_stat
record_all-Summary name stat x xs small =
    let (s, eq, e) = record_all-Extends (x ∷ xs) (empty_stat name) (omega arith) (omega arith) in
    (
      s,
      eq,
      e.lowest,
      attained x s.min_cycles xs e.low_is (λ is. omega (arith, e.lowest.0, small.0, is)),
      e.highest,
      attained x s.max_cycles xs e.high_is (λ is. omega (arith, e.highest.0, is)),
      omega (arith, e.total),
      omega (arith, e.counted),
    )
  where
    attained :
        {m₀ : ℕ} (x m : ℕ) (xs : List ℕ)
        → (m ≡ m₀) ⊎ (elem m (x ∷ xs) ≡ true)
        → (m ≡ m₀ → m ≡ x)
        → elem m (x ∷ xs) ≡ true
    attained x m xs (inl e) f = let same = f e in ground (arith, same)
    attained x m xs (inr h) f = h

-- A sum is at least, and at most, its length times a bound of its parts.
sum_above : (m : ℕ) (xs : List ℕ) → All (λ x. m ≤ x) xs → m * length xs ≤ sum xs
sum_above m [] a = omega (arith, mul-zero m)
sum_above m (x ∷ xs) a = omega (arith, mul-suc m (length xs), sum_above m xs a.1, a.0)

sum_below : (m : ℕ) (xs : List ℕ) → All (λ x. x ≤ m) xs → sum xs ≤ length xs * m
sum_below m [] a = omega arith
sum_below m (x ∷ xs) a = omega (arith, suc-mul (length xs) m, sum_below m xs a.1, a.0)

-- When the measurements, fewer than 2^32 of them, add up to less than 2^32, a snapshot after them shows
-- their number, and its average lies between its minimum and its maximum.
pub snapshot-Between :
    (clock : ℕ) (name : Option ℕ) (stat : Stat) (out : Snapshot) (x : ℕ) (xs : List ℕ)
    → sum (x ∷ xs) < 2 ^ 32
    → length (x ∷ xs) < 2 ^ 32
    → All (λ y. y < 2 ^ 32) (x ∷ xs)
    → (o : Snapshot) × (snapshot clock
          (record_all (x ∷ xs) (reset_stat name (some stat)))
          (some out)
        ≡ some o)
      × (o.count ≡ length (x ∷ xs))
      × (o.min_cycles ≤ o.avg_cycles)
      × (o.avg_cycles ≤ o.max_cycles)
unfolding snapshot
snapshot-Between clock name stat out x xs small few each =
    let (s, eq, lowest, low_in, highest, high_in, total, counted) =
      record_all-Summary name stat x xs each in
    let count_is : s.count ≡ length (x ∷ xs) = omega (arith, counted, few) in
    let total_is : s.total_cycles ≡ sum (x ∷ xs) = omega (arith, total, small) in
    let some_count : (s.count == 0) ≡ false = ground (arith, count_is) in
    rw (eq, some_count)
      (
        _,
        refl,
        count_is,
        subst (λ n. s.min_cycles ≤ s.total_cycles / n) (sym count_is)
            (subst (λ t. s.min_cycles ≤ t / length (x ∷ xs)) (sym total_is)
              ((le-div_iff_mul-le (omega arith)).1 (sum_above s.min_cycles (x ∷ xs) lowest))),
        subst (λ n. s.total_cycles / n ≤ s.max_cycles) (sym count_is)
            (subst (λ t. t / length (x ∷ xs) ≤ s.max_cycles) (sym total_is)
              (div-le_of_le-mul (length (x ∷ xs)) (sum_below s.max_cycles (x ∷ xs) highest))),
      )
