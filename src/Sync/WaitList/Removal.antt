-- ===== src/Sync/WaitList/Removal.antt =====
-- A waiter that is taken out of a waiting list, wherever it stands.
use vrtos.Base.{
  ℕ, ◌+◌, ◌≤◌, ◌≡◌, refl, sym, false, Option, none, some, List, [], ◌∷◌, ◌++◌, arith, ◌==◌, update,
  update?, update_self, find_before, find_before-member, last_or, length, All, All-append, All-left,
  All-right, NotIn, IsDistinct, IsDistinct-remove, Chain, Chain-remove, Chain-split,
  IsSorted-remove, subst, ==_self, ==_ne, length-append, Seg,
}
use vrtos.State.{Sys, Object, SyncType, max_tasks}
use vrtos.Sync.WaitList.{remove, remove_from}
use vrtos.Sync.WaitList.Laws.{Waiting, Waiting-clear_wait, small_length}

Seg-last :
    (nx : ℕ → Option ℕ) (q : Option ℕ) (x c : ℕ) (xs : List ℕ)
    → Seg nx (nx x) xs q
    → some c ≡ last_or (some x) xs
    → nx c ≡ q
Seg-last nx q x c [] s e = let same : c ≡ x = ground arith in rw same s
Seg-last nx q x c (y ∷ ys) s e = Seg-last nx q y c ys s.1 e

-- With the waiters in order, one is taken out of wherever it stands and waits for nothing any
-- more; the others keep their order.
pub remove-Waiting :
    (t : ℕ) (s : Sys) (o : Object) (type : SyncType) (head : Option ℕ) (xs ys : List ℕ)
    → Waiting s o type head (xs ++ t ∷ ys)
    → let (s', head') = remove head t s in
      Waiting s' o type head' (xs ++ ys) × (s'.pool.blocked_on t ≡ none)
unfolding remove
remove-Waiting t s o type head [] ys w =
    rw (w.chain.0, remove_from, ==_self t)
      (
        Waiting-clear_wait t s o type (s.pool.next_waiting t) ys w.distinct.0 (record {
          chain = w.chain.1;
          distinct = w.distinct.1;
          small = w.small.1;
          sorted = w.sorted.1;
          object_is = w.object_is.1;
          type_is = w.type_is.1;
        }),
        update_self s.pool.blocked_on t none,
      )
remove-Waiting t s o type head (x ∷ xs) ys w =
    rw (w.chain.0, remove_from, apart, found, ==_self t)
      (
        Waiting-clear_wait t (record s { pool = record s.pool { next_waiting = links } }) o type
            (some x) ((x ∷ xs) ++ ys) others.0
            (record {
              chain = chain;
              distinct = others.1;
              small = keep _ w.small;
              sorted =
                  IsSorted-remove (λ x y. s.pool.priority y ≤ s.pool.priority x) t (x ∷ xs) ys
                    w.sorted;
              object_is = keep _ w.object_is;
              type_is = keep _ w.type_is;
            }),
        refl,
      )
  where
    nx : ℕ → Option ℕ
    nx = s.pool.next_waiting

    current : ℕ
    current = find_before (λ n. n == t) nx max_tasks x

    links : ℕ → Option ℕ
    links = update nx current (nx t)

    others : NotIn t ((x ∷ xs) ++ ys) × IsDistinct ((x ∷ xs) ++ ys)
    others = IsDistinct-remove t (x ∷ xs) ys w.distinct

    keep : (P : ℕ → Type 0) → All P ((x ∷ xs) ++ t ∷ ys) → All P ((x ∷ xs) ++ ys)
    keep P a =
        All-append P (x ∷ xs) ys (All-left P (x ∷ xs) (t ∷ ys) a)
          (All-right P (x ∷ xs) (t ∷ ys) a).1

    apart : (x == t) ≡ false
    apart = ==_ne x t others.0.0

    sizes : length (x ∷ xs) + length (t ∷ ys) ≤ max_tasks
    sizes =
        rw (sym (length-append (x ∷ xs) (t ∷ ys)))
          (small_length ((x ∷ xs) ++ t ∷ ys) w.small w.distinct)

    short : length xs ≤ 9
    short = omega (arith, sizes)

    before : Seg nx (nx x) xs (some t)
    before = (Chain-split nx (nx x) xs (t ∷ ys) w.chain.1).0

    is_last : some current ≡ last_or (some x) xs
    is_last = find_before-member nx 9 x t xs short (All-left _ xs ys others.0.1) before

    found : nx current ≡ some t
    found = Seg-last nx (some t) x current xs before is_last

    chain : Chain links (some x) ((x ∷ xs) ++ ys)
    chain =
        subst (λ l. Chain (update? nx l (nx t)) (some x) ((x ∷ xs) ++ ys)) (sym is_last)
          (Chain-remove nx (some x) t (x ∷ xs) ys w.distinct (refl, w.chain.1))
