-- ===== src/Logging/Records/Queue.antt =====
-- A ring buffer of records against the queue of the records.
use vrtos.Base.{
  ℕ, zero, suc, ◌+◌, ◌*◌, ◌^◌, ◌≤◌, ◌<◌, ◌≡◌, refl, sym, ◌∙◌, ap, ap₂, subst, List, [], ◌∷◌, ◌++◌,
  append_assoc, append-nil, arith, true, false, length, length-append, ltb, if◌then◌else◌, Bool,
  Bool-cases, inl, inr,
}
use native.Mathlib.Nat.{mul-zero, mul-suc}
use vrtos.Utils.RingBuffer
use vrtos.Utils.RingBuffer.{RingBuffer}
use vrtos.Utils.RingBuffer.Fifo.{Holds, write-Holds}
use vrtos.Utils.RingBuffer.Partial.{read-Holds, read-empty, write-full}
use vrtos.Logging.Records.{drain_records}

abbrev pub take {ℓ} : {A : Type ℓ} → ℕ → List A → List A
take zero xs = []
take (suc n) [] = []
take (suc n) (x ∷ xs) = x ∷ take n xs

abbrev pub drop {ℓ} : {A : Type ℓ} → ℕ → List A → List A
drop zero xs = xs
drop (suc n) [] = []
drop (suc n) (x ∷ xs) = drop n xs

module _ {A : Type 0} (encode : A → List ℕ) where
  -- The bytes of the records, and their list.
  abbrev pub bytes_of : List A → List ℕ
  bytes_of [] = []
  bytes_of (r ∷ rs) = encode r ++ bytes_of rs

  abbrev pub encoded : List A → List (List ℕ)
  encoded [] = []
  encoded (r ∷ rs) = encode r ∷ encoded rs

  -- A buffer of `2 ^ w` bytes holds the records.
  abbrev pub Stored : ℕ → RingBuffer → List A → Type 0
  Stored w rb rs = Holds w rb (bytes_of rs)

  -- What is kept of the records that come, in a log of `capacity` records: one that finds it full is dropped.
  abbrev pub keep : ℕ → List A → A → List A
  keep capacity rs r = if ltb (length rs) capacity then rs ++ r ∷ [] else rs

  abbrev pub keep_all : ℕ → List A → List A → List A
  keep_all capacity rs [] = rs
  keep_all capacity rs (r ∷ more) = keep_all capacity (keep capacity rs r) more

  abbrev pub write_all : List A → RingBuffer → RingBuffer
  write_all [] rb = rb
  write_all (r ∷ more) rb = write_all more (RingBuffer.write (encode r) rb).0

  bytes_of-append : (rs : List A) (r : A) → bytes_of (rs ++ r ∷ []) ≡ bytes_of rs ++ encode r
  bytes_of-append [] r = append-nil (encode r)
  bytes_of-append (x ∷ rs) r =
      ap (λ bs. encode x ++ bs) (bytes_of-append rs r)
      ∙ sym (append_assoc (encode x) (bytes_of rs) (encode r))

  module _ (size : ℕ) (whole : (r : A) → length (encode r) ≡ size) where
    length-bytes_of : (rs : List A) → length (bytes_of rs) ≡ size * length rs
    length-bytes_of [] = omega (arith, mul-zero size)
    length-bytes_of (r ∷ rs) = omega (
      arith,
      length-append (encode r) (bytes_of rs),
      whole r,
      mul-suc size (length rs),
      length-bytes_of rs,
    )

    -- A record is put behind the others where there is room, and dropped where there is none.
    write-Stored :
        (w : ℕ) (rb : RingBuffer) (rs : List A) (r : A)
        → Stored w rb rs
        → size * length rs + size < 2 ^ w
        → Stored w (RingBuffer.write (encode r) rb).0 (rs ++ r ∷ [])
    write-Stored w rb rs r h room =
        subst (λ bs. Holds w (RingBuffer.write (encode r) rb).0 bs) (sym (bytes_of-append rs r))
          (write-Holds w rb (bytes_of rs) (encode r) h
            (omega (arith, room, length-bytes_of rs, whole r))).1

    write-dropped :
        (w : ℕ) (rb : RingBuffer) (rs : List A) (r : A)
        → Stored w rb rs
        → 2 ^ w ≤ size * length rs + size
        → RingBuffer.write (encode r) rb ≡ (rb, false)
    write-dropped w rb rs r h full =
        write-full w rb (bytes_of rs) (encode r) h
          (omega (arith, full, length-bytes_of rs, whole r))

    module _ (w capacity : ℕ) (room : (n : ℕ) → n < capacity → size * n + size < 2 ^ w)
        (full : (n : ℕ) → capacity ≤ n → 2 ^ w ≤ size * n + size) where
      keep-Stored :
          (rb : RingBuffer) (rs : List A) (r : A)
          → Stored w rb rs
          → Stored w (RingBuffer.write (encode r) rb).0 (keep capacity rs r)
      keep-Stored rb rs r h = elim (Bool-cases (ltb (length rs) capacity)) [
        | inl e ↦ rw e (write-Stored w rb rs r h (room (length rs) (ground arith)))
        | inr e ↦ rw e (
            subst (λ (p : RingBuffer × Bool). Stored w p.0 rs)
              (sym (write-dropped w rb rs r h (full (length rs) (ground arith)))) h)
      ]

      pub keep_all-Stored :
          (more rs : List A) (rb : RingBuffer)
          → Stored w rb rs
          → Stored w (write_all more rb) (keep_all capacity rs more)
      keep_all-Stored [] rs rb h = h
      keep_all-Stored (r ∷ more) rs rb h =
          keep_all-Stored more (keep capacity rs r) (RingBuffer.write (encode r) rb).0
            (keep-Stored rb rs r h)

    -- The loop takes out the oldest records, in their order.
    pub drain-Stored :
        (w n : ℕ) (rb : RingBuffer) (rs : List A)
        → 0 < size
        → Stored w rb rs
        → let (rb', out) = drain_records size n rb in
          (out ≡ encoded (take n rs)) × Stored w rb' (drop n rs)
    unfolding drain_records
    drain-Stored w zero rb rs positive h = (refl, h)
    drain-Stored w (suc n) rb [] positive h =
        let (none, h') = read-empty w size rb h in
        let stop : ltb (RingBuffer.read size rb).2 size ≡ true = ground (arith, none, positive) in
        rw stop (refl, h')
    drain-Stored w (suc n) rb (r ∷ rs) positive h =
        let got =
          subst
            (λ k.
              ((RingBuffer.read k rb).1 ≡ encode r)
              × ((RingBuffer.read k rb).2 ≡ k)
              × Holds w (RingBuffer.read k rb).0 (bytes_of rs))
            (whole r) (read-Holds w rb (encode r) (bytes_of rs) h) in
        let go_on : ltb (RingBuffer.read size rb).2 size ≡ false = ground (arith, got.1) in
        let rest = drain-Stored w n (RingBuffer.read size rb).0 rs positive got.2 in
        rw go_on (ap₂ ◌∷◌ got.0 rest.0, rest.1)
