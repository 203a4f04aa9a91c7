-- ===== src/Logging/UartTx/Waiting.antt =====
-- The ring of src/logging/uart_tx.c against the bytes that wait in it, step by step.
use vrtos.Base.{
  ℕ, suc, ◌+◌, ◌%◌, ◌^◌, ◌<◌, ◌≡◌, ◌⊎◌, inl, inr, refl, sym, ◌∙◌, ap, subst, arith, Bool, true,
  false, not, ◌&&◌, List, [], ◌∷◌, ◌++◌, ◌==◌, if◌then◌else◌, length, length-append, update,
  update_self, Bool-cases, add32,
}
use vrtos.Logging.UartTx.Ring.{InRing, InRing-append, InRing-update, shift, moved}
use vrtos.Logging.UartTx.{
  Uart, Place, outside, testing, stored, tx_count, tx_free, write_step, send_byte, irq_handler,
}

-- What `_write` still has to put into the ring.
abbrev pub left : Place → List ℕ
left outside = []
left (testing xs) = xs
left (stored x xs) = x ∷ xs

-- A byte is behind the others before it counts, and there is room for it.
abbrev pub Behind : Place → (ℕ → ℕ) → ℕ → ℕ → Type 0
Behind (stored x xs) buf h n = (buf (h % 512) ≡ x) × (n < 511)
Behind _ buf h n = Unit

-- Outside of `_write`, bytes that wait have the interrupt enabled.
abbrev pub Armed : Place → Bool → List ℕ → Type 0
Armed outside on queue = (queue ≡ []) ⊎ (on ≡ true)
Armed _ on queue = Unit

-- The ring holds `queue`, behind the `sent` bytes that are gone.
pub record Delivers (u : Uart) (place : Place) (asked : List ℕ) : Type 0 where
  pub sent : ℕ
  pub queue : List ℕ
  pub tail : u.tx_tail ≡ sent % 2 ^ 32
  pub head : u.tx_head ≡ (sent + length queue) % 2 ^ 32
  pub ring : InRing u.tx_buf sent queue
  pub fits : length queue < 512
  pub behind : Behind place u.tx_buf (sent + length queue) (length queue)
  pub armed : Armed place u.txeie queue
  pub all : (u.dr ++ queue) ++ left place ≡ asked

tx_count-length :
    (u : Uart) (place : Place) (asked : List ℕ) (d : Delivers u place asked)
    → tx_count u ≡ length d.queue
unfolding tx_count
tx_count-length u place asked d = rw (d.tail, d.head) (omega (arith, d.fits))

one_more :
    (u : Uart) (sent : ℕ) (queue : List ℕ) (x : ℕ)
    → u.tx_head ≡ (sent + length queue) % 2 ^ 32
    → add32 u.tx_head 1 ≡ (sent + length (queue ++ x ∷ [])) % 2 ^ 32
one_more u sent queue x h = rw (length-append queue (x ∷ [])) (omega (arith, h))

module _ (u : Uart) (x : ℕ) (xs asked : List ℕ) (d : Delivers u (testing (x ∷ xs)) asked) where
  position : u.tx_head % 512 ≡ (d.sent + length d.queue) % 512
  position = omega (arith, d.head)

  stored_ring : InRing (update u.tx_buf (u.tx_head % 512) x) d.sent d.queue
  stored_ring =
      subst (λ p. InRing (update u.tx_buf p x) d.sent d.queue) (sym position)
        (InRing-update u.tx_buf d.sent (d.sent + length d.queue) x d.queue (omega arith)
          (omega (arith, d.fits)) d.ring)

  stored_behind : update u.tx_buf (u.tx_head % 512) x ((d.sent + length d.queue) % 512) ≡ x
  stored_behind =
      subst (λ p. update u.tx_buf p x ((d.sent + length d.queue) % 512) ≡ x) (sym position)
        (update_self u.tx_buf ((d.sent + length d.queue) % 512) x)

  has_room : (tx_free u == 0) ≡ false → length d.queue < 511
  unfolding tx_free
  has_room e =
      let counted = tx_count-length u (testing (x ∷ xs)) asked d in
      ground (arith, counted, e, d.fits)

pub write-Delivers :
    (u : Uart) (place : Place) (asked : List ℕ)
    → Delivers u place asked
    → Delivers (write_step place u).0 (write_step place u).1 asked
unfolding write_step
write-Delivers u outside asked d = d
write-Delivers u (testing []) asked d = record {
  sent = d.sent;
  queue = d.queue;
  tail = d.tail;
  head = d.head;
  ring = d.ring;
  fits = d.fits;
  behind = tt;
  armed = inr refl;
  all = d.all;
}
write-Delivers u (testing (x ∷ xs)) asked d = elim (Bool-cases (tx_free u == 0)) [
  | inl e ↦ rw e (record {
    sent = d.sent;
    queue = d.queue;
    tail = d.tail;
    head = d.head;
    ring = d.ring;
    fits = d.fits;
    behind = tt;
    armed = tt;
    all = d.all;
  })
  | inr e ↦ rw e (record {
    sent = d.sent;
    queue = d.queue;
    tail = d.tail;
    head = d.head;
    ring = stored_ring u x xs asked d;
    fits = d.fits;
    behind = (stored_behind u x xs asked d, has_room u x xs asked d e);
    armed = tt;
    all = d.all;
  })
]
write-Delivers u (stored x xs) asked d = record {
  sent = d.sent;
  queue = d.queue ++ x ∷ [];
  tail = d.tail;
  head = one_more u d.sent d.queue x d.head;
  ring = InRing-append u.tx_buf d.sent x d.queue d.ring d.behind.0;
  fits = rw (length-append d.queue (x ∷ [])) (omega (arith, d.behind.1));
  behind = tt;
  armed = tt;
  all = shift u.dr d.queue x xs ∙ d.all;
}

pub later-Behind :
    (place : Place) (buf : ℕ → ℕ) (sent n : ℕ)
    → Behind place buf (sent + suc n) (suc n)
    → Behind place buf (suc sent + n) n
later-Behind outside buf sent n b = tt
later-Behind (testing xs) buf sent n b = tt
later-Behind (stored x xs) buf sent n b =
    (subst (λ h. buf (h % 512) ≡ x) (omega arith) b.0, omega (arith, b.1))

unfoldable pub sent-Delivers :
    (u : Uart) (place : Place) (asked : List ℕ) (d : Delivers u place asked) (x : ℕ) (xs : List ℕ)
    → d.queue ≡ x ∷ xs
    → Armed place u.txeie xs
    → Delivers (send_byte u) place asked
sent-Delivers u place asked d x xs eq armed = record {
  sent = suc d.sent;
  queue = xs;
  tail = omega (arith, d.tail);
  head = d.head ∙ omega (arith, count);
  ring = ring.1;
  fits = omega (arith, d.fits, count);
  behind =
      later-Behind place u.tx_buf d.sent (length xs)
        (subst (λ n. Behind place u.tx_buf (d.sent + n) n) count d.behind);
  armed = armed;
  all =
      ap (λ b. ((u.dr ++ b ∷ []) ++ xs) ++ left place) first
      ∙ moved u.dr xs (left place) x
      ∙ ap (λ q. (u.dr ++ q) ++ left place) (sym eq)
      ∙ d.all;
}
  where
    count : length d.queue ≡ suc (length xs)
    count = ap (λ q. length q) eq

    ring : (u.tx_buf (d.sent % 512) ≡ x) × InRing u.tx_buf (suc d.sent) xs
    ring = subst (λ q. InRing u.tx_buf d.sent q) eq d.ring

    first : u.tx_buf (u.tx_tail % 512) ≡ x
    first = subst (λ p. u.tx_buf p ≡ x) (omega (arith, d.tail)) ring.0

-- The ring is empty when both ends are the same.
pub head_test :
    (u : Uart) (place : Place) (asked : List ℕ) (d : Delivers u place asked)
    → (u.tx_head == u.tx_tail) ≡ (length d.queue == 0)
head_test u place asked d = ground (arith, d.head, d.tail, d.fits)

empty-Armed : (place : Place) (on : Bool) (queue : List ℕ) → queue ≡ [] → Armed place on queue
empty-Armed outside on queue e = inl e
empty-Armed (testing xs) on queue e = tt
empty-Armed (stored x xs) on queue e = tt

still-Armed : (place : Place) (on : Bool) (queue : List ℕ) → on ≡ true → Armed place on queue
still-Armed outside on queue e = inr e
still-Armed (testing xs) on queue e = tt
still-Armed (stored x xs) on queue e = tt

pub irq-Delivers :
    (txe : Bool) (u : Uart) (place : Place) (asked : List ℕ)
    → Delivers u place asked
    → Delivers (irq_handler txe u) place asked
unfolding irq_handler
irq-Delivers txe u place asked d = elim (Bool-cases (txe && u.txeie)) [
  | inl e ↦ rw e (by_queue d.queue refl (both txe u.txeie e))
  | inr e ↦ rw e d
]
  where
    both : (a b : Bool) → (a && b) ≡ true → b ≡ true
    both a b e = ground arith

    by_queue :
        (q : List ℕ)
        → d.queue ≡ q
        → u.txeie ≡ true
        → Delivers
            (if not (u.tx_head == u.tx_tail) then send_byte u else record u { txeie = false })
            place
            asked
    by_queue [] eq on =
        let test : (u.tx_head == u.tx_tail) ≡ true =
          head_test u place asked d ∙ ap (λ q. length q == 0) eq in
        rw test (record {
          sent = d.sent;
          queue = d.queue;
          tail = d.tail;
          head = d.head;
          ring = d.ring;
          fits = d.fits;
          behind = d.behind;
          armed = empty-Armed place false d.queue eq;
          all = d.all;
        })
    by_queue (x ∷ xs) eq on =
        let test : (u.tx_head == u.tx_tail) ≡ false =
          head_test u place asked d ∙ ap (λ q. length q == 0) eq ∙ ground arith in
        rw test (sent-Delivers u place asked d x xs eq (still-Armed place u.txeie xs on))
