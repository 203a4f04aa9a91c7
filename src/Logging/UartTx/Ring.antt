-- ===== src/Logging/UartTx/Ring.antt =====
-- The bytes that wait in the ring of src/logging/uart_tx.c, and their order.
use vrtos.Base.{
  ℕ, suc, ◌+◌, ◌%◌, ◌≤◌, ◌<◌, ◌≡◌, refl, ◌∙◌, ap, subst, arith, List, [], ◌∷◌, ◌++◌, length, update,
  update_ne,
}

-- The bytes from the position `t` of the unbounded count on.
abbrev pub InRing : (ℕ → ℕ) → ℕ → List ℕ → Type 0
InRing buf t [] = Unit
InRing buf t (x ∷ xs) = (buf (t % 512) ≡ x) × InRing buf (suc t) xs

pub InRing-append :
    (buf : ℕ → ℕ) (t x : ℕ) (xs : List ℕ)
    → InRing buf t xs
    → buf ((t + length xs) % 512) ≡ x
    → InRing buf t (xs ++ x ∷ [])
InRing-append buf t x [] r e = (subst (λ n. buf (n % 512) ≡ x) (omega arith) e, tt)
InRing-append buf t x (y ∷ xs) r e =
    (r.0, InRing-append buf (suc t) x xs r.1 (subst (λ n. buf (n % 512) ≡ x) (omega arith) e))

-- A write behind the others leaves them.
pub InRing-update :
    (buf : ℕ → ℕ) (t p x : ℕ) (xs : List ℕ)
    → t + length xs ≤ p
    → p < t + 512
    → InRing buf t xs
    → InRing (update buf (p % 512) x) t xs
InRing-update buf t p x [] le lt r = tt
InRing-update buf t p x (y ∷ xs) le lt r = (
  update_ne buf (p % 512) (t % 512) x (λ e. omega arith) ∙ r.0,
  InRing-update buf (suc t) p x xs (omega arith) (omega arith) r.1,
)

-- The byte `x` is the last that counts.
pub shift :
    (sent queue : List ℕ) (x : ℕ) (xs : List ℕ)
    → (sent ++ (queue ++ x ∷ [])) ++ xs ≡ (sent ++ queue) ++ x ∷ xs
shift [] [] x xs = refl
shift [] (y ∷ queue) x xs = ap (λ zs. y ∷ zs) (shift [] queue x xs)
shift (y ∷ sent) queue x xs = ap (λ zs. y ∷ zs) (shift sent queue x xs)

-- The first byte of the ring is sent.
pub moved :
    (sent queue xs : List ℕ) (x : ℕ) → ((sent ++ x ∷ []) ++ queue) ++ xs ≡ (sent ++ x ∷ queue) ++ xs
moved [] queue xs x = refl
moved (y ∷ sent) queue xs x = ap (λ zs. y ∷ zs) (moved sent queue xs x)
