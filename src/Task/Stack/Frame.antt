-- ===== src/Task/Stack/Frame.antt =====
-- What the words written to a stack leave alone, and the canary above the first frame.
use vrtos.Base.{
  ℕ, ◌+◌, ◌*◌, ◌/◌, ◌%◌, ◌^◌, ◌≤◌, ◌<◌, ◌≡◌, refl, ◌∙◌, ap, List, [], ◌∷◌, some, arith, update,
  update_self, update_ne, length, sub32, false, not, ◌==◌,
}
use vrtos.Task.Stack.{
  write_word, read_word, stack_canary_value, push_words, first_frame, init_task_stack,
  has_overflowed, align8_down,
}

write_word-outside : (p v a : ℕ) (bytes : ℕ → ℕ) → p + 4 ≤ a → write_word p v bytes a ≡ bytes a
unfolding write_word
write_word-outside p v a bytes far =
    update_ne b₃ (p + 3) a (v / 16777216 % 256) (λ e. omega arith)
    ∙ update_ne b₂ (p + 2) a (v / 65536 % 256) (λ e. omega arith)
    ∙ update_ne b₁ (p + 1) a (v / 256 % 256) (λ e. omega arith)
    ∙ update_ne bytes p a (v % 256) (λ e. omega arith)
  where
    b₁ : ℕ → ℕ
    b₁ = update bytes p (v % 256)

    b₂ : ℕ → ℕ
    b₂ = update b₁ (p + 1) (v / 256 % 256)

    b₃ : ℕ → ℕ
    b₃ = update b₂ (p + 2) (v / 65536 % 256)

push_words-outside :
    (vs : List ℕ) (p a : ℕ) (bytes : ℕ → ℕ)
    → 4 * length vs ≤ p
    → p ≤ a
    → p < 2 ^ 32
    → (push_words vs p bytes).0 a ≡ bytes a
unfolding push_words
push_words-outside [] p a bytes room below small = refl
push_words-outside (v ∷ vs) p a bytes room below small =
    push_words-outside vs (sub32 p 4) a (write_word (sub32 p 4) v bytes) (omega arith) (omega arith)
      (omega arith)
    ∙ write_word-outside (sub32 p 4) v a bytes (omega arith)

-- A word is read as it was written, byte by byte.
read_word-write_word :
    (a v : ℕ) (bytes : ℕ → ℕ) → v < 2 ^ 32 → read_word (write_word a v bytes) a ≡ v
unfolding read_word write_word
read_word-write_word a v bytes small = rw (first, second, third, fourth) (omega arith)
  where
    b₁ : ℕ → ℕ
    b₁ = update bytes a (v % 256)

    b₂ : ℕ → ℕ
    b₂ = update b₁ (a + 1) (v / 256 % 256)

    b₃ : ℕ → ℕ
    b₃ = update b₂ (a + 2) (v / 65536 % 256)

    first : update b₃ (a + 3) (v / 16777216 % 256) a ≡ v % 256
    first =
        update_ne b₃ (a + 3) a _ (λ e. omega arith)
        ∙ update_ne b₂ (a + 2) a _ (λ e. omega arith)
        ∙ update_ne b₁ (a + 1) a _ (λ e. omega arith)
        ∙ update_self bytes a (v % 256)

    second : update b₃ (a + 3) (v / 16777216 % 256) (a + 1) ≡ v / 256 % 256
    second =
        update_ne b₃ (a + 3) (a + 1) _ (λ e. omega arith)
        ∙ update_ne b₂ (a + 2) (a + 1) _ (λ e. omega arith)
        ∙ update_self b₁ (a + 1) _

    third : update b₃ (a + 3) (v / 16777216 % 256) (a + 2) ≡ v / 65536 % 256
    third = update_ne b₃ (a + 3) (a + 2) _ (λ e. omega arith) ∙ update_self b₂ (a + 2) _

    fourth : update b₃ (a + 3) (v / 16777216 % 256) (a + 3) ≡ v / 16777216 % 256
    fourth = update_self b₃ (a + 3) _

-- The first frame, below `top`, leaves the canary at `top`.
pub init_task_stack-canary :
    (top task_function parameter : ℕ) (bytes : ℕ → ℕ)
    → top % 8 ≡ 0
    → 68 ≤ top
    → top < 2 ^ 32
    → has_overflowed
        (some top)
        (init_task_stack top task_function parameter (write_word top stack_canary_value bytes)).0
      ≡ false
unfolding has_overflowed init_task_stack read_word
init_task_stack-canary top task_function parameter bytes aligned room small =
    rw
      (
        at_top,
        kept top (omega arith),
        kept (top + 1) (omega arith),
        kept (top + 2) (omega arith),
        kept (top + 3) (omega arith),
      )
      (ap (λ w. not (w == stack_canary_value))
        (read_word-write_word top stack_canary_value bytes (omega arith)))
  where
    at_top : align8_down top ≡ top
    at_top = omega arith

    kept :
        (a : ℕ)
        → top ≤ a
        → (push_words
              (first_frame task_function parameter)
              top
              (write_word top stack_canary_value bytes)).0
            a
          ≡ write_word top stack_canary_value bytes a
    kept a above =
        push_words-outside (first_frame task_function parameter) top a
          (write_word top stack_canary_value bytes) room above small
