-- ===== src/Port/Sections.antt =====
-- Sections of src/port/cortex_m4/port.c that are nested in one another.
use vrtos.Base.{leb, if◌then◌else◌, ℕ, suc, ◌+◌, ◌<◌, ◌^◌, ◌≡◌, ◌⊎◌, inr, refl, ◌∙◌, arith}
use vrtos.Port.{
  Port, enter_critical, exit_critical, enter_critical_from_isr, exit_critical_from_isr,
}

-- What code does with the sections: nothing more, a section with its body and what comes after, or the
-- same from an interrupt.
pub data Code : Type 0 where
  done : Code
  section : Code → Code → Code
  isr_section : Code → Code → Code

-- How many sections that count are open at once, at most.
abbrev pub depth : Code → ℕ
depth done = 0
depth (section body rest) = if leb (depth rest) (1 + depth body) then 1 + depth body else depth rest
depth (isr_section body rest) = if leb (depth rest) (depth body) then depth body else depth rest

unfoldable pub run : ℕ → Code → Port → Port
run mask done p = p
run mask (section body rest) p =
    run mask rest (exit_critical (run mask body (enter_critical mask p)))
run mask (isr_section body rest) p =
    let (p', saved) = enter_critical_from_isr mask p in
    run mask rest (exit_critical_from_isr saved (run mask body p'))

-- Where a section is open, the interrupts are masked.
abbrev pub IsHeld : ℕ → Port → Type 0
IsHeld mask p = (p.critical_nesting ≡ 0) ⊎ (p.basepri ≡ mask)

-- The register and the counter are what they were, and so is the value that an open section has saved.
pub record Restores (p p' : Port) : Type 0 where
  pub register : p'.basepri ≡ p.basepri
  pub counter : p'.critical_nesting ≡ p.critical_nesting
  pub saved : (p.critical_nesting ≡ 0) ⊎ (p'.critical_basepri ≡ p.critical_basepri)

-- The state in which the body of a section has run.
module _ (mask : ℕ) (p p₂ : Port) (few : suc p.critical_nesting < 2 ^ 32) (held : IsHeld mask p)
    (same : Restores (enter_critical mask p) p₂) where
  exit-Restores : Restores p (exit_critical p₂)
  unfolding enter_critical exit_critical
  exit-Restores = record {
    register = ground (arith, same.register, same.counter, same.saved, held, few);
    counter = ground (arith, same.counter, few);
    saved = ground (arith, same.counter, same.saved, few);
  }

Restores-trans : {p p' p'' : Port} → Restores p p' → Restores p' p'' → Restores p p''
Restores-trans a b = record {
  register = b.register ∙ a.register;
  counter = b.counter ∙ a.counter;
  saved = ground (arith, a.saved, b.saved, a.counter);
}

IsHeld-same : {mask : ℕ} {p p' : Port} → Restores p p' → IsHeld mask p → IsHeld mask p'
IsHeld-same r h = ground (arith, r.register, r.counter, h)

-- Sections that are nested in any way, fewer than 2^32 of them open at once with those before, leave the
-- register, the counter, and what an open section has saved, as they were, whether one is open before
-- (and then the interrupts are masked) or not.
pub run-Restores :
    (mask : ℕ) (c : Code) (p : Port)
    → p.critical_nesting + depth c < 2 ^ 32
    → IsHeld mask p
    → Restores p (run mask c p)
unfolding run enter_critical enter_critical_from_isr exit_critical_from_isr
run-Restores mask done p few held = record { register = refl; counter = refl; saved = inr refl }
run-Restores mask (section body rest) p few held =
    let body' = run-Restores mask body (enter_critical mask p) (grind arith) (inr refl) in
    let p₃ = exit_critical (run mask body (enter_critical mask p)) in
    let once =
      exit-Restores mask p (run mask body (enter_critical mask p)) (grind arith) held body' in
    Restores-trans once
      (run-Restores mask rest p₃ (grind (arith, once.counter)) (IsHeld-same once held))
run-Restores mask (isr_section body rest) p few held =
    let p₁ : Port = (enter_critical_from_isr mask p).0 in
    let body' = run-Restores mask body p₁ (grind arith) (inr refl) in
    let once : Restores p (exit_critical_from_isr p.basepri (run mask body p₁)) = record {
      register = refl;
      counter = body'.counter;
      saved = body'.saved;
    } in
    Restores-trans once (
      run-Restores mask rest (exit_critical_from_isr p.basepri (run mask body p₁))
        (grind (arith, body'.counter)) (IsHeld-same once held))
