-- ===== src/Llvm/Graph/Leads.antt =====
-- src/llvm/compiler.rs: running emitted instructions, one after the other.
use bf_rs.Prelude.{ℕ, suc, ◌+◌, ◌≡◌, refl, ap, ◌∙◌, List, ◌∷◌, arith}
use bf_rs.Common.{Error}
use bf_rs.Machine.{Machine, Outcome, done, failed, panicked, out_of_fuel, ◌>>=◌}
use bf_rs.Machine.Laws.{Post}
use bf_rs.Rts.{returned, crashed, leave}
use bf_rs.Llvm.Ir.{Instr, Blocks, Regs, proceed, goto, exit, step, run}

module _ (undefined : ℕ → ℕ) (F : Blocks) where
  -- From some number of instructions on, the run is at `code'` in the machine that the outcome has,
  -- or has returned what the outcome says.
  unfoldable pub Leads : List Instr → Regs → Machine → Outcome → List Instr → Type 0
  Leads code regs m (done m') code' =
      (regs' : Regs) × (n : ℕ) × ((k : ℕ)
        → run undefined (n + k) F code regs m ≡ run undefined k F code' regs' m')
  Leads code regs m (failed e io) code' =
      (n : ℕ) × ((k : ℕ) → run undefined (n + k) F code regs m ≡ leave e io)
  Leads code regs m (panicked io) code' =
      (n : ℕ) × ((k : ℕ) → run undefined (n + k) F code regs m ≡ crashed io)
  Leads code regs m out_of_fuel code' = Unit

  pub here-Leads : (code : List Instr) (regs : Regs) (m : Machine) → Leads code regs m (done m) code
  unfolding Leads
  here-Leads code regs m = (regs, 0, λ k. ap (λ n. run undefined n F code regs m) (omega arith))

  -- One more instruction before.
  after-Leads :
      (code code₁ code' : List Instr) (regs regs₁ : Regs) (m m₁ : Machine) (o : Outcome)
      → ((n : ℕ) → run undefined (suc n) F code regs m ≡ run undefined n F code₁ regs₁ m₁)
      → Leads code₁ regs₁ m₁ o code'
      → Leads code regs m o code'
  unfolding Leads
  after-Leads code code₁ code' regs regs₁ m m₁ (done m') h (regs', n, k) =
      (regs', suc n, λ j. ap (λ x. run undefined x F code regs m) (omega arith) ∙ h (n + j) ∙ k j)
  after-Leads code code₁ code' regs regs₁ m m₁ (failed e io) h (n, k) =
      (suc n, λ j. ap (λ x. run undefined x F code regs m) (omega arith) ∙ h (n + j) ∙ k j)
  after-Leads code code₁ code' regs regs₁ m m₁ (panicked io) h (n, k) =
      (suc n, λ j. ap (λ x. run undefined x F code regs m) (omega arith) ∙ h (n + j) ∙ k j)
  after-Leads code code₁ code' regs regs₁ m m₁ out_of_fuel h k = tt

  pub proceed-Leads :
      (i : Instr) (rest code' : List Instr) (regs regs₁ : Regs) (m m₁ : Machine) (o : Outcome)
      → step undefined regs m i ≡ proceed regs₁ m₁
      → Leads rest regs₁ m₁ o code'
      → Leads (i ∷ rest) regs m o code'
  unfolding run Leads
  proceed-Leads i rest code' regs regs₁ m m₁ o e =
      after-Leads (i ∷ rest) rest code' regs regs₁ m m₁ o (λ n. rw (e, run) refl)

  pub goto-Leads :
      (i : Instr) (l : ℕ) (rest code' : List Instr) (regs : Regs) (m : Machine) (o : Outcome)
      → step undefined regs m i ≡ goto l
      → Leads (F l) regs m o code'
      → Leads (i ∷ rest) regs m o code'
  unfolding run Leads
  goto-Leads i l rest code' regs m o e =
      after-Leads (i ∷ rest) (F l) code' regs regs m m o (λ n. rw (e, run) refl)

  pub exit-Leads :
      (i : Instr) (rest code' : List Instr) (regs : Regs) (m : Machine) (e : Error) (c : ℕ)
      → step undefined regs m i ≡ exit c
      → returned c m.io ≡ leave e m.io
      → Leads (i ∷ rest) regs m (failed e m.io) code'
  unfolding run Leads
  exit-Leads i rest code' regs m e c h same =
      (1, λ k. let one : 1 + k ≡ suc k = omega arith in rw (one, h, run) same)

  -- One outcome and then another.
  pub bind-Leads :
      (P : Machine → Type 0) (code code₁ code' : List Instr) (regs : Regs) (m : Machine)
      (o : Outcome) (f : Machine → Outcome)
      → Post P o
      → Leads code regs m o code₁
      → ((regs₁ : Regs) (m₁ : Machine) → P m₁ → Leads code₁ regs₁ m₁ (f m₁) code')
      → Leads code regs m (o >>= f) code'
  unfolding Leads
  bind-Leads P code code₁ code' regs m (done m₁) f p (regs₁, n, h) k =
      join-Leads (f m₁) (k regs₁ m₁ p)
    where
      join-Leads : (o : Outcome) → Leads code₁ regs₁ m₁ o code' → Leads code regs m o code'
      join-Leads (done m') (regs', j, g) = (
        regs',
        n + j,
        λ i. ap (λ x. run undefined x F code regs m) (omega arith) ∙ h (j + i) ∙ g i,
      )
      join-Leads (failed e io) (j, g) =
          (n + j, λ i. ap (λ x. run undefined x F code regs m) (omega arith) ∙ h (j + i) ∙ g i)
      join-Leads (panicked io) (j, g) =
          (n + j, λ i. ap (λ x. run undefined x F code regs m) (omega arith) ∙ h (j + i) ∙ g i)
      join-Leads out_of_fuel g = tt
  bind-Leads P code code₁ code' regs m (failed e io) f p h k = h
  bind-Leads P code code₁ code' regs m (panicked io) f p h k = h
  bind-Leads P code code₁ code' regs m out_of_fuel f p h k = tt
