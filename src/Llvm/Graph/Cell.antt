-- ===== src/Llvm/Graph/Cell.antt =====
-- src/llvm/compiler.rs: the code for the byte at the pointer, and the test of it.
use bf_rs.Prelude.{
  ℕ, ◌+◌, ◌<◌, ◌≤◌, ◌≡◌, ◌≢◌, refl, ap, ◌∙◌, List, ◌∷◌, Bool, true, false, not, ◌==◌, arith,
}
use bf_rs.Common.{ok}
use bf_rs.State.{State, usize_mod, load, store}
use bf_rs.Machine.{Machine, Outcome}
use bf_rs.Llvm.Ir
use bf_rs.Llvm.Ir.{
  Value, Instr, Blocks, Held, Regs, put, eval, step, assign, compare_with, branch_on, goto,
}
use bf_rs.Llvm.Graph.Leads.{Leads, proceed-Leads, goto-Leads}
use bf_rs.Llvm.Graph.Data.{put_self, Keeps, Keeps-put, load_data_at-Leads, store_data_at-Leads}

pub Keeps-trans :
    (r r₁ : ℕ) (regs regs₁ regs₂ : Regs)
    → r ≤ r₁
    → Keeps r regs regs₁
    → Keeps r₁ regs₁ regs₂
    → Keeps r regs regs₂
Keeps-trans r r₁ regs regs₁ regs₂ h k k' j l = k' j (omega arith) ∙ k j l

module _ (undefined : ℕ → ℕ) (F : Blocks) (rest code' : List Instr) (r : ℕ) (regs : Regs)
    (m : Machine) (o : Outcome) where
  -- The pointer is loaded first.
  pub load_pointer-Leads :
      ((regs' : Regs)
        → Keeps r regs regs'
        → regs' r ≡ Ir.word m.state.pointer
        → Leads undefined F rest regs' m o code')
      → Leads undefined F (Ir.load r Value.slot ∷ rest) regs m o code'
  unfolding step
  load_pointer-Leads k =
      let regs₁ = put regs r (Ir.word m.state.pointer) in
      proceed-Leads undefined F (Ir.load r Value.slot) rest code' regs regs₁ m m o refl (
        k regs₁ (Keeps-put r r regs regs (Ir.word m.state.pointer) (omega arith) (λ j _. refl))
          (put_self regs r (Ir.word m.state.pointer)))

module _ (undefined : ℕ → ℕ) (F : Blocks) (rest code' : List Instr) (r : ℕ) (regs : Regs)
    (m : Machine) (o : Outcome) (small : m.state.pointer < usize_mod) where
  pub load_data-Leads :
      (b : ℕ)
      → load m.state ≡ ok b
      → ((regs' : Regs)
          → Keeps r regs regs'
          → regs' (r + 1 + 1) ≡ Ir.byte b
          → Leads undefined F rest regs' m o code')
      → Leads undefined F
          (Ir.load r Value.slot
            ∷ Ir.gep (r + 1) Value.array (Value.reg r)
            ∷ Ir.load (r + 1 + 1) (Value.reg (r + 1))
            ∷ rest)
          regs
          m
          o
          code'
  unfolding load
  load_data-Leads b e k =
      load_pointer-Leads undefined F _ code' r regs m o (λ regs₁ kept at_pointer.
        load_data_at-Leads undefined F rest code' (r + 1) regs₁ m o (Value.reg r) m.state.pointer b
          at_pointer small e
          (λ regs' kept'.
            k regs' (Keeps-trans r (r + 1) regs regs₁ regs' (omega arith) kept kept')))

  pub store_data-Leads :
      (w : Value) (b : ℕ) (s : State)
      → ((regs' : Regs) → Keeps r regs regs' → eval regs' w ≡ Ir.byte b)
      → store b m.state ≡ ok s
      → ((regs' : Regs)
          → Keeps r regs regs'
          → Leads undefined F rest regs' (record { state = s; io = m.io }) o code')
      → Leads undefined F
          (Ir.load r Value.slot
            ∷ Ir.gep (r + 1) Value.array (Value.reg r)
            ∷ Ir.store w (Value.reg (r + 1))
            ∷ rest)
          regs
          m
          o
          code'
  unfolding store
  store_data-Leads w b s held e k =
      load_pointer-Leads undefined F _ code' r regs m o (λ regs₁ kept at_pointer.
        let trans = λ (regs' : Regs) (kept' : Keeps (r + 1) regs₁ regs').
          Keeps-trans r (r + 1) regs regs₁ regs' (omega arith) kept kept' in
        store_data_at-Leads undefined F rest code' (r + 1) regs₁ m o (Value.reg r) w m.state.pointer
          b s at_pointer small (λ regs' kept'. held regs' (trans regs' kept')) e
          (λ regs' kept'. k regs' (trans regs' kept')))

module _ (undefined : ℕ → ℕ) (F : Blocks) (rest code' : List Instr) (r : ℕ) (regs : Regs)
    (m : Machine) (o : Outcome) where
  pub cond_br-Leads :
      (test : Bool) (l k : ℕ)
      → regs r ≡ Ir.bit test
      → (test ≡ true → Leads undefined F (F l) regs m o code')
      → (test ≡ false → Leads undefined F (F k) regs m o code')
      → Leads undefined F (Ir.cond_br (Value.reg r) l k ∷ rest) regs m o code'
  unfolding step
  cond_br-Leads true l k e then_ else_ =
      goto-Leads undefined F (Ir.cond_br (Value.reg r) l k) l rest code' regs m o
        (ap (λ h. branch_on h l k) e) (then_ refl)
  cond_br-Leads false l k e then_ else_ =
      goto-Leads undefined F (Ir.cond_br (Value.reg r) l k) k rest code' regs m o
        (ap (λ h. branch_on h l k) e) (else_ refl)

-- A comparison, and the branch on its result.
pub compare-Leads :
    (undefined : ℕ → ℕ) (F : Blocks) (rest code' : List Instr) (r : ℕ) (regs : Regs) (m : Machine)
    (o : Outcome) (i : Instr) (test : Bool) (l k : ℕ)
    → step undefined regs m i ≡ assign regs r (Ir.bit test) m
    → (test ≡ true → (regs' : Regs) → Keeps r regs regs' → Leads undefined F (F l) regs' m o code')
    → (test ≡ false → (regs' : Regs) → Keeps r regs regs' → Leads undefined F (F k) regs' m o code')
    → Leads undefined F (i ∷ Ir.cond_br (Value.reg r) l k ∷ rest) regs m o code'
compare-Leads undefined F rest code' r regs m o i test l k e then_ else_ =
    let regs₁ = put regs r (Ir.bit test) in
    let kept : Keeps r regs regs₁ =
      Keeps-put r r regs regs (Ir.bit test) (omega arith) (λ j _. refl) in
    proceed-Leads undefined F i _ code' regs regs₁ m m o e (
      cond_br-Leads undefined F rest code' r regs₁ m o test l k (put_self regs r (Ir.bit test))
        (λ t. then_ t regs₁ kept) (λ t. else_ t regs₁ kept))

test-nonzero : (b : ℕ) → not (b == 0) ≡ true → b ≢ 0
test-nonzero b e z = ground arith

test-zero : (b : ℕ) → not (b == 0) ≡ false → b ≡ 0
test-zero b e = ground arith

-- `if_not0`.
abbrev pub test_code : ℕ → ℕ → ℕ → List Instr → List Instr
test_code r true_ false_ rest =
    Ir.load r Value.slot
    ∷ Ir.gep (r + 1) Value.array (Value.reg r)
    ∷ Ir.load (r + 1 + 1) (Value.reg (r + 1))
    ∷ Ir.cmp_ne (r + 1 + 1 + 1) (Value.reg (r + 1 + 1)) (Value.byte 0)
    ∷ Ir.cond_br (Value.reg (r + 1 + 1 + 1)) true_ false_
    ∷ rest

pub if_not0-Leads :
    (undefined : ℕ → ℕ) (F : Blocks) (rest code' : List Instr) (r : ℕ) (regs : Regs) (m : Machine)
    (o : Outcome) (b true_ false_ : ℕ)
    → m.state.pointer < usize_mod
    → load m.state ≡ ok b
    → (b ≡ 0 → (regs' : Regs) → Leads undefined F (F false_) regs' m o code')
    → (b ≢ 0 → (regs' : Regs) → Leads undefined F (F true_) regs' m o code')
    → Leads undefined F (test_code r true_ false_ rest) regs m o code'
unfolding step
if_not0-Leads undefined F rest code' r regs m o b true_ false_ small e at_zero at_nonzero =
    load_data-Leads undefined F _ code' r regs m o small b e (λ regs₁ kept held.
      compare-Leads undefined F rest code' (r + 1 + 1 + 1) regs₁ m o _ (not (b == 0)) true_ false_
        (ap (λ h. assign regs₁ (r + 1 + 1 + 1) (compare_with (λ a c. not (a == c)) h (Ir.byte 0)) m)
          held)
        (λ t regs' _. at_nonzero (test-nonzero b t) regs')
        (λ t regs' _. at_zero (test-zero b t) regs'))
