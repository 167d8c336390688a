-- ===== src/Llvm/Graph/Data.antt =====
-- src/llvm/compiler.rs: loads and stores of the byte at the pointer.
use bf_rs.Prelude.{ℕ, ◌+◌, ◌<◌, ◌≤◌, ◌≡◌, ◌≢◌, refl, ap, ◌∙◌, List, ◌∷◌, arith}
use bf_rs.Common.{ok}
use bf_rs.State.{State, usize_mod, index, modify}
use bf_rs.Machine.{Machine, Outcome}
use bf_rs.Llvm.Ir
use bf_rs.Llvm.Ir.{
  Value, Instr, Blocks, Held, Regs, put, eval, Next, proceed, step, with_byte, with_state,
  load_from, store_to, address, assign,
}
use bf_rs.Llvm.Graph.Leads.{Leads, proceed-Leads}

pub put_self {ℓ} : {A : Type ℓ} (f : ℕ → A) (i : ℕ) (v : A) → put f i v i ≡ v
put_self f i v = ground arith

pub put_ne {ℓ} : {A : Type ℓ} (f : ℕ → A) (i : ℕ) (v : A) (j : ℕ) → j ≢ i → put f i v j ≡ f j
put_ne f i v j h = ground arith

-- The registers below `r` hold what they did.
abbrev pub Keeps : ℕ → Regs → Regs → Type 0
Keeps r regs regs' = (j : ℕ) → j < r → regs' j ≡ regs j

pub Keeps-put :
    (r i : ℕ) (regs regs₁ : Regs) (v : Held)
    → r ≤ i
    → Keeps r regs regs₁
    → Keeps r regs (put regs₁ i v)
Keeps-put r i regs regs₁ v h k j l = put_ne regs₁ i v j (λ e. omega (arith, e)) ∙ k j l

-- An instruction with a result.
pub assign-Leads :
    (undefined : ℕ → ℕ) (F : Blocks) (i : Instr) (rest code' : List Instr) (r : ℕ) (regs : Regs)
    (v : Held) (m : Machine) (o : Outcome)
    → step undefined regs m i ≡ assign regs r v m
    → ((regs' : Regs) → Keeps r regs regs' → regs' r ≡ v → Leads undefined F rest regs' m o code')
    → Leads undefined F (i ∷ rest) regs m o code'
assign-Leads undefined F i rest code' r regs v m o e k =
    proceed-Leads undefined F i rest code' regs (put regs r v) m m o e
      (k (put regs r v) (Keeps-put r r regs regs v (omega arith) (λ j _. refl)) (put_self regs r v))

module _ (undefined : ℕ → ℕ) (F : Blocks) (rest code' : List Instr) (r : ℕ) (regs : Regs)
    (m : Machine) (o : Outcome) where
  -- `load_data_at`.
  pub load_data_at-Leads :
      (v : Value) (i b : ℕ)
      → eval regs v ≡ Ir.word i
      → i < usize_mod
      → index m.state.memory i ≡ ok b
      → ((regs' : Regs)
          → Keeps r regs regs'
          → regs' (r + 1) ≡ Ir.byte b
          → Leads undefined F rest regs' m o code')
      → Leads undefined F
          (Ir.gep r Value.array v ∷ Ir.load (r + 1) (Value.reg r) ∷ rest)
          regs
          m
          o
          code'
  unfolding step
  load_data_at-Leads v i b e l g k =
      let regs₁ = put regs r (Ir.cell i) in
      let regs₂ = put regs₁ (r + 1) (Ir.byte b) in
      proceed-Leads undefined F (Ir.gep r Value.array v) (Ir.load (r + 1) (Value.reg r) ∷ rest)
        code' regs regs₁ m m o
        (ap (λ h. assign regs r (address (Ir.cell 0) h) m) e
          ∙ ap (λ n. assign regs r (Ir.cell n) m) (omega arith))
        (proceed-Leads undefined F (Ir.load (r + 1) (Value.reg r)) rest code' regs₁ regs₂ m m o
          (ap (load_from regs₁ (r + 1) m) (put_self regs r (Ir.cell i))
            ∙ ap (with_byte regs₁ (r + 1) m) g)
          (k regs₂
            (Keeps-put r (r + 1) regs regs₁ (Ir.byte b) (omega arith)
              (Keeps-put r r regs regs (Ir.cell i) (omega arith) (λ j _. refl)))
            (put_self regs₁ (r + 1) (Ir.byte b))))

  -- `store_data_at`.
  pub store_data_at-Leads :
      (v w : Value) (i b : ℕ) (s : State)
      → eval regs v ≡ Ir.word i
      → i < usize_mod
      → ((regs' : Regs) → Keeps r regs regs' → eval regs' w ≡ Ir.byte b)
      → modify (λ _. b) i m.state ≡ ok s
      → ((regs' : Regs)
          → Keeps r regs regs'
          → Leads undefined F rest regs' (record { state = s; io = m.io }) o code')
      → Leads undefined F (Ir.gep r Value.array v ∷ Ir.store w (Value.reg r) ∷ rest) regs m o code'
  unfolding step
  store_data_at-Leads v w i b s e l held g k =
      let regs₁ = put regs r (Ir.cell i) in
      let kept : Keeps r regs regs₁ =
        Keeps-put r r regs regs (Ir.cell i) (omega arith) (λ j _. refl) in
      proceed-Leads undefined F (Ir.gep r Value.array v) (Ir.store w (Value.reg r) ∷ rest) code'
        regs regs₁ m m o
        (ap (λ h. assign regs r (address (Ir.cell 0) h) m) e
          ∙ ap (λ n. assign regs r (Ir.cell n) m) (omega arith))
        (proceed-Leads undefined F (Ir.store w (Value.reg r)) rest code' regs₁ regs₁ m
          (record { state = s; io = m.io }) o
          (ap (λ h. store_to regs₁ m h (eval regs₁ (Value.reg r))) (held regs₁ kept)
            ∙ ap (store_to regs₁ m (Ir.byte b)) (put_self regs r (Ir.cell i))
            ∙ ap (with_state regs₁ m) g)
          (k regs₁ kept))
