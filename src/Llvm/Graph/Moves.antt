-- ===== src/Llvm/Graph/Moves.antt =====
-- src/llvm/compiler.rs: the code of a move, and that of a loop.
use bf_rs.Prelude.{
  ℕ, zero, suc, ◌+◌, ◌-◌, ◌<◌, ◌≤◌, ◌≡◌, refl, ap, ◌∙◌, inl, inr, List, ◌∷◌, length, arith,
}
use bf_rs.Common.{ok, err, pointer_overflow, pointer_underflow}
use bf_rs.State
use bf_rs.State.{State, usize_mod, pos_offset, neg_offset, load}
use bf_rs.State.Valid.{IsValid, isize_max, load_valid, pos_offset-cases, neg_offset-cases}
use bf_rs.Machine.{Machine, Outcome, on_state, while_nonzero}
use bf_rs.Machine.Laws.{Post, IsValidMachine, while_nonzero-done, while_nonzero-again}
use bf_rs.Rts.{underflow, overflow}
use bf_rs.Llvm.Ir
use bf_rs.Llvm.Ir.{Value, Instr, Blocks, Regs, step, store_to}
use bf_rs.Llvm.Graph.Leads.{Leads, proceed-Leads, goto-Leads, bind-Leads, here-Leads}
use bf_rs.Llvm.Graph.Cell.{test_code, if_not0-Leads}
use bf_rs.Llvm.Graph.Offset.{right_check, left_check, load_pos_offset-Leads, load_neg_offset-Leads}

module _ (s : State) (v : IsValid s) (n : ℕ) where
  pub pos_offset-ok : s.pointer + n < length s.memory → pos_offset n s ≡ ok (s.pointer + n)
  pos_offset-ok h = elim (pos_offset-cases s v n) [
    | inl (l, e) ↦ e ∙ ap ok (omega (arith, v.allocated))
    | inr (l, e) ↦ absurd (omega (arith, v.allocated))
  ]

  pub pos_offset-err :
      n ≤ isize_max → length s.memory ≤ s.pointer + n → pos_offset n s ≡ err pointer_overflow
  pos_offset-err k h = elim (pos_offset-cases s v n) [
    | inl (l, e) ↦ absurd (omega (arith, v.allocated, v.inside))
    | inr (l, e) ↦ e
  ]

  pub neg_offset-ok : n ≤ s.pointer → neg_offset n s ≡ ok (s.pointer - n)
  neg_offset-ok h = elim (neg_offset-cases s v n) [
    | inl (l, e) ↦ e
    | inr (l, e) ↦ absurd (omega arith)
  ]

  pub neg_offset-err : s.pointer < n → neg_offset n s ≡ err pointer_underflow
  neg_offset-err h = elim (neg_offset-cases s v n) [
    | inl (l, e) ↦ absurd (omega arith)
    | inr (l, e) ↦ e
  ]

module _ (undefined : ℕ → ℕ) (F : Blocks) (rest rest₁ rest₂ : List Instr) (r : ℕ) (regs : Regs)
    (m : Machine) (v : IsValid m.state) (n success : ℕ) (h : n ≤ isize_max) where
  pub right-Leads :
      F success ≡ (
        Ir.add (r + 1 + 1 + 1) (Value.reg r) (Value.word n)
        ∷ Ir.store (Value.reg (r + 1 + 1 + 1)) Value.slot
        ∷ rest₁)
      → F 2 ≡ Ir.ret (Value.word overflow) ∷ rest₂
      → Leads undefined F
          (right_check r (length m.state.memory) n success rest)
          regs
          m
          (on_state (State.right n) m)
          rest₁
  unfolding step State.right
  right-Leads e e' =
      load_pos_offset-Leads undefined F rest _ rest₂ rest₁ r regs m _ v n success h e e'
        (λ l regs' _ held. rw (pos_offset-ok m.state v n l) (
          proceed-Leads undefined F _ rest₁ rest₁ regs' regs' m _ _
            (ap (λ w. store_to regs' m w Ir.slot) held) (here-Leads undefined F rest₁ regs' _)))
        (λ l. rw (pos_offset-err m.state v n h l) refl)

  pub left-Leads :
      F success ≡ (
        Ir.sub (r + 1 + 1) (Value.reg r) (Value.word n)
        ∷ Ir.store (Value.reg (r + 1 + 1)) Value.slot
        ∷ rest₁)
      → F 1 ≡ Ir.ret (Value.word underflow) ∷ rest₂
      → Leads undefined F (left_check r n success rest) regs m (on_state (State.left n) m) rest₁
  unfolding step State.left
  left-Leads e e' =
      load_neg_offset-Leads undefined F rest _ rest₂ rest₁ r regs m _ v n success h e e'
        (λ l regs' _ held. rw (neg_offset-ok m.state v n l) (
          proceed-Leads undefined F _ rest₁ rest₁ regs' regs' m _ _
            (ap (λ w. store_to regs' m w Ir.slot) held) (here-Leads undefined F rest₁ regs' _)))
        (λ l. rw (neg_offset-err m.state v n l) refl)

-- A valid machine whose memory has the size that the code was made for.
abbrev pub Fits : ℕ → Machine → Type 0
Fits size m = IsValidMachine m × (length m.state.memory ≡ size)

module _ (undefined : ℕ → ℕ) (F : Blocks) (size : ℕ) (body : Machine → Outcome)
    (header true_ false_ r : ℕ) (rest back : List Instr) where
  pub loop-Leads :
      F header ≡ test_code r true_ false_ rest
      → ((m : Machine) → Fits size m → Post (Fits size) (body m))
      → ((m : Machine) (regs : Regs)
          → Fits size m
          → Leads undefined F (F true_) regs m (body m) (Ir.br header ∷ back))
      → (fuel : ℕ) (m : Machine) (regs : Regs) → Fits size m
      → Leads undefined F (F header) regs m (while_nonzero fuel body m) (F false_)
  unfolding step while_nonzero Leads
  loop-Leads e keeps inside zero m regs f = tt
  loop-Leads e keeps inside (suc fuel) m regs f =
      let v = f.0.valid in
      let (b, _, loaded, _) = load_valid m.state v in
      rw e (
        if_not0-Leads undefined F rest (F false_) r regs m (while_nonzero (suc fuel) body m) b true_
          false_ (omega (arith, v.inside, v.allocated)) loaded
          (λ z regs'.
            rw (while_nonzero-done fuel body m (loaded ∙ ap ok z))
              (here-Leads undefined F (F false_) regs' m))
          (λ z regs'. rw (while_nonzero-again fuel (b - 1) body m (loaded ∙ ap ok (omega arith))) (
            bind-Leads undefined F (Fits size) (F true_) (Ir.br header ∷ back) (F false_) regs' m
              (body m) (while_nonzero fuel body) (keeps m f) (inside m regs' f)
              (λ regs₁ m₁ f₁.
                goto-Leads undefined F (Ir.br header) header back (F false_) regs₁ m₁ _ refl
                  (loop-Leads e keeps inside fuel m₁ regs₁ f₁)))))
