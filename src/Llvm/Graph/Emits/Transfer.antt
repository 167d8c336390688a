-- ===== src/Llvm/Graph/Emits/Transfer.antt =====
-- src/llvm/compiler.rs: the two transfers, over three new blocks.
use bf_rs.Prelude.{
  ℕ, ◌+◌, ◌<◌, ◌≤◌, ◌≡◌, subst, sym, ◌∙◌, List, [], ◌∷◌, ◌++◌, ◌==◌, if◌then◌else◌, arith,
}
use bf_rs.State.{State, load}
use bf_rs.State.Valid.{isize_max}
use bf_rs.Common.{Result}
use bf_rs.Machine.{Machine, Outcome, done, on_state, with_result}
use bf_rs.Peephole.Interpreter.{move_right, move_left}
use bf_rs.Llvm.Ir
use bf_rs.Llvm.Ir.{Value, Instr, Blocks, Regs}
use bf_rs.Llvm.Wrapper.{Builder}
use bf_rs.Llvm.Graph
use bf_rs.Llvm.Graph.Leads.{Leads}
use bf_rs.Llvm.Graph.Cell.{test_code}
use bf_rs.Llvm.Graph.Offset.{right_check, left_check}
use bf_rs.Llvm.Graph.Transfer.{transfer}
use bf_rs.Llvm.Graph.Guarded.{offset_add_right-Leads, offset_add_left-Leads}
use bf_rs.Llvm.Graph.Moves.{Fits}
use bf_rs.Llvm.Graph.Grows.{
  insert_all, IsFresh, Since, Since-refl, insert_all-Since, append-Since, position-Since,
  insert_all-Extends, left-Tail, blank-Tail,
}
use bf_rs.Llvm.Graph.Emits.{compiler, HasEnds, Emits}
use bf_rs.Llvm.Graph.Emits.Moves.{switched, switched-Since, switched-blank}

module _ (undefined : ℕ → ℕ) (size : ℕ) (b : Builder) (fresh : IsFresh b) (check is : List Instr)
    (next : ℕ) where
  abbrev test : List Instr
  test = test_code b.next b.count (b.count + 1) []

  -- At the block `do_it`, at that behind the check, and at `after`.
  abbrev at_do_it : Builder
  at_do_it = record (switched b fresh b.count (b.count + 1 + 1) test (omega arith) (omega arith)) {
    next = b.next + 1 + 1 + 1 + 1;
  }

  at_do_it-Since : Since b at_do_it
  at_do_it-Since =
      insert_all-Since [] (b.next + 1 + 1 + 1 + 1) b
        (switched b fresh b.count (b.count + 1 + 1) test (omega arith) (omega arith))
        (switched-Since b fresh b.count (b.count + 1 + 1) test (omega arith) (omega arith))

  do_it-blank : (j : ℕ) → b.count ≤ j → j < b.count + 1 + 1 → at_do_it.blocks j ≡ []
  do_it-blank = switched-blank b fresh b.count (b.count + 1 + 1) test (omega arith) (omega arith)

  abbrev at_success : Builder
  at_success =
      switched at_do_it at_do_it-Since.fresh (b.count + 1 + 1) (b.count + 1 + 1 + 1) check
        (omega arith) (omega arith)

  at_success-Since : Since b at_success
  at_success-Since = position-Since (b.count + 1 + 1) b _ (omega arith) (omega arith) (
      insert_all-Since check at_do_it.next b _
        (append-Since (b.count + 1 + 1 + 1) b at_do_it (omega arith) at_do_it-Since))

  success-blank : at_success.blocks (b.count + 1 + 1) ≡ []
  success-blank =
      switched-blank at_do_it at_do_it-Since.fresh (b.count + 1 + 1) (b.count + 1 + 1 + 1) check
        (omega arith) (omega arith) (b.count + 1 + 1) (omega arith) (omega arith)

  abbrev at_after : Builder
  at_after = record (insert_all is at_success) { position = b.count + 1; next = next }

  at_after-Since : Since b at_after
  at_after-Since =
      position-Since (b.count + 1) b _ (omega arith) (omega arith)
        (insert_all-Since is next b at_success at_success-Since)

  after-blank : at_after.blocks (b.count + 1) ≡ []
  after-blank =
      let s =
        insert_all-Since is next at_success at_success
          (Since-refl at_success at_success-Since.fresh) in
      let s₁ =
        switched-Since at_do_it at_do_it-Since.fresh (b.count + 1 + 1) (b.count + 1 + 1 + 1) check
          (omega arith) (omega arith) in
      s.kept (b.count + 1) (omega arith) (λ e. omega (arith, e))
      ∙ s₁.kept (b.count + 1) (omega arith) (λ e. omega (arith, e))
      ∙ do_it-blank (b.count + 1) (omega arith) (omega arith)

  guarded-Emits :
      (f : Machine → Outcome)
      → ((F : Blocks) (rest rest₁ rest₂ : List Instr)
          → HasEnds F
          → F b.count ≡ check ++ rest₁
          → F (b.count + 1 + 1) ≡ is ++ rest₂
          → (m : Machine) → Fits size m
          → (regs : Regs) → Leads undefined F (test ++ rest) regs m (f m) (F (b.count + 1)))
      → Emits undefined size b at_after f
  guarded-Emits f k = record {
    since = at_after-Since;
    runs = λ F extends ends code' t.
        let behind = blank-Tail F at_after code' after-blank t in
        let extends₂ = insert_all-Extends F is at_success extends in
        let extends₁ = insert_all-Extends F check at_do_it extends₂ in
        let (rest₂, t₂) = left-Tail F is at_success extends in
        let (rest₁, t₁) = left-Tail F check at_do_it extends₂ in
        let (rest, t₀) = left-Tail F test b extends₁ in
        let checked =
          blank-Tail F at_do_it (check ++ rest₁) (do_it-blank b.count (omega arith) (omega arith))
            t₁ in
        let success = blank-Tail F at_success (is ++ rest₂) success-blank t₂ in
        (
          test ++ rest,
          t₀,
          λ m h regs.
              subst (λ code. Leads undefined F (test ++ rest) regs m (f m) code) behind
                (k F rest rest₁ rest₂ ends checked success m h regs),
        );
  }

abbrev guarded : (ℕ → State → Result State) → Machine → Outcome
guarded move m =
    with_result m.io (load m.state) λ value. if value == 0 then done m else on_state (move value) m

module _ (undefined : ℕ → ℕ) (size : ℕ) (b : Builder) (fresh : IsFresh b) (n : ℕ)
    (small : n ≤ isize_max) where
  pub offset_add_right-Emits :
      Emits undefined size b
        (Graph.offset_add (compiler size) (Graph.load_pos_offset (compiler size) n) b).1
        (guarded (move_right n))
  offset_add_right-Emits =
      let q = b.next + 1 + 1 + 1 + 1 in
      let p = q + 1 + 1 + 1 in
      let c = b.count in
      guarded-Emits undefined size b fresh (right_check q size n (c + 1 + 1) [])
        (Ir.add p (Value.reg q) (Value.word n) ∷ transfer p (p + 1) (c + 1) [])
        (p + 1 + 1 + 1 + 1 + 1 + 1 + 1 + 1 + 1 + 1) (guarded (move_right n))
        (λ F rest rest₁ rest₂ ends checked success m h regs.
          offset_add_right-Leads undefined F rest b.next c (c + 1) regs m h.0.valid n (c + 1 + 1) q
            small rest₁ rest₂ ends.after_overflow
            (subst (λ s. F c ≡ right_check q s n (c + 1 + 1) rest₁) (sym h.1) checked) success
            ends.at_overflow)

  pub offset_add_left-Emits :
      Emits undefined size b
        (Graph.offset_add (compiler size) (Graph.load_neg_offset (compiler size) n) b).1
        (guarded (move_left n))
  offset_add_left-Emits =
      let q = b.next + 1 + 1 + 1 + 1 in
      let p = q + 1 + 1 in
      let c = b.count in
      guarded-Emits undefined size b fresh (left_check q n (c + 1 + 1) [])
        (Ir.sub p (Value.reg q) (Value.word n) ∷ transfer p (p + 1) (c + 1) [])
        (p + 1 + 1 + 1 + 1 + 1 + 1 + 1 + 1 + 1 + 1) (guarded (move_left n))
        (λ F rest rest₁ rest₂ ends checked success m h regs.
          offset_add_left-Leads undefined F rest b.next c (c + 1) regs m h.0.valid n (c + 1 + 1) q
            small rest₁ rest₂ ends.after_underflow checked success ends.at_underflow)
