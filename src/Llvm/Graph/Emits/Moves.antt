-- ===== src/Llvm/Graph/Emits/Moves.antt =====
-- src/llvm/compiler.rs: the two moves, which go on in the block behind the check.
use bf_rs.Prelude.{ℕ, ◌+◌, ◌<◌, ◌≤◌, ◌≡◌, subst, ◌∙◌, List, [], ◌∷◌, ◌++◌, arith}
use bf_rs.State
use bf_rs.State.Valid.{isize_max}
use bf_rs.Machine.{Machine, Outcome, on_state}
use bf_rs.Llvm.Ir
use bf_rs.Llvm.Ir.{Value, Instr, Blocks, Regs}
use bf_rs.Llvm.Wrapper.{Builder}
use bf_rs.Llvm.Graph
use bf_rs.Llvm.Graph.Leads.{Leads}
use bf_rs.Llvm.Graph.Moves.{Fits, right-Leads, left-Leads}
use bf_rs.Llvm.Graph.Offset.{right_check, left_check}
use bf_rs.Llvm.Graph.Grows.{
  insert_all, IsFresh, Since, Since-refl, insert_all-Since, append-Since, position-Since,
  insert_all-Extends, insert_all-Tail, left-Tail, blank-Tail,
}
use bf_rs.Llvm.Graph.Emits.{compiler, HasEnds, Emits}

module _ (b : Builder) (fresh : IsFresh b) (l k : ℕ) (is : List Instr) (h : b.count ≤ l)
    (g : l < k) where
  -- New blocks, an end of the block, and the builder at one of the new blocks.
  abbrev pub switched : Builder
  switched = record (insert_all is (record b { count = k })) { position = l }

  pub switched-Since : Since b switched
  switched-Since =
      position-Since l b _ h g
        (insert_all-Since is b.next b _ (append-Since k b b (omega arith) (Since-refl b fresh)))

  pub switched-blank : (j : ℕ) → b.count ≤ j → j < k → switched.blocks j ≡ []
  switched-blank j from to =
      let b₁ : Builder = record b { count = k } in
      let s = append-Since k b b (omega arith) (Since-refl b fresh) in
      let t = insert_all-Since is b.next b₁ b₁ (Since-refl b₁ s.fresh) in
      t.kept j to (λ e. omega (arith, fresh.within, e)) ∙ fresh.blank j from

module _ (undefined : ℕ → ℕ) (size : ℕ) (b : Builder) (fresh : IsFresh b) where
  -- Some instructions with a jump to a new block, and there some more.
  switched-Emits :
      (is is' : List Instr) (next : ℕ) (f : Machine → Outcome)
      → ((F : Blocks) (rest code' : List Instr)
          → HasEnds F
          → F b.count ≡ is' ++ code'
          → (m : Machine) → Fits size m
          → (regs : Regs) → Leads undefined F (is ++ rest) regs m (f m) code')
      → Emits undefined size b
          (record (insert_all is'
            (switched b fresh b.count (b.count + 1) is (omega arith) (omega arith))) {
              next = next;
            })
          f
  switched-Emits is is' next f k =
      let l = b.count in
      let b₁ = switched b fresh l (l + 1) is (omega arith) (omega arith) in
      let s₁ = switched-Since b fresh l (l + 1) is (omega arith) (omega arith) in
      let blank =
        switched-blank b fresh l (l + 1) is (omega arith) (omega arith) l (omega arith)
          (omega arith) in
      record {
        since = insert_all-Since is' next b b₁ s₁;
        runs = λ F extends ends code' t.
            let (rest, at) = left-Tail F is b (insert_all-Extends F is' b₁ extends) in
            let behind = blank-Tail F b₁ (is' ++ code') blank (insert_all-Tail F is' b₁ code' t) in
            (is ++ rest, at, k F rest code' ends behind);
      }

  module _ (n : ℕ) (small : n ≤ isize_max) where
    pub right-Emits :
        Emits undefined size b (Graph.right (compiler size) n b).1 (on_state (State.right n))
    right-Emits =
        let r = b.next in
        switched-Emits (right_check r size n b.count [])
          (Ir.add (r + 1 + 1 + 1) (Value.reg r) (Value.word n)
            ∷ Ir.store (Value.reg (r + 1 + 1 + 1)) Value.slot
            ∷ [])
          (r + 1 + 1 + 1 + 1) (on_state (State.right n))
          (λ F rest code' ends behind m h regs.
            subst
              (λ s.
                Leads undefined F (right_check r s n b.count rest) regs m
                  (on_state (State.right n) m) code')
              h.1
              (right-Leads undefined F rest code' ends.after_overflow r regs m h.0.valid n b.count
                small behind ends.at_overflow))

    pub left-Emits :
        Emits undefined size b (Graph.left (compiler size) n b).1 (on_state (State.left n))
    left-Emits =
        let r = b.next in
        switched-Emits (left_check r n b.count [])
          (Ir.sub (r + 1 + 1) (Value.reg r) (Value.word n)
            ∷ Ir.store (Value.reg (r + 1 + 1)) Value.slot
            ∷ [])
          (r + 1 + 1 + 1) (on_state (State.left n))
          (λ F rest code' ends behind m h regs.
            left-Leads undefined F rest code' ends.after_underflow r regs m h.0.valid n b.count
              small behind ends.at_underflow)
