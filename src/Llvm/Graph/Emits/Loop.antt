-- ===== src/Llvm/Graph/Emits/Loop.antt =====
-- src/llvm/compiler.rs: a loop around a body that is emitted right.
use bf_rs.Prelude.{ℕ, ◌+◌, ◌<◌, ◌≡◌, ◌≢◌, refl, subst, sym, ◌∙◌, inl, inr, [], ◌∷◌, ◌++◌, arith}
use bf_rs.Machine.{Machine, Outcome, while_nonzero}
use bf_rs.Machine.Laws.{Post}
use bf_rs.Llvm.Ir
use bf_rs.Llvm.Ir.{Value, Instr, Blocks, Regs, step}
use bf_rs.Llvm.Wrapper.{Builder}
use bf_rs.Llvm.Graph
use bf_rs.Llvm.Graph.Leads.{Leads, goto-Leads}
use bf_rs.Llvm.Graph.Data.{put_ne}
use bf_rs.Llvm.Graph.Cell.{test_code}
use bf_rs.Llvm.Graph.Moves.{Fits, loop-Leads}
use bf_rs.Llvm.Graph.Grows.{
  IsFresh, Since, Since-refl, Since-trans, insert_all-Since, position-Since, Extends-Since,
  insert_all-Extends, left-Tail, blank-Tail,
}
use bf_rs.Llvm.Graph.Emits.{compiler, Emits}
use bf_rs.Llvm.Graph.Emits.Moves.{switched, switched-Since, switched-blank}

module _ (size : ℕ) (b : Builder) (fresh : IsFresh b) where
  -- At the header, and then at the body.
  abbrev at_header : Builder
  at_header =
      switched b fresh b.count (b.count + 1 + 1 + 1) (Ir.br b.count ∷ []) (omega arith)
        (omega arith)

  abbrev pub at_body : Builder
  at_body = (Graph.open_loop (compiler size) b).1

  at_header-Since : Since b at_header
  at_header-Since =
      switched-Since b fresh b.count (b.count + 1 + 1 + 1) (Ir.br b.count ∷ []) (omega arith)
        (omega arith)

  pub at_body-Since : Since b at_body
  at_body-Since = position-Since (b.count + 1) b _ (omega arith) (omega arith) (
      insert_all-Since (test_code b.next (b.count + 1) (b.count + 1 + 1) [])
        (b.next + 1 + 1 + 1 + 1) b at_header at_header-Since)

  body-blank : (j : ℕ) → b.count < j → j < b.count + 1 + 1 + 1 → at_body.blocks j ≡ []
  body-blank j from to =
      let s =
        insert_all-Since (test_code b.next (b.count + 1) (b.count + 1 + 1) []) b.next at_header
          at_header (Since-refl at_header at_header-Since.fresh) in
      s.kept j to (λ e. omega (arith, e, from))
      ∙ switched-blank b fresh b.count (b.count + 1 + 1 + 1) (Ir.br b.count ∷ []) (omega arith)
          (omega arith) j (omega (arith, from)) to

  module _ (undefined : ℕ → ℕ) (fuel : ℕ) (b' : Builder) (f : Machine → Outcome)
      (body : Emits undefined size at_body b' f)
      (keeps : (m : Machine) → Fits size m → Post (Fits size) (f m)) where
    abbrev closed : Builder
    closed = (Graph.close_loop (compiler size) (b.count, b.count + 1 + 1) b').1

    closed-blank : closed.blocks (b.count + 1 + 1) ≡ []
    closed-blank =
        let elsewhere : b.count + 1 + 1 ≢ b'.position = elim body.since.place [
          | inl e ↦ λ x. omega (arith, e, x)
          | inr l ↦ λ x. omega (arith, l, x)
        ] in
        put_ne b'.blocks b'.position (b'.blocks b'.position ++ (Ir.br b.count ∷ []))
          (b.count + 1 + 1) elsewhere
        ∙ body.since.kept (b.count + 1 + 1) (omega arith) (λ e. omega (arith, e))
        ∙ body-blank (b.count + 1 + 1) (omega arith) (omega arith)

    pub loop-Emits : Emits undefined size b closed (while_nonzero fuel f)
    unfolding step
    loop-Emits =
        let c = b.count in
        let jump = Ir.br c ∷ [] in
        let test = test_code b.next (c + 1) (c + 1 + 1) [] in
        record {
          since = position-Since (c + 1 + 1) b _ (omega arith) (omega (arith, body.since.more)) (
              insert_all-Since jump b'.next b b'
                (Since-trans b at_body b' at_body-Since body.since));
          runs = λ F extends ends code' t.
              let at_false = blank-Tail F closed code' closed-blank t in
              let extends' = insert_all-Extends F jump b' extends in
              let (back, at_back) = left-Tail F jump b' extends in
              let (inside, at_inside, run) = body.runs F extends' ends (Ir.br c ∷ back) at_back in
              let at_true =
                blank-Tail F at_body inside (body-blank (c + 1) (omega arith) (omega arith))
                  at_inside in
              let extends₁ = Extends-Since F at_body b' body.since extends' in
              let (rest, at_test) = left-Tail F test at_header extends₁ in
              let header-blank =
                switched-blank b fresh c (c + 1 + 1 + 1) jump (omega arith) (omega arith) c
                  (omega arith) (omega arith) in
              let (rest₀, at_start) =
                left-Tail F jump b (insert_all-Extends F test at_header extends₁) in
              (
                jump ++ rest₀,
                at_start,
                λ m h regs.
                    goto-Leads undefined F (Ir.br c) c rest₀ code' regs m (while_nonzero fuel f m)
                      refl
                      (subst (λ code. Leads undefined F (F c) regs m (while_nonzero fuel f m) code)
                        at_false
                        (loop-Leads undefined F size f c (c + 1) (c + 1 + 1) b.next rest back
                          (blank-Tail F at_header _ header-blank at_test) keeps
                          (λ m₁ regs₁ h₁.
                            subst (λ code. Leads undefined F code regs₁ m₁ (f m₁) (Ir.br c ∷ back))
                              (sym at_true) (run m₁ h₁ regs₁))
                          fuel m regs h)),
              );
        }
