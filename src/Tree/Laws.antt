-- ===== src/Tree/Laws.antt =====
-- Laws of trees and of their interpreter.
use bf_rs.Prelude.{ℕ, ◌≡◌, refl, ap, ◌∙◌}
use bf_rs.Machine.{Machine, Outcome, ◌>>=◌}
use bf_rs.Machine.Laws.{
  bind-done, bind_assoc, Preserves, Post-bind, IsValidMachine, while_nonzero-Preserves,
}
use bf_rs.Tree.{
  Statement, Program, instr, loop, nil, ◌⨾◌, ◌⧺◌, push, AllInstr, AllStatement, interpret,
  interpret_statement,
}

module _ {I : Type 0} where
  pub append-nil : (p : Program I) → (p ⧺ nil) ≡ p
  unfolding ◌⧺◌
  append-nil nil = refl
  append-nil (s ⨾ p) = ap (λ t. s ⨾ t) (append-nil p)

  pub append_assoc : (p q r : Program I) → ((p ⧺ q) ⧺ r) ≡ (p ⧺ (q ⧺ r))
  unfolding ◌⧺◌
  append_assoc nil q r = refl
  append_assoc (s ⨾ p) q r = ap (λ t. s ⨾ t) (append_assoc p q r)

  pub AllInstr-append :
      (P : I → Type 0) (p q : Program I) → AllInstr P p → AllInstr P q → AllInstr P (p ⧺ q)
  unfolding ◌⧺◌
  AllInstr-append P nil q hp hq = hq
  AllInstr-append P (s ⨾ p) q hp hq = (hp.0, AllInstr-append P p q hp.1 hq)

  pub AllInstr-push :
      (P : I → Type 0) (p : Program I) (s : Statement I)
      → AllInstr P p
      → AllStatement P s
      → AllInstr P (push p s)
  unfolding push
  AllInstr-push P p s hp hs = AllInstr-append P p (s ⨾ nil) hp (hs, tt)

  module _ (exec : ℕ → I → Machine → Outcome) (fuel : ℕ) where
    pub interpret-append :
        (p q : Program I) (m : Machine)
        → interpret exec fuel (p ⧺ q) m ≡ (interpret exec fuel p m >>= interpret exec fuel q)
    unfolding ◌⧺◌ interpret
    interpret-append nil q m = refl
    interpret-append (s ⨾ p) q m = simp (interpret-append p q, bind_assoc)

    pub interpret-push :
        (p : Program I) (s : Statement I) (m : Machine)
        → interpret exec fuel (push p s) m
          ≡ (interpret exec fuel p m >>= interpret_statement exec fuel s)
    unfolding push interpret
    interpret-push p s m = interpret-append p (s ⨾ nil) m ∙ λ i.
        interpret exec fuel p m >>= λ m'. bind-done (interpret_statement exec fuel s m') i

    mutual
      unfolding interpret

      program-Preserves :
          (P : I → Type 0)
          → ((i : I) → P i → Preserves (exec fuel i))
          → (p : Program I) → AllInstr P p
          → Preserves (interpret exec fuel p)
      program-Preserves P h nil a m v = v
      program-Preserves P h (s ⨾ p) a m v =
          Post-bind IsValidMachine (interpret_statement exec fuel s m) _
            (statement-Preserves P h s a.0 m v) (program-Preserves P h p a.1)

      statement-Preserves :
          (P : I → Type 0)
          → ((i : I) → P i → Preserves (exec fuel i))
          → (s : Statement I) → AllStatement P s
          → Preserves (interpret_statement exec fuel s)
      statement-Preserves P h (instr i) a m v = h i a m v
      statement-Preserves P h (loop body) a m v =
          while_nonzero-Preserves fuel (interpret exec fuel body) (program-Preserves P h body a) m v

    -- If every instruction that satisfies `P` keeps machines valid, so does a program of them.
    pub interpret-Preserves :
        (P : I → Type 0)
        → ((i : I) → P i → Preserves (exec fuel i))
        → (p : Program I) → AllInstr P p
        → Preserves (interpret exec fuel p)
    interpret-Preserves = program-Preserves

module _ {I : Type 0} (P Q : I → Type 0) (k : (i : I) → P i → Q i) where
  mutual
    map-program : (p : Program I) → AllInstr P p → AllInstr Q p
    map-program nil a = tt
    map-program (s ⨾ p) a = (map-statement s a.0, map-program p a.1)

    map-statement : (s : Statement I) → AllStatement P s → AllStatement Q s
    map-statement (instr i) a = k i a
    map-statement (loop body) a = map-program body a

  pub AllInstr-map : (p : Program I) → AllInstr P p → AllInstr Q p
  AllInstr-map = map-program
