-- ===== src/Semantics/Sound.antt =====
-- src/ast/interpreter.rs: every end of a run has a derivation.
use bf_rs.Prelude.{ℕ, zero, suc, ◌≡◌, ◌≢◌, refl, List, some}
use mathlib.Core.Path.{subst}
use bf_rs.Machine.{
  Machine, Outcome, done, failed, panicked, out_of_fuel, ◌>>=◌, branch, while_nonzero,
}
use bf_rs.Machine.Laws.{IsValidMachine, Post, Preserves, while_nonzero-Preserves}
use bf_rs.Tree
use bf_rs.Tree.{nil, ◌⨾◌, instr, loop, AllInstr, AllStatement, interpret_statement}
use bf_rs.Tree.Laws
use bf_rs.Ast.{Program, Statement, IsPlain}
use bf_rs.Ast.Interpreter.{exec, interpret}
use bf_rs.Ast.Safety.{command-Preserves}
use bf_rs.Ast.Parser.{ok as parsed_ok, parse_program}
use bf_rs.Ast.Parser.Correct.{parse_program-print}
use bf_rs.Semantics.{
  Config, Final, halts, aborts, step, Runs, finish, next, stop, Does, command, enter, Loops, leave,
  again, fall,
}
use bf_rs.Semantics.View.{get_or, view, see, load-cell}
use bf_rs.Semantics.Commands.{see-command}

-- The end of the run satisfies `R`; it is no panic.
abbrev pub Meets : (Final → Type 0) → Outcome → Type 0
Meets R (done m) = R (halts (view m))
Meets R (failed e io) = R (aborts e io.input io.output)
Meets R (panicked io) = ⊥
Meets R out_of_fuel = Unit

Meets-map : (R Q : Final → Type 0) (o : Outcome) → ((r : Final) → R r → Q r) → Meets R o → Meets Q o
Meets-map R Q (done m) k h = k _ h
Meets-map R Q (failed e io) k h = k _ h
Meets-map R Q (panicked io) k h = h
Meets-map R Q out_of_fuel k h = h

Meets-see : (R : Final → Type 0) (o : Outcome) (r : Final) → see o ≡ some r → R r → Meets R o
Meets-see R (done m) r e h = subst R (cc) h
Meets-see R (failed x io) r e h = subst R (cc) h
Meets-see R (panicked io) r e h = absurd (cc)
Meets-see R out_of_fuel r e h = tt

-- A statement, and then a program.
bind-Meets :
    (s : Statement) (p : Program) (c : Config) (o : Outcome) (f : Machine → Outcome)
    → Post IsValidMachine o
    → Meets (Does s c) o
    → ((m : Machine) → IsValidMachine m → Meets (Runs p (view m)) (f m))
    → Meets (Runs (s ⨾ p) c) (o >>= f)
bind-Meets s p c (done m) f v d k = Meets-map (Runs p (view m)) _ (f m) (λ r. next d) (k m v)
bind-Meets s p c (failed e io) f v d k = stop d
bind-Meets s p c (panicked io) f v d k = d
bind-Meets s p c out_of_fuel f v d k = tt

-- A round of a loop whose cell is not 0, and the loop once more.
round-Meets :
    (body : Program) (c : Config) (o : Outcome) (f : Machine → Outcome)
    → c.cell c.head ≢ 0
    → Post IsValidMachine o
    → Meets (Runs body c) o
    → ((m : Machine) → IsValidMachine m → Meets (Loops body (view m)) (f m))
    → Meets (Loops body c) (o >>= f)
round-Meets body c (done m) f n v d k =
    Meets-map (Loops body (view m)) _ (f m) (λ r. again n d) (k m v)
round-Meets body c (failed e io) f n v d k = fall n d
round-Meets body c (panicked io) f n v d k = d
round-Meets body c out_of_fuel f n v d k = tt

branch-Meets :
    (R : Final → Type 0) (x y : Outcome) (b : ℕ)
    → (b ≡ 0 → Meets R x)
    → (b ≢ 0 → Meets R y)
    → Meets R (branch x y b)
branch-Meets R x y zero h k = h refl
branch-Meets R x y (suc b) h k = k (λ e. cc)

while_nonzero-Meets :
    (body : Program) (rounds : ℕ) (run : Machine → Outcome)
    → Preserves run
    → ((m : Machine) → IsValidMachine m → Meets (Runs body (view m)) (run m))
    → (m : Machine) → IsValidMachine m
    → Meets (Loops body (view m)) (while_nonzero rounds run m)
unfolding while_nonzero
while_nonzero-Meets body zero run p k m v = tt
while_nonzero-Meets body (suc rounds) run p k m v = rw (load-cell m v) (
    branch-Meets (Loops body (view m)) (done m) (run m >>= while_nonzero rounds run)
      (get_or m.state.memory m.state.pointer) (λ e. leave e)
      (λ n.
        round-Meets body (view m) (run m) (while_nonzero rounds run) n (p m v) (k m v)
          (while_nonzero-Meets body rounds run p k)))

module _ (fuel : ℕ) where
  pub program-Preserves :
      (p : Program) → AllInstr IsPlain p → Preserves (Tree.interpret exec fuel p)
  program-Preserves = Tree.Laws.interpret-Preserves exec fuel IsPlain command-Preserves

  mutual
    unfolding Tree.interpret

    program-Meets :
        (p : Program)
        → AllInstr IsPlain p
        → (m : Machine) → IsValidMachine m
        → Meets (Runs p (view m)) (Tree.interpret exec fuel p m)
    program-Meets nil a m v = finish
    program-Meets (s ⨾ p) a m v =
        bind-Meets s p (view m) (interpret_statement exec fuel s m) (Tree.interpret exec fuel p)
          (statement-Preserves s a.0 m v) (statement-Meets s a.0 m v) (program-Meets p a.1)

    statement-Meets :
        (s : Statement)
        → AllStatement IsPlain s
        → (m : Machine) → IsValidMachine m
        → Meets (Does s (view m)) (interpret_statement exec fuel s m)
    statement-Meets (instr k) a m v =
        Meets-see (Does (instr k) (view m)) (exec fuel k m) (step k (view m)) (see-command k m a v)
          (command refl)
    statement-Meets (loop body) a m v =
        Meets-map (Loops body (view m)) _ (while_nonzero fuel (Tree.interpret exec fuel body) m)
          (λ r d. enter d)
          (while_nonzero-Meets body fuel (Tree.interpret exec fuel body) (program-Preserves body a)
            (program-Meets body a) m v)

    pub statement-Preserves :
        (s : Statement) → AllStatement IsPlain s → Preserves (interpret_statement exec fuel s)
    statement-Preserves (instr k) a m v = command-Preserves k a m v
    statement-Preserves (loop body) a m v =
        while_nonzero-Preserves fuel (Tree.interpret exec fuel body) (program-Preserves body a) m v

-- From a valid machine, if the interpreter of a parsed program ends, normally or with an error, the
-- way in which it ends is derived for the program from the tape that the machine stands for; it
-- never panics.
pub interpret-Runs :
    (fuel : ℕ) (text : List ℕ) (p : Program) (m : Machine)
    → parse_program text ≡ parsed_ok p
    → IsValidMachine m
    → Meets (Runs p (view m)) (interpret fuel p m)
unfolding interpret
interpret-Runs fuel text p m e v = program-Meets fuel p (parse_program-print text p e).0 m v
