-- ===== src/Semantics/Complete.antt =====
-- src/ast/interpreter.rs: every derivation is run, on enough fuel.
use bf_rs.Prelude.{ℕ, zero, suc, ◌+◌, ◌<◌, ◌≡◌, ◌≢◌, refl, ap, ◌∙◌, List, some, arith}
use mathlib.Core.Path.{subst}
use bf_rs.Common.{Error, ok}
use bf_rs.State.{load}
use bf_rs.Machine.{Machine, Outcome, done, failed, panicked, out_of_fuel, ◌>>=◌, while_nonzero}
use bf_rs.Machine.Laws.{IsValidMachine, Post, while_nonzero-done, while_nonzero-again}
use bf_rs.Tree
use bf_rs.Tree.{nil, ◌⨾◌, instr, loop, AllInstr, AllStatement, interpret_statement}
use bf_rs.Ast.{Program, Statement, IsPlain}
use bf_rs.Ast.Interpreter.{exec, interpret}
use bf_rs.Ast.Parser.{ok as parsed_ok, parse_program}
use bf_rs.Ast.Parser.Correct.{parse_program-print}
use bf_rs.Semantics.{
  Config, Final, halts, aborts, step, Runs, finish, next, stop, Does, command, enter, Loops, leave,
  again, fall,
}
use bf_rs.Semantics.View.{view, see, load-cell}
use bf_rs.Semantics.Commands.{see-command}
use bf_rs.Semantics.Sound.{program-Preserves, statement-Preserves}

-- The rounds of loops in a derivation. More fuel than that is enough.
abbrev mutual
  pub cost : {p : Program} {c : Config} {r : Final} → Runs p c r → ℕ
  cost finish = 0
  cost (next d d') = statement_cost d + cost d'
  cost (stop d) = statement_cost d

  statement_cost : {s : Statement} {c : Config} {r : Final} → Does s c r → ℕ
  statement_cost (command e) = 0
  statement_cost (enter d) = loop_cost d

  loop_cost : {body : Program} {c : Config} {r : Final} → Loops body c r → ℕ
  loop_cost (leave e) = 0
  loop_cost (again n d d') = suc (cost d + loop_cost d')
  loop_cost (fall n d) = suc (cost d)

see-halts :
    (o : Outcome) (c : Config)
    → see o ≡ some (halts c)
    → (m : Machine) × (o ≡ done m) × (view m ≡ c)
see-halts (done m) c h = (m, refl, cc)
see-halts (failed e io) c h = absurd (cc)
see-halts (panicked io) c h = absurd (cc)
see-halts out_of_fuel c h = absurd (cc)

see-aborts :
    (o : Outcome) (f : Machine → Outcome) (e : Error) (i w : List ℕ)
    → see o ≡ some (aborts e i w)
    → see (o >>= f) ≡ some (aborts e i w)
see-aborts (done m) f e i w h = absurd (cc)
see-aborts (failed x io) f e i w h = h
see-aborts (panicked io) f e i w h = h
see-aborts out_of_fuel f e i w h = h

-- What comes after a run that halts starts from a valid machine.
see-bind :
    (o : Outcome) (f : Machine → Outcome) (c : Config) (r : Final)
    → Post IsValidMachine o
    → see o ≡ some (halts c)
    → ((m : Machine) → view m ≡ c → IsValidMachine m → see (f m) ≡ some r)
    → see (o >>= f) ≡ some r
see-bind o f c r v h k =
    let (m, e, w) = see-halts o c h in rw e (k m w (subst (Post IsValidMachine) e v))

positive : (n : ℕ) → n ≢ 0 → (k : ℕ) × (n ≡ suc k)
positive zero h = absurd (h refl)
positive (suc k) h = (k, refl)

module _ (m : Machine) (v : IsValidMachine m) {c : Config} (w : view m ≡ c) where
  load_zero : c.cell c.head ≡ 0 → load m.state ≡ ok 0
  load_zero e = load-cell m v ∙ ap ok (ap (λ (d : Config). d.cell d.head) w ∙ e)

  load_pos : c.cell c.head ≢ 0 → (k : ℕ) × (load m.state ≡ ok (suc k))
  load_pos n =
      let (k, e) = positive (c.cell c.head) n in
      (k, load-cell m v ∙ ap ok (ap (λ (d : Config). d.cell d.head) w ∙ e))

mutual
  unfolding Tree.interpret

  pub see_of_Runs :
      {p : Program} {c : Config} {r : Final} (d : Runs p c r) (fuel : ℕ) (m : Machine)
      → cost d < fuel
      → AllInstr IsPlain p
      → view m ≡ c
      → IsValidMachine m
      → see (Tree.interpret exec fuel p m) ≡ some r
  see_of_Runs finish fuel m l a w v = ap (λ c. some (halts c)) w
  see_of_Runs {p = s ⨾ p} (next {c' = c'} {r = r} d d') fuel m l a w v =
      see-bind (interpret_statement exec fuel s m) (Tree.interpret exec fuel p) c' r
        (statement-Preserves fuel s a.0 m v) (see_of_Does d fuel m (omega (arith, l)) a.0 w v)
        (λ m' w' v'. see_of_Runs d' fuel m' (omega (arith, l)) a.1 w' v')
  see_of_Runs {p = s ⨾ p} (stop {e = e} {i = i} {o = o} d) fuel m l a w v =
      see-aborts (interpret_statement exec fuel s m) (Tree.interpret exec fuel p) e i o
        (see_of_Does d fuel m l a.0 w v)

  see_of_Does :
      {s : Statement} {c : Config} {r : Final} (d : Does s c r) (fuel : ℕ) (m : Machine)
      → statement_cost d < fuel
      → AllStatement IsPlain s
      → view m ≡ c
      → IsValidMachine m
      → see (interpret_statement exec fuel s m) ≡ some r
  see_of_Does (command {k = k} e) fuel m l a w v = see-command k m a v ∙ ap some (ap (step k) w ∙ e)
  see_of_Does (enter d) fuel m l a w v = see_of_Loops d fuel fuel m l l a w v

  see_of_Loops :
      {body : Program} {c : Config} {r : Final} (d : Loops body c r) (rounds fuel : ℕ) (m : Machine)
      → loop_cost d < rounds
      → loop_cost d < fuel
      → AllInstr IsPlain body
      → view m ≡ c
      → IsValidMachine m
      → see (while_nonzero rounds (Tree.interpret exec fuel body) m) ≡ some r
  see_of_Loops d zero fuel m l h a w v = absurd (omega arith)
  see_of_Loops {body = body} (leave e) (suc rounds) fuel m l h a w v =
      rw (while_nonzero-done rounds (Tree.interpret exec fuel body) m (load_zero m v w e))
        (ap (λ c. some (halts c)) w)
  see_of_Loops {body = body} (again {c' = c'} {r = r} n d d') (suc rounds) fuel m l h a w v =
      let (k, e) = load_pos m v w n in
      rw (while_nonzero-again rounds k (Tree.interpret exec fuel body) m e) (
        see-bind (Tree.interpret exec fuel body m)
          (while_nonzero rounds (Tree.interpret exec fuel body)) c' r
          (program-Preserves fuel body a m v) (see_of_Runs d fuel m (omega (arith, h)) a w v)
          (λ m' w' v'.
            see_of_Loops d' rounds fuel m' (omega (arith, l)) (omega (arith, h)) a w' v'))
  see_of_Loops {body = body} (fall {e = x} {i = i} {o = o} n d) (suc rounds) fuel m l h a w v =
      let (k, e) = load_pos m v w n in
      rw (while_nonzero-again rounds k (Tree.interpret exec fuel body) m e) (
        see-aborts (Tree.interpret exec fuel body m)
          (while_nonzero rounds (Tree.interpret exec fuel body)) x i o
          (see_of_Runs d fuel m (omega (arith, h)) a w v))

-- A derivation for a parsed program from the tape of a valid machine is what the interpreter does
-- on any fuel above the number of rounds of loops in it: it ends so, and does not want for fuel.
pub interpret_of_Runs :
    (text : List ℕ) (p : Program) (m : Machine) (r : Final) (d : Runs p (view m) r) (fuel : ℕ)
    → parse_program text ≡ parsed_ok p
    → IsValidMachine m
    → cost d < fuel
    → see (interpret fuel p m) ≡ some r
unfolding interpret
interpret_of_Runs text p m r d fuel e v l =
    see_of_Runs d fuel m l (parse_program-print text p e).0 refl v
