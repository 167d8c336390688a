-- ===== src/Ast/Parser/Runs.antt =====
-- src/ast/parser.rs: what each parser does with the commands of its input. Every clause of the
-- parsers gives a few lines here.
use bf_rs.Prelude.{
  ℕ, zero, suc, ◌+◌, ◌*◌, ◌<◌, ◌≤◌, ◌≡◌, refl, sym, ap, ◌∙◌, List, [], ◌∷◌, ◌++◌, append-nil,
  append_assoc, length, Option, none, some, ◌⊎◌, inl, inr, arith,
}
use bf_rs.Common.{
  unmatched_begin, unmatched_end, pointer_underflow, pointer_overflow, Command, right, left, up,
  down, in_, out, begin, end,
}
use bf_rs.Tree.{nil, ◌⨾◌, push, AllInstr, AllStatement}
use bf_rs.Tree.Laws.{AllInstr-push}
use bf_rs.Ast.{Statement, Program, IsPlain}
use bf_rs.Ast.Parser.{
  Parsed, ok, err, out_of_fuel, command_of, find_end, close, on_command, on_instruction,
  parse_instruction, parse_instructions,
}
use bf_rs.Ast.Parser.Tokens.{command_of-meant, keep, tokens, balance, find_end-tokens}
use bf_rs.Ast.Parser.Print.{
  print, print_statement, print-append, balance-print, balance-print_statement,
}

-- A `[` stays open, whatever is open before.
abbrev pub LacksEnd : List Command → Type 0
LacksEnd ts = (depth : ℕ) → balance depth ts ≡ some unmatched_begin

-- The input is used up, or a `]` is what comes next.
abbrev pub Stops : List ℕ → Type 0
Stops rest = (rest ≡ []) ⊎ ((ts : List Command) × (tokens rest ≡ (end ∷ ts)))

-- What `parse_instruction` promises of the commands `ts` in an input of `n` bytes.
abbrev pub ReadsInstruction : ℕ → List Command → Parsed (Option Statement × List ℕ) → Type 0
ReadsInstruction n ts (ok (some s, rest)) =
    AllStatement IsPlain s × (ts ≡ print_statement s ++ tokens rest) × (length rest < n)
ReadsInstruction n ts (ok (none, rest)) = (rest ≡ []) × (ts ≡ [])
ReadsInstruction n ts (err unmatched_begin) = LacksEnd ts
ReadsInstruction n ts (err unmatched_end) = (us : List Command) × (ts ≡ (end ∷ us))
ReadsInstruction n ts (err _) = ⊥
ReadsInstruction n ts out_of_fuel = ⊥

-- What `parse_instructions` promises, where `ts` are the commands read before and those ahead.
abbrev pub ReadsInstructions : ℕ → List Command → List Command → Parsed (Program × List ℕ) → Type 0
ReadsInstructions n ts ahead (ok (p, rest)) =
    AllInstr IsPlain p × (ts ≡ print p ++ tokens rest) × Stops rest × (length rest ≤ n)
ReadsInstructions n ts ahead (err unmatched_begin) = LacksEnd ahead
ReadsInstructions n ts ahead (err _) = ⊥
ReadsInstructions n ts ahead out_of_fuel = ⊥

balance-begin : (d : ℕ) (ts : List Command) → balance d (begin ∷ ts) ≡ balance (suc d) ts
balance-begin zero ts = refl
balance-begin (suc d) ts = refl

-- Behind the body of a loop.
find_end-Reads :
    (n : ℕ) (ts : List Command) (program : Program) (rest : List ℕ)
    → AllInstr IsPlain program
    → ts ≡ print program ++ tokens rest
    → Stops rest
    → length rest ≤ n
    → ReadsInstruction (suc n) (begin ∷ ts) (find_end program rest)
unfolding find_end print
find_end-Reads n ts program rest a e (inl z) l = rw z (λ d.
    balance-begin d ts
    ∙ ap (balance (suc d)) e
    ∙ balance-print (suc d) program (tokens rest) a
    ∙ ap (λ r. balance (suc d) (tokens r)) z)
find_end-Reads n ts program rest a e (inr (us, t)) l =
    let (next, found, e', l') = find_end-tokens program rest us t in
    rw found (
      a,
      ap (λ x. begin ∷ x)
          (e
            ∙ ap (λ x. print program ++ x) t
            ∙ ap (λ x. print program ++ (end ∷ x)) (sym e')
            ∙ sym (append_assoc (print program) (end ∷ []) (tokens next))),
      omega arith,
    )

close-Reads :
    (n : ℕ) (ts : List Command) (r : Parsed (Program × List ℕ))
    → ReadsInstructions n ts ts r
    → ReadsInstruction (suc n) (begin ∷ ts) (close r)
unfolding close
close-Reads n ts (ok (program, rest)) (a, e, s, l) = find_end-Reads n ts program rest a e s l
close-Reads n ts (err unmatched_begin) h = λ d. balance-begin d ts ∙ h (suc d)
close-Reads n ts (err unmatched_end) h = absurd h
close-Reads n ts (err pointer_underflow) h = absurd h
close-Reads n ts (err pointer_overflow) h = absurd h
close-Reads n ts out_of_fuel h = absurd h

ReadsInstruction-suc :
    (n : ℕ) (ts : List Command) (r : Parsed (Option Statement × List ℕ))
    → ReadsInstruction n ts r
    → ReadsInstruction (suc n) ts r
ReadsInstruction-suc n ts (ok (some s, rest)) (a, e, l) = (a, e, omega arith)
ReadsInstruction-suc n ts (ok (none, rest)) h = h
ReadsInstruction-suc n ts (err unmatched_begin) h = h
ReadsInstruction-suc n ts (err unmatched_end) h = h
ReadsInstruction-suc n ts (err pointer_underflow) h = h
ReadsInstruction-suc n ts (err pointer_overflow) h = h
ReadsInstruction-suc n ts out_of_fuel h = h

on_command-Reads :
    (again : List ℕ → Parsed (Option Statement × List ℕ))
    (body : List ℕ → Parsed (Program × List ℕ)) (input : List ℕ) (o : Option Command)
    → ReadsInstruction (length input) (tokens input) (again input)
    → ReadsInstructions (length input) (tokens input) (tokens input) (body input)
    → ReadsInstruction (suc (length input)) (keep o (tokens input)) (on_command again body input o)
unfolding on_command print
on_command-Reads again body input none h k =
    ReadsInstruction-suc (length input) (tokens input) (again input) h
on_command-Reads again body input (some begin) h k =
    close-Reads (length input) (tokens input) (body input) k
on_command-Reads again body input (some end) h k = (tokens input, refl)
on_command-Reads again body input (some left) h k = (tt, refl, omega arith)
on_command-Reads again body input (some right) h k = (tt, refl, omega arith)
on_command-Reads again body input (some up) h k = (tt, refl, omega arith)
on_command-Reads again body input (some down) h k = (tt, refl, omega arith)
on_command-Reads again body input (some in_) h k = (tt, refl, omega arith)
on_command-Reads again body input (some out) h k = (tt, refl, omega arith)

-- What holds of a sequence from a later position on holds from an earlier one.
ReadsInstructions-earlier :
    (n n' : ℕ) (ts ts' ahead ahead' : List Command) (r : Parsed (Program × List ℕ))
    → n ≤ n'
    → ts' ≡ ts
    → (LacksEnd ahead → LacksEnd ahead')
    → ReadsInstructions n ts ahead r
    → ReadsInstructions n' ts' ahead' r
ReadsInstructions-earlier n n' ts ts' x x' (ok (p, rest)) h e k (a, e', s, l) =
    (a, e ∙ e', s, omega arith)
ReadsInstructions-earlier n n' ts ts' x x' (err unmatched_begin) h e k r = k r
ReadsInstructions-earlier n n' ts ts' x x' (err unmatched_end) h e k r = r
ReadsInstructions-earlier n n' ts ts' x x' (err pointer_underflow) h e k r = r
ReadsInstructions-earlier n n' ts ts' x x' (err pointer_overflow) h e k r = r
ReadsInstructions-earlier n n' ts ts' x x' out_of_fuel h e k r = r

print-push :
    (p : Program) (s : Statement) (ts : List Command)
    → print (push p s) ++ ts ≡ print p ++ (print_statement s ++ ts)
unfolding print push
print-push p s ts =
    ap (λ x. x ++ ts)
      (print-append p (s ⨾ nil) ∙ ap (λ x. print p ++ x) (append-nil (print_statement s)))
    ∙ append_assoc (print p) (print_statement s) ts

on_instruction-Reads :
    (again : Program → List ℕ → Parsed (Program × List ℕ)) (acc : Program) (input : List ℕ)
    (r : Parsed (Option Statement × List ℕ))
    → AllInstr IsPlain acc
    → ReadsInstruction (length input) (tokens input) r
    → ((acc' : Program) (next : List ℕ)
        → AllInstr IsPlain acc'
        → length next < length input
        → ReadsInstructions
            (length next)
            (print acc' ++ tokens next)
            (tokens next)
            (again acc' next))
    → ReadsInstructions
        (length input)
        (print acc ++ tokens input)
        (tokens input)
        (on_instruction again acc input r)
unfolding on_instruction
on_instruction-Reads again acc input (ok (some s, next)) f (a, e, l) k =
    ReadsInstructions-earlier (length next) (length input) _ _ (tokens next) (tokens input)
      (again (push acc s) next) (omega arith)
      (ap (λ x. print acc ++ x) e ∙ sym (print-push acc s (tokens next)))
      (λ lacks d. ap (balance d) e ∙ balance-print_statement d s (tokens next) a ∙ lacks d)
      (k (push acc s) next (AllInstr-push IsPlain acc s f a) l)
on_instruction-Reads again acc input (ok (none, rest)) f (z, e) k =
    (f, ap (λ x. print acc ++ x) (e ∙ sym (ap tokens z)), inl z, rw z (omega arith))
on_instruction-Reads again acc input (err unmatched_begin) f h k = h
on_instruction-Reads again acc input (err unmatched_end) f h k = (f, refl, inr h, omega arith)
on_instruction-Reads again acc input (err pointer_underflow) f h k = absurd h
on_instruction-Reads again acc input (err pointer_overflow) f h k = absurd h
on_instruction-Reads again acc input out_of_fuel f h k = absurd h

mutual
  unfolding parse_instructions print

  parse_instruction-Reads :
      (fuel : ℕ) (input : List ℕ)
      → 2 * length input + 1 ≤ fuel
      → ReadsInstruction (length input) (tokens input) (parse_instruction fuel input)
  parse_instruction-Reads zero input h = absurd (omega arith)
  parse_instruction-Reads (suc fuel) [] h = (refl, refl)
  parse_instruction-Reads (suc fuel) (c ∷ input) h = rw (← command_of-meant c) (
      on_command-Reads (parse_instruction fuel) (parse_instructions fuel nil) input (command_of c)
        (parse_instruction-Reads fuel input (omega arith))
        (parse_instructions-Reads fuel nil input tt (omega arith)))

  pub parse_instructions-Reads :
      (fuel : ℕ) (acc : Program) (input : List ℕ)
      → AllInstr IsPlain acc
      → 2 * length input + 2 ≤ fuel
      → ReadsInstructions
          (length input)
          (print acc ++ tokens input)
          (tokens input)
          (parse_instructions fuel acc input)
  parse_instructions-Reads zero acc input f h = absurd (omega arith)
  parse_instructions-Reads (suc fuel) acc input f h =
      on_instruction-Reads (parse_instructions fuel) acc input (parse_instruction fuel input) f
        (parse_instruction-Reads fuel input (omega arith))
        (λ acc' next f' l. parse_instructions-Reads fuel acc' next f' (omega arith))
