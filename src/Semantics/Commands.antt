-- ===== src/Semantics/Commands.antt =====
-- src/ast/interpreter.rs: each command, and its step on the tape.
use bf_rs.Prelude.{
  ℕ, zero, suc, ◌+◌, ◌-◌, ◌<◌, ◌≤◌, ◌≡◌, refl, sym, ap, ◌∙◌, List, [], ◌∷◌, Option, none, some,
  length, lt→ltb, ge→ltb, inl, inr, arith,
}
use bf_rs.Common.{
  Result, panic, ◌>>=◌, ok, err, pointer_underflow, Command, right, left, up, down, in_, out, begin,
  end,
}
use bf_rs.State
use bf_rs.State.{State, read, store}
use bf_rs.State.Valid.{pos_offset-cases, neg_offset-cases}
use bf_rs.Machine.{Io, Machine, Outcome, done, with_result, on_state, read_byte, write_byte}
use bf_rs.Machine.Laws.{IsValidMachine}
use bf_rs.Ast.{IsPlain}
use bf_rs.Ast.Interpreter.{interpret_command}
use bf_rs.Semantics.{Config, Final, halts, aborts, write, step, at_left, receive}
use bf_rs.Semantics.View.{view, see, load-cell, see-modify}

see-right :
    (m : Machine) → IsValidMachine m → see (on_state (State.right 1) m) ≡ some (step right (view m))
unfolding State.right
see-right m v = elim (pos_offset-cases m.state v.valid 1) [
  | inl (i, e) ↦
      rw
        (
          e,
          lt→ltb (m.state.pointer + 1) (length m.state.memory)
              (omega (arith, v.valid.inside, v.valid.allocated)),
        )
        (ap (λ h. some (halts (record (view m) { head = h })))
          (omega (arith, v.valid.inside, v.valid.allocated)))
  | inr (i, e) ↦
      rw
        (
          e,
          ge→ltb (m.state.pointer + 1) (length m.state.memory)
              (omega (arith, v.valid.inside, v.valid.allocated)),
        )
        refl
]

at_left_pos : (h : ℕ) (c : Config) → 1 ≤ h → at_left h c ≡ halts (record c { head = h - 1 })
at_left_pos zero c l = absurd (omega arith)
at_left_pos (suc h) c l = ap (λ n. halts (record c { head = n })) (omega arith)

at_left_zero :
    (h : ℕ) (c : Config) → h < 1 → at_left h c ≡ aborts pointer_underflow c.input c.output
at_left_zero zero c l = refl
at_left_zero (suc h) c l = absurd (omega arith)

see-left :
    (m : Machine) → IsValidMachine m → see (on_state (State.left 1) m) ≡ some (step left (view m))
unfolding State.left
see-left m v = elim (neg_offset-cases m.state v.valid 1) [
  | inl (i, e) ↦ rw (e, at_left_pos m.state.pointer (view m) i) refl
  | inr (i, e) ↦ rw (e, at_left_zero m.state.pointer (view m) i) refl
]

with_result-read :
    (io : Io) (rest : List ℕ) (r : Result State)
    → with_result io (r >>= λ s. ok (s, rest)) (λ (s, input).
      done (record { state = s; io = record { input = input; output = io.output } }))
      ≡ with_result io r
          (λ s. done (record { state = s; io = record { input = rest; output = io.output } }))
with_result-read io rest (ok s) = refl
with_result-read io rest (err e) = refl
with_result-read io rest panic = refl

-- What `see` makes of the end of `on_state` with the input replaced.
see-rest :
    (m : Machine) (rest : List ℕ) (c : Config) (r : Result State)
    → see (with_result m.io r λ s. done (record { state = s; io = m.io })) ≡ some (halts c)
    → see (
        with_result m.io r
          λ s. done (record { state = s; io = record { input = rest; output = m.io.output } }))
      ≡ some (halts (record c { input = rest }))
see-rest m rest c (ok s) h =
    ap
      (λ (f : Option Final). elim f [
        | some (halts d) ↦ some (halts (record d { input = rest }))
        | some (aborts e i o) ↦ none
        | none ↦ none
      ])
      h
see-rest m rest c (err e) h = absurd (cc)
see-rest m rest c panic h = absurd (cc)

abbrev read_from : Machine → List ℕ → Outcome
read_from m input =
    with_result m.io (read input m.state)
      (λ (s, rest). done (record { state = s; io = record { input = rest; output = m.io.output } }))

see-read :
    (m : Machine) (input : List ℕ)
    → m.io.input ≡ input
    → IsValidMachine m
    → see (read_byte m) ≡ some (receive input (view m))
unfolding read_byte read store State.read_exact
see-read m [] e v =
    ap (λ i. see (read_from m i)) e
    ∙ ap see (with_result-read m.io [] (store 0 m.state))
    ∙ see-rest m [] (write 0 (view m)) (store 0 m.state) (see-modify (λ _. 0) m v)
    ∙ ap (λ i. some (halts (record (write 0 (view m)) { input = i }))) (sym e)
see-read m (b ∷ rest) e v =
    ap (λ i. see (read_from m i)) e
    ∙ ap see (with_result-read m.io rest (store b m.state))
    ∙ see-rest m rest (write b (view m)) (store b m.state) (see-modify (λ _. b) m v)

see-write : (m : Machine) → IsValidMachine m → see (write_byte m) ≡ some (step out (view m))
unfolding write_byte State.write
see-write m v = rw (load-cell m v) refl

-- From a valid machine every command does its step.
pub see-command :
    (k : Command) (m : Machine)
    → IsPlain k
    → IsValidMachine m
    → see (interpret_command k m) ≡ some (step k (view m))
unfolding interpret_command State.up State.down
see-command right m p v = see-right m v
see-command left m p v = see-left m v
see-command up m p v = see-modify (State.wrapping_add 1) m v
see-command down m p v =
    see-modify (State.wrapping_sub 1) m v ∙ ap (λ b. some (halts (write b (view m)))) (omega arith)
see-command in_ m p v = see-read m m.io.input refl v
see-command out m p v = see-write m v
see-command begin m p v = absurd p
see-command end m p v = absurd p
