-- ===== src/Peephole/Extent.antt =====
-- src/peephole/interpreter.rs: a run does not change the size of the memory.
use bf_rs.Prelude.{
  ℕ, zero, suc, ◌≡◌, ◌∙◌, List, length, length-set, Bool, true, false, ◌==◌, if◌then◌else◌,
}
use bf_rs.Common
use bf_rs.Common.{
  Instruction, left, right, add, in_, out, jump_zero, jump_not_zero, set_zero, offset_add_right,
  offset_add_left, find_zero_right, find_zero_left, Result, ok, err, panic,
}
use bf_rs.State
use bf_rs.State.{
  State, load, store, modify, index, or_panic, up, pos_offset, neg_offset, up_pos_offset,
  up_neg_offset, read, read_exact, write,
}
use bf_rs.Machine.{
  Io, Machine, Outcome, done, failed, panicked, out_of_fuel, ◌>>=◌, with_result, branch,
  while_nonzero, read_byte, write_byte,
}
use bf_rs.Machine.Laws.{Post}
use bf_rs.Tree
use bf_rs.Tree.{nil, ◌⨾◌, instr, loop, interpret_statement}
use bf_rs.Peephole.{Program, Statement}
use bf_rs.Peephole.Interpreter.{move_right, move_left, exec, interpret}

module _ (size : ℕ) where
  abbrev pub HasSize : State → Type 0
  HasSize s = length s.memory ≡ size

  -- The state that comes out, if one does, has the size.
  abbrev Gives : Result State → Type 0
  Gives (ok s) = HasSize s
  Gives _ = Unit

  abbrev pub Leaves : Outcome → Type 0
  Leaves (done m) = HasSize m.state
  Leaves _ = Unit

  bind-Gives {ℓ} :
      {A : Type ℓ} (r : Result A) (f : A → Result State)
      → ((a : A) → Gives (f a))
      → Gives (Common.◌>>=◌ r f)
  bind-Gives (ok a) f h = h a
  bind-Gives (err e) f h = tt
  bind-Gives panic f h = tt

  then-Gives :
      (r : Result State) (f : State → Result State)
      → Gives r
      → ((s : State) → HasSize s → Gives (f s))
      → Gives (Common.◌>>=◌ r f)
  then-Gives (ok s) f g h = h s g
  then-Gives (err e) f g h = tt
  then-Gives panic f g h = tt

  with_result-Leaves {ℓ} :
      {A : Type ℓ} (io : Io) (r : Result A) (f : A → Outcome)
      → ((a : A) → Leaves (f a))
      → Leaves (with_result io r f)
  with_result-Leaves io (ok a) f h = h a
  with_result-Leaves io (err e) f h = tt
  with_result-Leaves io panic f h = tt

  pub bind-Leaves :
      (o : Outcome) (f : Machine → Outcome)
      → Leaves o
      → ((m : Machine) → HasSize m.state → Leaves (f m))
      → Leaves (o >>= f)
  bind-Leaves (done m) f g h = h m g
  bind-Leaves (failed e io) f g h = tt
  bind-Leaves (panicked io) f g h = tt
  bind-Leaves out_of_fuel f g h = tt

  resume-Leaves :
      (io : Io) (r : Result State)
      → Gives r
      → Leaves (with_result io r λ s. done (record { state = s; io = io }))
  resume-Leaves io (ok s) h = h
  resume-Leaves io (err e) h = tt
  resume-Leaves io panic h = tt

  modify-Gives : (f : ℕ → ℕ) (a : ℕ) (s : State) → HasSize s → Gives (modify f a s)
  unfolding modify
  modify-Gives f a s h = bind-Gives (index s.memory a) _ (λ b. length-set s.memory a (f b) ∙ h)

  module _ (s : State) (h : HasSize s) where
    store-Gives : (b : ℕ) → Gives (store b s)
    unfolding store
    store-Gives b = modify-Gives (λ _. b) s.pointer s h

    right-Gives : (n : ℕ) → Gives (State.right n s)
    unfolding State.right
    right-Gives n = bind-Gives (pos_offset n s) _ (λ _. h)

    left-Gives : (n : ℕ) → Gives (State.left n s)
    unfolding State.left
    left-Gives n = bind-Gives (neg_offset n s) _ (λ _. h)

    move_right-Gives : (n value : ℕ) → Gives (move_right n value s)
    unfolding move_right up_pos_offset
    move_right-Gives n value = then-Gives (store 0 s) _ (store-Gives 0) (λ s' h'.
        bind-Gives (pos_offset n s') _ (λ a. modify-Gives (State.wrapping_add value) a s' h'))

    move_left-Gives : (n value : ℕ) → Gives (move_left n value s)
    unfolding move_left up_neg_offset
    move_left-Gives n value = then-Gives (store 0 s) _ (store-Gives 0) (λ s' h'.
        bind-Gives (neg_offset n s') _ (λ a. modify-Gives (State.wrapping_add value) a s' h'))

  if-Leaves : (c : Bool) (x y : Outcome) → Leaves x → Leaves y → Leaves (if c then x else y)
  if-Leaves true x y h k = h
  if-Leaves false x y h k = k

  branch-Leaves : (b : ℕ) (x y : Outcome) → Leaves x → Leaves y → Leaves (branch x y b)
  branch-Leaves zero x y h k = h
  branch-Leaves (suc b) x y h k = k

  abbrev pub KeepsSize : (Machine → Outcome) → Type 0
  KeepsSize f = (m : Machine) → HasSize m.state → Leaves (f m)

  pub while_nonzero-KeepsSize :
      (fuel : ℕ) (body : Machine → Outcome) → KeepsSize body → KeepsSize (while_nonzero fuel body)
  unfolding while_nonzero
  while_nonzero-KeepsSize zero body k m h = tt
  while_nonzero-KeepsSize (suc fuel) body k m h = with_result-Leaves m.io (load m.state) _ (λ b.
      branch-Leaves b _ _ h (bind-Leaves (body m) _ (k m h) (while_nonzero-KeepsSize fuel body k)))

  read-Leaves :
      (io : Io) (rest : List ℕ) (r : Result State)
      → Gives r
      → Leaves (
          with_result io (Common.◌>>=◌ r λ s'. ok (s', rest)) λ (s, left_over).
            done (record { state = s; io = record { input = left_over; output = io.output } }))
  read-Leaves io rest (ok s) h = h
  read-Leaves io rest (err e) h = tt
  read-Leaves io rest panic h = tt

  pub exec-KeepsSize : (fuel : ℕ) (i : Instruction) → KeepsSize (exec fuel i)
  unfolding exec up read_byte read write_byte
  exec-KeepsSize fuel (left n) m h =
      resume-Leaves m.io (State.left n m.state) (left-Gives m.state h n)
  exec-KeepsSize fuel (right n) m h =
      resume-Leaves m.io (State.right n m.state) (right-Gives m.state h n)
  exec-KeepsSize fuel (add n) m h =
      resume-Leaves m.io _ (modify-Gives (State.wrapping_add n) m.state.pointer m.state h)
  exec-KeepsSize fuel in_ m h =
      let (b, rest) = read_exact m.io.input in
      read-Leaves m.io rest (store b m.state) (store-Gives m.state h b)
  exec-KeepsSize fuel out m h = with_result-Leaves m.io (write m.io.output m.state) _ (λ _. h)
  exec-KeepsSize fuel set_zero m h = resume-Leaves m.io (store 0 m.state) (store-Gives m.state h 0)
  exec-KeepsSize fuel (offset_add_right n) m h = with_result-Leaves m.io (load m.state) _ (λ b.
      if-Leaves (b == 0) _ _ h
        (resume-Leaves m.io (move_right n b m.state) (move_right-Gives m.state h n b)))
  exec-KeepsSize fuel (offset_add_left n) m h = with_result-Leaves m.io (load m.state) _ (λ b.
      if-Leaves (b == 0) _ _ h
        (resume-Leaves m.io (move_left n b m.state) (move_left-Gives m.state h n b)))
  exec-KeepsSize fuel (find_zero_right n) m h =
      while_nonzero-KeepsSize fuel _ (λ m' h'. resume-Leaves m'.io _ (right-Gives m'.state h' n)) m
        h
  exec-KeepsSize fuel (find_zero_left n) m h =
      while_nonzero-KeepsSize fuel _ (λ m' h'. resume-Leaves m'.io _ (left-Gives m'.state h' n)) m h
  exec-KeepsSize fuel (jump_zero _) m h = tt
  exec-KeepsSize fuel (jump_not_zero _) m h = tt

  -- A postcondition, and the size.
  pub Post-Leaves :
      (P : Machine → Type 0) (o : Outcome)
      → Post P o
      → Leaves o
      → Post (λ m. P m × HasSize m.state) o
  Post-Leaves P (done m) p h = (p, h)
  Post-Leaves P (failed e io) p h = tt
  Post-Leaves P (panicked io) p h = absurd p
  Post-Leaves P out_of_fuel p h = tt

  mutual
    unfolding interpret Tree.interpret

    pub interpret-KeepsSize : (fuel : ℕ) (p : Program) → KeepsSize (interpret fuel p)
    interpret-KeepsSize fuel nil m h = h
    interpret-KeepsSize fuel (s ⨾ p) m h =
        bind-Leaves (interpret_statement exec fuel s m) _ (statement-KeepsSize fuel s m h)
          (interpret-KeepsSize fuel p)

    pub statement-KeepsSize :
        (fuel : ℕ) (s : Statement) → KeepsSize (interpret_statement exec fuel s)
    statement-KeepsSize fuel (instr i) m h = exec-KeepsSize fuel i m h
    statement-KeepsSize fuel (loop body) m h =
        while_nonzero-KeepsSize fuel (interpret fuel body) (interpret-KeepsSize fuel body) m h
