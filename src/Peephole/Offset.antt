-- ===== src/Peephole/Offset.antt =====
-- src/peephole/compiler.rs: the loops that `OffsetAddRight` and `OffsetAddLeft` replace, and the
-- instructions of src/peephole/interpreter.rs.
use bf_rs.Prelude.{
  ℕ, zero, suc, ◌+◌, ◌-◌, ◌%◌, ◌≤◌, ◌<◌, ◌≡◌, refl, sym, ap, ◌∙◌, ◌≢◌, inl, inr, some, length,
  get_elem?, set, get_elem?-set_ne, get_elem?_of_lt, length-set, All-get_elem?, ◌==◌, ne→==,
  if◌then◌else◌, arith,
}
use bf_rs.Common
use bf_rs.Common.{Error, Result, ok, err, offset_add_right, offset_add_left}
use bf_rs.State.{
  State, store, modify, left, right, pos_offset, neg_offset, up_pos_offset, up_neg_offset,
  wrapping_add, byte_mod, usize_mod,
}
use bf_rs.State.Valid.{
  IsByte, isize_max, load_valid, modify_of_get_elem?, pos_offset-cases, neg_offset-cases,
}
use bf_rs.Machine.{Machine, Outcome, done, failed, ◌>>=◌, on_state, while_nonzero, with_result}
use bf_rs.Machine.Laws.{IsValidMachine, while_nonzero-done, while_nonzero-again}
use bf_rs.Peephole.Drain.{load_of_get_elem?, on_state_of_ok}
use bf_rs.Peephole.Transfer.{round, up_of_get_elem?, transfer}
use bf_rs.Peephole.Interpreter.{move_right, move_left, exec}

-- An offset that goes by the pointer and the size of the memory alone.
module _ (offset : State → Result ℕ) (back : State → Result State)
    (same : (s t : State)
      → s.pointer ≡ t.pointer
      → length s.memory ≡ length t.memory
      → offset s ≡ offset t) where
  abbrev go : State → Result State
  go s = Common.◌>>=◌ (offset s) λ p. ok (record s { pointer = p })

  abbrev move : ℕ → State → Result State
  move value s =
      Common.◌>>=◌ (store 0 s)
        λ s'. Common.◌>>=◌ (offset s') λ address. modify (wrapping_add value) address s'

  abbrev moves : Machine → ℕ → Outcome
  moves m value = if value == 0 then done m else on_state (move value) m

  moves-suc : (m : Machine) (b : ℕ) → on_state (move (suc b)) m ≡ moves m (suc b)
  moves-suc m b =
      ap (λ t. if t then done m else on_state (move (suc b)) m)
        (sym (ne→== (suc b) 0 (omega arith)))

  store_zero :
      (m : Machine) (b : ℕ)
      → get_elem? m.state.memory m.state.pointer ≡ some b
      → store 0 m.state ≡ ok (record (m.state) { memory = set m.state.memory m.state.pointer 0 })
  unfolding store
  store_zero m b e = modify_of_get_elem? (λ _. 0) m.state.pointer b m.state e

  zeroed : Machine → State
  zeroed m = record (m.state) { memory = set m.state.memory m.state.pointer 0 }

  offset_zeroed : (m : Machine) → offset (zeroed m) ≡ offset m.state
  unfolding zeroed
  offset_zeroed m = same (zeroed m) m.state refl (length-set m.state.memory m.state.pointer 0)

  -- The cell is zero already.
  nothing :
      (fuel : ℕ) (m : Machine)
      → get_elem? m.state.memory m.state.pointer ≡ some 0
      → while_nonzero (suc fuel) (round go back) m ≡ moves m 0
  nothing fuel m e = while_nonzero-done fuel (round go back) m (load_of_get_elem? m.state 0 e)

  -- The other cell exists.
  inside :
      (fuel : ℕ) (m : Machine) (b q : ℕ)
      → 255 ≤ fuel
      → IsValidMachine m
      → get_elem? m.state.memory m.state.pointer ≡ some b
      → b < byte_mod
      → offset m.state ≡ ok q
      → q < length m.state.memory
      → m.state.pointer ≢ q
      → ((s : State)
          → s.pointer ≡ q
          → length s.memory ≡ length m.state.memory
          → back s ≡ ok (record s { pointer = m.state.pointer }))
      → while_nonzero (suc fuel) (round go back) m ≡ moves m b
  unfolding zeroed
  inside fuel m zero q f v e l o i apart returns = nothing fuel m e
  inside fuel m (suc b) q f v e l o i apart returns =
      let p = m.state.pointer in
      let memory = m.state.memory in
      let (w, g) = get_elem?_of_lt memory q i in
      let hw = All-get_elem? IsByte memory q w v.valid.bytes g in
      let goes = λ (s : State) (x : s.pointer ≡ p) (y : length s.memory ≡ length memory).
        ap (λ r. Common.◌>>=◌ r λ p'. ok (record s { pointer = p' })) (same s m.state x y ∙ o) in
      let moved =
        modify_of_get_elem? (wrapping_add (suc b)) q w (zeroed m)
          (get_elem?-set_ne memory p q 0 apart ∙ g) in
      transfer go back (length memory) p q apart goes returns (suc fuel) (suc b) w m.io memory refl
        v.valid.inside i e g l hw (omega arith)
      ∙ sym (
          on_state_of_ok (move (suc b)) m _ (rw (store_zero m (suc b) e, offset_zeroed m, o) moved))
      ∙ moves-suc m b

  -- The other cell does not exist: both fail, unless the cell is zero.
  outside :
      (fuel : ℕ) (m : Machine) (b : ℕ) (x : Error)
      → get_elem? m.state.memory m.state.pointer ≡ some b
      → b < byte_mod
      → offset m.state ≡ err x
      → while_nonzero (suc fuel) (round go back) m ≡ moves m b
  unfolding zeroed
  outside fuel m zero x e l o = nothing fuel m e
  outside fuel m (suc b) x e l o =
      let p = m.state.pointer in
      let memory = m.state.memory in
      let s₁ : State = record (m.state) { memory = set memory p ((suc b + 255) % byte_mod) } in
      let o₁ = same s₁ m.state refl (length-set memory p ((suc b + 255) % byte_mod)) ∙ o in
      let first : round go back m ≡ failed x m.io =
        rw (up_of_get_elem? 255 (suc b) m.state e, o₁) refl in
      let second : on_state (move (suc b)) m ≡ failed x m.io =
        rw (store_zero m (suc b) e, offset_zeroed m, o) refl in
      while_nonzero-again fuel b (round go back) m (load_of_get_elem? m.state (suc b) e)
      ∙ ap (λ o. o >>= while_nonzero fuel (round go back)) first
      ∙ sym second
      ∙ moves-suc m b

pos_offset_same :
    (n : ℕ) (s t : State)
    → s.pointer ≡ t.pointer
    → length s.memory ≡ length t.memory
    → pos_offset n s ≡ pos_offset n t
unfolding pos_offset
pos_offset_same n s t p l = rw (p, l)

neg_offset_same :
    (n : ℕ) (s t : State)
    → s.pointer ≡ t.pointer
    → length s.memory ≡ length t.memory
    → neg_offset n s ≡ neg_offset n t
unfolding neg_offset
neg_offset_same n s t p l = rw p

left_at : (n p : ℕ) (s : State) → s.pointer ≡ p + n → left n s ≡ ok (record s { pointer = p })
unfolding left
left_at n p s e = ground arith

right_at :
    (n p : ℕ) (s : State)
    → s.pointer + n ≡ p
    → p < length s.memory
    → length s.memory ≤ isize_max
    → right n s ≡ ok (record s { pointer = p })
unfolding right
right_at n p s e h k = ground arith

-- `[->+<]` with `n` moves each way does what `OffsetAddRight(n)` does.
pub while-round-right :
    (fuel n : ℕ) (m : Machine)
    → 256 ≤ fuel
    → IsValidMachine m
    → 0 < n
    → n ≤ isize_max
    → while_nonzero fuel (round (right n) (left n)) m ≡ exec fuel (offset_add_right n) m
unfolding exec right move_right up_pos_offset
while-round-right zero n m f v h k = absurd (omega arith)
while-round-right (suc fuel) n m f v h k =
    let (b, e, l, i) = load_valid m.state v.valid in
    let p = m.state.pointer in
    let offset = pos_offset n in
    let loads =
      ap (λ r. with_result m.io r (moves offset (left n) (pos_offset_same n) m)) (sym l) in
    elim (pos_offset-cases m.state v.valid n) [
      | inl (j, o) ↦
          inside offset (left n) (pos_offset_same n) fuel m b ((p + n) % usize_mod) (omega arith) v
            e i o j (omega (arith, v.valid.inside, v.valid.allocated))
            (λ s x _. left_at n p s (x ∙ omega (arith, v.valid.inside, v.valid.allocated)))
          ∙ loads
      | inr (j, o) ↦
          outside offset (left n) (pos_offset_same n) fuel m b Common.pointer_overflow e i o ∙ loads
    ]

-- `[-<+>]` with `n` moves each way does what `OffsetAddLeft(n)` does.
pub while-round-left :
    (fuel n : ℕ) (m : Machine)
    → 256 ≤ fuel
    → IsValidMachine m
    → 0 < n
    → while_nonzero fuel (round (left n) (right n)) m ≡ exec fuel (offset_add_left n) m
unfolding exec left move_left up_neg_offset
while-round-left zero n m f v h = absurd (omega arith)
while-round-left (suc fuel) n m f v h =
    let (b, e, l, i) = load_valid m.state v.valid in
    let p = m.state.pointer in
    let offset = neg_offset n in
    let loads =
      ap (λ r. with_result m.io r (moves offset (right n) (neg_offset_same n) m)) (sym l) in
    elim (neg_offset-cases m.state v.valid n) [
      | inl (j, o) ↦
          inside offset (right n) (neg_offset_same n) fuel m b (p - n) (omega arith) v e i o
            (omega (arith, v.valid.inside)) (omega arith)
            (λ s x y.
              right_at n p s (omega arith) (omega (arith, v.valid.inside))
                (omega (arith, v.valid.allocated)))
          ∙ loads
      | inr (j, o) ↦
          outside offset (right n) (neg_offset_same n) fuel m b Common.pointer_underflow e i o
          ∙ loads
    ]
