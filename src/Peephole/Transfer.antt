-- ===== src/Peephole/Transfer.antt =====
-- The loops that src/peephole/compiler.rs replaces by `OffsetAddRight` and `OffsetAddLeft`.
use bf_rs.Prelude.{
  ℕ, zero, suc, ◌+◌, ◌%◌, ◌<◌, ◌≡◌, refl, sym, ap, ◌∙◌, ◌≢◌, List, some, length, get_elem?, set,
  set_same, set-set_self, set-set_comm, get_elem?-set_self, get_elem?-set_ne, length-set, arith,
}
use bf_rs.Common.{Result, ok}
use bf_rs.State.{State, up, wrapping_add, byte_mod}
use bf_rs.State.Valid.{modify_of_get_elem?}
use bf_rs.Machine.{Io, Machine, Outcome, done, ◌>>=◌, on_state, while_nonzero}
use bf_rs.Machine.Laws.{while_nonzero-done, while_nonzero-again}
use bf_rs.Peephole.Drain.{load_of_get_elem?}

-- One round of the loop `[-` go `+` back `]`.
abbrev pub round : (State → Result State) → (State → Result State) → Machine → Outcome
round go back m = on_state (up 255) m >>= λ m₁.
    on_state go m₁ >>= λ m₂. on_state (up 1) m₂ >>= λ m₃. on_state back m₃ >>= done

pub up_of_get_elem? :
    (count b : ℕ) (s : State)
    → get_elem? s.memory s.pointer ≡ some b
    → up count s ≡ ok (record s { memory = set s.memory s.pointer ((b + count) % byte_mod) })
unfolding up
up_of_get_elem? count b s e = modify_of_get_elem? (wrapping_add count) s.pointer b s e

-- From the cell at `p` a round goes to the other cell at `q` and back.
module _ (go back : State → Result State) (size p q : ℕ) (apart : p ≢ q)
    (goes : (s : State)
      → s.pointer ≡ p
      → length s.memory ≡ size
      → go s ≡ ok (record s { pointer = q }))
    (returns : (s : State)
      → s.pointer ≡ q
      → length s.memory ≡ size
      → back s ≡ ok (record s { pointer = p })) where
  abbrev with_memory : Io → List ℕ → Machine
  with_memory io l = record { state = record { memory = l; pointer = p }; io = io }

  round_done :
      (io : Io) (l : List ℕ) (b w : ℕ)
      → length l ≡ size
      → get_elem? l p ≡ some (suc b)
      → get_elem? l q ≡ some w
      → suc b < byte_mod
      → round go back (with_memory io l)
        ≡ done (with_memory io (set (set l p b) q ((w + 1) % byte_mod)))
  round_done io l b w size_l e g h =
      let l₁ = set l p b in
      let l₂ = set l₁ q ((w + 1) % byte_mod) in
      let s₀ : State = record { memory = l; pointer = p } in
      let s₁ : State = record { memory = l₁; pointer = p } in
      let s₂ : State = record { memory = l₁; pointer = q } in
      let s₃ : State = record { memory = l₂; pointer = q } in
      let e₁ : up 255 s₀ ≡ ok s₁ =
        up_of_get_elem? 255 (suc b) s₀ e
        ∙ ap (λ k. ok (record s₀ { memory = set l p k })) (omega arith) in
      let e₂ = goes s₁ refl (length-set l p b ∙ size_l) in
      let e₃ = up_of_get_elem? 1 w s₂ (get_elem?-set_ne l p q b apart ∙ g) in
      let e₄ = returns s₃ refl (length-set l₁ q ((w + 1) % byte_mod) ∙ length-set l p b ∙ size_l) in
      rw (e₁, e₂, e₃, e₄)

  -- The writes of a round and those of the rounds that follow are two writes.
  writes : (l : List ℕ) (b x y : ℕ) → set (set (set (set l p b) q x) p 0) q y ≡ set (set l p 0) q y
  writes l b x y =
      ap (λ t. set t q y) (set-set_comm (set l p b) q p x 0 (λ e. apart (sym e)))
      ∙ ap (λ t. set (set t q x) q y) (set-set_self l p b 0)
      ∙ set-set_self (set l p 0) q x y

  pub transfer :
      (fuel b w : ℕ) (io : Io) (l : List ℕ)
      → length l ≡ size
      → p < size
      → q < size
      → get_elem? l p ≡ some b
      → get_elem? l q ≡ some w
      → b < byte_mod
      → w < byte_mod
      → b < fuel
      → while_nonzero fuel (round go back) (with_memory io l)
        ≡ done (with_memory io (set (set l p 0) q ((w + b) % byte_mod)))
  transfer zero b w io l size_l i j e g h k r = absurd (omega arith)
  transfer (suc fuel) zero w io l size_l i j e g h k r =
      while_nonzero-done fuel (round go back) (with_memory io l) (load_of_get_elem? _ 0 e)
      ∙ ap (λ t. done (with_memory io t))
          (sym (
            ap (λ t. set t q ((w + 0) % byte_mod)) (set_same l p 0 e)
            ∙ ap (set l q) (omega arith)
            ∙ set_same l q w g))
  transfer (suc fuel) (suc b) w io l size_l i j e g h k r =
      let l₁ = set l p b in
      let x = (w + 1) % byte_mod in
      let l₂ = set l₁ q x in
      let size₁ = length-set l p b ∙ size_l in
      while_nonzero-again fuel b (round go back) (with_memory io l) (load_of_get_elem? _ (suc b) e)
      ∙ ap (λ o. o >>= while_nonzero fuel (round go back)) (round_done io l b w size_l e g h)
      ∙ transfer fuel b x io l₂ (length-set l₁ q x ∙ size₁) i j
          (get_elem?-set_ne l₁ q p x (λ t. apart (sym t)) ∙ get_elem?-set_self l p b (omega arith))
          (get_elem?-set_self l₁ q x (omega arith)) (omega arith) (omega arith) (omega arith)
      ∙ ap (λ t. done (with_memory io t))
          (writes l b x ((x + b) % byte_mod) ∙ ap (set (set l p 0) q) (omega arith))
