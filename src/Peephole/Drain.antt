-- ===== src/Peephole/Drain.antt =====
-- The loops that src/peephole/compiler.rs replaces: a loop that changes its own cell only.
use bf_rs.Prelude.{
  ℕ, zero, suc, ◌+◌, ◌-◌, ◌%◌, ◌≤◌, ◌<◌, ◌≡◌, sym, ap, ◌∙◌, ◌≢◌, List, some, length, get_elem?, set,
  set_same, set-set_self, get_elem?-set_self, length-set, ◌⊎◌, inl, inr, arith,
}
use bf_rs.Common.{Result, ok}
use bf_rs.State.{State, load, up, store, modify, wrapping_add, byte_mod}
use bf_rs.State.Valid.{load_valid, modify_of_get_elem?}
use bf_rs.Machine.{Machine, done, ◌>>=◌, on_state, while_nonzero}
use bf_rs.Machine.Laws.{IsValidMachine, while_nonzero-done, while_nonzero-again}

-- The machine with another value in the cell under the pointer.
abbrev pub poke : Machine → ℕ → ℕ → Machine
poke m address b = record m { state = record (m.state) { memory = set m.state.memory address b } }

pub load_of_get_elem? : (s : State) (b : ℕ) → get_elem? s.memory s.pointer ≡ some b → load s ≡ ok b
unfolding load
load_of_get_elem? s b e = rw e

pub on_state_of_ok :
    (op : State → Result State) (m : Machine) (s : State)
    → op m.state ≡ ok s
    → on_state op m ≡ done (record m { state = s })
on_state_of_ok op m s e = rw e

-- `f` is what a round does to the cell, and `rounds` the number of rounds left.
module _ (f rounds : ℕ → ℕ)
    (falls : (b : ℕ)
      → b < byte_mod
      → b ≢ 0
      → (f b < byte_mod) × (rounds (f b) + 1 ≡ rounds b)) where
  abbrev spin : State → Result State
  spin s = modify f s.pointer s

  pub drain :
      (fuel b : ℕ) (m : Machine)
      → get_elem? m.state.memory m.state.pointer ≡ some b
      → m.state.pointer < length m.state.memory
      → b < byte_mod
      → rounds b < fuel
      → while_nonzero fuel (on_state spin) m ≡ done (poke m m.state.pointer 0)
  drain zero b m e i h r = absurd (omega arith)
  drain (suc fuel) zero m e i h r =
      while_nonzero-done fuel (on_state spin) m (load_of_get_elem? m.state 0 e)
      ∙ ap (λ (l : List ℕ). done (record m { state = record (m.state) { memory = l } }))
          (sym (set_same m.state.memory m.state.pointer 0 e))
  drain (suc fuel) (suc b) m e i h r =
      let (h', r') = falls (suc b) h (omega arith) in
      let p = m.state.pointer in
      let m' = poke m p (f (suc b)) in
      while_nonzero-again fuel b (on_state spin) m (load_of_get_elem? m.state (suc b) e)
      ∙ ap (λ o. o >>= while_nonzero fuel (on_state spin))
          (on_state_of_ok spin m m'.state (modify_of_get_elem? f p (suc b) m.state e))
      ∙ drain fuel (f (suc b)) m' (get_elem?-set_self m.state.memory p (f (suc b)) i)
          (rw length-set i) h' (omega arith)
      ∙ ap (λ (l : List ℕ). done (record m { state = record (m.state) { memory = l } }))
          (set-set_self m.state.memory p (f (suc b)) 0)

-- `[-]` and `[+]` set their cell to zero, in at most 255 rounds.
pub while-up_ones :
    (fuel n : ℕ) (m : Machine)
    → 256 ≤ fuel
    → IsValidMachine m
    → (n ≡ 1) ⊎ (n ≡ 255)
    → while_nonzero fuel (on_state (up n)) m ≡ on_state (store 0) m
unfolding up store
while-up_ones fuel n m h v c =
    let (b, e, _, l) = load_valid m.state v.valid in
    let p = m.state.pointer in
    let stored = sym (
      on_state_of_ok (λ s. modify (λ _. 0) s.pointer s) m (poke m p 0).state
        (modify_of_get_elem? (λ _. 0) p b m.state e)) in
    elim c [
      | inl one ↦ rw one (
          drain (wrapping_add 1) (λ b. (256 - b) % 256) (λ b lt ne. (omega arith, omega arith)) fuel
            b m e v.valid.inside l (omega arith)
          ∙ stored)
      | inr minus ↦ rw minus (
          drain (wrapping_add 255) (λ b. b) (λ b lt ne. (omega arith, omega arith)) fuel b m e
            v.valid.inside l (omega arith)
          ∙ stored)
    ]
