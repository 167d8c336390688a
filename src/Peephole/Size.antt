-- ===== src/Peephole/Size.antt =====
-- src/peephole/interpreter.rs: no instruction changes the size of the memory.
use bf_rs.Prelude.{ℕ, ◌≡◌, ◌∙◌, length}
use bf_rs.Common.{Instruction}
use bf_rs.Machine.{Machine}
use bf_rs.Machine.Laws.{IsValidMachine}
use bf_rs.Machine.Inside.{Keeps}
use bf_rs.Peephole.Interpreter as Nested
use bf_rs.Peephole.Safety.{IsFine}
use bf_rs.Jit.Moves.Instructions.{exec-Goes, Post-map}

-- A valid machine whose memory has this size, which no instruction changes.
pub record HasSize (size : ℕ) (m : Machine) : Type 0 where
  pub valid : IsValidMachine m
  pub length_is : length m.state.memory ≡ size

pub exec-HasSize :
    (size fuel : ℕ) (i : Instruction) → IsFine i → Keeps (HasSize size) (Nested.exec fuel i)
exec-HasSize size fuel i f m h =
    Post-map (λ m' g. record { valid = g.0; length_is = g.1.0 ∙ h.length_is })
      (Nested.exec fuel i m) (exec-Goes fuel i m f h.valid)
