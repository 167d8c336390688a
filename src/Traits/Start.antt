-- ===== src/Traits/Start.antt =====
-- src/traits.rs: the machine on which `interpret` starts a program.
use bf_rs.Prelude.{ℕ, ◌≤◌, ◌<◌, List, All, Option, none, some, arith}
use bf_rs.State
use bf_rs.State.Valid.{IsByte, isize_max, with_capacity-IsValid}
use bf_rs.Machine.Laws.{IsValidMachine}
use bf_rs.Traits.{start}

-- A size of which Rust can allocate a memory, which is not empty.
abbrev pub IsSize : Option ℕ → Type 0
IsSize none = Unit
IsSize (some n) = (0 < n) × (n ≤ isize_max)

pub start-IsValidMachine :
    (size : Option ℕ) (input : List ℕ)
    → IsSize size
    → All IsByte input
    → IsValidMachine (start size input)
unfolding start State.new
start-IsValidMachine none input h b = record {
  valid = with_capacity-IsValid 30_000 (omega arith) (omega arith);
  input_bytes = b;
}
start-IsValidMachine (some n) input h b = record {
  valid = with_capacity-IsValid n h.0 h.1;
  input_bytes = b;
}
