-- ===== src/Llvm/Entry.antt =====
-- src/llvm/compiler.rs: `compile_and_run`. The code allocates its own memory.
use bf_rs.Prelude.{ℕ, List, [], Option, none, some, replicate}
use bf_rs.Common.{Result, ok, err, panic}
use bf_rs.State.{default_capacity}
use bf_rs.Machine.{Io, Machine}
use bf_rs.Traits.{Ended, ended}
use bf_rs.Rts.{epilogue, receive}
use bf_rs.Peephole
use bf_rs.Llvm
use bf_rs.Llvm.Code as Emitted
use bf_rs.Llvm.Compiler.{compile_block}

-- `memory_size.unwrap_or(DEFAULT_CAPACITY)`.
abbrev pub size_of : Option ℕ → ℕ
size_of (some size) = size
size_of none = default_capacity

-- The memory is filled with 0, and 0 is stored as the pointer.
unfoldable pub prologue : ℕ → Io → Machine
prologue memory_size io = record {
  state = record { memory = replicate memory_size 0; pointer = 0 };
  io = io;
}

-- The call of `bfi_main`, and the `match` on its result.
unfoldable pub run : ℕ → Option ℕ → Io → Result Llvm.Program → Ended
unfolding prologue epilogue receive
run fuel memory_size io (ok code) =
    receive (epilogue (Emitted.interpret fuel code (prologue (size_of memory_size) io)))
run fuel memory_size io (err e) = ended panic io
run fuel memory_size io panic = ended panic io

unfoldable pub compile_and_run : ℕ → Peephole.Program → Option ℕ → List ℕ → Ended
unfolding run compile_block
compile_and_run fuel program memory_size input =
    run fuel memory_size (record { input = input; output = [] }) (compile_block program)
