-- ===== src/Lib.antt =====
-- bf-rs: an interpreter and compiler for Brainfuck programs, modelled from its parser to its
-- bytecode and its native code.
--
-- The program is a chain of passes. The parser (src/ast/parser.rs) makes a tree of commands and
-- loops from bytes. `RleCompilable` (src/rle/compiler.rs) turns it into a tree of runs,
-- `PeepholeCompilable` (src/peephole/compiler.rs) into a tree of instructions, where some loops have
-- become one instruction, and `BytecodeCompilable` (src/bytecode/compiler.rs) into flat code with
-- jumps. `JitCompilable` (src/jit/compiler.rs) makes native code of the optimized tree, and an
-- analysis (src/jit/analysis.rs) decides which bounds checks it has. Each level has an interpreter
-- over the same `State` (src/state.rs), and `Interpretable` (src/traits.rs) starts it on a fresh
-- memory. The executable (src/bin/bfi.rs) parses a text and runs one of the passes on it.
--
-- Files:
--   Prelude: library names passed on, Boolean tests on numbers, lists indexed by numbers.
--   Common: src/common.rs. `Result` is `BfResult` with a panic beside the error.
--   State: src/state.rs. One function per method, under its name.
--   Machine: the state with the input left and the output written; `Outcome` is how a run ends.
--     `while_nonzero` is the loop `while state.load() != 0`, which all interpreters have.
--   Tree: the statements of src/ast/mod.rs, src/rle/mod.rs and src/peephole/mod.rs, which differ only
--     in what an instruction is, and the interpreter that they have in common.
--   Ast: src/ast. Ast/Parser is `parse_program`, `parse_instruction` and `parse_instructions`;
--     Ast/Interpreter is src/ast/interpreter.rs.
--   Rle: src/rle. Rle/Compiler has the source's `Compiler` with its pending run.
--   Peephole: src/peephole. Peephole/Compiler has the three rewrites and the loop that tries them.
--   Bytecode: src/bytecode. Bytecode/Layout says what the patched code is, Bytecode/Steps and
--     Bytecode/Correct run it.
--   Jit: src/jit. Jit/LoopBalance and Jit/Analysis are the bounds analysis, Jit/Compiler is what is
--     emitted for a program, and Jit/Code is what that code does. Jit/Moves, Jit/Balance and Jit/Marks
--     relate the analysis to the interpreter, Jit/Checks, Jit/Emit and Jit/Correct the code.
--     Jit/Unchecked is the code that is made without an analysis, Jit/Constant is `load_constant`.
--   Llvm: src/llvm/compiler.rs. Llvm/Compiler is what is emitted, Llvm/Code what it does, Llvm/Entry
--     is `compile_and_run`. Llvm/Wrapper is the builder of src/llvm/wrapper.rs, Llvm/Graph the methods
--     of `Compiler` that make basic blocks with it, and Llvm/Ir runs these. Below Llvm/Graph, the
--     modules up to Guarded are about runs of emitted instructions, Grows is about builders, Emits and
--     Correct join the two, and Run is about the function that is built. Llvm/Engine is the call of
--     it, whose engine is a parameter.
--   Cranelift: src/cranelift/compiler.rs, what the generated code does.
--   Rts: src/rts.rs, with the prologue and epilogue of native code and what `interpret_state` makes
--     of its result code.
--   Bfi: src/bin/bfi.rs.
--   Traits, Pipeline: the default methods of src/traits.rs, and the chain of the passes.
--   Semantics: what a program means, written apart from every interpreter: a step of a command on a tape
--     that is a function, and derivations of how a run ends. Semantics/View is the tape of a machine,
--     Semantics/Sound and Semantics/Complete relate derivations to src/ast/interpreter.rs, and
--     Semantics/Passes to the passes of the executable.
--   Examples: runs and instances at small programs.
--
-- Conventions. Numbers are natural numbers. A byte keeps its `% 2 ^ 8`. A sum of `usize` wraps at
-- 2 ^ 64, as in a release build. An index out of bounds and a panic of the source are the value
-- `panic`, and `panicked` of a run. Slices are no longer than 2 ^ 63 - 1, the largest allocation, and
-- this is a hypothesis where it matters. `count_max` is the largest `Count`, which features choose.
-- Input and output are lists of bytes; at the end of the input `read_exact` leaves the 0 that is
-- in the buffer. `interpret_state` owns its state, so that a failed run leaves only input and output.
--
-- Fuel. A loop of an interpreted program need not end: each loop is given `fuel` rounds each time it
-- is entered, and a run that wants for more is `out_of_fuel`. A loop that the optimizer replaces counts
-- a byte down, or up, to 0, which is at most 255 rounds and a last test; hence 256 where it is spoken
-- of. The bytecode interpreter has `rounds` for its one loop, and `fuel` for the loops inside a round.
-- A derivation of Semantics has a number of rounds, and any more fuel is enough for it.
-- The parser's fuel is chosen by `parse_program`: two for each byte, since a byte is read by
-- `parse_instruction` in a call of `parse_instructions`, and two for the end of the input.
--
-- Native code. An `isize` of the analysis is a word of 64 bits in two's complement, and the checks
-- compare words as signed numbers, as the emitted code does. The pointer is its distance from the start
-- of the memory. An access outside the memory, which native code would make, is a panic of the model.
-- Registers, labels and the encoding of operations are left out of the x64 and the Cranelift code. The
-- code of LLVM compares words as unsigned numbers. The instructions of LLVM do what its reference says
-- of them, on the one slot and the one array that the function allocates: a wrapped sum, an unsigned
-- comparison, an access of a cell. `llvm.memset` sets one cell after the other. An access outside the
-- array, which has the size that is allocated, or an operand of another type, crashes.
-- The code of Cranelift is made for a `Host`, which has the address of the first cell and the convention
-- for calls. It compares addresses, and only its moves have checks. It calls the run-time system by the
-- convention of the host, and where this is not the one of the called functions, win64, what they do is
-- a parameter too. Native code starts at the first cell, and the machine on which
-- `Interpretable::interpret` starts a program has its pointer there.
--
-- Not modelled: the code generators that the back ends call (dynasm, LLVM, Cranelift), of which the
-- emitted operations are taken to do what they are named for; of src/llvm/wrapper.rs names, types, the
-- optimizer, and what `compile_and_run` does where `debug` is set, which `llvm_run` does not set; what
-- clap makes of a command line, and the file system, which is a parameter; the messages of errors; the
-- interpreters under cpp; benchmarks and tests.
pub mod Prelude
pub mod Common
pub mod State
pub mod Machine
pub mod Tree
pub mod Ast
pub mod Rle
pub mod Peephole
pub mod Bytecode
pub mod Traits
pub mod Pipeline
pub mod Jit
pub mod Semantics
pub mod Llvm
pub mod Rts
pub mod Cranelift
pub mod Bfi
pub mod Examples
