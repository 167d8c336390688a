-- ===== src/Llvm/Graph.antt =====
-- src/llvm/compiler.rs: the basic blocks that `compile_and_run` builds.
pub mod Leads
pub mod Data
pub mod Cell
pub mod Offset
pub mod Ops
pub mod Moves
pub mod Transfer
pub mod Guarded
pub mod Grows
pub mod Emits
pub mod Correct
pub mod Run
use bf_rs.Prelude.{ℕ, ◌+◌, List, [], ◌∷◌}
use bf_rs.Common
use bf_rs.Common.{Instruction, Result, ok, panic}
use bf_rs.Tree.{nil, ◌⨾◌, instr, loop}
use bf_rs.Rts.{okay, underflow, overflow}
use bf_rs.Peephole
use bf_rs.Llvm.Ir.{Value, Blocks}
use bf_rs.Llvm.Wrapper as Builder
use bf_rs.Llvm.Wrapper.{Builder, Build, ◌>>=◌, ◌>>◌, append, position_at_end}

-- `Compiler`, without its context, module and builder.
pub record Compiler : Type 0 where
  pub underflow : ℕ
  pub overflow : ℕ
  pub memory_size : Value
  pub rts_state : Value
  pub read_function : Value
  pub write_function : Value
  pub memory : Value
  pub pointer : Value

module _ (c : Compiler) where
  abbrev pub load_data_at : Value → Build Value
  load_data_at index = do address ← Builder.gep c.memory index; Builder.load address

  abbrev pub store_data_at : Value → Value → Build (Unit {0})
  store_data_at index value = do address ← Builder.gep c.memory index; Builder.store value address

  abbrev pub load_data : Build Value
  load_data = do pointer ← Builder.load c.pointer; load_data_at pointer

  abbrev pub store_data : Value → Build (Unit {0})
  store_data value = do pointer ← Builder.load c.pointer; store_data_at pointer value

  abbrev pub if_not0 : ℕ → ℕ → Build (Unit {0})
  if_not0 true_ false_ = do
    byte ← load_data
    comparison ← Builder.cmp_ne byte (Value.byte 0)
    Builder.cond_br comparison true_ false_

  abbrev pub load_pos_offset : ℕ → Build Value
  load_pos_offset offset = do
    success ← append
    old_pointer ← Builder.load c.pointer
    allowed ← Builder.sub c.memory_size old_pointer
    comparison ← Builder.cmp_ult (Value.word offset) allowed
    Builder.cond_br comparison success c.overflow
    position_at_end success
    Builder.add old_pointer (Value.word offset)

  abbrev pub load_neg_offset : ℕ → Build Value
  load_neg_offset offset = do
    success ← append
    old_pointer ← Builder.load c.pointer
    comparison ← Builder.cmp_ule (Value.word offset) old_pointer
    Builder.cond_br comparison success c.underflow
    position_at_end success
    Builder.sub old_pointer (Value.word offset)

  abbrev pub right : ℕ → Build (Unit {0})
  right count = do new_pointer ← load_pos_offset count; Builder.store new_pointer c.pointer

  abbrev pub left : ℕ → Build (Unit {0})
  left count = do new_pointer ← load_neg_offset count; Builder.store new_pointer c.pointer

  abbrev pub add : ℕ → Build (Unit {0})
  add count = do
    old_value ← load_data
    new_value ← Builder.add old_value (Value.byte count)
    store_data new_value

  abbrev pub in_ : Build (Unit {0})
  in_ = do result ← Builder.call c.read_function (c.rts_state ∷ []); store_data result

  abbrev pub out : Build Value
  out = do argument ← load_data; Builder.call c.write_function (c.rts_state ∷ argument ∷ [])

  abbrev pub set_zero : Build (Unit {0})
  set_zero = store_data (Value.byte 0)

  -- The two transfers, with the check of each.
  abbrev pub offset_add : Build Value → Build (Unit {0})
  offset_add load_offset = do
    do_it ← append
    after ← append
    if_not0 do_it after
    position_at_end do_it
    pointer ← load_offset
    to_add ← load_data
    store_data (Value.byte 0)
    add_to ← load_data_at pointer
    sum ← Builder.add to_add add_to
    store_data_at pointer sum
    Builder.br after
    position_at_end after

  -- A loop up to its body, which returns the header and the block behind, and from its body on.
  abbrev pub open_loop : Build (ℕ × ℕ)
  open_loop = do
    header ← append
    true_ ← append
    false_ ← append
    Builder.br header
    position_at_end header
    if_not0 true_ false_
    position_at_end true_
    λ b. ((header, false_), b)

  abbrev pub close_loop : ℕ × ℕ → Build (Unit {0})
  close_loop (header, false_) = do Builder.br header; position_at_end false_

  -- A search calls `compile_block` on a loop around one move.
  abbrev pub search : Build (Unit {0}) → Build (Unit {0})
  search move = do labels ← open_loop; move; close_loop labels

  unfoldable pub emit : Instruction → Builder → Result Builder
  emit (Instruction.right count) b = ok (right count b).1
  emit (Instruction.left count) b = ok (left count b).1
  emit (Instruction.add count) b = ok (add count b).1
  emit Instruction.in_ b = ok (in_ b).1
  emit Instruction.out b = ok (out b).1
  emit Instruction.set_zero b = ok (set_zero b).1
  emit (Instruction.find_zero_right count) b = ok (search (right count) b).1
  emit (Instruction.find_zero_left count) b = ok (search (left count) b).1
  emit (Instruction.offset_add_right count) b = ok (offset_add (load_pos_offset count) b).1
  emit (Instruction.offset_add_left count) b = ok (offset_add (load_neg_offset count) b).1
  emit (Instruction.jump_zero _) b = panic
  emit (Instruction.jump_not_zero _) b = panic

  unfoldable mutual
    unfolding emit

    pub compile_block : Peephole.Program → Builder → Result Builder
    compile_block nil b = ok b
    compile_block (s ⨾ p) b = Common.◌>>=◌ (compile_statement s b) (compile_block p)

    pub compile_statement : Peephole.Statement → Builder → Result Builder
    compile_statement (instr i) b = emit i b
    compile_statement (loop body) b =
        let (labels, inside) = open_loop b in
        Common.◌>>=◌ (compile_block body inside) λ b'. ok (close_loop labels b').1

  abbrev pub epilogue : Build (Unit {0})
  epilogue = do
    Builder.ret (Value.word okay)
    position_at_end c.underflow
    Builder.ret (Value.word underflow)
    position_at_end c.overflow
    Builder.ret (Value.word overflow)

-- A builder of a function with no blocks.
abbrev pub empty : Builder
empty = record { blocks = λ l. []; count = 0; position = 0; next = 0 }

abbrev pub prologue : ℕ → Build Compiler
prologue memory_size = do
  entry ← append
  position_at_end entry
  underflow ← append
  overflow ← append
  pointer ← Builder.alloca
  memory ← Builder.array_alloca (Value.word memory_size)
  Builder.call Value.memset
      (memory ∷ Value.byte 0 ∷ Value.word memory_size ∷ Value.word 0 ∷ Value.word 0 ∷ [])
  Builder.store (Value.word 0) pointer
  λ b. (
    record {
      underflow = underflow;
      overflow = overflow;
      memory_size = Value.word memory_size;
      rts_state = Value.param 0;
      read_function = Value.param 1;
      write_function = Value.param 2;
      memory = memory;
      pointer = pointer;
    },
    b,
  )

-- `bfi_main` for a program.
unfoldable pub build : ℕ → Peephole.Program → Result Blocks
unfolding compile_block
build memory_size program =
    let (c, b) = prologue memory_size empty in
    Common.◌>>=◌ (compile_block c program b) λ b'. ok (epilogue c b').1.blocks
