-- ===== src/Jit/LoopBalance.antt =====
-- src/jit/loop_balance.rs. An `isize` is its two's complement word of 64 bits. The map from the
-- addresses of loop bodies to balances holds for each body what `analyze_loop` returns for it, and
-- looking it up is calling `analyze_loop`.
use bf_rs.Prelude.{
  ℕ, ◌+◌, ◌-◌, ◌%◌, ◌^◌, Bool, true, false, ◌&&◌, ◌||◌, ltb, leb, ◌==◌, if◌then◌else◌,
}
use bf_rs.Common.{
  Instruction, left, right, add, in_, out, jump_zero, jump_not_zero, set_zero, offset_add_right,
  offset_add_left, find_zero_right, find_zero_left, Result, ok, panic, ◌>>=◌,
}
use bf_rs.State.{usize_mod}
use bf_rs.Tree.{nil, ◌⨾◌, instr, loop}
use bf_rs.Peephole

pub data LoopBalance : Type 0 where
  exact : ℕ → LoopBalance
  right_only left_only unknown : LoopBalance

unfoldable pub is_balanced : LoopBalance → Bool
is_balanced (exact disp) = disp == 0
is_balanced _ = false

-- `disp >= 0` and `disp <= 0`.
abbrev pub non_negative : ℕ → Bool
non_negative disp = ltb disp (2 ^ 63)

abbrev pub non_positive : ℕ → Bool
non_positive disp = disp == 0 || leb (2 ^ 63) disp

unfoldable pub is_right_only : LoopBalance → Bool
is_right_only (exact disp) = non_negative disp
is_right_only right_only = true
is_right_only left_only = false
is_right_only unknown = false

unfoldable pub is_left_only : LoopBalance → Bool
is_left_only (exact disp) = non_positive disp
is_left_only left_only = true
is_left_only right_only = false
is_left_only unknown = false

-- The arms of `analyze_loop` for `Right` and `Left`.
unfoldable pub add_right : ℕ → LoopBalance → LoopBalance
add_right count (exact disp) = exact ((disp + count) % usize_mod)
add_right count right_only = right_only
add_right count left_only = unknown
add_right count unknown = unknown

unfoldable pub add_left : ℕ → LoopBalance → LoopBalance
add_left count (exact disp) = exact ((disp + (usize_mod - count % usize_mod)) % usize_mod)
add_left count left_only = left_only
add_left count right_only = unknown
add_left count unknown = unknown

-- The arm for `Loop`, where `body` is the balance of the inner loop.
unfoldable pub add_loop : LoopBalance → LoopBalance → LoopBalance
unfolding is_balanced is_right_only is_left_only
add_loop body (exact disp) =
    if is_balanced body
    then exact disp
    else if is_right_only (exact disp) && is_right_only body
    then right_only
    else if is_left_only (exact disp) && is_left_only body
    then left_only
    else unknown
add_loop body right_only = if is_right_only body then right_only else unknown
add_loop body left_only = if is_left_only body then left_only else unknown
add_loop body unknown = unknown

unfoldable pub add_instruction : Instruction → LoopBalance → Result LoopBalance
unfolding is_right_only is_left_only add_right add_left
add_instruction (right count) net = ok (add_right count net)
add_instruction (left count) net = ok (add_left count net)
add_instruction (add _) net = ok net
add_instruction in_ net = ok net
add_instruction out net = ok net
add_instruction set_zero net = ok net
add_instruction (offset_add_right _) net = ok net
add_instruction (offset_add_left _) net = ok net
add_instruction (jump_zero _) net = panic
add_instruction (jump_not_zero _) net = panic
add_instruction (find_zero_right _) net = ok (if is_right_only net then right_only else unknown)
add_instruction (find_zero_left _) net = ok (if is_left_only net then left_only else unknown)

-- The loop over the statements of a body, with the balance so far.
unfoldable mutual
  unfolding add_instruction add_loop

  pub analyze_into : Peephole.Program → LoopBalance → Result LoopBalance
  analyze_into nil net = ok net
  analyze_into (s ⨾ p) net = analyze_statement s net >>= analyze_into p

  pub analyze_statement : Peephole.Statement → LoopBalance → Result LoopBalance
  analyze_statement (instr i) net = add_instruction i net
  analyze_statement (loop body) net =
      analyze_into body (exact 0) >>= λ balance. ok (add_loop balance net)

unfoldable pub analyze_loop : Peephole.Program → Result LoopBalance
unfolding analyze_into
analyze_loop body = analyze_into body (exact 0)
