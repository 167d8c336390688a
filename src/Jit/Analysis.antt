-- ===== src/Jit/Analysis.antt =====
-- src/jit/analysis.rs: the interface of the bounds analysis, and its two implementations.
use bf_rs.Prelude.{ℕ, ◌+◌, ◌-◌, ◌%◌, List, [], ◌∷◌, Bool, true, false, leb, if◌then◌else◌}
use bf_rs.Common.{Result, ok, panic, ◌>>=◌}
use bf_rs.State.{usize_mod}
use bf_rs.Peephole
use bf_rs.Jit.LoopBalance.{LoopBalance, is_balanced, is_right_only, is_left_only, analyze_loop}

-- A method that takes `&mut self` returns the analyzer that it leaves.
pub record BoundsAnalysis (A : Type 0) : Type 0 where
  pub new : A
  pub move_left : ℕ → A → Bool × A
  pub move_right : ℕ → A → Bool × A
  pub check_left : ℕ → A → Bool
  pub check_right : ℕ → A → Bool
  pub reset_left : A → A
  pub reset_right : A → A
  pub enter_loop : Peephole.Program → A → Result A
  pub leave_loop : A → Result A

pub record AbstractInterpreter : Type 0 where
  pub left_mark : ℕ
  pub right_mark : ℕ
  pub loop_stack : List (ℕ × ℕ)

unfoldable pub start : AbstractInterpreter
start = record { left_mark = 0; right_mark = 0; loop_stack = [] }

unfoldable pub move_left : ℕ → AbstractInterpreter → Bool × AbstractInterpreter
move_left count a =
    let a' = record a { right_mark = (a.right_mark + count) % usize_mod } in
    if leb count a.left_mark
    then (true, record a' { left_mark = a.left_mark - count })
    else (false, record a' { left_mark = 0 })

unfoldable pub move_right : ℕ → AbstractInterpreter → Bool × AbstractInterpreter
move_right count a =
    let a' = record a { left_mark = (a.left_mark + count) % usize_mod } in
    if leb count a.right_mark
    then (true, record a' { right_mark = a.right_mark - count })
    else (false, record a' { right_mark = 0 })

unfoldable pub check_left : ℕ → AbstractInterpreter → Bool
check_left count a = leb count a.left_mark

unfoldable pub check_right : ℕ → AbstractInterpreter → Bool
check_right count a = leb count a.right_mark

unfoldable pub reset_left : AbstractInterpreter → AbstractInterpreter
reset_left a = record a { left_mark = 0 }

unfoldable pub reset_right : AbstractInterpreter → AbstractInterpreter
reset_right a = record a { right_mark = 0 }

-- What is known of the pointer wherever a loop of the given balance tests its cell.
unfoldable pub forget : LoopBalance → AbstractInterpreter → AbstractInterpreter
unfolding is_balanced is_right_only is_left_only reset_left reset_right
forget balance a =
    if is_balanced balance
    then a
    else if is_right_only balance
    then reset_right a
    else if is_left_only balance
    then reset_left a
    else reset_right (reset_left a)

abbrev pub push_marks : AbstractInterpreter → AbstractInterpreter
push_marks a = record a { loop_stack = (a.left_mark, a.right_mark) ∷ a.loop_stack }

unfoldable pub enter_loop : Peephole.Program → AbstractInterpreter → Result AbstractInterpreter
unfolding analyze_loop forget
enter_loop body a = analyze_loop body >>= λ balance. ok (push_marks (forget balance a))

abbrev pub pop_marks : List (ℕ × ℕ) → Result AbstractInterpreter
pop_marks [] = panic
pop_marks ((left_mark, right_mark) ∷ loop_stack) =
    ok (record { left_mark = left_mark; right_mark = right_mark; loop_stack = loop_stack })

unfoldable pub leave_loop : AbstractInterpreter → Result AbstractInterpreter
leave_loop a = pop_marks a.loop_stack

unfoldable pub abstract_interpreter : BoundsAnalysis AbstractInterpreter
unfolding start move_left move_right check_left check_right reset_left reset_right enter_loop
    leave_loop
abstract_interpreter = record {
  new = start;
  move_left = move_left;
  move_right = move_right;
  check_left = check_left;
  check_right = check_right;
  reset_left = reset_left;
  reset_right = reset_right;
  enter_loop = enter_loop;
  leave_loop = leave_loop;
}

-- `NoAnalysis` has no state, proves nothing, and never panics.
unfoldable pub no_analysis : BoundsAnalysis Unit
no_analysis = record {
  new = tt;
  move_left = λ count a. (false, a);
  move_right = λ count a. (false, a);
  check_left = λ count a. false;
  check_right = λ count a. false;
  reset_left = λ a. a;
  reset_right = λ a. a;
  enter_loop = λ body a. ok a;
  leave_loop = λ a. ok a;
}
