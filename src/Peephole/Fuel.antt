-- ===== src/Peephole/Fuel.antt =====
-- src/peephole/interpreter.rs: fuel of the optimized programs.
use bf_rs.Prelude.{ℕ, ◌≤◌, ◌≡◌, ◌≢◌}
use bf_rs.Common.{
  Instruction, left, right, add, in_, out, jump_zero, jump_not_zero, set_zero, offset_add_right,
  offset_add_left, find_zero_right, find_zero_left,
}
use bf_rs.Machine.{Machine, out_of_fuel}
use bf_rs.Tree.Fuel.{◌⊑◌, same, ⊑-eq, while_nonzero-⊑, interpret-⊑}
use bf_rs.Peephole.{Program}
use bf_rs.Peephole.Interpreter.{exec, interpret}

pub exec-⊑ : (f g : ℕ) → f ≤ g → (i : Instruction) (m : Machine) → exec f i m ⊑ exec g i m
unfolding exec
exec-⊑ f g l (left n) m = same
exec-⊑ f g l (right n) m = same
exec-⊑ f g l (add n) m = same
exec-⊑ f g l in_ m = same
exec-⊑ f g l out m = same
exec-⊑ f g l (jump_zero _) m = same
exec-⊑ f g l (jump_not_zero _) m = same
exec-⊑ f g l set_zero m = same
exec-⊑ f g l (offset_add_right n) m = same
exec-⊑ f g l (offset_add_left n) m = same
exec-⊑ f g l (find_zero_right n) m = while_nonzero-⊑ f g _ _ l (λ m'. same) m
exec-⊑ f g l (find_zero_left n) m = while_nonzero-⊑ f g _ _ l (λ m'. same) m

-- An optimized program that does not want for fuel has the same outcome with more.
pub interpret_more :
    (f g : ℕ) (p : Program) (m : Machine)
    → f ≤ g
    → interpret f p m ≢ out_of_fuel
    → interpret g p m ≡ interpret f p m
unfolding interpret
interpret_more f g p m l h = ⊑-eq (interpret-⊑ exec f g l (exec-⊑ f g l) p m) h
