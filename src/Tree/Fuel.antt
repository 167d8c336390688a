-- ===== src/Tree/Fuel.antt =====
-- Runs of trees on more fuel.
use bf_rs.Prelude.{ℕ, zero, suc, ◌≤◌, ◌≡◌, refl, ◌≢◌, arith}
use bf_rs.Common.{Result, ok, err, panic}
use bf_rs.State.{load}
use bf_rs.Machine.{
  Io, Machine, Outcome, done, failed, panicked, out_of_fuel, ◌>>=◌, with_result, branch,
  while_nonzero,
}
use bf_rs.Tree.{Statement, Program, instr, loop, nil, ◌⨾◌, interpret, interpret_statement}

-- The first run stopped for want of fuel, or the two are one.
infix 4 ◌⊑◌
pub data ◌⊑◌ : Outcome → Outcome → Type 0 where
  below : {o : Outcome} → out_of_fuel ⊑ o
  same : {o : Outcome} → o ⊑ o

pub ⊑-eq : {o o' : Outcome} → o ⊑ o' → o ≢ out_of_fuel → o' ≡ o
⊑-eq below h = absurd (h refl)
⊑-eq same h = refl

pub bind-⊑ :
    {o o' : Outcome} (f g : Machine → Outcome)
    → o ⊑ o'
    → ((m : Machine) → f m ⊑ g m)
    → o >>= f ⊑ o' >>= g
bind-⊑ f g below h = below
bind-⊑ f g (same {o = done m}) h = h m
bind-⊑ f g (same {o = failed e io}) h = same
bind-⊑ f g (same {o = panicked io}) h = same
bind-⊑ f g (same {o = out_of_fuel}) h = same

branch-⊑ : (x y y' : Outcome) (b : ℕ) → y ⊑ y' → branch x y b ⊑ branch x y' b
branch-⊑ x y y' zero h = same
branch-⊑ x y y' (suc b) h = h

pub with_result-⊑ {ℓ} :
    {A : Type ℓ} (io : Io) (r : Result A) (f g : A → Outcome)
    → ((a : A) → f a ⊑ g a)
    → with_result io r f ⊑ with_result io r g
with_result-⊑ io (ok a) f g h = h a
with_result-⊑ io (err e) f g h = same
with_result-⊑ io panic f g h = same

pub while_nonzero-⊑ :
    (f g : ℕ) (body body' : Machine → Outcome)
    → f ≤ g
    → ((m : Machine) → body m ⊑ body' m)
    → (m : Machine) → while_nonzero f body m ⊑ while_nonzero g body' m
unfolding while_nonzero
while_nonzero-⊑ zero g body body' l h m = below
while_nonzero-⊑ (suc f) zero body body' l h m = absurd (omega arith)
while_nonzero-⊑ (suc f) (suc g) body body' l h m = with_result-⊑ m.io (load m.state) _ _ (λ b.
    branch-⊑ (done m) _ _ b (bind-⊑ _ _ (h m) (while_nonzero-⊑ f g body body' (omega arith) h)))

module _ {I : Type 0} (exec : ℕ → I → Machine → Outcome) (f g : ℕ) (l : f ≤ g)
    (h : (i : I) (m : Machine) → exec f i m ⊑ exec g i m) where
  mutual
    unfolding interpret

    program-⊑ : (p : Program I) (m : Machine) → interpret exec f p m ⊑ interpret exec g p m
    program-⊑ nil m = same
    program-⊑ (s ⨾ p) m = bind-⊑ _ _ (statement-⊑ s m) (program-⊑ p)

    statement-⊑ :
        (s : Statement I) (m : Machine)
        → interpret_statement exec f s m ⊑ interpret_statement exec g s m
    statement-⊑ (instr i) m = h i m
    statement-⊑ (loop body) m = while_nonzero-⊑ f g _ _ l (program-⊑ body) m

  pub interpret-⊑ : (p : Program I) (m : Machine) → interpret exec f p m ⊑ interpret exec g p m
  interpret-⊑ = program-⊑
