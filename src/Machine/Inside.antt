-- ===== src/Machine/Inside.antt =====
-- Runs that meet no end of the memory, and code that needs to be right only for these.
use bf_rs.Prelude.{ℕ, zero, suc, ◌≡◌, refl, ap, subst, ◌∙◌, Bool, true, false, ◌==◌, if◌then◌else◌}
use bf_rs.Common.{Result, ok, err, panic}
use bf_rs.State.{State, load}
use bf_rs.Machine.{
  Machine, Outcome, done, failed, panicked, out_of_fuel, ◌>>=◌, with_result, on_state, branch,
  while_nonzero,
}
use bf_rs.Machine.Laws.{Post}

-- The run meets no end of the memory.
abbrev pub IsInside : Outcome → Type 0
IsInside (failed e io) = ⊥
IsInside _ = Unit

pub bind-IsInside : (o : Outcome) (f : Machine → Outcome) → IsInside (o >>= f) → IsInside o
bind-IsInside (done m) f h = tt
bind-IsInside (failed e io) f h = h
bind-IsInside (panicked io) f h = tt
bind-IsInside out_of_fuel f h = tt

-- The two do the same wherever the second stays inside, from the machines that satisfy `P`.
abbrev pub Follows : (Machine → Type 0) → (Machine → Outcome) → (Machine → Outcome) → Type 0
Follows P code source = (m : Machine) → P m → IsInside (source m) → code m ≡ source m

-- What starts from a machine that satisfies `P` ends in one, and does not panic.
abbrev pub Keeps : (Machine → Type 0) → (Machine → Outcome) → Type 0
Keeps P f = (m : Machine) → P m → Post P (f m)

test-Follows :
    (m : Machine) (x y : Outcome) (r : Result ℕ)
    → IsInside (with_result m.io r (branch (done m) y))
    → (IsInside y → x ≡ y)
    → with_result m.io r (branch (done m) x) ≡ with_result m.io r (branch (done m) y)
test-Follows m x y (ok zero) h k = refl
test-Follows m x y (ok (suc b)) h k = k h
test-Follows m x y (err e) h k = refl
test-Follows m x y panic h k = refl

module _ (P : Machine → Type 0) where
  pub bind-Follows :
      (o : Outcome) (f g : Machine → Outcome)
      → Post P o
      → IsInside (o >>= g)
      → Follows P f g
      → (o >>= f) ≡ (o >>= g)
  bind-Follows (done m) f g v h k = k m v h
  bind-Follows (failed e io) f g v h k = refl
  bind-Follows (panicked io) f g v h k = refl
  bind-Follows out_of_fuel f g v h k = refl

  -- One after the other.
  pub seq-Follows :
      (code source rest rest' : Machine → Outcome)
      → Keeps P source
      → Follows P code source
      → Follows P rest rest'
      → Follows P (λ m. code m >>= rest) (λ m. source m >>= rest')
  seq-Follows code source rest rest' p k k' m v h =
      ap (λ o. o >>= rest) (k m v (bind-IsInside (source m) rest' h))
      ∙ bind-Follows (source m) rest rest' (p m v) h k'

  pub while_nonzero-Follows :
      (fuel : ℕ) (body body' : Machine → Outcome)
      → Keeps P body'
      → Follows P body body'
      → Follows P (while_nonzero fuel body) (while_nonzero fuel body')
  unfolding while_nonzero
  while_nonzero-Follows zero body body' p k m v h = refl
  while_nonzero-Follows (suc fuel) body body' p k m v h =
      test-Follows m _ _ (load m.state) h
        (seq-Follows body body' _ _ p k (while_nonzero-Follows fuel body body' p k) m v)

abbrev pub NotErr : Result State → Type 0
NotErr (err e) = ⊥
NotErr _ = Unit

abbrev resume : Machine → Result State → Outcome
resume m r = with_result m.io r λ s. done (record { state = s; io = m.io })

resume-NotErr : (m : Machine) (r : Result State) → IsInside (resume m r) → NotErr r
resume-NotErr m (ok s) h = tt
resume-NotErr m (err e) h = h
resume-NotErr m panic h = tt

pub on_state-Follows :
    (f op : State → Result State) (m : Machine)
    → (NotErr (op m.state) → f m.state ≡ op m.state)
    → IsInside (on_state op m)
    → on_state f m ≡ on_state op m
on_state-Follows f op m k h = ap (resume m) (k (resume-NotErr m (op m.state) h))

if-Follows :
    (m : Machine) (c : Bool) (r r' : Result State)
    → (NotErr r' → r ≡ r')
    → IsInside (if c then done m else resume m r')
    → (if c then done m else resume m r) ≡ (if c then done m else resume m r')
if-Follows m true r r' k h = refl
if-Follows m false r r' k h = ap (resume m) (k (resume-NotErr m r' h))

pub guarded-Follows :
    (m : Machine) (f g : ℕ → State → Result State) (b : ℕ)
    → load m.state ≡ ok b
    → (NotErr (g b m.state) → f b m.state ≡ g b m.state)
    → IsInside (with_result m.io (load m.state) λ x. if x == 0 then done m else on_state (g x) m)
    → (with_result m.io (load m.state) λ x. if x == 0 then done m else on_state (f x) m)
      ≡ (with_result m.io (load m.state) λ x. if x == 0 then done m else on_state (g x) m)
guarded-Follows m f g b e k h =
    let h' =
      subst (λ r. IsInside (with_result m.io r λ x. if x == 0 then done m else on_state (g x) m)) e
        h in
    rw e (if-Follows m (b == 0) (f b m.state) (g b m.state) k h')
