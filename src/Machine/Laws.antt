-- ===== src/Machine/Laws.antt =====
-- Laws of runs: chaining, postconditions, and the loop combinator.
use bf_rs.Prelude.{ℕ, zero, suc, ◌≡◌, refl, ap, All, ◌==◌, if◌then◌else◌}
use bf_rs.Common.{Result, ok, err, panic}
use bf_rs.State.{State, load, read, write}
use bf_rs.State.Valid.{Returns, IsValid, load_valid, read-Returns, write-Returns, IsByte}
use bf_rs.Machine.{
  Io, Machine, Outcome, done, failed, panicked, out_of_fuel, ◌>>=◌, with_result, on_state, branch,
  while_nonzero, read_byte, write_byte,
}

pub bind-done : (o : Outcome) → (o >>= done) ≡ o
bind-done (done m) = refl
bind-done (failed e io) = refl
bind-done (panicked io) = refl
bind-done out_of_fuel = refl

pub bind_assoc : (o : Outcome) (f g : Machine → Outcome) → (o >>= f >>= g) ≡ (o >>= λ m. f m >>= g)
bind_assoc (done m) f g = refl
bind_assoc (failed e io) f g = refl
bind_assoc (panicked io) f g = refl
bind_assoc out_of_fuel f g = refl

-- `P` holds of the machine at the end of a run that ends normally, and nothing panics.
abbrev pub Post : (Machine → Type 0) → Outcome → Type 0
Post P (done m) = P m
Post P (failed e io) = Unit
Post P (panicked io) = ⊥
Post P out_of_fuel = Unit

pub Post-bind :
    {P : Machine → Type 0} (Q : Machine → Type 0) (o : Outcome) (f : Machine → Outcome)
    → Post P o
    → ((m : Machine) → P m → Post Q (f m))
    → Post Q (o >>= f)
Post-bind Q (done m) f h k = k m h
Post-bind Q (failed e io) f h k = tt
Post-bind Q (panicked io) f h k = absurd h
Post-bind Q out_of_fuel f h k = tt

-- Two continuations need to agree only where the postcondition of the first part holds.
pub bind_congr :
    {P : Machine → Type 0} (o : Outcome) (f g : Machine → Outcome)
    → Post P o
    → ((m : Machine) → P m → f m ≡ g m)
    → (o >>= f) ≡ (o >>= g)
bind_congr (done m) f g h k = k m h
bind_congr (failed e io) f g h k = refl
bind_congr (panicked io) f g h k = refl
bind_congr out_of_fuel f g h k = refl

-- The machines that a run meets.
pub record IsValidMachine (m : Machine) : Type 0 where
  pub valid : IsValid m.state
  pub input_bytes : All IsByte m.io.input

-- Nothing that starts from a valid machine panics or makes it invalid.
abbrev pub Preserves : (Machine → Outcome) → Type 0
Preserves f = (m : Machine) → IsValidMachine m → Post IsValidMachine (f m)

pub with_result-Post {ℓ} :
    {A : Type ℓ} {P : A → Type 0} (Q : Machine → Type 0) (io : Io) (r : Result A) (f : A → Outcome)
    → Returns P r
    → ((a : A) → P a → Post Q (f a))
    → Post Q (with_result io r f)
with_result-Post Q io (ok a) f h k = k a h
with_result-Post Q io (err e) f h k = tt
with_result-Post Q io panic f h k = absurd h

pub on_state-Preserves :
    (op : State → Result State) (m : Machine)
    → IsValidMachine m
    → Returns IsValid (op m.state)
    → Post IsValidMachine (on_state op m)
on_state-Preserves op m v h =
    with_result-Post IsValidMachine m.io (op m.state) _ h
      (λ s v'. record { valid = v'; input_bytes = v.input_bytes })

pub while_nonzero-done :
    (f : ℕ) (body : Machine → Outcome) (m : Machine)
    → load m.state ≡ ok 0
    → while_nonzero (suc f) body m ≡ done m
unfolding while_nonzero
while_nonzero-done f body m e = rw e

pub while_nonzero-again :
    (f v : ℕ) (body : Machine → Outcome) (m : Machine)
    → load m.state ≡ ok (suc v)
    → while_nonzero (suc f) body m ≡ (body m >>= while_nonzero f body)
unfolding while_nonzero
while_nonzero-again f v body m e = rw e

branch-elim {ℓ} : (P : Outcome → Type ℓ) (x y : Outcome) (b : ℕ) → P x → P y → P (branch x y b)
branch-elim P x y zero hx hy = hx
branch-elim P x y (suc b) hx hy = hy

-- Both cases of a test at a valid machine.
pub load-elim {ℓ} :
    (P : Outcome → Type ℓ) (m : Machine) (x y : Outcome)
    → IsValidMachine m
    → P x
    → P y
    → P (with_result m.io (load m.state) (branch x y))
load-elim P m x y v hx hy =
    let (b, _, e, _) = load_valid m.state v.valid in rw e (branch-elim P x y b hx hy)

pub while_nonzero-Preserves :
    (f : ℕ) (body : Machine → Outcome) → Preserves body → Preserves (while_nonzero f body)
unfolding while_nonzero
while_nonzero-Preserves zero body h m v = tt
while_nonzero-Preserves (suc f) body h m v =
    load-elim (Post IsValidMachine) m _ _ v v
      (Post-bind IsValidMachine (body m) _ (h m v) (while_nonzero-Preserves f body h))

pub while_nonzero-congr :
    (f : ℕ) (body body' : Machine → Outcome)
    → Preserves body
    → ((m : Machine) → IsValidMachine m → body m ≡ body' m)
    → (m : Machine) → IsValidMachine m
    → while_nonzero f body m ≡ while_nonzero f body' m
unfolding while_nonzero
while_nonzero-congr zero body body' h e m v = refl
while_nonzero-congr (suc f) body body' h e m v = rw (← e m v) (
    ap (λ t. with_result m.io (load m.state) (branch (done m) t))
      (bind_congr (body m) _ _ (h m v) (while_nonzero-congr f body body' h e)))

pub read_byte-Preserves : Preserves read_byte
unfolding read_byte
read_byte-Preserves m v =
    with_result-Post IsValidMachine m.io (read m.io.input m.state) _
      (read-Returns m.state v.valid m.io.input v.input_bytes)
      (λ r h. record { valid = h.0; input_bytes = h.1 })

pub write_byte-Preserves : Preserves write_byte
unfolding write_byte
write_byte-Preserves m v =
    with_result-Post IsValidMachine m.io (write m.io.output m.state) _
      (write-Returns m.state v.valid m.io.output)
      (λ output h. record { valid = v.valid; input_bytes = v.input_bytes })

-- `if state.load() != 0 { … }` around two operations that do the same.
pub guarded-same :
    (m : Machine) (f : State → Result State) (g : ℕ → State → Result State) (b : ℕ)
    → load m.state ≡ ok b
    → f m.state ≡ g b m.state
    → (with_result m.io (load m.state) λ value. if value == 0 then done m else on_state f m) ≡ (
        with_result m.io
          (load m.state)
          λ value. if value == 0 then done m else on_state (g value) m)
guarded-same m f g b e h = rw e (
    ap
      (λ r.
        if b == 0 then done m else with_result m.io r λ s. done (record { state = s; io = m.io }))
      h)

pub on_state-same :
    (m : Machine) (f g : State → Result State) → f m.state ≡ g m.state → on_state f m ≡ on_state g m
on_state-same m f g e = ap (λ r. with_result m.io r λ s. done (record { state = s; io = m.io })) e
