-- ===== src/Semantics/View.antt =====
-- The machine of src/state.rs as a tape.
use bf_rs.Prelude.{
  ℕ, zero, suc, ◌<◌, ◌≡◌, refl, sym, ap, ◌∙◌, List, [], ◌∷◌, Option, none, some, length, length-set,
  set, get_elem?, replicate, arith,
}
use mathlib.Core.Path.{fun_ext}
use bf_rs.Common.{ok}
use bf_rs.State.{load, modify}
use bf_rs.State.Valid.{load_valid, modify_of_get_elem?}
use bf_rs.Machine.{Machine, Outcome, done, failed, panicked, out_of_fuel, on_state}
use bf_rs.Machine.Laws.{IsValidMachine}
use bf_rs.Semantics.{Config, Final, halts, aborts, update, write}

-- The byte at a place, and 0 outside.
abbrev pub get_or : List ℕ → ℕ → ℕ
get_or [] i = 0
get_or (b ∷ bs) zero = b
get_or (b ∷ bs) (suc i) = get_or bs i

get_or_of_get_elem? : (bs : List ℕ) (i b : ℕ) → get_elem? bs i ≡ some b → get_or bs i ≡ b
get_or_of_get_elem? [] i b e = absurd (cc)
get_or_of_get_elem? (x ∷ bs) zero b e = cc
get_or_of_get_elem? (x ∷ bs) (suc i) b e = get_or_of_get_elem? bs i b e

get_or-set :
    (bs : List ℕ) (i b j : ℕ) → i < length bs → get_or (set bs i b) j ≡ update (get_or bs) i b j
get_or-set [] i b j h = absurd (omega arith)
get_or-set (x ∷ bs) zero b zero h = ground arith
get_or-set (x ∷ bs) zero b (suc j) h = ground arith
get_or-set (x ∷ bs) (suc i) b zero h = ground arith
get_or-set (x ∷ bs) (suc i) b (suc j) h = ground (arith, get_or-set bs i b j)

pub get_or-replicate : (n i : ℕ) → get_or (replicate n 0) i ≡ 0
get_or-replicate zero i = refl
get_or-replicate (suc n) zero = refl
get_or-replicate (suc n) (suc i) = get_or-replicate n i

abbrev pub view : Machine → Config
view m = record {
  size = length m.state.memory;
  head = m.state.pointer;
  cell = get_or m.state.memory;
  input = m.io.input;
  output = m.io.output;
}

-- What a run that ended, without panic, has to show.
abbrev pub see : Outcome → Option Final
see (done m) = some (halts (view m))
see (failed e io) = some (aborts e io.input io.output)
see (panicked io) = none
see out_of_fuel = none

-- The byte under the pointer is that under the head.
pub load-cell :
    (m : Machine) → IsValidMachine m → load m.state ≡ ok (get_or m.state.memory m.state.pointer)
load-cell m v =
    let (b, e, l, _) = load_valid m.state v.valid in
    l ∙ ap ok (sym (get_or_of_get_elem? m.state.memory m.state.pointer b e))

-- A write to the cell under the pointer is one to the cell under the head.
pub see-modify :
    (f : ℕ → ℕ) (m : Machine)
    → IsValidMachine m
    → see (on_state (λ s. modify f s.pointer s) m)
      ≡ some (halts (write (f (get_or m.state.memory m.state.pointer)) (view m)))
see-modify f m v =
    let (b, e, _, _) = load_valid m.state v.valid in
    let here = get_or_of_get_elem? m.state.memory m.state.pointer b e in
    rw (modify_of_get_elem? f m.state.pointer b m.state e, here)
      (ap
          (λ n. some (
            halts (record {
              size = n;
              head = m.state.pointer;
              cell = get_or (set m.state.memory m.state.pointer (f b));
              input = m.io.input;
              output = m.io.output;
            })))
          (length-set m.state.memory m.state.pointer (f b))
        ∙ ap
            (λ c. some (
              halts (record {
                size = length m.state.memory;
                head = m.state.pointer;
                cell = c;
                input = m.io.input;
                output = m.io.output;
              })))
            (fun_ext λ j. get_or-set m.state.memory m.state.pointer (f b) j v.valid.inside))
