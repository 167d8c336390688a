-- ===== src/State/Clear.antt =====
-- src/state.rs: a state whose own cell is set to 0.
use bf_rs.Prelude.{◌≡◌, set, arith}
use bf_rs.Common.{ok}
use bf_rs.State.{State, store}
use bf_rs.State.Valid.{IsValid, load_valid, modify_of_get_elem?, IsValid-set}

abbrev pub cleared : State → State
cleared s = record s { memory = set s.memory s.pointer 0 }

module _ (s : State) (v : IsValid s) where
  pub store-cleared : store 0 s ≡ ok (cleared s)
  unfolding store
  store-cleared =
      let (b, held, _, _) = load_valid s v in modify_of_get_elem? (λ _. 0) s.pointer b s held

  pub cleared-IsValid : IsValid (cleared s)
  cleared-IsValid = IsValid-set s v s.pointer 0 (omega arith)
