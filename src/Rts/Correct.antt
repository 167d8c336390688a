-- ===== src/Rts/Correct.antt =====
-- src/rts.rs: the codes carry the result.
use bf_rs.Prelude.{◌≡◌, refl, sym, ap, ◌∙◌}
use bf_rs.Common.{pointer_underflow, pointer_overflow, unmatched_begin, unmatched_end}
use bf_rs.Machine.{Machine, Outcome, done, failed, panicked, out_of_fuel}
use bf_rs.Traits.{seen}
use bf_rs.Rts.{epilogue, receive, prologue, interpret_state}
use bf_rs.Rts.Errors.{HasRunErrors}

pub receive-epilogue : (o : Outcome) → HasRunErrors o → receive (epilogue o) ≡ seen o
unfolding receive epilogue seen
receive-epilogue (done m) h = refl
receive-epilogue (failed pointer_underflow io) h = refl
receive-epilogue (failed pointer_overflow io) h = refl
receive-epilogue (failed unmatched_begin io) h = absurd h
receive-epilogue (failed unmatched_end io) h = absurd h
receive-epilogue (panicked io) h = refl
receive-epilogue out_of_fuel h = refl

-- Where the pointer of the state stands at the first cell, native code that does what a run with
-- errors of the pointer only does has the result of that run.
pub interpret_state-seen :
    (code : Machine → Outcome) (m : Machine) (o : Outcome)
    → m.state.pointer ≡ 0
    → code m ≡ o
    → HasRunErrors o
    → interpret_state code m ≡ seen o
unfolding interpret_state prologue
interpret_state-seen code m o z e h =
    let same : record { state = record m.state { pointer = 0 }; io = m.io } ≡ m =
      ap (λ p. record { state = record m.state { pointer = p }; io = m.io }) (sym z) in
    ap (λ x. receive (epilogue (code x))) same
    ∙ ap (λ x. receive (epilogue x)) e
    ∙ receive-epilogue o h
