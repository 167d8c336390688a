-- ===== src/Semantics.antt =====
-- What a program of commands means, apart from every interpreter: a tape is a function from places to
-- bytes, and a derivation says how a run ends. There is no fuel, and a run that does not end has no
-- derivation.
pub mod View
pub mod Commands
pub mod Sound
pub mod Complete
pub mod Passes
use bf_rs.Prelude.{
  ℕ, zero, suc, ◌+◌, ◌%◌, ◌≡◌, ◌≢◌, List, [], ◌∷◌, ◌++◌, Bool, ltb, ◌==◌, if◌then◌else◌,
}
use bf_rs.Common.{
  Error, pointer_underflow, pointer_overflow, Command, right, left, up, down, in_, out, begin, end,
}
use bf_rs.Tree.{nil, ◌⨾◌, instr, loop}
use bf_rs.Ast.{Program, Statement, IsPlain}

pub record Config : Type 0 where
  pub size : ℕ
  pub head : ℕ
  pub cell : ℕ → ℕ
  pub input : List ℕ
  pub output : List ℕ

-- How a run ends; an error leaves the input and the output.
pub data Final : Type 0 where
  halts : Config → Final
  aborts : Error → List ℕ → List ℕ → Final

-- The tape with another byte under the head.
abbrev pub update : (ℕ → ℕ) → ℕ → ℕ → ℕ → ℕ
update cell place byte other = if other == place then byte else cell other

abbrev pub write : ℕ → Config → Config
write byte c = record c { cell = update c.cell c.head byte }

abbrev pub at_left : ℕ → Config → Final
at_left zero c = aborts pointer_underflow c.input c.output
at_left (suc h) c = halts (record c { head = h })

-- The end of the input reads as 0.
abbrev pub receive : List ℕ → Config → Final
receive [] c = halts (write 0 c)
receive (b ∷ rest) c = halts (record (write b c) { input = rest })

-- One command. A bracket is none.
abbrev pub step : Command → Config → Final
step right c =
    if ltb (c.head + 1) c.size
    then halts (record c { head = c.head + 1 })
    else aborts pointer_overflow c.input c.output
step left c = at_left c.head c
step up c = halts (write ((c.cell c.head + 1) % 256) c)
step down c = halts (write ((c.cell c.head + 255) % 256) c)
step in_ c = receive c.input c
step out c = halts (record c { output = c.output ++ (c.cell c.head ∷ []) })
step begin c = halts c
step end c = halts c

mutual
  pub data Runs : Program → Config → Final → Type 0 where
    finish : {c : Config} → Runs nil c (halts c)
    next :
        {s : Statement} {p : Program} {c c' : Config} {r : Final}
        → Does s c (halts c')
        → Runs p c' r
        → Runs (s ⨾ p) c r
    stop :
        {s : Statement} {p : Program} {c : Config} {e : Error} {i o : List ℕ}
        → Does s c (aborts e i o)
        → Runs (s ⨾ p) c (aborts e i o)

  pub data Does : Statement → Config → Final → Type 0 where
    command : {k : Command} {c : Config} {r : Final} → step k c ≡ r → Does (instr k) c r
    enter : {body : Program} {c : Config} {r : Final} → Loops body c r → Does (loop body) c r

  -- A loop, from a test of its cell on.
  pub data Loops : Program → Config → Final → Type 0 where
    leave : {body : Program} {c : Config} → c.cell c.head ≡ 0 → Loops body c (halts c)
    again :
        {body : Program} {c c' : Config} {r : Final}
        → c.cell c.head ≢ 0
        → Runs body c (halts c')
        → Loops body c' r
        → Loops body c r
    fall :
        {body : Program} {c : Config} {e : Error} {i o : List ℕ}
        → c.cell c.head ≢ 0
        → Runs body c (aborts e i o)
        → Loops body c (aborts e i o)
