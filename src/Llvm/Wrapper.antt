-- ===== src/Llvm/Wrapper.antt =====
-- src/llvm/wrapper.rs: the builder. A method adds an instruction at the end of the block at which the
-- builder stands.
use bf_rs.Prelude.{ℕ, ◌+◌, List, [], ◌∷◌, ◌++◌}
use bf_rs.Llvm.Ir
use bf_rs.Llvm.Ir.{Value, Instr, Blocks, put}

-- The function that is built, with the number of its blocks, the block at which the builder
-- stands, and the next register.
pub record Builder : Type 0 where
  pub blocks : Blocks
  pub count : ℕ
  pub position : ℕ
  pub next : ℕ

abbrev pub Build {ℓ} : Type ℓ → Type ℓ
Build A = Builder → A × Builder

infixl 5 ◌>>=◌ ◌>>◌
abbrev pub ◌>>=◌ {ℓ κ} : {A : Type ℓ} {B : Type κ} → Build A → (A → Build B) → Build B
(f >>= g) b = let (a, b') = f b in g a b'

abbrev pub ◌>>◌ {ℓ κ} : {A : Type ℓ} {B : Type κ} → Build A → Build B → Build B
f >> g = f >>= λ _. g

abbrev pub insert : Instr → Builder → Builder
insert i b = record b { blocks = put b.blocks b.position (b.blocks b.position ++ (i ∷ [])) }

-- An instruction with a result.
abbrev pub define : (ℕ → Instr) → Build Value
define i b = (Value.reg b.next, record (insert (i b.next) b) { next = b.next + 1 })

abbrev pub perform : Instr → Build (Unit {0})
perform i b = (tt, insert i b)

-- `Value::append`, of a function.
abbrev pub append : Build ℕ
append b = (b.count, record b { count = b.count + 1 })

abbrev pub position_at_end : ℕ → Build (Unit {0})
position_at_end block b = (tt, record b { position = block })

abbrev pub add : Value → Value → Build Value
add v1 v2 = define (λ r. Ir.add r v1 v2)

abbrev pub sub : Value → Value → Build Value
sub v1 v2 = define (λ r. Ir.sub r v1 v2)

abbrev pub alloca : Build Value
alloca b = (Value.slot, insert Ir.alloca b)

abbrev pub array_alloca : Value → Build Value
array_alloca size b = (Value.array, insert (Ir.array_alloca size) b)

abbrev pub br : ℕ → Build (Unit {0})
br dst = perform (Ir.br dst)

abbrev pub call : Value → List Value → Build Value
call fun args = define (λ r. Ir.call r fun args)

-- `cmp` with the predicate NE, ULT or ULE.
abbrev pub cmp_ne : Value → Value → Build Value
cmp_ne lhs rhs = define (λ r. Ir.cmp_ne r lhs rhs)

abbrev pub cmp_ult : Value → Value → Build Value
cmp_ult lhs rhs = define (λ r. Ir.cmp_ult r lhs rhs)

abbrev pub cmp_ule : Value → Value → Build Value
cmp_ule lhs rhs = define (λ r. Ir.cmp_ule r lhs rhs)

abbrev pub cond_br : Value → ℕ → ℕ → Build (Unit {0})
cond_br test then_ else_ = perform (Ir.cond_br test then_ else_)

abbrev pub gep : Value → Value → Build Value
gep ptr offset = define (λ r. Ir.gep r ptr offset)

abbrev pub load : Value → Build Value
load ptr = define (λ r. Ir.load r ptr)

abbrev pub ret : Value → Build (Unit {0})
ret value = perform (Ir.ret value)

abbrev pub store : Value → Value → Build (Unit {0})
store src dst = perform (Ir.store src dst)
