-- ===== src/Bytecode/Layout.antt =====
-- src/bytecode/compiler.rs: the layout of the code. `flatten` writes the addresses down at once,
-- where the compiler patches them.
use bf_rs.Prelude.{
  ℕ, ◌+◌, ◌%◌, ◌≤◌, ◌≡◌, refl, sym, ap, ◌∙◌, [], ◌∷◌, ◌++◌, append-nil, append_assoc, length, set,
  length-append, eq→==, arith,
}
use native.Mathlib.Nat.{mod-eq_of_lt}
use bf_rs.Common
use bf_rs.Common.{Instruction, jump_zero, jump_not_zero, Result, ok}
use bf_rs.Tree.{nil, ◌⨾◌, instr, loop}
use bf_rs.Peephole
use bf_rs.Bytecode.{Program}
use bf_rs.Bytecode.Compiler.{usize_to_count, compile_into, compile_statement, compile}

-- The number of instructions that come out.
abbrev mutual
  pub width : Peephole.Program → ℕ
  width nil = 0
  width (s ⨾ p) = width_statement s + width p

  pub width_statement : Peephole.Statement → ℕ
  width_statement (instr i) = 1
  width_statement (loop body) = 2 + width body

unfoldable mutual
  pub flatten : ℕ → Peephole.Program → Program
  flatten base nil = []
  flatten base (s ⨾ p) = flatten_statement base s ++ flatten (base + width_statement s) p

  pub flatten_statement : ℕ → Peephole.Statement → Program
  flatten_statement base (instr i) = i ∷ []
  flatten_statement base (loop body) =
      jump_zero (base + 1 + width body) ∷ (flatten (base + 1) body ++ (jump_not_zero base ∷ []))

length-append_code : (xs ys : Program) → length (xs ++ ys) ≡ length xs + length ys
length-append_code = length-append

mutual
  unfolding flatten

  length-flatten_program : (base : ℕ) (p : Peephole.Program) → length (flatten base p) ≡ width p
  length-flatten_program base nil = refl
  length-flatten_program base (s ⨾ p) =
      length-append (flatten_statement base s) (flatten (base + width_statement s) p)
      ∙ omega
          (arith, length-flatten_one base s, length-flatten_program (base + width_statement s) p)

  length-flatten_one :
      (base : ℕ) (s : Peephole.Statement) → length (flatten_statement base s) ≡ width_statement s
  length-flatten_one base (instr i) = refl
  length-flatten_one base (loop body) = omega (
    arith,
    length-append_code (flatten (base + 1) body) (jump_not_zero base ∷ []),
    length-flatten_program (base + 1) body,
  )

pub length-flatten : (base : ℕ) (p : Peephole.Program) → length (flatten base p) ≡ width p
length-flatten = length-flatten_program

pub length-flatten_statement :
    (base : ℕ) (s : Peephole.Statement) → length (flatten_statement base s) ≡ width_statement s
length-flatten_statement = length-flatten_one

-- Patching the instruction behind `xs`.
set-append_length :
    (xs ys : Program) (y z : Instruction) → set (xs ++ (y ∷ ys)) (length xs) z ≡ xs ++ (z ∷ ys)
set-append_length [] ys y z = refl
set-append_length (x ∷ xs) ys y z = ap (λ t. x ∷ t) (set-append_length xs ys y z)

usize_to_count_ok : (count_max n : ℕ) → n ≤ count_max → usize_to_count count_max n ≡ ok n
unfolding usize_to_count
usize_to_count_ok count_max n h =
    let e : n % (count_max + 1) ≡ n = mod-eq_of_lt (omega arith) in
    rw (usize_to_count, e, eq→== n n refl)

module _ (count_max : ℕ) where
  mutual
    unfolding compile_into flatten

    compile_into-flatten :
        (p : Peephole.Program) (code : Program)
        → length code + width p ≤ count_max + 1
        → compile_into count_max p code ≡ ok (code ++ flatten (length code) p)
    compile_into-flatten nil code h = ap ok (sym (append-nil code))
    compile_into-flatten (s ⨾ p) code h =
        let fs = flatten_statement (length code) s in
        let e : length (code ++ fs) ≡ length code + width_statement s =
          length-append code fs ∙ omega (arith, length-flatten_statement (length code) s) in
        ap (λ r. Common.◌>>=◌ r (compile_into count_max p))
          (compile_statement-flatten s code (omega arith))
        ∙ compile_into-flatten p (code ++ fs) (omega arith)
        ∙ ap (λ n. ok ((code ++ fs) ++ flatten n p)) e
        ∙ ap ok (append_assoc code fs (flatten (length code + width_statement s) p))

    compile_statement-flatten :
        (s : Peephole.Statement) (code : Program)
        → length code + width_statement s ≤ count_max + 1
        → compile_statement count_max s code ≡ ok (code ++ flatten_statement (length code) s)
    compile_statement-flatten (instr i) code h = refl
    compile_statement-flatten (loop body) code h =
        let begin_pc = length code in
        let code₁ = code ++ (jump_zero 0 ∷ []) in
        let inner = flatten (begin_pc + 1) body in
        let e₁ : length code₁ ≡ begin_pc + 1 = length-append code (jump_zero 0 ∷ []) in
        let e₂ : length (code₁ ++ inner) ≡ begin_pc + 1 + width body =
          length-append code₁ inner ∙ omega (arith, length-flatten (begin_pc + 1) body) in
        let compiled : compile_into count_max body code₁ ≡ ok (code₁ ++ inner) =
          compile_into-flatten body code₁ (omega arith)
          ∙ ap (λ n. ok (code₁ ++ flatten n body)) e₁ in
        let last = jump_not_zero begin_pc ∷ [] in
        rw
          (
            compiled,
            usize_to_count_ok count_max begin_pc (omega arith),
            e₂,
            usize_to_count_ok count_max (begin_pc + 1 + width body) (omega arith),
          )
          (ap (λ t. ok (set t begin_pc (jump_zero (begin_pc + 1 + width body))))
              (append_assoc code₁ inner last ∙ append_assoc code (jump_zero 0 ∷ []) (inner ++ last))
            ∙ ap ok (
                set-append_length code (inner ++ last) (jump_zero 0)
                  (jump_zero (begin_pc + 1 + width body))))

-- Where the code has at most one instruction more than the largest `Count`, the compiler returns
-- the flat layout.
pub compile-flatten :
    (count_max : ℕ) (p : Peephole.Program)
    → width p ≤ count_max + 1
    → compile count_max p ≡ ok (flatten 0 p)
unfolding compile
compile-flatten count_max p h = compile_into-flatten count_max p [] (omega arith)
