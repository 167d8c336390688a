-- ===== src/Ast/Parser/Print.antt =====
-- src/ast/parser.rs: the text that a program is printed to.
use bf_rs.Prelude.{
  ℕ, zero, suc, ◌≡◌, refl, sym, ap, subst, ◌∙◌, List, [], ◌∷◌, ◌++◌, append-nil, append_assoc, ◌≢◌,
}
use bf_rs.Common.{Command, right, left, up, down, in_, out, begin, end}
use bf_rs.Tree.{nil, ◌⨾◌, ◌⧺◌, instr, loop, AllInstr, AllStatement}
use bf_rs.Ast.{Statement, Program, IsPlain}
use bf_rs.Ast.Parser.Tokens.{balance}

unfoldable mutual
  pub print : Program → List Command
  print nil = []
  print (s ⨾ p) = print_statement s ++ print p

  pub print_statement : Statement → List Command
  print_statement (instr c) = c ∷ []
  print_statement (loop body) = begin ∷ (print body ++ (end ∷ []))

pub print-append : (p q : Program) → print (p ⧺ q) ≡ print p ++ print q
unfolding print ◌⧺◌
print-append nil q = refl
print-append (s ⨾ p) q =
    ap (λ ts. print_statement s ++ ts) (print-append p q)
    ∙ sym (append_assoc (print_statement s) (print p) (print q))

balance-plain :
    (depth : ℕ) (c : Command) (ts : List Command)
    → IsPlain c
    → balance depth (c ∷ ts) ≡ balance depth ts
balance-plain zero left ts a = refl
balance-plain zero right ts a = refl
balance-plain zero up ts a = refl
balance-plain zero down ts a = refl
balance-plain zero in_ ts a = refl
balance-plain zero out ts a = refl
balance-plain (suc d) left ts a = refl
balance-plain (suc d) right ts a = refl
balance-plain (suc d) up ts a = refl
balance-plain (suc d) down ts a = refl
balance-plain (suc d) in_ ts a = refl
balance-plain (suc d) out ts a = refl
balance-plain d begin ts a = absurd a
balance-plain d end ts a = absurd a

balance-begin : (d : ℕ) (ts : List Command) → balance d (begin ∷ ts) ≡ balance (suc d) ts
balance-begin zero ts = refl
balance-begin (suc d) ts = refl

mutual
  unfolding print

  balance-program :
      (d : ℕ) (p : Program) (ts : List Command)
      → AllInstr IsPlain p
      → balance d (print p ++ ts) ≡ balance d ts
  balance-program d nil ts a = refl
  balance-program d (s ⨾ p) ts a =
      ap (balance d) (append_assoc (print_statement s) (print p) ts)
      ∙ balance-statement d s (print p ++ ts) a.0
      ∙ balance-program d p ts a.1

  balance-statement :
      (d : ℕ) (s : Statement) (ts : List Command)
      → AllStatement IsPlain s
      → balance d (print_statement s ++ ts) ≡ balance d ts
  balance-statement d (instr c) ts a = balance-plain d c ts a
  balance-statement d (loop body) ts a =
      balance-begin d ((print body ++ (end ∷ [])) ++ ts)
      ∙ ap (balance (suc d)) (append_assoc (print body) (end ∷ []) ts)
      ∙ balance-program (suc d) body (end ∷ ts) a

pub balance-print :
    (d : ℕ) (p : Program) (ts : List Command)
    → AllInstr IsPlain p
    → balance d (print p ++ ts) ≡ balance d ts
balance-print = balance-program

pub balance-print_statement :
    (d : ℕ) (s : Statement) (ts : List Command)
    → AllStatement IsPlain s
    → balance d (print_statement s ++ ts) ≡ balance d ts
balance-print_statement = balance-statement

-- Nothing follows, or a `]` does.
abbrev IsClosed : List Command → Type 0
IsClosed [] = Unit
IsClosed (end ∷ _) = Unit
IsClosed (_ ∷ _) = ⊥

not_closed : (c : Command) (ts us : List Command) → c ≢ end → IsClosed us → (c ∷ ts) ≡ us → ⊥
not_closed c ts [] n h e = cc
not_closed c ts (end ∷ us) n h e = n (cc)
not_closed c ts (left ∷ us) n h e = absurd h
not_closed c ts (right ∷ us) n h e = absurd h
not_closed c ts (up ∷ us) n h e = absurd h
not_closed c ts (down ∷ us) n h e = absurd h
not_closed c ts (in_ ∷ us) n h e = absurd h
not_closed c ts (out ∷ us) n h e = absurd h
not_closed c ts (begin ∷ us) n h e = absurd h

plain_not_end : (c : Command) → IsPlain c → c ≢ end
plain_not_end c a e = subst IsPlain e a

plain_not_begin : (c : Command) → IsPlain c → c ≢ begin
plain_not_begin c a e = subst IsPlain e a

begin_not_end : begin ≢ end
begin_not_end e = cc

-- The text of a loop, up to its `]`.
print-loop :
    (body p : Program) (ts : List Command)
    → print (loop body ⨾ p) ++ ts ≡ (begin ∷ (print body ++ (end ∷ (print p ++ ts))))
unfolding print
print-loop body p ts =
    ap (λ x. begin ∷ x)
      (append_assoc (print body ++ (end ∷ [])) (print p) ts
        ∙ append_assoc (print body) (end ∷ []) (print p ++ ts))

mutual
  unfolding print

  print_inj :
      (p q : Program) (ts us : List Command)
      → AllInstr IsPlain p
      → AllInstr IsPlain q
      → IsClosed ts
      → IsClosed us
      → print p ++ ts ≡ print q ++ us
      → (p ≡ q) × (ts ≡ us)
  print_inj nil nil ts us a b h k e = (refl, e)
  print_inj nil (instr c ⨾ q) ts us a b h k e =
      absurd (not_closed c _ ts (plain_not_end c b.0) h (sym e))
  print_inj nil (loop body ⨾ q) ts us a b h k e =
      absurd (not_closed begin _ ts begin_not_end h (sym e))
  print_inj (instr c ⨾ p) nil ts us a b h k e = absurd (not_closed c _ us (plain_not_end c a.0) k e)
  print_inj (loop body ⨾ p) nil ts us a b h k e = absurd (not_closed begin _ us begin_not_end k e)
  print_inj (instr c ⨾ p) (instr c' ⨾ q) ts us a b h k e =
      let c≡c' : c ≡ c' = cc in
      let (p≡q, r) = print_inj p q ts us a.1 b.1 h k (cc) in
      (ap (λ x. instr x ⨾ p) c≡c' ∙ ap (λ x. instr c' ⨾ x) p≡q, r)
  print_inj (instr c ⨾ p) (loop body ⨾ q) ts us a b h k e = absurd (plain_not_begin c a.0 (cc))
  print_inj (loop body ⨾ p) (instr c ⨾ q) ts us a b h k e = absurd (plain_not_begin c b.0 (cc))
  print_inj (loop body ⨾ p) (loop body' ⨾ q) ts us a b h k e =
      let inside = sym (print-loop body p ts) ∙ e ∙ print-loop body' q us in
      let (body≡body', behind) =
        print_inj body body' (end ∷ (print p ++ ts)) (end ∷ (print q ++ us)) a.0 b.0 tt tt (cc) in
      let (p≡q, r) = print_inj p q ts us a.1 b.1 h k (cc) in
      (ap (λ x. loop x ⨾ p) body≡body' ∙ ap (λ x. loop body' ⨾ x) p≡q, r)

-- Two programs without brackets as instructions that print alike are one.
pub print-injective :
    (p q : Program) → AllInstr IsPlain p → AllInstr IsPlain q → print p ≡ print q → p ≡ q
print-injective p q a b e =
    (print_inj p q [] [] a b tt tt (append-nil (print p) ∙ e ∙ sym (append-nil (print q)))).0
