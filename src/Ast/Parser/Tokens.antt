-- ===== src/Ast/Parser/Tokens.antt =====
-- src/ast/parser.rs: the commands in an input, and the scan of its brackets.
use bf_rs.Prelude.{
  ℕ, zero, suc, ◌<◌, ◌≡◌, ◌≢◌, refl, sym, ap, ◌∙◌, List, [], ◌∷◌, length, Option, none, some, true,
  false, Bool-cases, inl, inr, ◌==◌, if◌then◌else◌, ==→eq, arith,
}
use bf_rs.Common.{
  Error, unmatched_begin, unmatched_end, Command, right, left, up, down, in_, out, begin, end,
}
use bf_rs.Tree.{loop}
use bf_rs.Ast.{Program}
use bf_rs.Ast.Parser.{ok, command_of, find_end}

abbrev pub keep : Option Command → List Command → List Command
keep none ts = ts
keep (some c) ts = c ∷ ts

-- The letters of the language, `>` `<` `+` `-` `,` `.` `[` `]`, written apart from the parser.
abbrev pub letter : Command → ℕ
letter right = 62
letter left = 60
letter up = 43
letter down = 45
letter in_ = 44
letter out = 46
letter begin = 91
letter end = 93

abbrev pub first_with : ℕ → List Command → Option Command
first_with c [] = none
first_with c (command ∷ rest) = if c == letter command then some command else first_with c rest

-- The command with this letter. Any other byte is a comment.
abbrev pub meant : ℕ → Option Command
meant c = first_with c (left ∷ right ∷ up ∷ down ∷ in_ ∷ out ∷ end ∷ begin ∷ [])

pub command_of-meant : (c : ℕ) → command_of c ≡ meant c
unfolding command_of
command_of-meant c = refl

-- The commands of an input, in order, without its comments.
abbrev pub tokens : List ℕ → List Command
tokens [] = []
tokens (c ∷ input) = keep (meant c) (tokens input)

-- What is wrong with the brackets, read from the left with the number of them that are open.
abbrev pub balance : ℕ → List Command → Option Error
balance zero [] = none
balance (suc depth) [] = some unmatched_begin
balance depth (begin ∷ ts) = balance (suc depth) ts
balance zero (end ∷ ts) = some unmatched_end
balance (suc depth) (end ∷ ts) = balance depth ts
balance depth (_ ∷ ts) = balance depth ts

not_end : (c : ℕ) → (c == 93) ≡ false → meant c ≢ some end
not_end c h e = ground arith

keep-end :
    (o : Option Command) (ts ts' : List Command)
    → o ≢ some end
    → keep o ts ≡ (end ∷ ts')
    → ts ≡ (end ∷ ts')
keep-end none ts ts' h e = e
keep-end (some end) ts ts' h e = absurd (h refl)
keep-end (some begin) ts ts' h e = absurd (cc)
keep-end (some left) ts ts' h e = absurd (cc)
keep-end (some right) ts ts' h e = absurd (cc)
keep-end (some up) ts ts' h e = absurd (cc)
keep-end (some down) ts ts' h e = absurd (cc)
keep-end (some in_) ts ts' h e = absurd (cc)
keep-end (some out) ts ts' h e = absurd (cc)

is_end : (c : ℕ) → (c == 93) ≡ true → meant c ≡ some end
is_end c h = ap meant (==→eq c 93 h)

-- Where the first command is a `]`, the loop that looks for it finds it.
pub find_end-tokens :
    (program : Program) (input : List ℕ) (ts : List Command)
    → tokens input ≡ (end ∷ ts)
    → (next : List ℕ) × (find_end program input ≡ ok (some (loop program), next))
      × (tokens next ≡ ts)
      × (length next < length input)
unfolding find_end
find_end-tokens program [] ts h = absurd (cc)
find_end-tokens program (c ∷ input) ts h = elim (Bool-cases (c == 93)) [
  | inl e ↦
      let e' : (end ∷ tokens input) ≡ (end ∷ ts) =
        ap (λ o. keep o (tokens input)) (sym (is_end c e)) ∙ h in
      (input, rw e refl, cc, omega arith)
  | inr e ↦
      let (next, found, t, l) =
        find_end-tokens program input ts (keep-end (meant c) (tokens input) ts (not_end c e) h) in
      (next, rw e found, t, omega arith)
]
