-- ===== src/Llvm/Graph/Grows.antt =====
-- src/llvm/wrapper.rs: what a builder adds to a function, and the blocks of a function that is
-- complete.
use bf_rs.Prelude.{
  ℕ, ◌<◌, ◌≤◌, ◌≡◌, ◌≢◌, refl, sym, ap, ◌∙◌, ◌⊎◌, inl, inr, Bool-cases, ==→eq, ◌==◌, List, [], ◌∷◌,
  ◌++◌, append-nil, append_assoc, arith,
}
use bf_rs.Llvm.Ir.{Instr, Blocks, put}
use bf_rs.Llvm.Wrapper.{Builder, insert}
use bf_rs.Llvm.Graph.Data.{put_self, put_ne}

-- Several instructions at the end of the block.
abbrev pub insert_blocks : List Instr → ℕ → Blocks → Blocks
insert_blocks [] l blocks = blocks
insert_blocks (i ∷ rest) l blocks = insert_blocks rest l (put blocks l (blocks l ++ (i ∷ [])))

abbrev pub insert_all : List Instr → Builder → Builder
insert_all is b = record b { blocks = insert_blocks is b.position b.blocks }

-- The builder stands at a block of the function, and a block that was not appended yet is empty.
pub record IsFresh (b : Builder) : Type 0 where
  pub within : b.position < b.count
  pub blank : (j : ℕ) → b.count ≤ j → b.blocks j ≡ []

-- The builder `b` came from `b₀`, and touched no old block but the one at which that stood.
pub record Since (b₀ b : Builder) : Type 0 where
  pub more : b₀.count ≤ b.count
  pub place : (b.position ≡ b₀.position) ⊎ (b₀.count ≤ b.position)
  pub fresh : IsFresh b
  pub prefix : (j : ℕ) → (rest : List Instr) × (b.blocks j ≡ b₀.blocks j ++ rest)
  pub kept : (j : ℕ) → j < b₀.count → j ≢ b₀.position → b.blocks j ≡ b₀.blocks j

pub Since-refl : (b : Builder) → IsFresh b → Since b b
Since-refl b f = record {
  more = omega arith;
  place = inl refl;
  fresh = f;
  prefix = λ j. ([], sym (append-nil (b.blocks j)));
  kept = λ j _ _. refl;
}

insert_prefix :
    (b : Builder) (i : Instr) (j : ℕ)
    → (rest : List Instr) × ((insert i b).blocks j ≡ b.blocks j ++ rest)
insert_prefix b i j = elim (Bool-cases (j == b.position)) [
  | inl e ↦ (i ∷ [], rw e (ap (λ l. b.blocks l ++ (i ∷ [])) (sym (==→eq j b.position e))))
  | inr e ↦ ([], rw e (sym (append-nil (b.blocks j))))
]

insert-IsFresh : (b : Builder) (i : Instr) → IsFresh b → IsFresh (insert i b)
insert-IsFresh b i f = record {
  within = f.within;
  blank = λ j l.
      put_ne b.blocks b.position (b.blocks b.position ++ (i ∷ [])) j
        (λ e. omega (arith, e, f.within))
      ∙ f.blank j l;
}

pub Since-trans : (b₀ b₁ b₂ : Builder) → Since b₀ b₁ → Since b₁ b₂ → Since b₀ b₂
Since-trans b₀ b₁ b₂ s t = record {
  more = omega (arith, s.more, t.more);
  place = elim t.place [
    | inl e ↦ elim s.place [ inl e' ↦ inl (e ∙ e') | inr l ↦ inr (omega (arith, e, l)) ]
    | inr l ↦ inr (omega (arith, s.more, l))
  ];
  fresh = t.fresh;
  prefix = λ j.
      let (rest, e) = s.prefix j in
      let (rest', e') = t.prefix j in
      (rest ++ rest', e' ∙ ap (λ l. l ++ rest') e ∙ append_assoc (b₀.blocks j) rest rest');
  kept = λ j l h.
      let elsewhere : j ≢ b₁.position = elim s.place [
        | inl e ↦ λ x. h (x ∙ e)
        | inr k ↦ λ x. omega (arith, x, k, l)
      ] in
      t.kept j (omega (arith, l, s.more)) elsewhere ∙ s.kept j l h;
}

pub insert_all-Since :
    (is : List Instr) (n : ℕ) (b₀ b : Builder)
    → Since b₀ b
    → Since b₀ (record (insert_all is b) { next = n })
insert_all-Since [] n b₀ b s = record {
  more = s.more;
  place = s.place;
  fresh = record { within = s.fresh.within; blank = s.fresh.blank };
  prefix = s.prefix;
  kept = s.kept;
}
insert_all-Since (i ∷ is) n b₀ b s = insert_all-Since is n b₀ (insert i b) (record {
  more = s.more;
  place = s.place;
  fresh = insert-IsFresh b i s.fresh;
  prefix = λ j.
      let (rest, e) = s.prefix j in
      let (rest', e') = insert_prefix b i j in
      (rest ++ rest', e' ∙ ap (λ l. l ++ rest') e ∙ append_assoc (b₀.blocks j) rest rest');
  kept = λ j l h.
      let elsewhere : j ≢ b.position = elim s.place [
        | inl e ↦ λ x. h (x ∙ e)
        | inr k ↦ λ x. omega (arith, x, k, l)
      ] in
      put_ne b.blocks b.position (b.blocks b.position ++ (i ∷ [])) j elsewhere ∙ s.kept j l h;
})

-- A block that was appended behind the old ones, or the one at which the builder stood.
pub position-Since :
    (l : ℕ) (b₀ b : Builder)
    → b₀.count ≤ l
    → l < b.count
    → Since b₀ b
    → Since b₀ (record b { position = l })
position-Since l b₀ b h k s = record {
  more = s.more;
  place = inr h;
  fresh = record { within = k; blank = s.fresh.blank };
  prefix = s.prefix;
  kept = s.kept;
}

pub append-Since :
    (n : ℕ) (b₀ b : Builder) → b.count ≤ n → Since b₀ b → Since b₀ (record b { count = n })
append-Since n b₀ b h s = record {
  more = omega (arith, s.more);
  place = s.place;
  fresh = record {
    within = omega (arith, s.fresh.within);
    blank = λ j l. s.fresh.blank j (omega arith);
  };
  prefix = s.prefix;
  kept = s.kept;
}

module _ (F : Blocks) where
  -- The complete function begins every block as the builder has it, and `code` is what comes at the
  -- place at which the builder stands.
  abbrev pub Extends : Builder → Type 0
  Extends b = (j : ℕ) → (rest : List Instr) × (F j ≡ b.blocks j ++ rest)

  abbrev pub Tail : Builder → List Instr → Type 0
  Tail b code = F b.position ≡ b.blocks b.position ++ code

  pub Extends-Since : (b₀ b : Builder) → Since b₀ b → Extends b → Extends b₀
  Extends-Since b₀ b s e j =
      let (rest, e₁) = s.prefix j in
      let (rest', e₂) = e j in
      (rest ++ rest', e₂ ∙ ap (λ l. l ++ rest') e₁ ∙ append_assoc (b₀.blocks j) rest rest')

  pub insert_all-Extends : (is : List Instr) (b : Builder) → Extends (insert_all is b) → Extends b
  insert_all-Extends [] b e j = e j
  insert_all-Extends (i ∷ is) b e j =
      let (rest, e₁) = insert_prefix b i j in
      let (rest', e₂) = insert_all-Extends is (insert i b) e j in
      (rest ++ rest', e₂ ∙ ap (λ l. l ++ rest') e₁ ∙ append_assoc (b.blocks j) rest rest')

  pub insert_all-Tail :
      (is : List Instr) (b : Builder) (code : List Instr)
      → Tail (insert_all is b) code
      → Tail b (is ++ code)
  insert_all-Tail [] b code t = t
  insert_all-Tail (i ∷ is) b code t =
      insert_all-Tail is (insert i b) code t
      ∙ ap (λ l. l ++ (is ++ code)) (put_self b.blocks b.position (b.blocks b.position ++ (i ∷ [])))
      ∙ append_assoc (b.blocks b.position) (i ∷ []) (is ++ code)

  -- A block that the builder left after these instructions.
  pub left-Tail :
      (is : List Instr) (b : Builder)
      → Extends (insert_all is b)
      → (rest : List Instr) × Tail b (is ++ rest)
  left-Tail is b e = let (rest, t) = e b.position in (rest, insert_all-Tail is b rest t)

  -- A block that was empty when the builder came to it.
  pub blank-Tail :
      (b : Builder) (code : List Instr)
      → b.blocks b.position ≡ []
      → Tail b code
      → F b.position ≡ code
  blank-Tail b code e t = t ∙ ap (λ l. l ++ code) e
