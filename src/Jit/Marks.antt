-- ===== src/Jit/Marks.antt =====
-- src/jit/analysis.rs: the marks and the pointer.
use bf_rs.Prelude.{
  ℕ, ◌+◌, ◌-◌, ◌≤◌, ◌<◌, ◌≡◌, refl, sym, subst, true, Bool-cases, not, inl, inr, ◌⊎◌, leb, leb→le,
  length, arith,
}
use bf_rs.State.{State}
use bf_rs.State.Valid.{IsValid}
use bf_rs.Jit.LoopBalance.{LoopBalance, is_balanced, is_right_only, is_left_only}
use bf_rs.Jit.Analysis.{
  AbstractInterpreter, move_left, move_right, check_left, check_right, reset_left, reset_right,
  forget,
}
use bf_rs.Jit.Balance.{Repeats}

-- The pointer has the marks' room on both sides.
pub record HasRoom (a : AbstractInterpreter) (s : State) : Type 0 where
  pub low : a.left_mark ≤ s.pointer
  pub high : s.pointer + a.right_mark < length s.memory

-- The two states of a move, both valid and of one size.
pub record IsMove (s s' : State) : Type 0 where
  pub before : IsValid s
  pub after : IsValid s'
  pub size : length s'.memory ≡ length s.memory

module _ (a : AbstractInterpreter) (s s' : State) (r : HasRoom a s) (v : IsMove s s') where
  pub move_right-HasRoom : (n : ℕ) → s'.pointer ≡ s.pointer + n → HasRoom (move_right n a).1 s'
  unfolding move_right
  move_right-HasRoom n e = elim (Bool-cases (leb n a.right_mark)) [
    | inl x ↦
        let l = leb→le n a.right_mark x in
        rw x (record {
          low = omega (
            arith, r.low, r.high, v.size, v.before.allocated, v.before.inside, v.after.inside,
            v.after.allocated,
          );
          high = omega (
            arith, r.low, r.high, v.size, v.before.allocated, v.before.inside, v.after.inside,
            v.after.allocated,
          );
        })
    | inr x ↦ rw x (record {
      low = omega (
        arith, r.low, r.high, v.size, v.before.allocated, v.before.inside, v.after.inside,
        v.after.allocated,
      );
      high = omega (
        arith, r.low, r.high, v.size, v.before.allocated, v.before.inside, v.after.inside,
        v.after.allocated,
      );
    })
  ]

  pub move_left-HasRoom :
      (n : ℕ) → n ≤ s.pointer → s'.pointer ≡ s.pointer - n → HasRoom (move_left n a).1 s'
  unfolding move_left
  move_left-HasRoom n h e = elim (Bool-cases (leb n a.left_mark)) [
    | inl x ↦
        let l = leb→le n a.left_mark x in
        rw x (record {
          low = omega (
            arith, r.low, r.high, v.size, v.before.allocated, v.before.inside, v.after.inside,
            v.after.allocated,
          );
          high = omega (
            arith, r.low, r.high, v.size, v.before.allocated, v.before.inside, v.after.inside,
            v.after.allocated,
          );
        })
    | inr x ↦ rw x (record {
      low = omega (
        arith, r.low, r.high, v.size, v.before.allocated, v.before.inside, v.after.inside,
        v.after.allocated,
      );
      high = omega (
        arith, r.low, r.high, v.size, v.before.allocated, v.before.inside, v.after.inside,
        v.after.allocated,
      );
    })
  ]

  pub reset_right-HasRoom : s.pointer ≤ s'.pointer → HasRoom (reset_right a) s'
  unfolding reset_right
  reset_right-HasRoom e = record {
    low = omega (arith, r.low);
    high = omega (arith, v.after.inside);
  }

  pub reset_left-HasRoom : s'.pointer ≤ s.pointer → HasRoom (reset_left a) s'
  unfolding reset_left
  reset_left-HasRoom e = record { low = omega arith; high = omega (arith, r.high, v.size) }

  pub HasRoom-stay : s'.pointer ≡ s.pointer → HasRoom a s'
  HasRoom-stay e = record { low = omega (arith, r.low); high = omega (arith, r.high, v.size) }

pub loop_stack-move_right :
    (n : ℕ) (a : AbstractInterpreter) → (move_right n a).1.loop_stack ≡ a.loop_stack
unfolding move_right
loop_stack-move_right n a = elim (Bool-cases (leb n a.right_mark)) [
  | inl x ↦ rw x refl
  | inr x ↦ rw x refl
]

pub loop_stack-move_left :
    (n : ℕ) (a : AbstractInterpreter) → (move_left n a).1.loop_stack ≡ a.loop_stack
unfolding move_left
loop_stack-move_left n a = elim (Bool-cases (leb n a.left_mark)) [
  | inl x ↦ rw x refl
  | inr x ↦ rw x refl
]

pub loop_stack-forget :
    (b : LoopBalance) (a : AbstractInterpreter) → (forget b a).loop_stack ≡ a.loop_stack
unfolding forget reset_left reset_right
loop_stack-forget b a = elim (Bool-cases (is_balanced b)) [
  | inl x ↦ rw x refl
  | inr x ↦ rw x (elim (Bool-cases (is_right_only b)) [
    | inl y ↦ rw y refl
    | inr y ↦ rw y (elim (Bool-cases (is_left_only b)) [ inl z ↦ rw z refl | inr z ↦ rw z refl ])
  ])
]

-- What is proved fits.
pub move_right-proved :
    (n : ℕ) (a : AbstractInterpreter) (s : State)
    → HasRoom a s
    → (not (move_right n a).0 ≡ true) ⊎ (s.pointer + n < length s.memory)
unfolding move_right
move_right-proved n a s r = elim (Bool-cases (leb n a.right_mark)) [
  | inl x ↦ let l = leb→le n a.right_mark x in inr (omega (arith, r.high))
  | inr x ↦ inl (rw x refl)
]

pub move_left-proved :
    (n : ℕ) (a : AbstractInterpreter) (s : State)
    → HasRoom a s
    → (not (move_left n a).0 ≡ true) ⊎ (n ≤ s.pointer)
unfolding move_left
move_left-proved n a s r = elim (Bool-cases (leb n a.left_mark)) [
  | inl x ↦ let l = leb→le n a.left_mark x in inr (omega (arith, r.low))
  | inr x ↦ inl (rw x refl)
]

pub check_right-proved :
    (n : ℕ) (a : AbstractInterpreter) (s : State)
    → HasRoom a s
    → (not (check_right n a) ≡ true) ⊎ (s.pointer + n < length s.memory)
unfolding check_right
check_right-proved n a s r = elim (Bool-cases (leb n a.right_mark)) [
  | inl x ↦ let l = leb→le n a.right_mark x in inr (omega (arith, r.high))
  | inr x ↦ inl (rw x refl)
]

pub check_left-proved :
    (n : ℕ) (a : AbstractInterpreter) (s : State)
    → HasRoom a s
    → (not (check_left n a) ≡ true) ⊎ (n ≤ s.pointer)
unfolding check_left
check_left-proved n a s r = elim (Bool-cases (leb n a.left_mark)) [
  | inl x ↦ let l = leb→le n a.left_mark x in inr (omega (arith, r.low))
  | inr x ↦ inl (rw x refl)
]

-- Less is known behind `forget`.
pub HasRoom-forget :
    (b : LoopBalance) (a : AbstractInterpreter) (s : State)
    → IsValid s
    → HasRoom a s
    → HasRoom (forget b a) s
unfolding forget reset_left reset_right
HasRoom-forget b a s v r = elim (Bool-cases (is_balanced b)) [
  | inl x ↦ rw x r
  | inr x ↦ rw x (elim (Bool-cases (is_right_only b)) [
    | inl y ↦ rw y (record { low = r.low; high = omega (arith, v.inside) })
    | inr y ↦ rw y (elim (Bool-cases (is_left_only b)) [
      | inl z ↦ rw z (record { low = omega arith; high = r.high })
      | inr z ↦ rw z (record { low = omega arith; high = omega (arith, v.inside) })
    ])
  ])
]

-- And it stays known over the rounds of a loop with that balance.
pub forget-Repeats :
    (b : LoopBalance) (a : AbstractInterpreter) (s s' : State)
    → HasRoom (forget b a) s
    → IsMove s s'
    → Repeats b s.pointer s'.pointer
    → HasRoom (forget b a) s'
unfolding forget reset_left reset_right
forget-Repeats b a s s' r v p = elim (Bool-cases (is_balanced b)) [
  | inl x ↦ HasRoom-stay (forget b a) s s' r v (p.balanced x)
  | inr x ↦ elim (Bool-cases (is_right_only b)) [
    | inl y ↦
        let e : forget b a ≡ reset_right a = rw (x, y) refl in
        let r' : HasRoom (reset_right a) s = subst (λ t. HasRoom t s) e r in
        subst (λ t. HasRoom t s') (sym e)
          (reset_right-HasRoom (reset_right a) s s' r' v (p.rightwards y))
    | inr y ↦ elim (Bool-cases (is_left_only b)) [
      | inl z ↦
          let e : forget b a ≡ reset_left a = rw (x, y, z) refl in
          let r' : HasRoom (reset_left a) s = subst (λ t. HasRoom t s) e r in
          subst (λ t. HasRoom t s') (sym e)
            (reset_left-HasRoom (reset_left a) s s' r' v (p.leftwards z))
      | inr z ↦ rw (x, y, z) (record { low = omega arith; high = omega (arith, v.after.inside) })
    ]
  ]
]
