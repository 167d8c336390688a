-- ===== src/Jit/Checks.antt =====
-- src/jit/compiler.rs: the checks that are emitted, and the moves of src/state.rs.
use bf_rs.Prelude.{
  ℕ, ◌+◌, ◌-◌, ◌%◌, ◌^◌, ◌≤◌, ◌<◌, ◌≡◌, refl, ap, Bool, true, false, ◌&&◌, ◌⊎◌, inl, inr, leb, ltb,
  length, length-set, if◌then◌else◌, le→leb, gt→leb, lt→ltb, ge→ltb, arith,
}
use native.Mathlib.Decide.{dec_le, dec_lt}
use bf_rs.Common.{ok, err, pointer_overflow, pointer_underflow}
use bf_rs.State
use bf_rs.State.{
  State, usize_mod, load, store, modify, wrapping_add, pos_offset, neg_offset, up_pos_offset,
  up_neg_offset,
}
use bf_rs.State.Valid.{IsValid, isize_max, pos_offset-cases, neg_offset-cases}
use bf_rs.State.Clear.{cleared, store-cleared, cleared-IsValid}
use bf_rs.Peephole.Interpreter.{move_right, move_left}
use bf_rs.Jit.Constant.{usize, load_constant, load_constant-count}
use bf_rs.Jit.Code.{
  signed, load_pos_offset, load_neg_offset, go_right, go_left, transfer_right, transfer_left,
}

if_passes {ℓ} :
    {A : Type ℓ} (x : A) {y : A} (a b : Bool) → b ≡ false → (if a && b then x else y) ≡ y
if_passes x true b h = rw h refl
if_passes x false b h = refl

if_refuses {ℓ} :
    {A : Type ℓ} {x : A} (y : A) (a b : Bool) → a ≡ true → b ≡ true → (if a && b then x else y) ≡ x
if_refuses y a b h k = rw (h, k) refl

must : {A B : Type 0} → A ⊎ B → (B → ⊥) → A
must (inl a) h = a
must (inr b) h = absurd (h b)

-- A register holds every offset that a slice can have.
loaded : (n : ℕ) → n ≤ isize_max → load_constant usize n ≡ n
loaded n h = (load_constant-count usize n (omega arith)).1 (omega arith)

load_pos_offset_lem :
    (n : ℕ) (check : Bool) (s : State)
    → n ≤ isize_max
    → load_pos_offset n check s ≡ (
        if check
          && leb
              (signed ((length s.memory + (usize_mod - s.pointer % usize_mod)) % usize_mod))
              (signed n)
        then err pointer_overflow
        else ok n)
unfolding load_pos_offset
load_pos_offset_lem n check s h =
    ap
      (λ r.
        if check
          && leb (signed ((length s.memory + (usize_mod - s.pointer % usize_mod)) % usize_mod))
              (signed r)
        then err pointer_overflow
        else ok r)
      (loaded n h)

load_neg_offset_lem :
    (n : ℕ) (check : Bool) (s : State)
    → n ≤ isize_max
    → load_neg_offset n check s
      ≡ (if check && ltb (signed s.pointer) (signed n) then err pointer_underflow else ok n)
unfolding load_neg_offset
load_neg_offset_lem n check s h =
    ap (λ r. if check && ltb (signed s.pointer) (signed r) then err pointer_underflow else ok r)
      (loaded n h)

module _ (n : ℕ) (check : Bool) (s : State) (v : IsValid s) (h : n ≤ isize_max) where
  load_pos_offset-cases :
      (check ≡ true) ⊎ (s.pointer + n < length s.memory)
      → ((s.pointer + n < length s.memory) × (load_pos_offset n check s ≡ ok n))
        ⊎ ((length s.memory ≤ s.pointer + n) × (load_pos_offset n check s ≡ err pointer_overflow))
  load_pos_offset-cases c = rw (load_pos_offset_lem n check s h) (
      let rcx = (length s.memory + (usize_mod - s.pointer % usize_mod)) % usize_mod in
      let left_over : signed rcx ≡ length s.memory - s.pointer + 2 ^ 63 =
        omega (arith, v.inside, v.allocated) in
      let wanted : signed n ≡ n + 2 ^ 63 = omega arith in
      elim (dec_lt (s.pointer + n) (length s.memory)) [
        | yes l ↦ inl (
          l,
          if_passes (err pointer_overflow) check (leb (signed rcx) (signed n))
              (gt→leb (signed rcx) (signed n) (omega arith)),
        )
        | no l ↦ inr (
          omega arith,
          if_refuses (ok n) check (leb (signed rcx) (signed n)) (must c l)
              (le→leb (signed rcx) (signed n) (omega (arith, v.inside))),
        )
      ])

  load_neg_offset-cases :
      (check ≡ true) ⊎ (n ≤ s.pointer)
      → ((n ≤ s.pointer) × (load_neg_offset n check s ≡ ok n))
        ⊎ ((s.pointer < n) × (load_neg_offset n check s ≡ err pointer_underflow))
  load_neg_offset-cases c = rw (load_neg_offset_lem n check s h) (
      let here : signed s.pointer ≡ s.pointer + 2 ^ 63 = omega (arith, v.inside, v.allocated) in
      let wanted : signed n ≡ n + 2 ^ 63 = omega arith in
      elim (dec_le n s.pointer) [
        | yes l ↦ inl (
          l,
          if_passes (err pointer_underflow) check (ltb (signed s.pointer) (signed n))
              (ge→ltb (signed s.pointer) (signed n) (omega arith)),
        )
        | no l ↦ inr (
          omega arith,
          if_refuses (ok n) check (ltb (signed s.pointer) (signed n)) (must c l)
              (lt→ltb (signed s.pointer) (signed n) (omega arith)),
        )
      ])

  pub go_right-right :
      (check ≡ true) ⊎ (s.pointer + n < length s.memory) → go_right n check s ≡ State.right n s
  unfolding go_right State.right
  go_right-right c = elim (load_pos_offset-cases c) [
    | inl (l, e) ↦ elim (pos_offset-cases s v n) [
      | inl (l', e') ↦ rw (go_right, e, e') refl
      | inr (l', e') ↦ absurd (omega (arith, v.allocated))
    ]
    | inr (l, e) ↦ elim (pos_offset-cases s v n) [
      | inl (l', e') ↦ absurd (omega (arith, v.allocated, v.inside))
      | inr (l', e') ↦ rw (go_right, e, e') refl
    ]
  ]

  pub go_left-left : (check ≡ true) ⊎ (n ≤ s.pointer) → go_left n check s ≡ State.left n s
  unfolding go_left State.left
  go_left-left c = elim (load_neg_offset-cases c) [
    | inl (l, e) ↦ elim (neg_offset-cases s v n) [
      | inl (l', e') ↦
          rw (go_left, e, e')
            (ap (λ p. ok (record s { pointer = p })) (omega (arith, v.inside, v.allocated)))
      | inr (l', e') ↦ absurd (omega arith)
    ]
    | inr (l, e) ↦ elim (neg_offset-cases s v n) [
      | inl (l', e') ↦ absurd (omega arith)
      | inr (l', e') ↦ rw (go_left, e, e') refl
    ]
  ]

  module _ (value : ℕ) (e : load s ≡ ok value) where
    pub transfer_right-move_right :
        (check ≡ true) ⊎ (s.pointer + n < length s.memory)
        → transfer_right n check s ≡ move_right n value s
    unfolding transfer_right move_right up_pos_offset
    transfer_right-move_right c =
        let same : length (cleared s).memory ≡ length s.memory = length-set s.memory s.pointer 0 in
        elim (load_pos_offset-cases c) [
          | inl (l, e₁) ↦ elim (pos_offset-cases (cleared s) (cleared-IsValid s v) n) [
            | inl (l', e₂) ↦ rw (e₁, e, store-cleared s v, e₂) refl
            | inr (l', e₂) ↦ absurd (omega (arith, v.allocated))
          ]
          | inr (l, e₁) ↦ elim (pos_offset-cases (cleared s) (cleared-IsValid s v) n) [
            | inl (l', e₂) ↦ absurd (omega (arith, v.allocated, v.inside))
            | inr (l', e₂) ↦ rw (e₁, store-cleared s v, e₂) refl
          ]
        ]

    pub transfer_left-move_left :
        (check ≡ true) ⊎ (n ≤ s.pointer) → transfer_left n check s ≡ move_left n value s
    unfolding transfer_left move_left up_neg_offset
    transfer_left-move_left c = elim (load_neg_offset-cases c) [
      | inl (l, e₁) ↦ elim (neg_offset-cases (cleared s) (cleared-IsValid s v) n) [
        | inl (l', e₂) ↦
            rw (e₁, e, store-cleared s v, e₂)
              (ap (λ a. modify (wrapping_add value) a (cleared s))
                (omega (arith, v.inside, v.allocated)))
        | inr (l', e₂) ↦ absurd (omega arith)
      ]
      | inr (l, e₁) ↦ elim (neg_offset-cases (cleared s) (cleared-IsValid s v) n) [
        | inl (l', e₂) ↦ absurd (omega arith)
        | inr (l', e₂) ↦ rw (e₁, store-cleared s v, e₂) refl
      ]
    ]
