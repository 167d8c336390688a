-- ===== src/State/Valid.antt =====
-- src/state.rs: the states that the interpreters meet.
use bf_rs.Prelude.{
  [], ◌∷◌, ◌++◌, List, refl, ℕ, zero, ◌+◌, ◌-◌, ◌%◌, ◌^◌, ◌≤◌, ◌<◌, ◌≡◌, ◌⊎◌, inl, inr, some,
  length, get_elem?, set, All, length-set, length-replicate, get_elem?_of_lt, All-set,
  All-replicate, All-get_elem?, lt→ltb, ge→ltb, le→leb, gt→leb, arith,
}
use native.Mathlib.Decide.{dec_le, dec_lt}
use bf_rs.Common.{Result, ok, err, panic, pointer_underflow, pointer_overflow}
use bf_rs.State.{
  read, write, State, usize_mod, byte_mod, with_capacity, pos_offset, neg_offset, left, right,
  modify, up, down, load, store, up_pos_offset, up_neg_offset, wrapping_add, wrapping_sub,
}

-- The largest allocation that Rust makes, which bounds every slice.
abbrev pub isize_max : ℕ
isize_max = 2 ^ 63 - 1

abbrev pub IsByte : ℕ → Type 0
IsByte b = b < byte_mod

pub record IsValid (s : State) : Type 0 where
  pub inside : s.pointer < length s.memory
  pub allocated : length s.memory ≤ isize_max
  pub bytes : All IsByte s.memory

-- `P` holds of a value; an error is allowed, a panic is not.
abbrev pub Returns {ℓ} : {A : Type ℓ} → (A → Type 0) → Result A → Type 0
Returns P (ok a) = P a
Returns P (err e) = Unit
Returns P panic = ⊥

pub with_capacity-IsValid : (n : ℕ) → 0 < n → n ≤ isize_max → IsValid (with_capacity n)
unfolding with_capacity
with_capacity-IsValid n h k = record {
  inside = omega (arith, length-replicate {0} n zero);
  allocated = omega (arith, length-replicate {0} n zero);
  bytes = All-replicate IsByte n 0 (omega arith);
}

pub modify_of_get_elem? :
    (f : ℕ → ℕ) (address b : ℕ) (s : State)
    → get_elem? s.memory address ≡ some b
    → modify f address s ≡ ok (record s { memory = set s.memory address (f b) })
unfolding modify
modify_of_get_elem? f address b s e = rw e

module _ (s : State) (v : IsValid s) where
  -- The byte under the pointer.
  pub load_valid : (b : ℕ) × (get_elem? s.memory s.pointer ≡ some b) × (load s ≡ ok b) × IsByte b
  unfolding load
  load_valid =
      let (b, e) = get_elem?_of_lt s.memory s.pointer v.inside in
      (b, e, rw e, All-get_elem? IsByte s.memory s.pointer b v.bytes e)

  pub IsValid-set :
      (address b : ℕ) → IsByte b → IsValid (record s { memory = set s.memory address b })
  IsValid-set address b h = record {
    inside = rw length-set v.inside;
    allocated = rw length-set v.allocated;
    bytes = All-set IsByte s.memory address b v.bytes h;
  }

  modify-Returns :
      (f : ℕ → ℕ) (address : ℕ)
      → address < length s.memory
      → ((b : ℕ) → IsByte b → IsByte (f b))
      → Returns IsValid (modify f address s)
  modify-Returns f address h k =
      let (b, e) = get_elem?_of_lt s.memory address h in
      rw (modify_of_get_elem? f address b s e)
        (IsValid-set address (f b) (k b (All-get_elem? IsByte s.memory address b v.bytes e)))

  pub up-Returns : (count : ℕ) → Returns IsValid (up count s)
  unfolding up
  up-Returns count = modify-Returns (wrapping_add count) s.pointer v.inside (λ b h. omega arith)

  pub down-Returns : (count : ℕ) → Returns IsValid (down count s)
  unfolding down
  down-Returns count = modify-Returns (wrapping_sub count) s.pointer v.inside (λ b h. omega arith)

  pub store-Returns : (value : ℕ) → IsByte value → Returns IsValid (store value s)
  unfolding store
  store-Returns value h = modify-Returns (λ _. value) s.pointer v.inside (λ b _. h)

  pub neg_offset-cases :
      (offset : ℕ)
      → ((offset ≤ s.pointer) × (neg_offset offset s ≡ ok (s.pointer - offset)))
        ⊎ ((s.pointer < offset) × (neg_offset offset s ≡ err pointer_underflow))
  unfolding neg_offset
  neg_offset-cases offset = elim (dec_le offset s.pointer) [
    | yes h ↦ inl (h, rw (le→leb offset s.pointer h))
    | no h ↦ inr (omega arith, rw (gt→leb offset s.pointer (omega arith)))
  ]

  pub pos_offset-cases :
      (offset : ℕ)
      → (((s.pointer + offset) % usize_mod < length s.memory)
          × (pos_offset offset s ≡ ok ((s.pointer + offset) % usize_mod)))
        ⊎ ((length s.memory ≤ (s.pointer + offset) % usize_mod)
            × (pos_offset offset s ≡ err pointer_overflow))
  unfolding pos_offset
  pos_offset-cases offset = elim (dec_lt ((s.pointer + offset) % usize_mod) (length s.memory)) [
    | yes h ↦ inl (h, rw (lt→ltb ((s.pointer + offset) % usize_mod) (length s.memory) h))
    | no h ↦ inr (
      omega arith,
      rw (ge→ltb ((s.pointer + offset) % usize_mod) (length s.memory) (omega arith)),
    )
  ]

  pub left-Returns : (count : ℕ) → Returns IsValid (left count s)
  unfolding left
  left-Returns count = elim (neg_offset-cases count) [
    | inl (h, e) ↦
        rw (left, e)
          (record { inside = omega (arith, v.inside); allocated = v.allocated; bytes = v.bytes })
    | inr (h, e) ↦ rw (left, e) tt
  ]

  pub right-Returns : (count : ℕ) → Returns IsValid (right count s)
  unfolding right
  right-Returns count = elim (pos_offset-cases count) [
    | inl (h, e) ↦ rw (right, e) (record { inside = h; allocated = v.allocated; bytes = v.bytes })
    | inr (h, e) ↦ rw (right, e) tt
  ]

  pub up_pos_offset-Returns : (offset value : ℕ) → Returns IsValid (up_pos_offset offset value s)
  unfolding up_pos_offset
  up_pos_offset-Returns offset value = elim (pos_offset-cases offset) [
    | inl (h, e) ↦
        rw (up_pos_offset, e)
          (modify-Returns (wrapping_add value) ((s.pointer + offset) % usize_mod) h
            (λ b _. omega arith))
    | inr (h, e) ↦ rw (up_pos_offset, e) tt
  ]

  pub up_neg_offset-Returns : (offset value : ℕ) → Returns IsValid (up_neg_offset offset value s)
  unfolding up_neg_offset
  up_neg_offset-Returns offset value = elim (neg_offset-cases offset) [
    | inl (h, e) ↦
        rw (up_neg_offset, e)
          (modify-Returns (wrapping_add value) (s.pointer - offset) (omega (arith, v.inside))
            (λ b _. omega arith))
    | inr (h, e) ↦ rw (up_neg_offset, e) tt
  ]

  -- A byte that is read goes to the cell under the pointer.
  pub read-Returns :
      (input : List ℕ)
      → All IsByte input
      → Returns (λ r. IsValid r.0 × All IsByte r.1) (read input s)
  unfolding read
  read-Returns [] h =
      let (b, e, _, _) = load_valid in rw e (IsValid-set s.pointer 0 (omega arith), tt)
  read-Returns (c ∷ rest) h =
      let (b, e, _, _) = load_valid in rw e (IsValid-set s.pointer c h.0, h.1)

  pub write-Returns :
      (output : List ℕ)
      → Returns (λ w. (b : ℕ) × IsByte b × (w ≡ output ++ (b ∷ []))) (write output s)
  unfolding write
  write-Returns output = let (b, e, _, h) = load_valid in rw e (b, h, refl)
