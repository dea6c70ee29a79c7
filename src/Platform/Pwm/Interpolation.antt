-- ===== src/Platform/Pwm/Interpolation.antt =====
-- The interpolation of app-nrf/src/platform/pwm.c, by the laws of its floats.
use mathlib.Core.Path.{subst}
use mymouse.Base.{
  ℕ, ◌+◌, ◌-◌, ◌^◌, ◌≤◌, ◌<◌, ◌≡◌, inl, inr, min, max, arith, ap, ◌∙◌, ltb, Bool-cases,
}
use mymouse.Base.Int.{ℤ, pos, negsuc, ◌-ℤ◌, ◌+ℤ◌, pos_part, neg_part}
use mymouse.Platform.Pwm.{Float, step_value}

-- An integer that a float holds exactly.
abbrev pub IsExact : ℤ → Type 0
IsExact a = pos_part a + neg_part a < 2 ^ 24

module _ (float : Float) where
  open float use {F, of_int, div, mul, add, to_uint16, Le}

  -- What IEEE 754 says of these operations: they round to a number next to the result, so they keep
  -- the order, and they are exact where the result is an integer of at most 24 bits. Conversion to
  -- an integer cuts off the fraction.
  pub record IsIeee : Type 0 where
    pub le_refl : (x : F) → Le x x
    pub le_trans : (x y z : F) → Le x y → Le y z → Le x z
    pub zero_div :
        (n : ℕ)
        → 0 < n
        → IsExact (pos n)
        → Le (div (of_int (pos 0)) (of_int (pos n))) (of_int (pos 0))
    pub div_nonneg :
        (i n : ℕ)
        → 0 < n
        → IsExact (pos i)
        → IsExact (pos n)
        → Le (of_int (pos 0)) (div (of_int (pos i)) (of_int (pos n)))
    pub div_le_one :
        (i n : ℕ)
        → i ≤ n
        → 0 < n
        → IsExact (pos n)
        → Le (div (of_int (pos i)) (of_int (pos n))) (of_int (pos 1))
    pub div_self :
        (n : ℕ)
        → 0 < n
        → IsExact (pos n)
        → Le (of_int (pos 1)) (div (of_int (pos n)) (of_int (pos n)))
    pub zero_mul :
        (a : ℤ)
        → IsExact a
        → Le (mul (of_int (pos 0)) (of_int a)) (of_int (pos 0))
          × Le (of_int (pos 0)) (mul (of_int (pos 0)) (of_int a))
    pub one_mul :
        (a : ℤ)
        → IsExact a
        → Le (mul (of_int (pos 1)) (of_int a)) (of_int a)
          × Le (of_int a) (mul (of_int (pos 1)) (of_int a))
    pub mul_le_mul :
        (x y : F) (n : ℕ)
        → Le x y
        → IsExact (pos n)
        → Le (mul x (of_int (pos n))) (mul y (of_int (pos n)))
    pub mul_le_mul_neg :
        (x y : F) (n : ℕ)
        → Le x y
        → IsExact (negsuc n)
        → Le (mul y (of_int (negsuc n))) (mul x (of_int (negsuc n)))
    pub add_le_add : (x y z : F) → Le x y → Le (add z x) (add z y)
    pub add_exact :
        (a b : ℤ)
        → IsExact a
        → IsExact b
        → IsExact (a +ℤ b)
        → add (of_int a) (of_int b) ≡ of_int (a +ℤ b)
    pub to_uint16_between :
        (x : F) (a b : ℕ)
        → b < 2 ^ 16
        → Le (of_int (pos a)) x
        → Le x (of_int (pos b))
        → (a ≤ to_uint16 x) × (to_uint16 x ≤ b)

module _ (float : Float) (ieee : IsIeee float) where
  open float use {F, of_int, div, mul, add, to_uint16, Le}
  open ieee use {
    le_refl, le_trans, zero_div, div_nonneg, div_le_one, div_self, zero_mul, one_mul, mul_le_mul,
    mul_le_mul_neg, add_le_add, add_exact, to_uint16_between,
  }

  -- The number between `a` and `b` at the part `k` of the way.
  abbrev at : ℕ → ℕ → F → F
  at a b k = add (of_int (pos a)) (mul k (of_int (pos b -ℤ pos a)))

  delta-IsExact : (a b : ℕ) → a < 2 ^ 16 → b < 2 ^ 16 → IsExact (pos b -ℤ pos a)
  unfolding ◌-ℤ◌
  delta-IsExact a b h l = ground (arith, h, l)

  delta_up : (a b : ℕ) → a ≤ b → pos b -ℤ pos a ≡ pos (b - a)
  unfolding ◌-ℤ◌
  delta_up a b h = ground (arith, h)

  delta_down : (a b : ℕ) → b < a → pos b -ℤ pos a ≡ negsuc (a - b - 1)
  unfolding ◌-ℤ◌
  delta_down a b h = ground (arith, h)

  from_delta : (a b : ℕ) → pos a +ℤ (pos b -ℤ pos a) ≡ pos b
  unfolding ◌-ℤ◌ ◌+ℤ◌
  from_delta a b = ground arith

  from_zero : (a : ℕ) → pos a +ℤ pos 0 ≡ pos a
  unfolding ◌+ℤ◌
  from_zero a = ground arith

  add_zero : (a : ℕ) → a < 2 ^ 16 → add (of_int (pos a)) (of_int (pos 0)) ≡ of_int (pos a)
  add_zero a h =
      add_exact (pos a) (pos 0) (omega arith) (omega arith) (rw (from_zero a) (omega arith))
      ∙ ap (λ (z : ℤ). of_int z) (from_zero a)

  add_delta :
      (a b : ℕ)
      → a < 2 ^ 16
      → b < 2 ^ 16
      → add (of_int (pos a)) (of_int (pos b -ℤ pos a)) ≡ of_int (pos b)
  add_delta a b h l =
      add_exact (pos a) (pos b -ℤ pos a) (omega arith) (delta-IsExact a b h l)
        (rw (from_delta a b) (omega arith))
      ∙ ap (λ (z : ℤ). of_int z) (from_delta a b)

  at_zero :
      (a b : ℕ)
      → a < 2 ^ 16
      → b < 2 ^ 16
      → Le (at a b (of_int (pos 0))) (of_int (pos a))
        × Le (of_int (pos a)) (at a b (of_int (pos 0)))
  at_zero a b h l =
      let (low, high) = zero_mul (pos b -ℤ pos a) (delta-IsExact a b h l) in
      let start = of_int (pos a) in
      (
        subst (λ (y : F). Le (at a b (of_int (pos 0))) y) (add_zero a h) (add_le_add _ _ start low),
        subst (λ (y : F). Le y (at a b (of_int (pos 0)))) (add_zero a h)
            (add_le_add _ _ start high),
      )

  at_one :
      (a b : ℕ)
      → a < 2 ^ 16
      → b < 2 ^ 16
      → Le (at a b (of_int (pos 1))) (of_int (pos b))
        × Le (of_int (pos b)) (at a b (of_int (pos 1)))
  at_one a b h l =
      let (low, high) = one_mul (pos b -ℤ pos a) (delta-IsExact a b h l) in
      let start = of_int (pos a) in
      (
        subst (λ (y : F). Le (at a b (of_int (pos 1))) y) (add_delta a b h l)
            (add_le_add _ _ start low),
        subst (λ (y : F). Le y (at a b (of_int (pos 1)))) (add_delta a b h l)
            (add_le_add _ _ start high),
      )

  module _ (a b : ℕ) (h : a < 2 ^ 16) (l : b < 2 ^ 16) where
    up : (x y : F) → a ≤ b → Le x y → Le (at a b x) (at a b y)
    up x y q r =
        add_le_add _ _ (of_int (pos a))
          (rw (delta_up a b q) (mul_le_mul x y (b - a) r (omega (arith, l))))

    down : (x y : F) → b < a → Le x y → Le (at a b y) (at a b x)
    down x y q r =
        add_le_add _ _ (of_int (pos a))
          (rw (delta_down a b q) (mul_le_mul_neg x y (a - b - 1) r (omega (arith, h))))

    -- The part of the way at step `i`.
    abbrev part : ℕ → F
    part i = div (of_int (pos i)) (of_int (pos 29))

    part_bounds : (i : ℕ) → i < 30 → Le (of_int (pos 0)) (part i) × Le (part i) (of_int (pos 1))
    part_bounds i q = (
      div_nonneg i 29 (omega arith) (omega (arith, q)) (omega arith),
      div_le_one i 29 (omega (arith, q)) (omega arith) (omega arith),
    )

    -- Below, as in `between`, the value of the step is the conversion of `at a b (part i)`.
    abbrev value : ℕ → ℕ
    value i = to_uint16 (at a b (part i))

    value_between : (i : ℕ) → i < 30 → (min a b ≤ value i) × (value i ≤ max a b)
    value_between i q =
        let (low, high) = part_bounds i q in
        let (zero_low, zero_high) = at_zero a b h l in
        let (one_low, one_high) = at_one a b h l in
        elim (Bool-cases (ltb b a)) [
          | inl e ↦
              let less : b < a = ground (arith, e) in
              let (from, to) =
                to_uint16_between (at a b (part i)) b a h
                  (le_trans _ _ _ one_high (down _ _ less high))
                  (le_trans _ _ _ (down _ _ less low) zero_low) in
              (omega (arith, less, from), omega (arith, less, to))
          | inr e ↦
              let more : a ≤ b = ground (arith, e) in
              let (from, to) =
                to_uint16_between (at a b (part i)) a b l
                  (le_trans _ _ _ zero_high (up _ _ more low))
                  (le_trans _ _ _ (up _ _ more high) one_low) in
              (omega (arith, more, from), omega (arith, more, to))
        ]

    -- A part that is as large as `x`.
    reached :
        (x y : F)
        → Le x y
        → Le y x
        → (n : ℕ) → n < 2 ^ 16
        → Le (at a b y) (of_int (pos n))
        → Le (of_int (pos n)) (at a b y)
        → to_uint16 (at a b x) ≡ n
    reached x y r r' n m low high = elim (Bool-cases (ltb b a)) [
      | inl e ↦
          let less : b < a = ground (arith, e) in
          let (from, to) =
            to_uint16_between (at a b x) n n m (le_trans _ _ _ high (down _ _ less r))
              (le_trans _ _ _ (down _ _ less r') low) in
          omega (arith, from, to)
      | inr e ↦
          let more : a ≤ b = ground (arith, e) in
          let (from, to) =
            to_uint16_between (at a b x) n n m (le_trans _ _ _ high (up _ _ more r'))
              (le_trans _ _ _ (up _ _ more r) low) in
          omega (arith, from, to)
    ]

    pub step_value-between :
        (i : ℕ) → i < 30 → (min a b ≤ step_value float a b i) × (step_value float a b i ≤ max a b)
    unfolding step_value
    step_value-between i q = value_between i q

    pub step_value-first : step_value float a b 0 ≡ a
    unfolding step_value
    step_value-first =
        let (low, high) = at_zero a b h l in
        reached (part 0) (of_int (pos 0)) (zero_div 29 (omega arith) (omega arith))
          (div_nonneg 0 29 (omega arith) (omega arith) (omega arith)) a h low high

    pub step_value-last : step_value float a b 29 ≡ b
    unfolding step_value
    step_value-last =
        let (low, high) = at_one a b h l in
        reached (part 29) (of_int (pos 1))
          (div_le_one 29 29 (omega arith) (omega arith) (omega arith))
          (div_self 29 (omega arith) (omega arith)) b l low high
