-- ===== src/Debounce/Ring.antt =====
-- The shift array as cells counted from cell 0: what a request and a tick do to each cell.
use mymouse.Base.{
  ℕ, ◌+◌, ◌<◌, ◌≤◌, ◌≡◌, ◌≢◌, ◌∙◌, List, if◌then◌else◌, ◌==◌, arith, get_or, length, length-set,
  get_or-set_self, get_or-set_ne, ap,
}
use mymouse.Base.Bits.{write_bit}
use mymouse.Bitmask.{Ffs}
use native.Mathlib.Decide.{ℕ_discrete}
use mymouse.Debounce.{Debounce, circular_index_to_phys, request, timer_cb}

-- The array has N + 1 cells and cell 0 is one of them.
abbrev pub IsRing : {User : Type 0} → ℕ → Debounce User → Type 0
IsRing n d = (length d.shiftarr ≡ n + 1) × (d.cell0_index ≤ n)

abbrev pub cell : {User : Type 0} → ℕ → Debounce User → ℕ → ℕ
cell n d j = get_or d.shiftarr (circular_index_to_phys n d.cell0_index j) 0

phys-lt : (n c j : ℕ) → c ≤ n → j ≤ n → circular_index_to_phys n c j < n + 1
phys-lt n c j h k = ground arith

phys-ne :
    (n c i j : ℕ)
    → c ≤ n
    → i ≤ n
    → j ≤ n
    → i ≢ j
    → circular_index_to_phys n c i ≢ circular_index_to_phys n c j
phys-ne n c i j h k l ne = ground arith

-- After a rotation index `j` is what `j + 1` was before, and the last index is the old cell 0.
phys-rotate :
    (n c j : ℕ)
    → c ≤ n
    → j < n
    → circular_index_to_phys n (circular_index_to_phys n c 1) j ≡ circular_index_to_phys n c (j + 1)
phys-rotate n c j h k = ground arith

phys-rotate_last :
    (n c : ℕ)
    → 0 < n
    → c ≤ n
    → circular_index_to_phys n (circular_index_to_phys n c 1) n ≡ circular_index_to_phys n c 0
phys-rotate_last n c p h = ground arith

module _ {User : Type 0} (n : ℕ) (d : Debounce User) (ring : IsRing n d) where
  abbrev phys : ℕ → ℕ
  phys = circular_index_to_phys n d.cell0_index

  in_range : (j : ℕ) → j ≤ n → phys j < length d.shiftarr
  in_range j h = omega (arith, ring.0, phys-lt n d.cell0_index j ring.1 h)

  pub request-IsRing : (pin : ℕ) → IsRing n (request n pin d)
  unfolding request
  request-IsRing pin = (length-set d.shiftarr _ _ ∙ ring.0, ring.1)

  pub cell-request :
      (pin j : ℕ)
      → j ≤ n
      → cell n (request n pin d) j ≡ (if j == n then write_bit (cell n d n) pin 1 else cell n d j)
  unfolding request
  cell-request pin j h = elim (ℕ_discrete j n) [
    | yes e ↦
        rw e (get_or-set_self d.shiftarr (phys n) _ 0 (in_range n (omega arith)) ∙ ground arith)
    | no ne ↦
        get_or-set_ne d.shiftarr (phys n) (phys j) _ 0
          (phys-ne n d.cell0_index n j ring.1 (omega arith) h (λ (e : n ≡ j). omega arith))
        ∙ ground arith
  ]

  pub cell-request_last : (pin : ℕ) → cell n (request n pin d) n ≡ write_bit (cell n d n) pin 1
  cell-request_last pin = cell-request pin n (omega arith) ∙ ground arith

  pub cell-request_ne : (pin j : ℕ) → j ≤ n → j ≢ n → cell n (request n pin d) j ≡ cell n d j
  cell-request_ne pin j h ne = cell-request pin j h ∙ ground arith

  module _ (ffs : Ffs) (levels : ℕ) (pos : 0 < n) where
    pub timer_cb-IsRing : IsRing n (timer_cb n ffs levels d)
    unfolding timer_cb
    timer_cb-IsRing = (
      ground (arith, ring, length-set d.shiftarr (phys 1) 0),
      omega (arith, phys-lt n d.cell0_index 1 ring.1 (omega arith)),
    )

    abbrev after : List ℕ
    after = (timer_cb n ffs levels d).shiftarr

    after_head : get_or after (phys 1) 0 ≡ 0
    unfolding timer_cb
    after_head = ground (arith, get_or-set_self d.shiftarr (phys 1) 0 0 (in_range 1 (omega arith)))

    after_ne : (i : ℕ) → phys 1 ≢ i → get_or after i 0 ≡ get_or d.shiftarr i 0
    unfolding timer_cb
    after_ne i ne = ground (arith, get_or-set_ne d.shiftarr (phys 1) i 0 0 ne)

    cell-rotate :
        (j i : ℕ)
        → i ≤ n
        → i ≢ 1
        → circular_index_to_phys n (circular_index_to_phys n d.cell0_index 1) j ≡ phys i
        → cell n (timer_cb n ffs levels d) j ≡ cell n d i
    unfolding timer_cb
    cell-rotate j i h ne e =
        ap (λ (k : ℕ). get_or after k 0) e
        ∙ after_ne (phys i)
            (phys-ne n d.cell0_index 1 i ring.1 (omega arith) h (λ (q : 1 ≡ i). omega arith))

    -- A tick moves each cell one index down, and clears the one that comes to index 0.
    pub cell-timer_cb :
        (j : ℕ)
        → j ≤ n
        → cell n (timer_cb n ffs levels d) j
          ≡ (if j == 0 then 0 else (if j == n then cell n d 0 else cell n d (j + 1)))
    cell-timer_cb j h = elim (ℕ_discrete j 0) [
      | yes e ↦ rw e (
          unfold timer_cb in
          (ap (λ (k : ℕ). get_or after k 0) (phys-rotate n d.cell0_index 0 ring.1 pos)
            ∙ after_head))
      | no ne ↦ elim (ℕ_discrete j n) [
        | yes e ↦
            cell-rotate j 0 (omega arith) (omega arith)
              (rw e (phys-rotate_last n d.cell0_index pos ring.1))
            ∙ ground arith
        | no nn ↦
            cell-rotate j (j + 1) (omega arith) (omega arith)
              (phys-rotate n d.cell0_index j ring.1 (omega arith))
            ∙ ground arith
      ]
    ]

    pub cell-timer_cb_down :
        (j : ℕ) → 0 < j → j < n → cell n (timer_cb n ffs levels d) j ≡ cell n d (j + 1)
    cell-timer_cb_down j p h = cell-timer_cb j (omega arith) ∙ ground arith
