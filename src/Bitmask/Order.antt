-- ===== src/Bitmask/Order.antt =====
-- The loop over the set bits runs its body once for each, in ascending order, and 32 rounds of
-- fuel are enough.
use mymouse.Base.{
  ◌≢◌, ◌⊎◌, inl, ℕ, zero, suc, ◌+◌, ◌-◌, ◌^◌, ◌<◌, ◌≤◌, ◌≡◌, refl, ◌∙◌, sym, false, ◌==◌,
  if◌then◌else◌, arith,
}
use mymouse.Base.Bits.{
  test_bit, write_bit, test_bit-lt, test_bit-zero, test_bit-write_bit_self, test_bit-write_bit_ne,
  bits_ext, write_bit-lt,
}
use native.Mathlib.Decide.{ℕ_discrete, dec_lt}
use mymouse.Bitmask.{Ffs, get_next_bit_pos, for_each_bit}

-- The reference: every position from `i` on, for `n` positions, is tested in turn.
unfoldable pub scan {ℓ} : {S : Type ℓ} → (ℕ → S → S) → ℕ → ℕ → ℕ → S → S
scan body zero i mask s = s
scan body (suc n) i mask s = scan body n (suc i) mask (if test_bit mask i == 1 then body i s else s)

pub scan-set {ℓ} :
    {S : Type ℓ} (body : ℕ → S → S) (n i mask : ℕ) (s : S)
    → test_bit mask i ≡ 1
    → scan body (suc n) i mask s ≡ scan body n (suc i) mask (body i s)
unfolding scan
scan-set body n i mask s b = rw b refl

pub scan-skip {ℓ} :
    {S : Type ℓ} (body : ℕ → S → S) (n i mask : ℕ) (s : S)
    → test_bit mask i ≡ 0
    → scan body (suc n) i mask s ≡ scan body n (suc i) mask s
unfolding scan
scan-skip body n i mask s b = rw b refl

scan_agree {ℓ} :
    {S : Type ℓ} (body : ℕ → S → S) (n i a b : ℕ)
    → ((j : ℕ) → i ≤ j → test_bit a j ≡ test_bit b j)
    → (s : S) → scan body n i a s ≡ scan body n i b s
unfolding scan
scan_agree body zero i a b h s = refl
scan_agree body (suc n) i a b h s =
    rw (h i (omega arith)) (scan_agree body n (suc i) a b (λ j k. h j (omega arith)) _)

-- Below `i` no bit is set.
abbrev pub ClearBelow : ℕ → ℕ → Type 0
ClearBelow i m = (j : ℕ) → j < i → test_bit m j ≡ 0

zero_of_clear : (m : ℕ) → m < 2 ^ 32 → ClearBelow 32 m → m ≡ 0
zero_of_clear m h c = bits_ext 32 m 0 h (omega arith) (λ i k. c i k ∙ sym (test_bit-zero i))

pos_of_bit : (m i : ℕ) → test_bit m i ≡ 1 → 0 < m
pos_of_bit zero i h = absurd (omega (arith, h, test_bit-zero i))
pos_of_bit (suc m) i h = omega arith

ClearBelow-suc : (m i : ℕ) → ClearBelow i m → test_bit m i ≡ 0 → ClearBelow (suc i) m
ClearBelow-suc m i c h j k = elim (ℕ_discrete j i) [ yes e ↦ rw e h | no ne ↦ c j (omega arith) ]

ClearBelow-write_bit : (m i : ℕ) → ClearBelow i m → ClearBelow (suc i) (write_bit m i 0)
ClearBelow-write_bit m i c j k = elim (ℕ_discrete i j) [
  | yes e ↦ rw (← e) (test_bit-write_bit_self m i 0)
  | no ne ↦ test_bit-write_bit_ne m i j 0 ne ∙ c j (omega arith)
]

module _ (ffs : Ffs) where
  -- The first set bit is the one that the kernel's function finds.
  lowest :
      (m i : ℕ) → m < 2 ^ 32 → ClearBelow i m → test_bit m i ≡ 1 → (get_next_bit_pos ffs m).0 ≡ i
  unfolding get_next_bit_pos
  lowest m i h c b =
      let pos = pos_of_bit m i b in
      let lsb = ffs.lsb_set m pos h in
      elim (dec_lt (ffs.find_lsb_set m - 1) i) [
        | yes l ↦ absurd (omega (arith, lsb, c (ffs.find_lsb_set m - 1) l))
        | no nl ↦ elim (dec_lt i (ffs.find_lsb_set m - 1)) [
          | yes l ↦ absurd (omega (arith, b, ffs.lsb_least m pos h i l))
          | no nl' ↦ omega arith
        ]
      ]

  -- The loop ends when no bit is left, and otherwise takes the lowest one.
  for_each_bit-zero {ℓ} :
      {S : Type ℓ} (body : ℕ → S → S) (fuel : ℕ) (s : S) → for_each_bit ffs body fuel 0 s ≡ s
  unfolding for_each_bit
  for_each_bit-zero body zero s = refl
  for_each_bit-zero body (suc fuel) s = refl

  for_each_bit-suc {ℓ} :
      {S : Type ℓ} (body : ℕ → S → S) (fuel mask i : ℕ) (s : S)
      → mask < 2 ^ 32
      → ClearBelow i mask
      → test_bit mask i ≡ 1
      → for_each_bit ffs body (suc fuel) mask s
        ≡ for_each_bit ffs body fuel (write_bit mask i 0) (body i s)
  unfolding for_each_bit get_next_bit_pos
  for_each_bit-suc body fuel mask i s h c b =
      let nonzero : (mask == 0) ≡ false = ground (arith, pos_of_bit mask i b) in
      rw (nonzero, for_each_bit) (rw (lowest mask i h c b) refl)

  for_each_bit-scan_from {ℓ} :
      {S : Type ℓ} (body : ℕ → S → S) (n i fuel mask : ℕ)
      → i + n ≡ 32
      → n ≤ fuel
      → mask < 2 ^ 32
      → ClearBelow i mask
      → (s : S) → for_each_bit ffs body fuel mask s ≡ scan body n i mask s
  unfolding scan
  for_each_bit-scan_from body zero i fuel mask e f h c s =
      let c' : ClearBelow 32 mask = λ j k. c j (omega arith) in
      rw (zero_of_clear mask h c') (for_each_bit-zero body fuel s)
  for_each_bit-scan_from body (suc n) i zero mask e f h c s = absurd (omega arith)
  for_each_bit-scan_from body (suc n) i (suc fuel) mask e f h c s =
      elim (ℕ_discrete (test_bit mask i) 1) [
        | yes b ↦ rw (for_each_bit-suc body fuel mask i s h c b) (
            for_each_bit-scan_from body n (suc i) fuel (write_bit mask i 0) (omega arith)
              (omega arith) (write_bit-lt 32 mask i 0 h (omega arith))
              (ClearBelow-write_bit mask i c) (body i s)
            ∙ scan_agree body n (suc i) (write_bit mask i 0) mask
                (λ j k. test_bit-write_bit_ne mask i j 0 (λ (q : i ≡ j). omega arith)) (body i s)
            ∙ sym (scan-set body n i mask s b))
        | no ne ↦
            let z : test_bit mask i ≡ 0 = omega (arith, test_bit-lt mask i) in
            for_each_bit-scan_from body n (suc i) (suc fuel) mask (omega arith) (omega arith) h
              (ClearBelow-suc mask i c z) s
            ∙ sym (scan-skip body n i mask s z)
      ]

  -- For every 32-bit mask the loop does what the scan of the 32 positions from 0 on does: it runs
  -- its body exactly once for each set bit, the lowest first, and 32 rounds of fuel suffice.
  pub for_each_bit-scan {ℓ} :
      {S : Type ℓ} (body : ℕ → S → S) (mask : ℕ)
      → mask < 2 ^ 32
      → (s : S) → for_each_bit ffs body 32 mask s ≡ scan body 32 0 mask s
  for_each_bit-scan body mask h s =
      for_each_bit-scan_from body 32 0 32 mask (omega arith) (omega arith) h
        (λ j k. absurd (omega arith)) s

-- A body that writes only the cell of its own position, and writes `v pos` there.
module _ {ℓ κ} {S : Type ℓ} {X : Type κ} (body : ℕ → S → S) (cell : S → ℕ → X) (v : ℕ → X)
    (own : (p : ℕ) (s : S) → cell (body p s) p ≡ v p)
    (others : (p q : ℕ) (s : S) → p ≢ q → cell (body p s) q ≡ cell s q) where
  pub scan-cell_clear :
      (n i mask q : ℕ) (s : S)
      → (q < i) ⊎ (test_bit mask q ≡ 0)
      → cell (scan body n i mask s) q ≡ cell s q
  unfolding scan
  scan-cell_clear zero i mask q s h = refl
  scan-cell_clear (suc n) i mask q s h = elim (ℕ_discrete (test_bit mask i) 1) [
    | yes b ↦ rw (scan-set body n i mask s b) (
        scan-cell_clear n (suc i) mask q (body i s) (ground arith)
        ∙ others i q s (λ (e : i ≡ q). ground arith))
    | no nb ↦
        rw (scan-skip body n i mask s (omega (arith, test_bit-lt mask i)))
          (scan-cell_clear n (suc i) mask q s (ground arith))
  ]

  pub scan-cell_set :
      (n i mask q : ℕ) (s : S)
      → i ≤ q
      → q < i + n
      → test_bit mask q ≡ 1
      → cell (scan body n i mask s) q ≡ v q
  scan-cell_set zero i mask q s h k b = absurd (omega arith)
  scan-cell_set (suc n) i mask q s h k b = elim (ℕ_discrete i q) [
    | yes e ↦
        rw (scan-set body n i mask s (rw e b))
          (scan-cell_clear n (suc i) mask q (body i s) (inl (omega arith)) ∙ rw e (own q s))
    | no ne ↦ elim (ℕ_discrete (test_bit mask i) 1) [
      | yes c ↦
          rw (scan-set body n i mask s c)
            (scan-cell_set n (suc i) mask q (body i s) (omega arith) (omega arith) b)
      | no nc ↦
          rw (scan-skip body n i mask s (omega (arith, test_bit-lt mask i)))
            (scan-cell_set n (suc i) mask q s (omega arith) (omega arith) b)
    ]
  ]

-- What every round keeps, the loop keeps.
pub scan_keep {ℓ κ} :
    {S : Type ℓ} (P : S → Type κ) (body : ℕ → S → S) (n i mask : ℕ) (s : S)
    → ((p : ℕ) (t : S) → test_bit mask p ≡ 1 → P t → P (body p t))
    → P s
    → P (scan body n i mask s)
unfolding scan
scan_keep P body zero i mask s keep h = h
scan_keep P body (suc n) i mask s keep h = elim (ℕ_discrete (test_bit mask i) 1) [
  | yes b ↦
      rw (scan-set body n i mask s b)
        (scan_keep P body n (suc i) mask (body i s) keep (keep i s b h))
  | no nb ↦
      rw (scan-skip body n i mask s (omega (arith, test_bit-lt mask i)))
        (scan_keep P body n (suc i) mask s keep h)
]

scan_keep_above {ℓ κ} :
    {S : Type ℓ} (Q : S → Type κ) (body : ℕ → S → S) (q mask : ℕ)
    → ((p : ℕ) (t : S) → test_bit mask p ≡ 1 → p ≢ q → Q t → Q (body p t))
    → (n i : ℕ) (s : S) → q < i
    → Q s
    → Q (scan body n i mask s)
unfolding scan
scan_keep_above Q body q mask keep zero i s h x = x
scan_keep_above Q body q mask keep (suc n) i s h x = elim (ℕ_discrete (test_bit mask i) 1) [
  | yes b ↦ rw (scan-set body n i mask s b) (
      scan_keep_above Q body q mask keep n (suc i) (body i s) (omega arith)
        (keep i s b (λ (e : i ≡ q). omega arith) x))
  | no nb ↦
      rw (scan-skip body n i mask s (omega (arith, test_bit-lt mask i)))
        (scan_keep_above Q body q mask keep n (suc i) s (omega arith) x)
]

-- `Q` holds after the round of a set bit `q` that finds `P`; the other rounds keep both.
pub scan_visit {ℓ κ μ} :
    {S : Type ℓ} (P : S → Type κ) (Q : S → Type μ) (body : ℕ → S → S) (q mask : ℕ)
    → test_bit mask q ≡ 1
    → ((p : ℕ) (t : S) → test_bit mask p ≡ 1 → p ≢ q → P t → P (body p t))
    → ((t : S) → P t → Q (body q t))
    → ((p : ℕ) (t : S) → test_bit mask p ≡ 1 → p ≢ q → Q t → Q (body p t))
    → (n i : ℕ) (s : S) → i ≤ q
    → q < i + n
    → P s
    → Q (scan body n i mask s)
scan_visit P Q body q mask b before at_q after zero i s h k x = absurd (omega arith)
scan_visit P Q body q mask b before at_q after (suc n) i s h k x = elim (ℕ_discrete i q) [
  | yes e ↦ rw e (
      rw (scan-set body n q mask s b)
        (scan_keep_above Q body q mask after n (suc q) (body q s) (omega arith) (at_q s x)))
  | no ne ↦ elim (ℕ_discrete (test_bit mask i) 1) [
    | yes c ↦ rw (scan-set body n i mask s c) (
        scan_visit P Q body q mask b before at_q after n (suc i) (body i s) (omega arith)
          (omega arith) (before i s c ne x))
    | no nc ↦
        rw (scan-skip body n i mask s (omega (arith, test_bit-lt mask i)))
          (scan_visit P Q body q mask b before at_q after n (suc i) s (omega arith) (omega arith) x)
  ]
]
