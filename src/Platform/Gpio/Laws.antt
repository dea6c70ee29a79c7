-- ===== src/Platform/Gpio/Laws.antt =====
-- What the edge interrupts of gpio.c do to each pin.
use Prim.Native.Nat.{bit_and, bit_or, bit_xor}
use mymouse.Base.{
  ℕ, ◌+◌, ◌-◌, ◌%◌, ◌^◌, ◌<◌, ◌≡◌, refl, Bool, some, arith, min, max, inr, if◌then◌else◌, ◌==◌,
}
use native.Mathlib.Decide.{ℕ_discrete}
use mymouse.Base.Bits.{
  test_bit, bit_not, test_bit-lt, test_bit-bit_or, test_bit-bit_and, test_bit-bit_xor,
  test_bit-bit_not,
}
use mymouse.Bitmask.{Ffs, bit_as_bool}
use mymouse.Bitmask.Order.{for_each_bit-scan, scan, scan-cell_clear, scan-cell_set, scan_keep}
use mymouse.Platform.Gpio.{
  Gpio, no_sense, sense_low, sense_high, arm, disarm, set_edge_cb_mask, unset_edge_cb_mask,
  interrupts_from, handle, irq_handler,
}

module _ (ffs : Ffs) {Cb : Type 0} (pinmask from_level : ℕ) (callback : Cb) (g : Gpio Cb)
    (mask_fits : pinmask < 2 ^ 32) where
  abbrev started : Gpio Cb
  started = record g {
    int_enabled = bit_or g.int_enabled pinmask;
    from_level = bit_or (bit_and g.from_level (bit_not 32 pinmask)) (bit_and from_level pinmask);
  }

  set_edge_cb_mask-scan :
      set_edge_cb_mask ffs pinmask from_level callback g
      ≡ scan (arm from_level callback) 32 0 pinmask started
  unfolding set_edge_cb_mask
  set_edge_cb_mask-scan = for_each_bit-scan ffs (arm from_level callback) pinmask mask_fits started

  abbrev armed : Gpio Cb
  armed = scan (arm from_level callback) 32 0 pinmask started

  registers_kept :
      (armed.int_enabled ≡ started.int_enabled) × (armed.from_level ≡ started.from_level)
  registers_kept =
      scan_keep (λ t. (t.int_enabled ≡ started.int_enabled) × (t.from_level ≡ started.from_level))
        (arm from_level callback) 32 0 pinmask started (λ p t b k. k) (refl, refl)

  enabled_bit :
      (pin : ℕ)
      → test_bit armed.int_enabled pin ≡ max (test_bit g.int_enabled pin) (test_bit pinmask pin)
  enabled_bit pin = rw registers_kept.0 (test_bit-bit_or g.int_enabled pinmask pin)

  level_bit :
      (pin : ℕ)
      → pin < 32
      → test_bit armed.from_level pin
        ≡ max
            (min (test_bit g.from_level pin) (1 - test_bit pinmask pin))
            (min (test_bit from_level pin) (test_bit pinmask pin))
  level_bit pin h =
      rw
        (
          registers_kept.1,
          test_bit-bit_or (bit_and g.from_level (bit_not 32 pinmask)) (bit_and from_level pinmask)
              pin,
          test_bit-bit_and g.from_level (bit_not 32 pinmask) pin,
          test_bit-bit_and from_level pinmask pin,
          test_bit-bit_not 32 pinmask pin mask_fits h,
        )
        refl

  -- After `gpio_set_edge_cb_mask`, a pin of the mask is enabled, its level is the given one, the
  -- callback is the given one and it senses the opposite level; and a pin outside of the mask is as
  -- it was before. The mask is a 32-bit word.
  pub set_edge_cb_mask-pin :
      (pin : ℕ)
      → pin < 32
      → let g' = set_edge_cb_mask ffs pinmask from_level callback g in
        let chosen = bit_as_bool pinmask pin in
        (test_bit g'.int_enabled pin ≡ (if chosen then 1 else test_bit g.int_enabled pin))
        × (test_bit g'.from_level pin
            ≡ (if chosen then test_bit from_level pin else test_bit g.from_level pin))
        × (g'.callbacks pin ≡ (if chosen then some callback else g.callbacks pin))
        × (g'.sense pin ≡ (
            if chosen
            then (if bit_as_bool from_level pin then sense_low else sense_high)
            else g.sense pin))
  set_edge_cb_mask-pin pin h =
      rw set_edge_cb_mask-scan (elim (ℕ_discrete (test_bit pinmask pin) 1) [
        | yes b ↦ rw b (
          omega (arith, enabled_bit pin, test_bit-lt g.int_enabled pin),
          omega (arith, level_bit pin h, test_bit-lt from_level pin),
          scan-cell_set (arm from_level callback) (λ t. t.callbacks) (λ p. some callback)
              (λ p t. ground arith) (λ p q t ne. ground arith) 32 0 pinmask pin started
              (omega arith) (omega arith) b,
          scan-cell_set (arm from_level callback) (λ t. t.sense)
              (λ p. if bit_as_bool from_level p then sense_low else sense_high)
              (λ p t. ground arith) (λ p q t ne. ground arith) 32 0 pinmask pin started
              (omega arith) (omega arith) b,
        )
        | no nb ↦
            let z : test_bit pinmask pin ≡ 0 = omega (arith, test_bit-lt pinmask pin) in
            rw z (
              omega (arith, enabled_bit pin),
              omega (arith, level_bit pin h, test_bit-lt g.from_level pin),
              scan-cell_clear (arm from_level callback) (λ t. t.callbacks) (λ p. some callback)
                  (λ p t. ground arith) (λ p q t ne. ground arith) 32 0 pinmask pin started (inr z),
              scan-cell_clear (arm from_level callback) (λ t. t.sense)
                  (λ p. if bit_as_bool from_level p then sense_low else sense_high)
                  (λ p t. ground arith) (λ p q t ne. ground arith) 32 0 pinmask pin started (inr z),
            )
      ])

module _ (ffs : Ffs) {Cb : Type 0} (pinmask : ℕ) (g : Gpio Cb) (mask_fits : pinmask < 2 ^ 32) where
  abbrev masked : Gpio Cb
  masked = record g { int_enabled = bit_and g.int_enabled (bit_not 32 pinmask) }

  unset_edge_cb_mask-scan : unset_edge_cb_mask ffs pinmask g ≡ scan disarm 32 0 pinmask masked
  unfolding unset_edge_cb_mask
  unset_edge_cb_mask-scan = for_each_bit-scan ffs disarm pinmask mask_fits masked

  disabled_bit :
      (pin : ℕ)
      → pin < 32
      → test_bit (scan disarm 32 0 pinmask masked).int_enabled pin
        ≡ min (test_bit g.int_enabled pin) (1 - test_bit pinmask pin)
  disabled_bit pin h =
      rw
        (
          scan_keep (λ t. t.int_enabled ≡ masked.int_enabled) disarm 32 0 pinmask masked
              (λ p t b k. k) refl,
          test_bit-bit_and g.int_enabled (bit_not 32 pinmask) pin,
          test_bit-bit_not 32 pinmask pin mask_fits h,
        )
        refl

  -- After `gpio_unset_edge_cb_mask`, a pin of the mask is disabled and senses nothing, and the
  -- others are as they were before. The mask is a 32-bit word.
  unset_edge_cb_mask-pin :
      (pin : ℕ)
      → pin < 32
      → let g' = unset_edge_cb_mask ffs pinmask g in
        let chosen = bit_as_bool pinmask pin in
        (test_bit g'.int_enabled pin ≡ (if chosen then 0 else test_bit g.int_enabled pin))
        × (g'.sense pin ≡ (if chosen then no_sense else g.sense pin))
  unset_edge_cb_mask-pin pin h =
      rw unset_edge_cb_mask-scan (elim (ℕ_discrete (test_bit pinmask pin) 1) [
        | yes b ↦ rw b (
          omega (arith, disabled_bit pin h),
          scan-cell_set disarm (λ t. t.sense) (λ p. no_sense) (λ p t. ground arith)
              (λ p q t ne. ground arith) 32 0 pinmask pin masked (omega arith) (omega arith) b,
        )
        | no nb ↦
            let z : test_bit pinmask pin ≡ 0 = omega (arith, test_bit-lt pinmask pin) in
            rw z (
              omega (arith, disabled_bit pin h, test_bit-lt g.int_enabled pin),
              scan-cell_clear disarm (λ t. t.sense) (λ p. no_sense) (λ p t. ground arith)
                  (λ p q t ne. ground arith) 32 0 pinmask pin masked (inr z),
            )
      ])

module _ {Cb W : Type 0} (gpio : W → Gpio Cb) (with_gpio : W → Gpio Cb → W)
    (call : Cb → ℕ → Bool → W → W) (ffs : Ffs) (levels : ℕ) (w : W)
    (fits : interrupts_from levels (gpio w) < 2 ^ 32) where
  abbrev from : ℕ
  from = interrupts_from levels (gpio w)

  -- The interrupt handler handles exactly the pins that are enabled and whose level differs from
  -- the one they were armed at: it disables all of them first, and then takes them in ascending
  -- order, one round each. The mask of these pins is a 32-bit word.
  pub irq_handler-scan :
      (irq_handler gpio with_gpio call ffs levels w
        ≡ scan (handle gpio with_gpio call levels) 32 0 from (
            some (
              with_gpio w (record (gpio w) {
                int_enabled = bit_and (gpio w).int_enabled (bit_not 32 from);
              }))))
      × ((pin : ℕ)
          → test_bit from pin ≡ (
              if test_bit (gpio w).int_enabled pin == 1
              then (test_bit levels pin + test_bit (gpio w).from_level pin) % 2
              else 0))
  unfolding irq_handler
  irq_handler-scan = (
    for_each_bit-scan ffs (handle gpio with_gpio call levels) from fits _,
    λ pin.
        rw
          (
            test_bit-bit_and (bit_xor levels (gpio w).from_level) (gpio w).int_enabled pin,
            test_bit-bit_xor levels (gpio w).from_level pin,
          )
          (ground (arith, test_bit-lt (gpio w).int_enabled pin)),
  )
