-- ===== src/Platform/Gpio.antt =====
-- app-nrf/src/platform/gpio.c: one-time edge interrupts. The pin's SENSE configuration is part of
-- the state; `callbacks` is the array of 32 pointers, `none` for NULL.
pub mod Laws
pub mod Single
use Prim.Native.Nat.{bit_and, bit_or, bit_xor}
use mymouse.Base.{ℕ, ◌*◌, ◌^◌, Bool, true, false, Option, none, some, ◌==◌, if◌then◌else◌}
use mymouse.Base.Bits.{test_bit, bit_not}
use mymouse.Bitmask.{Ffs, for_each_bit, bit_as_bool}

-- NRF_GPIO_PIN_NOSENSE, NRF_GPIO_PIN_SENSE_LOW, NRF_GPIO_PIN_SENSE_HIGH.
pub data Sense : Type 0 where
  no_sense sense_low sense_high : Sense

pub record Gpio (Cb : Type 0) : Type 0 where
  pub int_enabled : ℕ  -- gpio_int_enabled
  pub from_level : ℕ  -- gpio_int_from_level
  pub callbacks : ℕ → Option Cb
  pub sense : ℕ → Sense

abbrev pub update {ℓ} : {A : Type ℓ} → (ℕ → A) → ℕ → A → ℕ → A
update f p v q = if p == q then v else f q

module _ {Cb : Type 0} where
  -- One round of the loop of `gpio_set_edge_cb_mask`.
  abbrev pub arm : ℕ → Cb → ℕ → Gpio Cb → Gpio Cb
  arm from_level callback pin g = record g {
    callbacks = update g.callbacks pin (some callback);
    sense = update g.sense pin (if bit_as_bool from_level pin then sense_low else sense_high);
  }

  abbrev pub disarm : ℕ → Gpio Cb → Gpio Cb
  disarm pin g = record g { sense = update g.sense pin no_sense }

  unfoldable pub set_edge_cb_mask : Ffs → ℕ → ℕ → Cb → Gpio Cb → Gpio Cb
  set_edge_cb_mask ffs pinmask from_level callback g =
      for_each_bit ffs (arm from_level callback) 32 pinmask (record g {
        int_enabled = bit_or g.int_enabled pinmask;
        from_level =
            bit_or (bit_and g.from_level (bit_not 32 pinmask)) (bit_and from_level pinmask);
      })

  unfoldable pub set_edge_cb : Ffs → ℕ → Bool → Cb → Gpio Cb → Gpio Cb
  set_edge_cb ffs pin from_level callback =
      set_edge_cb_mask ffs (2 ^ pin) (if from_level then 2 ^ pin else 0) callback

  unfoldable pub unset_edge_cb_mask : Ffs → ℕ → Gpio Cb → Gpio Cb
  unset_edge_cb_mask ffs pinmask g =
      for_each_bit ffs disarm 32 pinmask
        (record g { int_enabled = bit_and g.int_enabled (bit_not 32 pinmask) })

  unfoldable pub unset_edge_cb : Ffs → ℕ → Gpio Cb → Gpio Cb
  unset_edge_cb ffs pin = unset_edge_cb_mask ffs (2 ^ pin)

  abbrev pub interrupts_from : ℕ → Gpio Cb → ℕ
  interrupts_from levels g = bit_and (bit_xor levels g.from_level) g.int_enabled

-- The interrupt handler runs the callbacks, which are code of other parts and work on the whole
-- state `W` that the registers are a part of. `none` is a call through NULL.
module _ {Cb W : Type 0} (gpio : W → Gpio Cb) (with_gpio : W → Gpio Cb → W)
    (call : Cb → ℕ → Bool → W → W) where
  abbrev pub run_callback : Option Cb → ℕ → Bool → W → Option W
  run_callback none pin level w = none
  run_callback (some callback) pin level w = some (call callback pin level w)

  -- One round of the loop of `gpiote_irq_handler`.
  abbrev pub handle : ℕ → ℕ → Option W → Option W
  handle levels pin none = none
  handle levels pin (some w) =
      let w' = with_gpio w (disarm pin (gpio w)) in
      run_callback ((gpio w').callbacks pin) pin (bit_as_bool levels pin) w'

  unfoldable pub irq_handler : Ffs → ℕ → W → Option W
  irq_handler ffs levels w =
      let g = gpio w in
      let from = interrupts_from levels g in
      for_each_bit ffs (handle levels) 32 from
        (some (with_gpio w (record g { int_enabled = bit_and g.int_enabled (bit_not 32 from) })))
