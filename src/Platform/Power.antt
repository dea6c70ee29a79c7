-- ===== src/Platform/Power.antt =====
-- Turning the mouse on and off: app-nrf/src/platform/boot_cond.c and app-nrf/src/platform/shutdown.c.
-- The pins come from the device tree, and the time that the button has to be held from the build
-- configuration. The mode button and the regulator's enable pin are active low.
pub mod Held
pub mod Off
mod Tests
use mymouse.Base.{ℕ, zero, suc, ◌+◌, ◌*◌, ◌/◌, Bool, true, false, ◌||◌, ◌==◌, leb, if◌then◌else◌}
use mymouse.Platform.Gpio.{update}

pub data PinConfig : Type 0 where
  disconnected output input_pull_up sense_low_pull_up : PinConfig

-- ON_OFF_DELAY_TIMER, whose 31250 ticks a second stop at the second compare value.
pub record Board : Type 0 where
  pub vdd_high : Bool  -- the output of the enable pin: the regulator is off while it is high
  pub pins : ℕ → PinConfig
  pub spi_enabled : Bool
  pub system_off : Bool
  pub cc0 : ℕ
  pub cc1 : ℕ

module _ (vdd_pwr button_mode : ℕ) where
  -- The loop over the pins, with `left` of them to go.
  unfoldable pub disconnect_from : ℕ → ℕ → (ℕ → PinConfig) → ℕ → PinConfig
  disconnect_from zero pin pins = pins
  disconnect_from (suc left) pin pins =
      disconnect_from left (suc pin)
        (if pin == vdd_pwr || pin == button_mode then pins else update pins pin disconnected)

  unfoldable pub shutdown : Board → Board
  shutdown b = record b {
    vdd_high = true;
    pins = disconnect_from 32 0 (update b.pins button_mode sense_low_pull_up);
    spi_enabled = false;
    system_off = true;
  }

  -- What the first boot step comes to. `shutdown` does not return.
  pub data Boot : Type 0 where
    powered : Board → Boot
    turned_off : Board → Boot
    no_fuel : Boot

  -- What a round of the polling loop sees: the ticks of the timer, and the level of the button.
  module _ (ticks : ℕ → ℕ) (released : ℕ → Bool) where
    unfoldable pub wait_held : ℕ → ℕ → Board → Boot
    wait_held zero i b = no_fuel
    wait_held (suc fuel) i b =
        let again = wait_held fuel (suc i) b in
        if leb b.cc0 (ticks i)
        then powered (record b { vdd_high = false })
        else (if released i then turned_off (shutdown b) else again)

    -- BUTTON_WAIT_TIME.
    abbrev pub button_wait_time : ℕ → ℕ
    button_wait_time hold_time = hold_time * 1000 / 32

    -- CONFIG_SKIP_BOOT_CONDITION is not set.
    unfoldable pub check_boot_cond : ℕ → ℕ → Board → Boot
    check_boot_cond hold_time fuel b = wait_held fuel 0 (record b {
      cc0 = button_wait_time hold_time;
      cc1 = button_wait_time hold_time + 32;
      vdd_high = true;
      pins = update (update b.pins vdd_pwr output) button_mode input_pull_up;
    })
