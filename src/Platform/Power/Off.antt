-- ===== src/Platform/Power/Off.antt =====
-- What is left of the pins when the mouse is off.
use mymouse.Base.{
  ℕ, zero, suc, ◌+◌, ◌<◌, ◌≡◌, ◌≢◌, refl, true, false, ◌||◌, ◌&&◌, not, leb, ltb, ◌==◌,
  if◌then◌else◌, arith,
}
use mymouse.Platform.Gpio.{update}
use mymouse.Platform.Power.{
  Board, PinConfig, disconnected, sense_low_pull_up, disconnect_from, shutdown,
}

module _ (vdd_pwr button_mode : ℕ) where
  -- The loop disconnects each pin that it visits but the two.
  disconnect_from-pin :
      (left pin : ℕ) (pins : ℕ → PinConfig) (q : ℕ)
      → disconnect_from vdd_pwr button_mode left pin pins q ≡ (
          if leb pin q && ltb q (pin + left) && not (q == vdd_pwr || q == button_mode)
          then disconnected
          else pins q)
  unfolding disconnect_from
  disconnect_from-pin zero pin pins q = ground arith
  disconnect_from-pin (suc left) pin pins q = ground (
    arith,
    disconnect_from-pin left (suc pin)
        (if pin == vdd_pwr || pin == button_mode then pins else update pins pin disconnected) q,
  )

  -- `shutdown` turns the regulator off, lets the mode button wake the chip by its low level, and
  -- leaves every other pin but the regulator's disconnected, with SPI disabled; it ends in power off.
  shutdown-pins :
      (b : Board) (q : ℕ)
      → q < 32
      → vdd_pwr ≢ button_mode
      → let off = shutdown vdd_pwr button_mode b in
        (off.vdd_high ≡ true)
        × (off.pins q ≡ (
            if q == button_mode
            then sense_low_pull_up
            else (if q == vdd_pwr then b.pins q else disconnected)))
        × (off.spi_enabled ≡ false)
        × (off.system_off ≡ true)
  unfolding shutdown
  shutdown-pins b q h ne = (
    refl,
    ground (arith, disconnect_from-pin 32 0 (update b.pins button_mode sense_low_pull_up) q),
    refl,
    refl,
  )
