-- ===== src/Platform/Power/Tests.antt =====
-- The board turned on and off.
use mymouse.Base.{ℕ, ◌*◌, ◌+◌, ◌<◌, ◌≡◌, Bool, true, false, arith, leb}
use mymouse.Platform.Gpio.{update}
use mymouse.Platform.Power.{Board, output, input_pull_up, powered, check_boot_cond}
use mymouse.Platform.Power.Held.{check_boot_cond-held}

-- The regulator is on pin 10, the button on pin 3.
abbrev board : Board
board = record {
  vdd_high = false;
  pins = λ p. input_pull_up;
  spi_enabled = true;
  system_off = false;
  cc0 = 0;
  cc1 = 0;
}

-- A poll every 1000 ticks, and a button that is released after 40 of them; 500 ms to hold.
abbrev ticks : ℕ → ℕ
ticks i = i * 1000

abbrev released : ℕ → Bool
released i = leb 40 i

check_boot_cond-held_example :
    (check_boot_cond 10 3 ticks released 500 100 board
      ≡ powered (record {
        vdd_high = false;
        pins = update (update board.pins 10 output) 3 input_pull_up;
        spi_enabled = true;
        system_off = false;
        cc0 = 15625;
        cc1 = 15657;
      }))
    × (500 * 1000 < 32 * ticks 16 + 32)
check_boot_cond-held_example =
    check_boot_cond-held 10 3 ticks released 500 16 100 board (omega arith) (λ j h. omega arith)
      (omega arith)
