-- ===== src/Platform/Power/Held.antt =====
-- When the mouse turns on.
use mymouse.Base.{
  ℕ, zero, suc, ◌+◌, ◌*◌, ◌<◌, ◌≤◌, ◌≡◌, refl, Bool, true, false, not, ◌&&◌, leb, if◌then◌else◌,
  arith,
}
use mymouse.Platform.Gpio.{update}
use mymouse.Platform.Power.{
  Board, output, input_pull_up, powered, turned_off, button_wait_time, wait_held, check_boot_cond,
  shutdown,
}

module _ (vdd_pwr button_mode : ℕ) (ticks : ℕ → ℕ) (released : ℕ → Bool) where
  -- The button is down at each of `n` rounds, from round `i` on.
  abbrev pub held : ℕ → ℕ → Bool
  held zero i = true
  held (suc n) i = not (released i) && held n (suc i)

  -- The timer expires after `n` rounds.
  wait_held-held :
      (n i k fuel : ℕ) (b : Board)
      → i + n ≡ k
      → n < fuel
      → ((j : ℕ) → j < k → ticks j < b.cc0)
      → b.cc0 ≤ ticks k
      → wait_held vdd_pwr button_mode ticks released fuel i b ≡ (
          if held n i
          then powered (record b { vdd_high = false })
          else turned_off (shutdown vdd_pwr button_mode b))
  unfolding wait_held
  wait_held-held n i k zero b e f before after = absurd (omega arith)
  wait_held-held zero i k (suc fuel) b e f before after =
      let e' : k ≡ i = omega arith in
      let expired : leb b.cc0 (ticks i) ≡ true = ground (arith, rw e' at after) in rw expired refl
  wait_held-held (suc n) i k (suc fuel) b e f before after = ground (
    arith,
    before i (omega arith),
    wait_held-held n (suc i) k fuel b (omega arith) (omega arith) before after,
  )

  -- Let the timer reach the time for which the button has to be held at some poll. Then the polling
  -- ends: if the button was down at every poll before that one, the regulator is turned on, and at
  -- least the configured time has passed but for one tick of 32 us; if not, the mouse is shut down.
  -- The fuel is more than the number of polls.
  pub check_boot_cond-held :
      (hold_time k fuel : ℕ) (b : Board)
      → k < fuel
      → ((j : ℕ) → j < k → ticks j < button_wait_time vdd_pwr button_mode ticks released hold_time)
      → button_wait_time vdd_pwr button_mode ticks released hold_time ≤ ticks k
      → let configured : Board = record b {
        cc0 = button_wait_time vdd_pwr button_mode ticks released hold_time;
        cc1 = button_wait_time vdd_pwr button_mode ticks released hold_time + 32;
        vdd_high = true;
        pins = update (update b.pins vdd_pwr output) button_mode input_pull_up;
      } in
        (check_boot_cond vdd_pwr button_mode ticks released hold_time fuel b ≡ (
          if held k 0
          then powered (record configured { vdd_high = false })
          else turned_off (shutdown vdd_pwr button_mode configured)))
        × (hold_time * 1000 < 32 * ticks k + 32)
  unfolding check_boot_cond
  check_boot_cond-held hold_time k fuel b f before after =
      (wait_held-held k 0 k fuel _ (omega arith) f before after, omega arith)
